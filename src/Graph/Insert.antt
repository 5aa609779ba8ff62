-- ===== src/Graph/Insert.antt =====
-- The insertion of one edge in a table.
use gast_co_co.Prelude.{
  ℕ, ◌+◌, ◌<◌, ◌≡◌, refl, sym, ap, ◌∙◌, List, [], ◌∷◌, ◌++◌, arith, ℤ, inl, inr, ◌==◌,
  if◌then◌else◌, Option, none, some, true, false, lt→ltb, length,
}
use gast_co_co.Prelude.Distinct.{Absent}
use gast_co_co.Types.{AdjUnit, NextPointer}
use gast_co_co.Tree.{get_leaf_end, Node}
use gast_co_co.Tree.Items.{Item, at, sep}
use gast_co_co.Tree.Order.{units, stored}
use gast_co_co.Tree.Rows.{addresses}
use gast_co_co.Tree.Correct.{root_items, Ending}
use gast_co_co.Tree.Valid.{dests}
use gast_co_co.Tree.Ends.{tree_addresses, IsLast, leaf_ends}
use gast_co_co.Vertex.{Store, CblNode, Sizes, u32_mod, lv1_address, write_lv1, relink}
use gast_co_co.Vertex.Relink.{relink-IsRow, units-relink}
use gast_co_co.Vertex.Full.{relink-IsFramed}
use gast_co_co.Vertex.Valid.{IsSmall, IsLarge, IsUsable, IsVertex, IsLocal, next_units}
use gast_co_co.Vertex.Insert.{insert-IsResult}
use gast_co_co.Graph.{Table, set_node, link_last, insert_vertex}
use gast_co_co.Graph.Valid.{IsTable, put_units, set_node-IsTable}

-- What a new link at the end of a vertex does: the vertex has it, and nothing else changes.
pub record IsRelinked (z : Sizes) (p : NextPointer) (t : ℤ) (i : ℕ) (s s' : Store) (v : CblNode)
    (us : List AdjUnit) : Type 0 where
  pub vertex : IsVertex z s' p t i v us
  pub is_local : IsLocal i s s' v v

units-none : (f : ℕ → List AdjUnit) (row : List Item) → addresses row ≡ [] → units f row ≡ []
units-none f [] e = refl
units-none f (at a ∷ row) e = absurd (cc)
units-none f (sep k ∷ row) e = units-none f row e

Ending-free :
    (r : Option Node) (p : NextPointer) (t : ℤ) (rest : List ℕ) (e : ℕ)
    → addresses (root_items r) ≡ rest ++ e ∷ []
    → Ending r p t
Ending-free none p t [] e q = absurd (cc)
Ending-free none p t (x ∷ rest) e q = absurd (cc)
Ending-free (some n) p t rest e q = tt

-- The last leaf chunk of a vertex in the second form.
last_leaf :
    (z : Sizes) (s : Store) (p : NextPointer) (t : ℤ) (v : CblNode) (us : List AdjUnit)
    → IsLarge z s p t v us
    → (e : ℕ) × (rest : List ℕ) × (get_leaf_end v.bpt ≡ some e)
      × (tree_addresses v.bpt ≡ rest ++ e ∷ [])
last_leaf z s p t v us is = go (get_leaf_end v.bpt) refl (leaf_ends v.bpt).1
  where
    go :
        (o : Option ℕ)
        → get_leaf_end v.bpt ≡ o
        → IsLast o (tree_addresses v.bpt)
        → (e : ℕ) × (rest : List ℕ) × (get_leaf_end v.bpt ≡ some e)
          × (tree_addresses v.bpt ≡ rest ++ e ∷ [])
    go none q h =
        let empty : us ≡ [] =
          sym is.units_are ∙ units-none (stored s.heap) (root_items v.bpt.root_node) h in
        let zero_long : length us ≡ 0 = ap length empty in
        absurd (omega (arith, is.full, zero_long))
    go (some e) q (rest, h) = (e, rest, q, h)

module _ (z : Sizes) (p p' : NextPointer) (t t' : ℤ) (i : ℕ) (s : Store) (v : CblNode)
    (us : List AdjUnit) where
  -- A new link in the level-1 chunk.
  pub small-IsRelinked :
      IsSmall z s p t i v us
      → IsRelinked z p' t' i s
          (write_lv1 s i (record (s.lv1 i) { next_ptr = p'; next_type = t' }))
          v
          us
  unfolding write_lv1
  small-IsRelinked is =
      let c = record (s.lv1 i) { next_ptr = p'; next_type = t' } in
      let self : (write_lv1 s i c).lv1 i ≡ c = ground arith in
      record {
        vertex = inl (record {
          level = is.level;
          neighboor = is.neighboor;
          counted = is.counted;
          in_use = rw self is.in_use;
          size = rw self is.size;
          fits = is.fits;
          entries_are = rw self is.entries_are;
          link = rw self refl;
          link_type = rw self refl;
          no_tree = is.no_tree;
          chunks = is.chunks;
          distinct = is.distinct;
        });
        is_local = record {
          lv1_kept = λ x ne. ground arith;
          framed = record {
            grown_heap = omega arith;
            kept = λ x l out. refl;
            inside = λ x l out. out;
            front = λ x e. e;
          };
        };
      }

  -- A new link in the last leaf chunk.
  pub large-IsRelinked :
      (e : ℕ) (rest : List ℕ)
      → tree_addresses v.bpt ≡ rest ++ e ∷ []
      → IsLarge z s p t v us
      → IsRelinked z p' t' i s (record s { heap = relink e p' t' s.heap }) v us
  large-IsRelinked e rest ends is =
      let row = root_items v.bpt.root_node in
      record {
        vertex = inr (record {
          level = is.level;
          tree = record {
            row = relink-IsRow z.leaf_ncnt e p p' t t' s.heap row rest ends is.tree.row;
            counted = is.tree.counted;
            ending = Ending-free v.bpt.root_node p' t' rest e ends;
          };
          units_are = units-relink e p' t' s.heap row ∙ is.units_are;
          counted = is.counted;
          full = is.full;
          neighboor = is.neighboor;
          chunks = is.chunks;
        });
        is_local = record {
          lv1_kept = λ x ne. refl;
          framed = relink-IsFramed e p' t' s.heap (tree_addresses v.bpt) rest ends;
        };
      }

  pub link_last-IsRelinked :
      IsVertex z s p t i v us
      → (s' : Store) × (link_last s v p' t' ≡ some s') × IsRelinked z p' t' i s s' v us
  unfolding link_last
  link_last-IsRelinked (inl is) =
      let test : (v.level == 1) ≡ true = rw is.level refl in
      let here : lv1_address v.neighboor ≡ some i = ap lv1_address is.neighboor in
      (
        write_lv1 s i (record (s.lv1 i) { next_ptr = p'; next_type = t' }),
        rw (test, here),
        small-IsRelinked is,
      )
  link_last-IsRelinked (inr is) =
      let (e, rest, here, ends) = last_leaf z s p t v us is in
      let test : (v.level == 1) ≡ false = rw is.level refl in
      let test' : (v.level == 2) ≡ true = rw is.level refl in
      (
        record s { heap = relink e p' t' s.heap },
        rw (test, test', here),
        large-IsRelinked e rest ends is,
      )

-- `VertexTable[src].Insert` keeps the table valid.
pub insert_vertex-IsTable :
    (z : Sizes) (us : ℕ → List AdjUnit) (t : Table) (src : ℕ) (u : AdjUnit)
    → IsUsable z
    → IsTable z us t
    → src < t.size
    → Absent u.dest (dests (us src))
    → length (us src) + 1 < u32_mod
    → (t' : Table) × (flag : ℕ) × (insert_vertex z src u t ≡ some (t', flag))
      × IsTable z (put_units us src (next_units z u (us src))) t'
      × (t'.size ≡ t.size)
      × (flag ≡ (if length (us src) == z.lv1_ncnt then 2 else 1))
unfolding insert_vertex set_node
insert_vertex-IsTable z us t src u usable valid lt new bound =
    let w = valid.vertices src lt in
    let ((s', v', flag), e, is) =
      insert-IsResult z w.pointer w.type src u (us src) t.store (t.node src) usable w.vertex new
        bound in
    (
      set_node t src v' s',
      flag,
      rw (lt→ltb src t.size lt, e) refl,
      set_node-IsTable z us t src v' s' (next_units z u (us src)) valid lt
          (record { pointer = w.pointer; type = w.type; vertex = is.vertex }) is.is_local,
      refl,
      is.code,
    )
