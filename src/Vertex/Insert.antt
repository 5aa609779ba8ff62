-- ===== src/Vertex/Insert.antt =====
-- `CBLNode::Insert`: the vertex as a collection of units, in its two forms and on the way from the
-- one to the other.
use gast_co_co.Prelude.{
  ℕ, true, false, suc, ◌+◌, ◌%◌, ◌<◌, ◌≡◌, ◌≢◌, refl, sym, ap, ◌∙◌, inl, inr, List, [], ◌∷◌, ◌++◌,
  arith, ltb, ◌==◌, ℤ, Bool-cases, length, set, length-set, take-set, take-suc, length-append, some,
  lt→ltb, ge→ltb, ltb→lt, ltb→ge,
}
use gast_co_co.Prelude.Distinct.{Absent, Distinct}
use gast_co_co.Types.{AdjUnit, NextPointer}
use gast_co_co.Leaf.{no_unit}
use gast_co_co.Leaf.Insert.{insert_sorted, length-insert_sorted}
use gast_co_co.Leaf.Split.{get_or-set_self}
use gast_co_co.Tree
use gast_co_co.Tree.{Heap, Node, BplusTree, empty_tree, write, get_leaf_start, get_leaf_end}
use gast_co_co.Tree.Order.{stored}
use gast_co_co.Tree.Valid.{dests}
use gast_co_co.Tree.Correct.{root_items}
use gast_co_co.Tree.Ends.{leaf_ends, tree_addresses, get_leaf_start-eq, first_of-units}
use gast_co_co.Tree.Frame.{first_of, IsFramed}
use gast_co_co.Vertex
use gast_co_co.Vertex.{
  Lv1Chunk, Store, CblNode, Sizes, u32_mod, write_lv1, lv1_entries, push, insert_all, relink,
  leaf_pointer, convert, lv1_address, move_units, finish,
}
use gast_co_co.Vertex.Convert.{insert_all_sorted, insert-HasTaken}
use gast_co_co.Vertex.Valid.{IsUsable, IsSmall, IsLarge, IsVertex, IsResult}
use gast_co_co.Vertex.Full.{move_units-HasTaken, finish-IsResult, end-cases, branch-eq, finish-eq}

push-entries :
    (u : AdjUnit) (c : Lv1Chunk)
    → c.count < length c.neighboor_chunk
    → c.count + 1 < u32_mod
    → lv1_entries (push u c) ≡ lv1_entries c ++ u ∷ []
unfolding push
push-entries u c h k =
    let arr = c.neighboor_chunk in
    let e : (c.count + 1) % u32_mod ≡ suc c.count = omega arith in
    rw (
      e,
      take-suc c.count (set arr c.count u) no_unit (omega (arith, length-set arr c.count u)),
      take-set c.count c.count arr u (omega arith),
      get_or-set_self arr c.count u h,
    )

Distinct-snoc :
    (us : List AdjUnit) (u : AdjUnit)
    → Distinct (dests us)
    → Absent u.dest (dests us)
    → Distinct (dests (us ++ u ∷ []))
Distinct-snoc [] u h k = (tt, tt)
Distinct-snoc (x ∷ us) u h k =
    (Absent-snoc x.dest us u h.0 (λ e. k.0 (sym e)), Distinct-snoc us u h.1 k.1)
  where
    Absent-snoc :
        (d : ℕ) (xs : List AdjUnit) (w : AdjUnit)
        → Absent d (dests xs)
        → d ≢ w.dest
        → Absent d (dests (xs ++ w ∷ []))
    Absent-snoc d [] w p q = (q, tt)
    Absent-snoc d (y ∷ xs) w p q = (p.0, Absent-snoc d xs w p.1 q)

nonempty :
    {z : Sizes} {s : Store} {p : NextPointer} {t : ℤ} {v : CblNode} {us : List AdjUnit}
    → IsLarge z s p t v us
    → (a : ℕ) × (first_of (tree_addresses v.bpt) ≡ some a)
nonempty {s} {v} is =
    first_of-units (stored s.heap) (root_items v.bpt.root_node)
      (omega (arith, ap length is.units_are, is.full))

-- The first leaf chunk of a tree stays the first.
same_start :
    (b b' : BplusTree) {h h' : Heap}
    → IsFramed h h' (tree_addresses b) (tree_addresses b')
    → (a : ℕ) × (first_of (tree_addresses b) ≡ some a)
    → get_leaf_start b ≡ get_leaf_start b'
same_start b b' f (a, e) = get_leaf_start-eq b ∙ e ∙ sym (get_leaf_start-eq b' ∙ f.front a e)

module _ (z : Sizes) (p : NextPointer) (t : ℤ) (a : ℕ) (u : AdjUnit) (us : List AdjUnit) (s : Store)
    (v : CblNode) (usable : IsUsable z) (new : Absent u.dest (dests us))
    (bound : length us + 1 < u32_mod) where
  abbrev Result : Type 0
  Result =
      (r : Store × CblNode × ℕ) × (Vertex.insert z u s v ≡ some r) × IsResult z p t a u us s v r

  -- A free cell in the level-1 chunk.
  small_free : IsSmall z s p t a v us → length us < z.lv1_ncnt → Result
  unfolding Vertex.insert write_lv1 push
  small_free is lt =
      let c = s.lv1 a in
      let room = lt→ltb (length us) z.lv1_ncnt lt in
      let test : ltb v.neighboor_cnt z.lv1_ncnt ≡ true = rw is.counted room in
      let here : lv1_address v.neighboor ≡ some a = ap lv1_address is.neighboor in
      let grown = push-entries u c (omega (arith, is.in_use, is.size)) (omega (arith, is.in_use)) in
      let len = length-append us (u ∷ []) in
      let self : (write_lv1 s a (push u c)).lv1 a ≡ push u c = ground arith in
      (
        (write_lv1 s a (push u c), record v { neighboor_cnt = (v.neighboor_cnt + 1) % u32_mod }, 1),
        rw (test, here),
        record {
          vertex = rw room (
              inl (record {
                level = is.level;
                neighboor = is.neighboor;
                counted = omega (arith, is.counted, len);
                in_use = rw self (omega (arith, is.in_use, len));
                size = rw self (length-set c.neighboor_chunk c.count u ∙ is.size);
                fits = omega (arith, len);
                entries_are = rw (self, grown, is.entries_are);
                link = rw self is.link;
                link_type = rw self is.link_type;
                no_tree = is.no_tree;
                chunks = is.chunks;
                distinct = Distinct-snoc us u is.distinct new;
              }));
          code = ground arith;
          is_local = record {
            lv1_kept = λ x ne. ground arith;
            framed = record {
              grown_heap = omega arith;
              kept = λ x l out. refl;
              inside = λ x l out. out;
              front = λ x e. e;
            };
          };
        },
      )

  -- The tree takes the unit.
  large : IsLarge z s p t v us → Result
  unfolding Vertex.insert
  large is =
      let test : ltb v.neighboor_cnt z.lv1_ncnt ≡ false =
        ge→ltb v.neighboor_cnt z.lv1_ncnt (omega (arith, is.counted, is.full)) in
      let test' : (v.neighboor_cnt == z.lv1_ncnt) ≡ false =
        let e = is.counted in let l = is.full in ground arith in
      let beyond : ltb (length us) z.lv1_ncnt ≡ false = let l = is.full in ground arith in
      let beyond' : (length us == z.lv1_ncnt) ≡ false = let l = is.full in ground arith in
      let (h, tree) = Tree.insert z.leaf_ncnt z.key_cnt u s.heap v.bpt in
      let done =
        insert-HasTaken z.leaf_ncnt z.key_cnt u p t s.heap v.bpt usable.leaf_room is.tree
          (rw is.units_are new) in
      let len = length-insert_sorted u us in
      (
        (
          record s { heap = h },
          record v {
            neighboor_cnt = (v.neighboor_cnt + 1) % u32_mod;
            bpt = tree;
            chunk_cnt = tree.leaf_cnt;
          },
          1,
        ),
        rw (test, test'),
        record {
          vertex =
              rw (beyond, beyond')
                (inr (record {
                  level = is.level;
                  tree = done.valid;
                  units_are = done.units_are ∙ ap (insert_sorted u) is.units_are;
                  counted = omega (arith, is.counted, len);
                  full = omega (arith, len, is.full);
                  neighboor =
                      is.neighboor
                      ∙ ap leaf_pointer (same_start v.bpt tree done.framed (nonempty is));
                  chunks = refl;
                }));
          code = rw beyond';
          is_local = record { lv1_kept = λ x ne. refl; framed = done.framed };
        },
      )

  small_full : IsSmall z s p t a v us → length us ≡ z.lv1_ncnt → Result
  unfolding Vertex.insert
  small_full is full =
      let beyond : ltb (length us) z.lv1_ncnt ≡ false = ground arith in
      let exact : (length us == z.lv1_ncnt) ≡ true = ground arith in
      let test : ltb v.neighboor_cnt z.lv1_ncnt ≡ false = rw is.counted beyond in
      let test' : (v.neighboor_cnt == z.lv1_ncnt) ≡ true = rw is.counted exact in
      let here : lv1_address v.neighboor ≡ some a = ap lv1_address is.neighboor in
      let taken = move_units-HasTaken z p t a u us s v usable new bound is in
      let moved = insert_all_sorted us [] in
      let (h, b) = move_units z u s.heap v (s.lv1 a) in
      let (x, starts) =
        first_of-units (stored h) (root_items b.root_node)
          (omega (arith, ap length taken.units_are, length-insert_sorted u moved)) in
      let (e, rest, ends, row) =
        end-cases (get_leaf_end b) (tree_addresses b) x starts (leaf_ends b).1 in
      (
        (
          record s { heap = relink e (s.lv1 a).next_ptr (s.lv1 a).next_type h },
          record {
            level = v.level + 1;
            neighboor_cnt = (v.neighboor_cnt + 1) % u32_mod;
            chunk_cnt = b.leaf_cnt;
            bpt = b;
            neighboor = leaf_pointer (get_leaf_start b);
          },
          2,
        ),
        branch-eq z u s v a test test' here ∙ finish-eq s v (s.lv1 a) h b e ends,
        finish-IsResult z p t a u us s v usable new bound h b e rest x is full taken starts row,
      )

-- `CBLNode::Insert` of a neighbour that a well-formed vertex does not have yet, while the count of
-- neighbours stays below 2^32, with level-1 chunks of one cell or more and leaf chunks of two or
-- more: it returns, the vertex is well formed with its units and the new one and with its link
-- unchanged, and no chunk but its own and new ones changes. It returns 2 if the level-1 chunk was
-- full, and 1 if not.
pub insert-IsResult :
    (z : Sizes) (p : NextPointer) (t : ℤ) (a : ℕ) (u : AdjUnit) (us : List AdjUnit) (s : Store)
    (v : CblNode)
    → IsUsable z
    → IsVertex z s p t a v us
    → Absent u.dest (dests us)
    → length us + 1 < u32_mod
    → (r : Store × CblNode × ℕ) × (Vertex.insert z u s v ≡ some r) × IsResult z p t a u us s v r
insert-IsResult z p t a u us s v usable (inr is) new bound =
    large z p t a u us s v usable new bound is
insert-IsResult z p t a u us s v usable (inl is) new bound =
    elim (Bool-cases (ltb (length us) z.lv1_ncnt)) [
      | inl lt ↦ small_free z p t a u us s v usable new bound is (ltb→lt (length us) z.lv1_ncnt lt)
      | inr ge ↦
          let le = ltb→ge (length us) z.lv1_ncnt ge in
          small_full z p t a u us s v usable new bound is (omega (arith, is.fits))
    ]
