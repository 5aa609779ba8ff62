-- ===== src/Vertex/Full.antt =====
-- The branch of `CBLNode::Insert` for a full level-1 chunk.
use gast_co_co.Prelude.{
  ℕ, true, false, ◌+◌, ◌%◌, ◌<◌, ◌≡◌, refl, sym, ap, ap₂, subst, ◌∙◌, inr, List, [], ◌∷◌, ◌++◌,
  arith, ltb, ◌==◌, ℤ, pos, length, take, Option, none, some,
}
use gast_co_co.Prelude.Distinct.{Absent, Distinct, Absent-append}
use gast_co_co.Types.{AdjUnit, NextPointer, null}
use gast_co_co.Leaf.{leafchunk_level}
use gast_co_co.Leaf.Insert.{insert_sorted, length-insert_sorted}
use gast_co_co.Tree.{Heap, Node, BplusTree, write, get_leaf_start, get_leaf_end}
use gast_co_co.Tree.Rows.{addresses}
use gast_co_co.Tree.Valid.{IsRow, dests}
use gast_co_co.Tree.Correct.{IsTree, tree_units, root_items, Ending}
use gast_co_co.Tree.Ends.{tree_addresses, IsLast}
use gast_co_co.Tree.Frame.{first_of, IsFramed, IsFramed-trans}
use gast_co_co.Vertex
use gast_co_co.Vertex.{
  Lv1Chunk, Store, CblNode, Sizes, u32_mod, write_lv1, lv1_entries, push, insert_all, relink,
  leaf_pointer, convert, lv1_address, move_units, finish,
}
use gast_co_co.Vertex.Relink.{relink-IsRow, units-relink}
use gast_co_co.Vertex.Convert.{
  Apart, insert_all_sorted, Apart-nil, HasTaken, insert-HasTaken, insert_all-HasTaken,
  length-insert_all_sorted, Absent-insert_all_sorted, empty-IsTree, empty-units,
}
use gast_co_co.Vertex.Valid.{IsUsable, IsSmall, IsResult}

pub relink-IsFramed :
    (e : ℕ) (p : NextPointer) (t : ℤ) (h : Heap) (xs : List ℕ) (rest : List ℕ)
    → xs ≡ rest ++ e ∷ []
    → IsFramed h (relink e p t h) xs xs
unfolding relink write
relink-IsFramed e p t h xs rest q = record {
  grown_heap = omega arith;
  kept = λ x l out.
      let ne = (Absent-append x rest (e ∷ []) (subst (Absent x) q out)).1.0 in ground arith;
  inside = λ x l out. out;
  front = λ x k. k;
}

some-Ending :
    (r : Option Node) (x : ℕ) (p : NextPointer) (t : ℤ)
    → first_of (addresses (root_items r)) ≡ some x
    → Ending r p t
some-Ending none x p t e = absurd (cc)
some-Ending (some n) x p t e = tt

pub branch-eq :
    (z : Sizes) (u : AdjUnit) (s : Store) (v : CblNode) (a : ℕ)
    → ltb v.neighboor_cnt z.lv1_ncnt ≡ false
    → (v.neighboor_cnt == z.lv1_ncnt) ≡ true
    → lv1_address v.neighboor ≡ some a
    → Vertex.insert z u s v ≡ finish s v (s.lv1 a) (move_units z u s.heap v (s.lv1 a))
unfolding Vertex.insert convert
branch-eq z u s v a test test' here = rw (test, test', here)

pub finish-eq :
    (s : Store) (v : CblNode) (c : Lv1Chunk) (h : Heap) (b : BplusTree) (e : ℕ)
    → get_leaf_end b ≡ some e
    → finish s v c (h, b)
      ≡ some (
        record s { heap = relink e c.next_ptr c.next_type h },
        record {
          level = v.level + 1;
          neighboor_cnt = (v.neighboor_cnt + 1) % u32_mod;
          chunk_cnt = b.leaf_cnt;
          bpt = b;
          neighboor = leaf_pointer (get_leaf_start b);
        },
        2,
      )
unfolding finish
finish-eq s v c h b e q = rw (q, finish)

pub end-cases :
    (o : Option ℕ) (xs : List ℕ) (a : ℕ)
    → first_of xs ≡ some a
    → IsLast o xs
    → (e : ℕ) × (rest : List ℕ) × (o ≡ some e) × (xs ≡ rest ++ e ∷ [])
end-cases none xs a h k = absurd (cc (h, ap first_of k))
end-cases (some e) xs a h (rest, k) = (e, rest, refl, k)

module _ (z : Sizes) (p : NextPointer) (t : ℤ) (a : ℕ) (u : AdjUnit) (us : List AdjUnit) (s : Store)
    (v : CblNode) (usable : IsUsable z) (new : Absent u.dest (dests us))
    (bound : length us + 1 < u32_mod) where
  -- The tree after the units of the full level-1 chunk and the new one are inserted.
  pub move_units-HasTaken :
      IsSmall z s p t a v us
      → HasTaken z.leaf_ncnt null
          (pos leafchunk_level)
          s.heap
          v.bpt
          (insert_sorted u (insert_all_sorted us []))
          (move_units z u s.heap v (s.lv1 a))
  unfolding move_units
  move_units-HasTaken is =
      let c = s.lv1 a in
      let n = z.leaf_ncnt in
      let ts = take v.neighboor_cnt c.neighboor_chunk in
      let ts_us : ts ≡ us =
        ap (λ k. take k c.neighboor_chunk) (is.counted ∙ sym is.in_use) ∙ is.entries_are in
      let old : tree_units s.heap v.bpt ≡ [] =
        ap (tree_units s.heap) is.no_tree ∙ empty-units s.heap in
      let r = insert_all n z.key_cnt ts s.heap v.bpt in
      let one =
        insert_all-HasTaken n z.key_cnt ts null (pos leafchunk_level) s.heap v.bpt usable.leaf_room
          (subst (IsTree n null (pos leafchunk_level) s.heap) (sym is.no_tree)
            (empty-IsTree n s.heap))
          (subst (λ x. Distinct (dests x)) (sym ts_us) is.distinct)
          (subst (Apart ts) (sym old) (Apart-nil ts)) in
      let units_one : tree_units r.0 r.1 ≡ insert_all_sorted us [] =
        one.units_are ∙ ap₂ insert_all_sorted ts_us old in
      let last =
        insert-HasTaken n z.key_cnt u null (pos leafchunk_level) r.0 r.1 usable.leaf_room one.valid
          (subst (λ x. Absent u.dest (dests x)) (sym units_one)
            (Absent-insert_all_sorted u.dest us [] new tt)) in
      record {
        valid = last.valid;
        units_are = last.units_are ∙ ap (insert_sorted u) units_one;
        framed =
            IsFramed-trans (tree_addresses v.bpt) (tree_addresses r.1)
              (tree_addresses (move_units z u s.heap v c).1) one.framed last.framed;
      }

  -- The last leaf chunk `e` of the new tree takes over the link of the level-1 chunk.
  pub finish-IsResult :
      (h : Heap) (b : BplusTree) (e : ℕ) (rest : List ℕ) (x : ℕ)
      → IsSmall z s p t a v us
      → length us ≡ z.lv1_ncnt
      → HasTaken z.leaf_ncnt null
          (pos leafchunk_level)
          s.heap
          v.bpt
          (insert_sorted u (insert_all_sorted us []))
          (h, b)
      → first_of (tree_addresses b) ≡ some x
      → tree_addresses b ≡ rest ++ e ∷ []
      → IsResult z p t a u us s v (
        record s { heap = relink e (s.lv1 a).next_ptr (s.lv1 a).next_type h },
        record {
          level = v.level + 1;
          neighboor_cnt = (v.neighboor_cnt + 1) % u32_mod;
          chunk_cnt = b.leaf_cnt;
          bpt = b;
          neighboor = leaf_pointer (get_leaf_start b);
        },
        2,
      )
  finish-IsResult h b e rest x is full taken starts row =
      let c = s.lv1 a in
      let n = z.leaf_ncnt in
      let beyond : ltb (length us) z.lv1_ncnt ≡ false = ground arith in
      let exact : (length us == z.lv1_ncnt) ≡ true = ground arith in
      let moved = insert_all_sorted us [] in
      let size : length (insert_sorted u moved) ≡ length us + 1 =
        omega (arith, length-insert_sorted u moved, length-insert_all_sorted us []) in
      let relinked =
        relink-IsRow n e null c.next_ptr (pos leafchunk_level) c.next_type h
          (root_items b.root_node) rest row taken.valid.row in
      record {
        vertex =
            rw (beyond, exact)
              (inr (record {
                level = omega (arith, is.level);
                tree = record {
                  row =
                      subst
                        (λ q.
                          IsRow n (relink e c.next_ptr c.next_type h) q t (root_items b.root_node))
                        is.link
                        (subst
                          (λ q.
                            IsRow n (relink e c.next_ptr c.next_type h) c.next_ptr q
                              (root_items b.root_node))
                          is.link_type relinked);
                  counted = taken.valid.counted;
                  ending = some-Ending b.root_node x p t starts;
                };
                units_are =
                    units-relink e c.next_ptr c.next_type h (root_items b.root_node)
                    ∙ taken.units_are;
                counted = omega (arith, is.counted, size);
                full = omega (arith, size);
                neighboor = refl;
                chunks = refl;
              }));
        code = rw exact;
        is_local = record {
          lv1_kept = λ y ne. refl;
          framed =
              IsFramed-trans (tree_addresses v.bpt) (tree_addresses b) (tree_addresses b)
                taken.framed
                (relink-IsFramed e c.next_ptr c.next_type h (tree_addresses b) rest row);
        };
      }
