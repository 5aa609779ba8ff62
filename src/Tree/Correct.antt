-- ===== src/Tree/Correct.antt =====
-- `BplusTree::Insert` against a sorted list of units.
use gast_co_co.Prelude.{
  ℕ, ◌+◌, ◌≤◌, ◌≡◌, refl, sym, ap, subst, ◌∙◌, List, [], ◌∷◌, ◌++◌, arith, ℤ, pos, Bool-cases, inl,
  inr, ltb, ltb→lt, ltb→ge, length, length-append, append-nil, Option, none, some, length-replicate,
}
use gast_co_co.Prelude.Distinct.{Absent, All, All-append}
use gast_co_co.Prelude.Sorted.{IsSorted}
use gast_co_co.Types.{AdjUnit, NextPointer, null}
use gast_co_co.Leaf.{IsChunk, new_leaf_chunk, leafchunk_level, no_unit}
use gast_co_co.Leaf.Insert.{insert_sorted}
use gast_co_co.Tree
use gast_co_co.Tree.{
  Heap, write, alloc, BplusTree, Node, leaf, Trail, root, plug, find, add_node, split_leaf,
  insert_at,
}
use gast_co_co.Tree.Items.{Item, at, sep, items, left_items, right_items, items-plug, plug-find}
use gast_co_co.Tree.Order.{codes, units, stored}
use gast_co_co.Tree.Rows.{addresses, addresses-append}
use gast_co_co.Tree.Search.{IsPlace, find-IsPlace}
use gast_co_co.Tree.Grow.{add_node-items}
use gast_co_co.Tree.Valid.{IsRow, dests}
use gast_co_co.Tree.Insert.{
  put-Inserted, divided-Inserted, split_leaf-eq, cut-IsRow, cut_heap, cut_row, key,
}

abbrev pub root_items : Option Node → List Item
root_items none = []
root_items (some n) = items n

-- The last chunk's link in a tree that has no chunk yet: the one that its first chunk will have.
abbrev pub Ending : Option Node → NextPointer → ℤ → Type 0
Ending none p t = (p ≡ null) × (t ≡ pos leafchunk_level)
Ending (some n) p t = Unit

-- A tree in a heap, `p` and `t` being the link of its last leaf chunk.
pub record IsTree (ncnt : ℕ) (p : NextPointer) (t : ℤ) (h : Heap) (tree : BplusTree) : Type 0 where
  pub row : IsRow ncnt h p t (root_items tree.root_node)
  pub counted : tree.leaf_cnt ≡ length (addresses (root_items tree.root_node))
  pub ending : Ending tree.root_node p t

-- What a tree stands for: its units from left to right.
abbrev pub tree_units : Heap → BplusTree → List AdjUnit
tree_units h tree = units (stored h) (root_items tree.root_node)

-- What is to hold of the result of an insertion into a tree with the units `us`.
pub record IsInserted (ncnt : ℕ) (p : NextPointer) (t : ℤ) (u : AdjUnit) (us : List AdjUnit)
    (r : Heap × BplusTree) : Type 0 where
  pub tree : IsTree ncnt p t r.0 r.1
  pub units_are : tree_units r.0 r.1 ≡ insert_sorted u us

module _ (ncnt key_cnt : ℕ) (u : AdjUnit) (h : Heap) (p : NextPointer) (t : ℤ) (cnt a : ℕ)
    (q : Trail) (valid : IsRow ncnt h p t (left_items q ++ (at a ∷ right_items q)))
    (place : IsPlace (stored h) u.dest q) (two : 2 ≤ ncnt)
    (counted : cnt ≡ length (addresses (left_items q ++ (at a ∷ right_items q))))
    (new : Absent u.dest (dests (units (stored h) (left_items q ++ (at a ∷ right_items q))))) where
  abbrev pub ls : List Item
  ls = left_items q

  abbrev pub rs : List Item
  rs = right_items q

  pub row-plug : items (plug q (leaf a)) ≡ ls ++ (at a ∷ rs)
  unfolding items
  row-plug = items-plug q (leaf a)

  pub a-fits : (h.chunk a).count ≤ ncnt
  a-fits =
      let cs =
        All-append (λ x. IsChunk ncnt (h.chunk x)) (addresses ls) (a ∷ addresses rs)
          (subst (All (λ x. IsChunk ncnt (h.chunk x))) (addresses-append ls (at a ∷ rs))
            valid.chunks) in
      (cs.1.0).fits

  module _ (full : (h.chunk a).count ≡ ncnt) where
    pub grown :
        items (add_node key_cnt q (leaf a) (key ncnt u h p t ls a rs valid full two) (leaf h.fresh))
        ≡ cut_row ncnt u h p t ls a rs valid full two
    unfolding items
    grown =
        add_node-items (stored (cut_heap ncnt u h p t ls a rs valid full two)) key_cnt q (leaf a)
          (key ncnt u h p t ls a rs valid full two) (leaf h.fresh)
          (cut-IsRow ncnt u h p t ls a rs valid full two).sorted

    cut_counted : cnt + 1 ≡ length (addresses (cut_row ncnt u h p t ls a rs valid full two))
    cut_counted =
        let k = key ncnt u h p t ls a rs valid full two in
        omega (
          arith,
          ap length (addresses-append ls (at a ∷ rs)),
          ap length (addresses-append ls (at a ∷ sep k ∷ at h.fresh ∷ rs)),
          length-append (addresses ls) (a ∷ addresses rs),
          length-append (addresses ls) (a ∷ h.fresh ∷ addresses rs),
        )

  insert_at-IsInserted :
      IsInserted ncnt p t u
        (units (stored h) (left_items q ++ (at a ∷ right_items q)))
        (insert_at ncnt key_cnt u h cnt a q)
  unfolding insert_at
  insert_at-IsInserted = elim (Bool-cases (ltb (h.chunk a).count ncnt)) [
    | inl free ↦
        let done =
          put-Inserted ncnt u h p t ls a rs valid place.lower place.upper new
            (ltb→lt (h.chunk a).count ncnt free) in
        rw free (record {
          tree = record { row = rw row-plug done.0; counted = rw row-plug counted; ending = tt };
          units_are = rw row-plug done.1;
        })
    | inr filled ↦
        let ge = ltb→ge (h.chunk a).count ncnt filled in
        let full : (h.chunk a).count ≡ ncnt = omega (arith, a-fits) in
        let done =
          divided-Inserted ncnt u h p t ls a rs valid full two place.lower place.upper new in
        rw (filled, split_leaf-eq ncnt u h p t ls a rs valid full two)
          (record {
            tree = record {
              row = rw (grown full) done.0;
              counted = rw (grown full) (cut_counted full);
              ending = tt;
            };
            units_are = rw (grown full) done.1;
          })
  ]

-- The chunk that the first insertion allocates.
pub first-IsRow :
    (ncnt : ℕ) (h : Heap) → IsRow ncnt (alloc ncnt h) null (pos leafchunk_level) (at h.fresh ∷ [])
unfolding alloc write new_leaf_chunk
first-IsRow ncnt h =
    let chunk : (alloc ncnt h).chunk h.fresh ≡ new_leaf_chunk ncnt = ground arith in
    record {
      sorted = rw chunk tt;
      chunks = (rw chunk (record { size = length-replicate ncnt no_unit; fits = omega arith }), tt);
      distinct = (tt, tt);
      allocated = (omega arith, tt);
      linked = (rw chunk refl, rw chunk refl, tt);
    }

-- `IsInserted` for the row that a leaf chunk and the path to it make.
pub find-row :
    (dest : ℕ) (n : Node)
    → left_items (find dest n root).1
        ++ (at (find dest n root).0 ∷ right_items (find dest n root).1)
      ≡ items n
unfolding items plug
find-row dest n =
    sym (items-plug (find dest n root).1 (leaf (find dest n root).0))
    ∙ ap items (plug-find dest n root)

pub root-IsPlace : (f : ℕ → List AdjUnit) (dest : ℕ) → IsPlace f dest root
unfolding left_items right_items
root-IsPlace f dest = record { lower = tt; upper = tt }

pub find_root-IsPlace :
    (f : ℕ → List AdjUnit) (dest : ℕ) (n : Node)
    → IsSorted (codes f (items n))
    → IsPlace f dest (find dest n root).1
unfolding left_items right_items
find_root-IsPlace f dest n s =
    find-IsPlace f dest n root (rw (append-nil (items n)) s) (root-IsPlace f dest)

pub first-units : (ncnt : ℕ) (h : Heap) → units (stored (alloc ncnt h)) (at h.fresh ∷ []) ≡ []
unfolding alloc write new_leaf_chunk
first-units ncnt h =
    let chunk : (alloc ncnt h).chunk h.fresh ≡ new_leaf_chunk ncnt = ground arith in rw chunk

root-IsInserted :
    (ncnt key_cnt : ℕ) (u : AdjUnit) (p : NextPointer) (t : ℤ) (h : Heap) (r : Option Node)
    (cnt : ℕ)
    → 2 ≤ ncnt
    → let tree : BplusTree = record { root_node = r; leaf_cnt = cnt } in
      IsTree ncnt p t h tree
      → Absent u.dest (dests (tree_units h tree))
      → IsInserted ncnt p t u (tree_units h tree) (Tree.insert ncnt key_cnt u h tree)
unfolding Tree.insert left_items right_items
root-IsInserted ncnt key_cnt u p t h none cnt two valid new =
    let empty = first-units ncnt h in
    rw (valid.ending.0, valid.ending.1)
      (subst
        (λ us.
          IsInserted ncnt null (pos leafchunk_level) u us
            (insert_at ncnt key_cnt u (alloc ncnt h) (cnt + 1) h.fresh root))
        empty
        (insert_at-IsInserted ncnt key_cnt u (alloc ncnt h) null (pos leafchunk_level) (cnt + 1)
          h.fresh root (first-IsRow ncnt h) (root-IsPlace (stored (alloc ncnt h)) u.dest) two
          (omega (arith, valid.counted)) (subst (λ us. Absent u.dest (dests us)) (sym empty) tt)))
root-IsInserted ncnt key_cnt u p t h (some n) cnt two valid new =
    let (a, q) = find u.dest n root in
    let e = find-row u.dest n in
    subst (λ us. IsInserted ncnt p t u us (insert_at ncnt key_cnt u h cnt a q))
      (ap (units (stored h)) e)
      (insert_at-IsInserted ncnt key_cnt u h p t cnt a q
        (subst (IsRow ncnt h p t) (sym e) valid.row)
        (find_root-IsPlace (stored h) u.dest n valid.row.sorted) two
        (valid.counted ∙ ap (λ (x : List Item). length (addresses x)) (sym e))
        (subst (λ x. Absent u.dest (dests (units (stored h) x))) (sym e) new))

-- `BplusTree::Insert` of a neighbour that no unit of the tree has, with leaf chunks of at least two
-- cells and inner nodes of any size: the tree is valid again, with the same link at the end of its
-- chain, and its units are those before with the new unit at its place.
pub insert-IsInserted :
    (ncnt key_cnt : ℕ) (u : AdjUnit) (p : NextPointer) (t : ℤ) (h : Heap) (tree : BplusTree)
    → 2 ≤ ncnt
    → IsTree ncnt p t h tree
    → Absent u.dest (dests (tree_units h tree))
    → IsInserted ncnt p t u (tree_units h tree) (Tree.insert ncnt key_cnt u h tree)
insert-IsInserted ncnt key_cnt u p t h tree two valid new =
    root-IsInserted ncnt key_cnt u p t h tree.root_node tree.leaf_cnt two valid new
