-- ===== src/Tree/Frame.antt =====
-- What `BplusTree::Insert` leaves alone: the leaf chunks that are not in the tree.
use gast_co_co.Prelude.{
  ℕ, ◌+◌, ◌<◌, ◌≤◌, ◌≡◌, ◌≢◌, refl, sym, ap, subst, ◌∙◌, List, [], ◌∷◌, ◌++◌, arith, ℤ, pos,
  Bool-cases, inl, inr, ltb, ltb→ge, length, Option, none, some,
}
use gast_co_co.Prelude.Distinct.{Absent, Absent-append, append-Absent}
use gast_co_co.Types.{AdjUnit, NextPointer, null}
use gast_co_co.Leaf
use gast_co_co.Leaf.{LeafChunk, leafchunk_level}
use gast_co_co.Tree
use gast_co_co.Tree.{
  Heap, write, alloc, BplusTree, Node, leaf, Trail, root, find, split_leaf, insert_at,
}
use gast_co_co.Tree.Items.{Item, at, sep, left_items, right_items}
use gast_co_co.Tree.Order.{units, stored}
use gast_co_co.Tree.Rows.{addresses, addresses-append}
use gast_co_co.Tree.Search.{IsPlace}
use gast_co_co.Tree.Valid.{IsRow, dests, put, write_other}
use gast_co_co.Tree.Insert.{split_leaf-eq, cut_heap, key, target}
use gast_co_co.Tree.Correct.{
  IsTree, root_items, tree_units, row-plug, a-fits, grown, find-row, find_root-IsPlace,
  root-IsPlace, first-IsRow, first-units,
}

abbrev pub first_of : List ℕ → Option ℕ
first_of [] = none
first_of (x ∷ xs) = some x

first_of-middle :
    (xs : List ℕ) (a : ℕ) (ys zs : List ℕ) → first_of (xs ++ a ∷ ys) ≡ first_of (xs ++ a ∷ zs)
first_of-middle [] a ys zs = refl
first_of-middle (x ∷ xs) a ys zs = refl

-- From `h` to `h'` only chunks at the addresses `xs` and new chunks change, and the addresses `ys`
-- are of these, with the same one at the front.
pub record IsFramed (h h' : Heap) (xs ys : List ℕ) : Type 0 where
  pub grown_heap : h.fresh ≤ h'.fresh
  pub kept : (x : ℕ) → x < h.fresh → Absent x xs → h'.chunk x ≡ h.chunk x
  pub inside : (x : ℕ) → x < h.fresh → Absent x xs → Absent x ys
  pub front : (x : ℕ) → first_of xs ≡ some x → first_of ys ≡ some x

pub IsFramed-trans :
    {h h' h'' : Heap} (xs ys zs : List ℕ)
    → IsFramed h h' xs ys
    → IsFramed h' h'' ys zs
    → IsFramed h h'' xs zs
IsFramed-trans {h} {h'} {h''} xs ys zs f g =
    let le = f.grown_heap in
    record {
      grown_heap = omega (arith, f.grown_heap, g.grown_heap);
      kept = λ x lt out. g.kept x (omega arith) (f.inside x lt out) ∙ f.kept x lt out;
      inside = λ x lt out. g.inside x (omega arith) (f.inside x lt out);
      front = λ x e. g.front x (f.front x e);
    }

module _ (ncnt key_cnt : ℕ) (u : AdjUnit) (h : Heap) (p : NextPointer) (t : ℤ) (cnt a : ℕ)
    (q : Trail) (valid : IsRow ncnt h p t (left_items q ++ (at a ∷ right_items q)))
    (place : IsPlace (stored h) u.dest q) (two : 2 ≤ ncnt)
    (counted : cnt ≡ length (addresses (left_items q ++ (at a ∷ right_items q))))
    (new : Absent u.dest (dests (units (stored h) (left_items q ++ (at a ∷ right_items q))))) where
  abbrev as' : List ℕ
  as' = addresses (left_items q ++ (at a ∷ right_items q))

  parts_absent :
      (x : ℕ)
      → Absent x as'
      → Absent x (addresses (left_items q)) × (x ≢ a) × Absent x (addresses (right_items q))
  parts_absent x out =
      let (l, r) =
        Absent-append x (addresses (left_items q)) (a ∷ addresses (right_items q))
          (subst (Absent x) (addresses-append (left_items q) (at a ∷ right_items q)) out) in
      (l, r.0, r.1)

  cut_kept :
      (full : (h.chunk a).count ≡ ncnt) (x : ℕ)
      → x < h.fresh
      → x ≢ a
      → (put u
            (target ncnt u h p t (left_items q) a (right_items q) valid full two)
            (cut_heap ncnt u h p t (left_items q) a (right_items q) valid full two)).chunk
          x
        ≡ h.chunk x
  unfolding write alloc
  cut_kept full x lt ne =
      let k = key ncnt u h p t (left_items q) a (right_items q) valid full two in
      elim (Bool-cases (ltb u.dest k)) [
        | inl low ↦ rw low (ground arith)
        | inr high ↦ rw high (ground arith)
      ]

  pub insert_at-IsFramed :
      let r = insert_at ncnt key_cnt u h cnt a q in
      IsFramed h r.0 as' (addresses (root_items r.1.root_node))
  unfolding insert_at write alloc
  insert_at-IsFramed = elim (Bool-cases (ltb (h.chunk a).count ncnt)) [
    | inl free ↦ rw free (record {
      grown_heap = omega arith;
      kept = λ x lt out. write_other h a (Leaf.insert u (h.chunk a)) x (parts_absent x out).1;
      inside =
          λ x lt out. rw (row-plug ncnt key_cnt u h p t cnt a q valid place two counted new) out;
      front = λ x e. rw (row-plug ncnt key_cnt u h p t cnt a q valid place two counted new) e;
    })
    | inr filled ↦
        let ge = ltb→ge (h.chunk a).count ncnt filled in
        let le = a-fits ncnt key_cnt u h p t cnt a q valid place two counted new in
        let full : (h.chunk a).count ≡ ncnt = omega arith in
        let ls = left_items q in
        let rs = right_items q in
        rw (filled, split_leaf-eq ncnt u h p t ls a rs valid full two)
          (record {
            grown_heap = omega arith;
            kept = λ x lt out. cut_kept full x lt (parts_absent x out).1;
            inside = λ x lt out.
                let (l, ne, r) = parts_absent x out in
                rw
                  (
                    grown ncnt key_cnt u h p t cnt a q valid place two counted new full,
                    addresses-append ls
                        (at a ∷ sep (key ncnt u h p t ls a rs valid full two) ∷ at h.fresh ∷ rs),
                  )
                  (append-Absent x (addresses ls) (a ∷ h.fresh ∷ addresses rs) l
                    (ne, ((λ e. absurd (omega arith)), r)));
            front = λ x e.
                rw
                  (
                    grown ncnt key_cnt u h p t cnt a q valid place two counted new full,
                    addresses-append ls
                        (at a ∷ sep (key ncnt u h p t ls a rs valid full two) ∷ at h.fresh ∷ rs),
                  )
                  (first_of-middle (addresses ls) a (h.fresh ∷ addresses rs) (addresses rs)
                    ∙ (rw (addresses-append ls (at a ∷ rs)) at e));
          })
  ]

alloc-IsFramed : (ncnt : ℕ) (h : Heap) → IsFramed h (alloc ncnt h) [] (h.fresh ∷ [])
unfolding alloc write
alloc-IsFramed ncnt h = record {
  grown_heap = omega arith;
  kept = λ x lt out. ground arith;
  inside = λ x lt out. ((λ e. absurd (omega arith)), tt);
  front = λ x e. cc;
}

root-IsFramed :
    (ncnt key_cnt : ℕ) (u : AdjUnit) (p : NextPointer) (t : ℤ) (h : Heap) (r : Option Node)
    (cnt : ℕ)
    → 2 ≤ ncnt
    → let tree : BplusTree = record { root_node = r; leaf_cnt = cnt } in
      IsTree ncnt p t h tree
      → Absent u.dest (dests (tree_units h tree))
      → let after = Tree.insert ncnt key_cnt u h tree in
        IsFramed h after.0 (addresses (root_items r)) (addresses (root_items after.1.root_node))
unfolding Tree.insert left_items right_items
root-IsFramed ncnt key_cnt u p t h none cnt two valid new =
    IsFramed-trans [] (h.fresh ∷ []) _ (alloc-IsFramed ncnt h) (
      insert_at-IsFramed ncnt key_cnt u (alloc ncnt h) null (pos leafchunk_level) (cnt + 1) h.fresh
        root (first-IsRow ncnt h) (root-IsPlace (stored (alloc ncnt h)) u.dest) two
        (omega (arith, valid.counted))
        (subst (λ us. Absent u.dest (dests us)) (sym (first-units ncnt h)) tt))
root-IsFramed ncnt key_cnt u p t h (some n) cnt two valid new =
    let (a, q) = find u.dest n root in
    let e = find-row u.dest n in
    subst
      (λ x.
        IsFramed h (insert_at ncnt key_cnt u h cnt a q).0 (addresses x)
          (addresses (root_items (insert_at ncnt key_cnt u h cnt a q).1.root_node)))
      e
      (insert_at-IsFramed ncnt key_cnt u h p t cnt a q (subst (IsRow ncnt h p t) (sym e) valid.row)
        (find_root-IsPlace (stored h) u.dest n valid.row.sorted) two
        (valid.counted ∙ ap (λ (x : List Item). length (addresses x)) (sym e))
        (subst (λ x. Absent u.dest (dests (units (stored h) x))) (sym e) new))

-- `BplusTree::Insert` of a neighbour that no unit of a valid tree has, with leaf chunks of two cells
-- or more: it changes no leaf chunk outside the tree, takes in none but new ones, and keeps the first
-- leaf chunk of a tree that has one.
pub insert-IsFramed :
    (ncnt key_cnt : ℕ) (u : AdjUnit) (p : NextPointer) (t : ℤ) (h : Heap) (tree : BplusTree)
    → 2 ≤ ncnt
    → IsTree ncnt p t h tree
    → Absent u.dest (dests (tree_units h tree))
    → let after = Tree.insert ncnt key_cnt u h tree in
      IsFramed h after.0
        (addresses (root_items tree.root_node))
        (addresses (root_items after.1.root_node))
insert-IsFramed ncnt key_cnt u p t h tree two valid new =
    root-IsFramed ncnt key_cnt u p t h tree.root_node tree.leaf_cnt two valid new
