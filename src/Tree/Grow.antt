-- ===== src/Tree/Grow.antt =====
-- `BplusTree::Add_Node`: whatever splits it makes on its way to the root, the tree read from left to
-- right only gains the new key and the new node behind the node that was split.
use gast_co_co.Prelude.{
  ℕ, zero, suc, true, false, ◌*◌, ◌/◌, ◌<◌, ◌≡◌, refl, ap, sym, ◌∙◌, List, [], ◌∷◌, ◌++◌, Option,
  none, some, arith, Bool-cases, inl, inr, ltb, lt→ltb, ltb→lt, ◌⊎◌, append_assoc, append-nil,
  subst,
}
use gast_co_co.Prelude.Sorted.{IsSorted, IsSorted-without, IsSorted-append}
use gast_co_co.Types.{AdjUnit}
use gast_co_co.Tree.{
  Node, inter, Branches, nil, branch, Trail, root, first, later, append, plug, branch_count,
  insert_branch, split_at, Halves, split_node, halves, insert_into_half, Grown, Step, done, up,
  add_at, resume, add_node,
}
use gast_co_co.Tree.Items.{
  Item, sep, items, branch_items, left_items, right_items, branch_items-append, items-plug,
}
use gast_co_co.Tree.Order.{
  codes, codes-append, Above-codes, IsSorted-codes, insert_branch-front, insert_branch-place,
}

append-split_at : (m : ℕ) (bs : Branches) → append (split_at m bs).0 (split_at m bs).1 ≡ bs
unfolding append split_at
append-split_at zero bs = refl
append-split_at (suc m) nil = refl
append-split_at (suc m) (branch k c bs) = ap (branch k c) (append-split_at m bs)

-- The branches of a split node, in a row again.
abbrev joined : Halves → Branches
joined h = append h.this (branch h.mid h.brother h.brother_branches)

insert_branch-low :
    (key : ℕ) (new : Node) (bs : Branches) (m : ℕ) (c : Node) (rest : Branches)
    → ltb m key ≡ false
    → insert_branch key new (append bs (branch m c rest))
      ≡ append (insert_branch key new bs) (branch m c rest)
unfolding insert_branch append
insert_branch-low key new nil m c rest h = rw h
insert_branch-low key new (branch j d bs) m c rest h = elim (Bool-cases (ltb j key)) [
  | inl lt ↦ rw lt (ap (branch j d) (insert_branch-low key new bs m c rest h))
  | inr ge ↦ rw ge
]

module _ (f : ℕ → List AdjUnit) where
  insert_branch-high :
      (key : ℕ) (new : Node) (bs : Branches) (m : ℕ) (c : Node) (rest : Branches)
      → ltb m key ≡ true
      → IsSorted (codes f (branch_items (append bs (branch m c rest))))
      → insert_branch key new (append bs (branch m c rest))
        ≡ append bs (branch m c (insert_branch key new rest))
  unfolding insert_branch append items
  insert_branch-high key new nil m c rest h s = rw h
  insert_branch-high key new (branch j d bs) m c rest h s =
      let tail = branch_items (append bs (branch m c rest)) in
      let above : 2 * j < 2 * m =
        (Above-codes f (2 * j) (branch_items bs) (branch_items (branch m c rest)) (
          rw (branch_items-append bs (branch m c rest)) at
            (Above-codes f (2 * j) (items d) tail s.0))).0 in
      rw (lt→ltb j key (omega (arith, ltb→lt m key h))) (
        ap (branch j d)
          (insert_branch-high key new bs m c rest h (IsSorted-codes f (items d) tail s.1)))

  -- Splitting and inserting in the right half is inserting and splitting.
  insert_into_half-joined :
      (key : ℕ) (new : Node) (h : Halves)
      → IsSorted (codes f (branch_items (joined h)))
      → joined (insert_into_half key new h) ≡ insert_branch key new (joined h)
  unfolding insert_into_half
  insert_into_half-joined key new h s = elim (Bool-cases (ltb h.mid key)) [
    | inl lt ↦
        rw lt (sym (insert_branch-high key new h.this h.mid h.brother h.brother_branches lt s))
    | inr ge ↦ rw ge (sym (insert_branch-low key new h.this h.mid h.brother h.brother_branches ge))
  ]

halves-joined : (l r : Branches) {h : Halves} → halves l r ≡ some h → joined h ≡ append l r
unfolding halves
halves-joined l nil e = cc
halves-joined l (branch k c rest) e = cc

split_node-joined : (bs : Branches) {h : Halves} → split_node bs ≡ some h → joined h ≡ bs
unfolding split_node
split_node-joined bs e =
    let m = branch_count bs / 2 in
    halves-joined (split_at m bs).0 (split_at m bs).1 e ∙ append-split_at m bs

-- What one round hands on, read from left to right.
abbrev grown_items : Grown → List Item
grown_items g = items g.left ++ (sep g.key ∷ items g.right)

abbrev step_items : Step → List Item
step_items (done n) = items n
step_items (up g) = grown_items g

joined-items :
    (c : Node) (h : Halves)
    → grown_items
        (record { left = inter c h.this; key = h.mid; right = inter h.brother h.brother_branches })
      ≡ items c ++ branch_items (joined h)
unfolding items
joined-items c h =
    rw (branch_items-append h.this (branch h.mid h.brother h.brother_branches)) (simp append_assoc)

Option-cases : (o : Option Halves) → (o ≡ none) ⊎ ((h : Halves) × (o ≡ some h))
Option-cases none = inl refl
Option-cases (some h) = inr (h, refl)

module _ (f : ℕ → List AdjUnit) (key_cnt : ℕ) where
  -- Split or not, a round leaves the parent's items with the new branch among them.
  add_at-items :
      (c : Node) (bs bs' : Branches) (key : ℕ) (new : Node)
      → insert_branch key new bs ≡ bs'
      → IsSorted (codes f (branch_items bs))
      → step_items (add_at key_cnt c bs key new) ≡ items c ++ branch_items bs'
  unfolding add_at items
  add_at-items c bs bs' key new e s = elim (Bool-cases (ltb (branch_count bs) key_cnt)) [
    | inl room ↦ rw (room, e)
    | inr full ↦ elim (Option-cases (split_node bs)) [
      | inl none_left ↦ rw (full, none_left, e)
      | inr (h, split) ↦
          let whole = split_node-joined bs split in
          rw (full, split)
            (joined-items c (insert_into_half key new h)
              ∙ ap (λ x. items c ++ branch_items x)
                  (insert_into_half-joined f key new h (rw whole s)
                    ∙ ap (insert_branch key new) whole
                    ∙ e))
    ]
  ]

  -- The rest of the way up, once the round's items are known.
  resume-items :
      (p : Trail) (row : List Item) (s : Step)
      → step_items s ≡ row
      → ((g : Grown)
          → grown_items g ≡ row
          → items (add_node key_cnt p g.left g.key g.right)
            ≡ left_items p ++ (row ++ right_items p))
      → items (resume (plug p) (λ g. add_node key_cnt p g.left g.key g.right) s)
        ≡ left_items p ++ (row ++ right_items p)
  unfolding resume
  resume-items p row (done n) e next = rw (items-plug p n, e)
  resume-items p row (up g) e next = next g e

  IsSorted-middle :
      (xs ys zs : List Item) → IsSorted (codes f (xs ++ (ys ++ zs))) → IsSorted (codes f ys)
  IsSorted-middle xs ys zs s =
      (IsSorted-append (codes f ys) (codes f zs)
        (rw (codes-append f ys zs) at (IsSorted-codes f xs (ys ++ zs) s))).0

  -- The branches of the parent before the insertion, from those after it.
  place-IsSorted :
      (before : Branches) (k : ℕ) (left : Node) (key : ℕ) (right : Node) (after : Branches)
      → IsSorted (codes f (branch_items (append before (branch k left (branch key right after)))))
      → IsSorted (codes f (branch_items (append before (branch k left after))))
  unfolding items
  place-IsSorted before k left key right after s =
      let xs = branch_items before ++ (sep k ∷ items left) in
      let ys = sep key ∷ items right in
      let zs = branch_items after in
      let whole : branch_items (append before (branch k left (branch key right after)))
          ≡ xs ++ (ys ++ zs) =
        simp (branch_items-append, append_assoc) in
      let parts : branch_items (append before (branch k left after)) ≡ xs ++ zs =
        simp (branch_items-append, append_assoc) in
      rw (parts, codes-append f xs zs)
        (IsSorted-without (codes f xs) (codes f ys) (codes f zs)
          (rw (codes-append f xs (ys ++ zs), codes-append f ys zs) at (rw whole at s)))

  place-inserted :
      (before : Branches) (k : ℕ) (left : Node) (key : ℕ) (right : Node) (after : Branches)
      → IsSorted (codes f (branch_items (append before (branch k left (branch key right after)))))
      → insert_branch key right (append before (branch k left after))
        ≡ append before (branch k left (branch key right after))
  unfolding items
  place-inserted before k left key right after s =
      insert_branch-place f before k left key right after [] (
        rw (append-nil (branch_items after))
          (rw (branch_items-append before (branch k left (branch key right after))) at s))

  front-inserted :
      (key : ℕ) (right : Node) (after : Branches)
      → IsSorted (codes f (branch_items (branch key right after)))
      → insert_branch key right after ≡ branch key right after
  unfolding items
  front-inserted key right after s =
      insert_branch-front f key right after [] (rw (append-nil (branch_items after)) s)

  -- `Add_Node` from a child at path `p` that was split in `left` and `right`: read from left to right,
  -- the tree is what it was with `key` and `right` behind `left`, for every number of splits.
  pub add_node-items :
      (p : Trail) (left : Node) (key : ℕ) (right : Node)
      → IsSorted
          (codes f (left_items p ++ ((items left ++ (sep key ∷ items right)) ++ right_items p)))
      → items (add_node key_cnt p left key right)
        ≡ left_items p ++ ((items left ++ (sep key ∷ items right)) ++ right_items p)
  unfolding add_node left_items right_items items
  add_node-items root left key right s = simp (append_assoc, append-nil)
  add_node-items (first after p) left key right s =
      let bs = branch key right after in
      let row = items left ++ branch_items bs in
      let regroup : left_items p
            ++ ((items left ++ (sep key ∷ items right)) ++ (branch_items after ++ right_items p))
          ≡ left_items p ++ (row ++ right_items p) =
        simp append_assoc in
      let s' = subst (λ x. IsSorted (codes f x)) regroup s in
      let sorted_row = IsSorted-middle (left_items p) row (right_items p) s' in
      let sorted_bs = IsSorted-codes f (items left) (branch_items bs) sorted_row in
      resume-items p row (add_at key_cnt left after key right)
        (add_at-items left after bs key right (front-inserted key right after sorted_bs)
          (IsSorted-codes f (sep key ∷ items right) (branch_items after) sorted_bs))
        (λ g e.
          subst
            (λ r.
              IsSorted (codes f (left_items p ++ (r ++ right_items p)))
              → items (add_node key_cnt p g.left g.key g.right)
                ≡ left_items p ++ (r ++ right_items p))
            e (add_node-items p g.left g.key g.right) s')
      ∙ sym regroup
  add_node-items (later c before k after p) left key right s =
      let bs = append before (branch k left (branch key right after)) in
      let row = items c ++ branch_items bs in
      let regroup : left_items (later c before k after p)
            ++ ((items left ++ (sep key ∷ items right)) ++ (branch_items after ++ right_items p))
          ≡ left_items p ++ (row ++ right_items p) =
        simp (branch_items-append, append_assoc) in
      let s' = subst (λ x. IsSorted (codes f x)) regroup s in
      let sorted_row = IsSorted-middle (left_items p) row (right_items p) s' in
      let sorted_bs = IsSorted-codes f (items c) (branch_items bs) sorted_row in
      resume-items p row (add_at key_cnt c (append before (branch k left after)) key right)
        (add_at-items c (append before (branch k left after)) bs key right
          (place-inserted before k left key right after sorted_bs)
          (place-IsSorted before k left key right after sorted_bs))
        (λ g e.
          subst
            (λ r.
              IsSorted (codes f (left_items p ++ (r ++ right_items p)))
              → items (add_node key_cnt p g.left g.key g.right)
                ≡ left_items p ++ (r ++ right_items p))
            e (add_node-items p g.left g.key g.right) s')
      ∙ sym regroup
