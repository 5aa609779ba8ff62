-- ===== src/Tree/Search.antt =====
-- Where `BplusTree::Find` comes to: all units and keys to the left of the leaf chunk that it returns
-- stand below the neighbour that was looked for, and all to its right above it.
use gast_co_co.Prelude.{
  ℕ, ◌+◌, ◌*◌, ◌<◌, ◌≡◌, List, [], ◌∷◌, ◌++◌, arith, ltb, Bool-cases, inl, inr, ltb→lt, ltb→ge,
  append_assoc, append-nil, subst,
}
use gast_co_co.Prelude.Sorted.{
  Above, IsSorted, AllBelow, IsSorted-append, Above-trans, AllBelow-front, AllBelow-trans,
  AllBelow-snoc,
}
use gast_co_co.Types.{AdjUnit}
use gast_co_co.Tree.{
  Node, leaf, inter, Branches, nil, branch, Trail, first, later, append, find, find_key,
}
use gast_co_co.Tree.Items.{
  Item, sep, items, branch_items, left_items, right_items, branch_items-append,
}
use gast_co_co.Tree.Order.{codes, codes-append, IsSorted-codes}

module _ (f : ℕ → List AdjUnit) (dest : ℕ) where
  -- The code of a unit with neighbour `dest` fits between the two sides of the path.
  pub record IsPlace (q : Trail) : Type 0 where
    pub lower : AllBelow (codes f (left_items q)) ((2 * dest + 1) ∷ [])
    pub upper : Above (2 * dest + 1) (codes f (right_items q))

  -- What stands before a key that is not above `dest`.
  pub below-key :
      (xs : List Item) (k : ℕ) (ys : List Item)
      → IsSorted (codes f (xs ++ (sep k ∷ ys)))
      → 2 * k < 2 * dest + 1
      → AllBelow (codes f (xs ++ sep k ∷ [])) ((2 * dest + 1) ∷ [])
  below-key xs k ys s h =
      let (_, _, below) =
        IsSorted-append (codes f xs) (codes f (sep k ∷ ys))
          (rw (codes-append f xs (sep k ∷ ys)) at s) in
      rw (codes-append f xs (sep k ∷ [])) (
        AllBelow-snoc (codes f xs) (2 * k) (2 * dest + 1)
          (AllBelow-trans (codes f xs) (2 * k) (2 * dest + 1)
            (AllBelow-front (codes f xs) (2 * k) (codes f ys) below) h)
          h)

regroup :
    (f : ℕ → List AdjUnit) {xs ys : List Item}
    → xs ≡ ys
    → IsSorted (codes f xs)
    → IsSorted (codes f ys)
regroup f e s = subst (λ x. IsSorted (codes f x)) e s

mutual
  unfolding find left_items right_items items

  pub find-IsPlace :
      (f : ℕ → List AdjUnit) (dest : ℕ) (n : Node) (p : Trail)
      → IsSorted (codes f (left_items p ++ (items n ++ right_items p)))
      → IsPlace f dest p
      → IsPlace f dest (find dest n p).1
  find-IsPlace f dest (leaf a) p s h = h
  find-IsPlace f dest (inter c bs) p s h =
      find_key-IsPlace f dest bs c nil p (find dest c (first bs p))
        (regroup f (simp (append_assoc, append-nil)) s) h
        (λ up.
          find-IsPlace f dest c (first bs p) (regroup f (simp append_assoc) s)
            (record { lower = h.lower; upper = up }))

  find_key-IsPlace :
      (f : ℕ → List AdjUnit) (dest : ℕ) (bs : Branches) (c : Node) (before : Branches) (p : Trail)
      (here : ℕ × Trail)
      → IsSorted (
          codes f (
            (left_items p ++ (items c ++ branch_items before))
            ++ (branch_items bs ++ right_items p)))
      → IsPlace f dest p
      → (Above (2 * dest + 1) (codes f (branch_items bs ++ right_items p)) → IsPlace f dest here.1)
      → IsPlace f dest (find_key dest c before bs p here).1
  find_key-IsPlace f dest nil c before p here s h good = good h.upper
  find_key-IsPlace f dest (branch k d bs) c before p here s h good =
      let xs = left_items p ++ (items c ++ branch_items before) in
      let ys = (items d ++ branch_items bs) ++ right_items p in
      elim (Bool-cases (ltb dest k)) [
        | inl below ↦
            let lt = ltb→lt dest k below in
            let tail = IsSorted-codes f xs (sep k ∷ ys) s in
            rw below (
              good
                (omega arith, Above-trans (2 * dest + 1) (2 * k) (codes f ys) (omega arith) tail.0))
        | inr above ↦
            let ge = ltb→ge dest k above in
            rw above (
              find_key-IsPlace f dest bs c (append before (branch k d nil)) p
                (find dest d (later c before k bs p))
                (regroup f (simp (branch_items-append, append_assoc, append-nil)) s) h
                (λ up.
                  find-IsPlace f dest d (later c before k bs p) (regroup f (simp append_assoc) s)
                    (record {
                      lower =
                          subst (λ x. AllBelow (codes f x) ((2 * dest + 1) ∷ []))
                            (simp append_assoc) (below-key f dest xs k ys s (omega arith));
                      upper = up;
                    })))
      ]
