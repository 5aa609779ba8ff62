-- ===== src/Tree/Order.antt =====
-- Order in a tree by one sorted list of codes: a unit with neighbour d is coded as 2 * d + 1, and a
-- key k as 2 * k. Sorted codes say that the units ascend strictly, and that a key is above all to its
-- left and at most the first unit to its right.
use gast_co_co.Prelude.{
  ℕ, ◌+◌, ◌*◌, ◌<◌, ◌≡◌, refl, ap, List, [], ◌∷◌, ◌++◌, arith, lt→ltb, ge→ltb, append_assoc,
}
use gast_co_co.Prelude.Sorted.{Above, IsSorted, IsSorted-append, Above-append}
use gast_co_co.Types.{AdjUnit}
use gast_co_co.Tree.{Node, Branches, nil, branch, append, insert_branch, Heap}
use gast_co_co.Tree.Items.{Item, at, sep, items, branch_items}
use gast_co_co.Leaf.{entries}

abbrev pub unit_code : AdjUnit → ℕ
unit_code u = 2 * u.dest + 1

abbrev pub unit_codes : List AdjUnit → List ℕ
unit_codes [] = []
unit_codes (u ∷ us) = unit_code u ∷ unit_codes us

-- The codes of a row of items, with the units of the leaf chunks given by `f`.
abbrev pub codes : (ℕ → List AdjUnit) → List Item → List ℕ
codes f [] = []
codes f (at a ∷ is) = unit_codes (f a) ++ codes f is
codes f (sep k ∷ is) = 2 * k ∷ codes f is

abbrev pub units : (ℕ → List AdjUnit) → List Item → List AdjUnit
units f [] = []
units f (at a ∷ is) = f a ++ units f is
units f (sep k ∷ is) = units f is

-- The units of a leaf chunk in a heap.
abbrev pub stored : Heap → ℕ → List AdjUnit
stored h a = entries (h.chunk a)

module _ (f : ℕ → List AdjUnit) where
  pub codes-append : (xs ys : List Item) → codes f (xs ++ ys) ≡ codes f xs ++ codes f ys
  codes-append [] ys = refl
  codes-append (at a ∷ xs) ys = rw (codes-append xs ys, append_assoc)
  codes-append (sep k ∷ xs) ys = rw (codes-append xs ys)

  pub units-append : (xs ys : List Item) → units f (xs ++ ys) ≡ units f xs ++ units f ys
  units-append [] ys = refl
  units-append (at a ∷ xs) ys = rw (units-append xs ys, append_assoc)
  units-append (sep k ∷ xs) ys = units-append xs ys

  -- What stands above a row stands above what follows in it.
  pub Above-codes :
      (x : ℕ) (xs ys : List Item) → Above x (codes f (xs ++ ys)) → Above x (codes f ys)
  Above-codes x xs ys h =
      (Above-append x (codes f xs) (codes f ys) (rw (codes-append xs ys) at h)).1

  pub IsSorted-codes : (xs ys : List Item) → IsSorted (codes f (xs ++ ys)) → IsSorted (codes f ys)
  IsSorted-codes xs ys h =
      (IsSorted-append (codes f xs) (codes f ys) (rw (codes-append xs ys) at h)).1

  -- A new key that is below all keys of the branches is put before them.
  pub insert_branch-front :
      (key : ℕ) (new : Node) (after : Branches) (rest : List Item)
      → IsSorted (codes f (sep key ∷ (items new ++ (branch_items after ++ rest))))
      → insert_branch key new after ≡ branch key new after
  unfolding insert_branch items
  insert_branch-front key new nil rest h = refl
  insert_branch-front key new (branch m d after) rest h =
      let above : 2 * key < 2 * m =
        (Above-codes (2 * key) (items new) (branch_items (branch m d after) ++ rest) h.0).0 in
      rw (ge→ltb m key (omega arith))

  -- A new key that fits behind the child of `k` is put there by the search for its place.
  pub insert_branch-place :
      (before : Branches) (k : ℕ) (child : Node) (key : ℕ) (new : Node) (after : Branches)
      (rest : List Item)
      → IsSorted (
          codes f (
            branch_items before
            ++ (sep k ∷ (items child ++ (sep key ∷ (items new ++ (branch_items after ++ rest)))))))
      → insert_branch key new (append before (branch k child after))
        ≡ append before (branch k child (branch key new after))
  unfolding insert_branch append items
  insert_branch-place nil k child key new after rest h =
      let tail = sep key ∷ (items new ++ (branch_items after ++ rest)) in
      let above : 2 * k < 2 * key = (Above-codes (2 * k) (items child) tail h.0).0 in
      rw (
        lt→ltb k key (omega arith),
        insert_branch-front key new after rest (IsSorted-codes (items child) tail h.1),
      )
  insert_branch-place (branch j c before) k child key new after rest h =
      let last = sep key ∷ (items new ++ (branch_items after ++ rest)) in
      let tail = sep k ∷ (items child ++ last) in
      let h0 = rw (append_assoc (items c) (branch_items before) tail) at h.0 in
      let h1 = rw (append_assoc (items c) (branch_items before) tail) at h.1 in
      let above : 2 * j < 2 * key =
        (Above-codes (2 * j) (items child) last
          (Above-codes (2 * j) (branch_items before) tail
            (Above-codes (2 * j) (items c) (branch_items before ++ tail) h0)).1).0 in
      rw (lt→ltb j key (omega arith)) (
        ap (branch j c) (
          insert_branch-place before k child key new after rest
            (IsSorted-codes (items c) (branch_items before ++ tail) h1)))
