-- ===== src/Tree/Items.antt =====
-- A tree read from left to right: the addresses of its leaf chunks and the keys between them.
use gast_co_co.Prelude.{
  ℕ, ◌≡◌, refl, ap, List, [], ◌∷◌, ◌++◌, append_assoc, append-nil, Bool-cases, inl, inr, ltb,
}
use gast_co_co.Tree.{
  Node, leaf, inter, Branches, nil, branch, Trail, root, first, later, append, plug, find, find_key,
}

pub data Item : Type 0 where
  at : ℕ → Item
  sep : ℕ → Item

unfoldable mutual
  pub items : Node → List Item
  items (leaf a) = at a ∷ []
  items (inter c bs) = items c ++ branch_items bs

  pub branch_items : Branches → List Item
  branch_items nil = []
  branch_items (branch k c bs) = sep k ∷ (items c ++ branch_items bs)

-- What a path has to the left and to the right of the node that it leads to.
unfoldable pub left_items : Trail → List Item
unfolding items
left_items root = []
left_items (first after p) = left_items p
left_items (later c before k after p) =
    left_items p ++ (items c ++ (branch_items before ++ sep k ∷ []))

unfoldable pub right_items : Trail → List Item
unfolding items
right_items root = []
right_items (first after p) = branch_items after ++ right_items p
right_items (later c before k after p) = branch_items after ++ right_items p

pub branch_items-append :
    (bs cs : Branches) → branch_items (append bs cs) ≡ branch_items bs ++ branch_items cs
unfolding items append
branch_items-append nil cs = refl
branch_items-append (branch k c bs) cs = simp (branch_items-append bs cs, append_assoc)

pub items-plug :
    (p : Trail) (n : Node) → items (plug p n) ≡ left_items p ++ (items n ++ right_items p)
unfolding plug items left_items right_items
items-plug root n = rw append-nil
items-plug (first after p) n = rw (items-plug p (inter n after)) (simp append_assoc)
items-plug (later c before k after p) n =
    rw (items-plug p (inter c (append before (branch k n after))))
      (simp (branch_items-append, append_assoc))

append_assoc-branches : (xs ys zs : Branches) → append (append xs ys) zs ≡ append xs (append ys zs)
unfolding append
append_assoc-branches nil ys zs = refl
append_assoc-branches (branch k c xs) ys zs = ap (branch k c) (append_assoc-branches xs ys zs)

-- `Find` walks inside the tree: the leaf that it returns, at the path that it took, is the tree that
-- it was given.
mutual
  unfolding find plug append

  pub plug-find :
      (dest : ℕ) (n : Node) (p : Trail) → plug (find dest n p).1 (leaf (find dest n p).0) ≡ plug p n
  plug-find dest (leaf a) p = refl
  plug-find dest (inter c bs) p =
      plug-find_key dest bs c nil p (find dest c (first bs p)) (plug-find dest c (first bs p))

  plug-find_key :
      (dest : ℕ) (bs : Branches) (c : Node) (before : Branches) (p : Trail) (here : ℕ × Trail)
      → plug here.1 (leaf here.0) ≡ plug p (inter c (append before bs))
      → let r = find_key dest c before bs p here in
        plug r.1 (leaf r.0) ≡ plug p (inter c (append before bs))
  plug-find_key dest nil c before p here h = h
  plug-find_key dest (branch k d bs) c before p here h = elim (Bool-cases (ltb dest k)) [
    | inl below ↦ rw below h
    | inr above ↦
        let e = append_assoc-branches before (branch k d nil) bs in
        rw above (
          rw e at (
            plug-find_key dest bs c (append before (branch k d nil)) p
              (find dest d (later c before k bs p))
              (rw e (plug-find dest d (later c before k bs p)))))
  ]
