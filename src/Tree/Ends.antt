-- ===== src/Tree/Ends.antt =====
-- `GetLeafStart` and `GetLeafEnd` descend to the first and to the last leaf chunk of the row.
use gast_co_co.Prelude.{
  ℕ, ◌≡◌, refl, sym, ap, ◌∙◌, List, [], ◌∷◌, ◌++◌, Option, none, some, append_assoc, append-nil,
  length, arith, ◌<◌,
}
use gast_co_co.Tree.{
  Node, leaf, inter, Branches, nil, branch, BplusTree, leaf_start, leaf_end, last_end,
  get_leaf_start, get_leaf_end,
}
use gast_co_co.Types.{AdjUnit}
use gast_co_co.Tree.Items.{Item, at, sep, items, branch_items}
use gast_co_co.Tree.Order.{units}
use gast_co_co.Tree.Frame.{first_of}
use gast_co_co.Tree.Rows.{addresses, addresses-append}
use gast_co_co.Tree.Correct.{root_items}

abbrev pub node_addresses : Node → List ℕ
node_addresses n = addresses (items n)

abbrev pub tree_addresses : BplusTree → List ℕ
tree_addresses t = addresses (root_items t.root_node)

inter_addresses :
    (c : Node) (bs : Branches)
    → node_addresses (inter c bs) ≡ node_addresses c ++ addresses (branch_items bs)
unfolding items
inter_addresses c bs = addresses-append (items c) (branch_items bs)

leaf_start-first : (n : Node) → (as' : List ℕ) × (node_addresses n ≡ leaf_start n ∷ as')
unfolding leaf_start items
leaf_start-first (leaf a) = ([], refl)
leaf_start-first (inter c bs) =
    let (as', e) = leaf_start-first c in
    (
      as' ++ addresses (branch_items bs),
      inter_addresses c bs ∙ ap (λ (x : List ℕ). x ++ addresses (branch_items bs)) e,
    )

mutual
  unfolding leaf_end items

  leaf_end-last : (n : Node) → (as' : List ℕ) × (node_addresses n ≡ as' ++ leaf_end n ∷ [])
  leaf_end-last (leaf a) = ([], refl)
  leaf_end-last (inter c bs) =
      let (as', e) = last_end-last bs (leaf_end c) (node_addresses c) (leaf_end-last c) in
      (as', inter_addresses c bs ∙ e)

  last_end-last :
      (bs : Branches) (other : ℕ) (front : List ℕ)
      → (as' : List ℕ) × (front ≡ as' ++ other ∷ [])
      → (as' : List ℕ) × (front ++ addresses (branch_items bs) ≡ as' ++ last_end bs other ∷ [])
  last_end-last nil other front (as', e) = (as', simp (append-nil, e))
  last_end-last (branch k c bs) other front h =
      let (as', e) = leaf_end-last c in
      let (all, q) = last_end-last bs (leaf_end c) (front ++ node_addresses c) (
        front ++ as',
        ap (λ (x : List ℕ). front ++ x) e ∙ sym (append_assoc front as' (leaf_end c ∷ [])),
      ) in
      (
        all,
        ap (λ (x : List ℕ). front ++ x) (addresses-append (items c) (branch_items bs))
            ∙ sym (append_assoc front (node_addresses c) (addresses (branch_items bs)))
            ∙ q,
      )

abbrev pub IsFirst : Option ℕ → List ℕ → Type 0
IsFirst none as' = as' ≡ []
IsFirst (some a) as' = (rest : List ℕ) × (as' ≡ a ∷ rest)

abbrev pub IsLast : Option ℕ → List ℕ → Type 0
IsLast none as' = as' ≡ []
IsLast (some a) as' = (rest : List ℕ) × (as' ≡ rest ++ a ∷ [])

-- The descents return the two ends of the row, and the null pointer for the empty tree.
pub leaf_ends :
    (t : BplusTree)
    → IsFirst (get_leaf_start t) (tree_addresses t) × IsLast (get_leaf_end t) (tree_addresses t)
unfolding get_leaf_start get_leaf_end
leaf_ends t = go t.root_node
  where
    go :
        (r : Option Node)
        → IsFirst (elim r [ none ↦ none | some n ↦ some (leaf_start n) ]) (addresses (root_items r))
          × IsLast (elim r [ none ↦ none | some n ↦ some (leaf_end n) ]) (addresses (root_items r))
    go none = (refl, refl)
    go (some n) = (leaf_start-first n, leaf_end-last n)

first_of-IsFirst : (o : Option ℕ) (as' : List ℕ) → IsFirst o as' → o ≡ first_of as'
first_of-IsFirst none as' h = sym (ap first_of h)
first_of-IsFirst (some a) as' (rest, e) = sym (ap first_of e)

pub get_leaf_start-eq : (t : BplusTree) → get_leaf_start t ≡ first_of (tree_addresses t)
get_leaf_start-eq t = first_of-IsFirst (get_leaf_start t) (tree_addresses t) (leaf_ends t).0

units-no_address : (f : ℕ → List AdjUnit) (is : List Item) → addresses is ≡ [] → units f is ≡ []
units-no_address f [] e = refl
units-no_address f (at a ∷ is) e = cc
units-no_address f (sep k ∷ is) e = units-no_address f is e

-- A tree with units has a first leaf chunk.
pub first_of-units :
    (f : ℕ → List AdjUnit) (is : List Item)
    → 0 < length (units f is)
    → (a : ℕ) × (first_of (addresses is) ≡ some a)
first_of-units f is h = go (addresses is) refl
  where
    go : (as' : List ℕ) → addresses is ≡ as' → (a : ℕ) × (first_of (addresses is) ≡ some a)
    go [] e = absurd (omega (arith, ap length (units-no_address f is e)))
    go (a ∷ as') e = (a, ap first_of e)
