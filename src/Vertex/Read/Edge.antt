-- ===== src/Vertex/Read/Edge.antt =====
-- `ReadEdgeOut` and `ReadEdgeIn` decide whether the vertex has the neighbour.
use gast_co_co.Prelude.{
  ℕ, ◌+◌, ◌*◌, ◌<◌, ◌≡◌, refl, sym, ap, ◌∙◌, inl, inr, List, [], ◌∷◌, ◌++◌, arith, ◌==◌, true,
  false, Bool, ◌↔◌, ◌||◌, Option, none, some, Bool-cases, ==→eq, ==→ne, ℤ,
}
use gast_co_co.Prelude.Sorted.{Above, AllBelow, IsSorted}
use mathlib.Core.List.{Memᴰ}
use mathlib.Core.List.Memᴰ
use gast_co_co.Types.{AdjUnit, NextPointer}
use gast_co_co.Tree.{Heap, Node, root, find}
use gast_co_co.Tree.Items.{at, items, left_items, right_items}
use gast_co_co.Tree.Order.{unit_codes, codes, units, units-append, stored}
use gast_co_co.Tree.Rows.{units-AllBelow, units-Above}
use gast_co_co.Tree.Valid.{dests}
use gast_co_co.Tree.Correct.{root_items, find-row, find_root-IsPlace}
use gast_co_co.Vertex.{Store, CblNode, Sizes, lv1_address}
use gast_co_co.Vertex.Valid.{IsVertex}
use gast_co_co.Vertex.Read.{has_dest, read_tree, read_edge}

has_dest-append :
    (d : ℕ) (xs ys : List AdjUnit) → has_dest d (xs ++ ys) ≡ (has_dest d xs || has_dest d ys)
unfolding has_dest
has_dest-append d [] ys = refl
has_dest-append d (x ∷ xs) ys = elim (Bool-cases (x.dest == d)) [
  | inl e ↦ rw e
  | inr e ↦ rw e (has_dest-append d xs ys)
]

has_dest-below :
    (d : ℕ) (us : List AdjUnit)
    → AllBelow (unit_codes us) ((2 * d + 1) ∷ [])
    → has_dest d us ≡ false
unfolding has_dest
has_dest-below d [] h = refl
has_dest-below d (u ∷ us) h =
    let lt : 2 * u.dest + 1 < 2 * d + 1 = h.0.0 in
    let ne : (u.dest == d) ≡ false = ground arith in rw ne (has_dest-below d us h.1)

has_dest-Above :
    (d : ℕ) (us : List AdjUnit) → Above (2 * d + 1) (unit_codes us) → has_dest d us ≡ false
unfolding has_dest
has_dest-Above d [] h = refl
has_dest-Above d (u ∷ us) h =
    let lt : 2 * d + 1 < 2 * u.dest + 1 = h.0 in
    let ne : (u.dest == d) ≡ false = ground arith in rw ne (has_dest-Above d us h.1)

or-false : (b : Bool) → (b || false) ≡ b
or-false true = refl
or-false false = refl

-- The search in the tree sees one leaf chunk, and misses nothing.
read_tree-eq :
    (d : ℕ) (h : Heap) (r : Option Node)
    → IsSorted (codes (stored h) (root_items r))
    → read_tree d h r ≡ has_dest d (units (stored h) (root_items r))
unfolding read_tree has_dest
read_tree-eq d h none s = refl
read_tree-eq d h (some n) s =
    let f = stored h in
    let (a, q) = find d n root in
    let ls = left_items q in
    let rs = right_items q in
    let place = find_root-IsPlace f d n s in
    let whole : units f ls ++ (f a ++ units f rs) ≡ units f (items n) =
      sym (units-append f ls (at a ∷ rs)) ∙ ap (units f) (find-row d n) in
    rw (
      ← whole,
      has_dest-append d (units f ls) (f a ++ units f rs),
      has_dest-append d (f a) (units f rs),
      has_dest-below d (units f ls) (units-AllBelow f (2 * d + 1) ls place.lower),
      has_dest-Above d (units f rs) (units-Above f (2 * d + 1) rs place.upper),
      or-false,
    )

pub has_dest-Memᴰ : (d : ℕ) (us : List AdjUnit) → (has_dest d us ≡ true) ↔ Memᴰ d (dests us)
unfolding has_dest
has_dest-Memᴰ d [] = (λ e. absurd (cc), λ m. absurd (Memᴰ.not-nil m))
has_dest-Memᴰ d (u ∷ us) = elim (Bool-cases (u.dest == d)) [
  | inl e ↦ rw e (λ _. Memᴰ.head (sym (==→eq u.dest d e)), λ _. refl)
  | inr e ↦
      let ih = has_dest-Memᴰ d us in
      rw e (
        λ h. Memᴰ.tail (ih.0 h),
        λ m. elim (Memᴰ.cases_cons m) [
          | inl q ↦ absurd (==→ne u.dest d e (sym q))
          | inr m' ↦ ih.1 m'
        ],
      )
]

-- `ReadEdge` of a vertex with the units `us` returns, and returns true exactly when one of them has
-- the neighbour `d`.
pub read_edge-Memᴰ :
    (z : Sizes) (p : NextPointer) (t : ℤ) (a : ℕ) (us : List AdjUnit) (s : Store) (v : CblNode)
    (d : ℕ)
    → IsVertex z s p t a v us
    → (r : Bool) × (read_edge s v d ≡ some r) × ((r ≡ true) ↔ Memᴰ d (dests us))
unfolding read_edge
read_edge-Memᴰ z p t a us s v d (inl is) =
    let test : (v.level == 1) ≡ true = rw is.level refl in
    let here : lv1_address v.neighboor ≡ some a = ap lv1_address is.neighboor in
    (has_dest d us, rw (test, here, is.entries_are), has_dest-Memᴰ d us)
read_edge-Memᴰ z p t a us s v d (inr is) =
    let test : (v.level == 1) ≡ false = rw is.level refl in
    (
      has_dest d us,
      rw (test, read_tree-eq d s.heap v.bpt.root_node is.tree.row.sorted, is.units_are),
      has_dest-Memᴰ d us,
    )
