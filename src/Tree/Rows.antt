-- ===== src/Tree/Rows.antt =====
-- A row of items when the units of one leaf chunk change: the codes and the units of the row change
-- by the same insertion as those of the chunk, if the new unit fits between the two sides.
use gast_co_co.Prelude.{
  ℕ, ◌*◌, ◌<◌, ◌≡◌, ◌≢◌, refl, sym, ap, ap₂, List, [], ◌∷◌, ◌++◌, arith, ltb, ◌==◌, if◌then◌else◌,
  tests, Bool-cases, inl, inr, lt→ltb, ge→ltb,
}
use gast_co_co.Prelude.Sorted.{
  Above, AllBelow, Above-append, insert_num, insert_num-left, insert_num-right, AllBelow-split,
  AllBelow-join, append-Above,
}
use gast_co_co.Prelude.Distinct.{Absent}
use gast_co_co.Types.{AdjUnit}
use gast_co_co.Leaf.Insert.{insert_sorted}
use gast_co_co.Tree.Items.{Item, at, sep}
use gast_co_co.Tree.Order.{unit_code, unit_codes, codes, units, codes-append, units-append}

-- The addresses of the leaf chunks of a row.
abbrev pub addresses : List Item → List ℕ
addresses [] = []
addresses (at a ∷ is) = a ∷ addresses is
addresses (sep k ∷ is) = addresses is

pub addresses-append : (xs ys : List Item) → addresses (xs ++ ys) ≡ addresses xs ++ addresses ys
addresses-append [] ys = refl
addresses-append (at a ∷ xs) ys = ap (◌∷◌ a) (addresses-append xs ys)
addresses-append (sep k ∷ xs) ys = addresses-append xs ys

abbrev pub update : (ℕ → List AdjUnit) → ℕ → List AdjUnit → ℕ → List AdjUnit
update f a es b = if b == a then es else f b

pub update_self : (f : ℕ → List AdjUnit) (a : ℕ) (es : List AdjUnit) → update f a es a ≡ es
update_self f a es = ground arith

pub update_other :
    (f : ℕ → List AdjUnit) (a : ℕ) (es : List AdjUnit) (b : ℕ) → b ≢ a → update f a es b ≡ f b
update_other f a es b h = ground arith

module _ (f : ℕ → List AdjUnit) (a : ℕ) (es : List AdjUnit) where
  pub codes-update :
      (is : List Item) → Absent a (addresses is) → codes (update f a es) is ≡ codes f is
  codes-update [] h = refl
  codes-update (at b ∷ is) h =
      ap₂ ◌++◌ (ap unit_codes (update_other f a es b (λ e. h.0 (sym e)))) (codes-update is h.1)
  codes-update (sep k ∷ is) h = ap (◌∷◌ (2 * k)) (codes-update is h)

  pub units-update :
      (is : List Item) → Absent a (addresses is) → units (update f a es) is ≡ units f is
  units-update [] h = refl
  units-update (at b ∷ is) h =
      ap₂ ◌++◌ (update_other f a es b (λ e. h.0 (sym e))) (units-update is h.1)
  units-update (sep k ∷ is) h = units-update is h

pub unit_codes-insert_sorted :
    (u : AdjUnit) (es : List AdjUnit)
    → unit_codes (insert_sorted u es) ≡ insert_num (unit_code u) (unit_codes es)
unfolding insert_sorted insert_num
unit_codes-insert_sorted u [] = refl
unit_codes-insert_sorted u (x ∷ es) = elim (Bool-cases (ltb x.dest u.dest)) [
  | inl lt ↦
      rw (lt, lt→ltb (unit_code x) (unit_code u) (omega (tests)))
        (ap (◌∷◌ (unit_code x)) (unit_codes-insert_sorted u es))
  | inr ge ↦ rw (ge, ge→ltb (unit_code x) (unit_code u) (omega (tests)))
]

insert_sorted-left :
    (u : AdjUnit) (xs ys : List AdjUnit)
    → AllBelow (unit_codes xs) (unit_code u ∷ [])
    → insert_sorted u (xs ++ ys) ≡ xs ++ insert_sorted u ys
unfolding insert_sorted
insert_sorted-left u [] ys h = refl
insert_sorted-left u (x ∷ xs) ys h =
    let below : unit_code x < unit_code u = h.0.0 in
    rw (lt→ltb x.dest u.dest (omega arith)) (ap (◌∷◌ x) (insert_sorted-left u xs ys h.1))

insert_sorted-right :
    (u : AdjUnit) (xs ys : List AdjUnit)
    → Above (unit_code u) (unit_codes ys)
    → insert_sorted u (xs ++ ys) ≡ insert_sorted u xs ++ ys
unfolding insert_sorted
insert_sorted-right u [] [] h = refl
insert_sorted-right u [] (y ∷ ys) h =
    let above : unit_code u < unit_code y = h.0 in rw (ge→ltb y.dest u.dest (omega arith))
insert_sorted-right u (x ∷ xs) ys h = elim (Bool-cases (ltb x.dest u.dest)) [
  | inl lt ↦ rw lt (ap (◌∷◌ x) (insert_sorted-right u xs ys h))
  | inr ge ↦ rw ge
]

pub unit_codes-append :
    (xs ys : List AdjUnit) → unit_codes (xs ++ ys) ≡ unit_codes xs ++ unit_codes ys
unit_codes-append [] ys = refl
unit_codes-append (x ∷ xs) ys = ap (◌∷◌ (unit_code x)) (unit_codes-append xs ys)

module _ (f : ℕ → List AdjUnit) (n : ℕ) where
  pub units-AllBelow :
      (is : List Item)
      → AllBelow (codes f is) (n ∷ [])
      → AllBelow (unit_codes (units f is)) (n ∷ [])
  units-AllBelow [] h = tt
  units-AllBelow (at a ∷ is) h =
      let (p, q) = AllBelow-split (unit_codes (f a)) (codes f is) (n ∷ []) h in
      rw (unit_codes-append (f a) (units f is)) (
        AllBelow-join (unit_codes (f a)) (unit_codes (units f is)) (n ∷ []) p (units-AllBelow is q))
  units-AllBelow (sep k ∷ is) h = units-AllBelow is h.1

  pub units-Above : (is : List Item) → Above n (codes f is) → Above n (unit_codes (units f is))
  units-Above [] h = tt
  units-Above (at a ∷ is) h =
      let (p, q) = Above-append n (unit_codes (f a)) (codes f is) h in
      rw (unit_codes-append (f a) (units f is))
        (append-Above n (unit_codes (f a)) (unit_codes (units f is)) p (units-Above is q))
  units-Above (sep k ∷ is) h = units-Above is h.1

-- The chunk at `a` takes the unit `u`; `ls` and `rs` are the row's items on its two sides.
module _ (f : ℕ → List AdjUnit) (u : AdjUnit) (ls : List Item) (a : ℕ) (rs : List Item)
    (below : AllBelow (codes f ls) (unit_code u ∷ [])) (above : Above (unit_code u) (codes f rs))
    (left_absent : Absent a (addresses ls)) (right_absent : Absent a (addresses rs)) where
  abbrev taken : ℕ → List AdjUnit
  taken = update f a (insert_sorted u (f a))

  pub codes-taken :
      codes taken (ls ++ (at a ∷ rs)) ≡ insert_num (unit_code u) (codes f (ls ++ (at a ∷ rs)))
  codes-taken =
      let es = insert_sorted u (f a) in
      rw (
        codes-append taken ls (at a ∷ rs),
        codes-append f ls (at a ∷ rs),
        codes-update f a es ls left_absent,
        codes-update f a es rs right_absent,
        update_self f a es,
        unit_codes-insert_sorted u (f a),
        insert_num-left (unit_code u) (codes f ls) (unit_codes (f a) ++ codes f rs) below,
        insert_num-right (unit_code u) (unit_codes (f a)) (codes f rs) above,
      )

  pub units-taken : units taken (ls ++ (at a ∷ rs)) ≡ insert_sorted u (units f (ls ++ (at a ∷ rs)))
  units-taken =
      let es = insert_sorted u (f a) in
      rw (
        units-append taken ls (at a ∷ rs),
        units-append f ls (at a ∷ rs),
        units-update f a es ls left_absent,
        units-update f a es rs right_absent,
        update_self f a es,
        insert_sorted-left u (units f ls) (f a ++ units f rs)
            (units-AllBelow f (unit_code u) ls below),
        insert_sorted-right u (f a) (units f rs) (units-Above f (unit_code u) rs above),
      )
