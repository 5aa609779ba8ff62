-- ===== src/Tree/Halved.antt =====
-- A row of items when a full leaf chunk is split: the units stay, and the key between the two halves
-- fits where it is put.
use gast_co_co.Prelude.{
  ℕ, ◌+◌, ◌*◌, ◌<◌, ◌≡◌, ◌≢◌, sym, ap, ◌∙◌, List, [], ◌∷◌, ◌++◌, arith, append_assoc, subst,
}
use gast_co_co.Prelude.Distinct.{Absent}
use gast_co_co.Prelude.Sorted.{
  IsSorted, AllBelow, IsSorted-append, append-IsSorted, Above-trans, AllBelow-front, AllBelow-trans,
  append-AllBelow, AllBelow-join,
}
use gast_co_co.Types.{AdjUnit}
use gast_co_co.Tree.Items.{Item, at, sep}
use gast_co_co.Tree.Order.{unit_code, unit_codes, codes, units, codes-append, units-append}
use gast_co_co.Tree.Rows.{
  addresses, update, update_self, update_other, codes-update, units-update, unit_codes-append,
}

-- The even code of a key goes in front of the odd code of a unit with that neighbour.
IsSorted-key :
    (xs : List ℕ) (k : ℕ) (ys : List ℕ)
    → IsSorted (xs ++ (2 * k + 1) ∷ ys)
    → AllBelow xs ((2 * k) ∷ [])
    → IsSorted (xs ++ (2 * k) ∷ (2 * k + 1) ∷ ys)
IsSorted-key xs k ys s h =
    let (sx, sy, below) = IsSorted-append xs ((2 * k + 1) ∷ ys) s in
    append-IsSorted xs ((2 * k) ∷ (2 * k + 1) ∷ ys) sx
      ((omega arith, Above-trans (2 * k) (2 * k + 1) ys (omega arith) sy.0), sy)
      (append-AllBelow xs ((2 * k) ∷ []) ((2 * k + 1) ∷ ys) h below)

-- Odd codes that are below an odd code are below the even one before it.
unit_codes-below :
    (us : List AdjUnit) (k : ℕ)
    → AllBelow (unit_codes us) ((2 * k + 1) ∷ [])
    → AllBelow (unit_codes us) ((2 * k) ∷ [])
unit_codes-below [] k h = tt
unit_codes-below (u ∷ us) k h =
    let below : 2 * u.dest + 1 < 2 * k + 1 = h.0.0 in ((omega arith, tt), unit_codes-below us k h.1)

module _ (f : ℕ → List AdjUnit) (ls : List Item) (a : ℕ) (rs : List Item) (b : ℕ) (l : AdjUnit)
    (lower : List AdjUnit) (v : AdjUnit) (upper : List AdjUnit)
    (whole : f a ≡ (l ∷ lower) ++ (v ∷ upper)) (apart : b ≢ a)
    (left_absent : Absent a (addresses ls)) (right_absent : Absent a (addresses rs))
    (left_fresh : Absent b (addresses ls)) (right_fresh : Absent b (addresses rs)) where
  abbrev pub halved : ℕ → List AdjUnit
  halved = update (update f a (l ∷ lower)) b (v ∷ upper)

  abbrev pub row : List Item
  row = ls ++ (at a ∷ rs)

  abbrev pub halved_row : List Item
  halved_row = ls ++ (at a ∷ sep v.dest ∷ at b ∷ rs)

  halved-a : halved a ≡ l ∷ lower
  halved-a =
      update_other (update f a (l ∷ lower)) b (v ∷ upper) a (λ e. apart (sym e))
      ∙ update_self f a (l ∷ lower)

  halved-b : halved b ≡ v ∷ upper
  halved-b = update_self (update f a (l ∷ lower)) b (v ∷ upper)

  pub codes-side :
      (is : List Item)
      → Absent a (addresses is)
      → Absent b (addresses is)
      → codes halved is ≡ codes f is
  codes-side is p q =
      codes-update (update f a (l ∷ lower)) b (v ∷ upper) is q ∙ codes-update f a (l ∷ lower) is p

  units-side :
      (is : List Item)
      → Absent a (addresses is)
      → Absent b (addresses is)
      → units halved is ≡ units f is
  units-side is p q =
      units-update (update f a (l ∷ lower)) b (v ∷ upper) is q ∙ units-update f a (l ∷ lower) is p

  pub units-halved : units halved halved_row ≡ units f row
  units-halved =
      rw
        (
          units-append halved ls (at a ∷ sep v.dest ∷ at b ∷ rs),
          units-append f ls (at a ∷ rs),
          units-side ls left_absent left_fresh,
          units-side rs right_absent right_fresh,
          halved-a,
          halved-b,
          whole,
        )
        (simp append_assoc)

  codes-row :
      codes f row
      ≡ codes f ls ++ (unit_codes (l ∷ lower) ++ (unit_code v ∷ (unit_codes upper ++ codes f rs)))
  codes-row =
      codes-append f ls (at a ∷ rs)
      ∙ ap (λ x. codes f ls ++ (x ++ codes f rs))
          (ap unit_codes whole ∙ unit_codes-append (l ∷ lower) (v ∷ upper))
      ∙ simp append_assoc

  codes-halved :
      codes halved halved_row
      ≡ codes f ls
        ++ (unit_codes (l ∷ lower)
            ++ ((2 * v.dest) ∷ unit_code v ∷ (unit_codes upper ++ codes f rs)))
  codes-halved = rw (
    codes-append halved ls (at a ∷ sep v.dest ∷ at b ∷ rs),
    codes-side ls left_absent left_fresh,
    codes-side rs right_absent right_fresh,
    halved-a,
    halved-b,
  )

  -- The row is still in order with the new key in it.
  pub IsSorted-halved : IsSorted (codes f row) → IsSorted (codes halved halved_row)
  IsSorted-halved s =
      let left = codes f ls in
      let mid = unit_codes (l ∷ lower) in
      let ys = unit_codes upper ++ codes f rs in
      let k = v.dest in
      let s1 = subst IsSorted codes-row s in
      let (_, s2, under) = IsSorted-append left (mid ++ (unit_code v ∷ ys)) s1 in
      let (_, _, over) = IsSorted-append mid (unit_code v ∷ ys) s2 in
      let mid_below = unit_codes-below (l ∷ lower) k (AllBelow-front mid (unit_code v) ys over) in
      let left_below =
        AllBelow-trans left (unit_code l) (2 * k)
          (AllBelow-front left (unit_code l) (unit_codes lower ++ (unit_code v ∷ ys)) under)
          mid_below.0.0 in
      let s3 =
        IsSorted-key (left ++ mid) k ys
          (subst IsSorted (sym (append_assoc left mid (unit_code v ∷ ys))) s1)
          (AllBelow-join left mid ((2 * k) ∷ []) left_below mid_below) in
      subst IsSorted (append_assoc left mid ((2 * k) ∷ unit_code v ∷ ys) ∙ sym codes-halved) s3
