-- ===== src/Prelude/Sorted.antt =====
-- Strictly ascending lists of numbers.
use Prim.Native.Nat.{ℕ, ◌<◌}
use mathlib.Core.List.{List, [], ◌∷◌, ◌++◌}
use native.Mathlib.Omega.{arith}
use mathlib.Core.Path.{◌≡◌, refl, ap}
use mathlib.Core.Logic.{inl, inr}
use gast_co_co.Prelude.Distinct.{Absent}
use gast_co_co.Prelude.Tests.{ltb, if◌then◌else◌, lt→ltb, ge→ltb, ltb→lt, ltb→ge, Bool-cases}

-- Every number of the list is above `x`.
abbrev pub Above : ℕ → List ℕ → Type 0
Above x [] = Unit
Above x (y ∷ ys) = (x < y) × Above x ys

abbrev pub IsSorted : List ℕ → Type 0
IsSorted [] = Unit
IsSorted (x ∷ xs) = Above x xs × IsSorted xs

-- Every number of the first list is below every number of the second.
abbrev pub AllBelow : List ℕ → List ℕ → Type 0
AllBelow [] ys = Unit
AllBelow (x ∷ xs) ys = Above x ys × AllBelow xs ys

pub Above-append : (x : ℕ) (ys zs : List ℕ) → Above x (ys ++ zs) → Above x ys × Above x zs
Above-append x [] zs h = (tt, h)
Above-append x (y ∷ ys) zs h = let (a, b) = Above-append x ys zs h.1 in ((h.0, a), b)

pub append-Above : (x : ℕ) (ys zs : List ℕ) → Above x ys → Above x zs → Above x (ys ++ zs)
append-Above x [] zs h k = k
append-Above x (y ∷ ys) zs h k = (h.0, append-Above x ys zs h.1 k)

pub Above-trans : (x y : ℕ) (zs : List ℕ) → x < y → Above y zs → Above x zs
Above-trans x y [] h k = tt
Above-trans x y (z ∷ zs) h k = (omega arith, Above-trans x y zs h k.1)

-- A sorted concatenation, taken apart and put together.
pub IsSorted-append :
    (xs ys : List ℕ) → IsSorted (xs ++ ys) → IsSorted xs × IsSorted ys × AllBelow xs ys
IsSorted-append [] ys h = (tt, h, tt)
IsSorted-append (x ∷ xs) ys h =
    let (a, b) = Above-append x xs ys h.0 in
    let (sx, sy, below) = IsSorted-append xs ys h.1 in ((a, sx), sy, (b, below))

pub append-IsSorted :
    (xs ys : List ℕ) → IsSorted xs → IsSorted ys → AllBelow xs ys → IsSorted (xs ++ ys)
append-IsSorted [] ys sx sy below = sy
append-IsSorted (x ∷ xs) ys sx sy below =
    (append-Above x xs ys sx.0 below.0, append-IsSorted xs ys sx.1 sy below.1)

pub AllBelow-append : (xs ys zs : List ℕ) → AllBelow xs (ys ++ zs) → AllBelow xs ys × AllBelow xs zs
AllBelow-append [] ys zs h = (tt, tt)
AllBelow-append (x ∷ xs) ys zs h =
    let (a, b) = Above-append x ys zs h.0 in
    let (c, d) = AllBelow-append xs ys zs h.1 in ((a, c), (b, d))

pub append-AllBelow : (xs ys zs : List ℕ) → AllBelow xs ys → AllBelow xs zs → AllBelow xs (ys ++ zs)
append-AllBelow [] ys zs h k = tt
append-AllBelow (x ∷ xs) ys zs h k =
    (append-Above x ys zs h.0 k.0, append-AllBelow xs ys zs h.1 k.1)

-- The number at the front of the right part is above the left part, and below what follows it.
pub Above-middle : (x y : ℕ) (xs ys : List ℕ) → Above x (xs ++ y ∷ ys) → x < y
Above-middle x y xs ys h = (Above-append x xs (y ∷ ys) h).1.0

-- What is left of a sorted list when a middle part is taken out.
pub IsSorted-without : (xs ys zs : List ℕ) → IsSorted (xs ++ (ys ++ zs)) → IsSorted (xs ++ zs)
IsSorted-without [] ys zs h = (IsSorted-append ys zs h).1
IsSorted-without (x ∷ xs) ys zs h =
    let (a, b) = Above-append x xs (ys ++ zs) h.0 in
    (append-Above x xs zs a (Above-append x ys zs b).1, IsSorted-without xs ys zs h.1)

pub AllBelow-front :
    (xs : List ℕ) (y : ℕ) (ys : List ℕ) → AllBelow xs (y ∷ ys) → AllBelow xs (y ∷ [])
AllBelow-front [] y ys h = tt
AllBelow-front (x ∷ xs) y ys h = ((h.0.0, tt), AllBelow-front xs y ys h.1)

pub AllBelow-trans : (xs : List ℕ) (y z : ℕ) → AllBelow xs (y ∷ []) → y < z → AllBelow xs (z ∷ [])
AllBelow-trans [] y z h k = tt
AllBelow-trans (x ∷ xs) y z h k = ((omega arith, tt), AllBelow-trans xs y z h.1 k)

-- Below a number, after one more is put at the end.
pub AllBelow-snoc :
    (xs : List ℕ) (y z : ℕ) → AllBelow xs (z ∷ []) → y < z → AllBelow (xs ++ y ∷ []) (z ∷ [])
AllBelow-snoc [] y z h k = ((k, tt), tt)
AllBelow-snoc (x ∷ xs) y z h k = (h.0, AllBelow-snoc xs y z h.1 k)

-- A list is below numbers in whole if it is in parts, and the other way round.
pub AllBelow-split : (xs ys zs : List ℕ) → AllBelow (xs ++ ys) zs → AllBelow xs zs × AllBelow ys zs
AllBelow-split [] ys zs h = (tt, h)
AllBelow-split (x ∷ xs) ys zs h = let (p, q) = AllBelow-split xs ys zs h.1 in ((h.0, p), q)

pub AllBelow-join : (xs ys zs : List ℕ) → AllBelow xs zs → AllBelow ys zs → AllBelow (xs ++ ys) zs
AllBelow-join [] ys zs h k = k
AllBelow-join (x ∷ xs) ys zs h k = (h.0, AllBelow-join xs ys zs h.1 k)

-- Insertion before the first number that is not smaller.
unfoldable pub insert_num : ℕ → List ℕ → List ℕ
insert_num n [] = n ∷ []
insert_num n (x ∷ xs) = if ltb x n then x ∷ insert_num n xs else n ∷ x ∷ xs

pub insert_num-left :
    (n : ℕ) (xs ys : List ℕ)
    → AllBelow xs (n ∷ [])
    → insert_num n (xs ++ ys) ≡ xs ++ insert_num n ys
unfolding insert_num
insert_num-left n [] ys h = refl
insert_num-left n (x ∷ xs) ys h = rw (lt→ltb x n h.0.0) (ap (◌∷◌ x) (insert_num-left n xs ys h.1))

pub insert_num-right :
    (n : ℕ) (xs ys : List ℕ) → Above n ys → insert_num n (xs ++ ys) ≡ insert_num n xs ++ ys
unfolding insert_num
insert_num-right n [] [] h = refl
insert_num-right n [] (y ∷ ys) h = let lt : n < y = h.0 in rw (ge→ltb y n (omega arith))
insert_num-right n (x ∷ xs) ys h = elim (Bool-cases (ltb x n)) [
  | inl lt ↦ rw lt (ap (◌∷◌ x) (insert_num-right n xs ys h))
  | inr ge ↦ rw ge
]

Above-insert_num : (x n : ℕ) (ys : List ℕ) → x < n → Above x ys → Above x (insert_num n ys)
unfolding insert_num
Above-insert_num x n [] h k = (h, tt)
Above-insert_num x n (y ∷ ys) h k = elim (Bool-cases (ltb y n)) [
  | inl lt ↦ rw lt (k.0, Above-insert_num x n ys h k.1)
  | inr ge ↦ rw ge (h, k)
]

-- A new number keeps a strictly ascending list so.
pub IsSorted-insert_num :
    (n : ℕ) (xs : List ℕ) → IsSorted xs → Absent n xs → IsSorted (insert_num n xs)
unfolding insert_num
IsSorted-insert_num n [] s h = (tt, tt)
IsSorted-insert_num n (x ∷ xs) s h = elim (Bool-cases (ltb x n)) [
  | inl lt ↦ rw lt (Above-insert_num x n xs (ltb→lt x n lt) s.0, IsSorted-insert_num n xs s.1 h.1)
  | inr ge ↦
      let ne = h.0 in
      let le = ltb→ge x n ge in
      let below : n < x = ground arith in rw ge ((below, Above-trans n x xs below s.0), s)
]
