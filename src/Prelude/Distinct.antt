-- ===== src/Prelude/Distinct.antt =====
-- Lists with no number twice, as the addresses of the chunks of a tree are.
use Prim.Native.Nat.{ℕ, ◌<◌}
use mathlib.Core.Path.{sym}
use mathlib.Core.Logic.{◌≢◌}
use mathlib.Core.List.{List, [], ◌∷◌, ◌++◌}
use native.Mathlib.Omega.{arith}

abbrev pub Absent : ℕ → List ℕ → Type 0
Absent n [] = Unit
Absent n (x ∷ xs) = (n ≢ x) × Absent n xs

abbrev pub Distinct : List ℕ → Type 0
Distinct [] = Unit
Distinct (x ∷ xs) = Absent x xs × Distinct xs

abbrev pub All {ℓ κ} : {A : Type ℓ} → (A → Type κ) → List A → Type κ
All P [] = Unit
All P (x ∷ xs) = P x × All P xs

pub Absent-append : (n : ℕ) (xs ys : List ℕ) → Absent n (xs ++ ys) → Absent n xs × Absent n ys
Absent-append n [] ys h = (tt, h)
Absent-append n (x ∷ xs) ys h = let (p, q) = Absent-append n xs ys h.1 in ((h.0, p), q)

pub append-Absent : (n : ℕ) (xs ys : List ℕ) → Absent n xs → Absent n ys → Absent n (xs ++ ys)
append-Absent n [] ys h k = k
append-Absent n (x ∷ xs) ys h k = (h.0, append-Absent n xs ys h.1 k)

module _ {ℓ κ} {A : Type ℓ} (P : A → Type κ) where
  pub All-append : (xs ys : List A) → All P (xs ++ ys) → All P xs × All P ys
  All-append [] ys h = (tt, h)
  All-append (x ∷ xs) ys h = let (p, q) = All-append xs ys h.1 in ((h.0, p), q)

  pub append-All : (xs ys : List A) → All P xs → All P ys → All P (xs ++ ys)
  append-All [] ys h k = k
  append-All (x ∷ xs) ys h k = (h.0, append-All xs ys h.1 k)

-- What holds of the numbers of a list, and goes over to a second predicate but at one number.
pub All-but {κ μ} :
    (P : ℕ → Type κ) (Q : ℕ → Type μ) (a : ℕ)
    → ((x : ℕ) → x ≢ a → P x → Q x)
    → (xs : List ℕ) → Absent a xs
    → All P xs
    → All Q xs
All-but P Q a step [] h k = tt
All-but P Q a step (x ∷ xs) h k = (step x (λ e. h.0 (sym e)) k.0, All-but P Q a step xs h.1 k.1)

-- A number of the list stands in neither of its two sides.
pub Distinct-middle : (a : ℕ) (xs ys : List ℕ) → Distinct (xs ++ a ∷ ys) → Absent a xs × Absent a ys
Distinct-middle a [] ys h = (tt, h.0)
Distinct-middle a (x ∷ xs) ys h =
    let (p, q) = Distinct-middle a xs ys h.1 in
    let (_, apart) = Absent-append x xs (a ∷ ys) h.0 in ((λ e. apart.0 (sym e), p), q)

-- A new number behind one of the list.
pub Distinct-behind :
    (a b : ℕ) (xs ys : List ℕ)
    → Distinct (xs ++ a ∷ ys)
    → Absent b (xs ++ a ∷ ys)
    → Distinct (xs ++ a ∷ b ∷ ys)
Distinct-behind a b [] ys h k = ((λ e. k.0 (sym e), h.0), (k.1, h.1))
Distinct-behind a b (x ∷ xs) ys h k =
    let (p, q) = Absent-append x xs (a ∷ ys) h.0 in
    (
      append-Absent x xs (a ∷ b ∷ ys) p (q.0, ((λ e. k.0 (sym e)), q.1)),
      Distinct-behind a b xs ys h.1 k.1,
    )

pub Absent-fresh : (n : ℕ) (xs : List ℕ) → All (λ x. x < n) xs → Absent n xs
Absent-fresh n [] h = tt
Absent-fresh n (x ∷ xs) h =
    let below : x < n = h.0 in ((λ e. absurd (omega arith)), Absent-fresh n xs h.1)

pub All-map {κ μ} :
    (P : ℕ → Type κ) (Q : ℕ → Type μ) → ((x : ℕ) → P x → Q x) → (xs : List ℕ) → All P xs → All Q xs
All-map P Q step [] h = tt
All-map P Q step (x ∷ xs) h = (step x h.0, All-map P Q step xs h.1)
