-- ===== src/Parallel/Sums.antt =====
-- Sums over the threads and over lists.
use gast_co_co.Prelude.{
  ℕ, zero, suc, ◌+◌, ◌*◌, ◌<◌, ◌≤◌, ◌≡◌, ◌≢◌, refl, ap, arith, List, [], ◌∷◌, ◌++◌, Bool-cases, inl,
  inr, ◌==◌, ==→eq, ==→ne,
}

abbrev pub sum : (ℕ → ℕ) → ℕ → ℕ
sum f zero = 0
sum f (suc n) = f n + sum f n

-- The sum of the weights of the numbers of a list.
abbrev pub weight : (ℕ → ℕ) → List ℕ → ℕ
weight w [] = 0
weight w (x ∷ xs) = w x + weight w xs

pub weight-append : (w : ℕ → ℕ) (xs ys : List ℕ) → weight w (xs ++ ys) ≡ weight w xs + weight w ys
weight-append w [] ys = omega arith
weight-append w (x ∷ xs) ys = omega (arith, weight-append w xs ys)

pub sum-same : (f g : ℕ → ℕ) (n : ℕ) → ((j : ℕ) → j < n → g j ≡ f j) → sum g n ≡ sum f n
sum-same f g zero h = refl
sum-same f g (suc n) h =
    let e = h n (omega arith) in
    let ih = sum-same f g n (λ j lt. h j (omega arith)) in omega (arith, e, ih)

-- Two sums that differ in one summand.
pub sum-change :
    (f g : ℕ → ℕ) (t n : ℕ) → t < n → ((j : ℕ) → j ≢ t → g j ≡ f j) → sum g n + f t ≡ sum f n + g t
sum-change f g t zero lt h = absurd (omega arith)
sum-change f g t (suc n) lt h = elim (Bool-cases (n == t)) [
  | inl q ↦
      let e = ==→eq n t q in
      let same = sum-same f g n (λ j lt'. h j (omega (arith, e))) in
      let a : f n ≡ f t = ap f e in let b : g n ≡ g t = ap g e in omega (arith, same, a, b)
  | inr q ↦
      let ne = ==→ne n t q in
      let ih = sum-change f g t n (omega (arith, ne)) h in let e = h n ne in omega (arith, ih, e)
]

pub sum-most : (f : ℕ → ℕ) (n m : ℕ) → ((j : ℕ) → j < n → f j ≤ m) → sum f n ≤ n * m
sum-most f zero m h = omega arith
sum-most f (suc n) m h =
    let ih = sum-most f n m (λ j lt. h j (omega arith)) in let e = h n (omega arith) in grind arith

pub sum-zero : (f : ℕ → ℕ) (n : ℕ) → ((j : ℕ) → j < n → f j ≡ 0) → sum f n ≡ 0
sum-zero f zero h = refl
sum-zero f (suc n) h =
    let ih = sum-zero f n (λ j lt. h j (omega arith)) in
    let e = h n (omega arith) in omega (arith, e, ih)
