-- ===== src/Parallel/Once.antt =====
-- The parallel loops from their start: each vertex of the slices is processed once in any schedule
-- that ends, and every schedule of the loops over edges ends.
use gast_co_co.Prelude.{
  ℕ, zero, suc, ◌+◌, ◌-◌, ◌*◌, ◌<◌, ◌≤◌, ◌≡◌, refl, sym, ap, ◌∙◌, arith, List, length,
}
use gast_co_co.Slice.{Bounds}
use gast_co_co.Slice.Order.{slices-ordered, slice-below}
use gast_co_co.Slice.Even.{IsSlicing}
use gast_co_co.Parallel.{Loop, run, init_thread_state}
use gast_co_co.Parallel.Sums.{sum, weight, sum-zero}
use gast_co_co.Parallel.Phases.{potential}
use gast_co_co.Parallel.Invariant.{IsChunking, IsSound}
use gast_co_co.Parallel.Moves.{HasRoom}
use gast_co_co.Parallel.Steps.{tries}
use gast_co_co.Parallel.Runs.{
  AreThreads, AllFinished, AllActing, run-IsSound, finished-weight, run-potential,
}

-- What adds up over ranges in a row.
pub record IsAdditive (f : ℕ → ℕ → ℕ) : Type 0 where
  pub joins : (b m e : ℕ) → b ≤ m → m ≤ e → f b m + f m e ≡ f b e
  pub nothing : (b : ℕ) → f b b ≡ 0

slices-sum :
    (f : ℕ → ℕ → ℕ)
    → IsAdditive f
    → (count n : ℕ) (r : Bounds) → IsSlicing count 0 n r
    → (k : ℕ) → k ≤ count
    → sum (λ t. f (r t) (r (suc t))) k ≡ f (r 0) (r k)
slices-sum f add count n r is zero le = sym (add.nothing (r 0))
slices-sum f add count n r is (suc k) le =
    let ih = slices-sum f add count n r is k (omega (arith, le)) in
    let o : r 0 ≤ r k =
      let o' = slices-ordered count n r is 0 k (omega (arith, le)) in
      let e : r (0 + k) ≡ r k = ap r (omega arith) in omega (arith, o', e) in
    let j = add.joins (r 0) (r k) (r (suc k)) o (is.ordered k le) in omega (arith, ih, j)

slices-total :
    (f : ℕ → ℕ → ℕ)
    → IsAdditive f
    → (count n : ℕ) (r : Bounds) → IsSlicing count 0 n r
    → sum (λ t. f (r t) (r (suc t))) count ≡ f 0 n
slices-total f add count n r is =
    slices-sum f add count n r is count (omega arith)
    ∙ ap (λ x. f x (r count)) is.first
    ∙ ap (f 0) is.last

sum-constant : (x n : ℕ) → sum (λ u. x) n ≡ n * x
sum-constant x zero = omega arith
sum-constant x (suc n) = let ih = sum-constant x n in grind arith

module _ (c : Loop) (items : ℕ → ℕ → List ℕ) (Fits : ℕ → ℕ → Type 0) (n : ℕ)
    (chunking : IsChunking c.chunk items Fits)
    (additive : (w : ℕ → ℕ) → IsAdditive (λ b e. weight w (items b e))) (r : Bounds)
    (is : IsSlicing c.threads 0 n r)
    (fits : (k : ℕ) → k < c.threads → r k < r (suc k) → Fits (r k) (r (suc k))) where
  abbrev pub all : (ℕ → ℕ) → ℕ
  all w = weight w (items 0 n)

  start-IsSound : IsSound c items Fits n all 0 (init_thread_state r)
  unfolding init_thread_state
  start-IsSound = record {
    balance = λ w.
        let z = sum-zero (λ u. 0) c.threads (λ j lt. refl) in
        let t = slices-total (λ b e. weight w (items b e)) (additive w) c.threads n r is in
        omega (arith, z, t);
    fits = fits;
    bound = λ i lt. let o = is.ordered i lt in omega (arith, o);
    ends = λ i lt. slice-below c.threads n r is i lt;
    short = λ u lt. omega arith;
    past = λ u lt h. ground arith;
  }

  pub run-weight :
      (ts : List ℕ)
      → AreThreads c.threads ts
      → HasRoom c items Fits n all chunking (0 + tries c * length ts)
      → AllFinished c.threads (run c ts (init_thread_state r))
      → (w : ℕ → ℕ) → weight w (run c ts (init_thread_state r)).processed ≡ all w
  run-weight ts h room done w =
      let s = init_thread_state r in
      finished-weight c items Fits n all chunking (0 + tries c * length ts) (run c ts s)
        (run-IsSound c items Fits n all chunking ts 0 s h start-IsSound room) done w

  start-potential :
      potential c.threads (init_thread_state r) ≡ c.threads * (3 + 2 * c.threads) + 4 * n
  unfolding init_thread_state
  start-potential =
      let a = sum-constant (3 + 2 * c.threads) c.threads in
      let d : IsAdditive (λ b e. e - b) = record {
        joins = λ b m e h h'. omega arith;
        nothing = λ b. omega arith;
      } in
      let t = slices-total (λ b e. e - b) d c.threads n r is in omega (arith, a, t)

  pub run-ends :
      (ts : List ℕ)
      → AllActing c ts (init_thread_state r)
      → HasRoom c items Fits n all chunking 0
      → tries c ≡ 0
      → length ts ≤ c.threads * (3 + 2 * c.threads) + 4 * n
  run-ends ts h room none =
      let p =
        run-potential c items Fits n all chunking ts (init_thread_state r) h start-IsSound room
          none in
      let q = start-potential in omega (arith, p, q)
