-- ===== src/Parallel/Runs.antt =====
-- The invariant along the steps of any schedule, and what it says when every thread is behind its loops.
use gast_co_co.Prelude.{
  ℕ, suc, ◌+◌, ◌*◌, ◌<◌, ◌≤◌, ◌≡◌, refl, ap, subst, arith, List, [], ◌∷◌, true, false, Bool-cases,
  inl, inr, length,
}
use gast_co_co.Parallel.{
  Phase, own, own_busy, leaving, steal, claim, steal_busy, finished, State, Loop, step_phase, step,
  run, is_finished,
}
use gast_co_co.Parallel.Sums.{weight, sum-zero}
use gast_co_co.Parallel.Phases.{pending, is_behind, potential}
use gast_co_co.Parallel.Invariant.{IsChunking, left_in, IsSound}
use gast_co_co.Parallel.Moves.{HasRoom}
use gast_co_co.Parallel.Steps.{tries, later-IsSound, step_phase-IsSound}

-- The threads of a schedule exist.
abbrev pub AreThreads : (threads : ℕ) → List ℕ → Type 0
AreThreads n [] = Unit
AreThreads n (t ∷ ts) = (t < n) × AreThreads n ts

-- Every thread is behind its loops.
abbrev pub AllFinished : (threads : ℕ) → State → Type 0
AllFinished n s = (t : ℕ) → t < n → s.phase t ≡ finished

-- Every thread of a schedule exists and has something left to do when it acts.
abbrev pub AllActing : Loop → List ℕ → State → Type 0
AllActing c [] s = Unit
AllActing c (t ∷ ts) s =
    (t < c.threads) × ((is_finished (s.phase t) ≡ false) × AllActing c ts (step c t s))

module _ (c : Loop) (items : ℕ → ℕ → List ℕ) (Fits : ℕ → ℕ → Type 0) (n : ℕ) (total : (ℕ → ℕ) → ℕ)
    (chunking : IsChunking c.chunk items Fits) where
  finished_phase-stays :
      (t : ℕ) (s : State) (q : Phase) → is_finished q ≡ true → step_phase c t q s ≡ s
  unfolding step_phase
  finished_phase-stays t s own h = ground arith
  finished_phase-stays t s (own_busy vs) h = ground arith
  finished_phase-stays t s leaving h = ground arith
  finished_phase-stays t s (steal k) h = ground arith
  finished_phase-stays t s (claim k) h = ground arith
  finished_phase-stays t s (steal_busy k vs) h = ground arith
  finished_phase-stays t s finished h = refl

  step-IsSound :
      (extra t : ℕ) (s : State)
      → IsSound c items Fits n total extra s
      → t < c.threads
      → HasRoom c items Fits n total chunking extra
      → IsSound c items Fits n total (extra + tries c) (step c t s)
  unfolding step
  step-IsSound extra t s is lt room = elim (Bool-cases (is_finished (s.phase t))) [
    | inl p ↦
        rw (finished_phase-stays t s (s.phase t) p)
          (later-IsSound c items Fits n total chunking extra t s is lt room (tries c) s is)
    | inr p ↦
        (step_phase-IsSound c items Fits n total chunking extra t s is lt room (s.phase t) refl p).0
  ]

  pub run-IsSound :
      (ts : List ℕ) (extra : ℕ) (s : State)
      → AreThreads c.threads ts
      → IsSound c items Fits n total extra s
      → HasRoom c items Fits n total chunking (extra + tries c * length ts)
      → IsSound c items Fits n total (extra + tries c * length ts) (run c ts s)
  unfolding run
  run-IsSound [] extra s h is room = subst (λ k. IsSound c items Fits n total k s) (omega arith) is
  run-IsSound (t ∷ ts) extra s h is room =
      let e : extra + tries c + tries c * length ts ≡ extra + tries c * length (t ∷ ts) =
        grind arith in
      let more : extra ≤ extra + tries c * length (t ∷ ts) = omega arith in
      let one = step-IsSound extra t s is h.0 (omega (arith, room, more)) in
      subst (λ k. IsSound c items Fits n total k (run c ts (step c t s))) e
        (run-IsSound ts (extra + tries c) (step c t s) h.1 one (rw e room))

  pub finished-weight :
      (extra : ℕ) (s : State)
      → IsSound c items Fits n total extra s
      → AllFinished c.threads s
      → (w : ℕ → ℕ) → weight w s.processed ≡ total w
  finished-weight extra s is done w =
      let a =
        sum-zero (λ u. weight w (pending (s.phase u))) c.threads
          (λ u lt. ap (λ p. weight w (pending p)) (done u lt)) in
      let b =
        sum-zero (λ i. left_in items w (s.thread_state i)) c.threads
          (λ i lt. ap (weight w) (
            chunking.empty (s.thread_state i).curr (s.thread_state i).end
              (is.past i lt (ap is_behind (done i lt))))) in
      omega (arith, a, b, is.balance w)

  pub run-potential :
      (ts : List ℕ) (s : State)
      → AllActing c ts s
      → IsSound c items Fits n total 0 s
      → HasRoom c items Fits n total chunking 0
      → tries c ≡ 0
      → length ts + potential c.threads (run c ts s) ≤ potential c.threads s
  unfolding run step
  run-potential [] s h is room none = omega arith
  run-potential (t ∷ ts) s h is room none =
      let one =
        step_phase-IsSound c items Fits n total chunking 0 t s is h.0 room (s.phase t) refl h.1.0 in
      let is' =
        subst (λ k. IsSound c items Fits n total k (step c t s)) (omega (arith, none)) one.0 in
      bounded ts s (step c t s) one.1 none (run-potential ts (step c t s) h.1.1 is' room none)
    where
      bounded :
          (ts : List ℕ) (s s1 : State)
          → potential c.threads s1 < potential c.threads s + 2 * tries c
          → tries c ≡ 0
          → length ts + potential c.threads (run c ts s1) ≤ potential c.threads s1
          → suc (length ts) + potential c.threads (run c ts s1) ≤ potential c.threads s
      bounded ts s s1 low none ih = omega (arith, low, none, ih)
