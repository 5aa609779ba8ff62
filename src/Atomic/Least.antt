-- ===== src/Atomic/Least.antt =====
-- `write_min` leaves the least value.
use gast_co_co.Prelude.{
  ℕ, ◌<◌, ◌≤◌, ◌≡◌, refl, sym, subst, arith, Bool-cases, inl, inr, ◌⊎◌, ltb, ltb→lt, ltb→ge, ◌==◌,
  ==→eq, if◌then◌else◌, List, [], ◌∷◌,
}
use gast_co_co.Parallel.Runs.{AreThreads}
use gast_co_co.Atomic.{
  Phase, before, loaded, done, State, set_phase, cas, step_phase, run, start, write_min,
}

-- The word is one of the values, not above what any thread has read or has compared with it.
abbrev IsAbove : (cell v : ℕ) → Phase → Type 0
IsAbove cell v before = Unit
IsAbove cell v (loaded k) = cell ≤ k
IsAbove cell v done = cell ≤ v

record IsLeast (n init : ℕ) (val : ℕ → ℕ) (cell : ℕ) (phase : ℕ → Phase) : Type 0 where
  low : cell ≤ init
  above : (t : ℕ) → t < n → IsAbove cell (val t) (phase t)
  found : (cell ≡ init) ⊎ ((t : ℕ) × (t < n) × (cell ≡ val t))

IsAbove-le : (c c' v : ℕ) (p : Phase) → c' ≤ c → IsAbove c v p → IsAbove c' v p
IsAbove-le c c' v before le h = tt
IsAbove-le c c' v (loaded k) le h = omega (arith, le, h)
IsAbove-le c c' v done le h = omega (arith, le, h)

module _ (n init : ℕ) (val : ℕ → ℕ) where
  -- One thread goes on, and the word does not grow.
  go-IsLeast :
      (t c c' : ℕ) (f : ℕ → Phase) (p : Phase)
      → t < n
      → IsLeast n init val c f
      → c' ≤ c
      → IsAbove c' (val t) p
      → (c' ≡ c) ⊎ (c' ≡ val t)
      → IsLeast n init val c' (λ j. if j == t then p else f j)
  go-IsLeast t c c' f p lt is le new which = record {
    low = let l = is.low in omega (arith, l, le);
    above = λ j lt'. elim (Bool-cases (j == t)) [
      | inl q ↦ rw q (subst (λ k. IsAbove c' (val k) p) (sym (==→eq j t q)) new)
      | inr q ↦ rw q (IsAbove-le c c' (val j) (f j) le (is.above j lt'))
    ];
    found = elim which [ inl q ↦ rw q is.found | inr q ↦ inr (t, lt, q) ];
  }

  step-IsLeast :
      (t : ℕ) (q : Phase) (s : State)
      → t < n
      → s.phase t ≡ q
      → IsLeast n init val s.cell s.phase
      → IsLeast n init val
          (step_phase write_min val t q s).cell
          (step_phase write_min val t q s).phase
  unfolding step_phase cas set_phase
  step-IsLeast t before s lt e is =
      go-IsLeast t s.cell s.cell s.phase (loaded s.cell) lt is (omega arith) (omega arith)
        (inl refl)
  step-IsLeast t (loaded k) s lt e is =
      let read : s.cell ≤ k = subst (IsAbove s.cell (val t)) e (is.above t lt) in
      elim (Bool-cases (ltb (val t) k)) [
        | inl p ↦
            let smaller = ltb→lt (val t) k p in
            elim (Bool-cases (s.cell == k)) [
              | inl q ↦
                  let k_is = ==→eq s.cell k q in
                  rw (p, q)
                    (go-IsLeast t s.cell (val t) s.phase done lt is (omega (arith, k_is, smaller))
                      (omega arith) (inr refl))
              | inr q ↦
                  rw (p, q)
                    (go-IsLeast t s.cell s.cell s.phase before lt is (omega arith) tt (inl refl))
            ]
        | inr p ↦
            let ge = ltb→ge (val t) k p in
            rw p (
              go-IsLeast t s.cell s.cell s.phase done lt is (omega arith) (omega (arith, read, ge))
                (inl refl))
      ]
  step-IsLeast t done s lt e is = is

  run-IsLeast :
      (ts : List ℕ) (s : State)
      → AreThreads n ts
      → IsLeast n init val s.cell s.phase
      → IsLeast n init val (run write_min val ts s).cell (run write_min val ts s).phase
  unfolding run
  run-IsLeast [] s h is = is
  run-IsLeast (t ∷ ts) s h is =
      run-IsLeast ts (step_phase write_min val t (s.phase t) s) h.1
        (step-IsLeast t (s.phase t) s h.0 refl is)

-- `write_min` by any number of threads with a value of its own each: when all threads are done, in whatever order
-- they act, the word is the least of the old word and all values.
pub write_min-least :
    (n init : ℕ) (val : ℕ → ℕ) (ts : List ℕ)
    → AreThreads n ts
    → ((t : ℕ) → t < n → (run write_min val ts (start init)).phase t ≡ done)
    → ((run write_min val ts (start init)).cell ≤ init)
      × ((t : ℕ) → t < n → (run write_min val ts (start init)).cell ≤ val t)
      × (((run write_min val ts (start init)).cell ≡ init)
          ⊎ ((t : ℕ) × (t < n) × ((run write_min val ts (start init)).cell ≡ val t)))
write_min-least n init val ts h end =
    let s = run write_min val ts (start init) in
    let is =
      run-IsLeast n init val ts (start init) h
        (record { low = omega arith; above = λ t lt. tt; found = inl refl }) in
    (is.low, (λ t lt. subst (IsAbove s.cell (val t)) (end t lt) (is.above t lt)), is.found)
