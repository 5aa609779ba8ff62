-- ===== src/Atomic/Total.antt =====
-- What is in the word when all threads are done, whatever the order of their steps.
use gast_co_co.Prelude.{
  ℕ, ◌+◌, ◌-◌, ◌%◌, ◌<◌, ◌≡◌, refl, sym, ap, subst, ◌∙◌, arith, true, false, Bool-cases, inl, inr,
  ◌==◌, ==→eq, if◌then◌else◌, List, [], ◌∷◌,
}
use native.Mathlib.Nat.{mod-add-mod, mod-eq_of_lt, mod-eq-sub-mod}
use gast_co_co.Parallel.Sums.{sum, sum-change, sum-same, sum-zero}
use gast_co_co.Parallel.Runs.{AreThreads}
use gast_co_co.Atomic.{
  Phase, before, loaded, done, State, Update, set_phase, cas, step_phase, run, start, write_add,
  write_sub,
}

-- What a thread has brought in.
abbrev brought : ℕ → Phase → ℕ
brought v before = 0
brought v (loaded c) = 0
brought v done = v

abbrev total : (threads : ℕ) → (val : ℕ → ℕ) → State → ℕ
total n val s = sum (λ u. brought (val u) (s.phase u)) n

-- The phase of one thread.
set_phase-total :
    (n : ℕ) (val : ℕ → ℕ) (t : ℕ) (p : Phase) (s : State)
    → t < n
    → total n val (set_phase t p s) + brought (val t) (s.phase t)
      ≡ total n val s + brought (val t) p
unfolding set_phase
set_phase-total n val t p s lt =
    let c =
      sum-change (λ u. brought (val u) (s.phase u))
        (λ u. brought (val u) (if u == t then p else s.phase u)) t n lt
        (λ j ne. let q : (j == t) ≡ false = ground (arith, ne) in rw q refl) in
    let self : (t == t) ≡ true = ground arith in
    let at : brought (val t) (if t == t then p else s.phase t) ≡ brought (val t) p = rw self refl in
    omega (arith, c, at)

-- A relation between the word and what was brought in, that every update keeps.
record IsTally (u : Update) (val : ℕ → ℕ) (R : (cell gained : ℕ) → Type 0) : Type 0 where
  always : (c v : ℕ) → u.tries c v ≡ true
  gains : (t c g : ℕ) → R c g → R (u.new_val c (val t)) (g + val t)

module _ (u : Update) (val : ℕ → ℕ) (R : ℕ → ℕ → Type 0) (n : ℕ) (tally : IsTally u val R) where
  -- A step that leaves the word and the total, and one of a thread that writes and is done.
  keep-tally :
      (t : ℕ) (p : Phase) (s : State)
      → t < n
      → brought (val t) p ≡ brought (val t) (s.phase t)
      → R s.cell (total n val s)
      → R (set_phase t p s).cell (total n val (set_phase t p s))
  unfolding set_phase
  keep-tally t p s lt e r =
      let c = set_phase-total n val t p s lt in
      let q : total n val (set_phase t p s) ≡ total n val s = omega (arith, c, e) in
      subst (R s.cell) (sym q) r

  write-tally :
      (t : ℕ) (s : State)
      → t < n
      → brought (val t) (s.phase t) ≡ 0
      → R s.cell (total n val s)
      → R
          (u.new_val s.cell (val t))
          (total n val (set_phase t done (record s { cell = u.new_val s.cell (val t) })))
  write-tally t s lt e r =
      let s' = record s { cell = u.new_val s.cell (val t) } in
      let c = set_phase-total n val t done s' lt in
      let q : total n val (set_phase t done s') ≡ total n val s + val t = omega (arith, c, e) in
      subst (R (u.new_val s.cell (val t))) (sym q) (tally.gains t s.cell (total n val s) r)

  step-tally :
      (t : ℕ) (q : Phase) (s : State)
      → t < n
      → s.phase t ≡ q
      → R s.cell (total n val s)
      → R (step_phase u val t q s).cell (total n val (step_phase u val t q s))
  unfolding step_phase cas
  step-tally t before s lt e r = keep-tally t (loaded s.cell) s lt (ap (brought (val t)) (sym e)) r
  step-tally t (loaded k) s lt e r =
      let on = tally.always k (val t) in
      elim (Bool-cases (s.cell == k)) [
        | inl q ↦
            let k_is = ==→eq s.cell k q in
            rw (on, q, ← k_is) (write-tally t s lt (ap (brought (val t)) e) r)
        | inr q ↦ rw (on, q) (keep-tally t before s lt (ap (brought (val t)) (sym e)) r)
      ]
  step-tally t done s lt e r = r

  run-tally :
      (ts : List ℕ) (s : State)
      → AreThreads n ts
      → R s.cell (total n val s)
      → R (run u val ts s).cell (total n val (run u val ts s))
  unfolding run
  run-tally [] s h r = r
  run-tally (t ∷ ts) s h r =
      run-tally ts (step_phase u val t (s.phase t) s) h.1 (step-tally t (s.phase t) s h.0 refl r)

all-done :
    (n : ℕ) (val : ℕ → ℕ) (s : State)
    → ((t : ℕ) → t < n → s.phase t ≡ done)
    → total n val s ≡ sum val n
all-done n val s h =
    sum-same val (λ u. brought (val u) (s.phase u)) n (λ j lt. ap (brought (val j)) (h j lt))

module _ (modulus n cell : ℕ) (val : ℕ → ℕ) (ts : List ℕ) (small : cell < modulus)
    (fit : (t : ℕ) → val t < modulus) (h : AreThreads n ts) where
  zero_start : total n val (start cell) ≡ 0
  zero_start = sum-zero (λ u. 0) n (λ j lt. refl)

  add-total :
      ((t : ℕ) → t < n → (run (write_add modulus) val ts (start cell)).phase t ≡ done)
      → (run (write_add modulus) val ts (start cell)).cell ≡ (cell + sum val n) % modulus
  add-total end =
      let is : IsTally (write_add modulus) val (λ c g. c ≡ (cell + g) % modulus) = record {
        always = λ c v. refl;
        gains = λ t c g r.
            rw r (mod-add-mod (cell + g) modulus (val t) ∙ ap (λ x. x % modulus) (omega arith));
      } in
      let first : cell ≡ (cell + 0) % modulus =
        let e : cell + 0 ≡ cell = omega arith in rw e (sym (mod-eq_of_lt small)) in
      run-tally (write_add modulus) val (λ c g. c ≡ (cell + g) % modulus) n is ts (start cell) h
        (rw zero_start first)
      ∙ ap (λ g. (cell + g) % modulus)
          (all-done n val (run (write_add modulus) val ts (start cell)) end)

  sub-total :
      ((t : ℕ) → t < n → (run (write_sub modulus) val ts (start cell)).phase t ≡ done)
      → ((run (write_sub modulus) val ts (start cell)).cell + sum val n) % modulus ≡ cell
  sub-total end =
      let is : IsTally (write_sub modulus) val (λ c g. (c + g) % modulus ≡ cell) = record {
        always = λ c v. refl;
        gains = λ t c g r.
            let f = fit t in
            let e : c + modulus - val t + (g + val t) ≡ c + g + modulus = omega (arith, f) in
            let e' : c + g + modulus - modulus ≡ c + g = omega arith in
            mod-add-mod (c + modulus - val t) modulus (g + val t)
            ∙ ap (λ x. x % modulus) e
            ∙ mod-eq-sub-mod {n = c + g + modulus} {m = modulus} (omega arith)
            ∙ ap (λ x. x % modulus) e'
            ∙ r;
      } in
      let first : (cell + 0) % modulus ≡ cell =
        let e : cell + 0 ≡ cell = omega arith in rw e (mod-eq_of_lt small) in
      let s = run (write_sub modulus) val ts (start cell) in
      ap (λ g. (s.cell + g) % modulus) (sym (all-done n val s end))
      ∙ run-tally (write_sub modulus) val (λ c g. (c + g) % modulus ≡ cell) n is ts (start cell) h
          (rw zero_start first)

-- `write_add` and `write_sub` of words below `modulus`, by any number of threads with a value of its
-- own each: when all threads are done, in whatever order they act, the word is what it was with all
-- values added in wrap-around, or what gives the old word when all values are added to it.
pub write_add-total :
    (modulus n cell : ℕ) (val : ℕ → ℕ) (ts : List ℕ)
    → cell < modulus
    → ((t : ℕ) → val t < modulus)
    → AreThreads n ts
    → ((t : ℕ) → t < n → (run (write_add modulus) val ts (start cell)).phase t ≡ done)
    → ((t : ℕ) → t < n → (run (write_sub modulus) val ts (start cell)).phase t ≡ done)
    → ((run (write_add modulus) val ts (start cell)).cell ≡ (cell + sum val n) % modulus)
      × (((run (write_sub modulus) val ts (start cell)).cell + sum val n) % modulus ≡ cell)
write_add-total modulus n cell val ts small fit h end end' = (
  add-total modulus n cell val ts small fit h end,
  sub-total modulus n cell val ts small fit h end',
)
