-- ===== src/Parallel/Steps.antt =====
-- Every step of a parallel loop keeps the invariant and lowers the potential.
use gast_co_co.Prelude.{
  ℕ, suc, ◌+◌, ◌*◌, ◌%◌, ◌<◌, ◌≤◌, ◌≡◌, refl, subst, arith, List, [], ◌∷◌, Bool, true, false,
  Bool-cases, inl, inr, ◌==◌, ltb, ltb→lt, ltb→ge, if◌then◌else◌,
}
use gast_co_co.Parallel.{
  Phase, own, own_busy, leaving, steal, claim, steal_busy, finished, State, Loop, set_phase,
  fetch_add, set_stealing, process, step_phase, is_stealing, is_finished,
}
use gast_co_co.Parallel.Phases.{pending, is_behind, progress, reach, cost, potential}
use gast_co_co.Parallel.Invariant.{IsChunking, move-potential, IsSound, IsMove, move-IsSound}
use gast_co_co.Parallel.Moves.{
  HasRoom, claimed, stay-IsMove, busy-IsMove, taken-IsMove, missed-IsMove,
}

-- What a step may add to the number of second tries.
abbrev pub tries : Loop → ℕ
tries c = if c.spins then 1 else 0

module _ (c : Loop) (items : ℕ → ℕ → List ℕ) (Fits : ℕ → ℕ → Type 0) (n : ℕ) (total : (ℕ → ℕ) → ℕ)
    (chunking : IsChunking c.chunk items Fits) where
  module _ (extra t : ℕ) (s : State) (is : IsSound c items Fits n total extra s)
      (lt : t < c.threads) (room : HasRoom c items Fits n total chunking extra) where
    pub later-IsSound :
        (more : ℕ) (s' : State)
        → IsSound c items Fits n total extra s'
        → IsSound c items Fits n total (extra + more) s'
    later-IsSound more s' k = record {
      balance = k.balance;
      fits = k.fits;
      ends = k.ends;
      past = k.past;
      short = k.short;
      bound = λ i lt'. let b = k.bound i lt' in omega (arith, b);
    }

    -- The invariant, and a smaller potential but for the second tries.
    abbrev pub IsStepped : State → Type 0
    IsStepped s' =
        IsSound c items Fits n total (extra + tries c) s'
        × (potential c.threads s' < potential c.threads s + 2 * tries c)

    moved-IsSound :
        (i : ℕ) (s' : State) → IsMove c items Fits n total extra extra t i s s' → IsStepped s'
    moved-IsSound i s' m = (
      later-IsSound (tries c) s' (move-IsSound c items Fits n total extra extra t i s s' is m),
      (let d = move-potential c items Fits n total extra extra t i s s' m in omega (arith, d)),
    )

    within : t + 0 < c.threads
    within = omega (arith, lt)

    other_range : (k : ℕ) → (t + k) % c.threads < c.threads
    other_range k = let l = lt in grind arith

    no_change-IsMove :
        (q p : Phase)
        → s.phase t ≡ q
        → pending q ≡ []
        → pending p ≡ []
        → progress c.threads q ≤ progress c.threads p
        → reach c.threads p ≤ c.threads
        → is_behind q ≡ is_behind p
        → cost c.threads p < cost c.threads q
        → IsMove c items Fits n total extra extra t t s (set_phase t p s)
    no_change-IsMove q p e pq pp le top beh low =
        stay-IsMove c items Fits n total chunking extra t s is lt q p s e refl refl (λ j ne. refl)
          refl refl pq pp le top beh low

    reach_is : (q : Phase) → s.phase t ≡ q → reach c.threads q ≤ c.threads
    reach_is q e = subst (λ p. reach c.threads p ≤ c.threads) e (is.short t lt)

    leaving-IsSound :
        (b : Bool)
        → s.phase t ≡ leaving
        → IsStepped (if b then set_phase t (steal 1) (set_stealing t s) else set_phase t finished s)
    unfolding set_stealing
    leaving-IsSound true e =
        let self : (t == t) ≡ true = ground arith in
        moved-IsSound t (set_phase t (steal 1) (set_stealing t s)) (
          stay-IsMove c items Fits n total chunking extra t s is lt leaving (steal 1)
            (set_stealing t s) e refl refl
            (λ j ne. let m : (j == t) ≡ false = ground arith in rw m refl) (rw self refl)
            (rw self refl) refl refl (omega arith) (omega (arith, lt)) refl (omega (arith, lt)))
    leaving-IsSound false e = moved-IsSound t (set_phase t finished s) (
        no_change-IsMove leaving finished e refl refl (omega (arith, lt)) (omega arith) refl
          (omega arith))

    abbrev IsMissed : Bool → State → Type 0
    IsMissed b s' =
        IsSound c items Fits n total (extra + (if b then 1 else 0)) s'
        × (potential c.threads s' < potential c.threads s + 2 * (if b then 1 else 0))

    missed_by :
        (more i : ℕ) (s' : State)
        → IsMove c items Fits n total extra (extra + more) t i s s'
        → IsSound c items Fits n total (extra + more) s'
          × (potential c.threads s' < potential c.threads s + 2 * more)
    missed_by more i s' m = (
      move-IsSound c items Fits n total extra (extra + more) t i s s' is m,
      (let d = move-potential c items Fits n total extra (extra + more) t i s s' m in
          omega (arith, d)),
    )

    used_up-IsMissed :
        (b : Bool) (k : ℕ)
        → s.phase t ≡ claim k
        → (s.thread_state ((t + k) % c.threads)).end ≤ (s.thread_state ((t + k) % c.threads)).curr
        → IsMissed b
            (set_phase t (if b then steal k else steal (suc k)) (fetch_add ((t + k) % c.threads) s))
    unfolding claimed
    used_up-IsMissed true k e past =
        let i = (t + k) % c.threads in
        let top = reach_is (claim k) e in
        missed_by 1 i (set_phase t (steal k) (fetch_add i s)) (
          missed-IsMove c items Fits n total chunking extra t s is lt i (other_range k) room
            (claim k) (steal k) e refl (extra + 1) past refl (omega arith) (omega arith)
            (omega arith) (omega (arith, top)) (inl refl) (omega (arith, top)))
    used_up-IsMissed false k e past =
        let i = (t + k) % c.threads in
        let top = reach_is (claim k) e in
        missed_by 0 i (set_phase t (steal (suc k)) (fetch_add i s)) (
          missed-IsMove c items Fits n total chunking extra t s is lt i (other_range k) room
            (claim k) (steal (suc k)) e refl (extra + 0) past refl (omega arith) (omega arith)
            (omega arith) (omega (arith, top)) (inl refl) (omega (arith, top)))

    pub step_phase-IsSound :
        (q : Phase) → s.phase t ≡ q → is_finished q ≡ false → IsStepped (step_phase c t q s)
    unfolding step_phase claimed
    step_phase-IsSound own e active =
        elim (Bool-cases (ltb (s.thread_state t).curr (s.thread_state t).end)) [
          | inl p ↦ rw p (
              moved-IsSound t
                (set_phase t (own_busy (c.chunk (s.thread_state t).curr (s.thread_state t).end))
                  (fetch_add t s))
                (taken-IsMove c items Fits n total chunking extra t s is lt t lt room own
                  (own_busy (c.chunk (s.thread_state t).curr (s.thread_state t).end)) e refl
                  (ltb→lt (s.thread_state t).curr (s.thread_state t).end p) refl refl (omega arith)
                  refl (omega arith)))
          | inr p ↦ rw p (
              moved-IsSound t (set_phase t leaving (fetch_add t s)) (
                missed-IsMove c items Fits n total chunking extra t s is lt t lt room own leaving e
                  refl extra (ltb→ge (s.thread_state t).curr (s.thread_state t).end p) refl
                  (omega arith) (omega arith) (omega arith) (omega (arith, lt)) (inr refl)
                  (omega arith)))
        ]
    step_phase-IsSound (own_busy []) e active = moved-IsSound t (set_phase t own s) (
        no_change-IsMove (own_busy []) own e refl refl (omega arith) (omega arith) refl
          (omega arith))
    step_phase-IsSound (own_busy (v ∷ vs)) e active =
        moved-IsSound t (set_phase t (own_busy vs) (process v s)) (
          busy-IsMove c items Fits n total chunking extra t s is lt v vs (own_busy (v ∷ vs))
            (own_busy vs) e refl refl refl (omega arith) refl (omega arith))
    step_phase-IsSound leaving e active = leaving-IsSound c.steals e
    step_phase-IsSound (steal k) e active = elim (Bool-cases (ltb k c.threads)) [
      | inl p ↦ elim (Bool-cases (is_stealing (s.thread_state ((t + k) % c.threads)).status)) [
        | inl p' ↦
            rw (p, p')
              (moved-IsSound t (set_phase t (steal (suc k)) s) (
                no_change-IsMove (steal k) (steal (suc k)) e refl refl (omega arith)
                  (omega (arith, ltb→lt k c.threads p)) refl (omega (arith, ltb→lt k c.threads p))))
        | inr p' ↦
            rw (p, p')
              (moved-IsSound t (set_phase t (claim k) s) (
                no_change-IsMove (steal k) (claim k) e refl refl (omega arith)
                  (omega (arith, ltb→lt k c.threads p)) refl (omega (arith, ltb→lt k c.threads p))))
      ]
      | inr p ↦ rw p (
          moved-IsSound t (set_phase t finished s) (
            no_change-IsMove (steal k) finished e refl refl (omega (arith, reach_is (steal k) e))
              (omega arith) refl (omega arith)))
    ]
    step_phase-IsSound (claim k) e active =
        let i = (t + k) % c.threads in
        let r = s.thread_state i in
        let top = reach_is (claim k) e in
        elim (Bool-cases (ltb r.curr r.end)) [
          | inl p ↦ rw p (
              moved-IsSound i (set_phase t (steal_busy k (c.chunk r.curr r.end)) (fetch_add i s)) (
                taken-IsMove c items Fits n total chunking extra t s is lt i (other_range k) room
                  (claim k) (steal_busy k (c.chunk r.curr r.end)) e refl (ltb→lt r.curr r.end p)
                  refl refl (omega (arith, top)) refl (omega arith)))
          | inr p ↦ rw p (used_up-IsMissed c.spins k e (ltb→ge r.curr r.end p))
        ]
    step_phase-IsSound (steal_busy k []) e active = moved-IsSound t (set_phase t (steal k) s) (
        no_change-IsMove (steal_busy k []) (steal k) e refl refl (omega arith)
          (omega (arith, reach_is (steal_busy k []) e)) refl (omega arith))
    step_phase-IsSound (steal_busy k (v ∷ vs)) e active =
        moved-IsSound t (set_phase t (steal_busy k vs) (process v s)) (
          busy-IsMove c items Fits n total chunking extra t s is lt v vs (steal_busy k (v ∷ vs))
            (steal_busy k vs) e refl refl refl (omega (arith, reach_is (steal_busy k (v ∷ vs)) e))
            refl (omega arith))
    step_phase-IsSound finished e active = ground arith
