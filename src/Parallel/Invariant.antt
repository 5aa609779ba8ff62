-- ===== src/Parallel/Invariant.antt =====
-- What every step of a parallel loop keeps: the vertices that are processed, that are in a chunk in
-- work, and that are left in the ranges make up the same whole.
use gast_co_co.Prelude.{
  ℕ, ◌+◌, ◌-◌, ◌*◌, ◌<◌, ◌≤◌, ◌≡◌, ◌≢◌, sym, ap, subst, ◌∙◌, arith, List, [], true, Bool-cases, inl,
  inr, ◌==◌, ==→eq, ==→ne, length,
}
use gast_co_co.Parallel.{ThreadState, State, Loop, basic_chunk}
use gast_co_co.Parallel.Phases.{
  pending, progress, reach, is_behind, cost, left_of, potential, all_progress,
}
use gast_co_co.Parallel.Sums.{sum, weight, sum-change}

-- What a loop does with a range: it takes chunks off `items`, as long as `Fits` holds.
pub record IsChunking (chunk items : ℕ → ℕ → List ℕ) (Fits : ℕ → ℕ → Type 0) : Type 0 where
  pub splits :
      (b e : ℕ)
      → Fits b e
      → b < e
      → (w : ℕ → ℕ)
      → weight w (chunk b e) + weight w (items (b + basic_chunk) e) ≡ weight w (items b e)
  pub empty : (b e : ℕ) → e ≤ b → items b e ≡ []
  pub next : (b e : ℕ) → Fits b e → b + basic_chunk < e → Fits (b + basic_chunk) e
  pub short : (b e : ℕ) → Fits b e → b < e → length (chunk b e) + (e - (b + basic_chunk)) ≤ e - b

abbrev pub left_in : (ℕ → ℕ → List ℕ) → (ℕ → ℕ) → ThreadState → ℕ
left_in items w r = weight w (items r.curr r.end)

-- `total w` is the weight of all vertices of the ranges; `extra` counts the second tries.
pub record IsSound (c : Loop) (items : ℕ → ℕ → List ℕ) (Fits : ℕ → ℕ → Type 0) (n : ℕ)
    (total : (ℕ → ℕ) → ℕ) (extra : ℕ) (s : State) : Type 0 where
  pub balance :
      (w : ℕ → ℕ)
      → weight w s.processed
          + sum (λ u. weight w (pending (s.phase u))) c.threads
          + sum (λ i. left_in items w (s.thread_state i)) c.threads
        ≡ total w
  pub fits :
      (i : ℕ)
      → i < c.threads
      → (s.thread_state i).curr < (s.thread_state i).end
      → Fits (s.thread_state i).curr (s.thread_state i).end
  pub bound :
      (i : ℕ)
      → i < c.threads
      → (s.thread_state i).curr
        ≤ (s.thread_state i).end + basic_chunk * (1 + extra + all_progress c.threads s)
  pub ends : (i : ℕ) → i < c.threads → (s.thread_state i).end ≤ n
  pub short : (u : ℕ) → u < c.threads → reach c.threads (s.phase u) ≤ c.threads
  pub past :
      (u : ℕ)
      → u < c.threads
      → is_behind (s.phase u) ≡ true
      → (s.thread_state u).end ≤ (s.thread_state u).curr

module _ (c : Loop) (items : ℕ → ℕ → List ℕ) (Fits : ℕ → ℕ → Type 0) (n : ℕ)
    (total : (ℕ → ℕ) → ℕ) where
  -- A step that changes the phase of thread `t` and the range `i` at most.
  pub record IsMove (extra extra' t i : ℕ) (s s' : State) : Type 0 where
    pub thread_in : t < c.threads
    pub range_in : i < c.threads
    pub same_range : (j : ℕ) → j ≢ i → s'.thread_state j ≡ s.thread_state j
    pub same_phase : (j : ℕ) → j ≢ t → s'.phase j ≡ s.phase j
    pub same_end : (s'.thread_state i).end ≡ (s.thread_state i).end
    pub moved :
        (w : ℕ → ℕ)
        → weight w s'.processed
            + weight w (pending (s'.phase t))
            + left_in items w (s'.thread_state i)
          ≡ weight w s.processed
            + weight w (pending (s.phase t))
            + left_in items w (s.thread_state i)
    pub fits_here :
        (s'.thread_state i).curr < (s'.thread_state i).end
        → Fits (s'.thread_state i).curr (s'.thread_state i).end
    pub further : progress c.threads (s.phase t) ≤ progress c.threads (s'.phase t)
    pub not_past : reach c.threads (s'.phase t) ≤ c.threads
    pub bound_here :
        (s'.thread_state i).curr
        ≤ (s.thread_state i).end + basic_chunk * (1 + extra' + all_progress c.threads s')
    pub more : extra ≤ extra'
    pub drop :
        cost c.threads (s'.phase t) + 4 * left_of (s'.thread_state i)
        < cost c.threads (s.phase t) + 4 * left_of (s.thread_state i) + 2 * (extra' - extra)
    pub grows : (s.thread_state i).curr ≤ (s'.thread_state i).curr
    pub past_here :
        is_behind (s'.phase t) ≡ true → (s'.thread_state t).end ≤ (s'.thread_state t).curr

  pub all_progress-le :
      (t : ℕ) (s s' : State)
      → t < c.threads
      → ((j : ℕ) → j ≢ t → s'.phase j ≡ s.phase j)
      → progress c.threads (s.phase t) ≤ progress c.threads (s'.phase t)
      → all_progress c.threads s + progress c.threads (s'.phase t)
        ≡ all_progress c.threads s' + progress c.threads (s.phase t)
  all_progress-le t s s' lt same le = sym (
      sum-change (λ u. progress c.threads (s.phase u)) (λ u. progress c.threads (s'.phase u)) t
        c.threads lt (λ j ne. ap (progress c.threads) (same j ne)))

  -- A move uses up some of the potential.
  pub move-potential :
      (extra extra' t i : ℕ) (s s' : State)
      → IsMove extra extra' t i s s'
      → potential c.threads s' < potential c.threads s + 2 * (extra' - extra)
  move-potential extra extra' t i s s' m =
      let a =
        sum-change (λ u. cost c.threads (s.phase u)) (λ u. cost c.threads (s'.phase u)) t c.threads
          m.thread_in (λ j ne. ap (cost c.threads) (m.same_phase j ne)) in
      let b =
        sum-change (λ j. left_of (s.thread_state j)) (λ j. left_of (s'.thread_state j)) i c.threads
          m.range_in (λ j ne. ap left_of (m.same_range j ne)) in
      omega (arith, a, b, m.drop)

  was_past :
      (extra extra' t i : ℕ) (s s' : State)
      → IsSound c items Fits n total extra s
      → IsMove extra extra' t i s s'
      → (u : ℕ) → u < c.threads
      → u ≢ t
      → is_behind (s'.phase u) ≡ true
      → (s'.thread_state u).end ≤ (s'.thread_state u).curr
  was_past extra extra' t i s s' is m u lt ne h =
      let old = is.past u lt (ap is_behind (sym (m.same_phase u ne)) ∙ h) in
      elim (Bool-cases (u == i)) [
        | inl q ↦
            let e = ==→eq u i q in
            subst (λ k. (s'.thread_state k).end ≤ (s'.thread_state k).curr) (sym e)
              (let old' = subst (λ k. (s.thread_state k).end ≤ (s.thread_state k).curr) e old in
                omega (arith, old', m.grows, m.same_end))
        | inr q ↦
            subst (λ (r : ThreadState). r.end ≤ r.curr) (sym (m.same_range u (==→ne u i q))) old
      ]

  pub move-IsSound :
      (extra extra' t i : ℕ) (s s' : State)
      → IsSound c items Fits n total extra s
      → IsMove extra extra' t i s s'
      → IsSound c items Fits n total extra' s'
  move-IsSound extra extra' t i s s' is m =
      let p = all_progress-le t s s' m.thread_in m.same_phase m.further in
      let p' = m.further in
      record {
        balance = λ w.
            let a =
              sum-change (λ u. weight w (pending (s.phase u)))
                (λ u. weight w (pending (s'.phase u))) t c.threads m.thread_in
                (λ j ne. ap (λ x. weight w (pending x)) (m.same_phase j ne)) in
            let b =
              sum-change (λ j. left_in items w (s.thread_state j))
                (λ j. left_in items w (s'.thread_state j)) i c.threads m.range_in
                (λ j ne. ap (left_in items w) (m.same_range j ne)) in
            omega (arith, a, b, m.moved w, is.balance w);
        fits = λ j lt. elim (Bool-cases (j == i)) [
          | inl q ↦
              subst
                (λ k.
                  (s'.thread_state k).curr < (s'.thread_state k).end
                  → Fits (s'.thread_state k).curr (s'.thread_state k).end)
                (sym (==→eq j i q)) m.fits_here
          | inr q ↦
              subst (λ (r : ThreadState). r.curr < r.end → Fits r.curr r.end)
                (sym (m.same_range j (==→ne j i q))) (is.fits j lt)
        ];
        bound = λ j lt. elim (Bool-cases (j == i)) [
          | inl q ↦
              subst
                (λ k.
                  (s'.thread_state k).curr
                  ≤ (s'.thread_state k).end
                    + basic_chunk * (1 + extra' + all_progress c.threads s'))
                (sym (==→eq j i q)) (omega (arith, m.bound_here, m.same_end))
          | inr q ↦
              let e = m.same_range j (==→ne j i q) in
              let e1 = ap (λ (r : ThreadState). r.curr) e in
              let e2 = ap (λ (r : ThreadState). r.end) e in
              let old = is.bound j lt in
              let more = m.more in omega (arith, e1, e2, old, p, p', more)
        ];
        ends = λ j lt. elim (Bool-cases (j == i)) [
          | inl q ↦
              subst (λ k. (s'.thread_state k).end ≤ n) (sym (==→eq j i q))
                (omega (arith, m.same_end, is.ends i m.range_in))
          | inr q ↦
              let e2 = ap (λ (r : ThreadState). r.end) (m.same_range j (==→ne j i q)) in
              omega (arith, e2, is.ends j lt)
        ];
        short = λ u lt. elim (Bool-cases (u == t)) [
          | inl q ↦
              subst (λ k. reach c.threads (s'.phase k) ≤ c.threads) (sym (==→eq u t q)) m.not_past
          | inr q ↦
              let e = ap (reach c.threads) (m.same_phase u (==→ne u t q)) in
              omega (arith, e, is.short u lt)
        ];
        past = λ u lt h. elim (Bool-cases (u == t)) [
          | inl q ↦
              subst
                (λ k.
                  is_behind (s'.phase k) ≡ true
                  → (s'.thread_state k).end ≤ (s'.thread_state k).curr)
                (sym (==→eq u t q)) m.past_here h
          | inr q ↦ was_past extra extra' t i s s' is m u lt (==→ne u t q) h
        ];
      }
