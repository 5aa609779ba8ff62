-- ===== src/Parallel/Moves.antt =====
-- What a step of a parallel loop changes: its move.
use gast_co_co.Prelude.{
  ℕ, ◌+◌, ◌-◌, ◌*◌, ◌<◌, ◌≤◌, ◌≡◌, ◌≢◌, ◌⊎◌, refl, sym, ap, subst, ◌∙◌, arith, List, [], ◌∷◌, true,
  false, Bool-cases, inl, inr, ◌==◌, ==→eq, ==→ne, length,
}
use gast_co_co.Vertex.{u32_mod}
use gast_co_co.Parallel.{Phase, State, Loop, basic_chunk, set_phase, fetch_add, process}
use gast_co_co.Parallel.Sums.{weight, sum-most}
use gast_co_co.Parallel.Phases.{
  pending, is_behind, progress, reach, progress-le, cost, all_progress,
}
use gast_co_co.Parallel.Invariant.{IsChunking, IsSound, IsMove, all_progress-le}

module _ (c : Loop) (items : ℕ → ℕ → List ℕ) (Fits : ℕ → ℕ → Type 0) (n : ℕ) (total : (ℕ → ℕ) → ℕ)
    (chunking : IsChunking c.chunk items Fits) where
  -- No counter wraps in the next step.
  abbrev pub HasRoom : ℕ → Type 0
  HasRoom extra = n + basic_chunk * (3 + extra + c.threads * c.threads) < u32_mod

  module _ (extra t : ℕ) (s : State) (is : IsSound c items Fits n total extra s)
      (lt : t < c.threads) where
    -- A new phase and no change of a range or of the processed vertices.
    pub stay-IsMove :
        (q p : Phase) (s1 : State)
        → s.phase t ≡ q
        → s1.phase ≡ s.phase
        → s1.processed ≡ s.processed
        → ((j : ℕ) → j ≢ t → s1.thread_state j ≡ s.thread_state j)
        → (s1.thread_state t).curr ≡ (s.thread_state t).curr
        → (s1.thread_state t).end ≡ (s.thread_state t).end
        → pending q ≡ []
        → pending p ≡ []
        → progress c.threads q ≤ progress c.threads p
        → reach c.threads p ≤ c.threads
        → is_behind q ≡ is_behind p
        → cost c.threads p < cost c.threads q
        → IsMove c items Fits n total extra extra t t s (set_phase t p s1)
    unfolding set_phase
    stay-IsMove q p s1 e same_ph same_log same_ts same_curr same_end pq pp le top beh low =
        let s' = set_phase t p s1 in
        let self : (t == t) ≡ true = ground arith in
        let before : progress c.threads (s.phase t) ≤ progress c.threads (s'.phase t) =
          rw (e, self) le in
        let others : (j : ℕ) → j ≢ t → s'.phase j ≡ s.phase j = λ j ne.
          let m : (j == t) ≡ false = ground arith in rw m (ap (λ (f : ℕ → Phase). f j) same_ph) in
        let grow = all_progress-le c items Fits n total t s s' lt others before in
        record {
          thread_in = lt;
          range_in = lt;
          same_range = same_ts;
          same_phase = others;
          same_end = same_end;
          moved = λ w. rw (self, e, pq, pp, same_log, same_curr, same_end) refl;
          fits_here = rw (same_curr, same_end) (is.fits t lt);
          further = before;
          not_past = rw self top;
          bound_here = omega (arith, is.bound t lt, same_curr, grow, before);
          more = omega arith;
          drop = rw (self, e, same_curr, same_end) (omega (arith, low));
          grows = rw same_curr (omega arith);
          past_here = rw (self, ← beh, ← e, same_curr, same_end) (is.past t lt);
        }

    -- One vertex of a chunk.
    pub busy-IsMove :
        (v : ℕ) (vs : List ℕ) (q p : Phase)
        → s.phase t ≡ q
        → pending q ≡ v ∷ vs
        → pending p ≡ vs
        → progress c.threads q ≡ progress c.threads p
        → reach c.threads p ≤ c.threads
        → is_behind q ≡ is_behind p
        → cost c.threads p < cost c.threads q
        → IsMove c items Fits n total extra extra t t s (set_phase t p (process v s))
    unfolding set_phase process
    busy-IsMove v vs q p e pq pp same top beh low =
        let s' = set_phase t p (process v s) in
        let self : (t == t) ≡ true = ground arith in
        let before : progress c.threads (s.phase t) ≤ progress c.threads (s'.phase t) =
          rw (e, self, same) (omega arith) in
        let others : (j : ℕ) → j ≢ t → s'.phase j ≡ s.phase j =
          λ j ne. let m : (j == t) ≡ false = ground arith in rw m refl in
        let grow = all_progress-le c items Fits n total t s s' lt others before in
        record {
          thread_in = lt;
          range_in = lt;
          same_range = λ j ne. refl;
          same_phase = others;
          same_end = refl;
          moved = λ w. rw (self, e, pq, pp) (omega arith);
          fits_here = is.fits t lt;
          further = before;
          not_past = rw self top;
          bound_here = omega (arith, is.bound t lt, grow, before);
          more = omega arith;
          drop = rw (self, e) (omega (arith, low));
          grows = omega arith;
          past_here = rw (self, ← beh, ← e) (is.past t lt);
        }

    module _ (i : ℕ) (in_range : i < c.threads) (room : HasRoom extra) (q p : Phase)
        (e : s.phase t ≡ q) (pq : pending q ≡ []) where
      abbrev pub open_curr : ℕ
      open_curr = (s.thread_state i).curr

      unfoldable pub claimed : State
      claimed = set_phase t p (fetch_add i s)

      -- The counter does not wrap.
      added : (claimed.thread_state i).curr ≡ (s.thread_state i).curr + basic_chunk
      unfolding claimed set_phase fetch_add
      added =
          let self : (i == i) ≡ true = ground arith in
          let most =
            sum-most (λ u. progress c.threads (s.phase u)) c.threads c.threads
              (λ u lt'.
                let a = progress-le c.threads (s.phase u) in
                let b = is.short u lt' in omega (arith, a, b)) in
          let le = is.bound i in_range in
          let e = is.ends i in_range in let le' = le in rw self (omega (arith, le', most, e, room))

      same_end : (claimed.thread_state i).end ≡ (s.thread_state i).end
      unfolding claimed set_phase fetch_add
      same_end = let self : (i == i) ≡ true = ground arith in rw self refl

      new_phase : claimed.phase t ≡ p
      unfolding claimed set_phase
      new_phase = ground arith

      others : (j : ℕ) → j ≢ t → claimed.phase j ≡ s.phase j
      unfolding claimed set_phase fetch_add
      others j ne = let m : (j == t) ≡ false = ground arith in rw m refl

      same_range : (j : ℕ) → j ≢ i → claimed.thread_state j ≡ s.thread_state j
      unfolding claimed set_phase fetch_add
      same_range j ne = let m : (j == i) ≡ false = ground arith in rw m refl

      same_log : claimed.processed ≡ s.processed
      unfolding claimed set_phase fetch_add
      same_log = refl

      past_after :
          (is_behind q ≡ is_behind p)
            ⊎ ((i ≡ t) × ((s.thread_state i).end ≤ open_curr + basic_chunk))
          → is_behind p ≡ true
          → (claimed.thread_state t).end ≤ (claimed.thread_state t).curr
      past_after (inl h) b =
          let old = is.past t lt (ap is_behind e ∙ h ∙ b) in
          elim (Bool-cases (t == i)) [
            | inl eq ↦
                let old' =
                  subst (λ k. (s.thread_state k).end ≤ (s.thread_state k).curr) (==→eq t i eq)
                    old in
                subst (λ k. (claimed.thread_state k).end ≤ (claimed.thread_state k).curr)
                  (sym (==→eq t i eq)) (rw (added, same_end) (omega (arith, old')))
            | inr ne ↦ rw (same_range t (==→ne t i ne)) old
          ]
      past_after (inr h) b =
          subst (λ k. (claimed.thread_state k).end ≤ (claimed.thread_state k).curr) h.0
            (rw (added, same_end) (h.1))

      claim-IsMove :
          (extra' : ℕ)
          → extra ≤ extra'
          → progress c.threads q ≤ progress c.threads p
          → reach c.threads p ≤ c.threads
          → ((w : ℕ → ℕ)
              → weight w (pending p)
                  + weight w (items (open_curr + basic_chunk) (s.thread_state i).end)
                ≡ weight w (items open_curr (s.thread_state i).end))
          → (open_curr + basic_chunk < (s.thread_state i).end
              → Fits (open_curr + basic_chunk) (s.thread_state i).end)
          → ((is_behind q ≡ is_behind p)
              ⊎ ((i ≡ t) × ((s.thread_state i).end ≤ open_curr + basic_chunk)))
          → cost c.threads p + 4 * ((s.thread_state i).end - (open_curr + basic_chunk))
            < cost c.threads q + 4 * ((s.thread_state i).end - open_curr) + 2 * (extra' - extra)
          → open_curr + basic_chunk
            ≤ (s.thread_state i).end + basic_chunk * (1 + extra' + all_progress c.threads claimed)
          → IsMove c items Fits n total extra extra' t i s claimed
      claim-IsMove extra' more le top split fit beh low room' = record {
        thread_in = lt;
        range_in = in_range;
        same_range = same_range;
        same_phase = others;
        same_end = same_end;
        moved = λ w. rw (new_phase, e, pq, same_log, added, same_end) (omega (arith, split w));
        fits_here = rw (added, same_end) fit;
        further = rw (e, new_phase) le;
        not_past = rw new_phase top;
        bound_here = rw added room';
        more = more;
        drop = rw (new_phase, e, added, same_end) low;
        grows = rw added (omega arith);
        past_here = rw new_phase (past_after beh);
      }

      grow :
          progress c.threads q ≤ progress c.threads p
          → all_progress c.threads s + progress c.threads p
            ≡ all_progress c.threads claimed + progress c.threads q
      grow le =
          let g =
            all_progress-le c items Fits n total t s claimed lt others (rw (e, new_phase) le) in
          let a = ap (progress c.threads) new_phase in
          let b = ap (progress c.threads) e in omega (arith, g, a, b)

      -- A chunk is taken.
      pub taken-IsMove :
          open_curr < (s.thread_state i).end
          → pending p ≡ c.chunk open_curr (s.thread_state i).end
          → progress c.threads q ≡ progress c.threads p
          → reach c.threads p ≤ c.threads
          → is_behind q ≡ is_behind p
          → cost c.threads p ≤ cost c.threads q + 2 + length (pending p)
          → IsMove c items Fits n total extra extra t i s claimed
      taken-IsMove below pp same top beh low =
          let fit = is.fits i in_range below in
          let r = s.thread_state i in
          claim-IsMove extra (omega arith) (omega (arith, same)) top
            (λ w. rw pp (chunking.splits r.curr r.end fit below w)) (chunking.next r.curr r.end fit)
            (inl beh)
            (let few = chunking.short r.curr r.end fit below in
              let len = ap length pp in omega (arith, few, low, len, below))
            (omega (arith, below))

      -- The range is used up.
      pub missed-IsMove :
          (extra' : ℕ)
          → (s.thread_state i).end ≤ open_curr
          → pending p ≡ []
          → extra ≤ extra'
          → progress c.threads q ≤ progress c.threads p
          → extra + progress c.threads q < extra' + progress c.threads p
          → reach c.threads p ≤ c.threads
          → (is_behind q ≡ is_behind p) ⊎ (i ≡ t)
          → cost c.threads p < cost c.threads q + 2 * (extra' - extra)
          → IsMove c items Fits n total extra extra' t i s claimed
      missed-IsMove extra' past pp more le less top beh low =
          let r = s.thread_state i in
          let g = grow le in
          let old = is.bound i in_range in
          let none = chunking.empty r.curr r.end past in
          let none' = chunking.empty (r.curr + basic_chunk) r.end (omega (arith, past)) in
          claim-IsMove extra' more le top (λ w. rw (pp, none, none') refl)
            (λ below. absurd (omega (arith, past, below)))
            (elim beh [ inl h ↦ inl h | inr h ↦ inr (h, omega (arith, past)) ])
            (omega (arith, low, past)) (omega (arith, g, old, less))
