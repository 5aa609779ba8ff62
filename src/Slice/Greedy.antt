-- ===== src/Slice/Greedy.antt =====
-- Where the loop of `SliceForCoro` and its variants cuts.
use gast_co_co.Prelude.{
  ℕ, suc, ◌+◌, ◌-◌, ◌%◌, ◌≤◌, ◌<◌, ◌≡◌, refl, sym, ap, subst, arith, ◌==◌, Bool, Bool-cases, true,
  false, inl, inr, ◌||◌, if◌then◌else◌, ltb, ==→eq, ==→ne, leb,
}
use gast_co_co.Vertex.{u32_mod}
use gast_co_co.Slice.{
  sub_u32, Bounds, set_bound, SliceState, cuts_behind, cut_at, slice_step, fill_bounds,
}
use gast_co_co.Slice.Balanced.{IsPrefix, fill_bounds-before, fill_bounds-filled}

-- Whether the sum of the record at `j` is the one at bound `b` and `per` more, in 32 bits.
abbrev pub reaches : (ℕ → ℕ) → (per b j : ℕ) → Bool
reaches rec per b j = leb ((rec b + per) % u32_mod) (rec j)

-- The test of the code for cut number `k`, made at the index `at`.
abbrev pub cuts_there : (ℕ → ℕ) → (k b at : ℕ) → Bool
cuts_there rec k b at =
    (k == 0)
    || (rec (at - 1) == b)
    || ltb (sub_u32 (rec b) (rec (at - 1))) (sub_u32 (rec at) (rec b))

-- Bound `b'` follows bound `b` by cut number `k`: it is the first index behind `b` where the sum reaches
-- `per` more than at `b` if the test holds there, and otherwise the index before that.
pub record IsCut (rec : ℕ → ℕ) (per k b b' : ℕ) : Type 0 where
  pub at : ℕ
  pub behind : b < at
  pub here : b' ≡ (if cuts_there rec k b at then at else at - 1)
  pub full : reaches rec per b at ≡ true
  pub earliest : (j : ℕ) → b < j → j < at → reaches rec per b j ≡ false

-- The bounds before bound `tid` are cuts, one after the other, those from it on are `rest`, and with a
-- bound left to cut there is no index up to `n` where it would have been.
pub record IsGreedy (rec : ℕ → ℕ) (per n rest count : ℕ) (r : Bounds) : Type 0 where
  pub tid : ℕ
  pub low : 1 ≤ tid
  pub high : tid ≤ count
  pub cuts : (k : ℕ) → suc k < tid → IsCut rec per k (r k) (r (suc k))
  pub stopped :
      tid < count → (j : ℕ) → r (tid - 1) < j → j ≤ n → reaches rec per (r (tid - 1)) j ≡ false
  pub others : (k : ℕ) → tid ≤ k → k ≤ count → r k ≡ rest

-- The state of the loop when it has looked at the indices up to `i`.
pub record IsScanned (rec : ℕ → ℕ) (per i : ℕ) (s : SliceState) : Type 0 where
  pub sum : s.chunk_sum ≡ rec (s.slice_result (s.tid - 1))
  pub cuts : (k : ℕ) → suc k < s.tid → IsCut rec per k (s.slice_result k) (s.slice_result (suc k))
  pub none_left :
      (j : ℕ)
      → s.slice_result (s.tid - 1) < j
      → j ≤ i
      → reaches rec per (s.slice_result (s.tid - 1)) j ≡ false

module _ (rec : ℕ → ℕ) (per : ℕ) where
  same-IsCut : (k a a' b b' : ℕ) → a ≡ a' → b ≡ b' → IsCut rec per k a b → IsCut rec per k a' b'
  same-IsCut k a a' b b' p q is =
      subst (λ x. IsCut rec per k x b') p (subst (IsCut rec per k a) q is)

  -- The test is that of the state.
  cuts_behind-there :
      (i : ℕ) (s : SliceState)
      → 1 ≤ s.tid
      → s.chunk_sum ≡ rec (s.slice_result (s.tid - 1))
      → cuts_there rec (s.tid - 1) (s.slice_result (s.tid - 1)) i ≡ cuts_behind rec i s
  cuts_behind-there i s low sum =
      let first : (s.tid - 1 == 0) ≡ (s.tid == 1) = ground (arith, low) in rw (first, sum) refl

  -- A cut at `b` for the index `i`.
  cut-IsScanned :
      (count i b : ℕ) (s : SliceState)
      → 1 ≤ i
      → IsPrefix count (i - 1) s
      → IsScanned rec per (i - 1) s
      → leb ((s.chunk_sum + per) % u32_mod) (rec i) ≡ true
      → b ≡ (if cuts_behind rec i s then i else i - 1)
      → IsScanned rec per b (cut_at rec b s)
  unfolding cut_at set_bound
  cut-IsScanned count i b s one prefix is full here =
      let low = prefix.low in
      let before = prefix.behind in
      let self : set_bound s.slice_result s.tid b s.tid ≡ b = ground arith in
      let last : s.tid + 1 - 1 ≡ s.tid = omega arith in
      let test = cuts_behind-there i s low is.sum in
      let new : IsCut rec per (s.tid - 1) (s.slice_result (s.tid - 1)) b = record {
        at = i;
        behind = omega (arith, one, before);
        here = rw test here;
        full = subst (λ x. leb ((x + per) % u32_mod) (rec i) ≡ true) is.sum full;
        earliest = λ j gt lt. is.none_left j gt (omega (arith, lt));
      } in
      record {
        sum = rw (last, self) refl;
        cuts = λ k lt. elim (Bool-cases (suc k == s.tid)) [
          | inl q ↦
              let at_tid : suc k ≡ s.tid = ==→eq (suc k) s.tid q in
              let ne : (k == s.tid) ≡ false = ground (arith, at_tid) in
              let prev : s.slice_result (s.tid - 1) ≡ s.slice_result k =
                ap s.slice_result (omega (arith, at_tid)) in
              let num : s.tid - 1 ≡ k = omega (arith, at_tid) in
              rw (q, ne)
                (same-IsCut k (s.slice_result (s.tid - 1)) (s.slice_result k) b b prev refl
                  (subst (λ x. IsCut rec per x (s.slice_result (s.tid - 1)) b) num new))
          | inr q ↦
              let ne' = ==→ne (suc k) s.tid q in
              let ne : (k == s.tid) ≡ false = ground (arith, lt) in
              rw (q, ne) (is.cuts k (omega (arith, ne', lt)))
        ];
        none_left = λ j gt le.
            let at_b : set_bound s.slice_result s.tid b (s.tid + 1 - 1) ≡ b = rw last self in
            absurd (omega (arith, gt, le, at_b));
      }

  pub slice_step-IsScanned :
      (count i : ℕ) (s : SliceState)
      → 1 ≤ i
      → IsPrefix count (i - 1) s
      → IsScanned rec per (i - 1) s
      → IsScanned rec per (slice_step rec per i s).1 (slice_step rec per i s).0
  unfolding slice_step
  slice_step-IsScanned count i s one prefix is =
      elim (Bool-cases (leb ((s.chunk_sum + per) % u32_mod) (rec i))) [
        | inr few ↦ rw few (record {
          sum = is.sum;
          cuts = is.cuts;
          none_left = λ j gt le. elim (Bool-cases (j == i)) [
            | inl q ↦
                let j_is = ==→eq j i q in
                rw j_is (subst (λ x. leb ((x + per) % u32_mod) (rec i) ≡ false) is.sum few)
            | inr q ↦ let ne = ==→ne j i q in is.none_left j gt (omega (arith, le, ne))
          ];
        })
        | inl full ↦ elim (Bool-cases (cuts_behind rec i s)) [
          | inl behind ↦
              rw (full, behind) (cut-IsScanned count i i s one prefix is full (rw behind refl))
          | inr before ↦
              rw (full, before)
                (cut-IsScanned count i (i - 1) s one prefix is full (rw before refl))
        ]
      ]

  -- The loop ends at the last bound.
  pub close-IsGreedy :
      (count n i : ℕ) (s : SliceState)
      → s.tid ≡ count
      → IsPrefix count i s
      → IsScanned rec per i s
      → IsGreedy rec per n n count (set_bound s.slice_result s.tid n)
  unfolding set_bound
  close-IsGreedy count n i s e prefix is = record {
    tid = count;
    low = omega (arith, prefix.low, e);
    high = omega arith;
    cuts = λ k lt.
        let a : (k == s.tid) ≡ false = ground (arith, lt, e) in
        let b : (suc k == s.tid) ≡ false = ground (arith, lt, e) in
        rw (a, b) (is.cuts k (omega (arith, lt, e)));
    stopped = λ lt. absurd (omega (arith, lt));
    others = λ k le le'. let q : (k == s.tid) ≡ true = ground (arith, le, le', e) in rw q refl;
  }

  -- The loop ends at the last vertex, and the bounds are filled.
  pub fill-IsGreedy :
      (count n : ℕ) (s : SliceState)
      → IsPrefix count n s
      → IsScanned rec per n s
      → IsGreedy rec per n n count (fill_bounds (count + 1 - s.tid) s.tid n s.slice_result)
  fill-IsGreedy count n s prefix is =
      let low = prefix.low in
      let high = prefix.high in
      let m = count + 1 - s.tid in
      let same = fill_bounds-before m s.tid n s.slice_result in
      record {
        tid = s.tid;
        low = low;
        high = high;
        cuts = λ k lt.
            same-IsCut k (s.slice_result k) (fill_bounds m s.tid n s.slice_result k)
              (s.slice_result (suc k)) (fill_bounds m s.tid n s.slice_result (suc k))
              (sym (same k (omega (arith, lt)))) (sym (same (suc k) lt)) (is.cuts k lt);
        stopped = λ lt. rw (same (s.tid - 1) (omega (arith, low))) (λ j. is.none_left j);
        others =
            λ k le le'. fill_bounds-filled m s.tid n s.slice_result k le (omega (arith, le', high));
      }

  -- The loop ends at the last vertex, and the bounds are not filled.
  pub left-IsGreedy :
      (count n : ℕ) (s : SliceState)
      → IsPrefix count n s
      → IsScanned rec per n s
      → IsGreedy rec per n 0 count s.slice_result
  left-IsGreedy count n s prefix is = record {
    tid = s.tid;
    low = prefix.low;
    high = prefix.high;
    cuts = is.cuts;
    stopped = λ lt. is.none_left;
    others = λ k le le'. prefix.rest k le;
  }
