-- ===== src/Slice/Balanced.antt =====
-- The division of the vertices by the sums of a record: `SliceForCoro` and its two variants.
use gast_co_co.Prelude.{
  ℕ, zero, suc, ◌+◌, ◌-◌, ◌≤◌, ◌<◌, ◌≡◌, refl, ap, ◌∙◌, arith, ◌==◌, Bool-cases, true, false, inl,
  inr, ==→eq, ==→ne, ltb, leb, ◌%◌,
}
use gast_co_co.Vertex.{u32_mod}
use gast_co_co.Slice.{Bounds, set_bound, SliceState, cuts_behind, cut_at, slice_step, fill_bounds}
use gast_co_co.Slice.Even.{IsSlicing}

-- The bounds that are set so far, none of them above `i`, and zero behind them.
pub record IsPrefix (count i : ℕ) (s : SliceState) : Type 0 where
  pub low : 1 ≤ s.tid
  pub high : s.tid ≤ count
  pub first : s.slice_result 0 ≡ 0
  pub ordered : (k : ℕ) → suc k < s.tid → s.slice_result k ≤ s.slice_result (suc k)
  pub behind : s.slice_result (s.tid - 1) ≤ i
  pub rest : (k : ℕ) → s.tid ≤ k → s.slice_result k ≡ 0

cut-IsPrefix :
    (rec : ℕ → ℕ) (count i b : ℕ) (s : SliceState)
    → s.tid < count
    → i ≤ b
    → IsPrefix count i s
    → IsPrefix count b (cut_at rec b s)
unfolding cut_at set_bound
cut-IsPrefix rec count i b s lt le is =
    let low = is.low in
    let self : set_bound s.slice_result s.tid b s.tid ≡ b = ground arith in
    let pred : s.tid + 1 - 1 ≡ s.tid = omega arith in
    record {
      low = omega arith;
      high = omega arith;
      first = let ne : (0 == s.tid) ≡ false = ground arith in rw ne is.first;
      ordered = λ k below. elim (Bool-cases (suc k == s.tid)) [
        | inl q ↦
            let at_tid : suc k ≡ s.tid = ==→eq (suc k) s.tid q in
            let ne : (k == s.tid) ≡ false = ground arith in
            let last : s.slice_result k ≡ s.slice_result (s.tid - 1) =
              ap s.slice_result (omega (arith, at_tid)) in
            rw (q, ne) (omega (arith, last, is.behind, le))
        | inr q ↦
            let ne' = ==→ne (suc k) s.tid q in
            let ne : (k == s.tid) ≡ false = ground arith in
            rw (q, ne) (is.ordered k (omega (arith, ne')))
      ];
      behind = rw pred (omega (arith, self));
      rest =
          λ k le'. let ne : (k == s.tid) ≡ false = ground arith in rw ne (is.rest k (omega arith));
    }

weaken-IsPrefix : (count i j : ℕ) (s : SliceState) → i ≤ j → IsPrefix count i s → IsPrefix count j s
weaken-IsPrefix count i j s le is = record {
  low = is.low;
  high = is.high;
  first = is.first;
  ordered = is.ordered;
  behind = omega (arith, is.behind);
  rest = is.rest;
}

-- One round: the prefix that it leaves, and its progress.
pub record IsStepped (count n i : ℕ) (s : SliceState) (r : SliceState × ℕ) : Type 0 where
  pub prefix : IsPrefix count r.1 r.0
  pub bounded : r.1 ≤ n
  pub progress : i + s.tid < r.1 + 1 + r.0.tid

pub slice_step-IsStepped :
    (rec : ℕ → ℕ) (per count n i : ℕ) (s : SliceState)
    → 1 ≤ i
    → i ≤ n
    → s.tid < count
    → IsPrefix count (i - 1) s
    → IsStepped count n i s (slice_step rec per i s)
unfolding slice_step cut_at
slice_step-IsStepped rec per count n i s one le lt is =
    elim (Bool-cases (leb ((s.chunk_sum + per) % u32_mod) (rec i))) [
      | inr few ↦ rw few (record {
        prefix = weaken-IsPrefix count (i - 1) i s (omega arith) is;
        bounded = le;
        progress = omega arith;
      })
      | inl full ↦ elim (Bool-cases (cuts_behind rec i s)) [
        | inl behind ↦
            rw (full, behind)
              (record {
                prefix = cut-IsPrefix rec count (i - 1) i s lt (omega arith) is;
                bounded = le;
                progress = omega arith;
              })
        | inr before ↦
            rw (full, before)
              (record {
                prefix = cut-IsPrefix rec count (i - 1) (i - 1) s lt (omega arith) is;
                bounded = omega arith;
                progress = omega arith;
              })
      ]
    ]

-- The last bound is set.
pub close-IsSlicing :
    (count n i : ℕ) (s : SliceState)
    → i ≤ n
    → s.tid ≡ count
    → IsPrefix count i s
    → IsSlicing count 0 n (set_bound s.slice_result s.tid n)
unfolding set_bound
close-IsSlicing count n i s le e is =
    let low = is.low in
    record {
      first = let ne : (0 == s.tid) ≡ false = ground arith in rw ne is.first;
      last = let q : (count == s.tid) ≡ true = ground arith in rw q refl;
      ordered = λ k lt. elim (Bool-cases (suc k == s.tid)) [
        | inl q ↦
            let at_tid : suc k ≡ s.tid = ==→eq (suc k) s.tid q in
            let ne : (k == s.tid) ≡ false = ground arith in
            let last : s.slice_result k ≡ s.slice_result (s.tid - 1) =
              ap s.slice_result (omega (arith, at_tid)) in
            rw (q, ne) (omega (arith, last, is.behind))
        | inr q ↦
            let ne' = ==→ne (suc k) s.tid q in
            let ne : (k == s.tid) ≡ false = ground arith in
            rw (q, ne) (is.ordered k (omega (arith, ne', e)))
      ];
    }

pub fill_bounds-before :
    (rounds tid n : ℕ) (r : Bounds) (k : ℕ) → k < tid → fill_bounds rounds tid n r k ≡ r k
unfolding fill_bounds set_bound
fill_bounds-before zero tid n r k lt = refl
fill_bounds-before (suc m) tid n r k lt =
    let ne : (k == tid) ≡ false = ground arith in
    fill_bounds-before m (suc tid) n (set_bound r tid n) k (omega arith) ∙ rw ne refl

pub fill_bounds-filled :
    (rounds tid n : ℕ) (r : Bounds) (k : ℕ)
    → tid ≤ k
    → k < tid + rounds
    → fill_bounds rounds tid n r k ≡ n
unfolding fill_bounds set_bound
fill_bounds-filled zero tid n r k le lt = absurd (omega arith)
fill_bounds-filled (suc m) tid n r k le lt = elim (Bool-cases (k == tid)) [
  | inl q ↦
      let e = ==→eq k tid q in
      fill_bounds-before m (suc tid) n (set_bound r tid n) k (omega (arith, e)) ∙ rw q refl
  | inr q ↦
      let ne = ==→ne k tid q in
      fill_bounds-filled m (suc tid) n (set_bound r tid n) k (omega (arith, ne)) (omega arith)
]

pub fill-IsSlicing :
    (count n i : ℕ) (s : SliceState)
    → i ≤ n
    → IsPrefix count i s
    → IsSlicing count 0 n (fill_bounds (count + 1 - s.tid) s.tid n s.slice_result)
fill-IsSlicing count n i s le is =
    let low = is.low in
    let high = is.high in
    let m = count + 1 - s.tid in
    let before = fill_bounds-before m s.tid n s.slice_result in
    let filled = fill_bounds-filled m s.tid n s.slice_result in
    record {
      first = before 0 (omega arith) ∙ is.first;
      last = filled count (omega arith) (omega arith);
      ordered = λ k lt. elim (Bool-cases (ltb (suc k) s.tid)) [
        | inl q ↦
            let lt' : suc k < s.tid = ground arith in
            let a = before k (omega arith) in
            let b = before (suc k) lt' in let o = is.ordered k lt' in omega (arith, a, b, o)
        | inr q ↦
            let ge : s.tid ≤ suc k = ground arith in
            let b = filled (suc k) ge (omega arith) in
            elim (Bool-cases (suc k == s.tid)) [
              | inl q' ↦
                  let at_tid : suc k ≡ s.tid = ==→eq (suc k) s.tid q' in
                  let last : s.slice_result k ≡ s.slice_result (s.tid - 1) =
                    ap s.slice_result (omega (arith, at_tid)) in
                  let a = before k (omega (arith, at_tid)) in omega (arith, a, b, last, is.behind)
              | inr q' ↦
                  let ne = ==→ne (suc k) s.tid q' in
                  let a = filled k (omega (arith, ne)) (omega arith) in omega (arith, a, b)
            ]
      ];
    }
