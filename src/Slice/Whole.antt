-- ===== src/Slice/Whole.antt =====
-- The loops of `SliceForCoro` and its two variants as a whole.
use gast_co_co.Prelude.{
  ℕ, zero, suc, ◌+◌, ◌-◌, ◌/◌, ◌≤◌, ◌<◌, ◌≡◌, ◌≢◌, refl, sym, subst, arith, ◌==◌, if◌then◌else◌,
  Bool-cases, Bool, true, false, ◌&&◌, inl, inr, ◌⊎◌, ==→eq, ==→ne, ltb, lt→ltb, ge→ltb, Option,
  some,
}
use gast_co_co.Vertex.{u32_mod, int_bound}
use gast_co_co.Graph.{CbList}
use gast_co_co.Slice.{
  Bounds, zeros, set_bound, SliceState, slice_step, fill_all, slice_loop, slice_by, slice_for_coro,
  slice_for_coro_dynamic, slice_for_coro_with_score, chunk_num_record, chunk_cnts, score,
}
use gast_co_co.Slice.Greedy.{
  IsGreedy, IsScanned, slice_step-IsScanned, close-IsGreedy, fill-IsGreedy, left-IsGreedy,
}
use gast_co_co.Slice.Even.{IsSlicing}
use gast_co_co.Slice.Balanced.{IsPrefix, slice_step-IsStepped, close-IsSlicing, fill-IsSlicing}

-- Bounds of which the last ones are still zero.
pub record IsUnfinished (count n : ℕ) (r : Bounds) : Type 0 where
  pub tid : ℕ
  pub in_range : (1 ≤ tid) × (tid < count)
  pub ordered : (k : ℕ) → suc k < tid → r k ≤ r (suc k)
  pub bounded : r (tid - 1) ≤ n
  pub rest : (k : ℕ) → tid ≤ k → r k ≡ 0

-- What the loop leaves: with the fill a slicing, and without it possibly an unfinished one; in both
-- cases with cuts where the sum reaches `per` more.
abbrev pub Outcome : (fills : Bool) → (ℕ → ℕ) → (per count n : ℕ) → Bounds → Type 0
Outcome true rec per count n r = IsSlicing count 0 n r × IsGreedy rec per n n count r
Outcome false rec per count n r =
    (IsSlicing count 0 n r × IsGreedy rec per n n count r)
    ⊎ (IsUnfinished count n r × IsGreedy rec per n 0 count r)

slicing-Outcome :
    (fills : Bool) (rec : ℕ → ℕ) (per count n : ℕ) (r : Bounds)
    → IsSlicing count 0 n r
    → IsGreedy rec per n n count r
    → Outcome fills rec per count n r
slicing-Outcome true rec per count n r is greedy = (is, greedy)
slicing-Outcome false rec per count n r is greedy = inl (is, greedy)

abbrev Result : (fills : Bool) → (ℕ → ℕ) → (per count n : ℕ) → Option Bounds → Type 0
Result fills rec per count n o = (r : Bounds) × (o ≡ some r) × Outcome fills rec per count n r

loop-end :
    (fuel : ℕ) (fills : Bool) (rec : ℕ → ℕ) (n per count i : ℕ) (s : SliceState)
    → n < i
    → slice_loop (suc fuel) fills rec n per count i s ≡ some s.slice_result
unfolding slice_loop
loop-end fuel fills rec n per count i s lt = rw (ge→ltb i (n + 1) (omega arith)) refl

-- The round for the last vertex.
last-Outcome :
    (fuel : ℕ) (fills : Bool) (rec : ℕ → ℕ) (n per count i : ℕ) (s : SliceState)
    → i ≡ n
    → s.tid ≢ count
    → IsPrefix count i s
    → IsScanned rec per i s
    → Result fills rec per count n (
        slice_loop
          (suc fuel)
          fills
          rec
          n
          per
          count
          (i + 1)
          (if fills && (i == n) then fill_all count n s else s))
unfolding fill_all
last-Outcome fuel true rec n per count i s e ne is scanned =
    let q : (i == n) ≡ true = ground arith in
    (
      (fill_all count n s).slice_result,
      rw q (loop-end fuel true rec n per count (i + 1) (fill_all count n s) (omega (arith, e))),
      (
        fill-IsSlicing count n i s (omega (arith, e)) is,
        fill-IsGreedy rec per count n s (subst (λ j. IsPrefix count j s) e is)
            (subst (λ j. IsScanned rec per j s) e scanned),
      ),
    )
last-Outcome fuel false rec n per count i s e ne is scanned = (
  s.slice_result,
  loop-end fuel false rec n per count (i + 1) s (omega (arith, e)),
  inr (
    record {
      tid = s.tid;
      in_range = (is.low, omega (arith, ne, is.high));
      ordered = is.ordered;
      bounded = omega (arith, is.behind, e);
      rest = is.rest;
    },
    left-IsGreedy rec per count n s (subst (λ j. IsPrefix count j s) e is)
        (subst (λ j. IsScanned rec per j s) e scanned),
  ),
)

loop-Outcome :
    (fuel : ℕ) (fills : Bool) (rec : ℕ → ℕ) (n per count i : ℕ) (s : SliceState)
    → (n - i) + (count - s.tid) < fuel
    → 1 ≤ i
    → i ≤ n
    → s.tid < count
    → IsPrefix count (i - 1) s
    → IsScanned rec per (i - 1) s
    → Result fills rec per count n (slice_loop (suc fuel) fills rec n per count i s)
unfolding slice_loop
loop-Outcome zero fills rec n per count i s f one le lt is scanned = absurd (omega arith)
loop-Outcome (suc fuel) fills rec n per count i s f one le lt is scanned =
    let (s', i') = slice_step rec per i s in
    let st = slice_step-IsStepped rec per count n i s one le lt is in
    let sc = slice_step-IsScanned rec per count i s one is scanned in
    let going : ltb i (n + 1) ≡ true = lt→ltb i (n + 1) (omega arith) in
    elim (Bool-cases (s'.tid == count)) [
      | inl q ↦ (
        set_bound s'.slice_result s'.tid n,
        rw (going, q) refl,
        slicing-Outcome fills rec per count n (set_bound s'.slice_result s'.tid n)
            (close-IsSlicing count n i' s' st.bounded (==→eq s'.tid count q) st.prefix)
            (close-IsGreedy rec per count n i' s' (==→eq s'.tid count q) st.prefix sc),
      )
      | inr q ↦
          let ne = ==→ne s'.tid count q in
          elim (Bool-cases (i' == n)) [
            | inl l ↦
                rw (going, q)
                  (last-Outcome fuel fills rec n per count i' s' (==→eq i' n l) ne st.prefix sc)
            | inr l ↦
                let ne' = ==→ne i' n l in
                let same : (fills && (i' == n)) ≡ false = elim (Bool-cases fills) [
                  | inl t ↦ rw (t, l) refl
                  | inr t ↦ rw t refl
                ] in
                let pred : i' + 1 - 1 ≡ i' = omega arith in
                rw (going, q, same)
                  (loop-Outcome fuel fills rec n per count (i' + 1) s'
                    (omega (arith, st.progress, st.bounded, st.prefix.high, ne')) (omega arith)
                    (omega (arith, st.bounded, ne')) (omega (arith, st.prefix.high, ne))
                    (rw pred st.prefix) (rw pred sc))
          ]
    ]

slice_by-Outcome :
    (fills : Bool) (rec : ℕ → ℕ) (n count : ℕ)
    → rec 0 ≡ 0
    → 1 ≤ n
    → 2 ≤ count
    → Result fills rec (rec n / count) count n (slice_by fills rec n count)
unfolding slice_by
slice_by-Outcome fills rec n count at_0 h h' =
    let e : n + count + 1 ≡ suc (n + count) = omega arith in
    rw e (
      loop-Outcome (n + count) fills rec n (rec n / count) count 1
        (record { tid = 1; chunk_sum = 0; slice_result = zeros }) (omega arith) (omega arith) h
        (omega arith)
        (record {
          low = omega arith;
          high = omega arith;
          first = refl;
          ordered = λ k lt. omega arith;
          behind = omega arith;
          rest = λ k le. refl;
        })
        (record {
          sum = sym at_0;
          cuts = λ k lt. absurd (omega (arith, lt));
          none_left = λ j gt le. absurd (omega (arith, gt, le));
        }))

-- The sums that the three functions make.
abbrev pub in_sums : CbList → ℕ → ℕ
in_sums g = chunk_num_record (chunk_cnts g.vertex_table_in)

abbrev pub out_sums : CbList → ℕ → ℕ
out_sums g = chunk_num_record (chunk_cnts g.vertex_table_out)

abbrev pub score_sums : CbList → ℕ → ℕ
score_sums g = chunk_num_record (λ v. score (g.vertex_table_out.node v))

-- `SliceForCoroDynamic` and `SliceForCoroWithScore` of a graph with a vertex and less than 2^31 of them,
-- for two coroutines or more, whatever the numbers of chunks: the loop ends, and its bounds go from 0 to
-- the number of vertices in order. Each bound that it cuts is the first index behind the bound before
-- where the sum of chunks or of scores, in 32 bits, has grown by the average of a coroutine, or, where
-- the test of the code fails at that index, the one before it; the loop cuts as long as there are such
-- an index and a bound left, and the other bounds are the number of vertices.
pub slice_for_coro_filled-IsSlicing :
    (g : CbList) (coro_num : ℕ)
    → 1 ≤ g.vertex_num
    → g.vertex_num < int_bound
    → 2 ≤ coro_num
    → ((r : Bounds) × (slice_for_coro_dynamic g coro_num ≡ some r)
        × (IsSlicing coro_num 0 g.vertex_num r
            × IsGreedy
                (out_sums g)
                (out_sums g g.vertex_num / coro_num)
                g.vertex_num
                g.vertex_num
                coro_num
                r))
      × ((r : Bounds) × (slice_for_coro_with_score g coro_num ≡ some r)
          × (IsSlicing coro_num 0 g.vertex_num r
              × IsGreedy
                  (score_sums g)
                  (score_sums g g.vertex_num / coro_num)
                  g.vertex_num
                  g.vertex_num
                  coro_num
                  r))
unfolding slice_for_coro_dynamic slice_for_coro_with_score chunk_num_record
slice_for_coro_filled-IsSlicing g coro_num h small h' = (
  slice_by-Outcome true (out_sums g) g.vertex_num coro_num refl h h',
  slice_by-Outcome true (score_sums g) g.vertex_num coro_num refl h h',
)

-- `SliceForCoro` of a graph with a vertex and less than 2^32 - 1 of them, for two coroutines or more,
-- whatever the numbers of chunks: the loop ends, and its bounds either go from 0 to the number of
-- vertices in order, or are in order up to one of them and zero behind it. Each bound that it cuts is
-- the first index behind the bound before where the sum of chunks, in 32 bits, has grown by the average
-- of a coroutine, or, where the test of the code fails at that index, the one before it; the loop cuts
-- as long as there are such an index and a bound left.
pub slice_for_coro-Outcome :
    (g : CbList) (coro_num : ℕ)
    → 1 ≤ g.vertex_num
    → g.vertex_num + 1 < u32_mod
    → 2 ≤ coro_num
    → (r : Bounds) × (slice_for_coro g coro_num ≡ some r)
      × ((IsSlicing coro_num 0 g.vertex_num r
            × IsGreedy
                (in_sums g)
                (in_sums g g.vertex_num / coro_num)
                g.vertex_num
                g.vertex_num
                coro_num
                r)
          ⊎ (IsUnfinished coro_num g.vertex_num r
              × IsGreedy (in_sums g) (in_sums g g.vertex_num / coro_num) g.vertex_num 0 coro_num r))
unfolding slice_for_coro chunk_num_record
slice_for_coro-Outcome g coro_num h small h' =
    slice_by-Outcome false (in_sums g) g.vertex_num coro_num refl h h'
