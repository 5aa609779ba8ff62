-- ===== src/Slice/Even.antt =====
-- Slices of equal size.
use gast_co_co.Prelude.{
  ℕ, zero, suc, ◌+◌, ◌-◌, ◌*◌, ◌/◌, ◌%◌, ◌≤◌, ◌<◌, ◌≡◌, ◌≢◌, refl, ap, ◌∙◌, arith, ◌==◌, Bool-cases,
  inl, inr, ==→eq, ==→ne, ltb,
}
use gast_co_co.Slice.{
  Bounds, zeros, set_bound, step_bounds, slice_task_for_coro, slice_task_for_n, chunk_num,
  slice_for_vertices, slice_for_average, slice_for_batch_insert,
}

-- Bounds that divide the numbers from `left` to before `right` in `count` slices.
pub record IsSlicing (count left right : ℕ) (r : Bounds) : Type 0 where
  pub first : r 0 ≡ left
  pub last : r count ≡ right
  pub ordered : (k : ℕ) → k < count → r k ≤ r (suc k)

-- What the loop does: it fills the cells from `i` to before `j` and no others.
record IsStepped (i j avg : ℕ) (r r' : Bounds) : Type 0 where
  stepped : (k : ℕ) → i ≤ suc k → suc k < j → r' (suc k) ≡ avg + r' k
  before : (k : ℕ) → k < i → r' k ≡ r k
  after : (k : ℕ) → j ≤ k → r' k ≡ r k

step_bounds-IsStepped :
    (rounds i j avg : ℕ) (r : Bounds)
    → i + rounds ≡ j
    → 1 ≤ i
    → IsStepped i j avg r (step_bounds rounds i avg r)
unfolding step_bounds set_bound
step_bounds-IsStepped zero i j avg r e h = record {
  stepped = λ k le lt. absurd (omega arith);
  before = λ k lt. refl;
  after = λ k le. refl;
}
step_bounds-IsStepped (suc n) i j avg r e h =
    let r1 = set_bound r i (avg + r (i - 1)) in
    let ih = step_bounds-IsStepped n (suc i) j avg r1 (omega arith) (omega arith) in
    record {
      stepped = λ k le lt. elim (Bool-cases (suc k == i)) [
        | inl q ↦
            let at_i : suc k ≡ i = ==→eq (suc k) i q in
            let here = ih.before (suc k) (omega arith) in
            let new : r1 (suc k) ≡ avg + r (i - 1) = ground arith in
            let below : r (i - 1) ≡ r k = ap r (omega arith) in
            let left = ih.before k (omega arith) ∙ other k (omega arith) in
            omega (arith, here, new, below, left)
        | inr q ↦ let ne = ==→ne (suc k) i q in ih.stepped k (omega (arith, ne)) lt
      ];
      before = λ k lt. ih.before k (omega arith) ∙ other k (omega arith);
      after = λ k le. ih.after k le ∙ other k (omega arith);
    }
  where
    other : (k : ℕ) → k ≢ i → set_bound r i (avg + r (i - 1)) k ≡ r k
    other k ne = ground arith

-- The bounds of equal slices: from `left` by steps of `avg`, and `right` at the end.
record IsEven (count left right avg : ℕ) (r : Bounds) : Type 0 where
  start : r 0 ≡ left
  end : r count ≡ right
  steps : (k : ℕ) → suc k < count → r (suc k) ≡ avg + r k

step_bounds-IsEven :
    (count left right avg : ℕ) (r : Bounds)
    → 1 ≤ count
    → r 0 ≡ left
    → r count ≡ right
    → IsEven count left right avg (step_bounds (count - 1) 1 avg r)
step_bounds-IsEven count left right avg r h first last =
    let is = step_bounds-IsStepped (count - 1) 1 count avg r (omega arith) (omega arith) in
    record {
      start = is.before 0 (omega arith) ∙ first;
      end = is.after count (omega arith) ∙ last;
      steps = λ k lt. is.stepped k (omega arith) lt;
    }

closed :
    (count left right avg : ℕ) (r : Bounds)
    → IsEven count left right avg r
    → (k : ℕ) → k < count
    → r k ≡ left + k * avg
closed count left right avg r is zero lt = omega (arith, is.start)
closed count left right avg r is (suc k) lt =
    let ih = closed count left right avg r is k (omega arith) in
    let st = is.steps k lt in grind arith

-- Even bounds are a slicing if the steps stay within the range.
IsEven-IsSlicing :
    (count left right avg : ℕ) (r : Bounds)
    → 1 ≤ count
    → left + (count - 1) * avg ≤ right
    → IsEven count left right avg r
    → IsSlicing count left right r
IsEven-IsSlicing count left right avg r h fits is = record {
  first = is.start;
  last = is.end;
  ordered = λ k lt. elim (Bool-cases (suc k == count)) [
    | inl q ↦
        let e : suc k ≡ count = ==→eq (suc k) count q in
        let c = closed count left right avg r is k lt in
        let e' : k ≡ count - 1 = omega arith in
        let top : r (suc k) ≡ right = ap r e ∙ is.end in
        let c' : r k ≡ left + (count - 1) * avg = c ∙ ap (λ x. left + x * avg) e' in
        omega (arith, c', top, fits)
    | inr q ↦
        let ne = ==→ne (suc k) count q in
        let st = is.steps k (omega (arith, ne)) in omega (arith, st)
  ];
}

-- The quotient, taken one time less than the divisor, stays below the dividend.
quotient-fits : (a n : ℕ) → 1 ≤ n → (n - 1) * (a / n) + a / n ≤ a
quotient-fits a n h = grind arith

pred_mul : (n q : ℕ) → 1 ≤ n → (n - 1) * q + q ≡ n * q
pred_mul zero q h = absurd (omega arith)
pred_mul (suc m) q h = let e : suc m - 1 ≡ m = omega arith in rw e (grind arith)

remainder-fits : (a n : ℕ) → 1 ≤ n → a < (n - 1) * (a / n) + a / n + n
remainder-fits a n h =
    let d : n * (a / n) + a % n ≡ a = grind arith in
    let m : a % n < n = grind arith in let f = pred_mul n (a / n) h in omega (arith, d, m, f)

-- Slices of the same size, the last one larger by less than their number.
pub record IsEqualSlicing (count left right : ℕ) (r : Bounds) : Type 0 where
  pub size : ℕ
  pub slicing : IsSlicing count left right r
  pub sizes : (k : ℕ) → suc k < count → r (suc k) ≡ size + r k
  pub last_least : size + r (count - 1) ≤ right
  pub last_most : right < size + r (count - 1) + count

equal :
    (count left right size : ℕ) (r : Bounds)
    → 1 ≤ count
    → size ≡ (right - left) / count
    → left ≤ right
    → IsEven count left right size r
    → IsEqualSlicing count left right r
equal count left right size r h e le is =
    let c = closed count left right size r is (count - 1) (omega arith) in
    let q = quotient-fits (right - left) count h in
    let q' = remainder-fits (right - left) count h in
    let m = count - 1 in
    let p : m * size ≡ m * ((right - left) / count) = ap (λ x. m * x) e in
    record {
      size = size;
      slicing = IsEven-IsSlicing count left right size r h (omega (arith, q, p, le)) is;
      sizes = is.steps;
      last_least = omega (arith, q, p, c, e, le);
      last_most = omega (arith, q', p, c, e, le);
    }

-- `SliceTaskForCoro` and `SliceTaskForN` for one slice or more: equal slices of the numbers below
-- `task_num`.
pub slice_task-IsEqualSlicing :
    (task_num n : ℕ)
    → 1 ≤ n
    → IsEqualSlicing n 0 task_num (slice_task_for_coro task_num n)
      × IsEqualSlicing n 0 task_num (slice_task_for_n task_num n)
unfolding slice_task_for_coro slice_task_for_n set_bound
slice_task-IsEqualSlicing task_num n h =
    let r = set_bound zeros n task_num in
    let z : task_num ≡ task_num - 0 = omega arith in
    let e : task_num / n ≡ (task_num - 0) / n = ap (λ x. x / n) z in
    let even = step_bounds-IsEven n 0 task_num (task_num / n) r h (ground arith) (ground arith) in
    let is =
      equal n 0 task_num (task_num / n) (step_bounds (n - 1) 1 (task_num / n) r) h e (omega arith)
        even in
    (is, is)

-- `SliceForAverage` and `SliceForBatchInsert` for one slice or more: equal slices of the numbers from
-- `left` to `right`, the latter included.
pub slice_for_average-IsEqualSlicing :
    (n left right : ℕ)
    → 1 ≤ n
    → left ≤ right + 1
    → IsEqualSlicing n left (right + 1) (slice_for_average n left right)
      × IsEqualSlicing n left (right + 1) (slice_for_batch_insert n left right)
unfolding slice_for_average slice_for_batch_insert set_bound
slice_for_average-IsEqualSlicing n left right h le =
    let r = set_bound (set_bound zeros n (right + 1)) 0 left in
    let avg = (right + 1 - left) / n in
    let even = step_bounds-IsEven n left (right + 1) avg r h (ground arith) (ground arith) in
    let is = equal n left (right + 1) avg (step_bounds (n - 1) 1 avg r) h refl le even in (is, is)

vertices-fit :
    (task n basic c : ℕ)
    → 1 ≤ n
    → 1 ≤ basic
    → c ≡ chunk_num task basic
    → (n - 1) * (c / n * basic) ≤ task
vertices-fit task n basic c h pos e = elim (Bool-cases (ltb 0 (c / n))) [
  | inl some ↦
      let whole = quotient-fits c n h in
      let less : (n - 1) * (c / n) + 1 ≤ c = ground (arith, whole) in
      let short : (n - 1) * (c / n) * basic ≤ task = cover ((n - 1) * (c / n)) less in
      let swap : (n - 1) * (c / n * basic) ≡ (n - 1) * (c / n) * basic = grind arith in
      omega (arith, short, swap)
  | inr none ↦
      let z : c / n ≡ 0 = ground arith in
      let z' : (n - 1) * (c / n * basic) ≡ 0 = grind arith in omega (arith, z')
]
  where
    cover : (m : ℕ) → m + 1 ≤ c → m * basic ≤ task
    cover m le =
        let d : task / basic * basic + task % basic ≡ task = grind arith in
        elim (Bool-cases (task % basic == 0)) [
          | inl q ↦
              let q' : c ≡ task / basic + 0 = e ∙ rw q refl in
              let mono : m * basic ≤ task / basic * basic = grind arith in omega (arith, mono, d)
          | inr q ↦
              let q' : c ≡ task / basic + 1 = e ∙ rw q refl in
              let mono : m * basic ≤ task / basic * basic = grind arith in omega (arith, mono, d)
        ]

-- Slices that start at multiples of `basic_chunk`.
pub record IsAligned (basic count task_num : ℕ) (r : Bounds) : Type 0 where
  pub slicing : IsSlicing count 0 task_num r
  pub aligned : (k : ℕ) → k < count → (c : ℕ) × (r k ≡ c * basic)

-- `SliceForVertices` for one thread or more and chunks of one vertex or more: slices of the numbers
-- below `task_num` that start at multiples of the chunk.
pub slice_for_vertices-IsAligned :
    (task_num n basic : ℕ)
    → 1 ≤ n
    → 1 ≤ basic
    → IsAligned basic n task_num (slice_for_vertices task_num n basic)
unfolding slice_for_vertices set_bound
slice_for_vertices-IsAligned task_num n basic h pos =
    let r = set_bound zeros n task_num in
    let c = chunk_num task_num basic / n in
    let avg = c * basic in
    let even = step_bounds-IsEven n 0 task_num avg r h (ground arith) (ground arith) in
    let fit = vertices-fit task_num n basic (chunk_num task_num basic) h pos refl in
    record {
      slicing =
          IsEven-IsSlicing n 0 task_num avg (step_bounds (n - 1) 1 avg r) h (omega (arith, fit))
            even;
      aligned = λ k lt.
          (k * c, closed n 0 task_num avg (step_bounds (n - 1) 1 avg r) even k lt ∙ grind arith);
    }
