-- ===== src/Parallel/Chunks.antt =====
-- The chunks of the loops: they take the vertices off their ranges.
use gast_co_co.Prelude.{
  ℕ, zero, suc, ◌+◌, ◌-◌, ◌/◌, ◌<◌, ◌≤◌, ◌≡◌, refl, ap, arith, List, [], ◌∷◌, Bool, Bool-cases, inl,
  inr, ltb, if◌then◌else◌, length, min, ltb→lt, ltb→ge,
}
use gast_co_co.Parallel.{basic_chunk, numbers, clipped, active_only, halves_of, coro_chunk}
use gast_co_co.Parallel.Sums.{weight, weight-append}
use gast_co_co.Parallel.Invariant.{IsChunking}

-- The vertices of a range.
abbrev pub vertices : (b e : ℕ) → List ℕ
vertices b e = numbers b (e - b)

-- The weight of the vertices whose bit is set.
abbrev pub active_weight : (ℕ → Bool) → (ℕ → ℕ) → ℕ → ℕ
active_weight active w v = if active v then w v else 0

pub weight-active_only :
    (active : ℕ → Bool) (w : ℕ → ℕ) (xs : List ℕ)
    → weight w (active_only active xs) ≡ weight (active_weight active w) xs
weight-active_only active w [] = refl
weight-active_only active w (x ∷ xs) = elim (Bool-cases (active x)) [
  | inl p ↦ rw p (ap (λ k. w x + k) (weight-active_only active w xs))
  | inr p ↦ rw p (omega (arith, weight-active_only active w xs))
]

pub length-numbers : (b n : ℕ) → length (numbers b n) ≡ n
length-numbers b zero = refl
length-numbers b (suc n) = omega (arith, length-numbers (suc b) n)

length-active_only : (active : ℕ → Bool) (xs : List ℕ) → length (active_only active xs) ≤ length xs
length-active_only active [] = omega arith
length-active_only active (x ∷ xs) =
    let ih = length-active_only active xs in
    elim (Bool-cases (active x)) [
      | inl p ↦ rw p (omega (arith, ih))
      | inr p ↦ rw p (omega (arith, ih))
    ]

pub weight-numbers :
    (w : ℕ → ℕ) (b m k : ℕ)
    → weight w (numbers b m) + weight w (numbers (b + m) k) ≡ weight w (numbers b (m + k))
weight-numbers w b zero k =
    let e : b + 0 ≡ b = omega arith in let z : 0 + k ≡ k = omega arith in rw (e, z) (omega arith)
weight-numbers w b (suc m) k =
    let ih = weight-numbers w (suc b) m k in
    let e : b + suc m ≡ suc b + m = omega arith in
    let e' : suc m + k ≡ suc (m + k) = omega arith in rw (e, e') (omega (arith, ih))

-- Two ranges in a row.
pub weight-vertices :
    (w : ℕ → ℕ) (b m e : ℕ)
    → b ≤ m
    → m ≤ e
    → weight w (vertices b m) + weight w (vertices m e) ≡ weight w (vertices b e)
weight-vertices w b m e h h' =
    let p = weight-numbers w b (m - b) (e - m) in
    let a : b + (m - b) ≡ m = omega arith in
    let a' : (m - b) + (e - m) ≡ e - b = omega arith in rw (← a', ← p, a) refl

pub empty_vertices : (b e : ℕ) → e ≤ b → vertices b e ≡ []
empty_vertices b e le = let z : e - b ≡ 0 = omega arith in rw z refl

-- A chunk that ends at the range's end or where it is full.
vertices-splits :
    (b m e : ℕ) (w : ℕ → ℕ)
    → b ≤ m
    → m ≡ min (b + basic_chunk) e
    → weight w (vertices b m) + weight w (vertices (b + basic_chunk) e) ≡ weight w (vertices b e)
vertices-splits b m e w le q = elim (Bool-cases (ltb (b + basic_chunk) e)) [
  | inl p ↦
      let lt = ltb→lt (b + basic_chunk) e p in
      let c : m ≡ b + basic_chunk = omega (arith, q, lt) in
      rw c (weight-vertices w b (b + basic_chunk) e (omega arith) (omega (arith, lt)))
  | inr p ↦
      let ge = ltb→ge (b + basic_chunk) e p in
      let c : m ≡ e = omega (arith, q, ge) in
      rw (c, empty_vertices (b + basic_chunk) e ge) (omega arith)
]

-- Every loop over edges has a chunking of any range.
abbrev pub Anywhere : ℕ → ℕ → Type 0
Anywhere b e = Unit

pub clipped-splits :
    (b e : ℕ) (w : ℕ → ℕ)
    → b < e
    → weight w (clipped b e) + weight w (vertices (b + basic_chunk) e) ≡ weight w (vertices b e)
clipped-splits b e w lt = vertices-splits b (min (b + basic_chunk) e) e w (omega (arith, lt)) refl

pub clipped-IsChunking : IsChunking clipped vertices Anywhere
clipped-IsChunking = record {
  splits = λ b e fit lt w. clipped-splits b e w lt;
  empty = empty_vertices;
  next = λ b e fit lt. tt;
  short = λ b e fit lt.
      let len = length-numbers b (min (b + basic_chunk) e - b) in omega (arith, len, lt);
}

-- Of the vertices of a range, those whose bit is set.
abbrev pub active_vertices : (ℕ → Bool) → (b e : ℕ) → List ℕ
active_vertices active b e = active_only active (vertices b e)

active-splits :
    (active : ℕ → Bool) (w : ℕ → ℕ) (xs ys zs : List ℕ)
    → ((u : ℕ → ℕ) → weight u xs + weight u ys ≡ weight u zs)
    → weight w (active_only active xs) + weight w (active_only active ys)
      ≡ weight w (active_only active zs)
active-splits active w xs ys zs h =
    rw
      (
        weight-active_only active w xs,
        weight-active_only active w ys,
        weight-active_only active w zs,
      )
      (h (active_weight active w))

pub active-IsChunking :
    (active : ℕ → Bool)
    → IsChunking (λ b e. active_only active (clipped b e)) (active_vertices active) Anywhere
active-IsChunking active = record {
  splits = λ b e fit lt w.
      active-splits active w (clipped b e) (vertices (b + basic_chunk) e) (vertices b e)
        (λ u. clipped-splits b e u lt);
  empty = λ b e le. ap (active_only active) (empty_vertices b e le);
  next = λ b e fit lt. tt;
  short = λ b e fit lt.
      let few = length-active_only active (clipped b e) in
      let len = length-numbers b (min (b + basic_chunk) e - b) in omega (arith, few, len, lt);
}

-- The two coroutines of a chunk have all its vertices between them.
weight-halves_of :
    (w : ℕ → ℕ) (b e : ℕ) → b ≤ e → weight w (halves_of b e) ≡ weight w (vertices b e)
weight-halves_of w b e le = elim (Bool-cases (ltb 32 (e - b))) [
  | inl p ↦
      let lt = ltb→lt 32 (e - b) p in
      let a = weight-append w (numbers b 32) (numbers (b + 32) (e - (b + 32))) in
      let k = weight-numbers w b 32 (e - (b + 32)) in
      let n : 32 + (e - (b + 32)) ≡ e - b = omega (arith, lt) in rw (p, a, k, n) refl
  | inr p ↦
      let h = (e - b) / 2 in
      let a = weight-append w (numbers b h) (numbers (b + h) (e - (b + h))) in
      let k = weight-numbers w b h (e - (b + h)) in
      let n : h + (e - (b + h)) ≡ e - b = omega arith in rw (p, a, k, n) refl
]

pub length-weight : (xs : List ℕ) → length xs ≡ weight (λ x. 1) xs
length-weight [] = refl
length-weight (x ∷ xs) = omega (arith, length-weight xs)

pub coro_chunk-IsChunking : IsChunking coro_chunk vertices Anywhere
coro_chunk-IsChunking = record {
  splits = λ b e fit lt w.
      let m = min (b + basic_chunk) e in
      let h = weight-halves_of w b m (omega (arith, lt)) in
      let k = clipped-splits b e w lt in omega (arith, h, k);
  empty = empty_vertices;
  next = λ b e fit lt. tt;
  short = λ b e fit lt.
      let m = min (b + basic_chunk) e in
      let h = weight-halves_of (λ x. 1) b m (omega (arith, lt)) in
      let l = length-weight (coro_chunk b e) in
      let l' = length-weight (vertices b m) in
      let len = length-numbers b (m - b) in omega (arith, h, l, l', len, lt);
}
