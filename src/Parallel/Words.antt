-- ===== src/Parallel/Words.antt =====
-- The chunks of the loops over vertices, whose ranges start at words of the bitmap.
use gast_co_co.Prelude.{
  ℕ, zero, suc, ◌+◌, ◌-◌, ◌*◌, ◌/◌, ◌<◌, ◌≤◌, ◌≡◌, refl, sym, ap, ◌∙◌, arith, [], ◌∷◌, Bool, false,
  Bool-cases, inl, inr, ◌⊎◌, ltb, length, min, ltb→lt, ltb→ge,
}
use gast_co_co.Parallel.{
  basic_chunk, numbers, clipped, unclipped, active_only, scan_word, word_chunk,
}
use gast_co_co.Parallel.Sums.{weight}
use gast_co_co.Parallel.Invariant.{IsChunking}
use gast_co_co.Parallel.Chunks.{
  vertices, active_weight, active_vertices, weight-active_only, weight-numbers, length-numbers,
  length-weight, clipped-splits, active-IsChunking, empty_vertices,
}

-- The ranges of the loops over vertices start at words of the bitmap, and end at one or behind the
-- last vertex.
pub record IsWordRange (vertex_num b e : ℕ) : Type 0 where
  pub start : ℕ
  pub at_word : b ≡ start * basic_chunk
  pub end_in : e ≤ vertex_num
  pub end_at : (e ≡ vertex_num) ⊎ ((k : ℕ) × (e ≡ k * basic_chunk))

next-IsWordRange :
    (n b e : ℕ) → IsWordRange n b e → b + basic_chunk < e → IsWordRange n (b + basic_chunk) e
next-IsWordRange n b e r lt = record {
  start = suc r.start;
  at_word = let q = r.at_word in omega (arith, q);
  end_in = r.end_in;
  end_at = r.end_at;
}

-- The range has a whole word, or it ends behind the last vertex.
word-fits : (n b e : ℕ) → IsWordRange n b e → b < e → (e ≡ n) ⊎ (b + basic_chunk ≤ e)
word-fits n b e r lt = elim r.end_at [
  | inl q ↦ inl q
  | inr q ↦ let k = q.0 in let a = q.1 in let c = r.at_word in inr (omega (arith, a, c, lt))
]

chunk_end :
    (n b e : ℕ) → IsWordRange n b e → b < e → min (b + basic_chunk) n ≡ min (b + basic_chunk) e
chunk_end n b e r lt = elim (word-fits n b e r lt) [
  | inl q ↦ ap (λ k. min (b + basic_chunk) k) (sym q)
  | inr le ↦ let most = r.end_in in omega (arith, le, most)
]

unclipped_as_clipped : (n b e : ℕ) → IsWordRange n b e → b < e → unclipped n b e ≡ clipped b e
unclipped_as_clipped n b e r lt = ap (λ k. numbers b (k - b)) (chunk_end n b e r lt)

pub unclipped-IsChunking : (n : ℕ) → IsChunking (unclipped n) vertices (IsWordRange n)
unclipped-IsChunking n = record {
  splits = λ b e fit lt w. rw (unclipped_as_clipped n b e fit lt) (clipped-splits b e w lt);
  empty = empty_vertices;
  next = next-IsWordRange n;
  short = λ b e fit lt.
      let q = ap length (unclipped_as_clipped n b e fit lt) in
      let len = length-numbers b (min (b + basic_chunk) e - b) in omega (arith, q, len, lt);
}

-- A word that starts at a vertex.
scan_word-aligned :
    (active : ℕ → Bool) (v n : ℕ) → scan_word active v v n ≡ active_only active (numbers v n)
scan_word-aligned active v zero = refl
scan_word-aligned active v (suc n) = elim (Bool-cases (active v)) [
  | inl p ↦ rw p (ap (λ xs. v ∷ xs) (scan_word-aligned active (suc v) n))
  | inr p ↦ rw p (scan_word-aligned active (suc v) n)
]

-- No vertex behind the last one has its bit set.
none_active :
    (active : ℕ → Bool) (b n : ℕ)
    → ((v : ℕ) → b ≤ v → active v ≡ false)
    → active_only active (numbers b n) ≡ []
none_active active b zero h = refl
none_active active b (suc n) h =
    rw (h b (omega arith)) (none_active active (suc b) n (λ v le. h v (omega (arith, le))))

weight-scan_word :
    (active : ℕ → Bool) (w : ℕ → ℕ) (b m k full : ℕ)
    → m + k ≡ full
    → weight w (active_only active (numbers (b + m) k)) ≡ 0
    → weight w (scan_word active b b full) ≡ weight w (active_only active (numbers b m))
weight-scan_word active w b m k full whole none =
    let scan = ap (weight w) (scan_word-aligned active b full) in
    let split = weight-numbers (active_weight active w) b m k in
    let split' = ap (λ j. weight (active_weight active w) (numbers b j)) whole in
    let all = weight-active_only active w (numbers b full) in
    let first = weight-active_only active w (numbers b m) in
    let rest = weight-active_only active w (numbers (b + m) k) in
    omega (arith, scan, all, first, rest, none, split, split')

-- No bit is set from the end of a chunk to the end of its word.
rest-clear :
    (active : ℕ → Bool) (n b e k : ℕ)
    → ((v : ℕ) → n ≤ v → active v ≡ false)
    → IsWordRange n b e
    → b < e
    → k ≡ basic_chunk - (min (b + basic_chunk) e - b)
    → active_only active (numbers (b + (min (b + basic_chunk) e - b)) k) ≡ []
rest-clear active n b e k clear r lt q = elim (word-fits n b e r lt) [
  | inl at_end ↦ elim (Bool-cases (ltb e (b + basic_chunk))) [
    | inl p ↦
        let p' = ltb→lt e (b + basic_chunk) p in
        none_active active (b + (min (b + basic_chunk) e - b)) k
          (λ v le. clear v (omega (arith, le, at_end, lt, p')))
    | inr p ↦
        let p' = ltb→ge e (b + basic_chunk) p in let z : k ≡ 0 = omega (arith, q, p') in rw z refl
  ]
  | inr le ↦ let z : k ≡ 0 = omega (arith, q, le) in rw z refl
]

weight-word_chunk :
    (active : ℕ → Bool) (n b e : ℕ) (w : ℕ → ℕ)
    → ((v : ℕ) → n ≤ v → active v ≡ false)
    → IsWordRange n b e
    → b < e
    → weight w (word_chunk active b e) ≡ weight w (active_only active (clipped b e))
unfolding word_chunk
weight-word_chunk active n b e w clear r lt =
    let c = r.at_word in
    let at_b : b / 64 * 64 ≡ b = omega (arith, c) in
    let m = min (b + basic_chunk) e - b in
    let whole : m + (basic_chunk - m) ≡ 64 = omega (arith, lt) in
    ap (λ i. weight w (scan_word active i b 64)) at_b
    ∙ weight-scan_word active w b m (basic_chunk - m) 64 whole
        (ap (weight w) (rest-clear active n b e (basic_chunk - m) clear r lt refl))

pub word_chunk-IsChunking :
    (active : ℕ → Bool) (n : ℕ)
    → ((v : ℕ) → n ≤ v → active v ≡ false)
    → IsChunking (word_chunk active) (active_vertices active) (IsWordRange n)
word_chunk-IsChunking active n clear = record {
  splits = λ b e fit lt w.
      let q = weight-word_chunk active n b e w clear fit lt in
      let k = (active-IsChunking active).splits b e tt lt w in omega (arith, q, k);
  empty = (active-IsChunking active).empty;
  next = next-IsWordRange n;
  short = λ b e fit lt.
      let q = weight-word_chunk active n b e (λ x. 1) clear fit lt in
      let l = length-weight (word_chunk active b e) in
      let l' = length-weight (active_only active (clipped b e)) in
      let k = (active-IsChunking active).short b e tt lt in omega (arith, q, l, l', k);
}
