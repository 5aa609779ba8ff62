-- ===== src/Vertex/Iterator/Cells.antt =====
-- The iterator of a vertex with one level-1 chunk.
use gast_co_co.Prelude.{
  ℕ, zero, suc, ◌+◌, ◌<◌, ◌≤◌, ◌≡◌, refl, ap, ◌∙◌, inl, inr, List, [], ◌∷◌, arith, true, leb, false,
  some, Bool-cases, length, drop, take, get_elem?, get_or, drop-suc, pos,
}
use gast_co_co.Types.{AdjUnit, lv1_chunk}
use gast_co_co.Leaf.{no_unit}
use gast_co_co.Vertex.{Store, lv1_entries}
use gast_co_co.Vertex.Iterator.{EdgeIterator, increment, get_edeg_info, iterate}

pub get_elem?-take :
    (n i : ℕ) (xs : List AdjUnit)
    → i < n
    → n ≤ length xs
    → get_elem? xs i ≡ some (get_or (take n xs) i no_unit)
get_elem?-take zero i xs lt le = absurd (omega (arith, lt))
get_elem?-take (suc n) i [] lt le = absurd (omega (arith, le))
get_elem?-take (suc n) zero (x ∷ xs) lt le = refl
get_elem?-take (suc n) (suc i) (x ∷ xs) lt le =
    get_elem?-take n i xs (omega (arith, lt)) (omega (arith, le))

pub drop_end : (n : ℕ) (xs : List AdjUnit) → length xs ≤ n → drop n xs ≡ []
drop_end zero [] le = refl
drop_end zero (x ∷ xs) le = absurd (omega (arith, le))
drop_end (suc n) [] le = refl
drop_end (suc n) (x ∷ xs) le = drop_end n xs (omega (arith, le))

pub iterate-ended :
    (k : ℕ) (s : Store) (it : EdgeIterator)
    → 1 ≤ k
    → iterate k s (record it { alive = false }) ≡ some []
unfolding iterate
iterate-ended zero s it le = absurd (omega (arith, le))
iterate-ended (suc k) s it le = refl

-- An iterator at cell `at` of the level-1 chunk `a`, of a vertex with `n` neighbours.
abbrev pub lv1_at : (src a at n : ℕ) → EdgeIterator
lv1_at src a at n = record {
  v = src;
  level = 1;
  neighboor_cnt = pos n;
  access_edge_cnt = at;
  current_ptr = lv1_chunk a;
  current_pos = at;
  alive = true;
}

pub iterate_lv1-units :
    (k : ℕ) (s : Store) (src a at : ℕ) (es : List AdjUnit)
    → lv1_entries (s.lv1 a) ≡ es
    → (s.lv1 a).count ≡ length es
    → length es ≤ length (s.lv1 a).neighboor_chunk
    → at < length es
    → length es < at + k
    → iterate k s (lv1_at src a at (length es)) ≡ some (drop at es)
unfolding iterate increment get_edeg_info
iterate_lv1-units zero s src a at es us count fits lt enough = absurd (omega (arith, lt, enough))
iterate_lv1-units (suc k) s src a at es us count fits lt enough =
    let read : get_elem? (s.lv1 a).neighboor_chunk at ≡ some (get_or es at no_unit) =
      get_elem?-take (s.lv1 a).count at (s.lv1 a).neighboor_chunk (omega (arith, count, lt))
        (omega (arith, count, fits))
      ∙ ap (λ xs. some (get_or xs at no_unit)) us in
    elim (Bool-cases (leb (length es) (suc at))) [
      | inl p ↦
          let last : length es ≤ suc at = ground (arith, p) in
          rw
            (
              read,
              p,
              drop-suc at es no_unit lt,
              drop_end (suc at) es last,
              iterate-ended k s (lv1_at src a (suc at) (length es))
                  (omega (arith, lt, enough, last)),
            )
            refl
      | inr p ↦
          let more : suc at < length es = ground (arith, p) in
          rw
            (
              read,
              p,
              drop-suc at es no_unit lt,
              iterate_lv1-units k s src a (suc at) es us count fits more (omega (arith, enough)),
            )
            refl
    ]
