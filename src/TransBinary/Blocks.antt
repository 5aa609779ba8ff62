-- ===== src/TransBinary/Blocks.antt =====
-- The arrays of words that TransBinary.cpp fills, and the blocks in which it writes them.
use gast_co_co.Prelude.{
  ℕ, zero, suc, ◌+◌, ◌-◌, ◌*◌, ◌/◌, ◌<◌, ◌≤◌, ◌≡◌, refl, sym, ap, ◌∙◌, arith, true, false,
  Bool-cases, inl, inr, ltb, ltb→lt, ltb→ge, lt→ltb, ge→ltb, ◌==◌, ==→eq, ==→ne, min, some,
}
use gast_co_co.GraphIo.{BinaryFile, EdgeList}
use gast_co_co.TransBinary.{append_words, set_cell, fill_elist, write_blocks}

-- The loop writes three words for each edge from `i` on, and no word before them.
pub record IsFilled (i n start : ℕ) (ev : EdgeList) (a a' : ℕ → ℕ) : Type 0 where
  pub first : (j : ℕ) → i ≤ j → j < n → a' (3 * j) ≡ (ev (j + start)).start_vertex
  pub second : (j : ℕ) → i ≤ j → j < n → a' (3 * j + 1) ≡ (ev (j + start)).end_vertex
  pub third : (j : ℕ) → i ≤ j → j < n → a' (3 * j + 2) ≡ (ev (j + start)).value
  before : (k : ℕ) → k < 3 * i → a' k ≡ a k

pub fill_elist-IsFilled :
    (rounds i n start : ℕ) (ev : EdgeList) (a : ℕ → ℕ)
    → i + rounds ≡ n
    → IsFilled i n start ev a (fill_elist rounds i start ev a)
unfolding fill_elist set_cell
fill_elist-IsFilled zero i n start ev a e = record {
  first = λ j le lt. absurd (omega (arith, e, le, lt));
  second = λ j le lt. absurd (omega (arith, e, le, lt));
  third = λ j le lt. absurd (omega (arith, e, le, lt));
  before = λ k lt. refl;
}
fill_elist-IsFilled (suc m) i n start ev a e =
    let x = ev (i + start) in
    let a1 =
      set_cell (set_cell (set_cell a (3 * i) x.start_vertex) (3 * i + 1) x.end_vertex) (3 * i + 2)
        x.value in
    let ih = fill_elist-IsFilled m (suc i) n start ev a1 (omega (arith, e)) in
    record {
      first = λ j le lt. elim (Bool-cases (j == i)) [
        | inl q ↦ let j_is = ==→eq j i q in ih.before (3 * j) (omega (arith, j_is)) ∙ here0 j j_is
        | inr q ↦ let ne = ==→ne j i q in ih.first j (omega (arith, le, ne)) lt
      ];
      second = λ j le lt. elim (Bool-cases (j == i)) [
        | inl q ↦
            let j_is = ==→eq j i q in ih.before (3 * j + 1) (omega (arith, j_is)) ∙ here1 j j_is
        | inr q ↦ let ne = ==→ne j i q in ih.second j (omega (arith, le, ne)) lt
      ];
      third = λ j le lt. elim (Bool-cases (j == i)) [
        | inl q ↦
            let j_is = ==→eq j i q in ih.before (3 * j + 2) (omega (arith, j_is)) ∙ here2 j j_is
        | inr q ↦ let ne = ==→ne j i q in ih.third j (omega (arith, le, ne)) lt
      ];
      before = λ k lt. ih.before k (omega (arith, lt)) ∙ other k lt;
    }
  where
    cells : ℕ → ℕ
    cells =
        set_cell
          (set_cell (set_cell a (3 * i) (ev (i + start)).start_vertex) (3 * i + 1)
            (ev (i + start)).end_vertex)
          (3 * i + 2) (ev (i + start)).value

    here0 : (j : ℕ) → j ≡ i → cells (3 * j) ≡ (ev (j + start)).start_vertex
    here0 j q =
        let n2 : (3 * j == 3 * i + 2) ≡ false = ground (arith, q) in
        let n1 : (3 * j == 3 * i + 1) ≡ false = ground (arith, q) in
        let y : (3 * j == 3 * i) ≡ true = ground (arith, q) in rw (n2, n1, y, q) refl

    here1 : (j : ℕ) → j ≡ i → cells (3 * j + 1) ≡ (ev (j + start)).end_vertex
    here1 j q =
        let n2 : (3 * j + 1 == 3 * i + 2) ≡ false = ground (arith, q) in
        let y : (3 * j + 1 == 3 * i + 1) ≡ true = ground (arith, q) in rw (n2, y, q) refl

    here2 : (j : ℕ) → j ≡ i → cells (3 * j + 2) ≡ (ev (j + start)).value
    here2 j q = let y : (3 * j + 2 == 3 * i + 2) ≡ true = ground (arith, q) in rw (y, q) refl

    other : (k : ℕ) → k < 3 * i → cells k ≡ a k
    other k lt =
        let n2 : (k == 3 * i + 2) ≡ false = ground (arith, lt) in
        let n1 : (k == 3 * i + 1) ≡ false = ground (arith, lt) in
        let n0 : (k == 3 * i) ≡ false = ground (arith, lt) in rw (n2, n1, n0) refl

-- A file with the words of an array, from the word `from` of it on, behind those of another file.
pub record IsAppended (from n : ℕ) (a : ℕ → ℕ) (f f' : BinaryFile) : Type 0 where
  pub size : f'.size ≡ f.size + (n - from)
  pub old : (k : ℕ) → k < f.size → f'.word k ≡ f.word k
  pub new : (j : ℕ) → from + j < n → f'.word (f.size + j) ≡ a (from + j)

append_words-old :
    (f : BinaryFile) (a : ℕ → ℕ) (n k : ℕ) → k < f.size → (append_words f a n).word k ≡ f.word k
unfolding append_words
append_words-old f a n k lt = rw (lt→ltb k f.size lt) refl

append_words-size : (f : BinaryFile) (a : ℕ → ℕ) (n : ℕ) → (append_words f a n).size ≡ f.size + n
unfolding append_words
append_words-size f a n = refl

append_words-new :
    (f : BinaryFile) (a : ℕ → ℕ) (n j : ℕ) → (append_words f a n).word (f.size + j) ≡ a j
unfolding append_words
append_words-new f a n j =
    let s : f.size + j - f.size ≡ j = omega arith in
    rw (ge→ltb (f.size + j) f.size (omega arith), s) refl

-- One block, and then the rest from the word `w + b` on.
block-IsAppended :
    (b m w n : ℕ) (a : ℕ → ℕ) (f f' : BinaryFile)
    → m ≡ min b (n - w)
    → w < n
    → IsAppended (w + b) n a (append_words f (λ j. a (w + j)) m) f'
    → IsAppended w n a f f'
block-IsAppended b m w n a f f' q lt is =
    let sz = append_words-size f (λ j. a (w + j)) m in
    let size' = is.size in
    record {
      size = omega (arith, size', sz, q, lt);
      old = λ k h. is.old k (omega (arith, h, sz)) ∙ append_words-old f (λ j. a (w + j)) m k h;
      new = λ j h. elim (Bool-cases (ltb j m)) [
        | inl p ↦
            let p' = ltb→lt j m p in
            is.old (f.size + j) (omega (arith, sz, p')) ∙ append_words-new f (λ k. a (w + k)) m j
        | inr p ↦
            let p' = ltb→ge j m p in
            let full : m ≡ b = omega (arith, q, h, p') in
            let at : (append_words f (λ k. a (w + k)) m).size + (j - b) ≡ f.size + j =
              omega (arith, sz, full, p') in
            let there : w + b + (j - b) ≡ w + j = omega (arith, full, p') in
            ap f'.word (sym at) ∙ is.new (j - b) (omega (arith, there, h)) ∙ ap a there
      ];
    }

write_blocks-one :
    (k b w n : ℕ) (a : ℕ → ℕ) (f f' : BinaryFile)
    → w < n
    → write_blocks k
        (4 * b)
        (4 * (w + b))
        (4 * n)
        a
        (append_words f (λ j. a (w + j)) (min (4 * b) (4 * n - 4 * w) / 4))
      ≡ some f'
    → write_blocks (suc k) (4 * b) (4 * w) (4 * n) a f ≡ some f'
unfolding write_blocks
write_blocks-one k b w n a f f' lt e =
    let next : 4 * w + 4 * b ≡ 4 * (w + b) = omega arith in
    let here : 4 * w / 4 ≡ w = omega arith in
    rw (lt→ltb (4 * w) (4 * n) (omega (arith, lt)), next, here) e

-- The blocks from the word `w` on, of four bytes each, of an array of `n` words.
pub write_blocks-IsAppended :
    (fuel b w n : ℕ) (a : ℕ → ℕ) (f : BinaryFile)
    → 1 ≤ b
    → 1 ≤ fuel
    → 4 * n < 4 * w + fuel
    → (f' : BinaryFile) × (write_blocks fuel (4 * b) (4 * w) (4 * n) a f ≡ some f')
      × IsAppended w n a f f'
unfolding write_blocks
write_blocks-IsAppended zero b w n a f some_block fuel enough = absurd (omega (arith, fuel))
write_blocks-IsAppended (suc k) b w n a f some_block fuel enough =
    elim (Bool-cases (ltb (4 * w) (4 * n))) [
      | inl p ↦
          let p' = ltb→lt (4 * w) (4 * n) p in
          let m = min (4 * b) (4 * n - 4 * w) / 4 in
          let ih =
            write_blocks-IsAppended k b (w + b) n a (append_words f (λ j. a (w + j)) m) some_block
              (omega (arith, enough, p')) (omega (arith, enough, some_block)) in
          (
            ih.0,
            write_blocks-one k b w n a f ih.0 (omega (arith, p')) ih.1,
            block-IsAppended b m w n a f ih.0 (omega arith) (omega (arith, p')) ih.2,
          )
      | inr p ↦
          let p' = ltb→ge (4 * w) (4 * n) p in
          (
            f,
            rw p refl,
            record {
              size = omega (arith, p');
              old = λ j lt. refl;
              new = λ j lt. absurd (omega (arith, p', lt));
            },
          )
    ]
