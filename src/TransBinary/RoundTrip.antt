-- ===== src/TransBinary/RoundTrip.antt =====
-- What TransBinary.cpp writes, graph_io.hpp reads back.
use gast_co_co.Vertex.{int_bound}
use gast_co_co.Prelude.{
  ℕ, zero, suc, ◌+◌, ◌-◌, ◌*◌, ◌<◌, ◌≤◌, ◌≡◌, refl, sym, ap, subst, ◌∙◌, arith, Bool-cases, inl,
  inr, ltb, ltb→lt, ltb→ge, lt→ltb, true, some,
}
use gast_co_co.Slice.{Bounds, slice_task_for_coro}
use gast_co_co.Slice.Order.{slice-below}
use gast_co_co.Slice.Even.{IsSlicing, IsEqualSlicing, slice_task-IsEqualSlicing}
use gast_co_co.GraphIo.{
  BinaryFile, EdgeList, Fresh, load_graph_from_binary_file, load_graph_from_bg_binary_file,
}
use gast_co_co.GraphIo.Binary.{edge_at, load_binary-edges}
use gast_co_co.TransBinary.Blocks.{
  IsFilled, IsAppended, fill_elist-IsFilled, write_blocks-IsAppended,
}
use gast_co_co.TransBinary.{
  empty_file, fill_elist, write_blocks, write_edges, transfer_normal_weight, write_slices,
  transfer_normal_bg_weight, bg_slices,
}

-- The edges of a file, one array behind the other.
record IsWritten (n start : ℕ) (ev : EdgeList) (f f' : BinaryFile) : Type 0 where
  size : f'.size ≡ f.size + 3 * n
  old : (k : ℕ) → k < f.size → f'.word k ≡ f.word k
  edges :
      (j : ℕ)
      → j < n
      → (f'.word (f.size + 3 * j) ≡ (ev (j + start)).start_vertex)
        × (f'.word (f.size + (3 * j + 1)) ≡ (ev (j + start)).end_vertex)
        × (f'.word (f.size + (3 * j + 2)) ≡ (ev (j + start)).value)

appended-IsWritten :
    (n start : ℕ) (ev : EdgeList) (a : ℕ → ℕ) (f f' : BinaryFile)
    → IsFilled 0 n start ev (λ _. 0) a
    → IsAppended 0 (3 * n) a f f'
    → IsWritten n start ev f f'
appended-IsWritten n start ev a f f' filled is =
    let size' = is.size in
    record {
      size = omega (arith, size');
      old = is.old;
      edges = λ j lt. (
        new (3 * j) (omega (arith, lt)) ∙ filled.first j (omega arith) lt,
        new (3 * j + 1) (omega (arith, lt)) ∙ filled.second j (omega arith) lt,
        new (3 * j + 2) (omega (arith, lt)) ∙ filled.third j (omega arith) lt,
      );
    }
  where
    new : (k : ℕ) → k < 3 * n → f'.word (f.size + k) ≡ a k
    new k lt = is.new k (omega (arith, lt)) ∙ ap a (omega arith)

write_edges-IsWritten :
    (b n start : ℕ) (ev : EdgeList) (f : BinaryFile)
    → 1 ≤ b
    → (f' : BinaryFile) × (write_edges (4 * b) n start ev f ≡ some f') × IsWritten n start ev f f'
unfolding write_edges
write_edges-IsWritten b n start ev f some_block =
    let a = fill_elist n 0 start ev (λ _. 0) in
    let filled = fill_elist-IsFilled n 0 n start ev (λ _. 0) (omega arith) in
    let w =
      write_blocks-IsAppended (12 * n + 1) b 0 (3 * n) a f some_block (omega arith) (omega arith) in
    (w.0, in_bytes a w.0 w.1, appended-IsWritten n start ev a f w.0 filled w.2)
  where
    in_bytes :
        (a : ℕ → ℕ) (f' : BinaryFile)
        → write_blocks (12 * n + 1) (4 * b) (4 * 0) (4 * (3 * n)) a f ≡ some f'
        → write_blocks (12 * n + 1) (4 * b) 0 (12 * n) a f ≡ some f'
    in_bytes a f' e =
        let bytes : 12 * n ≡ 4 * (3 * n) = omega arith in
        subst (λ k. write_blocks (12 * n + 1) (4 * b) 0 k a f ≡ some f') (sym bytes) e

-- A file with the first `n` edges.
record HasEdges (n : ℕ) (ev : EdgeList) (f : BinaryFile) : Type 0 where
  size : f.size ≡ 3 * n
  edge : (k : ℕ) → k < n → edge_at f k ≡ ev k

more-HasEdges :
    (start n : ℕ) (ev : EdgeList) (f f' : BinaryFile)
    → HasEdges start ev f
    → IsWritten n start ev f f'
    → HasEdges (start + n) ev f'
more-HasEdges start n ev f f' has is =
    let s = has.size in
    let s' = is.size in
    record {
      size = omega (arith, s, s');
      edge = λ k lt. elim (Bool-cases (ltb k start)) [
        | inl p ↦
            let p' = ltb→lt k start p in
            rw
              (
                is.old (3 * k) (omega (arith, p', s)),
                is.old (3 * k + 1) (omega (arith, p', s)),
                is.old (3 * k + 2) (omega (arith, p', s)),
              )
              (has.edge k p')
        | inr p ↦
            let p' = ltb→ge k start p in
            let w = is.edges (k - start) (omega (arith, lt, p')) in
            let a0 : f.size + 3 * (k - start) ≡ 3 * k = omega (arith, s, p') in
            let a1 : f.size + (3 * (k - start) + 1) ≡ 3 * k + 1 = omega (arith, s, p') in
            let a2 : f.size + (3 * (k - start) + 2) ≡ 3 * k + 2 = omega (arith, s, p') in
            let back : k - start + start ≡ k = omega (arith, p') in
            rw
              (
                ap f'.word (sym a0) ∙ w.0,
                ap f'.word (sym a1) ∙ w.1,
                ap f'.word (sym a2) ∙ w.2,
                back,
              )
              refl
      ];
    }

-- What both readers make of a file: the edges of `ev`.
pub record ReadBack (fresh : Fresh) (n : ℕ) (ev : EdgeList) (f : BinaryFile) : Type 0 where
  pub bg :
      (es : EdgeList) × (load_graph_from_bg_binary_file fresh n f ≡ some es)
      × ((k : ℕ) → k < n → es k ≡ ev k)
  pub whole :
      (es : EdgeList) × (load_graph_from_binary_file fresh n f ≡ some es)
      × ((k : ℕ) → k < n → es k ≡ ev k)

HasEdges-ReadBack :
    (fresh : Fresh) (n : ℕ) (ev : EdgeList) (f : BinaryFile)
    → 3 * n + 12 < int_bound
    → HasEdges n ev f
    → ReadBack fresh n ev f
HasEdges-ReadBack fresh n ev f few has =
    let s = has.size in
    let (a, b) = load_binary-edges fresh n f few in
    record {
      bg = (b.0, b.1, λ k lt. b.2 k lt (omega (arith, s, lt)) ∙ has.edge k lt);
      whole = (a.0, a.1, λ k lt. a.2 k lt (omega (arith, s, lt)) ∙ has.edge k lt);
    }

write_slices-HasEdges :
    (rounds i count e : ℕ) (slice : Bounds) (ev : EdgeList) (f : BinaryFile)
    → IsSlicing count 0 e slice
    → ((k : ℕ) → k < count → 12 * (slice (suc k) - slice k) < int_bound)
    → suc i + rounds ≡ count + 1
    → HasEdges (slice i) ev f
    → (f' : BinaryFile) × (write_slices rounds (suc i) slice ev f ≡ some f') × HasEdges e ev f'
unfolding write_slices
write_slices-HasEdges zero i count e slice ev f is small at has =
    let last : slice i ≡ e = ap slice (omega (arith, at)) ∙ is.last in
    (f, refl, subst (λ k. HasEdges k ev f) last has)
write_slices-HasEdges (suc m) i count e slice ev f is small at has =
    let order = is.ordered i (omega (arith, at)) in
    let n = slice (suc i) - slice i in
    let w = write_edges-IsWritten 30000 n (slice i) ev f (omega arith) in
    let up : slice i + n ≡ slice (suc i) = omega (arith, order) in
    let has' = subst (λ k. HasEdges k ev w.0) up (more-HasEdges (slice i) n ev f w.0 has w.2) in
    let ih =
      write_slices-HasEdges m (suc i) count e slice ev w.0 is small (omega (arith, at)) has' in
    let fits = lt→ltb (12 * n) int_bound (small i (omega (arith, at))) in
    (ih.0, one fits w.0 ih.0 w.1 ih.1, ih.2)
  where
    one :
        ltb (12 * (slice (suc i) - slice i)) int_bound ≡ true
        → (f1 f2 : BinaryFile)
        → write_edges 120000 (slice (suc i) - slice i) (slice i) ev f ≡ some f1
        → write_slices m (suc (suc i)) slice ev f1 ≡ some f2
        → write_slices (suc m) (suc i) slice ev f ≡ some f2
    one fits f1 f2 e1 e2 =
        let prev : suc i - 1 ≡ i = omega arith in rw (write_slices, prev, fits, e1) e2

empty-HasEdges : (ev : EdgeList) → HasEdges 0 ev empty_file
empty-HasEdges ev = record { size = refl; edge = λ k lt. absurd (omega (arith, lt)) }

-- The slices are at most a fifth of the edges, the last one and 2000 edges more.
slices-small :
    (e count : ℕ) (r : Bounds)
    → 6 ≤ count
    → count ≤ 2000
    → IsEqualSlicing count 0 e r
    → 3 * e < int_bound
    → (k : ℕ) → k < count
    → 12 * (r (suc k) - r k) < int_bound
slices-small e count r some_slices few is small k lt =
    let s1 = is.sizes 0 (omega (arith, some_slices)) in
    let s2 = is.sizes 1 (omega (arith, some_slices)) in
    let s3 = is.sizes 2 (omega (arith, some_slices)) in
    let s4 = is.sizes 3 (omega (arith, some_slices)) in
    let s5 = is.sizes 4 (omega (arith, some_slices)) in
    let top = slice-below count e r is.slicing 4 (omega (arith, some_slices)) in
    let fifth : 5 * is.size ≤ e = omega (arith, s1, s2, s3, s4, s5, top) in
    elim (Bool-cases (ltb (suc k) count)) [
      | inl p ↦ let s = is.sizes k (ltb→lt (suc k) count p) in omega (arith, s, fifth, small)
      | inr p ↦
          let at : suc k ≡ count = omega (arith, ltb→ge (suc k) count p, lt) in
          let a : r (suc k) ≡ e = ap r at ∙ is.slicing.last in
          let b : r k ≡ r (count - 1) = ap r (omega (arith, at)) in
          let most = is.last_most in omega (arith, a, b, most, fifth, small, few)
    ]

-- The edges that `transfer_normal_BG_weight` and `transfer_normal_weight` write, read back by
-- `LoadGraphFromBGBinaryFile` and by `LoadGraphFromBinaryFile`, for so few edges that three times their
-- number and 12 are below 2^31: the files are written to their ends, and each reader returns the edges
-- of each of them, in order, whatever new memory holds.
pub transfer-roundtrip :
    (fresh : Fresh) (size : ℕ) (ev : EdgeList)
    → 3 * size + 12 < int_bound
    → ((f : BinaryFile) × (transfer_normal_bg_weight size ev ≡ some f) × ReadBack fresh size ev f)
      × ((f : BinaryFile) × (transfer_normal_weight size ev ≡ some f) × ReadBack fresh size ev f)
unfolding transfer_normal_bg_weight transfer_normal_weight
transfer-roundtrip fresh size ev few =
    let equal = (slice_task-IsEqualSlicing size bg_slices (omega arith)).0 in
    let is = equal.slicing in
    let first = is.first in
    let small =
      slices-small size bg_slices (slice_task_for_coro size bg_slices) (omega arith) (omega arith)
        equal (omega (arith, few)) in
    let w =
      write_slices-HasEdges bg_slices 0 bg_slices size (slice_task_for_coro size bg_slices) ev
        empty_file is small (omega arith)
        (subst (λ k. HasEdges k ev empty_file) (sym first) (empty-HasEdges ev)) in
    let v = write_edges-IsWritten 250000 size 0 ev empty_file (omega arith) in
    let all : 0 + size ≡ size = omega arith in
    let has : HasEdges size ev v.0 =
      subst (λ k. HasEdges k ev v.0) all
        (more-HasEdges 0 size ev empty_file v.0 (empty-HasEdges ev) v.2) in
    (
      (
        w.0,
        rw (lt→ltb size int_bound (omega (arith, few))) w.1,
        HasEdges-ReadBack fresh size ev w.0 few w.2,
      ),
      (
        v.0,
        rw (lt→ltb (3 * size) int_bound (omega (arith, few))) v.1,
        HasEdges-ReadBack fresh size ev v.0 few has,
      ),
    )
