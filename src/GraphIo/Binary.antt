-- ===== src/GraphIo/Binary.antt =====
-- The readers of binary files.
use gast_co_co.Vertex.{int_bound}
use gast_co_co.Prelude.{
  ℕ, zero, suc, ◌+◌, ◌-◌, ◌*◌, ◌<◌, ◌≤◌, ◌≡◌, refl, sym, ap, ◌∙◌, arith, true, false, Bool-cases,
  inl, inr, ltb, ltb→lt, ltb→ge, lt→ltb, ◌==◌, ==→eq, ==→ne, some,
}
use gast_co_co.Types.{Gedge}
use gast_co_co.Slice.{Bounds, set_bound, step_bounds, slice_task_for_n}
use gast_co_co.Slice.Even.{IsSlicing, slice_task-IsEqualSlicing}
use gast_co_co.GraphIo.{
  BinaryFile, EdgeList, Fresh, set_edge, read, store_edges, load_graph_from_binary_file,
  load_slices, load_graph_from_bg_binary_file,
}

-- Edge number `i` of a file with weights.
abbrev pub edge_at : BinaryFile → ℕ → Gedge
edge_at f i = record {
  start_vertex = f.word (3 * i);
  end_vertex = f.word (3 * i + 1);
  value = f.word (3 * i + 2);
}

-- The loop writes the cells from `i` on and no others.
record IsStored (i n start : ℕ) (elist : ℕ → ℕ) (es es' : EdgeList) : Type 0 where
  here :
      (j : ℕ)
      → i ≤ j
      → j < n
      → es' (j + start) ≡ record {
        start_vertex = elist (3 * j);
        end_vertex = elist (3 * j + 1);
        value = elist (3 * j + 2);
      }
  before : (k : ℕ) → k < i + start → es' k ≡ es k

store_edges-IsStored :
    (rounds i n start : ℕ) (elist : ℕ → ℕ) (es : EdgeList)
    → i + rounds ≡ n
    → IsStored i n start elist es (store_edges rounds i start elist es)
unfolding store_edges set_edge
store_edges-IsStored zero i n start elist es e = record {
  here = λ j le lt. absurd (omega (arith, e, le, lt));
  before = λ k lt. refl;
}
store_edges-IsStored (suc m) i n start elist es e =
    let new : Gedge = record {
      start_vertex = elist (3 * i);
      end_vertex = elist (3 * i + 1);
      value = elist (3 * i + 2);
    } in
    let ih =
      store_edges-IsStored m (suc i) n start elist (set_edge (i + start) new es)
        (omega (arith, e)) in
    record {
      here = λ j le lt. elim (Bool-cases (j == i)) [
        | inl q ↦
            let j_is = ==→eq j i q in
            let at = ih.before (j + start) (omega (arith, j_is)) in
            let self : (j + start == i + start) ≡ true = ground (arith, j_is) in
            at ∙ rw (self, j_is) refl
        | inr q ↦ let ne = ==→ne j i q in ih.here j (omega (arith, le, ne)) lt
      ];
      before = λ k lt.
          let ne : (k == i + start) ≡ false = ground (arith, lt) in
          ih.before k (omega (arith, lt)) ∙ rw ne refl;
    }

-- A cell that the file has the word for.
read-word :
    (f : BinaryFile) (pos n : ℕ) (elist : ℕ → ℕ) (k : ℕ)
    → k < n
    → pos + k < f.size
    → read f pos n elist k ≡ f.word (pos + k)
unfolding read
read-word f pos n elist k lt room = rw (lt→ltb k n lt, lt→ltb (pos + k) f.size room) refl

-- One slice, read at its place in the file.
store_edges-slice :
    (f : BinaryFile) (n start pos : ℕ) (elist : ℕ → ℕ) (es : EdgeList)
    → pos ≡ 3 * start
    → ((k : ℕ) → k < start → 3 * k + 2 < f.size → es k ≡ edge_at f k)
    → (k : ℕ) → k < start + n
    → 3 * k + 2 < f.size
    → store_edges n 0 start (read f pos (3 * n) elist) es k ≡ edge_at f k
store_edges-slice f n start pos elist es at old k lt room =
    let a = read f pos (3 * n) elist in
    let is = store_edges-IsStored n 0 n start a es (omega arith) in
    elim (Bool-cases (ltb k start)) [
      | inl p ↦ let p' = ltb→lt k start p in is.before k (omega (arith, p')) ∙ old k p' room
      | inr p ↦
          let p' = ltb→ge k start p in
          let q : (k - start) + start ≡ k = omega (arith, p') in
          let h = is.here (k - start) (omega arith) (omega (arith, lt, p')) in
          let a0 : pos + 3 * (k - start) ≡ 3 * k = omega (arith, at, p') in
          let a1 : pos + (3 * (k - start) + 1) ≡ 3 * k + 1 = omega (arith, at, p') in
          let a2 : pos + (3 * (k - start) + 2) ≡ 3 * k + 2 = omega (arith, at, p') in
          let w0 =
            read-word f pos (3 * n) elist (3 * (k - start)) (omega (arith, lt, p'))
              (omega (arith, a0, room))
            ∙ ap f.word a0 in
          let w1 =
            read-word f pos (3 * n) elist (3 * (k - start) + 1) (omega (arith, lt, p'))
              (omega (arith, a1, room))
            ∙ ap f.word a1 in
          let w2 =
            read-word f pos (3 * n) elist (3 * (k - start) + 2) (omega (arith, lt, p'))
              (omega (arith, a2, room))
            ∙ ap f.word a2 in
          ap (store_edges n 0 start a es) (sym q) ∙ h ∙ rw (w0, w1, w2) refl
    ]

module _ (fresh : Fresh) (f : BinaryFile) (count e : ℕ) (slice : Bounds)
    (is : IsSlicing count 0 e slice)
    (small : (i : ℕ) → i < count → 3 * (slice (suc i) - slice i) < int_bound) where
  load_slices-edges :
      (rounds i pos : ℕ) (es : EdgeList)
      → suc i + rounds ≡ count + 1
      → pos ≡ 3 * slice i
      → ((k : ℕ) → k < slice i → 3 * k + 2 < f.size → es k ≡ edge_at f k)
      → (es' : EdgeList) × (load_slices fresh rounds (suc i) pos slice f es ≡ some es')
        × ((k : ℕ) → k < e → 3 * k + 2 < f.size → es' k ≡ edge_at f k)
  unfolding load_slices
  load_slices-edges zero i pos es at place old =
      let last : slice i ≡ e = ap slice (omega (arith, at)) ∙ is.last in
      (es, refl, λ k lt. old k (omega (arith, last, lt)))
  load_slices-edges (suc m) i pos es at place old =
      let prev : suc i - 1 ≡ i = omega arith in
      let n = slice (suc i) - slice i in
      let order = is.ordered i (omega (arith, at)) in
      let fits = lt→ltb (3 * n) int_bound (small i (omega (arith, at))) in
      let up : slice i + n ≡ slice (suc i) = omega (arith, order) in
      let a = read f pos (3 * n) (fresh.words (suc i)) in
      rw (prev, fits)
        (load_slices-edges m (suc i) (pos + 3 * n) (store_edges n 0 (slice i) a es)
          (omega (arith, at)) (omega (arith, place, order))
          (λ k lt.
            store_edges-slice f n (slice i) pos (fresh.words (suc i)) es place old k
              (omega (arith, up, lt))))

-- The sizes of three slices.
thirds-small :
    (e : ℕ)
    → e + 4 < int_bound
    → (i : ℕ) → i < 3
    → 3 * (slice_task_for_n e 3 (suc i) - slice_task_for_n e 3 i) < int_bound
unfolding slice_task_for_n step_bounds set_bound
thirds-small e few zero lt = omega (arith, few)
thirds-small e few (suc zero) lt = omega (arith, few)
thirds-small e few (suc (suc zero)) lt = omega (arith, few)
thirds-small e few (suc (suc (suc i))) lt = absurd (omega (arith, lt))

-- `LoadGraphFromBGBinaryFile` alone.
pub load_bg-edges :
    (fresh : Fresh) (e : ℕ) (f : BinaryFile)
    → e + 4 < int_bound
    → (es : EdgeList) × (load_graph_from_bg_binary_file fresh e f ≡ some es)
      × ((k : ℕ) → k < e → 3 * k + 2 < f.size → es k ≡ edge_at f k)
unfolding load_graph_from_bg_binary_file
load_bg-edges fresh e f few =
    let is = (slice_task-IsEqualSlicing e 3 (omega arith)).1.slicing in
    let first = is.first in
    let (es, loads, same) =
      load_slices-edges fresh f 3 e (slice_task_for_n e 3) is (thirds-small e few) 3 0 0 fresh.edges
        (omega arith) (omega (arith, first)) (λ k lt. absurd (omega (arith, first, lt))) in
    (es, rw (lt→ltb e int_bound (omega (arith, few))) loads, same)

-- `LoadGraphFromBinaryFile` and `LoadGraphFromBGBinaryFile`, which reads the file in three slices, of a
-- file of any size, for so few edges that three times their number and 12 are below 2^31: both return,
-- whatever new memory holds, and each edge of which the file has all three words is the one that
-- stands there, the same for both.
pub load_binary-edges :
    (fresh : Fresh) (e : ℕ) (f : BinaryFile)
    → 3 * e + 12 < int_bound
    → ((es : EdgeList) × (load_graph_from_binary_file fresh e f ≡ some es)
        × ((k : ℕ) → k < e → 3 * k + 2 < f.size → es k ≡ edge_at f k))
      × ((es : EdgeList) × (load_graph_from_bg_binary_file fresh e f ≡ some es)
          × ((k : ℕ) → k < e → 3 * k + 2 < f.size → es k ≡ edge_at f k))
unfolding load_graph_from_binary_file
load_binary-edges fresh e f few = (
  (
    store_edges e 0 0 (read f 0 (3 * e) (fresh.words 0)) fresh.edges,
    rw (lt→ltb (3 * e) int_bound (omega (arith, few))) refl,
    λ k lt.
        store_edges-slice f e 0 0 (fresh.words 0) fresh.edges (omega arith)
          (λ j lt'. absurd (omega (arith, lt'))) k (omega (arith, lt)),
  ),
  load_bg-edges fresh e f (omega (arith, few)),
)
