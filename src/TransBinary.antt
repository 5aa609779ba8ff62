-- ===== src/TransBinary.antt =====
-- others/dataproc/TransBinary.cpp: the edges of a text file written as a binary file. The sizes in bytes
-- are multiples of the four bytes of an `int`.
pub mod Blocks
pub mod RoundTrip
use gast_co_co.Vertex.{int_bound}
use gast_co_co.Prelude.{
  ℕ, zero, suc, ◌+◌, ◌-◌, ◌*◌, ◌/◌, ltb, ◌==◌, if◌then◌else◌, min, Option, none, some, List, [],
  ◌∷◌,
}
use gast_co_co.Types.{Gedge}
use gast_co_co.Slice.{slice_task_for_coro}
use gast_co_co.GraphIo.{BinaryFile, EdgeList}

abbrev pub empty_file : BinaryFile
empty_file = record { size = 0; word = λ _. 0 }

-- `outfile.write(a, n * sizeof(int))`.
unfoldable pub append_words : BinaryFile → (ℕ → ℕ) → (n : ℕ) → BinaryFile
append_words f a n = record {
  size = f.size + n;
  word = λ k. if ltb k f.size then f.word k else a (k - f.size);
}

unfoldable pub set_cell : (ℕ → ℕ) → ℕ → ℕ → (ℕ → ℕ)
set_cell a i v j = if j == i then v else a j

-- The loop that fills `Elist`, from `i` on for the rounds that are left.
unfoldable pub fill_elist : (rounds i start : ℕ) → EdgeList → (ℕ → ℕ) → (ℕ → ℕ)
unfolding set_cell
fill_elist zero i start ev a = a
fill_elist (suc k) i start ev a =
    let e = ev (i + start) in
    fill_elist k (suc i) start ev (
      set_cell (set_cell (set_cell a (3 * i) e.start_vertex) (3 * i + 1) e.end_vertex) (3 * i + 2)
        e.value)

-- `while (offset < n)`, the blocks of `bsize` bytes; `none` is the end of the fuel.
unfoldable pub write_blocks : (fuel bsize offset n : ℕ) → (ℕ → ℕ) → BinaryFile → Option BinaryFile
unfolding append_words
write_blocks zero bsize offset n elist f = none
write_blocks (suc k) bsize offset n elist f =
    let rest =
      write_blocks k bsize (offset + bsize) n elist
        (append_words f (λ j. elist (offset / 4 + j)) (min bsize (n - offset) / 4)) in
    if ltb offset n then rest else some f

-- One array of `n` edges, with as much fuel as it has bytes.
unfoldable pub write_edges : (bsize n start : ℕ) → EdgeList → BinaryFile → Option BinaryFile
unfolding fill_elist write_blocks
write_edges bsize n start ev f =
    write_blocks (12 * n + 1) bsize 0 (12 * n) (fill_elist n 0 start ev (λ _. 0)) f

-- `transfer_normal_weight`, from the edges on; `none` is also an index `3 * i` that overflows `int`.
unfoldable pub transfer_normal_weight : (size : ℕ) → EdgeList → Option BinaryFile
unfolding write_edges
transfer_normal_weight size ev =
    let f = write_edges 1000000 size 0 ev empty_file in if ltb (3 * size) int_bound then f else none

-- The loop over the slices of `transfer_normal_BG_weight`, from slice `i` on; `none` is also a number of
-- bytes `N` that overflows `int`.
unfoldable pub write_slices : (rounds i : ℕ) → (ℕ → ℕ) → EdgeList → BinaryFile → Option BinaryFile
unfolding write_edges
write_slices zero i slice ev f = some f
write_slices (suc k) i slice ev f =
    let n = slice i - slice (i - 1) in
    elim (if ltb (12 * n) int_bound then write_edges 120000 n (slice (i - 1)) ev f else none) [
      | none ↦ none
      | some f' ↦ write_slices k (suc i) slice ev f'
    ]

abbrev pub bg_slices : ℕ
bg_slices = 2000

-- `transfer_normal_BG_weight`, from the edges on; `none` is also a number of edges that is not an `int`.
unfoldable pub transfer_normal_bg_weight : (size : ℕ) → EdgeList → Option BinaryFile
unfolding write_slices
transfer_normal_bg_weight size ev =
    let f = write_slices bg_slices 1 (slice_task_for_coro size bg_slices) ev empty_file in
    if ltb size int_bound then f else none
