-- ===== src/SliceTests.antt =====
-- Runs of the slices at small inputs.
use gast_co_co.Prelude.{
  ℕ, ◌≡◌, refl, arith, Option, some, none, ◌⊎◌, ◌/◌, ◌==◌, if◌then◌else◌, false,
}
use gast_co_co.Vertex.{CblNode, new_cbl_node}
use gast_co_co.Types.{null}
use gast_co_co.Graph.{CbList, Table}
use gast_co_co.Graph.Load.{new_table}
use gast_co_co.Slice.{
  Bounds, zeros, set_bound, slice_for_vertices, slice_task_for_n, slice_task_for_coro,
  slice_for_coro, slice_for_coro_dynamic, slice_for_coro_with_score, slice_by, slice_loop,
  slice_step, cut_at, chunk_num_record,
}
use gast_co_co.Slice.Even.{
  IsSlicing, IsAligned, IsEqualSlicing, slice_for_vertices-IsAligned, slice_task-IsEqualSlicing,
}
use gast_co_co.Slice.Greedy.{IsGreedy}
use gast_co_co.Slice.Whole.{
  in_sums, out_sums, score_sums, IsUnfinished, slice_for_coro_filled-IsSlicing,
  slice_for_coro-Outcome,
}

-- A graph of two vertices with one chunk and nine chunks.
abbrev node_with : ℕ → CblNode
node_with c = record new_cbl_node { chunk_cnt = c }

abbrev table : Table
table = record (new_table (record { lv1_ncnt = 2; leaf_ncnt = 3; key_cnt = 3 }) 2) {
  node = λ v. if v == 0 then node_with 1 else node_with 9;
}

abbrev graph : CbList
graph = record {
  vertex_num = 2;
  edge_num = 0;
  vertex_table_out = table;
  vertex_table_in = table;
  gt_chain_out = null;
  gt_chain_in = null;
  writelock_out = λ _. false;
  writelock_in = λ _. false;
}

abbrev bounds_or : Option Bounds → Bounds
bounds_or none = zeros
bounds_or (some r) = r

-- `SliceForCoro` for three coroutines finds one bound only: the last slice is empty and ends at 0.
unfinished :
    (bounds_or (slice_for_coro graph 3) 1 ≡ 2)
    × (bounds_or (slice_for_coro graph 3) 2 ≡ 0)
    × (bounds_or (slice_for_coro graph 3) 3 ≡ 0)
unfolding slice_for_coro slice_by slice_loop slice_step cut_at set_bound chunk_num_record new_table
    new_cbl_node
unfinished = (refl, refl, refl)

slice_task-IsEqualSlicing_example :
    IsEqualSlicing 3 0 10 (slice_task_for_coro 10 3) × IsEqualSlicing 3 0 10 (slice_task_for_n 10 3)
slice_task-IsEqualSlicing_example = slice_task-IsEqualSlicing 10 3 (omega arith)

slice_for_vertices-IsAligned_example : IsAligned 64 2 200 (slice_for_vertices 200 2 64)
slice_for_vertices-IsAligned_example =
    slice_for_vertices-IsAligned 200 2 64 (omega arith) (omega arith)

slice_for_coro_filled-IsSlicing_example :
    ((r : Bounds) × (slice_for_coro_dynamic graph 3 ≡ some r)
      × (IsSlicing 3 0 2 r × IsGreedy (out_sums graph) (out_sums graph 2 / 3) 2 2 3 r))
    × ((r : Bounds) × (slice_for_coro_with_score graph 3 ≡ some r)
        × (IsSlicing 3 0 2 r × IsGreedy (score_sums graph) (score_sums graph 2 / 3) 2 2 3 r))
slice_for_coro_filled-IsSlicing_example =
    slice_for_coro_filled-IsSlicing graph 3 (omega arith) (omega arith) (omega arith)

slice_for_coro-Outcome_example :
    (r : Bounds) × (slice_for_coro graph 3 ≡ some r)
    × ((IsSlicing 3 0 2 r × IsGreedy (in_sums graph) (in_sums graph 2 / 3) 2 2 3 r)
        ⊎ (IsUnfinished 3 2 r × IsGreedy (in_sums graph) (in_sums graph 2 / 3) 2 0 3 r))
slice_for_coro-Outcome_example =
    slice_for_coro-Outcome graph 3 (omega arith) (omega arith) (omega arith)
