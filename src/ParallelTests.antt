-- ===== src/ParallelTests.antt =====
-- Runs of the slices and of the parallel loops at small inputs.
use gast_co_co.Prelude.{ℕ, zero, suc, ◌%◌, ◌≡◌, refl, List, [], ◌∷◌, Bool, ltb, ◌==◌, ◌&&◌}
use gast_co_co.Slice.{Bounds, slice_for_vertices, slice_task_for_n, set_bound, step_bounds}
use gast_co_co.Parallel.{
  State, Loop, run, step, step_phase, set_phase, fetch_add, set_stealing, process,
  init_thread_state, process_edges_all_graph,
}

-- Thread 0 acts `m` times and then thread 1 `n` times.
abbrev one_by_one : (m n : ℕ) → List ℕ
one_by_one zero zero = []
one_by_one zero (suc n) = 1 ∷ one_by_one zero n
one_by_one (suc m) n = 0 ∷ one_by_one m n

-- Two threads that take turns.
abbrev turns : ℕ → List ℕ
turns zero = []
turns (suc n) = 0 ∷ 1 ∷ turns n

-- Two slices of three vertices.
abbrev two_slices : Bounds
two_slices = slice_task_for_n 6 2

-- Thread 0 takes all chunks.
stolen :
    (run (process_edges_all_graph 2) (one_by_one 20 9) (init_thread_state two_slices)).processed
    ≡ 5 ∷ 4 ∷ 3 ∷ 2 ∷ 1 ∷ 0 ∷ []
unfolding run step step_phase set_phase fetch_add set_stealing process init_thread_state
    slice_task_for_n set_bound step_bounds
stolen = refl

abbrev end_of : Loop → State
end_of c = run c (one_by_one 20 9) (init_thread_state two_slices)

-- The first range of these is empty, so thread 0 tries that of thread 1.
abbrev vertices_end_of : Loop → State
vertices_end_of c = run c (turns 30) (init_thread_state (slice_for_vertices 6 2 64))

abbrev even : ℕ → Bool
even v = v % 2 == 0

abbrev even_below : ℕ → Bool
even_below v = ltb v 6 && even v
