-- ===== src/Parallel/Loops.antt =====
-- What the parallel loops of CBList/graph_coro.hpp do with the vertices, over all interleavings.
use gast_co_co.Prelude.{ℕ, ◌≡◌, some}
use gast_co_co.Parallel.{
  Loop, process_edges_all_graph, coro_process_edges_all_graph, coro_process_edges,
}

-- The loops over edges, those of coroutines with as many of these as they need.
pub data IsEdgeLoop (threads : ℕ) (c : Loop) : Type 0 where
  all_graph : process_edges_all_graph threads ≡ c → IsEdgeLoop threads c
  coro_all_graph :
      (coroutines : ℕ)
      → coro_process_edges_all_graph threads coroutines ≡ some c
      → IsEdgeLoop threads c
  coro : (coroutines : ℕ) → coro_process_edges threads coroutines ≡ some c → IsEdgeLoop threads c
