-- ===== src/Graph/Read.antt =====
-- The readers of the graph, by the units of its vertices.
use gast_co_co.Prelude.{ℕ, ◌<◌, ◌≡◌, List, Option, some, Bool, true, ◌↔◌, lt→ltb}
use mathlib.Core.List.{Memᴰ}
use gast_co_co.Types.{AdjUnit}
use gast_co_co.Tree.Valid.{dests}
use gast_co_co.Vertex.{Sizes}
use gast_co_co.Vertex.Read.{read_edge, get_neighbor}
use gast_co_co.Vertex.Read.Edge.{read_edge-Memᴰ}
use gast_co_co.Vertex.Read.Neighbors.{get_neighbor-dests}
use gast_co_co.Graph.{
  Table, CbList, at_vertex, read_edge_out, read_edge_in, get_neighbor_out, get_neighbor_in,
}
use gast_co_co.Graph.Valid.{IsTable}
use gast_co_co.Graph.Edge.{IsGraph}

-- The result of a search for the edge to `d` among the units `us`.
pub record IsFound (d : ℕ) (us : List AdjUnit) (r : Option Bool) : Type 0 where
  pub answer : Bool
  pub returned : r ≡ some answer
  pub correct : (answer ≡ true) ↔ Memᴰ d (dests us)

table-IsFound :
    (z : Sizes) (us : ℕ → List AdjUnit) (t : Table) (src d : ℕ)
    → IsTable z us t
    → src < t.size
    → IsFound d (us src) (at_vertex (λ s v. read_edge s v d) t src)
table-IsFound z us t src d valid lt =
    let w = valid.vertices src lt in
    let (r, e, c) =
      read_edge-Memᴰ z w.pointer w.type src (us src) t.store (t.node src) d w.vertex in
    record { answer = r; returned = rw (lt→ltb src t.size lt) e; correct = c }

table-dests :
    (z : Sizes) (us : ℕ → List AdjUnit) (t : Table) (src : ℕ)
    → IsTable z us t
    → src < t.size
    → at_vertex get_neighbor t src ≡ some (dests (us src))
table-dests z us t src valid lt =
    let w = valid.vertices src lt in
    rw (lt→ltb src t.size lt)
      (get_neighbor-dests z w.pointer w.type src (us src) t.store (t.node src) w.vertex)

-- `ReadEdgeOut` and `ReadEdgeIn` in a valid graph return, and return true exactly when the vertex at
-- the index has the neighbour.
pub read_edge_both-IsFound :
    (z : Sizes) (outs ins : ℕ → List AdjUnit) (g : CbList) (src dst d : ℕ)
    → IsGraph z outs ins g
    → src < g.vertex_table_out.size
    → dst < g.vertex_table_in.size
    → IsFound d (outs src) (read_edge_out g src d) × IsFound d (ins dst) (read_edge_in g dst d)
unfolding read_edge_out read_edge_in
read_edge_both-IsFound z outs ins g src dst d valid lt lt' = (
  table-IsFound z outs g.vertex_table_out src d valid.out_valid lt,
  table-IsFound z ins g.vertex_table_in dst d valid.in_valid lt',
)

-- `GetNeighborOut` and `GetNeighborIn` in a valid graph return the neighbours of the vertex at the
-- index, in the order in which it keeps them.
pub get_neighbor_both-dests :
    (z : Sizes) (outs ins : ℕ → List AdjUnit) (g : CbList) (src dst : ℕ)
    → IsGraph z outs ins g
    → src < g.vertex_table_out.size
    → dst < g.vertex_table_in.size
    → (get_neighbor_out g src ≡ some (dests (outs src)))
      × (get_neighbor_in g dst ≡ some (dests (ins dst)))
unfolding get_neighbor_out get_neighbor_in
get_neighbor_both-dests z outs ins g src dst valid lt lt' = (
  table-dests z outs g.vertex_table_out src valid.out_valid lt,
  table-dests z ins g.vertex_table_in dst valid.in_valid lt',
)
