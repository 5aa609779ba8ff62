-- ===== src/Graph/Construct.antt =====
-- The constructors of `CBList` from the numbers of vertices and edges and a path, one for each
-- direction: they read the file with `LoadGraphFromBGBinaryFile`, insert its edges in order, and link the
-- chunks with the loop of `ConnectGTChain`.
pub mod Built
use gast_co_co.Prelude.{ℕ, zero, suc, List, [], ◌∷◌, Option, none, some, map, ltb, if◌then◌else◌}
use gast_co_co.Types.{Gedge}
use gast_co_co.GraphIo.{Fresh, BinaryFile, EdgeList, load_graph_from_bg_binary_file}
use gast_co_co.Vertex.{int_bound, Sizes}
use gast_co_co.Graph.Load.{Insertion, out_insertion, in_insertion, Direction, load_direction}

-- The edges of an array, `n` of them from `i` on.
abbrev pub list_of : EdgeList → (i n : ℕ) → List Gedge
list_of es i zero = []
list_of es i (suc n) = es i ∷ list_of es (suc i) n

-- The body of a constructor; what differs is the vertex and the unit of an edge. `none` is
-- also a number of vertices that the index `int i` does not reach.
unfoldable pub build :
    Fresh → Sizes → (Gedge → Insertion) → (vertex_num edge_num : ℕ) → BinaryFile → Option Direction
unfolding load_direction load_graph_from_bg_binary_file
build fresh z insertion vertex_num edge_num f =
    elim (if ltb vertex_num int_bound
      then load_graph_from_bg_binary_file fresh edge_num f
      else none) [
        | none ↦ none
        | some es ↦ load_direction z (map insertion (list_of es 0 edge_num)) vertex_num
      ]

-- `CBList(VertexID, EdgeID, std::string)`: `VertexTableOut` and `GTChainOut`.
unfoldable pub cb_list_out :
    Fresh → Sizes → (vertex_num edge_num : ℕ) → BinaryFile → Option Direction
unfolding build
cb_list_out fresh z vertex_num edge_num f = build fresh z out_insertion vertex_num edge_num f

-- `CBList(VertexID, EdgeID, std::string, bool)`: `VertexTableIn` and `GTChainIn`.
unfoldable pub cb_list_in :
    Fresh → Sizes → (vertex_num edge_num : ℕ) → BinaryFile → Option Direction
unfolding build
cb_list_in fresh z vertex_num edge_num f = build fresh z in_insertion vertex_num edge_num f
