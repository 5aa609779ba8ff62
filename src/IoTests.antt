-- ===== src/IoTests.antt =====
-- Runs of the readers, the writers and the renumbering of edges at small inputs.
use gast_co_co.Prelude.{
  ℕ, ◌+◌, ◌*◌, ◌<◌, ◌≡◌, refl, arith, Option, some, none, List, [], ◌∷◌, length, leb, if◌then◌else◌,
  ltb,
}
use gast_co_co.Types.{Gedge}
use gast_co_co.GraphIo.{
  Fresh, read, set_edge, store_edges, BinaryFile, EdgeList, Line, comment, numbers,
  load_graph_from_binary_file, load_graph_from_bg_binary_file, load_graph_from_file,
  load_graph_from_file_part, part_edges, skip_lines,
}
use gast_co_co.GraphIo.Binary.{edge_at, load_binary-edges}
use gast_co_co.GraphIo.Text.{
  edges_of, nth_or, load_graph_from_file-edges, lines_behind, weighed,
  load_graph_from_file_part-edges,
}
use gast_co_co.TransBinary.{transfer_normal_bg_weight, transfer_normal_weight}
use gast_co_co.TransBinary.RoundTrip.{ReadBack, transfer-roundtrip}
use gast_co_co.VertexRemap.{vertex_remap}
use gast_co_co.VertexRemap.Restore.{IsRenamed, vertex_remap-roundtrip}

abbrev file : BinaryFile
file = record { size = 12; word = λ k. k * k }

-- New memory that holds sevens.
abbrev sevens : Fresh
sevens = record {
  edges = λ k. record { start_vertex = 7; end_vertex = 7; value = 7 };
  words = λ i k. 7;
}

load_binary-edges_example :
    ((es : EdgeList) × (load_graph_from_binary_file sevens 5 file ≡ some es)
      × ((k : ℕ) → k < 5 → 3 * k + 2 < 12 → es k ≡ edge_at file k))
    × ((es : EdgeList) × (load_graph_from_bg_binary_file sevens 5 file ≡ some es)
        × ((k : ℕ) → k < 5 → 3 * k + 2 < 12 → es k ≡ edge_at file k))
load_binary-edges_example = load_binary-edges sevens 5 file (omega arith)

abbrev cell : Option EdgeList → ℕ → Option Gedge
cell none k = none
cell (some es) k = some (es k)

-- The file is one edge short, and the reader returns what its array held.
short_file :
    cell (load_graph_from_binary_file sevens 5 file) 4
    ≡ some (record { start_vertex = 7; end_vertex = 7; value = 7 })
unfolding load_graph_from_binary_file read store_edges set_edge
short_file = refl

abbrev edge : ℕ → Gedge
edge k = record { start_vertex = k; end_vertex = k + 1; value = 7 }

transfer-roundtrip_example :
    ((f : BinaryFile) × (transfer_normal_bg_weight 5 edge ≡ some f) × ReadBack sevens 5 edge f)
    × ((f : BinaryFile) × (transfer_normal_weight 5 edge ≡ some f) × ReadBack sevens 5 edge f)
transfer-roundtrip_example = transfer-roundtrip sevens 5 edge (omega arith)

abbrev lines : List Line
lines =
    comment ∷ numbers 10 20 3 ∷ numbers 20 30 4 ∷ comment ∷ numbers 10 30 5 ∷ numbers 40 10 6 ∷ []

load_graph_from_file-edges_example : load_graph_from_file sevens 4 lines ≡ (
    if leb (length (edges_of lines)) 4 then some (nth_or sevens.edges 0 (edges_of lines)) else none)
load_graph_from_file-edges_example = load_graph_from_file-edges sevens 4 lines

-- From the second edge on, `LoadGraphFromFilePart` misses it and goes past `endline`.
part :
    load_graph_from_file_part (λ k. k) lines 1 2 ≡ edges_of (numbers 10 30 0 ∷ numbers 40 10 1 ∷ [])
unfolding load_graph_from_file_part part_edges skip_lines
part = refl

load_graph_from_file_part-edges_example :
    load_graph_from_file_part (λ k. k) lines 1 2
    ≡ (if ltb 1 2 then weighed (λ k. k) 0 (edges_of (lines_behind 1 lines)) else [])
load_graph_from_file_part-edges_example =
    load_graph_from_file_part-edges (λ k. k) lines 1 2 (omega arith)

vertex_remap-roundtrip_example :
    (written : List Gedge) × (vertex_remap (edges_of lines) ≡ some written)
    × IsRenamed (edges_of lines) written
vertex_remap-roundtrip_example = vertex_remap-roundtrip (edges_of lines) (omega arith)
