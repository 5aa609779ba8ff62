-- ===== src/Graph/Load.antt =====
-- The constructors of `CBList` from the list of edges on, and `AddEdgeBatchOut` and `AddEdgeBatchIn`
-- of CBList/cblist.hpp. The list is what the readers of other/graph_io.hpp return. A parallel loop
-- inserts its edges in some order, each insertion under the lock of its vertex.
pub mod Order
pub mod Chained
pub mod Correct
pub mod Batch
use gast_co_co.Prelude.{
  ℕ, zero, suc, ◌+◌, ◌-◌, take, drop, List, [], ◌∷◌, ◌++◌, Option, none, some, true, false, ◌==◌,
  if◌then◌else◌, map,
}
use gast_co_co.Types.{AdjUnit, adj_unit, Gedge, GedgeNoWeight, lv1_chunk, NextPointer, null}
use gast_co_co.Leaf.{new_leaf_chunk}
use gast_co_co.Vertex.{Store, Sizes, new_cbl_node, new_lv1_chunk}
use gast_co_co.Graph.{Table, CbList, insert_vertex}
use gast_co_co.Graph.Chain.{connect_gt_chain}

pub data GraphMode : Type 0 where
  pull : GraphMode
  push : GraphMode
  mixed : GraphMode

-- `new CBLNode[VertexNum]` with `new Lv1Chunk[VertexNum]`, and the loop that gives vertex `v_i` the
-- chunk `Lv1Clist + v_i`.
unfoldable pub new_table : Sizes → ℕ → Table
unfolding new_cbl_node
new_table z n = record {
  size = n;
  node = λ i. record new_cbl_node { neighboor = lv1_chunk i };
  store = record {
    heap = record { chunk = λ _. new_leaf_chunk z.leaf_ncnt; fresh = 0 };
    lv1 = λ _. new_lv1_chunk z.lv1_ncnt;
  };
}

-- The vertex that an edge is inserted at, and the unit.
abbrev pub Insertion : Type 0
Insertion = ℕ × AdjUnit

abbrev pub out_insertion : Gedge → Insertion
out_insertion e = (e.start_vertex, adj_unit e.end_vertex e.value)

abbrev pub in_insertion : Gedge → Insertion
in_insertion e = (e.end_vertex, adj_unit e.start_vertex e.value)

-- The loop of insertions over a list; `none` where one of them has no result.
unfoldable pub load : Sizes → List Insertion → Table → Option Table
load z [] t = some t
load z ((src, u) ∷ es) t = elim (insert_vertex z src u t) [
  | none ↦ none
  | some (t', flag) ↦ load z es t'
]

-- A table and its chain. One that the constructor does not make is a null pointer, and its chain is not
-- set.
abbrev pub Direction : Type 0
Direction = Table × NextPointer

abbrev pub not_made : Sizes → Direction
not_made z = (new_table z 0, null)

-- The insertions of one direction, and the chain.
unfoldable pub load_direction : Sizes → List Insertion → ℕ → Option Direction
unfolding load connect_gt_chain
load_direction z is n = elim (load z is (new_table z n)) [
  | none ↦ none
  | some t ↦ connect_gt_chain z t
]

-- The loop for `Mixed`, which inserts each edge in both tables.
unfoldable pub load_both : Sizes → List Gedge → Table → Table → Option (Table × Table)
load_both z [] out into = some (out, into)
load_both z (e ∷ es) out into =
    elim (insert_vertex z e.start_vertex (adj_unit e.end_vertex e.value) out) [
      | none ↦ none
      | some (out', flag) ↦
          elim (insert_vertex z e.end_vertex (adj_unit e.start_vertex e.value) into) [
            | none ↦ none
            | some (into', flag') ↦ load_both z es out' into'
          ]
    ]

-- The constructor with a mode, from the list of edges on: what it makes for the outgoing and for the
-- incoming edges. `none` is also a call of `ConnectGTChain` for no vertex.
unfoldable pub load_graph : Sizes → GraphMode → ℕ → List Gedge → Option (Direction × Direction)
unfolding load_direction load_both connect_gt_chain
load_graph z pull n es = elim (load_direction z (map in_insertion es) n) [
  | none ↦ none
  | some into ↦ some (not_made z, into)
]
load_graph z push n es = elim (load_direction z (map out_insertion es) n) [
  | none ↦ none
  | some out ↦ some (out, not_made z)
]
load_graph z mixed n es = elim (load_both z es (new_table z n) (new_table z n)) [
  | none ↦ none
  | some (out, into) ↦ elim (connect_gt_chain z into) [
    | none ↦ none
    | some into' ↦ elim (connect_gt_chain z out) [ none ↦ none | some out' ↦ some (out', into') ]
  ]
]

-- The loop of `AddEdgeBatchOut` and of `AddEdgeBatchIn` that collects the bounds of the parts, from
-- index `i` on: a part ends where `start_vertex` changes.
unfoldable pub part_starts : (cur_src i : ℕ) → List GedgeNoWeight → List ℕ
part_starts cur i [] = i ∷ []
part_starts cur i (e ∷ es) =
    let rest = part_starts e.start_vertex (suc i) es in
    let rest' = part_starts cur (suc i) es in if cur == e.start_vertex then rest' else i ∷ rest

-- `parts`; the code reads the first edge of the list, which has to be there.
unfoldable pub parts : List GedgeNoWeight → Option (List ℕ)
unfolding part_starts
parts [] = none
parts (e ∷ es) = some (0 ∷ part_starts e.start_vertex 1 es)

abbrev pub batch_out_insertion : GedgeNoWeight → Insertion
batch_out_insertion e = (e.start_vertex, adj_unit e.end_vertex 0)

abbrev pub batch_in_insertion : GedgeNoWeight → Insertion
batch_in_insertion e = (e.end_vertex, adj_unit e.start_vertex 0)

-- The loop over the parts: the insertions between each bound and the next. The parts run in parallel
-- in the code; here they run in their order.
unfoldable pub add_parts : Sizes → List Insertion → List ℕ → Table → Option Table
unfolding load
add_parts z es [] t = some t
add_parts z es (i ∷ []) t = some t
add_parts z es (i ∷ j ∷ ps) t = elim (load z (take (j - i) (drop i es)) t) [
  | none ↦ none
  | some t' ↦ add_parts z es (j ∷ ps) t'
]

-- `CBList::AddEdgeBatchOut` and `CBList::AddEdgeBatchIn`, for the first `edge_count` edges of the list.
unfoldable pub add_edge_batch_out : Sizes → List GedgeNoWeight → CbList → Option CbList
unfolding parts add_parts
add_edge_batch_out z es g = elim (parts es) [
  | none ↦ none
  | some ps ↦ elim (add_parts z (map batch_out_insertion es) ps g.vertex_table_out) [
    | none ↦ none
    | some t ↦ some (record g { vertex_table_out = t })
  ]
]

unfoldable pub add_edge_batch_in : Sizes → List GedgeNoWeight → CbList → Option CbList
unfolding parts add_parts
add_edge_batch_in z es g = elim (parts es) [
  | none ↦ none
  | some ps ↦ elim (add_parts z (map batch_in_insertion es) ps g.vertex_table_in) [
    | none ↦ none
    | some t ↦ some (record g { vertex_table_in = t })
  ]
]
