-- ===== src/Graph.antt =====
-- `class CBList` of CBList/cblist.hpp: the tables of the vertices for both directions, with the
-- insertion of one edge and the readers. The chunks of a table are reached from its own vertices
-- alone, so each table has its own store.
pub mod Valid
pub mod Insert
pub mod Edge
pub mod Read
pub mod Load
pub mod Construct
pub mod Chain
use gast_co_co.Prelude.{
  ℕ, zero, suc, ◌+◌, ◌-◌, ◌%◌, List, Option, none, some, Bool, true, false, ltb, ◌==◌,
  if◌then◌else◌, ℤ, pos,
}
use gast_co_co.Types.{AdjUnit, NextPointer}
use gast_co_co.Leaf.{leafchunk_level}
use gast_co_co.Tree.{get_leaf_end}
use gast_co_co.Vertex
use gast_co_co.Vertex.{Store, CblNode, Sizes, u32_mod, lv1_address, write_lv1, relink}
use gast_co_co.Vertex.Read.{read_edge, get_neighbor}

-- `VertexTableOut` or `VertexTableIn`, an array of `size` vertices; the null pointer has size 0.
pub record Table : Type 0 where
  pub size : ℕ
  pub node : ℕ → CblNode
  pub store : Store

-- `true` for a mutex that is held.
pub record CbList : Type 0 where
  pub vertex_num : ℕ
  pub edge_num : ℕ
  pub vertex_table_out : Table
  pub vertex_table_in : Table
  pub gt_chain_out : NextPointer
  pub gt_chain_in : NextPointer
  pub writelock_out : ℕ → Bool
  pub writelock_in : ℕ → Bool

-- A vertex of the table and a store in place of the old ones.
unfoldable pub set_node : Table → ℕ → CblNode → Store → Table
set_node t i v s = record { size = t.size; node = λ j. if j == i then v else t.node j; store = s }

-- `VertexTable[src].Insert(NeighboorINFO)`; `none` outside the array.
unfoldable pub insert_vertex : Sizes → ℕ → AdjUnit → Table → Option (Table × ℕ)
unfolding set_node
insert_vertex z src u t =
    if ltb src t.size
    then elim (Vertex.insert z u t.store (t.node src)) [
      | none ↦ none
      | some (s, v, flag) ↦ some (set_node t src v s, flag)
    ]
    else none

-- The pointer and the type in the last chunk of a vertex are overwritten: by its level, in the
-- level-1 chunk or in the last leaf chunk of its tree; a vertex of another level has none.
unfoldable pub link_last : Store → CblNode → NextPointer → ℤ → Option Store
unfolding write_lv1 relink
link_last s v p t =
    if v.level == 1
    then elim (lv1_address v.neighboor) [
      | none ↦ none
      | some a ↦ some (write_lv1 s a (record (s.lv1 a) { next_ptr = p; next_type = t }))
    ]
    else if v.level == 2
    then elim (get_leaf_end v.bpt) [
      | none ↦ none
      | some e ↦ some (record s { heap = relink e p t s.heap })
    ]
    else some s

-- The branch for `flag == 2 && src != 0`: the chain of the vertex before leads to the new first leaf
-- chunk.
unfoldable pub link_previous : (flag src : ℕ) → Table → Option Table
unfolding link_last
link_previous flag zero t = some t
link_previous flag (suc i) t =
    if flag == 2
    then elim (link_last t.store (t.node i) (t.node (suc i)).neighboor (pos leafchunk_level)) [
      | none ↦ none
      | some s ↦ some (record t { store = s })
    ]
    else some t

-- What `InsertEdgeOut` and `InsertEdgeIn` do with their table.
unfoldable pub insert_edge : Sizes → ℕ → AdjUnit → Table → Option (Table × Bool)
unfolding insert_vertex link_previous
insert_edge z src u t = elim (insert_vertex z src u t) [
  | none ↦ none
  | some (t', flag) ↦
      if flag == 0
      then some (t', false)
      else elim (link_previous flag src t') [ none ↦ none | some t'' ↦ some (t'', true) ]
]

-- `++EdgeNum` where an edge was inserted.
abbrev pub count_edge : Bool → ℕ → ℕ
count_edge b n = if b then (n + 1) % u32_mod else n

-- `CBList::InsertEdgeOut`.
unfoldable pub insert_edge_out : Sizes → ℕ → AdjUnit → CbList → Option (CbList × Bool)
unfolding insert_edge
insert_edge_out z src u g = elim (insert_edge z src u g.vertex_table_out) [
  | none ↦ none
  | some (t, b) ↦ some (record g { vertex_table_out = t; edge_num = count_edge b g.edge_num }, b)
]

-- `CBList::InsertEdgeIn`.
unfoldable pub insert_edge_in : Sizes → ℕ → AdjUnit → CbList → Option (CbList × Bool)
unfolding insert_edge
insert_edge_in z src u g = elim (insert_edge z src u g.vertex_table_in) [
  | none ↦ none
  | some (t, b) ↦ some (record g { vertex_table_in = t; edge_num = count_edge b g.edge_num }, b)
]

abbrev pub set_lock : (ℕ → Bool) → ℕ → Bool → ℕ → Bool
set_lock locks i b j = if j == i then b else locks j

-- `CBList::InsertEdgeOutVLock`: under the lock of its vertex, without the link of the vertex before.
-- `none` is also the wait for a lock that is held.
unfoldable pub insert_edge_out_vlock : Sizes → ℕ → AdjUnit → CbList → Option (CbList × Bool)
unfolding insert_vertex
insert_edge_out_vlock z src u g =
    if g.writelock_out src
    then none
    else let locked = set_lock g.writelock_out src true in
      elim (insert_vertex z src u g.vertex_table_out) [
        | none ↦ none
        | some (t, flag) ↦
            let ok = if flag == 0 then false else true in
            some (
              record g {
                vertex_table_out = t;
                edge_num = count_edge ok g.edge_num;
                writelock_out = set_lock locked src false;
              },
              ok,
            )
      ]

-- `CBList::InsertEdgeInVLock`.
unfoldable pub insert_edge_in_vlock : Sizes → ℕ → AdjUnit → CbList → Option (CbList × Bool)
unfolding insert_vertex
insert_edge_in_vlock z src u g =
    if g.writelock_in src
    then none
    else let locked = set_lock g.writelock_in src true in
      elim (insert_vertex z src u g.vertex_table_in) [
        | none ↦ none
        | some (t, flag) ↦
            let ok = if flag == 0 then false else true in
            some (
              record g {
                vertex_table_in = t;
                edge_num = count_edge ok g.edge_num;
                writelock_in = set_lock locked src false;
              },
              ok,
            )
      ]

-- A reader of a vertex, at an index of the table; `none` outside the array.
abbrev pub at_vertex {ℓ} : {A : Type ℓ} → (Store → CblNode → Option A) → Table → ℕ → Option A
at_vertex f t src = if ltb src t.size then f t.store (t.node src) else none

unfoldable pub read_edge_out : CbList → ℕ → ℕ → Option Bool
read_edge_out g src dst = at_vertex (λ s v. read_edge s v dst) g.vertex_table_out src

unfoldable pub read_edge_in : CbList → ℕ → ℕ → Option Bool
read_edge_in g src dst = at_vertex (λ s v. read_edge s v dst) g.vertex_table_in src

unfoldable pub get_neighbor_out : CbList → ℕ → Option (List ℕ)
get_neighbor_out g src = at_vertex get_neighbor g.vertex_table_out src

unfoldable pub get_neighbor_in : CbList → ℕ → Option (List ℕ)
get_neighbor_in g src = at_vertex get_neighbor g.vertex_table_in src
