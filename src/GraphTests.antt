-- ===== src/GraphTests.antt =====
-- The theorems on the graph at concrete inputs: four vertices, of which the first has three neighbours
-- and so a tree.
use gast_co_co.Prelude.{
  map, ℕ, ◌+◌, ◌<◌, ◌≡◌, refl, sym, ap, subst, ◌∙◌, List, [], ◌∷◌, ◌++◌, arith, ◌==◌, ◌%◌, Option,
  none, some, true, false, inl, inr, Bool-cases, length, if◌then◌else◌,
}
use gast_co_co.Prelude.Distinct.{Distinct}
use gast_co_co.Types.{AdjUnit, adj_unit, Gedge, GedgeNoWeight, null}
use gast_co_co.Leaf.Insert.{insert_sorted}
use gast_co_co.Leaf
use gast_co_co.Tree
use gast_co_co.Tree.{empty_tree}
use gast_co_co.Tree.Valid.{dests}
use gast_co_co.Vertex
use gast_co_co.Vertex.{Sizes, CblNode, u32_mod}
use gast_co_co.Vertex.Convert.{insert_all_sorted}
use gast_co_co.Vertex.Valid.{IsUsable}
use gast_co_co.Graph
use gast_co_co.GraphIo.{Fresh, BinaryFile}
use gast_co_co.Graph.Construct.{cb_list_out, cb_list_in}
use gast_co_co.Graph.Construct.Built.{file_edges, cb_list-IsBuilt}
use gast_co_co.Graph.{
  Table, CbList, insert_edge_out, insert_edge_in, insert_edge_out_vlock, insert_edge_in_vlock,
  read_edge_out, read_edge_in, get_neighbor_out, get_neighbor_in,
}
use gast_co_co.Graph.Valid.{IsTable}
use gast_co_co.Graph.Edge.{
  IsGraph, IsNew, inserted, insert_edge_out-IsGraph, insert_edge_in-IsGraph,
  insert_edge_out_vlock-IsGraph, insert_edge_in_vlock-IsGraph,
}
use gast_co_co.Graph.Read.{IsFound, read_edge_both-IsFound, get_neighbor_both-dests}
use gast_co_co.Graph.Load.{
  Insertion, batch_out_insertion, batch_in_insertion, add_edge_batch_out, add_edge_batch_in, load,
  new_table, push, load_graph, Direction, out_insertion, in_insertion,
}
use gast_co_co.Graph.Load.Order.{IsLoadable, units_at, loaded}
use gast_co_co.Graph.Load.Chained.{IsBuilt}
use gast_co_co.Graph.Load.Correct.{
  out_insertions, in_insertions, IsDirection, makes_out, makes_in, load-IsTable, new_table-IsTable,
  load_graph-IsLoaded,
}
use gast_co_co.Graph.Load.Batch.{add_edge_batch_out-IsGraph, add_edge_batch_in-IsGraph}
use gast_co_co.Graph.Chain.{connect_gt_chain, one_iter}
use gast_co_co.Graph.Chain.Traverse.{chunk_total, range_pairs}
use gast_co_co.Graph.Chain.Whole.{connect_gt_chain-pairs}

abbrev sizes : Sizes
sizes = record { lv1_ncnt = 2; leaf_ncnt = 3; key_cnt = 3 }

sizes-IsUsable : IsUsable sizes
sizes-IsUsable = record { lv1_room = omega arith; leaf_room = omega arith }

abbrev edges : List Gedge
edges =
    record { start_vertex = 0; end_vertex = 3; value = 5 }
    ∷ record { start_vertex = 0; end_vertex = 1; value = 6 }
    ∷ record { start_vertex = 0; end_vertex = 2; value = 7 }
    ∷ record { start_vertex = 2; end_vertex = 0; value = 8 }
    ∷ []

abbrev insertions : List Insertion
insertions = out_insertions push edges

insertions-Distinct : (v : ℕ) → Distinct (dests (units_at v insertions ++ []))
insertions-Distinct v = elim (Bool-cases (v == 0)) [
  | inl e ↦ elim (Bool-cases (v == 2)) [
    | inl e' ↦ absurd (ground arith)
    | inr e' ↦ rw (e, e') (omega arith)
  ]
  | inr e ↦ elim (Bool-cases (v == 2)) [ inl e' ↦ rw (e, e') (tt, tt) | inr e' ↦ rw (e, e') tt ]
]

insertions-room : (v : ℕ) → length (units_at v insertions ++ []) < u32_mod
insertions-room v = elim (Bool-cases (v == 0)) [
  | inl e ↦ elim (Bool-cases (v == 2)) [
    | inl e' ↦ rw (e, e') (omega arith)
    | inr e' ↦ rw (e, e') (omega arith)
  ]
  | inr e ↦ elim (Bool-cases (v == 2)) [
    | inl e' ↦ rw (e, e') (omega arith)
    | inr e' ↦ rw (e, e') (omega arith)
  ]
]

insertions-IsLoadable : IsLoadable 4 (λ _. []) insertions
insertions-IsLoadable = record {
  in_range = (omega arith, (omega arith, (omega arith, (omega arith, tt))));
  distinct = insertions-Distinct;
  room = insertions-room;
}

none-IsLoadable : IsLoadable 4 (λ _. []) []
none-IsLoadable = record { in_range = tt; distinct = λ v. tt; room = λ v. omega arith }

load_graph-IsLoaded_example :
    (out : Direction) × (into : Direction) × (load_graph sizes push 4 edges ≡ some (out, into))
    × IsDirection sizes 3 (makes_out push) (out_insertions push edges) out
    × IsDirection sizes 3 (makes_in push) (in_insertions push edges) into
load_graph-IsLoaded_example =
    load_graph-IsLoaded sizes push 3 edges sizes-IsUsable insertions-IsLoadable (omega arith)
      none-IsLoadable (omega arith)

load-IsTable_example :
    (t' : Table) × (load sizes insertions (new_table sizes 4) ≡ some t')
    × IsTable sizes (loaded sizes insertions (λ _. [])) t'
    × (t'.size ≡ 4)
unfolding new_table
load-IsTable_example =
    load-IsTable sizes insertions (λ _. []) (new_table sizes 4) sizes-IsUsable
      (new_table-IsTable sizes 4) insertions-IsLoadable

-- The table that the definitions compute.
abbrev table_or : Option Table → Table
table_or none = new_table sizes 0
table_or (some t) = t

abbrev outs_table : Table
outs_table = table_or (load sizes insertions (new_table sizes 4))

abbrev outs : ℕ → List AdjUnit
outs = loaded sizes insertions (λ _. [])

loads :
    (t' : Table) × (load sizes insertions (new_table sizes 4) ≡ some t')
    × IsTable sizes outs t'
    × (t'.size ≡ 4)
unfolding new_table
loads =
    load-IsTable sizes insertions (λ _. []) (new_table sizes 4) sizes-IsUsable
      (new_table-IsTable sizes 4) insertions-IsLoadable

outs_valid : IsTable sizes outs outs_table
outs_valid = subst (λ o. IsTable sizes outs (table_or o)) (sym loads.1) loads.2

outs_size : outs_table.size ≡ 4
outs_size = ap (λ (o : Option Table). (table_or o).size) loads.1 ∙ loads.3

outs_zero : dests (outs 0) ≡ 1 ∷ 2 ∷ 3 ∷ []
unfolding insert_sorted insert_all_sorted
outs_zero = refl

abbrev graph : CbList
graph = record {
  vertex_num = 4;
  edge_num = 4;
  vertex_table_out = outs_table;
  vertex_table_in = new_table sizes 4;
  gt_chain_out = null;
  gt_chain_in = null;
  writelock_out = λ _. false;
  writelock_in = λ _. false;
}

graph-IsGraph : IsGraph sizes outs (λ _. []) graph
graph-IsGraph = record { out_valid = outs_valid; in_valid = new_table-IsTable sizes 4 }

IsNew-out : IsNew outs graph.vertex_table_out 0 (adj_unit 9 1)
unfolding insert_sorted insert_all_sorted
IsNew-out = record { bound = omega (arith, outs_size); absent = omega arith; room = omega arith }

IsNew-in : IsNew (λ _. []) graph.vertex_table_in 3 (adj_unit 0 5)
unfolding new_table
IsNew-in = record { bound = omega arith; absent = tt; room = omega arith }

insert_edge_out-IsGraph_example :
    (g' : CbList) × (insert_edge_out sizes 0 (adj_unit 9 1) graph ≡ some (g', true))
    × IsGraph sizes (inserted sizes 0 (adj_unit 9 1) outs) (λ _. []) g'
    × (g'.edge_num ≡ (graph.edge_num + 1) % u32_mod)
insert_edge_out-IsGraph_example =
    insert_edge_out-IsGraph sizes outs (λ _. []) graph 0 (adj_unit 9 1) sizes-IsUsable graph-IsGraph
      IsNew-out

insert_edge_in-IsGraph_example :
    (g' : CbList) × (insert_edge_in sizes 3 (adj_unit 0 5) graph ≡ some (g', true))
    × IsGraph sizes outs (inserted sizes 3 (adj_unit 0 5) (λ _. [])) g'
    × (g'.edge_num ≡ (graph.edge_num + 1) % u32_mod)
insert_edge_in-IsGraph_example =
    insert_edge_in-IsGraph sizes outs (λ _. []) graph 3 (adj_unit 0 5) sizes-IsUsable graph-IsGraph
      IsNew-in

insert_edge_out_vlock-IsGraph_example :
    (g' : CbList) × (insert_edge_out_vlock sizes 0 (adj_unit 9 1) graph ≡ some (g', true))
    × IsGraph sizes (inserted sizes 0 (adj_unit 9 1) outs) (λ _. []) g'
    × (g'.edge_num ≡ (graph.edge_num + 1) % u32_mod)
    × (g'.writelock_out ≡ graph.writelock_out)
insert_edge_out_vlock-IsGraph_example =
    insert_edge_out_vlock-IsGraph sizes outs (λ _. []) graph 0 (adj_unit 9 1) sizes-IsUsable
      graph-IsGraph IsNew-out refl

insert_edge_in_vlock-IsGraph_example :
    (g' : CbList) × (insert_edge_in_vlock sizes 3 (adj_unit 0 5) graph ≡ some (g', true))
    × IsGraph sizes outs (inserted sizes 3 (adj_unit 0 5) (λ _. [])) g'
    × (g'.edge_num ≡ (graph.edge_num + 1) % u32_mod)
    × (g'.writelock_in ≡ graph.writelock_in)
insert_edge_in_vlock-IsGraph_example =
    insert_edge_in_vlock-IsGraph sizes outs (λ _. []) graph 3 (adj_unit 0 5) sizes-IsUsable
      graph-IsGraph IsNew-in refl

in_bound : 3 < graph.vertex_table_in.size
unfolding new_table
in_bound = omega arith

read_edge_both-IsFound_example :
    IsFound 2 (outs 0) (read_edge_out graph 0 2) × IsFound 2 [] (read_edge_in graph 3 2)
read_edge_both-IsFound_example =
    read_edge_both-IsFound sizes outs (λ _. []) graph 0 3 2 graph-IsGraph IsNew-out.bound in_bound

get_neighbor_both-dests_example :
    (get_neighbor_out graph 0 ≡ some (dests (outs 0))) × (get_neighbor_in graph 3 ≡ some [])
get_neighbor_both-dests_example =
    get_neighbor_both-dests sizes outs (λ _. []) graph 0 3 graph-IsGraph IsNew-out.bound in_bound

outs_single : (outs_table.node 3).chunk_cnt ≡ 1
unfolding load new_table Graph.insert_vertex Graph.set_node Vertex.insert Vertex.new_cbl_node
    Vertex.convert Vertex.move_units Vertex.finish Vertex.insert_all Vertex.push Vertex.write_lv1
    Vertex.new_lv1_chunk Vertex.relink Tree.insert empty_tree Tree.insert_at Tree.alloc
    Leaf.new_leaf_chunk Tree.find Tree.plug Leaf.insert Leaf.shift_up Leaf.scan Tree.write
    Tree.get_leaf_start Tree.get_leaf_end Tree.leaf_start Tree.leaf_end
outs_single = refl

connect_gt_chain-pairs_example :
    (t' : Table) × (connect_gt_chain sizes outs_table ≡ some (t', (outs_table.node 0).neighboor))
    × IsTable sizes outs t'
    × (one_iter (chunk_total t' 0 4 + 0) t' 0 4 ≡ some (range_pairs outs 0 4))
connect_gt_chain-pairs_example =
    connect_gt_chain-pairs sizes outs outs_table 3 0 3 0 outs_size (omega arith) outs_valid
      outs_single

-- A batch of two parts for the empty graph.
abbrev batch_rest : List GedgeNoWeight
batch_rest =
    record { start_vertex = 0; end_vertex = 2 } ∷ record { start_vertex = 3; end_vertex = 1 } ∷ []

abbrev batch_first : GedgeNoWeight
batch_first = record { start_vertex = 0; end_vertex = 1 }

abbrev empty_graph : CbList
empty_graph = record graph { vertex_table_out = new_table sizes 4; edge_num = 0 }

empty-IsGraph : IsGraph sizes (λ _. []) (λ _. []) empty_graph
empty-IsGraph = record {
  out_valid = new_table-IsTable sizes 4;
  in_valid = new_table-IsTable sizes 4;
}

out_batch-Distinct :
    (v : ℕ)
    → Distinct (dests (units_at v (map batch_out_insertion (batch_first ∷ batch_rest)) ++ []))
out_batch-Distinct v = elim (Bool-cases (v == 0)) [
  | inl e ↦ elim (Bool-cases (v == 3)) [
    | inl e' ↦ absurd (ground arith)
    | inr e' ↦ rw (e, e') (omega arith)
  ]
  | inr e ↦ elim (Bool-cases (v == 3)) [ inl e' ↦ rw (e, e') (tt, tt) | inr e' ↦ rw (e, e') tt ]
]

out_batch-IsLoadable : IsLoadable 4 (λ _. []) (map batch_out_insertion (batch_first ∷ batch_rest))
out_batch-IsLoadable = record {
  in_range = (omega arith, (omega arith, (omega arith, tt)));
  distinct = out_batch-Distinct;
  room = λ v. elim (Bool-cases (v == 0)) [
    | inl e ↦ elim (Bool-cases (v == 3)) [
      | inl e' ↦ rw (e, e') (omega arith)
      | inr e' ↦ rw (e, e') (omega arith)
    ]
    | inr e ↦ elim (Bool-cases (v == 3)) [
      | inl e' ↦ rw (e, e') (omega arith)
      | inr e' ↦ rw (e, e') (omega arith)
    ]
  ];
}

add_edge_batch_out-IsGraph_example :
    (g' : CbList) × (add_edge_batch_out sizes (batch_first ∷ batch_rest) empty_graph ≡ some g')
    × IsGraph sizes
        (loaded sizes (map batch_out_insertion (batch_first ∷ batch_rest)) (λ _. []))
        (λ _. [])
        g'
    × (g'.edge_num ≡ 0)
unfolding new_table
add_edge_batch_out-IsGraph_example =
    add_edge_batch_out-IsGraph sizes (λ _. []) (λ _. []) empty_graph batch_first batch_rest
      sizes-IsUsable empty-IsGraph out_batch-IsLoadable

in_batch-Distinct :
    (v : ℕ)
    → Distinct (dests (units_at v (map batch_in_insertion (batch_first ∷ batch_rest)) ++ []))
in_batch-Distinct v = elim (Bool-cases (v == 1)) [
  | inl e ↦ elim (Bool-cases (v == 2)) [
    | inl e' ↦ absurd (ground arith)
    | inr e' ↦ rw (e, e') (omega arith)
  ]
  | inr e ↦ elim (Bool-cases (v == 2)) [ inl e' ↦ rw (e, e') (tt, tt) | inr e' ↦ rw (e, e') tt ]
]

in_batch-IsLoadable : IsLoadable 4 (λ _. []) (map batch_in_insertion (batch_first ∷ batch_rest))
in_batch-IsLoadable = record {
  in_range = (omega arith, (omega arith, (omega arith, tt)));
  distinct = in_batch-Distinct;
  room = λ v. elim (Bool-cases (v == 1)) [
    | inl e ↦ elim (Bool-cases (v == 2)) [
      | inl e' ↦ rw (e, e') (omega arith)
      | inr e' ↦ rw (e, e') (omega arith)
    ]
    | inr e ↦ elim (Bool-cases (v == 2)) [
      | inl e' ↦ rw (e, e') (omega arith)
      | inr e' ↦ rw (e, e') (omega arith)
    ]
  ];
}

add_edge_batch_in-IsGraph_example :
    (g' : CbList) × (add_edge_batch_in sizes (batch_first ∷ batch_rest) empty_graph ≡ some g')
    × IsGraph sizes
        (λ _. [])
        (loaded sizes (map batch_in_insertion (batch_first ∷ batch_rest)) (λ _. []))
        g'
    × (g'.edge_num ≡ 0)
unfolding new_table
add_edge_batch_in-IsGraph_example =
    add_edge_batch_in-IsGraph sizes (λ _. []) (λ _. []) empty_graph batch_first batch_rest
      sizes-IsUsable empty-IsGraph in_batch-IsLoadable

abbrev one_edge : BinaryFile
one_edge = record { size = 3; word = λ k. if k == 0 then 0 else if k == 1 then 1 else 5 }

single-IsLoadable : (n src : ℕ) (u : AdjUnit) → src < n → IsLoadable n (λ _. []) ((src, u) ∷ [])
single-IsLoadable n src u lt = record {
  in_range = (lt, tt);
  distinct = λ v. elim (Bool-cases (v == src)) [ inl q ↦ rw q (tt, tt) | inr q ↦ rw q tt ];
  room =
      λ v. elim (Bool-cases (v == src)) [ inl q ↦ rw q (omega arith) | inr q ↦ rw q (omega arith) ];
}

-- New memory that holds zeros.
abbrev clear : Fresh
clear = record {
  edges = λ k. record { start_vertex = 0; end_vertex = 0; value = 0 };
  words = λ i k. 0;
}

cb_list-IsBuilt_example :
    ((d : Direction) × (cb_list_out clear sizes 2 1 one_edge ≡ some d)
      × IsBuilt sizes 1 (map out_insertion (file_edges one_edge 1)) d)
    × ((d : Direction) × (cb_list_in clear sizes 2 1 one_edge ≡ some d)
        × IsBuilt sizes 1 (map in_insertion (file_edges one_edge 1)) d)
cb_list-IsBuilt_example =
    cb_list-IsBuilt clear sizes 1 1 one_edge sizes-IsUsable (omega arith) (omega arith)
      (omega arith) (single-IsLoadable 2 0 (adj_unit 1 5) (omega arith)) (omega arith)
      (single-IsLoadable 2 1 (adj_unit 0 5) (omega arith)) (omega arith)
