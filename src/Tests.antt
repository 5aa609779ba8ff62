-- ===== src/Tests.antt =====
-- Runs of the definitions, and the theorems at concrete inputs: chunks of the sizes of CM = 1 with
-- three cells in a leaf chunk, and a tree of seven units that was built by insertion.
use gast_co_co.Prelude.{
  ◌+◌, ℕ, ◌≡◌, ◌⊎◌, inl, inr, ap, ◌∙◌, refl, sym, subst, List, [], ◌∷◌, arith, Option, some, pos,
  Bool, true, ◌↔◌, length,
}
use gast_co_co.Prelude.Distinct.{Absent}
use mathlib.Core.List.{Memᴰ, Perm}
use gast_co_co.Types.{AdjUnit, adj_unit, null, lv1_chunk}
use gast_co_co.ChunkSize.{FillsLines, chunk_sizes, chunk_sizes-FillsLines}
use gast_co_co.Leaf
use gast_co_co.Leaf.{LeafChunk, entries, new_leaf_chunk, leafchunk_level}
use gast_co_co.Leaf.Insert.{insert_sorted, insert-entries}
use gast_co_co.Tree
use gast_co_co.Tree.{Heap, BplusTree, empty_tree, get_leaf_start, get_leaf_end}
use gast_co_co.Tree.Valid.{dests}
use gast_co_co.Tree.Rows.{addresses}
use gast_co_co.Tree.Correct.{IsInserted, tree_units, root_items, insert-IsInserted}
use gast_co_co.Tree.Balance.{HasHeight, insert-HasHeight}
use gast_co_co.Tree.Frame.{IsFramed, insert-IsFramed}
use gast_co_co.Tree.Ends.{leaf_ends, IsFirst, IsLast, tree_addresses}
use gast_co_co.Vertex
use gast_co_co.Vertex.{
  Store, CblNode, Sizes, new_cbl_node, new_lv1_chunk, insert_all, u32_mod, lv1_entries,
}
use gast_co_co.Vertex.Convert.{
  insert_all_sorted, insert_all-HasTaken, HasTaken, empty-IsTree, Apart, Apart-nil,
}
use gast_co_co.Vertex.Valid.{IsUsable, IsVertex, IsResult, next_units, next_units-Perm}
use gast_co_co.Vertex.Insert.{insert-IsResult}
use gast_co_co.Vertex.Iterator.{edge_iterator, iterate}
use gast_co_co.Vertex.Iterator.Units.{NoneEmpty, iterate-units}
use gast_co_co.Vertex.Read.{read_edge, get_neighbor}
use gast_co_co.Vertex.Read.Edge.{read_edge-Memᴰ}
use gast_co_co.Vertex.Read.Neighbors.{get_neighbor-dests}

abbrev seven : List AdjUnit
seven =
    adj_unit 10 1
    ∷ adj_unit 40 2
    ∷ adj_unit 20 3
    ∷ adj_unit 70 4
    ∷ adj_unit 50 5
    ∷ adj_unit 60 6
    ∷ adj_unit 30 7
    ∷ []

abbrev empty_heap : Heap
empty_heap = record { chunk = λ _. new_leaf_chunk 3; fresh = 0 }

abbrev built : Heap × BplusTree
built = insert_all 3 3 seven empty_heap empty_tree

empty-none : (us : List AdjUnit) → Apart us (tree_units empty_heap empty_tree)
unfolding empty_tree
empty-none us = Apart-nil us

built-HasTaken :
    HasTaken 3 null
      (pos leafchunk_level)
      empty_heap
      empty_tree
      (insert_all_sorted seven (tree_units empty_heap empty_tree))
      built
built-HasTaken =
    insert_all-HasTaken 3 3 seven null (pos leafchunk_level) empty_heap empty_tree (omega arith)
      (empty-IsTree 3 empty_heap) (ground arith) (empty-none seven)

seven-sorted :
    dests (insert_all_sorted seven (tree_units empty_heap empty_tree))
    ≡ 10 ∷ 20 ∷ 30 ∷ 40 ∷ 50 ∷ 60 ∷ 70 ∷ []
unfolding insert_all_sorted insert_sorted empty_tree
seven-sorted = refl

built-Absent :
    (d : ℕ)
    → Absent d (10 ∷ 20 ∷ 30 ∷ 40 ∷ 50 ∷ 60 ∷ 70 ∷ [])
    → Absent d (dests (tree_units built.0 built.1))
built-Absent d h =
    subst (λ us. Absent d (dests us)) (sym built-HasTaken.units_are)
      (subst (Absent d) (sym seven-sorted) h)

-- The row that the definitions compute: four leaf chunks, cut at 20, 40 and 50.
built-run :
    ◌≡◌ {A = List ℕ × ℕ × Option ℕ × Option ℕ}
      (tree_addresses built.1, built.1.leaf_cnt, get_leaf_start built.1, get_leaf_end built.1)
      (0 ∷ 1 ∷ 2 ∷ 3 ∷ [], 4, some 0, some 3)
unfolding insert_all Tree.insert empty_tree Tree.insert_at Tree.alloc new_leaf_chunk Tree.find
    Tree.plug Leaf.insert Tree.split_leaf Leaf.split Leaf.move_half Leaf.shift_up Leaf.scan
    Tree.add_node Tree.resume Tree.add_at Tree.branch_count Tree.append Tree.insert_branch
    Tree.halves Tree.insert_into_half Tree.split_at Tree.split_node Tree.write get_leaf_start
    get_leaf_end Tree.leaf_start Tree.leaf_end Tree.Items.items
built-run = refl

insert-IsInserted_example :
    IsInserted 3 null
      (pos leafchunk_level)
      (adj_unit 55 9)
      (tree_units built.0 built.1)
      (Tree.insert 3 3 (adj_unit 55 9) built.0 built.1)
insert-IsInserted_example =
    insert-IsInserted 3 3 (adj_unit 55 9) null (pos leafchunk_level) built.0 built.1 (omega arith)
      built-HasTaken.valid (built-Absent 55 (omega arith))

insert-IsFramed_example :
    IsFramed built.0
      (Tree.insert 3 3 (adj_unit 55 9) built.0 built.1).0
      (addresses (root_items built.1.root_node))
      (addresses (root_items (Tree.insert 3 3 (adj_unit 55 9) built.0 built.1).1.root_node))
insert-IsFramed_example =
    insert-IsFramed 3 3 (adj_unit 55 9) null (pos leafchunk_level) built.0 built.1 (omega arith)
      built-HasTaken.valid (built-Absent 55 (omega arith))

insert-HasHeight_example :
    let root' = (Tree.insert 3 3 (adj_unit 55 9) empty_heap empty_tree).1.root_node in
    HasHeight 3 0 root' ⊎ HasHeight 3 1 root'
insert-HasHeight_example =
    insert-HasHeight 3 3 (adj_unit 55 9) empty_heap empty_tree 0 (omega arith) empty-HasHeight
  where
    empty-HasHeight : HasHeight 3 0 empty_tree.root_node
    empty-HasHeight = unfold empty_tree in refl

leaf_ends_example :
    IsFirst (get_leaf_start built.1) (tree_addresses built.1)
    × IsLast (get_leaf_end built.1) (tree_addresses built.1)
leaf_ends_example = leaf_ends built.1

chunk_sizes-FillsLines_example : FillsLines (chunk_sizes 4)
chunk_sizes-FillsLines_example = chunk_sizes-FillsLines 4

-- A leaf chunk with a free cell, and a full one.
abbrev partly : LeafChunk
partly = record (new_leaf_chunk 3) {
  count = 2;
  neighboor_chunk = adj_unit 10 1 ∷ adj_unit 40 2 ∷ adj_unit 0 0 ∷ [];
}

abbrev whole : LeafChunk
whole = record (new_leaf_chunk 3) {
  count = 3;
  neighboor_chunk = adj_unit 10 1 ∷ adj_unit 40 2 ∷ adj_unit 50 5 ∷ [];
}

insert-entries_example :
    entries (Leaf.insert (adj_unit 20 3) partly) ≡ insert_sorted (adj_unit 20 3) (entries partly)
insert-entries_example = insert-entries (adj_unit 20 3) partly (omega arith)

-- A vertex whose level-1 chunk of two cells is full, and one with the tree of seven units.
abbrev small_sizes : Sizes
small_sizes = record { lv1_ncnt = 2; leaf_ncnt = 3; key_cnt = 3 }

abbrev two_units : List AdjUnit
two_units = adj_unit 10 1 ∷ adj_unit 40 2 ∷ []

abbrev small_store : Store
small_store = record {
  heap = empty_heap;
  lv1 = λ _. record { count = 2; next_type = pos 2; neighboor_chunk = two_units; next_ptr = null };
}

abbrev small_vertex : CblNode
small_vertex = record new_cbl_node { neighboor_cnt = 2; neighboor = lv1_chunk 0 }

small_is : IsVertex small_sizes small_store null (pos 2) 0 small_vertex two_units
unfolding new_cbl_node
small_is = inl (record {
  level = refl;
  neighboor = refl;
  counted = refl;
  in_use = refl;
  size = refl;
  fits = omega arith;
  entries_are = refl;
  link = refl;
  link_type = refl;
  no_tree = refl;
  chunks = refl;
  distinct = omega arith;
})

small-IsUsable : IsUsable small_sizes
small-IsUsable = record { lv1_room = omega arith; leaf_room = omega arith }

insert-IsResult_example :
    (r : Store × CblNode × ℕ) × (Vertex.insert small_sizes (adj_unit 20 3) small_store small_vertex
      ≡ some r)
    × IsResult small_sizes null (pos 2) 0 (adj_unit 20 3) two_units small_store small_vertex r
insert-IsResult_example =
    insert-IsResult small_sizes null (pos 2) 0 (adj_unit 20 3) two_units small_store small_vertex
      small-IsUsable small_is (omega arith) (omega arith)

next_units-Perm_example :
    Perm (next_units small_sizes (adj_unit 20 3) two_units) (adj_unit 20 3 ∷ two_units)
next_units-Perm_example = next_units-Perm small_sizes (adj_unit 20 3) two_units

abbrev large_store : Store
large_store = record small_store { heap = built.0 }

abbrev large_vertex : CblNode
large_vertex = record {
  level = 2;
  neighboor_cnt = 7;
  chunk_cnt = built.1.leaf_cnt;
  bpt = built.1;
  neighboor = Vertex.leaf_pointer (get_leaf_start built.1);
}

seven_long : length (tree_units built.0 built.1) ≡ 7
unfolding insert_all_sorted insert_sorted empty_tree
seven_long = ap length built-HasTaken.units_are ∙ refl

large_is :
    IsVertex small_sizes large_store null
      (pos leafchunk_level)
      0
      large_vertex
      (tree_units built.0 built.1)
large_is = inr (record {
  level = refl;
  tree = built-HasTaken.valid;
  units_are = refl;
  counted = sym seven_long;
  full = omega (arith, seven_long);
  neighboor = refl;
  chunks = refl;
})

read_edge-Memᴰ_example :
    (r : Bool) × (read_edge large_store large_vertex 50 ≡ some r)
    × ((r ≡ true) ↔ Memᴰ 50 (dests (tree_units built.0 built.1)))
read_edge-Memᴰ_example =
    read_edge-Memᴰ small_sizes null (pos leafchunk_level) 0 (tree_units built.0 built.1) large_store
      large_vertex 50 large_is

get_neighbor-dests_example :
    get_neighbor large_store large_vertex ≡ some (dests (tree_units built.0 built.1))
get_neighbor-dests_example =
    get_neighbor-dests small_sizes null (pos leafchunk_level) 0 (tree_units built.0 built.1)
      large_store large_vertex large_is

built-NoneEmpty : NoneEmpty large_store.heap (tree_addresses large_vertex.bpt)
unfolding insert_all Tree.insert empty_tree Tree.insert_at Tree.alloc new_leaf_chunk Tree.find
    Tree.plug Leaf.insert Tree.split_leaf Leaf.split Leaf.move_half Leaf.shift_up Leaf.scan
    Tree.add_node Tree.resume Tree.add_at Tree.branch_count Tree.append Tree.insert_branch
    Tree.halves Tree.insert_into_half Tree.split_at Tree.split_node Tree.write get_leaf_start
    get_leaf_end Tree.leaf_start Tree.leaf_end Tree.Items.items
built-NoneEmpty = (omega arith, (omega arith, (omega arith, (omega arith, tt))))

iterate-units_example :
    iterate (length (tree_units built.0 built.1) + 1) large_store (edge_iterator 4 large_vertex)
    ≡ some (tree_units built.0 built.1)
iterate-units_example =
    iterate-units small_sizes null (pos leafchunk_level) 0 4 (tree_units built.0 built.1)
      large_store large_vertex large_is (omega (arith, seven_long)) (omega (arith, seven_long))
      built-NoneEmpty
