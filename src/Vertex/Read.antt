-- ===== src/Vertex/Read.antt =====
-- `CBList::ReadEdgeOut`, `ReadEdgeIn`, `GetNeighborOut` and `GetNeighborIn`, for one vertex: the
-- methods for the two directions differ in the table that they index alone.
pub mod Edge
pub mod Neighbors
use gast_co_co.Prelude.{
  ℕ, zero, suc, ◌+◌, List, [], ◌∷◌, Option, none, some, Bool, true, false, ◌==◌, if◌then◌else◌, set,
  replicate,
}
use gast_co_co.Types.{AdjUnit, NextPointer, null, leaf_chunk, lv1_chunk}
use gast_co_co.Leaf.{entries}
use gast_co_co.Tree.{Heap, Node, root, find}
use gast_co_co.Vertex.{Store, CblNode, lv1_entries, lv1_address}

-- The loop over the entries of a chunk that looks for a neighbour.
unfoldable pub has_dest : ℕ → List AdjUnit → Bool
has_dest d [] = false
has_dest d (u ∷ us) = if u.dest == d then true else has_dest d us

-- The search in the tree: false where `Find` returns the null pointer.
unfoldable pub read_tree : ℕ → Heap → Option Node → Bool
read_tree d h none = false
read_tree d h (some n) = has_dest d (entries (h.chunk (find d n root).0))

-- `none` is a read through a pointer to no level-1 chunk.
unfoldable pub read_edge : Store → CblNode → ℕ → Option Bool
unfolding has_dest read_tree
read_edge s v d =
    if v.level == 1
    then elim (lv1_address v.neighboor) [
      | none ↦ none
      | some a ↦ some (has_dest d (lv1_entries (s.lv1 a)))
    ]
    else some (read_tree d s.heap v.bpt.root_node)

-- The loop that writes the neighbours of a chunk to the result, from `NLindex` on.
unfoldable pub fill : List ℕ → ℕ → List AdjUnit → List ℕ
fill out i [] = out
fill out i (u ∷ us) = fill (set out i u.dest) (suc i) us

-- The leaf chunk that the pointer member `nextLeafChunk` points to.
abbrev pub leaf_address : NextPointer → Option ℕ
leaf_address null = none
leaf_address (leaf_chunk a) = some a
leaf_address (lv1_chunk a) = none

-- The loop over `ChunkCnt` leaf chunks; `none` is a read through a pointer to none.
unfoldable pub walk : (rounds : ℕ) → Heap → NextPointer → List ℕ → ℕ → Option (List ℕ)
unfolding fill
walk zero h p out i = some out
walk (suc k) h p out i = elim (leaf_address p) [
  | none ↦ none
  | some a ↦
      walk k h (h.chunk a).next_ptr (fill out i (entries (h.chunk a))) (i + (h.chunk a).count)
]

unfoldable pub get_neighbor : Store → CblNode → Option (List ℕ)
unfolding fill walk
get_neighbor s v =
    let out = replicate v.neighboor_cnt 0 in
    if v.level == 1
    then elim (lv1_address v.neighboor) [
      | none ↦ none
      | some a ↦ some (fill out 0 (lv1_entries (s.lv1 a)))
    ]
    else walk v.chunk_cnt s.heap v.neighboor out 0
