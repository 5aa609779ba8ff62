-- ===== src/Vertex/Iterator.antt =====
-- `CBList::EdgeIterator`, and the loop over all neighbours of a vertex by it.
pub mod Cells
pub mod Units
use gast_co_co.Prelude.{
  ℕ, zero, suc, ◌+◌, List, [], ◌∷◌, Option, none, some, Bool, true, false, ◌==◌, leb, ltb, ◌-◌, ℤ,
  pos, negsuc, if◌then◌else◌, get_elem?,
}
use gast_co_co.Types.{AdjUnit, NextPointer}
use gast_co_co.Vertex.{u32_mod, int_bound, Store, CblNode, lv1_address}
use gast_co_co.Vertex.Read.{leaf_address}

-- A `uint32_t` as an `int`.
abbrev pub to_int : ℕ → ℤ
to_int n = if ltb n int_bound then pos n else negsuc (u32_mod - suc n)

-- `AccessEdgeCnt` and `CurrentPos` count up from 0, and are natural numbers here, below 2^31 in a vertex
-- with less neighbours.
pub record EdgeIterator : Type 0 where
  pub v : ℕ
  pub level : ℕ
  pub neighboor_cnt : ℤ
  pub access_edge_cnt : ℕ
  pub current_ptr : NextPointer
  pub current_pos : ℕ
  pub alive : Bool

-- The constructor, for the vertex `src` of the table.
unfoldable pub edge_iterator : (src : ℕ) → CblNode → EdgeIterator
edge_iterator src node = record {
  v = src;
  level = node.level;
  neighboor_cnt = to_int node.neighboor_cnt;
  access_edge_cnt = 0;
  current_ptr = node.neighboor;
  current_pos = 0;
  alive = true;
}

-- `++CurrentPos; ++AccessEdgeCnt`.
abbrev pub count_access : EdgeIterator → EdgeIterator
count_access it = record it {
  current_pos = suc it.current_pos;
  access_edge_cnt = suc it.access_edge_cnt;
}

-- The end of a leaf chunk; `none` is a read through a pointer to none.
unfoldable pub next_chunk : Store → EdgeIterator → Option EdgeIterator
next_chunk s it = elim (leaf_address it.current_ptr) [
  | none ↦ none
  | some a ↦
      if leb (s.heap.chunk a).count it.current_pos
      then some (record it { current_pos = 0; current_ptr = (s.heap.chunk a).next_ptr })
      else some it
]

-- `AccessEdgeCnt >= NeighboorCnt`.
abbrev pub all_read : ℤ → ℕ → Bool
all_read (pos n) acc = leb n acc
all_read (negsuc n) acc = true

-- `operator++`.
unfoldable pub increment : Store → EdgeIterator → Option EdgeIterator
unfolding next_chunk
increment s it =
    let it' = count_access it in
    if all_read it'.neighboor_cnt it'.access_edge_cnt
    then some (record it' { alive = false })
    else if it'.level == 2
    then next_chunk s it'
    else some it'

-- `GetEdegInfo`; `none` where it exits, and for a read outside the chunk.
unfoldable pub get_edeg_info : Store → EdgeIterator → Option AdjUnit
get_edeg_info s it =
    if it.alive
    then if it.level == 1
      then elim (lv1_address it.current_ptr) [
        | none ↦ none
        | some a ↦ get_elem? (s.lv1 a).neighboor_chunk it.current_pos
      ]
      else elim (leaf_address it.current_ptr) [
        | none ↦ none
        | some a ↦ get_elem? (s.heap.chunk a).neighboor_chunk it.current_pos
      ]
    else none

abbrev pub cons_to : AdjUnit → Option (List AdjUnit) → Option (List AdjUnit)
cons_to u none = none
cons_to u (some us) = some (u ∷ us)

-- `while (it.alive) { … it.GetEdegInfo() …; ++it; }` with the units that it reads; `none` is a fault or
-- the end of the fuel.
unfoldable pub iterate : (fuel : ℕ) → Store → EdgeIterator → Option (List AdjUnit)
unfolding increment get_edeg_info
iterate zero s it = none
iterate (suc k) s it =
    if it.alive
    then elim (get_edeg_info s it) [
      | none ↦ none
      | some u ↦ elim (increment s it) [ none ↦ none | some it' ↦ cons_to u (iterate k s it') ]
    ]
    else some []
