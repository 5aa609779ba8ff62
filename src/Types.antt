-- ===== src/Types.antt =====
-- The records of other/type.hpp, and the pointer union of CBList/cblist.hpp.
use gast_co_co.Prelude.{ℕ}

-- `struct AdjUnit`: a neighbour and the weight of the edge to it.
pub record AdjUnit : Type 0 where
  pub dest : ℕ
  pub value : ℕ

abbrev pub adj_unit : ℕ → ℕ → AdjUnit
adj_unit d w = record { dest = d; value = w }

-- `struct Gedge`.
pub record Gedge : Type 0 where
  pub start_vertex : ℕ
  pub end_vertex : ℕ
  pub value : ℕ

-- `struct Gedge_noWeight`.
pub record GedgeNoWeight : Type 0 where
  pub start_vertex : ℕ
  pub end_vertex : ℕ

-- `union nextPointer`: the address of a leaf chunk or of a level-1 chunk. The C++ union does not
-- record which; a read through the other member is undefined there and a fault here.
pub data NextPointer : Type 0 where
  null : NextPointer
  leaf_chunk : ℕ → NextPointer
  lv1_chunk : ℕ → NextPointer
