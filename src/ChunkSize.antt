-- ===== src/ChunkSize.antt =====
-- CBList/cblist_chunk_size.hpp: the capacities of the chunks for each value of the build option CM,
-- and the sizes in bytes of the structs of CBList/cblist.hpp that hold them.
use gast_co_co.Prelude.{ℕ, ◌+◌, ◌-◌, ◌*◌, ◌/◌, ◌≤◌, ◌<◌, ◌≡◌, arith, ◌==◌, if◌then◌else◌}

pub record ChunkSizes : Type 0 where
  pub cache_line_l1_mult : ℕ
  pub cache_line_mult : ℕ
  pub lv1chunk_ncnt : ℕ
  pub leaf_chunk_ncnt : ℕ
  pub inter_node_ptr_cnt : ℕ

abbrev pub cache_line_size : ℕ
cache_line_size = 64

-- `#if CM == 1 … #else … #endif`; the last set is the default.
abbrev pub chunk_sizes : ℕ → ChunkSizes
chunk_sizes cm =
    if cm == 1
    then record {
      cache_line_l1_mult = 1;
      cache_line_mult = 1;
      lv1chunk_ncnt = 6;
      leaf_chunk_ncnt = 3;
      inter_node_ptr_cnt = 3;
    }
    else if cm == 2
    then record {
      cache_line_l1_mult = 2;
      cache_line_mult = 2;
      lv1chunk_ncnt = 14;
      leaf_chunk_ncnt = 11;
      inter_node_ptr_cnt = 9;
    }
    else if cm == 4
    then record {
      cache_line_l1_mult = 4;
      cache_line_mult = 4;
      lv1chunk_ncnt = 30;
      leaf_chunk_ncnt = 27;
      inter_node_ptr_cnt = 19;
    }
    else if cm == 8
    then record {
      cache_line_l1_mult = 8;
      cache_line_mult = 8;
      lv1chunk_ncnt = 62;
      leaf_chunk_ncnt = 59;
      inter_node_ptr_cnt = 41;
    }
    else if cm == 16
    then record {
      cache_line_l1_mult = 16;
      cache_line_mult = 16;
      lv1chunk_ncnt = 126;
      leaf_chunk_ncnt = 123;
      inter_node_ptr_cnt = 83;
    }
    else record {
      cache_line_l1_mult = 2;
      cache_line_mult = 4;
      lv1chunk_ncnt = 14;
      leaf_chunk_ncnt = 27;
      inter_node_ptr_cnt = 19;
    }

-- `INTER_NODE_PTR_CNT-1`.
abbrev pub inter_node_key_cnt : ChunkSizes → ℕ
inter_node_key_cnt c = c.inter_node_ptr_cnt - 1

-- `struct Node`: the virtual table's pointer, `count`, `IsLeaf` padded to 4 bytes, `Parent`.
abbrev pub node_bytes : ℕ
node_bytes = 8 + 4 + 4 + 8

-- `struct Lv1Chunk`: `count`, `nextType`, the packed 8-byte units, `nextPtr`.
abbrev pub lv1_chunk_bytes : ℕ → ℕ
lv1_chunk_bytes ncnt = 4 + 4 + 8 * ncnt + 8

-- `struct LeafChunk`: the base, the packed units, `nextPtr`, `nextType`.
abbrev pub leaf_chunk_bytes : ℕ → ℕ
leaf_chunk_bytes ncnt = node_bytes + 8 * ncnt + 8 + 4

-- `struct InterNode`: the base, the 4-byte keys padded to a multiple of 8, the 8-byte pointers.
abbrev pub inter_node_bytes : ℕ → ℕ
inter_node_bytes ptr_cnt = node_bytes + (4 * (ptr_cnt - 1) + 7) / 8 * 8 + 8 * ptr_cnt

-- The capacities with which the B+ tree works: a leaf splits into two non-empty halves, and so does
-- an inner node.
pub record IsUsable (c : ChunkSizes) : Type 0 where
  pub lv1_room : 1 ≤ c.lv1chunk_ncnt
  pub leaf_room : 2 ≤ c.leaf_chunk_ncnt
  pub key_room : 2 ≤ inter_node_key_cnt c

-- The chunks fill their cache lines: a level-1 chunk exactly, and a leaf or an inner node with no
-- room for one more entry.
pub record FillsLines (c : ChunkSizes) : Type 0 where
  pub lv1_exact : lv1_chunk_bytes c.lv1chunk_ncnt ≡ cache_line_size * c.cache_line_l1_mult
  pub leaf_fits : leaf_chunk_bytes c.leaf_chunk_ncnt ≤ cache_line_size * c.cache_line_mult
  pub leaf_full : cache_line_size * c.cache_line_mult < leaf_chunk_bytes (c.leaf_chunk_ncnt + 1)
  pub inter_fits : inter_node_bytes c.inter_node_ptr_cnt ≤ cache_line_size * c.cache_line_mult
  pub inter_full : cache_line_size * c.cache_line_mult < inter_node_bytes (c.inter_node_ptr_cnt + 1)

pub chunk_sizes-IsUsable : (cm : ℕ) → IsUsable (chunk_sizes cm)
chunk_sizes-IsUsable cm = ground arith

-- For every value of CM, the listed ones and any other, the struct of each chunk fits the cache
-- lines that its `alignas` names, and none but the level-1 chunk, which fills them, has room for one
-- more entry.
pub chunk_sizes-FillsLines : (cm : ℕ) → FillsLines (chunk_sizes cm)
chunk_sizes-FillsLines cm = ground arith
