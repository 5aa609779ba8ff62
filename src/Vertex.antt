-- ===== src/Vertex.antt =====
-- `struct Lv1Chunk` and `class CBLNode` of CBList/cblist.hpp: a vertex keeps its neighbours in one
-- level-1 chunk in the order of their insertion, and when that is full, in a B+ tree.
pub mod Relink
pub mod Convert
pub mod Valid
pub mod Full
pub mod Insert
pub mod Same
pub mod Read
pub mod Iterator
use gast_co_co.Prelude.{
  ℕ, zero, suc, ◌+◌, ◌%◌, List, [], ◌∷◌, Option, none, some, Bool, true, false, ltb, ◌==◌,
  if◌then◌else◌, get_or, set, take, drop, replicate, ℤ, pos,
}
use gast_co_co.Types.{AdjUnit, NextPointer, null, leaf_chunk, lv1_chunk}
use gast_co_co.Leaf.{no_unit, leafchunk_level, LeafChunk, entries}
use gast_co_co.Tree
use gast_co_co.Tree.{
  Heap, write, BplusTree, Node, empty_tree, get_leaf_start, get_leaf_end, leaf, Trail, root, find,
}

pub record Lv1Chunk : Type 0 where
  pub count : ℕ
  pub next_type : ℤ
  pub neighboor_chunk : List AdjUnit
  pub next_ptr : NextPointer

-- The constructor, for `LV1CHUNK_NCNT` equal to `ncnt`.
unfoldable pub new_lv1_chunk : (ncnt : ℕ) → Lv1Chunk
new_lv1_chunk ncnt = record {
  count = 0;
  next_type = pos leafchunk_level;
  neighboor_chunk = replicate ncnt no_unit;
  next_ptr = null;
}

-- The chunks of both kinds, by address.
pub record Store : Type 0 where
  pub heap : Heap
  pub lv1 : ℕ → Lv1Chunk

pub record CblNode : Type 0 where
  pub level : ℕ
  pub neighboor_cnt : ℕ
  pub chunk_cnt : ℕ
  pub bpt : BplusTree
  pub neighboor : NextPointer

-- The constants of cblist_chunk_size.hpp that the operations depend on.
pub record Sizes : Type 0 where
  pub lv1_ncnt : ℕ
  pub leaf_ncnt : ℕ
  pub key_cnt : ℕ

-- `CBLNode::CBLNode`.
unfoldable pub new_cbl_node : CblNode
unfolding empty_tree
new_cbl_node = record {
  level = 1;
  neighboor_cnt = 0;
  chunk_cnt = 1;
  bpt = empty_tree;
  neighboor = null;
}

-- `uint32_t` counters.
abbrev pub u32_mod : ℕ
u32_mod = 4294967296

-- The values of `int` and `int32_t` are below this one.
abbrev pub int_bound : ℕ
int_bound = 2147483648

unfoldable pub write_lv1 : Store → ℕ → Lv1Chunk → Store
write_lv1 s a c = record s { lv1 = λ b. if b == a then c else s.lv1 b }

-- The entries of a level-1 chunk: the first `count` cells.
abbrev pub lv1_entries : Lv1Chunk → List AdjUnit
lv1_entries c = take c.count c.neighboor_chunk

-- `NeighboorChunk[count] = NeighboorINFO; ++count`.
unfoldable pub push : AdjUnit → Lv1Chunk → Lv1Chunk
push u c = record c {
  neighboor_chunk = set c.neighboor_chunk c.count u;
  count = (c.count + 1) % u32_mod;
}

-- The loop that inserts the units of the level-1 chunk into the tree.
unfoldable pub insert_all : (ncnt key_cnt : ℕ) → List AdjUnit → Heap → BplusTree → Heap × BplusTree
insert_all ncnt key_cnt [] h t = (h, t)
insert_all ncnt key_cnt (u ∷ us) h t =
    let (h', t') = Tree.insert ncnt key_cnt u h t in insert_all ncnt key_cnt us h' t'

-- `LastLeaf->nextType = …; LastLeaf->nextPtr = …`.
unfoldable pub relink : ℕ → NextPointer → ℤ → Heap → Heap
relink a p t h = write h a (record (h.chunk a) { next_ptr = p; next_type = t })

-- A pointer to a leaf chunk, or the null pointer, as the union holds it.
abbrev pub leaf_pointer : Option ℕ → NextPointer
leaf_pointer none = null
leaf_pointer (some a) = leaf_chunk a

-- The branch of `CBLNode::Insert` in which the level-1 chunk `c` is full: first the insertions in the
-- tree, then the link of its last leaf chunk and the fields of the vertex. `none` is the write
-- through the null pointer that `GetLeafEnd` returns for an empty tree.
unfoldable pub move_units : Sizes → AdjUnit → Heap → CblNode → Lv1Chunk → Heap × BplusTree
move_units z u h v c =
    let (h1, t1) =
      insert_all z.leaf_ncnt z.key_cnt (take v.neighboor_cnt c.neighboor_chunk) h v.bpt in
    Tree.insert z.leaf_ncnt z.key_cnt u h1 t1

unfoldable pub finish : Store → CblNode → Lv1Chunk → Heap × BplusTree → Option (Store × CblNode × ℕ)
finish s v c (h, t) = elim (get_leaf_end t) [
  | none ↦ none
  | some e ↦ some (
    record s { heap = relink e c.next_ptr c.next_type h },
    record {
      level = v.level + 1;
      neighboor_cnt = (v.neighboor_cnt + 1) % u32_mod;
      chunk_cnt = t.leaf_cnt;
      bpt = t;
      neighboor = leaf_pointer (get_leaf_start t);
    },
    2,
  )
]

unfoldable pub convert : Sizes → AdjUnit → Store → CblNode → Lv1Chunk → Option (Store × CblNode × ℕ)
unfolding move_units finish
convert z u s v c = finish s v c (move_units z u s.heap v c)

-- The level-1 chunk that `Neighboor.nextLv1Chunk` points to, and `none` where a C++ program reads
-- through a null pointer or the wrong member.
abbrev pub lv1_address : NextPointer → Option ℕ
lv1_address null = none
lv1_address (leaf_chunk a) = none
lv1_address (lv1_chunk a) = some a

-- `CBLNode::Insert`, with the number that it returns.
unfoldable pub insert : Sizes → AdjUnit → Store → CblNode → Option (Store × CblNode × ℕ)
unfolding write_lv1 push convert
insert z u s v =
    if ltb v.neighboor_cnt z.lv1_ncnt
    then elim (lv1_address v.neighboor) [
      | none ↦ none
      | some a ↦ some (
        write_lv1 s a (push u (s.lv1 a)),
        record v { neighboor_cnt = (v.neighboor_cnt + 1) % u32_mod },
        1,
      )
    ]
    else if v.neighboor_cnt == z.lv1_ncnt
    then elim (lv1_address v.neighboor) [ none ↦ none | some a ↦ convert z u s v (s.lv1 a) ]
    else let (h, t) = Tree.insert z.leaf_ncnt z.key_cnt u s.heap v.bpt in
      some (
        record s { heap = h },
        record v {
          neighboor_cnt = (v.neighboor_cnt + 1) % u32_mod;
          bpt = t;
          chunk_cnt = t.leaf_cnt;
        },
        1,
      )
