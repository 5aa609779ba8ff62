-- ===== src/Graph/Chain.antt =====
-- `CBList::ConnectGTChain` of CBList/cblist.hpp, which links the chunks of all vertices to one chain,
-- and the loop of `pagerank_one_iter` in app/copagerank.hpp, which follows it.
pub mod Connect
pub mod Traverse
pub mod Whole
use gast_co_co.Prelude.{
  ℕ, zero, suc, ◌+◌, ◌-◌, List, [], ◌∷◌, ◌++◌, Option, none, some, Bool, true, false, leb, ◌==◌,
  ◌||◌, if◌then◌else◌, ℤ, pos, negsuc, ◌%◌, map, ltb,
}
use gast_co_co.Types.{AdjUnit, NextPointer}
use gast_co_co.Leaf.{entries}
use gast_co_co.Tree.{write}
use gast_co_co.Vertex.{Store, CblNode, Sizes, lv1_address, lv1_entries, write_lv1}
use gast_co_co.Vertex.Read.{leaf_address}
use gast_co_co.Graph.{Table, link_last}

-- The type of a link to the vertex `v`: `0 - CHUNK_LEVEL` or `0 - LEAFCHUNK_LEVEL`.
abbrev pub link_type : Sizes → CblNode → ℤ
link_type z v = if leb v.neighboor_cnt z.lv1_ncnt then negsuc 0 else negsuc 1

-- The loop, `rounds` vertices from `i` on being linked to their successors; `none` is `exit(-1)` for
-- a vertex of another level. An iteration of the parallel loop reads the two vertices and writes
-- the last chunk of the first, so their order has no effect.
unfoldable pub connect_from : Sizes → (rounds i : ℕ) → Table → Option Table
unfolding link_last
connect_from z zero i t = some t
connect_from z (suc k) i t =
    let v = t.node i in
    let next = t.node (suc i) in
    if (v.level == 1) || (v.level == 2)
    then elim (link_last t.store v next.neighboor (link_type z next)) [
      | none ↦ none
      | some s ↦ connect_from z k (suc i) (record t { store = s })
    ]
    else none

-- `nextType = -10` in the chunk that `Neighboor` of the last vertex points to.
unfoldable pub mark_end : Store → CblNode → Option Store
unfolding write_lv1 write
mark_end s v =
    if v.level == 1
    then elim (lv1_address v.neighboor) [
      | none ↦ none
      | some a ↦ some (write_lv1 s a (record (s.lv1 a) { next_type = negsuc 9 }))
    ]
    else if v.level == 2
    then elim (leaf_address v.neighboor) [
      | none ↦ none
      | some a ↦
          some
            (record s { heap = write s.heap a (record (s.heap.chunk a) { next_type = negsuc 9 }) })
    ]
    else some s

-- `CBList::ConnectGTChain` with the pointer to the first chunk; `none` is also a read outside an
-- empty table.
unfoldable pub connect_gt_chain : Sizes → Table → Option (Table × NextPointer)
unfolding connect_from mark_end
connect_gt_chain z t = elim t.size [
  | zero ↦ none
  | suc m ↦ elim (connect_from z m 0 t) [
    | none ↦ none
    | some t' ↦ elim (mark_end t'.store (t'.node m)) [
      | none ↦ none
      | some s ↦ some (record t' { store = s }, (t.node 0).neighboor)
    ]
  ]
]

-- `nextFlag % 2 != 0`, and `nextFlag < 0`.
abbrev pub is_odd : ℤ → Bool
is_odd (pos n) = n % 2 == 1
is_odd (negsuc n) = n % 2 == 0

abbrev pub is_negative : ℤ → Bool
is_negative (pos n) = false
is_negative (negsuc n) = true

-- The units, the next flag and the next pointer of the chunk that a pointer leads to: by the flag, of
-- a level-1 chunk or of a leaf chunk.
unfoldable pub chunk_at : Store → ℤ → NextPointer → Option (List AdjUnit × ℤ × NextPointer)
chunk_at s flag p =
    if is_odd flag
    then elim (lv1_address p) [
      | none ↦ none
      | some a ↦ some (lv1_entries (s.lv1 a), (s.lv1 a).next_type, (s.lv1 a).next_ptr)
    ]
    else elim (leaf_address p) [
      | none ↦ none
      | some a ↦
          some (entries (s.heap.chunk a), (s.heap.chunk a).next_type, (s.heap.chunk a).next_ptr)
    ]

abbrev pub prepend {ℓ} : {A : Type ℓ} → List A → Option (List A) → Option (List A)
prepend xs none = none
prepend xs (some ys) = some (xs ++ ys)

-- What `compute_pr_pull` is called with: the units of a chunk, for the vertex `now`.
abbrev pub tag : ℕ → List AdjUnit → List (ℕ × AdjUnit)
tag now us = map (λ u. (now, u)) us

-- The loop of `pagerank_one_iter`, with the units in the order in which they are visited; the fuel
-- bounds the number of chunks, and `none` is also its end.
unfoldable pub traverse :
    (fuel : ℕ) → Store → ℤ → NextPointer → (now right : ℕ) → Option (List (ℕ × AdjUnit))
unfolding chunk_at
traverse zero s flag p now right = if now == right then some [] else none
traverse (suc k) s flag p now right = if now == right then some [] else elim (chunk_at s flag p) [
  | none ↦ none
  | some (us, flag', p') ↦
      prepend (tag now us)
        (traverse k s flag' p' (if is_negative flag' then suc now else now) right)
]

-- `nextFlag` at the start, by the level of the first vertex.
abbrev pub start_flag : CblNode → ℤ
start_flag v = if v.level == 1 then pos 1 else if v.level == 2 then pos 2 else pos 0

-- `pagerank_one_iter` over the vertices from `left` to before `right`; `none` outside the table.
unfoldable pub one_iter : (fuel : ℕ) → Table → (left right : ℕ) → Option (List (ℕ × AdjUnit))
unfolding traverse
one_iter fuel t left right =
    if ltb left t.size
    then traverse fuel t.store (start_flag (t.node left)) (t.node left).neighboor left right
    else none
