-- ===== src/Leaf.antt =====
-- `struct LeafChunk` of CBList/cblist.hpp: the array of units with its loops. `Parent` is not a
-- field: the tree of Tree.antt holds the way from the root to each chunk.
pub mod Insert
pub mod Split
use gast_co_co.Prelude.{
  ℕ, zero, suc, ◌+◌, ◌-◌, ◌/◌, List, [], ◌∷◌, ltb, if◌then◌else◌, get_or, set, take, replicate, ℤ,
  pos, length, ◌≡◌, ◌≤◌,
}
use gast_co_co.Types.{AdjUnit, adj_unit, NextPointer, null}

pub record LeafChunk : Type 0 where
  pub count : ℕ
  pub neighboor_chunk : List AdjUnit
  pub next_ptr : NextPointer
  pub next_type : ℤ

-- `{ 0, 0 }`.
abbrev pub no_unit : AdjUnit
no_unit = adj_unit 0 0

-- `CHUNK_LEVEL` and `LEAFCHUNK_LEVEL`.
abbrev pub chunk_level : ℕ
chunk_level = 1

abbrev pub leafchunk_level : ℕ
leafchunk_level = 2

-- The constructor, for `LEAF_CHUNK_NCNT` equal to `ncnt`.
unfoldable pub new_leaf_chunk : (ncnt : ℕ) → LeafChunk
new_leaf_chunk ncnt = record {
  count = 0;
  neighboor_chunk = replicate ncnt no_unit;
  next_ptr = null;
  next_type = pos leafchunk_level;
}

-- The units in use: the first `count` cells.
abbrev pub entries : LeafChunk → List AdjUnit
entries c = take c.count c.neighboor_chunk

-- A chunk of capacity `ncnt`: its array has that many cells, and no more are in use.
pub record IsChunk (ncnt : ℕ) (c : LeafChunk) : Type 0 where
  pub size : length c.neighboor_chunk ≡ ncnt
  pub fits : c.count ≤ ncnt

-- `for (; (New.dest > NeighboorChunk[i].dest) && (i < count); ++i)`, from the cells and the count
-- that are left.
unfoldable pub scan : ℕ → List AdjUnit → ℕ → ℕ
scan dest [] n = 0
scan dest (x ∷ xs) zero = 0
scan dest (x ∷ xs) (suc n) = if ltb x.dest dest then suc (scan dest xs n) else 0

-- `for (j = count; j > i; --j) NeighboorChunk[j] = NeighboorChunk[j - 1]`, for the `rounds` =
-- `count - i` that are left.
unfoldable pub shift_up : (rounds i : ℕ) → List AdjUnit → List AdjUnit
shift_up zero i arr = arr
shift_up (suc k) i arr = shift_up k i (set arr (suc (k + i)) (get_or arr (k + i) no_unit))

-- `LeafChunk::Insert`.
unfoldable pub insert : AdjUnit → LeafChunk → LeafChunk
insert u c =
    let i = scan u.dest c.neighboor_chunk c.count in
    record c {
      neighboor_chunk = set (shift_up (c.count - i) i c.neighboor_chunk) i u;
      count = c.count + 1;
    }

-- The loop of `LeafChunk::Split`, which moves cell `i` of the old chunk to cell `j` of the new one.
unfoldable pub move_half : (rounds i j : ℕ) → (old new : List AdjUnit) → List AdjUnit × List AdjUnit
move_half zero i j old new = (old, new)
move_half (suc k) i j old new =
    move_half k (suc i) (suc j) (set old i no_unit) (set new j (get_or old i no_unit))

-- `LeafChunk::Split` with the new chunk `p` at address `at`: the old chunk, the new chunk, and the
-- new chunk's first `dest`, which is returned.
unfoldable pub split : (ncnt at : ℕ) → LeafChunk → LeafChunk → LeafChunk × LeafChunk × ℕ
split ncnt at c p =
    let j = ncnt - ncnt / 2 in
    let (old, new) = move_half j (ncnt / 2) 0 c.neighboor_chunk p.neighboor_chunk in
    (
      record {
        count = c.count - j;
        neighboor_chunk = old;
        next_ptr = NextPointer.leaf_chunk at;
        next_type = pos leafchunk_level;
      },
      record { count = j; neighboor_chunk = new; next_ptr = c.next_ptr; next_type = c.next_type },
      (get_or new 0 no_unit).dest,
    )
