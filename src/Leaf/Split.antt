-- ===== src/Leaf/Split.antt =====
-- `LeafChunk::Split`: the loop moves the upper half of the units to the new chunk.
use gast_co_co.Prelude.{
  ℕ, zero, suc, ◌+◌, ◌-◌, ◌/◌, ◌≤◌, ◌<◌, ◌≡◌, refl, ap, List, [], ◌∷◌, ◌++◌, arith, length, get_or,
  set, take, drop, length-set, take-set, drop-set_below, length-drop, length-replicate, pos,
  take-suc, drop-suc, append_assoc, append-nil, ◌∙◌, replicate,
}
use gast_co_co.Types.{AdjUnit, NextPointer}
use gast_co_co.Leaf.{
  LeafChunk, IsChunk, no_unit, entries, move_half, split, new_leaf_chunk, leafchunk_level,
}

pub get_or-set_self :
    (xs : List AdjUnit) (i : ℕ) (v : AdjUnit) → i < length xs → get_or (set xs i v) i no_unit ≡ v
get_or-set_self [] i v h = absurd (omega arith)
get_or-set_self (x ∷ xs) zero v h = refl
get_or-set_self (x ∷ xs) (suc i) v h = get_or-set_self xs i v (omega arith)

take_all : (n : ℕ) (xs : List AdjUnit) → length xs ≤ n → take n xs ≡ xs
take_all zero [] h = refl
take_all zero (x ∷ xs) h = absurd (omega arith)
take_all (suc n) [] h = refl
take_all (suc n) (x ∷ xs) h = ap (◌∷◌ x) (take_all n xs (omega arith))

-- What stands below the moved cells stays.
take-move_half_old :
    (m k i j : ℕ) (old new : List AdjUnit) → m ≤ i → take m (move_half k i j old new).0 ≡ take m old
unfolding move_half
take-move_half_old m zero i j old new h = refl
take-move_half_old m (suc k) i j old new h =
    let v = get_or old i no_unit in
    rw (take-move_half_old m k (suc i) (suc j) (set old i no_unit) (set new j v) (omega arith))
      (take-set m i old no_unit h)

pub length-move_half :
    (k i j : ℕ) (old new : List AdjUnit)
    → (length (move_half k i j old new).0 ≡ length old)
      × (length (move_half k i j old new).1 ≡ length new)
unfolding move_half
length-move_half zero i j old new = (refl, refl)
length-move_half (suc k) i j old new =
    let v = get_or old i no_unit in
    let ih = length-move_half k (suc i) (suc j) (set old i no_unit) (set new j v) in
    (ih.0 ∙ length-set old i no_unit, ih.1 ∙ length-set new j v)

-- The moved cells follow one another in the new array.
take-move_half_new :
    (k i j : ℕ) (old new : List AdjUnit)
    → i + k ≤ length old
    → j + k ≤ length new
    → take (j + k) (move_half k i j old new).1 ≡ take j new ++ take k (drop i old)
unfolding move_half
take-move_half_new zero i j old new p q = let e : j + 0 ≡ j = omega arith in rw (e, append-nil)
take-move_half_new (suc k) i j old new p q =
    let v = get_or old i no_unit in
    let new' = set new j v in
    let e : j + suc k ≡ suc j + k = omega arith in
    let lo : i < length old = omega arith in
    let ln : j < length new = omega arith in
    rw (
      e,
      take-move_half_new k (suc i) (suc j) (set old i no_unit) new'
          (omega (arith, length-set old i no_unit)) (omega (arith, length-set new j v)),
      take-suc j new' no_unit (omega (arith, length-set new j v)),
      take-set j j new v (omega arith),
      get_or-set_self new j v ln,
      drop-set_below (suc i) i old no_unit (omega arith),
      drop-suc i old no_unit lo,
      append_assoc,
    )

-- `LeafChunk::Split` of a full chunk of `ncnt` units into a fresh one: the old chunk keeps the first
-- `ncnt / 2` units, and the new one holds the rest, in the same order.
pub split-entries :
    (ncnt at : ℕ) (c : LeafChunk)
    → length c.neighboor_chunk ≡ ncnt
    → c.count ≡ ncnt
    → (entries (split ncnt at c (new_leaf_chunk ncnt)).0 ≡ take (ncnt / 2) (entries c))
      × (entries (split ncnt at c (new_leaf_chunk ncnt)).1 ≡ drop (ncnt / 2) (entries c))
unfolding split new_leaf_chunk
split-entries ncnt at c size full =
    let j = ncnt - ncnt / 2 in
    let arr = c.neighboor_chunk in
    let fresh = replicate ncnt no_unit in
    let whole : take c.count arr ≡ arr = take_all c.count arr (omega arith) in
    let e : c.count - j ≡ ncnt / 2 = omega arith in
    let z : 0 + j ≡ j = omega arith in
    let moved =
      take-move_half_new j (ncnt / 2) 0 arr fresh (omega arith)
        (omega (arith, length-replicate ncnt no_unit)) in
    rw (whole, e)
      (
        take-move_half_old (ncnt / 2) j (ncnt / 2) 0 arr fresh (omega arith),
        (rw z at moved)
            ∙ take_all j (drop (ncnt / 2) arr) (omega (arith, length-drop (ncnt / 2) arr)),
      )

-- A chunk `c` in two chunks `old` and `new`, `new` being at the address `at`.
pub record IsSplit (ncnt at : ℕ) (c old new : LeafChunk) : Type 0 where
  pub old_chunk : IsChunk ncnt old
  pub new_chunk : IsChunk ncnt new
  pub old_count : old.count ≡ ncnt / 2
  pub new_count : new.count ≡ ncnt - ncnt / 2
  pub old_next : old.next_ptr ≡ NextPointer.leaf_chunk at
  pub old_type : old.next_type ≡ pos leafchunk_level
  pub new_next : new.next_ptr ≡ c.next_ptr
  pub new_type : new.next_type ≡ c.next_type

-- `LeafChunk::Split` of a full chunk: both chunks have the capacity `ncnt`, the counts are those of the
-- halves, and the new chunk comes between the old one and what the old one was linked to.
pub split-IsSplit :
    (ncnt at : ℕ) (c : LeafChunk)
    → length c.neighboor_chunk ≡ ncnt
    → c.count ≡ ncnt
    → let r = split ncnt at c (new_leaf_chunk ncnt) in IsSplit ncnt at c r.0 r.1
unfolding split new_leaf_chunk
split-IsSplit ncnt at c size full =
    let lengths =
      length-move_half (ncnt - ncnt / 2) (ncnt / 2) 0 c.neighboor_chunk (replicate ncnt no_unit) in
    record {
      old_chunk = record { size = lengths.0 ∙ size; fits = omega arith };
      new_chunk = record { size = lengths.1 ∙ length-replicate ncnt no_unit; fits = omega arith };
      old_count = omega arith;
      new_count = refl;
      old_next = refl;
      old_type = refl;
      new_next = refl;
      new_type = refl;
    }

-- The key that goes up is the `dest` of the new chunk's first unit.
pub split-key :
    (ncnt at : ℕ) (c : LeafChunk)
    → let r = split ncnt at c (new_leaf_chunk ncnt) in
      r.2 ≡ (get_or r.1.neighboor_chunk 0 no_unit).dest
unfolding split
split-key ncnt at c = refl
