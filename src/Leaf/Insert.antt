-- ===== src/Leaf/Insert.antt =====
-- `LeafChunk::Insert`: the loops over the array put the unit at its place among the entries.
use gast_co_co.Prelude.{
  ℕ, zero, suc, ◌+◌, ◌-◌, ◌<◌, ◌≡◌, refl, ap, ◌∙◌, List, [], ◌∷◌, ◌++◌, arith, ltb, if◌then◌else◌,
  length, get_or, set, take, drop, length-set, take-set, drop-set_self, take-suc, Bool-cases, inl,
  inr, append_assoc, take-append, length-take,
}
use gast_co_co.Types.{AdjUnit}
use gast_co_co.Leaf.{LeafChunk, IsChunk, no_unit, entries, scan, shift_up, insert}

-- Insertion before the first unit whose `dest` is not smaller.
unfoldable pub insert_sorted : AdjUnit → List AdjUnit → List AdjUnit
insert_sorted u [] = u ∷ []
insert_sorted u (x ∷ xs) = if ltb x.dest u.dest then x ∷ insert_sorted u xs else u ∷ x ∷ xs

pub length-insert_sorted :
    (u : AdjUnit) (xs : List AdjUnit) → length (insert_sorted u xs) ≡ suc (length xs)
unfolding insert_sorted
length-insert_sorted u [] = refl
length-insert_sorted u (x ∷ xs) = ground (arith, length-insert_sorted u xs)

shift_up-cons :
    (k i : ℕ) (x : AdjUnit) (xs : List AdjUnit) → shift_up k (suc i) (x ∷ xs) ≡ x ∷ shift_up k i xs
unfolding shift_up
shift_up-cons zero i x xs = refl
shift_up-cons (suc k) i x xs =
    let e : k + suc i ≡ suc (k + i) = omega arith in
    rw e (shift_up-cons k i x (set xs (suc (k + i)) (get_or xs (k + i) no_unit)))

-- Where all units move up, the write lands on the freed first cell.
shift_up-head :
    (k : ℕ) (u : AdjUnit) (arr : List AdjUnit)
    → k < length arr
    → set (shift_up k 0 arr) 0 u ≡ u ∷ (take k arr ++ drop (suc k) arr)
unfolding shift_up
shift_up-head zero u [] h = absurd (omega arith)
shift_up-head zero u (x ∷ arr) h = refl
shift_up-head (suc k) u arr h =
    let e : k + 0 ≡ k = omega arith in
    let v = get_or arr k no_unit in
    rw (
      e,
      shift_up-head k u (set arr (suc k) v) (omega (arith, length-set arr (suc k) v)),
      take-set k (suc k) arr v (omega arith),
      drop-set_self (suc k) arr v h,
      take-suc k arr no_unit (omega arith),
      append_assoc,
    )

scan-array :
    (u : AdjUnit) (arr : List AdjUnit) (n : ℕ)
    → n < length arr
    → take
        (suc n)
        (set (shift_up (n - scan u.dest arr n) (scan u.dest arr n) arr) (scan u.dest arr n) u)
      ≡ insert_sorted u (take n arr)
unfolding scan insert_sorted
scan-array u [] n h = absurd (omega arith)
scan-array u (x ∷ xs) zero h = unfold shift_up in refl
scan-array u (x ∷ xs) (suc n) h = elim (Bool-cases (ltb x.dest u.dest)) [
  | inl lt ↦
      let i = scan u.dest xs n in
      let e : suc n - suc i ≡ n - i = omega arith in
      rw (lt, e, shift_up-cons (n - i) i x xs) (ap (◌∷◌ x) (scan-array u xs n (omega arith)))
  | inr ge ↦
      let e : suc n - 0 ≡ suc n = omega arith in
      rw (
        ge,
        e,
        shift_up-head (suc n) u (x ∷ xs) h,
        take-append (suc n) (x ∷ take n xs) (drop (suc n) xs) (omega (arith, length-take n xs)),
      )
]

-- `LeafChunk::Insert` of a chunk with a free cell: the units in use after it are those before it, with
-- the new one in front of the first whose neighbour is not smaller.
pub insert-entries :
    (u : AdjUnit) (c : LeafChunk)
    → c.count < length c.neighboor_chunk
    → entries (insert u c) ≡ insert_sorted u (entries c)
unfolding insert
insert-entries u c h =
    let e : c.count + 1 ≡ suc c.count = omega arith in
    rw e (scan-array u c.neighboor_chunk c.count h)

length-shift_up : (k i : ℕ) (arr : List AdjUnit) → length (shift_up k i arr) ≡ length arr
unfolding shift_up
length-shift_up zero i arr = refl
length-shift_up (suc k) i arr =
    let v = get_or arr (k + i) no_unit in
    length-shift_up k i (set arr (suc (k + i)) v) ∙ length-set arr (suc (k + i)) v

pub insert-IsChunk :
    (u : AdjUnit) {ncnt : ℕ} {c : LeafChunk}
    → IsChunk ncnt c
    → c.count < ncnt
    → IsChunk ncnt (insert u c)
unfolding insert
insert-IsChunk u {c} is h =
    let i = scan u.dest c.neighboor_chunk c.count in
    record {
      size = length-set _ i u ∙ (length-shift_up (c.count - i) i c.neighboor_chunk ∙ is.size);
      fits = omega arith;
    }

-- `Insert` leaves the links of the chunk alone.
pub insert-links :
    (u : AdjUnit) (c : LeafChunk)
    → ((insert u c).next_ptr ≡ c.next_ptr) × ((insert u c).next_type ≡ c.next_type)
unfolding insert
insert-links u c = (refl, refl)
