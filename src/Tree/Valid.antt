-- ===== src/Tree/Valid.antt =====
-- The invariant of a tree and its heap, by the row of items, and insertion into one of its leaf
-- chunks that has a free cell.
use gast_co_co.Prelude.{
  ℕ, ◌+◌, ◌*◌, ◌<◌, ◌≡◌, ◌≢◌, refl, ap, subst, fun_ext, ◌∙◌, List, [], ◌∷◌, ◌++◌, arith, ◌==◌, ℤ,
  Bool-cases, inl, inr, ==→eq,
}
use gast_co_co.Prelude.Distinct.{
  Absent, Absent-append, append-Absent, Distinct, Distinct-middle, All, All-map, All-append,
}
use gast_co_co.Prelude.Sorted.{Above, IsSorted, AllBelow, IsSorted-insert_num}
use gast_co_co.Types.{AdjUnit, NextPointer}
use gast_co_co.Leaf
use gast_co_co.Leaf.{LeafChunk, IsChunk, entries}
use gast_co_co.Leaf.Insert.{insert_sorted, insert-entries, insert-IsChunk, insert-links}
use gast_co_co.Tree.{Heap, write}
use gast_co_co.Tree.Items.{Item, at, sep}
use gast_co_co.Tree.Order.{unit_code, unit_codes, codes, units, stored}
use gast_co_co.Tree.Rows.{addresses, addresses-append, update, codes-taken, units-taken}
use gast_co_co.Tree.Chain.{IsLinked, IsLinked-same, SameLinks}

abbrev pub dests : List AdjUnit → List ℕ
dests [] = []
dests (u ∷ us) = u.dest ∷ dests us

-- A row of items in a heap, `p` and `t` being the link of its last chunk: keys and units ascend
-- strictly, every chunk has the capacity `ncnt`, no chunk stands in the row twice, all are
-- allocated, and they are linked in the order of the row.
pub record IsRow (ncnt : ℕ) (h : Heap) (p : NextPointer) (t : ℤ) (row : List Item) : Type 0 where
  pub sorted : IsSorted (codes (stored h) row)
  pub chunks : All (λ a. IsChunk ncnt (h.chunk a)) (addresses row)
  pub distinct : Distinct (addresses row)
  pub allocated : All (λ a. a < h.fresh) (addresses row)
  pub linked : IsLinked h.chunk (addresses row) p t

pub dests-append : (xs ys : List AdjUnit) → dests (xs ++ ys) ≡ dests xs ++ dests ys
dests-append [] ys = refl
dests-append (x ∷ xs) ys = ap (◌∷◌ x.dest) (dests-append xs ys)

Absent-unit_codes :
    (d : ℕ) (us : List AdjUnit) → Absent d (dests us) → Absent (2 * d + 1) (unit_codes us)
Absent-unit_codes d [] h = tt
Absent-unit_codes d (u ∷ us) h = ((λ e. h.0 (omega arith)), Absent-unit_codes d us h.1)

-- A neighbour that no unit has is the code of no unit and of no key.
pub Absent-codes :
    (f : ℕ → List AdjUnit) (d : ℕ) (is : List Item)
    → Absent d (dests (units f is))
    → Absent (2 * d + 1) (codes f is)
Absent-codes f d [] h = tt
Absent-codes f d (at a ∷ is) h =
    let (p, q) =
      Absent-append d (dests (f a)) (dests (units f is))
        (rw (dests-append (f a) (units f is)) at h) in
    append-Absent (2 * d + 1) (unit_codes (f a)) (codes f is) (Absent-unit_codes d (f a) p)
      (Absent-codes f d is q)
Absent-codes f d (sep k ∷ is) h = ((λ e. absurd (omega arith)), Absent-codes f d is h)

-- The units of a heap in which one chunk was written.
pub stored-write :
    (h : Heap) (a : ℕ) (c : LeafChunk) → stored (write h a c) ≡ update (stored h) a (entries c)
unfolding write
stored-write h a c = fun_ext λ b. elim (Bool-cases (b == a)) [ inl e ↦ rw e | inr e ↦ rw e ]

module _ (h : Heap) (a : ℕ) (c : LeafChunk) where
  pub write_self : (write h a c).chunk a ≡ c
  unfolding write
  write_self = ground arith

  pub write_other : (b : ℕ) → b ≢ a → (write h a c).chunk b ≡ h.chunk b
  unfolding write
  write_other b e = ground arith

Heap-ext : (g h : Heap) → ((x : ℕ) → g.chunk x ≡ h.chunk x) → g.fresh ≡ h.fresh → g ≡ h
Heap-ext g h p q = λ i. record { chunk = fun_ext p i; fresh = q i }

pub write-write_self : (h : Heap) (a : ℕ) (c d : LeafChunk) → write (write h a c) a d ≡ write h a d
unfolding write
write-write_self h a c d = Heap-ext (write (write h a c) a d) (write h a d) (λ x. ground arith) refl

pub write-write_back :
    (h : Heap) (a b : ℕ) (c d c' : LeafChunk)
    → b ≢ a
    → write (write (write h a c) b d) a c' ≡ write (write h a c') b d
unfolding write
write-write_back h a b c d c' ne =
    Heap-ext (write (write (write h a c) b d) a c') (write (write h a c') b d) (λ x. ground arith)
      refl

-- The heap after `LeafChunk::Insert` of the chunk at `a`.
abbrev pub put : AdjUnit → ℕ → Heap → Heap
put u a h = write h a (Leaf.insert u (h.chunk a))

module _ (ncnt : ℕ) (u : AdjUnit) (h : Heap) (p : NextPointer) (t : ℤ) (ls : List Item) (a : ℕ)
    (rs : List Item) (valid : IsRow ncnt h p t (ls ++ (at a ∷ rs)))
    (below : AllBelow (codes (stored h) ls) (unit_code u ∷ []))
    (above : Above (unit_code u) (codes (stored h) rs)) (room : (h.chunk a).count < ncnt) where
  open valid use {sorted, chunks, distinct, allocated, linked}

  row : List Item
  row = ls ++ (at a ∷ rs)

  apart : Absent a (addresses ls) × Absent a (addresses rs)
  apart =
      Distinct-middle a (addresses ls) (addresses rs)
        (subst Distinct (addresses-append ls (at a ∷ rs)) distinct)

  a-IsChunk : IsChunk ncnt (h.chunk a)
  a-IsChunk =
      (All-append (λ x. IsChunk ncnt (h.chunk x)) (addresses ls) (a ∷ addresses rs)
        (subst (All (λ x. IsChunk ncnt (h.chunk x))) (addresses-append ls (at a ∷ rs)) chunks)).1.0

  stored-put : stored (put u a h) ≡ update (stored h) a (insert_sorted u (stored h a))
  stored-put =
      stored-write h a (Leaf.insert u (h.chunk a))
      ∙ ap (update (stored h) a) (insert-entries u (h.chunk a) (omega (arith, a-IsChunk.size)))

  -- The units of the row are those before, with the new one at its place.
  pub units-put :
      units (stored (put u a h)) (ls ++ (at a ∷ rs))
      ≡ insert_sorted u (units (stored h) (ls ++ (at a ∷ rs)))
  units-put = rw stored-put (units-taken (stored h) u ls a rs below above apart.0 apart.1)

  same_links : (x : ℕ) → SameLinks h.chunk (put u a h).chunk x
  unfolding write
  same_links x = elim (Bool-cases (x == a)) [
    | inl e ↦ rw (e, ==→eq x a e) (insert-links u (h.chunk a))
    | inr e ↦ rw e (refl, refl)
  ]

  still-IsChunk : (x : ℕ) → IsChunk ncnt (h.chunk x) → IsChunk ncnt ((put u a h).chunk x)
  unfolding write
  still-IsChunk x is = elim (Bool-cases (x == a)) [
    | inl e ↦ rw e (insert-IsChunk u a-IsChunk room)
    | inr e ↦ rw e is
  ]

  pub put-IsRow :
      Absent u.dest (dests (units (stored h) (ls ++ (at a ∷ rs))))
      → IsRow ncnt (put u a h) p t (ls ++ (at a ∷ rs))
  unfolding write
  put-IsRow new = record {
    sorted =
        rw (stored-put, codes-taken (stored h) u ls a rs below above apart.0 apart.1)
          (IsSorted-insert_num (unit_code u) (codes (stored h) (ls ++ (at a ∷ rs))) sorted
            (Absent-codes (stored h) u.dest (ls ++ (at a ∷ rs)) new));
    chunks =
        All-map (λ x. IsChunk ncnt (h.chunk x)) (λ x. IsChunk ncnt ((put u a h).chunk x))
          still-IsChunk (addresses (ls ++ (at a ∷ rs))) chunks;
    distinct = distinct;
    allocated = allocated;
    linked =
        IsLinked-same h.chunk (put u a h).chunk p t same_links (addresses (ls ++ (at a ∷ rs)))
          linked;
  }
