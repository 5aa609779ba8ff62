-- ===== src/Tree/Chain.antt =====
-- The chain of `nextPtr` fields through the leaf chunks of a tree: from each chunk to the next one in
-- the tree, and from the last one to whatever follows.
use gast_co_co.Prelude.{ℕ, ◌≡◌, ◌≢◌, refl, sym, ◌∙◌, List, [], ◌∷◌, ◌++◌, ℤ, pos}
use gast_co_co.Prelude.Distinct.{Absent}
use gast_co_co.Types.{NextPointer, leaf_chunk}
use gast_co_co.Leaf.{LeafChunk, leafchunk_level}

-- What comes after a chunk: the next of the list, or the end's pointer and type.
abbrev pub next_of : List ℕ → NextPointer → NextPointer
next_of [] p = p
next_of (b ∷ bs) p = leaf_chunk b

abbrev pub type_of : List ℕ → ℤ → ℤ
type_of [] t = t
type_of (b ∷ bs) t = pos leafchunk_level

abbrev pub IsLinked : (ℕ → LeafChunk) → List ℕ → NextPointer → ℤ → Type 0
IsLinked c [] p t = Unit
IsLinked c (a ∷ as') p t =
    ((c a).next_ptr ≡ next_of as' p) × ((c a).next_type ≡ type_of as' t) × IsLinked c as' p t

-- Two heaps have the same links at an address.
abbrev pub SameLinks : (ℕ → LeafChunk) → (ℕ → LeafChunk) → ℕ → Type 0
SameLinks c d a = ((d a).next_ptr ≡ (c a).next_ptr) × ((d a).next_type ≡ (c a).next_type)

module _ (c d : ℕ → LeafChunk) (p : NextPointer) (t : ℤ) where
  pub IsLinked-same :
      ((x : ℕ) → SameLinks c d x) → (xs : List ℕ) → IsLinked c xs p t → IsLinked d xs p t
  IsLinked-same same [] h = tt
  IsLinked-same same (x ∷ xs) h = ((same x).0 ∙ h.0, (same x).1 ∙ h.1, IsLinked-same same xs h.2)

  IsLinked-but :
      (a b : ℕ)
      → ((x : ℕ) → x ≢ a → x ≢ b → SameLinks c d x)
      → (xs : List ℕ) → Absent a xs
      → Absent b xs
      → IsLinked c xs p t
      → IsLinked d xs p t
  IsLinked-but a b same [] na nb h = tt
  IsLinked-but a b same (x ∷ xs) na nb h =
      let here = same x (λ e. na.0 (sym e)) (λ e. nb.0 (sym e)) in
      (here.0 ∙ h.0, here.1 ∙ h.1, IsLinked-but a b same xs na.1 nb.1 h.2)

  next_of-middle :
      (xs : List ℕ) (a : ℕ) (ys zs : List ℕ)
      → (next_of (xs ++ a ∷ ys) p ≡ next_of (xs ++ a ∷ zs) p)
        × (type_of (xs ++ a ∷ ys) t ≡ type_of (xs ++ a ∷ zs) t)
  next_of-middle [] a ys zs = (refl, refl)
  next_of-middle (x ∷ xs) a ys zs = (refl, refl)

  -- A chunk `b` is linked in behind `a`, with what `a` was linked to.
  pub IsLinked-behind :
      (a b : ℕ)
      → ((x : ℕ) → x ≢ a → x ≢ b → SameLinks c d x)
      → ((d a).next_ptr ≡ leaf_chunk b) × ((d a).next_type ≡ pos leafchunk_level)
      → ((d b).next_ptr ≡ (c a).next_ptr) × ((d b).next_type ≡ (c a).next_type)
      → (xs ys : List ℕ) → Absent a xs × Absent a ys
      → Absent b xs × Absent b ys
      → IsLinked c (xs ++ a ∷ ys) p t
      → IsLinked d (xs ++ a ∷ b ∷ ys) p t
  IsLinked-behind a b same ha hb [] ys na nb h =
      (ha.0, ha.1, (hb.0 ∙ h.0, hb.1 ∙ h.1, IsLinked-but a b same ys na.1 nb.1 h.2))
  IsLinked-behind a b same ha hb (x ∷ xs) ys na nb h =
      let here = same x (λ e. na.0.0 (sym e)) (λ e. nb.0.0 (sym e)) in
      let next = next_of-middle xs a ys (b ∷ ys) in
      (
        here.0 ∙ h.0 ∙ next.0,
        here.1 ∙ h.1 ∙ next.1,
        IsLinked-behind a b same ha hb xs ys (na.0.1, na.1) (nb.0.1, nb.1) h.2,
      )
