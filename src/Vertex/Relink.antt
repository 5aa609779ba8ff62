-- ===== src/Vertex/Relink.antt =====
-- A new link at the end of a tree's chain leaves the tree as it is.
use gast_co_co.Prelude.{
  ℕ, ◌≡◌, refl, sym, ap, subst, fun_ext, ◌∙◌, List, [], ◌∷◌, ◌++◌, ◌==◌, ℤ, Bool-cases, inl, inr,
  ==→eq,
}
use gast_co_co.Prelude.Distinct.{Absent, Distinct, Distinct-middle, All-map}
use gast_co_co.Types.{AdjUnit, NextPointer}
use gast_co_co.Leaf.{LeafChunk, IsChunk}
use gast_co_co.Tree.{Heap, write}
use gast_co_co.Tree.Items.{Item}
use gast_co_co.Tree.Order.{units, stored}
use gast_co_co.Tree.Rows.{addresses}
use gast_co_co.Tree.Chain.{IsLinked}
use gast_co_co.Tree.Valid.{IsRow, stored-write, write_self, write_other}
use gast_co_co.Vertex.{relink}

stored-relink : (a : ℕ) (p : NextPointer) (t : ℤ) (h : Heap) → stored (relink a p t h) ≡ stored h
unfolding relink
stored-relink a p t h =
    stored-write h a (record (h.chunk a) { next_ptr = p; next_type = t })
    ∙ fun_ext λ b. elim (Bool-cases (b == a)) [ inl e ↦ rw (e, ==→eq b a e) | inr e ↦ rw e ]

IsLinked-relink :
    (a : ℕ) (p p' : NextPointer) (t t' : ℤ) (h : Heap) (xs : List ℕ)
    → Absent a xs
    → IsLinked h.chunk (xs ++ a ∷ []) p t
    → IsLinked (relink a p' t' h).chunk (xs ++ a ∷ []) p' t'
unfolding relink
IsLinked-relink a p p' t t' h [] na l =
    let c = record (h.chunk a) { next_ptr = p'; next_type = t' } in
    rw (write_self h a c) (refl, refl, tt)
IsLinked-relink a p p' t t' h (x ∷ []) na l =
    let c = record (h.chunk a) { next_ptr = p'; next_type = t' } in
    let same = write_other h a c x (λ e. na.0 (sym e)) in
    (
      ap (λ (k : LeafChunk). k.next_ptr) same ∙ l.0,
      ap (λ (k : LeafChunk). k.next_type) same ∙ l.1,
      IsLinked-relink a p p' t t' h [] tt l.2,
    )
IsLinked-relink a p p' t t' h (x ∷ y ∷ xs) na l =
    let c = record (h.chunk a) { next_ptr = p'; next_type = t' } in
    let same = write_other h a c x (λ e. na.0 (sym e)) in
    (
      ap (λ (k : LeafChunk). k.next_ptr) same ∙ l.0,
      ap (λ (k : LeafChunk). k.next_type) same ∙ l.1,
      IsLinked-relink a p p' t t' h (y ∷ xs) na.1 l.2,
    )

pub units-relink :
    (a : ℕ) (p : NextPointer) (t : ℤ) (h : Heap) (row : List Item)
    → units (stored (relink a p t h)) row ≡ units (stored h) row
units-relink a p t h row = ap (λ (f : ℕ → List AdjUnit). units f row) (stored-relink a p t h)

relink-IsChunk :
    (ncnt a : ℕ) (p : NextPointer) (t : ℤ) (h : Heap) (x : ℕ)
    → IsChunk ncnt (h.chunk x)
    → IsChunk ncnt ((relink a p t h).chunk x)
unfolding relink write
relink-IsChunk ncnt a p t h x is = elim (Bool-cases (x == a)) [
  | inl q ↦
      let is' = subst (λ y. IsChunk ncnt (h.chunk y)) (==→eq x a q) is in
      rw q (record { size = is'.size; fits = is'.fits })
  | inr q ↦ rw q is
]

pub relink-IsRow :
    (ncnt a : ℕ) (p p' : NextPointer) (t t' : ℤ) (h : Heap) (row : List Item) (front : List ℕ)
    → addresses row ≡ front ++ a ∷ []
    → IsRow ncnt h p t row
    → IsRow ncnt (relink a p' t' h) p' t' row
unfolding relink write
relink-IsRow ncnt a p p' t t' h row front e valid = record {
  sorted = rw (stored-relink a p' t' h) valid.sorted;
  chunks =
      All-map (λ x. IsChunk ncnt (h.chunk x)) (λ x. IsChunk ncnt ((relink a p' t' h).chunk x))
        (relink-IsChunk ncnt a p' t' h) (addresses row) valid.chunks;
  distinct = valid.distinct;
  allocated = valid.allocated;
  linked =
      subst (λ x. IsLinked (relink a p' t' h).chunk x p' t') (sym e)
        (IsLinked-relink a p p' t t' h front
          (Distinct-middle a front [] (subst Distinct e valid.distinct)).0
          (subst (λ x. IsLinked h.chunk x p t) e valid.linked));
}
