-- ===== src/Vertex/Same.antt =====
-- A vertex whose chunks have not changed stands for the same units.
use gast_co_co.Prelude.{
  ℕ, ◌<◌, ◌≤◌, ◌≡◌, refl, sym, ap, ap₂, subst, ◌∙◌, List, [], ◌∷◌, ◌++◌, arith, ℤ, inl, inr,
}
use gast_co_co.Prelude.Distinct.{All, All-map}
use gast_co_co.Types.{AdjUnit, NextPointer}
use gast_co_co.Leaf.{LeafChunk, IsChunk, entries}
use gast_co_co.Tree.{Heap, empty_tree}
use gast_co_co.Tree.Items.{Item, at, sep}
use gast_co_co.Tree.Order.{unit_codes, codes, units, stored}
use gast_co_co.Tree.Rows.{addresses}
use gast_co_co.Tree.Chain.{IsLinked}
use gast_co_co.Tree.Valid.{IsRow}
use gast_co_co.Tree.Correct.{root_items}
use gast_co_co.Tree.Ends.{tree_addresses}
use gast_co_co.Vertex.{Store, CblNode, Sizes}
use gast_co_co.Vertex.Valid.{IsVertex}

pub All₂ {κ μ ν} :
    (P : ℕ → Type κ) (Q : ℕ → Type μ) (R : ℕ → Type ν)
    → ((x : ℕ) → P x → Q x → R x)
    → (xs : List ℕ) → All P xs
    → All Q xs
    → All R xs
All₂ P Q R step [] h k = tt
All₂ P Q R step (x ∷ xs) h k = (step x h.0 k.0, All₂ P Q R step xs h.1 k.1)

-- The chunks of the list are the same in both heaps.
abbrev pub SameChunks : Heap → Heap → List ℕ → Type 0
SameChunks h h' xs = All (λ x. h'.chunk x ≡ h.chunk x) xs

module _ (h h' : Heap) where
  codes-same :
      (row : List Item)
      → SameChunks h h' (addresses row)
      → codes (stored h') row ≡ codes (stored h) row
  codes-same [] same = refl
  codes-same (at a ∷ row) same =
      ap₂ ◌++◌ (ap (λ (c : LeafChunk). unit_codes (entries c)) same.0) (codes-same row same.1)
  codes-same (sep k ∷ row) same = rw (codes-same row same) refl

  units-same :
      (row : List Item)
      → SameChunks h h' (addresses row)
      → units (stored h') row ≡ units (stored h) row
  units-same [] same = refl
  units-same (at a ∷ row) same =
      ap₂ ◌++◌ (ap (λ (c : LeafChunk). entries c) same.0) (units-same row same.1)
  units-same (sep k ∷ row) same = units-same row same

  IsLinked-kept :
      (p : NextPointer) (t : ℤ) (xs : List ℕ)
      → SameChunks h h' xs
      → IsLinked h.chunk xs p t
      → IsLinked h'.chunk xs p t
  IsLinked-kept p t [] same l = tt
  IsLinked-kept p t (x ∷ xs) same l = (
    ap (λ (c : LeafChunk). c.next_ptr) same.0 ∙ l.0,
    ap (λ (c : LeafChunk). c.next_type) same.0 ∙ l.1,
    IsLinked-kept p t xs same.1 l.2,
  )

  row-same :
      (ncnt : ℕ) (p : NextPointer) (t : ℤ) (row : List Item)
      → h.fresh ≤ h'.fresh
      → SameChunks h h' (addresses row)
      → IsRow ncnt h p t row
      → IsRow ncnt h' p t row
  row-same ncnt p t row le same valid = record {
    sorted = rw (codes-same row same) valid.sorted;
    chunks =
        All₂ (λ x. h'.chunk x ≡ h.chunk x) (λ x. IsChunk ncnt (h.chunk x))
          (λ x. IsChunk ncnt (h'.chunk x)) (λ x e is. subst (IsChunk ncnt) (sym e) is)
          (addresses row) same valid.chunks;
    distinct = valid.distinct;
    allocated =
        All-map (λ x. x < h.fresh) (λ x. x < h'.fresh) (λ x lt. omega arith) (addresses row)
          valid.allocated;
    linked = IsLinked-kept p t (addresses row) same valid.linked;
  }

pub IsVertex-same :
    (z : Sizes) (s s' : Store) (p : NextPointer) (t : ℤ) (a : ℕ) (v : CblNode) (us : List AdjUnit)
    → s.heap.fresh ≤ s'.heap.fresh
    → s'.lv1 a ≡ s.lv1 a
    → SameChunks s.heap s'.heap (tree_addresses v.bpt)
    → IsVertex z s p t a v us
    → IsVertex z s' p t a v us
IsVertex-same z s s' p t a v us le e same (inl is) = inl (record {
  level = is.level;
  neighboor = is.neighboor;
  counted = is.counted;
  in_use = rw e is.in_use;
  size = rw e is.size;
  fits = is.fits;
  entries_are = rw e is.entries_are;
  link = rw e is.link;
  link_type = rw e is.link_type;
  no_tree = is.no_tree;
  chunks = is.chunks;
  distinct = is.distinct;
})
IsVertex-same z s s' p t a v us le e same (inr is) = inr (record {
  level = is.level;
  tree = record {
    row = row-same s.heap s'.heap z.leaf_ncnt p t (root_items v.bpt.root_node) le same is.tree.row;
    counted = is.tree.counted;
    ending = is.tree.ending;
  };
  units_are = units-same s.heap s'.heap (root_items v.bpt.root_node) same ∙ is.units_are;
  counted = is.counted;
  full = is.full;
  neighboor = is.neighboor;
  chunks = is.chunks;
})

pub vertex-allocated :
    (z : Sizes) (s : Store) (p : NextPointer) (t : ℤ) (a : ℕ) (v : CblNode) (us : List AdjUnit)
    → IsVertex z s p t a v us
    → All (λ x. x < s.heap.fresh) (tree_addresses v.bpt)
unfolding empty_tree
vertex-allocated z s p t a v us (inl is) =
    subst (λ b. All (λ x. x < s.heap.fresh) (tree_addresses b)) (sym is.no_tree) tt
vertex-allocated z s p t a v us (inr is) = is.tree.row.allocated
