-- ===== src/Tree/Insert.antt =====
-- `BplusTree::Insert`: the whole operation, from the search to the splits on the way to the root.
use gast_co_co.Prelude.{
  ℕ, ◌*◌, ◌<◌, ◌≤◌, ◌≡◌, sym, ap, subst, List, [], ◌∷◌, ◌++◌, arith, if◌then◌else◌, ℤ, Bool-cases,
  inl, inr, ltb, ltb→lt, ltb→ge, append_assoc,
}
use gast_co_co.Prelude.Distinct.{Absent}
use gast_co_co.Prelude.Sorted.{Above, IsSorted, AllBelow, Above-trans}
use gast_co_co.Types.{AdjUnit, NextPointer}
use gast_co_co.Leaf
use gast_co_co.Leaf.{LeafChunk, new_leaf_chunk, leafchunk_level, IsChunk}
use gast_co_co.Leaf.Insert.{insert_sorted}
use gast_co_co.Tree.{Heap, write, alloc, split_leaf}
use gast_co_co.Tree.Items.{Item, at, sep}
use gast_co_co.Tree.Order.{unit_code, codes, units, stored, IsSorted-codes}
use gast_co_co.Tree.Search.{below-key}
use gast_co_co.Tree.Valid.{
  IsRow, dests, put, write-write_back, write-write_self, units-put, put-IsRow,
}
use gast_co_co.Tree.Divide.{
  parts, divided, divided_row, apart, fresh_apart, divided-old, divided-new, divided-IsRow,
  divided-counts, units-divided, codes-divided,
}

-- What an insertion is to establish of a heap and a row.
abbrev pub Inserted :
    (ncnt : ℕ) → AdjUnit → NextPointer → ℤ → List AdjUnit → Heap → List Item → Type 0
Inserted ncnt u p t us h row = IsRow ncnt h p t row × (units (stored h) row ≡ insert_sorted u us)

-- Insertion in a chunk with a free cell.
pub put-Inserted :
    (ncnt : ℕ) (u : AdjUnit) (h : Heap) (p : NextPointer) (t : ℤ) (ls : List Item) (a : ℕ)
    (rs : List Item)
    → IsRow ncnt h p t (ls ++ (at a ∷ rs))
    → AllBelow (codes (stored h) ls) (unit_code u ∷ [])
    → Above (unit_code u) (codes (stored h) rs)
    → Absent u.dest (dests (units (stored h) (ls ++ (at a ∷ rs))))
    → (h.chunk a).count < ncnt
    → Inserted ncnt u p t (units (stored h) (ls ++ (at a ∷ rs))) (put u a h) (ls ++ (at a ∷ rs))
put-Inserted ncnt u h p t ls a rs valid below above new room = (
  put-IsRow ncnt u h p t ls a rs valid below above room new,
  units-put ncnt u h p t ls a rs valid below above room,
)

-- The two chunks of a split, with the key between them: the unit goes to the one that the key says.
module _ (ncnt : ℕ) (u : AdjUnit) (h : Heap) (p : NextPointer) (t : ℤ) (ls : List Item) (a k b : ℕ)
    (rs : List Item) (valid : IsRow ncnt h p t (ls ++ (at a ∷ sep k ∷ at b ∷ rs)))
    (below : AllBelow (codes (stored h) ls) (unit_code u ∷ []))
    (above : Above (unit_code u) (codes (stored h) rs))
    (new : Absent u.dest (dests (units (stored h) (ls ++ (at a ∷ sep k ∷ at b ∷ rs))))) where
  put-low :
      u.dest < k
      → (h.chunk a).count < ncnt
      → Inserted ncnt u p t
          (units (stored h) (ls ++ (at a ∷ sep k ∷ at b ∷ rs)))
          (put u a h)
          (ls ++ (at a ∷ sep k ∷ at b ∷ rs))
  put-low lt room =
      let f = stored h in
      let tail = IsSorted-codes f (ls ++ at a ∷ []) (sep k ∷ at b ∷ rs) (
        subst (λ x. IsSorted (codes f x)) (sym (append_assoc ls (at a ∷ []) (sep k ∷ at b ∷ rs)))
          valid.sorted) in
      put-Inserted ncnt u h p t ls a (sep k ∷ at b ∷ rs) valid below
        (omega arith, Above-trans (unit_code u) (2 * k) (codes f (at b ∷ rs)) (omega arith) tail.0)
        new room

  put-high :
      k ≤ u.dest
      → (h.chunk b).count < ncnt
      → Inserted ncnt u p t
          (units (stored h) (ls ++ (at a ∷ sep k ∷ at b ∷ rs)))
          (put u b h)
          (ls ++ (at a ∷ sep k ∷ at b ∷ rs))
  put-high ge room =
      let f = stored h in
      let e : (ls ++ (at a ∷ sep k ∷ [])) ++ (at b ∷ rs) ≡ ls ++ (at a ∷ sep k ∷ at b ∷ rs) =
        append_assoc ls (at a ∷ sep k ∷ []) (at b ∷ rs) in
      let under =
        below-key f u.dest (ls ++ at a ∷ []) k (at b ∷ rs)
          (subst (λ x. IsSorted (codes f x)) (sym (append_assoc ls (at a ∷ []) (sep k ∷ at b ∷ rs)))
            valid.sorted)
          (omega arith) in
      subst
        (λ row.
          IsRow ncnt h p t row
          → Absent u.dest (dests (units f row))
          → Inserted ncnt u p t (units f row) (put u b h) row)
        e
        (λ is no.
          put-Inserted ncnt u h p t (ls ++ (at a ∷ sep k ∷ [])) b rs is
            (subst (λ x. AllBelow (codes f x) (unit_code u ∷ []))
              (append_assoc ls (at a ∷ []) (sep k ∷ [])) under)
            above no room)
        valid new

module _ (ncnt : ℕ) (u : AdjUnit) (h : Heap) (p : NextPointer) (t : ℤ) (ls : List Item) (a : ℕ)
    (rs : List Item) (valid : IsRow ncnt h p t (ls ++ (at a ∷ rs)))
    (full : (h.chunk a).count ≡ ncnt) (two : 2 ≤ ncnt) where
  abbrev pub cut_heap : Heap
  cut_heap = divided ncnt h p t ls a rs valid full two

  abbrev pub key : ℕ
  key = (parts ncnt h p t ls a rs valid full two).2

  abbrev pub cut_row : List Item
  cut_row = divided_row ncnt h p t ls a rs valid full two

  pub cut-IsRow : IsRow ncnt cut_heap p t cut_row
  cut-IsRow = divided-IsRow ncnt h p t ls a rs valid full two

  abbrev pub target : ℕ
  target = if ltb u.dest key then a else h.fresh

  pub divided-Inserted :
      AllBelow (codes (stored h) ls) (unit_code u ∷ [])
      → Above (unit_code u) (codes (stored h) rs)
      → Absent u.dest (dests (units (stored h) (ls ++ (at a ∷ rs))))
      → Inserted ncnt u p t (units (stored h) (ls ++ (at a ∷ rs))) (put u target cut_heap) cut_row
  divided-Inserted below above new =
      let apart_a = apart ncnt h p t ls a rs valid full two in
      let apart_b = fresh_apart ncnt h p t ls a rs valid full two in
      let side = codes-divided ncnt h p t ls a rs valid full two in
      let same = units-divided ncnt h p t ls a rs valid full two in
      let counts = divided-counts ncnt h p t ls a rs valid full two in
      let below' : AllBelow (codes (stored cut_heap) ls) (unit_code u ∷ []) =
        rw (side ls apart_a.0 apart_b.0) below in
      let above' : Above (unit_code u) (codes (stored cut_heap) rs) =
        rw (side rs apart_a.1 apart_b.2) above in
      let new' : Absent u.dest (dests (units (stored cut_heap) cut_row)) = rw same new in
      subst (λ us. Inserted ncnt u p t us (put u target cut_heap) cut_row) same
        (elim (Bool-cases (ltb u.dest key)) [
          | inl lt ↦ rw lt (
              put-low ncnt u cut_heap p t ls a key h.fresh rs cut-IsRow below' above' new'
                (ltb→lt u.dest key lt) counts.0)
          | inr ge ↦ rw ge (
              put-high ncnt u cut_heap p t ls a key h.fresh rs cut-IsRow below' above' new'
                (ltb→ge u.dest key ge) counts.1)
        ])

  alloc-chunk : (alloc ncnt h).chunk h.fresh ≡ new_leaf_chunk ncnt
  unfolding alloc write
  alloc-chunk = ground arith

  pub split_leaf-eq : split_leaf ncnt u a h ≡ (put u target cut_heap, key)
  unfolding split_leaf
  split_leaf-eq =
      let ne = (fresh_apart ncnt h p t ls a rs valid full two).1 in
      let old = (parts ncnt h p t ls a rs valid full two).0 in
      let fresh = (parts ncnt h p t ls a rs valid full two).1 in
      let g = alloc ncnt h in
      rw alloc-chunk (elim (Bool-cases (ltb u.dest key)) [
        | inl lt ↦ rw lt (
            rw (divided-old ncnt h p t ls a rs valid full two) (
              ap (λ (x : Heap). let r : Heap × ℕ = (x, key) in r)
                (sym (write-write_back g a h.fresh old fresh (Leaf.insert u old) ne))))
        | inr ge ↦ rw ge (
            rw (divided-new ncnt h p t ls a rs valid full two) (
              ap (λ (x : Heap). let r : Heap × ℕ = (x, key) in r)
                (sym (write-write_self (write g a old) h.fresh fresh (Leaf.insert u fresh)))))
      ])
