-- ===== src/Tree/Divide.antt =====
-- The split of a full leaf chunk in `BplusTree::Insert`, before the new unit goes to one of the two.
use gast_co_co.Prelude.{
  ℕ, zero, suc, ◌+◌, ◌/◌, ◌<◌, ◌≤◌, ◌≡◌, ◌≢◌, refl, sym, ap, subst, fun_ext, ◌∙◌, List, [], ◌∷◌,
  ◌++◌, arith, ◌==◌, ℤ, Bool-cases, inl, inr, length, take, drop, get_or, length-take, length-drop,
  take-append-drop,
}
use gast_co_co.Prelude.Distinct.{
  Absent, Absent-append, Distinct, Distinct-middle, Distinct-behind, All, All-map, All-append,
  append-All, Absent-fresh,
}
use gast_co_co.Types.{AdjUnit, NextPointer}
use gast_co_co.Leaf
use gast_co_co.Leaf.{LeafChunk, IsChunk, entries, no_unit, new_leaf_chunk}
use gast_co_co.Leaf.Split.{split-entries, split-IsSplit, split-key, IsSplit}
use gast_co_co.Tree.{Heap, write, alloc}
use gast_co_co.Tree.Items.{Item, at, sep}
use gast_co_co.Tree.Order.{codes, units, stored}
use gast_co_co.Tree.Rows.{addresses, addresses-append}
use gast_co_co.Tree.Halved.{halved, codes-side, units-halved, IsSorted-halved}
use gast_co_co.Tree.Chain.{IsLinked, IsLinked-behind, SameLinks}
use gast_co_co.Tree.Valid.{IsRow}

-- A full chunk's units in two parts that are not empty, as its split leaves them.
pub record Cut (c old new : LeafChunk) (key : ℕ) : Type 0 where
  pub l : AdjUnit
  pub lower : List AdjUnit
  pub v : AdjUnit
  pub upper : List AdjUnit
  pub whole : entries c ≡ (l ∷ lower) ++ (v ∷ upper)
  pub low : entries old ≡ l ∷ lower
  pub high : entries new ≡ v ∷ upper
  pub first : key ≡ v.dest

cons_of_length :
    (xs : List AdjUnit) → 0 < length xs → (x : AdjUnit) × (ys : List AdjUnit) × (xs ≡ x ∷ ys)
cons_of_length [] h = absurd (omega arith)
cons_of_length (x ∷ xs) h = (x, xs, refl)

head-take :
    (n : ℕ) (xs : List AdjUnit) (v : AdjUnit) (us : List AdjUnit)
    → take n xs ≡ v ∷ us
    → get_or xs 0 no_unit ≡ v
head-take zero xs v us h = cc
head-take (suc n) [] v us h = cc
head-take (suc n) (x ∷ xs) v us h = cc

pub split-Cut :
    (ncnt b : ℕ) (c : LeafChunk)
    → length c.neighboor_chunk ≡ ncnt
    → c.count ≡ ncnt
    → 2 ≤ ncnt
    → let r = Leaf.split ncnt b c (new_leaf_chunk ncnt) in Cut c r.0 r.1 r.2
split-Cut ncnt b c size full room =
    let r = Leaf.split ncnt b c (new_leaf_chunk ncnt) in
    let (low, high) = split-entries ncnt b c size full in
    let n = ncnt / 2 in
    let whole_size = length-take c.count c.neighboor_chunk in
    let (l, lower, el) =
      cons_of_length (take n (entries c)) (omega (arith, length-take n (entries c))) in
    let (v, upper, ev) =
      cons_of_length (drop n (entries c)) (omega (arith, length-drop n (entries c))) in
    record {
      l = l;
      lower = lower;
      v = v;
      upper = upper;
      whole = sym (take-append-drop n (entries c)) ∙ cc;
      low = low ∙ el;
      high = high ∙ ev;
      first =
          split-key ncnt b c
          ∙ ap (λ (x : AdjUnit). x.dest)
              (head-take r.1.count r.1.neighboor_chunk v upper (high ∙ ev));
    }

module _ (ncnt : ℕ) (h : Heap) (p : NextPointer) (t : ℤ) (ls : List Item) (a : ℕ) (rs : List Item)
    (valid : IsRow ncnt h p t (ls ++ (at a ∷ rs))) (full : (h.chunk a).count ≡ ncnt)
    (room : 2 ≤ ncnt) where
  open valid use {sorted, chunks, distinct, allocated, linked}

  abbrev pub parts : LeafChunk × LeafChunk × ℕ
  parts = Leaf.split ncnt h.fresh (h.chunk a) (new_leaf_chunk ncnt)

  -- The heap in which the two chunks are written.
  abbrev pub divided : Heap
  divided = write (write (alloc ncnt h) a parts.0) h.fresh parts.1

  abbrev pub divided_row : List Item
  divided_row = ls ++ (at a ∷ sep parts.2 ∷ at h.fresh ∷ rs)

  as' : addresses (ls ++ (at a ∷ rs)) ≡ addresses ls ++ a ∷ addresses rs
  as' = addresses-append ls (at a ∷ rs)

  pub apart : Absent a (addresses ls) × Absent a (addresses rs)
  apart = Distinct-middle a (addresses ls) (addresses rs) (subst Distinct as' distinct)

  all_fresh : Absent h.fresh (addresses ls ++ a ∷ addresses rs)
  all_fresh =
      subst (Absent h.fresh) as' (Absent-fresh h.fresh (addresses (ls ++ (at a ∷ rs))) allocated)

  pub fresh_apart : Absent h.fresh (addresses ls) × (h.fresh ≢ a) × Absent h.fresh (addresses rs)
  fresh_apart =
      let (q, r) = Absent-append h.fresh (addresses ls) (a ∷ addresses rs) all_fresh in
      (q, r.0, r.1)

  a-IsChunk : IsChunk ncnt (h.chunk a)
  a-IsChunk =
      (All-append (λ x. IsChunk ncnt (h.chunk x)) (addresses ls) (a ∷ addresses rs)
        (subst (All (λ x. IsChunk ncnt (h.chunk x))) as' chunks)).1.0

  pub cut : Cut (h.chunk a) parts.0 parts.1 parts.2
  cut = split-Cut ncnt h.fresh (h.chunk a) a-IsChunk.size full room

  pub is_split : IsSplit ncnt h.fresh (h.chunk a) parts.0 parts.1
  is_split = split-IsSplit ncnt h.fresh (h.chunk a) a-IsChunk.size full

  pub stored-divided :
      stored divided
      ≡ halved
          (stored h)
          ls
          a
          rs
          h.fresh
          cut.l
          cut.lower
          cut.v
          cut.upper
          cut.whole
          fresh_apart.1
          apart.0
          apart.1
          fresh_apart.0
          fresh_apart.2
  unfolding alloc write
  stored-divided = fun_ext λ x. elim (Bool-cases (x == h.fresh)) [
    | inl e ↦ rw e cut.high
    | inr e ↦ elim (Bool-cases (x == a)) [ inl q ↦ rw (e, q) cut.low | inr q ↦ rw (e, q) ]
  ]

  pub units-divided : units (stored divided) divided_row ≡ units (stored h) (ls ++ (at a ∷ rs))
  units-divided =
      rw (stored-divided, cut.first)
        (units-halved (stored h) ls a rs h.fresh cut.l cut.lower cut.v cut.upper cut.whole
          fresh_apart.1 apart.0 apart.1 fresh_apart.0 fresh_apart.2)

  divided-chunk : (x : ℕ) → IsChunk ncnt (h.chunk x) → IsChunk ncnt (divided.chunk x)
  unfolding alloc write
  divided-chunk x is = elim (Bool-cases (x == h.fresh)) [
    | inl e ↦ rw e is_split.new_chunk
    | inr e ↦ elim (Bool-cases (x == a)) [
      | inl q ↦ rw (e, q) is_split.old_chunk
      | inr q ↦ rw (e, q) is
    ]
  ]

  pub divided-old : divided.chunk a ≡ parts.0
  unfolding alloc write
  divided-old = let ne = fresh_apart.1 in ground arith

  pub divided-new : divided.chunk h.fresh ≡ parts.1
  unfolding alloc write
  divided-new = ground arith

  divided-links : (x : ℕ) → x ≢ a → x ≢ h.fresh → SameLinks h.chunk divided.chunk x
  unfolding alloc write
  divided-links x p q = ground arith

  pub divided-IsRow : IsRow ncnt divided p t divided_row
  unfolding alloc write
  divided-IsRow =
      let rs' = addresses-append ls (at a ∷ sep parts.2 ∷ at h.fresh ∷ rs) in
      let chunk_parts =
        All-append (λ x. IsChunk ncnt (divided.chunk x)) (addresses ls) (a ∷ addresses rs)
          (subst (All (λ x. IsChunk ncnt (divided.chunk x))) as' (
            All-map (λ x. IsChunk ncnt (h.chunk x)) (λ x. IsChunk ncnt (divided.chunk x))
              divided-chunk (addresses (ls ++ (at a ∷ rs))) chunks)) in
      let later =
        All-append (λ x. x < h.fresh + 1) (addresses ls) (a ∷ addresses rs)
          (subst (All (λ x. x < h.fresh + 1)) as' (
            All-map (λ x. x < h.fresh) (λ x. x < h.fresh + 1) (λ x l. omega arith)
              (addresses (ls ++ (at a ∷ rs))) allocated)) in
      let new_is : IsChunk ncnt (divided.chunk h.fresh) = rw divided-new is_split.new_chunk in
      record {
        sorted =
            rw (stored-divided, cut.first)
              (IsSorted-halved (stored h) ls a rs h.fresh cut.l cut.lower cut.v cut.upper cut.whole
                fresh_apart.1 apart.0 apart.1 fresh_apart.0 fresh_apart.2 sorted);
        chunks = subst (All (λ x. IsChunk ncnt (divided.chunk x))) (sym rs') (
            append-All (λ x. IsChunk ncnt (divided.chunk x)) (addresses ls)
              (a ∷ h.fresh ∷ addresses rs) chunk_parts.0
              (chunk_parts.1.0, (new_is, chunk_parts.1.1)));
        distinct = subst Distinct (sym rs') (
            Distinct-behind a h.fresh (addresses ls) (addresses rs) (subst Distinct as' distinct)
              all_fresh);
        allocated = subst (All (λ x. x < h.fresh + 1)) (sym rs') (
            append-All (λ x. x < h.fresh + 1) (addresses ls) (a ∷ h.fresh ∷ addresses rs) later.0
              (later.1.0, (omega arith, later.1.1)));
        linked =
            subst (λ x. IsLinked divided.chunk x p t) (sym rs')
              (IsLinked-behind h.chunk divided.chunk p t a h.fresh divided-links
                (rw divided-old (is_split.old_next, is_split.old_type))
                (rw divided-new (is_split.new_next, is_split.new_type)) (addresses ls)
                (addresses rs) apart (fresh_apart.0, fresh_apart.2)
                (subst (λ x. IsLinked h.chunk x p t) as' linked));
      }

  pub divided-counts : ((divided.chunk a).count < ncnt) × ((divided.chunk h.fresh).count < ncnt)
  divided-counts =
      rw (divided-old, divided-new)
        (omega (arith, is_split.old_count), omega (arith, is_split.new_count))

  pub codes-divided :
      (is : List Item)
      → Absent a (addresses is)
      → Absent h.fresh (addresses is)
      → codes (stored divided) is ≡ codes (stored h) is
  codes-divided is p q = rw stored-divided (
      codes-side (stored h) ls a rs h.fresh cut.l cut.lower cut.v cut.upper cut.whole fresh_apart.1
        apart.0 apart.1 fresh_apart.0 fresh_apart.2 is p q)
