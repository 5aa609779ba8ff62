-- ===== src/Vertex/Read/Neighbors.antt =====
-- `GetNeighborOut` and `GetNeighborIn` return the neighbours of all units of the vertex, in order.
use gast_co_co.Prelude.{
  ℕ, zero, suc, ◌+◌, ◌≤◌, ◌≡◌, refl, sym, ap, ◌∙◌, inl, inr, List, [], ◌∷◌, ◌++◌, arith, ◌==◌, true,
  false, some, ℤ, set, replicate, length, length-append, length-replicate, append_assoc, append-nil,
  drop, length-take,
}
use gast_co_co.Prelude.Distinct.{All}
use gast_co_co.Types.{AdjUnit, NextPointer}
use gast_co_co.Leaf.{IsChunk}
use gast_co_co.Tree.{Heap}
use gast_co_co.Tree.Items.{Item, at, sep}
use gast_co_co.Tree.Order.{units, stored}
use gast_co_co.Tree.Rows.{addresses}
use gast_co_co.Tree.Valid.{dests, dests-append}
use gast_co_co.Tree.Chain.{IsLinked, next_of}
use gast_co_co.Tree.Ends.{tree_addresses, get_leaf_start-eq, first_of-units}
use gast_co_co.Tree.Frame.{first_of}
use gast_co_co.Tree.Correct.{root_items}
use gast_co_co.Vertex.{Store, CblNode, Sizes, lv1_address, leaf_pointer}
use gast_co_co.Vertex.Valid.{IsVertex}
use gast_co_co.Vertex.Read.{fill, walk, get_neighbor}

set-middle :
    (xs : List ℕ) (x : ℕ) (ys : List ℕ) (v : ℕ) → set (xs ++ x ∷ ys) (length xs) v ≡ xs ++ v ∷ ys
set-middle [] x ys v = refl
set-middle (w ∷ xs) x ys v = ap (◌∷◌ w) (set-middle xs x ys v)

-- What is written stands behind what was written before.
fill-append :
    (us : List AdjUnit) (front back : List ℕ) (i : ℕ)
    → i ≡ length front
    → length us ≤ length back
    → fill (front ++ back) i us ≡ (front ++ dests us) ++ drop (length us) back
unfolding fill
fill-append [] front back i e h = simp append-nil
fill-append (u ∷ us) front [] i e h = absurd (omega arith)
fill-append (u ∷ us) front (b ∷ back) i e h =
    rw
      (
        e,
        set-middle front b back u.dest,
        sym (append_assoc front (u.dest ∷ []) back),
        fill-append us (front ++ u.dest ∷ []) back (suc (length front))
            (omega (arith, length-append front (u.dest ∷ []))) (omega arith),
      )
      (simp append_assoc)

-- The units of the chunks at a list of addresses.
abbrev pub chunk_units : Heap → List ℕ → List AdjUnit
chunk_units h [] = []
chunk_units h (a ∷ as') = stored h a ++ chunk_units h as'

pub units-addresses :
    (h : Heap) (is : List Item) → units (stored h) is ≡ chunk_units h (addresses is)
units-addresses h [] = refl
units-addresses h (at a ∷ is) = ap (λ (x : List AdjUnit). stored h a ++ x) (units-addresses h is)
units-addresses h (sep k ∷ is) = units-addresses h is

length-dests : (us : List AdjUnit) → length (dests us) ≡ length us
length-dests [] = refl
length-dests (u ∷ us) = ap suc (length-dests us)

drop-nil : (n : ℕ) → drop {A = ℕ} n [] ≡ []
drop-nil zero = refl
drop-nil (suc n) = refl

drop-drop : (m n : ℕ) (xs : List ℕ) → drop n (drop m xs) ≡ drop (m + n) xs
drop-drop zero n xs = let e : 0 + n ≡ n = omega arith in rw e
drop-drop (suc m) n [] = drop-nil n ∙ sym (drop-nil (suc m + n))
drop-drop (suc m) n (x ∷ xs) =
    let e : suc m + n ≡ suc (m + n) = omega arith in rw e (drop-drop m n xs)

length-drop_le : (n : ℕ) (xs : List ℕ) → n ≤ length xs → length (drop n xs) + n ≡ length xs
length-drop_le zero xs h = omega arith
length-drop_le (suc n) [] h = absurd (omega arith)
length-drop_le (suc n) (x ∷ xs) h = omega (arith, length-drop_le n xs (omega arith))

-- The walk along a linked list of chunks writes the units of all of them.
walk-units :
    (ncnt : ℕ) (h : Heap) (p : NextPointer) (t : ℤ) (as' : List ℕ) (front back : List ℕ) (i : ℕ)
    → All (λ a. IsChunk ncnt (h.chunk a)) as'
    → IsLinked h.chunk as' p t
    → i ≡ length front
    → length (chunk_units h as') ≤ length back
    → walk (length as') h (next_of as' p) (front ++ back) i
      ≡ some ((front ++ dests (chunk_units h as')) ++ drop (length (chunk_units h as')) back)
unfolding walk
walk-units ncnt h p t [] front back i cs l e fit = simp append-nil
walk-units ncnt h p t (a ∷ as') front back i cs l e fit =
    let es = stored h a in
    let us = chunk_units h as' in
    let total = length-append es us in
    let size : length es ≡ (h.chunk a).count =
      omega
        (arith, length-take (h.chunk a).count (h.chunk a).neighboor_chunk, cs.0.size, cs.0.fits) in
    let left = length-drop_le (length es) back (omega arith) in
    rw
      (
        l.0,
        fill-append es front back i e (omega arith),
        walk-units ncnt h p t as' (front ++ dests es) (drop (length es) back)
            (i + (h.chunk a).count) cs.1 l.2
            (omega (arith, length-append front (dests es), length-dests es)) (omega arith),
        drop-drop (length es) (length us) back,
        dests-append es us,
        total,
      )
      (simp append_assoc)

drop_all : (xs : List ℕ) (n : ℕ) → n ≡ length xs → drop n xs ≡ []
drop_all [] zero e = refl
drop_all [] (suc n) e = refl
drop_all (x ∷ xs) zero e = absurd (omega arith)
drop_all (x ∷ xs) (suc n) e = drop_all xs n (omega arith)

-- The chain starts where the vertex points to.
pub start-pointer :
    (as' : List ℕ) (a : ℕ) (p : NextPointer)
    → first_of as' ≡ some a
    → leaf_pointer (first_of as') ≡ next_of as' p
start-pointer [] a p e = cc
start-pointer (x ∷ as') a p e = refl

-- `GetNeighbor` of a vertex returns the neighbours of its units, all of them and in their order.
pub get_neighbor-dests :
    (z : Sizes) (p : NextPointer) (t : ℤ) (a : ℕ) (us : List AdjUnit) (s : Store) (v : CblNode)
    → IsVertex z s p t a v us
    → get_neighbor s v ≡ some (dests us)
unfolding get_neighbor
get_neighbor-dests z p t a us s v (inl is) =
    let test : (v.level == 1) ≡ true = rw is.level refl in
    let here : lv1_address v.neighboor ≡ some a = ap lv1_address is.neighboor in
    let n = length-replicate {A = ℕ} v.neighboor_cnt 0 in
    rw (
      test,
      here,
      is.entries_are,
      fill-append us [] (replicate v.neighboor_cnt 0) 0 refl (omega (arith, is.counted)),
      drop_all (replicate v.neighboor_cnt 0) (length us) (omega (arith, is.counted)),
      append-nil,
    )
get_neighbor-dests z p t a us s v (inr is) =
    let test : (v.level == 1) ≡ false = rw is.level refl in
    let as' = tree_addresses v.bpt in
    let row = root_items v.bpt.root_node in
    let zeros : List ℕ = replicate v.neighboor_cnt 0 in
    let n = length-replicate {A = ℕ} v.neighboor_cnt 0 in
    let all : chunk_units s.heap as' ≡ us = sym (units-addresses s.heap row) ∙ is.units_are in
    let (x, starts) =
      first_of-units (stored s.heap) row (omega (arith, ap length is.units_are, is.full)) in
    let rounds : v.chunk_cnt ≡ length as' = is.chunks ∙ is.tree.counted in
    let begin : v.neighboor ≡ next_of as' p =
      is.neighboor ∙ ap leaf_pointer (get_leaf_start-eq v.bpt) ∙ start-pointer as' x p starts in
    let walked =
      walk-units z.leaf_ncnt s.heap p t as' [] zeros 0 is.tree.row.chunks is.tree.row.linked refl
        (omega (arith, ap length all, is.counted)) in
    rw (
      test,
      rounds,
      begin,
      walked,
      all,
      drop_all zeros (length us) (omega (arith, is.counted)),
      append-nil,
    )
