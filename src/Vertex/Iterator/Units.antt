-- ===== src/Vertex/Iterator/Units.antt =====
-- The iterator of a vertex with a neighbour reads all its units, in order.
use gast_co_co.Prelude.{
  ℕ, zero, suc, ◌+◌, ◌<◌, ◌≤◌, ◌≡◌, refl, sym, ap, ◌∙◌, inl, inr, List, [], ◌∷◌, ◌++◌, arith, true,
  leb, false, some, ℤ, Bool-cases, length, drop, length-take, get_elem?, get_or, drop-suc, pos,
  lt→ltb,
}
use gast_co_co.Prelude.Distinct.{All}
use gast_co_co.Types.{AdjUnit, NextPointer, leaf_chunk}
use gast_co_co.Leaf.{IsChunk, no_unit}
use gast_co_co.Tree.{Heap}
use gast_co_co.Tree.Order.{stored}
use gast_co_co.Tree.Chain.{IsLinked, next_of}
use gast_co_co.Tree.Ends.{tree_addresses, get_leaf_start-eq, first_of-units}
use gast_co_co.Tree.Correct.{root_items}
use gast_co_co.Vertex.{int_bound, Store, CblNode, Sizes, leaf_pointer}
use gast_co_co.Vertex.Valid.{IsVertex}
use gast_co_co.Vertex.Read.Neighbors.{chunk_units, units-addresses, start-pointer}
use gast_co_co.Vertex.Iterator.Cells.{
  get_elem?-take, drop_end, iterate-ended, lv1_at, iterate_lv1-units,
}
use gast_co_co.Vertex.Iterator.{
  EdgeIterator, edge_iterator, next_chunk, increment, get_edeg_info, iterate,
}

-- An iterator at cell `at` of a leaf chunk, of a vertex with `n` neighbours of which `acc` were read.
abbrev leaf_at : (src : ℕ) → NextPointer → (at acc n : ℕ) → EdgeIterator
leaf_at src p at acc n = record {
  v = src;
  level = 2;
  neighboor_cnt = pos n;
  access_edge_cnt = acc;
  current_ptr = p;
  current_pos = at;
  alive = true;
}

-- The units from cell `at` of the first chunk on.
abbrev units_from : Heap → (a at : ℕ) → List ℕ → List AdjUnit
units_from h a at as' = drop at (stored h a) ++ chunk_units h as'

-- No chunk is empty.
abbrev pub NoneEmpty : Heap → List ℕ → Type 0
NoneEmpty h as' = All (λ a. 1 ≤ (h.chunk a).count) as'

nothing_left : (xs : List AdjUnit) → length xs ≤ 0 → xs ≡ []
nothing_left [] le = refl
nothing_left (x ∷ xs) le = absurd (omega (arith, le))

module _ (ncnt : ℕ) (s : Store) (src n : ℕ) where
  -- The unit that is read, and those of the next iterator.
  leaf_at-read :
      (k a at acc : ℕ) (it' : EdgeIterator) (us : List AdjUnit)
      → IsChunk ncnt (s.heap.chunk a)
      → at < (s.heap.chunk a).count
      → increment s (leaf_at src (leaf_chunk a) at acc n) ≡ some it'
      → iterate k s it' ≡ some us
      → iterate (suc k) s (leaf_at src (leaf_chunk a) at acc n)
        ≡ some (get_or (stored s.heap a) at no_unit ∷ us)
  unfolding iterate get_edeg_info
  leaf_at-read k a at acc it' us c lt next rest =
      let read : get_elem? (s.heap.chunk a).neighboor_chunk at
          ≡ some (get_or (stored s.heap a) at no_unit) =
        get_elem?-take (s.heap.chunk a).count at (s.heap.chunk a).neighboor_chunk lt
          (omega (arith, c.size, c.fits)) in
      rw (read, next, rest) refl

  leaf_at-end :
      (a at acc : ℕ)
      → n ≤ suc acc
      → increment s (leaf_at src (leaf_chunk a) at acc n)
        ≡ some (record (leaf_at src (leaf_chunk a) (suc at) (suc acc) n) { alive = false })
  unfolding increment
  leaf_at-end a at acc le = let p : leb n (suc acc) ≡ true = ground (arith, le) in rw p refl

  leaf_at-next :
      (a at acc : ℕ)
      → suc acc < n
      → (s.heap.chunk a).count ≤ suc at
      → increment s (leaf_at src (leaf_chunk a) at acc n)
        ≡ some (leaf_at src (s.heap.chunk a).next_ptr 0 (suc acc) n)
  unfolding increment next_chunk
  leaf_at-next a at acc more le =
      let p : leb n (suc acc) ≡ false = ground (arith, more) in
      let q : leb (s.heap.chunk a).count (suc at) ≡ true = ground (arith, le) in rw (p, q) refl

  leaf_at-same :
      (a at acc : ℕ)
      → suc acc < n
      → suc at < (s.heap.chunk a).count
      → increment s (leaf_at src (leaf_chunk a) at acc n)
        ≡ some (leaf_at src (leaf_chunk a) (suc at) (suc acc) n)
  unfolding increment next_chunk
  leaf_at-same a at acc more lt =
      let p : leb n (suc acc) ≡ false = ground (arith, more) in
      let q : leb (s.heap.chunk a).count (suc at) ≡ false = ground (arith, lt) in rw (p, q) refl

  module _ (p : NextPointer) (t : ℤ) where
    -- The statement for a number of rounds.
    abbrev Reads : ℕ → Type 0
    Reads k =
        (a at acc : ℕ) (as' : List ℕ)
        → All (λ b. IsChunk ncnt (s.heap.chunk b)) (a ∷ as')
        → NoneEmpty s.heap (a ∷ as')
        → IsLinked s.heap.chunk (a ∷ as') p t
        → at < (s.heap.chunk a).count
        → acc + length (units_from s.heap a at as') ≡ n
        → n < acc + k
        → iterate k s (leaf_at src (leaf_chunk a) at acc n) ≡ some (units_from s.heap a at as')

    chain_on :
        (k : ℕ)
        → Reads k
        → (acc : ℕ) (as' : List ℕ) → All (λ b. IsChunk ncnt (s.heap.chunk b)) as'
        → NoneEmpty s.heap as'
        → IsLinked s.heap.chunk as' p t
        → acc + length (chunk_units s.heap as') ≡ n
        → acc < n
        → n < acc + k
        → iterate k s (leaf_at src (next_of as' p) 0 acc n) ≡ some (chunk_units s.heap as')
    chain_on k reads acc [] cs some_unit l size more enough = absurd (omega (arith, size, more))
    chain_on k reads acc (b ∷ as') cs some_unit l size more enough =
        reads b 0 acc as' cs some_unit l some_unit.0 size enough

    iterate_leaves-units : (k : ℕ) → Reads k
    iterate_leaves-units zero a at acc as' cs some_unit l lt size enough =
        absurd (omega (arith, size, enough))
    iterate_leaves-units (suc k) a at acc as' cs some_unit l lt size enough =
        let es = stored s.heap a in
        let len : length es ≡ (s.heap.chunk a).count = omega (
          arith,
          length-take (s.heap.chunk a).count (s.heap.chunk a).neighboor_chunk,
          cs.0.size,
          cs.0.fits,
        ) in
        let u = get_or es at no_unit in
        let cut : units_from s.heap a at as' ≡ u ∷ units_from s.heap a (suc at) as' =
          ap (λ xs. xs ++ chunk_units s.heap as')
            (drop-suc at es no_unit (omega (arith, len, lt))) in
        let size' = ap length cut in
        rw cut (elim (Bool-cases (leb n (suc acc))) [
          | inl q ↦
              let last : n ≤ suc acc = ground (arith, q) in
              let none_left =
                nothing_left (units_from s.heap a (suc at) as')
                  (omega (arith, size, size', last)) in
              rw none_left (
                leaf_at-read k a at acc
                  (record (leaf_at src (leaf_chunk a) (suc at) (suc acc) n) { alive = false }) []
                  cs.0 lt (leaf_at-end a at acc last)
                  (iterate-ended k s (leaf_at src (leaf_chunk a) (suc at) (suc acc) n)
                    (omega (arith, enough, last, size, size'))))
          | inr q ↦
              let more : suc acc < n = ground (arith, q) in
              elim (Bool-cases (leb (s.heap.chunk a).count (suc at))) [
                | inl r ↦
                    let full : (s.heap.chunk a).count ≤ suc at = ground (arith, r) in
                    let over = drop_end (suc at) es (omega (arith, len, full)) in
                    rw over (
                      leaf_at-read k a at acc (leaf_at src (s.heap.chunk a).next_ptr 0 (suc acc) n)
                        (chunk_units s.heap as') cs.0 lt (leaf_at-next a at acc more full)
                        (rw l.0 (
                          chain_on k (iterate_leaves-units k) (suc acc) as' cs.1 some_unit.1 l.2
                            (let o = ap (λ xs. length (xs ++ chunk_units s.heap as')) over in
                              omega (arith, size, size', o))
                            more (omega (arith, enough)))))
                | inr r ↦
                    let room : suc at < (s.heap.chunk a).count = ground (arith, r) in
                    leaf_at-read k a at acc (leaf_at src (leaf_chunk a) (suc at) (suc acc) n)
                      (units_from s.heap a (suc at) as') cs.0 lt (leaf_at-same a at acc more room)
                      (iterate_leaves-units k a (suc at) (suc acc) as' cs some_unit l room
                        (omega (arith, size, size')) (omega (arith, enough)))
              ]
        ])

-- The iterator of a well-formed vertex with a neighbour and less than 2^31 of them, none of whose leaf chunks is empty, in the
-- loop that reads and increments it while it is alive: it reads the units of the vertex, all of them
-- and in their order, then ends; one round more than the units is enough.
pub iterate-units :
    (z : Sizes) (p : NextPointer) (t : ℤ) (a src : ℕ) (us : List AdjUnit) (s : Store) (v : CblNode)
    → IsVertex z s p t a v us
    → 1 ≤ length us
    → length us < int_bound
    → NoneEmpty s.heap (tree_addresses v.bpt)
    → iterate (length us + 1) s (edge_iterator src v) ≡ some us
unfolding edge_iterator
iterate-units z p t a src us s v (inl is) some_unit small full =
    let int = lt→ltb (length us) int_bound small in
    let start : edge_iterator src v ≡ lv1_at src a 0 (length us) =
      rw (is.level, is.neighboor, is.counted, int) refl in
    let few = is.fits in
    let size = is.size in
    rw start (
      iterate_lv1-units (length us + 1) s src a 0 us is.entries_are is.in_use
        (omega (arith, few, size)) some_unit (omega arith))
iterate-units z p t a src us s v (inr is) some_unit small full =
    let int = lt→ltb (length us) int_bound small in
    let as' = tree_addresses v.bpt in
    let row = root_items v.bpt.root_node in
    let all : chunk_units s.heap as' ≡ us = sym (units-addresses s.heap row) ∙ is.units_are in
    let (x, starts) =
      first_of-units (stored s.heap) row (omega (arith, ap length is.units_are, is.full)) in
    let begin : v.neighboor ≡ next_of as' p =
      is.neighboor ∙ ap leaf_pointer (get_leaf_start-eq v.bpt) ∙ start-pointer as' x p starts in
    let start : edge_iterator src v ≡ leaf_at src (next_of as' p) 0 0 (length us) =
      rw (is.level, begin, is.counted, int) refl in
    let size = ap length all in
    rw start (
      chain_on z.leaf_ncnt s src (length us) p t (length us + 1)
        (iterate_leaves-units z.leaf_ncnt s src (length us) p t (length us + 1)) 0 as'
        is.tree.row.chunks full is.tree.row.linked (omega (arith, size)) (omega (arith, some_unit))
        (omega arith)
      ∙ ap some all)
