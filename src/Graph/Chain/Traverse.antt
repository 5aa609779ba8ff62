-- ===== src/Graph/Chain/Traverse.antt =====
-- Following the chain from one vertex to another.
use gast_co_co.Prelude.{
  ℕ, zero, suc, ◌+◌, ◌<◌, ◌≤◌, ◌≡◌, refl, sym, ap, ◌∙◌, List, [], ◌∷◌, ◌++◌, arith, ◌==◌, Option,
  none, some, true, false, inl, inr, ℤ, pos, leb, length, append-nil, append_assoc, map-append,
  lt→ltb,
}
use gast_co_co.Types.{AdjUnit, NextPointer, leaf_chunk}
use gast_co_co.Tree.Chain.{IsLinked, next_of}
use gast_co_co.Tree.Order.{stored}
use gast_co_co.Tree.Ends.{tree_addresses, get_leaf_start-eq, first_of-units}
use gast_co_co.Tree.Correct.{root_items}
use gast_co_co.Tree.Frame.{first_of}
use gast_co_co.Vertex.{Store, CblNode, Sizes, lv1_address, leaf_pointer}
use gast_co_co.Vertex.Valid.{IsVertex}
use gast_co_co.Vertex.Read.Neighbors.{chunk_units, units-addresses, start-pointer}
use gast_co_co.Graph.{Table}
use gast_co_co.Graph.Chain.{
  link_type, is_odd, is_negative, chunk_at, prepend, tag, traverse, start_flag, one_iter,
}

prepend-prepend :
    (xs ys : List (ℕ × AdjUnit)) (o : Option (List (ℕ × AdjUnit)))
    → prepend xs (prepend ys o) ≡ prepend (xs ++ ys) o
prepend-prepend xs ys none = refl
prepend-prepend xs ys (some zs) = ap some (sym (append_assoc xs ys zs))

module _ (s : Store) (now right : ℕ) (p : NextPointer) (t : ℤ) (k : ℕ)
    (more : (now == right) ≡ false) (ends : is_negative t ≡ true) where
  -- The rounds in the leaf chunks of one vertex.
  leaves-step :
      (a : ℕ) (as' : List ℕ) (flag : ℤ)
      → is_odd flag ≡ false
      → IsLinked s.heap.chunk (a ∷ as') p t
      → traverse (length (a ∷ as') + k) s flag (leaf_chunk a) now right
        ≡ prepend (tag now (chunk_units s.heap (a ∷ as'))) (traverse k s t p (suc now) right)
  unfolding traverse chunk_at
  leaves-step a [] flag even l =
      let n : length (a ∷ []) + k ≡ suc k = omega arith in
      rw (n, more, even, l.0, l.1, ends, append-nil) refl
  leaves-step a (b ∷ bs) flag even l =
      let n : length (a ∷ b ∷ bs) + k ≡ suc (length (b ∷ bs) + k) = omega arith in
      rw (n, more, even, l.0, l.1, leaves-step b bs (pos 2) refl l.2)
        (prepend-prepend (tag now (stored s.heap a)) (tag now (chunk_units s.heap (b ∷ bs)))
            (traverse k s t p (suc now) right)
          ∙ ap (λ xs. prepend xs (traverse k s t p (suc now) right))
              (sym (map-append (λ u. (now, u)) (stored s.heap a) (chunk_units s.heap (b ∷ bs)))))

-- A flag that fits the form of the vertex it leads to.
abbrev pub Fits : ℤ → CblNode → Type 0
Fits flag v = is_odd flag ≡ (v.level == 1)

-- All rounds in the chunks of one vertex.
vertex-step :
    (z : Sizes) (s : Store) (p : NextPointer) (t flag : ℤ) (now right k : ℕ) (v : CblNode)
    (us : List AdjUnit)
    → IsVertex z s p t now v us
    → (now == right) ≡ false
    → is_negative t ≡ true
    → Fits flag v
    → traverse (v.chunk_cnt + k) s flag v.neighboor now right
      ≡ prepend (tag now us) (traverse k s t p (suc now) right)
unfolding traverse chunk_at
vertex-step z s p t flag now right k v us (inl is) more ends fits =
    let odd : is_odd flag ≡ true = fits ∙ (rw is.level refl) in
    let n : v.chunk_cnt + k ≡ suc k = omega (arith, is.chunks) in
    let here : lv1_address v.neighboor ≡ some now = ap lv1_address is.neighboor in
    rw (n, more, odd, here, is.entries_are, is.link, is.link_type, ends) refl
vertex-step z s p t flag now right k v us (inr is) more ends fits =
    let even : is_odd flag ≡ false = fits ∙ (rw is.level refl) in
    let row = root_items v.bpt.root_node in
    let (x, starts) =
      first_of-units (stored s.heap) row (omega (arith, ap length is.units_are, is.full)) in
    let rounds : v.chunk_cnt ≡ length (tree_addresses v.bpt) = is.chunks ∙ is.tree.counted in
    let begin : v.neighboor ≡ next_of (tree_addresses v.bpt) p =
      is.neighboor
      ∙ ap leaf_pointer (get_leaf_start-eq v.bpt)
      ∙ start-pointer (tree_addresses v.bpt) x p starts in
    let all : chunk_units s.heap (tree_addresses v.bpt) ≡ us =
      sym (units-addresses s.heap row) ∙ is.units_are in
    rw (rounds, begin, sym all) (go (tree_addresses v.bpt) x starts is.tree.row.linked even)
  where
    go :
        (as' : List ℕ) (x : ℕ)
        → first_of as' ≡ some x
        → IsLinked s.heap.chunk as' p t
        → is_odd flag ≡ false
        → traverse (length as' + k) s flag (next_of as' p) now right
          ≡ prepend (tag now (chunk_units s.heap as')) (traverse k s t p (suc now) right)
    go [] x e l even = absurd (cc)
    go (a ∷ as') x e l even = leaves-step s now right p t k more ends a as' flag even l

-- A type of link fits the vertex for which it is chosen.
link_type-Fits :
    (z : Sizes) (s : Store) (p : NextPointer) (t : ℤ) (i : ℕ) (v : CblNode) (us : List AdjUnit)
    → IsVertex z s p t i v us
    → Fits (link_type z v) v
link_type-Fits z s p t i v us (inl is) =
    let few : leb v.neighboor_cnt z.lv1_ncnt ≡ true =
      let c = is.counted in let f = is.fits in ground arith in
    rw (few, is.level) refl
link_type-Fits z s p t i v us (inr is) =
    let many : leb v.neighboor_cnt z.lv1_ncnt ≡ false =
      let c = is.counted in let f = is.full in ground arith in
    rw (many, is.level) refl

start_flag-Fits :
    (z : Sizes) (s : Store) (p : NextPointer) (t : ℤ) (i : ℕ) (v : CblNode) (us : List AdjUnit)
    → IsVertex z s p t i v us
    → Fits (start_flag v) v
start_flag-Fits z s p t i v us (inl is) = rw is.level refl
start_flag-Fits z s p t i v us (inr is) = rw is.level refl

-- The vertices from `left` to before `right`, with the links behind them: each to the next vertex,
-- and all of them with a negative type.
pub record IsRange (z : Sizes) (us : ℕ → List AdjUnit) (t : Table) (left right : ℕ)
    (ps : ℕ → NextPointer) (ts : ℕ → ℤ) : Type 0 where
  pub vertex : (j : ℕ) → left ≤ j → j < right → IsVertex z t.store (ps j) (ts j) j (t.node j) (us j)
  pub negative : (j : ℕ) → left ≤ j → j < right → is_negative (ts j) ≡ true
  pub next_pointer : (j : ℕ) → left ≤ j → suc j < right → ps j ≡ (t.node (suc j)).neighboor
  pub next_type : (j : ℕ) → left ≤ j → suc j < right → ts j ≡ link_type z (t.node (suc j))

-- The units of `n` vertices, each with its vertex, and the number of their chunks.
abbrev pub range_pairs : (ℕ → List AdjUnit) → (left n : ℕ) → List (ℕ × AdjUnit)
range_pairs us left zero = []
range_pairs us left (suc n) = tag left (us left) ++ range_pairs us (suc left) n

abbrev pub chunk_total : Table → (left n : ℕ) → ℕ
chunk_total t left zero = 0
chunk_total t left (suc n) = (t.node left).chunk_cnt + chunk_total t (suc left) n

finished :
    (k : ℕ) (s : Store) (flag : ℤ) (p : NextPointer) (now right : ℕ)
    → (now == right) ≡ true
    → traverse k s flag p now right ≡ some []
unfolding traverse
finished zero s flag p now right e = rw e refl
finished (suc k) s flag p now right e = rw e refl

module _ (z : Sizes) (us : ℕ → List AdjUnit) (t : Table) (right : ℕ) (ps : ℕ → NextPointer)
    (ts : ℕ → ℤ) (extra : ℕ) where
  range-step :
      (n left : ℕ) (flag : ℤ)
      → left + suc n ≡ right
      → IsRange z us t left right ps ts
      → Fits flag (t.node left)
      → traverse
          (chunk_total t left (suc n) + extra)
          t.store
          flag
          (t.node left).neighboor
          left
          right
        ≡ some (range_pairs us left (suc n))
  range-step zero left flag sum is fits =
      let more : (left == right) ≡ false = ground arith in
      let last : (suc left == right) ≡ true = ground arith in
      let n : chunk_total t left 1 + extra ≡ (t.node left).chunk_cnt + extra = omega arith in
      rw
        (
          n,
          vertex-step z t.store (ps left) (ts left) flag left right extra (t.node left) (us left)
              (is.vertex left (omega arith) (omega arith)) more
              (is.negative left (omega arith) (omega arith)) fits,
          finished extra t.store (ts left) (ps left) (suc left) right last,
        )
        refl
  range-step (suc m) left flag sum is fits =
      let more : (left == right) ≡ false = ground arith in
      let rest = chunk_total t (suc left) (suc m) + extra in
      let n : chunk_total t left (suc (suc m)) + extra ≡ (t.node left).chunk_cnt + rest =
        omega arith in
      let next = is.vertex (suc left) (omega arith) (omega arith) in
      rw
        (
          n,
          vertex-step z t.store (ps left) (ts left) flag left right rest (t.node left) (us left)
              (is.vertex left (omega arith) (omega arith)) more
              (is.negative left (omega arith) (omega arith)) fits,
          is.next_pointer left (omega arith) (omega arith),
          is.next_type left (omega arith) (omega arith),
          range-step m (suc left) (link_type z (t.node (suc left))) (omega arith)
              (record {
                vertex = λ j le lt. is.vertex j (omega arith) lt;
                negative = λ j le lt. is.negative j (omega arith) lt;
                next_pointer = λ j le lt. is.next_pointer j (omega arith) lt;
                next_type = λ j le lt. is.next_type j (omega arith) lt;
              })
              (link_type-Fits z t.store (ps (suc left)) (ts (suc left)) (suc left)
                (t.node (suc left)) (us (suc left)) next),
        )
        refl

  -- `pagerank_one_iter` over linked vertices, with fuel for all of their chunks or more, ends and
  -- visits the units of each of them, in order and with their vertex, and no others.
  pub one_iter-pairs :
      (left n : ℕ)
      → left + suc n ≡ right
      → left < t.size
      → IsRange z us t left right ps ts
      → one_iter (chunk_total t left (suc n) + extra) t left right
        ≡ some (range_pairs us left (suc n))
  unfolding one_iter
  one_iter-pairs left n sum lt is = rw (lt→ltb left t.size lt) (
      range-step n left (start_flag (t.node left)) sum is (
        start_flag-Fits z t.store (ps left) (ts left) left (t.node left) (us left)
          (is.vertex left (omega arith) (omega arith))))
