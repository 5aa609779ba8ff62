-- ===== src/Graph/Load/Batch.antt =====
-- `AddEdgeBatchOut` and `AddEdgeBatchIn`: the parts make up the whole list.
use gast_co_co.Prelude.{
  ℕ, zero, suc, ◌+◌, ◌-◌, ◌≤◌, ◌≡◌, refl, sym, ap, subst, ◌∙◌, List, [], ◌∷◌, ◌++◌, arith, ◌==◌,
  Option, none, some, map, take, drop, Bool-cases, inl, inr, take-append-drop,
}
use gast_co_co.Types.{AdjUnit, GedgeNoWeight}
use gast_co_co.Vertex.{Sizes}
use gast_co_co.Vertex.Valid.{IsUsable}
use gast_co_co.Graph.{Table, CbList, insert_vertex}
use gast_co_co.Graph.Edge.{IsGraph}
use gast_co_co.Graph.Load.{
  Insertion, load, part_starts, parts, add_parts, batch_out_insertion, batch_in_insertion,
  add_edge_batch_out, add_edge_batch_in,
}
use gast_co_co.Graph.Load.Order.{IsLoadable, loaded}
use gast_co_co.Graph.Load.Correct.{load-IsTable}

drop_more : (k d : ℕ) (xs : List Insertion) → drop d (drop k xs) ≡ drop (k + d) xs
drop_more zero d xs = let e : 0 + d ≡ d = omega arith in rw e refl
drop_more (suc k) zero [] = let e : suc k + 0 ≡ suc (k + 0) = omega arith in rw e refl
drop_more (suc k) (suc d) [] = let e : suc k + suc d ≡ suc (k + suc d) = omega arith in rw e refl
drop_more (suc k) d (x ∷ xs) =
    let e : suc k + d ≡ suc (k + d) = omega arith in rw e (drop_more k d xs)

drop_next :
    (i : ℕ) (all : List Insertion) (x : Insertion) (rest : List Insertion)
    → drop i all ≡ x ∷ rest
    → drop (suc i) all ≡ rest
drop_next i all x rest e =
    let n : i + 1 ≡ suc i = omega arith in
    subst (λ m. drop m all ≡ rest) n (sym (drop_more i 1 all) ∙ ap (drop 1) e)

then_load : Sizes → List Insertion → Option Table → Option Table
then_load z es none = none
then_load z es (some t) = load z es t

load-append :
    (z : Sizes) (xs ys : List Insertion) (t : Table)
    → load z (xs ++ ys) t ≡ then_load z ys (load z xs t)
unfolding load then_load
load-append z [] ys t = refl
load-append z ((src, u) ∷ xs) ys t = go (insert_vertex z src u t) refl (load-append z xs ys)
  where
    go :
        (o : Option (Table × ℕ))
        → insert_vertex z src u t ≡ o
        → ((t' : Table) → load z (xs ++ ys) t' ≡ then_load z ys (load z xs t'))
        → load z (((src, u) ∷ xs) ++ ys) t ≡ then_load z ys (load z ((src, u) ∷ xs) t)
    go none e rest = rw (e, load)
    go (some (t', flag)) e rest = rw (e, load) (rest t')

-- One part, and then the rest of the list.
part-load :
    (z : Sizes) (all : List Insertion) (k i : ℕ) (t : Table)
    → k ≤ i
    → load z (drop k all) t ≡ then_load z (drop i all) (load z (take (i - k) (drop k all)) t)
part-load z all k i t le =
    let n : k + (i - k) ≡ i = omega arith in
    ap (λ xs. load z xs t) (sym (take-append-drop (i - k) (drop k all)))
    ∙ load-append z (take (i - k) (drop k all)) (drop (i - k) (drop k all)) t
    ∙ ap (λ xs. then_load z xs (load z (take (i - k) (drop k all)) t))
        (drop_more k (i - k) all ∙ ap (λ m. drop m all) n)

module _ (z : Sizes) (f : GedgeNoWeight → Insertion) (all : List Insertion) where
  -- The parts from the bound `k` on, when the edges `es` from index `i` on are still to be cut.
  add_parts-starts :
      (cur k i : ℕ) (es : List GedgeNoWeight) (t : Table)
      → k ≤ i
      → drop i all ≡ map f es
      → add_parts z all (k ∷ part_starts cur i es) t ≡ load z (drop k all) t
  unfolding add_parts part_starts then_load load
  add_parts-starts cur k i [] t le e = go (load z (take (i - k) (drop k all)) t) refl
    where
      go :
          (o : Option Table)
          → load z (take (i - k) (drop k all)) t ≡ o
          → add_parts z all (k ∷ part_starts cur i []) t ≡ load z (drop k all) t
      go none q = rw (part-load z all k i t le, q, add_parts)
      go (some t') q = rw (part-load z all k i t le, q, e, add_parts)
  add_parts-starts cur k i (x ∷ es) t le e = elim (Bool-cases (cur == x.start_vertex)) [
    | inl same ↦
        rw same
          (add_parts-starts cur k (suc i) es t (omega arith) (drop_next i all (f x) (map f es) e))
    | inr other ↦ rw other (
        go (load z (take (i - k) (drop k all)) t) refl (λ t'.
          add_parts-starts x.start_vertex i (suc i) es t' (omega arith)
            (drop_next i all (f x) (map f es) e)))
  ]
    where
      go :
          (o : Option Table)
          → load z (take (i - k) (drop k all)) t ≡ o
          → ((t' : Table)
              → add_parts z all (i ∷ part_starts x.start_vertex (suc i) es) t'
                ≡ load z (drop i all) t')
          → add_parts z all (k ∷ i ∷ part_starts x.start_vertex (suc i) es) t
            ≡ load z (drop k all) t
      go none q rest = rw (part-load z all k i t le, q, add_parts)
      go (some t') q rest = rw (part-load z all k i t le, q, add_parts) (rest t')

batch-load :
    (z : Sizes) (f : GedgeNoWeight → Insertion) (e : GedgeNoWeight) (es : List GedgeNoWeight)
    (t : Table)
    → add_parts z (map f (e ∷ es)) (0 ∷ part_starts e.start_vertex 1 es) t
      ≡ load z (map f (e ∷ es)) t
batch-load z f e es t =
    add_parts-starts z f (map f (e ∷ es)) e.start_vertex 0 1 es t (omega arith) refl

-- `AddEdgeBatchOut` of one edge or more in a valid graph, its parts run in order, no vertex getting a neighbour twice or that
-- it has, nor 2^32 neighbours, with level-1 chunks of one cell or more and leaf chunks of two or
-- more: it ends, its parts bringing the units of all edges of the list, each once and in order; both
-- tables are valid, and the number of edges is the old one.
pub add_edge_batch_out-IsGraph :
    (z : Sizes) (outs ins : ℕ → List AdjUnit) (g : CbList) (e : GedgeNoWeight)
    (es : List GedgeNoWeight)
    → IsUsable z
    → IsGraph z outs ins g
    → IsLoadable g.vertex_table_out.size outs (map batch_out_insertion (e ∷ es))
    → (g' : CbList) × (add_edge_batch_out z (e ∷ es) g ≡ some g')
      × IsGraph z (loaded z (map batch_out_insertion (e ∷ es)) outs) ins g'
      × (g'.edge_num ≡ g.edge_num)
unfolding add_edge_batch_out parts
add_edge_batch_out-IsGraph z outs ins g e es usable valid h =
    let all = map batch_out_insertion (e ∷ es) in
    let (t, q, is, same) = load-IsTable z all outs g.vertex_table_out usable valid.out_valid h in
    (
      record g { vertex_table_out = t },
      rw (batch-load z batch_out_insertion e es g.vertex_table_out, q, add_edge_batch_out),
      record { out_valid = is; in_valid = valid.in_valid },
      refl,
    )

-- `AddEdgeBatchIn` of one edge or more in a valid graph, its parts run in order, no vertex getting a
-- neighbour twice or that it has, nor 2^32 neighbours, with level-1 chunks of one cell or more and
-- leaf chunks of two or more: it ends, its parts bringing the units of all edges of the list, each
-- once and in order; both tables are valid, and the number of edges is the old one.
pub add_edge_batch_in-IsGraph :
    (z : Sizes) (outs ins : ℕ → List AdjUnit) (g : CbList) (e : GedgeNoWeight)
    (es : List GedgeNoWeight)
    → IsUsable z
    → IsGraph z outs ins g
    → IsLoadable g.vertex_table_in.size ins (map batch_in_insertion (e ∷ es))
    → (g' : CbList) × (add_edge_batch_in z (e ∷ es) g ≡ some g')
      × IsGraph z outs (loaded z (map batch_in_insertion (e ∷ es)) ins) g'
      × (g'.edge_num ≡ g.edge_num)
unfolding add_edge_batch_in parts
add_edge_batch_in-IsGraph z outs ins g e es usable valid h =
    let all = map batch_in_insertion (e ∷ es) in
    let (t, q, is, same) = load-IsTable z all ins g.vertex_table_in usable valid.in_valid h in
    (
      record g { vertex_table_in = t },
      rw (batch-load z batch_in_insertion e es g.vertex_table_in, q, add_edge_batch_in),
      record { out_valid = valid.out_valid; in_valid = is },
      refl,
    )
