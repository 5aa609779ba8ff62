-- ===== src/Graph/Chain/Whole.antt =====
-- `ConnectGTChain` as a whole, and the traversal after it.
use gast_co_co.Prelude.{
  ℕ, suc, ◌+◌, ◌≤◌, ◌≡◌, refl, sym, ap, subst, ◌∙◌, List, [], ◌∷◌, arith, ◌==◌, if◌then◌else◌, some,
  true, false, inl, inr, ℤ, negsuc, Bool-cases, length, ==→eq, ==→ne,
}
use gast_co_co.Types.{AdjUnit, NextPointer}
use gast_co_co.Tree.{write}
use gast_co_co.Tree.Chain.{IsLinked}
use gast_co_co.Tree.Ends.{tree_addresses, get_leaf_start-eq}
use gast_co_co.Tree.Frame.{first_of}
use gast_co_co.Vertex.{Store, CblNode, Sizes, lv1_address, write_lv1, relink, leaf_pointer}
use gast_co_co.Vertex.Valid.{IsVertex}
use gast_co_co.Vertex.Read.{leaf_address}
use gast_co_co.Graph.{Table}
use gast_co_co.Graph.Valid.{IsTable}
use gast_co_co.Graph.Insert.{IsRelinked, small-IsRelinked, large-IsRelinked}
use gast_co_co.Graph.Chain.{link_type, connect_from, mark_end, connect_gt_chain, one_iter}
use gast_co_co.Graph.Chain.Connect.{
  IsChained, connect_from-IsChained, relinked-IsTable, relinked-other,
}
use gast_co_co.Graph.Chain.Traverse.{IsRange, chunk_total, range_pairs, one_iter-pairs}

-- A vertex with one chunk.
abbrev pub IsSingle : CblNode → Type 0
IsSingle v = v.chunk_cnt ≡ 1

single-list : (xs : List ℕ) → length xs ≡ 1 → (e : ℕ) × (xs ≡ e ∷ [])
single-list [] h = absurd (omega arith)
single-list (x ∷ []) h = (x, refl)
single-list (x ∷ y ∷ xs) h = absurd (omega arith)

relinked :
    (s : Store) (e : ℕ) (q : NextPointer)
    → ◌≡◌ {A = Store}
        (record s { heap = relink e q (negsuc 9) s.heap })
        (record s {
          heap = write s.heap e (record (s.heap.chunk e) { next_ptr = q; next_type = negsuc 9 });
        })
unfolding relink
relinked s e q = refl

mark_end-IsRelinked :
    (z : Sizes) (s : Store) (p : NextPointer) (t : ℤ) (i : ℕ) (v : CblNode) (us : List AdjUnit)
    → IsSingle v
    → IsVertex z s p t i v us
    → (s' : Store) × (mark_end s v ≡ some s') × IsRelinked z p (negsuc 9) i s s' v us
unfolding mark_end
mark_end-IsRelinked z s p t i v us single (inl is) =
    let test : (v.level == 1) ≡ true = rw is.level refl in
    let here : lv1_address v.neighboor ≡ some i = ap lv1_address is.neighboor in
    let f : NextPointer → Store =
      λ q. write_lv1 s i (record (s.lv1 i) { next_ptr = q; next_type = negsuc 9 }) in
    (
      f (s.lv1 i).next_ptr,
      rw (test, here),
      subst (λ x. IsRelinked z p (negsuc 9) i s x v us) (ap f (sym is.link))
          (small-IsRelinked z p p t (negsuc 9) i s v us is),
    )
mark_end-IsRelinked z s p t i v us single (inr is) =
    let test : (v.level == 1) ≡ false = rw is.level refl in
    let test' : (v.level == 2) ≡ true = rw is.level refl in
    let one : length (tree_addresses v.bpt) ≡ 1 = sym is.tree.counted ∙ sym is.chunks ∙ single in
    let (e, only) = single-list (tree_addresses v.bpt) one in
    let here : leaf_address v.neighboor ≡ some e =
      ap leaf_address is.neighboor
      ∙ ap (λ o. leaf_address (leaf_pointer o)) (get_leaf_start-eq v.bpt ∙ ap first_of only) in
    let linked : IsLinked s.heap.chunk (e ∷ []) p t =
      subst (λ x. IsLinked s.heap.chunk x p t) only is.tree.row.linked in
    let f : NextPointer → Store = λ q. record s {
      heap = write s.heap e (record (s.heap.chunk e) { next_ptr = q; next_type = negsuc 9 });
    } in
    (
      f (s.heap.chunk e).next_ptr,
      rw (test, test', here),
      subst (λ x. IsRelinked z p (negsuc 9) i s x v us) (relinked s e p ∙ ap f (sym linked.0))
          (large-IsRelinked z p p t (negsuc 9) i s v us e [] only is),
    )

-- A chained table whose last vertex has the mark.
marked-IsRange :
    (z : Sizes) (us : ℕ → List AdjUnit) (m : ℕ) (t : Table) (s' : Store) (p : NextPointer)
    (left right : ℕ)
    → t.size ≡ suc m
    → right ≤ suc m
    → IsChained z us m t
    → IsRelinked z p (negsuc 9) m t.store s' (t.node m) (us m)
    → IsRange z us
        (record t { store = s' })
        left
        right
        (λ j. if j == m then p else (t.node (suc j)).neighboor)
        (λ j. if j == m then negsuc 9 else link_type z (t.node (suc j)))
marked-IsRange z us m t s' p left right size le chained is = record {
  vertex = λ j l lt. elim (Bool-cases (j == m)) [
    | inl q ↦
        rw q (
          subst (λ k. IsVertex z s' p (negsuc 9) k (t.node k) (us k)) (sym (==→eq j m q)) is.vertex)
    | inr q ↦
        let ne = ==→ne j m q in
        rw q (
          relinked-other z us t m s' p (negsuc 9) (omega (arith, size)) chained.valid is j
            (t.node (suc j)).neighboor (link_type z (t.node (suc j))) (omega (arith, size)) ne
            (chained.leads j (omega (arith, ne))))
  ];
  negative =
      λ j l lt. elim (Bool-cases (j == m)) [ inl q ↦ rw q refl | inr q ↦ rw q (ground arith) ];
  next_pointer = λ j l lt. let q : (j == m) ≡ false = ground arith in rw q refl;
  next_type = λ j l lt. let q : (j == m) ≡ false = ground arith in rw q refl;
}

connect-eq :
    (z : Sizes) (t t1 : Table) (m : ℕ) (s : Store)
    → t.size ≡ suc m
    → connect_from z m 0 t ≡ some t1
    → mark_end t1.store (t1.node m) ≡ some s
    → connect_gt_chain z t ≡ some (record t1 { store = s }, (t.node 0).neighboor)
unfolding connect_gt_chain
connect-eq z t t1 m s size e e' = rw (size, e, e', connect_gt_chain)

-- What the loop makes; the vertices themselves stay the same.
pub connect_gt_chain-linked :
    (z : Sizes) (us : ℕ → List AdjUnit) (t : Table) (m left n extra : ℕ)
    → t.size ≡ suc m
    → left + suc n ≤ suc m
    → IsTable z us t
    → IsSingle (t.node m)
    → (t' : Table) × (connect_gt_chain z t ≡ some (t', (t.node 0).neighboor))
      × (t'.node ≡ t.node)
      × (t'.size ≡ t.size)
      × IsTable z us t'
      × (one_iter (chunk_total t' left (suc n) + extra) t' left (left + suc n)
          ≡ some (range_pairs us left (suc n)))
connect_gt_chain-linked z us t m left n extra size le valid single =
    let (t1, e, chained, same, same') =
      connect_from-IsChained z us m 0 m t (omega arith) (omega (arith, size))
        (record { valid = valid; leads = λ j lt. absurd (omega arith) }) in
    let size1 : t1.size ≡ suc m = same ∙ size in
    let w = chained.valid.vertices m (omega (arith, size1)) in
    let (s', e', is) =
      mark_end-IsRelinked z t1.store w.pointer w.type m (t1.node m) (us m)
        (ap (λ (f : ℕ → CblNode). (f m).chunk_cnt) same' ∙ single) w.vertex in
    let t2 = record t1 { store = s' } in
    (
      t2,
      connect-eq z t t1 m s' size e e',
      same',
      same,
      relinked-IsTable z us t1 m s' w.pointer (negsuc 9) (omega (arith, size1)) chained.valid is,
      one_iter-pairs z us t2 (left + suc n)
          (λ j. if j == m then w.pointer else (t1.node (suc j)).neighboor)
          (λ j. if j == m then negsuc 9 else link_type z (t1.node (suc j))) extra left n refl
          (omega (arith, size1))
          (marked-IsRange z us m t1 s' w.pointer left (left + suc n) size1 le chained is),
    )

-- `ConnectGTChain` of a valid table, the last vertex having one chunk: it returns the pointer to the
-- chunks of vertex 0 and changes no units, and after it `pagerank_one_iter` from any vertex to any
-- later one, the end of the table included, visits the units of the vertices between them, in order
-- and with their vertex, with fuel for all their chunks or more.
pub connect_gt_chain-pairs :
    (z : Sizes) (us : ℕ → List AdjUnit) (t : Table) (m left n extra : ℕ)
    → t.size ≡ suc m
    → left + suc n ≤ suc m
    → IsTable z us t
    → IsSingle (t.node m)
    → (t' : Table) × (connect_gt_chain z t ≡ some (t', (t.node 0).neighboor))
      × IsTable z us t'
      × (one_iter (chunk_total t' left (suc n) + extra) t' left (left + suc n)
          ≡ some (range_pairs us left (suc n)))
connect_gt_chain-pairs z us t m left n extra size le valid single =
    let (t', e, same, size', valid', visited) =
      connect_gt_chain-linked z us t m left n extra size le valid single in
    (t', e, valid', visited)
