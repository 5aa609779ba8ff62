-- ===== src/Graph/Load/Chained.antt =====
-- A direction as the constructors make it: the table of the insertions, and its chain.
use gast_co_co.Prelude.{
  ℕ, suc, ◌+◌, ◌≤◌, ◌≡◌, sym, ap, subst, ◌∙◌, arith, List, [], some, length, inl, inr, append-nil,
  ℤ,
}
use mathlib.Core.List.{Perm}
use gast_co_co.Prelude.Perms.{length-Perm}
use gast_co_co.Types.{AdjUnit, NextPointer}
use gast_co_co.Vertex.{Sizes, CblNode, Store}
use gast_co_co.Vertex.Valid.{IsVertex}
use gast_co_co.Graph.{Table}
use gast_co_co.Graph.Valid.{IsTable}
use gast_co_co.Graph.Load.{Insertion, Direction}
use gast_co_co.Graph.Load.Order.{units_at, loaded, loaded-Perm}
use gast_co_co.Graph.Chain.{connect_gt_chain, one_iter}
use gast_co_co.Graph.Chain.Traverse.{range_pairs, chunk_total}
use gast_co_co.Graph.Chain.Whole.{connect_gt_chain-linked, IsSingle}

-- A table with the units of a list of insertions, up to the order that each vertex keeps, and the chain
-- from the first chunk of vertex 0, which leads through all vertices up to vertex `m`, the last one.
pub record IsBuilt (z : Sizes) (m : ℕ) (is : List Insertion) (d : Direction) : Type 0 where
  pub units : ℕ → List AdjUnit
  pub valid : IsTable z units d.0
  pub content : (v : ℕ) → Perm (units v) (units_at v is)
  pub size : d.0.size ≡ suc m
  pub head : d.1 ≡ (d.0.node 0).neighboor
  pub visited :
      one_iter (chunk_total d.0 0 (suc m) + 0) d.0 0 (0 + suc m)
      ≡ some (range_pairs units 0 (suc m))

-- A vertex whose units fit in a level-1 chunk has one chunk.
few-IsSingle :
    (z : Sizes) (s : Store) (p : NextPointer) (t : ℤ) (a : ℕ) (v : CblNode) (us : List AdjUnit)
    → IsVertex z s p t a v us
    → length us ≤ z.lv1_ncnt
    → IsSingle v
few-IsSingle z s p t a v us (inl is) le = is.chunks
few-IsSingle z s p t a v us (inr is) le = let full = is.full in absurd (omega (arith, full, le))

-- `ConnectGTChain` of a table that insertions left.
pub connected-IsBuilt :
    (z : Sizes) (m : ℕ) (is : List Insertion) (t : Table)
    → IsTable z (loaded z is (λ _. [])) t
    → t.size ≡ suc m
    → length (units_at m is) ≤ z.lv1_ncnt
    → (d : Direction) × (connect_gt_chain z t ≡ some d) × IsBuilt z m is d
connected-IsBuilt z m is t valid size few =
    let us = loaded z is (λ _. []) in
    let content : (v : ℕ) → Perm (us v) (units_at v is) =
      λ v. subst (Perm (us v)) (append-nil (units_at v is)) (loaded-Perm z is (λ _. []) v) in
    let short = length-Perm (content m) in
    let last = valid.vertices m (omega (arith, size)) in
    let single : IsSingle (t.node m) =
      few-IsSingle z t.store last.pointer last.type m (t.node m) (us m) last.vertex
        (omega (arith, short, few)) in
    let (t', connects, same, size', valid', visited) =
      connect_gt_chain-linked z us t m 0 m 0 size (omega arith) valid single in
    (
      (t', (t.node 0).neighboor),
      connects,
      record {
        units = us;
        valid = valid';
        content = content;
        size = size' ∙ size;
        head = ap (λ (f : ℕ → CblNode). (f 0).neighboor) (sym same);
        visited = visited;
      },
    )
