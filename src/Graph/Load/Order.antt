-- ===== src/Graph/Load/Order.antt =====
-- The units that a list of insertions brings to each vertex, up to their order.
use gast_co_co.Prelude.{
  ℕ, ◌+◌, ◌<◌, ◌≡◌, refl, ap, subst, List, [], ◌∷◌, ◌++◌, arith, ◌==◌, if◌then◌else◌, Bool-cases,
  inl, inr, ==→eq, length, length-append, map, true,
}
use gast_co_co.Prelude.Distinct.{Absent, Distinct, Absent-append}
use gast_co_co.Prelude.Perms.{Distinct-Perm, length-Perm}
use mathlib.Core.List.Perm
use mathlib.Core.List.{Perm, perm_middle}
use gast_co_co.Types.{AdjUnit}
use gast_co_co.Tree.Valid.{dests, dests-append}
use gast_co_co.Vertex.{Sizes, u32_mod}
use gast_co_co.Vertex.Valid.{next_units, next_units-Perm}
use gast_co_co.Graph.Edge.{inserted}
use gast_co_co.Graph.Load.{Insertion}

-- The units of the insertions at vertex `v`.
abbrev pub units_at : ℕ → List Insertion → List AdjUnit
units_at v [] = []
units_at v ((src, u) ∷ es) = if v == src then u ∷ units_at v es else units_at v es

-- The units of all vertices after a list of insertions.
abbrev pub loaded : Sizes → List Insertion → (ℕ → List AdjUnit) → ℕ → List AdjUnit
loaded z [] us = us
loaded z ((src, u) ∷ es) us = loaded z es (inserted z src u us)

inserted-Perm :
    (z : Sizes) (src : ℕ) (u : AdjUnit) (es : List Insertion) (us : ℕ → List AdjUnit) (v : ℕ)
    → Perm (units_at v es ++ inserted z src u us v) (units_at v ((src, u) ∷ es) ++ us v)
inserted-Perm z src u es us v = elim (Bool-cases (v == src)) [
  | inr e ↦ rw e (Perm.refl (units_at v es ++ us v))
  | inl e ↦ rw e (
      subst (λ w. Perm (units_at v es ++ next_units z u (us w)) (u ∷ (units_at v es ++ us v)))
        (==→eq v src e)
        (Perm.trans (Perm.append_left (units_at v es) (next_units-Perm z u (us v)))
          (perm_middle (units_at v es) (us v))))
]

-- Every vertex has its old units and those of its insertions, each once.
pub loaded-Perm :
    (z : Sizes) (es : List Insertion) (us : ℕ → List AdjUnit) (v : ℕ)
    → Perm (loaded z es us v) (units_at v es ++ us v)
loaded-Perm z [] us v = Perm.refl (us v)
loaded-Perm z ((src, u) ∷ es) us v =
    Perm.trans (loaded-Perm z es (inserted z src u us) v) (inserted-Perm z src u es us v)

abbrev pub InRange : ℕ → List Insertion → Type 0
InRange n [] = Unit
InRange n ((src, u) ∷ es) = (src < n) × InRange n es

-- Insertions that bring no vertex a neighbour twice, and none 2^32 neighbours or more.
pub record IsLoadable (n : ℕ) (us : ℕ → List AdjUnit) (es : List Insertion) : Type 0 where
  pub in_range : InRange n es
  pub distinct : (v : ℕ) → Distinct (dests (units_at v es ++ us v))
  pub room : (v : ℕ) → length (units_at v es ++ us v) < u32_mod

dests-map : (us : List AdjUnit) → dests us ≡ map (λ (u : AdjUnit). u.dest) us
dests-map [] = refl
dests-map (u ∷ us) = ap (◌∷◌ u.dest) (dests-map us)

dests-Perm : {us vs : List AdjUnit} → Perm us vs → Perm (dests us) (dests vs)
dests-Perm {us} {vs} p = rw (dests-map us, dests-map vs) (Perm.map (λ (u : AdjUnit). u.dest) p)

module _ (n : ℕ) (us : ℕ → List AdjUnit) (src : ℕ) (u : AdjUnit) (es : List Insertion)
    (h : IsLoadable n us ((src, u) ∷ es)) where
  -- What the first insertion needs.
  pub IsLoadable-head : Absent u.dest (dests (us src)) × (length (us src) + 1 < u32_mod)
  IsLoadable-head =
      let self : (src == src) ≡ true = ground arith in
      let d : Distinct (dests (u ∷ (units_at src es ++ us src))) = rw self at (h.distinct src) in
      let r : length (u ∷ (units_at src es ++ us src)) < u32_mod = rw self at (h.room src) in
      let len = length-append (units_at src es) (us src) in
      (
        (Absent-append u.dest (dests (units_at src es)) (dests (us src))
            (subst (Absent u.dest) (dests-append (units_at src es) (us src)) d.0)).1,
        omega (arith, r, len),
      )

  -- What is left for the others.
  pub IsLoadable-tail : (z : Sizes) → IsLoadable n (inserted z src u us) es
  IsLoadable-tail z = record {
    in_range = h.in_range.1;
    distinct =
        λ v. Distinct-Perm (dests-Perm (Perm.symm (inserted-Perm z src u es us v))) (h.distinct v);
    room = λ v. let e = length-Perm (inserted-Perm z src u es us v) in omega (arith, e, h.room v);
  }
