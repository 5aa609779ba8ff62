-- ===== src/Graph/Chain/Connect.antt =====
-- The links that `ConnectGTChain` makes.
use gast_co_co.Prelude.{
  ℕ, zero, suc, ◌+◌, ◌<◌, ◌≡◌, ◌≢◌, refl, sym, subst, List, arith, ◌==◌, ◌||◌, some, true, inl, inr,
  ℤ, Bool-cases, ==→eq, ==→ne,
}
use gast_co_co.Types.{AdjUnit, NextPointer}
use gast_co_co.Vertex.{Store, CblNode, Sizes}
use gast_co_co.Vertex.Valid.{IsVertex}
use gast_co_co.Graph.{Table}
use gast_co_co.Graph.Valid.{IsTable, put_units, set_node-IsTable, other-IsVertex}
use gast_co_co.Graph.Insert.{IsRelinked, link_last-IsRelinked}
use gast_co_co.Graph.Edge.{put_back, restore}
use gast_co_co.Graph.Chain.{link_type, connect_from}

-- Vertex `j` leads to vertex `j + 1`.
abbrev pub Leads : (z : Sizes) (us : ℕ → List AdjUnit) (t : Table) (j : ℕ) → Type 0
Leads z us t j =
    IsVertex z t.store (t.node (suc j)).neighboor (link_type z (t.node (suc j))) j (t.node j) (us j)

-- The vertices before `m` each lead to the next one.
pub record IsChained (z : Sizes) (us : ℕ → List AdjUnit) (m : ℕ) (t : Table) : Type 0 where
  pub valid : IsTable z us t
  pub leads : (j : ℕ) → j < m → Leads z us t j

IsVertex-level :
    (z : Sizes) (s : Store) (p : NextPointer) (t : ℤ) (a : ℕ) (v : CblNode) (us : List AdjUnit)
    → IsVertex z s p t a v us
    → ((v.level == 1) || (v.level == 2)) ≡ true
IsVertex-level z s p t a v us (inl is) = rw is.level refl
IsVertex-level z s p t a v us (inr is) = rw is.level refl

module _ (z : Sizes) (us : ℕ → List AdjUnit) (t : Table) (i : ℕ) (s' : Store) (p : NextPointer)
    (ty : ℤ) (lt : i < t.size) (valid : IsTable z us t)
    (is : IsRelinked z p ty i t.store s' (t.node i) (us i)) where
  -- A table in which vertex `i` has a new link.
  pub relinked-IsTable : IsTable z us (record t { store = s' })
  relinked-IsTable =
      subst (λ f. IsTable z f (record t { store = s' })) (put_back us i)
        (subst (IsTable z (put_units us i (us i))) (restore t i s') (
          set_node-IsTable z us t i (t.node i) s' (us i) valid lt
            (record { pointer = p; type = ty; vertex = is.vertex }) is.is_local))

  pub relinked-other :
      (j : ℕ) (q : NextPointer) (tq : ℤ)
      → j < t.size
      → j ≢ i
      → IsVertex z t.store q tq j (t.node j) (us j)
      → IsVertex z s' q tq j (t.node j) (us j)
  relinked-other =
      other-IsVertex z us t i (t.node i) s' (us i) valid lt
        (record { pointer = p; type = ty; vertex = is.vertex }) is.is_local

-- The loop ends, with every vertex that it passes linked to the next one; only links change.
pub connect_from-IsChained :
    (z : Sizes) (us : ℕ → List AdjUnit) (k i n : ℕ) (t : Table)
    → i + k ≡ n
    → n < t.size
    → IsChained z us i t
    → (t' : Table) × (connect_from z k i t ≡ some t')
      × IsChained z us n t'
      × (t'.size ≡ t.size)
      × (t'.node ≡ t.node)
unfolding connect_from
connect_from-IsChained z us zero i n t sum lt chained =
    let e : i ≡ n = omega arith in (t, refl, subst (λ m. IsChained z us m t) e chained, refl, refl)
connect_from-IsChained z us (suc k) i n t sum lt chained =
    let below : i < t.size = omega arith in
    let w = chained.valid.vertices i below in
    let next = t.node (suc i) in
    let (s, e, is) =
      link_last-IsRelinked z w.pointer next.neighboor w.type (link_type z next) i t.store (t.node i)
        (us i) w.vertex in
    let test = IsVertex-level z t.store w.pointer w.type i (t.node i) (us i) w.vertex in
    let (t', e', chained', same, same') =
      connect_from-IsChained z us k (suc i) n (record t { store = s }) (omega arith) lt
        (record {
          valid =
              relinked-IsTable z us t i s next.neighboor (link_type z next) below chained.valid is;
          leads = λ j lt'. elim (Bool-cases (j == i)) [
            | inl q ↦ subst (Leads z us (record t { store = s })) (sym (==→eq j i q)) is.vertex
            | inr q ↦
                let ne = ==→ne j i q in
                relinked-other z us t i s next.neighboor (link_type z next) below chained.valid is j
                  (t.node (suc j)).neighboor (link_type z (t.node (suc j))) (omega arith) ne
                  (chained.leads j (omega (arith, ne)))
          ];
        }) in
    (t', rw (test, e, e', connect_from), chained', same, same')
