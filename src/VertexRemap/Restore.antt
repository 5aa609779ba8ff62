-- ===== src/VertexRemap/Restore.antt =====
-- The edges that VertexRemap.cpp writes can be renamed back.
use gast_co_co.Vertex.{int_bound}
use gast_co_co.Prelude.{
  ℕ, ◌+◌, ◌<◌, ◌≡◌, refl, sym, ap, ◌∙◌, map, lt→ltb, some, arith, true, Bool-cases, inl, inr, ltb,
  ltb→lt, ltb→ge, List, [], ◌∷◌,
}
use gast_co_co.Types.{Gedge}
use gast_co_co.VertexRemap.{max_v, numbering, rename, vertex_remap}
use gast_co_co.VertexRemap.Ranks.{uses, IsRenumbering, numbering-IsRenumbering}

module _ (all : List Gedge) (new : ℕ → ℕ) (count : ℕ) (is : IsRenumbering all new count) where
  same_number : (u v : ℕ) → uses u all ≡ true → uses v all ≡ true → new u ≡ new v → u ≡ v
  same_number u v hu hv e = elim (Bool-cases (ltb u v)) [
    | inl p ↦ let lt = is.ordered u v hu hv (ltb→lt u v p) in absurd (omega (arith, e, lt))
    | inr p ↦ elim (Bool-cases (ltb v u)) [
      | inl q ↦ let lt = is.ordered v u hv hu (ltb→lt v u q) in absurd (omega (arith, e, lt))
      | inr q ↦ omega (arith, ltb→ge u v p, ltb→ge v u q)
    ]
  ]

  -- The old number of a new one.
  pub found : (k : ℕ) → (u : ℕ) × (k < count → (uses u all ≡ true) × (new u ≡ k))
  found k = elim (Bool-cases (ltb k count)) [
    | inl p ↦ let r = is.onto k (ltb→lt k count p) in (r.0, λ lt. (r.1, r.2))
    | inr p ↦ (0, λ lt. absurd (omega (arith, ltb→ge k count p, lt)))
  ]

  abbrev pub old : ℕ → ℕ
  old k = (found k).0

  old-new : (u : ℕ) → uses u all ≡ true → old (new u) ≡ u
  old-new u h = let r = (found (new u)).1 (is.below u h) in same_number (old (new u)) u r.0 h r.1

  pub rename-rename :
      (es : List Gedge)
      → ((u : ℕ) → uses u es ≡ true → uses u all ≡ true)
      → rename old (rename new es) ≡ es
  unfolding rename
  rename-rename [] h = refl
  rename-rename (e ∷ es) h =
      let s : uses e.start_vertex (e ∷ es) ≡ true = ground arith in
      let d : uses e.end_vertex (e ∷ es) ≡ true = ground arith in
      rw (old-new e.start_vertex (h e.start_vertex s), old-new e.end_vertex (h e.end_vertex d))
        (ap (λ xs. e ∷ xs) (rename-rename es (λ u used. h u (ground (arith, used)))))

-- An edge with new numbers for its ends.
abbrev pub renumbered : (ℕ → ℕ) → Gedge → Gedge
renumbered new e = record {
  start_vertex = new e.start_vertex;
  end_vertex = new e.end_vertex;
  value = e.value;
}

-- The edges `written` are the edges `es`, one by one and with their values, under new numbers for their
-- ends, which go from 0 on without a gap in the order of the old ones; a map of the numbers leads back.
pub record IsRenamed (es written : List Gedge) : Type 0 where
  pub new : ℕ → ℕ
  pub count : ℕ
  pub numbers : IsRenumbering es new count
  pub renamed : written ≡ map (λ e. renumbered new e) es
  pub back : (old : ℕ → ℕ) × (map (λ e. renumbered old e) written ≡ es)

rename-map : (new : ℕ → ℕ) (es : List Gedge) → rename new es ≡ map (λ e. renumbered new e) es
unfolding rename
rename-map new [] = refl
rename-map new (e ∷ es) = ap (λ xs. renumbered new e ∷ xs) (rename-map new es)

-- The edges that `VertexRemap` writes, if all numbers in the edges that it reads are below 2^31 - 1: they
-- are the edges read, in their order, with new numbers for their ends. The new numbers are those from 0
-- on without a gap, in the order of the old ones, and a map of them turns the edges written back into
-- the edges read.
pub vertex_remap-roundtrip :
    (es : List Gedge)
    → max_v es + 1 < int_bound
    → (written : List Gedge) × (vertex_remap es ≡ some written) × IsRenamed es written
unfolding vertex_remap
vertex_remap-roundtrip es small =
    let (new, count) = numbering es in
    let is = numbering-IsRenumbering es in
    (
      rename new es,
      rw (lt→ltb (max_v es + 1) int_bound small) refl,
      record {
        new = new;
        count = count;
        numbers = is;
        renamed = rename-map new es;
        back = (
          old es new count is,
          sym (rename-map (old es new count is) (rename new es))
              ∙ rename-rename es new count is es (λ u h. h),
        );
      },
    )
