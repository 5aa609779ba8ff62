-- ===== src/Graph/Valid.antt =====
-- The invariant of a table, and its preservation when the chunks of one vertex change.
use gast_co_co.Prelude.{
  ℕ, ◌<◌, ◌≡◌, ◌≢◌, sym, subst, ◌∙◌, List, [], ◌∷◌, ℤ, Bool-cases, inl, inr, ◌==◌, if◌then◌else◌,
  ==→eq, ==→ne,
}
use gast_co_co.Prelude.Distinct.{Absent, All, All-map}
use gast_co_co.Types.{AdjUnit, NextPointer}
use gast_co_co.Tree.Ends.{tree_addresses}
use gast_co_co.Vertex.{Store, CblNode, Sizes}
use gast_co_co.Vertex.Valid.{IsVertex, IsLocal}
use gast_co_co.Vertex.Same.{All₂, IsVertex-same, vertex-allocated}
use gast_co_co.Graph.{Table, set_node}

-- The vertex with some link behind its last chunk.
pub record IsLinkedVertex (z : Sizes) (s : Store) (i : ℕ) (v : CblNode) (us : List AdjUnit)
    : Type 0 where
  pub pointer : NextPointer
  pub type : ℤ
  pub vertex : IsVertex z s pointer type i v us

-- A table whose vertex `i` has the units `us i` and, while it has no tree, the level-1 chunk `i`; no
-- leaf chunk belongs to two vertices.
pub record IsTable (z : Sizes) (us : ℕ → List AdjUnit) (t : Table) : Type 0 where
  pub vertices : (i : ℕ) → i < t.size → IsLinkedVertex z t.store i (t.node i) (us i)
  pub apart :
      (i j : ℕ)
      → i < t.size
      → j < t.size
      → i ≢ j
      → All (λ x. Absent x (tree_addresses (t.node j).bpt)) (tree_addresses (t.node i).bpt)

abbrev pub put_units : (ℕ → List AdjUnit) → ℕ → List AdjUnit → ℕ → List AdjUnit
put_units us i new j = if j == i then new else us j

All-Absent-sym : (xs ys : List ℕ) → All (λ x. Absent x ys) xs → All (λ y. Absent y xs) ys
All-Absent-sym xs [] h = tt
All-Absent-sym xs (y ∷ ys) h = (
  heads xs h,
  All-Absent-sym xs ys (All-map (λ x. Absent x (y ∷ ys)) (λ x. Absent x ys) (λ x k. k.1) xs h),
)
  where
    heads : (zs : List ℕ) → All (λ x. Absent x (y ∷ ys)) zs → Absent y zs
    heads [] k = tt
    heads (z ∷ zs) k = ((λ e. k.0.0 (sym e)), heads zs k.1)

module _ (z : Sizes) (us : ℕ → List AdjUnit) (t : Table) (i : ℕ) (v' : CblNode) (s' : Store)
    (new : List AdjUnit) (valid : IsTable z us t) (bound : i < t.size)
    (is : IsLinkedVertex z s' i v' new) (only : IsLocal i t.store s' (t.node i) v') where
  -- The addresses of another vertex are below `fresh` and not in the tree of vertex `i`.
  outside :
      (j : ℕ)
      → j < t.size
      → j ≢ i
      → All (λ x. Absent x (tree_addresses (t.node i).bpt)) (tree_addresses (t.node j).bpt)
        × All (λ x. x < t.store.heap.fresh) (tree_addresses (t.node j).bpt)
  outside j lt ne =
      let w = valid.vertices j lt in
      (
        valid.apart j i lt bound ne,
        vertex-allocated z t.store w.pointer w.type j (t.node j) (us j) w.vertex,
      )

  -- Another vertex keeps its units and its link.
  pub other-IsVertex :
      (j : ℕ) (p : NextPointer) (ty : ℤ)
      → j < t.size
      → j ≢ i
      → IsVertex z t.store p ty j (t.node j) (us j)
      → IsVertex z s' p ty j (t.node j) (us j)
  other-IsVertex j p ty lt ne w =
      let out = outside j lt ne in
      IsVertex-same z t.store s' p ty j (t.node j) (us j) only.framed.grown_heap
        (only.lv1_kept j ne)
        (All₂ (λ x. Absent x (tree_addresses (t.node i).bpt)) (λ x. x < t.store.heap.fresh)
          (λ x. s'.heap.chunk x ≡ t.store.heap.chunk x) (λ x away old. only.framed.kept x old away)
          (tree_addresses (t.node j).bpt) out.0 out.1)
        w

  other-IsLinkedVertex : (j : ℕ) → j < t.size → j ≢ i → IsLinkedVertex z s' j (t.node j) (us j)
  other-IsLinkedVertex j lt ne =
      let w = valid.vertices j lt in
      record {
        pointer = w.pointer;
        type = w.type;
        vertex = other-IsVertex j w.pointer w.type lt ne w.vertex;
      }

  other-apart :
      (j : ℕ)
      → j < t.size
      → j ≢ i
      → All (λ x. Absent x (tree_addresses v'.bpt)) (tree_addresses (t.node j).bpt)
  other-apart j lt ne =
      let out = outside j lt ne in
      All₂ (λ x. Absent x (tree_addresses (t.node i).bpt)) (λ x. x < t.store.heap.fresh)
        (λ x. Absent x (tree_addresses v'.bpt)) (λ x away old. only.framed.inside x old away)
        (tree_addresses (t.node j).bpt) out.0 out.1

  pub set_node-IsTable : IsTable z (put_units us i new) (set_node t i v' s')
  unfolding set_node
  set_node-IsTable = record {
    vertices = λ j lt. elim (Bool-cases (j == i)) [
      | inl e ↦ rw e (subst (λ k. IsLinkedVertex z s' k v' new) (sym (==→eq j i e)) is)
      | inr e ↦ rw e (other-IsLinkedVertex j lt (==→ne j i e))
    ];
    apart = λ j k lt lt' ne. elim (Bool-cases (j == i)) [
      | inl e ↦ elim (Bool-cases (k == i)) [
        | inl e' ↦ absurd (ne (==→eq j i e ∙ sym (==→eq k i e')))
        | inr e' ↦
            rw (e, e')
              (All-Absent-sym (tree_addresses (t.node k).bpt) (tree_addresses v'.bpt)
                (other-apart k lt' (==→ne k i e')))
      ]
      | inr e ↦ elim (Bool-cases (k == i)) [
        | inl e' ↦ rw (e, e') (other-apart j lt (==→ne j i e))
        | inr e' ↦ rw (e, e') (valid.apart j k lt lt' ne)
      ]
    ];
  }
