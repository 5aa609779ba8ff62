-- ===== src/VertexRemap/Ranks.antt =====
-- The new number of a vertex is the number of smaller vertices that stand in edges.
use gast_co_co.Prelude.{
  ℕ, zero, suc, ◌+◌, ◌-◌, ◌<◌, ◌≤◌, ◌≡◌, refl, sym, ap, subst, ◌∙◌, arith, Bool, true, false,
  Bool-cases, inl, inr, ◌||◌, ◌==◌, ==→eq, ==→ne, if◌then◌else◌, List, [], ◌∷◌,
}
use gast_co_co.Types.{Gedge}
use gast_co_co.VertexRemap.{max_v, set_vertex, mark, number_vertices, numbering}

-- Whether a vertex stands in an edge.
abbrev pub uses : ℕ → List Gedge → Bool
uses v [] = false
uses v (e ∷ es) = (v == e.start_vertex) || (v == e.end_vertex) || uses v es

-- The number of marked vertices below `n`.
abbrev rank : (ℕ → ℕ) → ℕ → ℕ
rank l zero = 0
rank l (suc n) = rank l n + (if l n == 1 then 1 else 0)

rank-le : (l : ℕ → ℕ) (u k : ℕ) → rank l u ≤ rank l (u + k)
rank-le l u zero = let e : rank l (u + 0) ≡ rank l u = ap (rank l) (omega arith) in omega (arith, e)
rank-le l u (suc k) =
    let n : u + suc k ≡ suc (u + k) = omega arith in
    let e : rank l (u + suc k) ≡ rank l (u + k) + (if l (u + k) == 1 then 1 else 0) =
      ap (rank l) n in
    let ih = rank-le l u k in omega (arith, e, ih)

-- A marked vertex has a smaller rank than all vertices above it.
rank-lt : (l : ℕ → ℕ) (u v : ℕ) → l u ≡ 1 → u < v → rank l u < rank l v
rank-lt l u v m lt =
    let q : (l u == 1) ≡ true = ground (arith, m) in
    let up : rank l (suc u) ≡ rank l u + 1 = rw q refl in
    let le = rank-le l (suc u) (v - suc u) in
    let e : rank l (suc u + (v - suc u)) ≡ rank l v = ap (rank l) (omega (arith, lt)) in
    omega (arith, up, le, e)

-- Every smaller number is the rank of a marked vertex.
rank-onto : (l : ℕ → ℕ) (n k : ℕ) → k < rank l n → (u : ℕ) × (u < n) × (l u ≡ 1) × (rank l u ≡ k)
rank-onto l zero k lt = absurd (omega (arith, lt))
rank-onto l (suc n) k lt = elim (Bool-cases (l n == 1)) [
  | inl q ↦ elim (Bool-cases (rank l n == k)) [
    | inl p ↦ (n, omega arith, ==→eq (l n) 1 q, ==→eq (rank l n) k p)
    | inr p ↦
        let ne = ==→ne (rank l n) k p in
        let lt' : k < rank l n + 1 = subst (λ b. k < rank l n + (if b then 1 else 0)) q lt in
        let r = rank-onto l n k (omega (arith, lt', ne)) in
        (r.0, (let h = r.1 in omega (arith, h)), r.2, r.3)
  ]
  | inr q ↦
      let lt' : k < rank l n + 0 = subst (λ b. k < rank l n + (if b then 1 else 0)) q lt in
      let r = rank-onto l n k (omega (arith, lt')) in
      (r.0, (let h = r.1 in omega (arith, h)), r.2, r.3)
]

-- The loop: every marked vertex from `i` on gets its rank, and the others keep their cells.
record IsNumbered (i n : ℕ) (l0 l l' : ℕ → ℕ) (vid : ℕ) : Type 0 where
  numbered : (j : ℕ) → i ≤ j → j < n → l0 j ≡ 1 → l' j ≡ rank l0 j
  before : (j : ℕ) → j < i → l' j ≡ l j
  count : vid ≡ rank l0 n

number_vertices-IsNumbered :
    (rounds i n vid : ℕ) (l0 l : ℕ → ℕ)
    → i + rounds ≡ n
    → vid ≡ rank l0 i
    → ((j : ℕ) → i ≤ j → l j ≡ l0 j)
    → IsNumbered i n l0 l (number_vertices rounds i vid l).0 (number_vertices rounds i vid l).1
unfolding number_vertices set_vertex
number_vertices-IsNumbered zero i n vid l0 l e at same = record {
  numbered = λ j le lt. absurd (omega (arith, e, le, lt));
  before = λ j lt. refl;
  count = at ∙ ap (rank l0) (omega (arith, e));
}
number_vertices-IsNumbered (suc m) i n vid l0 l e at same = elim (Bool-cases (l i == 1)) [
  | inl q ↦
      let l1 = set_vertex l i vid in
      let q0 : (l0 i == 1) ≡ true = ap (λ x. x == 1) (sym (same i (omega arith))) ∙ q in
      let up : rank l0 (suc i) ≡ rank l0 i + 1 = rw q0 refl in
      let ih =
        number_vertices-IsNumbered m (suc i) n (suc vid) l0 l1 (omega (arith, e))
          (omega (arith, at, up))
          (λ j le.
            let ne : (j == i) ≡ false = ground (arith, le) in rw ne (same j (omega (arith, le)))) in
      rw q (record {
        numbered = λ j le lt marked. elim (Bool-cases (j == i)) [
          | inl p ↦
              let j_is = ==→eq j i p in
              ih.before j (omega (arith, j_is)) ∙ rw p (at ∙ ap (rank l0) (sym j_is))
          | inr p ↦ let ne = ==→ne j i p in ih.numbered j (omega (arith, le, ne)) lt marked
        ];
        before = λ j lt.
            let ne : (j == i) ≡ false = ground (arith, lt) in
            ih.before j (omega (arith, lt)) ∙ rw ne refl;
        count = ih.count;
      })
  | inr q ↦
      let q0 : (l0 i == 1) ≡ false = ap (λ x. x == 1) (sym (same i (omega arith))) ∙ q in
      let stay : rank l0 (suc i) ≡ rank l0 i + 0 = rw q0 refl in
      let ih =
        number_vertices-IsNumbered m (suc i) n vid l0 l (omega (arith, e)) (omega (arith, at, stay))
          (λ j le. same j (omega (arith, le))) in
      rw q (record {
        numbered = λ j le lt marked. elim (Bool-cases (j == i)) [
          | inl p ↦
              let j_is = ==→eq j i p in
              let no = ==→ne (l0 i) 1 q0 in absurd (no (ap l0 (sym j_is) ∙ marked))
          | inr p ↦ let ne = ==→ne j i p in ih.numbered j (omega (arith, le, ne)) lt marked
        ];
        before = λ j lt. ih.before j (omega (arith, lt));
        count = ih.count;
      })
]

mark-uses : (es : List Gedge) (l : ℕ → ℕ) (v : ℕ) → mark es l v ≡ (if uses v es then 1 else l v)
unfolding mark set_vertex
mark-uses [] l v = refl
mark-uses (e ∷ es) l v =
    let ih = mark-uses es (set_vertex (set_vertex l e.start_vertex 1) e.end_vertex 1) v in
    elim (Bool-cases (v == e.end_vertex)) [
      | inl p ↦ ih ∙ elim (Bool-cases (v == e.start_vertex)) [
        | inl q ↦ elim (Bool-cases (uses v es)) [
          | inl r ↦ rw (p, q, r) refl
          | inr r ↦ rw (p, q, r) refl
        ]
        | inr q ↦ elim (Bool-cases (uses v es)) [
          | inl r ↦ rw (p, q, r) refl
          | inr r ↦ rw (p, q, r) refl
        ]
      ]
      | inr p ↦ ih ∙ elim (Bool-cases (v == e.start_vertex)) [
        | inl q ↦ elim (Bool-cases (uses v es)) [
          | inl r ↦ rw (p, q, r) refl
          | inr r ↦ rw (p, q, r) refl
        ]
        | inr q ↦ rw (p, q) refl
      ]
    ]

uses-max_v : (es : List Gedge) (v : ℕ) → uses v es ≡ true → v ≤ max_v es
uses-max_v [] v h = ground arith
uses-max_v (e ∷ es) v h = elim (Bool-cases (v == e.start_vertex)) [
  | inl p ↦ let q = ==→eq v e.start_vertex p in omega (arith, q)
  | inr p ↦ elim (Bool-cases (v == e.end_vertex)) [
    | inl p' ↦ let q = ==→eq v e.end_vertex p' in omega (arith, q)
    | inr p' ↦
        let h' : uses v es ≡ true = subst (λ b. (b || uses v es) ≡ true) (neither p p') h in
        let ih = uses-max_v es v h' in omega (arith, ih)
  ]
]
  where
    neither : {a b : Bool} → a ≡ false → b ≡ false → (a || b) ≡ false
    neither p q = rw (p, q) refl

-- New numbers for the vertices of edges: in their order, and without a gap.
pub record IsRenumbering (es : List Gedge) (new : ℕ → ℕ) (count : ℕ) : Type 0 where
  pub ordered : (u v : ℕ) → uses u es ≡ true → uses v es ≡ true → u < v → new u < new v
  pub below : (u : ℕ) → uses u es ≡ true → new u < count
  pub onto : (k : ℕ) → k < count → (u : ℕ) × (uses u es ≡ true) × (new u ≡ k)

-- The numbers that `VertexRemap` gives, with the one behind the last: the vertices of the edges keep their order, and
-- their new numbers are those from 0 on, without a gap.
pub numbering-IsRenumbering : (es : List Gedge) → IsRenumbering es (numbering es).0 (numbering es).1
unfolding numbering
numbering-IsRenumbering es =
    let l = mark es (λ _. 0) in
    let n = max_v es + 1 in
    let is = number_vertices-IsNumbered n 0 n 0 l l (omega arith) refl (λ j le. refl) in
    record {
      ordered = λ u v hu hv lt.
          let a = at u hu in
          let b = at v hv in let r = rank-lt l u v (marked u hu) lt in omega (arith, a, b, r);
      below = λ u h.
          let a = at u h in
          let m = uses-max_v es u h in
          let r = rank-lt l u n (marked u h) (omega (arith, m)) in
          let c = is.count in omega (arith, a, r, c);
      onto = λ k lt.
          let c = is.count in
          let r = rank-onto l n k (omega (arith, lt, c)) in
          (r.0, used r.0 r.2, is.numbered r.0 (omega arith) r.1 r.2 ∙ r.3);
    }
  where
    marked : (u : ℕ) → uses u es ≡ true → mark es (λ _. 0) u ≡ 1
    marked u h = mark-uses es (λ _. 0) u ∙ rw h refl

    at :
        (u : ℕ)
        → uses u es ≡ true
        → (number_vertices (max_v es + 1) 0 0 (mark es (λ _. 0))).0 u ≡ rank (mark es (λ _. 0)) u
    at u h =
        let l = mark es (λ _. 0) in
        let n = max_v es + 1 in
        let is = number_vertices-IsNumbered n 0 n 0 l l (omega arith) refl (λ j le. refl) in
        let m = uses-max_v es u h in is.numbered u (omega arith) (omega (arith, m)) (marked u h)

    used : (u : ℕ) → mark es (λ _. 0) u ≡ 1 → uses u es ≡ true
    used u h = elim (Bool-cases (uses u es)) [
      | inl p ↦ p
      | inr p ↦
          let z : mark es (λ _. 0) u ≡ 0 = mark-uses es (λ _. 0) u ∙ rw p refl in
          absurd (omega (arith, z, h))
    ]
