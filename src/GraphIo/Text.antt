-- ===== src/GraphIo/Text.antt =====
-- The readers of text files.
use gast_co_co.Prelude.{
  ℕ, zero, suc, ◌+◌, ◌%◌, ◌<◌, ◌≤◌, ◌≡◌, refl, sym, ap, fun_ext, ◌∙◌, arith, Bool, true, false,
  Bool-cases, inl, inr, ◌⊎◌, ltb, leb, ltb→lt, lt→ltb, ge→ltb, ◌==◌, if◌then◌else◌, none, some,
  List, [], ◌∷◌, length,
}
use gast_co_co.Types.{Gedge}
use gast_co_co.Vertex.{u32_mod}
use gast_co_co.GraphIo.{
  EdgeList, Fresh, set_edge, Line, comment, numbers, load_lines, load_graph_from_file, skip_lines,
  part_edges, load_graph_from_file_part,
}

-- The edges of a file, without its comments.
abbrev pub edges_of : List Line → List Gedge
edges_of [] = []
edges_of (comment ∷ ls) = edges_of ls
edges_of (numbers s d v ∷ ls) = record { start_vertex = s; end_vertex = d; value = v } ∷ edges_of ls

-- The cells of an array from `e` on, with the cells of another one before them.
abbrev pub array_from : (e : ℕ) → List Gedge → EdgeList → EdgeList
array_from e [] es = es
array_from e (x ∷ xs) es = array_from (suc e) xs (λ j. if j == e then x else es j)

load_lines-full :
    (size : ℕ) (ls : List Line) (e : ℕ) (es : EdgeList)
    → e + length (edges_of ls) ≤ size
    → load_lines size ls e es ≡ some (array_from e (edges_of ls) es)
unfolding load_lines set_edge
load_lines-full size [] e es le = refl
load_lines-full size (comment ∷ ls) e es le = load_lines-full size ls e es le
load_lines-full size (numbers s d v ∷ ls) e es le =
    rw (lt→ltb e size (omega (arith, le))) (load_lines-full size ls (suc e) _ (omega (arith, le)))

load_lines-over :
    (size : ℕ) (ls : List Line) (e : ℕ) (es : EdgeList)
    → size < e + length (edges_of ls)
    → e ≤ size
    → load_lines size ls e es ≡ none
unfolding load_lines set_edge
load_lines-over size [] e es lt le = absurd (omega (arith, lt, le))
load_lines-over size (comment ∷ ls) e es lt le = load_lines-over size ls e es lt le
load_lines-over size (numbers s d v ∷ ls) e es lt le = elim (Bool-cases (ltb e size)) [
  | inl p ↦
      rw p (load_lines-over size ls (suc e) _ (omega (arith, lt)) (omega (arith, ltb→lt e size p)))
  | inr p ↦ rw p refl
]

-- Edge number `k` of a list, and behind its end what stood in the array.
abbrev pub nth_or : EdgeList → (e : ℕ) → List Gedge → ℕ → Gedge
nth_or es e [] k = es (e + k)
nth_or es e (x ∷ xs) zero = x
nth_or es e (x ∷ xs) (suc k) = nth_or es (suc e) xs k

array_from-before :
    (xs : List Gedge) (e : ℕ) (es : EdgeList) (k : ℕ) → k < e → array_from e xs es k ≡ es k
array_from-before [] e es k lt = refl
array_from-before (x ∷ xs) e es k lt =
    let ne : (k == e) ≡ false = ground (arith, lt) in
    array_from-before xs (suc e) _ k (omega (arith, lt)) ∙ rw ne refl

array_from-nth :
    (xs : List Gedge) (e : ℕ) (es es0 : EdgeList)
    → ((k : ℕ) → e ≤ k → es k ≡ es0 k)
    → (k : ℕ) → array_from e xs es (e + k) ≡ nth_or es0 e xs k
array_from-nth [] e es es0 same k = same (e + k) (omega arith)
array_from-nth (x ∷ xs) e es es0 same zero =
    let self : (e + 0 == e) ≡ true = ground arith in
    array_from-before xs (suc e) _ (e + 0) (omega arith) ∙ rw self refl
array_from-nth (x ∷ xs) e es es0 same (suc k) =
    let next : e + suc k ≡ suc e + k = omega arith in
    rw next (
      array_from-nth xs (suc e) (λ j. if j == e then x else es j) es0
        (λ j le.
          let ne : (j == e) ≡ false = ground (arith, le) in rw ne (same j (omega (arith, le))))
        k)

-- `LoadGraphFromFile` of a file with at most `e` edges returns them in the order of their lines, with
-- what new memory holds behind them; of a file with more it writes behind its array.
pub load_graph_from_file-edges :
    (fresh : Fresh) (e : ℕ) (ls : List Line)
    → load_graph_from_file fresh e ls
      ≡ (if leb (length (edges_of ls)) e then some (nth_or fresh.edges 0 (edges_of ls)) else none)
unfolding load_graph_from_file
load_graph_from_file-edges fresh e ls = elim (Bool-cases (leb (length (edges_of ls)) e)) [
  | inl p ↦
      let le : length (edges_of ls) ≤ e = ground (arith, p) in
      rw p (
        load_lines-full e ls 0 fresh.edges (omega (arith, le))
        ∙ ap some (
            fun_ext (λ k.
              ap (array_from 0 (edges_of ls) fresh.edges) (omega arith)
              ∙ array_from-nth (edges_of ls) 0 fresh.edges fresh.edges (λ j h. refl) k)))
  | inr p ↦
      let gt : e < length (edges_of ls) = ground (arith, p) in
      rw p (load_lines-over e ls 0 fresh.edges (omega (arith, gt)) (omega arith))
]

-- The lines behind the first `n` edges and one line more.
abbrev pub lines_behind : (n : ℕ) → List Line → List Line
lines_behind n [] = []
lines_behind zero (l ∷ ls) = ls
lines_behind (suc n) (comment ∷ ls) = lines_behind (suc n) ls
lines_behind (suc n) (numbers s d v ∷ ls) = lines_behind n ls

-- The edges with weights in the order of the calls of `random`.
abbrev pub weighed : (random : ℕ → ℕ) → (k : ℕ) → List Gedge → List Gedge
weighed random k [] = []
weighed random k (e ∷ es) = record e { value = random k } ∷ weighed random (suc k) es

part_edges-weighed :
    (random : ℕ → ℕ) (endline cnt k : ℕ) (ls : List Line)
    → part_edges random endline cnt k ls
      ≡ (if ltb cnt endline then weighed random k (edges_of ls) else [])
unfolding part_edges
part_edges-weighed random endline cnt k [] = elim (Bool-cases (ltb cnt endline)) [
  | inl p ↦ rw p refl
  | inr p ↦ rw p refl
]
part_edges-weighed random endline cnt k (comment ∷ ls) =
    let ih = part_edges-weighed random endline cnt k ls in
    elim (Bool-cases (ltb cnt endline)) [ inl p ↦ rw p (ih ∙ rw p refl) | inr p ↦ rw p refl ]
part_edges-weighed random endline cnt k (numbers s d v ∷ ls) =
    let ih = part_edges-weighed random endline cnt (suc k) ls in
    elim (Bool-cases (ltb cnt endline)) [
      | inl p ↦ rw p (
          ap (λ xs. record { start_vertex = s; end_vertex = d; value = random k } ∷ xs)
            (ih ∙ rw p refl))
      | inr p ↦ rw p refl
    ]

-- What the first loop leaves: the lines, and the count that it asks for if there are any.
skip_lines-behind :
    (n start cnt : ℕ) (ls : List Line)
    → start ≡ cnt + n
    → start < u32_mod
    → ((skip_lines start cnt ls).0 ≡ lines_behind n ls)
      × (((skip_lines start cnt ls).0 ≡ []) ⊎ ((skip_lines start cnt ls).1 ≡ start))
unfolding skip_lines
skip_lines-behind n start cnt [] q small = (refl, inl refl)
skip_lines-behind zero start cnt (l ∷ ls) q small =
    rw (ge→ltb cnt start (omega (arith, q))) (refl, inr (omega (arith, q)))
skip_lines-behind (suc n) start cnt (comment ∷ ls) q small =
    rw (lt→ltb cnt start (omega (arith, q))) (skip_lines-behind (suc n) start cnt ls q small)
skip_lines-behind (suc n) start cnt (numbers s d v ∷ ls) q small =
    let whole : suc cnt % u32_mod ≡ suc cnt = ground (arith, q, small) in
    rw (lt→ltb cnt start (omega (arith, q)), whole)
      (skip_lines-behind n start (suc cnt) ls (omega (arith, q)) small)

weighed-nothing :
    (random : ℕ → ℕ) (b c : Bool)
    → (if b then weighed random 0 (edges_of []) else [])
      ≡ (if c then weighed random 0 (edges_of []) else [])
weighed-nothing random true true = refl
weighed-nothing random true false = refl
weighed-nothing random false true = refl
weighed-nothing random false false = refl

-- `LoadGraphFromFilePart`, for a `startline` below 2^32, returns, if it is below `endline`, all edges of the lines behind the first
-- `startline` edges and one line more, to the end of the file, and no edge otherwise.
pub load_graph_from_file_part-edges :
    (random : ℕ → ℕ) (ls : List Line) (startline endline : ℕ)
    → startline < u32_mod
    → load_graph_from_file_part random ls startline endline ≡ (
        if ltb startline endline
        then weighed random 0 (edges_of (lines_behind startline ls))
        else [])
unfolding load_graph_from_file_part
load_graph_from_file_part-edges random ls startline endline small =
    let on = skip_lines startline 0 ls in
    let is = skip_lines-behind startline startline 0 ls (omega arith) small in
    part_edges-weighed random endline on.1 0 on.0 ∙ elim is.1 [
      | inl q ↦
          let q' = sym is.0 ∙ q in
          rw (q, q') (weighed-nothing random (ltb on.1 endline) (ltb startline endline))
      | inr q ↦ rw (q, is.0) refl
    ]
