-- ===== src/VertexRemap.antt =====
-- others/dataproc/VertexRemap.cpp: the vertices that stand in edges get the numbers from 0 on.
pub mod Ranks
pub mod Restore
use gast_co_co.Vertex.{int_bound}
use gast_co_co.Prelude.{
  ℕ, zero, suc, ◌+◌, ◌==◌, if◌then◌else◌, max, Bool, true, false, ◌||◌, List, [], ◌∷◌, Option, none,
  some, ltb,
}
use gast_co_co.Types.{Gedge}

-- `MaxV`.
abbrev pub max_v : List Gedge → ℕ
max_v [] = 0
max_v (e ∷ es) = max (max e.start_vertex e.end_vertex) (max_v es)

unfoldable pub set_vertex : (ℕ → ℕ) → ℕ → ℕ → (ℕ → ℕ)
set_vertex l i v j = if j == i then v else l j

-- `VertexList[s] = 1; VertexList[d] = 1`.
unfoldable pub mark : List Gedge → (ℕ → ℕ) → (ℕ → ℕ)
unfolding set_vertex
mark [] l = l
mark (e ∷ es) l = mark es (set_vertex (set_vertex l e.start_vertex 1) e.end_vertex 1)

-- The loop that numbers the marked vertices, from `i` on for the rounds that are left.
unfoldable pub number_vertices : (rounds i vid : ℕ) → (ℕ → ℕ) → (ℕ → ℕ) × ℕ
unfolding set_vertex
number_vertices zero i vid l = (l, vid)
number_vertices (suc k) i vid l =
    let skipped = number_vertices k (suc i) vid l in
    let taken = number_vertices k (suc i) (suc vid) (set_vertex l i vid) in
    if l i == 1 then taken else skipped

unfoldable pub numbering : List Gedge → (ℕ → ℕ) × ℕ
unfolding mark number_vertices
numbering es = number_vertices (max_v es + 1) 0 0 (mark es (λ _. 0))

-- The loop that renames the ends of the edges.
unfoldable pub rename : (ℕ → ℕ) → List Gedge → List Gedge
rename l [] = []
rename l (e ∷ es) =
    record e { start_vertex = l e.start_vertex; end_vertex = l e.end_vertex } ∷ rename l es

-- The edges that `main` writes; `none` where the index `int i` of the loop does not reach `MaxV + 1`.
unfoldable pub vertex_remap : List Gedge → Option (List Gedge)
unfolding numbering rename
vertex_remap es = if ltb (max_v es + 1) int_bound then some (rename (numbering es).0 es) else none
