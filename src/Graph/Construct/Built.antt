-- ===== src/Graph/Construct/Built.antt =====
-- From the file to the chain: what the constructors with a path build.
use gast_co_co.Prelude.{
  lt→ltb, ℕ, zero, suc, ◌+◌, ◌*◌, ◌<◌, ◌≤◌, ◌≡◌, refl, arith, List, [], some, map, length,
}
use gast_co_co.Types.{Gedge}
use gast_co_co.GraphIo.{Fresh, BinaryFile, EdgeList}
use gast_co_co.GraphIo.Binary.{edge_at, load_bg-edges}
use gast_co_co.Vertex.{int_bound, Sizes}
use gast_co_co.Vertex.Valid.{IsUsable}
use gast_co_co.Graph.Load.{Insertion, out_insertion, in_insertion, Direction}
use gast_co_co.Graph.Load.Order.{units_at, IsLoadable}
use gast_co_co.Graph.Load.Chained.{IsBuilt}
use gast_co_co.Graph.Load.Correct.{load_direction-IsBuilt}
use gast_co_co.Graph.Construct.{list_of, build, cb_list_out, cb_list_in}

list_of-same :
    (es es' : EdgeList) (i n e : ℕ)
    → i + n ≡ e
    → ((k : ℕ) → k < e → es k ≡ es' k)
    → list_of es i n ≡ list_of es' i n
list_of-same es es' i zero e q h = refl
list_of-same es es' i (suc n) e q h =
    rw (h i (omega (arith, q)), list_of-same es es' (suc i) n e (omega (arith, q)) h) refl

-- The edges of a file.
abbrev pub file_edges : BinaryFile → (edge_num : ℕ) → List Gedge
file_edges f edge_num = list_of (edge_at f) 0 edge_num

build-IsBuilt :
    (fresh : Fresh) (z : Sizes) (insertion : Gedge → Insertion) (m e : ℕ) (f : BinaryFile)
    → IsUsable z
    → 3 * e ≤ f.size
    → e + 4 < int_bound
    → suc m < int_bound
    → IsLoadable (suc m) (λ _. []) (map insertion (file_edges f e))
    → length (units_at m (map insertion (file_edges f e))) ≤ z.lv1_ncnt
    → (d : Direction) × (build fresh z insertion (suc m) e f ≡ some d)
      × IsBuilt z m (map insertion (file_edges f e)) d
unfolding build
build-IsBuilt fresh z insertion m e f usable room small below loadable few =
    let (es, read, same) = load_bg-edges fresh e f small in
    let lists : list_of es 0 e ≡ file_edges f e =
      list_of-same es (edge_at f) 0 e e (omega arith)
        (λ k lt. same k lt (omega (arith, lt, room))) in
    let (d, makes, is) =
      load_direction-IsBuilt z m (map insertion (file_edges f e)) usable loadable few in
    (d, rw (build, lt→ltb (suc m) int_bound below, read, lists) makes, is)

-- The constructors from a path, of a file with three words for every edge and with less than 2^31 - 4
-- edges, for less than 2^31 vertices, those below `suc m`, between which its edges go, no vertex getting a neighbour twice or
-- 2^32 neighbours, and the last one at most as many as a level-1 chunk has cells, with level-1 chunks of
-- one cell or more and leaf chunks of two or more: each makes a valid table in which every vertex has
-- the units of its edges of the file up to their order, and a chain that starts at the first chunk of
-- vertex 0 and by which `pagerank_one_iter` visits them all, in the order of the vertices.
pub cb_list-IsBuilt :
    (fresh : Fresh) (z : Sizes) (m e : ℕ) (f : BinaryFile)
    → IsUsable z
    → 3 * e ≤ f.size
    → e + 4 < int_bound
    → suc m < int_bound
    → IsLoadable (suc m) (λ _. []) (map out_insertion (file_edges f e))
    → length (units_at m (map out_insertion (file_edges f e))) ≤ z.lv1_ncnt
    → IsLoadable (suc m) (λ _. []) (map in_insertion (file_edges f e))
    → length (units_at m (map in_insertion (file_edges f e))) ≤ z.lv1_ncnt
    → ((d : Direction) × (cb_list_out fresh z (suc m) e f ≡ some d)
        × IsBuilt z m (map out_insertion (file_edges f e)) d)
      × ((d : Direction) × (cb_list_in fresh z (suc m) e f ≡ some d)
          × IsBuilt z m (map in_insertion (file_edges f e)) d)
unfolding cb_list_out cb_list_in
cb_list-IsBuilt fresh z m e f usable room small below outs few ins few' = (
  build-IsBuilt fresh z out_insertion m e f usable room small below outs few,
  build-IsBuilt fresh z in_insertion m e f usable room small below ins few',
)
