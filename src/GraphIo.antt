-- ===== src/GraphIo.antt =====
-- other/graph_io.hpp: the loops that turn files into lists of edges. A binary file is a number of
-- 32-bit words; a text file comes as its lines, already read as numbers.
pub mod Binary
pub mod Text
use gast_co_co.Prelude.{
  ℕ, zero, suc, ◌+◌, ◌-◌, ◌*◌, ◌%◌, Bool, true, false, ltb, leb, ◌==◌, ◌&&◌, if◌then◌else◌, Option,
  none, some, List, [], ◌∷◌,
}
use gast_co_co.Types.{Gedge}
use gast_co_co.Vertex.{u32_mod, int_bound}
use gast_co_co.Slice.{slice_task_for_n}

-- A file of words, and the words behind its end never looked at.
pub record BinaryFile : Type 0 where
  pub size : ℕ
  pub word : ℕ → ℕ

-- An array of edges; its length stands beside it.
abbrev pub EdgeList : Type 0
EdgeList = ℕ → Gedge

-- What new memory holds before it is written: the edges of a new vector, whose constructor `Gedge()`
-- initialises no member, and the words of the new array for a slice.
pub record Fresh : Type 0 where
  pub edges : EdgeList
  pub words : ℕ → ℕ → ℕ

unfoldable pub set_edge : ℕ → Gedge → EdgeList → EdgeList
set_edge i e es j = if j == i then e else es j

-- `file.read(Elist, n * sizeof(int))` from the word `pos` on. A read behind the end of the file leaves the
-- cells as they were, and the code does not test the stream: it goes on with them.
unfoldable pub read : BinaryFile → (pos n : ℕ) → (ℕ → ℕ) → (ℕ → ℕ)
read f pos n elist k = if ltb k n && ltb (pos + k) f.size then f.word (pos + k) else elist k

-- `for (i = 0; i < n; ++i) EdgeList[i + start] = …`, from `i` on for the rounds that are left.
unfoldable pub store_edges : (rounds i start : ℕ) → (ℕ → ℕ) → EdgeList → EdgeList
unfolding set_edge
store_edges zero i start elist es = es
store_edges (suc k) i start elist es = store_edges k (suc i) start elist (
    set_edge (i + start)
      (record {
        start_vertex = elist (3 * i);
        end_vertex = elist (3 * i + 1);
        value = elist (3 * i + 2);
      })
      es)

-- `LoadGraphFromBinaryFile`; `none` where an index `3 * i` overflows `int`.
unfoldable pub load_graph_from_binary_file : Fresh → (e : ℕ) → BinaryFile → Option EdgeList
unfolding read store_edges
load_graph_from_binary_file fresh e f =
    if ltb (3 * e) int_bound
    then some (store_edges e 0 0 (read f 0 (3 * e) (fresh.words 0)) fresh.edges)
    else none

-- The same without weights; `random` is the value of `random(10000)` for the edge.
unfoldable pub store_no_weight : (random : ℕ → ℕ) → (rounds i : ℕ) → (ℕ → ℕ) → EdgeList → EdgeList
unfolding set_edge
store_no_weight random zero i elist es = es
store_no_weight random (suc k) i elist es = store_no_weight random k (suc i) elist (
    set_edge i
      (record { start_vertex = elist (2 * i); end_vertex = elist (2 * i + 1); value = random i })
      es)

-- `none` where an index `2 * i` overflows `int`.
unfoldable pub load_graph_from_binary_file_no_weight :
    Fresh → (random : ℕ → ℕ) → (e : ℕ) → BinaryFile → Option EdgeList
unfolding read store_no_weight
load_graph_from_binary_file_no_weight fresh random e f =
    if leb (2 * e) int_bound
    then some (store_no_weight random e 0 (read f 0 (2 * e) (fresh.words 0)) fresh.edges)
    else none

-- The loop over the slices of `LoadGraphFromBGBinaryFile`, from slice `i` on; the file stands at `pos`.
-- `none` where `3 * n` overflows `int`.
unfoldable pub load_slices :
    Fresh → (rounds i pos : ℕ) → (ℕ → ℕ) → BinaryFile → EdgeList → Option EdgeList
unfolding read store_edges
load_slices fresh zero i pos slice f es = some es
load_slices fresh (suc k) i pos slice f es =
    let n = slice i - slice (i - 1) in
    let rest =
      load_slices fresh k (suc i) (pos + 3 * n) slice f
        (store_edges n 0 (slice (i - 1)) (read f pos (3 * n) (fresh.words i)) es) in
    if ltb (3 * n) int_bound then rest else none

-- `LoadGraphFromBGBinaryFile`; `none` also where the number of edges is not an `int`.
unfoldable pub load_graph_from_bg_binary_file : Fresh → (e : ℕ) → BinaryFile → Option EdgeList
unfolding load_slices
load_graph_from_bg_binary_file fresh e f =
    let es = load_slices fresh 3 1 0 (slice_task_for_n e 3) f fresh.edges in
    if ltb e int_bound then es else none

-- A line of a text file: a comment, or the numbers that it starts with.
pub data Line : Type 0 where
  comment : Line
  numbers : (src dest val : ℕ) → Line

-- The loop over the lines of `LoadGraphFromFile`; `none` for a write behind the end of the array.
unfoldable pub load_lines : (size : ℕ) → List Line → (e : ℕ) → EdgeList → Option EdgeList
unfolding set_edge
load_lines size [] e es = some es
load_lines size (comment ∷ ls) e es = load_lines size ls e es
load_lines size (numbers s d v ∷ ls) e es =
    let rest =
      load_lines size ls (suc e)
        (set_edge e (record { start_vertex = s; end_vertex = d; value = v }) es) in
    if ltb e size then rest else none

-- `LoadGraphFromFile`.
unfoldable pub load_graph_from_file : Fresh → (e : ℕ) → List Line → Option EdgeList
unfolding load_lines
load_graph_from_file fresh e ls = load_lines e ls 0 fresh.edges

-- `LoadGraphFromFileNoWeight`: the third number of a line is not read.
abbrev pub weigh_lines : (random : ℕ → ℕ) → (e : ℕ) → List Line → List Line
weigh_lines random e [] = []
weigh_lines random e (comment ∷ ls) = comment ∷ weigh_lines random e ls
weigh_lines random e (numbers s d v ∷ ls) = numbers s d (random e) ∷ weigh_lines random (suc e) ls

unfoldable pub load_graph_from_file_no_weight :
    Fresh → (random : ℕ → ℕ) → (e : ℕ) → List Line → Option EdgeList
unfolding load_graph_from_file
load_graph_from_file_no_weight fresh random e ls =
    load_graph_from_file fresh e (weigh_lines random 0 ls)

-- The first loop of `LoadGraphFromFilePart`, which takes a line before it looks at the count; the count
-- is an `EdgeID` of 32 bits.
unfoldable pub skip_lines : (startline cnt : ℕ) → List Line → List Line × ℕ
skip_lines startline cnt [] = ([], cnt)
skip_lines startline cnt (l ∷ ls) =
    let on = skip_lines startline cnt ls in
    let on' = skip_lines startline (suc cnt % u32_mod) ls in
    if ltb cnt startline then elim l [ comment ↦ on | numbers s d v ↦ on' ] else (ls, cnt)

-- The second loop.
unfoldable pub part_edges : (random : ℕ → ℕ) → (endline cnt k : ℕ) → List Line → List Gedge
part_edges random endline cnt k [] = []
part_edges random endline cnt k (comment ∷ ls) =
    let rest = part_edges random endline cnt k ls in if ltb cnt endline then rest else []
part_edges random endline cnt k (numbers s d v ∷ ls) =
    let rest = part_edges random endline cnt (suc k) ls in
    if ltb cnt endline
    then record { start_vertex = s; end_vertex = d; value = random k } ∷ rest
    else []

-- `LoadGraphFromFilePart`.
unfoldable pub load_graph_from_file_part :
    (random : ℕ → ℕ) → List Line → (startline endline : ℕ) → List Gedge
unfolding skip_lines part_edges
load_graph_from_file_part random ls startline endline =
    let (rest, cnt) = skip_lines startline 0 ls in part_edges random endline cnt 0 rest

-- The info file and the files that it can name.
pub record GraphInfo : Type 0 where
  pub v : ℕ
  pub e : ℕ
  pub is_binary : Bool
  pub binary_data : BinaryFile
  pub text_data : List Line

-- `LoadGraphProxy`.
unfoldable pub load_graph_proxy : Fresh → GraphInfo → Option (ℕ × ℕ × EdgeList)
unfolding load_graph_from_bg_binary_file load_graph_from_file
load_graph_proxy fresh i =
    elim (if i.is_binary
      then load_graph_from_bg_binary_file fresh i.e i.binary_data
      else load_graph_from_file fresh i.e i.text_data) [
        | none ↦ none
        | some es ↦ some (i.v, i.e, es)
      ]
