-- ===== src/Slice.antt =====
-- other/slice_for_cbl_coro.hpp and other/slice_task.hpp: the division of vertices, tasks and edges
-- among threads and coroutines. A result is a vector of `n + 1` bounds, of which slice `k` goes from
-- bound `k` to before bound `k + 1`; it is a function of the index. The `int` and
-- `int32_t` are natural numbers here; what uses the divisions bounds them by `int_bound`.
pub mod Even
pub mod Order
pub mod Balanced
pub mod Greedy
pub mod Whole
use gast_co_co.Prelude.{
  ℕ, zero, suc, ◌+◌, ◌-◌, ◌*◌, ◌/◌, ◌%◌, Bool, true, false, ◌||◌, ◌&&◌, ltb, leb, ◌==◌,
  if◌then◌else◌, Option, none, some,
}
use gast_co_co.Vertex.{CblNode, u32_mod}
use gast_co_co.Graph.{CbList, Table}

abbrev pub Bounds : Type 0
Bounds = ℕ → ℕ

abbrev pub zeros : Bounds
zeros k = 0

unfoldable pub set_bound : Bounds → ℕ → ℕ → Bounds
set_bound r i v k = if k == i then v else r k

-- `for (i; …; ++i) Result[i] = avg + Result[i - 1]`, for the `rounds` that are left.
unfoldable pub step_bounds : (rounds i avg : ℕ) → Bounds → Bounds
unfolding set_bound
step_bounds zero i avg r = r
step_bounds (suc k) i avg r = step_bounds k (suc i) avg (set_bound r i (avg + r (i - 1)))

-- `SliceTaskForCoro`, and `SliceTaskForN` of other/slice_task.hpp.
unfoldable pub slice_task_for_coro : (task_num coro_num : ℕ) → Bounds
unfolding set_bound step_bounds
slice_task_for_coro task_num coro_num =
    step_bounds (coro_num - 1) 1 (task_num / coro_num) (set_bound zeros coro_num task_num)

unfoldable pub slice_task_for_n : (task_num n : ℕ) → Bounds
unfolding set_bound step_bounds
slice_task_for_n task_num n = step_bounds (n - 1) 1 (task_num / n) (set_bound zeros n task_num)

-- The number of chunks of `SliceForVertices`.
abbrev pub chunk_num : (task_num basic_chunk : ℕ) → ℕ
chunk_num task_num basic_chunk =
    task_num / basic_chunk + (if task_num % basic_chunk == 0 then 0 else 1)

-- `SliceForVertices`.
unfoldable pub slice_for_vertices : (task_num thread_num basic_chunk : ℕ) → Bounds
unfolding set_bound step_bounds
slice_for_vertices task_num thread_num basic_chunk =
    step_bounds (thread_num - 1) 1 (chunk_num task_num basic_chunk / thread_num * basic_chunk)
      (set_bound zeros thread_num task_num)

-- `SliceForAverage` and `SliceForBatchInsert`, of the numbers from `left` to `right`.
unfoldable pub slice_for_average : (slice_num left right : ℕ) → Bounds
unfolding set_bound step_bounds
slice_for_average slice_num left right =
    step_bounds (slice_num - 1) 1 ((right + 1 - left) / slice_num)
      (set_bound (set_bound zeros slice_num (right + 1)) 0 left)

unfoldable pub slice_for_batch_insert : (slice_num left right : ℕ) → Bounds
unfolding set_bound step_bounds
slice_for_batch_insert slice_num left right =
    step_bounds (slice_num - 1) 1 ((right + 1 - left) / slice_num)
      (set_bound (set_bound zeros slice_num (right + 1)) 0 left)

-- `ChunkNumRecord`: the sum of the counts of the first vertices, in 32 bits.
unfoldable pub chunk_num_record : (ℕ → ℕ) → ℕ → ℕ
chunk_num_record cnt zero = 0
chunk_num_record cnt (suc k) = (chunk_num_record cnt k + cnt k) % u32_mod

-- The variables of the loop of `SliceForCoro`.
pub record SliceState : Type 0 where
  pub tid : ℕ
  pub chunk_sum : ℕ
  pub slice_result : Bounds

-- Subtraction of `uint32_t`.
abbrev pub sub_u32 : ℕ → ℕ → ℕ
sub_u32 a b = (a + u32_mod - b) % u32_mod

-- The test of the branch that cuts behind vertex `i - 1`, and not before it.
abbrev pub cuts_behind : (ℕ → ℕ) → ℕ → SliceState → Bool
cuts_behind rec i s =
    (s.tid == 1)
    || (rec (i - 1) == s.slice_result (s.tid - 1))
    || ltb (sub_u32 s.chunk_sum (rec (i - 1))) (sub_u32 (rec i) s.chunk_sum)

-- A cut at bound `b`.
unfoldable pub cut_at : (ℕ → ℕ) → ℕ → SliceState → SliceState
unfolding set_bound
cut_at rec b s = record {
  tid = s.tid + 1;
  chunk_sum = rec b;
  slice_result = set_bound s.slice_result s.tid b;
}

-- The first `if` of the body: the new state and the new `i`.
unfoldable pub slice_step : (ℕ → ℕ) → (per i : ℕ) → SliceState → SliceState × ℕ
unfolding cut_at
slice_step rec per i s =
    if leb ((s.chunk_sum + per) % u32_mod) (rec i)
    then if cuts_behind rec i s then (cut_at rec i s, i) else (cut_at rec (i - 1) s, i - 1)
    else (s, i)

-- `for (; tid <= coro_num; ++tid) SliceResult[tid] = VertexNum`, for the rounds that are left.
unfoldable pub fill_bounds : (rounds tid n : ℕ) → Bounds → Bounds
unfolding set_bound
fill_bounds zero tid n r = r
fill_bounds (suc k) tid n r = fill_bounds k (suc tid) n (set_bound r tid n)

unfoldable pub fill_all : (coro_num n : ℕ) → SliceState → SliceState
unfolding fill_bounds
fill_all coro_num n s = record s {
  tid = coro_num + 1;
  slice_result = fill_bounds (coro_num + 1 - s.tid) s.tid n s.slice_result;
}

-- The loop, with the fill of `SliceForCoroDynamic` where `fills`; `none` is the end of the fuel.
unfoldable pub slice_loop :
    (fuel : ℕ) (fills : Bool) → (ℕ → ℕ) → (n per coro_num i : ℕ) → SliceState → Option Bounds
unfolding slice_step fill_all set_bound
slice_loop zero fills rec n per coro_num i s = none
slice_loop (suc k) fills rec n per coro_num i s =
    if ltb i (n + 1)
    then (let (s', i') = slice_step rec per i s in
        if s'.tid == coro_num
        then some (set_bound s'.slice_result s'.tid n)
        else slice_loop k fills rec n per coro_num (i' + 1)
            (if fills && (i' == n) then fill_all coro_num n s' else s'))
    else some s.slice_result

-- The division by a record of sums; the rounds are at most `n + coro_num`.
unfoldable pub slice_by : (fills : Bool) → (ℕ → ℕ) → (n coro_num : ℕ) → Option Bounds
unfolding slice_loop
slice_by fills rec n coro_num =
    slice_loop (n + coro_num + 1) fills rec n (rec n / coro_num) coro_num 1
      (record { tid = 1; chunk_sum = 0; slice_result = zeros })

abbrev pub chunk_cnts : Table → ℕ → ℕ
chunk_cnts t v = (t.node v).chunk_cnt

-- `SliceForCoro`.
unfoldable pub slice_for_coro : CbList → (coro_num : ℕ) → Option Bounds
unfolding slice_by chunk_num_record
slice_for_coro g coro_num =
    slice_by false (chunk_num_record (chunk_cnts g.vertex_table_in)) g.vertex_num coro_num

-- `SliceForCoroDynamic`.
unfoldable pub slice_for_coro_dynamic : CbList → (coro_num : ℕ) → Option Bounds
unfolding slice_by chunk_num_record
slice_for_coro_dynamic g coro_num =
    slice_by true (chunk_num_record (chunk_cnts g.vertex_table_out)) g.vertex_num coro_num

-- `scoreLv1` and `scoreLeaf`, and the score of a vertex.
abbrev pub score_lv1 : ℕ
score_lv1 = 1

abbrev pub score_leaf : ℕ
score_leaf = 4

abbrev pub score : CblNode → ℕ
score v = elim v.bpt.root_node [
  | none ↦ v.chunk_cnt * score_lv1
  | some n ↦ v.chunk_cnt * score_leaf
]

-- `SliceForCoroWithScore`.
unfoldable pub slice_for_coro_with_score : CbList → (coro_num : ℕ) → Option Bounds
unfolding slice_by chunk_num_record
slice_for_coro_with_score g coro_num =
    slice_by true (chunk_num_record (λ v. score (g.vertex_table_out.node v))) g.vertex_num coro_num
