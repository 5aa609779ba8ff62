-- ===== src/Parallel.antt =====
-- The parallel loops of CBList/graph_coro.hpp: every thread has a range of the vertices, takes chunks
-- of 64 from it by `__sync_fetch_and_add`, and when its range is used up, from the ranges of the other
-- threads. A step is one atomic action of one thread, so an interleaving is the list of the threads
-- that act.
pub mod Sums
pub mod Phases
pub mod Invariant
pub mod Moves
pub mod Steps
pub mod Runs
pub mod Chunks
pub mod Words
pub mod Once
pub mod Loops
use gast_co_co.Prelude.{
  ℕ, zero, suc, ◌+◌, ◌-◌, ◌*◌, ◌/◌, ◌%◌, List, [], ◌∷◌, ◌++◌, Bool, true, false, ltb, ◌==◌,
  if◌then◌else◌, min, Option, none, some,
}
use gast_co_co.Vertex.{u32_mod}
use gast_co_co.Slice.{Bounds}

-- `enum ThreadStatus` and `struct ThreadState` of other/type.hpp.
pub data ThreadStatus : Type 0 where
  working : ThreadStatus
  stealing : ThreadStatus

pub record ThreadState : Type 0 where
  pub curr : ℕ
  pub end : ℕ
  pub status : ThreadStatus

abbrev pub is_stealing : ThreadStatus → Bool
is_stealing working = false
is_stealing stealing = true

-- Where a thread stands: at the head of its own loop; in a chunk of it, with the vertices that are
-- left; behind the loop; at the head of the loop over `t_offset` or of the `while` in it; at the
-- `fetch_and_add` there; in a chunk there; behind all.
pub data Phase : Type 0 where
  own : Phase
  own_busy : List ℕ → Phase
  leaving : Phase
  steal : ℕ → Phase
  claim : ℕ → Phase
  steal_busy : ℕ → List ℕ → Phase
  finished : Phase

abbrev pub is_finished : Phase → Bool
is_finished own = false
is_finished (own_busy vs) = false
is_finished leaving = false
is_finished (steal k) = false
is_finished (claim k) = false
is_finished (steal_busy k vs) = false
is_finished finished = true

-- The states of the ranges and of the threads, and the vertices that were processed, the last one
-- first.
pub record State : Type 0 where
  pub thread_state : ℕ → ThreadState
  pub phase : ℕ → Phase
  pub processed : List ℕ

-- What differs between the loops: the vertices that are processed for a chunk, by its start and the
-- end of its range; whether a thread that finds a range used up tries it again (`continue`) or goes
-- to the next one (`break`); whether there is a loop over the other ranges at all.
pub record Loop : Type 0 where
  pub threads : ℕ
  pub chunk : ℕ → ℕ → List ℕ
  pub spins : Bool
  pub steals : Bool

abbrev pub basic_chunk : ℕ
basic_chunk = 64

unfoldable pub set_phase : ℕ → Phase → State → State
set_phase t p s = record s { phase = λ j. if j == t then p else s.phase j }

-- `__sync_fetch_and_add(&thread_state[i]->curr, basic_chunk)`; the old value is read before.
unfoldable pub fetch_add : ℕ → State → State
fetch_add i s = record s {
  thread_state = λ j.
      if j == i
      then record (s.thread_state i) { curr = ((s.thread_state i).curr + basic_chunk) % u32_mod }
      else s.thread_state j;
}

-- `thread_state[t]->status = STEALING`.
unfoldable pub set_stealing : ℕ → State → State
set_stealing t s = record s {
  thread_state =
      λ j. if j == t then record (s.thread_state t) { status = stealing } else s.thread_state j;
}

unfoldable pub process : ℕ → State → State
process v s = record s { processed = v ∷ s.processed }

-- One step of thread `t`.
unfoldable pub step_phase : Loop → ℕ → Phase → State → State
step_phase c t own s =
    let r = s.thread_state t in
    if ltb r.curr r.end
    then set_phase t (own_busy (c.chunk r.curr r.end)) (fetch_add t s)
    else set_phase t leaving (fetch_add t s)
step_phase c t (own_busy []) s = set_phase t own s
step_phase c t (own_busy (v ∷ vs)) s = set_phase t (own_busy vs) (process v s)
step_phase c t leaving s =
    if c.steals then set_phase t (steal 1) (set_stealing t s) else set_phase t finished s
step_phase c t (steal k) s =
    if ltb k c.threads
    then if is_stealing (s.thread_state ((t + k) % c.threads)).status
      then set_phase t (steal (suc k)) s
      else set_phase t (claim k) s
    else set_phase t finished s
step_phase c t (claim k) s =
    let i = (t + k) % c.threads in
    let r = s.thread_state i in
    if ltb r.curr r.end
    then set_phase t (steal_busy k (c.chunk r.curr r.end)) (fetch_add i s)
    else set_phase t (if c.spins then steal k else steal (suc k)) (fetch_add i s)
step_phase c t (steal_busy k []) s = set_phase t (steal k) s
step_phase c t (steal_busy k (v ∷ vs)) s = set_phase t (steal_busy k vs) (process v s)
step_phase c t finished s = s

unfoldable pub step : Loop → ℕ → State → State
unfolding step_phase
step c t s = step_phase c t (s.phase t) s

-- The steps of a schedule, the first thread of the list first.
unfoldable pub run : Loop → List ℕ → State → State
unfolding step
run c [] s = s
run c (t ∷ ts) s = run c ts (step c t s)

-- `init_thread_state_E` and `init_thread_state_V`, each for its bounds, and the start of the parallel block.
unfoldable pub init_thread_state : Bounds → State
init_thread_state r = record {
  thread_state = λ t. record { curr = r t; end = r (suc t); status = working };
  phase = λ t. own;
  processed = [];
}

-- The numbers from `b` on, `n` of them.
abbrev pub numbers : (b n : ℕ) → List ℕ
numbers b zero = []
numbers b (suc n) = b ∷ numbers (suc b) n

-- `for (p_v_i = begin_p_v_i; p_v_i < end_p_v_i; p_v_i++)`, with the end moved to the range's.
abbrev pub clipped : (b e : ℕ) → List ℕ
clipped b e = numbers b (min (b + basic_chunk) e - b)

-- `for (i = 0; i < basic_chunk && v_i + i < VertexNum; ++i)`.
abbrev pub unclipped : (vertex_num : ℕ) → (b e : ℕ) → List ℕ
unclipped vertex_num b e = numbers b (min (b + basic_chunk) vertex_num - b)

-- The vertices of a list whose bit is set.
abbrev pub active_only : (ℕ → Bool) → List ℕ → List ℕ
active_only active [] = []
active_only active (v ∷ vs) = if active v then v ∷ active_only active vs else active_only active vs

-- `while (word != 0)` for a word of the bitmap from its bit number `i` on, `n` bits of it; it starts at
-- the vertex `v`.
abbrev pub scan_word : (active : ℕ → Bool) (i v n : ℕ) → List ℕ
scan_word active i v zero = []
scan_word active i v (suc n) =
    if active i then v ∷ scan_word active (suc i) (suc v) n else scan_word active (suc i) (suc v) n

-- The word at `WORD_OFFSET(v_i)`.
unfoldable pub word_chunk : (ℕ → Bool) → (b e : ℕ) → List ℕ
word_chunk active b e = scan_word active (b / 64 * 64) b 64

-- The two coroutines of a chunk, one after the other: the first 32 vertices and the others, or the
-- two halves of a chunk of 32 vertices at most.
abbrev pub halves_of : (b e : ℕ) → List ℕ
halves_of b e =
    if ltb 32 (e - b)
    then numbers b 32 ++ numbers (b + 32) (e - (b + 32))
    else numbers b ((e - b) / 2) ++ numbers (b + (e - b) / 2) (e - (b + (e - b) / 2))

abbrev pub coro_chunk : (b e : ℕ) → List ℕ
coro_chunk b e = halves_of b (min (b + basic_chunk) e)

-- The loops of the methods. `process_edges` starts with a test; its dense loop is that of
-- `process_edges_all_graph`.
abbrev pub process_vertices : (threads : ℕ) → (ℕ → Bool) → Loop
process_vertices threads active = record {
  threads = threads;
  chunk = word_chunk active;
  spins = true;
  steals = true;
}

abbrev pub process_vertices_all_graph : (threads vertex_num : ℕ) → Loop
process_vertices_all_graph threads vertex_num = record {
  threads = threads;
  chunk = unclipped vertex_num;
  spins = true;
  steals = true;
}

abbrev pub process_edges_all_graph : (threads : ℕ) → Loop
process_edges_all_graph threads = record {
  threads = threads;
  chunk = clipped;
  spins = false;
  steals = true;
}

-- A loop of coroutines, for the run-time argument `coroutines`. The code makes as many handles for a
-- chunk and sets the first two of them. With less than two it writes behind the handles, and with more
-- the scheduler waits without end for those that are not set, so that there is a loop for two only.
abbrev pub coro_loop : (threads : ℕ) (steals : Bool) → Loop
coro_loop threads steals = record {
  threads = threads;
  chunk = coro_chunk;
  spins = false;
  steals = steals;
}

unfoldable pub coro_process_edges_all_graph : (threads coroutines : ℕ) → Option Loop
coro_process_edges_all_graph threads coroutines =
    if coroutines == 2 then some (coro_loop threads true) else none

unfoldable pub coro_process_edges : (threads coroutines : ℕ) → Option Loop
coro_process_edges threads coroutines =
    if coroutines == 2 then some (coro_loop threads false) else none
