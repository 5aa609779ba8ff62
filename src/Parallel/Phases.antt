-- ===== src/Parallel/Phases.antt =====
-- What the phases of the threads stand for in the parallel loops: the vertices in work, the ranges left
-- behind, and the steps that are left.
use gast_co_co.Prelude.{ℕ, suc, ◌+◌, ◌-◌, ◌*◌, ◌≤◌, arith, List, [], Bool, true, false, length}
use gast_co_co.Parallel.{
  ThreadState, Phase, own, own_busy, leaving, steal, claim, steal_busy, finished, State,
}
use gast_co_co.Parallel.Sums.{sum}

abbrev pub pending : Phase → List ℕ
pending own = []
pending (own_busy vs) = vs
pending leaving = []
pending (steal k) = []
pending (claim k) = []
pending (steal_busy k vs) = vs
pending finished = []

-- The number of ranges that a thread has left behind.
abbrev pub progress : (threads : ℕ) → Phase → ℕ
progress n own = 0
progress n (own_busy vs) = 0
progress n leaving = 1
progress n (steal k) = k
progress n (claim k) = k
progress n (steal_busy k vs) = k
progress n finished = n

-- The same, with the range counted that a thread is about to take a chunk from.
abbrev pub reach : (threads : ℕ) → Phase → ℕ
reach n own = 0
reach n (own_busy vs) = 0
reach n leaving = 1
reach n (steal k) = k
reach n (claim k) = suc k
reach n (steal_busy k vs) = k
reach n finished = n

-- Whether a thread is behind its own loop.
abbrev pub is_behind : Phase → Bool
is_behind own = false
is_behind (own_busy vs) = false
is_behind leaving = true
is_behind (steal k) = true
is_behind (claim k) = true
is_behind (steal_busy k vs) = true
is_behind finished = true

-- What a phase may still take, in steps, when no chunk is left.
abbrev pub cost : (threads : ℕ) → Phase → ℕ
cost n own = 3 + 2 * n
cost n (own_busy vs) = 4 + 2 * n + length vs
cost n leaving = 2 + 2 * n
cost n (steal k) = 1 + 2 * (n - k)
cost n (claim k) = 2 * (n - k)
cost n (steal_busy k vs) = 2 + 2 * (n - k) + length vs
cost n finished = 0

abbrev pub left_of : ThreadState → ℕ
left_of r = r.end - r.curr

abbrev pub potential : (threads : ℕ) → State → ℕ
potential n s = sum (λ u. cost n (s.phase u)) n + 4 * sum (λ i. left_of (s.thread_state i)) n

pub progress-le : (n : ℕ) (p : Phase) → progress n p ≤ reach n p
progress-le n own = omega arith
progress-le n (own_busy vs) = omega arith
progress-le n leaving = omega arith
progress-le n (steal k) = omega arith
progress-le n (claim k) = omega arith
progress-le n (steal_busy k vs) = omega arith
progress-le n finished = omega arith

abbrev pub all_progress : (threads : ℕ) → State → ℕ
all_progress n s = sum (λ u. progress n (s.phase u)) n
