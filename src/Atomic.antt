-- ===== src/Atomic.antt =====
-- other/atomic.hpp: updates of a shared word by compare-and-swap loops. A step is one atomic action of
-- one thread, a read of the word or a compare-and-swap, and a schedule is the list of the threads
-- that act.
pub mod Total
pub mod Least
use gast_co_co.Prelude.{
  ℕ, zero, suc, ◌+◌, ◌-◌, ◌%◌, Bool, true, false, ltb, ◌==◌, if◌then◌else◌, List, [], ◌∷◌,
}

-- A thread is before its read, has read a value, or is done.
pub data Phase : Type 0 where
  before : Phase
  loaded : ℕ → Phase
  done : Phase

pub record State : Type 0 where
  pub cell : ℕ
  pub phase : ℕ → Phase

-- What a function does with the value that it read: whether it tries to write, and what it writes.
pub record Update : Type 0 where
  pub tries : (curr_val val : ℕ) → Bool
  pub new_val : (curr_val val : ℕ) → ℕ

unfoldable pub set_phase : ℕ → Phase → State → State
set_phase t p s = record s { phase = λ j. if j == t then p else s.phase j }

-- `cas`, with the flag that it returns.
unfoldable pub cas : (old_val new_val : ℕ) → State → State × Bool
cas old_val new_val s =
    if s.cell == old_val then (record s { cell = new_val }, true) else (s, false)

-- One step of thread `t`, whose value is `val t`.
unfoldable pub step_phase : Update → (val : ℕ → ℕ) → ℕ → Phase → State → State
unfolding set_phase cas
step_phase u val t before s = set_phase t (loaded s.cell) s
step_phase u val t (loaded curr_val) s =
    let swapped = cas curr_val (u.new_val curr_val (val t)) s in
    if u.tries curr_val (val t)
    then set_phase t (if swapped.1 then done else before) swapped.0
    else set_phase t done s
step_phase u val t done s = s

unfoldable pub run : Update → (val : ℕ → ℕ) → List ℕ → State → State
unfolding step_phase
run u val [] s = s
run u val (t ∷ ts) s = run u val ts (step_phase u val t (s.phase t) s)

abbrev pub start : (cell : ℕ) → State
start cell = record { cell = cell; phase = λ _. before }

-- `write_min`, `write_add` and `write_sub`, of words below `modulus`.
abbrev pub write_min : Update
write_min = record { tries = λ curr_val val. ltb val curr_val; new_val = λ curr_val val. val }

abbrev pub write_add : (modulus : ℕ) → Update
write_add modulus = record {
  tries = λ curr_val val. true;
  new_val = λ curr_val val. (curr_val + val) % modulus;
}

abbrev pub write_sub : (modulus : ℕ) → Update
write_sub modulus = record {
  tries = λ curr_val val. true;
  new_val = λ curr_val val. (curr_val + modulus - val) % modulus;
}
