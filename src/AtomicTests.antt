-- ===== src/AtomicTests.antt =====
-- Runs of the atomic updates by two threads that disturb each other.
use gast_co_co.Prelude.{
  ℕ, zero, suc, ◌+◌, ◌%◌, ◌≤◌, ◌<◌, ◌≡◌, refl, arith, List, [], ◌∷◌, ◌⊎◌, ◌==◌, if◌then◌else◌,
}
use gast_co_co.Vertex.{u32_mod}
use gast_co_co.Parallel.Sums.{sum}
use gast_co_co.Parallel.Runs.{AreThreads}
use gast_co_co.Atomic.{
  State, Update, done, set_phase, cas, step_phase, run, start, write_min, write_add, write_sub,
}
use gast_co_co.Atomic.Total.{write_add-total}
use gast_co_co.Atomic.Least.{write_min-least}

-- Both threads read, thread 0 writes, and thread 1 has to try again.
abbrev schedule : List ℕ
schedule = 0 ∷ 1 ∷ 0 ∷ 1 ∷ 1 ∷ 1 ∷ []

schedule-AreThreads : AreThreads 2 schedule
schedule-AreThreads =
    (omega arith, (omega arith, (omega arith, (omega arith, (omega arith, (omega arith, tt))))))

abbrev value : ℕ → ℕ
value t = if t == 0 then 3 else 5

value-small : (t : ℕ) → value t < u32_mod
value-small zero = omega arith
value-small (suc t) = grind arith

abbrev end_of : Update → State
end_of u = run u value schedule (start 7)

add-done : (t : ℕ) → t < 2 → (end_of (write_add u32_mod)).phase t ≡ done
unfolding run step_phase cas set_phase
add-done zero lt = refl
add-done (suc zero) lt = refl
add-done (suc (suc t)) lt = absurd (omega (arith, lt))

sub-done : (t : ℕ) → t < 2 → (end_of (write_sub u32_mod)).phase t ≡ done
unfolding run step_phase cas set_phase
sub-done zero lt = refl
sub-done (suc zero) lt = refl
sub-done (suc (suc t)) lt = absurd (omega (arith, lt))

min-done : (t : ℕ) → t < 2 → (end_of write_min).phase t ≡ done
unfolding run step_phase cas set_phase
min-done zero lt = refl
min-done (suc zero) lt = refl
min-done (suc (suc t)) lt = absurd (omega (arith, lt))

write_add-total_example :
    ((end_of (write_add u32_mod)).cell ≡ (7 + sum value 2) % u32_mod)
    × (((end_of (write_sub u32_mod)).cell + sum value 2) % u32_mod ≡ 7)
write_add-total_example =
    write_add-total u32_mod 2 7 value schedule (omega arith) value-small schedule-AreThreads
      add-done sub-done

write_min-least_example :
    ((end_of write_min).cell ≤ 7)
    × ((t : ℕ) → t < 2 → (end_of write_min).cell ≤ value t)
    × (((end_of write_min).cell ≡ 7) ⊎ ((t : ℕ) × (t < 2) × ((end_of write_min).cell ≡ value t)))
write_min-least_example = write_min-least 2 7 value schedule schedule-AreThreads min-done
