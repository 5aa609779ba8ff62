-- ===== src/Slice/Order.antt =====
-- The order of the bounds of a slicing.
use gast_co_co.Prelude.{ℕ, zero, suc, ◌+◌, ◌-◌, ◌≤◌, ◌<◌, ◌≡◌, ap, arith}
use gast_co_co.Slice.{Bounds}
use gast_co_co.Slice.Even.{IsSlicing}

pub slices-ordered :
    (count n : ℕ) (r : Bounds) → IsSlicing count 0 n r → (j k : ℕ) → j + k ≤ count → r j ≤ r (j + k)
slices-ordered count n r is j zero le =
    let e : r (j + 0) ≡ r j = ap r (omega arith) in omega (arith, e)
slices-ordered count n r is j (suc k) le =
    let ih = slices-ordered count n r is j k (omega (arith, le)) in
    let o = is.ordered (j + k) (omega (arith, le)) in
    let e : r (j + suc k) ≡ r (suc (j + k)) = ap r (omega arith) in omega (arith, ih, o, e)

pub slice-below :
    (count n : ℕ) (r : Bounds) → IsSlicing count 0 n r → (k : ℕ) → k < count → r (suc k) ≤ n
slice-below count n r is k lt =
    let o = slices-ordered count n r is (suc k) (count - suc k) (omega (arith, lt)) in
    let e : r (suc k + (count - suc k)) ≡ r count = ap r (omega (arith, lt)) in
    let l = is.last in omega (arith, o, e, l)
