-- ===== src/Base/Division.antt =====
-- Division of native numbers, rounded down.
use Prim.Native.Nat.{ℕ, ◌+◌, ◌*◌, ◌/◌, ◌≤◌, ◌<◌}
use mathlib.Core.Path.{◌≡◌}
use native.Mathlib.Nat.{le-div_iff_mul-le, div-lt_iff_lt-mul, div-add-mod, mod-lt}
use native.Mathlib.Omega.{arith}

-- as many parts of `m` as fit into `d` leave each at least `m`
pub le-div : (d m s : ℕ) → 0 < m → 0 < s → s ≤ d / m → m ≤ d / s
le-div d m s hm hs h = (le-div_iff_mul-le hs).1 (omega (arith, (le-div_iff_mul-le hm).0 h))

pub div-lt : (d m s : ℕ) → 2 ≤ s → d < 2 * m → d / s < m
div-lt d m s hs h =
    let wide : 2 * m ≤ m * s = grind arith in (div-lt_iff_lt-mul (omega arith)).1 (omega arith)

pub div_run : (d s : ℕ) → 0 < s → (s * (d / s) ≤ d) × (d < s * (d / s) + s)
div_run d s h = omega (arith, div-add-mod d s, mod-lt d h)

pub mul-le_of_le-div : (x m y : ℕ) → y ≤ x / m → y * m ≤ x
mul-le_of_le-div x m y h = grind (arith, div-add-mod x m)

pub div-zero : (x n : ℕ) → x < n → x / n ≡ 0
div-zero x n h =
    omega (arith, (div-lt_iff_lt-mul {k = n} {x = x} {y = 1} (omega arith)).1 (omega arith))

pub div-positive : (x n : ℕ) → 0 < n → n ≤ x → 1 ≤ x / n
div-positive x n pos h = (le-div_iff_mul-le pos).1 (omega arith)
