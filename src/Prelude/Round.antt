-- ===== src/Prelude/Round.antt =====
-- Python's `round` of a quotient of naturals: to the nearest integer, a tie to the even one. The
-- quotient is taken exactly, where the source divides as floats.
use Prim.Native.Nat.{ℕ, ◌+◌, ◌*◌, ◌/◌, ◌%◌, ◌≤◌, ◌<◌}
use mathlib.Core.Path.{◌≡◌}
use mathlib.Core.Logic.{inl, inr}
use native.Mathlib.Nat.{div-add-mod', mod-lt, mul-le-mul_right}
use native.Mathlib.Decide.{dec_lt}
use native.Mathlib.Omega.{arith}
use cofoundaz_api.Prelude.Tests.{if◌then◌else◌, ltb, ◌==◌, Bool-cases}

-- The choice between a quotient and its successor, from the remainder.
abbrev nearest : ℕ → ℕ → ℕ → ℕ
nearest q r d =
    if ltb (2 * r) d then q else if ltb d (2 * r) then q + 1 else if q % 2 == 0 then q else q + 1

unfoldable pub round_div : ℕ → ℕ → ℕ
round_div n d = nearest (n / d) (n % d) d

nearest_bounds :
    (q r d n : ℕ)
    → q * d + r ≡ n
    → r < d
    → (2 * (nearest q r d * d) ≤ 2 * n + d) × (2 * n ≤ 2 * (nearest q r d * d) + d)
nearest_bounds q r d n e l = elim (Bool-cases (ltb (2 * r) d)) [
  | inl t ↦ rw t (ground arith)
  | inr f ↦ elim (Bool-cases (ltb d (2 * r))) [
    | inl t ↦ rw (f, t) (ground arith)
    | inr g ↦ elim (Bool-cases (q % 2 == 0)) [
      | inl t ↦ rw (f, g, t) (ground arith)
      | inr h ↦ rw (f, g, h) (ground arith)
    ]
  ]
]

-- The rounded quotient is off by at most one half.
pub round_div_bounds :
    (n d : ℕ)
    → 0 < d
    → (2 * (round_div n d * d) ≤ 2 * n + d) × (2 * n ≤ 2 * (round_div n d * d) + d)
unfolding round_div
round_div_bounds n d pos = nearest_bounds (n / d) (n % d) d n (div-add-mod' n d) (mod-lt n pos)

le_of_scaled : (a b d : ℕ) → 0 < d → 2 * (a * d) ≤ 2 * (b * d) + d → a ≤ b
le_of_scaled a b d pos h = elim (dec_lt b a) [
  | no k ↦ omega arith
  | yes k ↦ let m : (b + 1) * d ≤ a * d = mul-le-mul_right d (omega arith) in absurd (omega arith)
]

-- A share of a hundred is at most a hundred.
pub round_div-le : (n d k : ℕ) → 0 < d → n ≤ k * d → round_div n d ≤ k
round_div-le n d k pos h =
    le_of_scaled (round_div n d) k d pos (omega (arith, (round_div_bounds n d pos).0))
