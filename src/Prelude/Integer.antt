-- ===== src/Prelude/Integer.antt =====
-- The integers over the native numbers: the library's ℤ stands on another ℕ.
use Prim.Native.Nat.{ℕ, zero, suc, ◌*◌, ◌≤◌}
use native.Mathlib.Omega.{arith}
use mathlib.Core.Option.{Option, none, some}
use iknos.Prelude.Tests.{leb, if◌then◌else◌}

pub data ℤ : Type 0 where
  pos : ℕ → ℤ
  negsuc : ℕ → ℤ

-- the fixed-point unit: a float on [0, 1] is read in millionths
abbrev pub unit : ℕ
unit = 1000000

-- `0.0 <= x <= 1.0`, with the value that passes
abbrev pub on_unit : ℤ → Option ℕ
on_unit (pos n) = if leb n unit then some n else none
on_unit (negsuc n) = none

-- Products keep the order.
pub mul_le_left : (a b c : ℕ) → a ≤ b → a * c ≤ b * c
mul_le_left a b zero h = omega arith
mul_le_left a b (suc c) h = omega (arith, mul_le_left a b c h)

pub mul_le_right : (a b c : ℕ) → a ≤ b → c * a ≤ c * b
mul_le_right a b c h = omega (arith, mul_le_left a b c h)
