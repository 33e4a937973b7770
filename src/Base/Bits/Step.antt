-- ===== src/Base/Bits/Step.antt =====
-- What one binary digit contributes to a bitwise operation of the native numbers. They are defined
-- by rounds on the digits, one for each unit of the first number, which is more than are needed.
use Prim.Native.Nat.{
  ℕ, zero, suc, ◌+◌, ◌*◌, ◌/◌, ◌%◌, ◌≤◌, min, max, bit_and, bit_or, digits, bitwise,
  bit_and-bitwise, bit_or-bitwise,
}
use mathlib.Core.Path.{◌≡◌, refl}
use native.Mathlib.Nat.{le_refl}
use native.Mathlib.Omega.{arith}

-- One digit by an operation `op`, and the rest of the second number by `last` once the first is 0.
module _ (last : ℕ → ℕ) (op : ℕ → ℕ → ℕ) where
  -- Rounds beyond the value of the first number change nothing.
  more_rounds :
      (few many x y : ℕ) → few ≤ many → x ≤ few → digits last op many x y ≡ digits last op few x y
  more_rounds (suc few) (suc many) (suc x) y l k =
      let rest : digits last op many (suc x / 2) (y / 2) ≡ digits last op few (suc x / 2) (y / 2) =
        more_rounds few many (suc x / 2) (y / 2) (omega arith) (omega arith) in
      rw rest refl
  more_rounds (suc few) (suc many) zero y l k = refl
  more_rounds (suc few) zero x y l k = absurd (omega arith)
  more_rounds zero many (suc x) y l k = absurd (omega arith)
  more_rounds zero (suc many) zero y l k = refl
  more_rounds zero zero zero y l k = refl

  lowest_digit :
      (x y : ℕ)
      → bitwise last op (suc x) y ≡ bitwise last op (suc x / 2) (y / 2) * 2 + op (suc x % 2) (y % 2)
  lowest_digit x y =
      let half = suc x / 2 in
      omega (arith, more_rounds half x half (y / 2) (omega arith) (le_refl half))

pub bit_or_step : (x y : ℕ) → bit_or x y ≡ bit_or (x / 2) (y / 2) * 2 + max (x % 2) (y % 2)
bit_or_step (suc x) y = simp bit_or-bitwise (lowest_digit (λ rest. rest) max x y)
bit_or_step zero y = simp bit_or-bitwise (omega arith)

pub bit_and_step : (x y : ℕ) → bit_and x y ≡ bit_and (x / 2) (y / 2) * 2 + min (x % 2) (y % 2)
bit_and_step (suc x) y = simp bit_and-bitwise (lowest_digit (λ rest. 0) min x y)
bit_and_step zero y = simp bit_and-bitwise (omega arith)
