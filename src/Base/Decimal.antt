-- ===== src/Base/Decimal.antt =====
-- Python's decimal formatting of a number, `f"{n:06d}"`.
use Prim.Native.Nat.{◌<◌, ℕ, zero, suc, ◌-◌, ◌/◌, ◌%◌}
use Prim.Native.String.{String, ◌++◌, count}
use mathlib.Core.Bool.{true, false}
use mathlib.Core.Path.{◌≡◌, refl, ap}
use mathlib.Core.Logic.{inl, inr}
use native.Mathlib.Omega.{arith}
use ai_factory.Base.Tests.{Bool-cases, if◌then◌else◌, eqb, ltb}

unfoldable pub digit : ℕ → String
digit n =
    if eqb n 0
    then "0"
    else if eqb n 1
    then "1"
    else if eqb n 2
    then "2"
    else if eqb n 3
    then "3"
    else if eqb n 4
    then "4"
    else if eqb n 5
    then "5"
    else if eqb n 6
    then "6"
    else if eqb n 7
    then "7"
    else if eqb n 8
    then "8"
    else "9"

-- The digits of `n`, on as much fuel as `n` has digits; `n + 1` is enough.
unfoldable pub decimal_from : ℕ → ℕ → String
unfolding digit
decimal_from zero n = ""
decimal_from (suc fuel) n = elim (ltb n 10) [
  | true ↦ digit n
  | false ↦ decimal_from fuel (n / 10) ++ digit (n % 10)
]

unfoldable pub zeros : ℕ → String
zeros zero = ""
zeros (suc n) = "0" ++ zeros n

unfoldable pub six_digits : ℕ → String
unfolding decimal_from zeros
six_digits n = let text = decimal_from (suc n) n in zeros (6 - count text) ++ text

-- `str(n)`
unfoldable pub numeral : ℕ → String
unfolding decimal_from
numeral n = decimal_from (suc n) n

-- More fuel than the number does not change its numeral.
decimal_from-fuel : (f g n : ℕ) → n < f → n < g → decimal_from f n ≡ decimal_from g n
unfolding decimal_from
decimal_from-fuel zero g n h k = absurd (omega arith)
decimal_from-fuel (suc f) zero n h k = absurd (omega arith)
decimal_from-fuel (suc f) (suc g) n h k = elim (Bool-cases (ltb n 10)) [
  | inl e ↦ rw (decimal_from, e) refl
  | inr e ↦
      rw (decimal_from, e)
        (ap (λ t. t ++ digit (n % 10))
          (decimal_from-fuel f g (n / 10) (ground arith) (ground arith)))
]
