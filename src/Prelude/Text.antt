-- ===== src/Prelude/Text.antt =====
-- Decimal text of a number, as `format!` writes an integer.
use Prim.Native.Nat.{ℕ, zero, suc, ◌/◌, ◌%◌}
use Prim.Native.String.{String, ◌++◌}
use mathlib.Core.Bool.{Bool, true, false}
use mathlib.Core.Path.{◌≡◌, refl}
use zincir.Prelude.Tests.{ltb, nat_beq, if◌then◌else◌}

digit : ℕ → String
digit d =
    if nat_beq d 0
    then "0"
    else if nat_beq d 1
    then "1"
    else if nat_beq d 2
    then "2"
    else if nat_beq d 3
    then "3"
    else if nat_beq d 4
    then "4"
    else if nat_beq d 5
    then "5"
    else if nat_beq d 6
    then "6"
    else if nat_beq d 7
    then "7"
    else if nat_beq d 8
    then "8"
    else "9"

-- A number has at most as many digits as its value plus one, so this fuel is enough.
digits : ℕ → ℕ → String
unfolding digit
digits zero n = ""
digits (suc f) n =
    let rest = digits f (n / 10) in if ltb n 10 then digit n else rest ++ digit (n % 10)

unfoldable pub decimal : ℕ → String
unfolding digits
decimal n = digits (suc n) n

decimal_1024 : decimal 1024 ≡ "1024"
unfolding decimal
decimal_1024 = refl

-- A property that holds of the ten digits and is kept by appending holds of every number's text.
module _ (P : String → Type 0) (empty : P "") (joined : (s t : String) → P s → P t → P (s ++ t))
    (ten : P "0" × P "1" × P "2" × P "3" × P "4" × P "5" × P "6" × P "7" × P "8" × P "9") where
  either : (b : Bool) (s t : String) → P s → P t → P (if b then s else t)
  either true s t h k = h
  either false s t h k = k

  digit-each : (d : ℕ) → P (digit d)
  unfolding digit
  digit-each d = either _ _ _ ten.0 (
      either _ _ _ ten.1 (
        either _ _ _ ten.2 (
          either _ _ _ ten.3 (
            either _ _ _ ten.4 (
              either _ _ _ ten.5
                (either _ _ _ ten.6 (either _ _ _ ten.7 (either _ _ _ ten.8 ten.9))))))))

  digits-each : (f n : ℕ) → P (digits f n)
  unfolding digits
  digits-each zero n = empty
  digits-each (suc f) n =
      either (ltb n 10) _ _ (digit-each n)
        (joined (digits f (n / 10)) (digit (n % 10)) (digits-each f (n / 10)) (digit-each (n % 10)))

  pub decimal-each : (n : ℕ) → P (decimal n)
  unfolding decimal
  decimal-each n = digits-each (suc n) n
