-- ===== src/Prelude/Classes.antt =====
-- Equality tests on numbers and texts, and SQL's comparisons of nullable columns.
use Prim.Native.Nat.{ℕ}
use Prim.Native.String.{String}
use mathlib.Core.Bool.{Bool, true, false}
use mathlib.Core.Option.{Option, none, some}
use text.Mathlib.TextEquality.{eq_iff as str_eq_iff'}
use text.Mathlib.Text.{◌==◌ as text_eq}
use mathlib.Core.Path.{◌≡◌}
use mathlib.Core.Logic.{◌↔◌, inl, inr}
use zincir.Prelude.Tests.{nat_beq, Bool-cases}

infix 50 ◌==◌
abbrev pub ◌==◌ : ℕ → ℕ → Bool
a == b = nat_beq a b

-- `==` on texts.
abbrev pub str_eq : String → String → Bool
str_eq s t = text_eq s t

pub str_eq_iff : (s t : String) → (str_eq s t ≡ true) ↔ (s ≡ t)
str_eq_iff = str_eq_iff'

unfoldable pub String-discrete : Discrete String
String-discrete s t = elim (Bool-cases (str_eq s t)) [
  | inl e ↦ yes ((str_eq_iff s t).0 e)
  | inr e ↦ no (λ p. cc ((str_eq_iff s t).1 p))
]

-- A comparison of a nullable column with a value: not true on NULL.
abbrev pub is_some_eq : Option ℕ → ℕ → Bool
is_some_eq none b = false
is_some_eq (some a) b = nat_beq a b

abbrev pub is_none {ℓ} : {A : Type ℓ} → Option A → Bool
is_none none = true
is_none (some a) = false
