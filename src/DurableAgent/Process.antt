-- ===== src/DurableAgent/Process.antt =====
-- The process of examples/durable_agent.rs: its state, and its actions one after the other.
use zincir.Prelude.{
  ℕ, Bool, true, false, Option, none, some, String, List, [], ◌∷◌, str_eq, if◌then◌else◌,
}
use zincir.Json.{Value}
use zincir.Types.{Result, ok, err}
use zincir.Tables.{Db}
use zincir.Agent.{AgentContext}

-- The process: its context, the database, the result files of the output directory by the id of their
-- call, and how often the clock was read.
pub record World : Type 0 where
  pub context : AgentContext
  pub db : Db
  pub files : List (String × Value)
  pub readings : ℕ

abbrev pub Run : Type 0 → Type 0
Run A = World → Result A × World

module _ {A : Type 0} where
  abbrev pub pure : A → Run A
  pure a w = (ok a, w)

  abbrev pub lift : Result A → Run A
  lift r w = (r, w)

infixl 5 ◌>>=◌ ◌>>◌
abbrev pub ◌>>=◌ : {A B : Type 0} → Run A → (A → Run B) → Run B
◌>>=◌ m f w = let (r, after) = m w in elim r [ ok a ↦ f a after | err e ↦ (err e, after) ]

abbrev pub ◌>>◌ : {A B : Type 0} → Run A → Run B → Run B
m >> n = m >>= λ _. n

abbrev pub file_of : String → List (String × Value) → Option Value
file_of id [] = none
file_of id ((j, v) ∷ files) = let rest = file_of id files in if str_eq j id then some v else rest

abbrev pub is_some : Option Value → Bool
is_some none = false
is_some (some v) = true

abbrev pub is_empty : List String → Bool
is_empty [] = true
is_empty (s ∷ ss) = false
