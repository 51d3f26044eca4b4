-- ===== src/Json.antt =====
-- JSON values as the program builds and compares them (`serde_json::Value`), and what SQLite's
-- `json_extract` answers on the payload of an event.
-- An object lists its fields in the order of their keys, the order in which `serde_json` keeps them.
use zincir.Prelude.{
  ℕ, ◌≡◌, refl, ◌↔◌, Bool, true, false, Option, none, some, String, List, [], ◌∷◌, ◌==◌, ◌||◌,
  String-discrete, str_eq, if◌then◌else◌,
}
use native.Mathlib.Decide.{ℕ_discrete}

-- `real` stands for a number that is negative or not whole, by an index that names it. A float with a
-- whole value is left out, as SQL compares it with an integer by its value.
mutual
  pub data Value : Type 0 where
    null : Value
    bool : Bool → Value
    num real : ℕ → Value
    str : String → Value
    arr : Elements → Value
    obj : Fields → Value

  pub data Fields : Type 0 where
    end : Fields
    field : String → Value → Fields → Fields

  pub data Elements : Type 0 where
    no_element : Elements
    element : Value → Elements → Elements

pub Value-discrete : Discrete Value
Value-discrete = hlevel (ℕ_discrete, String-discrete)

-- The value has numbers of this kind. A column keeps a value as its JSON text, and serde_json may read a
-- float back with another last digit.
abbrev mutual
  pub has_real : Value → Bool
  has_real (real n) = true
  has_real (arr vs) = some_real vs
  has_real (obj fs) = field_real fs
  has_real _ = false

  pub some_real : Elements → Bool
  some_real no_element = false
  some_real (element v vs) = has_real v || some_real vs

  pub field_real : Fields → Bool
  field_real end = false
  field_real (field k v fs) = has_real v || field_real fs

-- `==` and `!=` on `serde_json::Value`.
unfoldable pub value_eq : Value → Value → Bool
value_eq a b = elim (Value-discrete a b) [ yes _ ↦ true | no _ ↦ false ]

pub value_eq_iff : (a b : Value) → (value_eq a b ≡ true) ↔ (a ≡ b)
unfolding value_eq
value_eq_iff a b =
    elim (Value-discrete a b) as (λ d. (elim d [ yes _ ↦ true | no _ ↦ false ] ≡ true) ↔ (a ≡ b)) [
      | yes p ↦ ((λ _. p), (λ _. refl))
      | no n ↦ ((λ e. cc), (λ p. absurd (n p)))
    ]

abbrev pub get_field : String → Fields → Option Value
get_field k end = none
get_field k (field j v fs) = if str_eq j k then some v else get_field k fs

-- `value.get(key)`.
abbrev pub get : String → Value → Option Value
get k (obj fs) = get_field k fs
get k _ = none

abbrev pub array : List Value → Elements
array [] = no_element
array (v ∷ vs) = element v (array vs)

-- What `json_extract` returns: SQL's NULL, an INTEGER, a REAL or a TEXT. A nested array or object
-- comes back as its JSON text, which is kept as the value. The texts that it is compared with, call ids
-- and tool names, are taken to be none that spell an array or object, such as `[1]`.
pub data SqlValue : Type 0 where
  sql_null : SqlValue
  integer : ℕ → SqlValue
  sql_real : ℕ → SqlValue
  text : String → SqlValue
  json : Value → SqlValue

abbrev pub of_json : Value → SqlValue
of_json null = sql_null
of_json (bool b) = integer (if b then 1 else 0)
of_json (num n) = integer n
of_json (real n) = sql_real n
of_json (str s) = text s
of_json (arr vs) = json (arr vs)
of_json (obj fs) = json (obj fs)

-- `json_extract(payload, '$.key')`
abbrev pub json_extract : Value → String → SqlValue
json_extract v k = elim (get k v) [ none ↦ sql_null | some x ↦ of_json x ]

-- `e = ?` with a bound text: not true on NULL.
abbrev pub is_text : SqlValue → String → Bool
is_text (text s) t = str_eq s t
is_text _ t = false

-- `a = b` on two extracted values: not true where either is NULL.
abbrev pub sql_eq : SqlValue → SqlValue → Bool
sql_eq (integer m) (integer n) = m == n
sql_eq (sql_real m) (sql_real n) = m == n
sql_eq (text s) (text t) = str_eq s t
sql_eq (json v) (json w) = value_eq v w
sql_eq _ _ = false

-- `COALESCE(e, n)` where `n` is a number.
abbrev pub coalesce : SqlValue → ℕ → SqlValue
coalesce sql_null n = integer n
coalesce v n = v

-- `e = n` with a number.
abbrev pub is_integer : SqlValue → ℕ → Bool
is_integer (integer m) n = m == n
is_integer _ n = false

extracts :
    is_text
      (json_extract (obj (field "call_id" (str "a") (field "name" (num 1) end))) "call_id")
      "a"
    ≡ true
extracts = refl
