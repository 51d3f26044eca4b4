-- ===== src/Sql.antt =====
-- The SQL of the statements in src/db.rs, over a table that is a list of rows, the row inserted last
-- in front.
pub mod Laws
pub mod Order
use zincir.Prelude.{
  ℕ, suc, Bool, true, false, Option, none, some, List, [], ◌∷◌, map, ltb, ◌||◌, if◌then◌else◌,
}

module _ {ℓ} {A : Type ℓ} where
  -- `SELECT … WHERE p`
  unfoldable pub select : (A → Bool) → List A → List A
  select p [] = []
  select p (x ∷ xs) = let rest = select p xs in if p x then x ∷ rest else rest

  -- `SELECT … WHERE p` on columns that are unique in the table.
  unfoldable pub first : (A → Bool) → List A → Option A
  first p [] = none
  first p (x ∷ xs) = let rest = first p xs in if p x then some x else rest

  -- `SELECT EXISTS(SELECT 1 … WHERE p)`
  unfoldable pub exists : (A → Bool) → List A → Bool
  exists p [] = false
  exists p (x ∷ xs) = p x || exists p xs

  -- The number of rows that an `UPDATE … WHERE p` affects.
  unfoldable pub count : (A → Bool) → List A → ℕ
  count p [] = 0
  count p (x ∷ xs) = let rest = count p xs in if p x then suc rest else rest

  -- `UPDATE … SET f WHERE p`
  abbrev pub where_set : (A → Bool) → (A → A) → A → A
  where_set p f x = if p x then f x else x

  unfoldable pub update : (A → Bool) → (A → A) → List A → List A
  update p f = map (where_set p f)

  -- `MAX(column)`: NULL on an empty table.
  unfoldable pub max_of : (A → ℕ) → List A → Option ℕ
  max_of f [] = none
  max_of f (x ∷ xs) = elim (max_of f xs) [
    | none ↦ some (f x)
    | some m ↦ some (if ltb m (f x) then f x else m)
  ]

  -- `ORDER BY`: a row goes before the rows that it precedes.
  unfoldable pub insert_by : (A → A → Bool) → A → List A → List A
  insert_by le x [] = x ∷ []
  insert_by le x (y ∷ ys) = let rest = insert_by le x ys in if le x y then x ∷ y ∷ ys else y ∷ rest

  unfoldable pub order_by : (A → A → Bool) → List A → List A
  unfolding insert_by
  order_by le [] = []
  order_by le (x ∷ xs) = insert_by le x (order_by le xs)

  -- `LIMIT 1`
  unfoldable pub limit_one : List A → Option A
  limit_one [] = none
  limit_one (x ∷ xs) = some x
