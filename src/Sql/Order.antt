-- ===== src/Sql/Order.antt =====
-- What `ORDER BY … LIMIT 1` finds: the least of the selected rows.
use zincir.Prelude.{
  ◌≡◌, refl, sym, ◌∙◌, subst, Bool, true, false, Option, none, some, List, [], ◌∷◌, arith,
  if◌then◌else◌, All, Bool-cases, inl, inr,
}
use mathlib.Core.Option.{some-injective}
use zincir.Sql.{select, exists, insert_by, order_by, limit_one}

module _ {ℓ} {A : Type ℓ} (le : A → A → Bool) where
  -- The first of a row and the rest.
  abbrev better : A → Option A → A
  better x none = x
  better x (some y) = if le x y then x else y

  limit_one-insert_by :
      (x : A) (ys : List A) → limit_one (insert_by le x ys) ≡ some (better x (limit_one ys))
  unfolding limit_one insert_by
  limit_one-insert_by x [] = refl
  limit_one-insert_by x (y ∷ ys) = ground arith

  better_all :
      (P : A → Type 0) (x : A) (o : Option A) → P x → ((y : A) → o ≡ some y → P y) → P (better x o)
  better_all P x none h k = h
  better_all P x (some y) h k = elim (Bool-cases (le x y)) [
    | inl here ↦ rw here h
    | inr there ↦ rw there (k y refl)
  ]

  -- What holds of every row holds of the first.
  pub first_all :
      (P : A → Type 0) (xs : List A) (c : A) → All P xs → limit_one (order_by le xs) ≡ some c → P c
  unfolding limit_one order_by
  first_all P [] c a e = cc
  first_all P (x ∷ xs) c a e =
      subst P (some-injective _ _ (sym (limit_one-insert_by x (order_by le xs)) ∙ e))
        (better_all P x (limit_one (order_by le xs)) a.0 (λ y q. first_all P xs y a.1 q))

  module _ (total : (x y : A) → le x y ≡ false → le y x ≡ true)
      (transitive : (x y z : A) → le x y ≡ true → le y z ≡ true → le x z ≡ true)
      (reflexive : (x : A) → le x x ≡ true) where
    lower-All :
        (x y : A) (xs : List A)
        → le x y ≡ true
        → All (λ r. le y r ≡ true) xs
        → All (λ r. le x r ≡ true) xs
    lower-All x y [] h a = tt
    lower-All x y (r ∷ xs) h a = (transitive x y r h a.0, lower-All x y xs h a.1)

    nothing :
        (xs : List A) → limit_one (order_by le xs) ≡ none → (x : A) → All (λ r. le x r ≡ true) xs
    nothing [] q x = tt
    nothing (y ∷ xs) q x = unfold order_by in cc (limit_one-insert_by y (order_by le xs))

    least_of :
        (x : A) (o : Option A) (xs : List A)
        → (o ≡ none → All (λ r. le x r ≡ true) xs)
        → ((y : A) → o ≡ some y → All (λ r. le y r ≡ true) xs)
        → All (λ r. le (better x o) r ≡ true) (x ∷ xs)
    least_of x none xs h k = (reflexive x, h refl)
    least_of x (some y) xs h k = elim (Bool-cases (le x y)) [
      | inl here ↦
          at_least (better x (some y)) x (rw here refl)
            (reflexive x, lower-All x y xs here (k y refl))
      | inr there ↦ at_least (better x (some y)) y (rw there refl) (total x y there, k y refl)
    ]
      where
        at_least :
            (b c : A)
            → b ≡ c
            → All (λ r. le c r ≡ true) (x ∷ xs)
            → All (λ r. le b r ≡ true) (x ∷ xs)
        at_least b c q a = subst (λ z. All (λ r. le z r ≡ true) (x ∷ xs)) (sym q) a

    pub first-least :
        (xs : List A) (c : A) → limit_one (order_by le xs) ≡ some c → All (λ r. le c r ≡ true) xs
    unfolding order_by
    first-least [] c e = tt
    first-least (x ∷ xs) c e =
        subst (λ b. All (λ r. le b r ≡ true) (x ∷ xs))
          (some-injective _ _ (sym (limit_one-insert_by x (order_by le xs)) ∙ e))
          (least_of x (limit_one (order_by le xs)) xs (λ q. nothing xs q x)
            (λ y q. first-least xs y q))

  pub something : (x : A) (ys : List A) → limit_one (insert_by le x ys) ≡ none → ⊥
  something x ys e = cc (limit_one-insert_by x ys)

  pub none_selected :
      (p : A → Bool) (xs : List A)
      → limit_one (order_by le (select p xs)) ≡ none
      → exists p xs ≡ false
  unfolding order_by select exists
  none_selected p [] e = refl
  none_selected p (x ∷ xs) e = elim (Bool-cases (p x)) [
    | inl here ↦ absurd (something x (order_by le (select p xs)) (rw here at e))
    | inr there ↦ rw there (none_selected p xs (rw there at e))
  ]

module _ {ℓ} {A : Type ℓ} (p : A → Bool) where
  pub select-passes : (xs : List A) → All (λ r. p r ≡ true) (select p xs)
  unfolding select
  select-passes [] = tt
  select-passes (x ∷ xs) = elim (Bool-cases (p x)) [
    | inl here ↦ rw here (here, select-passes xs)
    | inr there ↦ rw there (select-passes xs)
  ]

  pub selected-All :
      (P : A → Type 0) (xs : List A) → All P (select p xs) → All (λ r. p r ≡ true → P r) xs
  unfolding select
  selected-All P [] a = tt
  selected-All P (x ∷ xs) a = elim (Bool-cases (p x)) [
    | inl here ↦ (λ _. (rw here at a).0, selected-All P xs (rw here at a).1)
    | inr there ↦ (λ h. cc, selected-All P xs (rw there at a))
  ]
