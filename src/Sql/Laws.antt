-- ===== src/Sql/Laws.antt =====
-- How reads of a table by a key meet its updates.
use zincir.Prelude.{
  ◌≡◌, refl, sym, ◌∙◌, Bool, true, false, Option, none, some, List, [], ◌∷◌, ◌&&◌, arith,
  if◌then◌else◌,
}
use zincir.Sql.{first, exists, count, where_set, update}

module _ {ℓ} {A : Type ℓ} where
  -- Does the row that was found, if any, pass the test?
  abbrev pub holds : (A → Bool) → Option A → Bool
  holds p none = false
  holds p (some x) = p x

  abbrev pub set_found : (A → Bool) → (A → A) → Option A → Option A
  set_found p f none = none
  set_found p f (some x) = some (where_set p f x)

  pub first-update :
      (q p : A → Bool) (f : A → A) (xs : List A)
      → ((x : A) → q (where_set p f x) ≡ q x)
      → first q (update p f xs) ≡ set_found p f (first q xs)
  unfolding first update
  first-update q p f [] h = refl
  first-update q p f (x ∷ xs) h = ground (arith, h x, first-update q p f xs h)

  -- At most one row has the key.
  abbrev pub Unique : (A → Bool) → List A → Type 0
  Unique k [] = Unit {0}
  Unique k (x ∷ xs) = (k x ≡ true → exists k xs ≡ false) × Unique k xs

  pub first-none : (k : A → Bool) (xs : List A) → exists k xs ≡ false → first k xs ≡ none
  unfolding first exists
  first-none k [] h = refl
  first-none k (x ∷ xs) h = ground (arith, first-none k xs)

  pub first-none-exists : (k : A → Bool) (xs : List A) → first k xs ≡ none → exists k xs ≡ false
  unfolding first exists
  first-none-exists k [] h = refl
  first-none-exists k (x ∷ xs) h = ground (arith, first-none-exists k xs)

  pub exists-first : (k : A → Bool) (xs : List A) (x : A) → first k xs ≡ some x → exists k xs ≡ true
  unfolding first exists
  exists-first k [] x h = cc
  exists-first k (y ∷ xs) x h = ground (arith, exists-first k xs x)

  pub first_passes : (k : A → Bool) (xs : List A) (x : A) → first k xs ≡ some x → k x ≡ true
  unfolding first
  first_passes k [] x h = cc
  first_passes k (y ∷ xs) x h = ground (arith, first_passes k xs x)

  pub exists-and_false :
      (k q : A → Bool) (xs : List A) → exists k xs ≡ false → exists (λ x. k x && q x) xs ≡ false
  unfolding exists
  exists-and_false k q [] h = refl
  exists-and_false k q (x ∷ xs) h = ground (arith, exists-and_false k q xs)

  pub count_none : (k : A → Bool) (xs : List A) → exists k xs ≡ false → count k xs ≡ 0
  unfolding count exists
  count_none k [] h = refl
  count_none k (x ∷ xs) h = ground (arith, count_none k xs)

  -- With a unique key a test of the keyed row is a lookup.
  pub exists-Unique :
      (k q : A → Bool) (xs : List A)
      → Unique k xs
      → exists (λ x. k x && q x) xs ≡ holds q (first k xs)
  unfolding exists first
  exists-Unique k q [] u = refl
  exists-Unique k q (x ∷ xs) u =
      ground (arith, exists-Unique k q xs u.1, exists-and_false k q xs, u.0)

  pub count-Unique :
      (k q : A → Bool) (xs : List A)
      → Unique k xs
      → count (λ x. k x && q x) xs ≡ (if holds q (first k xs) then 1 else 0)
  unfolding count first
  count-Unique k q [] u = refl
  count-Unique k q (x ∷ xs) u = ground (
    arith,
    count-Unique k q xs u.1,
    u.0,
    exists-and_false k q xs,
    count_none (λ y. k y && q y) xs,
  )

  pub first-Unique :
      (k q : A → Bool) (xs : List A)
      → Unique k xs
      → first (λ x. k x && q x) xs ≡ (if holds q (first k xs) then first k xs else none)
  unfolding first
  first-Unique k q [] u = refl
  first-Unique k q (x ∷ xs) u = ground (
    arith,
    first-Unique k q xs u.1,
    u.0,
    exists-and_false k q xs,
    first-none (λ y. k y && q y) xs,
  )

  pub exists-update :
      (q p : A → Bool) (f : A → A) (xs : List A)
      → ((x : A) → q (where_set p f x) ≡ q x)
      → exists q (update p f xs) ≡ exists q xs
  unfolding exists update
  exists-update q p f [] h = refl
  exists-update q p f (x ∷ xs) h = ground (arith, h x, exists-update q p f xs h)

  pub Unique-update :
      (k p : A → Bool) (f : A → A) (xs : List A)
      → ((x : A) → k (where_set p f x) ≡ k x)
      → Unique k xs
      → Unique k (update p f xs)
  unfolding update
  Unique-update k p f [] h u = tt
  Unique-update k p f (x ∷ xs) h u =
      (λ e. exists-update k p f xs h ∙ u.0 (sym (h x) ∙ e), Unique-update k p f xs h u.1)

  -- A stronger test passes no more rows.
  pub exists_mono :
      (p q : A → Bool) (xs : List A)
      → ((x : A) → q x ≡ true → p x ≡ true)
      → exists p xs ≡ false
      → exists q xs ≡ false
  unfolding exists
  exists_mono p q [] h e = refl
  exists_mono p q (x ∷ xs) h e = ground (arith, h x, exists_mono p q xs h)

  -- An update of no row changes nothing.
  pub update_none :
      (p : A → Bool) (f : A → A) (xs : List A) → exists p xs ≡ false → update p f xs ≡ xs
  unfolding update exists
  update_none p f [] e = refl
  update_none p f (x ∷ xs) e = ground (arith, update_none p f xs)

  -- An update of other rows is not seen.
  pub first-update_other :
      (q p : A → Bool) (f : A → A) (xs : List A)
      → ((x : A) → q (where_set p f x) ≡ q x)
      → ((x : A) → q x ≡ true → p x ≡ false)
      → first q (update p f xs) ≡ first q xs
  unfolding first update
  first-update_other q p f [] h o = refl
  first-update_other q p f (x ∷ xs) h o = ground (arith, h x, o x, first-update_other q p f xs h o)

  -- An update that makes no row pass leaves none passing.
  pub exists-update_none :
      (q p : A → Bool) (f : A → A) (xs : List A)
      → ((x : A) → q (where_set p f x) ≡ true → q x ≡ true)
      → exists q xs ≡ false
      → exists q (update p f xs) ≡ false
  unfolding exists update
  exists-update_none q p f [] h e = refl
  exists-update_none q p f (x ∷ xs) h e = ground (arith, h x, exists-update_none q p f xs h)
