-- ===== src/Tables/Answers.antt =====
-- Runs of calls step by step: what a call answers on one database, and calls that fail on it.
use zincir.Prelude.{◌≡◌, refl, ap, ◌∙◌, Bool, true, false, Option, none, some}
use zincir.Types.{Error, Result, ok, err}
use zincir.Tables.{
  Db, Tx, pure, lift, ◌>>=◌, ◌>>◌, query, modify, require, or_raise, transaction,
  finish_transaction,
}
use zincir.Tables.Stops.{Stops}

-- On `db` the call answers `a` and leaves `after`.
pub record Answers {A : Type 0} (db : Db) (a : A) (after : Db) (m : Tx A) : Type 0 where
  pub at : m db ≡ (ok a, after)

-- On `db` the call fails, leaving whatever it wrote.
pub record Fails {A : Type 0} (db : Db) (e : Error) (m : Tx A) : Type 0 where
  pub at : (m db).0 ≡ err e

module _ {A : Type 0} {db : Db} where
  pub Answers-pure : (a : A) → Answers db a db (pure a)
  Answers-pure a = record { at = refl }

  pub Answers-query : (f : Db → A) → Answers db (f db) db (query f)
  Answers-query f = record { at = refl }

  pub Answers-or_raise :
      {a : A} (o : Option A) (e : Error) → o ≡ some a → Answers db a db (or_raise o e)
  Answers-or_raise o e q = record { at = ap (λ x. or_raise x e db) q }

  pub Answers-lift : {a : A} (r : Result A) → r ≡ ok a → Answers db a db (lift r)
  Answers-lift r q = record { at = ap (λ x. lift x db) q }

  pub Answers-transaction :
      {a : A} {after : Db} (m : Tx A) → Answers db a after m → Answers db a after (transaction m)
  Answers-transaction m s = record { at = ap (finish_transaction db) s.at }

  pub Fails-or_raise : (o : Option A) (e : Error) → o ≡ none → Fails db e (or_raise o e)
  Fails-or_raise o e q = record { at = ap (λ x. (or_raise x e db).0) q }

  pub Fails-lift : {e : Error} (r : Result A) → r ≡ err e → Fails db e (lift r)
  Fails-lift r q = record { at = q }

  pub Fails-Stops : {e : Error} (m : Tx A) → Stops db e m → Fails db e m
  Fails-Stops m s = record { at = ap (λ (r : Result A × Db). r.0) s.at }

  rolled_back :
      {e : Error} (r : Result A) (after : Db)
      → r ≡ err e
      → finish_transaction db (r, after) ≡ (err e, db)
  rolled_back r after q = ap (λ x. finish_transaction db (x, after)) q

  -- A transaction that fails is rolled back.
  pub Stops-rollback : {e : Error} (m : Tx A) → Fails db e m → Stops db e (transaction m)
  Stops-rollback m f = record { at = rolled_back (m db).0 (m db).1 f.at }

module _ {db : Db} where
  pub Answers-modify : (f : Db → Db) → Answers db tt (f db) (modify f)
  Answers-modify f = record { at = refl }

  pub Answers-require : (b : Bool) (e : Error) → b ≡ true → Answers db tt db (require b e)
  Answers-require b e q = record { at = ap (λ x. require x e db) q }

  pub Fails-require : (b : Bool) (e : Error) → b ≡ false → Fails db e (require b e)
  Fails-require b e q = record { at = ap (λ x. (require x e db).0) q }

abbrev resume : {A B : Type 0} → (A → Tx B) → Result A × Db → Result B × Db
resume f (r, after) = (lift r >>= f) after

module _ {A B : Type 0} {db : Db} where
  pub Answers-bind :
      {a : A} {b : B} {mid after : Db} (m : Tx A) (f : A → Tx B)
      → Answers db a mid m
      → Answers mid b after (f a)
      → Answers db b after (m >>= f)
  Answers-bind m f s t = record { at = ap (resume f) s.at ∙ t.at }

  pub Answers-then :
      {a : A} {b : B} {mid after : Db} (m : Tx A) (n : Tx B)
      → Answers db a mid m
      → Answers mid b after n
      → Answers db b after (m >> n)
  Answers-then m n s t = Answers-bind m (λ _. n) s t

  pub Fails-bind : {e : Error} (m : Tx A) (f : A → Tx B) → Fails db e m → Fails db e (m >>= f)
  Fails-bind m f s = record { at = failed (m db).0 (m db).1 s.at }
    where
      failed :
          {e : Error} (r : Result A) (after : Db) → r ≡ err e → ((lift r >>= f) after).0 ≡ err e
      failed r after q = ap (λ x. ((lift x >>= f) after).0) q

  pub Fails-later :
      {e : Error} {a : A} {mid : Db} (m : Tx A) (f : A → Tx B)
      → Answers db a mid m
      → Fails mid e (f a)
      → Fails db e (m >>= f)
  Fails-later m f s t = record { at = ap (λ x. (resume f x).0) s.at ∙ t.at }

  pub Fails-then :
      {e : Error} {a : A} {mid : Db} (m : Tx A) (n : Tx B)
      → Answers db a mid m
      → Fails mid e n
      → Fails db e (m >> n)
  Fails-then m n s t = Fails-later m (λ _. n) s t

pub ruleset answer_rules = (
  Answers-pure, Answers-query, Answers-or_raise, Answers-lift, Answers-transaction, Answers-modify,
  Answers-require, Answers-bind, Answers-then,
)
