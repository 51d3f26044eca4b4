-- ===== src/Tables/Stops.antt =====
-- Calls that fail on a given database and change nothing.
use zincir.Prelude.{◌≡◌, ap}
use zincir.Types.{Error, Result, err}
use zincir.Tables.{Db, Tx, lift, ◌>>=◌, ◌>>◌, query, transaction, finish_transaction}

pub record Stops {A : Type 0} (db : Db) (e : Error) (m : Tx A) : Type 0 where
  pub at : m db ≡ (err e, db)

module _ {A : Type 0} {db : Db} {e : Error} where
  pub Stops-transaction : (m : Tx A) → Stops db e m → Stops db e (transaction m)
  Stops-transaction m s = record { at = ap (finish_transaction db) s.at }

module _ {A B : Type 0} {db : Db} {e : Error} where
  pub Stops-bind : (m : Tx A) (f : A → Tx B) → Stops db e m → Stops db e (m >>= f)
  Stops-bind m f s = record { at = ap (λ (r : Result A × Db). (lift r.0 >>= f) r.1) s.at }

  pub Stops-then : (m : Tx A) (n : Tx B) → Stops db e m → Stops db e (m >> n)
  Stops-then m n s = Stops-bind m (λ _. n) s

  -- A query is answered, and what follows stops.
  pub Stops-after_query :
      (q : Db → A) (f : A → Tx B) → Stops db e (f (q db)) → Stops db e (query q >>= f)
  Stops-after_query q f s = record { at = s.at }

pub ruleset stop_rules = (Stops-transaction, Stops-bind, Stops-then)
