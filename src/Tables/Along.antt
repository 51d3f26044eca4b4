-- ===== src/Tables/Along.antt =====
-- Calls whose every run, failing or not, relates the database before to the database after: rules for
-- any reflexive and transitive relation, one for each way to build a call.
use zincir.Prelude.{Bool, true, false, Option, none, some, if◌then◌else◌}
use zincir.Types.{Error, Result, ok, err}
use zincir.Tables.{
  Db, Tx, pure, raise, query, lift, or_raise, ◌>>=◌, ◌>>◌, require, finish_transaction, transaction,
}

pub record Preorder (R : Db → Db → Type 0) : Type 0 where
  pub reflexive : (a : Db) → R a a
  pub transitive : (a b c : Db) → R a b → R b c → R a c

pub record Along {A : Type 0} (R : Db → Db → Type 0) (m : Tx A) : Type 0 where
  pub at : (db : Db) → R db (m db).1

module _ {R : Db → Db → Type 0} (p : Preorder R) {A : Type 0} where
  pub Along-pure : (a : A) → Along R (pure a)
  Along-pure a = record { at = p.reflexive }

  pub Along-raise : (e : Error) → Along R (raise {A = A} e)
  Along-raise e = record { at = p.reflexive }

  pub Along-query : (f : Db → A) → Along R (query f)
  Along-query f = record { at = p.reflexive }

  pub Along-lift : (r : Result A) → Along R (lift r)
  Along-lift r = record { at = p.reflexive }

  pub Along-or_raise : (o : Option A) (e : Error) → Along R (or_raise o e)
  Along-or_raise none e = record { at = p.reflexive }
  Along-or_raise (some a) e = record { at = p.reflexive }

  pub Along-if : (b : Bool) (m n : Tx A) → Along R m → Along R n → Along R (if b then m else n)
  Along-if true m n km kn = km
  Along-if false m n km kn = kn

  finished :
      (start : Db) (r : Result A) (db : Db)
      → R start db
      → R start (finish_transaction start (r, db)).1
  finished start (ok a) db h = h
  finished start (err e) db h = p.reflexive start

  pub Along-transaction : (m : Tx A) → Along R m → Along R (transaction m)
  Along-transaction m km = record {
    at = λ db. let (r, after) = m db in finished db r after (km.at db);
  }

module _ {R : Db → Db → Type 0} (p : Preorder R) where
  pub Along-require : (b : Bool) (e : Error) → Along R (require b e)
  Along-require true e = record { at = p.reflexive }
  Along-require false e = record { at = p.reflexive }

module _ {R : Db → Db → Type 0} (p : Preorder R) {A B : Type 0} where
  continued :
      (start : Db) (r : Result A) (db : Db) (f : A → Tx B)
      → R start db
      → ((a : A) → Along R (f a))
      → R start ((lift r >>= f) db).1
  continued start (ok a) db f h kf = p.transitive start db _ h ((kf a).at db)
  continued start (err e) db f h kf = h

  pub Along-bind :
      (m : Tx A) (f : A → Tx B) → Along R m → ((a : A) → Along R (f a)) → Along R (m >>= f)
  Along-bind m f km kf = record {
    at = λ db. let (r, after) = m db in continued db r after f (km.at db) kf;
  }

  pub Along-then : (m : Tx A) (n : Tx B) → Along R m → Along R n → Along R (m >> n)
  Along-then m n km kn = Along-bind m (λ _. n) km (λ _. kn)

  -- A query whose answer the rest depends on.
  pub Along-ask :
      (f : Db → A) (k : A → Tx B) → ((db : Db) → R db (k (f db) db).1) → Along R (query f >>= k)
  Along-ask f k h = record { at = h }

pub ruleset along_rules = (
  Along-pure, Along-raise, Along-query, Along-lift, Along-or_raise, Along-if, Along-transaction,
  Along-require, Along-bind, Along-then,
)
