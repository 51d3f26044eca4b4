-- ===== src/Tables/Yields.antt =====
-- What a call that succeeds makes of a database with a property: a postcondition on its value and on
-- the database that it leaves. A call that fails inside a transaction leaves nothing to speak of.
use zincir.Prelude.{Bool, true, false, if◌then◌else◌}
use zincir.Types.{Result, ok, err}
use zincir.Tables.{Db, Tx, lift, ◌>>=◌, ◌>>◌, finish_transaction, transaction}
use zincir.Tables.Along.{Along, Preorder}

abbrev pub Post : {A : Type 0} → (A → Db → Type 0) → Result A × Db → Type 0
Post Q (ok a, db) = Q a db
Post Q (err e, db) = Unit {0}

pub record Yields {A : Type 0} (P : Db → Type 0) (m : Tx A) (Q : A → Db → Type 0) : Type 0 where
  pub at : (db : Db) → P db → Post Q (m db)

-- To keep a property is to be along the relation that it implies itself.
abbrev pub Keeps : (Db → Type 0) → Db → Db → Type 0
Keeps P a b = P a → P b

pub keeps : (P : Db → Type 0) → Preorder (Keeps P)
keeps P = record { reflexive = λ a h. h; transitive = λ a b c f g h. g (f h) }

settled :
    {A : Type 0} (P : Db → Type 0) (start : Db) (r : Result A) (db : Db)
    → P start
    → Post (λ _. P) (r, db)
    → P (finish_transaction start (r, db)).1
settled P start (ok a) db p q = q
settled P start (err e) db p q = p

module _ {A : Type 0} {P : Db → Type 0} where
  -- A call that keeps a property yields it, whatever its value.
  pub yields_along : (m : Tx A) → Along (Keeps P) m → Yields P m (λ _. P)
  yields_along m k = record { at = λ db h. let (r, after) = m db in weaken r after (k.at db h) }
    where
      weaken : (r : Result A) (after : Db) → P after → Post (λ _. P) (r, after)
      weaken (ok a) after h = h
      weaken (err e) after h = tt

  pub transaction-Keeps : (m : Tx A) → Yields P m (λ _. P) → Along (Keeps P) (transaction m)
  transaction-Keeps m y = record {
    at = λ db p. let (r, after) = m db in settled P db r after p (y.at db p);
  }

module _ {A B : Type 0} {Q : A → Db → Type 0} {S : B → Db → Type 0} where
  resumed :
      (r : Result A) (db : Db) (f : A → Tx B)
      → Post Q (r, db)
      → ((a : A) → Yields (Q a) (f a) S)
      → Post S ((lift r >>= f) db)
  resumed (ok a) db f q y = (y a).at db q
  resumed (err e) db f q y = tt

module _ {A B : Type 0} {P : Db → Type 0} {Q : A → Db → Type 0} {S : B → Db → Type 0} where
  pub yields_bind :
      (m : Tx A) (f : A → Tx B)
      → Yields P m Q
      → ((a : A) → Yields (Q a) (f a) S)
      → Yields P (m >>= f) S
  yields_bind m f y z = record {
    at = λ db p. let (r, after) = m db in resumed r after f (y.at db p) z;
  }

  pub yields_then :
      (m : Tx A) (n : Tx B) → Yields P m Q → ((a : A) → Yields (Q a) n S) → Yields P (m >> n) S
  yields_then m n y z = yields_bind m (λ _. n) y z

-- A part that keeps the property, before a part that yields something of it.
module _ {A B : Type 0} {P : Db → Type 0} {S : B → Db → Type 0} where
  pub kept_bind :
      (m : Tx A) (f : A → Tx B)
      → Along (Keeps P) m
      → ((a : A) → Yields P (f a) S)
      → Yields P (m >>= f) S
  kept_bind m f k z = yields_bind m f (yields_along m k) z

  pub kept_then : (m : Tx A) (n : Tx B) → Along (Keeps P) m → Yields P n S → Yields P (m >> n) S
  kept_then m n k z = kept_bind m (λ _. n) k (λ _. z)

  pub yields_seq :
      (m : Tx A) (f : A → Tx B)
      → Yields P m (λ _. P)
      → ((a : A) → Yields P (f a) S)
      → Yields P (m >>= f) S
  yields_seq m f y z = yields_bind m f y z

  pub yields_after :
      (m : Tx A) (n : Tx B) → Yields P m (λ _. P) → Yields P n S → Yields P (m >> n) S
  yields_after m n y z = yields_bind m (λ _. n) y (λ _. z)

module _ {A : Type 0} {P : Db → Type 0} {Q : A → Db → Type 0} where
  pub yields_if :
      (b : Bool) (m n : Tx A) → Yields P m Q → Yields P n Q → Yields P (if b then m else n) Q
  yields_if true m n y z = y
  yields_if false m n y z = z

-- No precondition.
abbrev pub Always : Db → Type 0
Always db = Unit {0}

pub always : {A : Type 0} (m : Tx A) → Yields Always m (λ _. Always)
always m = record { at = λ db _. trivial (m db).0 (m db).1 }
  where
    trivial : {A : Type 0} (r : Result A) (db : Db) → Post (λ _. Always) (r, db)
    trivial (ok a) db = tt
    trivial (err e) db = tt

pub Yields-transaction :
    {A : Type 0} {P : Db → Type 0} {Q : A → Db → Type 0} (m : Tx A)
    → Yields P m Q
    → Yields P (transaction m) Q
Yields-transaction {Q = Q} m y = record {
  at = λ db p. committed Q db (m db).0 (m db).1 (y.at db p);
}
  where
    committed :
        {A : Type 0} (Q : A → Db → Type 0) (start : Db) (r : Result A) (db : Db)
        → Post Q (r, db)
        → Post Q (finish_transaction start (r, db))
    committed Q start (ok a) db q = q
    committed Q start (err e) db q = tt
