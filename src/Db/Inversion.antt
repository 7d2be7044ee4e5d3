-- ===== src/Db/Inversion.antt =====
-- What a transaction that returned tells of its parts.
use sambung.Common.{◌≡◌, refl, Bool, true, false, Option, none, some}
use sambung.Db.Tx.{Result, ok, err, Error, Tx, ◌>>=◌, ◌>>◌, guard, or_throw, lift}
use sambung.Db.Schema.{Db}

module _ {B : Type 0} {y : B × Db} where
  pub guard-inv :
      (b : Bool) (x : Error) (m : Tx B) (db : Db)
      → (guard b x >> m) db ≡ ok y
      → (b ≡ true) × (m db ≡ ok y)
  guard-inv true x m db e = (refl, e)
  guard-inv false x m db e = cc

module _ {A B : Type 0} {y : B × Db} where
  pub or_throw-inv :
      (o : Option A) (x : Error) (f : A → Tx B) (db : Db)
      → (or_throw o x >>= f) db ≡ ok y
      → (a : A) × (o ≡ some a) × (f a db ≡ ok y)
  or_throw-inv none x f db e = cc
  or_throw-inv (some a) x f db e = (a, refl, e)

  pub lift-inv :
      (r : Result A) (f : A → Tx B) (db : Db)
      → (lift r >>= f) db ≡ ok y
      → (a : A) × (r ≡ ok a) × (f a db ≡ ok y)
  lift-inv (ok a) f db e = (a, refl, e)
  lift-inv (err x) f db e = cc
