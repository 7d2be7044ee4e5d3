-- ===== src/Db/Keeps.antt =====
-- Invariants of transactions: one rule for each way to build one.
use sambung.Common.{Bool, true, false, ◌≡◌, refl, Option, none, some, if◌then◌else◌}
use sambung.Db.Schema.{Db}
use sambung.Db.Tx.{
  Error, Result, ok, err, Tx, continue, ◌>>=◌, pure, throw, query, guard, or_throw, lift, read,
  committed,
}

-- A committed `m` keeps `P`.
pub record Keeps {A : Type 0} (P : Db → Type 0) (m : Tx A) : Type 0 where
  pub at : (db : Db) → P db → P (committed db (m db))

module _ {A : Type 0} {P : Db → Type 0} where
  pub Keeps-pure : (a : A) → Keeps P (pure a)
  Keeps-pure a = record { at = λ db h. h }

  pub Keeps-throw : (e : Error) → Keeps P (throw {A = A} e)
  Keeps-throw e = record { at = λ db h. h }

  pub Keeps-query : (f : Db → A) → Keeps P (query f)
  Keeps-query f = record { at = λ db h. h }

  pub Keeps-lift : (r : Result A) → Keeps P (lift r)
  Keeps-lift (ok a) = record { at = λ db h. h }
  Keeps-lift (err e) = record { at = λ db h. h }

  pub Keeps-read : (f : Db → Result A) → Keeps P (read f)
  Keeps-read f = record { at = λ db h. (Keeps-lift (f db)).at db h }

  pub Keeps-or_throw : (o : Option A) (e : Error) → Keeps P (or_throw o e)
  Keeps-or_throw none e = record { at = λ db h. h }
  Keeps-or_throw (some a) e = record { at = λ db h. h }

  pub Keeps-if : (b : Bool) (m n : Tx A) → Keeps P m → Keeps P n → Keeps P (if b then m else n)
  Keeps-if true m n km kn = km
  Keeps-if false m n km kn = kn

pub Keeps-guard : {P : Db → Type 0} (b : Bool) (e : Error) → Keeps P (guard b e)
Keeps-guard true e = record { at = λ db h. h }
Keeps-guard false e = record { at = λ db h. h }

module _ {A B : Type 0} {P : Db → Type 0} where
  continue-keeps :
      (r : Result (A × Db)) (f : A → Tx B) (db : Db)
      → P db
      → P (committed db r)
      → ((a : A) → Keeps P (f a))
      → P (committed db (continue r f))
  continue-keeps (ok (a, mid)) f db h k kf = finish (f a mid) ((kf a).at mid k)
    where
      finish : (r : Result (B × Db)) → P (committed mid r) → P (committed db r)
      finish (ok (b, after)) p = p
      finish (err e) p = h
  continue-keeps (err e) f db h k kf = h

  pub Keeps-bind :
      (m : Tx A) (f : A → Tx B) → Keeps P m → ((a : A) → Keeps P (f a)) → Keeps P (m >>= f)
  Keeps-bind m f km kf = record { at = λ db h. continue-keeps (m db) f db h (km.at db h) kf }

pub ruleset keeps_rules = (
  Keeps-pure, Keeps-throw, Keeps-query, Keeps-lift, Keeps-read, Keeps-or_throw, Keeps-if,
  Keeps-guard, Keeps-bind,
)

-- Inversion of a committed step.
pub >>=-eq-ok :
    {A B : Type 0} (m : Tx A) (f : A → Tx B) (db : Db) {b : B} {after : Db}
    → (m >>= f) db ≡ ok (b, after)
    → (a : A) × (mid : Db) × (m db ≡ ok (a, mid)) × (f a mid ≡ ok (b, after))
>>=-eq-ok {A} {B} m f db {b} {after} h = go (m db) refl h
  where
    go :
        (r : Result (A × Db))
        → m db ≡ r
        → continue r f ≡ ok (b, after)
        → (a : A) × (mid : Db) × (m db ≡ ok (a, mid)) × (f a mid ≡ ok (b, after))
    go (ok (a, mid)) e h = (a, mid, e, h)
    go (err x) e h = cc
