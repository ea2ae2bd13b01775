-- ===== src/Db/Handler.antt =====
-- A request handler runs transactions one after the other. One that throws ends the request, and
-- what the earlier ones committed stays.
use kapi_final.Db.Tables.{Db}
use kapi_final.Db.Tx.{Tx, Error, Outcome, done, throw, Keeps, Holds}

pub data Served (A : Type 0) : Type 0 where
  served : A → Db → Served A
  crashed : Error → Db → Served A

abbrev pub Handler : Type 0 → Type 0
Handler A = Db → Served A

abbrev pub left_by : {A : Type 0} → Served A → Db
left_by (served a db) = db
left_by (crashed e db) = db

infixl 5 ◌>>=◌ ◌>>◌
unfoldable pub ◌>>=◌ : {A B : Type 0} → Handler A → (A → Handler B) → Handler B
◌>>=◌ m f db = elim (m db) [ served a db' ↦ f a db' | crashed e db' ↦ crashed e db' ]

abbrev pub ◌>>◌ : {B : Type 0} → Handler (Unit {0}) → Handler B → Handler B
m >> k = m >>= λ _. k

unfoldable pub commit : {A : Type 0} → Tx A → Handler A
commit m db = elim (m db) [ done a db' ↦ served a db' | throw e ↦ crashed e db ]

unfoldable pub answer : {A : Type 0} → A → Handler A
answer a db = served a db

-- What else happens to the database while a handler waits.
unfoldable pub elapse : (Db → Db) → Handler (Unit {0})
elapse f db = served tt (f db)

-- The handler keeps a property of the database, whether it ends or crashes.
pub record Serves {A : Type 0} (P : Db → Type 0) (m : Handler A) : Type 0 where
  pub apply : (db : Db) → P db → P (left_by (m db))

committed :
    {A : Type 0} (P : Db → Type 0) (o : Outcome A) (db : Db)
    → P db
    → Holds P o
    → P (left_by {A = A} (elim o [ done a db' ↦ served a db' | throw e ↦ crashed e db ]))
committed P (done a db') db h k = k
committed P (throw e) db h k = h

module _ {P : Db → Type 0} where
  bind_left :
      {A B : Type 0} (f : A → Handler B) (s : Served A)
      → ((a : A) → Serves P (f a))
      → P (left_by s)
      → P (left_by {A = B} (elim s [ served a db' ↦ f a db' | crashed e db' ↦ crashed e db' ]))
  bind_left f (served a db) k h = (k a).apply db h
  bind_left f (crashed e db) k h = h

  pub Serves-bind :
      {A B : Type 0} {m : Handler A} {f : A → Handler B}
      → Serves P m
      → ((a : A) → Serves P (f a))
      → Serves P (m >>= f)
  unfolding ◌>>=◌
  Serves-bind {m = m} {f = f} k kf = record { apply = λ db h. bind_left f (m db) kf (k.apply db h) }

  pub Serves-elapse : (f : Db → Db) → ((db : Db) → P db → P (f db)) → Serves P (elapse f)
  unfolding elapse
  Serves-elapse f k = record { apply = k }

  pub Serves-answer : {A : Type 0} (a : A) → Serves P (answer a)
  unfolding answer
  Serves-answer a = record { apply = λ db h. h }

  pub Serves-commit : {A : Type 0} {m : Tx A} → Keeps P m → Serves P (commit m)
  unfolding commit
  Serves-commit {m = m} k = record { apply = λ db h. committed P (m db) db h (k.apply db h) }
