-- ===== src/Exec.antt =====
-- Methods over the database session of SQLAlchemy (database.py of the local core): what is written
-- stands in the transaction that is open, `session.commit()` keeps it, `session.rollback()` goes back
-- to what was kept, and an exception leaves both as they are.
pub mod Triples
use enishi.Prelude.{Option, none, some}
use enishi.Errors.{Code, Result, ok, err, Done}

pub record Db (T : Type 0) : Type 0 where
  pub committed : T
  pub working : T

abbrev pub Exec : Type 0 → Type 0 → Type 0
Exec T A = Db T → Result A × Db T

module _ {T A : Type 0} where
  unfoldable pub pure : A → Exec T A
  pure a db = (ok a, db)

  unfoldable pub lift : Result A → Exec T A
  lift r db = (r, db)

  -- What the open transaction shows.
  unfoldable pub read : (T → Result A) → Exec T A
  read f db = (f db.working, db)

module _ {T : Type 0} where
  unfoldable pub modify : (T → T) → Exec T Done
  modify f db = (ok tt, record db { working = f db.working })

  unfoldable pub commit : Exec T Done
  commit db = (ok tt, record db { committed = db.working })

  unfoldable pub rollback : Exec T Done
  rollback db = (ok tt, record db { working = db.committed })

module _ {T A : Type 0} where
  abbrev pub caught : Result A × Db T → Result (Result A) × Db T
  caught (r, db) = (ok r, db)

  -- `try: ... except`: what was raised is a value.
  unfoldable pub attempt : Exec T A → Exec T (Result A)
  attempt step db = caught (step db)

module _ {T A B : Type 0} where
  abbrev pub continue : Result A × Db T → (A → Exec T B) → Result B × Db T
  continue (ok a, db) next = next a db
  continue (err c, db) next = (err c, db)

  infixl 5 ◌>>=◌ ◌>>◌
  unfoldable pub ◌>>=◌ : Exec T A → (A → Exec T B) → Exec T B
  (step >>= next) db = continue (step db) next

  abbrev pub ◌>>◌ : Exec T A → Exec T B → Exec T B
  step >> next = step >>= λ _. next

-- `x if x is not None else raise`
abbrev pub found {ℓ} : {A : Type ℓ} → Code → Option A → Result A
found c none = err c
found c (some a) = ok a
