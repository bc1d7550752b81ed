-- ===== src/Exec/Triples.antt =====
-- What a method ensures, by one rule for each way to build a method: `Ensures P m Q R` says that from
-- a database with P the method returns with Q or raises with R.
use enishi.Prelude.{◌≡◌, refl, Bool, true, false, Option, none, some, if◌then◌else◌}
use enishi.Errors.{Code, Result, ok, err, Done}
use enishi.Exec.{
  Db, Exec, pure, lift, read, modify, commit, rollback, attempt, caught, continue, ◌>>=◌,
}

module _ {T : Type 0} where
  abbrev pub Ends : {A : Type 0} → (A → Db T → Type 0) → (Db T → Type 0) → Result A × Db T → Type 0
  Ends Q R (ok a, db) = Q a db
  Ends Q R (err c, db) = R db

pub record Ensures {T A : Type 0} (P : Db T → Type 0) (m : Exec T A) (Q : A → Db T → Type 0)
    (R : Db T → Type 0) : Type 0 where
  pub at : (db : Db T) → P db → Ends Q R (m db)

module _ {T A : Type 0} {P R : Db T → Type 0} where
  pub Ensures-pure :
      {Q : A → Db T → Type 0} (a : A) → ((db : Db T) → P db → Q a db) → Ensures P (pure a) Q R
  unfolding pure
  Ensures-pure a h = record { at = h }

  pub Ensures-raise :
      {Q : A → Db T → Type 0} (c : Code)
      → ((db : Db T) → P db → R db)
      → Ensures P (lift (err c)) Q R
  unfolding lift
  Ensures-raise c h = record { at = h }

  pub Ensures-computed :
      {Q : A → Db T → Type 0} (r : Result A)
      → ((a : A) (db : Db T) → P db → Q a db)
      → ((db : Db T) → P db → R db)
      → Ensures P (lift r) Q R
  unfolding lift
  Ensures-computed (ok a) q r = record { at = q a }
  Ensures-computed (err c) q r = record { at = r }

  pub Ensures-weaken :
      {P' R' : Db T → Type 0} {Q Q' : A → Db T → Type 0} {m : Exec T A}
      → ((db : Db T) → P' db → P db)
      → ((a : A) (db : Db T) → Q a db → Q' a db)
      → ((db : Db T) → R db → R' db)
      → Ensures P m Q R
      → Ensures P' m Q' R'
  Ensures-weaken {R'} {Q} {Q'} {m} p q r h = record {
    at = λ db k. at_end (m db) (h.at db (p db k));
  }
    where
      at_end : (end : Result A × Db T) → Ends Q R end → Ends Q' R' end
      at_end (ok a, db) k = q a db k
      at_end (err c, db) k = r db k

  pub Ensures-if :
      {Q : A → Db T → Type 0} (b : Bool) {m n : Exec T A}
      → (b ≡ true → Ensures P m Q R)
      → (b ≡ false → Ensures P n Q R)
      → Ensures P (if b then m else n) Q R
  Ensures-if true h k = h refl
  Ensures-if false h k = k refl

  pub Ensures-option :
      {X : Type 0} {Q : A → Db T → Type 0} (o : Option X) {m : Exec T A} {n : X → Exec T A}
      → (o ≡ none → Ensures P m Q R)
      → ((x : X) → o ≡ some x → Ensures P (n x) Q R)
      → Ensures P (elim o [ none ↦ m | some x ↦ n x ]) Q R
  Ensures-option none h k = h refl
  Ensures-option (some x) h k = k x refl

  pub Ensures-result :
      {X : Type 0} {Q : A → Db T → Type 0} (r : Result X) {m : X → Exec T A} {n : Code → Exec T A}
      → ((x : X) → r ≡ ok x → Ensures P (m x) Q R)
      → ((c : Code) → r ≡ err c → Ensures P (n c) Q R)
      → Ensures P (elim r [ ok x ↦ m x | err c ↦ n c ]) Q R
  Ensures-result (ok x) h k = h x refl
  Ensures-result (err c) h k = k c refl

module _ {T A B : Type 0} {P R : Db T → Type 0} {Q : B → Db T → Type 0} where
  -- What is computed raises before anything is written, or gives what the rest goes on with.
  pub Ensures-lift :
      (r : Result A) {next : A → Exec T B}
      → ((db : Db T) → P db → R db)
      → ((a : A) → r ≡ ok a → Ensures P (next a) Q R)
      → Ensures P (lift r >>= next) Q R
  unfolding lift ◌>>=◌
  Ensures-lift (ok a) k h = record { at = λ db p. (h a refl).at db p }
  Ensures-lift (err c) k h = record { at = k }

  -- The same of what is computed from the open transaction.
  pub Ensures-read :
      (f : T → Result A) {next : A → Exec T B}
      → ((db : Db T) → P db → R db)
      → ((a : A) → Ensures (λ db. P db × (f db.working ≡ ok a)) (next a) Q R)
      → Ensures P (read f >>= next) Q R
  unfolding read ◌>>=◌
  Ensures-read f {next} k h = record { at = λ db p. at_end db p (f db.working) refl }
    where
      at_end :
          (db : Db T) → P db → (r : Result A) → f db.working ≡ r → Ends Q R (continue (r, db) next)
      at_end db p (ok a) e = (h a).at db (p, e)
      at_end db p (err c) e = k db p

  pub Ensures-bind :
      {M : A → Db T → Type 0} {m : Exec T A} {next : A → Exec T B}
      → Ensures P m M R
      → ((a : A) → Ensures (M a) (next a) Q R)
      → Ensures P (m >>= next) Q R
  unfolding ◌>>=◌
  Ensures-bind {M} {m} {next} h k = record { at = λ db p. at_end (m db) (h.at db p) }
    where
      at_end : (end : Result A × Db T) → Ends M R end → Ends Q R (continue end next)
      at_end (ok a, db) e = (k a).at db e
      at_end (err c, db) e = e

module _ {T : Type 0} {P R : Db T → Type 0} {Q : Done → Db T → Type 0} where
  pub Ensures-modify :
      (f : T → T)
      → ((db : Db T) → P db → Q tt (record db { working = f db.working }))
      → Ensures P (modify f) Q R
  unfolding modify
  Ensures-modify f h = record { at = h }

  pub Ensures-commit :
      ((db : Db T) → P db → Q tt (record db { committed = db.working })) → Ensures P commit Q R
  unfolding commit
  Ensures-commit h = record { at = h }

  pub Ensures-rollback :
      ((db : Db T) → P db → Q tt (record db { working = db.committed })) → Ensures P rollback Q R
  unfolding rollback
  Ensures-rollback h = record { at = h }

module _ {T A : Type 0} where
  abbrev pub Caught : (A → Db T → Type 0) → (Db T → Type 0) → Result A → Db T → Type 0
  Caught Q E (ok a) = Q a
  Caught Q E (err c) = E

module _ {T A : Type 0} {P E R : Db T → Type 0} where
  pub Ensures-attempt :
      {Q : A → Db T → Type 0} {m : Exec T A}
      → Ensures P m Q E
      → Ensures P (attempt m) (Caught Q E) R
  unfolding attempt
  Ensures-attempt {Q} {m} h = record { at = λ db p. at_end (m db) (h.at db p) }
    where
      at_end : (end : Result A × Db T) → Ends Q E end → Ends (Caught Q E) R (caught end)
      at_end (ok a, db) e = e
      at_end (err c, db) e = e

-- A fact of the tables that the kept ones and the open ones have: committing and rolling back keep it.
abbrev pub Both : {T : Type 0} → (T → Type 0) → Db T → Type 0
Both I db = I db.committed × I db.working
