-- ===== src/Model/Chains.antt =====
-- How a chain of statements runs, step by step: what proofs about `do` blocks are put together from.
use hh_game_market_backend.Base.{◌≢◌, ◌≡◌, refl, ap}
use hh_game_market_backend.Model.Database.{
  Db, Error, Result, ok, err, Action, pure, transaction, outcome_of, catch_as, ◌>>=◌, ◌>>◌,
}

module _ {A B : Type 0} (m : Action A) (f : A → Action B) (db : Db) where
  abbrev continue : Result A × Db → Result B × Db
  continue s = elim s.0 [ ok a ↦ f a s.1 | err e ↦ (err e, s.1) ]

  -- The first statement succeeds: the rest runs where it ended.
  pub bind_ok : {a : A} {db' : Db} → m db ≡ (ok a, db') → (m >>= f) db ≡ f a db'
  bind_ok e = ap continue e

  -- It fails: so does the chain.
  pub bind_err : {x : Error} {db' : Db} → m db ≡ (err x, db') → (m >>= f) db ≡ (err x, db')
  bind_err e = ap continue e

module _ {A : Type 0} (m : Action A) (db : Db) where
  pub transaction_ok : {a : A} {db' : Db} → m db ≡ (ok a, db') → transaction m db ≡ (ok a, db')
  transaction_ok e = ap (outcome_of db) e

  -- A transaction that fails leaves no trace.
  pub transaction_err :
      {x : Error} {db' : Db} → m db ≡ (err x, db') → transaction m db ≡ (err x, db)
  transaction_err e = ap (outcome_of db) e

-- Whatever holds before a transaction and at the end of its body holds after it.
pub transaction-either {κ} :
    {A : Type 0} (P : Db → Type κ) (m : Action A) (db : Db)
    → P db
    → P (m db).1
    → P (transaction m db).1
transaction-either {A = A} P m db before after = go (m db).0 before after
  where
    go : (r : Result A) → P db → P (m db).1 → P (outcome_of db (r, (m db).1)).1
    go (ok a) before after = after
    go (err e) before after = before

-- What is written is written before the value is returned, or the error replaced.
pub then_pure : {A B : Type 0} (m : Action A) (b : B) (db : Db) → ((m >> pure b) db).1 ≡ (m db).1
then_pure {A = A} {B = B} m b db = go (m db).0
  where
    go :
        (r : Result A)
        → (elim r as (λ _. Result B × Db) [ ok a ↦ pure b (m db).1 | err e ↦ (err e, (m db).1) ]).1
          ≡ (m db).1
    go (ok a) = refl
    go (err e) = refl

pub catch_as_state :
    {A : Type 0} (x : Error) (m : Action A) (db : Db) → (catch_as x m db).1 ≡ (m db).1
catch_as_state {A = A} x m db = go (m db).0
  where
    go :
        (r : Result A)
        → (elim r as (λ _. Result A × Db) [ ok a ↦ (ok a, (m db).1) | err _ ↦ (err x, (m db).1) ]).1
          ≡ (m db).1
    go (ok a) = refl
    go (err e) = refl

pub err≢ok : {A : Type 0} {x : Error} {a : A} → err x ≢ ok a
err≢ok e = cc
