-- ===== src/Delivery/Run.antt =====
-- A delivery pass runs between its own transactions, calls over HTTP and whatever other instances
-- commit meanwhile. `Env` is all of that which is not this repository's code: the replies of
-- `fetch`, and the other instances, which may act before each of our transactions.
use hh_game_market_backend.Base.{ℕ, Bool, Option, List}
use hh_game_market_backend.Model.{RequestId, Message, Db, Error, Result, ok, err, Action}

-- `body.reason`
pub data Reason : Type 0 where
  out_of_stock : Reason
  other : ℕ → Reason

-- What is read of a JSON body; one that does not parse reads as `{}`.
pub record Body : Type 0 where
  pub status_ok : Bool
  pub code : Option ℕ
  pub reason : Option Reason

-- `error.cause.code`
pub data ConnCode : Type 0 where
  econnrefused enotfound eai_again : ConnCode
  other : Message → ConnCode

pub data FetchError : Type 0 where
  timeout_error : FetchError
  network : Option ConnCode → Message → FetchError

pub data Reply : Type 0 where
  response : (status : ℕ) → Body → Reply
  thrown : FetchError → Reply

pub record Env : Type 1 where
  pub World : Type 0
  -- what other instances commit before our next transaction
  pub others : World → Db → World × Db
  -- POST /issue, GET /issued?request_id= and POST /refund
  pub post_issue : (supplier : ℕ) → RequestId → (order_id sku : ℕ) → World → Reply × World
  pub get_issued : (supplier : ℕ) → RequestId → World → Reply × World
  pub post_refund : (refund_id order_id amount currency : ℕ) → World → Reply × World
  -- `Date.now()`
  pub clock : World → ℕ

-- The settings read from the environment.
pub record Config : Type 0 where
  pub suppliers : List ℕ
  pub max_rounds : ℕ
  pub max_attempts : ℕ
  pub timeout_ms : ℕ
  pub rate_limit : ℕ → ℕ
  pub window_ms : ℕ

abbrev pub Run : Type 0 → Type 0 → Type 0
Run W A = W → Db → Result A × W × Db

module _ {W A : Type 0} where
  abbrev pub pure : A → Run W A
  pure a w db = (ok a, w, db)

  abbrev pub raise : Error → Run W A
  raise e w db = (err e, w, db)

  -- `try { m } catch (error) { h(error) }`
  abbrev pub try_catch : Run W A → (Error → Run W A) → Run W A
  try_catch m h w db =
      let (r, w', db') = m w db in elim r [ ok a ↦ (ok a, w', db') | err e ↦ h e w' db' ]

infixl 5 ◌>>=◌ ◌>>◌
abbrev pub ◌>>=◌ : {W A B : Type 0} → Run W A → (A → Run W B) → Run W B
◌>>=◌ m f w db =
    let (r, w', db') = m w db in elim r [ ok a ↦ f a w' db' | err e ↦ (err e, w', db') ]

abbrev pub ◌>>◌ : {W A B : Type 0} → Run W A → Run W B → Run W B
m >> k = m >>= λ _. k

module _ (env : Env) where
  open env use {World, others}

  -- One transaction (or one statement outside any) of ours, after those of others.
  abbrev pub commit : {A : Type 0} → Action A → Run World A
  commit m w db = let (w', db') = others w db in let (r, db'') = m db' in (r, w', db'')

  -- A call that leaves the database alone.
  abbrev pub call : {A : Type 0} → (World → A × World) → Run World A
  call f w db = let (a, w') = f w in (ok a, w', db)
