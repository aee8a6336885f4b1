-- ===== src/Model/Database.antt =====
-- The database: its tables, the clock of its server, statements that may raise, transactions that
-- roll back. Tables hold their rows in the order of insertion, which is the order of serial ids.
use hh_game_market_backend.Base.{ℕ, Bool, List, if◌then◌else◌}
use hh_game_market_backend.Model.Status.{OrderStatus}
use hh_game_market_backend.Model.Rows.{
  Product, ProductStock, Order, OrderItem, OrderEvent, LedgerEntry, PaymentEvent, Delivery, Refund,
  DeliveryAttempt, SupplierDiscrepancy, SupplierCall,
}

pub record Db : Type 0 where
  pub products : List Product
  pub stock : List ProductStock
  pub orders : List Order
  pub items : List OrderItem
  pub events : List OrderEvent
  pub ledger : List LedgerEntry
  pub payments : List PaymentEvent
  pub deliveries : List Delivery
  pub refunds : List Refund
  pub attempts : List DeliveryAttempt
  pub discrepancies : List SupplierDiscrepancy
  pub calls : List SupplierCall
  pub now : ℕ

-- The unique columns (and sets of columns) that an insert can collide in.
pub data Constraint : Type 0 where
  order_key item_key ledger_fact delivery_item delivery_request delivery_code : Constraint

pub data Error : Type 0 where
  bad_request not_found out_of_range type_error no_longer holds_other_code : Error
  conflict : OrderStatus → Error
  changed_concurrently : Error
  unique_violation : Constraint → Error

pub data Result (A : Type 0) : Type 0 where
  ok : A → Result A
  err : Error → Result A

-- What was written before an error stays written; a transaction undoes it.
abbrev pub Action : Type 0 → Type 0
Action A = Db → Result A × Db

module _ {A : Type 0} where
  abbrev pub pure : A → Action A
  pure a db = (ok a, db)

  abbrev pub raise : Error → Action A
  raise e db = (err e, db)

  abbrev pub gets : (Db → A) → Action A
  gets f db = (ok (f db), db)

  abbrev pub outcome_of : Db → Result A × Db → Result A × Db
  outcome_of before (ok a, after) = (ok a, after)
  outcome_of before (err e, after) = (err e, before)

  -- `dataSource.transaction(...)`: an error undoes every write.
  abbrev pub transaction : Action A → Action A
  transaction m db = outcome_of db (m db)

  -- `try { ... } catch { throw e }`
  abbrev pub catch_as : Error → Action A → Action A
  catch_as e m db = let (r, db') = m db in elim r [ ok a ↦ (ok a, db') | err _ ↦ (err e, db') ]

infixl 5 ◌>>=◌ ◌>>◌
abbrev pub ◌>>=◌ : {A B : Type 0} → Action A → (A → Action B) → Action B
◌>>=◌ m f db = let (r, db') = m db in elim r [ ok a ↦ f a db' | err e ↦ (err e, db') ]

abbrev pub ◌>>◌ : {A B : Type 0} → Action A → Action B → Action B
m >> k = m >>= λ _. k

abbrev pub raise_if : Bool → Error → Action (Unit {0})
raise_if c e db = (if c then err e else ok tt, db)
