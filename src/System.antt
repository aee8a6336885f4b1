-- ===== src/System.antt =====
-- The whole backend as a step relation on its database: one step for each transaction or lone
-- statement of the services, whichever instance runs it and in whichever order. Where a service moves
-- an order or an item outside a transaction, the UPDATE and the INSERT of its event are two steps, and
-- there is a step of both for when nothing else commits in between.
pub mod Books
pub mod Change
pub mod Writes
pub mod Changes
pub mod Histories
pub mod Lives
pub mod Stable
pub mod Settled
pub mod Ended
pub mod Told
pub mod Entries
pub mod Accounted
pub mod Runs
use hh_game_market_backend.Base.{ℕ, ◌+◌, ◌≡◌, Bool, true, false, ◌&&◌, Option, List, [], any, ◌==◌}
use hh_game_market_backend.Model.{
  OrderStatus, ItemStatus, is_end, is_open, RefundReason, AttemptOutcome, RequestId, Order,
  OrderItem, OrderExtra, OrderDetail, ItemExtra, ItemDetail, EventData, SupplierDiscrepancy, Db,
}
use hh_game_market_backend.Transition.{
  transition_order, transition_item, update_order, update_item, insert_event,
}
use hh_game_market_backend.Orders.{CreateOrderDto, create, retry_delivery}
use hh_game_market_backend.Payments.{PaymentWebhookDto, handle}
use hh_game_market_backend.Catalog.{set_stock}
use hh_game_market_backend.Queue
use hh_game_market_backend.Queue.{claim}
use hh_game_market_backend.Delivery.Limiter.{try_acquire}
use hh_game_market_backend.Delivery.Journal.{record_attempt, insert_discrepancy}
use hh_game_market_backend.Delivery.Accept.{complete}
use hh_game_market_backend.Delivery.Pass.{book_refund, Verdict, park, final, status_for, extra_for}
use hh_game_market_backend.Books.Moves.{IsPaidItem}

-- Does an item of the order wait for its delivery or its refund?
abbrev pub has_open : ℕ → List OrderItem → Bool
has_open id items = any (λ i. i.order_id == id && is_open i.status) items

-- A verdict leads back to the queue, to the parking place, or, with no item open, to an end.
abbrev pub IsVerdict : Db → ℕ → Verdict → Type 0
IsVerdict db id (Verdict.requeue _) = Unit
IsVerdict db id park = Unit
IsVerdict db id (final s) = (is_end s ≡ true) × (has_open id db.items ≡ false)

-- What the recovery sweep may take orders from.
pub data Recoverable : OrderStatus → Type 0 where
  stale : Recoverable OrderStatus.delivering
  parked : Recoverable OrderStatus.delivery_failed

-- The events that are inserted by a statement of their own, after the UPDATE they tell of.
pub data Late : EventData → Type 0 where
  retried : Late (
      EventData.order_status OrderStatus.delivery_failed OrderStatus.paid OrderExtra.nothing
        OrderDetail.operator)
  concluded :
      (v : Verdict)
      → Late (
          EventData.order_status OrderStatus.delivering
            (status_for v)
            (extra_for v)
            OrderDetail.nothing)
  given_up :
      (reason : RefundReason) (amount : ℕ)
      → Late (
          EventData.item_status ItemStatus.pending ItemStatus.refunding
            (ItemExtra.refund_reason reason)
            (ItemDetail.amount amount))

pub data Step : Db → Db → Type 0 where
  -- time passes at the server
  tick : (n : ℕ) (db : Db) → Step db (record db { now = db.now + n })
  -- POST /orders
  creates : (draw : ℕ → ℕ) (dto : CreateOrderDto) (db : Db) → Step db (create draw dto db).1
  -- the payment webhook
  pays :
      (uuid_of : ℕ → Option ℕ) (app_now : ℕ) (dto : PaymentWebhookDto) (db : Db)
      → Step db (handle uuid_of app_now dto db).1
  -- POST /orders/:id/deliver
  retries :
      (uuid_of : ℕ → Option ℕ) (text : ℕ) (db : Db) → Step db (retry_delivery uuid_of text db).1
  -- a lane of the worker takes an order
  claims : (locked : Order → Bool) (db : Db) → Step db (claim locked db).1
  -- the recovery sweep
  recovers :
      (from : OrderStatus)
      → Recoverable from
      → (before : ℕ) (db : Db) → Step db (Queue.requeue from before db).1
  -- the limiter
  acquires :
      (limit : ℕ → ℕ) (window supplier cost : ℕ) (db : Db)
      → Step db (try_acquire limit window supplier cost db).1
  -- the journal of a pass
  attempts :
      (item : OrderItem) (supplier : ℕ) (request : RequestId) (n : ℕ) (o : AttemptOutcome) (db : Db)
      → Step db (record_attempt item supplier request n o db).1
  finds : (row : SupplierDiscrepancy) (db : Db) → Step db (insert_discrepancy row db).1
  -- an item of a paid order is delivered, given up, refunded
  completes :
      (item : OrderItem) (supplier : ℕ) (request : RequestId) (code : ℕ) (db : Db)
      → IsPaidItem db.orders db.items item
      → Step db (complete item supplier request code db).1
  gives_up :
      (item : OrderItem) (reason : RefundReason) (db : Db)
      → IsPaidItem db.orders db.items item
      → Step db
          (transition_item item.id ItemStatus.pending ItemStatus.refunding
            (ItemExtra.refund_reason reason)
            (ItemDetail.amount item.amount)
            db).1
  refunds :
      (order : Order) (item : OrderItem) (db : Db)
      → IsPaidItem db.orders db.items item
      → Step db (book_refund order item db).1
  -- the end of a pass
  concludes :
      (id : ℕ) (v : Verdict) (db : Db)
      → IsVerdict db id v
      → Step db
          (transition_order id OrderStatus.delivering
            (status_for v)
            (extra_for v)
            OrderDetail.nothing
            db).1
  -- the UPDATE of a retry, of a decision to refund, of the end of a pass
  retries_row :
      (id : ℕ) (db : Db)
      → Step db
          (update_order id OrderStatus.delivery_failed OrderStatus.paid OrderExtra.nothing db).1
  gives_up_row :
      (item : OrderItem) (reason : RefundReason) (db : Db)
      → IsPaidItem db.orders db.items item
      → Step db
          (update_item item.id ItemStatus.pending ItemStatus.refunding
            (ItemExtra.refund_reason reason)
            db).1
  concludes_row :
      (id : ℕ) (v : Verdict) (db : Db)
      → IsVerdict db id v
      → Step db (update_order id OrderStatus.delivering (status_for v) (extra_for v) db).1
  -- the INSERT that follows one of these, sooner or later
  notes :
      (order_id : ℕ) (item_id : Option ℕ) {payload : EventData}
      → Late payload
      → (db : Db) → Step db (insert_event order_id item_id payload db).1
  -- PUT /admin/stock/:sku
  restocks : (sku available : ℕ) (db : Db) → Step db (set_stock sku available db).1

-- A run of the backend.
pub data Reach (db : Db) : Db → Type 0 where
  here : Reach db db
  next : {a b : Db} → Reach db a → Step a b → Reach db b

-- Does the step write the move of a row and its event, if any, together?
unfoldable pub is_whole : {a b : Db} → Step a b → Bool
is_whole (retries_row id db) = false
is_whole (gives_up_row item reason db p) = false
is_whole (concludes_row id v db p) = false
is_whole (notes order_id item_id late db) = false
is_whole _ = true

-- A run in which nothing commits between the two statements of a move.
unfoldable pub IsWhole : {a b : Db} → Reach a b → Type 0
unfolding is_whole
IsWhole here = Unit
IsWhole (next r s) = IsWhole r × (is_whole s ≡ true)

-- Before the first order; the catalogue, its stock and the clock are as they may be.
pub record IsFresh (db : Db) : Type 0 where
  pub orders : db.orders ≡ []
  pub items : db.items ≡ []
  pub events : db.events ≡ []
  pub ledger : db.ledger ≡ []
  pub payments : db.payments ≡ []
  pub deliveries : db.deliveries ≡ []
  pub refunds : db.refunds ≡ []
