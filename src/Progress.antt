-- ===== src/Progress.antt =====
-- backend/src/admin/progress.service.ts: where every order is, and what is used of each supplier's limit.
pub mod Stages
use hh_game_market_backend.Base.{
  ℕ, Bool, true, false, ◌&&◌, Option, none, some, List, map, ltb, count,
}
use hh_game_market_backend.Model.{
  OrderStatus, order_status_eq, ItemStatus, item_status_eq, is_open, Order, OrderItem, Db,
}
use hh_game_market_backend.Ledger.{order_paid}
use hh_game_market_backend.Delivery.Limiter.{Usage, usage}
use hh_game_market_backend.Queue.{is_due}

-- `not_before > now()`, which is not true of NULL.
abbrev pub is_ahead : ℕ → Option ℕ → Bool
is_ahead now none = false
is_ahead now (some t) = ltb now t

abbrev pub in_stage : OrderStatus → Order → Bool
in_stage s o = order_status_eq o.status s

pub record OrderStages : Type 0 where
  pub awaiting_payment : ℕ
  pub queued : ℕ
  pub waiting_for_slot : ℕ
  pub delivering : ℕ
  pub parked : ℕ
  pub delivered : ℕ
  pub partially_delivered : ℕ
  pub refunded : ℕ
  pub payment_failed : ℕ

unfoldable pub stages : ℕ → List Order → OrderStages
stages now orders = record {
  awaiting_payment = count (in_stage OrderStatus.created) orders;
  queued = count (λ o. in_stage OrderStatus.paid o && is_due now o.not_before) orders;
  waiting_for_slot = count (λ o. in_stage OrderStatus.paid o && is_ahead now o.not_before) orders;
  delivering = count (in_stage OrderStatus.delivering) orders;
  parked = count (in_stage OrderStatus.delivery_failed) orders;
  delivered = count (in_stage OrderStatus.delivered) orders;
  partially_delivered = count (in_stage OrderStatus.partially_delivered) orders;
  refunded = count (in_stage OrderStatus.refunded) orders;
  payment_failed = count (in_stage OrderStatus.payment_failed) orders;
}

pub record ItemStages : Type 0 where
  pub open_items : ℕ
  pub delivered : ℕ
  pub refunded : ℕ

-- The items of orders that are paid for, by status.
abbrev pub paid_items : (ItemStatus → Bool) → Db → ℕ
paid_items p db = count (λ (i : OrderItem). order_paid i.order_id db && p i.status) db.items

unfoldable pub item_stages : Db → ItemStages
item_stages db = record {
  open_items = paid_items is_open db;
  delivered = paid_items (λ s. item_status_eq s ItemStatus.delivered) db;
  refunded = paid_items (λ s. item_status_eq s ItemStatus.refunded) db;
}

pub record Snapshot : Type 0 where
  pub orders : OrderStages
  pub items : ItemStages
  pub suppliers : List (ℕ × Usage)

unfoldable pub snapshot : (rate_limit : ℕ → ℕ) (window_ms app_now : ℕ) → List ℕ → Db → Snapshot
unfolding stages item_stages usage
snapshot rate_limit window_ms app_now suppliers db = record {
  orders = stages db.now db.orders;
  items = item_stages db;
  suppliers = map (λ s. (s, usage rate_limit window_ms s app_now db)) suppliers;
}
