-- ===== src/Model/Rows.antt =====
-- A record for each table: the entities under backend/src.
use hh_game_market_backend.Base.{ℕ, Bool, Option, List}
use hh_game_market_backend.Base.Int.{ℤ}
use hh_game_market_backend.Model.Status.{
  OrderStatus, ItemStatus, RefundReason, PaymentStatus, LedgerAccount, LedgerReason, AttemptOutcome,
  DiscrepancyKind,
}
use hh_game_market_backend.Model.Text.{RequestId}

pub record Product : Type 0 where
  pub sku : ℕ
  pub kind : ℕ
  pub price : ℕ
  pub currency : ℕ
  pub supplier : ℕ
  pub active : Bool

pub record ProductStock : Type 0 where
  pub sku : ℕ
  pub available : ℕ

pub record Order : Type 0 where
  pub id : ℕ
  pub amount : ℕ
  pub currency : ℕ
  pub status : OrderStatus
  pub paid_at : Option ℕ
  pub not_before : Option ℕ
  pub updated_at : ℕ

pub record OrderItem : Type 0 where
  pub id : ℕ
  pub order_id : ℕ
  pub position : ℕ
  pub sku : ℕ
  pub amount : ℕ
  pub currency : ℕ
  pub status : ItemStatus
  pub refund_reason : Option RefundReason

pub record LedgerEntry : Type 0 where
  pub order_id : ℕ
  pub account : LedgerAccount
  pub amount : ℤ
  pub currency : ℕ
  pub reason : LedgerReason
  pub reference : ℕ
  pub created_at : ℕ

-- `ignored` is `ignored_${OrderStatus}`; `received` is the placeholder of the insert.
pub data WebhookOutcome : Type 0 where
  received applied duplicate order_not_found amount_mismatch : WebhookOutcome
  ignored : OrderStatus → WebhookOutcome

pub record PaymentEvent : Type 0 where
  pub event_id : ℕ
  pub order_id : ℕ
  pub status : PaymentStatus
  pub amount : ℕ
  pub currency : ℕ
  pub created_at : ℕ
  pub outcome : WebhookOutcome

pub record Delivery : Type 0 where
  pub order_id : ℕ
  pub order_item_id : ℕ
  pub request_id : RequestId
  pub supplier : ℕ
  pub code : ℕ

pub record Refund : Type 0 where
  pub order_item_id : ℕ
  pub order_id : ℕ
  pub amount : ℕ
  pub currency : ℕ
  pub reason : RefundReason

pub record DeliveryAttempt : Type 0 where
  pub order_id : ℕ
  pub order_item_id : ℕ
  pub supplier : ℕ
  pub request_id : RequestId
  pub attempt : ℕ
  pub outcome : AttemptOutcome

pub record SupplierDiscrepancy : Type 0 where
  pub supplier : ℕ
  pub request_id : RequestId
  pub order_item_id : Option ℕ
  pub kind : DiscrepancyKind
  pub supplier_code : Option ℕ
  pub our_code : Option ℕ

pub record SupplierCall : Type 0 where
  pub supplier : ℕ
  pub at : ℕ

pub record CreatedItem : Type 0 where
  pub id : ℕ
  pub position : ℕ
  pub sku : ℕ
  pub amount : ℕ

-- The columns that change together with an order's status.
pub data OrderExtra : Type 0 where
  nothing : OrderExtra
  paid_at not_before : ℕ → OrderExtra

-- What goes into an order's event only.
pub data OrderDetail : Type 0 where
  nothing operator recovery : OrderDetail
  payment : (event_id amount currency : ℕ) → OrderDetail

-- The columns that change together with an item's status.
pub data ItemExtra : Type 0 where
  nothing : ItemExtra
  refund_reason : RefundReason → ItemExtra

-- What goes into an item's event only.
pub data ItemDetail : Type 0 where
  amount : ℕ → ItemDetail
  issued : (code supplier : ℕ) → RequestId → (amount : ℕ) → ItemDetail
  refund : (amount : ℕ) → Option RefundReason → ItemDetail

-- The `type` of an event and its `data`, which that type determines.
pub data EventData : Type 0 where
  order_created : (amount currency : ℕ) → List CreatedItem → EventData
  order_status : (from to : OrderStatus) → OrderExtra → OrderDetail → EventData
  item_status : (from to : ItemStatus) → ItemExtra → ItemDetail → EventData

pub record OrderEvent : Type 0 where
  pub order_id : ℕ
  pub order_item_id : Option ℕ
  pub payload : EventData
  pub at : ℕ

-- The supplier's side keeps its tables to itself; they are no part of the database of the services.
pub record SupplierIssue : Type 0 where
  pub request_id : RequestId
  pub supplier : ℕ
  pub code : ℕ
  pub order_id : ℕ
  pub sku : ℕ
  pub issued_at : ℕ
