-- ===== src/Model/Status.antt =====
-- The enumerations of backend/src/orders/order.entity.ts, order-item.entity.ts,
-- delivery/delivery-attempt.entity.ts, delivery/supplier-discrepancy.entity.ts,
-- payments/payment-event.entity.ts and ledger/ledger-entry.entity.ts, with their equality tests.
use hh_game_market_backend.Base.{Bool, true, false, ◌≡◌, ◌↔◌, arith, List, [], ◌∷◌}

pub data OrderStatus : Type 0 where
  created paid delivering delivered partially_delivered refunded payment_failed delivery_failed :
      OrderStatus

pub data ItemStatus : Type 0 where
  pending delivered refunding refunded : ItemStatus

pub data RefundReason : Type 0 where
  out_of_stock supplier_failed : RefundReason

pub data PaymentStatus : Type 0 where
  paid failed : PaymentStatus

pub data LedgerAccount : Type 0 where
  cash customer_liability revenue : LedgerAccount

pub data LedgerReason : Type 0 where
  payment delivery refund : LedgerReason

pub data AttemptOutcome : Type 0 where
  ok timeout error unreachable out_of_stock none_issued rejected : AttemptOutcome

pub data DiscrepancyKind : Type 0 where
  duplicate_code code_mismatch unbooked_code error_but_issued unused_issue unknown_request :
      DiscrepancyKind

abbrev pub order_status_eq : OrderStatus → OrderStatus → Bool
order_status_eq OrderStatus.created OrderStatus.created = true
order_status_eq OrderStatus.paid OrderStatus.paid = true
order_status_eq OrderStatus.delivering OrderStatus.delivering = true
order_status_eq OrderStatus.delivered OrderStatus.delivered = true
order_status_eq OrderStatus.partially_delivered OrderStatus.partially_delivered = true
order_status_eq OrderStatus.refunded OrderStatus.refunded = true
order_status_eq OrderStatus.payment_failed OrderStatus.payment_failed = true
order_status_eq OrderStatus.delivery_failed OrderStatus.delivery_failed = true
order_status_eq _ _ = false

abbrev pub item_status_eq : ItemStatus → ItemStatus → Bool
item_status_eq ItemStatus.pending ItemStatus.pending = true
item_status_eq ItemStatus.delivered ItemStatus.delivered = true
item_status_eq ItemStatus.refunding ItemStatus.refunding = true
item_status_eq ItemStatus.refunded ItemStatus.refunded = true
item_status_eq _ _ = false

abbrev pub account_eq : LedgerAccount → LedgerAccount → Bool
account_eq cash cash = true
account_eq customer_liability customer_liability = true
account_eq revenue revenue = true
account_eq _ _ = false

abbrev pub ledger_reason_eq : LedgerReason → LedgerReason → Bool
ledger_reason_eq payment payment = true
ledger_reason_eq delivery delivery = true
ledger_reason_eq refund refund = true
ledger_reason_eq _ _ = false

abbrev pub kind_eq : DiscrepancyKind → DiscrepancyKind → Bool
kind_eq duplicate_code duplicate_code = true
kind_eq code_mismatch code_mismatch = true
kind_eq unbooked_code unbooked_code = true
kind_eq error_but_issued error_but_issued = true
kind_eq unused_issue unused_issue = true
kind_eq unknown_request unknown_request = true
kind_eq _ _ = false

pub order_status_eq_iff : (s t : OrderStatus) → (order_status_eq s t ≡ true) ↔ (s ≡ t)
order_status_eq_iff s t = ground arith

pub item_status_eq_iff : (s t : ItemStatus) → (item_status_eq s t ≡ true) ↔ (s ≡ t)
item_status_eq_iff s t = ground arith

pub order_status_eq_refl : (s : OrderStatus) → order_status_eq s s ≡ true
order_status_eq_refl s = ground arith

pub item_status_eq_refl : (s : ItemStatus) → item_status_eq s s ≡ true
item_status_eq_refl s = ground arith

-- The statuses from which an order never moves again.
abbrev pub final_statuses : List OrderStatus
final_statuses =
    OrderStatus.delivered ∷ OrderStatus.partially_delivered ∷ OrderStatus.refunded
    ∷ OrderStatus.payment_failed ∷ []

-- `status NOT IN ('created', 'payment_failed')`
abbrev pub is_paid : OrderStatus → Bool
is_paid OrderStatus.created = false
is_paid OrderStatus.payment_failed = false
is_paid _ = true

-- `status IN ('pending', 'refunding')`
abbrev pub is_open : ItemStatus → Bool
is_open ItemStatus.pending = true
is_open ItemStatus.refunding = true
is_open _ = false

-- `status IN ('delivered', 'partially_delivered', 'refunded')`
abbrev pub is_end : OrderStatus → Bool
is_end OrderStatus.delivered = true
is_end OrderStatus.partially_delivered = true
is_end OrderStatus.refunded = true
is_end _ = false
