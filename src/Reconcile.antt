-- ===== src/Reconcile.antt =====
-- backend/src/admin/reconciliation.service.ts: the tables that must agree with each other, compared.
-- `book` is the table supplier_issues, which the report reads beside the tables of the services.
pub mod Money
pub mod Parts
pub mod Totals
pub mod Control
pub mod Window
use hh_game_market_backend.Base.{
  find, ℕ, ◌+◌, Bool, true, false, not, ◌&&◌, ◌||◌, Option, none, some, List, [], ◌∷◌, ◌++◌, map,
  ◌==◌, ltb, if◌then◌else◌, is_some, filter, find, any, count, length, take, reverse, sort_by,
  sum_where,
}
use hh_game_market_backend.Base.Keyed.{find_by}
use hh_game_market_backend.Base.Int.{ℤ, pos, ◌-ℤ◌, eq_ℤ, sum_ℤ}
use hh_game_market_backend.Model.{
  Result, OrderStatus, order_status_eq, is_paid, is_end, ItemStatus, item_status_eq, is_open,
  PaymentStatus, LedgerAccount, account_eq, cash, revenue, RequestId, request_eq, Order, OrderItem,
  PaymentEvent, WebhookOutcome, applied, order_not_found, amount_mismatch, ignored, Delivery,
  SupplierDiscrepancy, SupplierIssue, Db,
}
use hh_game_market_backend.Transition.Facts.{find_order}
use hh_game_market_backend.Ledger.{Report, balances, and_then}
use hh_game_market_backend.Books.{in_status, posted}

abbrev pub limit : ℕ
limit = 100

-- paidNotDelivered: the order, and how many of its items are open.
abbrev pub waits : Order → Bool
waits o =
    order_status_eq o.status OrderStatus.paid
    || order_status_eq o.status OrderStatus.delivering
    || order_status_eq o.status OrderStatus.delivery_failed

unfoldable pub paid_not_delivered : Db → List (Order × ℕ)
unfolding sort_by
paid_not_delivered db = take limit (
    map
      (λ (o : Order).
        (o, count (λ (i : OrderItem). i.order_id == o.id && is_open i.status) db.items))
      (sort_by (λ (o : Order). o.updated_at) (filter waits db.orders)))

-- deliveredNotPaid: `LEFT JOIN deliveries d ON d.order_item_id = i.id`
abbrev pub delivery_at : ℕ → Db → Option Delivery
delivery_at id db = find_by (λ (d : Delivery). d.order_item_id) id db.deliveries

abbrev is_applied : WebhookOutcome → Bool
is_applied applied = true
is_applied _ = false

abbrev pub is_paid_event : PaymentStatus → Bool
is_paid_event PaymentStatus.paid = true
is_paid_event _ = false

-- `text_of` is Postgres's text of an order id, in lower case; a payment event keeps the text it was sent.
module _ (text_of : ℕ → ℕ) where
  abbrev pub was_paid : ℕ → Db → Bool
  was_paid order_id db =
      any
        (λ (e : PaymentEvent).
          e.order_id == text_of order_id && is_paid_event e.status && is_applied e.outcome)
        db.payments

  abbrev pub unpaid_delivery : Db → OrderItem → Bool
  unpaid_delivery db i =
      item_status_eq i.status ItemStatus.delivered && not (is_some (delivery_at i.id db))
      || is_some (delivery_at i.id db) && not (was_paid i.order_id db)

  unfoldable pub delivered_not_paid : Db → List (OrderItem × Option Delivery)
  delivered_not_paid db =
      take limit
        (map (λ (i : OrderItem). (i, delivery_at i.id db)) (filter (unpaid_delivery db) db.items))

-- moneyMismatches: one row for an order that is paid for and has items.
pub record MoneyRow : Type 0 where
  pub id : ℕ
  pub status : OrderStatus
  pub paid : ℕ
  pub delivered : ℕ
  pub refunded : ℕ
  pub pending : ℕ
  pub ledger_cash : ℤ
  pub ledger_revenue : ℤ

abbrev pub money_row : Db → Order → MoneyRow
money_row db o = record {
  id = o.id;
  status = o.status;
  paid = o.amount;
  delivered = in_status o.id ItemStatus.delivered db.items;
  refunded = in_status o.id ItemStatus.refunded db.items;
  pending =
      sum_where (λ (i : OrderItem). i.order_id == o.id && is_open i.status) (λ i. i.amount)
        db.items;
  ledger_cash = posted o.id cash db.ledger;
  ledger_revenue = pos 0 -ℤ posted o.id revenue db.ledger;
}

abbrev pub is_mismatch : MoneyRow → Bool
is_mismatch t =
    not (t.paid == t.delivered + t.refunded + t.pending)
    || not (eq_ℤ t.ledger_cash (pos t.paid -ℤ pos t.refunded))
    || not (eq_ℤ t.ledger_revenue (pos t.delivered))
    || is_end t.status && ltb 0 t.pending

abbrev pub has_row : Db → Order → Bool
has_row db o = is_paid o.status && any (λ (i : OrderItem). i.order_id == o.id) db.items

unfoldable pub money_mismatches : Db → List MoneyRow
money_mismatches db =
    take limit (filter is_mismatch (map (money_row db) (filter (has_row db) db.orders)))

-- unmatchedEvents and paidAfterFailure, the last that came in first.
abbrev pub unmatched : WebhookOutcome → Bool
unmatched order_not_found = true
unmatched amount_mismatch = true
unmatched _ = false

unfoldable pub unmatched_events : Db → List PaymentEvent
unmatched_events db =
    take limit (reverse (filter (λ (e : PaymentEvent). unmatched e.outcome) db.payments))

abbrev pub ignored_failure : WebhookOutcome → Bool
ignored_failure (ignored OrderStatus.payment_failed) = true
ignored_failure _ = false

unfoldable pub paid_after_failure : Db → List PaymentEvent
paid_after_failure db = take limit (
    reverse (
      filter (λ (e : PaymentEvent). is_paid_event e.status && ignored_failure e.outcome)
        db.payments))

-- `JOIN deliveries d ON d.request_id = k.request_id`
abbrev pub delivery_under : RequestId → Db → Option Delivery
delivery_under r db = find (λ (d : Delivery). request_eq d.request_id r) db.deliveries

abbrev pub undelivered : Db → SupplierIssue → Bool
undelivered db k =
    not (is_some (delivery_under k.request_id db))
    && not (
        any
          (λ (x : SupplierDiscrepancy).
            x.supplier == k.supplier && request_eq x.request_id k.request_id)
          db.discrepancies)

-- supplierIssuesWithoutDelivery, with the status of the order, if it is one of ours: the supplier
-- keeps the text of its id.
module _ (text_of : ℕ → ℕ) where
  abbrev status_of : ℕ → Db → Option OrderStatus
  status_of text db = elim (find (λ (o : Order). text_of o.id == text) db.orders) [
    | none ↦ none
    | some o ↦ some o.status
  ]

  unfoldable pub supplier_issues_without_delivery :
      List SupplierIssue → Db → List (SupplierIssue × Option OrderStatus)
  unfolding sort_by
  supplier_issues_without_delivery book db = take limit (
      map (λ (k : SupplierIssue). (k, status_of k.order_id db))
        (sort_by (λ (k : SupplierIssue). k.issued_at) (filter (undelivered db) book)))

-- supplierCodeMismatches
abbrev pub holds_other : Db → SupplierIssue → Bool
holds_other db k = elim (delivery_under k.request_id db) [
  | none ↦ false
  | some d ↦ not (d.code == k.code)
]

unfoldable pub supplier_code_mismatches : List SupplierIssue → Db → List SupplierIssue
supplier_code_mismatches book db = take limit (filter (holds_other db) book)

unfoldable pub supplier_discrepancies : Db → List SupplierDiscrepancy
supplier_discrepancies db = take limit (reverse db.discrepancies)

-- `list.length === 0`
abbrev pub is_empty {ℓ} : {A : Type ℓ} → List A → Bool
is_empty [] = true
is_empty (_ ∷ _) = false

pub record Counts : Type 0 where
  pub paid_not_delivered : ℕ
  pub delivered_not_paid : ℕ
  pub money_mismatches : ℕ
  pub unmatched_events : ℕ
  pub paid_after_failure : ℕ
  pub supplier_issues_without_delivery : ℕ
  pub supplier_code_mismatches : ℕ
  pub supplier_discrepancies : ℕ

pub record Reconciliation : Type 0 where
  pub healthy : Bool
  pub counts : Counts
  pub ledger : Report

module _ (text_of : ℕ → ℕ) where
  unfoldable pub report_of : List SupplierIssue → Db → Report → Reconciliation
  unfolding paid_not_delivered delivered_not_paid money_mismatches unmatched_events
      paid_after_failure supplier_issues_without_delivery supplier_code_mismatches
      supplier_discrepancies
  report_of book db ledger = record {
    healthy =
        is_empty (delivered_not_paid text_of db)
        && is_empty (money_mismatches db)
        && is_empty (supplier_code_mismatches book db)
        && ledger.balanced;
    counts = record {
      paid_not_delivered = length (paid_not_delivered db);
      delivered_not_paid = length (delivered_not_paid text_of db);
      money_mismatches = length (money_mismatches db);
      unmatched_events = length (unmatched_events db);
      paid_after_failure = length (paid_after_failure db);
      supplier_issues_without_delivery = length (supplier_issues_without_delivery text_of book db);
      supplier_code_mismatches = length (supplier_code_mismatches book db);
      supplier_discrepancies = length (supplier_discrepancies db);
    };
    ledger = ledger;
  }

  -- The lists and the control total are read side by side; where the latter raises, so does the report.
  unfoldable pub report : List SupplierIssue → Db → Result Reconciliation
  unfolding balances report_of
  report book db = and_then (balances db) (λ ledger. Result.ok (report_of book db ledger))
