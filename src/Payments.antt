-- ===== src/Payments.antt =====
-- backend/src/payments/payments.service.ts: the payment provider's webhook, one transaction.
-- `uuid_of` is the uuid that the text of an order id denotes, if class-validator's test says it is one:
-- Postgres compares uuids, whatever the case of the letters that were sent.
pub mod Cases
pub mod Again
use hh_game_market_backend.Base.{
  ℕ, Bool, true, false, not, ◌&&◌, ◌||◌, Option, none, some, [], ◌∷◌, ◌++◌, ◌==◌, ltb,
  if◌then◌else◌,
}
use hh_game_market_backend.Base.Keyed.{has, update_where}
use hh_game_market_backend.Base.Int.{int_max}
use hh_game_market_backend.Model.{
  OrderStatus, order_status_eq, PaymentStatus, paid, failed, Order, OrderExtra, OrderDetail,
  PaymentEvent, WebhookOutcome, received, applied, duplicate, order_not_found, amount_mismatch,
  ignored, Db, Result, out_of_range, Action, pure, gets, transaction, ◌>>=◌, ◌>>◌,
}
use hh_game_market_backend.Transition.{transition_order}
use hh_game_market_backend.Transition.Facts.{find_order}
use hh_game_market_backend.Ledger.{record_payment}

-- backend/src/payments/dto/payment-webhook.dto.ts
pub record PaymentWebhookDto : Type 0 where
  pub event_id : ℕ
  pub order_id : ℕ
  pub status : PaymentStatus
  pub amount : ℕ
  pub currency : ℕ
  pub created_at : ℕ

abbrev pub event_key : PaymentEvent → ℕ
event_key e = e.event_id

abbrev pub row_of : PaymentWebhookDto → PaymentEvent
row_of dto = record {
  event_id = dto.event_id;
  order_id = dto.order_id;
  status = dto.status;
  amount = dto.amount;
  currency = dto.currency;
  created_at = dto.created_at;
  outcome = received;
}

-- Step 1: the insert that a redelivered event_id turns into a no-op. Says whether a row went in. The
-- amount is read into its column, an `int`, before the key is looked at.
unfoldable pub insert_payment : PaymentWebhookDto → Action Bool
insert_payment dto db =
    if ltb int_max dto.amount
    then (Result.err out_of_range, db)
    else if has event_key dto.event_id db.payments
    then (Result.ok false, db)
    else (Result.ok true, record db { payments = db.payments ++ row_of dto ∷ [] })

-- `em.update(PaymentEvent, { eventId }, { outcome })`
unfoldable pub set_outcome : ℕ → WebhookOutcome → Action Unit
set_outcome event_id outcome db = (
  Result.ok tt,
  record db {
    payments =
        update_where (λ e. e.event_id == event_id && true) (λ e. record e { outcome = outcome })
          db.payments;
  },
)

unfoldable pub apply_failed : Order → Action WebhookOutcome
apply_failed order = do
  transition_order order.id OrderStatus.created OrderStatus.payment_failed OrderExtra.nothing
      OrderDetail.nothing
  pure applied

-- `paidAt: new Date()` is the application's clock.
unfoldable pub apply_paid : (app_now : ℕ) → Order → PaymentWebhookDto → Action WebhookOutcome
apply_paid app_now order dto = do
  transition_order order.id OrderStatus.created OrderStatus.paid (OrderExtra.paid_at app_now)
      (OrderDetail.payment dto.event_id dto.amount dto.currency)
  record_payment order dto.event_id
  pure applied

unfoldable pub by_status : PaymentStatus → ℕ → Order → PaymentWebhookDto → Action WebhookOutcome
by_status failed app_now order dto = apply_failed order
by_status paid app_now order dto =
    if not (dto.amount == order.amount) || not (dto.currency == order.currency)
    then pure amount_mismatch
    else apply_paid app_now order dto

unfoldable pub apply : ℕ → Option Order → PaymentWebhookDto → Action WebhookOutcome
apply app_now none dto = pure order_not_found
apply app_now (some order) dto =
    if order_status_eq order.status OrderStatus.created
    then by_status dto.status app_now order dto
    else pure (ignored order.status)

module _ (uuid_of : ℕ → Option ℕ) where
  abbrev pub locked_order : ℕ → Db → Option Order
  locked_order text db = elim (uuid_of text) [ none ↦ none | some id ↦ find_order id db ]

  -- The steps after the insert.
  unfoldable pub process : ℕ → PaymentWebhookDto → Bool → Action WebhookOutcome
  process app_now dto false = pure duplicate
  process app_now dto true = do
    order ← gets (locked_order dto.order_id)
    outcome ← apply app_now order dto
    set_outcome dto.event_id outcome
    pure outcome

  unfoldable pub handle : ℕ → PaymentWebhookDto → Action WebhookOutcome
  handle app_now dto = transaction (do inserted ← insert_payment dto; process app_now dto inserted)

-- Whether the handler wakes the delivery worker.
unfoldable pub wakes : WebhookOutcome → PaymentStatus → Bool
wakes applied paid = true
wakes _ _ = false
