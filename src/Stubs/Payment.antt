-- ===== src/Stubs/Payment.antt =====
-- backend/src/stubs/payment/payment-stub.service.ts: the payment provider's side of a refund.
pub mod Once
use hh_game_market_backend.Base.{
  ℕ, ◌+◌, Bool, Option, none, some, List, [], ◌∷◌, ◌++◌, ◌==◌, ltb, or_else, if◌then◌else◌, length,
  sum_where, true,
}
use hh_game_market_backend.Base.Keyed.{has}

-- A refund_id is the id of an item (`psp.client.ts`).
pub record PspRefund : Type 0 where
  pub refund_id : ℕ
  pub order_id : ℕ
  pub amount : ℕ
  pub currency : ℕ

-- A probability and a draw of `Math.random()` are numbers in the same unit.
pub record Psp : Type 0 where
  pub error_rate : ℕ
  pub refunds : List PspRefund

pub data RefundReply : Type 0 where
  internal_error : RefundReply
  paid_back : (refund_id : ℕ) → RefundReply

abbrev pub refund_id : PspRefund → ℕ
refund_id r = r.refund_id

unfoldable pub set_config : Option ℕ → Psp → Psp
set_config rate psp = record psp { error_rate = or_else rate psp.error_rate }

-- The number of refunds and what they come to.
unfoldable pub status : Psp → ℕ × ℕ
status psp = (length psp.refunds, sum_where (λ (r : PspRefund). true) (λ r. r.amount) psp.refunds)

-- `.orIgnore()`
abbrev pub or_ignore : PspRefund → List PspRefund → List PspRefund
or_ignore row rows = if has refund_id row.refund_id rows then rows else rows ++ row ∷ []

unfoldable pub refund : (draw : ℕ) → PspRefund → Psp → RefundReply × Psp
refund draw row psp =
    if ltb draw psp.error_rate
    then (RefundReply.internal_error, psp)
    else (RefundReply.paid_back row.refund_id, record psp { refunds = or_ignore row psp.refunds })
