-- ===== src/History/Span/Pairs.antt =====
-- Every event of a payment, a delivery or a refund has its pair of postings, and the journal has no
-- others.
use hh_game_market_backend.Base.{◌≡◌, true, false, List, [], ◌∷◌, ◌++◌}
use hh_game_market_backend.Base.Int.{pos, neg}
use hh_game_market_backend.Model.{
  LedgerAccount, cash, customer_liability, revenue, LedgerReason, payment, delivery, refund,
  OrderEvent, LedgerEntry,
}
use hh_game_market_backend.History.Span.{concerns, event_amount}

-- The account that a fact debits, and the one that it credits.
abbrev pub debit : LedgerReason → LedgerAccount
debit payment = cash
debit delivery = customer_liability
debit refund = customer_liability

abbrev pub credit : LedgerReason → LedgerAccount
credit payment = customer_liability
credit delivery = revenue
credit refund = cash

-- The two postings of an event.
pub record IsPair (r : LedgerReason) (e : OrderEvent) (x y : LedgerEntry) : Type 0 where
  pub concerns_it : concerns r e.payload ≡ true
  pub debits : x.account ≡ debit r
  pub credits : y.account ≡ credit r
  pub debited : x.amount ≡ pos (event_amount e.payload)
  pub credited : y.amount ≡ neg (event_amount e.payload)
  pub reason_x : x.reason ≡ r
  pub reason_y : y.reason ≡ r
  pub at_x : x.created_at ≡ e.at
  pub at_y : y.created_at ≡ e.at

abbrev pub IsIdle : OrderEvent → Type 0
IsIdle e = (r : LedgerReason) → concerns r e.payload ≡ false

-- The journal and the history, as they grew together.
pub data Matched : List LedgerEntry → List OrderEvent → Type 0 where
  none : Matched [] []
  idle :
      {rows : List LedgerEntry} {events : List OrderEvent}
      → Matched rows events
      → (e : OrderEvent) → IsIdle e
      → Matched rows (events ++ e ∷ [])
  entered :
      {rows : List LedgerEntry} {events : List OrderEvent}
      → Matched rows events
      → (r : LedgerReason) (e : OrderEvent) (x y : LedgerEntry) → IsPair r e x y
      → Matched ((rows ++ x ∷ []) ++ y ∷ []) (events ++ e ∷ [])
