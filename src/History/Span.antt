-- ===== src/History/Span.antt =====
-- The money part of backend/src/history/history.service.ts: `moneyBefore`, `moneyAt`, `moneyBetween`.
pub mod Pairs
pub mod Sums
pub mod Balanced
use hh_game_market_backend.Base.{
  ℕ, ◌+◌, Bool, true, false, ◌&&◌, Option, none, some, List, [], ◌∷◌, ◌==◌, ltb, leb, count, filter,
  sum_where,
}
use hh_game_market_backend.Base.Int.{ℤ, pos, ◌+ℤ◌, ◌-ℤ◌, eq_ℤ}
use hh_game_market_backend.Model.{
  OrderStatus, ItemStatus, LedgerAccount, cash, revenue, account_eq, LedgerReason, payment,
  delivery, refund, ledger_reason_eq, Result, OrderDetail, ItemDetail, EventData, OrderEvent,
  LedgerEntry, Db,
}
use hh_game_market_backend.Ledger.{Balances, cast_row, and_then, balances_of, total, on_account}

-- `WHERE created_at < $1`
abbrev pub entries_before : ℕ → Db → List LedgerEntry
entries_before before db = filter (λ (e : LedgerEntry). ltb e.created_at before) db.ledger

unfoldable pub money_before : ℕ → Db → Result Balances
unfolding balances_of
money_before before db = balances_of (entries_before before db)

-- Callers name a millisecond; all of it counts.
unfoldable pub money_at : ℕ → Db → Result Balances
unfolding money_before
money_at at db = money_before (at + 1) db

-- `created_at >= $1 AND created_at < $2`, for both tables.
abbrev pub within : ℕ → ℕ → ℕ → Bool
within from to t = leb from t && ltb t to

-- The postings by which the first query knows a payment, a delivery, a refund.
abbrev pub marks : LedgerReason → LedgerEntry → Bool
marks payment e = account_eq e.account cash && ledger_reason_eq e.reason payment
marks delivery e = account_eq e.account revenue
marks refund e = account_eq e.account cash && ledger_reason_eq e.reason refund

-- The events by which the second query knows them.
abbrev pub concerns : LedgerReason → EventData → Bool
concerns payment (EventData.order_status OrderStatus.created OrderStatus.paid _ _) = true
concerns delivery (EventData.item_status _ ItemStatus.delivered _ _) = true
concerns refund (EventData.item_status _ ItemStatus.refunded _ _) = true
concerns _ _ = false

-- `data->>'amount'`; a sum leaves out what is not there.
abbrev order_amount : OrderDetail → ℕ
order_amount (OrderDetail.payment _ amount _) = amount
order_amount _ = 0

abbrev pub item_amount : ItemDetail → ℕ
item_amount (ItemDetail.amount a) = a
item_amount (ItemDetail.issued _ _ _ a) = a
item_amount (ItemDetail.refund a _) = a

abbrev pub event_amount : EventData → ℕ
event_amount (EventData.order_created a _ _) = a
event_amount (EventData.order_status _ _ _ d) = order_amount d
event_amount (EventData.item_status _ _ _ d) = item_amount d

pub record Moved : Type 0 where
  pub paid : ℤ
  pub delivered : ℤ
  pub refunded : ℤ
  pub payments : ℕ
  pub deliveries : ℕ
  pub refunds : ℕ

abbrev pub marked : LedgerReason → (ℕ → Bool) → LedgerEntry → Bool
marked r p e = p e.created_at && marks r e

abbrev pub concerned : LedgerReason → (ℕ → Bool) → OrderEvent → Bool
concerned r p e = p e.at && concerns r e.payload

abbrev pub moved_columns : Moved → List ℤ
moved_columns m =
    m.paid ∷ m.delivered ∷ m.refunded ∷ pos m.payments ∷ pos m.deliveries ∷ pos m.refunds ∷ []

-- The sums over the postings of a time.
unfoldable pub moved_sums : (ℕ → Bool) → List LedgerEntry → Moved
moved_sums p rows = record {
  paid = total (marked payment p) rows;
  delivered = pos 0 -ℤ total (marked delivery p) rows;
  refunded = pos 0 -ℤ total (marked refund p) rows;
  payments = count (marked payment p) rows;
  deliveries = count (marked delivery p) rows;
  refunds = count (marked refund p) rows;
}

-- What the postings of a time say: every column is cast.
unfoldable pub moved_in : (ℕ → Bool) → List LedgerEntry → Result Moved
unfolding moved_sums
moved_in p rows = let row = moved_sums p rows in cast_row (moved_columns row) row

abbrev pub event_sum : LedgerReason → (ℕ → Bool) → List OrderEvent → ℕ
event_sum r p = sum_where (concerned r p) (λ e. event_amount e.payload)

-- The sums over the events of a time.
unfoldable pub told_sums : (ℕ → Bool) → List OrderEvent → Moved
told_sums p events = record {
  paid = pos (event_sum payment p events);
  delivered = pos (event_sum delivery p events);
  refunded = pos (event_sum refund p events);
  payments = count (concerned payment p) events;
  deliveries = count (concerned delivery p) events;
  refunds = count (concerned refund p) events;
}

-- What the events of a time say. An amount that is no `int` raises, as it does in the sum.
unfoldable pub told_in : (ℕ → Bool) → List OrderEvent → Result Moved
unfolding told_sums
told_in p events = let row = told_sums p events in cast_row (moved_columns row) row

pub record MoneyBetween : Type 0 where
  pub opening : Balances
  pub moved : Moved
  pub closing : Balances
  pub events : Moved
  pub balanced : Bool
  pub events_agree : Bool

-- Are the closing balances the opening ones and what moved?
abbrev pub is_balanced : Balances → Moved → Balances → Bool
is_balanced opening moved closing =
    eq_ℤ closing.cash ((opening.cash +ℤ moved.paid) -ℤ moved.refunded)
    && eq_ℤ closing.customer_liability
        (((opening.customer_liability +ℤ moved.paid) -ℤ moved.delivered) -ℤ moved.refunded)
    && eq_ℤ closing.revenue (opening.revenue +ℤ moved.delivered)

abbrev pub agrees : Moved → Moved → Bool
agrees events moved =
    events.payments == moved.payments
    && eq_ℤ events.paid moved.paid
    && events.deliveries == moved.deliveries
    && eq_ℤ events.delivered moved.delivered
    && events.refunds == moved.refunds
    && eq_ℤ events.refunded moved.refunded

unfoldable pub span_of :
    (opening : Balances) (moved events : Moved) (closing : Balances) → MoneyBetween
span_of opening moved events closing = record {
  opening = opening;
  moved = moved;
  closing = closing;
  events = events;
  balanced = is_balanced opening moved closing;
  events_agree = agrees events moved;
}

unfoldable pub money_between : ℕ → ℕ → Db → Result MoneyBetween
unfolding money_before moved_in told_in span_of
money_between from to db = and_then (moved_in (within from to) db.ledger) (λ moved.
    and_then (told_in (within from to) db.events) (λ events.
      and_then (money_before from db) (λ opening.
        and_then (money_before to db)
          (λ closing. Result.ok (span_of opening moved events closing)))))
