-- ===== src/Ledger.antt =====
-- backend/src/ledger/ledger.service.ts: the double-entry journal. A row's unique key is (reason,
-- reference, account), as ledger-entry.entity.ts declares.
use hh_game_market_backend.Base.{
  ℕ, Bool, true, false, ◌&&◌, none, some, List, [], ◌∷◌, ◌++◌, map, ◌==◌, if◌then◌else◌, any,
  sum_where,
}
use hh_game_market_backend.Base.Int.{ℤ, pos, neg, ◌-ℤ◌, eq_ℤ, sum_ℤ, all_fit}
use hh_game_market_backend.Model.{
  LedgerAccount, cash, customer_liability, revenue, LedgerReason, payment, delivery, refund,
  account_eq, ledger_reason_eq, ItemStatus, item_status_eq, is_paid, is_open, Order, OrderItem,
  LedgerEntry, Db, Result, unique_violation, ledger_fact, out_of_range, Action,
}
use hh_game_market_backend.Transition.Facts.{find_order}

-- Do two rows collide in the unique constraint?
abbrev pub same_fact : LedgerEntry → LedgerEntry → Bool
same_fact a b =
    ledger_reason_eq a.reason b.reason
    && a.reference == b.reference
    && account_eq a.account b.account

-- One INSERT of several rows; it is checked against each row before.
unfoldable pub insert_entries : List LedgerEntry → Action Unit
insert_entries [] db = (Result.ok tt, db)
insert_entries (e ∷ es) db =
    let rest = insert_entries es (record db { ledger = db.ledger ++ e ∷ [] }) in
    if any (same_fact e) db.ledger then (Result.err (unique_violation ledger_fact), db) else rest

pub post : ℕ → ℕ → LedgerReason → ℕ → List (LedgerAccount × ℤ) → Action Unit
unfolding insert_entries
post order_id currency reason reference postings db =
    insert_entries
      (map
        (λ p. record {
          order_id = order_id;
          account = p.0;
          amount = p.1;
          currency = currency;
          reason = reason;
          reference = reference;
          created_at = db.now;
        })
        postings)
      db

-- Cash came in; the goods are owed.
unfoldable pub record_payment : Order → ℕ → Action Unit
unfolding post
record_payment order event_id =
    post order.id order.currency payment event_id
      ((cash, pos order.amount) ∷ (customer_liability, neg order.amount) ∷ [])

-- The obligation for one item becomes revenue.
unfoldable pub record_delivery : OrderItem → Action Unit
unfolding post
record_delivery item =
    post item.order_id item.currency delivery item.id
      ((customer_liability, pos item.amount) ∷ (revenue, neg item.amount) ∷ [])

-- The obligation for one item is settled by giving the money back.
unfoldable pub record_refund : OrderItem → Action Unit
unfolding post
record_refund item =
    post item.order_id item.currency refund item.id
      ((customer_liability, pos item.amount) ∷ (cash, neg item.amount) ∷ [])

-- `sum(amount) FILTER (WHERE p)`
abbrev pub total : (LedgerEntry → Bool) → List LedgerEntry → ℤ
total p = sum_ℤ p (λ e. e.amount)

abbrev pub on_account : LedgerAccount → LedgerEntry → Bool
on_account a e = account_eq e.account a

pub record Balances : Type 0 where
  pub cash : ℤ
  pub customer_liability : ℤ
  pub revenue : ℤ
  pub refunded : ℤ
  pub total : ℤ

-- The row of a query whose columns are cast by `::int`: a value that is none raises.
abbrev pub cast_row : {A : Type 0} → List ℤ → A → Result A
cast_row columns row = if all_fit columns then Result.ok row else Result.err out_of_range

-- One query after another.
abbrev pub and_then : {A B : Type 0} → Result A → (A → Result B) → Result B
and_then (Result.ok a) f = f a
and_then (Result.err e) f = Result.err e

-- The sums of the first query, before they are cast.
unfoldable pub sums_of : List LedgerEntry → Balances
sums_of rows = record {
  cash = total (on_account cash) rows;
  customer_liability = pos 0 -ℤ total (on_account customer_liability) rows;
  revenue = pos 0 -ℤ total (on_account revenue) rows;
  refunded =
      pos 0 -ℤ total (λ e. account_eq e.account cash && ledger_reason_eq e.reason refund) rows;
  total = total (λ _. true) rows;
}

abbrev pub columns : Balances → List ℤ
columns b = b.cash ∷ b.customer_liability ∷ b.revenue ∷ b.refunded ∷ b.total ∷ []

-- The first query, also that of `moneyBefore`.
unfoldable pub balances_of : List LedgerEntry → Result Balances
unfolding sums_of
balances_of rows = let row = sums_of rows in cast_row (columns row) row

-- `JOIN orders o ON o.id = i.order_id WHERE o.status NOT IN ('created', 'payment_failed')`
abbrev pub order_paid : ℕ → Db → Bool
order_paid id db = elim (find_order id db) [ none ↦ false | some o ↦ is_paid o.status ]

abbrev pub paid_sum : Db → ℕ
paid_sum db = sum_where (λ (o : Order). is_paid o.status) (λ o. o.amount) db.orders

-- `sum(i.amount) FILTER (WHERE p)` over that join.
abbrev pub item_sum : (ItemStatus → Bool) → Db → ℕ
item_sum p db =
    sum_where (λ (i : OrderItem). order_paid i.order_id db && p i.status) (λ i. i.amount) db.items

abbrev pub is_status : ItemStatus → ItemStatus → Bool
is_status s t = item_status_eq t s

-- The second query: what the rows of orders and items come to.
pub record Worth : Type 0 where
  pub paid : ℤ
  pub delivered : ℤ
  pub refunded : ℤ
  pub outstanding : ℤ

abbrev pub worth_sums : Db → Worth
worth_sums db = record {
  paid = pos (paid_sum db);
  delivered = pos (item_sum (is_status ItemStatus.delivered) db);
  refunded = pos (item_sum (is_status ItemStatus.refunded) db);
  outstanding = pos (item_sum is_open db);
}

unfoldable pub worth_of : Db → Result Worth
worth_of db =
    let row = worth_sums db in
    cast_row (row.paid ∷ row.delivered ∷ row.refunded ∷ row.outstanding ∷ []) row

pub record Report : Type 0 where
  pub actual : Balances
  pub expected_cash : ℤ
  pub expected_liability : ℤ
  pub expected_revenue : ℤ
  pub expected_refunded : ℤ
  pub balanced : Bool

unfoldable pub compare : Balances → Worth → Report
compare actual items =
    let expected_cash = items.paid -ℤ items.refunded in
    record {
      actual = actual;
      expected_cash = expected_cash;
      expected_liability = items.outstanding;
      expected_revenue = items.delivered;
      expected_refunded = items.refunded;
      balanced =
          eq_ℤ actual.total (pos 0)
          && eq_ℤ actual.cash expected_cash
          && eq_ℤ actual.customer_liability items.outstanding
          && eq_ℤ actual.revenue items.delivered
          && eq_ℤ actual.refunded items.refunded;
    }

unfoldable pub balances : Db → Result Report
unfolding balances_of worth_of compare
balances db =
    and_then (balances_of db.ledger)
      (λ actual. and_then (worth_of db) (λ items. Result.ok (compare actual items)))
