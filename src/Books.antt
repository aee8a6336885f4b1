-- ===== src/Books.antt =====
-- The money of every order: what the ledger, the orders and the items say of it, which is what
-- `report` of backend/src/admin/reconciliation.service.ts compares.
pub mod Sums
pub mod Moves
pub mod Statuses
pub mod Creation
pub mod Effects
pub mod Actions
use hh_game_market_backend.Base.{
  ℕ, ◌+◌, ◌≡◌, Bool, true, false, ◌&&◌, some, List, ◌==◌, if◌then◌else◌, All, sum_where,
}
use hh_game_market_backend.Base.Keyed.{has, find_by, Distinct}
use hh_game_market_backend.Base.Int.{ℤ, pos_part, neg_part, sum_ℤ}
use hh_game_market_backend.Model.{
  ItemStatus, item_status_eq, is_paid, LedgerAccount, cash, customer_liability, revenue, account_eq,
  Order, OrderItem, LedgerEntry, Db,
}
use hh_game_market_backend.Transition.Facts.{order_id, item_id}

-- What the items of an order in a given status come to.
abbrev pub in_status : ℕ → ItemStatus → List OrderItem → ℕ
in_status k s = sum_where (λ i. i.order_id == k && item_status_eq i.status s) (λ i. i.amount)

-- What all items of an order come to.
abbrev pub owned : ℕ → List OrderItem → ℕ
owned k = sum_where (λ i. i.order_id == k) (λ i. i.amount)

-- The balance of an account, over the postings of one order.
abbrev pub posted : ℕ → LedgerAccount → List LedgerEntry → ℤ
posted k a = sum_ℤ (λ e. e.order_id == k && account_eq e.account a) (λ e. e.amount)

-- z + b = a, over the two parts of z.
abbrev pub AddsUp : ℤ → ℕ → ℕ → Type 0
AddsUp z b a = pos_part z + b ≡ neg_part z + a

-- What an order has brought in.
abbrev pub received : Order → ℕ
received o = if is_paid o.status then o.amount else 0

-- What is still owed for it.
abbrev pub owed : Order → List OrderItem → ℕ
owed o items =
    if is_paid o.status
    then in_status o.id ItemStatus.pending items + in_status o.id ItemStatus.refunding items
    else 0

pub record OrderBooks (items : List OrderItem) (ledger : List LedgerEntry) (o : Order)
    : Type 0 where
  -- the amount of an order is the sum of its items
  pub priced : owned o.id items ≡ o.amount
  -- an order that is not paid for has nothing delivered, nothing being refunded
  pub untouched :
      is_paid o.status ≡ false
      → (in_status o.id ItemStatus.delivered items ≡ 0)
        × (in_status o.id ItemStatus.refunded items ≡ 0)
        × (in_status o.id ItemStatus.refunding items ≡ 0)
  -- cash = paid - refunded
  pub cash_kept :
      AddsUp (posted o.id cash ledger) (in_status o.id ItemStatus.refunded items) (received o)
  -- the liability, a negative balance, is what is still owed
  pub liability : AddsUp (posted o.id customer_liability ledger) (owed o items) 0
  -- the revenue, a negative balance, is what is delivered
  pub earned : AddsUp (posted o.id revenue ledger) (in_status o.id ItemStatus.delivered items) 0

pub record Books (orders : List Order) (items : List OrderItem) (ledger : List LedgerEntry)
    : Type 0 where
  pub order_keys : Distinct order_id orders
  pub item_keys : Distinct item_id items
  pub item_owners : All (λ i. has order_id i.order_id orders ≡ true) items
  pub ledger_owners : All (λ (e : LedgerEntry). has order_id e.order_id orders ≡ true) ledger
  pub per_order :
      (k : ℕ) (o : Order) → find_by order_id k orders ≡ some o → OrderBooks items ledger o

-- The books of the whole database.
abbrev pub BooksOf : Db → Type 0
BooksOf db = Books db.orders db.items db.ledger
