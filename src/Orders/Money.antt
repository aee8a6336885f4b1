-- ===== src/Orders/Money.antt =====
-- The money that `get` of backend/src/orders/orders.service.ts shows: while the books add up, every
-- part of what was paid is somewhere.
use hh_game_market_backend.Base.{
  inl, inr, ℕ, ◌+◌, ◌≡◌, refl, Bool, some, List, [], ◌∷◌, ◌==◌, leb, arith, Bool-cases,
  if◌then◌else◌, ◌∙◌, filter,
}
use hh_game_market_backend.Model.{
  ItemStatus, item_status_eq, is_open, is_paid, Order, OrderItem, Db,
}
use hh_game_market_backend.Transition.Facts.{find_order}
use hh_game_market_backend.Orders.View.{
  insert_by_position, sort_by_position, items_of, sum_of, money_of, view,
}
use hh_game_market_backend.Books.{BooksOf, OrderBooks, in_status}
use hh_game_market_backend.Books.Sums.{owned_split}

sum_of-insert :
    (p : ItemStatus → Bool) (i : OrderItem) (items : List OrderItem)
    → sum_of p (insert_by_position i items) ≡ (if p i.status then i.amount else 0) + sum_of p items
unfolding insert_by_position
sum_of-insert p i [] = refl
sum_of-insert p i (j ∷ js) = elim (Bool-cases (leb i.position j.position)) [
  | inl before ↦ rw before refl
  | inr after ↦ rw after (omega (arith, sum_of-insert p i js))
]

pub sum_of-sort :
    (p : ItemStatus → Bool) (items : List OrderItem)
    → sum_of p (sort_by_position items) ≡ sum_of p items
unfolding sort_by_position
sum_of-sort p [] = refl
sum_of-sort p (i ∷ is) = omega (arith, sum_of-insert p i (sort_by_position is), sum_of-sort p is)

sum_of-filter :
    (k : ℕ) (s : ItemStatus) (items : List OrderItem)
    → sum_of (λ t. item_status_eq t s) (filter (λ i. i.order_id == k) items) ≡ in_status k s items
sum_of-filter k s [] = refl
sum_of-filter k s (i ∷ is) = ground (arith, sum_of-filter k s is)

open_split :
    (t : ItemStatus) (a : ℕ)
    → (if is_open t then a else 0)
      ≡ (if item_status_eq t ItemStatus.pending then a else 0)
        + (if item_status_eq t ItemStatus.refunding then a else 0)
open_split t a = ground arith

sum_of-open :
    (items : List OrderItem)
    → sum_of is_open items
      ≡ sum_of (λ t. item_status_eq t ItemStatus.pending) items
        + sum_of (λ t. item_status_eq t ItemStatus.refunding) items
sum_of-open [] = refl
sum_of-open (i ∷ is) = omega (arith, open_split i.status i.amount, sum_of-open is)

-- The sum over an order's sorted items is that over its rows in the table.
sum_of-items :
    (k : ℕ) (s : ItemStatus) (db : Db)
    → sum_of (λ t. item_status_eq t s) (items_of k db) ≡ in_status k s db.items
unfolding items_of
sum_of-items k s db =
    sum_of-sort (λ t. item_status_eq t s) (filter (λ i. i.order_id == k) db.items)
    ∙ sum_of-filter k s db.items

-- In a database whose books add up, the money that `get` shows of an order adds up: what was paid is
-- what is delivered, refunded and pending.
pub view-money_adds_up :
    (id : ℕ) (o : Order) (db : Db)
    → BooksOf db
    → find_order id db ≡ some o
    → let m = (view o db).money in m.paid ≡ m.delivered + m.refunded + m.pending
unfolding view money_of
view-money_adds_up id o db b found =
    let books : OrderBooks db.items db.ledger o = b.per_order id o found in
    let items = items_of o.id db in
    let sums : (s : ItemStatus)
        → sum_of (λ t. item_status_eq t s) items ≡ in_status o.id s db.items =
      λ s. sum_of-items o.id s db in
    elim (Bool-cases (is_paid o.status)) [
      | inr unpaid ↦
          let (none_delivered, none_refunded, _) = books.untouched unpaid in
          rw unpaid (
            omega (
              arith,
              sums ItemStatus.delivered,
              sums ItemStatus.refunded,
              none_delivered,
              none_refunded,
            ))
      | inl paid ↦ rw paid (
          ground (
            arith,
            books.priced,
            owned_split o.id db.items,
            sum_of-open items,
            sums ItemStatus.pending,
            sums ItemStatus.delivered,
            sums ItemStatus.refunding,
            sums ItemStatus.refunded,
          ))
    ]
