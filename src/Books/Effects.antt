-- ===== src/Books/Effects.antt =====
-- What the statements inside the transactions can do: fail, or change one table.
use hh_game_market_backend.Base.{
  ℕ, refl, true, false, ◌≡◌, some, none, Option, ◌⊎◌, inl, inr, List, [], ◌∷◌, ◌++◌, Bool-cases,
  any, ◌==◌, or_else,
}
use hh_game_market_backend.Base.Keyed.{has}
use hh_game_market_backend.Base.Int.{pos, neg}
use hh_game_market_backend.Model.{
  cash, customer_liability, revenue, delivery, refund, Order, OrderItem, LedgerEntry, Delivery,
  Refund, RefundReason, Db, Error, holds_other_code, unique_violation, ledger_fact, delivery_item,
  delivery_request, delivery_code, request_eq, Result, ok, err,
}
use hh_game_market_backend.Ledger.{
  same_fact, insert_entries, record_payment, record_delivery, record_refund,
}
use hh_game_market_backend.Delivery.Accept.{place_delivery, insert_delivery}
use hh_game_market_backend.Delivery.Pass.{insert_refund, refund_key}
use hh_game_market_backend.Books.Moves.{entry_of}
use hh_game_market_backend.Books.Statuses.{payment_entry}

-- A pair of postings goes in whole, or the statement fails.
abbrev pub PostCases : LedgerEntry → LedgerEntry → Db → Result Unit × Db → Type 0
PostCases e f db r =
    (r ≡ (ok tt, record db { ledger = (db.ledger ++ e ∷ []) ++ f ∷ [] }))
    ⊎ ((x : Error) × (db' : Db) × (r ≡ (err x, db')))

post_two : (e f : LedgerEntry) (db : Db) → PostCases e f db (insert_entries (e ∷ f ∷ []) db)
unfolding insert_entries
post_two e f db = elim (Bool-cases (any (same_fact e) db.ledger)) [
  | inl clash ↦ inr (unique_violation ledger_fact, db, rw clash)
  | inr new ↦ elim (Bool-cases (any (same_fact f) (db.ledger ++ e ∷ []))) [
    | inl clash ↦
        inr (
          unique_violation ledger_fact,
          record db { ledger = db.ledger ++ e ∷ [] },
          rw (new, clash),
        )
    | inr newer ↦ inl (rw (new, newer))
  ]
]

pub record_payment-cases :
    (o : Order) (event_id : ℕ) (db : Db)
    → PostCases
        (payment_entry o event_id cash (pos o.amount) db.now)
        (payment_entry o event_id customer_liability (neg o.amount) db.now)
        db
        (record_payment o event_id db)
unfolding record_payment
record_payment-cases o event_id db = post_two _ _ db

pub record_delivery-cases :
    (i : OrderItem) (db : Db)
    → PostCases
        (entry_of i delivery customer_liability (pos i.amount) db.now)
        (entry_of i delivery revenue (neg i.amount) db.now)
        db
        (record_delivery i db)
unfolding record_delivery
record_delivery-cases i db = post_two _ _ db

pub record_refund-cases :
    (i : OrderItem) (db : Db)
    → PostCases
        (entry_of i refund customer_liability (pos i.amount) db.now)
        (entry_of i refund cash (neg i.amount) db.now)
        db
        (record_refund i db)
unfolding record_refund
record_refund-cases i db = post_two _ _ db

-- The delivery row is there or goes in, or the statement fails and nothing is written.
abbrev Placed : Db → Result Unit × Db → Type 0
Placed db r =
    ((rows : List Delivery) × (r ≡ (ok tt, record db { deliveries = rows })))
    ⊎ ((x : Error) × (r ≡ (err x, db)))

pub insert_delivery-cases :
    (d : Delivery) (db : Db)
    → (insert_delivery d db ≡ (ok tt, record db { deliveries = db.deliveries ++ d ∷ [] }))
      ⊎ ((x : Error) × (insert_delivery d db ≡ (err x, db)))
unfolding insert_delivery
insert_delivery-cases d db =
    elim (Bool-cases (any (λ e. e.order_item_id == d.order_item_id) db.deliveries)) [
      | inl a ↦ inr (unique_violation delivery_item, rw a)
      | inr a ↦ elim (Bool-cases (any (λ e. request_eq e.request_id d.request_id) db.deliveries)) [
        | inl b ↦ inr (unique_violation delivery_request, rw (a, b))
        | inr b ↦ elim (Bool-cases (any (λ e. e.code == d.code) db.deliveries)) [
          | inl c ↦ inr (unique_violation delivery_code, rw (a, b, c))
          | inr c ↦ inl (rw (a, b, c))
        ]
      ]
    ]

pub place_delivery-cases :
    (existing : Option Delivery) (d : Delivery) (db : Db) → Placed db (place_delivery existing d db)
unfolding place_delivery
place_delivery-cases none d db = elim (insert_delivery-cases d db) [
  | inl done ↦ inl (db.deliveries ++ d ∷ [], done)
  | inr fails ↦ inr fails
]
place_delivery-cases (some e) d db = elim (Bool-cases (e.code == d.code)) [
  | inl same ↦ inl (db.deliveries, rw same)
  | inr other ↦ inr (holds_other_code, rw other)
]

-- The item has a refund already, or gets one: what it cost goes back.
abbrev pub PaysBack : Order → OrderItem → (before rows : List Refund) → Type 0
PaysBack order item before rows =
    ((has refund_key item.id before ≡ true) × (rows ≡ before))
    ⊎ ((has refund_key item.id before ≡ false)
        × (rows
            ≡ before
              ++ record {
                order_item_id = item.id;
                order_id = order.id;
                amount = item.amount;
                currency = item.currency;
                reason = or_else item.refund_reason RefundReason.supplier_failed;
              }
                ∷ []))

-- The refund row is there or goes in.
pub insert_refund-cases :
    (order : Order) (item : OrderItem) (db : Db)
    → (rows : List Refund) × (insert_refund order item db ≡ (ok tt, record db { refunds = rows }))
      × PaysBack order item db.refunds rows
unfolding insert_refund
insert_refund-cases order item db = elim (Bool-cases (has refund_key item.id db.refunds)) [
  | inl there ↦ (db.refunds, rw there, inl (there, refl))
  | inr new ↦ (
    db.refunds
        ++ record {
          order_item_id = item.id;
          order_id = order.id;
          amount = item.amount;
          currency = item.currency;
          reason = or_else item.refund_reason RefundReason.supplier_failed;
        }
          ∷ [],
    rw new,
    inr (new, refl),
  )
]
