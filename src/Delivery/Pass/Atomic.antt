-- ===== src/Delivery/Pass/Atomic.antt =====
-- `book_refund` is atomic: it fails and leaves the database as it was, or writes the refund, the
-- status and the postings.
use hh_game_market_backend.Base.{ℕ, ◌≡◌, ◌⊎◌, inl, inr, some, List, [], ◌∷◌, ◌++◌, ◌∙◌}
use hh_game_market_backend.Base.Keyed.{Distinct}
use hh_game_market_backend.Base.Int.{pos, neg}
use hh_game_market_backend.Model.{
  ItemStatus, cash, customer_liability, refund, Order, OrderItem, ItemExtra, ItemDetail, Refund, Db,
  Error, no_longer, ok, err, Action, bind_ok, bind_err, transaction_ok, transaction_err, ◌>>◌,
}
use hh_game_market_backend.Transition.{transition_item}
use hh_game_market_backend.Transition.Facts.{item_id, find_item, item_moved_in}
use hh_game_market_backend.Transition.Cases.{transition_item-cases}
use hh_game_market_backend.Ledger.{record_refund}
use hh_game_market_backend.Delivery.Pass.{insert_refund, book_refund}
use hh_game_market_backend.Books.Moves.{entry_of}
use hh_game_market_backend.Books.Effects.{PaysBack, insert_refund-cases, record_refund-cases}

-- The database after a booked refund; `rows` is the table of refunds that results.
abbrev pub refunded_db : OrderItem → ℕ → List Refund → Db → Db
refunded_db item owner rows db =
    let moved =
      item_moved_in item.id ItemStatus.refunding ItemStatus.refunded ItemExtra.nothing
        (ItemDetail.refund item.amount item.refund_reason) owner (record db { refunds = rows }) in
    record moved {
      ledger =
          (db.ledger ++ entry_of item refund customer_liability (pos item.amount) db.now ∷ [])
          ++ entry_of item refund cash (neg item.amount) db.now ∷ [];
    }

module _ (order : Order) (item : OrderItem) (db : Db) (keys : Distinct item_id db.items) where
  abbrev pub RefundCases : Type 0
  RefundCases =
      ((x : Error) × (book_refund order item db ≡ (err x, db)))
      ⊎ ((row : OrderItem) × (rows : List Refund) × (find_item item.id db ≡ some row)
          × (row.status ≡ ItemStatus.refunding)
          × PaysBack order item db.refunds rows
          × (book_refund order item db ≡ (ok tt, refunded_db item row.order_id rows db)))

  abbrev place : Action Unit
  place = insert_refund order item

  abbrev move : Action Unit
  move =
      transition_item item.id ItemStatus.refunding ItemStatus.refunded ItemExtra.nothing
        (ItemDetail.refund item.amount item.refund_reason)

  abbrev body : Action Unit
  body = place >> (move >> record_refund item)

  -- Where item ids are unique, booking a refund either fails and leaves the database as it was, or finds
  -- the item being refunded and writes a refund row with the item, its order, its amount and currency
  -- and its reason (unless the item has a row), the move to refunded with its event, and the two postings.
  pub refund-cases : RefundCases
  unfolding book_refund
  refund-cases =
      let (rows, placed, pays_back) = insert_refund-cases order item db in
      let db₁ = record db { refunds = rows } in
      let first = bind_ok place (λ _. move >> record_refund item) db placed in
      elim (transition_item-cases item.id ItemStatus.refunding ItemStatus.refunded ItemExtra.nothing
        (ItemDetail.refund item.amount item.refund_reason) db₁ keys) [
          | inr stale ↦ inl (
            no_longer,
            transaction_err body db (first ∙ bind_err move (λ _. record_refund item) db₁ stale),
          )
          | inl (row, found, refunding, moved) ↦
              let db₂ =
                item_moved_in item.id ItemStatus.refunding ItemStatus.refunded ItemExtra.nothing
                  (ItemDetail.refund item.amount item.refund_reason) row.order_id db₁ in
              let before = first ∙ bind_ok move (λ _. record_refund item) db₁ moved in
              elim (record_refund-cases item db₂) [
                | inr (x, _, fails) ↦ inl (x, transaction_err body db (before ∙ fails))
                | inl posted ↦ inr (
                  row,
                  rows,
                  found,
                  refunding,
                  pays_back,
                  transaction_ok body db (before ∙ posted),
                )
              ]
        ]
