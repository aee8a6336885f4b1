-- ===== src/Books/Actions.antt =====
-- Every transaction of the services keeps the books.
use hh_game_market_backend.Base.{
  Option, ℕ, ◌≡◌, refl, true, inl, inr, some, none, subst, sym, ap, ◌∙◌, Bool-cases, arith,
}
use hh_game_market_backend.Base.Keyed.{find_by-key}
use hh_game_market_backend.Model.{
  OrderStatus, ItemStatus, is_paid, RequestId, Order, OrderItem, OrderExtra, OrderDetail, ItemExtra,
  ItemDetail, Db,
}
use hh_game_market_backend.Transition.{transition_order, transition_item}
use hh_game_market_backend.Transition.Facts.{order_id, find_order}
use hh_game_market_backend.Transition.Cases.{transition_order-cases, transition_item-cases}
use hh_game_market_backend.Orders.{CreateOrderDto, price_sum, create}
use hh_game_market_backend.Orders.Cases.{new_order, create-cases}
use hh_game_market_backend.Payments.{PaymentWebhookDto, locked_order, set_outcome, handle}
use hh_game_market_backend.Payments.Cases.{
  apply-cases, recorded, is_refused, handle_refused, handle_ok, handle_err,
}
use hh_game_market_backend.Delivery.Accept.{complete}
use hh_game_market_backend.Delivery.Accept.Atomic.{complete-cases}
use hh_game_market_backend.Delivery.Pass.{book_refund}
use hh_game_market_backend.Delivery.Pass.Atomic.{refund-cases}
use hh_game_market_backend.Queue.{is_stale, put_back, requeue}
use hh_game_market_backend.Books.{BooksOf}
use hh_game_market_backend.Books.Moves.{
  IsPaidItem, Books-refunding, Books-delivered, Books-refunded,
}
use hh_game_market_backend.Books.Creation.{Books-created}
use hh_game_market_backend.Books.Statuses.{Books-kept, Books-transition, Books-paid}

-- A transition of an order between two paid statuses, or two unpaid ones.
pub transition_order-Books :
    (id : ℕ) (from to : OrderStatus) (extra : OrderExtra) (detail : OrderDetail) (db : Db)
    → is_paid to ≡ is_paid from
    → BooksOf db
    → BooksOf (transition_order id from to extra detail db).1
transition_order-Books id from to extra detail db same b =
    elim (transition_order-cases id from to extra detail db b.order_keys) [
      | inr stale ↦ subst (λ r. BooksOf r.1) (sym stale) b
      | inl (_, _, _, moved) ↦
          subst (λ r. BooksOf r.1) (sym moved)
            (Books-transition id from to extra db.now same db.orders db.items db.ledger b)
    ]

-- The decision to refund.
pub refunding-Books :
    (item : OrderItem) (extra : ItemExtra) (detail : ItemDetail) (db : Db)
    → IsPaidItem db.orders db.items item
    → BooksOf db
    → BooksOf (transition_item item.id ItemStatus.pending ItemStatus.refunding extra detail db).1
refunding-Books item extra detail db p b =
    elim (transition_item-cases item.id ItemStatus.pending ItemStatus.refunding extra detail db
      b.item_keys) [
        | inr stale ↦ subst (λ r. BooksOf r.1) (sym stale) b
        | inl (row, found, pending, moved) ↦
            let this : row ≡ p.row = ground (arith, sym found ∙ p.found) in
            subst (λ r. BooksOf r.1) (sym moved)
              (Books-refunding extra db.orders db.items db.ledger item db.now p b
                (subst (λ r. r.status ≡ ItemStatus.pending) this pending))
      ]

-- A delivery.
pub complete-Books :
    (item : OrderItem) (supplier : ℕ) (request : RequestId) (code : ℕ) (db : Db)
    → IsPaidItem db.orders db.items item
    → BooksOf db
    → BooksOf (complete item supplier request code db).1
complete-Books item supplier request code db p b =
    elim (complete-cases item supplier request code db b.item_keys) [
      | inl (x, fails) ↦ subst (λ r. BooksOf r.1) (sym fails) b
      | inr (row, rows, stock, found, pending, placed, _, done) ↦
          let this : row ≡ p.row = ground (arith, sym found ∙ p.found) in
          subst (λ r. BooksOf r.1) (sym done)
            (Books-delivered ItemExtra.nothing db.orders db.items db.ledger item db.now p b
              (subst (λ r. r.status ≡ ItemStatus.pending) this pending))
    ]

-- A refund.
pub book_refund-Books :
    (order : Order) (item : OrderItem) (db : Db)
    → IsPaidItem db.orders db.items item
    → BooksOf db
    → BooksOf (book_refund order item db).1
book_refund-Books order item db p b = elim (refund-cases order item db b.item_keys) [
  | inl (x, fails) ↦ subst (λ r. BooksOf r.1) (sym fails) b
  | inr (row, rows, found, refunding, placed, done) ↦
      let this : row ≡ p.row = ground (arith, sym found ∙ p.found) in
      subst (λ r. BooksOf r.1) (sym done)
        (Books-refunded ItemExtra.nothing db.orders db.items db.ledger item db.now p b
          (subst (λ r. r.status ≡ ItemStatus.refunding) this refunding))
]

-- The recovery sweep's statement.
pub requeue-Books :
    (from : OrderStatus) (before : ℕ) (db : Db)
    → is_paid from ≡ true
    → BooksOf db
    → BooksOf (requeue from before db).1
unfolding requeue
requeue-Books from before db paid b =
    Books-kept (is_stale from before) (put_back db.now) (λ _. refl) (λ _. refl)
      (λ o stale. ground (arith, paid)) db.orders db.items db.ledger b

-- The order that the webhook locks is the one under its own id.
pub locked_found :
    (uuid_of : ℕ → Option ℕ) (text : ℕ) (db : Db) (o : Order)
    → locked_order uuid_of text db ≡ some o
    → find_order o.id db ≡ some o
locked_found uuid_of text db o = go (uuid_of text)
  where
    go :
        (id : Option ℕ)
        → (elim id as (λ _. Option Order) [ none ↦ none | some k ↦ find_order k db ]) ≡ some o
        → find_order o.id db ≡ some o
    go none h = cc
    go (some id) h = ap (λ j. find_order j db) (find_by-key order_id id db.orders o h) ∙ h

-- The webhook.
pub handle-Books :
    (uuid_of : ℕ → Option ℕ) (app_now : ℕ) (dto : PaymentWebhookDto) (db : Db)
    → BooksOf db
    → BooksOf (handle uuid_of app_now dto db).1
unfolding set_outcome
handle-Books uuid_of app_now dto db b = elim (Bool-cases (is_refused dto db)) [
  | inl seen ↦
      let (x, same) = handle_refused uuid_of app_now dto db seen in
      subst (λ r. BooksOf r.1) (sym same) b
  | inr new ↦
      elim (apply-cases app_now dto (recorded dto db) b.order_keys
        (locked_order uuid_of dto.order_id db)) [
          | inl (o, same, _) ↦
              subst (λ r. BooksOf r.1) (sym (handle_ok uuid_of app_now dto db new same)) b
          | inr (inl (x, db', fails)) ↦
              subst (λ r. BooksOf r.1) (sym (handle_err uuid_of app_now dto db new fails)) b
          | inr (inr (inl (order, found, fresh, _, moved))) ↦
              subst (λ r. BooksOf r.1) (sym (handle_ok uuid_of app_now dto db new moved))
                (Books-transition order.id OrderStatus.created OrderStatus.payment_failed
                  OrderExtra.nothing db.now refl db.orders db.items db.ledger b)
          | inr (inr (inr (order, found, fresh, _, _, _, moved))) ↦
              subst (λ r. BooksOf r.1) (sym (handle_ok uuid_of app_now dto db new moved))
                (Books-paid app_now db.now dto.event_id db.now db.orders db.items db.ledger order
                  (locked_found uuid_of dto.order_id db order found) fresh b)
        ]
]

-- A new order.
pub create-Books :
    (draw : ℕ → ℕ) (dto : CreateOrderDto) (db : Db) → BooksOf db → BooksOf (create draw dto db).1
create-Books draw dto db b = elim (create-cases draw dto db b.item_keys) [
  | inl (x, fails) ↦ subst (λ r. BooksOf r.1) (sym fails) b
  | inr (currency, units, _, done, fresh, keys, _, _) ↦
      subst (λ r. BooksOf r.1) (sym done)
        (Books-created draw currency units db.orders db.items db.ledger
          (new_order draw currency (price_sum units) db.now) b fresh refl refl keys)
]
