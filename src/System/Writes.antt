-- ===== src/System/Writes.antt =====
-- What the transactions of Orders, Payments and Delivery change, each as one change of the tables.
use hh_game_market_backend.Base.{
  ℕ, ◌≡◌, ◌∙◌, ap, true, false, arith, refl, inl, inr, some, Option, sym, subst, Bool-cases,
}
use hh_game_market_backend.Model.{
  OrderStatus, ItemStatus, is_end, RequestId, Order, OrderItem, OrderExtra, OrderDetail, ItemExtra,
  ItemDetail, Db,
}
use hh_game_market_backend.Transition.{transition_order, transition_item}
use hh_game_market_backend.Transition.Facts.{find_item}
use hh_game_market_backend.Transition.Cases.{transition_order-cases, transition_item-cases}
use hh_game_market_backend.Orders.{CreateOrderDto, create}
use hh_game_market_backend.Orders.Cases.{create-cases}
use hh_game_market_backend.Payments.{PaymentWebhookDto, locked_order, set_outcome, handle}
use hh_game_market_backend.Payments.Cases.{
  apply-cases, recorded, is_refused, handle_refused, handle_ok, handle_err,
}
use hh_game_market_backend.Delivery.Accept.{complete}
use hh_game_market_backend.Delivery.Accept.Atomic.{complete-cases}
use hh_game_market_backend.Delivery.Pass.{book_refund}
use hh_game_market_backend.Delivery.Pass.Atomic.{refund-cases}
use hh_game_market_backend.Books.{BooksOf}
use hh_game_market_backend.Books.Moves.{IsPaidItem}
use hh_game_market_backend.History.Span.{item_amount}
use hh_game_market_backend.Books.Actions.{locked_found}
use hh_game_market_backend.System.{has_open}
use hh_game_market_backend.System.Change.{
  OrderMove, ItemMove, Change, quiet, order_moves, item_moves, order_comes,
}

pub still : {db : Db} → Change true db db
still = quiet refl refl refl (omega arith)

pub transition_order-Change :
    (id : ℕ) {from to : OrderStatus} (extra : OrderExtra) (detail : OrderDetail) (db : Db)
    → OrderMove from to
    → (is_end to ≡ true → has_open id db.items ≡ false)
    → BooksOf db
    → Change true db (transition_order id from to extra detail db).1
transition_order-Change id {from} {to} extra detail db move end b =
    elim (transition_order-cases id from to extra detail db b.order_keys) [
      | inr stale ↦ subst (λ r. Change true db r.1) (sym stale) still
      | inl (o, found, same, moved) ↦
          subst (λ r. Change true db r.1) (sym moved)
            (order_moves id extra detail o found same move end refl refl refl (omega arith))
    ]

-- What a pass knows of an item is what its row says.
pub same_price :
    {item : OrderItem} (db : Db) (i : OrderItem)
    → IsPaidItem db.orders db.items item
    → find_item item.id db ≡ some i
    → item.amount ≡ i.amount
same_price db i p found =
    let same : p.row ≡ i = (let e = sym p.found ∙ found in cc) in
    p.price ∙ ap (λ (j : OrderItem). j.amount) same

pub gives_up-Change :
    (id : ℕ) (extra : ItemExtra) (detail : ItemDetail) (db : Db)
    → ((i : OrderItem) → find_item id db ≡ some i → item_amount detail ≡ i.amount)
    → BooksOf db
    → Change true db (transition_item id ItemStatus.pending ItemStatus.refunding extra detail db).1
gives_up-Change id extra detail db price b =
    elim (transition_item-cases id ItemStatus.pending ItemStatus.refunding extra detail db
      b.item_keys) [
        | inr stale ↦ subst (λ r. Change true db r.1) (sym stale) still
        | inl (i, found, same, moved) ↦
            subst (λ r. Change true db r.1) (sym moved)
              (item_moves id extra detail i found same ItemMove.gives_up (price i found) refl refl
                refl (omega arith))
      ]

pub complete-Change :
    (item : OrderItem) (supplier : ℕ) (request : RequestId) (code : ℕ) (db : Db)
    → IsPaidItem db.orders db.items item
    → BooksOf db
    → Change true db (complete item supplier request code db).1
complete-Change item supplier request code db p b =
    elim (complete-cases item supplier request code db b.item_keys) [
      | inl (x, fails) ↦ subst (λ r. Change true db r.1) (sym fails) still
      | inr (row, rows, stock, found, pending, _, _, done) ↦
          subst (λ r. Change true db r.1) (sym done)
            (item_moves item.id ItemExtra.nothing
              (ItemDetail.issued code supplier request item.amount) row found pending
              ItemMove.delivers (same_price db row p found) refl refl refl (omega arith))
    ]

pub book_refund-Change :
    (order : Order) (item : OrderItem) (db : Db)
    → IsPaidItem db.orders db.items item
    → BooksOf db
    → Change true db (book_refund order item db).1
book_refund-Change order item db p b = elim (refund-cases order item db b.item_keys) [
  | inl (x, fails) ↦ subst (λ r. Change true db r.1) (sym fails) still
  | inr (row, rows, found, refunding, _, done) ↦
      subst (λ r. Change true db r.1) (sym done)
        (item_moves item.id ItemExtra.nothing (ItemDetail.refund item.amount item.refund_reason) row
          found refunding ItemMove.refunds (same_price db row p found) refl refl refl (omega arith))
]

pub handle-Change :
    (uuid_of : ℕ → Option ℕ) (app_now : ℕ) (dto : PaymentWebhookDto) (db : Db)
    → BooksOf db
    → Change true db (handle uuid_of app_now dto db).1
unfolding set_outcome
handle-Change uuid_of app_now dto db b = elim (Bool-cases (is_refused dto db)) [
  | inl seen ↦
      let (x, same) = handle_refused uuid_of app_now dto db seen in
      subst (λ r. Change true db r.1) (sym same) still
  | inr new ↦
      elim (apply-cases app_now dto (recorded dto db) b.order_keys
        (locked_order uuid_of dto.order_id db)) [
          | inl (o, same, _) ↦
              subst (λ r. Change true db r.1) (sym (handle_ok uuid_of app_now dto db new same))
                (quiet refl refl refl (omega arith))
          | inr (inl (x, db', fails)) ↦
              subst (λ r. Change true db r.1) (sym (handle_err uuid_of app_now dto db new fails))
                still
          | inr (inr (inl (order, found, fresh, _, moved))) ↦
              subst (λ r. Change true db r.1) (sym (handle_ok uuid_of app_now dto db new moved))
                (order_moves order.id OrderExtra.nothing OrderDetail.nothing order
                  (locked_found uuid_of dto.order_id db order found) fresh OrderMove.fails (λ e. cc)
                  refl refl refl (omega arith))
          | inr (inr (inr (order, found, fresh, _, _, _, moved))) ↦
              subst (λ r. Change true db r.1) (sym (handle_ok uuid_of app_now dto db new moved))
                (order_moves order.id (OrderExtra.paid_at app_now)
                  (OrderDetail.payment dto.event_id dto.amount dto.currency) order
                  (locked_found uuid_of dto.order_id db order found) fresh OrderMove.pays (λ e. cc)
                  refl refl refl (omega arith))
        ]
]

pub create-Change :
    (draw : ℕ → ℕ) (dto : CreateOrderDto) (db : Db)
    → BooksOf db
    → Change true db (create draw dto db).1
create-Change draw dto db b = elim (create-cases draw dto db b.item_keys) [
  | inl (x, fails) ↦ subst (λ r. Change true db r.1) (sym fails) still
  | inr (currency, units, _, done, fresh, keys, _, _) ↦
      subst (λ r. Change true db r.1) (sym done) (order_comes draw currency units fresh keys)
]
