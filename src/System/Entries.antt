-- ===== src/System/Entries.antt =====
-- What single statements and transactions do to the journal and the history: both stay matched.
use mathlib.Core.List.{append-nil, append_assoc}
use hh_game_market_backend.Base.{
  Option, ℕ, ◌≡◌, true, false, arith, refl, inl, inr, List, [], ◌∷◌, ◌++◌, map, sym, subst, ap,
  Bool-cases, filter,
}
use hh_game_market_backend.Base.Int.{pos, neg}
use hh_game_market_backend.Model.{
  OrderStatus, ItemStatus, order_status_eq, LedgerReason, payment, delivery, refund, RequestId,
  Order, OrderItem, OrderEvent, LedgerEntry, EventData, OrderExtra, OrderDetail, ItemExtra,
  ItemDetail, Db,
}
use hh_game_market_backend.Transition.{transition_order, transition_item}
use hh_game_market_backend.Transition.Cases.{transition_order-cases, transition_item-cases}
use hh_game_market_backend.Orders.{CreateOrderDto, create}
use hh_game_market_backend.Orders.Cases.{create-cases}
use hh_game_market_backend.Payments.{PaymentWebhookDto, locked_order, set_outcome, handle}
use hh_game_market_backend.Payments.Cases.{
  apply-cases, recorded, is_refused, handle_refused, handle_ok, handle_err,
}
use hh_game_market_backend.Queue.{is_stale, recovery_event}
use hh_game_market_backend.Delivery.Accept.{complete}
use hh_game_market_backend.Delivery.Accept.Atomic.{complete-cases}
use hh_game_market_backend.Delivery.Pass.{book_refund}
use hh_game_market_backend.Delivery.Pass.Atomic.{refund-cases}
use hh_game_market_backend.Books.{BooksOf}
use hh_game_market_backend.History.Span.{concerns}
use hh_game_market_backend.History.Span.Pairs.{Matched, idle, entered}
use hh_game_market_backend.System.{Recoverable, stale, parked}

abbrev pub IsAccounted : Db → Type 0
IsAccounted db = Matched db.ledger db.events

-- Only a payment takes an order from `created`.
idle_move :
    (from to : OrderStatus) (extra : OrderExtra) (detail : OrderDetail) (r : LedgerReason)
    → order_status_eq from OrderStatus.created ≡ false
    → concerns r (EventData.order_status from to extra detail) ≡ false
idle_move from to extra detail r later = ground arith

pub transition_order-IsAccounted :
    (id : ℕ) (from to : OrderStatus) (extra : OrderExtra) (detail : OrderDetail) (db : Db)
    → order_status_eq from OrderStatus.created ≡ false
    → BooksOf db
    → IsAccounted db
    → IsAccounted (transition_order id from to extra detail db).1
transition_order-IsAccounted id from to extra detail db later b h =
    elim (transition_order-cases id from to extra detail db b.order_keys) [
      | inr refused ↦ subst (λ r. IsAccounted r.1) (sym refused) h
      | inl (_, _, _, moved) ↦
          subst (λ r. IsAccounted r.1) (sym moved)
            (idle h _ (λ r. idle_move from to extra detail r later))
    ]

pub gives_up-IsAccounted :
    (id : ℕ) (extra : ItemExtra) (detail : ItemDetail) (db : Db)
    → BooksOf db
    → IsAccounted db
    → IsAccounted (transition_item id ItemStatus.pending ItemStatus.refunding extra detail db).1
gives_up-IsAccounted id extra detail db b h =
    elim (transition_item-cases id ItemStatus.pending ItemStatus.refunding extra detail db
      b.item_keys) [
        | inr refused ↦ subst (λ r. IsAccounted r.1) (sym refused) h
        | inl (_, _, _, moved) ↦
            subst (λ r. IsAccounted r.1) (sym moved) (idle h _ (λ r. ground arith))
      ]

pub complete-IsAccounted :
    (item : OrderItem) (supplier : ℕ) (request : RequestId) (code : ℕ) (db : Db)
    → BooksOf db
    → IsAccounted db
    → IsAccounted (complete item supplier request code db).1
complete-IsAccounted item supplier request code db b h =
    elim (complete-cases item supplier request code db b.item_keys) [
      | inl (x, fails) ↦ subst (λ r. IsAccounted r.1) (sym fails) h
      | inr (_, _, _, _, _, _, _, done) ↦
          subst (λ r. IsAccounted r.1) (sym done)
            (entered h delivery _ _ _ (record {
              concerns_it = refl;
              debits = refl;
              credits = refl;
              debited = refl;
              credited = refl;
              reason_x = refl;
              reason_y = refl;
              at_x = refl;
              at_y = refl;
            }))
    ]

pub book_refund-IsAccounted :
    (order : Order) (item : OrderItem) (db : Db)
    → BooksOf db
    → IsAccounted db
    → IsAccounted (book_refund order item db).1
book_refund-IsAccounted order item db b h = elim (refund-cases order item db b.item_keys) [
  | inl (x, fails) ↦ subst (λ r. IsAccounted r.1) (sym fails) h
  | inr (_, _, _, _, _, done) ↦
      subst (λ r. IsAccounted r.1) (sym done)
        (entered h refund _ _ _ (record {
          concerns_it = refl;
          debits = refl;
          credits = refl;
          debited = refl;
          credited = refl;
          reason_x = refl;
          reason_y = refl;
          at_x = refl;
          at_y = refl;
        }))
]

pub handle-IsAccounted :
    (uuid_of : ℕ → Option ℕ) (app_now : ℕ) (dto : PaymentWebhookDto) (db : Db)
    → BooksOf db
    → IsAccounted db
    → IsAccounted (handle uuid_of app_now dto db).1
unfolding set_outcome
handle-IsAccounted uuid_of app_now dto db b h = elim (Bool-cases (is_refused dto db)) [
  | inl seen ↦
      let (x, same) = handle_refused uuid_of app_now dto db seen in
      subst (λ r. IsAccounted r.1) (sym same) h
  | inr new ↦
      elim (apply-cases app_now dto (recorded dto db) b.order_keys
        (locked_order uuid_of dto.order_id db)) [
          | inl (o, same, _) ↦
              subst (λ r. IsAccounted r.1) (sym (handle_ok uuid_of app_now dto db new same)) h
          | inr (inl (x, db', fails)) ↦
              subst (λ r. IsAccounted r.1) (sym (handle_err uuid_of app_now dto db new fails)) h
          | inr (inr (inl (_, _, _, _, moved))) ↦
              subst (λ r. IsAccounted r.1) (sym (handle_ok uuid_of app_now dto db new moved))
                (idle h _ (λ r. ground arith))
          | inr (inr (inr (order, _, _, _, amount, _, moved))) ↦
              subst (λ r. IsAccounted r.1) (sym (handle_ok uuid_of app_now dto db new moved))
                (entered h payment _ _ _ (record {
                  concerns_it = refl;
                  debits = refl;
                  credits = refl;
                  debited = ap pos (sym amount);
                  credited = ap neg (sym amount);
                  reason_x = refl;
                  reason_y = refl;
                  at_x = refl;
                  at_y = refl;
                }))
        ]
]

pub create-IsAccounted :
    (draw : ℕ → ℕ) (dto : CreateOrderDto) (db : Db)
    → BooksOf db
    → IsAccounted db
    → IsAccounted (create draw dto db).1
create-IsAccounted draw dto db b h = elim (create-cases draw dto db b.item_keys) [
  | inl (x, fails) ↦ subst (λ r. IsAccounted r.1) (sym fails) h
  | inr (_, _, _, done, _, _, _, _) ↦
      subst (λ r. IsAccounted r.1) (sym done) (idle h _ (λ r. ground arith))
]

stale_later :
    {from : OrderStatus} (before : ℕ) (o : Order)
    → Recoverable from
    → is_stale from before o ≡ true
    → order_status_eq o.status OrderStatus.created ≡ false
stale_later before o stale hit = ground (arith, hit)
stale_later before o parked hit = ground (arith, hit)

module _ {from : OrderStatus} (rec : Recoverable from) (before now : ℕ) where
  -- A batch of events of the recovery.
  pub batch-Matched :
      (orders : List Order) {rows : List LedgerEntry} {events : List OrderEvent}
      → Matched rows events
      → Matched rows (events ++ map (recovery_event now) (filter (is_stale from before) orders))
  batch-Matched [] m = subst (Matched _) (sym (append-nil _)) m
  batch-Matched (o ∷ orders) {rows} {events} m = elim (Bool-cases (is_stale from before o)) [
    | inr miss ↦ rw miss (batch-Matched orders m)
    | inl hit ↦
        let first = idle m (recovery_event now o) (λ r.
          idle_move o.status OrderStatus.paid OrderExtra.nothing OrderDetail.recovery r
            (stale_later before o rec hit)) in
        rw hit (
          subst (Matched rows)
            (append_assoc events (recovery_event now o ∷ [])
              (map (recovery_event now) (filter (is_stale from before) orders)))
            (batch-Matched orders first))
  ]
