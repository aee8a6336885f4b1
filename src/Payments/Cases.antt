-- ===== src/Payments/Cases.antt =====
-- What one webhook does to the database: record a redelivery as such, record an event that changes
-- no order, fail an order's payment, or pay for an order.
use hh_game_market_backend.Base.{
  ℕ, ◌≡◌, ◌≢◌, ◌⊎◌, refl, inl, inr, some, none, Option, Bool, true, false, [], ◌∷◌, ◌++◌, ◌∙◌, ◌==◌,
  ==_iff, Bool-cases, ltb, ◌||◌, arith,
}
use hh_game_market_backend.Base.Keyed.{Distinct, has}
use hh_game_market_backend.Base.Int.{pos, neg, int_max}
use hh_game_market_backend.Model.{
  OrderStatus, order_status_eq, order_status_eq_iff, PaymentStatus, paid, failed, cash,
  customer_liability, Order, OrderExtra, OrderDetail, WebhookOutcome, applied, duplicate,
  order_not_found, amount_mismatch, ignored, Db, Error, no_longer, out_of_range, Result, ok, err,
  Action, pure, bind_ok, bind_err, transaction_ok, transaction_err, ◌>>=◌, ◌>>◌,
}
use hh_game_market_backend.Transition.{transition_order}
use hh_game_market_backend.Transition.Facts.{order_id, order_moved}
use hh_game_market_backend.Transition.Cases.{transition_order-cases}
use hh_game_market_backend.Ledger.{record_payment}
use hh_game_market_backend.Payments.{
  PaymentWebhookDto, event_key, row_of, locked_order, insert_payment, set_outcome, apply_failed,
  apply_paid, by_status, apply, process, handle,
}
use hh_game_market_backend.Books.Statuses.{payment_entry}
use hh_game_market_backend.Books.Effects.{record_payment-cases}

-- The order is paid: it moves, and the two postings go in.
abbrev pub paid_db : ℕ → Order → PaymentWebhookDto → Db → Db
paid_db app_now order dto db =
    let moved =
      order_moved order.id OrderStatus.created OrderStatus.paid (OrderExtra.paid_at app_now)
        (OrderDetail.payment dto.event_id dto.amount dto.currency) db in
    record moved {
      ledger =
          (db.ledger ++ payment_entry order dto.event_id cash (pos order.amount) db.now ∷ [])
          ++ payment_entry order dto.event_id customer_liability (neg order.amount) db.now ∷ [];
    }

-- What `apply` can do with the order that it is given, read from the same database.
abbrev pub ApplyCases :
    ℕ → Option Order → PaymentWebhookDto → Db → Result WebhookOutcome × Db → Type 0
ApplyCases app_now found dto db r =
    ((o : WebhookOutcome) × (r ≡ (ok o, db)) × (o ≢ applied))
    ⊎ ((x : Error) × (db' : Db) × (r ≡ (err x, db')))
    ⊎ ((order : Order) × (found ≡ some order)
        × (order.status ≡ OrderStatus.created)
        × (dto.status ≡ failed)
        × (r ≡ (
          ok applied,
          order_moved order.id OrderStatus.created OrderStatus.payment_failed OrderExtra.nothing
              OrderDetail.nothing db,
        )))
    ⊎ ((order : Order) × (found ≡ some order)
        × (order.status ≡ OrderStatus.created)
        × (dto.status ≡ paid)
        × (dto.amount ≡ order.amount)
        × (dto.currency ≡ order.currency)
        × (r ≡ (ok applied, paid_db app_now order dto db)))

module _ (app_now : ℕ) (dto : PaymentWebhookDto) (db : Db)
    (keys : Distinct order_id db.orders) where
  failed-cases :
      (order : Order)
      → order.status ≡ OrderStatus.created
      → dto.status ≡ failed
      → ApplyCases app_now (some order) dto db (apply_failed order db)
  unfolding apply_failed
  failed-cases order fresh status =
      let move =
        transition_order order.id OrderStatus.created OrderStatus.payment_failed OrderExtra.nothing
          OrderDetail.nothing in
      elim (transition_order-cases order.id OrderStatus.created OrderStatus.payment_failed
        OrderExtra.nothing OrderDetail.nothing db keys) [
          | inl (_, _, _, moved) ↦
              inr
                (inr (inl (order, refl, fresh, status, bind_ok move (λ _. pure applied) db moved)))
          | inr stale ↦ inr (inl (no_longer, db, bind_err move (λ _. pure applied) db stale))
        ]

  paid-cases :
      (order : Order)
      → order.status ≡ OrderStatus.created
      → dto.status ≡ paid
      → dto.amount ≡ order.amount
      → dto.currency ≡ order.currency
      → ApplyCases app_now (some order) dto db (apply_paid app_now order dto db)
  unfolding apply_paid
  paid-cases order fresh status amount currency =
      let detail = OrderDetail.payment dto.event_id dto.amount dto.currency in
      let move =
        transition_order order.id OrderStatus.created OrderStatus.paid (OrderExtra.paid_at app_now)
          detail in
      let book = record_payment order dto.event_id in
      elim (transition_order-cases order.id OrderStatus.created OrderStatus.paid
        (OrderExtra.paid_at app_now) detail db keys) [
          | inr stale ↦
              inr (inl (no_longer, db, bind_err move (λ _. book >> pure applied) db stale))
          | inl (_, _, _, moved) ↦
              let db₁ =
                order_moved order.id OrderStatus.created OrderStatus.paid
                  (OrderExtra.paid_at app_now) detail db in
              let first = bind_ok move (λ _. book >> pure applied) db moved in
              elim (record_payment-cases order dto.event_id db₁) [
                | inr (x, db', fails) ↦
                    inr (inl (x, db', first ∙ bind_err book (λ _. pure applied) db₁ fails))
                | inl posted ↦ inr (
                    inr (
                      inr (
                        order,
                        refl,
                        fresh,
                        status,
                        amount,
                        currency,
                        first ∙ bind_ok book (λ _. pure applied) db₁ posted,
                      )))
              ]
        ]

  by_status-cases :
      (order : Order)
      → order.status ≡ OrderStatus.created
      → (s : PaymentStatus) → dto.status ≡ s
      → ApplyCases app_now (some order) dto db (by_status s app_now order dto db)
  unfolding by_status
  by_status-cases order fresh failed status = failed-cases order fresh status
  by_status-cases order fresh paid status = elim (Bool-cases (dto.amount == order.amount)) [
    | inr other ↦ inl (amount_mismatch, rw other, λ e. cc)
    | inl amount ↦ elim (Bool-cases (dto.currency == order.currency)) [
      | inr other ↦ inl (amount_mismatch, rw (amount, other), λ e. cc)
      | inl currency ↦
          rw (amount, currency)
            (paid-cases order fresh status ((==_iff _ _).0 amount) ((==_iff _ _).0 currency))
    ]
  ]

  -- Where order ids are unique, applying a webhook to the order it names has four outcomes: nothing is
  -- written and the answer is not `applied`; an error; the order was created and the event says failed,
  -- and the order moves to payment_failed; or the order was created, the event says paid with the order's
  -- amount and currency, and the order moves to paid with the two postings of the payment.
  pub apply-cases :
      (found : Option Order) → ApplyCases app_now found dto db (apply app_now found dto db)
  unfolding apply
  apply-cases none = inl (order_not_found, refl, λ e. cc)
  apply-cases (some order) = elim (Bool-cases (order_status_eq order.status OrderStatus.created)) [
    | inr later ↦ inl (ignored order.status, rw later, λ e. cc)
    | inl same ↦
        let fresh = (order_status_eq_iff order.status OrderStatus.created).0 same in
        rw same (by_status-cases order fresh dto.status refl)
  ]

-- The database with the row of the event, as the insert leaves it.
abbrev pub recorded : PaymentWebhookDto → Db → Db
recorded dto db = record db { payments = db.payments ++ row_of dto ∷ [] }

-- Does the insert make no row?
abbrev pub is_refused : PaymentWebhookDto → Db → Bool
is_refused dto db = ltb int_max dto.amount || has event_key dto.event_id db.payments

module _ (uuid_of : ℕ → Option ℕ) (app_now : ℕ) (dto : PaymentWebhookDto) (db : Db) where
  abbrev insert : Action Bool
  insert = insert_payment dto

  abbrev rest : Bool → Action WebhookOutcome
  rest = process uuid_of app_now dto

  -- A webhook of which the insert makes no row changes nothing: its amount is no `int`, or its event_id
  -- is there.
  pub handle_large :
      ltb int_max dto.amount ≡ true → handle uuid_of app_now dto db ≡ (err out_of_range, db)
  unfolding handle insert_payment process
  handle_large large =
      let fails : insert db ≡ (err out_of_range, db) = rw large refl in
      transaction_err (insert >>= rest) db (bind_err insert rest db fails)

  pub handle_seen :
      ltb int_max dto.amount ≡ false
      → has event_key dto.event_id db.payments ≡ true
      → handle uuid_of app_now dto db ≡ (ok duplicate, db)
  unfolding handle insert_payment process
  handle_seen fits seen =
      let seen' : insert db ≡ (ok false, db) = rw (fits, seen) refl in
      transaction_ok (insert >>= rest) db (bind_ok insert rest db seen')

  pub handle_refused :
      is_refused dto db ≡ true
      → (x : Result WebhookOutcome) × (handle uuid_of app_now dto db ≡ (x, db))
  handle_refused refused = elim (Bool-cases (ltb int_max dto.amount)) [
    | inl large ↦ (err out_of_range, handle_large large)
    | inr fits ↦ (ok duplicate, handle_seen fits (ground (arith, refused, fits)))
  ]

  module _ (new : is_refused dto db ≡ false) where
    inserted : insert_payment dto db ≡ (ok true, recorded dto db)
    unfolding insert_payment
    inserted =
        let fits : ltb int_max dto.amount ≡ false = ground (arith, new) in
        let fresh : has event_key dto.event_id db.payments ≡ false = ground (arith, new) in
        rw (fits, fresh) refl

    abbrev outcome : Action WebhookOutcome
    outcome = apply app_now (locked_order uuid_of dto.order_id db) dto

    abbrev conclude : WebhookOutcome → Action WebhookOutcome
    conclude o = set_outcome dto.event_id o >> pure o

    -- A new event that `apply` settles: its row gets the outcome.
    pub handle_ok :
        {o : WebhookOutcome} {db' : Db}
        → outcome (recorded dto db) ≡ (ok o, db')
        → handle uuid_of app_now dto db ≡ (ok o, (set_outcome dto.event_id o db').1)
    unfolding handle process set_outcome
    handle_ok e =
        transaction_ok (insert >>= rest) db
          (bind_ok insert rest db inserted ∙ bind_ok outcome conclude (recorded dto db) e)

    -- `apply` throws: no trace of the event is left.
    pub handle_err :
        {x : Error} {db' : Db}
        → outcome (recorded dto db) ≡ (err x, db')
        → handle uuid_of app_now dto db ≡ (err x, db)
    unfolding handle process
    handle_err e =
        transaction_err (insert >>= rest) db
          (bind_ok insert rest db inserted ∙ bind_err outcome conclude (recorded dto db) e)
