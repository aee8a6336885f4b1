-- ===== src/System/Books.antt =====
-- However the services' transactions interleave, the money of every order adds up.
use hh_game_market_backend.Base.{
  ℕ, ◌≡◌, arith, refl, Bool, true, not, inl, inr, some, none, Option, sym, ◌∙◌, subst, ap,
  Bool-cases, any, ◌==◌, ◌+◌, min,
}
use hh_game_market_backend.Base.Keyed.{has}
use hh_game_market_backend.Model.{
  OrderStatus, ItemStatus, OrderItem, ItemExtra, order_status_eq_iff, is_paid, is_end, Order,
  OrderExtra, OrderDetail, SupplierDiscrepancy, Db, Error, not_found, conflict,
  changed_concurrently, Result, ok, err, Action, pure, raise_if, catch_as, transaction, bind_ok,
  bind_err, transaction_ok, transaction_err, ◌>>=◌, ◌>>◌,
}
use hh_game_market_backend.Transition.{transition_order, update_order, update_item, insert_event}
use hh_game_market_backend.Transition.Facts.{update_item-cases}
use hh_game_market_backend.Transition.Cases.{transition_order-cases}
use hh_game_market_backend.Orders.{sku_of, order_of, retry_delivery, retryable}
use hh_game_market_backend.Queue.{claim, take_order, next_order, visible}
use hh_game_market_backend.Delivery.Pass.{Verdict, park, final, status_for}
use hh_game_market_backend.Delivery.Limiter.{try_acquire, safety_ms}
use hh_game_market_backend.Delivery.Limiter.Window.{acquire-cases}
use hh_game_market_backend.Delivery.Journal.{record_attempt, same_finding, insert_discrepancy}
use hh_game_market_backend.Catalog.{set_stock}
use hh_game_market_backend.Books.{BooksOf}
use hh_game_market_backend.Books.Moves.{IsPaidItem, Books-refunding}
use hh_game_market_backend.Books.Statuses.{Books-transition}
use hh_game_market_backend.Books.Actions.{
  transition_order-Books, refunding-Books, complete-Books, book_refund-Books, requeue-Books,
  handle-Books, create-Books,
}
use hh_game_market_backend.System.{
  IsVerdict, Recoverable, stale, parked, Step, tick, creates, pays, retries, claims, recovers,
  acquires, attempts, finds, completes, gives_up, refunds, concludes, restocks, retries_row,
  gives_up_row, concludes_row, notes, Reach, here, next, IsFresh,
}

is_end-is_paid : (s : OrderStatus) → is_end s ≡ true → is_paid s ≡ true
is_end-is_paid s h = ground arith

status_for-is_paid :
    (db : Db) (id : ℕ) (v : Verdict) → IsVerdict db id v → is_paid (status_for v) ≡ true
status_for-is_paid db id (Verdict.requeue t) h = refl
status_for-is_paid db id park h = refl
status_for-is_paid db id (final s) h = is_end-is_paid s h.0

-- The UPDATE alone.
update_order-Books :
    (id : ℕ) (from to : OrderStatus) (extra : OrderExtra) (db : Db)
    → is_paid to ≡ is_paid from
    → BooksOf db
    → BooksOf (update_order id from to extra db).1
unfolding update_order
update_order-Books id from to extra db same b =
    Books-transition id from to extra db.now same db.orders db.items db.ledger b

gives_up_row-Books :
    (item : OrderItem) (extra : ItemExtra) (db : Db)
    → IsPaidItem db.orders db.items item
    → BooksOf db
    → BooksOf (update_item item.id ItemStatus.pending ItemStatus.refunding extra db).1
unfolding update_item
gives_up_row-Books item extra db p b =
    elim (update_item-cases item.id ItemStatus.pending ItemStatus.refunding extra db b.item_keys) [
      | inl idle ↦ subst BooksOf (sym idle) b
      | inr (row, found, pending) ↦
          let this : row ≡ p.row = ground (arith, sym found ∙ p.found) in
          Books-refunding extra db.orders db.items db.ledger item db.now p b
            (subst (λ r. r.status ≡ ItemStatus.pending) this pending)
    ]

take_order-Books :
    (locked : Order → Bool) (found : Option Order) (db : Db)
    → BooksOf db
    → BooksOf (transaction (take_order locked found) db).1
unfolding take_order
take_order-Books locked none db b = b
take_order-Books locked (some o) db b =
    let move =
      transition_order o.id OrderStatus.paid OrderStatus.delivering OrderExtra.nothing
        OrderDetail.nothing in
    let body = move >> pure (some o) in
    elim (transition_order-cases o.id OrderStatus.paid OrderStatus.delivering OrderExtra.nothing
      OrderDetail.nothing db b.order_keys) [
        | inr moved_on ↦
            subst (λ r. BooksOf r.1)
              (sym (transaction_err body db (bind_err move (λ _. pure (some o)) db moved_on))) b
        | inl (_, _, _, moved) ↦
            subst (λ r. BooksOf r.1)
              (sym (transaction_ok body db (bind_ok move (λ _. pure (some o)) db moved)))
              (Books-transition o.id OrderStatus.paid OrderStatus.delivering OrderExtra.nothing
                db.now refl db.orders db.items db.ledger b)
      ]

claim-Books : (locked : Order → Bool) (db : Db) → BooksOf db → BooksOf (claim locked db).1
unfolding claim
claim-Books locked db b = take_order-Books locked (next_order db.now (visible locked db)) db b

catch_as-Books :
    (x : Error) (m : Action Unit) (db : Db) → BooksOf (m db).1 → BooksOf (catch_as x m db).1
catch_as-Books x m db b = go (m db).0
  where
    go :
        (r : Result Unit)
        → BooksOf
            (elim r as (λ _. Result Unit × Db) [
              | ok a ↦ (ok a, (m db).1)
              | err _ ↦ (err x, (m db).1)
            ]).1
    go (ok a) = b
    go (err e) = b

requeued-Books :
    (id : ℕ) (o : Order) (db : Db)
    → BooksOf db
    → BooksOf
        ((raise_if (not (retryable o.status)) (conflict o.status)
            >> catch_as changed_concurrently (
                transition_order id o.status OrderStatus.paid OrderExtra.nothing
                  OrderDetail.operator))
          db).1
requeued-Books id o db b = elim (Bool-cases (retryable o.status)) [
  | inr settled ↦ rw settled b
  | inl failed ↦
      let same : o.status ≡ OrderStatus.delivery_failed = (order_status_eq_iff _ _).0 failed in
      rw failed (
        catch_as-Books changed_concurrently
          (transition_order id o.status OrderStatus.paid OrderExtra.nothing OrderDetail.operator) db
          (transition_order-Books id o.status OrderStatus.paid OrderExtra.nothing
            OrderDetail.operator db (ap is_paid (sym same)) b))
]

retry-Books :
    (uuid_of : ℕ → Option ℕ) (text : ℕ) (db : Db)
    → BooksOf db
    → BooksOf (retry_delivery uuid_of text db).1
unfolding retry_delivery
retry-Books uuid_of text db b = go (order_of uuid_of text db)
  where
    rest : Order → Action Unit
    rest o =
        raise_if (not (retryable o.status)) (conflict o.status)
        >> catch_as changed_concurrently (
            transition_order o.id o.status OrderStatus.paid OrderExtra.nothing OrderDetail.operator)

    go :
        (found : Option Order)
        → BooksOf
            (((λ d. elim found as (λ _. Result Order × Db) [
              | none ↦ (err not_found, d)
              | some o ↦ (ok o, d)
            ])
                >>= rest)
              db).1
    go none = b
    go (some o) = requeued-Books o.id o db b

acquire-Books :
    (limit : ℕ → ℕ) (window supplier cost : ℕ) (db : Db)
    → BooksOf db
    → BooksOf (try_acquire limit window supplier cost db).1
unfolding try_acquire
acquire-Books limit window supplier cost db b = elim (Bool-cases (limit supplier == 0)) [
  | inl unlimited ↦ rw unlimited b
  | inr limited ↦
      rw limited
        (elim (acquire-cases supplier (limit supplier) (min cost (limit supplier))
          (window + safety_ms) db) [
            | inl (_, done) ↦ subst (λ r. BooksOf r.1) (sym done) b
            | inr (_, done) ↦ subst (λ r. BooksOf r.1) (sym done) b
          ])
]

finds-Books :
    (row : SupplierDiscrepancy) (db : Db) → BooksOf db → BooksOf (insert_discrepancy row db).1
unfolding insert_discrepancy
finds-Books row db b = elim (Bool-cases (any (same_finding row) db.discrepancies)) [
  | inl old ↦ rw old b
  | inr new ↦ rw new b
]

set_stock-Books :
    (sku available : ℕ) (db : Db) → BooksOf db → BooksOf (set_stock sku available db).1
unfolding set_stock
set_stock-Books sku available db b = elim (Bool-cases (has sku_of sku db.products)) [
  | inl known ↦ rw known b
  | inr unknown ↦ rw unknown b
]

Recoverable-is_paid : {s : OrderStatus} → Recoverable s → is_paid s ≡ true
Recoverable-is_paid stale = refl
Recoverable-is_paid parked = refl

Step-Books : {a b : Db} → Step a b → BooksOf a → BooksOf b
unfolding record_attempt insert_event
Step-Books (tick n db) h = h
Step-Books (creates draw dto db) h = create-Books draw dto db h
Step-Books (pays uuid_of app_now dto db) h = handle-Books uuid_of app_now dto db h
Step-Books (retries uuid_of text db) h = retry-Books uuid_of text db h
Step-Books (claims locked db) h = claim-Books locked db h
Step-Books (recovers from r before db) h = requeue-Books from before db (Recoverable-is_paid r) h
Step-Books (acquires limit window supplier cost db) h =
    acquire-Books limit window supplier cost db h
Step-Books (attempts item supplier request n o db) h = h
Step-Books (finds row db) h = finds-Books row db h
Step-Books (completes item supplier request code db p) h =
    complete-Books item supplier request code db p h
Step-Books (gives_up item reason db p) h = refunding-Books item _ _ db p h
Step-Books (refunds order item db p) h = book_refund-Books order item db p h
Step-Books (concludes id v db p) h =
    transition_order-Books id _ _ _ _ db (status_for-is_paid db id v p) h
Step-Books (retries_row id db) h = update_order-Books id _ _ _ db refl h
Step-Books (gives_up_row item reason db p) h = gives_up_row-Books item _ db p h
Step-Books (concludes_row id v db p) h =
    update_order-Books id _ _ _ db (status_for-is_paid db id v p) h
Step-Books (notes order_id item_id late db) h = h
Step-Books (restocks sku available db) h = set_stock-Books sku available db h

-- However the steps of the services interleave, from a database whose books add up every reachable
-- one has books that add up: ids are unique, every item and posting has its order, and for every order
-- its amount is the sum of its items, its cash balance is what was paid less what is refunded, its
-- liability balance is what is pending or being refunded, its revenue is what is delivered, and an
-- order that is not paid for has nothing delivered, refunded or being refunded.
pub Reach-BooksOf : {a b : Db} → Reach a b → BooksOf a → BooksOf b
Reach-BooksOf here h = h
Reach-BooksOf (next r s) h = Step-Books s (Reach-BooksOf r h)

pub Books-fresh : {db : Db} → IsFresh db → BooksOf db
Books-fresh {db} f =
    rw (f.orders, f.items, f.ledger)
      (record {
        order_keys = tt;
        item_keys = tt;
        item_owners = tt;
        ledger_owners = tt;
        per_order = λ k o found. cc;
      })
