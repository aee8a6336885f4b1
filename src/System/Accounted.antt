-- ===== src/System/Accounted.antt =====
-- The journal and the history agree in every reachable database: the services write the two postings
-- of a fact in the transaction that writes its event.
use hh_game_market_backend.Base.{
  ℕ, ◌≡◌, false, arith, refl, Bool, not, inl, inr, some, none, Option, sym, subst, Bool-cases, any,
  ◌==◌, ◌+◌, min,
}
use hh_game_market_backend.Base.Keyed.{has}
use hh_game_market_backend.Model.{
  EventData, LedgerReason, OrderStatus, Order, OrderExtra, OrderDetail, SupplierDiscrepancy, Db,
  not_found, conflict, changed_concurrently, Result, ok, err, Action, raise_if, catch_as,
  transaction-either, then_pure, catch_as_state, ◌>>=◌, ◌>>◌,
}
use hh_game_market_backend.Transition.{transition_order, update_order, update_item, insert_event}
use hh_game_market_backend.Orders.{sku_of, order_of, retry_delivery, retryable}
use hh_game_market_backend.Queue.{claim, take_order, next_order, visible, requeue}
use hh_game_market_backend.Delivery.Limiter.{try_acquire, safety_ms}
use hh_game_market_backend.Delivery.Limiter.Window.{acquire-cases}
use hh_game_market_backend.Delivery.Journal.{record_attempt, same_finding, insert_discrepancy}
use hh_game_market_backend.Catalog.{set_stock}
use hh_game_market_backend.Books.{BooksOf}
use hh_game_market_backend.History.Span.{concerns}
use hh_game_market_backend.History.Span.Pairs.{idle}
use hh_game_market_backend.System.{
  Step, tick, creates, pays, retries, claims, recovers, acquires, attempts, finds, completes,
  gives_up, refunds, concludes, retries_row, gives_up_row, concludes_row, notes, Late, retried,
  concluded, given_up, restocks, Reach, here, next,
}
use hh_game_market_backend.System.Books.{Reach-BooksOf}
use hh_game_market_backend.System.Entries.{
  IsAccounted, transition_order-IsAccounted, gives_up-IsAccounted, complete-IsAccounted,
  book_refund-IsAccounted, handle-IsAccounted, create-IsAccounted, batch-Matched,
}

take_order-IsAccounted :
    (locked : Order → Bool) (found : Option Order) (db : Db)
    → BooksOf db
    → IsAccounted db
    → IsAccounted (take_order locked found db).1
unfolding take_order
take_order-IsAccounted locked none db b h = h
take_order-IsAccounted locked (some o) db b h =
    let move =
      transition_order o.id OrderStatus.paid OrderStatus.delivering OrderExtra.nothing
        OrderDetail.nothing in
    subst IsAccounted (sym (then_pure move (some o) db))
      (transition_order-IsAccounted o.id _ _ _ _ db refl b h)

claim-IsAccounted :
    (locked : Order → Bool) (db : Db)
    → BooksOf db
    → IsAccounted db
    → IsAccounted (claim locked db).1
unfolding claim
claim-IsAccounted locked db b h =
    transaction-either IsAccounted (take_order locked (next_order db.now (visible locked db))) db h
      (take_order-IsAccounted locked (next_order db.now (visible locked db)) db b h)

retry_found :
    (id : ℕ) (o : Order) (db : Db)
    → BooksOf db
    → IsAccounted db
    → IsAccounted
        ((raise_if (not (retryable o.status)) (conflict o.status)
            >> catch_as changed_concurrently (
                transition_order id o.status OrderStatus.paid OrderExtra.nothing
                  OrderDetail.operator))
          db).1
retry_found id o db b h = elim (Bool-cases (retryable o.status)) [
  | inr settled ↦ rw settled h
  | inl failed ↦ rw failed (
      subst IsAccounted
        (sym (
          catch_as_state changed_concurrently
            (transition_order id o.status OrderStatus.paid OrderExtra.nothing OrderDetail.operator)
            db))
        (transition_order-IsAccounted id o.status _ _ _ db (ground (arith, failed)) b h))
]

retry-IsAccounted :
    (uuid_of : ℕ → Option ℕ) (text : ℕ) (db : Db)
    → BooksOf db
    → IsAccounted db
    → IsAccounted (retry_delivery uuid_of text db).1
unfolding retry_delivery
retry-IsAccounted uuid_of text db b h = go (order_of uuid_of text db)
  where
    rest : Order → Action Unit
    rest o =
        raise_if (not (retryable o.status)) (conflict o.status)
        >> catch_as changed_concurrently (
            transition_order o.id o.status OrderStatus.paid OrderExtra.nothing OrderDetail.operator)

    go :
        (found : Option Order)
        → IsAccounted
            (((λ d. elim found as (λ _. Result Order × Db) [
              | none ↦ (err not_found, d)
              | some o ↦ (ok o, d)
            ])
                >>= rest)
              db).1
    go none = h
    go (some o) = retry_found o.id o db b h

-- The events that come on their own tell of no money.
Late-idle : {payload : EventData} → Late payload → (r : LedgerReason) → concerns r payload ≡ false
Late-idle retried r = ground arith
Late-idle (concluded v) r = ground arith
Late-idle (given_up reason amount) r = ground arith

acquire-IsAccounted :
    (limit : ℕ → ℕ) (window supplier cost : ℕ) (db : Db)
    → IsAccounted db
    → IsAccounted (try_acquire limit window supplier cost db).1
unfolding try_acquire
acquire-IsAccounted limit window supplier cost db h = elim (Bool-cases (limit supplier == 0)) [
  | inl unlimited ↦ rw unlimited h
  | inr limited ↦
      rw limited
        (elim (acquire-cases supplier (limit supplier) (min cost (limit supplier))
          (window + safety_ms) db) [
            | inl (_, done) ↦ subst (λ r. IsAccounted r.1) (sym done) h
            | inr (_, done) ↦ subst (λ r. IsAccounted r.1) (sym done) h
          ])
]

finds-IsAccounted :
    (row : SupplierDiscrepancy) (db : Db)
    → IsAccounted db
    → IsAccounted (insert_discrepancy row db).1
unfolding insert_discrepancy
finds-IsAccounted row db h = elim (Bool-cases (any (same_finding row) db.discrepancies)) [
  | inl old ↦ rw old h
  | inr new ↦ rw new h
]

set_stock-IsAccounted :
    (sku available : ℕ) (db : Db) → IsAccounted db → IsAccounted (set_stock sku available db).1
unfolding set_stock
set_stock-IsAccounted sku available db h = elim (Bool-cases (has sku_of sku db.products)) [
  | inl known ↦ rw known h
  | inr unknown ↦ rw unknown h
]

Step-IsAccounted : {a b : Db} → Step a b → BooksOf a → IsAccounted a → IsAccounted b
unfolding record_attempt requeue update_order update_item insert_event
Step-IsAccounted (tick n db) b h = h
Step-IsAccounted (creates draw dto db) b h = create-IsAccounted draw dto db b h
Step-IsAccounted (pays uuid_of app_now dto db) b h = handle-IsAccounted uuid_of app_now dto db b h
Step-IsAccounted (retries uuid_of text db) b h = retry-IsAccounted uuid_of text db b h
Step-IsAccounted (claims locked db) b h = claim-IsAccounted locked db b h
Step-IsAccounted (recovers from r before db) b h = batch-Matched r before db.now db.orders h
Step-IsAccounted (acquires limit window supplier cost db) b h =
    acquire-IsAccounted limit window supplier cost db h
Step-IsAccounted (attempts item supplier request n o db) b h = h
Step-IsAccounted (finds row db) b h = finds-IsAccounted row db h
Step-IsAccounted (completes item supplier request code db p) b h =
    complete-IsAccounted item supplier request code db b h
Step-IsAccounted (gives_up item reason db p) b h = gives_up-IsAccounted item.id _ _ db b h
Step-IsAccounted (refunds order item db p) b h = book_refund-IsAccounted order item db b h
Step-IsAccounted (concludes id v db p) b h = transition_order-IsAccounted id _ _ _ _ db refl b h
Step-IsAccounted (retries_row id db) b h = h
Step-IsAccounted (gives_up_row item reason db p) b h = h
Step-IsAccounted (concludes_row id v db p) b h = h
Step-IsAccounted (notes order_id item_id late db) b h = idle h _ (λ r. Late-idle late r)
Step-IsAccounted (restocks sku available db) b h = set_stock-IsAccounted sku available db h

pub Reach-IsAccounted : {a b : Db} → Reach a b → BooksOf a → IsAccounted a → IsAccounted b
Reach-IsAccounted here books h = h
Reach-IsAccounted (next r s) books h =
    Step-IsAccounted s (Reach-BooksOf r books) (Reach-IsAccounted r books h)
