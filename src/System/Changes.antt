-- ===== src/System/Changes.antt =====
-- Every step of the system is one of the changes of System/Change.
use hh_game_market_backend.Base.{
  ℕ, ◌≡◌, true, false, arith, refl, Bool, not, inl, inr, some, none, Option, sym, subst, Bool-cases,
  any, ◌==◌, ◌+◌, min,
}
use hh_game_market_backend.Base.Keyed.{has}
use hh_game_market_backend.Model.{
  OrderStatus, ItemStatus, is_end, order_status_eq_iff, Order, OrderExtra, OrderDetail, ItemExtra,
  SupplierDiscrepancy, Db, not_found, conflict, changed_concurrently, Result, ok, err, Action,
  raise_if, catch_as, transaction-either, then_pure, catch_as_state, ◌>>=◌, ◌>>◌,
}
use hh_game_market_backend.Transition.{transition_order, update_order, update_item, insert_event}
use hh_game_market_backend.Transition.Facts.{update_order-cases, update_item-cases}
use hh_game_market_backend.Orders.{sku_of, order_of, retry_delivery, retryable}
use hh_game_market_backend.Queue.{claim, take_order, next_order, visible, requeue}
use hh_game_market_backend.Delivery.Pass.{Verdict, park, final, status_for}
use hh_game_market_backend.Delivery.Limiter.{try_acquire, safety_ms}
use hh_game_market_backend.Delivery.Limiter.Window.{acquire-cases}
use hh_game_market_backend.Delivery.Journal.{record_attempt, same_finding, insert_discrepancy}
use hh_game_market_backend.Catalog.{set_stock}
use hh_game_market_backend.Books.{BooksOf}
use hh_game_market_backend.System.{
  IsVerdict, has_open, Step, tick, creates, pays, retries, claims, recovers, acquires, attempts,
  finds, completes, gives_up, refunds, concludes, restocks, retries_row, gives_up_row,
  concludes_row, notes, is_whole,
}
use hh_game_market_backend.System.Change.{
  OrderMove, Change, quiet, put_backs, order_row, item_row, event_comes,
}
use hh_game_market_backend.System.Writes.{
  still, transition_order-Change, same_price, gives_up-Change, complete-Change, book_refund-Change,
  handle-Change, create-Change,
}

take_order-Change :
    (locked : Order → Bool) (found : Option Order) (db : Db)
    → BooksOf db
    → Change true db (take_order locked found db).1
unfolding take_order
take_order-Change locked none db b = still
take_order-Change locked (some o) db b =
    let move =
      transition_order o.id OrderStatus.paid OrderStatus.delivering OrderExtra.nothing
        OrderDetail.nothing in
    subst (Change true db) (sym (then_pure move (some o) db)) (
      transition_order-Change o.id OrderExtra.nothing OrderDetail.nothing db OrderMove.claims
        (λ e. cc) b)

claim-Change : (locked : Order → Bool) (db : Db) → BooksOf db → Change true db (claim locked db).1
unfolding claim
claim-Change locked db b =
    transaction-either (Change true db) (take_order locked (next_order db.now (visible locked db)))
      db still (take_order-Change locked (next_order db.now (visible locked db)) db b)

retry_found :
    (id : ℕ) (o : Order) (db : Db)
    → BooksOf db
    → Change true db
        ((raise_if (not (retryable o.status)) (conflict o.status)
            >> catch_as changed_concurrently (
                transition_order id o.status OrderStatus.paid OrderExtra.nothing
                  OrderDetail.operator))
          db).1
retry_found id o db b = elim (Bool-cases (retryable o.status)) [
  | inr settled ↦ rw settled still
  | inl failed ↦ rw failed (
      subst (Change true db)
        (sym (
          catch_as_state changed_concurrently
            (transition_order id o.status OrderStatus.paid OrderExtra.nothing OrderDetail.operator)
            db))
        (transition_order-Change id OrderExtra.nothing OrderDetail.operator db
          (subst (λ s. OrderMove s OrderStatus.paid) (sym ((order_status_eq_iff _ _).0 failed))
            OrderMove.retries)
          (λ e. cc) b))
]

retry-Change :
    (uuid_of : ℕ → Option ℕ) (text : ℕ) (db : Db)
    → BooksOf db
    → Change true db (retry_delivery uuid_of text db).1
unfolding retry_delivery
retry-Change uuid_of text db b = go (order_of uuid_of text db)
  where
    rest : Order → Action Unit
    rest o =
        raise_if (not (retryable o.status)) (conflict o.status)
        >> catch_as changed_concurrently (
            transition_order o.id o.status OrderStatus.paid OrderExtra.nothing OrderDetail.operator)

    go :
        (found : Option Order)
        → Change true db
            (((λ d. elim found as (λ _. Result Order × Db) [
              | none ↦ (err not_found, d)
              | some o ↦ (ok o, d)
            ])
                >>= rest)
              db).1
    go none = still
    go (some o) = retry_found o.id o db b

-- Which move a verdict makes.
verdict_move :
    (db : Db) (id : ℕ) (v : Verdict)
    → IsVerdict db id v
    → OrderMove OrderStatus.delivering (status_for v)
verdict_move db id (Verdict.requeue t) h = OrderMove.defers
verdict_move db id park h = OrderMove.parks
verdict_move db id (final s) h = OrderMove.ends h.0

verdict_end :
    (db : Db) (id : ℕ) (v : Verdict)
    → IsVerdict db id v
    → is_end (status_for v) ≡ true
    → has_open id db.items ≡ false
verdict_end db id (Verdict.requeue t) h e = cc
verdict_end db id park h e = cc
verdict_end db id (final s) h e = h.1

-- An UPDATE alone.
update_order-Change :
    (id : ℕ) {from to : OrderStatus} (extra : OrderExtra) (db : Db)
    → OrderMove from to
    → (is_end to ≡ true → has_open id db.items ≡ false)
    → BooksOf db
    → Change false db (update_order id from to extra db).1
unfolding update_order
update_order-Change id {from} {to} extra db move end b =
    elim (update_order-cases id from to extra db b.order_keys) [
      | inl idle ↦ subst (Change false db) (sym idle) (quiet refl refl refl (omega arith))
      | inr (o, found, same) ↦
          order_row id extra o refl found same move end refl refl refl (omega arith)
    ]

gives_up_row-Change :
    (id : ℕ) (extra : ItemExtra) (db : Db)
    → BooksOf db
    → Change false db (update_item id ItemStatus.pending ItemStatus.refunding extra db).1
unfolding update_item
gives_up_row-Change id extra db b =
    elim (update_item-cases id ItemStatus.pending ItemStatus.refunding extra db b.item_keys) [
      | inl idle ↦ subst (Change false db) (sym idle) (quiet refl refl refl (omega arith))
      | inr (i, found, same) ↦ item_row id extra i refl found same refl refl refl (omega arith)
    ]

-- The tables of the limiter, of findings and of stock are none of those three.
acquire-quiet :
    (limit : ℕ → ℕ) (window supplier cost : ℕ) (db : Db)
    → Change true db (try_acquire limit window supplier cost db).1
unfolding try_acquire
acquire-quiet limit window supplier cost db = elim (Bool-cases (limit supplier == 0)) [
  | inl unlimited ↦ rw unlimited still
  | inr limited ↦
      rw limited
        (elim (acquire-cases supplier (limit supplier) (min cost (limit supplier))
          (window + safety_ms) db) [
            | inl (_, done) ↦
                subst (λ r. Change true db r.1) (sym done) (quiet refl refl refl (omega arith))
            | inr (_, done) ↦
                subst (λ r. Change true db r.1) (sym done) (quiet refl refl refl (omega arith))
          ])
]

finds-quiet : (row : SupplierDiscrepancy) (db : Db) → Change true db (insert_discrepancy row db).1
unfolding insert_discrepancy
finds-quiet row db = elim (Bool-cases (any (same_finding row) db.discrepancies)) [
  | inl old ↦ rw old still
  | inr new ↦ rw new (quiet refl refl refl (omega arith))
]

set_stock-quiet : (sku available : ℕ) (db : Db) → Change true db (set_stock sku available db).1
unfolding set_stock
set_stock-quiet sku available db = elim (Bool-cases (has sku_of sku db.products)) [
  | inl known ↦ rw known (quiet refl refl refl (omega arith))
  | inr unknown ↦ rw unknown still
]

pub Step-Change : {a b : Db} (s : Step a b) → BooksOf a → Change (is_whole s) a b
unfolding record_attempt requeue is_whole insert_event
Step-Change (tick n db) h = quiet refl refl refl (omega arith)
Step-Change (creates draw dto db) h = create-Change draw dto db h
Step-Change (pays uuid_of app_now dto db) h = handle-Change uuid_of app_now dto db h
Step-Change (retries uuid_of text db) h = retry-Change uuid_of text db h
Step-Change (claims locked db) h = claim-Change locked db h
Step-Change (recovers from r before db) h = put_backs from before r refl refl refl (omega arith)
Step-Change (acquires limit window supplier cost db) h = acquire-quiet limit window supplier cost db
Step-Change (attempts item supplier request n o db) h = quiet refl refl refl (omega arith)
Step-Change (finds row db) h = finds-quiet row db
Step-Change (completes item supplier request code db p) h =
    complete-Change item supplier request code db p h
Step-Change (gives_up item reason db p) h =
    gives_up-Change item.id _ _ db (λ i found. same_price db i p found) h
Step-Change (refunds order item db p) h = book_refund-Change order item db p h
Step-Change (concludes id v db p) h =
    transition_order-Change id _ _ db (verdict_move db id v p) (verdict_end db id v p) h
Step-Change (retries_row id db) h =
    update_order-Change id OrderExtra.nothing db OrderMove.retries (λ e. cc) h
Step-Change (gives_up_row item reason db p) h = gives_up_row-Change item.id _ db h
Step-Change (concludes_row id v db p) h =
    update_order-Change id _ db (verdict_move db id v p) (verdict_end db id v p) h
Step-Change (notes order_id item_id late db) h =
    event_comes _ refl late refl refl refl (omega arith)
Step-Change (restocks sku available db) h = set_stock-quiet sku available db
