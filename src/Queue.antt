-- ===== src/Queue.antt =====
-- The queue of orders: backend/src/delivery/delivery.worker.ts takes from it, and
-- backend/src/delivery/recovery.service.ts puts back what is stuck or parked.
pub mod Next
pub mod Again
use hh_game_market_backend.Base.{
  ℕ, Bool, true, false, ◌&&◌, Option, none, some, List, [], ◌∷◌, ◌++◌, map, ltb, leb, if◌then◌else◌,
  filter,
}
use hh_game_market_backend.Base.Keyed.{update_where}
use hh_game_market_backend.Model.{
  OrderStatus, order_status_eq, Order, OrderExtra, OrderDetail, EventData, OrderEvent, Db, Result,
  Action, pure, gets, transaction, ◌>>=◌, ◌>>◌,
}
use hh_game_market_backend.Transition.{transition_order}

-- `o.notBefore IS NULL OR o.notBefore <= now()`
abbrev pub is_due : ℕ → Option ℕ → Bool
is_due now none = true
is_due now (some t) = leb t now

abbrev pub claimable : ℕ → Order → Bool
claimable now o = order_status_eq o.status OrderStatus.paid && is_due now o.not_before

-- `ORDER BY paid_at ASC`, where NULL comes last: is the first before the second?
abbrev pub paid_before : Option ℕ → Option ℕ → Bool
paid_before none none = false
paid_before none (some _) = false
paid_before (some _) none = true
paid_before (some s) (some t) = ltb s t

abbrev pub earlier_of : Order → Option Order → Order
earlier_of o none = o
earlier_of o (some p) = if paid_before p.paid_at o.paid_at then p else o

-- `ORDER BY paid_at ASC LIMIT 1` of the rows that may be claimed, those that others hold left out.
unfoldable pub next_order : ℕ → List Order → Option Order
next_order now [] = none
next_order now (o ∷ os) =
    let rest = next_order now os in if claimable now o then some (earlier_of o rest) else rest

module _ (locked : Order → Bool) where
  -- `setOnLocked('skip_locked')`
  abbrev pub visible : Db → List Order
  visible db = filter (λ o. if locked o then false else true) db.orders

  unfoldable pub take_order : Option Order → Action (Option Order)
  take_order none = pure none
  take_order (some order) = do
    transition_order order.id OrderStatus.paid OrderStatus.delivering OrderExtra.nothing
        OrderDetail.nothing
    pure (some order)

  -- `claim`: one transaction.
  unfoldable pub claim : Action (Option Order)
  claim = transaction (do found ← gets (λ db. next_order db.now (visible db)); take_order found)

-- `status = ANY(from) AND updated_at < before`
abbrev pub is_stale : OrderStatus → (before : ℕ) → Order → Bool
is_stale from before o = order_status_eq o.status from && ltb o.updated_at before

abbrev pub recovery_event : ℕ → Order → OrderEvent
recovery_event now o = record {
  order_id = o.id;
  order_item_id = none;
  payload =
      EventData.order_status o.status OrderStatus.paid OrderExtra.nothing OrderDetail.recovery;
  at = now;
}

abbrev pub put_back : ℕ → Order → Order
put_back now o = record o { status = OrderStatus.paid; updated_at = now }

-- One statement: the orders move and their history rows are written together.
unfoldable pub requeue : OrderStatus → (before : ℕ) → Action (List ℕ)
requeue from before db =
    let moved = filter (is_stale from before) db.orders in
    (
      Result.ok (map (λ (o : Order). o.id) moved),
      record db {
        orders = update_where (is_stale from before) (put_back db.now) db.orders;
        events = db.events ++ map (recovery_event db.now) moved;
      },
    )

-- `sweep`: `before_stale` and `before_parked` are the two cut-off times that the caller computes
-- from its clock.
unfoldable pub sweep : (before_stale before_parked : ℕ) → Action (List ℕ × List ℕ)
sweep before_stale before_parked = do
  stale ← requeue OrderStatus.delivering before_stale
  parked ← requeue OrderStatus.delivery_failed before_parked
  pure (stale, parked)
