-- ===== src/Transition.antt =====
-- backend/src/orders/order-transition.ts: the compare-and-set on a status column, and the event
-- that it leaves. The UPDATE and the INSERT are two statements; a caller that wants them to be one
-- step calls them inside `transaction`.
pub mod Facts
pub mod Cases
use hh_game_market_backend.Base.{
  ℕ, Bool, true, false, not, ◌&&◌, Option, none, some, List, [], ◌∷◌, ◌++◌, ◌==◌, count, filter,
  map,
}
use hh_game_market_backend.Base.Keyed.{update_where}
use hh_game_market_backend.Model.{
  OrderStatus, ItemStatus, order_status_eq, item_status_eq, Order, OrderItem, OrderExtra,
  OrderDetail, ItemExtra, ItemDetail, EventData, OrderEvent, Db, Result, no_longer, Action, raise,
  raise_if, ◌>>=◌, ◌>>◌,
}

-- `em.insert(OrderEvent, ...)`, stamped with the time of the transaction.
unfoldable pub insert_event : ℕ → Option ℕ → EventData → Action Unit
insert_event order_id item_id payload db =
    let event : OrderEvent = record {
      order_id = order_id;
      order_item_id = item_id;
      payload = payload;
      at = db.now;
    } in
    (Result.ok tt, record db { events = db.events ++ event ∷ [] })

-- `id = :id AND status = :from`
abbrev pub order_in : ℕ → OrderStatus → Order → Bool
order_in id from o = o.id == id && order_status_eq o.status from

abbrev pub item_in : ℕ → ItemStatus → OrderItem → Bool
item_in id from i = i.id == id && item_status_eq i.status from

abbrev with_order_extra : OrderExtra → Order → Order
with_order_extra OrderExtra.nothing o = o
with_order_extra (OrderExtra.paid_at t) o = record o { paid_at = some t }
with_order_extra (OrderExtra.not_before t) o = record o { not_before = some t }

abbrev with_item_extra : ItemExtra → OrderItem → OrderItem
with_item_extra ItemExtra.nothing i = i
with_item_extra (ItemExtra.refund_reason r) i = record i { refund_reason = some r }

-- `.set({ status: to, ...extra })`, with the update date that goes with it.
abbrev pub set_order : OrderStatus → OrderExtra → ℕ → Order → Order
set_order to extra now o = record (with_order_extra extra o) { status = to; updated_at = now }

abbrev pub set_item : ItemStatus → ItemExtra → OrderItem → OrderItem
set_item to extra i = record (with_item_extra extra i) { status = to }

-- Returns `result.affected`.
unfoldable pub update_order : ℕ → OrderStatus → OrderStatus → OrderExtra → Action ℕ
update_order id from to extra db = (
  Result.ok (count (order_in id from) db.orders),
  record db { orders = update_where (order_in id from) (set_order to extra db.now) db.orders },
)

-- Returns the `order_id` of every row hit.
unfoldable pub update_item : ℕ → ItemStatus → ItemStatus → ItemExtra → Action (List ℕ)
update_item id from to extra db = (
  Result.ok (map (λ i. i.order_id) (filter (item_in id from) db.items)),
  record db { items = update_where (item_in id from) (set_item to extra) db.items },
)

unfoldable pub transition_order :
    ℕ → OrderStatus → OrderStatus → OrderExtra → OrderDetail → Action Unit
unfolding update_order insert_event
transition_order id from to extra detail = do
  affected ← update_order id from to extra
  raise_if (not (affected == 1)) no_longer
  insert_event id none (EventData.order_status from to extra detail)

-- `result.affected !== 1` throws; else the event carries the row's order_id.
item_moved : ℕ → EventData → List ℕ → Action Unit
unfolding insert_event
item_moved id payload (order_id ∷ []) = insert_event order_id (some id) payload
item_moved id payload _ = raise no_longer

unfoldable pub transition_item : ℕ → ItemStatus → ItemStatus → ItemExtra → ItemDetail → Action Unit
unfolding update_item item_moved
transition_item id from to extra detail = do
  moved ← update_item id from to extra
  item_moved id (EventData.item_status from to extra detail) moved
