-- ===== src/System/Change.antt =====
-- What a step may do to orders, items and history: nothing, one legal move of one order or item, a
-- new order, or a batch of orders put back in the queue. Each comes with its events.
use hh_game_market_backend.Base.{
  ℕ, zero, ◌≤◌, ◌≡◌, Bool, true, false, some, List, [], ◌∷◌, ◌++◌, map, filter,
}
use hh_game_market_backend.Base.Keyed.{has, update_where, Distinct}
use hh_game_market_backend.Model.{
  OrderStatus, ItemStatus, is_end, Product, Order, OrderItem, OrderExtra, OrderDetail, ItemExtra,
  ItemDetail, OrderEvent, Db,
}
use hh_game_market_backend.Transition.{order_in, item_in, set_order, set_item}
use hh_game_market_backend.Transition.Facts.{
  order_id, item_id, find_order, find_item, order_moved, item_moved_in,
}
use hh_game_market_backend.Orders.{item_rows}
use hh_game_market_backend.Orders.Cases.{created_db}
use hh_game_market_backend.Queue.{is_stale, put_back, recovery_event}
use hh_game_market_backend.History.Span.{item_amount}
use hh_game_market_backend.System.{Recoverable, Late, has_open}

-- The edges of an order's life.
pub data OrderMove : OrderStatus → OrderStatus → Type 0 where
  pays : OrderMove OrderStatus.created OrderStatus.paid
  fails : OrderMove OrderStatus.created OrderStatus.payment_failed
  claims : OrderMove OrderStatus.paid OrderStatus.delivering
  defers : OrderMove OrderStatus.delivering OrderStatus.paid
  parks : OrderMove OrderStatus.delivering OrderStatus.delivery_failed
  ends : {s : OrderStatus} → is_end s ≡ true → OrderMove OrderStatus.delivering s
  retries : OrderMove OrderStatus.delivery_failed OrderStatus.paid

-- And of an item's.
pub data ItemMove : ItemStatus → ItemStatus → Type 0 where
  delivers : ItemMove ItemStatus.pending ItemStatus.delivered
  gives_up : ItemMove ItemStatus.pending ItemStatus.refunding
  refunds : ItemMove ItemStatus.refunding ItemStatus.refunded

-- `whole` says that no move comes without its event, and no event on its own.
pub data Change (whole : Bool) (a : Db) : Db → Type 0 where
  quiet :
      {b : Db}
      → b.orders ≡ a.orders
      → b.items ≡ a.items
      → b.events ≡ a.events
      → a.now ≤ b.now
      → Change whole a b
  order_moves :
      {b : Db} (id : ℕ) {from to : OrderStatus} (extra : OrderExtra) (detail : OrderDetail)
      (o : Order)
      → find_order id a ≡ some o
      → o.status ≡ from
      → OrderMove from to
      → (is_end to ≡ true → has_open id a.items ≡ false)
      → b.orders ≡ (order_moved id from to extra detail a).orders
      → b.items ≡ a.items
      → b.events ≡ (order_moved id from to extra detail a).events
      → a.now ≤ b.now
      → Change whole a b
  item_moves :
      {b : Db} (id : ℕ) {from to : ItemStatus} (extra : ItemExtra) (detail : ItemDetail)
      (i : OrderItem)
      → find_item id a ≡ some i
      → i.status ≡ from
      → ItemMove from to
      → item_amount detail ≡ i.amount
      → b.orders ≡ a.orders
      → b.items ≡ (item_moved_in id from to extra detail i.order_id a).items
      → b.events ≡ (item_moved_in id from to extra detail i.order_id a).events
      → a.now ≤ b.now
      → Change whole a b
  order_comes :
      (draw : ℕ → ℕ) (currency : ℕ) (units : List Product)
      → has order_id (draw zero) a.orders ≡ false
      → Distinct item_id (a.items ++ item_rows draw (draw zero) currency 0 units)
      → Change whole a (created_db draw currency units a)
  put_backs :
      {b : Db} (from : OrderStatus) (before : ℕ)
      → Recoverable from
      → b.orders ≡ update_where (is_stale from before) (put_back a.now) a.orders
      → b.items ≡ a.items
      → b.events ≡ a.events ++ map (recovery_event a.now) (filter (is_stale from before) a.orders)
      → a.now ≤ b.now
      → Change whole a b
  order_row :
      {b : Db} (id : ℕ) {from to : OrderStatus} (extra : OrderExtra) (o : Order)
      → whole ≡ false
      → find_order id a ≡ some o
      → o.status ≡ from
      → OrderMove from to
      → (is_end to ≡ true → has_open id a.items ≡ false)
      → b.orders ≡ update_where (order_in id from) (set_order to extra a.now) a.orders
      → b.items ≡ a.items
      → b.events ≡ a.events
      → a.now ≤ b.now
      → Change whole a b
  item_row :
      {b : Db} (id : ℕ) (extra : ItemExtra) (i : OrderItem)
      → whole ≡ false
      → find_item id a ≡ some i
      → i.status ≡ ItemStatus.pending
      → b.orders ≡ a.orders
      → b.items
        ≡ update_where (item_in id ItemStatus.pending) (set_item ItemStatus.refunding extra) a.items
      → b.events ≡ a.events
      → a.now ≤ b.now
      → Change whole a b
  event_comes :
      {b : Db} (e : OrderEvent)
      → whole ≡ false
      → Late e.payload
      → b.orders ≡ a.orders
      → b.items ≡ a.items
      → b.events ≡ a.events ++ e ∷ []
      → a.now ≤ b.now
      → Change whole a b
