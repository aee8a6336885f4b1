-- ===== src/Orders.antt =====
-- backend/src/orders/orders.service.ts: creating an order, reading it, putting a parked one back
-- in the queue. Ids are drawn by the database: `draw n` is the n-th uuid drawn in the call.
pub mod View
pub mod Money
pub mod Cases
pub mod Units
use hh_game_market_backend.Base.{
  ℕ, zero, suc, ◌+◌, Bool, true, false, not, Option, none, some, List, [], ◌∷◌, ◌++◌, map, ltb,
  ◌==◌, if◌then◌else◌, is_some, or_else, any, filter, find, replicate, sum_where,
}
use hh_game_market_backend.Base.Keyed.{has, find_by}
use hh_game_market_backend.Base.Int.{int_max}
use hh_game_market_backend.Model.{
  OrderStatus, order_status_eq, ItemStatus, Product, Order, OrderItem, OrderExtra, OrderDetail,
  CreatedItem, EventData, Db, Result, bad_request, not_found, out_of_range, type_error, conflict,
  changed_concurrently, unique_violation, order_key, item_key, Action, pure, raise, gets,
  transaction, catch_as, raise_if, ◌>>=◌, ◌>>◌,
}
use hh_game_market_backend.Transition.{insert_event, transition_order}
use hh_game_market_backend.Transition.Facts.{order_id, item_id, find_order}

-- backend/src/orders/dto/create-order.dto.ts
pub record OrderLineDto : Type 0 where
  pub sku : ℕ
  pub quantity : Option ℕ

pub record CreateOrderDto : Type 0 where
  pub sku : Option ℕ
  pub items : Option (List OrderLineDto)

-- `dto.items ?? (dto.sku ? [{ sku: dto.sku }] : [])`
abbrev pub one_line : Option ℕ → List OrderLineDto
one_line none = []
one_line (some sku) = record { sku = sku; quantity = none } ∷ []

abbrev pub lines_of : CreateOrderDto → List OrderLineDto
lines_of dto = or_else dto.items (one_line dto.sku)

abbrev pub sku_of : Product → ℕ
sku_of p = p.sku

-- `Array.from({ length: line.quantity ?? 1 }, () => bySku.get(line.sku)!)`, over every line.
abbrev pub units_of_line : List Product → OrderLineDto → List Product
units_of_line products line = elim (find_by sku_of line.sku products) [
  | none ↦ []
  | some product ↦ replicate (or_else line.quantity 1) product
]

unfoldable pub units_of : List Product → List OrderLineDto → List Product
units_of products [] = []
units_of products (line ∷ lines) = units_of_line products line ++ units_of products lines

abbrev pub unknown_sku : List Product → List OrderLineDto → Bool
unknown_sku products lines = any (λ line. not (has sku_of line.sku products)) lines

abbrev pub price_sum : List Product → ℕ
price_sum = sum_where (λ _. true) (λ (p : Product). p.price)

-- The rows of `units.map((product, position) => ...)`.
unfoldable pub item_rows : (ℕ → ℕ) → ℕ → ℕ → ℕ → List Product → List OrderItem
item_rows draw owner currency position [] = []
item_rows draw owner currency position (product ∷ rest) =
    record {
      id = draw (suc position);
      order_id = owner;
      position = position;
      sku = product.sku;
      amount = product.price;
      currency = currency;
      status = ItemStatus.pending;
      refund_reason = none;
    }
    ∷ item_rows draw owner currency (suc position) rest

abbrev pub created_item : OrderItem → CreatedItem
created_item i = record { id = i.id; position = i.position; sku = i.sku; amount = i.amount }

unfoldable pub insert_order : Order → Action Unit
insert_order o db =
    if has order_id o.id db.orders
    then (Result.err (unique_violation order_key), db)
    else (Result.ok tt, record db { orders = db.orders ++ o ∷ [] })

unfoldable pub insert_items : List OrderItem → Action Unit
insert_items [] db = (Result.ok tt, db)
insert_items (i ∷ is) db =
    let rest = insert_items is (record db { items = db.items ++ i ∷ [] }) in
    if has item_id i.id db.items then (Result.err (unique_violation item_key), db) else rest

-- The transaction's body: the order, its items, the first history row.
unfoldable pub insert_all : (ℕ → ℕ) → ℕ → ℕ → List Product → Action ℕ
insert_all draw currency amount units = do
  raise_if (ltb int_max amount) out_of_range
  now ← gets (λ db. db.now)
  insert_order (record {
    id = draw zero;
    amount = amount;
    currency = currency;
    status = OrderStatus.created;
    paid_at = none;
    not_before = none;
    updated_at = now;
  })
  insert_items (item_rows draw (draw zero) currency 0 units)
  insert_event (draw zero) none (
      EventData.order_created amount currency
        (map created_item (item_rows draw (draw zero) currency 0 units)))
  pure (draw zero)

-- From `units[0].currency` on; reading it of no unit at all throws.
unfoldable pub create_units : (ℕ → ℕ) → List Product → Action ℕ
create_units draw [] = raise type_error
create_units draw (u ∷ us) = do
  raise_if (any (λ p. not (p.currency == u.currency)) (u ∷ us)) bad_request
  transaction (insert_all draw u.currency (price_sum (u ∷ us)) (u ∷ us))

unfoldable pub create_lines : (ℕ → ℕ) → List OrderLineDto → Action ℕ
create_lines draw [] = raise bad_request
create_lines draw (l ∷ ls) = do
  products ← gets (λ db. db.products)
  raise_if (unknown_sku products (l ∷ ls)) not_found
  create_units draw (units_of products (l ∷ ls))

-- `create`, up to the id that `get` is then called with.
unfoldable pub create : (ℕ → ℕ) → CreateOrderDto → Action ℕ
create draw dto = create_lines draw (lines_of dto)

-- `RETRYABLE.includes(order.status)`
abbrev pub retryable : OrderStatus → Bool
retryable s = order_status_eq s OrderStatus.delivery_failed

-- `uuid_of` is the uuid that a text denotes, if it is one, whatever the case of its letters.
module _ (uuid_of : ℕ → Option ℕ) where
  abbrev pub order_of : ℕ → Db → Option Order
  order_of text db = elim (uuid_of text) [ none ↦ none | some id ↦ find_order id db ]

  -- `find`: not_found unless the text is a uuid of an order.
  unfoldable pub find_or_raise : ℕ → Action Order
  find_or_raise text db = elim (order_of text db) [
    | none ↦ (Result.err not_found, db)
    | some order ↦ (Result.ok order, db)
  ]

  -- `retryDelivery`, up to the wake of the worker and the view that `get` returns.
  unfoldable pub retry_delivery : ℕ → Action Unit
  unfolding find_or_raise
  retry_delivery text = do
    order ← find_or_raise text
    raise_if (not (retryable order.status)) (conflict order.status)
    catch_as changed_concurrently (
        transition_order order.id order.status OrderStatus.paid OrderExtra.nothing
          OrderDetail.operator)
