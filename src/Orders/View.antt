-- ===== src/Orders/View.antt =====
-- `get` of backend/src/orders/orders.service.ts: the order, its items with what became of each,
-- and where the money is.
use hh_game_market_backend.Base.{
  ℕ, Bool, false, Option, none, some, List, [], ◌∷◌, map, ◌==◌, if◌then◌else◌, leb, filter, any,
  sum_where,
}
use hh_game_market_backend.Base.Keyed.{find_by}
use hh_game_market_backend.Model.{
  OrderStatus, is_paid, ItemStatus, item_status_eq, is_open, RefundReason, Order, OrderItem,
  Delivery, Refund, DeliveryAttempt, SupplierDiscrepancy, Db,
}

-- `ORDER BY position`, by insertion of each row in its place.
unfoldable pub insert_by_position : OrderItem → List OrderItem → List OrderItem
insert_by_position i [] = i ∷ []
insert_by_position i (j ∷ js) =
    let rest = insert_by_position i js in if leb i.position j.position then i ∷ j ∷ js else j ∷ rest

unfoldable pub sort_by_position : List OrderItem → List OrderItem
unfolding insert_by_position
sort_by_position [] = []
sort_by_position (i ∷ is) = insert_by_position i (sort_by_position is)

-- `find({ where: { orderId }, order: { position: 'ASC' } })`
unfoldable pub items_of : ℕ → Db → List OrderItem
unfolding sort_by_position
items_of id db = sort_by_position (filter (λ i. i.order_id == id) db.items)

pub record ItemView : Type 0 where
  pub item : OrderItem
  pub delivery : Option (ℕ × ℕ)
  pub refund : Option (ℕ × RefundReason)

abbrev view_of : List Delivery → List Refund → OrderItem → ItemView
view_of deliveries refunds i = record {
  item = i;
  delivery = elim (find_by (λ (d : Delivery). d.order_item_id) i.id deliveries) [
    | none ↦ none
    | some d ↦ some (d.code, d.supplier)
  ];
  refund = elim (find_by (λ (r : Refund). r.order_item_id) i.id refunds) [
    | none ↦ none
    | some r ↦ some (r.amount, r.reason)
  ];
}

pub record Money : Type 0 where
  pub paid : ℕ
  pub delivered : ℕ
  pub refunded : ℕ
  pub pending : ℕ

-- The sums over the items of an order, by status.
abbrev pub sum_of : (ItemStatus → Bool) → List OrderItem → ℕ
sum_of p = sum_where (λ i. p i.status) (λ i. i.amount)

unfoldable pub money_of : OrderStatus → ℕ → List OrderItem → Money
money_of status amount items =
    let paid = if is_paid status then amount else 0 in
    record {
      paid = paid;
      delivered = sum_of (λ s. item_status_eq s ItemStatus.delivered) items;
      refunded = sum_of (λ s. item_status_eq s ItemStatus.refunded) items;
      pending = if paid == 0 then 0 else sum_of is_open items;
    }

pub record OrderView : Type 0 where
  pub order : Order
  pub items : List ItemView
  pub money : Money
  pub attempts : List DeliveryAttempt
  pub discrepancies : List SupplierDiscrepancy

abbrev about_item : List OrderItem → Option ℕ → Bool
about_item items none = false
about_item items (some id) = any (λ (i : OrderItem). i.id == id) items

-- The body of `get` once the order is found.
unfoldable pub view : Order → Db → OrderView
unfolding items_of money_of
view order db =
    let items = items_of order.id db in
    record {
      order = order;
      items =
          map
            (view_of (filter (λ (d : Delivery). d.order_id == order.id) db.deliveries)
              (filter (λ (r : Refund). r.order_id == order.id) db.refunds))
            items;
      money = money_of order.status order.amount items;
      attempts = filter (λ (a : DeliveryAttempt). a.order_id == order.id) db.attempts;
      discrepancies =
          filter (λ (d : SupplierDiscrepancy). about_item items d.order_item_id) db.discrepancies;
    }
