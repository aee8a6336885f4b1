-- ===== src/Transition/Facts.antt =====
-- What a transition does, given that ids are primary keys: either exactly the one row moves and
-- one event is written, or nothing happens and the caller is told.
use hh_game_market_backend.Base.{
  ℕ, ◌≡◌, ◌⊎◌, Bool, false, none, some, Option, [], ◌∷◌, ◌++◌, arith, ap, List, inl, inr,
  Option-cases, Bool-cases,
}
use hh_game_market_backend.Base.Keyed.{
  update_where, find_by, Distinct, count_one, count-absent, update-absent, update_miss, filter_one,
  filter-absent, absent_of_none,
}
use hh_game_market_backend.Model.{
  OrderStatus, ItemStatus, order_status_eq, item_status_eq, item_status_eq_refl,
  order_status_eq_iff, item_status_eq_iff, Order, OrderItem, OrderExtra, OrderDetail, ItemExtra,
  ItemDetail, EventData, OrderEvent, Db, Result, no_longer,
}
use hh_game_market_backend.Transition.{
  order_in, item_in, set_order, set_item, transition_order, transition_item, update_order,
  update_item,
}

abbrev pub order_id : Order → ℕ
order_id o = o.id

abbrev pub item_id : OrderItem → ℕ
item_id i = i.id

abbrev pub find_order : ℕ → Db → Option Order
find_order id db = find_by order_id id db.orders

abbrev pub find_item : ℕ → Db → Option OrderItem
find_item id db = find_by item_id id db.items

-- Does the row exist, and is it still in that status?
abbrev pub order_is : Option Order → OrderStatus → Bool
order_is none s = false
order_is (some o) s = order_status_eq o.status s

abbrev pub item_is : Option OrderItem → ItemStatus → Bool
item_is none s = false
item_is (some i) s = item_status_eq i.status s

-- The database after a transition that went through.
abbrev pub order_moved : ℕ → OrderStatus → OrderStatus → OrderExtra → OrderDetail → Db → Db
order_moved id from to extra detail db =
    let event : OrderEvent = record {
      order_id = id;
      order_item_id = none;
      payload = EventData.order_status from to extra detail;
      at = db.now;
    } in
    record db {
      orders = update_where (order_in id from) (set_order to extra db.now) db.orders;
      events = db.events ++ event ∷ [];
    }

abbrev pub item_moved_in : ℕ → ItemStatus → ItemStatus → ItemExtra → ItemDetail → ℕ → Db → Db
item_moved_in id from to extra detail owner db =
    let event : OrderEvent = record {
      order_id = owner;
      order_item_id = some id;
      payload = EventData.item_status from to extra detail;
      at = db.now;
    } in
    record db {
      items = update_where (item_in id from) (set_item to extra) db.items;
      events = db.events ++ event ∷ [];
    }

module _ (id : ℕ) (from to : OrderStatus) (extra : OrderExtra) (detail : OrderDetail) (db : Db)
    (keys : Distinct order_id db.orders) where
  -- The row is there in the expected status: it moves, with one event.
  pub transition_order-moves :
      (o : Order)
      → find_order id db ≡ some o
      → o.status ≡ from
      → transition_order id from to extra detail db
        ≡ (Result.ok tt, order_moved id from to extra detail db)
  unfolding transition_order
  transition_order-moves o found same =
      ground
        (arith, count_one order_id (λ r. order_status_eq r.status from) (λ r. r) id db.orders o)

  -- No such row, or it has moved on: nothing is written.
  pub transition_order-refused :
      order_is (find_order id db) from ≡ false
      → transition_order id from to extra detail db ≡ (Result.err no_longer, db)
  unfolding transition_order
  transition_order-refused stale = elim (Option-cases (find_order id db)) [
    | inl gone ↦ ground (
      arith,
      absent_of_none order_id id db.orders gone,
      count-absent order_id (λ r. order_status_eq r.status from) (λ r. r) id db.orders,
      update-absent order_id (λ r. order_status_eq r.status from) (set_order to extra db.now) id
          db.orders,
    )
    | inr (o, found) ↦ ground (
      arith,
      count_one order_id (λ r. order_status_eq r.status from) (λ r. r) id db.orders o keys found,
      update_miss order_id (λ r. order_status_eq r.status from) (set_order to extra db.now) id
          db.orders o keys found,
    )
  ]

module _ (id : ℕ) (from to : ItemStatus) (extra : ItemExtra) (detail : ItemDetail) (db : Db)
    (keys : Distinct item_id db.items) where
  -- The same for an item.
  pub transition_item-moves :
      (i : OrderItem)
      → find_item id db ≡ some i
      → i.status ≡ from
      → transition_item id from to extra detail db
        ≡ (Result.ok tt, item_moved_in id from to extra detail i.order_id db)
  unfolding transition_item
  transition_item-moves i found same = rw (
    filter_one item_id (λ r. item_status_eq r.status from) id db.items i keys found,
    same,
    item_status_eq_refl,
  )

  pub transition_item-refused :
      item_is (find_item id db) from ≡ false
      → transition_item id from to extra detail db ≡ (Result.err no_longer, db)
  unfolding transition_item
  transition_item-refused stale = elim (Option-cases (find_item id db)) [
    | inl gone ↦ ground (
      arith,
      absent_of_none item_id id db.items gone,
      filter-absent item_id (λ r. item_status_eq r.status from) id db.items,
      update-absent item_id (λ r. item_status_eq r.status from) (set_item to extra) id db.items,
    )
    | inr (i, found) ↦ ground (
      arith,
      filter_one item_id (λ r. item_status_eq r.status from) id db.items i keys found,
      update_miss item_id (λ r. item_status_eq r.status from) (set_item to extra) id db.items i keys
          found,
    )
  ]

-- The UPDATE alone: nothing is written, or the row is there in the expected status.
pub update_order-cases :
    (id : ℕ) (from to : OrderStatus) (extra : OrderExtra) (db : Db)
    → Distinct order_id db.orders
    → ((update_order id from to extra db).1 ≡ db)
      ⊎ ((o : Order) × (find_order id db ≡ some o) × (o.status ≡ from))
unfolding update_order
update_order-cases id from to extra db keys =
    let g : Order → Bool = λ r. order_status_eq r.status from in
    let put : List Order → Db = λ rows. record db { orders = rows } in
    elim (Option-cases (find_order id db)) [
      | inl gone ↦ inl (
          ap put (
            update-absent order_id g (set_order to extra db.now) id db.orders
              (absent_of_none order_id id db.orders gone)))
      | inr (o, found) ↦ elim (Bool-cases (order_status_eq o.status from)) [
        | inl hit ↦ inr (o, found, (order_status_eq_iff o.status from).0 hit)
        | inr miss ↦ inl (
            ap put
              (update_miss order_id g (set_order to extra db.now) id db.orders o keys found miss))
      ]
    ]

pub update_item-cases :
    (id : ℕ) (from to : ItemStatus) (extra : ItemExtra) (db : Db)
    → Distinct item_id db.items
    → ((update_item id from to extra db).1 ≡ db)
      ⊎ ((i : OrderItem) × (find_item id db ≡ some i) × (i.status ≡ from))
unfolding update_item
update_item-cases id from to extra db keys =
    let g : OrderItem → Bool = λ r. item_status_eq r.status from in
    let put : List OrderItem → Db = λ rows. record db { items = rows } in
    elim (Option-cases (find_item id db)) [
      | inl gone ↦ inl (
          ap put (
            update-absent item_id g (set_item to extra) id db.items
              (absent_of_none item_id id db.items gone)))
      | inr (i, found) ↦ elim (Bool-cases (item_status_eq i.status from)) [
        | inl hit ↦ inr (i, found, (item_status_eq_iff i.status from).0 hit)
        | inr miss ↦
            inl (ap put (update_miss item_id g (set_item to extra) id db.items i keys found miss))
      ]
    ]
