-- ===== src/Transition/Cases.antt =====
-- The two ways that a transition can go.
use hh_game_market_backend.Base.{ℕ, ◌≡◌, refl, false, none, some, Option, ◌⊎◌, inl, inr, Bool-cases}
use hh_game_market_backend.Base.Keyed.{Distinct}
use hh_game_market_backend.Model.{
  OrderStatus, ItemStatus, order_status_eq, item_status_eq, order_status_eq_iff, item_status_eq_iff,
  Order, OrderItem, OrderExtra, OrderDetail, ItemExtra, ItemDetail, Db, Result, no_longer,
}
use hh_game_market_backend.Transition.{transition_order, transition_item}
use hh_game_market_backend.Transition.Facts.{
  order_id, item_id, find_order, find_item, order_is, item_is, order_moved, item_moved_in,
  transition_order-moves, transition_order-refused, transition_item-moves, transition_item-refused,
}

order_split :
    (found : Option Order) (from : OrderStatus)
    → ((o : Order) × (found ≡ some o) × (o.status ≡ from)) ⊎ (order_is found from ≡ false)
order_split none from = inr refl
order_split (some o) from = elim (Bool-cases (order_status_eq o.status from)) [
  | inl same ↦ inl (o, refl, (order_status_eq_iff o.status from).0 same)
  | inr stale ↦ inr stale
]

item_split :
    (found : Option OrderItem) (from : ItemStatus)
    → ((i : OrderItem) × (found ≡ some i) × (i.status ≡ from)) ⊎ (item_is found from ≡ false)
item_split none from = inr refl
item_split (some i) from = elim (Bool-cases (item_status_eq i.status from)) [
  | inl same ↦ inl (i, refl, (item_status_eq_iff i.status from).0 same)
  | inr stale ↦ inr stale
]

-- It goes through, and the row was there in the expected status; or nothing happens.
abbrev pub OrderCases : ℕ → OrderStatus → OrderStatus → OrderExtra → OrderDetail → Db → Type 0
OrderCases id from to extra detail db =
    ((o : Order) × (find_order id db ≡ some o)
      × (o.status ≡ from)
      × (transition_order id from to extra detail db
          ≡ (Result.ok tt, order_moved id from to extra detail db)))
    ⊎ (transition_order id from to extra detail db ≡ (Result.err no_longer, db))

abbrev pub ItemCases : ℕ → ItemStatus → ItemStatus → ItemExtra → ItemDetail → Db → Type 0
ItemCases id from to extra detail db =
    ((i : OrderItem) × (find_item id db ≡ some i)
      × (i.status ≡ from)
      × (transition_item id from to extra detail db
          ≡ (Result.ok tt, item_moved_in id from to extra detail i.order_id db)))
    ⊎ (transition_item id from to extra detail db ≡ (Result.err no_longer, db))

-- Where order ids are unique, a transition of an order either finds the order in the expected status,
-- moves that row and writes one event, or answers that it is no longer so and leaves the database as it
-- was.
pub transition_order-cases :
    (id : ℕ) (from to : OrderStatus) (extra : OrderExtra) (detail : OrderDetail) (db : Db)
    → Distinct order_id db.orders
    → OrderCases id from to extra detail db
transition_order-cases id from to extra detail db keys =
    elim (order_split (find_order id db) from) [
      | inl (o, found, same) ↦
          inl (o, found, same, transition_order-moves id from to extra detail db keys o found same)
      | inr stale ↦ inr (transition_order-refused id from to extra detail db keys stale)
    ]

-- Where item ids are unique, a transition of an item either finds the item in the expected status,
-- moves that row and writes one event for its order, or answers that it is no longer so and leaves the
-- database as it was.
pub transition_item-cases :
    (id : ℕ) (from to : ItemStatus) (extra : ItemExtra) (detail : ItemDetail) (db : Db)
    → Distinct item_id db.items
    → ItemCases id from to extra detail db
transition_item-cases id from to extra detail db keys = elim (item_split (find_item id db) from) [
  | inl (i, found, same) ↦
      inl (i, found, same, transition_item-moves id from to extra detail db keys i found same)
  | inr stale ↦ inr (transition_item-refused id from to extra detail db keys stale)
]
