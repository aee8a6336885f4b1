-- ===== src/System/Lives.antt =====
-- What becomes of an order and of an item in the course of the system's steps.
use hh_game_market_backend.Base.{
  ℕ, Bool, ◌≡◌, refl, some, List, arith, if◌then◌else◌, Bool-cases, inl, inr, sym, ◌∙◌, subst,
}
use hh_game_market_backend.Base.Keyed.{find_by, find_by-append, find_by-updated, has_of_find}
use hh_game_market_backend.Model.{
  OrderStatus, order_status_eq_iff, ItemStatus, item_status_eq_iff, Order, OrderItem, OrderExtra,
  ItemExtra, Db,
}
use hh_game_market_backend.Transition.{order_in, set_order, item_in, set_item}
use hh_game_market_backend.Transition.Facts.{order_id, item_id, find_order, find_item}
use hh_game_market_backend.Books.Sums.{set_item_keeps}
use hh_game_market_backend.History.Kept.{set_order_keeps}
use hh_game_market_backend.Queue.{is_stale, put_back}
use hh_game_market_backend.System.{Recoverable, stale, parked}
use hh_game_market_backend.System.Change.{
  OrderMove, ItemMove, gives_up, Change, quiet, order_moves, item_moves, order_comes, put_backs,
  order_row, item_row, event_comes,
}

-- Any number of moves.
pub data OrderLife : OrderStatus → OrderStatus → Type 0 where
  stays : {s : OrderStatus} → OrderLife s s
  moves : {s t u : OrderStatus} → OrderLife s t → OrderMove t u → OrderLife s u

pub data ItemLife : ItemStatus → ItemStatus → Type 0 where
  stays : {s : ItemStatus} → ItemLife s s
  moves : {s t u : ItemStatus} → ItemLife s t → ItemMove t u → ItemLife s u

-- An order, and what it is later.
pub record OrderLater (o p : Order) : Type 0 where
  pub id : p.id ≡ o.id
  pub amount : p.amount ≡ o.amount
  pub currency : p.currency ≡ o.currency
  pub life : OrderLife o.status p.status

pub record ItemLater (i j : OrderItem) : Type 0 where
  pub id : j.id ≡ i.id
  pub order_id : j.order_id ≡ i.order_id
  pub position : j.position ≡ i.position
  pub sku : j.sku ≡ i.sku
  pub amount : j.amount ≡ i.amount
  pub currency : j.currency ≡ i.currency
  pub life : ItemLife i.status j.status

pub order_same : (o : Order) → OrderLater o o
order_same o = record { id = refl; amount = refl; currency = refl; life = OrderLife.stays }

pub item_same : (i : OrderItem) → ItemLater i i
item_same i = record {
  id = refl;
  order_id = refl;
  position = refl;
  sku = refl;
  amount = refl;
  currency = refl;
  life = ItemLife.stays;
}

one_move : {s t : OrderStatus} → OrderMove s t → OrderLife s t
one_move m = OrderLife.moves OrderLife.stays m

order_set :
    {from to : OrderStatus} (extra : OrderExtra) (now : ℕ) (o : Order)
    → o.status ≡ from
    → OrderMove from to
    → OrderLater o (set_order to extra now o)
order_set {from} {to} extra now o same m =
    let (kid, kam, kcur) = set_order_keeps to extra now o in
    record {
      id = kid;
      amount = kam;
      currency = kcur;
      life = one_move (subst (λ s. OrderMove s to) (sym same) m);
    }

item_set :
    {from to : ItemStatus} (extra : ItemExtra) (i : OrderItem)
    → i.status ≡ from
    → ItemMove from to
    → ItemLater i (set_item to extra i)
item_set {from} {to} extra i same m = go extra
  where
    moved : ItemLife i.status to
    moved = ItemLife.moves ItemLife.stays (subst (λ s. ItemMove s to) (sym same) m)

    go : (extra : ItemExtra) → ItemLater i (set_item to extra i)
    go ItemExtra.nothing = record {
      id = refl;
      order_id = refl;
      position = refl;
      sku = refl;
      amount = refl;
      currency = refl;
      life = moved;
    }
    go (ItemExtra.refund_reason r) = record {
      id = refl;
      order_id = refl;
      position = refl;
      sku = refl;
      amount = refl;
      currency = refl;
      life = moved;
    }

order_life :
    (id : ℕ) {from to : OrderStatus} (extra : OrderExtra) (now : ℕ) (o : Order)
    → OrderMove from to
    → OrderLater o (if order_in id from o then set_order to extra now o else o)
order_life id {from} extra now o m = elim (Bool-cases (order_in id from o)) [
  | inr miss ↦ rw miss (order_same o)
  | inl hit ↦
      rw hit (order_set extra now o ((order_status_eq_iff o.status from).0 (ground (arith, hit))) m)
]

item_life :
    (id : ℕ) {from to : ItemStatus} (extra : ItemExtra) (i : OrderItem)
    → ItemMove from to
    → ItemLater i (if item_in id from i then set_item to extra i else i)
item_life id {from} extra i m = elim (Bool-cases (item_in id from i)) [
  | inr miss ↦ rw miss (item_same i)
  | inl hit ↦
      rw hit (item_set extra i ((item_status_eq_iff i.status from).0 (ground (arith, hit))) m)
]

abbrev pub LaterOrder : Db → ℕ → Order → Type 0
LaterOrder b k o = (p : Order) × (find_order k b ≡ some p) × OrderLater o p

abbrev pub LaterItem : Db → ℕ → OrderItem → Type 0
LaterItem b k i = (j : OrderItem) × (find_item k b ≡ some j) × ItemLater i j

Recoverable-move : {s : OrderStatus} → Recoverable s → OrderMove s OrderStatus.paid
Recoverable-move stale = OrderMove.defers
Recoverable-move parked = OrderMove.retries

module _ (k : ℕ) where
  at_orders :
      (o : Order) {now orders : List Order}
      → now ≡ orders
      → (p : Order) → find_by order_id k orders ≡ some p
      → OrderLater o p
      → (q : Order) × (find_by order_id k now ≡ some q) × OrderLater o q
  at_orders o same p found later = (p, (rw same found), later)

  pub Change-order :
      {w : Bool} {a b : Db}
      → Change w a b
      → (o : Order) → find_order k a ≡ some o
      → LaterOrder b k o
  Change-order (quiet os is es le) o found = at_orders o os o found (order_same o)
  Change-order (item_moves id extra detail i f s m price os is es le) o found =
      at_orders o os o found (order_same o)
  Change-order {a} (order_moves id {from} {to} extra detail row f s m e os is es le) o found =
      at_orders o os _
        (find_by-updated order_id (order_in id from) (set_order to extra a.now)
          (λ x. (set_order_keeps to extra a.now x).0) k a.orders o found)
        (order_life id extra a.now o m)
  Change-order (item_row id extra i w f s os is es le) o found =
      at_orders o os o found (order_same o)
  Change-order (event_comes e w late os is es le) o found = at_orders o os o found (order_same o)
  Change-order {a} (order_row id {from} {to} extra row w f s m e os is es le) o found =
      at_orders o os _
        (find_by-updated order_id (order_in id from) (set_order to extra a.now)
          (λ x. (set_order_keeps to extra a.now x).0) k a.orders o found)
        (order_life id extra a.now o m)
  Change-order {a} (order_comes draw currency units fresh keys) o found = (
    o,
    find_by-append order_id k a.orders _ ∙ rw (has_of_find order_id k a.orders o found) found,
    order_same o,
  )
  Change-order {a} (put_backs from before r os is es le) o found =
      at_orders o os _
        (find_by-updated order_id (is_stale from before) (put_back a.now) (λ x. refl) k a.orders o
          found)
        (elim (Bool-cases (is_stale from before o)) [
          | inr miss ↦ rw miss (order_same o)
          | inl hit ↦ rw hit (record {
            id = refl;
            amount = refl;
            currency = refl;
            life = one_move (
                subst (λ s. OrderMove s OrderStatus.paid)
                  (sym ((order_status_eq_iff o.status from).0 (ground (arith, hit))))
                  (Recoverable-move r));
          })
        ])

  at_items :
      (i : OrderItem) {now items : List OrderItem}
      → now ≡ items
      → (j : OrderItem) → find_by item_id k items ≡ some j
      → ItemLater i j
      → (q : OrderItem) × (find_by item_id k now ≡ some q) × ItemLater i q
  at_items i same j found later = (j, (rw same found), later)

  pub Change-item :
      {w : Bool} {a b : Db}
      → Change w a b
      → (i : OrderItem) → find_item k a ≡ some i
      → LaterItem b k i
  Change-item (quiet os is es le) i found = at_items i is i found (item_same i)
  Change-item (order_moves id extra detail row f s m e os is es le) i found =
      at_items i is i found (item_same i)
  Change-item (put_backs from before r os is es le) i found = at_items i is i found (item_same i)
  Change-item {a} (order_comes draw currency units fresh keys) i found = (
    i,
    find_by-append item_id k a.items _ ∙ rw (has_of_find item_id k a.items i found) found,
    item_same i,
  )
  Change-item {a} (item_moves id {from} {to} extra detail row f s m price os is es le) i found =
      at_items i is _
        (find_by-updated item_id (item_in id from) (set_item to extra)
          (λ x. (set_item_keeps to extra x).0) k a.items i found)
        (item_life id extra i m)
  Change-item (order_row id extra row w f s m e os is es le) i found =
      at_items i is i found (item_same i)
  Change-item (event_comes e w late os is es le) i found = at_items i is i found (item_same i)
  Change-item {a} (item_row id extra row w f s os is es le) i found =
      at_items i is _
        (find_by-updated item_id (item_in id ItemStatus.pending)
          (set_item ItemStatus.refunding extra)
          (λ x. (set_item_keeps ItemStatus.refunding extra x).0) k a.items i found)
        (item_life id extra i gives_up)
