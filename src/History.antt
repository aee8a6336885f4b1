-- ===== src/History.antt =====
-- backend/src/history/history.service.ts: an order as it was at a moment, replayed from its events.
pub mod Replay
pub mod Lines
pub mod Kept
pub mod Batch
pub mod Begins
pub mod Now
pub mod Span
use hh_game_market_backend.Base.{
  ℕ, ◌+◌, Bool, true, false, ◌&&◌, Option, none, some, List, [], ◌∷◌, ◌++◌, ◌==◌, ltb,
  if◌then◌else◌, filter, length, sum_where,
}
use hh_game_market_backend.Base.Keyed.{has, update_where}
use hh_game_market_backend.Model.{
  OrderStatus, is_paid, ItemStatus, item_status_eq, is_open, RefundReason, CreatedItem, ItemDetail,
  EventData, OrderEvent, Db,
}
use hh_game_market_backend.Orders.View.{Money}

-- A field of an event that is not there reads as the text `undefined`, here `none`.
pub record ItemState : Type 0 where
  pub id : ℕ
  pub position : ℕ
  pub sku : ℕ
  pub amount : ℕ
  pub status : ItemStatus
  pub delivery : Option (Option (ℕ × ℕ))
  pub refund : Option (ℕ × Option RefundReason)

abbrev pub state_key : ItemState → ℕ
state_key i = i.id

abbrev pub state_of : CreatedItem → ItemState
state_of c = record {
  id = c.id;
  position = c.position;
  sku = c.sku;
  amount = c.amount;
  status = ItemStatus.pending;
  delivery = none;
  refund = none;
}

-- A JavaScript Map: setting a key that is there keeps its place.
abbrev pub map_set : List ItemState → ItemState → List ItemState
map_set items i =
    if has state_key i.id items
    then update_where (λ j. j.id == i.id && true) (λ _. i) items
    else items ++ i ∷ []

-- `new Map(created.items.map(...))`, from the entries set so far.
unfoldable pub map_of : List ItemState → List CreatedItem → List ItemState
map_of items [] = items
map_of items (c ∷ cs) = map_of (map_set items (state_of c)) cs

abbrev code_and_supplier : ItemDetail → Option (ℕ × ℕ)
code_and_supplier (ItemDetail.issued code supplier _ _) = some (code, supplier)
code_and_supplier _ = none

abbrev amount_of : ItemDetail → ℕ
amount_of (ItemDetail.amount a) = a
amount_of (ItemDetail.issued _ _ _ a) = a
amount_of (ItemDetail.refund a _) = a

abbrev reason_of : ItemDetail → Option RefundReason
reason_of (ItemDetail.refund _ r) = r
reason_of _ = none

-- What one `item.status` event does to its item.
unfoldable pub item_after : ItemStatus → ItemDetail → ItemState → ItemState
item_after ItemStatus.delivered d i = record i {
  status = ItemStatus.delivered;
  delivery = some (code_and_supplier d);
}
item_after ItemStatus.refunded d i = record i {
  status = ItemStatus.refunded;
  refund = some (amount_of d, reason_of d);
}
item_after s d i = record i { status = s }

-- The locals of `stateAt`: `created`, `status`, `items`.
pub record Past : Type 0 where
  pub amount : ℕ
  pub currency : ℕ
  pub status : OrderStatus
  pub items : List ItemState

-- `items.get(...)` of a key that is not there leaves the map alone.
abbrev pub item_event : Option ℕ → ItemStatus → ItemDetail → Past → Past
item_event none to d p = p
item_event (some id) to d p = record p {
  items = update_where (λ i. i.id == id && true) (item_after to d) p.items;
}

abbrev pub apply_payload : EventData → Option ℕ → Past → Past
apply_payload (EventData.order_status from to _ _) item p = record p { status = to }
apply_payload (EventData.item_status from to _ d) item p = item_event item to d p
apply_payload (EventData.order_created _ _ _) item p = p

-- `for (const event of events.slice(1))`
unfoldable pub apply_events : Past → List OrderEvent → Past
apply_events p [] = p
apply_events p (e ∷ es) = apply_events (apply_payload e.payload e.order_item_id p) es

abbrev pub begin : EventData → List OrderEvent → Option Past
begin (EventData.order_created amount currency items) rest = some (
    apply_events
      (record {
        amount = amount;
        currency = currency;
        status = OrderStatus.created;
        items = map_of [] items;
      })
      rest)
begin _ rest = none

unfoldable pub replay : List OrderEvent → Option Past
unfolding apply_events map_of
replay [] = none
replay (e ∷ rest) = begin e.payload rest

pub record StateAt : Type 0 where
  pub at : ℕ
  pub id : ℕ
  pub status : OrderStatus
  pub amount : ℕ
  pub currency : ℕ
  pub items : List ItemState
  pub money : Money
  pub events_applied : ℕ

-- `sum(statuses)`
abbrev pub past_sum : (ItemStatus → Bool) → List ItemState → ℕ
past_sum p = sum_where (λ i. p i.status) (λ i. i.amount)

abbrev pub past_money : Past → Money
past_money p =
    let paid = if is_paid p.status then p.amount else 0 in
    record {
      paid = paid;
      delivered = past_sum (λ s. item_status_eq s ItemStatus.delivered) p.items;
      refunded = past_sum (λ s. item_status_eq s ItemStatus.refunded) p.items;
      pending = if paid == 0 then 0 else past_sum is_open p.items;
    }

-- `find({ where: { orderId, at: LessThan(at + 1) }, order: { id: 'ASC' } })`
abbrev pub events_until : ℕ → ℕ → Db → List OrderEvent
events_until id at db = filter (λ e. e.order_id == id && ltb e.at (at + 1)) db.events

-- `eventsOf`
abbrev pub events_of : ℕ → List OrderEvent → List OrderEvent
events_of id events = filter (λ e. e.order_id == id) events

-- The value that is returned.
abbrev pub described : (at id applied : ℕ) → Past → StateAt
described at id applied p = record {
  at = at;
  id = id;
  status = p.status;
  amount = p.amount;
  currency = p.currency;
  items = p.items;
  money = past_money p;
  events_applied = applied;
}

unfoldable pub state_at : ℕ → (at : ℕ) → Db → Option StateAt
unfolding replay
state_at id at db =
    let events = events_until id at db in
    elim (replay events) [ none ↦ none | some p ↦ some (described at id (length events) p) ]
