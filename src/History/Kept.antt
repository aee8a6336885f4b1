-- ===== src/History/Kept.antt =====
-- The history of every order keeps up with its rows: under a move of an order or of an item, and
-- under whatever concerns another order.
use hh_game_market_backend.Base.{
  ℕ, ◌≡◌, refl, true, false, some, List, [], ◌∷◌, ◌++◌, map, filter-append, ◌==◌, ==_iff, ==_refl,
  if◌then◌else◌, arith, Bool-cases, inl, inr, ap, sym, ◌∙◌, subst, All, All-append,
}
use mathlib.Core.List.{append-nil}
use hh_game_market_backend.Base.Keyed.{
  update_where, has, has-update_where, find_by, find_by-key, find_by-update_where, has_of_find,
  Distinct,
}
use hh_game_market_backend.Model.{
  OrderStatus, order_status_eq, order_status_eq_iff, ItemStatus, Order, OrderItem, OrderExtra,
  OrderDetail, ItemExtra, ItemDetail, EventData, OrderEvent,
}
use hh_game_market_backend.Transition.{order_in, set_order, item_in, set_item}
use hh_game_market_backend.Transition.Facts.{order_id, item_id}
use hh_game_market_backend.History.{events_of, replay, apply_events, apply_payload}
use hh_game_market_backend.History.Replay.{replay-append}
use hh_game_market_backend.History.Lines.{
  Recorded, rows_of, line_of_row, lines-event, lines-moved, lines-elsewhere,
}

abbrev pub RecordedOrder : List OrderItem → List OrderEvent → Order → Type 0
RecordedOrder items events o = Recorded items events o.id o.amount o.currency o.status

-- Every event belongs to an order, and every order is as its events say.
pub record Histories (orders : List Order) (items : List OrderItem) (events : List OrderEvent)
    : Type 0 where
  pub event_owners : All (λ (e : OrderEvent). has order_id e.order_id orders ≡ true) events
  pub per_order :
      (k : ℕ) (o : Order) → find_by order_id k orders ≡ some o → RecordedOrder items events o

pub events_of-own :
    (k : ℕ) (events : List OrderEvent) (e : OrderEvent)
    → e.order_id ≡ k
    → events_of k (events ++ e ∷ []) ≡ events_of k events ++ e ∷ []
events_of-own k events e own =
    filter-append (λ e. e.order_id == k) events (e ∷ []) ∙ rw (own, ==_refl k) refl

pub events_of-other :
    (k : ℕ) (events : List OrderEvent) (e : OrderEvent)
    → (e.order_id == k) ≡ false
    → events_of k (events ++ e ∷ []) ≡ events_of k events
events_of-other k events e other =
    filter-append (λ e. e.order_id == k) events (e ∷ [])
    ∙ rw other (append-nil (events_of k events))

module _ {items : List OrderItem} {events : List OrderEvent} {k amount currency : ℕ}
    {status : OrderStatus} (r : Recorded items events k amount currency status) where
  -- One more event of the order, of which the items' rows know nothing.
  pub Recorded-status :
      (e : OrderEvent) (from to : OrderStatus) (extra : OrderExtra) (detail : OrderDetail)
      → e.order_id ≡ k
      → e.payload ≡ EventData.order_status from to extra detail
      → Recorded items (events ++ e ∷ []) k amount currency to
  unfolding apply_events
  Recorded-status e from to extra detail own says = record {
    past = record r.past { status = to };
    replayed = rw (events_of-own k events e own) (
        replay-append (events_of k events) (e ∷ []) r.past r.replayed
        ∙ ap (λ d. some (apply_payload d e.order_item_id r.past)) says);
    same_amount = r.same_amount;
    same_currency = r.same_currency;
    same_status = refl;
    lines = r.lines;
  }

  -- An event of another order, and items that are others' to change.
  pub Recorded-other :
      (e : OrderEvent) (items' : List OrderItem)
      → (e.order_id == k) ≡ false
      → rows_of k items' ≡ rows_of k items
      → Recorded items' (events ++ e ∷ []) k amount currency status
  Recorded-other e items' other same = record {
    past = r.past;
    replayed = ap replay (events_of-other k events e other) ∙ r.replayed;
    same_amount = r.same_amount;
    same_currency = r.same_currency;
    same_status = r.same_status;
    lines = r.lines ∙ ap (map line_of_row) (sym same);
  }

  -- The move of an item of the order.
  pub Recorded-item :
      (e : OrderEvent) (x : ℕ) (from to : ItemStatus) (extra : ItemExtra) (detail : ItemDetail)
      (row : OrderItem)
      → e.order_id ≡ k
      → e.order_item_id ≡ some x
      → e.payload ≡ EventData.item_status from to extra detail
      → Distinct item_id items
      → find_by item_id x items ≡ some row
      → row.status ≡ from
      → row.order_id ≡ k
      → Recorded
          (update_where (item_in x from) (set_item to extra) items)
          (events ++ e ∷ [])
          k
          amount
          currency
          status
  unfolding apply_events
  Recorded-item e x from to extra detail row own about says keys found same mine =
      let past = apply_payload (EventData.item_status from to extra detail) (some x) r.past in
      record {
        past = past;
        replayed = rw (events_of-own k events e own) (
            replay-append (events_of k events) (e ∷ []) r.past r.replayed
            ∙ ap (λ d. some (apply_payload d e.order_item_id r.past)) says
            ∙ ap (λ i. some (apply_payload (EventData.item_status from to extra detail) i r.past))
                about);
        same_amount = r.same_amount;
        same_currency = r.same_currency;
        same_status = r.same_status;
        lines =
            lines-event x to detail r.past.items
            ∙ (rw r.lines (lines-moved x k from to extra items row keys found same mine));
      }

pub set_order_keeps :
    (to : OrderStatus) (extra : OrderExtra) (now : ℕ) (o : Order)
    → ((set_order to extra now o).id ≡ o.id)
      × ((set_order to extra now o).amount ≡ o.amount)
      × ((set_order to extra now o).currency ≡ o.currency)
set_order_keeps to OrderExtra.nothing now o = (refl, refl, refl)
set_order_keeps to (OrderExtra.paid_at t) now o = (refl, refl, refl)
set_order_keeps to (OrderExtra.not_before t) now o = (refl, refl, refl)

-- Two rows found under one id are one row.
pub find_by-same :
    (orders : List Order) (id k : ℕ) (x o : Order)
    → find_by order_id k orders ≡ some x
    → find_by order_id id orders ≡ some o
    → (x.id == id) ≡ true
    → x ≡ o
find_by-same orders id k x o here found hit =
    let at_k : x.id ≡ k = find_by-key order_id k orders x here in
    let at_id : k ≡ id = sym at_k ∙ (==_iff x.id id).0 hit in
    let again : find_by order_id id orders ≡ some x =
      subst (λ j. find_by order_id j orders ≡ some x) at_id here in
    ground (arith, sym again ∙ found)

module _ {orders : List Order} {items : List OrderItem} {events : List OrderEvent}
    (h : Histories orders items events) (e : OrderEvent) where
  owners_more :
      (orders' : List Order)
      → ((k : ℕ) → has order_id k orders' ≡ has order_id k orders)
      → has order_id e.order_id orders ≡ true
      → All (λ (e : OrderEvent). has order_id e.order_id orders' ≡ true) (events ++ e ∷ [])
  owners_more orders' same here =
      All-append _ events (e ∷ []) (All-weaken events h.event_owners) (same e.order_id ∙ here, tt)
    where
      All-weaken :
          (es : List OrderEvent)
          → All (λ (e : OrderEvent). has order_id e.order_id orders ≡ true) es
          → All (λ (e : OrderEvent). has order_id e.order_id orders' ≡ true) es
      All-weaken [] all = tt
      All-weaken (d ∷ es) all = (same d.order_id ∙ all.0, All-weaken es all.1)

  -- A move of an order, with its event.
  pub Histories-order :
      (id : ℕ) (from to : OrderStatus) (extra : OrderExtra) (now : ℕ) (detail : OrderDetail)
      (o : Order)
      → e.order_id ≡ id
      → e.payload ≡ EventData.order_status from to extra detail
      → find_by order_id id orders ≡ some o
      → o.status ≡ from
      → Histories
          (update_where (order_in id from) (set_order to extra now) orders)
          items
          (events ++ e ∷ [])
  Histories-order id from to extra now detail o own says found same = record {
    event_owners =
        owners_more _
          (λ k.
            has-update_where order_id (order_in id from) (set_order to extra now) keeps k orders)
          (ap (λ j. has order_id j orders) own ∙ has_of_find order_id id orders o found);
    per_order = λ k y at_k.
        let (x, here, is_x) =
          find_by-update_where order_id (order_in id from) (set_order to extra now) keeps k orders y
            at_k in
        subst (RecordedOrder items (events ++ e ∷ [])) (sym is_x) (after k x here);
  }
    where
      keeps : (x : Order) → order_id (set_order to extra now x) ≡ order_id x
      keeps x = (set_order_keeps to extra now x).0

      after :
          (k : ℕ) (x : Order)
          → find_by order_id k orders ≡ some x
          → RecordedOrder items
              (events ++ e ∷ [])
              (if order_in id from x then set_order to extra now x else x)
      after k x here =
          let r = h.per_order k x here in
          elim (Bool-cases (x.id == id)) [
            | inl hit ↦
                let this : x ≡ o = find_by-same orders id k x o here found hit in
                let guard : order_status_eq x.status from ≡ true =
                  (order_status_eq_iff x.status from).1 (ap (λ r. r.status) this ∙ same) in
                let (kid, kam, kcur) = set_order_keeps to extra now x in
                rw (hit, guard, kid, kam, kcur)
                  (Recorded-status r e from to extra detail (own ∙ sym ((==_iff x.id id).0 hit))
                    says)
            | inr miss ↦
                let other : (e.order_id == x.id) ≡ false = ground (arith, own) in
                rw miss (Recorded-other r e items other refl)
          ]

  -- A move of an item, with its event.
  pub Histories-item :
      (x : ℕ) (from to : ItemStatus) (extra : ItemExtra) (detail : ItemDetail) (row : OrderItem)
      → e.order_id ≡ row.order_id
      → e.order_item_id ≡ some x
      → e.payload ≡ EventData.item_status from to extra detail
      → Distinct item_id items
      → find_by item_id x items ≡ some row
      → row.status ≡ from
      → has order_id row.order_id orders ≡ true
      → Histories orders
          (update_where (item_in x from) (set_item to extra) items)
          (events ++ e ∷ [])
  Histories-item x from to extra detail row own about says keys found same there = record {
    event_owners = owners_more orders (λ k. refl) (ap (λ j. has order_id j orders) own ∙ there);
    per_order = λ k o here.
        let r = h.per_order k o here in
        elim (Bool-cases (row.order_id == o.id)) [
          | inl mine ↦
              let of_o : row.order_id ≡ o.id = (==_iff _ _).0 mine in
              Recorded-item r e x from to extra detail row (own ∙ of_o) about says keys found same
                of_o
          | inr other ↦
              Recorded-other r e _ (ap (λ j. j == o.id) own ∙ other)
                (lines-elsewhere x o.id from to extra items row keys found other)
        ];
  }
