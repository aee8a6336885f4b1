-- ===== src/History/Begins.antt =====
-- The history of an order begins with its creation.
use hh_game_market_backend.Base.{
  ℕ, suc, ◌≡◌, refl, true, false, some, List, [], ◌∷◌, ◌++◌, map, filter-append, ◌==◌, ==_iff,
  ==_refl, arith, Bool-cases, inl, inr, ap, sym, ◌∙◌, subst, All, All-append,
}
use mathlib.Core.List.{append-nil, append_assoc}
use hh_game_market_backend.Base.Keyed.{
  has, has-append, has_of_find, find_by, find_by-key, find_by-append, Distinct,
}
use hh_game_market_backend.Model.{OrderStatus, Product, Order, OrderItem, EventData, OrderEvent}
use hh_game_market_backend.Transition.Facts.{order_id, item_id}
use hh_game_market_backend.Orders.{item_rows, created_item, price_sum}
use hh_game_market_backend.Books.Creation.{owner_absent}
use hh_game_market_backend.History.{
  ItemState, state_key, state_of, map_set, map_of, apply_events, begin, replay, events_of,
}
use hh_game_market_backend.History.Lines.{rows_of, line_of_state, line_of_row}
use hh_game_market_backend.History.Kept.{Histories, RecordedOrder, Recorded-other, events_of-own}

rows_of-absent :
    (k : ℕ) (items : List OrderItem)
    → has (λ (i : OrderItem). i.order_id) k items ≡ false
    → rows_of k items ≡ []
rows_of-absent k [] h = refl
rows_of-absent k (i ∷ items) h = ground (arith, rows_of-absent k items)

events_of-absent :
    (k : ℕ) (events : List OrderEvent)
    → has (λ (e : OrderEvent). e.order_id) k events ≡ false
    → events_of k events ≡ []
events_of-absent k [] h = refl
events_of-absent k (e ∷ events) h = ground (arith, events_of-absent k events)

Distinct-right :
    (items rows : List OrderItem) → Distinct item_id (items ++ rows) → Distinct item_id rows
Distinct-right [] rows d = d
Distinct-right (i ∷ items) rows d = Distinct-right items rows d.1

abbrev state_of_row : OrderItem → ItemState
state_of_row r = state_of (created_item r)

-- None of these rows is in the map yet.
abbrev New : List ItemState → List OrderItem → Type 0
New acc rows = All (λ (r : OrderItem). has state_key r.id acc ≡ false) rows

New-more :
    (acc : List ItemState) (r : OrderItem) (rows : List OrderItem)
    → has item_id r.id rows ≡ false
    → New acc rows
    → New (acc ++ state_of_row r ∷ []) rows
New-more acc r [] h new = tt
New-more acc r (q ∷ rows) h new = (
  has-append state_key q.id acc (state_of_row r ∷ []) ∙ ground (arith, new.0),
  New-more acc r rows (ground arith) new.1,
)

map_set-new :
    (acc : List ItemState) (i : ItemState)
    → has state_key i.id acc ≡ false
    → map_set acc i ≡ acc ++ i ∷ []
map_set-new acc i new = rw new refl

-- Rows with distinct ids go into the Map one after the other.
map_of-rows :
    (acc : List ItemState) (rows : List OrderItem)
    → Distinct item_id rows
    → New acc rows
    → map_of acc (map created_item rows) ≡ acc ++ map state_of_row rows
unfolding map_of
map_of-rows acc [] d new = sym (append-nil acc)
map_of-rows acc (r ∷ rows) d new =
    ap (λ m. map_of m (map created_item rows)) (map_set-new acc (state_of_row r) new.0)
    ∙ (map_of-rows (acc ++ state_of_row r ∷ []) rows d.1 (New-more acc r rows d.0 new.1)
        ∙ append_assoc acc (state_of_row r ∷ []) (map state_of_row rows))

New-nil : (rows : List OrderItem) → New [] rows
New-nil [] = tt
New-nil (r ∷ rows) = (refl, New-nil rows)

module _ (draw : ℕ → ℕ) (owner currency : ℕ) where
  lines-item_rows :
      (position : ℕ) (units : List Product)
      → map line_of_state (map state_of_row (item_rows draw owner currency position units))
        ≡ map line_of_row (item_rows draw owner currency position units)
  unfolding item_rows
  lines-item_rows position [] = refl
  lines-item_rows position (u ∷ units) = rw (lines-item_rows (suc position) units) refl

  rows_of-own :
      (position : ℕ) (units : List Product)
      → rows_of owner (item_rows draw owner currency position units)
        ≡ item_rows draw owner currency position units
  unfolding item_rows
  rows_of-own position [] = refl
  rows_of-own position (u ∷ units) = rw (==_refl owner, rows_of-own (suc position) units) refl

  rows_of-foreign :
      (k position : ℕ) (units : List Product)
      → (owner == k) ≡ false
      → rows_of k (item_rows draw owner currency position units) ≡ []
  unfolding item_rows
  rows_of-foreign k position [] h = refl
  rows_of-foreign k position (u ∷ units) h = rw h (rows_of-foreign k (suc position) units h)

module _ (draw : ℕ → ℕ) (currency : ℕ) (units : List Product) (orders : List Order)
    (items : List OrderItem) (events : List OrderEvent) (o : Order) (e : OrderEvent)
    (item_owners : All (λ (i : OrderItem). has order_id i.order_id orders ≡ true) items)
    (fresh : has order_id o.id orders ≡ false) (created : o.status ≡ OrderStatus.created)
    (priced : o.amount ≡ price_sum units) (coined : o.currency ≡ currency) (own : e.order_id ≡ o.id)
    (says : e.payload
      ≡ EventData.order_created
          (price_sum units)
          currency
          (map created_item (item_rows draw o.id currency 0 units)))
    (keys : Distinct item_id (items ++ item_rows draw o.id currency 0 units))
    (h : Histories orders items events) where
  abbrev rows : List OrderItem
  rows = item_rows draw o.id currency 0 units

  new_order : RecordedOrder (items ++ rows) (events ++ e ∷ []) o
  unfolding replay apply_events
  new_order =
      let none_before : events_of o.id events ≡ [] =
        events_of-absent o.id events
          (owner_absent (λ (e : OrderEvent). e.order_id) o.id orders events fresh h.event_owners) in
      let none_yet : rows_of o.id items ≡ [] =
        rows_of-absent o.id items
          (owner_absent (λ (i : OrderItem). i.order_id) o.id orders items fresh item_owners) in
      let states = map_of-rows [] rows (Distinct-right items rows keys) (New-nil rows) in
      record {
        past = record {
          amount = price_sum units;
          currency = currency;
          status = OrderStatus.created;
          items = map_of [] (map created_item rows);
        };
        replayed =
            ap replay (events_of-own o.id events e own ∙ ap (λ l. l ++ e ∷ []) none_before)
            ∙ ap (λ d. begin d []) says;
        same_amount = sym priced;
        same_currency = sym coined;
        same_status = sym created;
        lines =
            ap (map line_of_state) states
            ∙ lines-item_rows draw o.id currency 0 units
            ∙ ap (map line_of_row) (
                sym (
                  filter-append (λ (i : OrderItem). i.order_id == o.id) items rows
                  ∙ ap (λ l. l ++ rows_of o.id rows) none_yet
                  ∙ rows_of-own draw o.id currency 0 units));
      }

  old_order :
      (k : ℕ) (x : Order)
      → find_by order_id k orders ≡ some x
      → RecordedOrder (items ++ rows) (events ++ e ∷ []) x
  old_order k x here =
      let there : has order_id x.id orders ≡ true =
        ap (λ j. has order_id j orders) (find_by-key order_id k orders x here)
        ∙ has_of_find order_id k orders x here in
      let other : (o.id == x.id) ≡ false = elim (Bool-cases (o.id == x.id)) [
        | inr differs ↦ differs
        | inl same ↦
            let clash : true ≡ false =
              sym there ∙ ap (λ j. has order_id j orders) (sym ((==_iff _ _).0 same)) ∙ fresh in
            cc
      ] in
      Recorded-other (h.per_order k x here) e (items ++ rows) (ap (λ j. j == x.id) own ∙ other) (
        filter-append (λ (i : OrderItem). i.order_id == x.id) items rows
        ∙ ap (λ l. rows_of x.id items ++ l) (rows_of-foreign draw o.id currency x.id 0 units other)
        ∙ append-nil (rows_of x.id items))

  grown :
      (es : List OrderEvent)
      → All (λ (e : OrderEvent). has order_id e.order_id orders ≡ true) es
      → All (λ (e : OrderEvent). has order_id e.order_id (orders ++ o ∷ []) ≡ true) es
  grown [] all = tt
  grown (d ∷ es) all =
      (has-append order_id d.order_id orders (o ∷ []) ∙ rw (all.0) refl, grown es all.1)

  pub Histories-created : Histories (orders ++ o ∷ []) (items ++ rows) (events ++ e ∷ [])
  Histories-created = record {
    event_owners =
        All-append _ events (e ∷ []) (grown events h.event_owners)
          (has-append order_id e.order_id orders (o ∷ []) ∙ ground (arith, own, ==_refl o.id), tt);
    per_order = λ k y at_k. elim (Bool-cases (has order_id k orders)) [
      | inl there ↦
          let here : find_by order_id k orders ≡ some y =
            rw there at (sym (find_by-append order_id k orders (o ∷ [])) ∙ at_k) in
          old_order k y here
      | inr absent ↦
          let here : find_by order_id k (o ∷ []) ≡ some y =
            rw absent at (sym (find_by-append order_id k orders (o ∷ [])) ∙ at_k) in
          let this : o ≡ y = ground (arith, here) in
          subst (RecordedOrder (items ++ rows) (events ++ e ∷ [])) this new_order
    ];
  }
