-- ===== src/History/Batch.antt =====
-- The history under the recovery sweep's statement, which moves many orders at once.
use hh_game_market_backend.Base.{
  ℕ, ◌≡◌, refl, Bool, true, false, some, List, [], ◌∷◌, ◌++◌, map, filter, filter-append, ◌==◌,
  ==_refl, if◌then◌else◌, arith, Bool-cases, inl, inr, ap, sym, ◌∙◌, subst, All, All-append,
}
use mathlib.Core.List.{append-nil}
use hh_game_market_backend.Base.Keyed.{
  update_where, has, has-update_where, find_by, find_by-key, find_by-update_where, Distinct,
}
use hh_game_market_backend.Model.{
  OrderStatus, Order, OrderItem, OrderExtra, OrderDetail, OrderEvent,
}
use hh_game_market_backend.Transition.Facts.{order_id}
use hh_game_market_backend.Queue.{is_stale, put_back, recovery_event}
use hh_game_market_backend.History.{events_of, replay}
use hh_game_market_backend.History.Lines.{Recorded}
use hh_game_market_backend.History.Kept.{Histories, RecordedOrder, Recorded-status, events_of-own}

pub Recorded-events :
    {items : List OrderItem} {events : List OrderEvent} {k amount currency : ℕ}
    {status : OrderStatus}
    → Recorded items events k amount currency status
    → (events' : List OrderEvent) → events_of k events' ≡ events_of k events
    → Recorded items events' k amount currency status
Recorded-events r events' same = record {
  past = r.past;
  replayed = ap replay same ∙ r.replayed;
  same_amount = r.same_amount;
  same_currency = r.same_currency;
  same_status = r.same_status;
  lines = r.lines;
}

module _ (p : Order → Bool) (now : ℕ) where
  -- The events that the statement inserts.
  abbrev pub batch : List Order → List OrderEvent
  batch orders = map (recovery_event now) (filter p orders)

  batch-absent :
      (k : ℕ) (orders : List Order)
      → has order_id k orders ≡ false
      → events_of k (batch orders) ≡ []
  batch-absent k [] h = refl
  batch-absent k (o ∷ orders) h =
      let other : (o.id == k) ≡ false = ground arith in
      let rest = batch-absent k orders (ground arith) in
      elim (Bool-cases (p o)) [ inl hit ↦ rw (hit, other) rest | inr miss ↦ rw miss rest ]

  -- At most one of them is an order's: that of its own row.
  batch-own :
      (k : ℕ) (orders : List Order) (o : Order)
      → Distinct order_id orders
      → find_by order_id k orders ≡ some o
      → events_of k (batch orders) ≡ (if p o then recovery_event now o ∷ [] else [])
  batch-own k [] o d found = cc
  batch-own k (x ∷ orders) o d found = elim (Bool-cases (x.id == k)) [
    | inl own ↦
        let this : x ≡ o = ground arith in
        let rest = batch-absent k orders (ground (arith, d.0)) in
        subst
          (λ y. events_of k (batch (x ∷ orders)) ≡ (if p y then recovery_event now y ∷ [] else []))
          this
          (elim (Bool-cases (p x)) [ inl hit ↦ rw (hit, own, rest) refl | inr miss ↦ rw miss rest ])
    | inr other ↦
        let rest = batch-own k orders o d.1 (rw other at found) in
        elim (Bool-cases (p x)) [ inl hit ↦ rw (hit, other) rest | inr miss ↦ rw miss rest ]
  ]

  batch-owners :
      (orders all : List Order)
      → ((k : ℕ) → has order_id k orders ≡ true → has order_id k all ≡ true)
      → All (λ (e : OrderEvent). has order_id e.order_id all ≡ true) (batch orders)
  batch-owners [] all within = tt
  batch-owners (o ∷ orders) all within =
      let rest = batch-owners orders all (λ k h. within k (ground (arith, h))) in
      elim (Bool-cases (p o)) [
        | inl hit ↦ rw hit (within o.id (ground (arith, ==_refl o.id)), rest)
        | inr miss ↦ rw miss rest
      ]

pub Histories-batch :
    (from : OrderStatus) (before now : ℕ) (orders : List Order) (items : List OrderItem)
    (events : List OrderEvent)
    → Distinct order_id orders
    → Histories orders items events
    → Histories
        (update_where (is_stale from before) (put_back now) orders)
        items
        (events ++ map (recovery_event now) (filter (is_stale from before) orders))
Histories-batch from before now orders items events keys h = record {
  event_owners =
      All-append _ events more (kept_owners events h.event_owners)
        (batch-owners (is_stale from before) now orders _ (λ k there. same_keys k ∙ there));
  per_order = λ k y at_k.
      let (x, here, is_x) =
        find_by-update_where order_id (is_stale from before) (put_back now) (λ x. refl) k orders y
          at_k in
      subst (RecordedOrder items (events ++ more)) (sym is_x) (after k x here);
}
  where
    more : List OrderEvent
    more = batch (is_stale from before) now orders

    same_keys :
        (k : ℕ)
        → has order_id k (update_where (is_stale from before) (put_back now) orders)
          ≡ has order_id k orders
    same_keys k =
        has-update_where order_id (is_stale from before) (put_back now) (λ x. refl) k orders

    kept_owners :
        (es : List OrderEvent)
        → All (λ (e : OrderEvent). has order_id e.order_id orders ≡ true) es
        → All
            (λ (e : OrderEvent).
              has order_id e.order_id (update_where (is_stale from before) (put_back now) orders)
              ≡ true)
            es
    kept_owners [] all = tt
    kept_owners (e ∷ es) all = (same_keys e.order_id ∙ all.0, kept_owners es all.1)

    after :
        (k : ℕ) (x : Order)
        → find_by order_id k orders ≡ some x
        → RecordedOrder items
            (events ++ more)
            (if is_stale from before x then put_back now x else x)
    after k x here =
        let r = h.per_order k x here in
        let at_id : find_by order_id x.id orders ≡ some x =
          subst (λ j. find_by order_id j orders ≡ some x)
            (sym (find_by-key order_id k orders x here)) here in
        let split = filter-append (λ (e : OrderEvent). e.order_id == x.id) events more in
        let own = batch-own (is_stale from before) now x.id orders x keys at_id in
        elim (Bool-cases (is_stale from before x)) [
          | inl stale ↦ rw stale (
              Recorded-events
                (Recorded-status r (recovery_event now x) x.status OrderStatus.paid
                  OrderExtra.nothing OrderDetail.recovery refl refl)
                (events ++ more)
                (split
                  ∙ ap (λ l. events_of x.id events ++ l) (rw stale at own)
                  ∙ sym (events_of-own x.id events (recovery_event now x) refl)))
          | inr fresh ↦ rw fresh (
              Recorded-events r (events ++ more)
                (split ∙ ap (λ l. events_of x.id events ++ l) (rw fresh at own) ∙ append-nil _))
        ]
