-- ===== src/Progress/Stages.antt =====
-- The stages share out the orders and the items, and the queue is what `claim` takes from.
use hh_game_market_backend.Base.{
  ℕ, ◌+◌, ◌≡◌, ◌↔◌, ◌&&◌, none, List, [], ◌∷◌, refl, arith, count, length, Bool-cases, inl, inr,
}
use hh_game_market_backend.Model.{ItemStatus, item_status_eq, is_open, Order, OrderItem, Db}
use hh_game_market_backend.Ledger.{order_paid}
use hh_game_market_backend.Queue.{next_order, claimable}
use hh_game_market_backend.Progress.{stages, item_stages, snapshot}

stages_split :
    (now : ℕ) (orders : List Order)
    → let n = stages now orders in
      n.awaiting_payment + n.queued + n.waiting_for_slot + n.delivering + n.parked + n.delivered
        + n.partially_delivered + n.refunded + n.payment_failed
      ≡ length orders
unfolding stages
stages_split now [] = refl
stages_split now (o ∷ orders) = ground (arith, stages_split now orders)

items_split :
    (db : Db)
    → let n = item_stages db in
      n.open_items + n.delivered + n.refunded
      ≡ count (λ (i : OrderItem). order_paid i.order_id db) db.items
unfolding item_stages
items_split db = over db.items
  where
    over :
        (items : List OrderItem)
        → count (λ (i : OrderItem). order_paid i.order_id db && is_open i.status) items
            + count
                (λ (i : OrderItem).
                  order_paid i.order_id db && item_status_eq i.status ItemStatus.delivered)
                items
            + count
                (λ (i : OrderItem).
                  order_paid i.order_id db && item_status_eq i.status ItemStatus.refunded)
                items
          ≡ count (λ (i : OrderItem). order_paid i.order_id db) items
    over [] = refl
    over (i ∷ items) = ground (arith, over items)

-- Nothing is queued exactly if `claim` would find nothing.
queued-next_order :
    (now : ℕ) (orders : List Order)
    → ((stages now orders).queued ≡ 0) ↔ (next_order now orders ≡ none)
unfolding stages next_order
queued-next_order now [] = (λ h. refl, λ h. refl)
queued-next_order now (o ∷ orders) =
    let (there, back) = queued-next_order now orders in
    elim (Bool-cases (claimable now o)) [
      | inl ready ↦ rw ready (λ h. ground (arith, h), λ h. cc)
      | inr unready ↦ rw unready (there, back)
    ]

-- The nine stages share out the orders, the three of the items share out the items of the orders that
-- are paid for, and nothing is queued exactly if the worker's query, with no row held by others,
-- finds nothing.
pub snapshot_lem :
    (rate_limit : ℕ → ℕ) (window_ms app_now : ℕ) (suppliers : List ℕ) (db : Db)
    → let s = snapshot rate_limit window_ms app_now suppliers db in
      let n = s.orders in
      (n.awaiting_payment + n.queued + n.waiting_for_slot + n.delivering + n.parked + n.delivered
          + n.partially_delivered + n.refunded + n.payment_failed
        ≡ length db.orders)
      × (s.items.open_items + s.items.delivered + s.items.refunded
          ≡ count (λ (i : OrderItem). order_paid i.order_id db) db.items)
      × ((n.queued ≡ 0) ↔ (next_order db.now db.orders ≡ none))
unfolding snapshot
snapshot_lem rate_limit window_ms app_now suppliers db =
    (stages_split db.now db.orders, items_split db, queued-next_order db.now db.orders)
