-- ===== src/History/Now.antt =====
-- `stateAt` of backend/src/history/history.service.ts at the present, or later: the order as it is,
-- with the money that `get` shows.
use hh_game_market_backend.Base.{
  ℕ, ◌+◌, ◌≤◌, ◌≡◌, refl, Bool, true, ◌&&◌, some, none, Option, List, [], ◌∷◌, map, filter, length,
  ◌==◌, ltb, arith, Bool-cases, inl, inr, ap, sym, ◌∙◌, All, sum_where,
}
use hh_game_market_backend.Model.{
  ItemStatus, item_status_eq, is_open, Order, OrderItem, OrderEvent, Db,
}
use hh_game_market_backend.Transition.Facts.{find_order}
use hh_game_market_backend.Orders.View.{sum_of, items_of, money_of, view}
use hh_game_market_backend.Orders.Money.{sum_of-sort}
use hh_game_market_backend.History.{
  ItemState, past_sum, past_money, described, events_until, events_of, replay, state_at, StateAt,
}
use hh_game_market_backend.History.Lines.{Line, Recorded, rows_of, line_of_row, line_of_state}
use hh_game_market_backend.History.Kept.{Histories}

-- Histories that are true, with stamps that are past.
pub record HistoryOf (db : Db) : Type 0 where
  pub histories : Histories db.orders db.items db.events
  pub stamps : All (λ (e : OrderEvent). e.at ≤ db.now) db.events

events_until_late :
    (id now at : ℕ) (events : List OrderEvent)
    → now ≤ at
    → All (λ (e : OrderEvent). e.at ≤ now) events
    → filter (λ (e : OrderEvent). e.order_id == id && ltb e.at (at + 1)) events
      ≡ events_of id events
events_until_late id now at [] le h = refl
events_until_late id now at (e ∷ events) le h =
    let due : ltb e.at (at + 1) ≡ true = ground (arith, h.0) in
    let rest = events_until_late id now at events le h.1 in
    elim (Bool-cases (e.order_id == id)) [
      | inl own ↦ rw (own, due) (ap (λ l. e ∷ l) rest)
      | inr other ↦ rw other rest
    ]

abbrev line_sum : (ItemStatus → Bool) → List Line → ℕ
line_sum q = sum_where (λ (l : Line). q l.status) (λ l. l.amount)

past_sum-lines :
    (q : ItemStatus → Bool) (is : List ItemState)
    → past_sum q is ≡ line_sum q (map line_of_state is)
past_sum-lines q [] = refl
past_sum-lines q (i ∷ is) = omega (arith, past_sum-lines q is)

sum_of-lines :
    (q : ItemStatus → Bool) (is : List OrderItem) → sum_of q is ≡ line_sum q (map line_of_row is)
sum_of-lines q [] = refl
sum_of-lines q (i ∷ is) = omega (arith, sum_of-lines q is)

-- What `stateAt` returns, next to the row of the order, its items, and what `get` says of its money.
abbrev pub IsNow : Order → Db → StateAt → Type 0
IsNow o db s =
    (s.status ≡ o.status)
    × (s.amount ≡ o.amount)
    × (s.currency ≡ o.currency)
    × (map line_of_state s.items ≡ map line_of_row (rows_of o.id db.items))
    × (s.money ≡ (view o db).money)

module _ (o : Order) (db : Db)
    (r : Recorded db.items db.events o.id o.amount o.currency o.status) where
  same_sums : (q : ItemStatus → Bool) → past_sum q r.past.items ≡ sum_of q (items_of o.id db)
  unfolding items_of
  same_sums q =
      past_sum-lines q r.past.items
      ∙ ap (line_sum q) r.lines
      ∙ sym (sum_of-lines q (rows_of o.id db.items))
      ∙ sym (sum_of-sort q (rows_of o.id db.items))

  same_money : past_money r.past ≡ (view o db).money
  unfolding view money_of
  same_money =
      rw
        (
          r.same_status,
          r.same_amount,
          same_sums (λ s. item_status_eq s ItemStatus.delivered),
          same_sums (λ s. item_status_eq s ItemStatus.refunded),
          same_sums is_open,
        )
        refl

-- Where histories are true and their stamps past, `stateAt` of a time that is not before now gives the
-- order as its row says, its items in the order and the statuses of their rows, and the money that
-- `get` shows.
pub state_at_now :
    (o : Order) (at : ℕ) (db : Db)
    → HistoryOf db
    → find_order o.id db ≡ some o
    → db.now ≤ at
    → (s : StateAt) × (state_at o.id at db ≡ some s) × IsNow o db s
unfolding state_at
state_at_now o at db h found late =
    let r = h.histories.per_order o.id o found in
    let all_events = events_until_late o.id db.now at db.events late h.stamps in
    let replayed : replay (events_until o.id at db) ≡ some r.past =
      ap replay all_events ∙ r.replayed in
    let applied = length (events_until o.id at db) in
    (
      described at o.id applied r.past,
      ap
          (λ m. elim m as (λ _. Option StateAt) [
            | none ↦ none
            | some p ↦ some (described at o.id applied p)
          ])
          replayed,
      (r.same_status, r.same_amount, r.same_currency, r.lines, same_money o db r),
    )
