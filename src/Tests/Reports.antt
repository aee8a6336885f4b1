-- ===== src/Tests/Reports.antt =====
-- What the reports say of the shop once its order is paid for.
use hh_game_market_backend.Base.{
  ◌<◌, ◌≤◌, ◌⊎◌, ◌+◌, ◌≡◌, true, arith, [], ◌∷◌, count, length, ◌↔◌, none,
}
use hh_game_market_backend.Base.Int.{int_max}
use hh_game_market_backend.Model.{out_of_range, ok, err, Db, OrderItem}
use hh_game_market_backend.Ledger.{Report, order_paid, paid_sum, balances}
use hh_game_market_backend.Reconcile.Control.{Reach-balances}
use hh_game_market_backend.Queue.{next_order}
use hh_game_market_backend.Progress.{snapshot}
use hh_game_market_backend.Progress.Stages.{snapshot_lem}
use hh_game_market_backend.System.{Reach, here, next, creates, pays}
use hh_game_market_backend.History.Span.{MoneyBetween, money_between}
use hh_game_market_backend.Reconcile.{money_mismatches}
use hh_game_market_backend.Reconcile.Money.{Reach-money_mismatches}
use hh_game_market_backend.Reconcile.Window.{Reach-money_between}
use hh_game_market_backend.Tests.{
  shop, wish, draw, any_text, money_in, shop-IsFresh, ordered, paid_for,
}

abbrev sale : Reach shop paid_for
sale = next (next here (creates draw wish shop)) (pays any_text 1001 money_in ordered)

Reach-money_mismatches_example : money_mismatches paid_for ≡ []
Reach-money_mismatches_example = Reach-money_mismatches sale shop-IsFresh

Reach-money_between_example :
    ((money_between 900 1100 paid_for ≡ err out_of_range)
      × ((int_max < paid_sum paid_for) ⊎ (int_max < length paid_for.events)))
    ⊎ ((s : MoneyBetween) × (money_between 900 1100 paid_for ≡ ok s)
        × (s.balanced ≡ true)
        × (s.events_agree ≡ true))
Reach-money_between_example = Reach-money_between 900 1100 sale shop-IsFresh (omega arith)

abbrev reported : Db
reported = paid_for

snapshot_example :
    let s = snapshot (λ n. 0) 60000 1002 (3 ∷ []) reported in
    let n = s.orders in
    (n.awaiting_payment + n.queued + n.waiting_for_slot + n.delivering + n.parked + n.delivered
        + n.partially_delivered + n.refunded + n.payment_failed
      ≡ length reported.orders)
    × (s.items.open_items + s.items.delivered + s.items.refunded
        ≡ count (λ (i : OrderItem). order_paid i.order_id reported) reported.items)
    × ((n.queued ≡ 0) ↔ (next_order reported.now reported.orders ≡ none))
snapshot_example = snapshot_lem (λ n. 0) 60000 1002 (3 ∷ []) reported

Reach-balances_example :
    ((int_max < paid_sum paid_for) × (balances paid_for ≡ err out_of_range))
    ⊎ ((paid_sum paid_for ≤ int_max)
        × ((report : Report) × (balances paid_for ≡ ok report) × (report.balanced ≡ true)))
Reach-balances_example = Reach-balances sale shop-IsFresh
