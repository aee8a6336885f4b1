-- ===== src/Delivery/Client/Steps.antt =====
-- The clients' calls, as runs of the system.
use hh_game_market_backend.Base.{ℕ}
use hh_game_market_backend.Model.{RequestId, Db}
use hh_game_market_backend.Delivery.Run.{Env, Config, commit}
use hh_game_market_backend.Delivery.Limiter.{Slot, free, next_slot_at, try_acquire}
use hh_game_market_backend.Delivery.Client.{
  after_slot, issue_over_http, lookup_over_http, refund_over_http, issue, lookup, psp_refund,
  rate_limited,
}
use hh_game_market_backend.System.{acquires}
use hh_game_market_backend.System.Runs.{
  Live, Stable, Keeps, Keeps-pure, Keeps-call, Keeps-step, Keeps-bind,
}

module _ (env : Env) (config : Config) (P : Db → Type 0) (live : Live env)
    (stable : Stable env P) where
  after_slot-Keeps :
      (slot : Slot) (supplier : ℕ) (request : RequestId) (order_id sku : ℕ)
      → Keeps env P (after_slot env config slot supplier request order_id sku)
  unfolding after_slot
  after_slot-Keeps free supplier request order_id sku =
      Keeps-call env P (issue_over_http env config supplier request order_id sku)
  after_slot-Keeps (next_slot_at t) supplier request order_id sku =
      Keeps-pure env P (rate_limited t)

  pub issue-Keeps :
      (supplier : ℕ) (request : RequestId) (order_id sku : ℕ)
      → Keeps env P (issue env config supplier request order_id sku)
  unfolding issue
  issue-Keeps supplier request order_id sku =
      Keeps-bind env P live stable
        (commit env (try_acquire config.rate_limit config.window_ms supplier 2))
        (λ slot. after_slot env config slot supplier request order_id sku)
        (Keeps-step env P live stable (try_acquire config.rate_limit config.window_ms supplier 2)
          (λ d p. acquires config.rate_limit config.window_ms supplier 2 d))
        (λ slot. after_slot-Keeps slot supplier request order_id sku)

  pub lookup-Keeps :
      (supplier : ℕ) (request : RequestId) → Keeps env P (lookup env config supplier request)
  unfolding lookup
  lookup-Keeps supplier request = Keeps-call env P (lookup_over_http env config supplier request)

  pub psp_refund-Keeps :
      (refund_id order_id amount currency : ℕ)
      → Keeps env P (psp_refund env config refund_id order_id amount currency)
  unfolding psp_refund
  psp_refund-Keeps refund_id order_id amount currency =
      Keeps-call env P (refund_over_http env config refund_id order_id amount currency)
