-- ===== src/Delivery/Client.antt =====
-- backend/src/delivery/supplier.client.ts and psp.client.ts: how a reply of `fetch` is read.
pub mod Steps
use hh_game_market_backend.Base.{
  ℕ, ◌+◌, Bool, true, false, ◌&&◌, Option, none, some, [], ◌∷◌, leb, ◌==◌, if◌then◌else◌,
}
use hh_game_market_backend.Model.{RequestId, Message, starts_with}
use hh_game_market_backend.Delivery.Run.{
  Reason, Body, ConnCode, econnrefused, enotfound, eai_again, FetchError, timeout_error, network,
  Reply, response, thrown, Env, Config, Run, pure, commit, call, ◌>>=◌,
}
use hh_game_market_backend.Delivery.Limiter.{Slot, free, next_slot_at, try_acquire}

-- The text of a failure, by how it is put together.
pub data Detail : Type 0 where
  http : ℕ → Option Reason → Detail
  no_response : ℕ → Detail
  conn : ConnCode → Detail
  message : Message → Detail

abbrev no_response_text : Message
no_response_text = b'n' ∷ b'o' ∷ b' ' ∷ b'r' ∷ b'e' ∷ b's' ∷ b'p' ∷ b'o' ∷ b'n' ∷ b's' ∷ b'e' ∷ []

-- `detail.startsWith('no response')`
unfoldable pub says_no_response : Detail → Bool
says_no_response (no_response _) = true
says_no_response (conn (ConnCode.other m)) = starts_with no_response_text m
says_no_response (message m) = starts_with no_response_text m
says_no_response _ = false

pub data FailReason : Type 0 where
  out_of_stock unreachable error timeout : FailReason

pub data IssueResult : Type 0 where
  ok : ℕ → IssueResult
  failed : FailReason → Detail → IssueResult
  rate_limited : (next_slot_at : ℕ) → IssueResult

pub data LookupResult : Type 0 where
  found : ℕ → LookupResult
  nothing : LookupResult
  error : Detail → LookupResult
  deferred : ℕ → LookupResult

-- `NOT_SENT.has(code)`
abbrev not_sent : ConnCode → Bool
not_sent econnrefused = true
not_sent enotfound = true
not_sent eai_again = true
not_sent (ConnCode.other _) = false

unfoldable pub classify : FetchError → ℕ → FailReason × Detail
classify timeout_error timeout_ms = (FailReason.timeout, no_response timeout_ms)
classify (network none m) timeout_ms = (FailReason.error, message m)
classify (network (some c) m) timeout_ms =
    (if not_sent c then FailReason.unreachable else FailReason.error, conn c)

-- `response.ok`
abbrev pub is_ok : ℕ → Bool
is_ok status = leb 200 status && leb status 299

-- `body.reason === 'out_of_stock'`
abbrev says_out_of_stock : Option Reason → Bool
says_out_of_stock (some Reason.out_of_stock) = true
says_out_of_stock _ = false

refused : ℕ → Body → (full_window : ℕ) → IssueResult
refused status body full_window =
    if says_out_of_stock body.reason
    then failed FailReason.out_of_stock (http status body.reason)
    else if status == 429
    then rate_limited full_window
    else failed FailReason.error (http status body.reason)

code_answered : Option ℕ → ℕ → Body → (full_window : ℕ) → IssueResult
unfolding refused
code_answered (some code) status body full_window =
    if is_ok status && body.status_ok then ok code else refused status body full_window
code_answered none status body full_window = refused status body full_window

unfoldable pub read_issue : Reply → (timeout_ms full_window : ℕ) → IssueResult
unfolding code_answered classify
read_issue (response status body) timeout_ms full_window =
    code_answered body.code status body full_window
read_issue (thrown e) timeout_ms full_window =
    let (reason, detail) = classify e timeout_ms in failed reason detail

booked : Option ℕ → ℕ → LookupResult
booked (some code) status = if is_ok status then found code else error (http status none)
booked none status = error (http status none)

unfoldable pub read_lookup : Reply → (timeout_ms full_window : ℕ) → LookupResult
unfolding booked classify
read_lookup (response status body) timeout_ms full_window =
    if status == 404
    then nothing
    else if status == 429
    then deferred full_window
    else booked body.code status
read_lookup (thrown e) timeout_ms full_window = error (classify e timeout_ms).1

-- `{ ok: true }` of the payment provider's client
unfoldable pub read_refund : Reply → Bool
read_refund (response status body) = is_ok status && body.status_ok
read_refund (thrown e) = false

module _ (env : Env) (config : Config) where
  open env use {World, post_issue, get_issued, post_refund, clock}

  -- `fullWindowFromNow`, read after the reply
  abbrev with_window : {A : Type 0} → (ℕ → A) → World → A
  with_window f w = f (clock w + config.window_ms)

  issue_over_http : ℕ → RequestId → ℕ → ℕ → World → IssueResult × World
  unfolding read_issue
  issue_over_http supplier request order_id sku w =
      let (reply, w') = post_issue supplier request order_id sku w in
      (with_window (read_issue reply config.timeout_ms) w', w')

  after_slot : Slot → ℕ → RequestId → ℕ → ℕ → Run World IssueResult
  unfolding issue_over_http
  after_slot free supplier request order_id sku =
      call env (issue_over_http supplier request order_id sku)
  after_slot (next_slot_at t) supplier request order_id sku = pure (rate_limited t)

  -- An issue is paid for with two slots: itself and the lookup that follows it.
  unfoldable pub issue : ℕ → RequestId → ℕ → ℕ → Run World IssueResult
  unfolding after_slot try_acquire
  issue supplier request order_id sku = do
    slot ← commit env (try_acquire config.rate_limit config.window_ms supplier 2)
    after_slot slot supplier request order_id sku

  lookup_over_http : ℕ → RequestId → World → LookupResult × World
  unfolding read_lookup
  lookup_over_http supplier request w =
      let (reply, w') = get_issued supplier request w in
      (with_window (read_lookup reply config.timeout_ms) w', w')

  unfoldable pub lookup : ℕ → RequestId → Run World LookupResult
  unfolding lookup_over_http
  lookup supplier request = call env (lookup_over_http supplier request)

  refund_over_http : ℕ → ℕ → ℕ → ℕ → World → Bool × World
  unfolding read_refund
  refund_over_http refund_id order_id amount currency w =
      let (reply, w') = post_refund refund_id order_id amount currency w in (read_refund reply, w')

  unfoldable pub psp_refund : ℕ → ℕ → ℕ → ℕ → Run World Bool
  unfolding refund_over_http
  psp_refund refund_id order_id amount currency =
      call env (refund_over_http refund_id order_id amount currency)
