-- ===== src/Stubs/Supplier/Http.antt =====
-- backend/src/stubs/supplier/supplier-stub.controller.ts: the contract endpoints of a supplier, and
-- what backend/src/delivery/supplier.client.ts reads from their answers.
use hh_game_market_backend.Base.{
  ℕ, ◌≡◌, Bool, true, false, Option, none, some, List, [], ◌∷◌, refl, includes, if◌then◌else◌,
}
use hh_game_market_backend.Model.{RequestId, SupplierIssue}
use hh_game_market_backend.Delivery.Run.{Reason, Body, Reply, response}
use hh_game_market_backend.Delivery.Client.{
  IssueResult, ok, failed, FailReason, http, read_issue, LookupResult, found, nothing, deferred,
  read_lookup,
}
use hh_game_market_backend.Stubs.Supplier.{
  Stub, StubIssueResult, booked, error, out_of_stock, internal_error, rate_limited, Chance, issue,
  admit, issued,
}

-- The body of an answer that is no code.
abbrev said : Option Reason → Body
said r = record { status_ok = false; code = none; reason = r }

-- The texts rate_limited, internal_error and not_found.
abbrev text_rate_limited : Reason
text_rate_limited = Reason.other 1

abbrev text_internal_error : Reason
text_internal_error = Reason.other 2

abbrev text_not_found : Reason
text_not_found = Reason.other 3

-- A result, or the exception that is thrown for it, as the framework answers it.
abbrev pub issue_reply : StubIssueResult → Reply
issue_reply (booked r code) =
    response 200 (record { status_ok = true; code = some code; reason = none })
issue_reply (error out_of_stock) = response 409 (said (some Reason.out_of_stock))
issue_reply (error internal_error) = response 500 (said (some text_internal_error))
issue_reply (error rate_limited) = response 429 (said (some text_rate_limited))

-- POST :supplier/issue, for the suppliers that there are.
unfoldable pub http_issue :
    (suppliers : List ℕ) → Chance → ℕ → RequestId → (order_id sku : ℕ) → Stub → Reply × Stub
unfolding issue
http_issue suppliers chance supplier r order_id sku s =
    let (result, s') = issue chance supplier r order_id sku s in
    if includes suppliers supplier then (issue_reply result, s') else (response 404 (said none), s)

-- An entry of the statement has a code and no status.
abbrev entry_reply : List SupplierIssue → Reply
entry_reply [] = response 404 (said (some text_not_found))
entry_reply (k ∷ ks) =
    response 200 (record { status_ok = false; code = some k.code; reason = none })

abbrev entry_admitted : ℕ → RequestId → Bool × Stub → Reply × Stub
entry_admitted supplier r (false, s) = (response 429 (said (some text_rate_limited)), s)
entry_admitted supplier r (true, s) = (entry_reply (issued supplier (some r) s), s)

-- GET :supplier/issued?request_id=
unfoldable pub http_issued :
    (suppliers : List ℕ) → (app_now : ℕ) → ℕ → RequestId → Stub → Reply × Stub
unfolding admit issued
http_issued suppliers app_now supplier r s =
    if includes suppliers supplier
    then entry_admitted supplier r (admit app_now supplier s)
    else (response 404 (said none), s)

-- What the client makes of an entry.
abbrev pub of_entry : List SupplierIssue → LookupResult
of_entry [] = nothing
of_entry (k ∷ ks) = found k.code

-- What the client makes of a result.
abbrev pub of_result : StubIssueResult → (full_window : ℕ) → IssueResult
of_result (booked r code) t = ok code
of_result (error out_of_stock) t =
    failed FailReason.out_of_stock (http 409 (some Reason.out_of_stock))
of_result (error internal_error) t = failed FailReason.error (http 500 (some text_internal_error))
of_result (error rate_limited) t = IssueResult.rate_limited t

read-issue_reply :
    (res : StubIssueResult) (timeout_ms t : ℕ)
    → read_issue (issue_reply res) timeout_ms t ≡ of_result res t
unfolding read_issue
read-issue_reply (booked r code) timeout_ms t = refl
read-issue_reply (error out_of_stock) timeout_ms t = refl
read-issue_reply (error internal_error) timeout_ms t = refl
read-issue_reply (error rate_limited) timeout_ms t = refl

read-entry_reply :
    (ks : List SupplierIssue) (timeout_ms t : ℕ)
    → read_lookup (entry_reply ks) timeout_ms t ≡ of_entry ks
unfolding read_lookup
read-entry_reply [] timeout_ms t = refl
read-entry_reply (k ∷ ks) timeout_ms t = refl

read-entry_admitted :
    (supplier : ℕ) (r : RequestId) (timeout_ms t : ℕ) (res : Bool × Stub)
    → read_lookup (entry_admitted supplier r res).0 timeout_ms t
      ≡ (if res.0 then of_entry (issued supplier (some r) res.1) else deferred t)
unfolding read_lookup
read-entry_admitted supplier r timeout_ms t (false, s) = refl
read-entry_admitted supplier r timeout_ms t (true, s) =
    read-entry_reply (issued supplier (some r) s) timeout_ms t

-- For a supplier that there is, the client reads from the answers of the stub what the stub did: of an
-- issue the code it answered, that nothing is left, that it failed, or that the limit is spent; of a
-- lookup, unless the limit is spent, the first entry of the statement under the request_id, or that
-- there is none.
pub client_reads :
    (suppliers : List ℕ) (chance : Chance) (supplier order_id sku timeout_ms t : ℕ) (r : RequestId)
    (s : Stub)
    → includes suppliers supplier ≡ true
    → (read_issue (http_issue suppliers chance supplier r order_id sku s).0 timeout_ms t
        ≡ of_result (issue chance supplier r order_id sku s).0 t)
      × (read_lookup (http_issued suppliers chance.app_now supplier r s).0 timeout_ms t ≡ (
          if (admit chance.app_now supplier s).0
          then of_entry (issued supplier (some r) (admit chance.app_now supplier s).1)
          else deferred t))
unfolding http_issue http_issued
client_reads suppliers chance supplier order_id sku timeout_ms t r s known = rw known (
  read-issue_reply (issue chance supplier r order_id sku s).0 timeout_ms t,
  read-entry_admitted supplier r timeout_ms t (admit chance.app_now supplier s),
)
