-- ===== src/Delivery/Accept.antt =====
-- `accept` and `complete` of backend/src/delivery/delivery.service.ts: a code reaches the customer
-- once the supplier's book confirms it and our table of deliveries takes it.
pub mod Atomic
pub mod Steps
use hh_game_market_backend.Base.{
  ℕ, Bool, true, false, none, some, Option, [], ◌∷◌, ◌++◌, ◌==◌, if◌then◌else◌, any,
}
use hh_game_market_backend.Base.Keyed.{find_by}
use hh_game_market_backend.Model.{
  ItemStatus, AttemptOutcome, duplicate_code, code_mismatch, unbooked_code, RequestId, request_eq,
  OrderItem, ItemExtra, ItemDetail, Delivery, Db, Error, holds_other_code, unique_violation,
  delivery_item, delivery_request, delivery_code, Result, Action, transaction,
}
use hh_game_market_backend.Model
use hh_game_market_backend.Transition.{transition_item}
use hh_game_market_backend.Ledger.{record_delivery}
use hh_game_market_backend.Catalog.{decrement_stock}
use hh_game_market_backend.Delivery.Run.{
  Env, Config, Run, pure, raise, try_catch, commit, ◌>>=◌, ◌>>◌,
}
use hh_game_market_backend.Delivery.Client.{LookupResult, found, nothing, lookup}
use hh_game_market_backend.Delivery.Journal.{record_attempt, discrepancy}
use hh_game_market_backend.Delivery.Issue.{outcome_of_error}

abbrev pub delivery_key : Delivery → ℕ
delivery_key d = d.order_item_id

-- `em.insert(Delivery, ...)`: order_item_id, request_id and code are unique.
unfoldable pub insert_delivery : Delivery → Action Unit
insert_delivery d db =
    if any (λ e. e.order_item_id == d.order_item_id) db.deliveries
    then (Result.err (unique_violation delivery_item), db)
    else if any (λ e. request_eq e.request_id d.request_id) db.deliveries
    then (Result.err (unique_violation delivery_request), db)
    else if any (λ e. e.code == d.code) db.deliveries
    then (Result.err (unique_violation delivery_code), db)
    else (Result.ok tt, record db { deliveries = db.deliveries ++ d ∷ [] })

-- The row is there already, or goes in.
unfoldable pub place_delivery : Option Delivery → Delivery → Action Unit
unfolding insert_delivery
place_delivery none d = insert_delivery d
place_delivery (some existing) d =
    if existing.code == d.code then Model.pure tt else Model.raise holds_other_code

abbrev pub delivery_of : OrderItem → ℕ → RequestId → ℕ → Delivery
delivery_of item supplier request code = record {
  order_id = item.order_id;
  order_item_id = item.id;
  request_id = request;
  supplier = supplier;
  code = code;
}

-- What makes one item's delivery final: the row, the status, the postings, the stock counter.
abbrev pub completion : OrderItem → ℕ → RequestId → ℕ → Option Delivery → Action Unit
completion item supplier request code existing =
    Model.◌>>◌ (place_delivery existing (delivery_of item supplier request code)) (
      Model.◌>>◌
        (transition_item item.id ItemStatus.pending ItemStatus.delivered ItemExtra.nothing
          (ItemDetail.issued code supplier request item.amount))
        (Model.◌>>◌ (record_delivery item) (decrement_stock item.sku)))

unfoldable pub complete : OrderItem → ℕ → RequestId → ℕ → Action Unit
complete item supplier request code = transaction (
    Model.◌>>=◌ (Model.gets (λ db. find_by delivery_key item.id db.deliveries))
      (completion item supplier request code))

pub data AcceptOutcome : Type 0 where
  delivered rejected ambiguous : AcceptOutcome
  deferred : (next_slot_at : ℕ) → AcceptOutcome

-- Postgres's unique violation on deliveries.code.
abbrev pub is_duplicate_code : Error → Bool
is_duplicate_code (unique_violation delivery_code) = true
is_duplicate_code _ = false

module _ (env : Env) (config : Config) where
  open env use {World}

  module _ (item : OrderItem) (supplier : ℕ) (request : RequestId) where
    journal : AttemptOutcome → Run World Unit
    unfolding record_attempt
    journal outcome = commit env (record_attempt item supplier request 0 outcome)

    -- The code is somebody else's already.
    reject_duplicate : ℕ → Run World AcceptOutcome
    unfolding journal discrepancy
    reject_duplicate code = do
      commit env (discrepancy supplier request item.id duplicate_code code none)
      journal AttemptOutcome.rejected
      pure AcceptOutcome.rejected

    hand_over : ℕ → Run World AcceptOutcome
    unfolding complete reject_duplicate
    hand_over code =
        try_catch (commit env (complete item supplier request code) >> pure AcceptOutcome.delivered)
          (λ e. if is_duplicate_code e then reject_duplicate code else raise e)

    -- The code that the book shows is the one that counts.
    take_booked : (answered booked : ℕ) → Run World AcceptOutcome
    unfolding hand_over discrepancy
    take_booked answered booked = if booked == answered then hand_over answered else do
      commit env (discrepancy supplier request item.id code_mismatch answered (some booked))
      hand_over booked

    check_book : ℕ → LookupResult → Run World AcceptOutcome
    unfolding journal take_booked discrepancy
    check_book code (LookupResult.deferred t) = pure (AcceptOutcome.deferred t)
    check_book code (LookupResult.error d) =
        journal (outcome_of_error d) >> pure AcceptOutcome.ambiguous
    check_book code nothing = do
      commit env (discrepancy supplier request item.id unbooked_code code none)
      journal AttemptOutcome.rejected
      pure AcceptOutcome.rejected
    check_book code (found booked) = take_booked code booked

    unfoldable pub accept : (code : ℕ) (verified : Bool) → Run World AcceptOutcome
    unfolding check_book hand_over lookup
    accept code true = hand_over code
    accept code false = do booked ← lookup env config supplier request; check_book code booked
