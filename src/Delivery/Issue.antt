-- ===== src/Delivery/Issue.antt =====
-- `issue` of backend/src/delivery/delivery.service.ts: the attempts for one request_id and then,
-- if the answers were not definitive, the supplier's book. The pauses between attempts are left out.
pub mod Steps
use hh_game_market_backend.Base.{ℕ, zero, suc, Bool, true, false, not, ◌&&◌, none, if◌then◌else◌}
use hh_game_market_backend.Model.{AttemptOutcome, error_but_issued, RequestId, Order, OrderItem}
use hh_game_market_backend.Delivery.Run.{Env, Config, Run, pure, commit, ◌>>=◌, ◌>>◌}
use hh_game_market_backend.Delivery.Client.{
  Detail, says_no_response, FailReason, IssueResult, LookupResult, found, nothing, issue, lookup,
}
use hh_game_market_backend.Delivery.Journal.{record_attempt, discrepancy}

pub data IssueOutcome : Type 0 where
  issued : (code : ℕ) (verified : Bool) → IssueOutcome
  out_of_stock failed ambiguous : IssueOutcome
  deferred : (next_slot_at : ℕ) → IssueOutcome

-- The locals of the loop.
pub record Seen : Type 0 where
  pub unknown : Bool
  pub saw_error : Bool
  pub saw_timeout : Bool

-- What one answer does to them.
abbrev pub note_failure : FailReason → Seen → Seen
note_failure FailReason.error seen = record seen { unknown = true; saw_error = true }
note_failure FailReason.timeout seen = record seen { unknown = true; saw_timeout = true }
note_failure _ seen = seen

abbrev pub outcome_of_failure : FailReason → AttemptOutcome
outcome_of_failure FailReason.out_of_stock = AttemptOutcome.out_of_stock
outcome_of_failure FailReason.unreachable = AttemptOutcome.unreachable
outcome_of_failure FailReason.error = AttemptOutcome.error
outcome_of_failure FailReason.timeout = AttemptOutcome.timeout

-- `booked.error.startsWith('no response') ? 'timeout' : 'error'`
abbrev pub outcome_of_error : Detail → AttemptOutcome
outcome_of_error d = if says_no_response d then AttemptOutcome.timeout else AttemptOutcome.error

module _ (env : Env) (config : Config) where
  open env use {World}

  module _ (order : Order) (item : OrderItem) (supplier : ℕ) (request : RequestId) where
    journal : ℕ → AttemptOutcome → Run World Unit
    unfolding record_attempt
    journal attempt outcome = commit env (record_attempt item supplier request attempt outcome)

    -- The book shows a code.
    take_booked : ℕ → ℕ → Seen → Run World IssueOutcome
    unfolding journal discrepancy
    take_booked code attempt seen = do
      journal attempt AttemptOutcome.ok
      if seen.saw_error
          then (commit env (discrepancy supplier request item.id error_but_issued code none)
              >> pure (issued code true))
          else pure (issued code true)

    -- The book is empty: final, unless a request that timed out just now may still be in flight.
    book_empty : Bool → ℕ → Seen → Run World IssueOutcome
    unfolding journal
    book_empty previously_ambiguous attempt seen =
        if seen.saw_timeout && not previously_ambiguous
        then (journal attempt AttemptOutcome.timeout >> pure IssueOutcome.ambiguous)
        else (journal attempt AttemptOutcome.none_issued >> pure IssueOutcome.failed)

    read_book : Bool → ℕ → Seen → LookupResult → Run World IssueOutcome
    unfolding take_booked book_empty journal
    read_book previously_ambiguous attempt seen (LookupResult.deferred t) =
        pure (IssueOutcome.deferred t)
    read_book previously_ambiguous attempt seen (LookupResult.error d) =
        journal attempt (outcome_of_error d) >> pure IssueOutcome.ambiguous
    read_book previously_ambiguous attempt seen nothing =
        book_empty previously_ambiguous attempt seen
    read_book previously_ambiguous attempt seen (found code) = take_booked code attempt seen

    -- After the loop.
    settle : Bool → ℕ → Seen → Run World IssueOutcome
    unfolding read_book lookup
    settle previously_ambiguous attempt seen =
        if not seen.unknown then pure IssueOutcome.failed else do
          booked ← lookup env config supplier request
          read_book previously_ambiguous attempt seen booked

    -- One answer of the supplier; `again` is the rest of the loop.
    after_answer : ℕ → (Seen → Run World IssueOutcome) → Seen → IssueResult → Run World IssueOutcome
    unfolding journal
    after_answer attempt again seen (IssueResult.rate_limited t) = pure (IssueOutcome.deferred t)
    after_answer attempt again seen (IssueResult.ok code) =
        journal attempt AttemptOutcome.ok >> pure (issued code false)
    after_answer attempt again seen (IssueResult.failed FailReason.out_of_stock d) =
        journal attempt AttemptOutcome.out_of_stock >> pure IssueOutcome.out_of_stock
    after_answer attempt again seen (IssueResult.failed reason d) =
        journal attempt (outcome_of_failure reason) >> again (note_failure reason seen)

    -- `attempts left` turns of the loop, from number `attempt` on.
    attempts : (left attempt : ℕ) → Bool → Seen → Run World IssueOutcome
    unfolding after_answer settle issue
    attempts zero attempt previously_ambiguous seen = settle previously_ambiguous attempt seen
    attempts (suc left) attempt previously_ambiguous seen = do
      result ← issue env config supplier request order.id item.sku
      after_answer attempt (attempts left (suc attempt) previously_ambiguous) seen result

    unfoldable pub issue_round : (previously_ambiguous : Bool) → Run World IssueOutcome
    unfolding attempts
    issue_round previously_ambiguous =
        attempts config.max_attempts 1 previously_ambiguous
          (record { unknown = previously_ambiguous; saw_error = false; saw_timeout = false })
