-- ===== src/Delivery/Issue/Steps.antt =====
-- The attempts for one request_id, as runs of the system.
use hh_game_market_backend.Base.{
  ℕ, zero, suc, none, Bool, true, false, not, ◌&&◌, Bool-cases, inl, inr,
}
use hh_game_market_backend.Model.{AttemptOutcome, error_but_issued, RequestId, Order, OrderItem, Db}
use hh_game_market_backend.Delivery.Run.{Env, Config, Run, pure, commit, ◌>>◌}
use hh_game_market_backend.Delivery.Client.{
  FailReason, IssueResult, LookupResult, found, nothing, issue, lookup,
}
use hh_game_market_backend.Delivery.Client.Steps.{issue-Keeps, lookup-Keeps}
use hh_game_market_backend.Delivery.Journal.{record_attempt, discrepancy}
use hh_game_market_backend.Delivery.Issue.{
  IssueOutcome, issued, Seen, note_failure, outcome_of_error, journal, take_booked, book_empty,
  read_book, settle, after_answer, attempts, issue_round,
}
use hh_game_market_backend.System
use hh_game_market_backend.System.Runs.{
  Live, Stable, Keeps, Keeps-pure, discrepancy-Step, Keeps-step, Keeps-bind, Keeps-then,
}

module _ (env : Env) (config : Config) (P : Db → Type 0) (live : Live env) (stable : Stable env P)
    (order : Order) (item : OrderItem) (supplier : ℕ) (request : RequestId) where
  open env use {World}

  journal-Keeps :
      (attempt : ℕ) (outcome : AttemptOutcome)
      → Keeps env P (journal env config order item supplier request attempt outcome)
  unfolding journal
  journal-Keeps attempt outcome =
      Keeps-step env P live stable (record_attempt item supplier request attempt outcome)
        (λ d p. System.Step.attempts item supplier request attempt outcome d)

  -- An attempt is written down before the outcome is returned.
  journaled :
      (attempt : ℕ) (outcome : AttemptOutcome) (k : Run World IssueOutcome)
      → Keeps env P k
      → Keeps env P (journal env config order item supplier request attempt outcome >> k)
  journaled attempt outcome k rest =
      Keeps-then env P live stable (journal env config order item supplier request attempt outcome)
        k (journal-Keeps attempt outcome) rest

  journal_and :
      (attempt : ℕ) (outcome : AttemptOutcome) (x : IssueOutcome)
      → Keeps env P (journal env config order item supplier request attempt outcome >> pure x)
  journal_and attempt outcome x = journaled attempt outcome (pure x) (Keeps-pure env P x)

  take_booked-Keeps :
      (code attempt : ℕ) (seen : Seen)
      → Keeps env P (take_booked env config order item supplier request code attempt seen)
  unfolding take_booked
  take_booked-Keeps code attempt seen =
      let find = discrepancy supplier request item.id error_but_issued code none in
      elim (Bool-cases seen.saw_error) [
        | inr clean ↦ rw clean (journal_and attempt AttemptOutcome.ok (issued code true))
        | inl failed ↦ rw failed (
            journaled attempt AttemptOutcome.ok (commit env find >> pure (issued code true)) (
              Keeps-then env P live stable (commit env find) (pure (issued code true))
                (Keeps-step env P live stable find
                  (λ d p. discrepancy-Step supplier request item.id error_but_issued code none d))
                (Keeps-pure env P (issued code true))))
      ]

  book_empty-Keeps :
      (previously_ambiguous : Bool) (attempt : ℕ) (seen : Seen)
      → Keeps env P
          (book_empty env config order item supplier request previously_ambiguous attempt seen)
  unfolding book_empty
  book_empty-Keeps previously_ambiguous attempt seen =
      elim (Bool-cases (seen.saw_timeout && not previously_ambiguous)) [
        | inl flying ↦ rw flying (journal_and attempt AttemptOutcome.timeout IssueOutcome.ambiguous)
        | inr final ↦ rw final (journal_and attempt AttemptOutcome.none_issued IssueOutcome.failed)
      ]

  read_book-Keeps :
      (previously_ambiguous : Bool) (attempt : ℕ) (seen : Seen) (r : LookupResult)
      → Keeps env P
          (read_book env config order item supplier request previously_ambiguous attempt seen r)
  unfolding read_book
  read_book-Keeps previously_ambiguous attempt seen (LookupResult.deferred t) =
      Keeps-pure env P (IssueOutcome.deferred t)
  read_book-Keeps previously_ambiguous attempt seen (LookupResult.error d) =
      journal_and attempt (outcome_of_error d) IssueOutcome.ambiguous
  read_book-Keeps previously_ambiguous attempt seen nothing =
      book_empty-Keeps previously_ambiguous attempt seen
  read_book-Keeps previously_ambiguous attempt seen (found code) =
      take_booked-Keeps code attempt seen

  settle-Keeps :
      (previously_ambiguous : Bool) (attempt : ℕ) (seen : Seen)
      → Keeps env P
          (settle env config order item supplier request previously_ambiguous attempt seen)
  unfolding settle
  settle-Keeps previously_ambiguous attempt seen = elim (Bool-cases (not seen.unknown)) [
    | inl known ↦ rw known (Keeps-pure env P IssueOutcome.failed)
    | inr unknown ↦ rw unknown (
        Keeps-bind env P live stable (lookup env config supplier request)
          (read_book env config order item supplier request previously_ambiguous attempt seen)
          (lookup-Keeps env config P live stable supplier request)
          (λ r. read_book-Keeps previously_ambiguous attempt seen r))
  ]

  after_answer-Keeps :
      (attempt : ℕ) (again : Seen → Run World IssueOutcome) (seen : Seen) (r : IssueResult)
      → ((seen : Seen) → Keeps env P (again seen))
      → Keeps env P (after_answer env config order item supplier request attempt again seen r)
  unfolding after_answer
  after_answer-Keeps attempt again seen (IssueResult.rate_limited t) rest =
      Keeps-pure env P (IssueOutcome.deferred t)
  after_answer-Keeps attempt again seen (IssueResult.ok code) rest =
      journal_and attempt AttemptOutcome.ok (issued code false)
  after_answer-Keeps attempt again seen (IssueResult.failed FailReason.out_of_stock d) rest =
      journal_and attempt AttemptOutcome.out_of_stock IssueOutcome.out_of_stock
  after_answer-Keeps attempt again seen (IssueResult.failed FailReason.unreachable d) rest =
      journaled attempt AttemptOutcome.unreachable
        (again (note_failure FailReason.unreachable seen)) (rest _)
  after_answer-Keeps attempt again seen (IssueResult.failed FailReason.error d) rest =
      journaled attempt AttemptOutcome.error (again (note_failure FailReason.error seen)) (rest _)
  after_answer-Keeps attempt again seen (IssueResult.failed FailReason.timeout d) rest =
      journaled attempt AttemptOutcome.timeout (again (note_failure FailReason.timeout seen))
        (rest _)

  attempts-Keeps :
      (left attempt : ℕ) (previously_ambiguous : Bool) (seen : Seen)
      → Keeps env P
          (attempts env config order item supplier request left attempt previously_ambiguous seen)
  unfolding attempts
  attempts-Keeps zero attempt previously_ambiguous seen =
      settle-Keeps previously_ambiguous attempt seen
  attempts-Keeps (suc left) attempt previously_ambiguous seen =
      Keeps-bind env P live stable (issue env config supplier request order.id item.sku)
        (after_answer env config order item supplier request attempt
          (attempts env config order item supplier request left (suc attempt) previously_ambiguous)
          seen)
        (issue-Keeps env config P live stable supplier request order.id item.sku)
        (λ r.
          after_answer-Keeps attempt
            (attempts env config order item supplier request left (suc attempt)
              previously_ambiguous)
            seen r (λ s. attempts-Keeps left (suc attempt) previously_ambiguous s))

  pub issue_round-Keeps :
      (previously_ambiguous : Bool)
      → Keeps env P (issue_round env config order item supplier request previously_ambiguous)
  unfolding issue_round
  issue_round-Keeps previously_ambiguous =
      attempts-Keeps config.max_attempts 1 previously_ambiguous _
