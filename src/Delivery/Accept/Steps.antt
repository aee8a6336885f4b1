-- ===== src/Delivery/Accept/Steps.antt =====
-- Accepting a code, as a run of the system.
use hh_game_market_backend.Base.{
  ℕ, none, some, Option, Bool, true, false, if◌then◌else◌, ◌==◌, Bool-cases, inl, inr,
}
use hh_game_market_backend.Model.{
  AttemptOutcome, duplicate_code, code_mismatch, unbooked_code, DiscrepancyKind, RequestId,
  OrderItem, Db, Error,
}
use hh_game_market_backend.Delivery.Run.{Env, Config, Run, pure, raise, commit, ◌>>◌}
use hh_game_market_backend.Delivery.Client.{LookupResult, found, nothing, lookup}
use hh_game_market_backend.Delivery.Client.Steps.{lookup-Keeps}
use hh_game_market_backend.Delivery.Journal.{record_attempt, discrepancy}
use hh_game_market_backend.Delivery.Issue.{outcome_of_error}
use hh_game_market_backend.Delivery.Accept.{
  AcceptOutcome, is_duplicate_code, complete, journal, reject_duplicate, hand_over, take_booked,
  check_book, accept,
}
use hh_game_market_backend.Books.Moves.{IsPaidItem}
use hh_game_market_backend.System
use hh_game_market_backend.System.{completes}
use hh_game_market_backend.System.Runs.{
  Live, Stable, Keeps, Keeps-pure, discrepancy-Step, Keeps-raise, Keeps-step, Keeps-bind,
  Keeps-then, Keeps-catch,
}

module _ (env : Env) (config : Config) (P : Db → Type 0) (live : Live env) (stable : Stable env P)
    (item : OrderItem) (supplier : ℕ) (request : RequestId)
    (is_paid_item : (d : Db) → P d → IsPaidItem d.orders d.items item) where
  open env use {World}

  journal-Keeps :
      (outcome : AttemptOutcome) → Keeps env P (journal env config item supplier request outcome)
  unfolding journal
  journal-Keeps outcome =
      Keeps-step env P live stable (record_attempt item supplier request 0 outcome)
        (λ d p. System.Step.attempts item supplier request 0 outcome d)

  journal_and :
      (outcome : AttemptOutcome) (x : AcceptOutcome)
      → Keeps env P (journal env config item supplier request outcome >> pure x)
  journal_and outcome x =
      Keeps-then env P live stable (journal env config item supplier request outcome) (pure x)
        (journal-Keeps outcome) (Keeps-pure env P x)

  -- A finding is written down before the rest.
  find_and :
      (kind : DiscrepancyKind) (code : ℕ) (ours : Option ℕ) (k : Run World AcceptOutcome)
      → Keeps env P k
      → Keeps env P (commit env (discrepancy supplier request item.id kind code ours) >> k)
  find_and kind code ours k rest =
      let find = discrepancy supplier request item.id kind code ours in
      Keeps-then env P live stable (commit env find) k
        (Keeps-step env P live stable find
          (λ d p. discrepancy-Step supplier request item.id kind code ours d))
        rest

  reject_duplicate-Keeps :
      (code : ℕ) → Keeps env P (reject_duplicate env config item supplier request code)
  unfolding reject_duplicate
  reject_duplicate-Keeps code =
      find_and duplicate_code code none
        (journal env config item supplier request AttemptOutcome.rejected
          >> pure AcceptOutcome.rejected)
        (journal_and AttemptOutcome.rejected AcceptOutcome.rejected)

  after_error-Keeps :
      (code : ℕ) (e : Error)
      → Keeps env P (
          if is_duplicate_code e
          then reject_duplicate env config item supplier request code
          else raise e)
  after_error-Keeps code e = elim (Bool-cases (is_duplicate_code e)) [
    | inl dup ↦ rw dup (reject_duplicate-Keeps code)
    | inr other ↦ rw other (Keeps-raise env P AcceptOutcome e)
  ]

  hand_over-Keeps : (code : ℕ) → Keeps env P (hand_over env config item supplier request code)
  unfolding hand_over
  hand_over-Keeps code =
      let body = complete item supplier request code in
      Keeps-catch env P live stable (commit env body >> pure AcceptOutcome.delivered)
        (λ e.
          if is_duplicate_code e
          then reject_duplicate env config item supplier request code
          else raise e)
        (Keeps-then env P live stable (commit env body) (pure AcceptOutcome.delivered)
          (Keeps-step env P live stable body
            (λ d p. completes item supplier request code d (is_paid_item d p)))
          (Keeps-pure env P AcceptOutcome.delivered))
        (after_error-Keeps code)

  take_booked-Keeps :
      (answered booked : ℕ)
      → Keeps env P (take_booked env config item supplier request answered booked)
  unfolding take_booked
  take_booked-Keeps answered booked = elim (Bool-cases (booked == answered)) [
    | inl same ↦ rw same (hand_over-Keeps answered)
    | inr other ↦ rw other (
        find_and code_mismatch answered (some booked)
          (hand_over env config item supplier request booked) (hand_over-Keeps booked))
  ]

  check_book-Keeps :
      (code : ℕ) (r : LookupResult)
      → Keeps env P (check_book env config item supplier request code r)
  unfolding check_book
  check_book-Keeps code (LookupResult.deferred t) = Keeps-pure env P (AcceptOutcome.deferred t)
  check_book-Keeps code (LookupResult.error d) =
      journal_and (outcome_of_error d) AcceptOutcome.ambiguous
  check_book-Keeps code nothing =
      find_and unbooked_code code none
        (journal env config item supplier request AttemptOutcome.rejected
          >> pure AcceptOutcome.rejected)
        (journal_and AttemptOutcome.rejected AcceptOutcome.rejected)
  check_book-Keeps code (found booked) = take_booked-Keeps code booked

  pub accept-Keeps :
      (code : ℕ) (verified : Bool)
      → Keeps env P (accept env config item supplier request code verified)
  unfolding accept
  accept-Keeps code true = hand_over-Keeps code
  accept-Keeps code false =
      Keeps-bind env P live stable (lookup env config supplier request)
        (check_book env config item supplier request code)
        (lookup-Keeps env config P live stable supplier request) (check_book-Keeps code)
