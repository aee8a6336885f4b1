-- ===== src/History/Span/Sums.antt =====
-- What the postings of a time come to, by the sums over its events.
use hh_game_market_backend.Base.{
  ℕ, ◌+◌, ◌≡◌, refl, Bool, true, ◌&&◌, List, [], ◌∷◌, ◌++◌, if◌then◌else◌, arith, ap, count,
  count-append, sum_where, sum_where-append,
}
use hh_game_market_backend.Base.Int.{pos, neg, ◌+ℤ◌, +ℤ_parts, neg_parts, int_laws}
use hh_game_market_backend.Model.{
  LedgerAccount, LedgerReason, payment, delivery, refund, ledger_reason_eq, EventData, OrderEvent,
  LedgerEntry,
}
use hh_game_market_backend.Ledger.{total}
use hh_game_market_backend.Books.{AddsUp}
use hh_game_market_backend.History.Span.{concerns, concerned, event_amount}
use hh_game_market_backend.History.Span.Pairs.{
  debit, credit, IsPair, IsIdle, Matched, idle, entered,
}

concerns_one :
    (r s : LedgerReason) (d : EventData) → concerns r d ≡ true → concerns s d ≡ ledger_reason_eq r s
concerns_one r s d h = ground arith

pub total-snoc :
    (q : LedgerEntry → Bool) (rows : List LedgerEntry) (e : LedgerEntry)
    → total q (rows ++ e ∷ []) ≡ total q rows +ℤ (if q e then e.amount else pos 0)
total-snoc q [] e = omega int_laws
total-snoc q (d ∷ rows) e = rw (total-snoc q rows e) (omega int_laws)

pub count-sum_where {ℓ} :
    {A : Type ℓ} (q : A → Bool) (xs : List A) → sum_where q (λ _. 1) xs ≡ count q xs
count-sum_where q [] = refl
count-sum_where q (x ∷ xs) = ground (arith, count-sum_where q xs)

module _ (p : ℕ → Bool) (g : LedgerAccount → LedgerReason → Bool) where
  abbrev pub chosen : LedgerEntry → Bool
  chosen e = p e.created_at && g e.account e.reason

  chosen_x :
      {r : LedgerReason} {e : OrderEvent} {x y : LedgerEntry}
      → IsPair r e x y
      → chosen x ≡ (p e.at && g (debit r) r)
  chosen_x pair = rw (pair.at_x, pair.debits, pair.reason_x) refl

  chosen_y :
      {r : LedgerReason} {e : OrderEvent} {x y : LedgerEntry}
      → IsPair r e x y
      → chosen y ≡ (p e.at && g (credit r) r)
  chosen_y pair = rw (pair.at_y, pair.credits, pair.reason_y) refl

  module _ (w : OrderEvent → ℕ) where
    abbrev pub weights : LedgerReason → List OrderEvent → ℕ
    weights s = sum_where (concerned s p) w

    weights-snoc :
        (s : LedgerReason) (events : List OrderEvent) (e : OrderEvent)
        → weights s (events ++ e ∷ []) ≡ weights s events + (if concerned s p e then w e else 0)
    weights-snoc s events e = omega (arith, sum_where-append (concerned s p) w events (e ∷ []))

    -- The sum over the facts whose posting on one side is chosen.
    abbrev pub side : (LedgerReason → LedgerAccount) → List OrderEvent → ℕ
    side f events =
        (if g (f payment) payment then weights payment events else 0)
        + (if g (f delivery) delivery then weights delivery events else 0)
        + (if g (f refund) refund then weights refund events else 0)

    side_idle :
        (f : LedgerReason → LedgerAccount) (events : List OrderEvent) (e : OrderEvent)
        → IsIdle e
        → side f (events ++ e ∷ []) ≡ side f events
    side_idle f events e h = ground (
      arith,
      weights-snoc payment events e,
      weights-snoc delivery events e,
      weights-snoc refund events e,
      h payment,
      h delivery,
      h refund,
    )

    side_entered :
        (f : LedgerReason → LedgerAccount) (r : LedgerReason) (events : List OrderEvent)
        (e : OrderEvent)
        → concerns r e.payload ≡ true
        → side f (events ++ e ∷ []) ≡ side f events + (if p e.at && g (f r) r then w e else 0)
    side_entered f r events e h = ground (
      arith,
      weights-snoc payment events e,
      weights-snoc delivery events e,
      weights-snoc refund events e,
      concerns_one r payment e.payload h,
      concerns_one r delivery e.payload h,
      concerns_one r refund e.payload h,
    )

  abbrev amount : OrderEvent → ℕ
  amount e = event_amount e.payload

  -- Two more rows, worth n on either side.
  total-pair :
      (rows : List LedgerEntry) (x y : LedgerEntry) (n : ℕ) (a b : Bool)
      → x.amount ≡ pos n
      → y.amount ≡ neg n
      → chosen x ≡ a
      → chosen y ≡ b
      → (c d : ℕ) → AddsUp (total chosen rows) c d
      → AddsUp
          (total chosen ((rows ++ x ∷ []) ++ y ∷ []))
          (c + (if b then n else 0))
          (d + (if a then n else 0))
  total-pair rows x y n a b debited credited at_x at_y c d h =
      let z = total chosen rows in
      let dx = if a then pos n else pos 0 in
      let dy = if b then neg n else pos 0 in
      let grown : total chosen ((rows ++ x ∷ []) ++ y ∷ []) ≡ (z +ℤ dx) +ℤ dy =
        rw
          (
            total-snoc chosen (rows ++ x ∷ []) y,
            total-snoc chosen rows x,
            at_x,
            at_y,
            debited,
            credited,
          )
          refl in
      rw grown (ground (arith, h, +ℤ_parts z dx, +ℤ_parts (z +ℤ dx) dy, neg_parts n))

  pub total-Matched :
      {rows : List LedgerEntry} {events : List OrderEvent}
      → Matched rows events
      → AddsUp (total chosen rows) (side amount credit events) (side amount debit events)
  total-Matched Matched.none = ground arith
  total-Matched (idle {rows} {events} m e h) = omega (
    arith,
    total-Matched m,
    side_idle amount credit events e h,
    side_idle amount debit events e h,
  )
  total-Matched (entered {rows} {events} m r e x y pair) = omega (
    arith,
    total-pair rows x y (amount e) _ _ pair.debited pair.credited (chosen_x pair) (chosen_y pair) _
        _ (total-Matched m),
    side_entered amount credit r events e pair.concerns_it,
    side_entered amount debit r events e pair.concerns_it,
  )

  abbrev one : OrderEvent → ℕ
  one e = 1

  count_snoc :
      (rows : List LedgerEntry) (x : LedgerEntry)
      → count chosen (rows ++ x ∷ []) ≡ count chosen rows + (if chosen x then 1 else 0)
  count_snoc rows x = omega (arith, count-append chosen rows (x ∷ []))

  pub count-Matched :
      {rows : List LedgerEntry} {events : List OrderEvent}
      → Matched rows events
      → count chosen rows ≡ side one credit events + side one debit events
  count-Matched Matched.none = ground arith
  count-Matched (idle {rows} {events} m e h) =
      omega
        (arith, count-Matched m, side_idle one credit events e h, side_idle one debit events e h)
  count-Matched (entered {rows} {events} m r e x y pair) = omega (
    arith,
    count_snoc (rows ++ x ∷ []) y,
    count_snoc rows x,
    ap {B = ℕ} (λ b. if b then 1 else 0) (chosen_x pair),
    ap {B = ℕ} (λ b. if b then 1 else 0) (chosen_y pair),
    count-Matched m,
    side_entered one credit r events e pair.concerns_it,
    side_entered one debit r events e pair.concerns_it,
  )
