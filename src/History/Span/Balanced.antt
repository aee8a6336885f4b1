-- ===== src/History/Span/Balanced.antt =====
-- What `moneyBetween` finds, where every fact of the history has its pair of postings.
use hh_game_market_backend.Base.{
  ℕ, ◌+◌, ◌≤◌, ◌≡◌, refl, Bool, true, ◌&&◌, inl, inr, Bool-cases, List, [], ◌∷◌, ltb, arith, filter,
  sum_where,
}
use hh_game_market_backend.Base.Int.{ℤ, pos, ◌+ℤ◌, ◌-ℤ◌, +ℤ_parts, -ℤ_parts, eq_ℤ, int_laws}
use hh_game_market_backend.Model.{
  LedgerAccount, cash, customer_liability, revenue, account_eq, LedgerReason, payment, delivery,
  refund, ledger_reason_eq, OrderEvent, LedgerEntry, Db,
}
use hh_game_market_backend.Ledger.{sums_of, total, on_account}
use hh_game_market_backend.Books.{AddsUp}
use hh_game_market_backend.History.Span.{
  entries_before, moved_sums, told_sums, within, is_balanced, agrees, span_of, concerned,
  event_amount, MoneyBetween,
}
use hh_game_market_backend.History.Span.Pairs.{Matched}
use hh_game_market_backend.History.Span.Sums.{total-Matched, count-Matched, count-sum_where, chosen}

total-filter :
    (q r : LedgerEntry → Bool) (rows : List LedgerEntry)
    → total q (filter r rows) ≡ total (λ e. r e && q e) rows
total-filter q r [] = refl
total-filter q r (e ∷ rows) = elim (Bool-cases (r e)) [
  | inl hit ↦ rw (hit, total-filter q r rows) refl
  | inr miss ↦ rw (miss, total-filter q r rows) (omega int_laws)
]

abbrev pub before : ℕ → ℕ → Bool
before t x = ltb x t

abbrev pub facts : (OrderEvent → ℕ) → (ℕ → Bool) → LedgerReason → List OrderEvent → ℕ
facts w p s = sum_where (concerned s p) w

-- A fact before the end of a span is before its start or within it.
facts-split :
    (w : OrderEvent → ℕ) (from to : ℕ) (s : LedgerReason) (events : List OrderEvent)
    → from ≤ to
    → facts w (before to) s events
      ≡ facts w (before from) s events + facts w (within from to) s events
facts-split w from to s [] h = refl
facts-split w from to s (e ∷ events) h = ground (arith, facts-split w from to s events h)

-- The accounts of the journal.
abbrev on : LedgerAccount → LedgerAccount → LedgerReason → Bool
on a b r = account_eq b a

abbrev for : LedgerAccount → LedgerReason → LedgerAccount → LedgerReason → Bool
for a s b r = account_eq b a && ledger_reason_eq r s

abbrev pub sums : (ℕ → Bool) → LedgerReason → List OrderEvent → ℕ
sums = facts (λ e. event_amount e.payload)

module _ (x y : ℤ) (a b c d : ℕ) (h : AddsUp x b a) (k : AddsUp y d c) where
  adds_plus : AddsUp (x +ℤ y) (b + d) (a + c)
  adds_plus = omega (arith, h, k, +ℤ_parts x y)

  adds_minus : AddsUp (x -ℤ y) (b + c) (a + d)
  adds_minus = omega (arith, h, k, -ℤ_parts x y)

  adds_same : a + d ≡ c + b → eq_ℤ x y ≡ true
  adds_same e = ground (arith, h, k, e)

module _ (db : Db) (m : Matched db.ledger db.events) where
  pub before_cash :
      (t : ℕ)
      → AddsUp
          (sums_of (entries_before t db)).cash
          (sums (before t) refund db.events)
          (sums (before t) payment db.events)
  unfolding sums_of
  before_cash t =
      rw (total-filter (on_account cash) (λ e. ltb e.created_at t) db.ledger)
        (ground (arith, total-Matched (before t) (on cash) m))

  pub before_liability :
      (t : ℕ)
      → AddsUp
          (sums_of (entries_before t db)).customer_liability
          (sums (before t) delivery db.events + sums (before t) refund db.events)
          (sums (before t) payment db.events)
  unfolding sums_of
  before_liability t =
      let z = total (λ e. ltb e.created_at t && on_account customer_liability e) db.ledger in
      rw (total-filter (on_account customer_liability) (λ e. ltb e.created_at t) db.ledger)
        (ground (arith, total-Matched (before t) (on customer_liability) m, -ℤ_parts (pos 0) z))

  pub before_revenue :
      (t : ℕ)
      → AddsUp (sums_of (entries_before t db)).revenue 0 (sums (before t) delivery db.events)
  unfolding sums_of
  before_revenue t =
      let z = total (λ e. ltb e.created_at t && on_account revenue e) db.ledger in
      rw (total-filter (on_account revenue) (λ e. ltb e.created_at t) db.ledger)
        (ground (arith, total-Matched (before t) (on revenue) m, -ℤ_parts (pos 0) z))

  module _ (p : ℕ → Bool) where
    pub moved_paid : AddsUp (moved_sums p db.ledger).paid 0 (sums p payment db.events)
    unfolding moved_sums
    moved_paid = ground (arith, total-Matched p (for cash payment) m)

    pub moved_delivered : AddsUp (moved_sums p db.ledger).delivered 0 (sums p delivery db.events)
    unfolding moved_sums
    moved_delivered = ground (
      arith,
      total-Matched p (on revenue) m,
      -ℤ_parts (pos 0) (total (chosen p (on revenue)) db.ledger),
    )

    pub moved_refunded : AddsUp (moved_sums p db.ledger).refunded 0 (sums p refund db.events)
    unfolding moved_sums
    moved_refunded = ground (
      arith,
      total-Matched p (for cash refund) m,
      -ℤ_parts (pos 0) (total (chosen p (for cash refund)) db.ledger),
    )

    pub told_agrees : agrees (told_sums p db.events) (moved_sums p db.ledger) ≡ true
    unfolding moved_sums told_sums
    told_agrees = ground (
      arith,
      moved_paid,
      moved_delivered,
      moved_refunded,
      count-Matched p (for cash payment) m,
      count-Matched p (on revenue) m,
      count-Matched p (for cash refund) m,
      count-sum_where (concerned payment p) db.events,
      count-sum_where (concerned delivery p) db.events,
      count-sum_where (concerned refund p) db.events,
    )

  span_balanced :
      (from to : ℕ)
      → from ≤ to
      → is_balanced
          (sums_of (entries_before from db))
          (moved_sums (within from to) db.ledger)
          (sums_of (entries_before to db))
        ≡ true
  span_balanced from to h =
      let p = within from to in
      let split : (s : LedgerReason)
          → sums (before to) s db.events ≡ sums (before from) s db.events + sums p s db.events =
        λ s. facts-split (λ e. event_amount e.payload) from to s db.events h in
      let paid = moved_paid p in
      let delivered = moved_delivered p in
      let refunded = moved_refunded p in
      let cash_moves =
        adds_minus _ _ _ _ _ _ (adds_plus _ _ _ _ _ _ (before_cash from) paid) refunded in
      let liability_moves =
        adds_minus _ _ _ _ _ _
          (adds_minus _ _ _ _ _ _ (adds_plus _ _ _ _ _ _ (before_liability from) paid) delivered)
          refunded in
      let revenue_moves = adds_plus _ _ _ _ _ _ (before_revenue from) delivered in
      let cash_same =
        adds_same _ _ _ _ _ _ (before_cash to) cash_moves
          (omega (arith, split payment, split refund)) in
      let liability_same =
        adds_same _ _ _ _ _ _ (before_liability to) liability_moves
          (omega (arith, split payment, split delivery, split refund)) in
      let revenue_same =
        adds_same _ _ _ _ _ _ (before_revenue to) revenue_moves (omega (arith, split delivery)) in
      rw (cash_same, liability_same, revenue_same) refl

  pub before_refunded :
      (t : ℕ) → AddsUp (sums_of (entries_before t db)).refunded 0 (sums (before t) refund db.events)
  unfolding sums_of
  before_refunded t =
      let given =
        λ (e : LedgerEntry). account_eq e.account cash && ledger_reason_eq e.reason refund in
      let z = total (λ e. ltb e.created_at t && given e) db.ledger in
      rw (total-filter given (λ e. ltb e.created_at t) db.ledger)
        (ground (arith, total-Matched (before t) (for cash refund) m, -ℤ_parts (pos 0) z))

  pub before_total : (t : ℕ) → AddsUp (sums_of (entries_before t db)).total 0 0
  unfolding sums_of
  before_total t =
      rw (total-filter (λ e. true) (λ e. ltb e.created_at t) db.ledger)
        (ground (arith, total-Matched (before t) (λ a r. true) m))

  abbrev pub span : ℕ → ℕ → MoneyBetween
  span from to =
      let p = within from to in
      span_of (sums_of (entries_before from db)) (moved_sums p db.ledger) (told_sums p db.events)
        (sums_of (entries_before to db))

  pub span_lem :
      (from to : ℕ)
      → from ≤ to
      → ((span from to).balanced ≡ true) × ((span from to).events_agree ≡ true)
  unfolding span_of
  span_lem from to h = (span_balanced from to h, told_agrees (within from to))
