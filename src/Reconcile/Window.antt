-- ===== src/Reconcile/Window.antt =====
-- `moneyBetween` of backend/src/history/history.service.ts over a reachable database: what its casts
-- let pass, and what it answers.
use hh_game_market_backend.Base.{
  ℕ, ◌+◌, ◌≤◌, ◌<◌, ◌≡◌, ◌⊎◌, inl, inr, refl, Bool, true, List, [], ◌∷◌, leb, arith, Bool-cases,
  sym, ◌∙◌, count, length,
}
use hh_game_market_backend.Base.Int.{pos, int_max, fits_int, all_fit}
use hh_game_market_backend.Model.{
  ItemStatus, account_eq, cash, revenue, payment, delivery, refund, LedgerReason, OrderEvent, Db,
  out_of_range, ok, err,
}
use hh_game_market_backend.Ledger.{columns, sums_of, balances_of, paid_sum, item_sum, is_status}
use hh_game_market_backend.Books.{BooksOf}
use hh_game_market_backend.History.Span.{
  Moved, MoneyBetween, agrees, concerned, event_amount, within, entries_before, moved_columns,
  moved_sums, told_sums, moved_in, told_in, money_before, money_between,
}
use hh_game_market_backend.History.Span.Pairs.{Matched}
use hh_game_market_backend.History.Span.Sums.{total-Matched}
use hh_game_market_backend.History.Span.Balanced.{
  facts, sums, before, before_cash, before_liability, before_revenue, before_refunded, before_total,
  moved_paid, moved_delivered, moved_refunded, told_agrees, span, span_lem,
}
use hh_game_market_backend.Reconcile.Control.{
  fits_sum, cash_total, revenue_total, refunded_total, parts_total,
}
use hh_game_market_backend.System.{Reach, IsFresh}
use hh_game_market_backend.System.Books.{Reach-BooksOf, Books-fresh}
use hh_game_market_backend.System.Entries.{IsAccounted}
use hh_game_market_backend.System.Accounted.{Reach-IsAccounted}
use hh_game_market_backend.System.Told.{IsTold, Reach-IsTold, ever}

-- A part of the facts comes to no more than all of them.
facts-part :
    (w : OrderEvent → ℕ) (p : ℕ → Bool) (s : LedgerReason) (events : List OrderEvent)
    → facts w p s events ≤ facts w ever s events
facts-part w p s [] = omega arith
facts-part w p s (e ∷ events) = ground (arith, facts-part w p s events)

count-length {ℓ} : {A : Type ℓ} (p : A → Bool) (xs : List A) → count p xs ≤ length xs
count-length p [] = omega arith
count-length p (x ∷ xs) = ground (arith, count-length p xs)

agrees_counts :
    (a b : Moved)
    → agrees a b ≡ true
    → (b.payments ≡ a.payments) × (b.deliveries ≡ a.deliveries) × (b.refunds ≡ a.refunds)
agrees_counts a b h = ground arith

counted : (n : ℕ) → n ≤ int_max → fits_int (pos n) ≡ true
counted n h = ground arith

module _ (db : Db) (books : BooksOf db) (m : IsAccounted db) (told : IsTold db)
    (affordable : paid_sum db ≤ int_max) (short : length db.events ≤ int_max) where
  payments_total : sums ever payment db.events ≡ paid_sum db
  payments_total = ground (
    arith,
    total-Matched ever (λ a r. account_eq a cash) m,
    cash_total db books m told,
    refunded_total db books m told,
  )

  deliveries_total : sums ever delivery db.events ≡ item_sum (is_status ItemStatus.delivered) db
  deliveries_total =
      ground
        (arith, total-Matched ever (λ a r. account_eq a revenue) m, revenue_total db books m told)

  back_bound : sums ever delivery db.events + sums ever refund db.events ≤ int_max
  back_bound = omega (
    arith,
    affordable,
    deliveries_total,
    refunded_total db books m told,
    parts_total db books m told,
  )

  module _ (p : ℕ → Bool) where
    part_bounds :
        (sums p payment db.events ≤ int_max)
        × (sums p delivery db.events + sums p refund db.events ≤ int_max)
    part_bounds = (
      omega (
        arith,
        affordable,
        payments_total,
        facts-part (λ e. event_amount e.payload) p payment db.events,
      ),
      omega (
        arith,
        back_bound,
        facts-part (λ e. event_amount e.payload) p delivery db.events,
        facts-part (λ e. event_amount e.payload) p refund db.events,
      ),
    )

    counts_fit :
        (fits_int (pos (told_sums p db.events).payments) ≡ true)
        × (fits_int (pos (told_sums p db.events).deliveries) ≡ true)
        × (fits_int (pos (told_sums p db.events).refunds) ≡ true)
    unfolding told_sums
    counts_fit = (
      counted _ (omega (arith, short, count-length (concerned payment p) db.events)),
      counted _ (omega (arith, short, count-length (concerned delivery p) db.events)),
      counted _ (omega (arith, short, count-length (concerned refund p) db.events)),
    )

    told_fit : all_fit (moved_columns (told_sums p db.events)) ≡ true
    unfolding told_sums
    told_fit =
        let (paid, back) = part_bounds in
        let (payments, deliveries, refunds) = counts_fit in
        rw
          (
            counted (sums p payment db.events) paid,
            counted (sums p delivery db.events) (omega (arith, back)),
            counted (sums p refund db.events) (omega (arith, back)),
            payments,
            deliveries,
            refunds,
          )
          refl

    moved_fit : all_fit (moved_columns (moved_sums p db.ledger)) ≡ true
    moved_fit =
        let (paid, back) = part_bounds in
        let (payments, deliveries, refunds) =
          agrees_counts (told_sums p db.events) (moved_sums p db.ledger) (told_agrees db m p) in
        let (few, fewer, fewest) = counts_fit in
        rw
          (
            fits_sum _ _ _ (moved_paid db m p) (omega arith) paid,
            fits_sum _ _ _ (moved_delivered db m p) (omega arith) (omega (arith, back)),
            fits_sum _ _ _ (moved_refunded db m p) (omega arith) (omega (arith, back)),
            payments,
            deliveries,
            refunds,
            few,
            fewer,
            fewest,
          )
          refl

  before_fit : (t : ℕ) → all_fit (columns (sums_of (entries_before t db))) ≡ true
  before_fit t =
      let (paid, back) = part_bounds (before t) in
      rw
        (
          fits_sum _ _ _ (before_cash db m t) (omega (arith, back)) paid,
          fits_sum _ _ _ (before_liability db m t) back paid,
          fits_sum _ _ _ (before_revenue db m t) (omega arith) (omega (arith, back)),
          fits_sum _ _ _ (before_refunded db m t) (omega arith) (omega (arith, back)),
          fits_sum _ _ _ (before_total db m t) (omega arith) (omega arith),
        )
        refl

  money_between_answers : (from to : ℕ) → money_between from to db ≡ ok (span db m from to)
  unfolding money_between moved_in told_in money_before balances_of
  money_between_answers from to =
      rw (moved_fit (within from to), told_fit (within from to), before_fit from, before_fit to)
        refl

-- Each of the four queries answers, or its casts raise.
outcome :
    (db : Db) (m : IsAccounted db) (from to : ℕ)
    → (money_between from to db ≡ ok (span db m from to))
      ⊎ (money_between from to db ≡ err out_of_range)
unfolding money_between moved_in told_in money_before balances_of
outcome db m from to =
    let p = within from to in
    elim (Bool-cases (all_fit (moved_columns (moved_sums p db.ledger)))) [
      | inr fails ↦ inr (rw fails refl)
      | inl moved ↦ elim (Bool-cases (all_fit (moved_columns (told_sums p db.events)))) [
        | inr fails ↦ inr (rw (moved, fails) refl)
        | inl events ↦ elim (Bool-cases (all_fit (columns (sums_of (entries_before from db))))) [
          | inr fails ↦ inr (rw (moved, events, fails) refl)
          | inl opening ↦ elim (Bool-cases (all_fit (columns (sums_of (entries_before to db))))) [
            | inr fails ↦ inr (rw (moved, events, opening, fails) refl)
            | inl closing ↦ inl (rw (moved, events, opening, closing) refl)
          ]
        ]
      ]
    ]

-- In every database that the services reach before any order or later, in any interleaving of their
-- transactions, `moneyBetween` of two times, the first not after the second, answers unless the paid
-- orders come to more than the largest `int` or there are more events than that. If it answers, the
-- closing balances are the opening ones and what moved, and the events tell the same numbers and sums
-- of payments, deliveries and refunds as the postings; if not, it raises `integer out of range`.
pub Reach-money_between :
    (from to : ℕ) {a b : Db}
    → Reach a b
    → IsFresh a
    → from ≤ to
    → ((money_between from to b ≡ err out_of_range)
        × ((int_max < paid_sum b) ⊎ (int_max < length b.events)))
      ⊎ ((s : MoneyBetween) × (money_between from to b ≡ ok s)
          × (s.balanced ≡ true)
          × (s.events_agree ≡ true))
Reach-money_between from to {a} {b} r f order =
    let start = Books-fresh f in
    let books = Reach-BooksOf r start in
    let accounted : IsAccounted a = rw (f.ledger, f.events) Matched.none in
    let m = Reach-IsAccounted r start accounted in
    let told_from : IsTold a = rw (f.events, f.items) refl in
    let told = Reach-IsTold r start told_from in
    let (balances, agreement) = span_lem b m from to order in
    elim (outcome b m from to) [
      | inl answers ↦ inr (span b m from to, answers, balances, agreement)
      | inr raises ↦ inl (
        raises,
        elim (Bool-cases (leb (paid_sum b) int_max)) [
          | inr dear ↦ inl (ground (arith, dear))
          | inl affordable ↦ elim (Bool-cases (leb (length b.events) int_max)) [
            | inr long ↦ inr (ground (arith, long))
            | inl short ↦
                let answers =
                  money_between_answers b books m told (ground (arith, affordable))
                    (ground (arith, short)) from to in
                let clash : ok (span b m from to) ≡ err out_of_range = sym answers ∙ raises in cc
          ]
        ],
      )
    ]
