-- ===== src/Reconcile/Control.antt =====
-- The control total of backend/src/ledger/ledger.service.ts, which the report shows.
use hh_game_market_backend.Base.{
  ℕ, ◌+◌, ◌≤◌, ◌<◌, ◌≡◌, ◌⊎◌, inl, inr, refl, Bool, true, ◌&&◌, leb, arith, Bool-cases, sym, ◌∙◌,
}
use hh_game_market_backend.Base.Int.{ℤ, pos, ◌-ℤ◌, -ℤ_parts, eq_ℤ, int_max, fits_int, all_fit}
use hh_game_market_backend.Model.{
  ItemStatus, is_open, cash, customer_liability, revenue, account_eq, refund, ledger_reason_eq,
  LedgerEntry, Db, out_of_range, ok, err,
}
use hh_game_market_backend.Ledger.{
  Report, columns, compare, sums_of, worth_sums, worth_of, balances, balances_of, total, on_account,
  paid_sum, item_sum, is_status,
}
use hh_game_market_backend.Books.{AddsUp, BooksOf, OrderBooks}
use hh_game_market_backend.History.Span.Pairs.{Matched}
use hh_game_market_backend.History.Span.Sums.{total-Matched}
use hh_game_market_backend.System.{Reach, IsFresh}
use hh_game_market_backend.System.Books.{Reach-BooksOf, Books-fresh}
use hh_game_market_backend.System.Entries.{IsAccounted}
use hh_game_market_backend.System.Accounted.{Reach-IsAccounted}
use hh_game_market_backend.System.Told.{IsTold, Reach-IsTold, told_refunds}
use hh_game_market_backend.Reconcile.Money.{All-found}
use hh_game_market_backend.Reconcile.Totals.{AllBooks, all_books, posted_in-all, whole_part-all}

pub fits_sum : (z : ℤ) (b a : ℕ) → AddsUp z b a → b ≤ int_max → a ≤ int_max → fits_int z ≡ true
fits_sum z b a h lo hi = ground arith

pub fits_neg :
    (z : ℤ) (b a : ℕ) → AddsUp z b a → b ≤ int_max → a ≤ int_max → fits_int (pos 0 -ℤ z) ≡ true
fits_neg z b a h lo hi = ground (arith, -ℤ_parts (pos 0) z)

module _ (db : Db) (books : BooksOf db) (accounted : IsAccounted db) (told : IsTold db) where
  every_order : AllBooks db.items db.ledger db.orders
  every_order =
      all_books db.items db.ledger db.orders books.order_keys
        (All-found (OrderBooks db.items db.ledger) db.orders books.order_keys books.per_order)

  pub cash_total :
      AddsUp
        (total (on_account cash) db.ledger)
        (item_sum (is_status ItemStatus.refunded) db)
        (paid_sum db)
  cash_total =
      rw⁻¹ (posted_in-all cash db.orders db.ledger books.ledger_owners) every_order.cash_kept

  liability_total : AddsUp (total (on_account customer_liability) db.ledger) (item_sum is_open db) 0
  liability_total =
      rw⁻¹ (posted_in-all customer_liability db.orders db.ledger books.ledger_owners)
        every_order.liability

  pub revenue_total :
      AddsUp (total (on_account revenue) db.ledger) (item_sum (is_status ItemStatus.delivered) db) 0
  revenue_total =
      rw⁻¹ (posted_in-all revenue db.orders db.ledger books.ledger_owners) every_order.earned

  pub refunded_total : told_refunds db.events ≡ item_sum (is_status ItemStatus.refunded) db
  refunded_total =
      told
      ∙ sym (whole_part-all (is_status ItemStatus.refunded) db.orders db.items books.item_owners)
      ∙ every_order.given_back

  abbrev given_back : LedgerEntry → Bool
  given_back e = account_eq e.account cash && ledger_reason_eq e.reason refund

  refund_postings : AddsUp (total given_back db.ledger) (told_refunds db.events) 0
  refund_postings = ground (
    arith,
    total-Matched (λ t. true) (λ a r. account_eq a cash && ledger_reason_eq r refund) accounted,
  )

  nothing_lost : AddsUp (total (λ _. true) db.ledger) 0 0
  nothing_lost = ground (arith, total-Matched (λ t. true) (λ a r. true) accounted)

  pub parts_total :
      item_sum (is_status ItemStatus.refunded) db
        + item_sum (is_status ItemStatus.delivered) db
        + item_sum is_open db
      ≡ paid_sum db
  parts_total = every_order.parts

  control_total : (compare (sums_of db.ledger) (worth_sums db)).balanced ≡ true
  unfolding compare sums_of
  control_total =
      let paid = paid_sum db in
      let back = item_sum (is_status ItemStatus.refunded) db in
      let none_lost : eq_ℤ (total (λ _. true) db.ledger) (pos 0) ≡ true =
        ground (arith, nothing_lost) in
      let cash_same : eq_ℤ (total (on_account cash) db.ledger) (pos paid -ℤ pos back) ≡ true =
        ground (arith, cash_total, -ℤ_parts (pos paid) (pos back)) in
      let liability_same : eq_ℤ (pos 0 -ℤ total (on_account customer_liability) db.ledger)
            (pos (item_sum is_open db))
          ≡ true =
        ground (
          arith,
          liability_total,
          -ℤ_parts (pos 0) (total (on_account customer_liability) db.ledger),
        ) in
      let revenue_same : eq_ℤ (pos 0 -ℤ total (on_account revenue) db.ledger)
            (pos (item_sum (is_status ItemStatus.delivered) db))
          ≡ true =
        ground (arith, revenue_total, -ℤ_parts (pos 0) (total (on_account revenue) db.ledger)) in
      let refunded_same : eq_ℤ (pos 0 -ℤ total given_back db.ledger) (pos back) ≡ true =
        ground
          (arith, refund_postings, refunded_total, -ℤ_parts (pos 0) (total given_back db.ledger)) in
      rw (none_lost, cash_same, liability_same, revenue_same, refunded_same) refl

  sums_fit : paid_sum db ≤ int_max → all_fit (columns (sums_of db.ledger)) ≡ true
  unfolding sums_of
  sums_fit h =
      rw
        (
          fits_sum _ _ _ cash_total (omega (arith, parts_total, h)) h,
          fits_neg _ _ _ liability_total (omega (arith, parts_total, h)) (omega arith),
          fits_neg _ _ _ revenue_total (omega (arith, parts_total, h)) (omega arith),
          fits_neg _ _ _ refund_postings (omega (arith, refunded_total, parts_total, h))
              (omega arith),
          fits_sum _ _ _ nothing_lost (omega arith) (omega arith),
        )
        refl

  balances-cases :
      ((int_max < paid_sum db) × (balances db ≡ err out_of_range))
      ⊎ ((paid_sum db ≤ int_max)
          × ((report : Report) × (balances db ≡ ok report) × (report.balanced ≡ true)))
  unfolding balances balances_of worth_of
  balances-cases = elim (Bool-cases (leb (paid_sum db) int_max)) [
    | inr large ↦ inl (
      ground (arith, large),
      elim (Bool-cases (all_fit (columns (sums_of db.ledger)))) [
        | inr raises ↦ rw raises refl
        | inl goes_on ↦ rw (goes_on, large) refl
      ],
    )
    | inl small ↦
        let within : paid_sum db ≤ int_max = ground (arith, small) in
        let sold : leb (item_sum (is_status ItemStatus.delivered) db) int_max ≡ true =
          ground (arith, parts_total) in
        let back : leb (item_sum (is_status ItemStatus.refunded) db) int_max ≡ true =
          ground (arith, parts_total) in
        let opens : leb (item_sum is_open db) int_max ≡ true = ground (arith, parts_total) in
        inr (
          within,
          (
            compare (sums_of db.ledger) (worth_sums db),
            rw (sums_fit within, small, sold, back, opens) refl,
            control_total,
          ),
        )
  ]

-- In every database that the services reach before any order or later, in any interleaving of their
-- transactions, the control total raises `integer out of range` if the paid orders come to more than
-- the largest `int`. Else it answers, and says balanced: all postings sum to nothing, cash is what the
-- paid orders cost less what was refunded, the liability is what their open items cost, the revenue
-- what the delivered ones cost, and the refund postings of cash come to what the refunded ones cost.
pub Reach-balances :
    {a b : Db}
    → Reach a b
    → IsFresh a
    → ((int_max < paid_sum b) × (balances b ≡ err out_of_range))
      ⊎ ((paid_sum b ≤ int_max)
          × ((report : Report) × (balances b ≡ ok report) × (report.balanced ≡ true)))
Reach-balances {a} {b} r f =
    let start = Books-fresh f in
    let accounted : IsAccounted a = rw (f.ledger, f.events) Matched.none in
    let told : IsTold a = rw (f.events, f.items) refl in
    balances-cases b (Reach-BooksOf r start) (Reach-IsAccounted r start accounted)
      (Reach-IsTold r start told)
