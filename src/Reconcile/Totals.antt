-- ===== src/Reconcile/Totals.antt =====
-- The books of all orders, added up.
use hh_game_market_backend.Base.{
  ℕ, ◌+◌, ◌≡◌, refl, Bool, true, false, ◌&&◌, List, [], ◌∷◌, arith, ap, ◌==◌, if◌then◌else◌, All,
  sum_where,
}
use hh_game_market_backend.Base.Keyed.{has, Distinct}
use hh_game_market_backend.Base.Int.{ℤ, pos, ◌+ℤ◌, +ℤ_parts, sum_ℤ, int_laws}
use hh_game_market_backend.Model.{
  ItemStatus, item_status_eq, is_open, is_paid, LedgerAccount, cash, customer_liability, revenue,
  account_eq, Order, OrderItem, LedgerEntry,
}
use hh_game_market_backend.Transition.Facts.{order_id}
use hh_game_market_backend.Ledger.{total}
use hh_game_market_backend.Reconcile.Money.{open_split}
use hh_game_market_backend.Books.Sums.{owned_split}
use hh_game_market_backend.Books.{AddsUp, OrderBooks, in_status, posted, owed}
use hh_game_market_backend.Reconcile.Parts.{
  sum_ℤ-or, apart_order, part, paid_part, whole_part, whole_part-cons, paid_part-cons,
}

paid_only : (b : Bool) (n : ℕ) → (b ≡ false → n ≡ 0) → n ≡ (if b then n else 0)
paid_only true n h = refl
paid_only false n h = h refl

module _ (items : List OrderItem) (ledger : List LedgerEntry) where
  abbrev pub posted_in : LedgerAccount → List Order → ℤ
  posted_in a orders =
      sum_ℤ (λ e. has order_id e.order_id orders && account_eq e.account a) (λ e. e.amount) ledger

  posted_in-none :
      (a : LedgerAccount) (rows : List LedgerEntry)
      → sum_ℤ (λ e. false) (λ e. e.amount) rows ≡ pos 0
  posted_in-none a [] = refl
  posted_in-none a (e ∷ rows) = rw (posted_in-none a rows) (omega int_laws)

  part_in-none : (rows : List OrderItem) → sum_where (λ i. false) (λ i. i.amount) rows ≡ 0
  part_in-none [] = refl
  part_in-none (i ∷ rows) = omega (arith, part_in-none rows)

  posted_in-cons :
      (a : LedgerAccount) (o : Order) (orders : List Order)
      → has order_id o.id orders ≡ false
      → posted_in a (o ∷ orders) ≡ posted o.id a ledger +ℤ posted_in a orders
  posted_in-cons a o orders fresh =
      sum_ℤ-or (λ e. e.order_id == o.id && account_eq e.account a)
        (λ e. has order_id e.order_id orders && account_eq e.account a)
        (λ e. has order_id e.order_id (o ∷ orders) && account_eq e.account a) (λ e. e.amount) ledger
        (λ e. ground arith) (λ e. ground (arith, apart_order o orders fresh e.order_id))

  abbrev pub is_in : ItemStatus → ItemStatus → Bool
  is_in s t = item_status_eq t s

  -- The books of several orders, added up.
  pub record AllBooks (orders : List Order) : Type 0 where
    pub cash_kept :
        AddsUp
          (posted_in cash orders)
          (paid_part items (is_in ItemStatus.refunded) orders)
          (sum_where (λ (o : Order). is_paid o.status) (λ o. o.amount) orders)
    pub liability : AddsUp (posted_in customer_liability orders) (paid_part items is_open orders) 0
    pub earned :
        AddsUp (posted_in revenue orders) (paid_part items (is_in ItemStatus.delivered) orders) 0
    pub given_back :
        whole_part items (is_in ItemStatus.refunded) orders
        ≡ paid_part items (is_in ItemStatus.refunded) orders
    pub parts :
        paid_part items (is_in ItemStatus.refunded) orders
          + paid_part items (is_in ItemStatus.delivered) orders
          + paid_part items is_open orders
        ≡ sum_where (λ (o : Order). is_paid o.status) (λ o. o.amount) orders

  pub all_books :
      (orders : List Order)
      → Distinct order_id orders
      → All (OrderBooks items ledger) orders
      → AllBooks orders
  all_books [] d h = record {
    cash_kept = rw (posted_in-none cash ledger, part_in-none items) refl;
    liability = rw (posted_in-none customer_liability ledger, part_in-none items) refl;
    earned = rw (posted_in-none revenue ledger, part_in-none items) refl;
    given_back = refl;
    parts = rw (part_in-none items) refl;
  }
  all_books (o ∷ orders) d h =
      let rest = all_books orders d.1 h.1 in
      let books : OrderBooks items ledger o = h.0 in
      let refunds = paid_part-cons items (is_in ItemStatus.refunded) o orders d.0 in
      let opens = paid_part-cons items is_open o orders d.0 in
      let deliveries = paid_part-cons items (is_in ItemStatus.delivered) o orders d.0 in
      let kept : in_status o.id ItemStatus.refunded items
          ≡ (if is_paid o.status then in_status o.id ItemStatus.refunded items else 0) =
        paid_only (is_paid o.status) _ (λ u. (books.untouched u).1) in
      let sold : in_status o.id ItemStatus.delivered items
          ≡ (if is_paid o.status then in_status o.id ItemStatus.delivered items else 0) =
        paid_only (is_paid o.status) _ (λ u. (books.untouched u).0) in
      let still_owed : (if is_paid o.status then part items is_open o.id else 0) ≡ owed o items =
        ap (λ n. if is_paid o.status then n else 0) (open_split o.id items) in
      record {
        cash_kept = rw (posted_in-cons cash o orders d.0) (
            omega (
              arith,
              refunds,
              kept,
              books.cash_kept,
              rest.cash_kept,
              +ℤ_parts (posted o.id cash ledger) (posted_in cash orders),
            ));
        liability = rw (posted_in-cons customer_liability o orders d.0) (
            omega (
              arith,
              opens,
              still_owed,
              books.liability,
              rest.liability,
              +ℤ_parts (posted o.id customer_liability ledger)
                  (posted_in customer_liability orders),
            ));
        earned = rw (posted_in-cons revenue o orders d.0) (
            omega (
              arith,
              deliveries,
              sold,
              books.earned,
              rest.earned,
              +ℤ_parts (posted o.id revenue ledger) (posted_in revenue orders),
            ));
        given_back = omega (
          arith,
          refunds,
          kept,
          rest.given_back,
          whole_part-cons items (is_in ItemStatus.refunded) o orders d.0,
        );
        parts = ground (
          arith,
          refunds,
          opens,
          deliveries,
          books.priced,
          rest.parts,
          owned_split o.id items,
          open_split o.id items,
        );
      }

pub posted_in-all :
    (a : LedgerAccount) (orders : List Order) (rows : List LedgerEntry)
    → All (λ (e : LedgerEntry). has order_id e.order_id orders ≡ true) rows
    → sum_ℤ (λ e. has order_id e.order_id orders && account_eq e.account a) (λ e. e.amount) rows
      ≡ total (λ e. account_eq e.account a) rows
posted_in-all a orders [] h = refl
posted_in-all a orders (e ∷ rows) h = rw (h.0, posted_in-all a orders rows h.1) refl

pub whole_part-all :
    (p : ItemStatus → Bool) (orders : List Order) (items : List OrderItem)
    → All (λ i. has order_id i.order_id orders ≡ true) items
    → whole_part items p orders ≡ sum_where (λ i. p i.status) (λ i. i.amount) items
whole_part-all p orders [] h = refl
whole_part-all p orders (i ∷ items) h = rw (h.0, whole_part-all p orders items h.1) refl
