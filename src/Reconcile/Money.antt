-- ===== src/Reconcile/Money.antt =====
-- The list `moneyMismatches` of the report.
use hh_game_market_backend.Base.{
  ℕ, ◌+◌, ◌≡◌, refl, true, false, ◌&&◌, some, List, [], ◌∷◌, arith, sym, ◌∙◌, ap, subst, ◌==◌,
  ==_iff, Bool-cases, inl, inr, All, filter, map, take, sum_where,
}
use hh_game_market_backend.Base.Keyed.{has, has_of_find, find_by, find_by-key, Distinct}
use hh_game_market_backend.Base.Int.{pos, ◌-ℤ◌, eq_ℤ, -ℤ_parts}
use hh_game_market_backend.Model.{
  ItemStatus, is_open, is_paid, is_end, revenue, Order, OrderItem, Db,
}
use hh_game_market_backend.Transition.Facts.{order_id, find_order}
use hh_game_market_backend.Books.{OrderBooks, in_status, posted}
use hh_game_market_backend.Books.Sums.{owned_split}
use hh_game_market_backend.System.{Reach, IsFresh, has_open}
use hh_game_market_backend.System.Books.{Reach-BooksOf, Books-fresh}
use hh_game_market_backend.System.Ended.{IsEnded, Reach-IsEnded}
use hh_game_market_backend.Reconcile.{money_row, is_mismatch, has_row, money_mismatches, limit}

abbrev pub open_sum : ℕ → List OrderItem → ℕ
open_sum k = sum_where (λ i. i.order_id == k && is_open i.status) (λ i. i.amount)

pub open_split :
    (k : ℕ) (items : List OrderItem)
    → open_sum k items
      ≡ in_status k ItemStatus.pending items + in_status k ItemStatus.refunding items
open_split k [] = refl
open_split k (i ∷ items) = ground (arith, open_split k items)

open_sum-closed : (k : ℕ) (items : List OrderItem) → has_open k items ≡ false → open_sum k items ≡ 0
open_sum-closed k [] h = refl
open_sum-closed k (i ∷ items) h = ground (arith, open_sum-closed k items)

-- Ids are unique, so what holds of the order found under each id holds of each row.
pub All-found :
    (P : Order → Type 0) (orders : List Order)
    → Distinct order_id orders
    → ((k : ℕ) (o : Order) → find_by order_id k orders ≡ some o → P o)
    → All P orders
All-found P [] d h = tt
All-found P (o ∷ orders) d h =
    (h o.id o (ground arith), All-found P orders d.1 (λ k p found. h k p (later k p found)))
  where
    later :
        (k : ℕ) (p : Order)
        → find_by order_id k orders ≡ some p
        → find_by order_id k (o ∷ orders) ≡ some p
    later k p found =
        let known = has_of_find order_id k orders p found in
        let other : (o.id == k) ≡ false = elim (Bool-cases (o.id == k)) [
          | inr differs ↦ differs
          | inl same ↦
              let clash : true ≡ false =
                sym known ∙ ap (λ j. has order_id j orders) (sym ((==_iff _ _).0 same)) ∙ d.0 in
              cc
        ] in
        rw other found

rows_empty :
    (db : Db) (orders : List Order)
    → All (λ o. is_paid o.status ≡ true → is_mismatch (money_row db o) ≡ false) orders
    → filter is_mismatch (map (money_row db) (filter (has_row db) orders)) ≡ []
rows_empty db [] h = refl
rows_empty db (o ∷ orders) h = elim (Bool-cases (has_row db o)) [
  | inr miss ↦ rw miss (rows_empty db orders h.1)
  | inl hit ↦ rw (hit, h.0 (ground (arith, hit))) (rows_empty db orders h.1)
]

-- In a database whose books add up, an order that is paid for is no mismatch, if it has no item open
-- once it came to an end.
no_mismatch :
    (db : Db) (o : Order)
    → OrderBooks db.items db.ledger o
    → is_paid o.status ≡ true
    → (is_end o.status ≡ true → has_open o.id db.items ≡ false)
    → is_mismatch (money_row db o) ≡ false
no_mismatch db o books paid end =
    let kept = rw paid at books.cash_kept in
    let row = money_row db o in
    let whole : (row.paid == row.delivered + row.refunded + row.pending) ≡ true =
      ground (arith, books.priced, owned_split o.id db.items, open_split o.id db.items) in
    let cash_agrees : eq_ℤ row.ledger_cash (pos row.paid -ℤ pos row.refunded) ≡ true =
      ground (arith, kept, -ℤ_parts (pos row.paid) (pos row.refunded)) in
    let revenue_agrees : eq_ℤ row.ledger_revenue (pos row.delivered) ≡ true =
      ground (arith, books.earned, -ℤ_parts (pos 0) (posted o.id revenue db.ledger)) in
    rw (whole, cash_agrees, revenue_agrees)
      (elim (Bool-cases (is_end o.status)) [
        | inr goes_on ↦ rw goes_on refl
        | inl ended ↦ rw (ended, open_sum-closed o.id db.items (end ended)) refl
      ])

no_order : {db : Db} → IsFresh db → IsEnded db
no_order f k o found = let gone : find_by order_id k [] ≡ some o = rw f.orders at found in cc

-- In every database that the services reach before any order or later, in any interleaving of their
-- transactions, the list `moneyMismatches` of the report is empty: for every paid order the price is what is
-- delivered, refunded and open, the cash posted is the price less the refunds, the revenue posted is
-- what is delivered, and an order at its end has nothing open.
pub Reach-money_mismatches : {a b : Db} → Reach a b → IsFresh a → money_mismatches b ≡ []
unfolding money_mismatches
Reach-money_mismatches {a} {b} r f =
    let books = Reach-BooksOf r (Books-fresh f) in
    let ended : IsEnded b = Reach-IsEnded r (Books-fresh f) (no_order f) in
    ap (take limit) (
      rows_empty b b.orders (
        All-found (λ o. is_paid o.status ≡ true → is_mismatch (money_row b o) ≡ false) b.orders
          books.order_keys
          (λ k o found paid.
            let same = find_by-key order_id k b.orders o found in
            let at_id = subst (λ j. find_order j b ≡ some o) (sym same) found in
            no_mismatch b o (books.per_order o.id o at_id) paid (ended o.id o at_id))))
