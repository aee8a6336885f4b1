-- ===== src/Orders/Units.antt =====
-- The units and the rows of a new order, counted by the lines that were asked for: `create` of
-- backend/src/orders/orders.service.ts.
use hh_game_market_backend.Base.{
  ℕ, zero, suc, ◌≡◌, refl, true, false, none, some, Option, List, [], ◌∷◌, arith, Bool-cases, inl,
  inr, sym, ◌∙◌, ap, ◌==◌, if◌then◌else◌, or_else, replicate, count, count-append, sum_where, All,
  All-append,
}
use hh_game_market_backend.Base.Keyed.{has, find_by, find_by-key}
use hh_game_market_backend.Model.{ItemStatus, Product, OrderItem}
use hh_game_market_backend.Orders.{
  OrderLineDto, sku_of, units_of, units_of_line, unknown_sku, price_sum, item_rows,
}

-- How many units of a sku the lines ask for: one where a line gives no quantity.
abbrev pub asked : ℕ → List OrderLineDto → ℕ
asked k = sum_where (λ (l : OrderLineDto). l.sku == k) (λ l. or_else l.quantity 1)

-- The catalogue has the product of the row at the price of the row, and the row is a new one of the
-- order.
abbrev pub IsRowOf : List Product → ℕ → ℕ → OrderItem → Type 0
IsRowOf products owner currency i =
    ((p : Product) × (find_by sku_of i.sku products ≡ some p) × (p.price ≡ i.amount))
    × (i.order_id ≡ owner)
    × (i.currency ≡ currency)
    × (i.status ≡ ItemStatus.pending)
    × (i.refund_reason ≡ none)

-- The rows are what the lines ask for, no more and no less, and `amount` is what they come to.
pub record AreAsked (products : List Product) (lines : List OrderLineDto)
    (owner currency amount : ℕ) (rows : List OrderItem) : Type 0 where
  pub numbers : (k : ℕ) → count (λ i. i.sku == k) rows ≡ asked k lines
  pub each : All (IsRowOf products owner currency) rows
  pub total : amount ≡ sum_where (λ _. true) (λ (i : OrderItem). i.amount) rows

none_at {ℓ} :
    {A : Type ℓ} (key : A → ℕ) (k : ℕ) (xs : List A)
    → find_by key k xs ≡ none
    → has key k xs ≡ false
none_at key k [] h = refl
none_at key k (x ∷ xs) h = elim (Bool-cases (key x == k)) [
  | inl here ↦ let clash : some x ≡ none = rw here at h in cc
  | inr there ↦ rw there (none_at key k xs (rw there at h))
]

count-replicate :
    (k n : ℕ) (p : Product)
    → count (λ (u : Product). u.sku == k) (replicate n p) ≡ (if p.sku == k then n else 0)
count-replicate k zero p = ground arith
count-replicate k (suc n) p = ground (arith, count-replicate k n p)

abbrev InCatalogue : List Product → Product → Type 0
InCatalogue products u = find_by sku_of u.sku products ≡ some u

All-replicate :
    (products : List Product) (n : ℕ) (p : Product)
    → InCatalogue products p
    → All (InCatalogue products) (replicate n p)
All-replicate products zero p h = tt
All-replicate products (suc n) p h = (h, All-replicate products n p h)

module _ (products : List Product) where
  line_units :
      (l : OrderLineDto)
      → has sku_of l.sku products ≡ true
      → ((k : ℕ)
          → count (λ (u : Product). u.sku == k) (units_of_line products l)
            ≡ (if l.sku == k then or_else l.quantity 1 else 0))
        × All (InCatalogue products) (units_of_line products l)
  line_units l known = go (find_by sku_of l.sku products) refl
    where
      go :
          (found : Option Product)
          → find_by sku_of l.sku products ≡ found
          → ((k : ℕ)
              → count (λ (u : Product). u.sku == k) (units_of_line products l)
                ≡ (if l.sku == k then or_else l.quantity 1 else 0))
            × All (InCatalogue products) (units_of_line products l)
      go none absent =
          let clash : false ≡ true = sym (none_at sku_of l.sku products absent) ∙ known in cc
      go (some p) found =
          let same : p.sku ≡ l.sku = find_by-key sku_of l.sku products p found in
          let there : InCatalogue products p = ap (λ k. find_by sku_of k products) same ∙ found in
          (
            (λ k. rw (units_of_line, found, sym same) (count-replicate k (or_else l.quantity 1) p)),
            rw (units_of_line, found) (All-replicate products (or_else l.quantity 1) p there),
          )

  all_units :
      (lines : List OrderLineDto)
      → unknown_sku products lines ≡ false
      → ((k : ℕ) → count (λ (u : Product). u.sku == k) (units_of products lines) ≡ asked k lines)
        × All (InCatalogue products) (units_of products lines)
  unfolding units_of
  all_units [] known = ((λ k. refl), tt)
  all_units (l ∷ lines) known =
      let (n, each) = line_units l (ground (arith, known)) in
      let (m, rest) = all_units lines (ground (arith, known)) in
      (
        (λ k.
            count-append (λ (u : Product). u.sku == k) (units_of_line products l)
              (units_of products lines)
            ∙ ground (arith, n k, m k)),
        All-append _ (units_of_line products l) (units_of products lines) each rest,
      )

  module _ (draw : ℕ → ℕ) (owner currency : ℕ) where
    rows_each :
        (position : ℕ) (units : List Product)
        → All (InCatalogue products) units
        → All (IsRowOf products owner currency) (item_rows draw owner currency position units)
    unfolding item_rows
    rows_each position [] h = tt
    rows_each position (u ∷ units) h =
        (((u, h.0, refl), refl, refl, refl, refl), rows_each (suc position) units h.1)

    rows_count :
        (position k : ℕ) (units : List Product)
        → count (λ (i : OrderItem). i.sku == k) (item_rows draw owner currency position units)
          ≡ count (λ (u : Product). u.sku == k) units
    unfolding item_rows
    rows_count position k [] = refl
    rows_count position k (u ∷ units) = ground (arith, rows_count (suc position) k units)

    rows_total :
        (position : ℕ) (units : List Product)
        → price_sum units
          ≡ sum_where
              (λ _. true)
              (λ (i : OrderItem). i.amount)
              (item_rows draw owner currency position units)
    unfolding item_rows
    rows_total position [] = refl
    rows_total position (u ∷ units) = ground (arith, rows_total (suc position) units)

    pub rows-AreAsked :
        (lines : List OrderLineDto)
        → unknown_sku products lines ≡ false
        → let units = units_of products lines in
          AreAsked products lines owner currency
            (price_sum units)
            (item_rows draw owner currency 0 units)
    rows-AreAsked lines known =
        let units = units_of products lines in
        let (n, each) = all_units lines known in
        record {
          numbers = λ k. rows_count 0 k units ∙ n k;
          each = rows_each 0 units each;
          total = rows_total 0 units;
        }
