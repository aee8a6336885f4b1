-- ===== src/Books/Creation.antt =====
-- A new order with its items: the books still add up.
use hh_game_market_backend.Base.{
  ℕ, suc, ◌+◌, ◌≡◌, refl, true, false, ◌&&◌, some, List, [], ◌∷◌, ◌++◌, ◌==◌, arith, All,
  All-append, ap, sym, subst, ◌∙◌, if◌then◌else◌, inl, inr, Bool-cases, sum_where-append,
}
use hh_game_market_backend.Base.Keyed.{
  has, find_by, find_by-key, find_by-append, has-append, Distinct, Distinct-snoc,
}
use hh_game_market_backend.Model.{
  OrderStatus, ItemStatus, item_status_eq, cash, customer_liability, revenue, Product, Order,
  OrderItem, LedgerEntry,
}
use hh_game_market_backend.Transition.Facts.{order_id, item_id}
use hh_game_market_backend.Orders.{price_sum, item_rows}
use hh_game_market_backend.Books.{owned, in_status, OrderBooks, Books}
use hh_game_market_backend.Books.Sums.{owned-absent, in_status-absent, posted-absent}

module _ (draw : ℕ → ℕ) (owner currency : ℕ) where
  -- The new rows come to the sum of the prices, all of it pending, all of it the new order's.
  pub in_status-item_rows :
      (k : ℕ) (s : ItemStatus) (position : ℕ) (units : List Product)
      → in_status k s (item_rows draw owner currency position units)
        ≡ (if owner == k && item_status_eq ItemStatus.pending s then price_sum units else 0)
  unfolding item_rows
  in_status-item_rows k s position [] = ground arith
  in_status-item_rows k s position (u ∷ units) =
      ground (arith, in_status-item_rows k s (suc position) units)

  pub owned-item_rows :
      (k position : ℕ) (units : List Product)
      → owned k (item_rows draw owner currency position units)
        ≡ (if owner == k then price_sum units else 0)
  unfolding item_rows
  owned-item_rows k position [] = ground arith
  owned-item_rows k position (u ∷ units) = ground (arith, owned-item_rows k (suc position) units)

  pub item_rows-owners :
      (orders : List Order) (position : ℕ) (units : List Product)
      → has order_id owner orders ≡ true
      → All
          (λ (i : OrderItem). has order_id i.order_id orders ≡ true)
          (item_rows draw owner currency position units)
  unfolding item_rows
  item_rows-owners orders position [] h = tt
  item_rows-owners orders position (u ∷ units) h =
      (h, item_rows-owners orders (suc position) units h)

-- Rows whose owners exist do not belong to an order that does not.
pub owner_absent {ℓ} :
    {A : Type ℓ} (owner : A → ℕ) (id : ℕ) (orders : List Order) (rows : List A)
    → has order_id id orders ≡ false
    → All (λ r. has order_id (owner r) orders ≡ true) rows
    → has owner id rows ≡ false
owner_absent owner id orders [] h all = refl
owner_absent owner id orders (r ∷ rows) h all = elim (Bool-cases (owner r == id)) [
  | inl same ↦
      let equal : owner r ≡ id = ground arith in
      let clash : false ≡ true = sym h ∙ ap (λ j. has order_id j orders) (sym equal) ∙ all.0 in cc
  | inr other ↦ rw other (owner_absent owner id orders rows h all.1)
]

owners_grow {ℓ} :
    {A : Type ℓ} (owner : A → ℕ) (o : Order) (orders : List Order) (rows : List A)
    → All (λ r. has order_id (owner r) orders ≡ true) rows
    → All (λ r. has order_id (owner r) (orders ++ o ∷ []) ≡ true) rows
owners_grow owner o orders [] all = tt
owners_grow owner o orders (r ∷ rows) all = (
  has-append order_id (owner r) orders (o ∷ []) ∙ rw all.0 refl,
  owners_grow owner o orders rows all.1,
)

module _ (draw : ℕ → ℕ) (currency : ℕ) (units : List Product) (orders : List Order)
    (items : List OrderItem) (ledger : List LedgerEntry) (o : Order) (b : Books orders items ledger)
    (fresh : has order_id o.id orders ≡ false) where
  abbrev rows : List OrderItem
  rows = item_rows draw o.id currency 0 units

  in_status-more :
      (k : ℕ) (s : ItemStatus)
      → in_status k s (items ++ rows) ≡ in_status k s items + in_status k s rows
  in_status-more k s =
      sum_where-append (λ i. i.order_id == k && item_status_eq i.status s) (λ i. i.amount) items
        rows

  owned-more : (k : ℕ) → owned k (items ++ rows) ≡ owned k items + owned k rows
  owned-more k = sum_where-append (λ i. i.order_id == k) (λ i. i.amount) items rows

  -- The new order.
  OrderBooks-new :
      o.status ≡ OrderStatus.created
      → o.amount ≡ price_sum units
      → OrderBooks (items ++ rows) ledger o
  OrderBooks-new status amount =
      let none_yet =
        owner_absent (λ (i : OrderItem). i.order_id) o.id orders items fresh b.item_owners in
      let none_posted =
        owner_absent (λ (e : LedgerEntry). e.order_id) o.id orders ledger fresh b.ledger_owners in
      let sum = λ (s : ItemStatus).
        in_status-more o.id s
        ∙ ap (λ n. n + in_status o.id s rows) (in_status-absent o.id s items none_yet) in
      let row = λ (s : ItemStatus). in_status-item_rows draw o.id currency o.id s 0 units in
      ground (
        arith,
        status,
        amount,
        owned-more o.id,
        owned-absent o.id items none_yet,
        owned-item_rows draw o.id currency o.id 0 units,
        sum ItemStatus.pending,
        sum ItemStatus.delivered,
        sum ItemStatus.refunding,
        sum ItemStatus.refunded,
        row ItemStatus.pending,
        row ItemStatus.delivered,
        row ItemStatus.refunding,
        row ItemStatus.refunded,
        posted-absent o.id cash ledger none_posted,
        posted-absent o.id customer_liability ledger none_posted,
        posted-absent o.id revenue ledger none_posted,
      )

  -- Any other order.
  OrderBooks-old :
      (p : Order)
      → (o.id == p.id) ≡ false
      → OrderBooks items ledger p
      → OrderBooks (items ++ rows) ledger p
  OrderBooks-old p other old =
      let row = λ (s : ItemStatus). in_status-item_rows draw o.id currency p.id s 0 units in
      ground (
        arith,
        other,
        owned-more p.id,
        owned-item_rows draw o.id currency p.id 0 units,
        in_status-more p.id ItemStatus.pending,
        in_status-more p.id ItemStatus.delivered,
        in_status-more p.id ItemStatus.refunding,
        in_status-more p.id ItemStatus.refunded,
        row ItemStatus.pending,
        row ItemStatus.delivered,
        row ItemStatus.refunding,
        row ItemStatus.refunded,
      )

  other_key : (k : ℕ) (p : Order) → p.id ≡ k → has order_id k orders ≡ true → (o.id == p.id) ≡ false
  other_key k p key there = elim (Bool-cases (o.id == p.id)) [
    | inl same ↦
        let equal : o.id ≡ k = ground (arith, key, same) in
        let clash : false ≡ true = sym fresh ∙ ap (λ j. has order_id j orders) equal ∙ there in cc
    | inr other ↦ other
  ]

  creation_per_order :
      o.status ≡ OrderStatus.created
      → o.amount ≡ price_sum units
      → (k : ℕ) (p : Order) → find_by order_id k (orders ++ o ∷ []) ≡ some p
      → OrderBooks (items ++ rows) ledger p
  creation_per_order status amount k p found = elim (Bool-cases (has order_id k orders)) [
    | inl there ↦
        let old : find_by order_id k orders ≡ some p =
          sym (find_by-append order_id k orders (o ∷ []) ∙ rw there refl) ∙ found in
        let key : p.id ≡ k = find_by-key order_id k orders p old in
        OrderBooks-old p (other_key k p key there) (b.per_order k p old)
    | inr gone ↦
        let new : find_by order_id k (o ∷ []) ≡ some p =
          sym (find_by-append order_id k orders (o ∷ []) ∙ rw gone refl) ∙ found in
        let this : o ≡ p = ground (arith, new) in
        subst (λ q. OrderBooks (items ++ rows) ledger q) this (OrderBooks-new status amount)
  ]

  -- The order, its items and no posting yet.
  pub Books-created :
      o.status ≡ OrderStatus.created
      → o.amount ≡ price_sum units
      → Distinct item_id (items ++ rows)
      → Books (orders ++ o ∷ []) (items ++ rows) ledger
  Books-created status amount keys = record {
    order_keys = Distinct-snoc order_id o orders fresh b.order_keys;
    item_keys = keys;
    item_owners =
        All-append _ items rows
          (owners_grow (λ (i : OrderItem). i.order_id) o orders items b.item_owners)
          (item_rows-owners draw o.id currency (orders ++ o ∷ []) 0 units
            (has-append order_id o.id orders (o ∷ []) ∙ ground arith));
    ledger_owners = owners_grow (λ (e : LedgerEntry). e.order_id) o orders ledger b.ledger_owners;
    per_order = creation_per_order status amount;
  }
