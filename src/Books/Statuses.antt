-- ===== src/Books/Statuses.antt =====
-- Orders change their status, and a payment comes in: the books still add up.
use hh_game_market_backend.Base.{
  ℕ, ◌≡◌, refl, Bool, true, false, some, List, [], ◌∷◌, ◌++◌, ◌==◌, arith, All, All-append, ap, sym,
  ◌∙◌, if◌then◌else◌, inl, inr, Bool-cases,
}
use hh_game_market_backend.Base.Keyed.{
  update_where, has, find_by, find_by-key, has_of_find, Distinct-update_where, has-update_where,
  find_by-update_where,
}
use hh_game_market_backend.Base.Int.{ℤ, pos, neg, neg_parts}
use hh_game_market_backend.Model.{
  OrderStatus, OrderExtra, LedgerAccount, cash, customer_liability, revenue, payment, is_paid,
  Order, OrderItem, LedgerEntry,
}
use hh_game_market_backend.Transition.{order_in, set_order}
use hh_game_market_backend.Transition.Facts.{order_id}
use hh_game_market_backend.Books.{OrderBooks, Books}
use hh_game_market_backend.Books.Sums.{posted-snoc_parts, owned_split}

-- What holds of every row of a table still holds when it depends on the keys of another alone.
All-has {ℓ} :
    {A : Type ℓ} (owner : A → ℕ) (p : Order → Bool) (f : Order → Order)
    → ((o : Order) → (f o).id ≡ o.id)
    → (orders : List Order) (rows : List A) → All (λ r. has order_id (owner r) orders ≡ true) rows
    → All (λ r. has order_id (owner r) (update_where p f orders) ≡ true) rows
All-has owner p f keeps orders [] h = tt
All-has owner p f keeps orders (r ∷ rows) h = (
  has-update_where order_id p f keeps (owner r) orders ∙ h.0,
  All-has owner p f keeps orders rows h.1,
)

-- An update of the orders that keeps amounts, and who has paid.
module _ (p : Order → Bool) (f : Order → Order) (keeps_id : (o : Order) → (f o).id ≡ o.id)
    (keeps_amount : (o : Order) → (f o).amount ≡ o.amount)
    (keeps_paid : (o : Order) → p o ≡ true → is_paid (f o).status ≡ is_paid o.status)
    (orders : List Order) (items : List OrderItem) (ledger : List LedgerEntry) where
  OrderBooks-kept :
      (o : Order) → OrderBooks items ledger o → OrderBooks items ledger (if p o then f o else o)
  OrderBooks-kept o b = elim (Bool-cases (p o)) [
    | inl hit ↦ rw hit (record {
      priced = rw (keeps_id o, keeps_amount o) b.priced;
      untouched = rw (keeps_id o, keeps_paid o hit) b.untouched;
      cash_kept = rw (keeps_id o, keeps_amount o, keeps_paid o hit) b.cash_kept;
      liability = rw (keeps_id o, keeps_paid o hit) b.liability;
      earned = rw (keeps_id o) b.earned;
    })
    | inr miss ↦ rw miss b
  ]

  pub Books-kept : Books orders items ledger → Books (update_where p f orders) items ledger
  Books-kept b = record {
    order_keys = Distinct-update_where order_id p f keeps_id orders b.order_keys;
    item_keys = b.item_keys;
    item_owners = All-has (λ (i : OrderItem). i.order_id) p f keeps_id orders items b.item_owners;
    ledger_owners =
        All-has (λ (e : LedgerEntry). e.order_id) p f keeps_id orders ledger b.ledger_owners;
    per_order = λ k y found.
        let r = find_by-update_where order_id p f keeps_id k orders y found in
        rw r.2 (OrderBooks-kept r.0 (b.per_order k r.0 r.1));
  }

-- A transition of one order between two statuses of the same side.
pub set_order_keeps :
    (to : OrderStatus) (extra : OrderExtra) (now : ℕ) (o : Order)
    → ((set_order to extra now o).id ≡ o.id) × ((set_order to extra now o).amount ≡ o.amount)
set_order_keeps to OrderExtra.nothing now o = (refl, refl)
set_order_keeps to (OrderExtra.paid_at t) now o = (refl, refl)
set_order_keeps to (OrderExtra.not_before t) now o = (refl, refl)

pub Books-transition :
    (id : ℕ) (from to : OrderStatus) (extra : OrderExtra) (now : ℕ)
    → is_paid to ≡ is_paid from
    → (orders : List Order) (items : List OrderItem) (ledger : List LedgerEntry)
    → Books orders items ledger
    → Books (update_where (order_in id from) (set_order to extra now) orders) items ledger
Books-transition id from to extra now same orders items ledger =
    Books-kept (order_in id from) (set_order to extra now) (λ o. (set_order_keeps to extra now o).0)
      (λ o. (set_order_keeps to extra now o).1) (λ o hit. ground (arith, same)) orders items ledger

-- A posting for an order.
abbrev pub payment_entry : Order → ℕ → LedgerAccount → ℤ → ℕ → LedgerEntry
payment_entry o event_id account amount now = record {
  order_id = o.id;
  account = account;
  amount = amount;
  currency = o.currency;
  reason = payment;
  reference = event_id;
  created_at = now;
}

module _ (paid_time now event_id at : ℕ) (orders : List Order) (items : List OrderItem)
    (ledger : List LedgerEntry) (order : Order) where
  abbrev with_payment : List LedgerEntry
  with_payment =
      (ledger ++ payment_entry order event_id cash (pos order.amount) at ∷ [])
      ++ payment_entry order event_id customer_liability (neg order.amount) at ∷ []

  -- The order that is paid.
  OrderBooks-paid :
      order.status ≡ OrderStatus.created
      → OrderBooks items ledger order
      → OrderBooks items with_payment
          (set_order OrderStatus.paid (OrderExtra.paid_at paid_time) now order)
  OrderBooks-paid same b =
      let e = payment_entry order event_id cash (pos order.amount) at in
      let f = payment_entry order event_id customer_liability (neg order.amount) at in
      ground (
        arith,
        same,
        b.untouched (rw same),
        neg_parts order.amount,
        owned_split order.id items,
        posted-snoc_parts order.id cash ledger e,
        posted-snoc_parts order.id cash (ledger ++ e ∷ []) f,
        posted-snoc_parts order.id customer_liability ledger e,
        posted-snoc_parts order.id customer_liability (ledger ++ e ∷ []) f,
        posted-snoc_parts order.id revenue ledger e,
        posted-snoc_parts order.id revenue (ledger ++ e ∷ []) f,
      )

  -- Any other order.
  OrderBooks-other :
      (o : Order)
      → (order.id == o.id) ≡ false
      → OrderBooks items ledger o
      → OrderBooks items with_payment o
  OrderBooks-other o other b =
      let e = payment_entry order event_id cash (pos order.amount) at in
      let f = payment_entry order event_id customer_liability (neg order.amount) at in
      ground (
        arith,
        posted-snoc_parts o.id cash ledger e,
        posted-snoc_parts o.id cash (ledger ++ e ∷ []) f,
        posted-snoc_parts o.id customer_liability ledger e,
        posted-snoc_parts o.id customer_liability (ledger ++ e ∷ []) f,
        posted-snoc_parts o.id revenue ledger e,
        posted-snoc_parts o.id revenue (ledger ++ e ∷ []) f,
      )

  abbrev paid_orders : List Order
  paid_orders =
      update_where (order_in order.id OrderStatus.created)
        (set_order OrderStatus.paid (OrderExtra.paid_at paid_time) now) orders

  payment_per_order :
      find_by order_id order.id orders ≡ some order
      → order.status ≡ OrderStatus.created
      → ((k : ℕ) (o : Order) → find_by order_id k orders ≡ some o → OrderBooks items ledger o)
      → (k : ℕ) (o : Order) → find_by order_id k paid_orders ≡ some o
      → OrderBooks items with_payment o
  payment_per_order found same per_order k y there =
      let (o, before, after) =
        find_by-update_where order_id (order_in order.id OrderStatus.created)
          (set_order OrderStatus.paid (OrderExtra.paid_at paid_time) now) (λ _. refl) k orders y
          there in
      let key : o.id ≡ k = find_by-key order_id k orders o before in
      elim (Bool-cases (order.id == o.id)) [
        | inl here ↦
            let equal : order.id ≡ o.id = ground arith in
            let one : some order ≡ some o =
              sym found ∙ ap (λ j. find_by order_id j orders) (equal ∙ key) ∙ before in
            let this : order ≡ o = ground (arith, one) in
            let moved : y ≡ set_order OrderStatus.paid (OrderExtra.paid_at paid_time) now order =
              ground (arith, after, this, same) in
            rw moved (OrderBooks-paid same (per_order order.id order found))
        | inr other ↦
            let still : y ≡ o = ground (arith, after, other) in
            rw still (OrderBooks-other o other (per_order k o before))
      ]

  -- A payment with its two postings.
  pub Books-paid :
      find_by order_id order.id orders ≡ some order
      → order.status ≡ OrderStatus.created
      → Books orders items ledger
      → Books paid_orders items with_payment
  Books-paid found same b =
      let there : has order_id order.id paid_orders ≡ true =
        has-update_where order_id (order_in order.id OrderStatus.created)
          (set_order OrderStatus.paid (OrderExtra.paid_at paid_time) now) (λ _. refl) order.id
          orders
        ∙ has_of_find order_id order.id orders order found in
      record {
        order_keys = Distinct-update_where order_id _ _ (λ _. refl) orders b.order_keys;
        item_keys = b.item_keys;
        item_owners =
            All-has (λ (i : OrderItem). i.order_id) _ _ (λ _. refl) orders items b.item_owners;
        ledger_owners =
            let old =
              All-has (λ (e : LedgerEntry). e.order_id) (order_in order.id OrderStatus.created)
                (set_order OrderStatus.paid (OrderExtra.paid_at paid_time) now) (λ _. refl) orders
                ledger b.ledger_owners in
            All-append _ (ledger ++ _ ∷ []) (_ ∷ []) (All-append _ ledger (_ ∷ []) old (there, tt))
              (there, tt);
        per_order = payment_per_order found same b.per_order;
      }
