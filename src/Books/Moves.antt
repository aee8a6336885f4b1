-- ===== src/Books/Moves.antt =====
-- One item changes its status, with the postings that go with it: the books still add up.
use hh_game_market_backend.Base.{
  ℕ, ◌≡◌, true, some, List, [], ◌∷◌, ◌++◌, arith, All, All-append, ap, sym, ◌∙◌,
}
use hh_game_market_backend.Base.Keyed.{
  update_where, has, find_by, find_by-key, has_of_find, Distinct, Distinct-update_where,
  All-update_where,
}
use hh_game_market_backend.Base.Int.{ℤ, pos, neg, neg_parts}
use hh_game_market_backend.Model.{
  ItemStatus, ItemExtra, LedgerAccount, LedgerReason, cash, customer_liability, revenue, delivery,
  refund, is_paid, Order, OrderItem, LedgerEntry,
}
use hh_game_market_backend.Transition.{item_in, set_item}
use hh_game_market_backend.Transition.Facts.{order_id, item_id}
use hh_game_market_backend.Books.{OrderBooks, Books}
use hh_game_market_backend.Books.Sums.{
  set_item_keeps, in_status-move, owned-move, posted-snoc_parts,
}

-- A posting for an item.
abbrev pub entry_of : OrderItem → LedgerReason → LedgerAccount → ℤ → ℕ → LedgerEntry
entry_of item reason account amount now = record {
  order_id = item.order_id;
  account = account;
  amount = amount;
  currency = item.currency;
  reason = reason;
  reference = item.id;
  created_at = now;
}

module _ (x : ℕ) (extra : ItemExtra) (orders : List Order) (items : List OrderItem)
    (ledger : List LedgerEntry) (i item : OrderItem) (now : ℕ)
    (found : find_by item_id x items ≡ some i) (owner : item.order_id ≡ i.order_id)
    (price : item.amount ≡ i.amount) (o : Order)
    (paid : i.order_id ≡ o.id → is_paid o.status ≡ true) (keys : Distinct item_id items) where
  abbrev moved : ItemStatus → ItemStatus → List OrderItem
  moved from to = update_where (item_in x from) (set_item to extra) items

  OrderBooks-refunding :
      i.status ≡ ItemStatus.pending
      → OrderBooks items ledger o
      → OrderBooks (moved ItemStatus.pending ItemStatus.refunding) ledger o
  OrderBooks-refunding same b =
      let step =
        in_status-move x ItemStatus.pending ItemStatus.refunding extra items i keys found same
          o.id in
      let own =
        owned-move x ItemStatus.pending ItemStatus.refunding extra items i keys found same o.id in
      ground (
        arith,
        own,
        step ItemStatus.pending,
        step ItemStatus.delivered,
        step ItemStatus.refunding,
        step ItemStatus.refunded,
      )

  OrderBooks-delivered :
      i.status ≡ ItemStatus.pending
      → OrderBooks items ledger o
      → OrderBooks
          (moved ItemStatus.pending ItemStatus.delivered)
          ((ledger ++ entry_of item delivery customer_liability (pos item.amount) now ∷ [])
            ++ entry_of item delivery revenue (neg item.amount) now ∷ [])
          o
  OrderBooks-delivered same b =
      let step =
        in_status-move x ItemStatus.pending ItemStatus.delivered extra items i keys found same
          o.id in
      let own =
        owned-move x ItemStatus.pending ItemStatus.delivered extra items i keys found same o.id in
      let e = entry_of item delivery customer_liability (pos item.amount) now in
      let f = entry_of item delivery revenue (neg item.amount) now in
      ground (
        arith,
        own,
        step ItemStatus.pending,
        step ItemStatus.delivered,
        step ItemStatus.refunding,
        step ItemStatus.refunded,
        neg_parts item.amount,
        posted-snoc_parts o.id cash ledger e,
        posted-snoc_parts o.id cash (ledger ++ e ∷ []) f,
        posted-snoc_parts o.id customer_liability ledger e,
        posted-snoc_parts o.id customer_liability (ledger ++ e ∷ []) f,
        posted-snoc_parts o.id revenue ledger e,
        posted-snoc_parts o.id revenue (ledger ++ e ∷ []) f,
      )

  OrderBooks-refunded :
      i.status ≡ ItemStatus.refunding
      → OrderBooks items ledger o
      → OrderBooks
          (moved ItemStatus.refunding ItemStatus.refunded)
          ((ledger ++ entry_of item refund customer_liability (pos item.amount) now ∷ [])
            ++ entry_of item refund cash (neg item.amount) now ∷ [])
          o
  OrderBooks-refunded same b =
      let step =
        in_status-move x ItemStatus.refunding ItemStatus.refunded extra items i keys found same
          o.id in
      let own =
        owned-move x ItemStatus.refunding ItemStatus.refunded extra items i keys found same o.id in
      let e = entry_of item refund customer_liability (pos item.amount) now in
      let f = entry_of item refund cash (neg item.amount) now in
      ground (
        arith,
        own,
        step ItemStatus.pending,
        step ItemStatus.delivered,
        step ItemStatus.refunding,
        step ItemStatus.refunded,
        neg_parts item.amount,
        posted-snoc_parts o.id cash ledger e,
        posted-snoc_parts o.id cash (ledger ++ e ∷ []) f,
        posted-snoc_parts o.id customer_liability ledger e,
        posted-snoc_parts o.id customer_liability (ledger ++ e ∷ []) f,
        posted-snoc_parts o.id revenue ledger e,
        posted-snoc_parts o.id revenue (ledger ++ e ∷ []) f,
      )

-- The item, as the pass read it, belongs to a paid order.
pub record IsPaidItem (orders : List Order) (items : List OrderItem) (item : OrderItem)
    : Type 0 where
  pub row : OrderItem
  pub found : find_by item_id item.id items ≡ some row
  pub owner : item.order_id ≡ row.order_id
  pub price : item.amount ≡ row.amount
  pub order : Order
  pub order_found : find_by order_id row.order_id orders ≡ some order
  pub paid : is_paid order.status ≡ true

module _ (extra : ItemExtra) (orders : List Order) (items : List OrderItem)
    (ledger : List LedgerEntry) (item : OrderItem) (now : ℕ) (p : IsPaidItem orders items item)
    (b : Books orders items ledger) where
  paid_owner :
      (k : ℕ) (o : Order)
      → find_by order_id k orders ≡ some o
      → p.row.order_id ≡ o.id
      → is_paid o.status ≡ true
  paid_owner k o found same =
      let key : o.id ≡ k = find_by-key order_id k orders o found in
      let again : some p.order ≡ some o =
        sym p.order_found ∙ ap (λ j. find_by order_id j orders) (same ∙ key) ∙ found in
      ground (arith, again, p.paid)

  owners_kept :
      (from to : ItemStatus)
      → All
          (λ (i : OrderItem). has order_id i.order_id orders ≡ true)
          (update_where (item_in item.id from) (set_item to extra) items)
  owners_kept from to =
      All-update_where _ _ (item_in item.id from) (set_item to extra) items
        (λ i _ h. rw (set_item_keeps to extra i).1 h) (λ i _ h. h) b.item_owners

  keys_kept :
      (from to : ItemStatus)
      → Distinct item_id (update_where (item_in item.id from) (set_item to extra) items)
  keys_kept from to =
      Distinct-update_where item_id (item_in item.id from) (set_item to extra)
        (λ i. (set_item_keeps to extra i).0) items b.item_keys

  owner_exists : has order_id item.order_id orders ≡ true
  owner_exists = rw p.owner (has_of_find order_id p.row.order_id orders p.order p.order_found)

  -- The decision to refund an item moves no money.
  pub Books-refunding :
      p.row.status ≡ ItemStatus.pending
      → Books orders
          (update_where
            (item_in item.id ItemStatus.pending)
            (set_item ItemStatus.refunding extra)
            items)
          ledger
  Books-refunding same = record {
    order_keys = b.order_keys;
    item_keys = keys_kept _ _;
    item_owners = owners_kept _ _;
    ledger_owners = b.ledger_owners;
    per_order = λ k o f.
        OrderBooks-refunding item.id extra orders items ledger p.row item now p.found p.owner
          p.price o (paid_owner k o f) b.item_keys same (b.per_order k o f);
  }

  -- A delivery with its two postings.
  pub Books-delivered :
      p.row.status ≡ ItemStatus.pending
      → Books orders
          (update_where
            (item_in item.id ItemStatus.pending)
            (set_item ItemStatus.delivered extra)
            items)
          ((ledger ++ entry_of item delivery customer_liability (pos item.amount) now ∷ [])
            ++ entry_of item delivery revenue (neg item.amount) now ∷ [])
  Books-delivered same = record {
    order_keys = b.order_keys;
    item_keys = keys_kept _ _;
    item_owners = owners_kept _ _;
    ledger_owners =
        All-append _ (ledger ++ _ ∷ []) (_ ∷ [])
          (All-append _ ledger (_ ∷ []) b.ledger_owners (owner_exists, tt)) (owner_exists, tt);
    per_order = λ k o f.
        OrderBooks-delivered item.id extra orders items ledger p.row item now p.found p.owner
          p.price o (paid_owner k o f) b.item_keys same (b.per_order k o f);
  }

  -- A refund with its two postings.
  pub Books-refunded :
      p.row.status ≡ ItemStatus.refunding
      → Books orders
          (update_where
            (item_in item.id ItemStatus.refunding)
            (set_item ItemStatus.refunded extra)
            items)
          ((ledger ++ entry_of item refund customer_liability (pos item.amount) now ∷ [])
            ++ entry_of item refund cash (neg item.amount) now ∷ [])
  Books-refunded same = record {
    order_keys = b.order_keys;
    item_keys = keys_kept _ _;
    item_owners = owners_kept _ _;
    ledger_owners =
        All-append _ (ledger ++ _ ∷ []) (_ ∷ [])
          (All-append _ ledger (_ ∷ []) b.ledger_owners (owner_exists, tt)) (owner_exists, tt);
    per_order = λ k o f.
        OrderBooks-refunded item.id extra orders items ledger p.row item now p.found p.owner p.price
          o (paid_owner k o f) b.item_keys same (b.per_order k o f);
  }
