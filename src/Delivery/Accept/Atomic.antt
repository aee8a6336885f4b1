-- ===== src/Delivery/Accept/Atomic.antt =====
-- `complete` is atomic: it fails and leaves the database as it was, or writes everything that makes
-- the delivery final.
use hh_game_market_backend.Base.{
  ℕ, ◌-◌, ◌≡◌, ◌⊎◌, inl, inr, Bool, true, none, some, Option, List, [], ◌∷◌, ◌++◌, ◌∙◌, ◌==◌, ◌&&◌,
  ltb, ==_iff, Bool-cases, arith, refl, sym, ap,
}
use hh_game_market_backend.Base.Keyed.{find_by, Distinct, update_where}
use hh_game_market_backend.Base.Int.{pos, neg}
use hh_game_market_backend.Model.{
  err≢ok, ItemStatus, customer_liability, revenue, delivery, RequestId, ProductStock, OrderItem,
  ItemExtra, ItemDetail, Delivery, Db, Error, ok, err, bind_ok, bind_err, transaction_ok,
  transaction_err, no_longer, holds_other_code, Action, gets, ◌>>=◌, ◌>>◌,
}
use hh_game_market_backend.Transition.{transition_item}
use hh_game_market_backend.Transition.Facts.{item_id, find_item, item_moved_in}
use hh_game_market_backend.Transition.Cases.{transition_item-cases}
use hh_game_market_backend.Ledger.{record_delivery}
use hh_game_market_backend.Catalog.{stock_key, decrement_stock}
use hh_game_market_backend.Delivery.Accept.{
  delivery_key, delivery_of, place_delivery, insert_delivery, completion, complete,
}
use hh_game_market_backend.Books.Moves.{entry_of}
use hh_game_market_backend.Books.Effects.{
  insert_delivery-cases, place_delivery-cases, record_delivery-cases,
}

-- The database after a completed delivery; `rows` and `stock` are the tables that result.
abbrev pub completed :
    OrderItem → ℕ → RequestId → ℕ → ℕ → List Delivery → List ProductStock → Db → Db
completed item supplier request code owner rows stock db =
    let moved =
      item_moved_in item.id ItemStatus.pending ItemStatus.delivered ItemExtra.nothing
        (ItemDetail.issued code supplier request item.amount) owner
        (record db { deliveries = rows }) in
    record moved {
      ledger =
          (db.ledger ++ entry_of item delivery customer_liability (pos item.amount) db.now ∷ [])
          ++ entry_of item delivery revenue (neg item.amount) db.now ∷ [];
      stock = stock;
    }

-- The item has a row with the code already, or gets one.
abbrev pub Delivers : OrderItem → ℕ → RequestId → ℕ → (before rows : List Delivery) → Type 0
Delivers item supplier request code before rows =
    ((e : Delivery) × (find_by delivery_key item.id before ≡ some e)
      × (e.code ≡ code)
      × (rows ≡ before))
    ⊎ ((find_by delivery_key item.id before ≡ none)
        × (rows
            ≡ before
              ++ record {
                order_id = item.order_id;
                order_item_id = item.id;
                request_id = request;
                supplier = supplier;
                code = code;
              }
                ∷ []))

-- What the shop has of a sku, if it keeps count of it.
abbrev pub in_stock : ℕ → List ProductStock → Option ℕ
in_stock k stock = elim (find_by stock_key k stock) [ none ↦ none | some s ↦ some s.available ]

abbrev pub sold : Bool → Option ℕ → Option ℕ
sold true (some n) = some (n - 1)
sold _ n = n

-- One unit of the sku goes, where there is one, and nothing else.
abbrev pub Sells : ℕ → (before stock : List ProductStock) → Type 0
Sells sku before stock = (k : ℕ) → in_stock k stock ≡ sold (k == sku) (in_stock k before)

delivers :
    (item : OrderItem) (supplier : ℕ) (request : RequestId) (code : ℕ) (db : Db)
    (rows : List Delivery)
    → place_delivery
        (find_by delivery_key item.id db.deliveries)
        (delivery_of item supplier request code)
        db
      ≡ (ok tt, record db { deliveries = rows })
    → Delivers item supplier request code db.deliveries rows
unfolding place_delivery insert_delivery
delivers item supplier request code db rows = go (find_by delivery_key item.id db.deliveries) refl
  where
    d : Delivery
    d = delivery_of item supplier request code

    go :
        (existing : Option Delivery)
        → find_by delivery_key item.id db.deliveries ≡ existing
        → place_delivery existing d db ≡ (ok tt, record db { deliveries = rows })
        → Delivers item supplier request code db.deliveries rows
    go (some e) found placed = elim (Bool-cases (e.code == code)) [
      | inl same ↦
          let kept : (ok tt, db) ≡ (ok tt, record db { deliveries = rows }) = rw same at placed in
          inl (e, found, (==_iff e.code code).0 same, sym (ap (λ r. r.1.deliveries) kept))
      | inr other ↦
          let clash : (err holds_other_code, db) ≡ (ok tt, record db { deliveries = rows }) =
            rw other at placed in
          absurd (err≢ok (ap (λ r. r.0) clash))
    ]
    go none found placed = elim (insert_delivery-cases d db) [
      | inl done ↦ inr (found, sym (ap (λ r. r.1.deliveries) (sym done ∙ placed)))
      | inr (x, fails) ↦ absurd (err≢ok (ap (λ r. r.0) (sym fails ∙ placed)))
    ]

sells :
    (sku : ℕ) (stock : List ProductStock)
    → Sells sku stock (
        update_where
          (λ s. stock_key s == sku && ltb 0 s.available)
          (λ s. record s { available = s.available - 1 })
          stock)
sells sku [] k = ground arith
sells sku (s ∷ stock) k = ground (arith, sells sku stock k)

module _ (item : OrderItem) (supplier : ℕ) (request : RequestId) (code : ℕ) (db : Db)
    (keys : Distinct item_id db.items) where
  -- It is refused whole, or the item was pending and everything is written.
  abbrev pub CompleteCases : Type 0
  CompleteCases =
      ((x : Error) × (complete item supplier request code db ≡ (err x, db)))
      ⊎ ((row : OrderItem) × (rows : List Delivery) × (stock : List ProductStock) × (find_item
              item.id db
            ≡ some row)
          × (row.status ≡ ItemStatus.pending)
          × Delivers item supplier request code db.deliveries rows
          × Sells item.sku db.stock stock
          × (complete item supplier request code db
              ≡ (ok tt, completed item supplier request code row.order_id rows stock db)))

  abbrev existing : Option Delivery
  existing = find_by delivery_key item.id db.deliveries

  abbrev place : Action Unit
  place = place_delivery existing (delivery_of item supplier request code)

  abbrev move : Action Unit
  move =
      transition_item item.id ItemStatus.pending ItemStatus.delivered ItemExtra.nothing
        (ItemDetail.issued code supplier request item.amount)

  abbrev book : Action Unit
  book = record_delivery item

  abbrev sell : Action Unit
  sell = decrement_stock item.sku

  abbrev body : Action Unit
  body =
      gets (λ d. find_by delivery_key item.id d.deliveries)
      >>= completion item supplier request code

  -- The postings and the stock, once the item has moved.
  after_move :
      (rows : List Delivery)
      → place db ≡ (ok tt, record db { deliveries = rows })
      → (row : OrderItem) → find_item item.id db ≡ some row
      → row.status ≡ ItemStatus.pending
      → move (record db { deliveries = rows }) ≡ (
        ok tt,
        item_moved_in item.id ItemStatus.pending ItemStatus.delivered ItemExtra.nothing
            (ItemDetail.issued code supplier request item.amount)
            row.order_id
            (record db { deliveries = rows }),
      )
      → CompleteCases
  unfolding complete decrement_stock
  after_move rows placed row found pending moved =
      let db₁ = record db { deliveries = rows } in
      let db₂ =
        item_moved_in item.id ItemStatus.pending ItemStatus.delivered ItemExtra.nothing
          (ItemDetail.issued code supplier request item.amount) row.order_id db₁ in
      let before =
        bind_ok place (λ _. move >> (book >> sell)) db placed
        ∙ bind_ok move (λ _. book >> sell) db₁ moved in
      elim (record_delivery-cases item db₂) [
        | inr (x, _, fails) ↦
            inl (x, transaction_err body db (before ∙ bind_err book (λ _. sell) db₂ fails))
        | inl posted ↦ inr (
          row,
          rows,
          (sell db₂).1.stock,
          found,
          pending,
          delivers item supplier request code db rows placed,
          sells item.sku db.stock,
          transaction_ok body db (before ∙ bind_ok book (λ _. sell) db₂ posted),
        )
      ]

  -- Where item ids are unique, completing a delivery either fails and leaves the database as it was, or
  -- finds the item pending and writes all of it: a delivery row with the item, its order, the supplier,
  -- the request and the code, or there was one of the item with that code; the move to delivered with
  -- its event; the two postings; and the stock of its sku is one less, if it was not 0, and no other.
  pub complete-cases : CompleteCases
  unfolding complete
  complete-cases =
      elim (place_delivery-cases existing (delivery_of item supplier request code) db) [
        | inr (x, fails) ↦
            inl (x, transaction_err body db (bind_err place (λ _. move >> (book >> sell)) db fails))
        | inl (rows, placed) ↦
            let db₁ = record db { deliveries = rows } in
            elim (transition_item-cases item.id ItemStatus.pending ItemStatus.delivered
              ItemExtra.nothing (ItemDetail.issued code supplier request item.amount) db₁ keys) [
                | inl (row, found, pending, moved) ↦ after_move rows placed row found pending moved
                | inr stale ↦ inl (
                  no_longer,
                  transaction_err body db (
                      bind_ok place (λ _. move >> (book >> sell)) db placed
                      ∙ bind_err move (λ _. book >> sell) db₁ stale),
                )
              ]
      ]
