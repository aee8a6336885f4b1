-- ===== src/Orders/Cases.antt =====
-- `create` is atomic: it fails and writes nothing, or writes one order, a row for each unit and the
-- first event.
use hh_game_market_backend.Base.{
  ℕ, zero, ◌≡◌, ◌⊎◌, refl, inl, inr, Bool, true, false, not, none, List, [], ◌∷◌, ◌++◌, map, ◌==◌,
  ◌∙◌, ap, sym, subst, ltb, any, all, arith, Bool-cases,
}
use hh_game_market_backend.Base.Keyed.{has, Distinct, Distinct-snoc}
use hh_game_market_backend.Base.Int.{int_max}
use hh_game_market_backend.Model.{
  OrderStatus, Product, Order, OrderItem, EventData, OrderEvent, Db, Error, unique_violation,
  order_key, item_key, out_of_range, type_error, bad_request, not_found, Result, ok, err, Action,
  raise_if, gets, pure, transaction, bind_ok, bind_err, transaction_ok, transaction_err, ◌>>=◌,
  ◌>>◌,
}
use hh_game_market_backend.Transition.{insert_event}
use hh_game_market_backend.Transition.Facts.{order_id, item_id}
use hh_game_market_backend.Orders.Units.{AreAsked, rows-AreAsked}
use hh_game_market_backend.Orders.{
  CreateOrderDto, OrderLineDto, lines_of, units_of, unknown_sku, price_sum, item_rows, created_item,
  insert_order, insert_items, insert_all, create_units, create_lines, create,
}
use mathlib.Core.List.{append_assoc, append-nil}

-- All rows go in, at keys of their own, or the statement fails.
abbrev InsertItems : List OrderItem → Db → Result Unit × Db → Type 0
InsertItems rows db r =
    ((r ≡ (ok tt, record db { items = db.items ++ rows })) × Distinct item_id (db.items ++ rows))
    ⊎ ((x : Error) × (db' : Db) × (r ≡ (err x, db')))

insert_items-cases :
    (rows : List OrderItem) (db : Db)
    → Distinct item_id db.items
    → InsertItems rows db (insert_items rows db)
unfolding insert_items
insert_items-cases [] db keys =
    let same = sym (append-nil db.items) in
    inl (ap (λ l. (ok tt, record db { items = l })) same, subst (Distinct item_id) same keys)
insert_items-cases (i ∷ rows) db keys = elim (Bool-cases (has item_id i.id db.items)) [
  | inl clash ↦ inr (unique_violation item_key, db, rw clash)
  | inr new ↦
      let db' = record db { items = db.items ++ i ∷ [] } in
      elim (insert_items-cases rows db' (Distinct-snoc item_id i db.items new keys)) [
        | inl (done, more) ↦
            let same = append_assoc db.items (i ∷ []) rows in
            inl (
              rw new (done ∙ ap (λ l. (ok tt, record db { items = l })) same),
              subst (Distinct item_id) same more,
            )
        | inr (x, d, fails) ↦ inr (x, d, rw new fails)
      ]
]

abbrev pub new_order : (ℕ → ℕ) → ℕ → ℕ → ℕ → Order
new_order draw currency amount now = record {
  id = draw zero;
  amount = amount;
  currency = currency;
  status = OrderStatus.created;
  paid_at = none;
  not_before = none;
  updated_at = now;
}

-- The database after an order of `units` is created.
abbrev pub created_db : (ℕ → ℕ) → ℕ → List Product → Db → Db
created_db draw currency units db =
    let rows = item_rows draw (draw zero) currency 0 units in
    let event : OrderEvent = record {
      order_id = draw zero;
      order_item_id = none;
      payload = EventData.order_created (price_sum units) currency (map created_item rows);
      at = db.now;
    } in
    record db {
      orders = db.orders ++ new_order draw currency (price_sum units) db.now ∷ [];
      items = db.items ++ rows;
      events = db.events ++ event ∷ [];
    }

module _ (draw : ℕ → ℕ) (currency : ℕ) (units : List Product) (db : Db) where
  abbrev InsertAll : Result ℕ × Db → Type 0
  InsertAll r =
      ((r ≡ (ok (draw zero), created_db draw currency units db))
        × (has order_id (draw zero) db.orders ≡ false)
        × Distinct item_id (db.items ++ item_rows draw (draw zero) currency 0 units)
        × (ltb int_max (price_sum units) ≡ false))
      ⊎ ((x : Error) × (db' : Db) × (r ≡ (err x, db')))

  abbrev rows : List OrderItem
  rows = item_rows draw (draw zero) currency 0 units

  abbrev check : Action Unit
  check = raise_if (ltb int_max (price_sum units)) out_of_range

  abbrev put_items : Action Unit
  put_items = insert_items rows

  abbrev put_event : Action Unit
  put_event =
      insert_event (draw zero) none
        (EventData.order_created (price_sum units) currency (map created_item rows))

  abbrev put_order : ℕ → Action Unit
  put_order now = insert_order (new_order draw currency (price_sum units) now)

  abbrev after_order : Action ℕ
  after_order = put_items >> (put_event >> pure (draw zero))

  abbrev after_check : Action ℕ
  after_check = gets (λ d. d.now) >>= λ now. put_order now >> after_order

  insert_all-cases :
      Distinct item_id db.items → InsertAll (insert_all draw currency (price_sum units) units db)
  unfolding insert_all insert_order insert_event
  insert_all-cases keys = elim (Bool-cases (ltb int_max (price_sum units))) [
    | inl large ↦
        let fails : check db ≡ (err out_of_range, db) = rw large in
        inr (out_of_range, db, bind_err check (λ _. after_check) db fails)
    | inr fits ↦
        let passes : check db ≡ (ok tt, db) = rw fits in
        let first = bind_ok check (λ _. after_check) db passes in
        let o = new_order draw currency (price_sum units) db.now in
        elim (Bool-cases (has order_id (draw zero) db.orders)) [
          | inl clash ↦
              let fails : insert_order o db ≡ (err (unique_violation order_key), db) = rw clash in
              inr (
                unique_violation order_key,
                db,
                first ∙ bind_err (insert_order o) (λ _. after_order) db fails,
              )
          | inr fresh ↦
              let db₁ = record db { orders = db.orders ++ o ∷ [] } in
              let goes_in : insert_order o db ≡ (ok tt, db₁) = rw fresh in
              let second = first ∙ bind_ok (insert_order o) (λ _. after_order) db goes_in in
              elim (insert_items-cases rows db₁ keys) [
                | inl (done, more) ↦ inl (
                  second ∙ bind_ok put_items (λ _. put_event >> pure (draw zero)) db₁ done,
                  fresh,
                  more,
                  fits,
                )
                | inr (x, d, fails) ↦ inr (
                  x,
                  d,
                  second ∙ bind_err put_items (λ _. put_event >> pure (draw zero)) db₁ fails,
                )
              ]
        ]
  ]

-- It fails and writes nothing; or the units asked for are in the database, in one currency, at
-- fresh ids, and their sum fits a column.
abbrev pub CreateCases : (ℕ → ℕ) → CreateOrderDto → Db → Result ℕ × Db → Type 0
CreateCases draw dto db r =
    ((x : Error) × (r ≡ (err x, db)))
    ⊎ ((currency : ℕ) × (units : List Product) × AreAsked db.products (lines_of dto) (draw zero)
          currency (price_sum units) (item_rows draw (draw zero) currency 0 units)
        × (r ≡ (ok (draw zero), created_db draw currency units db))
        × (has order_id (draw zero) db.orders ≡ false)
        × Distinct item_id (db.items ++ item_rows draw (draw zero) currency 0 units)
        × (ltb int_max (price_sum units) ≡ false)
        × (all (λ p. p.currency == currency) units ≡ true))

abbrev mixed : Product → List Product → Bool
mixed u us = any (λ p. not (p.currency == u.currency)) us

same_currency :
    (c : ℕ) (us : List Product)
    → any (λ p. not (p.currency == c)) us ≡ false
    → all (λ p. p.currency == c) us ≡ true
same_currency c [] h = refl
same_currency c (u ∷ us) h = ground (arith, same_currency c us)

module _ (draw : ℕ → ℕ) (dto : CreateOrderDto) (db : Db) (keys : Distinct item_id db.items) where
  create_units-cases :
      (units : List Product)
      → units ≡ units_of db.products (lines_of dto)
      → unknown_sku db.products (lines_of dto) ≡ false
      → CreateCases draw dto db (create_units draw units db)
  unfolding create_units
  create_units-cases [] same known = inl (type_error, refl)
  create_units-cases (u ∷ us) same known =
      let check = raise_if (mixed u (u ∷ us)) bad_request in
      let insert = transaction (insert_all draw u.currency (price_sum (u ∷ us)) (u ∷ us)) in
      elim (Bool-cases (mixed u (u ∷ us))) [
        | inl several ↦
            let fails : check db ≡ (err bad_request, db) = rw several in
            inl (bad_request, bind_err check (λ _. insert) db fails)
        | inr one ↦
            let passes : check db ≡ (ok tt, db) = rw one in
            let first = bind_ok check (λ _. insert) db passes in
            let body = insert_all draw u.currency (price_sum (u ∷ us)) (u ∷ us) in
            elim (insert_all-cases draw u.currency (u ∷ us) db keys) [
              | inl (done, fresh, more, fits) ↦ inr (
                u.currency,
                u ∷ us,
                subst
                    (λ l.
                      AreAsked db.products (lines_of dto) (draw zero) u.currency (price_sum l)
                        (item_rows draw (draw zero) u.currency 0 l))
                    (sym same)
                    (rows-AreAsked db.products draw (draw zero) u.currency (lines_of dto) known),
                first ∙ transaction_ok body db done,
                fresh,
                more,
                fits,
                same_currency u.currency (u ∷ us) one,
              )
              | inr (x, d, fails) ↦ inl (x, first ∙ transaction_err body db fails)
            ]
      ]

  create_lines-cases :
      (lines : List OrderLineDto)
      → lines ≡ lines_of dto
      → CreateCases draw dto db (create_lines draw lines db)
  unfolding create_lines
  create_lines-cases [] same = inl (bad_request, refl)
  create_lines-cases (l ∷ ls) same =
      let check = raise_if (unknown_sku db.products (l ∷ ls)) not_found in
      let rest = create_units draw (units_of db.products (l ∷ ls)) in
      elim (Bool-cases (unknown_sku db.products (l ∷ ls))) [
        | inl unknown ↦
            let fails : check db ≡ (err not_found, db) = rw unknown in
            inl (not_found, bind_err check (λ _. rest) db fails)
        | inr known ↦
            let passes : check db ≡ (ok tt, db) = rw known in
            subst (CreateCases draw dto db) (sym (bind_ok check (λ _. rest) db passes)) (
              create_units-cases (units_of db.products (l ∷ ls)) (ap (units_of db.products) same)
                (ap (unknown_sku db.products) (sym same) ∙ known))
      ]

  pub create-cases : CreateCases draw dto db (create draw dto db)
  unfolding create
  create-cases = create_lines-cases (lines_of dto) refl
