-- ===== src/Delivery/Pass/Whole.antt =====
-- A whole pass over an order, `deliver` of backend/src/delivery/delivery.service.ts, as a run of the
-- system.
use hh_game_market_backend.Base.{
  ℕ, ◌≡◌, refl, Bool, true, false, ◌||◌, some, Option, List, [], ◌∷◌, ◌==◌, ==_iff, ==_refl, leb,
  arith, Bool-cases, inl, inr, sym, ◌∙◌, ap, none, count, filter, any, All,
}
use hh_game_market_backend.Base.Keyed.{has, has_of_find, find_by, Distinct}
use hh_game_market_backend.Model.{
  OrderStatus, is_paid, is_open, is_end, Order, OrderItem, EventData, Db,
}
use hh_game_market_backend.Transition.{order_in, update_order}
use hh_game_market_backend.Transition.Facts.{order_id, item_id, find_order}
use hh_game_market_backend.Orders.View.{insert_by_position, sort_by_position, items_of}
use hh_game_market_backend.Delivery.Run.{Env, Config, ◌>>=◌}
use hh_game_market_backend.Delivery.Moves.{note_order, move_order}
use hh_game_market_backend.Delivery.Pass.{
  ItemResult, settled_result, latest, Verdict, park, final, verdict, by_status, deliver_items,
  finish, deliver, status_for, extra_for, carry_out,
}
use hh_game_market_backend.Delivery.Pass.Conclusion.{
  some_open, Settles, VerdictCases, verdict-cases,
}
use hh_game_market_backend.Delivery.Pass.Steps.{PaidIn, by_status-Keeps}
use hh_game_market_backend.Books.{BooksOf}
use hh_game_market_backend.System.{
  IsVerdict, Late, concluded, concludes_row, notes, Reach, here, has_open,
}
use hh_game_market_backend.System.Books.{Reach-BooksOf}
use hh_game_market_backend.System.Stable.{Reach-LaterOrder, Reach-IsPaidItem, paid_life}
use hh_game_market_backend.System.Settled.{IsSettled, Reach-IsSettled}
use hh_game_market_backend.System.Runs.{Live, Keeps, Keeps-pure, Keeps-bind, Reach-trans, one_step}

-- The order is there and paid for.
pub record IsPaidOrder (id : ℕ) (db : Db) : Type 0 where
  pub order : Order
  pub found : find_order id db ≡ some order
  pub paid : is_paid order.status ≡ true

Reach-IsPaidOrder :
    (id : ℕ) (a b : Db) → Reach a b → BooksOf a → IsPaidOrder id a → IsPaidOrder id b
Reach-IsPaidOrder id a b r books p =
    let (o, found, later) = Reach-LaterOrder id p.order r books p.found in
    record { order = o; found = found; paid = paid_life later.life p.paid }

-- Insertion in place keeps what holds of all rows, and of any.
All-insert :
    (P : OrderItem → Type 0) (i : OrderItem) (items : List OrderItem)
    → P i
    → All P items
    → All P (insert_by_position i items)
unfolding insert_by_position
All-insert P i [] h all = (h, tt)
All-insert P i (j ∷ items) h all = elim (Bool-cases (leb i.position j.position)) [
  | inl before ↦ rw before (h, all)
  | inr after ↦ rw after (all.0, All-insert P i items h all.1)
]

All-sort :
    (P : OrderItem → Type 0) (items : List OrderItem) → All P items → All P (sort_by_position items)
unfolding sort_by_position
All-sort P [] all = tt
All-sort P (i ∷ items) all = All-insert P i (sort_by_position items) all.0 (All-sort P items all.1)

any-insert :
    (p : OrderItem → Bool) (i : OrderItem) (items : List OrderItem)
    → any p (insert_by_position i items) ≡ (p i || any p items)
unfolding insert_by_position
any-insert p i [] = refl
any-insert p i (j ∷ items) = elim (Bool-cases (leb i.position j.position)) [
  | inl before ↦ rw before refl
  | inr after ↦ rw after (ground (arith, any-insert p i items))
]

any-sort :
    (p : OrderItem → Bool) (items : List OrderItem) → any p (sort_by_position items) ≡ any p items
unfolding sort_by_position
any-sort p [] = refl
any-sort p (i ∷ items) =
    any-insert p i (sort_by_position items) ∙ ap (λ b. p i || b) (any-sort p items)

some_open-filter :
    (id : ℕ) (items : List OrderItem)
    → some_open (filter (λ i. i.order_id == id) items) ≡ has_open id items
some_open-filter id [] = refl
some_open-filter id (i ∷ items) = ground (arith, some_open-filter id items)

some_open-items : (id : ℕ) (db : Db) → some_open (items_of id db) ≡ has_open id db.items
unfolding items_of
some_open-items id db =
    any-sort (λ i. is_open i.status) (filter (λ i. i.order_id == id) db.items)
    ∙ some_open-filter id db.items

-- Rows with distinct ids are each found under their id.
All-found :
    (pre items : List OrderItem) (all : List OrderItem)
    → Distinct item_id items
    → ((i : OrderItem) → find_by item_id i.id items ≡ some i → find_by item_id i.id all ≡ some i)
    → All (λ (i : OrderItem). find_by item_id i.id all ≡ some i) items
All-found pre [] all d up = tt
All-found pre (i ∷ items) all d up =
    (up i (rw (==_refl i.id) refl), All-found pre items all d.1 (λ j h. up j (later j h)))
  where
    later :
        (j : OrderItem)
        → find_by item_id j.id items ≡ some j
        → find_by item_id j.id (i ∷ items) ≡ some j
    later j h =
        let there = has_of_find item_id j.id items j h in
        elim (Bool-cases (i.id == j.id)) [
          | inr other ↦ rw other h
          | inl same ↦
              let clash : false ≡ true =
                sym d.0 ∙ ap (λ k. has item_id k items) ((==_iff i.id j.id).0 same) ∙ there in
              cc
        ]

module _ (id : ℕ) (db : Db) (books : BooksOf db) (p : IsPaidOrder id db) where
  paid_row :
      (i : OrderItem)
      → find_by item_id i.id db.items ≡ some i
      → (i.order_id == id) ≡ true
      → PaidIn i db
  paid_row i found own = record {
    row = i;
    found = found;
    owner = refl;
    price = refl;
    order = p.order;
    order_found = ap (λ k. find_order k db) ((==_iff i.order_id id).0 own) ∙ p.found;
    paid = p.paid;
  }

  paid_rows :
      (items : List OrderItem)
      → All (λ (i : OrderItem). find_by item_id i.id db.items ≡ some i) items
      → All (λ i. PaidIn i db) (filter (λ i. i.order_id == id) items)
  paid_rows [] all = tt
  paid_rows (i ∷ items) all = elim (Bool-cases (i.order_id == id)) [
    | inl own ↦ rw own (paid_row i all.0 own, paid_rows items all.1)
    | inr other ↦ rw other (paid_rows items all.1)
  ]

  -- The items that a pass reads are items of a paid order.
  paid_items : All (λ i. PaidIn i db) (items_of id db)
  unfolding items_of
  paid_items =
      All-sort (λ i. PaidIn i db) (filter (λ i. i.order_id == id) db.items)
        (paid_rows db.items (All-found [] db.items db.items books.item_keys (λ i h. h)))

abbrev AllPaid : List OrderItem → Db → Type 0
AllPaid items d = All (λ i. PaidIn i d) items

Reach-AllPaid :
    (items : List OrderItem) (a b : Db) → Reach a b → BooksOf a → AllPaid items a → AllPaid items b
Reach-AllPaid [] a b r books all = tt
Reach-AllPaid (i ∷ items) a b r books all =
    (Reach-IsPaidItem i r books all.0, Reach-AllPaid items a b r books all.1)

module _ (env : Env) (config : Config) (live : Live env) (order : Order) where
  open env use {World}

  deliver_items-Keeps :
      (items : List OrderItem) (acc : ItemResult)
      → Keeps env (AllPaid items) (deliver_items env config items order acc)
  unfolding deliver_items
  deliver_items-Keeps [] acc = Keeps-pure env (AllPaid []) acc
  deliver_items-Keeps (item ∷ items) acc =
      let fold : ItemResult → ItemResult = λ result. record {
        deferred_until = latest result.deferred_until acc.deferred_until;
        unresolved = acc.unresolved || result.unresolved;
      } in
      Keeps-bind env (AllPaid (item ∷ items)) live (Reach-AllPaid (item ∷ items))
        (by_status env config item.status order item)
        (λ result. deliver_items env config items order (fold result))
        (by_status-Keeps env config live order (AllPaid (item ∷ items))
          (Reach-AllPaid (item ∷ items)) item (λ d all. all.0) item.status)
        (λ result w d books all. deliver_items-Keeps items (fold result) w d books all.1)

Settles-is_end : (items : List OrderItem) (s : OrderStatus) → Settles items s → is_end s ≡ true
Settles-is_end items OrderStatus.delivered h = refl
Settles-is_end items OrderStatus.refunded h = refl
Settles-is_end items OrderStatus.partially_delivered h = refl
Settles-is_end items OrderStatus.created h = absurd h
Settles-is_end items OrderStatus.paid h = absurd h
Settles-is_end items OrderStatus.delivering h = absurd h
Settles-is_end items OrderStatus.payment_failed h = absurd h
Settles-is_end items OrderStatus.delivery_failed h = absurd h

-- A verdict on the items read earlier is still one when it is carried out.
verdict_holds :
    (id : ℕ) (a b : Db) (deferred : Option ℕ) (unresolved : Bool) (v : Verdict)
    → Reach a b
    → BooksOf a
    → IsPaidOrder id a
    → VerdictCases (items_of id a) deferred unresolved v
    → IsVerdict b id v
verdict_holds id a b deferred unresolved (Verdict.requeue t) r books p cases = tt
verdict_holds id a b deferred unresolved park r books p cases = tt
verdict_holds id a b deferred unresolved (final s) r books p (closed, settles) =
    let settled : IsSettled id a = record {
      exists = has_of_find order_id id a.orders p.order p.found;
      closed = sym (some_open-items id a) ∙ closed;
    } in
    (Settles-is_end (items_of id a) s settles, (Reach-IsSettled id r books settled).closed)

module _ (env : Env) (config : Config) (live : Live env) (order : Order) where
  open env use {World, others}

  note_order-Reach :
      (id : ℕ) {payload : EventData}
      → Late payload
      → (moved : Bool) (w : World) (d : Db) → BooksOf d
      → Reach d (note_order env id payload moved w d).2
  unfolding note_order
  note_order-Reach id late true w d books =
      Reach-trans (live w d books) (one_step (notes id none late (others w d).1))
  note_order-Reach id late false w d books = here

  finish-Keeps :
      (result : ItemResult) → Keeps env (IsPaidOrder order.id) (finish env config order result)
  unfolding finish carry_out move_order update_order
  finish-Keeps result w d books p =
      let d₁ = (others w d).1 in
      let w₁ = (others w d).0 in
      let r₁ = live w d books in
      let books₁ = Reach-BooksOf r₁ books in
      let p₁ = Reach-IsPaidOrder order.id d d₁ r₁ books p in
      let r₂ = live w₁ d₁ books₁ in
      let d₂ = (others w₁ d₁).1 in
      let v = verdict (items_of order.id d₁) result.deferred_until result.unresolved in
      let holds =
        verdict_holds order.id d₁ d₂ result.deferred_until result.unresolved v r₂ books₁ p₁
          (verdict-cases (items_of order.id d₁) result.deferred_until result.unresolved) in
      let affected = count (order_in order.id OrderStatus.delivering) d₂.orders in
      let row = update_order order.id OrderStatus.delivering (status_for v) (extra_for v) in
      let d₃ = (row d₂).1 in
      let r₃ : Reach d₂ d₃ = one_step (concludes_row order.id v d₂ holds) in
      Reach-trans r₁ (
        Reach-trans r₂ (
          Reach-trans r₃ (
            note_order-Reach order.id (concluded v) (affected == 1) (others w₁ d₁).0 d₃
              (Reach-BooksOf r₃ (Reach-BooksOf r₂ books₁)))))

  deliver_items_then :
      (items : List OrderItem) (w : World) (d : Db)
      → BooksOf d
      → IsPaidOrder order.id d
      → AllPaid items d
      → Reach d
          ((deliver_items env config items order settled_result >>= finish env config order) w d).2
  deliver_items_then items w d books p all =
      Keeps-bind env (λ d. AllPaid items d × IsPaidOrder order.id d) live
        (λ a b r books h.
          (Reach-AllPaid items a b r books h.0, Reach-IsPaidOrder order.id a b r books h.1))
        (deliver_items env config items order settled_result) (finish env config order)
        (λ w d books h.
          deliver_items-Keeps env config live order items settled_result w d books h.0)
        (λ result w d books h. finish-Keeps result w d books h.1) w d books (all, p)

  -- A pass over a paid order, started where the books add up, is a run of the system, however it ends:
  -- whatever suppliers and the payment provider answer, and whatever steps of the system other
  -- instances take before each of its transactions.
  pub deliver-Reach :
      (w : World) (d : Db)
      → BooksOf d
      → IsPaidOrder order.id d
      → Reach d (deliver env config order w d).2
  unfolding deliver
  deliver-Reach w d books p =
      let d₁ = (others w d).1 in
      let r₁ = live w d books in
      let books₁ = Reach-BooksOf r₁ books in
      let p₁ = Reach-IsPaidOrder order.id d d₁ r₁ books p in
      Reach-trans r₁ (
        deliver_items_then (items_of order.id d₁) (others w d).0 d₁ books₁ p₁
          (paid_items order.id d₁ books₁ p₁))
