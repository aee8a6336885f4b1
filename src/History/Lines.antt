-- ===== src/History/Lines.antt =====
-- What the history says of an order, next to what the tables say: an item's line on either side.
use hh_game_market_backend.Base.{
  ℕ, ◌≡◌, refl, true, false, ◌&&◌, some, List, [], ◌∷◌, map, filter, ◌==◌, ==_refl, arith,
  Bool-cases, inl, inr, ap, ◌∙◌,
}
use hh_game_market_backend.Base.Keyed.{update_where, update-absent, has, find_by, Distinct}
use hh_game_market_backend.Model.{
  OrderStatus, ItemStatus, item_status_eq, item_status_eq_refl, OrderItem, ItemExtra, ItemDetail,
  OrderEvent,
}
use hh_game_market_backend.Transition.{item_in, set_item}
use hh_game_market_backend.Transition.Facts.{item_id}
use hh_game_market_backend.Books.Sums.{set_item_keeps}
use hh_game_market_backend.History.{ItemState, item_after, events_of, replay, Past}

pub record Line : Type 0 where
  pub id : ℕ
  pub position : ℕ
  pub sku : ℕ
  pub amount : ℕ
  pub status : ItemStatus

abbrev pub line_of_state : ItemState → Line
line_of_state i = record {
  id = i.id;
  position = i.position;
  sku = i.sku;
  amount = i.amount;
  status = i.status;
}

abbrev pub line_of_row : OrderItem → Line
line_of_row i = record {
  id = i.id;
  position = i.position;
  sku = i.sku;
  amount = i.amount;
  status = i.status;
}

abbrev pub rows_of : ℕ → List OrderItem → List OrderItem
rows_of k items = filter (λ i. i.order_id == k) items

-- The history of one order, as against its row and its items.
pub record Recorded (items : List OrderItem) (events : List OrderEvent) (k amount currency : ℕ)
    (status : OrderStatus) : Type 0 where
  pub past : Past
  pub replayed : replay (events_of k events) ≡ some past
  pub same_amount : past.amount ≡ amount
  pub same_currency : past.currency ≡ currency
  pub same_status : past.status ≡ status
  pub lines : map line_of_state past.items ≡ map line_of_row (rows_of k items)

abbrev pub set_line : ℕ → ItemStatus → List Line → List Line
set_line x to = update_where (λ l. l.id == x && true) (λ l. record l { status = to })

line_after :
    (to : ItemStatus) (d : ItemDetail) (i : ItemState)
    → line_of_state (item_after to d i) ≡ record (line_of_state i) { status = to }
unfolding item_after
line_after ItemStatus.pending d i = refl
line_after ItemStatus.delivered d i = refl
line_after ItemStatus.refunding d i = refl
line_after ItemStatus.refunded d i = refl

-- An event of an item moves its line.
pub lines-event :
    (x : ℕ) (to : ItemStatus) (d : ItemDetail) (is : List ItemState)
    → map line_of_state (update_where (λ i. i.id == x && true) (item_after to d) is)
      ≡ set_line x to (map line_of_state is)
lines-event x to d [] = refl
lines-event x to d (i ∷ is) = elim (Bool-cases (i.id == x)) [
  | inl hit ↦ rw (hit, line_after to d i, lines-event x to d is) refl
  | inr miss ↦ rw (miss, lines-event x to d is) refl
]

line_moved :
    (to : ItemStatus) (extra : ItemExtra) (i : OrderItem)
    → line_of_row (set_item to extra i) ≡ record (line_of_row i) { status = to }
line_moved to ItemExtra.nothing i = refl
line_moved to (ItemExtra.refund_reason r) i = refl

module _ (x k : ℕ) (from to : ItemStatus) (extra : ItemExtra) where
  abbrev moved : List OrderItem → List OrderItem
  moved items = update_where (item_in x from) (set_item to extra) items

  moved-absent :
      (items : List OrderItem)
      → has item_id x items ≡ false
      → set_line x to (map line_of_row (rows_of k items))
        ≡ map line_of_row (rows_of k (moved items))
  moved-absent [] h = refl
  moved-absent (i ∷ items) h =
      let here : (i.id == x) ≡ false = ground arith in
      let rest = moved-absent items (ground arith) in
      elim (Bool-cases (i.order_id == k)) [
        | inl own ↦ rw (here, own, here) (ap (λ l. line_of_row i ∷ l) rest)
        | inr other ↦ rw (here, other) rest
      ]

  -- The move of an item's row moves its line in its order's list.
  pub lines-moved :
      (items : List OrderItem) (row : OrderItem)
      → Distinct item_id items
      → find_by item_id x items ≡ some row
      → row.status ≡ from
      → row.order_id ≡ k
      → set_line x to (map line_of_row (rows_of k items))
        ≡ map line_of_row (rows_of k (moved items))
  lines-moved [] row d found same own = cc
  lines-moved (i ∷ items) row d found same own = elim (Bool-cases (i.id == x)) [
    | inl hit ↦
        let this : i ≡ row = ground arith in
        let mine : (i.order_id == k) ≡ true = rw (this, own) (==_refl k) in
        let guard : item_status_eq i.status from ≡ true =
          rw (this, same) (item_status_eq_refl from) in
        let (_, owner, _) = set_item_keeps to extra i in
        let absent : has item_id x items ≡ false = ground (arith, d.0) in
        rw (hit, guard, owner, mine, hit, line_moved to extra i)
          (ap (λ l. record (line_of_row i) { status = to } ∷ l) (moved-absent items absent))
    | inr miss ↦
        let rest = lines-moved items row d.1 (rw miss at found) same own in
        elim (Bool-cases (i.order_id == k)) [
          | inl mine ↦ rw (miss, mine, miss) (ap (λ l. line_of_row i ∷ l) rest)
          | inr other ↦ rw (miss, other) rest
        ]
  ]

  -- And no other order's.
  pub lines-elsewhere :
      (items : List OrderItem) (row : OrderItem)
      → Distinct item_id items
      → find_by item_id x items ≡ some row
      → (row.order_id == k) ≡ false
      → rows_of k (moved items) ≡ rows_of k items
  lines-elsewhere [] row d found other = cc
  lines-elsewhere (i ∷ items) row d found other = elim (Bool-cases (i.id == x)) [
    | inl hit ↦
        let this : i ≡ row = ground arith in
        let notmine : (i.order_id == k) ≡ false = ap (λ r. r.order_id == k) this ∙ other in
        let absent : has item_id x items ≡ false = ground (arith, d.0) in
        let (_, owner, _) = set_item_keeps to extra i in
        let rest = ap (rows_of k) (
          update-absent item_id (λ r. item_status_eq r.status from) (set_item to extra) x items
            absent) in
        elim (Bool-cases (item_status_eq i.status from)) [
          | inl guard ↦ rw (hit, guard, owner, notmine) rest
          | inr stale ↦ rw (hit, stale, notmine) rest
        ]
    | inr miss ↦
        let rest = lines-elsewhere items row d.1 (rw miss at found) other in
        elim (Bool-cases (i.order_id == k)) [
          | inl mine ↦ rw (miss, mine) (ap (λ l. i ∷ l) rest)
          | inr notmine ↦ rw (miss, notmine) rest
        ]
  ]
