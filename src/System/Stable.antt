-- ===== src/System/Stable.antt =====
-- What stays true however the system goes on: a final order, a settled item, an order that is paid
-- for, an order with no item open.
use hh_game_market_backend.Base.{
  ℕ, ◌≡◌, refl, Bool, true, false, some, arith, sym, ◌∙◌, subst, ap, any,
}
use hh_game_market_backend.Base.Keyed.{find_by}
use hh_game_market_backend.Model.{
  OrderStatus, order_status_eq, ItemStatus, final_statuses, is_paid, is_open, Order, OrderItem, Db,
}
use hh_game_market_backend.Transition.Facts.{order_id, find_order, find_item}
use hh_game_market_backend.Books.{BooksOf}
use hh_game_market_backend.Books.Moves.{IsPaidItem}
use hh_game_market_backend.System.{Reach, here, next}
use hh_game_market_backend.System.Books.{Reach-BooksOf}
use hh_game_market_backend.System.Change.{
  OrderMove, pays, fails, claims, defers, parks, ends, retries, ItemMove, delivers, gives_up,
  refunds,
}
use hh_game_market_backend.System.Changes.{Step-Change}
use hh_game_market_backend.System.Lives.{
  OrderLife, ItemLife, LaterOrder, LaterItem, Change-order, Change-item, order_same, item_same,
}

pub one_way : {s t u : OrderStatus} → OrderLife s t → OrderLife t u → OrderLife s u
one_way l OrderLife.stays = l
one_way l (OrderLife.moves m step) = OrderLife.moves (one_way l m) step

item_one_way : {s t u : ItemStatus} → ItemLife s t → ItemLife t u → ItemLife s u
item_one_way l ItemLife.stays = l
item_one_way l (ItemLife.moves m step) = ItemLife.moves (item_one_way l m) step

-- Once there, an order is there in every later database, under its id, with its amount and its
-- currency, and its status has only gone along the edges of OrderMove.
pub Reach-LaterOrder :
    (k : ℕ) {a b : Db} (o : Order)
    → Reach a b
    → BooksOf a
    → find_order k a ≡ some o
    → LaterOrder b k o
Reach-LaterOrder k o here books found = (o, found, order_same o)
Reach-LaterOrder k o (next r s) books found =
    let (p, at_p, l) = Reach-LaterOrder k o r books found in
    let (q, at_q, m) = Change-order k (Step-Change s (Reach-BooksOf r books)) p at_p in
    (
      q,
      at_q,
      record {
        id = m.id ∙ l.id;
        amount = m.amount ∙ l.amount;
        currency = m.currency ∙ l.currency;
        life = one_way l.life m.life;
      },
    )

-- And an item, with all its columns but its status and the reason of its refund.
pub Reach-LaterItem :
    (k : ℕ) {a b : Db} (i : OrderItem)
    → Reach a b
    → BooksOf a
    → find_item k a ≡ some i
    → LaterItem b k i
Reach-LaterItem k i here books found = (i, found, item_same i)
Reach-LaterItem k i (next r s) books found =
    let (p, at_p, l) = Reach-LaterItem k i r books found in
    let (q, at_q, m) = Change-item k (Step-Change s (Reach-BooksOf r books)) p at_p in
    (
      q,
      at_q,
      record {
        id = m.id ∙ l.id;
        order_id = m.order_id ∙ l.order_id;
        position = m.position ∙ l.position;
        sku = m.sku ∙ l.sku;
        amount = m.amount ∙ l.amount;
        currency = m.currency ∙ l.currency;
        life = item_one_way l.life m.life;
      },
    )

abbrev pub is_final : OrderStatus → Bool
is_final s = any (order_status_eq s) final_statuses

move_not_final : {s t : OrderStatus} → OrderMove s t → is_final s ≡ false
move_not_final pays = refl
move_not_final fails = refl
move_not_final claims = refl
move_not_final defers = refl
move_not_final parks = refl
move_not_final (ends e) = refl
move_not_final retries = refl

final_life : {s t : OrderStatus} → OrderLife s t → is_final s ≡ true → t ≡ s
final_life OrderLife.stays final = refl
final_life (OrderLife.moves l m) final =
    let same = final_life l final in
    let clash : true ≡ false = sym final ∙ ap is_final (sym same) ∙ move_not_final m in cc

-- An order in one of the final statuses keeps that status, whatever the services do.
pub Reach-final :
    (k : ℕ) {a b : Db} (o : Order)
    → Reach a b
    → BooksOf a
    → find_order k a ≡ some o
    → is_final o.status ≡ true
    → (p : Order) × (find_order k b ≡ some p) × (p.status ≡ o.status)
Reach-final k o r books found final =
    let (p, at_p, l) = Reach-LaterOrder k o r books found in (p, at_p, final_life l.life final)

pub ItemMove-is_open : {s t : ItemStatus} → ItemMove s t → is_open s ≡ true
ItemMove-is_open delivers = refl
ItemMove-is_open gives_up = refl
ItemMove-is_open refunds = refl

settled_life : {s t : ItemStatus} → ItemLife s t → is_open s ≡ false → t ≡ s
settled_life ItemLife.stays settled = refl
settled_life (ItemLife.moves l m) settled =
    let same = settled_life l settled in
    let clash : false ≡ true = sym settled ∙ ap is_open (sym same) ∙ ItemMove-is_open m in cc

-- An item that is delivered or refunded stays so: it is never delivered after a refund, nor refunded
-- after a delivery.
pub Reach-settled :
    (k : ℕ) {a b : Db} (i : OrderItem)
    → Reach a b
    → BooksOf a
    → find_item k a ≡ some i
    → is_open i.status ≡ false
    → (j : OrderItem) × (find_item k b ≡ some j) × (j.status ≡ i.status)
Reach-settled k i r books found settled =
    let (j, at_j, l) = Reach-LaterItem k i r books found in (j, at_j, settled_life l.life settled)

move_paid : {s t : OrderStatus} → OrderMove s t → is_paid s ≡ true → is_paid t ≡ true
move_paid pays h = cc
move_paid fails h = cc
move_paid claims h = refl
move_paid defers h = refl
move_paid parks h = refl
move_paid (ends {s = s} e) h = ground (arith, e)
move_paid retries h = refl

pub paid_life : {s t : OrderStatus} → OrderLife s t → is_paid s ≡ true → is_paid t ≡ true
paid_life OrderLife.stays h = h
paid_life (OrderLife.moves l m) h = move_paid m (paid_life l h)

-- An item of a paid order is one later.
pub Reach-IsPaidItem :
    {a b : Db} (item : OrderItem)
    → Reach a b
    → BooksOf a
    → IsPaidItem a.orders a.items item
    → IsPaidItem b.orders b.items item
Reach-IsPaidItem {a} {b} item r books p =
    let (row, at_row, i) = Reach-LaterItem item.id p.row r books p.found in
    let (order, at_order, o) = Reach-LaterOrder p.row.order_id p.order r books p.order_found in
    record {
      row = row;
      found = at_row;
      owner = p.owner ∙ sym i.order_id;
      price = p.price ∙ sym i.amount;
      order = order;
      order_found = subst (λ k. find_by order_id k b.orders ≡ some order) (sym i.order_id) at_order;
      paid = paid_life o.life p.paid;
    }
