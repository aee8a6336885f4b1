-- ===== src/System/Settled.antt =====
-- An order with no item open never gets one again.
use hh_game_market_backend.Base.{
  ℕ, zero, suc, ◌≡◌, refl, Bool, true, false, ◌&&◌, List, [], ◌∷◌, arith, Bool-cases, inl, inr, sym,
  ◌∙◌, ap, any-append, ◌==◌, ==_iff,
}
use hh_game_market_backend.Base.Keyed.{has, has-append, update_where, has-update_where}
use hh_game_market_backend.Model.{
  ItemStatus, item_status_eq_iff, is_open, Product, OrderItem, ItemExtra, Db,
}
use hh_game_market_backend.Transition.{item_in, order_in, set_order, set_item}
use hh_game_market_backend.Transition.Facts.{order_id}
use hh_game_market_backend.Orders.{item_rows}
use hh_game_market_backend.Queue.{is_stale, put_back}
use hh_game_market_backend.Books.{BooksOf}
use hh_game_market_backend.Books.Sums.{set_item_keeps}
use hh_game_market_backend.History.Kept.{set_order_keeps}
use hh_game_market_backend.System.{Reach, here, next, has_open}
use hh_game_market_backend.System.Books.{Reach-BooksOf}
use hh_game_market_backend.System.Change.{
  ItemMove, Change, quiet, order_moves, item_moves, order_comes, put_backs, order_row, item_row,
  event_comes, gives_up,
}
use hh_game_market_backend.System.Changes.{Step-Change}
use hh_game_market_backend.System.Stable.{ItemMove-is_open}

set_item_open :
    (id : ℕ) {from to : ItemStatus} (extra : ItemExtra) (i : OrderItem)
    → i.status ≡ from
    → ItemMove from to
    → (i.order_id == id && is_open i.status) ≡ false
    → ((set_item to extra i).order_id == id && is_open (set_item to extra i).status) ≡ false
set_item_open id {from} {to} extra i same m closed =
    let (_, owner, _) = set_item_keeps to extra i in
    let opened : is_open i.status ≡ true = ap is_open same ∙ ItemMove-is_open m in
    let other : (i.order_id == id) ≡ false = ground (arith, closed, opened) in
    rw (owner, other) refl

pub has_open-moved :
    (id x : ℕ) {from to : ItemStatus} (extra : ItemExtra) (items : List OrderItem)
    → ItemMove from to
    → has_open id items ≡ false
    → has_open id (update_where (item_in x from) (set_item to extra) items) ≡ false
has_open-moved id x extra [] m closed = refl
has_open-moved id x {from} {to} extra (i ∷ items) m closed =
    let head_closed : (i.order_id == id && is_open i.status) ≡ false = ground (arith, closed) in
    let rest = has_open-moved id x extra items m (ground (arith, closed)) in
    elim (Bool-cases (item_in x from i)) [
      | inr miss ↦ rw (miss, head_closed) rest
      | inl hit ↦
          let same = (item_status_eq_iff i.status from).0 (ground (arith, hit)) in
          rw (hit, set_item_open id extra i same m head_closed) rest
    ]

pub has_open-foreign :
    (draw : ℕ → ℕ) (id owner currency position : ℕ) (units : List Product)
    → (owner == id) ≡ false
    → has_open id (item_rows draw owner currency position units) ≡ false
unfolding item_rows
has_open-foreign draw id owner currency position [] other = refl
has_open-foreign draw id owner currency position (u ∷ units) other =
    rw other (has_open-foreign draw id owner currency (suc position) units other)

-- An order that exists, with no item open.
pub record IsSettled (id : ℕ) (db : Db) : Type 0 where
  pub exists : has order_id id db.orders ≡ true
  pub closed : has_open id db.items ≡ false

Change-IsSettled : (id : ℕ) {w : Bool} {a b : Db} → Change w a b → IsSettled id a → IsSettled id b
Change-IsSettled id (quiet os is es le) h = record {
  exists = ap (has order_id id) os ∙ h.exists;
  closed = ap (has_open id) is ∙ h.closed;
}
Change-IsSettled id {a} (order_moves x {from} {to} extra detail o f s m e os is es le) h = record {
  exists =
      ap (has order_id id) os
      ∙ has-update_where order_id (order_in x from) (set_order to extra a.now)
          (λ o. (set_order_keeps to extra a.now o).0) id a.orders
      ∙ h.exists;
  closed = ap (has_open id) is ∙ h.closed;
}
Change-IsSettled id {a} (item_moves x extra detail i f s m price os is es le) h = record {
  exists = ap (has order_id id) os ∙ h.exists;
  closed = ap (has_open id) is ∙ has_open-moved id x extra a.items m h.closed;
}
Change-IsSettled id {a} (put_backs from before r os is es le) h = record {
  exists =
      ap (has order_id id) os
      ∙ has-update_where order_id (is_stale from before) (put_back a.now) (λ o. refl) id a.orders
      ∙ h.exists;
  closed = ap (has_open id) is ∙ h.closed;
}
Change-IsSettled id {a} (order_comes draw currency units fresh keys) h =
    let other : (draw zero == id) ≡ false = elim (Bool-cases (draw zero == id)) [
      | inr differs ↦ differs
      | inl same ↦
          let clash : true ≡ false =
            sym h.exists ∙ ap (λ j. has order_id j a.orders) (sym ((==_iff _ _).0 same)) ∙ fresh in
          cc
    ] in
    record {
      exists = has-append order_id id a.orders _ ∙ rw (h.exists) refl;
      closed =
          any-append _ a.items _
          ∙ rw (h.closed) (has_open-foreign draw id (draw zero) currency 0 units other);
    }
Change-IsSettled id {a} (order_row x {from} {to} extra o w f s m e os is es le) h = record {
  exists =
      ap (has order_id id) os
      ∙ has-update_where order_id (order_in x from) (set_order to extra a.now)
          (λ o. (set_order_keeps to extra a.now o).0) id a.orders
      ∙ h.exists;
  closed = ap (has_open id) is ∙ h.closed;
}
Change-IsSettled id {a} (item_row x extra i w f s os is es le) h = record {
  exists = ap (has order_id id) os ∙ h.exists;
  closed = ap (has_open id) is ∙ has_open-moved id x extra a.items gives_up h.closed;
}
Change-IsSettled id (event_comes e w late os is es le) h = record {
  exists = ap (has order_id id) os ∙ h.exists;
  closed = ap (has_open id) is ∙ h.closed;
}

pub Reach-IsSettled : (id : ℕ) {a b : Db} → Reach a b → BooksOf a → IsSettled id a → IsSettled id b
Reach-IsSettled id here books h = h
Reach-IsSettled id (next r s) books h =
    Change-IsSettled id (Step-Change s (Reach-BooksOf r books)) (Reach-IsSettled id r books h)
