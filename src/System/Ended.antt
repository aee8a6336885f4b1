-- ===== src/System/Ended.antt =====
-- An order that came to an end has no item open.
use hh_game_market_backend.Base.{
  ℕ, Bool, zero, ◌≡◌, refl, true, false, none, some, List, [], ◌∷◌, ◌++◌, arith, Bool-cases, inl,
  inr, sym, ◌∙◌, ap, any-append, ◌==◌, ==_iff,
}
use hh_game_market_backend.Base.Keyed.{
  has, find_by, find_by-key, find_by-append, update_where, find_by-update_where,
}
use hh_game_market_backend.Model.{OrderStatus, is_end, Product, Order, OrderItem, OrderExtra, Db}
use hh_game_market_backend.Transition.{order_in, set_order}
use hh_game_market_backend.Transition.Facts.{order_id}
use hh_game_market_backend.Queue.{is_stale, put_back}
use hh_game_market_backend.Books.{BooksOf}
use hh_game_market_backend.History.Kept.{set_order_keeps}
use hh_game_market_backend.System.{Reach, here, next, has_open}
use hh_game_market_backend.System.Books.{Reach-BooksOf}
use hh_game_market_backend.System.Change.{
  Change, quiet, order_moves, item_moves, order_comes, put_backs, order_row, item_row, event_comes,
  gives_up,
}
use hh_game_market_backend.System.Changes.{Step-Change}
use hh_game_market_backend.System.Settled.{has_open-moved, has_open-foreign}

-- For every order of the table.
abbrev pub AllEnded : List Order → List OrderItem → Type 0
AllEnded orders items =
    (k : ℕ) (o : Order)
    → find_by order_id k orders ≡ some o
    → is_end o.status ≡ true
    → has_open k items ≡ false

abbrev pub IsEnded : Db → Type 0
IsEnded db = AllEnded db.orders db.items

set_order-status :
    (to : OrderStatus) (extra : OrderExtra) (now : ℕ) (o : Order)
    → (set_order to extra now o).status ≡ to
set_order-status to OrderExtra.nothing now o = refl
set_order-status to (OrderExtra.paid_at t) now o = refl
set_order-status to (OrderExtra.not_before t) now o = refl

AllEnded-moved :
    (id : ℕ) (from to : OrderStatus) (extra : OrderExtra) (now : ℕ) (orders : List Order)
    (items : List OrderItem)
    → (is_end to ≡ true → has_open id items ≡ false)
    → AllEnded orders items
    → AllEnded (update_where (order_in id from) (set_order to extra now) orders) items
AllEnded-moved id from to extra now orders items end h k o found ended =
    let (p, at_p, same) =
      find_by-update_where order_id (order_in id from) (set_order to extra now)
        (λ x. (set_order_keeps to extra now x).0) k orders o found in
    elim (Bool-cases (order_in id from p)) [
      | inr miss ↦ h k p at_p (ap (λ (q : Order). is_end q.status) (sym (rw miss at same)) ∙ ended)
      | inl hit ↦
          let at_id : k ≡ id =
            sym (find_by-key order_id k orders p at_p) ∙ (==_iff _ _).0 (ground (arith, hit)) in
          let now_to : is_end to ≡ true =
            ap is_end (sym (set_order-status to extra now p))
            ∙ ap (λ (q : Order). is_end q.status) (sym (rw hit at same))
            ∙ ended in
          ap (λ j. has_open j items) at_id ∙ end now_to
    ]

AllEnded-put_back :
    (from : OrderStatus) (before now : ℕ) (orders : List Order) (items : List OrderItem)
    → AllEnded orders items
    → AllEnded (update_where (is_stale from before) (put_back now) orders) items
AllEnded-put_back from before now orders items h k o found ended =
    let (p, at_p, same) =
      find_by-update_where order_id (is_stale from before) (put_back now) (λ x. refl) k orders o
        found in
    elim (Bool-cases (is_stale from before p)) [
      | inr miss ↦ h k p at_p (ap (λ (q : Order). is_end q.status) (sym (rw miss at same)) ∙ ended)
      | inl hit ↦
          let clash : false ≡ true =
            ap (λ (q : Order). is_end q.status) (sym (rw hit at same)) ∙ ended in
          cc
    ]

-- A new order is `created`, and its items are nobody else's.
AllEnded-created :
    (draw : ℕ → ℕ) (currency : ℕ) (new : Order) (units : List Product) (orders : List Order)
    (items items' : List OrderItem)
    → new.id ≡ draw zero
    → new.status ≡ OrderStatus.created
    → ((k : ℕ) → (draw zero == k) ≡ false → has_open k items' ≡ false)
    → has order_id (draw zero) orders ≡ false
    → AllEnded orders items
    → AllEnded (orders ++ new ∷ []) (items ++ items')
AllEnded-created draw currency new units orders items items' id created foreign fresh h k o found
      ended =
    elim (Bool-cases (has order_id k orders)) [
      | inl old ↦
          let other : (draw zero == k) ≡ false = elim (Bool-cases (draw zero == k)) [
            | inr differs ↦ differs
            | inl same ↦
                let clash : true ≡ false =
                  sym old ∙ ap (λ j. has order_id j orders) (sym ((==_iff _ _).0 same)) ∙ fresh in
                cc
          ] in
          let at_old : find_by order_id k orders ≡ some o =
            rw old at (sym (find_by-append order_id k orders (new ∷ [])) ∙ found) in
          any-append _ items items' ∙ rw (h k o at_old ended) (foreign k other)
      | inr young ↦
          let at_new : find_by order_id k (new ∷ []) ≡ some o =
            rw young at (sym (find_by-append order_id k orders (new ∷ [])) ∙ found) in
          let clash : false ≡ true = go at_new in cc
    ]
  where
    go : find_by order_id k (new ∷ []) ≡ some o → false ≡ true
    go e = elim (Bool-cases (new.id == k)) [
      | inr miss ↦ let absent : none ≡ some o = rw miss at e in cc
      | inl hit ↦
          let same : some new ≡ some o = rw hit at e in
          let status : o.status ≡ OrderStatus.created = cc in sym (ap is_end status) ∙ ended
    ]

Change-IsEnded : {w : Bool} {a b : Db} → Change w a b → IsEnded a → IsEnded b
Change-IsEnded {a} {b} (quiet os is es le) h = rw (os, is) h
Change-IsEnded {a} {b} (order_moves x {from} {to} extra detail o f s m end os is es le) h =
    rw (os, is) (AllEnded-moved x from to extra a.now a.orders a.items end h)
Change-IsEnded {a} (item_moves x extra detail i f s m price os is es le) h =
    rw (os, is) (λ k o found ended. has_open-moved k x extra a.items m (h k o found ended))
Change-IsEnded {a} (put_backs from before r os is es le) h =
    rw (os, is) (AllEnded-put_back from before a.now a.orders a.items h)
Change-IsEnded {a} (order_comes draw currency units fresh keys) h =
    AllEnded-created draw currency _ units a.orders a.items _ refl refl
      (λ k other. has_open-foreign draw k (draw zero) currency 0 units other) fresh h
Change-IsEnded {a} (order_row x {from} {to} extra o w f s m end os is es le) h =
    rw (os, is) (AllEnded-moved x from to extra a.now a.orders a.items end h)
Change-IsEnded {a} (item_row x extra i w f s os is es le) h =
    rw (os, is) (λ k o found ended. has_open-moved k x extra a.items gives_up (h k o found ended))
Change-IsEnded (event_comes e w late os is es le) h = rw (os, is) h

pub Reach-IsEnded : {a b : Db} → Reach a b → BooksOf a → IsEnded a → IsEnded b
Reach-IsEnded here books h = h
Reach-IsEnded (next r s) books h =
    Change-IsEnded (Step-Change s (Reach-BooksOf r books)) (Reach-IsEnded r books h)
