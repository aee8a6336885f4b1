-- ===== src/System/Told.antt =====
-- The events of refunds tell what the refunded items come to.
use hh_game_market_backend.Base.{
  ℕ, zero, suc, ◌+◌, ◌≡◌, refl, Bool, true, false, some, List, [], ◌∷◌, ◌++◌, map, arith, ◌∙◌,
  if◌then◌else◌, filter, sum_where, sum_where-append,
}
use hh_game_market_backend.Base.Keyed.{update_where, sum_where-update}
use hh_game_market_backend.Model.{
  ItemStatus, item_status_eq, item_status_eq_refl, refund, Product, Order, OrderItem, OrderEvent,
  ItemExtra, ItemDetail, EventData, Db,
}
use hh_game_market_backend.Transition.{item_in, set_item}
use hh_game_market_backend.Transition.Facts.{item_id, find_item, item_moved_in}
use hh_game_market_backend.Orders.{item_rows}
use hh_game_market_backend.Queue.{is_stale, recovery_event}
use hh_game_market_backend.Books.{BooksOf}
use hh_game_market_backend.Books.Sums.{set_item_keeps}
use hh_game_market_backend.History.Span.{concerns, concerned, event_amount, event_sum, item_amount}
use hh_game_market_backend.System.{Reach, here, next, Late, retried, concluded, given_up}
use hh_game_market_backend.System.Books.{Reach-BooksOf}
use hh_game_market_backend.System.Change.{
  ItemMove, delivers, gives_up, refunds, Change, quiet, order_moves, item_moves, order_comes,
  put_backs, order_row, item_row, event_comes,
}
use hh_game_market_backend.System.Changes.{Step-Change}

abbrev pub ever : ℕ → Bool
ever t = true

abbrev pub told_refunds : List OrderEvent → ℕ
told_refunds = event_sum refund ever

abbrev pub all_refunded : List OrderItem → ℕ
all_refunded = sum_where (λ i. item_status_eq i.status ItemStatus.refunded) (λ i. i.amount)

abbrev pub IsTold : Db → Type 0
IsTold db = told_refunds db.events ≡ all_refunded db.items

told_more :
    (events : List OrderEvent) (e : OrderEvent)
    → told_refunds (events ++ e ∷ [])
      ≡ told_refunds events + (if concerned refund ever e then event_amount e.payload else 0)
told_more events e =
    omega (
      arith,
      sum_where-append (concerned refund ever) (λ d. event_amount d.payload) events (e ∷ []),
    )

told_batch : (now : ℕ) (orders : List Order) → told_refunds (map (recovery_event now) orders) ≡ 0
told_batch now [] = refl
told_batch now (o ∷ orders) = omega (arith, told_batch now orders)

rows_pending :
    (draw : ℕ → ℕ) (owner currency position : ℕ) (units : List Product)
    → all_refunded (item_rows draw owner currency position units) ≡ 0
unfolding item_rows
rows_pending draw owner currency position [] = refl
rows_pending draw owner currency position (u ∷ units) =
    omega (arith, rows_pending draw owner currency (suc position) units)

not_refunded :
    {from to : ItemStatus} → ItemMove from to → item_status_eq from ItemStatus.refunded ≡ false
not_refunded delivers = refl
not_refunded gives_up = refl
not_refunded refunds = refl

item_told :
    (id : ℕ) {from to : ItemStatus} (extra : ItemExtra) (detail : ItemDetail) (i : OrderItem)
    (a : Db)
    → BooksOf a
    → find_item id a ≡ some i
    → i.status ≡ from
    → ItemMove from to
    → item_amount detail ≡ i.amount
    → all_refunded (update_where (item_in id from) (set_item to extra) a.items)
      ≡ all_refunded a.items
        + (if item_status_eq to ItemStatus.refunded then item_amount detail else 0)
item_told id {from} {to} extra detail i a books found same m price =
    let (_, _, amount) = set_item_keeps to extra i in
    let guard : item_status_eq i.status from ≡ true = rw same (item_status_eq_refl from) in
    let moved =
      sum_where-update item_id (λ r. item_status_eq r.status from) (set_item to extra) id
        (λ r. item_status_eq r.status ItemStatus.refunded) (λ r. r.amount) a.items i books.item_keys
        found guard in
    let told = rw (amount, same) at moved in rw price (ground (arith, told, not_refunded m))

-- What the event of an item's move adds.
told_item :
    (id : ℕ) (from to : ItemStatus) (extra : ItemExtra) (detail : ItemDetail) (i : OrderItem)
    (a : Db)
    → told_refunds (item_moved_in id from to extra detail i.order_id a).events
      ≡ told_refunds a.events
        + (if item_status_eq to ItemStatus.refunded then item_amount detail else 0)
told_item id from ItemStatus.pending extra detail i a = told_more a.events _
told_item id from ItemStatus.delivered extra detail i a = told_more a.events _
told_item id from ItemStatus.refunding extra detail i a = told_more a.events _
told_item id from ItemStatus.refunded extra detail i a = told_more a.events _

told_same :
    (events : List OrderEvent) (e : OrderEvent)
    → concerned refund ever e ≡ false
    → told_refunds (events ++ e ∷ []) ≡ told_refunds events
told_same events e idle = ground (arith, told_more events e, idle)

Late-told : {payload : EventData} → Late payload → concerns refund payload ≡ false
Late-told retried = refl
Late-told (concluded v) = refl
Late-told (given_up reason amount) = refl

refunding_told :
    (id : ℕ) (extra : ItemExtra) (i : OrderItem) (a : Db)
    → BooksOf a
    → find_item id a ≡ some i
    → i.status ≡ ItemStatus.pending
    → all_refunded
        (update_where (item_in id ItemStatus.pending) (set_item ItemStatus.refunding extra) a.items)
      ≡ all_refunded a.items
refunding_told id extra i a books found same =
    omega
      (arith, item_told id extra (ItemDetail.amount i.amount) i a books found same gives_up refl)

Change-IsTold : {w : Bool} {a b : Db} → Change w a b → BooksOf a → IsTold a → IsTold b
Change-IsTold (quiet os is es le) books h = rw (es, is) h
Change-IsTold {a} (order_moves x extra detail o f s m end os is es le) books h =
    rw (es, is) (told_same a.events _ refl ∙ h)
Change-IsTold {a} (item_moves x {from} {to} extra detail i f s m price os is es le) books h =
    rw (es, is)
      (omega (
        arith,
        h,
        item_told x extra detail i a books f s m price,
        told_item x from to extra detail i a,
      ))
Change-IsTold {a} (put_backs from before r os is es le) books h =
    rw (es, is)
      (omega (
        arith,
        h,
        sum_where-append (concerned refund ever) (λ d. event_amount d.payload) a.events
            (map (recovery_event a.now) (filter (is_stale from before) a.orders)),
        told_batch a.now (filter (is_stale from before) a.orders),
      ))
Change-IsTold {a} (order_comes draw currency units fresh keys) books h =
    told_same a.events _ refl
    ∙ h
    ∙ omega (
      arith,
      sum_where-append (λ i. item_status_eq i.status ItemStatus.refunded) (λ i. i.amount) a.items
          (item_rows draw (draw zero) currency 0 units),
      rows_pending draw (draw zero) currency 0 units,
    )
Change-IsTold (order_row x extra o w f s m end os is es le) books h = rw (es, is) h
Change-IsTold {a} (item_row x extra i w f s os is es le) books h =
    rw (es, is) (omega (arith, h, refunding_told x extra i a books f s))
Change-IsTold {a} (event_comes e w late os is es le) books h =
    rw (es, is) (told_same a.events e (Late-told late) ∙ h)

pub Reach-IsTold : {a b : Db} → Reach a b → BooksOf a → IsTold a → IsTold b
Reach-IsTold here books h = h
Reach-IsTold (next r s) books h =
    Change-IsTold (Step-Change s (Reach-BooksOf r books)) (Reach-BooksOf r books)
      (Reach-IsTold r books h)
