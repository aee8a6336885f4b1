-- ===== src/System/Histories.antt =====
-- In every database that the services reach, the history of an order replays to what its rows say.
use hh_game_market_backend.Base.{
  ℕ, true, false, subst, ◌≤◌, ◌≡◌, refl, some, List, [], ◌∷◌, ◌++◌, map, arith, All, All-append,
}
use hh_game_market_backend.Base.Keyed.{All-find_by}
use hh_game_market_backend.Model.{Order, OrderItem, OrderEvent, Db}
use hh_game_market_backend.Transition.Facts.{item_id, find_order}
use hh_game_market_backend.Queue.{recovery_event}
use hh_game_market_backend.Books.{BooksOf}
use hh_game_market_backend.History.{state_at, StateAt}
use hh_game_market_backend.History.Kept.{Histories, Histories-order, Histories-item}
use hh_game_market_backend.History.Batch.{Histories-batch}
use hh_game_market_backend.History.Now.{HistoryOf, IsNow, state_at_now}
use hh_game_market_backend.History.Begins.{Histories-created}
use hh_game_market_backend.System.{Reach, here, next, IsWhole, IsFresh}
use hh_game_market_backend.System.Books.{Reach-BooksOf, Books-fresh}
use hh_game_market_backend.System.Change.{
  Change, quiet, order_moves, item_moves, order_comes, put_backs, order_row, item_row, event_comes,
}
use hh_game_market_backend.System.Changes.{Step-Change}

-- No event is later than the server's clock.
abbrev AllPast : ℕ → List OrderEvent → Type 0
AllPast now events = All (λ (e : OrderEvent). e.at ≤ now) events

later_stamps : (s t : ℕ) (events : List OrderEvent) → s ≤ t → AllPast s events → AllPast t events
later_stamps s t [] le h = tt
later_stamps s t (e ∷ events) le h = (omega (arith, le, h.0), later_stamps s t events le h.1)

batch_stamps : (now : ℕ) (orders : List Order) → AllPast now (map (recovery_event now) orders)
batch_stamps now [] = tt
batch_stamps now (o ∷ orders) = (omega arith, batch_stamps now orders)

one_stamp :
    (a b : ℕ) (events : List OrderEvent) (e : OrderEvent)
    → e.at ≡ a
    → a ≤ b
    → AllPast a events
    → AllPast b (events ++ e ∷ [])
one_stamp a b events e at le h =
    All-append _ events (e ∷ []) (later_stamps a b events le h) (omega (arith, at, le), tt)

HistoryOf-tables :
    {b : Db} {orders : List Order} {items : List OrderItem} {events : List OrderEvent}
    → b.orders ≡ orders
    → b.items ≡ items
    → b.events ≡ events
    → Histories orders items events
    → AllPast b.now events
    → HistoryOf b
HistoryOf-tables o i e h s = record { histories = rw (o, i, e) h; stamps = rw e s }

Change-HistoryOf : {a b : Db} → Change true a b → BooksOf a → HistoryOf a → HistoryOf b
Change-HistoryOf {a} {b} (quiet o i e le) books h =
    HistoryOf-tables o i e h.histories (later_stamps a.now b.now a.events le h.stamps)
Change-HistoryOf {a} {b} (order_moves id {from} {to} extra detail row found same move end o i e le)
      books h =
    HistoryOf-tables o i e
      (Histories-order h.histories _ id from to extra a.now detail row refl refl found same)
      (one_stamp a.now b.now a.events _ refl le h.stamps)
Change-HistoryOf {a} {b} (item_moves id {from} {to} extra detail row found same move price o i e le)
      books h =
    HistoryOf-tables o i e
      (Histories-item h.histories _ id from to extra detail row refl refl refl books.item_keys found
        same (All-find_by item_id _ id a.items row books.item_owners found))
      (one_stamp a.now b.now a.events _ refl le h.stamps)
Change-HistoryOf {a} (order_comes draw currency units fresh keys) books h = record {
  histories =
      Histories-created draw currency units a.orders a.items a.events _ _ books.item_owners fresh
        refl refl refl refl refl keys h.histories;
  stamps = one_stamp a.now a.now a.events _ refl (omega arith) h.stamps;
}
Change-HistoryOf {a} {b} (put_backs from before r o i e le) books h =
    HistoryOf-tables o i e
      (Histories-batch from before a.now a.orders a.items a.events books.order_keys h.histories)
      (All-append _ a.events _ (later_stamps a.now b.now a.events le h.stamps)
        (later_stamps a.now b.now _ le (batch_stamps a.now _)))
Change-HistoryOf (order_row id extra o w f s m end os is es le) books h =
    let clash : true ≡ false = w in cc
Change-HistoryOf (item_row id extra i w f s os is es le) books h =
    let clash : true ≡ false = w in cc
Change-HistoryOf (event_comes e w late os is es le) books h = let clash : true ≡ false = w in cc

-- From a database with true books and histories, the services only reach such databases.
pub Reach-HistoryOf : {a b : Db} (r : Reach a b) → IsWhole r → BooksOf a → HistoryOf a → HistoryOf b
unfolding IsWhole
Reach-HistoryOf here whole books h = h
Reach-HistoryOf (next {a = x} {b = b} r s) whole books h =
    let before = Reach-BooksOf r books in
    Change-HistoryOf (subst (λ w. Change w x b) whole.1 (Step-Change s before)) before
      (Reach-HistoryOf r whole.0 books h)

pub HistoryOf-fresh : {db : Db} → IsFresh db → HistoryOf db
HistoryOf-fresh f =
    HistoryOf-tables f.orders f.items f.events
      (record { event_owners = tt; per_order = λ k o found. cc }) tt

-- In every database that the services reach before any order or later, in any interleaving of their
-- transactions in which nothing commits between an UPDATE that moves an order or an item outside a
-- transaction and the INSERT of its event, `stateAt` of an order at a time that is not before now exists, and is the order as its
-- row says, with its items in the order and the statuses of their rows and the money that `get` shows.
pub Reach-state_at :
    {a b : Db} (o : Order) (at : ℕ)
    → (r : Reach a b) → IsWhole r
    → IsFresh a
    → find_order o.id b ≡ some o
    → b.now ≤ at
    → (s : StateAt) × (state_at o.id at b ≡ some s) × IsNow o b s
Reach-state_at {a} {b} o at r whole f found late =
    state_at_now o at b (Reach-HistoryOf r whole (Books-fresh f) (HistoryOf-fresh f)) found late
