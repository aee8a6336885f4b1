-- ===== src/Tests.antt =====
-- A shop with one product, in the states that its one order goes through, and what the theorems say
-- of it.
mod Runs
mod Reports
mod Stubbed
use hh_game_market_backend.Base.{
  Option, any, ℕ, ◌+◌, ◌≤◌, ◌≡◌, refl, arith, Bool, true, false, none, some, List, [], ◌∷◌,
}
use hh_game_market_backend.Model.{
  AttemptOutcome, DeliveryAttempt, OrderStatus, ItemStatus, paid, RefundReason, first, Product,
  Order, OrderItem, OrderExtra, OrderDetail, ItemExtra, ItemDetail, duplicate, Db, ok,
}
use hh_game_market_backend.Transition.Cases.{
  OrderCases, ItemCases, transition_order-cases, transition_item-cases,
}
use hh_game_market_backend.Orders.{
  CreateOrderDto, create, create_lines, create_units, units_of, insert_all, insert_order,
  insert_items, item_rows,
}
use hh_game_market_backend.Payments.{PaymentWebhookDto, row_of, apply, handle}
use hh_game_market_backend.Payments.Cases.{ApplyCases, apply-cases}
use hh_game_market_backend.Delivery.Limiter.{try_acquire}
use hh_game_market_backend.Delivery.Limiter.Window.{rows_of, try_acquire_within}
use hh_game_market_backend.Delivery.Accept.Atomic.{CompleteCases, complete-cases}
use hh_game_market_backend.Delivery.Pass.Atomic.{RefundCases, refund-cases}
use hh_game_market_backend.Books.{BooksOf}
use hh_game_market_backend.System.{IsFresh, here, next, creates, pays, claims}
use hh_game_market_backend.System.Books.{Reach-BooksOf, Books-fresh}
use hh_game_market_backend.Queue.{claim, next_order}
use hh_game_market_backend.Delivery.Pass.{verdict}
use hh_game_market_backend.Delivery.Pass.Conclusion.{VerdictCases, verdict-cases}
use hh_game_market_backend.Delivery.Chain.{attempts_for, supplier_chain}
use hh_game_market_backend.Delivery.Chain.LastWord.{
  last_word, left_open, flags, flags-supplier_chain,
}
use hh_game_market_backend.Queue
use hh_game_market_backend.Queue.Again.{requeue-requeue}
use hh_game_market_backend.Queue.Next.{NextCases, next_order-cases}
use hh_game_market_backend.Orders.View.{view}
use hh_game_market_backend.Orders.Money.{view-money_adds_up}
use hh_game_market_backend.Books.Actions.{create-Books}
use hh_game_market_backend.Transition.{insert_event}
use hh_game_market_backend.Transition.Facts.{find_order}

abbrev gold : Product
gold = record { sku = 1; kind = 0; price = 100; currency = 7; supplier = 3; active = true }

abbrev shop : Db
shop = record {
  products = gold ∷ [];
  stock = record { sku = 1; available = 5 } ∷ [];
  orders = [];
  items = [];
  events = [];
  ledger = [];
  payments = [];
  deliveries = [];
  refunds = [];
  attempts = [];
  discrepancies = [];
  calls = [];
  now = 1000;
}

abbrev wish : CreateOrderDto
wish = record { sku = some 1; items = none }

abbrev draw : ℕ → ℕ
draw n = n + 10

abbrev any_text : ℕ → Option ℕ
any_text k = some k

abbrev money_in : PaymentWebhookDto
money_in = record {
  event_id = 50;
  order_id = 10;
  status = paid;
  amount = 100;
  currency = 7;
  created_at = 1001;
}

abbrev an_order : OrderStatus → Order
an_order s = record {
  id = 10;
  amount = 100;
  currency = 7;
  status = s;
  paid_at = none;
  not_before = none;
  updated_at = 1000;
}

abbrev an_item : ItemStatus → OrderItem
an_item s = record {
  id = 11;
  order_id = 10;
  position = 0;
  sku = 1;
  amount = 100;
  currency = 7;
  status = s;
  refund_reason = some RefundReason.out_of_stock;
}

-- The shop with that order and that item.
abbrev shop_in : OrderStatus → ItemStatus → Db
shop_in s t = record shop { orders = an_order s ∷ []; items = an_item t ∷ [] }

shop-IsFresh : IsFresh shop
shop-IsFresh = record {
  orders = refl;
  items = refl;
  events = refl;
  ledger = refl;
  payments = refl;
  deliveries = refl;
  refunds = refl;
}

abbrev ordered : Db
ordered = (create draw wish shop).1

abbrev paid_for : Db
paid_for = (handle any_text 1001 money_in ordered).1

abbrev taken : Db
taken = (claim (λ _. false) paid_for).1

Reach-BooksOf_example : BooksOf taken
Reach-BooksOf_example =
    Reach-BooksOf
      (next (next (next here (creates draw wish shop)) (pays any_text 1001 money_in ordered))
        (claims (λ _. false) paid_for))
      (Books-fresh shop-IsFresh)

complete-cases_example :
    CompleteCases
      (an_item ItemStatus.pending)
      3
      (first 11 3)
      77
      (shop_in OrderStatus.delivering ItemStatus.pending)
      (refl, tt)
complete-cases_example =
    complete-cases (an_item ItemStatus.pending) 3 (first 11 3) 77
      (shop_in OrderStatus.delivering ItemStatus.pending) (refl, tt)

refund-cases_example :
    RefundCases
      (an_order OrderStatus.delivering)
      (an_item ItemStatus.refunding)
      (shop_in OrderStatus.delivering ItemStatus.refunding)
      (refl, tt)
refund-cases_example =
    refund-cases (an_order OrderStatus.delivering) (an_item ItemStatus.refunding)
      (shop_in OrderStatus.delivering ItemStatus.refunding) (refl, tt)

try_acquire_within_example : rows_of 3 (try_acquire (λ _. 2) 1000 3 5 shop).1 ≤ 2
try_acquire_within_example = try_acquire_within (λ _. 2) 1000 3 5 shop (omega arith) (omega arith)

-- The same payment again, now with an amount that is no `int`.
abbrev too_much : PaymentWebhookDto
too_much = record money_in { amount = 3000000000 }

apply-cases_example :
    ApplyCases 1001
      (some (an_order OrderStatus.created))
      money_in
      (shop_in OrderStatus.created ItemStatus.pending)
      (apply 1001
        (some (an_order OrderStatus.created))
        money_in
        (shop_in OrderStatus.created ItemStatus.pending))
apply-cases_example =
    apply-cases 1001 money_in (shop_in OrderStatus.created ItemStatus.pending) (refl, tt)
      (some (an_order OrderStatus.created))

transition_order-cases_example :
    OrderCases 10 OrderStatus.created OrderStatus.paid OrderExtra.nothing OrderDetail.nothing
      (shop_in OrderStatus.created ItemStatus.pending)
transition_order-cases_example =
    transition_order-cases 10 OrderStatus.created OrderStatus.paid OrderExtra.nothing
      OrderDetail.nothing (shop_in OrderStatus.created ItemStatus.pending) (refl, tt)

transition_item-cases_example :
    ItemCases 11 ItemStatus.pending ItemStatus.delivered ItemExtra.nothing
      (ItemDetail.amount 100)
      (shop_in OrderStatus.delivering ItemStatus.pending)
transition_item-cases_example =
    transition_item-cases 11 ItemStatus.pending ItemStatus.delivered ItemExtra.nothing
      (ItemDetail.amount 100) (shop_in OrderStatus.delivering ItemStatus.pending) (refl, tt)

ordered-BooksOf : BooksOf ordered
ordered-BooksOf = create-Books draw wish shop (Books-fresh shop-IsFresh)

finds_ordered : find_order 10 ordered ≡ some (an_order OrderStatus.created)
unfolding create create_lines create_units units_of insert_all insert_order insert_items item_rows
    insert_event
finds_ordered = refl

view-money_adds_up_example :
    (view (an_order OrderStatus.created) ordered).money.paid
    ≡ (view (an_order OrderStatus.created) ordered).money.delivered
      + (view (an_order OrderStatus.created) ordered).money.refunded
      + (view (an_order OrderStatus.created) ordered).money.pending
view-money_adds_up_example =
    view-money_adds_up 10 (an_order OrderStatus.created) ordered ordered-BooksOf finds_ordered

abbrev queue : List Order
queue =
    an_order OrderStatus.paid
    ∷ record (an_order OrderStatus.paid) { id = 12; paid_at = some 900 }
    ∷ record (an_order OrderStatus.delivering) { id = 14; paid_at = some 800 }
    ∷ []

next_order-cases_example : NextCases 2000 queue (next_order 2000 queue)
next_order-cases_example = next_order-cases 2000 queue

abbrev half : List OrderItem
half = an_item ItemStatus.delivered ∷ record (an_item ItemStatus.refunded) { id = 12 } ∷ []

verdict-cases_example : VerdictCases half (some 5) true (verdict half (some 5) true)
verdict-cases_example = verdict-cases half (some 5) true

abbrev attempted : DeliveryAttempt
attempted = record {
  order_id = 10;
  order_item_id = 11;
  supplier = 4;
  request_id = first 11 4;
  attempt = 1;
  outcome = AttemptOutcome.timeout;
}

abbrev tried : Db
tried = record shop { attempts = attempted ∷ [] }

flags-supplier_chain_example :
    any (flags 4) (supplier_chain (3 ∷ 4 ∷ []) (an_item ItemStatus.pending) tried)
    ≡ left_open (last_word 4 (attempts_for 11 tried))
flags-supplier_chain_example =
    flags-supplier_chain (3 ∷ 4 ∷ []) (an_item ItemStatus.pending) tried 4

abbrev stuck : Db
stuck = shop_in OrderStatus.delivering ItemStatus.pending

requeue-requeue_example :
    Queue.requeue OrderStatus.delivering 1500 (Queue.requeue OrderStatus.delivering 1500 stuck).1
    ≡ (ok [], (Queue.requeue OrderStatus.delivering 1500 stuck).1)
requeue-requeue_example = requeue-requeue OrderStatus.delivering 1500 stuck refl
