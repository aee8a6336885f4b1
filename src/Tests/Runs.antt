-- ===== src/Tests/Runs.antt =====
-- The shop's order, followed through the steps of the system.
use hh_game_market_backend.Base.{◌+◌, ◌≡◌, refl, arith, some, none, [], ◌∷◌}
use hh_game_market_backend.Model.{OrderStatus, ItemStatus, failed, first, Order, OrderItem, Db}
use hh_game_market_backend.Transition.{insert_event, transition_order, transition_item}
use hh_game_market_backend.Transition.Facts.{find_order, find_item}
use hh_game_market_backend.Ledger.{record_payment, record_delivery}
use hh_game_market_backend.Catalog.{decrement_stock}
use hh_game_market_backend.Orders.{
  create, create_lines, create_units, units_of, insert_all, insert_order, insert_items, item_rows,
}
use hh_game_market_backend.Payments.{
  PaymentWebhookDto, handle, insert_payment, process, apply, by_status, apply_paid, apply_failed,
  set_outcome,
}
use hh_game_market_backend.Delivery.Run.{Env, Config, thrown, timeout_error}
use hh_game_market_backend.Delivery.Accept.{complete, place_delivery, insert_delivery}
use hh_game_market_backend.Delivery.Pass.{deliver}
use hh_game_market_backend.Delivery.Pass.Whole.{IsPaidOrder, deliver-Reach}
use hh_game_market_backend.Books.{BooksOf}
use hh_game_market_backend.Books.Moves.{IsPaidItem}
use hh_game_market_backend.Books.Actions.{handle-Books, complete-Books}
use hh_game_market_backend.History.{StateAt, state_at}
use hh_game_market_backend.History.Now.{IsNow}
use hh_game_market_backend.System.{Reach, here, next, creates, tick, is_whole, IsWhole}
use hh_game_market_backend.System.Histories.{Reach-state_at}
use hh_game_market_backend.System.Lives.{LaterOrder}
use hh_game_market_backend.System.Stable.{Reach-LaterOrder, Reach-final, Reach-settled}
use hh_game_market_backend.System.Runs.{Live}
use hh_game_market_backend.Tests.{
  shop, wish, draw, any_text, money_in, an_order, shop-IsFresh, ordered, paid_for, ordered-BooksOf,
  finds_ordered,
}

ordered_now : ordered.now ≡ 1000
unfolding create create_lines create_units units_of insert_all insert_order insert_items item_rows
    insert_event
ordered_now = refl

abbrev first_order : Reach shop ordered
first_order = next here (creates draw wish shop)

first_order-IsWhole : IsWhole first_order
unfolding IsWhole is_whole
first_order-IsWhole = (tt, refl)

Reach-state_at_example :
    (s : StateAt) × (state_at 10 2000 ordered ≡ some s)
    × IsNow (an_order OrderStatus.created) ordered s
Reach-state_at_example =
    Reach-state_at (an_order OrderStatus.created) 2000 first_order first_order-IsWhole shop-IsFresh
      finds_ordered (omega (arith, ordered_now))

Reach-LaterOrder_example :
    LaterOrder (record ordered { now = ordered.now + 5 }) 10 (an_order OrderStatus.created)
Reach-LaterOrder_example =
    Reach-LaterOrder 10 (an_order OrderStatus.created) (next here (tick 5 ordered)) ordered-BooksOf
      finds_ordered

abbrev refused : PaymentWebhookDto
refused = record money_in { status = failed }

abbrev unpaid : Db
unpaid = (handle any_text 1001 refused ordered).1

unpaid-BooksOf : BooksOf unpaid
unpaid-BooksOf = handle-Books any_text 1001 refused ordered ordered-BooksOf

finds_unpaid : find_order 10 unpaid ≡ some (an_order OrderStatus.payment_failed)
unfolding create create_lines create_units units_of insert_all insert_order insert_items item_rows
    insert_event handle insert_payment process apply by_status apply_failed set_outcome
    transition_order
finds_unpaid = refl

Reach-final_example :
    (p : Order) × (find_order 10 (record unpaid { now = unpaid.now + 5 }) ≡ some p)
    × (p.status ≡ OrderStatus.payment_failed)
Reach-final_example =
    Reach-final 10 (an_order OrderStatus.payment_failed) (next here (tick 5 unpaid)) unpaid-BooksOf
      finds_unpaid refl

paid_for-BooksOf : BooksOf paid_for
paid_for-BooksOf = handle-Books any_text 1001 money_in ordered ordered-BooksOf

abbrev paid_order : Order
paid_order = record (an_order OrderStatus.paid) { paid_at = some 1001 }

finds_paid : find_order 10 paid_for ≡ some paid_order
unfolding create create_lines create_units units_of insert_all insert_order insert_items item_rows
    insert_event handle insert_payment process apply by_status apply_paid record_payment set_outcome
    transition_order
finds_paid = refl

paid_for-IsPaidOrder : IsPaidOrder 10 paid_for
paid_for-IsPaidOrder = record { order = paid_order; found = finds_paid; paid = refl }

abbrev new_item : ItemStatus → OrderItem
new_item s = record {
  id = 11;
  order_id = 10;
  position = 0;
  sku = 1;
  amount = 100;
  currency = 7;
  status = s;
  refund_reason = none;
}

finds_item : find_item 11 paid_for ≡ some (new_item ItemStatus.pending)
unfolding create create_lines create_units units_of insert_all insert_order insert_items item_rows
    insert_event handle insert_payment process apply by_status apply_paid record_payment set_outcome
    transition_order
finds_item = refl

item-IsPaidItem : IsPaidItem paid_for.orders paid_for.items (new_item ItemStatus.pending)
item-IsPaidItem = record {
  row = new_item ItemStatus.pending;
  found = finds_item;
  owner = refl;
  price = refl;
  order = paid_order;
  order_found = finds_paid;
  paid = refl;
}

abbrev handed_over : Db
handed_over = (complete (new_item ItemStatus.pending) 3 (first 11 3) 77 paid_for).1

handed_over-BooksOf : BooksOf handed_over
handed_over-BooksOf =
    complete-Books (new_item ItemStatus.pending) 3 (first 11 3) 77 paid_for item-IsPaidItem
      paid_for-BooksOf

finds_delivered : find_item 11 handed_over ≡ some (new_item ItemStatus.delivered)
unfolding create create_lines create_units units_of insert_all insert_order insert_items item_rows
    insert_event handle insert_payment process apply by_status apply_paid record_payment set_outcome
    transition_order complete place_delivery insert_delivery record_delivery decrement_stock
    transition_item
finds_delivered = refl

Reach-settled_example :
    (j : OrderItem) × (find_item 11 (record handed_over { now = handed_over.now + 5 }) ≡ some j)
    × (j.status ≡ ItemStatus.delivered)
Reach-settled_example =
    Reach-settled 11 (new_item ItemStatus.delivered) (next here (tick 5 handed_over))
      handed_over-BooksOf finds_delivered refl

-- Suppliers that never answer.
abbrev silence : Env
silence = record {
  World = Unit;
  others = λ w d. (w, d);
  post_issue = λ supplier request order_id sku w. (thrown timeout_error, w);
  get_issued = λ supplier request w. (thrown timeout_error, w);
  post_refund = λ refund_id order_id amount currency w. (thrown timeout_error, w);
  clock = λ w. 1002;
}

abbrev settings : Config
settings = record {
  suppliers = 3 ∷ 4 ∷ [];
  max_rounds = 3;
  max_attempts = 3;
  timeout_ms = 3000;
  rate_limit = λ s. 0;
  window_ms = 60000;
}

silence-Live : Live silence
silence-Live w d books = here

deliver-Reach_example : Reach paid_for (deliver silence settings paid_order tt paid_for).2
deliver-Reach_example =
    deliver-Reach silence settings silence-Live paid_order tt paid_for paid_for-BooksOf
      paid_for-IsPaidOrder
