-- ===== src/Lib.antt =====
-- The backend of a game-key market (backend/src), as functions on its database.
--
-- Parts, and the files that model them:
--   Base           Boolean tests, lists, integers over the native numbers, keyed tables
--   Model          the tables (backend/src/**/*.entity.ts) as records, the database `Db`, and what
--                  the services run on it: an `Action` reads and writes `Db` and returns or raises,
--                  `transaction` undoes the writes of an action that raises
--   Transition     backend/src/orders/order-transition.ts: `transition_order`, `transition_item`
--   Ledger         backend/src/ledger/ledger.service.ts: the postings and the control total
--   Orders         backend/src/orders/orders.service.ts: `create`, `retry_delivery`; Orders/View: `get`
--   Payments       backend/src/payments/payments.service.ts: `handle`, `apply`
--   Catalog        backend/src/catalog/catalog.service.ts: the stock counter; Catalog/Storefront:
--                  the listing and its pages
--   Delivery       backend/src/delivery: Limiter (supplier-limiter.service.ts), Client
--                  (supplier.client.ts, psp.client.ts), and of delivery.service.ts Journal, Chain,
--                  Issue, Accept, Moves and Pass, from the evidence up to `deliver`
--   Queue          backend/src/delivery/delivery.worker.ts (`claim`) and recovery.service.ts
--   Books          what it is for the money of every order to add up
--   System         the transactions of all services as one step relation on the database; its
--                  children say what a step may change (Change, Writes, Changes), what becomes of
--                  an order and an item in a run (Lives, Stable, Settled, Ended), how the journal and
--                  the history grow together (Entries, Accounted, Told), and hold the rules by which
--                  the steps of a pass compose (Runs, then Steps in Delivery/Client, Issue, Accept
--                  and Pass)
--   History        backend/src/history/history.service.ts: `state_at`, the replay of the events;
--                  History/Span: `money_before`, `money_between`, the sums of a span of time
--   Reconcile      backend/src/admin/reconciliation.service.ts: the report; its children
--                  are about what it finds: Money, Control the ledger's control total, Window
--                  `money_between`
--   Progress       backend/src/admin/progress.service.ts: the snapshot
--   Stubs          backend/src/stubs: the suppliers and the payment provider of the test project,
--                  which keep their own tables; what chance decides is an argument, `Chance`
--   Tests          a shop with one order, on which the theorems are applied; Tests/Runs follows it
--                  through the system, Tests/Reports through the reports, Tests/Stubbed has the
--                  stub services and the pages of the storefront
--
-- The services share the database and nothing else: the webhook pays for an order that `create`
-- wrote, the worker claims paid orders and runs `deliver` on them, which moves items and postings
-- and ends in a status; recovery and the operator put orders back in the queue. A pass runs between
-- its own transactions, the replies of suppliers and of the payment provider, and what other
-- instances commit; all of these are the parameter `Env` of Delivery/Run.
--
-- Choices. A text that is only compared (an id, a sku, a currency, a supplier's name, a code, an
-- event id) is a number; a request_id keeps its parts. Amounts are natural numbers, postings are
-- integers; the limit of an `int` is checked where the code meets it: a sum or an amount written to a
-- column, in `create` and `handle`, and the casts of sums in `balances` and `money_between`. Times are
-- numbers: `Db.now` is the server's clock, the application's clock is an argument. Ids come from
-- the argument `draw`. Of a text that is sent, `uuid_of` says whether it is a uuid and which, since
-- uuids are compared whatever the case of their letters; in the report `text_of` is the text of a
-- uuid. The rows that other transactions lock are the argument `locked` of `claim`. Loops over rounds
-- and attempts count down what the setting leaves (`config.max_rounds`, `config.max_attempts`), so
-- they take as many turns as the source's loops and need no other bound.
--
-- Not modelled: controllers, but for the contract endpoints of the suppliers (Stubs/Supplier/Http),
-- modules and health (routes that call one method), seed data, the
-- supplier audit, generated catalogues, timers, lanes and wake-ups of the worker,
-- logging, and the pauses between attempts. A step of System is a whole transaction or a statement
-- that commits on its own: where a transition runs outside a transaction, the UPDATE and the INSERT of
-- its event are two steps, which others may come between, and the second may never come. `IsWhole`
-- says of a run that this does not happen in it.
pub mod Base
pub mod Model
pub mod Transition
pub mod Ledger
pub mod Payments
pub mod Orders
pub mod Catalog
pub mod Delivery
pub mod Queue
pub mod Books
pub mod System
pub mod History
pub mod Reconcile
pub mod Stubs
pub mod Progress
pub mod Tests
