-- ===== src/Delivery/Pass.antt =====
-- `deliver`, `deliverItem`, `trySupplier`, `refund` and `finish` of
-- backend/src/delivery/delivery.service.ts: one pass over one order.
pub mod Atomic
pub mod Conclusion
pub mod Steps
pub mod Whole
use hh_game_market_backend.Base.{
  ℕ, zero, suc, ◌-◌, Bool, true, false, not, ◌&&◌, ◌||◌, none, some, Option, List, [], ◌∷◌, ◌++◌,
  ◌==◌, ltb, if◌then◌else◌, any, length, count, or_else,
}
use hh_game_market_backend.Base.Keyed.{has}
use hh_game_market_backend.Model.{
  OrderStatus, ItemStatus, item_status_eq, is_open, RefundReason, RequestId, first, later, Order,
  OrderItem, OrderExtra, OrderDetail, ItemExtra, ItemDetail, EventData, Refund, Db, Error,
  no_longer, Result, Action, transaction,
}
use hh_game_market_backend.Model
use hh_game_market_backend.Transition.{insert_event, update_order, update_item, transition_item}
use hh_game_market_backend.Ledger.{record_refund}
use hh_game_market_backend.Orders.View.{items_of}
use hh_game_market_backend.Delivery.Run.{Env, Config, Run, pure, raise, commit, ◌>>=◌, ◌>>◌}
use hh_game_market_backend.Delivery.Client.{psp_refund}
use hh_game_market_backend.Delivery.Moves.{note_order, move_order, note_item, move_item}
use hh_game_market_backend.Delivery.Journal.{rejected_rounds}
use hh_game_market_backend.Delivery.Chain.{Link, supplier_chain}
use hh_game_market_backend.Delivery.Issue.{IssueOutcome, issued, issue_round}
use hh_game_market_backend.Delivery.Accept.{AcceptOutcome, accept}

pub data SupplierOutcome : Type 0 where
  delivered out_of_stock failed ambiguous : SupplierOutcome
  deferred : (next_slot_at : ℕ) → SupplierOutcome

pub record ItemResult : Type 0 where
  pub deferred_until : Option ℕ
  pub unresolved : Bool

abbrev pub settled_result : ItemResult
settled_result = record { deferred_until = none; unresolved = false }

abbrev pub unresolved_result : Bool → ItemResult
unresolved_result b = record { deferred_until = none; unresolved = b }

-- The request_id of a round: stable per item, supplier and round.
abbrev pub request_of : (item_id supplier round : ℕ) → RequestId
request_of item_id supplier round =
    if round == 1 then first item_id supplier else later item_id supplier round

abbrev pub refund_key : Refund → ℕ
refund_key r = r.order_item_id

-- `.insert().into(Refund)...orIgnore()`
unfoldable pub insert_refund : Order → OrderItem → Action Unit
insert_refund order item db = if has refund_key item.id db.refunds then (Result.ok tt, db) else (
  Result.ok tt,
  record db {
    refunds =
        db.refunds
        ++ record {
          order_item_id = item.id;
          order_id = order.id;
          amount = item.amount;
          currency = item.currency;
          reason = or_else item.refund_reason RefundReason.supplier_failed;
        }
          ∷ [];
  },
)

-- The booking of a refund that the provider has confirmed: one transaction.
unfoldable pub book_refund : Order → OrderItem → Action Unit
book_refund order item = transaction (
    Model.◌>>◌ (insert_refund order item) (
      Model.◌>>◌
        (transition_item item.id ItemStatus.refunding ItemStatus.refunded ItemExtra.nothing
          (ItemDetail.refund item.amount item.refund_reason))
        (record_refund item)))

-- `outcomes.every((o) => o.kind === 'out_of_stock')`, kept while the chain is walked.
abbrev pub is_out_of_stock : SupplierOutcome → Bool
is_out_of_stock SupplierOutcome.out_of_stock = true
is_out_of_stock _ = false

-- What `finish` does with the items as it finds them.
pub data Verdict : Type 0 where
  requeue : (not_before : ℕ) → Verdict
  park : Verdict
  final : OrderStatus → Verdict

abbrev pub is_delivered : OrderItem → Bool
is_delivered i = item_status_eq i.status ItemStatus.delivered

abbrev pub final_status : List OrderItem → OrderStatus
final_status items =
    let delivered = count is_delivered items in
    if delivered == length items
    then OrderStatus.delivered
    else if delivered == 0
    then OrderStatus.refunded
    else OrderStatus.partially_delivered

abbrev pub requeue_or_park : Option ℕ → Bool → Verdict
requeue_or_park (some t) false = requeue t
requeue_or_park _ _ = park

unfoldable pub verdict : List OrderItem → (deferred_until : Option ℕ) (unresolved : Bool) → Verdict
verdict items deferred_until unresolved =
    if any (λ (i : OrderItem). is_open i.status) items
    then requeue_or_park deferred_until unresolved
    else final (final_status items)

-- Where a verdict takes the order, and what it sets besides.
abbrev pub status_for : Verdict → OrderStatus
status_for (requeue t) = OrderStatus.paid
status_for park = OrderStatus.delivery_failed
status_for (final status) = status

abbrev pub extra_for : Verdict → OrderExtra
extra_for (requeue t) = OrderExtra.not_before t
extra_for _ = OrderExtra.nothing

-- The later of two times, where there is one.
abbrev pub latest : Option ℕ → Option ℕ → Option ℕ
latest none old = old
latest (some t) none = some t
latest (some t) (some u) = if ltb u t then some t else some u

module _ (env : Env) where
  open env use {World}

  unfoldable pub carry_out : ℕ → Verdict → Run World Unit
  unfolding move_order
  carry_out id v =
      move_order env id OrderStatus.delivering (status_for v) (extra_for v) OrderDetail.nothing

module _ (env : Env) (config : Config) where
  open env use {World}

  unfoldable pub refund : Order → OrderItem → Run World Bool
  unfolding book_refund psp_refund
  refund order item = do
    paid_back ← psp_refund env config item.id order.id item.amount item.currency
    if paid_back then (commit env (book_refund order item) >> pure true) else pure false

  abbrev of_accept : AcceptOutcome → Run World SupplierOutcome → Run World SupplierOutcome
  of_accept AcceptOutcome.delivered again = pure SupplierOutcome.delivered
  of_accept AcceptOutcome.ambiguous again = pure SupplierOutcome.ambiguous
  of_accept (AcceptOutcome.deferred t) again = pure (SupplierOutcome.deferred t)
  of_accept AcceptOutcome.rejected again = again

  of_issue :
      OrderItem
      → ℕ
      → RequestId
      → IssueOutcome
      → Run World SupplierOutcome
      → Run World SupplierOutcome
  unfolding accept
  of_issue item supplier request IssueOutcome.out_of_stock again = pure SupplierOutcome.out_of_stock
  of_issue item supplier request IssueOutcome.failed again = pure SupplierOutcome.failed
  of_issue item supplier request IssueOutcome.ambiguous again = pure SupplierOutcome.ambiguous
  of_issue item supplier request (IssueOutcome.deferred t) again = pure (SupplierOutcome.deferred t)
  of_issue item supplier request (issued code verified) again = do
    accepted ← accept env config item supplier request code verified
    of_accept accepted again

  -- `left` rounds, from number `round` on.
  unfoldable pub rounds :
      (left round : ℕ) → Order → OrderItem → (supplier : ℕ) → Bool → Run World SupplierOutcome
  unfolding of_issue issue_round
  rounds zero round order item supplier previously_ambiguous = pure SupplierOutcome.failed
  rounds (suc left) round order item supplier previously_ambiguous = do
    let request = request_of item.id supplier round
    outcome ← issue_round env config order item supplier request previously_ambiguous
    of_issue item supplier request outcome
        (rounds left (suc round) order item supplier previously_ambiguous)

  -- `for (round = firstRound; round <= maxRounds; round++)`
  unfoldable pub try_supplier :
      Order → OrderItem → (supplier : ℕ) → Bool → Run World SupplierOutcome
  unfolding rounds
  try_supplier order item supplier previously_ambiguous = do
    rejected ← commit env (Model.gets (rejected_rounds item.id supplier))
    rounds (config.max_rounds - rejected) (suc rejected) order item supplier previously_ambiguous

  -- Every supplier gave a definite "no": the decision is written down, then the money goes back.
  give_up : Order → OrderItem → RefundReason → Run World ItemResult
  unfolding refund move_item
  give_up order item reason = do
    move_item env item.id ItemStatus.pending ItemStatus.refunding (ItemExtra.refund_reason reason)
        (ItemDetail.amount item.amount)
    paid_back ←
        refund order (record item { status = ItemStatus.refunding; refund_reason = some reason })
    pure (unresolved_result (not paid_back))

  after_supplier : SupplierOutcome → Run World ItemResult → Run World ItemResult
  after_supplier SupplierOutcome.delivered next = pure settled_result
  after_supplier (SupplierOutcome.deferred t) next =
      pure (record { deferred_until = some t; unresolved = false })
  after_supplier SupplierOutcome.ambiguous next = pure (unresolved_result true)
  after_supplier _ next = next

  abbrev reason_of : Bool → RefundReason
  reason_of true = RefundReason.out_of_stock
  reason_of false = RefundReason.supplier_failed

  -- The rest of the chain; `all_out` says whether every outcome so far was out_of_stock.
  unfoldable pub walk : List Link → Bool → Order → OrderItem → Run World ItemResult
  unfolding give_up after_supplier try_supplier
  walk [] all_out order item = give_up order item (reason_of all_out)
  walk (link ∷ links) all_out order item = do
    outcome ← try_supplier order item link.supplier link.ambiguous
    after_supplier outcome (walk links (all_out && is_out_of_stock outcome) order item)

  unfoldable pub deliver_item : Order → OrderItem → Run World ItemResult
  unfolding walk supplier_chain
  deliver_item order item = do
    chain ← commit env (Model.gets (supplier_chain config.suppliers item))
    walk chain true order item

  pub by_status : ItemStatus → Order → OrderItem → Run World ItemResult
  unfolding deliver_item refund
  by_status ItemStatus.pending order item = deliver_item order item
  by_status ItemStatus.refunding order item = do
    paid_back ← refund order item
    pure (unresolved_result (not paid_back))
  by_status _ order item = pure settled_result

  -- The loop over the items; the results of the turns are folded into one.
  unfoldable pub deliver_items : List OrderItem → Order → ItemResult → Run World ItemResult
  unfolding by_status
  deliver_items [] order acc = pure acc
  deliver_items (item ∷ items) order acc = do
    result ← by_status item.status order item
    deliver_items items order (record {
      deferred_until = latest result.deferred_until acc.deferred_until;
      unresolved = acc.unresolved || result.unresolved;
    })

  unfoldable pub finish : Order → ItemResult → Run World Unit
  unfolding verdict carry_out items_of
  finish order result = do
    items ← commit env (Model.gets (items_of order.id))
    carry_out env order.id (verdict items result.deferred_until result.unresolved)

  unfoldable pub deliver : Order → Run World Unit
  unfolding deliver_items finish
  deliver order = do
    items ← commit env (Model.gets (items_of order.id))
    result ← deliver_items items order settled_result
    finish order result
