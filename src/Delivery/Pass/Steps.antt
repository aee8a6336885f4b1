-- ===== src/Delivery/Pass/Steps.antt =====
-- One item of a pass, as a run of the system.
use hh_game_market_backend.Base.{
  ℕ, zero, suc, ◌-◌, Bool, true, false, not, ◌&&◌, some, List, [], ◌∷◌, if◌then◌else◌,
}
use hh_game_market_backend.Model.{
  ItemStatus, RefundReason, RequestId, Order, OrderItem, ItemExtra, ItemDetail, EventData, Db,
  no_longer, gets,
}
use hh_game_market_backend.Transition.{insert_event, update_item}
use hh_game_market_backend.Delivery.Run.{Env, Config, Run, pure, commit, ◌>>=◌, ◌>>◌}
use hh_game_market_backend.Delivery.Client.{psp_refund}
use hh_game_market_backend.Delivery.Client.Steps.{psp_refund-Keeps}
use hh_game_market_backend.Delivery.Journal.{rejected_rounds}
use hh_game_market_backend.Delivery.Chain.{Link, supplier_chain}
use hh_game_market_backend.Delivery.Issue.{IssueOutcome, issued, issue_round}
use hh_game_market_backend.Delivery.Issue.Steps.{issue_round-Keeps}
use hh_game_market_backend.Delivery.Accept.{AcceptOutcome, accept}
use hh_game_market_backend.Delivery.Accept.Steps.{accept-Keeps}
use hh_game_market_backend.Delivery.Moves.{note_item, move_item}
use hh_game_market_backend.Delivery.Pass.{
  SupplierOutcome, ItemResult, settled_result, unresolved_result, request_of, book_refund,
  is_out_of_stock, refund, of_accept, of_issue, rounds, try_supplier, give_up, after_supplier,
  reason_of, walk, deliver_item, by_status,
}
use hh_game_market_backend.Books.Moves.{IsPaidItem}
use hh_game_market_backend.System.{Late, given_up, gives_up_row, notes, refunds}
use hh_game_market_backend.System.Runs.{
  Live, Stable, Keeps, Keeps-pure, Keeps-step, Keeps-bind, Keeps-then, Keeps-gets, Keeps-raise,
}

-- The item is one of a paid order, by the tables.
abbrev pub PaidIn : OrderItem → Db → Type 0
PaidIn item d = IsPaidItem d.orders d.items item

-- What the passes of the item do not look at.
pub PaidIn-refunding :
    (item : OrderItem) (reason : RefundReason) (d : Db)
    → PaidIn item d
    → PaidIn (record item { status = ItemStatus.refunding; refund_reason = some reason }) d
PaidIn-refunding item reason d p = record {
  row = p.row;
  found = p.found;
  owner = p.owner;
  price = p.price;
  order = p.order;
  order_found = p.order_found;
  paid = p.paid;
}

module _ (env : Env) (config : Config) (live : Live env) (order : Order) where
  open env use {World}

  module _ (P : Db → Type 0) (stable : Stable env P) (item : OrderItem)
      (paid : (d : Db) → P d → PaidIn item d) where
    pub refund-Keeps : Keeps env P (refund env config order item)
    unfolding refund
    refund-Keeps =
        let body = book_refund order item in
        Keeps-bind env P live stable
          (psp_refund env config item.id order.id item.amount item.currency)
          (λ paid_back. if paid_back then (commit env body >> pure true) else pure false)
          (psp_refund-Keeps env config P live stable item.id order.id item.amount item.currency)
          booked
      where
        booked :
            (paid_back : Bool)
            → Keeps env P (
                if paid_back
                then (commit env (book_refund order item) >> pure true)
                else pure false)
        booked true =
            Keeps-then env P live stable (commit env (book_refund order item)) (pure true)
              (Keeps-step env P live stable (book_refund order item)
                (λ d p. refunds order item d (paid d p)))
              (Keeps-pure env P true)
        booked false = Keeps-pure env P false

    pub refunded-Keeps :
        Keeps env P
          (refund env config order item >>= λ paid_back. pure (unresolved_result (not paid_back)))
    refunded-Keeps =
        Keeps-bind env P live stable (refund env config order item)
          (λ paid_back. pure (unresolved_result (not paid_back))) refund-Keeps
          (λ paid_back. Keeps-pure env P (unresolved_result (not paid_back)))

    of_accept-Keeps :
        (a : AcceptOutcome) (again : Run World SupplierOutcome)
        → Keeps env P again
        → Keeps env P (of_accept env config a again)
    of_accept-Keeps AcceptOutcome.delivered again rest = Keeps-pure env P SupplierOutcome.delivered
    of_accept-Keeps AcceptOutcome.ambiguous again rest = Keeps-pure env P SupplierOutcome.ambiguous
    of_accept-Keeps (AcceptOutcome.deferred t) again rest =
        Keeps-pure env P (SupplierOutcome.deferred t)
    of_accept-Keeps AcceptOutcome.rejected again rest = rest

    of_issue-Keeps :
        (supplier : ℕ) (request : RequestId) (o : IssueOutcome) (again : Run World SupplierOutcome)
        → Keeps env P again
        → Keeps env P (of_issue env config item supplier request o again)
    unfolding of_issue
    of_issue-Keeps supplier request IssueOutcome.out_of_stock again rest =
        Keeps-pure env P SupplierOutcome.out_of_stock
    of_issue-Keeps supplier request IssueOutcome.failed again rest =
        Keeps-pure env P SupplierOutcome.failed
    of_issue-Keeps supplier request IssueOutcome.ambiguous again rest =
        Keeps-pure env P SupplierOutcome.ambiguous
    of_issue-Keeps supplier request (IssueOutcome.deferred t) again rest =
        Keeps-pure env P (SupplierOutcome.deferred t)
    of_issue-Keeps supplier request (issued code verified) again rest =
        Keeps-bind env P live stable (accept env config item supplier request code verified)
          (λ a. of_accept env config a again)
          (accept-Keeps env config P live stable item supplier request paid code verified)
          (λ a. of_accept-Keeps a again rest)

    rounds-Keeps :
        (left round supplier : ℕ) (ambiguous : Bool)
        → Keeps env P (rounds env config left round order item supplier ambiguous)
    unfolding rounds
    rounds-Keeps zero round supplier ambiguous = Keeps-pure env P SupplierOutcome.failed
    rounds-Keeps (suc left) round supplier ambiguous =
        let request = request_of item.id supplier round in
        let again = rounds env config left (suc round) order item supplier ambiguous in
        Keeps-bind env P live stable (issue_round env config order item supplier request ambiguous)
          (λ o. of_issue env config item supplier request o again)
          (issue_round-Keeps env config P live stable order item supplier request ambiguous)
          (λ o.
            of_issue-Keeps supplier request o again
              (rounds-Keeps left (suc round) supplier ambiguous))

    try_supplier-Keeps :
        (supplier : ℕ) (ambiguous : Bool)
        → Keeps env P (try_supplier env config order item supplier ambiguous)
    unfolding try_supplier
    try_supplier-Keeps supplier ambiguous =
        Keeps-bind env P live stable (commit env (gets (rejected_rounds item.id supplier)))
          (λ rejected.
            rounds env config (config.max_rounds - rejected) (suc rejected) order item supplier
              ambiguous)
          (Keeps-gets env P live stable (rejected_rounds item.id supplier))
          (λ rejected.
            rounds-Keeps (config.max_rounds - rejected) (suc rejected) supplier ambiguous)

    after_supplier-Keeps :
        (o : SupplierOutcome) (rest : Run World ItemResult)
        → Keeps env P rest
        → Keeps env P (after_supplier env config o rest)
    unfolding after_supplier
    after_supplier-Keeps SupplierOutcome.delivered rest keeps = Keeps-pure env P settled_result
    after_supplier-Keeps (SupplierOutcome.deferred t) rest keeps =
        let waits : ItemResult = record { deferred_until = some t; unresolved = false } in
        Keeps-pure env P waits
    after_supplier-Keeps SupplierOutcome.ambiguous rest keeps =
        Keeps-pure env P (unresolved_result true)
    after_supplier-Keeps SupplierOutcome.out_of_stock rest keeps = keeps
    after_supplier-Keeps SupplierOutcome.failed rest keeps = keeps

  -- Giving up an item, and walking its chain.
  module _ (P : Db → Type 0) (stable : Stable env P) (item : OrderItem)
      (paid : (d : Db) → P d → PaidIn item d) where
    note_item-Keeps :
        (id : ℕ) {payload : EventData}
        → Late payload
        → (moved : List ℕ) → Keeps env P (note_item env id payload moved)
    unfolding note_item
    note_item-Keeps id {payload} late (order_id ∷ []) =
        Keeps-step env P live stable (insert_event order_id (some id) payload)
          (λ d p. notes order_id (some id) late d)
    note_item-Keeps id late [] = Keeps-raise env P Unit no_longer
    note_item-Keeps id late (o ∷ o' ∷ os) = Keeps-raise env P Unit no_longer

    decided :
        (reason : RefundReason)
        → Keeps env P (
            move_item env item.id ItemStatus.pending ItemStatus.refunding
              (ItemExtra.refund_reason reason)
              (ItemDetail.amount item.amount))
    unfolding move_item
    decided reason =
        let row =
          update_item item.id ItemStatus.pending ItemStatus.refunding
            (ItemExtra.refund_reason reason) in
        Keeps-bind env P live stable (commit env row) (note_item env item.id _)
          (Keeps-step env P live stable row (λ d p. gives_up_row item reason d (paid d p)))
          (note_item-Keeps item.id (given_up reason item.amount))

    give_up-Keeps : (reason : RefundReason) → Keeps env P (give_up env config order item reason)
    unfolding give_up
    give_up-Keeps reason =
        let given = record item { status = ItemStatus.refunding; refund_reason = some reason } in
        let decide =
          move_item env item.id ItemStatus.pending ItemStatus.refunding
            (ItemExtra.refund_reason reason) (ItemDetail.amount item.amount) in
        Keeps-then env P live stable decide
          (refund env config order given >>= λ paid_back. pure (unresolved_result (not paid_back)))
          (decided reason)
          (refunded-Keeps P stable given (λ d p. PaidIn-refunding item reason d (paid d p)))

    walk-Keeps :
        (links : List Link) (all_out : Bool)
        → Keeps env P (walk env config links all_out order item)
    unfolding walk
    walk-Keeps [] all_out = give_up-Keeps (reason_of env config all_out)
    walk-Keeps (link ∷ links) all_out =
        Keeps-bind env P live stable
          (try_supplier env config order item link.supplier link.ambiguous)
          (λ o.
            after_supplier env config o
              (walk env config links (all_out && is_out_of_stock o) order item))
          (try_supplier-Keeps P stable item paid link.supplier link.ambiguous)
          (λ o.
            after_supplier-Keeps P stable item paid o
              (walk env config links (all_out && is_out_of_stock o) order item)
              (walk-Keeps links (all_out && is_out_of_stock o)))

    deliver_item-Keeps : Keeps env P (deliver_item env config order item)
    unfolding deliver_item
    deliver_item-Keeps =
        Keeps-bind env P live stable (commit env (gets (supplier_chain config.suppliers item)))
          (λ chain. walk env config chain true order item)
          (Keeps-gets env P live stable (supplier_chain config.suppliers item))
          (λ chain. walk-Keeps chain true)

    pub by_status-Keeps : (s : ItemStatus) → Keeps env P (by_status env config s order item)
    unfolding by_status
    by_status-Keeps ItemStatus.pending = deliver_item-Keeps
    by_status-Keeps ItemStatus.refunding = refunded-Keeps P stable item paid
    by_status-Keeps ItemStatus.delivered = Keeps-pure env P settled_result
    by_status-Keeps ItemStatus.refunded = Keeps-pure env P settled_result
