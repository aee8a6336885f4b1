-- ===== src/Delivery/Moves.antt =====
-- The transitions of backend/src/orders/order-transition.ts as a pass runs them, outside a transaction.
use hh_game_market_backend.Base.{ℕ, Bool, true, false, none, some, List, [], ◌∷◌, ◌==◌}
use hh_game_market_backend.Model.{
  OrderStatus, ItemStatus, OrderExtra, OrderDetail, ItemExtra, ItemDetail, EventData, no_longer,
}
use hh_game_market_backend.Transition.{insert_event, update_order, update_item}
use hh_game_market_backend.Delivery.Run.{Env, Run, raise, commit, ◌>>=◌}

module _ (env : Env) where
  open env use {World}

  -- `transitionOrder` and `transitionItem` with `dataSource.manager`: each statement commits on its
  -- own, and others may commit in between.
  unfoldable pub note_order : ℕ → EventData → Bool → Run World Unit
  unfolding insert_event
  note_order id payload true = commit env (insert_event id none payload)
  note_order id payload false = raise no_longer

  unfoldable pub move_order :
      ℕ → OrderStatus → OrderStatus → OrderExtra → OrderDetail → Run World Unit
  unfolding update_order note_order
  move_order id from to extra detail = do
    affected ← commit env (update_order id from to extra)
    note_order id (EventData.order_status from to extra detail) (affected == 1)

  unfoldable pub note_item : ℕ → EventData → List ℕ → Run World Unit
  unfolding insert_event
  note_item id payload (order_id ∷ []) = commit env (insert_event order_id (some id) payload)
  note_item id payload _ = raise no_longer

  unfoldable pub move_item : ℕ → ItemStatus → ItemStatus → ItemExtra → ItemDetail → Run World Unit
  unfolding update_item note_item
  move_item id from to extra detail = do
    moved ← commit env (update_item id from to extra)
    note_item id (EventData.item_status from to extra detail) moved
