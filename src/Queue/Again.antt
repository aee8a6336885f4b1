-- ===== src/Queue/Again.antt =====
-- A second sweep of backend/src/delivery/recovery.service.ts right after the first.
use hh_game_market_backend.Base.{
  ℕ, ◌≡◌, refl, Bool, false, inl, inr, List, [], ◌∷◌, ap, Bool-cases, filter,
}
use hh_game_market_backend.Base.Keyed.{update_where}
use hh_game_market_backend.Model.{OrderStatus, order_status_eq, Order, Db, ok}
use hh_game_market_backend.Queue.{is_stale, put_back, requeue}
use mathlib.Core.List.{append-nil}

-- An order that was put back is not one to put back.
put_back-settled :
    (from : OrderStatus) (before now : ℕ) (o : Order)
    → order_status_eq OrderStatus.paid from ≡ false
    → is_stale from before (put_back now o) ≡ false
put_back-settled from before now o other = rw other refl

module _ {A : Type 0} (p : A → Bool) (f : A → A) (settled : (a : A) → p (f a) ≡ false) where
  filter-update : (xs : List A) → filter p (update_where p f xs) ≡ []
  filter-update [] = refl
  filter-update (x ∷ xs) = elim (Bool-cases (p x)) [
    | inl hit ↦ rw (hit, settled x) (filter-update xs)
    | inr miss ↦ rw (miss, miss) (filter-update xs)
  ]

  update-update : (xs : List A) → update_where p f (update_where p f xs) ≡ update_where p f xs
  update-update [] = refl
  update-update (x ∷ xs) = elim (Bool-cases (p x)) [
    | inl hit ↦ rw (hit, settled x) (ap (λ r. f x ∷ r) (update-update xs))
    | inr miss ↦ rw (miss, miss) (ap (λ r. x ∷ r) (update-update xs))
  ]

-- Putting back the orders of a status other than paid, a second time with the same cut-off, moves
-- nothing, writes nothing and names no order.
pub requeue-requeue :
    (from : OrderStatus) (before : ℕ) (db : Db)
    → order_status_eq OrderStatus.paid from ≡ false
    → requeue from before (requeue from before db).1 ≡ (ok [], (requeue from before db).1)
unfolding requeue
requeue-requeue from before db other =
    let settled = λ (o : Order). put_back-settled from before db.now o other in
    let none_left = filter-update (is_stale from before) (put_back db.now) settled db.orders in
    let stays = update-update (is_stale from before) (put_back db.now) settled db.orders in
    rw (none_left, stays, append-nil _) refl
