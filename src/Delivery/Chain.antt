-- ===== src/Delivery/Chain.antt =====
-- `supplierChain` of backend/src/delivery/delivery.service.ts: which suppliers are tried for an
-- item, in which order, and which of them may still hold a code for it.
pub mod LastWord
use hh_game_market_backend.Base.{
  ℕ, zero, Bool, true, false, not, Option, none, some, List, [], ◌∷◌, ◌++◌, map, ◌==◌,
  if◌then◌else◌, filter, includes,
}
use hh_game_market_backend.Base.Keyed.{find_by}
use hh_game_market_backend.Model.{AttemptOutcome, Product, OrderItem, DeliveryAttempt, Db}
use hh_game_market_backend.Orders.{sku_of}

pub record Link : Type 0 where
  pub supplier : ℕ
  pub ambiguous : Bool

-- `outcome === 'timeout' || outcome === 'error'`
abbrev pub opens : AttemptOutcome → Bool
opens AttemptOutcome.timeout = true
opens AttemptOutcome.error = true
opens _ = false

-- `['ok', 'out_of_stock', 'none_issued', 'rejected'].includes(outcome)`
abbrev pub closes : AttemptOutcome → Bool
closes AttemptOutcome.ok = true
closes AttemptOutcome.out_of_stock = true
closes AttemptOutcome.none_issued = true
closes AttemptOutcome.rejected = true
closes _ = false

-- A JavaScript Set: it keeps the order of insertion, and adding a member again changes nothing.
abbrev pub set_add : List ℕ → ℕ → List ℕ
set_add open_ s = if includes open_ s then open_ else open_ ++ s ∷ []

abbrev pub set_delete : List ℕ → ℕ → List ℕ
set_delete open_ s = filter (λ t. not (t == s)) open_

-- One turn of the loop over the attempts.
abbrev pub note_attempt : List ℕ → ℕ → AttemptOutcome → List ℕ
note_attempt open_ s outcome =
    if opens outcome then set_add open_ s else if closes outcome then set_delete open_ s else open_

unfoldable pub open_suppliers : List ℕ → List DeliveryAttempt → List ℕ
open_suppliers open_ [] = open_
open_suppliers open_ (a ∷ rest) = open_suppliers (note_attempt open_ a.supplier a.outcome) rest

-- `suppliers[0]`; the setting is never an empty list, since `''.split(',')` is `['']`.
abbrev first_supplier : List ℕ → ℕ
first_supplier [] = zero
first_supplier (s ∷ _) = s

-- `product?.supplier ?? suppliers[0]`
abbrev pub preferred_supplier : List ℕ → Option Product → ℕ
preferred_supplier suppliers none = first_supplier suppliers
preferred_supplier suppliers (some p) = p.supplier

unfoldable pub preferred_first : ℕ → List ℕ → List ℕ
preferred_first p suppliers = filter (λ s. s == p) suppliers ++ filter (λ s. not (s == p)) suppliers

unfoldable pub chain_of : List ℕ → List ℕ → List Link
chain_of open_ ordered =
    map (λ s. record { supplier = s; ambiguous = true }) open_
    ++ map (λ s. record { supplier = s; ambiguous = false })
        (filter (λ s. not (includes open_ s)) ordered)

abbrev pub attempts_for : ℕ → Db → List DeliveryAttempt
attempts_for item_id db = filter (λ (a : DeliveryAttempt). a.order_item_id == item_id) db.attempts

unfoldable pub supplier_chain : List ℕ → OrderItem → Db → List Link
unfolding open_suppliers preferred_first chain_of
supplier_chain suppliers item db =
    let preferred = preferred_supplier suppliers (find_by sku_of item.sku db.products) in
    chain_of (open_suppliers [] (attempts_for item.id db)) (preferred_first preferred suppliers)
