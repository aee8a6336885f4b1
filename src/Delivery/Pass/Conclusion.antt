-- ===== src/Delivery/Pass/Conclusion.antt =====
-- What `finish` of backend/src/delivery/delivery.service.ts makes of the items as it finds them.
use hh_game_market_backend.Base.{
  ℕ, ◌+◌, ◌<◌, ◌≡◌, refl, Bool, true, false, ◌⊎◌, inl, inr, Option, none, some, List, [], ◌∷◌,
  arith, Bool-cases, any, count, length, ◌==◌, ==_iff, if◌then◌else◌,
}
use hh_game_market_backend.Model.{OrderStatus, ItemStatus, item_status_eq, is_open, OrderItem}
use hh_game_market_backend.Delivery.Pass.{
  Verdict, park, final, is_delivered, final_status, requeue_or_park, verdict,
}

abbrev pub is_refunded : OrderItem → Bool
is_refunded i = item_status_eq i.status ItemStatus.refunded

abbrev pub some_open : List OrderItem → Bool
some_open items = any (λ (i : OrderItem). is_open i.status) items

-- What a final status says of the items.
abbrev pub Settles : List OrderItem → OrderStatus → Type 0
Settles items OrderStatus.delivered = count is_delivered items ≡ length items
Settles items OrderStatus.refunded = count is_refunded items ≡ length items
Settles items OrderStatus.partially_delivered =
    (0 < count is_delivered items)
    × (0 < count is_refunded items)
    × (count is_delivered items + count is_refunded items ≡ length items)
Settles items _ = ⊥

abbrev pub VerdictCases : List OrderItem → Option ℕ → Bool → Verdict → Type 0
VerdictCases items deferred unresolved (Verdict.requeue t) =
    (some_open items ≡ true) × (deferred ≡ some t) × (unresolved ≡ false)
VerdictCases items deferred unresolved park =
    (some_open items ≡ true) × ((deferred ≡ none) ⊎ (unresolved ≡ true))
VerdictCases items deferred unresolved (final s) = (some_open items ≡ false) × Settles items s

closed_one :
    (s : ItemStatus)
    → is_open s ≡ false
    → (if item_status_eq s ItemStatus.delivered then 1 else 0)
        + (if item_status_eq s ItemStatus.refunded then 1 else 0)
      ≡ 1
closed_one ItemStatus.pending h = cc
closed_one ItemStatus.delivered h = refl
closed_one ItemStatus.refunding h = cc
closed_one ItemStatus.refunded h = refl

closed_counts :
    (items : List OrderItem)
    → some_open items ≡ false
    → count is_delivered items + count is_refunded items ≡ length items
closed_counts [] h = refl
closed_counts (i ∷ items) h = ground (arith, closed_counts items, closed_one i.status)

final-Settles :
    (items : List OrderItem) → some_open items ≡ false → Settles items (final_status items)
final-Settles items closed =
    let counts = closed_counts items closed in
    elim (Bool-cases (count is_delivered items == length items)) [
      | inl all ↦ rw all ((==_iff _ _).0 all)
      | inr some_left ↦ elim (Bool-cases (count is_delivered items == 0)) [
        | inl nothing ↦ rw (some_left, nothing) (ground arith)
        | inr several ↦ rw (some_left, several) (ground arith, ground arith, counts)
      ]
    ]

requeue_or_park-cases :
    (items : List OrderItem) (deferred : Option ℕ) (unresolved : Bool)
    → some_open items ≡ true
    → VerdictCases items deferred unresolved (requeue_or_park deferred unresolved)
requeue_or_park-cases items none unresolved left_open = (left_open, inl refl)
requeue_or_park-cases items (some t) false left_open = (left_open, refl, refl)
requeue_or_park-cases items (some t) true left_open = (left_open, inr refl)

-- With an open item the order goes back to the queue if only a time to wait for is in the way, and is
-- parked otherwise; with none open it becomes final: delivered if every item is, refunded if every
-- item is, else partially delivered, where there are both and nothing else.
pub verdict-cases :
    (items : List OrderItem) (deferred : Option ℕ) (unresolved : Bool)
    → VerdictCases items deferred unresolved (verdict items deferred unresolved)
unfolding verdict
verdict-cases items deferred unresolved = elim (Bool-cases (some_open items)) [
  | inr closed ↦ rw closed (closed, final-Settles items closed)
  | inl still_open ↦ rw still_open (requeue_or_park-cases items deferred unresolved still_open)
]
