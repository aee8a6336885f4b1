-- ===== src/Queue/Next.antt =====
-- Which order `claim` of backend/src/delivery/delivery.worker.ts takes: of the rows that may be
-- claimed, one that was paid first.
use hh_game_market_backend.Base.{
  ℕ, ◌≡◌, refl, sym, subst, true, false, ◌&&◌, inl, inr, Option, none, some, List, [], ◌∷◌, arith,
  Bool-cases, All,
}
use hh_game_market_backend.Model.{Order}
use hh_game_market_backend.Queue.{claimable, paid_before, earlier_of, next_order}
use mathlib.Core.List.{Memᴰ}

-- Nobody in the list who may be claimed is paid before `o`.
abbrev pub IsFirst : ℕ → Order → List Order → Type 0
IsFirst now o os = All (λ p. (claimable now p && paid_before p.paid_at o.paid_at) ≡ false) os

abbrev pub NextCases : ℕ → List Order → Option Order → Type 0
NextCases now os none = All (λ p. claimable now p ≡ false) os
NextCases now os (some o) = Memᴰ o os × (claimable now o ≡ true) × IsFirst now o os

paid_before-same : (s : Option ℕ) → paid_before s s ≡ false
paid_before-same none = refl
paid_before-same (some s) = ground arith

paid_before-swap : (s t : Option ℕ) → paid_before s t ≡ true → paid_before t s ≡ false
paid_before-swap none none h = refl
paid_before-swap none (some t) h = cc
paid_before-swap (some s) none h = refl
paid_before-swap (some s) (some t) h = ground arith

paid_before-chain :
    (s t u : Option ℕ) → paid_before s t ≡ false → paid_before t u ≡ false → paid_before s u ≡ false
paid_before-chain none t none h k = refl
paid_before-chain none t (some u) h k = refl
paid_before-chain (some s) none u h k = cc
paid_before-chain (some s) (some t) none h k = cc
paid_before-chain (some s) (some t) (some u) h k = ground arith

IsFirst-of_none : (now : ℕ) (o : Order) (os : List Order) → NextCases now os none → IsFirst now o os
IsFirst-of_none now o [] h = tt
IsFirst-of_none now o (p ∷ os) h = (rw (h.0) refl, IsFirst-of_none now o os h.1)

IsFirst-of_IsFirst :
    (now : ℕ) (o p : Order) (os : List Order)
    → paid_before p.paid_at o.paid_at ≡ false
    → IsFirst now p os
    → IsFirst now o os
IsFirst-of_IsFirst now o p [] later h = tt
IsFirst-of_IsFirst now o p (q ∷ os) later h = (here, IsFirst-of_IsFirst now o p os later h.1)
  where
    here : (claimable now q && paid_before q.paid_at o.paid_at) ≡ false
    here = elim (Bool-cases (claimable now q)) [
      | inr unready ↦ rw unready refl
      | inl ready ↦
          rw ready (paid_before-chain q.paid_at p.paid_at o.paid_at (rw ready at h.0) later)
    ]

take_first :
    (now : ℕ) (o : Order) (os : List Order) (rest : Option Order)
    → claimable now o ≡ true
    → NextCases now os rest
    → NextCases now (o ∷ os) (some (earlier_of o rest))
take_first now o os none ready h =
    (Memᴰ.head refl, ready, (rw ready (paid_before-same o.paid_at), IsFirst-of_none now o os h))
take_first now o os (some p) ready (held, due, first) =
    elim (Bool-cases (paid_before p.paid_at o.paid_at)) [
      | inl sooner ↦
          let same : earlier_of o (some p) ≡ p = rw sooner refl in
          subst (λ r. NextCases now (o ∷ os) (some r)) (sym same)
            (Memᴰ.tail held, due, (rw ready (paid_before-swap p.paid_at o.paid_at sooner), first))
      | inr later ↦
          let same : earlier_of o (some p) ≡ o = rw later refl in
          subst (λ r. NextCases now (o ∷ os) (some r)) (sym same)
            (
              Memᴰ.head refl,
              ready,
              (rw ready (paid_before-same o.paid_at), IsFirst-of_IsFirst now o p os later first),
            )
    ]

skip_first :
    (now : ℕ) (o : Order) (os : List Order) (rest : Option Order)
    → claimable now o ≡ false
    → NextCases now os rest
    → NextCases now (o ∷ os) rest
skip_first now o os none unready h = (unready, h)
skip_first now o os (some p) unready (held, due, first) =
    (Memᴰ.tail held, due, (rw unready refl, first))

-- The query of `claim` finds nothing only if no order is paid and due; what it finds is in the table,
-- is paid and due, and no such order was paid before it.
pub next_order-cases : (now : ℕ) (os : List Order) → NextCases now os (next_order now os)
unfolding next_order
next_order-cases now [] = tt
next_order-cases now (o ∷ os) = elim (Bool-cases (claimable now o)) [
  | inl ready ↦ rw ready (take_first now o os (next_order now os) ready (next_order-cases now os))
  | inr unready ↦
      rw unready (skip_first now o os (next_order now os) unready (next_order-cases now os))
]
