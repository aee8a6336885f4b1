-- ===== src/Stubs/Payment/Once.antt =====
-- A refund is paid out once.
use hh_game_market_backend.Base.{
  ℕ, ◌≡◌, true, refl, ap, subst, List, Bool-cases, inl, inr, ltb, [], ◌∷◌, ==_refl, sym,
}
use hh_game_market_backend.Base.Keyed.{has, has-append}
use hh_game_market_backend.Stubs.Payment.{PspRefund, Psp, paid_back, refund_id, or_ignore, refund}

has-or_ignore :
    (row : PspRefund) (rows : List PspRefund)
    → has refund_id row.refund_id (or_ignore row rows) ≡ true
has-or_ignore row rows = elim (Bool-cases (has refund_id row.refund_id rows)) [
  | inl old ↦ rw old old
  | inr new ↦
      rw (new, has-append refund_id row.refund_id rows (row ∷ []), new, ==_refl row.refund_id) refl
]

or_ignore-known :
    (row : PspRefund) (rows : List PspRefund)
    → has refund_id row.refund_id rows ≡ true
    → or_ignore row rows ≡ rows
or_ignore-known row rows old = rw old refl

-- When a refund has been acknowledged, asking for it again, under the same id and with any amount,
-- changes nothing.
pub refund-refund :
    (draw draw' : ℕ) (row row' : PspRefund) (psp : Psp)
    → (refund draw row psp).0 ≡ paid_back row.refund_id
    → row'.refund_id ≡ row.refund_id
    → (refund draw' row' (refund draw row psp).1).1 ≡ (refund draw row psp).1
unfolding refund
refund-refund draw draw' row row' psp done same = elim (Bool-cases (ltb draw psp.error_rate)) [
  | inl fails ↦ let clash = rw fails at done in cc
  | inr works ↦ elim (Bool-cases (ltb draw' psp.error_rate)) [
    | inl fails ↦ rw (works, fails) refl
    | inr again ↦
        let known : has refund_id row'.refund_id (or_ignore row psp.refunds) ≡ true =
          subst (λ k. has refund_id k (or_ignore row psp.refunds) ≡ true) (sym same)
            (has-or_ignore row psp.refunds) in
        rw (works, again)
          (ap (λ rows. record psp { refunds = rows })
            (or_ignore-known row' (or_ignore row psp.refunds) known))
  ]
]
