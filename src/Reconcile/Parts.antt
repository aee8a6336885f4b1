-- ===== src/Reconcile/Parts.antt =====
-- What the items of several orders come to, order by order.
use hh_game_market_backend.Base.{
  ℕ, ◌+◌, ◌≡◌, refl, Bool, true, false, ◌&&◌, ◌||◌, none, some, List, [], ◌∷◌, arith, ◌∙◌, ap, ◌==◌,
  ==_iff, if◌then◌else◌, Bool-cases, inl, inr, sum_where,
}
use hh_game_market_backend.Base.Keyed.{has, find_by, find_by-absent}
use hh_game_market_backend.Base.Int.{ℤ, ◌+ℤ◌, sum_ℤ, int_laws}
use hh_game_market_backend.Model.{ItemStatus, is_paid, Order, OrderItem}
use hh_game_market_backend.Transition.Facts.{order_id}

sum_where-or {ℓ} :
    {A : Type ℓ} (p q r : A → Bool) (f : A → ℕ) (xs : List A)
    → ((x : A) → r x ≡ (p x || q x))
    → ((x : A) → (p x && q x) ≡ false)
    → sum_where r f xs ≡ sum_where p f xs + sum_where q f xs
sum_where-or p q r f [] split apart = refl
sum_where-or p q r f (x ∷ xs) split apart =
    ground (arith, sum_where-or p q r f xs split apart, split x, apart x)

pub sum_ℤ-or {ℓ} :
    {A : Type ℓ} (p q r : A → Bool) (f : A → ℤ) (xs : List A)
    → ((x : A) → r x ≡ (p x || q x))
    → ((x : A) → (p x && q x) ≡ false)
    → sum_ℤ r f xs ≡ sum_ℤ p f xs +ℤ sum_ℤ q f xs
sum_ℤ-or p q r f [] split apart = omega int_laws
sum_ℤ-or p q r f (x ∷ xs) split apart =
    let rest = sum_ℤ-or p q r f xs split apart in
    elim (Bool-cases (p x)) [
      | inl in_p ↦
          let out_q : q x ≡ false = ground (arith, apart x, in_p) in
          rw (rest, split x, in_p, out_q) (omega int_laws)
      | inr out_p ↦ elim (Bool-cases (q x)) [
        | inl in_q ↦ rw (rest, split x, out_p, in_q) (omega int_laws)
        | inr out_q ↦ rw (rest, split x, out_p, out_q) (omega int_laws)
      ]
    ]

-- Is the order of that id in the list, and paid for?
abbrev pub paid_in : List Order → ℕ → Bool
paid_in orders k = elim (find_by order_id k orders) [ none ↦ false | some o ↦ is_paid o.status ]

paid_in-absent :
    (orders : List Order) (k : ℕ) → has order_id k orders ≡ false → paid_in orders k ≡ false
paid_in-absent orders k h = rw (paid_in, find_by-absent order_id k orders h) refl

module _ (o : Order) (orders : List Order) (fresh : has order_id o.id orders ≡ false) where
  other_order : (k : ℕ) → (k == o.id) ≡ true → has order_id k orders ≡ false
  other_order k same = ap (λ j. has order_id j orders) ((==_iff k o.id).0 same) ∙ fresh

  pub apart_order : (k : ℕ) → ((k == o.id) && has order_id k orders) ≡ false
  apart_order k = elim (Bool-cases (k == o.id)) [
    | inr differs ↦ rw differs refl
    | inl same ↦ rw (same, other_order k same) refl
  ]

  paid_in-cons :
      (k : ℕ) → paid_in (o ∷ orders) k ≡ (if k == o.id then is_paid o.status else paid_in orders k)
  paid_in-cons k = elim (Bool-cases (k == o.id)) [
    | inl same ↦
        let here : (o.id == k) ≡ true = ground (arith, same) in rw (paid_in, here, same) refl
    | inr differs ↦
        let there : (o.id == k) ≡ false = ground (arith, differs) in
        rw (paid_in, there, differs) refl
  ]

  not_paid_in : (k : ℕ) → (k == o.id) ≡ true → paid_in orders k ≡ false
  not_paid_in k same = paid_in-absent orders k (other_order k same)

module _ (p : ItemStatus → Bool) (o : Order) (orders : List Order)
    (fresh : has order_id o.id orders ≡ false) where
  paid_split :
      is_paid o.status ≡ true
      → (i : OrderItem)
      → (paid_in (o ∷ orders) i.order_id && p i.status)
        ≡ (i.order_id == o.id && p i.status || paid_in orders i.order_id && p i.status)
  paid_split paid i = elim (Bool-cases (i.order_id == o.id)) [
    | inl same ↦
        rw
          (
            paid_in-cons o orders fresh i.order_id,
            same,
            paid,
            not_paid_in o orders fresh i.order_id same,
          )
          (or_false (p i.status))
    | inr differs ↦ rw (paid_in-cons o orders fresh i.order_id, differs) refl
  ]
    where
      or_false : (b : Bool) → b ≡ (b || false)
      or_false true = refl
      or_false false = refl

  paid_apart :
      (i : OrderItem)
      → ((i.order_id == o.id && p i.status) && (paid_in orders i.order_id && p i.status)) ≡ false
  paid_apart i = elim (Bool-cases (i.order_id == o.id)) [
    | inl same ↦ rw (same, not_paid_in o orders fresh i.order_id same) (and_false (p i.status))
    | inr differs ↦ rw differs refl
  ]
    where
      and_false : (b : Bool) → (b && false) ≡ false
      and_false true = refl
      and_false false = refl

  unpaid_in : is_paid o.status ≡ false → (k : ℕ) → paid_in (o ∷ orders) k ≡ paid_in orders k
  unpaid_in unpaid k = elim (Bool-cases (k == o.id)) [
    | inl same ↦
        rw (paid_in-cons o orders fresh k, same, unpaid, not_paid_in o orders fresh k same) refl
    | inr differs ↦ rw (paid_in-cons o orders fresh k, differs) refl
  ]

  unpaid_same :
      is_paid o.status ≡ false
      → (items : List OrderItem)
      → sum_where (λ i. paid_in (o ∷ orders) i.order_id && p i.status) (λ i. i.amount) items
        ≡ sum_where (λ i. paid_in orders i.order_id && p i.status) (λ i. i.amount) items
  unpaid_same unpaid [] = refl
  unpaid_same unpaid (i ∷ items) = rw (unpaid_in unpaid i.order_id, unpaid_same unpaid items) refl

module _ (items : List OrderItem) where
  abbrev pub paid_part : (ItemStatus → Bool) → List Order → ℕ
  paid_part p orders =
      sum_where (λ i. paid_in orders i.order_id && p i.status) (λ i. i.amount) items

  abbrev pub part : (ItemStatus → Bool) → ℕ → ℕ
  part p k = sum_where (λ i. i.order_id == k && p i.status) (λ i. i.amount) items

  abbrev pub whole_part : (ItemStatus → Bool) → List Order → ℕ
  whole_part p orders =
      sum_where (λ i. has order_id i.order_id orders && p i.status) (λ i. i.amount) items

  pub whole_part-cons :
      (p : ItemStatus → Bool) (o : Order) (orders : List Order)
      → has order_id o.id orders ≡ false
      → whole_part p (o ∷ orders) ≡ part p o.id + whole_part p orders
  whole_part-cons p o orders fresh =
      sum_where-or (λ i. i.order_id == o.id && p i.status)
        (λ i. has order_id i.order_id orders && p i.status)
        (λ i. has order_id i.order_id (o ∷ orders) && p i.status) (λ i. i.amount) items
        (λ i. ground arith) (λ i. ground (arith, apart_order o orders fresh i.order_id))

  pub paid_part-cons :
      (p : ItemStatus → Bool) (o : Order) (orders : List Order)
      → has order_id o.id orders ≡ false
      → paid_part p (o ∷ orders)
        ≡ (if is_paid o.status then part p o.id else 0) + paid_part p orders
  paid_part-cons p o orders fresh = elim (Bool-cases (is_paid o.status)) [
    | inl paid ↦ rw paid (
        sum_where-or (λ i. i.order_id == o.id && p i.status)
          (λ i. paid_in orders i.order_id && p i.status)
          (λ i. paid_in (o ∷ orders) i.order_id && p i.status) (λ i. i.amount) items
          (λ i. paid_split p o orders fresh paid i) (λ i. paid_apart p o orders fresh i))
    | inr unpaid ↦ rw unpaid (omega (arith, unpaid_same p o orders fresh unpaid items))
  ]
