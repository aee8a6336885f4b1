-- ===== src/Stubs/Supplier/Again.antt =====
-- One code under one request_id, whatever is asked in between.
use hh_game_market_backend.Base.{
  ℕ, ◌≡◌, Bool, true, false, ◌&&◌, not, Option, none, some, List, [], ◌∷◌, ◌++◌, refl, ap, sym, ◌∙◌,
  subst, arith, Bool-cases, Option-cases, inl, inr, find, ltb, includes,
}
use hh_game_market_backend.Model.{RequestId, request_eq_refl, SupplierIssue}
use hh_game_market_backend.Stubs.Supplier.{
  StubConfig, StubConfigDto, Stub, StubIssueResult, booked, error, Chance, is_request, booking,
  is_free, reserve_free_key, duplicate_code, take_code, book, reserve, answered, issue_admitted,
  admit, issue, set_config, reset_stats, restock,
}

-- What is asked of the suppliers, by anyone.
pub data Call : Type 0 where
  issues : Chance → (supplier : ℕ) → RequestId → (order_id sku : ℕ) → Call
  statement : (app_now supplier : ℕ) → Call
  configures : (supplier : ℕ) → StubConfigDto → Call
  restocks : (supplier : ℕ) → List ℕ → Call

unfoldable pub after : Call → Stub → Stub
unfolding issue admit set_config restock
after (issues chance supplier r order_id sku) s = (issue chance supplier r order_id sku s).1
after (statement app_now supplier) s = (admit app_now supplier s).1
after (configures supplier patch) s = set_config supplier patch s
after (restocks supplier codes) s = restock supplier codes s

unfoldable pub after_all : List Call → Stub → Stub
unfolding after
after_all [] s = s
after_all (c ∷ cs) s = after_all cs (after c s)

module _ (r : RequestId) where
  find-kept :
      (xs ys : List SupplierIssue) (k : SupplierIssue)
      → find (is_request r) xs ≡ some k
      → find (is_request r) (xs ++ ys) ≡ some k
  find-kept [] ys k h = cc
  find-kept (x ∷ xs) ys k h = ground (arith, find-kept xs ys k)

  find-new :
      (xs : List SupplierIssue) (k : SupplierIssue)
      → find (is_request r) xs ≡ none
      → k.request_id ≡ r
      → find (is_request r) (xs ++ k ∷ []) ≡ some k
  find-new [] k h same = rw (same, request_eq_refl r) refl
  find-new (x ∷ xs) k h same = ground (arith, find-new xs k)

  module _ (chance : Chance) (supplier : ℕ) (q : RequestId) (order_id sku : ℕ) where
    reserve_free_key-issues :
        (s : Stub) → (reserve_free_key chance supplier q order_id sku s).1.issues ≡ s.issues
    unfolding reserve_free_key
    reserve_free_key-issues s =
        elim (Option-cases (find (λ k. is_free supplier k && not (chance.locked k.code)) s.keys)) [
          | inl gone ↦ rw (reserve_free_key, gone) refl
          | inr (row, found) ↦ rw (reserve_free_key, found) refl
        ]

    take_code-issues :
        (s : Stub) (c : Option ℕ)
        → (take_code chance supplier q order_id sku s c).1.issues ≡ s.issues
    take_code-issues s none = reserve_free_key-issues s
    take_code-issues s (some c) = refl

    book-booking :
        (k : SupplierIssue) (res : Option ℕ × Stub)
        → booking r res.1 ≡ some k
        → booking r (book supplier q order_id sku res).1 ≡ some k
    book-booking k (none, s) h = h
    book-booking k (some c, s) h = find-kept s.issues _ k h

    reserve-booking :
        (k : SupplierIssue) (s : Stub)
        → booking r s ≡ some k
        → booking r (reserve chance supplier q order_id sku s).1 ≡ some k
    unfolding reserve
    reserve-booking k s h = elim (Option-cases (booking q s)) [
      | inr (old, found) ↦ rw (reserve, found) h
      | inl new ↦
          let code = duplicate_code chance supplier s in
          rw (reserve, new)
            (book-booking k (take_code chance supplier q order_id sku s code)
              (ap (find (is_request r)) (take_code-issues s code) ∙ h))
    ]

    answered-same :
        (config : StubConfig) (res : StubIssueResult × Stub)
        → (answered chance config supplier res).1 ≡ res.1
    answered-same config (error e, s) = refl
    answered-same config (booked p c, s) =
        elim (Bool-cases (ltb chance.errs_after config.error_after_issue_rate)) [
          | inl fails ↦ rw fails refl
          | inr works ↦ rw works refl
        ]

    issue_admitted-booking :
        (config : StubConfig) (k : SupplierIssue) (res : Bool × Stub)
        → booking r res.1 ≡ some k
        → booking r (issue_admitted chance config supplier q order_id sku res).1 ≡ some k
    issue_admitted-booking config k (false, s) h = h
    issue_admitted-booking config k (true, s) h =
        elim (Bool-cases (ltb chance.errs config.error_rate)) [
          | inl fails ↦ rw fails h
          | inr works ↦ elim (Bool-cases (includes config.unavailable_skus sku)) [
            | inl out ↦ rw (works, out) h
            | inr has_it ↦
                rw (works, has_it)
                  (subst (λ t. booking r t ≡ some k)
                    (sym (answered-same config (reserve chance supplier q order_id sku s)))
                    (reserve-booking k s h))
          ]
        ]

  after-booking :
      (c : Call) (k : SupplierIssue) (s : Stub)
      → booking r s ≡ some k
      → booking r (after c s) ≡ some k
  unfolding after issue admit set_config reset_stats restock
  after-booking (issues chance supplier q order_id sku) k s h =
      issue_admitted-booking chance supplier q order_id sku (s.configs supplier) k
        (admit chance.app_now supplier s) h
  after-booking (statement app_now supplier) k s h = h
  after-booking (configures supplier patch) k s h = h
  after-booking (restocks supplier codes) k s h = h

  after_all-booking :
      (cs : List Call) (k : SupplierIssue) (s : Stub)
      → booking r s ≡ some k
      → booking r (after_all cs s) ≡ some k
  unfolding after_all
  after_all-booking [] k s h = h
  after_all-booking (c ∷ cs) k s h = after_all-booking cs k (after c s) (after-booking c k s h)

  booked_as :
      (supplier order_id sku code : ℕ) (res : Option ℕ × Stub)
      → booking r res.1 ≡ none
      → (book supplier r order_id sku res).0 ≡ booked r code
      → (k : SupplierIssue) × (booking r (book supplier r order_id sku res).1 ≡ some k)
        × (k.code ≡ code)
  booked_as supplier order_id sku code (none, s) h done = cc
  booked_as supplier order_id sku code (some c, s) h done = (_, find-new s.issues _ h refl, cc)

  -- An answer with a code is written in the book.
  reserve-books :
      (chance : Chance) (supplier order_id sku code : ℕ) (s : Stub)
      → (reserve chance supplier r order_id sku s).0 ≡ booked r code
      → (k : SupplierIssue) × (booking r (reserve chance supplier r order_id sku s).1 ≡ some k)
        × (k.code ≡ code)
  unfolding reserve
  reserve-books chance supplier order_id sku code s done = elim (Option-cases (booking r s)) [
    | inr (old, found) ↦
        let same = rw (reserve, found) at done in (old, rw (reserve, found) found, cc)
    | inl new ↦
        let c = duplicate_code chance supplier s in
        rw (reserve, new)
          (booked_as supplier order_id sku code (take_code chance supplier r order_id sku s c)
            (ap (find (is_request r)) (take_code-issues chance supplier r order_id sku s c) ∙ new)
            (rw (reserve, new) at done))
  ]

  -- Once a code is booked under a request_id, every later reservation under that request_id, from any
  -- supplier and for any order and product, answers with the same code and writes nothing, whatever
  -- was asked of the suppliers in between and whatever chance decided.
  pub reserve-reserve :
      (chance chance' : Chance) (supplier supplier' order_id order_id' sku sku' code : ℕ)
      (cs : List Call) (s : Stub)
      → (reserve chance supplier r order_id sku s).0 ≡ booked r code
      → let later = after_all cs (reserve chance supplier r order_id sku s).1 in
        reserve chance' supplier' r order_id' sku' later ≡ (booked r code, later)
  unfolding reserve
  reserve-reserve chance chance' supplier supplier' order_id order_id' sku sku' code cs s done =
      let (k, found, same) = reserve-books chance supplier order_id sku code s done in
      let still = after_all-booking cs k (reserve chance supplier r order_id sku s).1 found in
      rw (reserve, still, same) refl
