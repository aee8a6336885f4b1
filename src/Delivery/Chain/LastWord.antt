-- ===== src/Delivery/Chain/LastWord.antt =====
-- Which suppliers `supplierChain` of backend/src/delivery/delivery.service.ts flags: those whose last
-- word for the item left open whether they hold a code for it.
use hh_game_market_backend.Base.{
  ℕ, ◌≡◌, refl, Bool, true, false, not, ◌&&◌, ◌||◌, inl, inr, Option, none, some, List, [], ◌∷◌,
  ◌∙◌, map, arith, Bool-cases, any, any-append, includes, includes, ◌==◌, if◌then◌else◌,
}
use hh_game_market_backend.Model.{AttemptOutcome, OrderItem, DeliveryAttempt, Db}
use hh_game_market_backend.Delivery.Chain.{
  Link, opens, closes, set_add, set_delete, note_attempt, open_suppliers, chain_of, attempts_for,
  supplier_chain,
}

abbrev pub decides : AttemptOutcome → Bool
decides o = opens o || closes o

-- The last decisive outcome of a supplier, if there is one.
abbrev pub last_word : ℕ → List DeliveryAttempt → Option AttemptOutcome
last_word s [] = none
last_word s (a ∷ rest) = elim (last_word s rest) [
  | some o ↦ some o
  | none ↦ if a.supplier == s && decides a.outcome then some a.outcome else none
]

abbrev pub opens_or : Bool → Option AttemptOutcome → Bool
opens_or b none = b
opens_or b (some o) = opens o

abbrev pub left_open : Option AttemptOutcome → Bool
left_open = opens_or false

includes-delete :
    (s t : ℕ) (xs : List ℕ) → includes (set_delete xs t) s ≡ (not (t == s) && includes xs s)
includes-delete s t [] = ground arith
includes-delete s t (x ∷ xs) = ground (arith, includes-delete s t xs)

covers : (s t : ℕ) (xs : List ℕ) → includes xs t ≡ true → includes xs s ≡ (t == s || includes xs s)
covers s t [] h = cc
covers s t (x ∷ xs) h = ground (arith, covers s t xs)

includes-add : (s t : ℕ) (xs : List ℕ) → includes (set_add xs t) s ≡ (t == s || includes xs s)
includes-add s t xs = elim (Bool-cases (includes xs t)) [
  | inl old ↦ rw old (covers s t xs old)
  | inr new ↦ rw new (ground (arith, any-append (λ x. x == s) xs (t ∷ [])))
]

includes-note :
    (s t : ℕ) (o : AttemptOutcome) (xs : List ℕ)
    → includes (note_attempt xs t o) s
      ≡ opens_or (includes xs s) (if t == s && decides o then some o else none)
includes-note s t o xs = ground (arith, includes-add s t xs, includes-delete s t xs)

opens_or-later :
    {b : Bool} (d : Bool) (x w : Option AttemptOutcome)
    → b ≡ opens_or d x
    → opens_or b w ≡ opens_or d (elim w [ some o ↦ some o | none ↦ x ])
opens_or-later d x none e = e
opens_or-later d x (some o) e = refl

includes-open :
    (s : ℕ) (attempts : List DeliveryAttempt) (xs : List ℕ)
    → includes (open_suppliers xs attempts) s ≡ opens_or (includes xs s) (last_word s attempts)
unfolding open_suppliers
includes-open s [] xs = refl
includes-open s (a ∷ rest) xs =
    let here = if a.supplier == s && decides a.outcome then some a.outcome else none in
    includes-open s rest (note_attempt xs a.supplier a.outcome)
    ∙ opens_or-later (includes xs s) here (last_word s rest)
        (includes-note s a.supplier a.outcome xs)

abbrev pub flags : ℕ → Link → Bool
flags s l = l.supplier == s && l.ambiguous

flags-open :
    (s : ℕ) (xs : List ℕ)
    → any (flags s) (map (λ t. record { supplier = t; ambiguous = true }) xs) ≡ includes xs s
flags-open s [] = refl
flags-open s (x ∷ xs) = ground (arith, flags-open s xs)

flags-rest :
    (s : ℕ) (xs : List ℕ)
    → any (flags s) (map (λ t. record { supplier = t; ambiguous = false }) xs) ≡ false
flags-rest s [] = refl
flags-rest s (x ∷ xs) = ground (arith, flags-rest s xs)

-- The chain flags a supplier as one that may hold a code for the item exactly if its last decisive
-- outcome for that item was a timeout or an error.
pub flags-supplier_chain :
    (suppliers : List ℕ) (item : OrderItem) (db : Db) (s : ℕ)
    → any (flags s) (supplier_chain suppliers item db)
      ≡ left_open (last_word s (attempts_for item.id db))
unfolding supplier_chain chain_of
flags-supplier_chain suppliers item db s =
    let opened = open_suppliers [] (attempts_for item.id db) in
    any-append (flags s) (map (λ t. record { supplier = t; ambiguous = true }) opened) _
    ∙ (rw (flags-open s opened, flags-rest s _)
        (ground (arith, includes-open s (attempts_for item.id db) [])))
