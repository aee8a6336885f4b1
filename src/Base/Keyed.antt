-- ===== src/Base/Keyed.antt =====
-- Tables with a key column: rows found, updated and added by key.
use Prim.Native.Nat.{ℕ, ◌+◌}
use mathlib.Core.Path.{◌≡◌, refl, subst}
use mathlib.Core.Logic.{◌≢◌, inl, inr}
use mathlib.Core.Bool.{Bool, true, false, ◌&&◌, ◌||◌}
use mathlib.Core.Option.{Option, none, some}
use mathlib.Core.List.{List, [], ◌∷◌, ◌++◌}
use native.Mathlib.Omega.{arith}
use hh_game_market_backend.Base.Tests.{if◌then◌else◌, ◌==◌, Bool-cases}
use hh_game_market_backend.Base.Lists.{find, any, All, count, filter, sum_where}

-- `UPDATE ... SET ... WHERE`
abbrev pub update_where {ℓ} : {A : Type ℓ} → (A → Bool) → (A → A) → List A → List A
update_where p f [] = []
update_where p f (x ∷ xs) = (if p x then f x else x) ∷ update_where p f xs

pub All-update_where {ℓ κ} :
    {A : Type ℓ} (P Q : A → Type κ) (p : A → Bool) (f : A → A) (xs : List A)
    → ((x : A) → p x ≡ true → P x → Q (f x))
    → ((x : A) → p x ≡ false → P x → Q x)
    → All P xs
    → All Q (update_where p f xs)
All-update_where P Q p f [] hit miss h = tt
All-update_where P Q p f (x ∷ xs) hit miss h =
    (ground (arith, hit x, miss x, h.0), All-update_where P Q p f xs hit miss h.1)

module _ {ℓ} {A : Type ℓ} (key : A → ℕ) where
  abbrev pub has : ℕ → List A → Bool
  has k xs = any (λ x. key x == k) xs

  abbrev pub find_by : ℕ → List A → Option A
  find_by k xs = find (λ x. key x == k) xs

  -- The key is a primary key: no two rows share it.
  abbrev pub Distinct : List A → Type 0
  Distinct [] = Unit
  Distinct (x ∷ xs) = (has (key x) xs ≡ false) × Distinct xs

  pub find_by-absent : (k : ℕ) (xs : List A) → has k xs ≡ false → find_by k xs ≡ none
  find_by-absent k [] h = refl
  find_by-absent k (x ∷ xs) h = ground (arith, find_by-absent k xs)

  pub find_by-key : (k : ℕ) (xs : List A) (x : A) → find_by k xs ≡ some x → key x ≡ k
  find_by-key k [] x h = cc
  find_by-key k (y ∷ xs) x h = ground (arith, find_by-key k xs x)

  pub has_of_find : (k : ℕ) (xs : List A) (x : A) → find_by k xs ≡ some x → has k xs ≡ true
  has_of_find k [] x h = cc
  has_of_find k (y ∷ xs) x h = ground (arith, has_of_find k xs x)

  pub All-find_by {κ} :
      (P : A → Type κ) (k : ℕ) (xs : List A) (x : A) → All P xs → find_by k xs ≡ some x → P x
  All-find_by P k [] x h e = cc
  All-find_by P k (y ∷ xs) x h e = elim (Bool-cases (key y == k)) [
    | inl hit ↦ let same : y ≡ x = ground arith in subst P same h.0
    | inr miss ↦ All-find_by P k xs x h.1 (rw miss at e)
  ]

  pub has-append : (k : ℕ) (xs ys : List A) → has k (xs ++ ys) ≡ (has k xs || has k ys)
  has-append k [] ys = refl
  has-append k (x ∷ xs) ys = ground (arith, has-append k xs ys)

  pub find_by-append :
      (k : ℕ) (xs ys : List A)
      → find_by k (xs ++ ys) ≡ (if has k xs then find_by k xs else find_by k ys)
  find_by-append k [] ys = refl
  find_by-append k (x ∷ xs) ys = ground (arith, find_by-append k xs ys)

  pub Distinct-snoc :
      (x : A) (xs : List A) → has (key x) xs ≡ false → Distinct xs → Distinct (xs ++ x ∷ [])
  Distinct-snoc x [] h d = (refl, tt)
  Distinct-snoc x (y ∷ xs) h d =
      (ground (arith, has-append (key y) xs (x ∷ [])), Distinct-snoc x xs (ground arith) d.1)

  module _ (g : A → Bool) (f : A → A) (keeps : (x : A) → key (f x) ≡ key x) (k : ℕ) where
    pub has-update :
        (j : ℕ) (xs : List A) → has j (update_where (λ x. key x == k && g x) f xs) ≡ has j xs
    has-update j [] = refl
    has-update j (x ∷ xs) = ground (arith, has-update j xs, keeps x)

    pub Distinct-update :
        (xs : List A) → Distinct xs → Distinct (update_where (λ x. key x == k && g x) f xs)
    Distinct-update [] d = tt
    Distinct-update (x ∷ xs) d =
        (ground (arith, has-update (key x) xs, keeps x), Distinct-update xs d.1)

    pub find_by-update :
        (j : ℕ) (xs : List A) (x : A)
        → find_by j xs ≡ some x
        → find_by j (update_where (λ x. key x == k && g x) f xs)
          ≡ some (if key x == k && g x then f x else x)
    find_by-update j [] x e = cc
    find_by-update j (y ∷ xs) x e = ground (arith, find_by-update j xs x, keeps y)

  module _ (g : A → Bool) (f : A → A) (k : ℕ) where
    pub update-absent :
        (xs : List A) → has k xs ≡ false → update_where (λ x. key x == k && g x) f xs ≡ xs
    update-absent [] h = refl
    update-absent (x ∷ xs) h = ground (arith, update-absent xs)

    pub count-absent : (xs : List A) → has k xs ≡ false → count (λ x. key x == k && g x) xs ≡ 0
    count-absent [] h = refl
    count-absent (x ∷ xs) h = ground (arith, count-absent xs)

    -- By primary key, at most one row is hit: the one that `find_by` finds, if it meets the guard.
    pub count_one :
        (xs : List A) (x : A)
        → Distinct xs
        → find_by k xs ≡ some x
        → count (λ y. key y == k && g y) xs ≡ (if g x then 1 else 0)
    count_one [] x d e = cc
    count_one (y ∷ xs) x d e = ground (arith, count-absent xs, count_one xs x d.1)

    pub update_miss :
        (xs : List A) (x : A)
        → Distinct xs
        → find_by k xs ≡ some x
        → g x ≡ false
        → update_where (λ y. key y == k && g y) f xs ≡ xs
    update_miss [] x d e m = cc
    update_miss (y ∷ xs) x d e m = ground (arith, update-absent xs, update_miss xs x d.1)

    -- The update of one row changes a sum by that row's contribution.
    pub sum_where-update :
        (q : A → Bool) (w : A → ℕ) (xs : List A) (x : A)
        → Distinct xs
        → find_by k xs ≡ some x
        → g x ≡ true
        → sum_where q w (update_where (λ y. key y == k && g y) f xs) + (if q x then w x else 0)
          ≡ sum_where q w xs + (if q (f x) then w (f x) else 0)
    sum_where-update q w [] x d e m = cc
    sum_where-update q w (y ∷ xs) x d e m =
        ground (arith, update-absent xs, sum_where-update q w xs x d.1)

  pub find_of_count :
      (g : A → Bool) (k : ℕ) (xs : List A)
      → count (λ x. key x == k && g x) xs ≢ 0
      → (x : A) × (find_by k xs ≡ some x)
  find_of_count g k [] h = absurd (h refl)
  find_of_count g k (x ∷ xs) h = go (find_of_count g k xs) (key x == k) refl
    where
      go :
          (count (λ x. key x == k && g x) xs ≢ 0 → (y : A) × (find_by k xs ≡ some y))
          → (b : Bool) → (key x == k) ≡ b
          → (y : A) × (find_by k (x ∷ xs) ≡ some y)
      go ih true e = (x, rw e)
      go ih false e = let r = ih (λ z. h (rw e z)) in (r.0, rw e r.1)

module _ {ℓ} {A : Type ℓ} (key : A → ℕ) (g : A → Bool) (k : ℕ) where
  pub filter-absent : (xs : List A) → has key k xs ≡ false → filter (λ x. key x == k && g x) xs ≡ []
  filter-absent [] h = refl
  filter-absent (x ∷ xs) h = ground (arith, filter-absent xs)

  -- By primary key, a filter keeps at most the row that `find_by` finds.
  pub filter_one :
      (xs : List A) (x : A)
      → Distinct key xs
      → find_by key k xs ≡ some x
      → filter (λ y. key y == k && g y) xs ≡ (if g x then x ∷ [] else [])
  filter_one [] x d e = cc
  filter_one (y ∷ xs) x d e = ground (arith, filter-absent xs, filter_one xs x d.1)

pub absent_of_none {ℓ} :
    {A : Type ℓ} (key : A → ℕ) (k : ℕ) (xs : List A)
    → find_by key k xs ≡ none
    → has key k xs ≡ false
absent_of_none key k [] h = refl
absent_of_none key k (x ∷ xs) h = ground (arith, absent_of_none key k xs)

-- The row found in a table after an update of its rows: the row found before, updated.
pub find_by-update_where {ℓ} :
    {A : Type ℓ} (key : A → ℕ) (p : A → Bool) (f : A → A)
    → ((x : A) → key (f x) ≡ key x)
    → (k : ℕ) (xs : List A) (y : A) → find_by key k (update_where p f xs) ≡ some y
    → (x : A) × (find_by key k xs ≡ some x) × (y ≡ (if p x then f x else x))
find_by-update_where key p f keeps k [] y h = cc
find_by-update_where key p f keeps k (x ∷ xs) y h = elim (Bool-cases (key x == k)) [
  | inl hit ↦ (x, rw hit, ground (arith, keeps x))
  | inr miss ↦
      let rest : find_by key k (update_where p f xs) ≡ some y = ground (arith, keeps x) in
      let r = find_by-update_where key p f keeps k xs y rest in (r.0, rw miss r.1, r.2)
]

pub has-update_where {ℓ} :
    {A : Type ℓ} (key : A → ℕ) (p : A → Bool) (f : A → A)
    → ((x : A) → key (f x) ≡ key x)
    → (k : ℕ) (xs : List A) → has key k (update_where p f xs) ≡ has key k xs
has-update_where key p f keeps k [] = refl
has-update_where key p f keeps k (x ∷ xs) =
    ground (arith, keeps x, has-update_where key p f keeps k xs)

pub Distinct-update_where {ℓ} :
    {A : Type ℓ} (key : A → ℕ) (p : A → Bool) (f : A → A)
    → ((x : A) → key (f x) ≡ key x)
    → (xs : List A) → Distinct key xs
    → Distinct key (update_where p f xs)
Distinct-update_where key p f keeps [] d = tt
Distinct-update_where key p f keeps (x ∷ xs) d = (
  ground (arith, keeps x, has-update_where key p f keeps (key x) xs),
  Distinct-update_where key p f keeps xs d.1,
)

-- And forwards.
pub find_by-updated {ℓ} :
    {A : Type ℓ} (key : A → ℕ) (p : A → Bool) (f : A → A)
    → ((x : A) → key (f x) ≡ key x)
    → (k : ℕ) (xs : List A) (x : A) → find_by key k xs ≡ some x
    → find_by key k (update_where p f xs) ≡ some (if p x then f x else x)
find_by-updated key p f keeps k [] x h = cc
find_by-updated key p f keeps k (y ∷ xs) x h =
    ground (arith, keeps y, find_by-updated key p f keeps k xs x)
