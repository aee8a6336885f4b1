-- ===== src/Catalog/Storefront/Sorted.antt =====
-- Lists in the strict order of a key: sorting, filtering and cutting them.
use hh_game_market_backend.Base.{
  ℕ, zero, suc, ◌+◌, ◌≤◌, ◌≡◌, Bool, true, false, ◌&&◌, List, [], ◌∷◌, ◌++◌, refl, arith, ap, sym,
  ◌∙◌, Bool-cases, inl, inr, ltb, leb, if◌then◌else◌, filter, length, take, All, insert_by, sort_by,
  ◌==◌,
}
use hh_game_market_backend.Base.Keyed.{has, Distinct}

module _ {A : Type 0} where
  abbrev pub drop : ℕ → List A → List A
  drop zero xs = xs
  drop (suc n) [] = []
  drop (suc n) (x ∷ xs) = drop n xs

  pub take-drop : (n : ℕ) (xs : List A) → take n xs ++ drop n xs ≡ xs
  take-drop zero xs = refl
  take-drop (suc n) [] = refl
  take-drop (suc n) (x ∷ xs) = ap (λ ys. x ∷ ys) (take-drop n xs)

  pub length-drop : (n : ℕ) (xs : List A) → n ≤ length xs → n + length (drop n xs) ≡ length xs
  length-drop zero xs h = omega arith
  length-drop (suc n) [] h = omega arith
  length-drop (suc n) (x ∷ xs) h = omega (arith, length-drop n xs (omega arith))

  pub take_whole : (n : ℕ) (xs : List A) → length xs ≤ n → take n xs ≡ xs
  take_whole zero [] h = refl
  take_whole zero (x ∷ xs) h = ground (arith, h)
  take_whole (suc n) [] h = refl
  take_whole (suc n) (x ∷ xs) h = ap (λ ys. x ∷ ys) (take_whole n xs (omega arith))

  pub take-take : (n : ℕ) (xs : List A) → take n (take (suc n) xs) ≡ take n xs
  take-take zero xs = refl
  take-take (suc n) [] = refl
  take-take (suc n) (x ∷ xs) = ap (λ ys. x ∷ ys) (take-take n xs)

  pub filter-filter :
      (p q : A → Bool) (xs : List A) → filter (λ x. p x && q x) xs ≡ filter p (filter q xs)
  filter-filter p q [] = refl
  filter-filter p q (x ∷ xs) = ground (arith, filter-filter p q xs)

  pub All-filter : (p : A → Bool) (xs : List A) → All (λ x. p x ≡ true) (filter p xs)
  All-filter p [] = tt
  All-filter p (x ∷ xs) = elim (Bool-cases (p x)) [
    | inl hit ↦ rw hit (hit, All-filter p xs)
    | inr miss ↦ rw miss (All-filter p xs)
  ]

  pub filter_all : (p : A → Bool) (xs : List A) → All (λ x. p x ≡ true) xs → filter p xs ≡ xs
  filter_all p [] h = refl
  filter_all p (x ∷ xs) h = rw (h.0, filter_all p xs h.1) refl

module _ {A : Type 0} (key : A → ℕ) where
  abbrev pub Above : ℕ → List A → Type 0
  Above k = All (λ y. ltb k (key y) ≡ true)

  abbrev pub Strict : List A → Type 0
  Strict [] = Unit
  Strict (x ∷ xs) = Above (key x) xs × Strict xs

  Above-filter : (k : ℕ) (p : A → Bool) (xs : List A) → Above k xs → Above k (filter p xs)
  Above-filter k p [] h = tt
  Above-filter k p (x ∷ xs) h = elim (Bool-cases (p x)) [
    | inl hit ↦ rw hit (h.0, Above-filter k p xs h.1)
    | inr miss ↦ rw miss (Above-filter k p xs h.1)
  ]

  Above-insert :
      (k : ℕ) (x : A) (xs : List A)
      → ltb k (key x) ≡ true
      → Above k xs
      → Above k (insert_by key x xs)
  unfolding insert_by
  Above-insert k x [] h hs = (h, tt)
  Above-insert k x (y ∷ ys) h hs = elim (Bool-cases (leb (key x) (key y))) [
    | inl before ↦ rw before (h, hs)
    | inr after ↦ rw after (hs.0, Above-insert k x ys h hs.1)
  ]

  Above-lower : (j k : ℕ) (xs : List A) → ltb j k ≡ true → Above k xs → Above j xs
  Above-lower j k [] h hs = tt
  Above-lower j k (x ∷ xs) h hs = (ground (arith, h, hs.0), Above-lower j k xs h hs.1)

  Strict-insert :
      (x : A) (xs : List A) → has key (key x) xs ≡ false → Strict xs → Strict (insert_by key x xs)
  unfolding insert_by
  Strict-insert x [] h s = (tt, tt)
  Strict-insert x (y ∷ ys) h s =
      let other : (key y == key x) ≡ false = ground (arith, h) in
      let rest : has key (key x) ys ≡ false = ground (arith, h) in
      elim (Bool-cases (leb (key x) (key y))) [
        | inl before ↦
            let lower : ltb (key x) (key y) ≡ true = ground (arith, before, other) in
            rw before ((lower, Above-lower (key x) (key y) ys lower s.0), s)
        | inr after ↦
            rw after
              (Above-insert (key y) x ys (ground (arith, after)) s.0, Strict-insert x ys rest s.1)
      ]

  has-insert : (k : ℕ) (x : A) (xs : List A) → has key k (insert_by key x xs) ≡ has key k (x ∷ xs)
  unfolding insert_by
  has-insert k x [] = refl
  has-insert k x (y ∷ ys) = ground (arith, has-insert k x ys)

  has-sort : (k : ℕ) (xs : List A) → has key k (sort_by key xs) ≡ has key k xs
  unfolding sort_by
  has-sort k [] = refl
  has-sort k (x ∷ xs) = ground (arith, has-insert k x (sort_by key xs), has-sort k xs)

  pub Strict-sort : (xs : List A) → Distinct key xs → Strict (sort_by key xs)
  unfolding sort_by
  Strict-sort [] d = tt
  Strict-sort (x ∷ xs) d =
      Strict-insert x (sort_by key xs) (has-sort (key x) xs ∙ d.0) (Strict-sort xs d.1)

  insert_front : (x : A) (xs : List A) → Above (key x) xs → insert_by key x xs ≡ x ∷ xs
  unfolding insert_by
  insert_front x [] h = refl
  insert_front x (y ∷ ys) h =
      let before : leb (key x) (key y) ≡ true = ground (arith, h.0) in rw before refl

  has-filter :
      (k : ℕ) (p : A → Bool) (xs : List A) → has key k xs ≡ false → has key k (filter p xs) ≡ false
  has-filter k p [] h = refl
  has-filter k p (x ∷ xs) h = ground (arith, has-filter k p xs)

  pub Distinct-filter : (p : A → Bool) (xs : List A) → Distinct key xs → Distinct key (filter p xs)
  Distinct-filter p [] d = tt
  Distinct-filter p (x ∷ xs) d = elim (Bool-cases (p x)) [
    | inl hit ↦ rw hit (has-filter (key x) p xs d.0, Distinct-filter p xs d.1)
    | inr miss ↦ rw miss (Distinct-filter p xs d.1)
  ]

  Strict-filter : (p : A → Bool) (xs : List A) → Strict xs → Strict (filter p xs)
  Strict-filter p [] s = tt
  Strict-filter p (x ∷ xs) s = elim (Bool-cases (p x)) [
    | inl hit ↦ rw hit (Above-filter (key x) p xs s.0, Strict-filter p xs s.1)
    | inr miss ↦ rw miss (Strict-filter p xs s.1)
  ]

  filter-insert :
      (p : A → Bool) (x : A) (xs : List A)
      → has key (key x) xs ≡ false
      → Strict xs
      → filter p (insert_by key x xs) ≡ (if p x then insert_by key x (filter p xs) else filter p xs)
  unfolding insert_by
  filter-insert p x [] h s = refl
  filter-insert p x (y ∷ ys) h s = elim (Bool-cases (leb (key x) (key y))) [
    | inl before ↦
        let other : (key y == key x) ≡ false = ground (arith, h) in
        let lower : ltb (key x) (key y) ≡ true = ground (arith, before, other) in
        let above : Above (key x) (filter p (y ∷ ys)) =
          Above-filter (key x) p (y ∷ ys) (lower, Above-lower (key x) (key y) ys lower s.0) in
        rw (before, insert_front x (filter p (y ∷ ys)) above) refl
    | inr after ↦
        let rest : has key (key x) ys ≡ false = ground (arith, h) in
        let ih = filter-insert p x ys rest s.1 in
        elim (Bool-cases (p y)) [
          | inl hit ↦ elim (Bool-cases (p x)) [
            | inl in_it ↦ rw (after, hit, in_it, rw in_it at ih, after) refl
            | inr out ↦ rw (after, hit, out, rw out at ih) refl
          ]
          | inr miss ↦ rw (after, miss, ih) refl
        ]
  ]

  pub sort-filter :
      (p : A → Bool) (xs : List A)
      → Distinct key xs
      → sort_by key (filter p xs) ≡ filter p (sort_by key xs)
  unfolding sort_by
  sort-filter p [] d = refl
  sort-filter p (x ∷ xs) d =
      let split =
        filter-insert p x (sort_by key xs) (has-sort (key x) xs ∙ d.0) (Strict-sort xs d.1) in
      let ih = sort-filter p xs d.1 in
      elim (Bool-cases (p x)) [
        | inl hit ↦ rw (hit, ih) (sym (rw hit at split))
        | inr miss ↦ rw (miss, ih) (sym (rw miss at split))
      ]
