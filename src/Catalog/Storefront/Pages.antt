-- ===== src/Catalog/Storefront/Pages.antt =====
-- The pages of the storefront, one after the other, are the whole listing.
use mathlib.Core.List.{append-nil, map-append}
use hh_game_market_backend.Base.{
  ℕ, zero, suc, ◌+◌, ◌≤◌, ◌<◌, ◌≡◌, ◌≢◌, true, false, ◌&&◌, Option, none, some, List, [], ◌∷◌, ◌++◌,
  map, refl, arith, ap, sym, subst, ◌∙◌, Bool-cases, inl, inr, ltb, filter, length, take, All,
  sort_by, length-take,
}
use hh_game_market_backend.Base.Keyed.{Distinct}
use hh_game_market_backend.Model.{Product, Db}
use hh_game_market_backend.Orders.{sku_of}
use hh_game_market_backend.Catalog.Storefront.{
  StorefrontQueryDto, StorefrontItem, Page, past, listed, listing, item_of, last, storefront,
  follow,
}
use hh_game_market_backend.Catalog.Storefront.Sorted.{
  drop, take-drop, length-drop, take_whole, take-take, filter-filter, All-filter, filter_all,
  Strict, Strict-sort, Distinct-filter, sort-filter,
}

All-take : (P : Product → Type 0) (n : ℕ) (xs : List Product) → All P xs → All P (take n xs)
All-take P zero xs h = tt
All-take P (suc n) [] h = tt
All-take P (suc n) (x ∷ xs) h = (h.0, All-take P n xs h.1)

All-last :
    (P : Product → Type 0) (xs : List Product) (z : Product) → All P xs → last xs ≡ some z → P z
unfolding last
All-last P [] z h e = cc
All-last P (x ∷ []) z h e = let same : x ≡ z = cc in subst P same h.0
All-last P (x ∷ y ∷ ys) z h e = All-last P (y ∷ ys) z h.1 e

-- The last of a page that is not empty, and what lies past it.
last-take :
    (n : ℕ) (xs : List Product)
    → Strict sku_of xs
    → suc n ≤ length xs
    → (z : Product) × (last (take (suc n) xs) ≡ some z)
      × (filter (past (some z.sku)) xs ≡ drop (suc n) xs)
unfolding last
last-take n [] s h = absurd (omega (arith, h))
last-take zero (x ∷ xs) s h =
    let here : ltb x.sku x.sku ≡ false = ground arith in
    (x, refl, rw here (filter_all (past (some x.sku)) xs s.0))
last-take (suc n) (x ∷ []) s h = absurd (omega (arith, h))
last-take (suc n) (x ∷ y ∷ ys) s h =
    let (z, at_z, rest) = last-take n (y ∷ ys) s.1 (omega (arith, h)) in
    let above : ltb x.sku z.sku ≡ true =
      All-last (λ p. ltb x.sku p.sku ≡ true) (take (suc n) (y ∷ ys)) z
        (All-take (λ p. ltb x.sku p.sku ≡ true) (suc n) (y ∷ ys) s.0) at_z in
    let below : ltb z.sku x.sku ≡ false = ground (arith, above) in (z, at_z, rw below rest)

listing-past :
    (kind : Option ℕ) (c : Option ℕ) (db : Db)
    → Distinct sku_of db.products
    → listing kind c db ≡ filter (past c) (listing kind none db)
unfolding listing
listing-past kind c db d =
    ap (sort_by sku_of) (filter-filter (past c) (listed db kind) db.products)
    ∙ sort-filter sku_of (past c) (filter (listed db kind) db.products)
        (Distinct-filter sku_of (listed db kind) db.products d)

past-past :
    (c : Option ℕ) (z : Product) (xs : List Product)
    → past c z ≡ true
    → filter (past (some z.sku)) (filter (past c) xs) ≡ filter (past (some z.sku)) xs
past-past c z [] h = refl
past-past none z (x ∷ xs) h = rw (past-past none z xs h) refl
past-past (some c) z (x ∷ xs) h = ground (arith, past-past (some c) z xs h, h)

module _ (db : Db) (distinct : Distinct sku_of db.products) where
  listing-Strict : (kind c : Option ℕ) → Strict sku_of (listing kind c db)
  unfolding listing
  listing-Strict kind c =
      Strict-sort sku_of (filter (λ p. past c p && listed db kind p) db.products)
        (Distinct-filter sku_of (λ p. past c p && listed db kind p) db.products distinct)

  -- From the last of a page, the listing goes on where the page ends.
  listing_next :
      (kind c : Option ℕ) (n : ℕ)
      → suc n ≤ length (listing kind c db)
      → (z : Product) × (last (take (suc n) (listing kind c db)) ≡ some z)
        × (listing kind (some z.sku) db ≡ drop (suc n) (listing kind c db))
  listing_next kind c n h =
      let all = listing kind none db in
      let here = listing-past kind c db distinct in
      let (z, at_z, rest) = last-take n (listing kind c db) (listing-Strict kind c) h in
      let all_past : All (λ p. past c p ≡ true) (listing kind c db) =
        subst (All (λ p. past c p ≡ true)) (sym here) (All-filter (past c) all) in
      let z_past : past c z ≡ true =
        All-last (λ p. past c p ≡ true) (take (suc n) (listing kind c db)) z
          (All-take (λ p. past c p ≡ true) (suc n) (listing kind c db) all_past) at_z in
      (
        z,
        at_z,
        listing-past kind (some z.sku) db distinct
            ∙ sym (past-past c z all z_past)
            ∙ ap (filter (past (some z.sku))) (sym here)
            ∙ rest,
      )

  module _ (kind c : Option ℕ) (n : ℕ) where
    abbrev query : StorefrontQueryDto
    query = record { kind = kind; cursor = c; limit = suc n }

    abbrev all_rows : List Product
    all_rows = listing kind c db

    shown_rows : take (suc n) (take (suc n + 1) all_rows) ≡ take (suc n) all_rows
    shown_rows =
        let next_one : suc n + 1 ≡ suc (suc n) = omega arith in
        ap (λ m. take (suc n) (take m all_rows)) next_one ∙ take-take (suc n) all_rows

    page_whole :
        length all_rows ≤ suc n
        → storefront query db ≡ record { items = map (item_of db) all_rows; next_cursor = none }
    unfolding storefront
    page_whole h =
        let over : ltb (suc n) (length (take (suc n + 1) all_rows)) ≡ false =
          ground (arith, length-take (suc n + 1) all_rows, h) in
        rw (over, shown_rows, take_whole (suc n) all_rows h) refl

    page_cut :
        (z : Product)
        → suc n < length all_rows
        → last (take (suc n) all_rows) ≡ some z
        → storefront query db
          ≡ record { items = map (item_of db) (take (suc n) all_rows); next_cursor = some z.sku }
    unfolding storefront
    page_cut z h at_z =
        let more : ltb (suc n) (length (take (suc n + 1) all_rows)) ≡ true =
          ground (arith, length-take (suc n + 1) all_rows, h) in
        rw (more, shown_rows, at_z) refl

  abbrev go_on : ℕ → StorefrontQueryDto → Page → List StorefrontItem
  go_on fuel q page = page.items ++ elim page.next_cursor [
    | none ↦ []
    | some c ↦ follow fuel (record q { cursor = some c }) db
  ]

  follow_whole :
      (fuel n : ℕ) (kind c : Option ℕ)
      → length (listing kind c db) ≤ suc n
      → follow (suc fuel) (record { kind = kind; cursor = c; limit = suc n }) db
        ≡ map (item_of db) (listing kind c db)
  unfolding follow
  follow_whole fuel n kind c h =
      ap (go_on fuel (query kind c n)) (page_whole kind c n h)
      ∙ append-nil (map (item_of db) (listing kind c db))

  follow_cut :
      (fuel n : ℕ) (kind c : Option ℕ) (z : Product)
      → storefront (query kind c n) db ≡ record {
        items = map (item_of db) (take (suc n) (listing kind c db));
        next_cursor = some z.sku;
      }
      → follow (suc (suc fuel)) (query kind c n) db
        ≡ map (item_of db) (take (suc n) (listing kind c db))
          ++ follow (suc fuel) (query kind (some z.sku) n) db
  unfolding follow
  follow_cut fuel n kind c z page = ap (go_on (suc fuel) (query kind c n)) page

  follow_rest :
      (fuel n : ℕ) (kind c : Option ℕ)
      → length (listing kind c db) ≤ fuel
      → follow (suc fuel) (record { kind = kind; cursor = c; limit = suc n }) db
        ≡ map (item_of db) (listing kind c db)
  follow_rest zero n kind c enough = follow_whole zero n kind c (omega (arith, enough))
  follow_rest (suc fuel) n kind c enough =
      elim (Bool-cases (ltb (suc n) (length (listing kind c db)))) [
        | inr whole ↦ follow_whole (suc fuel) n kind c (ground (arith, whole))
        | inl more ↦
            let rows = listing kind c db in
            let cut : suc n < length rows = ground (arith, more) in
            let (z, at_z, on) = listing_next kind c n (omega (arith, cut)) in
            let fewer = length-drop (suc n) rows (omega (arith, cut)) in
            let rest =
              follow_rest fuel n kind (some z.sku)
                (omega (arith, enough, fewer, ap (λ (ps : List Product). length ps) on)) in
            follow_cut fuel n kind c z (page_cut kind c n z cut at_z)
            ∙ ap (λ items. map (item_of db) (take (suc n) rows) ++ items)
                (rest ∙ ap (map (item_of db)) on)
            ∙ sym (map-append (item_of db) (take (suc n) rows) (drop (suc n) rows))
            ∙ ap (map (item_of db)) (take-drop (suc n) rows)
      ]

-- A client that asks for the first page and follows the cursors gets every listed product once and in
-- order: with any limit but 0, and as many requests as there are listed products and one more, the
-- pages together are the whole listing.
pub follow-listing :
    (kind : Option ℕ) (limit fuel : ℕ) (db : Db)
    → Distinct sku_of db.products
    → limit ≢ 0
    → length (listing kind none db) ≤ fuel
    → follow (suc fuel) (record { kind = kind; cursor = none; limit = limit }) db
      ≡ map (item_of db) (listing kind none db)
follow-listing kind zero fuel db distinct some_limit enough = absurd (some_limit refl)
follow-listing kind (suc n) fuel db distinct some_limit enough =
    follow_rest db distinct fuel n kind none enough
