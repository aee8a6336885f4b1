-- ===== src/Catalog/Storefront.antt =====
-- The storefront's listing of backend/src/catalog/catalog.service.ts, page by page. The number of a sku
-- keeps the order of the texts.
pub mod Sorted
pub mod Pages
use hh_game_market_backend.Base.{
  ℕ, zero, suc, ◌+◌, ◌++◌, Bool, true, false, ◌&&◌, Option, none, some, List, [], ◌∷◌, map, ◌==◌,
  ltb, if◌then◌else◌, is_some, filter, find, length, take, sort_by,
}
use hh_game_market_backend.Model.{Product, ProductStock, Db}
use hh_game_market_backend.Orders.{sku_of}
use hh_game_market_backend.Catalog.{stock_key}

-- backend/src/catalog/dto/storefront-query.dto.ts
pub record StorefrontQueryDto : Type 0 where
  pub kind : Option ℕ
  pub cursor : Option ℕ
  pub limit : ℕ

pub record StorefrontItem : Type 0 where
  pub product : Product
  pub available : Option ℕ

pub record Page : Type 0 where
  pub items : List StorefrontItem
  pub next_cursor : Option ℕ

-- The lateral subquery: the stock of a product, if there is some.
abbrev pub available : Db → Product → Option ProductStock
available db p = find (λ (s : ProductStock). stock_key s == p.sku && ltb 0 s.available) db.stock

abbrev of_kind : Option ℕ → Product → Bool
of_kind none p = true
of_kind (some k) p = p.kind == k

abbrev pub past : Option ℕ → Product → Bool
past none p = true
past (some c) p = ltb c p.sku

abbrev pub listed : Db → Option ℕ → Product → Bool
listed db kind p = p.active && of_kind kind p && is_some (available db p)

-- The products of the query, before the limit is applied.
unfoldable pub listing : Option ℕ → Option ℕ → Db → List Product
unfolding sort_by
listing kind cursor db =
    sort_by sku_of (filter (λ p. past cursor p && listed db kind p) db.products)

abbrev pub item_of : Db → Product → StorefrontItem
item_of db p = record {
  product = p;
  available = elim (available db p) [ none ↦ none | some s ↦ some s.available ];
}

-- `items.at(-1)`
unfoldable pub last {ℓ} : {A : Type ℓ} → List A → Option A
last [] = none
last (x ∷ []) = some x
last (x ∷ y ∷ ys) = last (y ∷ ys)

abbrev pub sku_at : Option Product → Option ℕ
sku_at none = none
sku_at (some p) = some p.sku

-- The page of the rows that the query returns, one more than are shown if there are more.
abbrev pub page_of : ℕ → List Product → List Product × Option ℕ
page_of limit rows =
    let items = take limit rows in
    (items, if ltb limit (length rows) then sku_at (last items) else none)

unfoldable pub storefront : StorefrontQueryDto → Db → Page
unfolding listing last
storefront q db =
    let (items, next_cursor) = page_of q.limit (take (q.limit + 1) (listing q.kind q.cursor db)) in
    record { items = map (item_of db) items; next_cursor = next_cursor }

-- A client that follows the cursors, for at most as many pages as it wants.
unfoldable pub follow : ℕ → StorefrontQueryDto → Db → List StorefrontItem
unfolding storefront
follow zero q db = []
follow (suc n) q db =
    let page = storefront q db in
    page.items
    ++ elim page.next_cursor [ none ↦ [] | some c ↦ follow n (record q { cursor = some c }) db ]
