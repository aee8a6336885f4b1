-- ===== src/Catalog.antt =====
-- backend/src/catalog/catalog.service.ts.
pub mod Storefront
use hh_game_market_backend.Base.{ℕ, ◌-◌, true, not, ◌&&◌, [], ◌∷◌, ◌++◌, ltb, ◌==◌, if◌then◌else◌}
use hh_game_market_backend.Base.Keyed.{has, update_where}
use hh_game_market_backend.Model.{
  ProductStock, Result, not_found, Action, raise_if, gets, ◌>>=◌, ◌>>◌,
}
use hh_game_market_backend.Orders.{sku_of}

abbrev pub stock_key : ProductStock → ℕ
stock_key s = s.sku

-- A sale consumes one unit, and never goes below zero.
unfoldable pub decrement_stock : ℕ → Action Unit
decrement_stock sku db = (
  Result.ok tt,
  record db {
    stock =
        update_where (λ s. stock_key s == sku && ltb 0 s.available)
          (λ s. record s { available = s.available - 1 }) db.stock;
  },
)

-- `upsert({ sku, available }, ['sku'])`
upsert_stock : ℕ → ℕ → Action Unit
upsert_stock sku available db = (
  Result.ok tt,
  record db {
    stock =
        if has stock_key sku db.stock
        then update_where (λ s. stock_key s == sku && true)
            (λ s. record s { available = available }) db.stock
        else db.stock ++ record { sku = sku; available = available } ∷ [];
  },
)

unfoldable pub set_stock : ℕ → ℕ → Action Unit
unfolding upsert_stock
set_stock sku available = do
  products ← gets (λ db. db.products)
  raise_if (not (has sku_of sku products)) not_found
  upsert_stock sku available
