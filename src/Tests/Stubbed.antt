-- ===== src/Tests/Stubbed.antt =====
-- Two suppliers with a pool of keys, a payment provider, and the pages of a shop with three products.
use hh_game_market_backend.Base.{
  ℕ, ◌≤◌, ◌≡◌, false, true, none, some, Option, List, [], ◌∷◌, refl, arith, length, map, insert_by,
  sort_by, if◌then◌else◌,
}
use hh_game_market_backend.Model.{Db, Product, first}
use hh_game_market_backend.Catalog.Storefront.{listing, item_of, follow}
use hh_game_market_backend.Catalog.Storefront.Pages.{follow-listing}
use hh_game_market_backend.Tests.{shop}
use hh_game_market_backend.Stubs.Payment.{PspRefund, Psp, paid_back, refund}
use hh_game_market_backend.Stubs.Payment.Once.{refund-refund}
use hh_game_market_backend.Stubs.Supplier.{
  SupplierKey, StubConfig, Stub, booked, Chance, no_calls, issue, admit, issued, reserve,
  duplicate_code, reserve_free_key,
}
use hh_game_market_backend.Stubs.Supplier.Again.{
  Call, issues, restocks, statement, after_all, reserve-reserve,
}
use hh_game_market_backend.Delivery.Client.{read_issue, read_lookup, deferred}
use hh_game_market_backend.Stubs.Supplier.Http.{
  http_issue, http_issued, of_result, of_entry, client_reads,
}

abbrev key : ℕ → SupplierKey
key c = record {
  code = c;
  supplier = 3;
  request_id = none;
  order_id = none;
  sku = none;
  issued_at = none;
}

-- Ten calls in a minute, and every fault possible.
abbrev strict : StubConfig
strict = record {
  error_rate = 5;
  timeout_rate = 5;
  hang_ms = 10000;
  unavailable_skus = [];
  duplicate_rate = 5;
  foreign_rate = 5;
  error_after_issue_rate = 5;
  rate_limit = 2;
  rate_window_ms = 60000;
}

abbrev pool : Stub
pool = record {
  keys = key 77 ∷ key 78 ∷ [];
  issues = [];
  configs = λ s. strict;
  arrivals = λ s. [];
  stats = λ s. no_calls;
  now = 1000;
}

abbrev first_of : List ℕ → Option ℕ
first_of [] = none
first_of (c ∷ cs) = some c

-- Draws that all are `n`.
abbrev drawn : ℕ → Chance
drawn n = record {
  app_now = 1000;
  errs = n;
  duplicates = n;
  foreign = n;
  errs_after = n;
  hangs = n;
  pick = first_of;
  fake = 666;
  locked = λ c. false;
}

abbrev between : List Call
between = issues (drawn 9) 3 (first 12 3) 10 1 ∷ restocks 3 (79 ∷ []) ∷ statement 1001 3 ∷ []

abbrev asked : Stub
asked = (reserve (drawn 9) 3 (first 11 3) 10 1 pool).1

books_77 : (reserve (drawn 9) 3 (first 11 3) 10 1 pool).0 ≡ booked (first 11 3) 77
unfolding reserve duplicate_code reserve_free_key
books_77 = refl

reserve-reserve_example :
    reserve (drawn 0) 4 (first 11 3) 10 1 (after_all between asked)
    ≡ (booked (first 11 3) 77, after_all between asked)
reserve-reserve_example =
    reserve-reserve (first 11 3) (drawn 9) (drawn 0) 3 4 10 10 1 1 77 between pool books_77

abbrev times : List ℕ
times = 1000 ∷ 1001 ∷ 1002 ∷ 90000 ∷ []

abbrev provider : Psp
provider = record { error_rate = 5; refunds = [] }

abbrev back : ℕ → PspRefund
back a = record { refund_id = 11; order_id = 10; amount = a; currency = 7 }

acknowledged : (refund 9 (back 100) provider).0 ≡ paid_back 11
unfolding refund
acknowledged = refl

refund-refund_example :
    (refund 8 (back 200) (refund 9 (back 100) provider).1).1 ≡ (refund 9 (back 100) provider).1
refund-refund_example = refund-refund 9 8 (back 100) (back 200) provider acknowledged refl

abbrev a_product : ℕ → Product
a_product n = record { sku = n; kind = 0; price = 100; currency = 7; supplier = 3; active = true }

abbrev full_shop : Db
full_shop = record shop {
  products = a_product 5 ∷ a_product 2 ∷ a_product 9 ∷ [];
  stock =
      record { sku = 5; available = 1 }
      ∷ record { sku = 9; available = 4 }
      ∷ record { sku = 2; available = 2 }
      ∷ [];
}

listed_three : length (listing none none full_shop) ≤ 3
unfolding listing insert_by sort_by
listed_three = ground arith

follow-listing_example :
    follow 4 (record { kind = none; cursor = none; limit = 2 }) full_shop
    ≡ map (item_of full_shop) (listing none none full_shop)
follow-listing_example =
    follow-listing none 2 3 full_shop (refl, (refl, (refl, tt))) (λ h. ground (arith, h))
      (listed_three)

client_reads_example :
    (read_issue (http_issue (3 ∷ 4 ∷ []) (drawn 9) 3 (first 11 3) 10 1 pool).0 3000 90000
      ≡ of_result (issue (drawn 9) 3 (first 11 3) 10 1 pool).0 90000)
    × (read_lookup (http_issued (3 ∷ 4 ∷ []) 1000 3 (first 11 3) pool).0 3000 90000 ≡ (
        if (admit 1000 3 pool).0
        then of_entry (issued 3 (some (first 11 3)) (admit 1000 3 pool).1)
        else deferred 90000))
client_reads_example = client_reads (3 ∷ 4 ∷ []) (drawn 9) 3 10 1 3000 90000 (first 11 3) pool refl
