-- ===== src/Stubs/Supplier.antt =====
-- backend/src/stubs/supplier/supplier-stub.service.ts and supplier-stub.controller.ts: a supplier with
-- a pool of keys, a book of what it issued, a limit on requests, and faults that can be set.
pub mod Again
pub mod Peak
pub mod Http
use hh_game_market_backend.Base.{
  ℕ, ◌+◌, max, Bool, true, false, not, ◌&&◌, ◌||◌, Option, none, some, List, [], ◌∷◌, ◌++◌, map,
  ◌==◌, ltb, leb, if◌then◌else◌, or_else, is_some, includes, filter, find, any, count, length, take,
  sort_by,
}
use hh_game_market_backend.Base.Keyed.{update_where}
use hh_game_market_backend.Model.{RequestId, request_eq, SupplierIssue}

pub record SupplierKey : Type 0 where
  pub code : ℕ
  pub supplier : ℕ
  pub request_id : Option RequestId
  pub order_id : Option ℕ
  pub sku : Option ℕ
  pub issued_at : Option ℕ

-- A rate and a draw of `Math.random()` are numbers in the same unit.
pub record StubConfig : Type 0 where
  pub error_rate : ℕ
  pub timeout_rate : ℕ
  pub hang_ms : ℕ
  pub unavailable_skus : List ℕ
  pub duplicate_rate : ℕ
  pub foreign_rate : ℕ
  pub error_after_issue_rate : ℕ
  pub rate_limit : ℕ
  pub rate_window_ms : ℕ

-- `Partial<StubConfig>`, as the DTO carries it.
pub record StubConfigDto : Type 0 where
  pub error_rate : Option ℕ
  pub timeout_rate : Option ℕ
  pub hang_ms : Option ℕ
  pub unavailable_skus : Option (List ℕ)
  pub duplicate_rate : Option ℕ
  pub foreign_rate : Option ℕ
  pub error_after_issue_rate : Option ℕ
  pub rate_limit : Option ℕ
  pub rate_window_ms : Option ℕ

pub record CallStats : Type 0 where
  pub total : ℕ
  pub rejected : ℕ
  pub peak_in_window : ℕ

-- The two tables of the suppliers and the maps of the process; `now` is the server's clock.
pub record Stub : Type 0 where
  pub keys : List SupplierKey
  pub issues : List SupplierIssue
  pub configs : ℕ → StubConfig
  pub arrivals : ℕ → List ℕ
  pub stats : ℕ → CallStats
  pub now : ℕ

pub data StubReason : Type 0 where
  out_of_stock internal_error rate_limited : StubReason

pub data StubIssueResult : Type 0 where
  booked : RequestId → (code : ℕ) → StubIssueResult
  error : StubReason → StubIssueResult

-- `map.set(key, value)`
abbrev pub set_at {ℓ} : {A : Type ℓ} → ℕ → A → (ℕ → A) → ℕ → A
set_at k a f j = if j == k then a else f j

abbrev pub no_calls : CallStats
no_calls = record { total = 0; rejected = 0; peak_in_window = 0 }

unfoldable pub reset_stats : ℕ → Stub → Stub
reset_stats supplier s = record s {
  arrivals = set_at supplier [] s.arrivals;
  stats = set_at supplier no_calls s.stats;
}

abbrev pub patched : StubConfigDto → StubConfig → StubConfig
patched p c = record {
  error_rate = or_else p.error_rate c.error_rate;
  timeout_rate = or_else p.timeout_rate c.timeout_rate;
  hang_ms = or_else p.hang_ms c.hang_ms;
  unavailable_skus = or_else p.unavailable_skus c.unavailable_skus;
  duplicate_rate = or_else p.duplicate_rate c.duplicate_rate;
  foreign_rate = or_else p.foreign_rate c.foreign_rate;
  error_after_issue_rate = or_else p.error_after_issue_rate c.error_after_issue_rate;
  rate_limit = or_else p.rate_limit c.rate_limit;
  rate_window_ms = or_else p.rate_window_ms c.rate_window_ms;
}

unfoldable pub set_config : ℕ → StubConfigDto → Stub → Stub
unfolding reset_stats
set_config supplier patch s =
    reset_stats supplier
      (record s { configs = set_at supplier (patched patch (s.configs supplier)) s.configs })

-- `while (arrivals[0] <= now - rateWindowMs) arrivals.shift()`
unfoldable pub shifted : ℕ → ℕ → List ℕ → List ℕ
shifted now window [] = []
shifted now window (t ∷ ts) =
    let rest = shifted now window ts in if leb (t + window) now then rest else t ∷ ts

-- The statistics with one more call, when `n` have arrived in the window.
abbrev pub counted : ℕ → ℕ → CallStats → Bool × CallStats
counted limit n c =
    let peak = max c.peak_in_window n in
    if ltb 0 limit && ltb limit n
    then (false, record { total = c.total + 1; rejected = c.rejected + 1; peak_in_window = peak })
    else (true, record { total = c.total + 1; rejected = c.rejected; peak_in_window = peak })

unfoldable pub admit : (app_now : ℕ) → ℕ → Stub → Bool × Stub
unfolding shifted
admit app_now supplier s =
    let config = s.configs supplier in
    let arrivals = shifted app_now config.rate_window_ms (s.arrivals supplier) ++ app_now ∷ [] in
    let (admitted, stats) = counted config.rate_limit (length arrivals) (s.stats supplier) in
    (
      admitted,
      record s {
        arrivals = set_at supplier arrivals s.arrivals;
        stats = set_at supplier stats s.stats;
      },
    )

-- What chance decides in a call: five draws, which row `ORDER BY random() LIMIT 1` returns, the code
-- that is made up, and the rows that other transactions lock.
pub record Chance : Type 0 where
  pub app_now : ℕ
  pub errs : ℕ
  pub duplicates : ℕ
  pub foreign : ℕ
  pub errs_after : ℕ
  pub hangs : ℕ
  pub pick : List ℕ → Option ℕ
  pub fake : ℕ
  pub locked : ℕ → Bool

abbrev pub is_request : RequestId → SupplierIssue → Bool
is_request r k = request_eq k.request_id r

-- `findOneBy(SupplierIssue, { requestId })`
abbrev pub booking : RequestId → Stub → Option SupplierIssue
booking r s = find (is_request r) s.issues

unfoldable pub duplicate_code : Chance → ℕ → Stub → Option ℕ
duplicate_code chance supplier s =
    if leb (s.configs supplier).duplicate_rate chance.duplicates
    then none
    else chance.pick (
        map (λ (k : SupplierIssue). k.code)
          (filter (λ (k : SupplierIssue). k.supplier == supplier) s.issues))

abbrev is_free : ℕ → SupplierKey → Bool
is_free supplier k = k.supplier == supplier && not (is_some k.request_id)

abbrev reserved : RequestId → ℕ → ℕ → ℕ → SupplierKey → SupplierKey
reserved r order_id sku now k = record k {
  request_id = some r;
  order_id = some order_id;
  sku = some sku;
  issued_at = some now;
}

-- The code of the first free row that nobody holds, with its row marked.
unfoldable pub reserve_free_key : Chance → ℕ → RequestId → ℕ → ℕ → Stub → Option ℕ × Stub
reserve_free_key chance supplier r order_id sku s =
    elim (find (λ (k : SupplierKey). is_free supplier k && not (chance.locked k.code)) s.keys) [
      | none ↦ (none, s)
      | some row ↦ (
        some row.code,
        record s {
          keys =
              update_where (λ (k : SupplierKey). k.code == row.code) (reserved r order_id sku s.now)
                s.keys;
        },
      )
    ]

-- The row that is written under a request_id, and the answer.
abbrev pub book : ℕ → RequestId → ℕ → ℕ → Option ℕ × Stub → StubIssueResult × Stub
book supplier r order_id sku (none, s) = (error out_of_stock, s)
book supplier r order_id sku (some code, s) = (
  booked r code,
  record s {
    issues =
        s.issues
        ++ record {
          request_id = r;
          supplier = supplier;
          code = code;
          order_id = order_id;
          sku = sku;
          issued_at = s.now;
        }
          ∷ [];
  },
)

abbrev pub take_code : Chance → ℕ → RequestId → ℕ → ℕ → Stub → Option ℕ → Option ℕ × Stub
take_code chance supplier r order_id sku s (some code) = (some code, s)
take_code chance supplier r order_id sku s none = reserve_free_key chance supplier r order_id sku s

unfoldable pub reserve : Chance → ℕ → RequestId → ℕ → ℕ → Stub → StubIssueResult × Stub
unfolding duplicate_code reserve_free_key
reserve chance supplier r order_id sku s = elim (booking r s) [
  | some existing ↦ (booked r existing.code, s)
  | none ↦
      book supplier r order_id sku
        (take_code chance supplier r order_id sku s (duplicate_code chance supplier s))
]

unfoldable pub foreign_code : Chance → ℕ → Stub → ℕ
foreign_code chance supplier s =
    or_else
      (chance.pick (
        map (λ (k : SupplierKey). k.code)
          (filter (λ (k : SupplierKey). not (k.supplier == supplier) && not (is_some k.request_id))
            s.keys)))
      chance.fake

-- What comes after the book has been written: the answer may differ from it.
abbrev pub answered : Chance → StubConfig → ℕ → StubIssueResult × Stub → StubIssueResult × Stub
answered chance config supplier (error e, s) = (error e, s)
answered chance config supplier (booked r code, s) =
    if ltb chance.errs_after config.error_after_issue_rate then (error internal_error, s) else (
      booked r
          (if ltb chance.foreign config.foreign_rate then foreign_code chance supplier s else code),
      s,
    )

abbrev pub issue_admitted :
    Chance → StubConfig → ℕ → RequestId → ℕ → ℕ → Bool × Stub → StubIssueResult × Stub
issue_admitted chance config supplier r order_id sku (false, s) = (error rate_limited, s)
issue_admitted chance config supplier r order_id sku (true, s) =
    let result = reserve chance supplier r order_id sku s in
    if ltb chance.errs config.error_rate
    then (error internal_error, s)
    else if includes config.unavailable_skus sku
    then (error out_of_stock, s)
    else answered chance config supplier result

-- Whether the answer comes late is no part of it.
unfoldable pub issue : Chance → ℕ → RequestId → ℕ → ℕ → Stub → StubIssueResult × Stub
unfolding admit reserve foreign_code
issue chance supplier r order_id sku s =
    issue_admitted chance (s.configs supplier) supplier r order_id sku
      (admit chance.app_now supplier s)

-- `maybeHang`: how long an answer is held back.
abbrev pub hang : Chance → StubConfig → ℕ
hang chance config = if ltb chance.hangs config.timeout_rate then config.hang_ms else 0

abbrev about : Option RequestId → SupplierIssue → Bool
about none k = true
about (some r) k = request_eq k.request_id r

-- The statement.
unfoldable pub issued : ℕ → Option RequestId → Stub → List SupplierIssue
unfolding sort_by
issued supplier r s = take 1000 (
    sort_by (λ (k : SupplierIssue). k.issued_at)
      (filter (λ (k : SupplierIssue). k.supplier == supplier && about r k) s.issues))

pub record Stock : Type 0 where
  pub available : ℕ
  pub issued : ℕ
  pub booked : ℕ

-- The counts of `status`.
unfoldable pub stock_of : ℕ → Stub → Stock
stock_of supplier s = record {
  available = count (is_free supplier) s.keys;
  issued = count (λ (k : SupplierKey). k.supplier == supplier && is_some k.request_id) s.keys;
  booked = count (λ (k : SupplierIssue). k.supplier == supplier) s.issues;
}

-- `.orIgnore()`, row by row.
unfoldable pub add_keys : ℕ → List ℕ → List SupplierKey → List SupplierKey
add_keys supplier [] keys = keys
add_keys supplier (c ∷ cs) keys =
    let row : SupplierKey = record {
      code = c;
      supplier = supplier;
      request_id = none;
      order_id = none;
      sku = none;
      issued_at = none;
    } in
    add_keys supplier cs
      (if any (λ (k : SupplierKey). k.code == c) keys then keys else keys ++ row ∷ [])

unfoldable pub restock : ℕ → List ℕ → Stub → Stub
unfolding add_keys
restock supplier codes s = record s { keys = add_keys supplier codes s.keys }
