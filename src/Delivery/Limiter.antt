-- ===== src/Delivery/Limiter.antt =====
-- backend/src/delivery/supplier-limiter.service.ts: the sliding-window rate limit per supplier.
pub mod Window
use hh_game_market_backend.Base.{
  ℕ, ◌+◌, ◌-◌, Bool, not, ◌&&◌, Option, none, some, List, [], ◌∷◌, ◌++◌, ltb, leb, ◌==◌,
  if◌then◌else◌, filter, length, replicate, min, or_else,
}
use hh_game_market_backend.Model.{SupplierCall, Db, Result, Action}

abbrev pub safety_ms : ℕ
safety_ms = 100

pub data Slot : Type 0 where
  free : Slot
  next_slot_at : ℕ → Slot

abbrev pub of_supplier : ℕ → SupplierCall → Bool
of_supplier s c = c.supplier == s

-- `supplier = $1 AND at < now() - window`, with the subtraction moved over.
abbrev pub expired : ℕ → ℕ → ℕ → SupplierCall → Bool
expired s window now c = of_supplier s c && ltb (c.at + window) now

abbrev earlier : ℕ → Option ℕ → ℕ
earlier t none = t
earlier t (some u) = min t u

-- `min(at)`
unfoldable pub oldest : List SupplierCall → Option ℕ
oldest [] = none
oldest (c ∷ cs) = some (earlier c.at (oldest cs))

-- The rows after the DELETE.
abbrev pub swept : ℕ → ℕ → Db → List SupplierCall
swept s window db = filter (λ c. not (expired s window db.now c)) db.calls

abbrev pub of_rows : ℕ → List SupplierCall → List SupplierCall
of_rows s calls = filter (of_supplier s) calls

-- The transaction: takes all of `cost` slots or none. A full window with no row cannot be (the cost
-- is at most the limit); the code would then throw on `row.oldest!`'s null date, which is time 0.
unfoldable pub acquire : (supplier limit cost window : ℕ) → Action Slot
unfolding oldest
acquire s limit cost window db =
    let kept = swept s window db in
    let rows = of_rows s kept in
    if leb (length rows + cost) limit
    then (
      Result.ok free,
      record db { calls = kept ++ replicate cost (record { supplier = s; at = db.now }) },
    )
    else (Result.ok (next_slot_at (or_else (oldest rows) 0 + window)), record db { calls = kept })

-- `tryAcquire`; a limit of 0 is none.
unfoldable pub try_acquire : (rate_limit : ℕ → ℕ) (window_ms supplier cost : ℕ) → Action Slot
unfolding acquire
try_acquire rate_limit window_ms s cost db =
    if rate_limit s == 0
    then (Result.ok free, db)
    else acquire s (rate_limit s) (min cost (rate_limit s)) (window_ms + safety_ms) db

pub record Usage : Type 0 where
  pub limit : ℕ
  pub window_ms : ℕ
  pub used : ℕ
  pub available : Option ℕ
  pub next_slot_in_ms : ℕ

-- `usage`, for the progress view; `Math.max(0, ...)` is the truncated subtraction.
unfoldable pub usage : (rate_limit : ℕ → ℕ) (window_ms supplier app_now : ℕ) → Db → Usage
unfolding oldest
usage rate_limit window_ms s app_now db =
    let limit = rate_limit s in
    let rows = of_rows s (swept s (window_ms + safety_ms) db) in
    let used = length rows in
    record {
      limit = limit;
      window_ms = window_ms;
      used = used;
      available = if ltb 0 limit then some (limit - used) else none;
      next_slot_in_ms = elim (oldest rows) [
        | none ↦ 0
        | some t ↦ if ltb 0 limit && leb limit used then t + window_ms + safety_ms - app_now else 0
      ];
    }
