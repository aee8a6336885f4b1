-- ===== src/Delivery/Limiter/Window.antt =====
-- The limiter's transaction: what it answers and what it leaves in the table of calls.
use hh_game_market_backend.Base.{
  ℕ, zero, suc, ◌+◌, ◌≤◌, ◌<◌, ◌≡◌, refl, ◌⊎◌, inl, inr, Bool, false, not, List, [], ◌∷◌, ◌++◌, leb,
  ◌==◌, arith, Bool-cases, filter, length, replicate, count, length-filter, count-append, or_else,
  min,
}
use hh_game_market_backend.Model.{SupplierCall, Db, ok}
use hh_game_market_backend.Delivery.Limiter.{
  free, next_slot_at, of_supplier, of_rows, swept, oldest, expired, acquire, try_acquire, safety_ms,
}

-- The table after the slots are taken.
abbrev pub granted : (supplier cost window : ℕ) → Db → Db
granted s cost window db = record db {
  calls = swept s window db ++ replicate cost (record { supplier = s; at = db.now });
}

-- The table after a refusal: only the rows out of the window are gone.
abbrev pub refused : (supplier window : ℕ) → Db → Db
refused s window db = record db { calls = swept s window db }

abbrev pub used : (supplier window : ℕ) → Db → ℕ
used s window db = length (of_rows s (swept s window db))

module _ (s limit cost window : ℕ) (db : Db) where
  pub acquire-cases :
      ((used s window db + cost ≤ limit)
        × (acquire s limit cost window db ≡ (ok free, granted s cost window db)))
      ⊎ ((limit < used s window db + cost)
          × (acquire s limit cost window db ≡ (
            ok (next_slot_at (or_else (oldest (of_rows s (swept s window db))) 0 + window)),
            refused s window db,
          )))
  unfolding acquire
  acquire-cases = elim (Bool-cases (leb (used s window db + cost) limit)) [
    | inl fits ↦ inl (ground arith, rw fits)
    | inr full ↦ inr (ground arith, rw full)
  ]

count-filter-le :
    (p q : SupplierCall → Bool) (calls : List SupplierCall)
    → count p (filter q calls) ≤ count p calls
count-filter-le p q [] = omega arith
count-filter-le p q (c ∷ calls) = ground (arith, count-filter-le p q calls)

count-replicate :
    (s n t : ℕ) → count (of_supplier s) (replicate n (record { supplier = s; at = t })) ≡ n
count-replicate s zero t = refl
count-replicate s (suc n) t = ground (arith, count-replicate s n t)

-- How many rows of a supplier the table holds.
abbrev pub rows_of : ℕ → Db → ℕ
rows_of s db = count (of_supplier s) db.calls

module _ (s limit cost window : ℕ) (db : Db) where
  acquire_within : rows_of s db ≤ limit → rows_of s (acquire s limit cost window db).1 ≤ limit
  acquire_within before = elim (acquire-cases s limit cost window db) [
    | inl (fits, done) ↦ rw done (
        omega (
          arith,
          fits,
          length-filter (of_supplier s) (swept s window db),
          count-append (of_supplier s) (swept s window db)
              (replicate cost (record { supplier = s; at = db.now })),
          count-replicate s cost db.now,
        ))
    | inr (_, done) ↦ rw done (
        omega (
          arith,
          before,
          count-filter-le (of_supplier s) (λ c. not (expired s window db.now c)) db.calls,
        ))
  ]

-- For a supplier with a limit, an acquisition of any cost leaves no more rows of that supplier in the
-- table of calls than the limit, if there were no more before.
pub try_acquire_within :
    (rate_limit : ℕ → ℕ) (window_ms s cost : ℕ) (db : Db)
    → 0 < rate_limit s
    → rows_of s db ≤ rate_limit s
    → rows_of s (try_acquire rate_limit window_ms s cost db).1 ≤ rate_limit s
unfolding try_acquire
try_acquire_within rate_limit window_ms s cost db limited before =
    let off : (rate_limit s == 0) ≡ false = ground arith in
    rw off
      (acquire_within s (rate_limit s) (min cost (rate_limit s)) (window_ms + safety_ms) db before)
