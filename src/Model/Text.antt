-- ===== src/Model/Text.antt =====
-- Texts. A text that the code only compares (an id, a sku, a currency, a supplier's name, a code)
-- is the number of that text. A request_id is put together by `trySupplier` of
-- backend/src/delivery/delivery.service.ts, so it keeps its parts: an item's id is a uuid of fixed
-- length, so for suppliers' names without a colon the text determines them.
use hh_game_market_backend.Base.{ℕ, Bool, true, false, ◌&&◌, ◌≡◌, ◌↔◌, arith, ◌==◌, List, [], ◌∷◌}

pub data RequestId : Type 0 where
  -- `${item.id}:${supplier}`
  first : ℕ → ℕ → RequestId
  -- `${item.id}:${supplier}:${round}`
  later : ℕ → ℕ → ℕ → RequestId
  -- any other text, as a supplier's book may hold
  other : ℕ → RequestId

abbrev pub request_eq : RequestId → RequestId → Bool
request_eq (first i s) (first j t) = i == j && s == t
request_eq (later i s m) (later j t n) = i == j && s == t && m == n
request_eq (other m) (other n) = m == n
request_eq _ _ = false

pub request_eq_iff : (r q : RequestId) → (request_eq r q ≡ true) ↔ (r ≡ q)
request_eq_iff r q = ground arith

pub request_eq_refl : (r : RequestId) → request_eq r r ≡ true
request_eq_refl r = ground arith

-- A message of the runtime, as its code points.
abbrev pub Message : Type 0
Message = List ℕ

-- `text.startsWith(prefix)`
abbrev pub starts_with : Message → Message → Bool
starts_with [] text = true
starts_with (c ∷ cs) [] = false
starts_with (c ∷ cs) (d ∷ ds) = c == d && starts_with cs ds
