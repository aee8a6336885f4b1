-- ===== src/Base/Int.antt =====
-- Signed integers over the native numbers, for the amounts of ledger postings.
use Prim.Native.Nat.{ℕ, suc, ◌+◌, ◌-◌}
use mathlib.Core.Path.{◌≡◌}
use mathlib.Core.Bool.{Bool, true, ◌&&◌}
use mathlib.Core.List.{List, [], ◌∷◌, ◌++◌}
use native.Mathlib.Omega.{arith}
use hh_game_market_backend.Base.Tests.{leb, ◌==◌, if◌then◌else◌}

-- `negsuc n` is -(n + 1).
pub data ℤ : Type 0 where
  pos : ℕ → ℤ
  negsuc : ℕ → ℤ

abbrev pub pos_part : ℤ → ℕ
pos_part (pos n) = n
pos_part (negsuc n) = 0

abbrev pub neg_part : ℤ → ℕ
neg_part (pos n) = 0
neg_part (negsuc n) = suc n

-- a - b, as an integer.
abbrev pub sub_ℕ : ℕ → ℕ → ℤ
sub_ℕ a b = if leb b a then pos (a - b) else negsuc (b - a - 1)

infixl 65 ◌+ℤ◌ ◌-ℤ◌
unfoldable pub ◌+ℤ◌ : ℤ → ℤ → ℤ
a +ℤ b = sub_ℕ (pos_part a + pos_part b) (neg_part a + neg_part b)

unfoldable pub ◌-ℤ◌ : ℤ → ℤ → ℤ
a -ℤ b = sub_ℕ (pos_part a + neg_part b) (neg_part a + pos_part b)

-- `-n` of a number that is not negative.
unfoldable pub neg : ℕ → ℤ
neg n = sub_ℕ 0 n

-- `a === b`
abbrev pub eq_ℤ : ℤ → ℤ → Bool
eq_ℤ a b = pos_part a + neg_part b == pos_part b + neg_part a

-- The largest value of Postgres's `int`, and is a number one?
abbrev pub int_max : ℕ
int_max = 2147483647

abbrev pub fits_int : ℤ → Bool
fits_int z = leb (pos_part z) int_max && leb (neg_part z) (suc int_max)

abbrev pub all_fit : List ℤ → Bool
all_fit [] = true
all_fit (z ∷ zs) = fits_int z && all_fit zs

-- One lemma for each operation lets `omega` work with the operations shut, at any depth.
pub +ℤ_parts :
    (a b : ℤ)
    → pos_part (a +ℤ b) + neg_part a + neg_part b ≡ neg_part (a +ℤ b) + pos_part a + pos_part b
unfolding ◌+ℤ◌
+ℤ_parts a b = ground arith

pub -ℤ_parts :
    (a b : ℤ)
    → pos_part (a -ℤ b) + neg_part a + pos_part b ≡ neg_part (a -ℤ b) + pos_part a + neg_part b
unfolding ◌-ℤ◌
-ℤ_parts a b = ground arith

pub neg_parts : (n : ℕ) → pos_part (neg n) + n ≡ neg_part (neg n)
unfolding neg
neg_parts n = ground arith

pub eq_of_parts : (a b : ℤ) → pos_part a + neg_part b ≡ pos_part b + neg_part a → a ≡ b
eq_of_parts a b h = ground arith

pub eq_ℤ_of_eq : (a b : ℤ) → a ≡ b → eq_ℤ a b ≡ true
eq_ℤ_of_eq a b h = ground arith

pub ruleset int_laws = (arith, +ℤ_parts, -ℤ_parts, neg_parts, eq_of_parts)

module _ {ℓ} {A : Type ℓ} where
  -- `coalesce(sum(f) FILTER (WHERE p), 0)`
  abbrev pub sum_ℤ : (A → Bool) → (A → ℤ) → List A → ℤ
  sum_ℤ p f [] = pos 0
  sum_ℤ p f (x ∷ xs) = (if p x then f x else pos 0) +ℤ sum_ℤ p f xs

  pub sum_ℤ-append :
      (p : A → Bool) (f : A → ℤ) (xs ys : List A)
      → sum_ℤ p f (xs ++ ys) ≡ sum_ℤ p f xs +ℤ sum_ℤ p f ys
  sum_ℤ-append p f [] ys = omega int_laws
  sum_ℤ-append p f (x ∷ xs) ys = rw (sum_ℤ-append p f xs ys) (omega int_laws)
