-- ===== src/Base/Bits.antt =====
-- `bit_or` of a field into a word whose bits at its place are 0.
use Prim.Native.Nat.{ℕ, zero, suc, ◌+◌, ◌*◌, ◌/◌, ◌≤◌, ◌<◌, max, bit_or, digits, bit_or-bitwise}
use mathlib.Core.Path.{◌≡◌, refl, ap}
use native.Mathlib.Omega.{arith}

-- `n << k`
abbrev pub shl : ℕ → ℕ → ℕ
shl n zero = n
shl n (suc k) = shl n k * 2

abbrev or_digits : ℕ → ℕ → ℕ → ℕ
or_digits n a b = digits (λ b. b) max n a b

or_digits-zero : (n a : ℕ) → a ≤ n → or_digits n a 0 ≡ a
or_digits-zero zero zero h = refl
or_digits-zero zero (suc a) h = absurd (omega arith)
or_digits-zero (suc n) zero h = refl
or_digits-zero (suc n) (suc a) h = omega (arith, or_digits-zero n (suc a / 2) (omega arith))

-- The field is in the lowest bits.
or_digits_low : (j n a u q : ℕ) → a ≤ n → a ≡ shl u j → q < shl 1 j → or_digits n a q ≡ a + q
or_digits_low j zero zero u q h e lt = omega arith
or_digits_low j zero (suc a) u q h e lt = absurd (omega arith)
or_digits_low j (suc n) zero u q h e lt = omega arith
or_digits_low zero (suc n) (suc a) u zero h e lt =
    omega (arith, or_digits-zero n (suc a / 2) (omega arith))
or_digits_low zero (suc n) (suc a) u (suc q) h e lt = absurd (omega arith)
or_digits_low (suc j) (suc n) (suc a) u q h e lt =
    omega (arith, or_digits_low j n (suc a / 2) u (q / 2) (omega arith) (omega arith) (omega arith))

or_digits_field :
    (k j n a u v q : ℕ)
    → a ≤ n
    → a ≡ shl (shl u j) k + v
    → v < shl 1 k
    → q < shl 1 j
    → or_digits n a (shl q k) ≡ a + shl q k
or_digits_field zero j n a u v q h e v_lt lt = or_digits_low j n a u q h (omega arith) lt
or_digits_field (suc k) j zero zero u v q h e v_lt lt = omega arith
or_digits_field (suc k) j zero (suc a) u v q h e v_lt lt = absurd (omega arith)
or_digits_field (suc k) j (suc n) zero u v q h e v_lt lt = omega arith
or_digits_field (suc k) j (suc n) (suc a) u v q h e v_lt lt = omega (
  arith,
  or_digits_field k j n (suc a / 2) u (v / 2) q (omega arith) (omega arith) (omega arith) lt,
  ap (λ x. or_digits n (suc a / 2) x) {x = shl q k * 2 / 2} {y = shl q k} (omega arith),
)

pub bit_or_field :
    (k j a u v q : ℕ)
    → a ≡ shl (shl u j) k + v
    → v < shl 1 k
    → q < shl 1 j
    → bit_or a (shl q k) ≡ a + shl q k
bit_or_field k j a u v q e v_lt lt =
    omega (arith, bit_or-bitwise a (shl q k), or_digits_field k j a a u v q (omega arith) e v_lt lt)
