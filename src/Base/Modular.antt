-- ===== src/Base/Modular.antt =====
-- Steps round a ring of `m` places, and multiples.
use native.Mathlib.Nat.{mod-eq_of_lt, mod-eq-sub-mod, mod-add-mod, mod-lt, mod_self, suc-mul}
use srtplay.Base.{
  ℕ, suc, ap, ◌*◌, ◌+◌, ◌-◌, ◌%◌, ◌<◌, ◌≤◌, ◌≡◌, ◌≢◌, sym, ◌∙◌, ◌⊎◌, inl, inr, arith, dec_lt,
}

-- Two places that differ by less than `m`, of which the first is below `m`, meet only if equal.
add-mod_cases : (x k m : ℕ) → x < m → k < m → (x + k) % m ≡ x → k ≡ 0
add-mod_cases x k m hx hk e = elim (dec_lt (x + k) m) [
  | yes p ↦ omega (arith, mod-eq_of_lt p)
  | no p ↦ omega (
    arith,
    mod-eq-sub-mod {n = x + k} {m = m} (omega arith),
    mod-eq_of_lt {n = x + k - m} {m = m} (omega arith),
  )
]

-- Fewer than `m` steps do not come back to the start.
pub add-mod-ne : (i k m : ℕ) → 0 < k → k < m → (i + k) % m ≢ i % m
add-mod-ne i k m h0 hk e =
    omega (arith, add-mod_cases (i % m) k m (mod-lt i (omega arith)) hk (rw mod-add-mod e))

-- The next place: one on, or the first after the last.
pub next_cases :
    (i m : ℕ) → i < m → ((i + 1 < m) × ((i + 1) % m ≡ i + 1)) ⊎ ((i + 1 ≡ m) × ((i + 1) % m ≡ 0))
next_cases i m h = elim (dec_lt (i + 1) m) [
  | yes p ↦ inl (p, mod-eq_of_lt p)
  | no p ↦ let e : i + 1 ≡ m = omega arith in inr (e, rw e (mod_self m))
]

-- `%` on a number below twice the modulus.
pub mod_cases : (j m : ℕ) → j < m + m → ((j < m) × (j % m ≡ j)) ⊎ ((m ≤ j) × (j % m ≡ j - m))
mod_cases j m h = elim (dec_lt j m) [
  | yes p ↦ inl (p, mod-eq_of_lt p)
  | no p ↦
      inr (omega arith, mod-eq-sub-mod {n = j} {m = m} (omega arith) ∙ mod-eq_of_lt (omega arith))
]

-- One step back undoes one step on.
pub step_back : (y m : ℕ) → 0 < m → ((y + 1) % m + m - 1) % m ≡ y % m
step_back y m h =
    let u = y % m in
    let below : u < m = mod-lt y h in
    let on : (y + 1) % m ≡ (u + 1) % m = sym (mod-add-mod y m 1) in
    elim (next_cases u m below) [
      | inl (p, e) ↦ rw (on, e) (ground (arith, mod_cases (u + 1 + m - 1) m))
      | inr (p, e) ↦ rw (on, e) (ground (arith, mod_cases (m - 1) m))
    ]

pub step_mul : (k n : ℕ) → (k + 1) * n ≡ k * n + n
step_mul k n = let next : k + 1 ≡ suc k = omega arith in ap (λ z. z * n) next ∙ suc-mul k n
