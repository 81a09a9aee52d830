-- ===== src/UnitQueue/Scan.antt =====
-- The look through the units of a block.
use srtplay.Base.{
  ℕ, zero, suc, ◌+◌, ◌<◌, ◌≤◌, ◌≡◌, ◌≢◌, refl, sym, ap, ◌∙◌, arith, true, false, none, some,
  some_inj, Bool-cases, inl, inr,
}
use srtplay.UnitQueue.{Flag}
use srtplay.UnitQueue.Pool.{is_free, scan}

module _ (left : ℕ) (flags : ℕ → Flag) (unit : ℕ) where
  scan-here : is_free (flags unit) ≡ true → scan (suc left) flags unit ≡ some unit
  unfolding scan
  scan-here q = rw (q, scan) refl

  scan-next : is_free (flags unit) ≡ false → scan (suc left) flags unit ≡ scan left flags (unit + 1)
  unfolding scan
  scan-next q = rw (q, scan) refl

-- What `scan` finds is free and among the units; where it finds none, none is free.
pub scan-some :
    (left : ℕ) (flags : ℕ → Flag) (unit v : ℕ)
    → scan left flags unit ≡ some v
    → (is_free (flags v) ≡ true) × (unit ≤ v) × (v < unit + left)
unfolding scan
scan-some zero flags unit v e = ground (arith, e)
scan-some (suc left) flags unit v e = elim (Bool-cases (is_free (flags unit))) [
  | inl q ↦
      let same = some_inj (sym (scan-here left flags unit q) ∙ e) in
      (ap (λ u. is_free (flags u)) (sym same) ∙ q, omega (arith, same), omega (arith, same))
  | inr q ↦
      let found = scan-some left flags (unit + 1) v (sym (scan-next left flags unit q) ∙ e) in
      (found.0, omega (arith, found.1), omega (arith, found.1))
]

pub scan-none :
    (left : ℕ) (flags : ℕ → Flag) (unit v : ℕ)
    → scan left flags unit ≡ none
    → unit ≤ v
    → is_free (flags v) ≡ true
    → unit + left ≤ v
scan-none zero flags unit v e le f = omega arith
scan-none (suc left) flags unit v e le f = elim (Bool-cases (is_free (flags unit))) [
  | inl q ↦ absurd (let clash = sym e ∙ scan-here left flags unit q in ground (arith, clash))
  | inr q ↦
      let apart : unit ≢ v =
        λ p. let clash = sym f ∙ ap (λ u. is_free (flags u)) (sym p) ∙ q in ground (arith, clash) in
      let rest =
        scan-none left flags (unit + 1) v (sym (scan-next left flags unit q) ∙ e)
          (omega (arith, apart)) f in
      omega (arith, rest)
]
