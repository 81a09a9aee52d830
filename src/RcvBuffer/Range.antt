-- ===== src/RcvBuffer/Range.antt =====
-- The test for a position in the range of the receiver buffer (`isInRange`).
use native.Mathlib.Nat.{mod-eq_of_lt}
use srtplay.Base.{ℕ, ◌+◌, ◌-◌, ◌%◌, ◌≤◌, ◌<◌, ◌≡◌, ap, ◌∙◌, sym, arith, inl, inr, true, false}
use srtplay.Base.Modular.{mod_cases}
use srtplay.Base.Ring.{idx, idx-lt, idx_forward}
use srtplay.RcvBuffer.{is_in_range}

in_range_by :
    (size i d m : ℕ) → i < size → d ≤ m → m < size → is_in_range size i m ((i + d) % size) ≡ true
unfolding is_in_range
in_range_by size i d m hi hd hm = elim (mod_cases (i + d) size (omega arith)) [
  | inl (p, e) ↦ elim (mod_cases (i + m) size (omega arith)) [
    | inl (p', e') ↦ rw (e, e') (ground arith)
    | inr (p', e') ↦ rw (e, e') (ground arith)
  ]
  | inr (p, e) ↦ elim (mod_cases (i + m) size (omega arith)) [
    | inl (p', e') ↦ absurd (omega arith)
    | inr (p', e') ↦ rw (e, e') (ground arith)
  ]
]

-- Positions from `b` to `b + m` are in the range.
pub is_in_range-idx :
    (size c b n m : ℕ)
    → b ≤ n
    → n ≤ b + m
    → m < size
    → is_in_range size (idx size c b) m (idx size c n) ≡ true
is_in_range-idx size c b n m lo hi hm =
    let e : b + (n - b) ≡ n = omega arith in
    ap (is_in_range size (idx size c b) m) (sym (idx_forward size c b (n - b) ∙ ap (idx size c) e))
    ∙ in_range_by size (idx size c b) (n - b) m (idx-lt size c b (omega arith)) (omega arith) hm

out_of_range_by :
    (size i d m : ℕ)
    → i < size
    → 0 < d
    → d + m < size
    → is_in_range size ((i + d) % size) m i ≡ false
unfolding is_in_range
out_of_range_by size i d m hi hd hm = elim (mod_cases (i + d) size (omega arith)) [
  | inl (p, e) ↦ elim (mod_cases (i + d + m) size (omega arith)) [
    | inl (p', e') ↦ rw (e, e') (ground arith)
    | inr (p', e') ↦ rw (e, e') (ground arith)
  ]
  | inr (p, e) ↦
      let e' = mod-eq_of_lt {n = i + d - size + m} {m = size} (omega arith) in
      rw (e, e') (ground arith)
]

-- A position before `b` is not in the range, if the range does not reach it again round the array.
pub is_in_range-before :
    (size c b n m : ℕ)
    → n < b
    → b + m < n + size
    → is_in_range size (idx size c b) m (idx size c n) ≡ false
is_in_range-before size c b n m lo hi =
    let e : n + (b - n) ≡ b = omega arith in
    ap (λ x. is_in_range size x m (idx size c n))
      (sym (idx_forward size c n (b - n) ∙ ap (idx size c) e))
    ∙ out_of_range_by size (idx size c n) (b - n) m (idx-lt size c n (omega arith)) (omega arith)
        (omega arith)
