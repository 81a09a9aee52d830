-- ===== src/Base/Ring.antt =====
-- Positions that do not wrap, and their places in an array of a fixed size.
use native.Mathlib.Nat.{mod-lt, mod-add-mod, mod_self}
use srtplay.Base.{ℕ, ◌+◌, ◌-◌, ◌%◌, ◌<◌, ◌≡◌, ◌≢◌, ap, sym, ◌∙◌, arith}
use srtplay.Base.Modular.{add-mod-ne, step_back}

-- The place of a position; `c` says how the array lies to the stream.
module _ (size c : ℕ) where
  unfoldable pub idx : ℕ → ℕ
  idx x = (x + c) % size

  pub idx-lt : (x : ℕ) → 0 < size → idx x < size
  unfolding idx
  idx-lt x h = mod-lt (x + c) h

  pub idx-ne : (x y : ℕ) → x < y → y < x + size → idx x ≢ idx y
  unfolding idx
  idx-ne x y h u e =
      add-mod-ne (x + c) (y - x) size (omega arith) (omega arith)
        (ap (λ k. k % size) (omega arith) ∙ sym e)

  pub idx_back : (x : ℕ) → 0 < size → (idx (x + 1) + size - 1) % size ≡ idx x
  unfolding idx
  idx_back x h = ap (λ k. (k % size + size - 1) % size) (omega arith) ∙ step_back (x + c) size h

  -- The array is read from the head's place by the distance.
  pub idx_forward : (x d : ℕ) → (idx x + d) % size ≡ idx (x + d)
  unfolding idx
  idx_forward x d = mod-add-mod (x + c) size d ∙ ap (λ k. k % size) (omega arith)

-- How the array lies to the stream when the position `x` is at the place 0.
pub idx_reset : (size x : ℕ) → 0 < size → idx size (size - x % size) x ≡ 0
unfolding idx
idx_reset size x h =
    let below = mod-lt x h in
    let whole : x % size + (size - x % size) ≡ size = omega arith in
    sym (mod-add-mod x size (size - x % size)) ∙ ap (λ k. k % size) whole ∙ mod_self size
