-- ===== src/RcvLossList/Removal/Search.antt =====
-- The search back to the start of the range that may hold a number.
use native.Mathlib.Nat.{add-zero}
use srtplay.Base.{ℕ, zero, suc, ◌+◌, ◌≤◌, ◌<◌, ◌≡◌, sym, subst, arith, none, some}
use srtplay.RcvLossList.{Node}
use srtplay.RcvLossList.Removal.{search_back}
use srtplay.RcvLossList.Repr.{idx, idx_back}

-- From the place of `lo + d`, if no range starts at the positions behind `lo`, the loop comes to the
-- place of `lo` after `d` rounds.
pub search_back-idx :
    (size c : ℕ) (nodes : ℕ → Node) (lo s rounds d : ℕ)
    → 0 < size
    → d < rounds
    → ((y : ℕ) → lo < y → y ≤ lo + d → (nodes (idx size c y)).seqstart ≡ none)
    → (nodes (idx size c lo)).seqstart ≡ some s
    → search_back size nodes rounds (idx size c (lo + d)) ≡ some (idx size c lo)
unfolding search_back
search_back-idx size c nodes lo s zero d pos h gap e = elim h [ ]
search_back-idx size c nodes lo s (suc rounds) zero pos h gap e =
    subst (λ z. search_back size nodes (suc rounds) (idx size c z) ≡ some (idx size c lo))
      (sym (add-zero lo)) (rw (e, search_back))
search_back-idx size c nodes lo s (suc rounds) (suc d) pos h gap e =
    let here : lo + suc d ≡ lo + d + 1 = omega arith in
    rw
      (
        gap (lo + suc d) (omega arith) (omega arith),
        search_back,
        here,
        idx_back size c (lo + d) pos,
      )
      (search_back-idx size c nodes lo s rounds d pos (omega arith) (λ y p q. gap y p (omega arith))
        e)
