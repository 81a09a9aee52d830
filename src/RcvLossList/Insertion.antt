-- ===== src/RcvLossList/Insertion.antt =====
-- The insertion into a list of ranges: behind all others, as a range of its own or as a longer last one.
pub mod Extend
pub mod Tail
pub mod Next
pub mod Whole
use srtplay.Base.{
  ℕ, suc, ◌+◌, ◌-◌, ◌≤◌, ◌<◌, ◌≡◌, ◌↔◌, ◌⊎◌, inl, inr, refl, arith, ltb, ◌==◌, ◌&&◌, if◌then◌else◌,
  List, [], ◌∷◌, ◌++◌, ap,
}
use srtplay.RcvLossList.Ranges.{Ranges, Sorted, Below, Lost, total}

-- The range from `a` to `e` and the one from `lo` to `hi` behind it. A range of one number is not continued.
abbrev pub meet : ℕ → ℕ → ℕ → ℕ → Ranges
meet a e lo hi = if ltb a e && (e + 1 == lo) then (a, hi) ∷ [] else (a, e) ∷ (lo, hi) ∷ []

unfoldable pub joined : ℕ → ℕ → Ranges → Ranges
joined lo hi [] = (lo, hi) ∷ []
joined lo hi ((a, e) ∷ []) = meet a e lo hi
joined lo hi ((a, e) ∷ (a', e') ∷ xs) = (a, e) ∷ joined lo hi ((a', e') ∷ xs)

module _ (lo hi : ℕ) (range : lo ≤ hi) where
  pub Lost-joined :
      (b y : ℕ) (xs : Ranges)
      → Sorted b xs
      → Below lo xs
      → Lost y (joined lo hi xs) ↔ (Lost y xs ⊎ ((lo ≤ y) × (y ≤ hi)))
  unfolding joined
  Lost-joined b y [] s f = ground arith
  Lost-joined b y ((a, e) ∷ []) s f = ground arith
  Lost-joined b y ((a, e) ∷ (a', e') ∷ xs) s f =
      ground (arith, Lost-joined (e + 1) y ((a', e') ∷ xs) s.2 f.1)

  pub Sorted-joined :
      (b : ℕ) (xs : Ranges) → b ≤ lo → Sorted b xs → Below lo xs → Sorted b (joined lo hi xs)
  unfolding joined
  Sorted-joined b [] h s f = (h, range, tt)
  Sorted-joined b ((a, e) ∷ []) h s f = ground arith
  Sorted-joined b ((a, e) ∷ (a', e') ∷ xs) h s f =
      (s.0, s.1, Sorted-joined (e + 1) ((a', e') ∷ xs) (omega arith) s.2 f.1)

  pub Below-joined : (u : ℕ) (xs : Ranges) → hi < u → Below u xs → Below u (joined lo hi xs)
  unfolding joined
  Below-joined u [] h f = (h, tt)
  Below-joined u ((a, e) ∷ []) h f = ground arith
  Below-joined u ((a, e) ∷ (a', e') ∷ xs) h f = (f.0, Below-joined u ((a', e') ∷ xs) h f.1)

  pub total-joined :
      (b : ℕ) (xs : Ranges)
      → Sorted b xs
      → Below lo xs
      → total (joined lo hi xs) ≡ total xs + (hi - lo + 1)
  unfolding joined
  total-joined b [] s f = ground arith
  total-joined b ((a, e) ∷ []) s f = ground arith
  total-joined b ((a, e) ∷ (a', e') ∷ xs) s f =
      ground (arith, total-joined (e + 1) ((a', e') ∷ xs) s.2 f.1)

-- Only the last range matters.
pub joined-append :
    (lo hi a e : ℕ) (ps : Ranges) → joined lo hi (ps ++ (a, e) ∷ []) ≡ ps ++ meet a e lo hi
unfolding joined
joined-append lo hi a e [] = refl
joined-append lo hi a e ((a', e') ∷ []) = refl
joined-append lo hi a e ((a', e') ∷ (a'', e'') ∷ ps) =
    ap (◌∷◌ (a', e')) (joined-append lo hi a e ((a'', e'') ∷ ps))

-- A list with a first range has a last one.
pub record Ended (xs : Ranges) : Type 0 where
  pub ps : Ranges
  pub lo : ℕ
  pub hi : ℕ
  pub whole : xs ≡ ps ++ (lo, hi) ∷ []

pub ended : (lo hi : ℕ) (xs : Ranges) → Ended ((lo, hi) ∷ xs)
ended lo hi [] = record { ps = []; lo = lo; hi = hi; whole = refl }
ended lo hi ((lo', hi') ∷ xs) =
    let e = ended lo' hi' xs in
    record { ps = (lo, hi) ∷ e.ps; lo = e.lo; hi = e.hi; whole = ap (◌∷◌ (lo, hi)) e.whole }
