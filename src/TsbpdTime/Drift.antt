-- ===== src/TsbpdTime/Drift.antt =====
-- The drift: the mean of as many samples as the tracer collects, and what it does to the delivery times.
use srtplay.Base.{ℕ, ◌+◌, ◌≤◌, ◌<◌, ◌≡◌, ◌⊎◌, refl, arith, ltb, Bool, true, false, List, [], ◌∷◌}
use srtplay.Base.Int.{ℤ, pos, ◌+ℤ◌}
use srtplay.TsbpdTime.{DriftTracer, TsbpdTime, quot, set_drift, update_drift, drift_max_samples}

abbrev pub cleared : DriftTracer → DriftTracer
cleared d = record d { drift_sum = pos 0; drift_span = 0; overdrift = pos 0 }

abbrev pub sum_from : ℤ → List ℤ → ℤ
sum_from s [] = s
sum_from s (x ∷ xs) = sum_from (s +ℤ x) xs

module _ (max_span max_drift : ℕ) where
  abbrev pub add : DriftTracer → ℤ → Bool × DriftTracer
  add = update_drift max_span max_drift true

  abbrev pub add_all : DriftTracer → List ℤ → DriftTracer
  add_all d [] = d
  add_all d (x ∷ xs) = add_all (add d x).1 xs

  -- No sample of the list leads to a new drift, and after each of them there is no excess.
  abbrev pub Quiet : DriftTracer → List ℤ → Type 0
  Quiet d [] = Unit {0}
  Quiet d (x ∷ xs) = ((add d x).0 ≡ false) × ((add d x).1.overdrift ≡ pos 0) × Quiet (add d x).1 xs

  -- What the tracer has collected, since the last new drift.
  record Collects (q s : ℤ) (n : ℕ) (d : DriftTracer) : Type 0 where
    drift_eq : d.drift ≡ q
    sum_eq : d.drift_sum ≡ s
    span_eq : d.drift_span ≡ n

  pub add_last :
      (d : DriftTracer) (x : ℤ)
      → max_span ≤ d.drift_span + 1
      → add d x
        ≡ (true, set_drift max_drift (cleared d) (quot (d.drift_sum +ℤ x) (d.drift_span + 1)))
  unfolding update_drift
  add_last d x h = let full : ltb (d.drift_span + 1) max_span ≡ false = ground arith in rw full refl

-- A round of samples goes on, or is complete.
abbrev pub Shifted : TsbpdTime → ℤ → Bool × TsbpdTime → Type 0
Shifted t x (updated, t') =
    ((t.tracer.drift_span + 1 < drift_max_samples)
      × (updated ≡ false)
      × (t'.time_base ≡ t.time_base)
      × (t'.tracer.drift ≡ t.tracer.drift))
    ⊎ ((drift_max_samples ≤ t.tracer.drift_span + 1)
        × (updated ≡ true)
        × (t'.time_base +ℤ t'.tracer.drift
            ≡ t.time_base +ℤ quot (t.tracer.drift_sum +ℤ x) (t.tracer.drift_span + 1)))
