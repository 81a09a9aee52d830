-- ===== src/UnitQueue/Count.antt =====
-- The count of the units that are taken, of `makeUnitGood` and `makeUnitFree`.
use srtplay.Base.{
  ℕ, zero, suc, ◌+◌, ◌<◌, ◌≤◌, ◌≡◌, ◌≢◌, refl, sym, ap, arith, true, false, update, update_self,
  update_ne, ℕ_discrete, Bool-cases, inl, inr,
}
use srtplay.Base.Int.{pos, ◌+ℤ◌, ◌-ℤ◌}
use srtplay.UnitQueue.{UnitQueue, Flag, good, free, make_unit_good, make_unit_free}
use srtplay.UnitQueue.Pool.{is_free}
use srtplay.UnitQueue.Find.{taken}

-- The count of the queue is that of the units, of which there are `n`.
abbrev pub Counted : ℕ → UnitQueue → Type 0
Counted n q = q.num_taken ≡ pos (taken q.flags n)

module _ (flags : ℕ → Flag) (unit : ℕ) (f : Flag) where
  taken-outside : (n : ℕ) → n ≤ unit → taken (update flags unit f) n ≡ taken flags n
  taken-outside zero le = refl
  taken-outside (suc n) le =
      let rest = taken-outside n (omega (arith, le)) in
      let apart : n ≢ unit = omega (arith, le) in rw (update_ne flags unit n f apart, rest) refl

  -- A unit gets taken.
  taken-more :
      is_free (flags unit) ≡ true
      → is_free f ≡ false
      → (n : ℕ) → unit < n
      → taken (update flags unit f) n ≡ taken flags n + 1
  taken-more old new zero lt = absurd (omega (arith, lt))
  taken-more old new (suc n) lt = elim (ℕ_discrete n unit) [
    | yes e ↦
        let rest = taken-outside n (omega (arith, e)) in
        rw (rest, e, update_self flags unit f, old, new) refl
    | no e ↦
        let rest = taken-more old new n (omega (arith, lt, e)) in
        rw (update_ne flags unit n f e, rest) (ground arith)
  ]

  -- A unit is given back.
  taken-fewer :
      is_free (flags unit) ≡ false
      → is_free f ≡ true
      → (n : ℕ) → unit < n
      → taken (update flags unit f) n + 1 ≡ taken flags n
  taken-fewer old new zero lt = absurd (omega (arith, lt))
  taken-fewer old new (suc n) lt = elim (ℕ_discrete n unit) [
    | yes e ↦
        let rest = taken-outside n (omega (arith, e)) in
        rw (rest, e, update_self flags unit f, old, new) refl
    | no e ↦
        let rest = taken-fewer old new n (omega (arith, lt, e)) in
        rw (update_ne flags unit n f e, sym rest) (ground arith)
  ]

make_unit_good-Counted :
    (n : ℕ) (q : UnitQueue) (unit : ℕ)
    → unit < n
    → is_free (q.flags unit) ≡ true
    → Counted n q
    → Counted n (make_unit_good q unit)
unfolding make_unit_good ◌+ℤ◌
make_unit_good-Counted n q unit lt old count =
    let more = taken-more q.flags unit good old refl n lt in rw (count, more) (ground arith)

make_unit_free-Counted :
    (n : ℕ) (q : UnitQueue) (unit : ℕ)
    → unit < n
    → is_free (q.flags unit) ≡ false
    → Counted n q
    → Counted n (make_unit_free q unit)
unfolding make_unit_free ◌-ℤ◌
make_unit_free-Counted n q unit lt old count =
    let fewer = taken-fewer q.flags unit free old refl n lt in rw (count, sym fewer) (ground arith)

taken-le : (flags : ℕ → Flag) (n : ℕ) → taken flags n ≤ n
taken-le flags zero = omega arith
taken-le flags (suc n) =
    let rest = taken-le flags n in
    elim (Bool-cases (is_free (flags n))) [
      | inl q ↦ ground (arith, q, rest)
      | inr q ↦ ground (arith, q, rest)
    ]

-- The queues that come about from `n` free units, where only free units are made good, and only others free.
pub data Reach (n : ℕ) : UnitQueue → Type 0 where
  start : Reach n (record { flags = λ unit. free; num_taken = pos 0 })
  made_good :
      {q : UnitQueue}
      → Reach n q
      → (unit : ℕ) → unit < n
      → is_free (q.flags unit) ≡ true
      → Reach n (make_unit_good q unit)
  made_free :
      {q : UnitQueue}
      → Reach n q
      → (unit : ℕ) → unit < n
      → is_free (q.flags unit) ≡ false
      → Reach n (make_unit_free q unit)

none-taken : (n : ℕ) → taken (λ unit. free) n ≡ 0
none-taken zero = refl
none-taken (suc n) = none-taken n

Reach-Counted : {n : ℕ} {q : UnitQueue} → Reach n q → Counted n q
Reach-Counted {n} start = ap pos (sym (none-taken n))
Reach-Counted (made_good {q} r unit lt old) =
    make_unit_good-Counted _ q unit lt old (Reach-Counted r)
Reach-Counted (made_free {q} r unit lt old) =
    make_unit_free-Counted _ q unit lt old (Reach-Counted r)

-- However `makeUnitGood` and `makeUnitFree` follow on each other, if only free units are made good, and only
-- others free, the count is the number of units that are not free, and at most the number of units.
pub num_taken-taken :
    {n : ℕ} {q : UnitQueue}
    → Reach n q
    → (q.num_taken ≡ pos (taken q.flags n)) × (taken q.flags n ≤ n)
num_taken-taken {n} {q} r = (Reach-Counted r, taken-le q.flags n)
