-- ===== src/FreshLoss/Revoke.antt =====
-- Which lost packets a fresh-loss record stands for after `revoke`.
use srtplay.Base.{
  ℕ, ◌+◌, ◌≤◌, ◌<◌, ◌≡◌, ◌≢◌, ◌↔◌, ◌⊎◌, inl, inr, refl, arith, ltb, ◌==◌, ◌||◌, Bool-cases, zero,
  suc,
}
use native.Mathlib.Numerals.{add-one}
use srtplay.SeqNo.{incseq, decseq}
use srtplay.SeqNo.Unwrapped.{
  seq_of, Near, seqcmp-lt, seqcmp-gt, seqcmp-eq, incseq-seq_of, decseq-seq_of,
}
use srtplay.FreshLoss.{Emod, unchanged, stripped, split, delete, FreshLoss, revoke, revoke_range}

-- The record stands for the packets at the positions from `lo` to `hi`.
pub record Covers (r : FreshLoss) (lo hi : ℕ) : Type 0 where
  pub lo_eq : r.seqlo ≡ seq_of lo
  pub hi_eq : r.seqhi ≡ seq_of hi
  pub ordered : lo ≤ hi

-- What is left of the record stands for the packets of `lo` to `hi` that `keep` describes.
abbrev pub Leaves : FreshLoss → ℕ → ℕ → (ℕ → Type 0) → Type 0
Leaves r lo hi keep =
    (lo' : ℕ) × (hi' : ℕ) × Covers r lo' hi'
    × ((x : ℕ) → ((lo' ≤ x) × (x ≤ hi')) ↔ ((lo ≤ x) × (x ≤ hi) × keep x))

-- What `revoke(sequence)` answers.
abbrev pub RevokeResult : FreshLoss → ℕ → ℕ → ℕ → Emod × FreshLoss → Type 0
RevokeResult r lo hi s (unchanged, r') = (r' ≡ r) × ((s < lo) ⊎ (hi < s))
RevokeResult r lo hi s (delete, r') = (s ≡ lo) × (s ≡ hi)
RevokeResult r lo hi s (stripped, r') = Leaves r' lo hi (λ x. x ≢ s)
RevokeResult r lo hi s (split, r') = (r' ≡ r) × (lo < s) × (s < hi)

-- Dropping the first or the last number leaves the range without it.
strips_first :
    (r : FreshLoss) (lo hi s : ℕ)
    → s ≡ lo
    → lo < hi
    → Leaves (record r { seqlo = incseq (seq_of lo); seqhi = seq_of hi }) lo hi (λ x. x ≢ s)
strips_first r lo hi s e h = (
  lo + 1,
  hi,
  record { lo_eq = incseq-seq_of lo; hi_eq = refl; ordered = omega arith },
  λ x. (λ k. omega arith, λ k. ground (arith, k.2)),
)

strips_last :
    (r : FreshLoss) (lo hi s : ℕ)
    → s ≡ hi
    → lo < hi
    → Leaves (record r { seqlo = seq_of lo; seqhi = decseq (seq_of hi) }) lo hi (λ x. x ≢ s)
strips_last r lo zero s e h = elim h [ ]
strips_last r lo (suc hi) s e h = (
  lo,
  hi,
  record { lo_eq = refl; hi_eq = rw (← add-one hi) (decseq-seq_of hi); ordered = omega arith },
  λ x. (λ k. omega arith, λ k. ground (arith, k.2)),
)

-- `revoke(sequence)`, for a number near both ends of the range: `NONE` only outside the range, with
-- nothing changed; `DELETE` where the
-- range is this one number; `STRIPPED` with the range left without this number; `SPLIT`, with
-- nothing changed, where the number lies strictly inside.
pub revoke_lem :
    (r : FreshLoss) (lo hi s : ℕ)
    → Covers r lo hi
    → Near s lo
    → Near s hi
    → RevokeResult r lo hi s (revoke r (seq_of s))
unfolding revoke
revoke_lem r lo hi s c nlo nhi =
    rw
      (
        c.lo_eq,
        c.hi_eq,
        seqcmp-lt s lo nlo,
        seqcmp-gt s hi nhi,
        seqcmp-eq s lo nlo,
        seqcmp-eq s hi nhi,
      )
      (elim (Bool-cases (ltb s lo || ltb hi s)) [
        | inl out ↦ rw out (refl, ground arith)
        | inr within ↦ rw within (elim (Bool-cases (s == lo)) [
          | inl first ↦ rw first (elim (Bool-cases (s == hi)) [
            | inl last ↦ rw last (ground arith, ground arith)
            | inr not_last ↦ rw not_last (strips_first r lo hi s (ground arith) (ground arith))
          ])
          | inr not_first ↦ rw not_first (elim (Bool-cases (s == hi)) [
            | inl last ↦ rw last (strips_last r lo hi s (ground arith) (ground arith))
            | inr not_last ↦ rw not_last (refl, ground arith, ground arith)
          ])
        ])
      ])

-- What `revoke(lo, hi)` answers, for the packets from `a` to `b`.
abbrev pub RevokeRangeResult : FreshLoss → ℕ → ℕ → ℕ → ℕ → Emod × FreshLoss → Type 0
RevokeRangeResult r lo hi a b (unchanged, r') = (r' ≡ r) × (b < lo)
RevokeRangeResult r lo hi a b (delete, r') = hi ≤ b
RevokeRangeResult r lo hi a b (stripped, r') = Leaves r' lo hi (λ x. b < x)
RevokeRangeResult r lo hi a b (split, r') = ⊥

-- `revoke(lo, hi)`: `NONE`, with nothing changed, where the revoked range ends before the record's;
-- `STRIPPED`, with just the later packets left, where it ends inside; `DELETE` only where it ends at
-- or after the record's end. It never answers `SPLIT`.
pub revoke_range_lem :
    (r : FreshLoss) (lo hi a b : ℕ)
    → Covers r lo hi
    → a ≤ b
    → Near a hi
    → Near b lo
    → Near b hi
    → RevokeRangeResult r lo hi a b (revoke_range r (seq_of a) (seq_of b))
unfolding revoke_range
revoke_range_lem r lo hi a b c h na nl nh =
    rw (c.lo_eq, c.hi_eq, seqcmp-gt a hi na, seqcmp-lt b lo nl, seqcmp-lt b hi nh)
      (elim (Bool-cases (ltb hi a)) [
        | inl newer ↦ rw newer (ground arith)
        | inr c1 ↦ rw c1 (elim (Bool-cases (ltb b lo)) [
          | inl older ↦ rw older (refl, ground arith)
          | inr c2 ↦ rw c2 (elim (Bool-cases (ltb b hi)) [
            | inl inside ↦ rw inside (
              b + 1,
              hi,
              record { lo_eq = incseq-seq_of b; hi_eq = refl; ordered = ground arith },
              λ x. (λ k. ground (arith, k.0, k.1), λ k. ground (arith, k.1, k.2)),
            )
            | inr beyond ↦ rw beyond (ground arith)
          ])
        ])
      ])
