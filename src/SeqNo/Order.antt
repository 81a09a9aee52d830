-- ===== src/SeqNo/Order.antt =====
-- What the circular arithmetic of `CSeqNo` promises its callers.
use srtplay.Base.{ℕ, ◌+◌, ◌-◌, ◌≤◌, ◌<◌, ◌≡◌, ◌↔◌, ◌⊎◌, ◌∙◌, subst, subst₂, arith}
use srtplay.Base.Int.{pos, neg, pos_part, neg_part, ◌+ℤ◌, ◌<ℤ◌, ◌≤ℤ◌}
use srtplay.SeqNo.{
  seq_th, max_seq, seqcmp, seqlen, seqoff, incseq, decseq, incseq_by, decseq_by, maxseq,
}

module _ {a b : ℕ} (ha : a ≤ max_seq) (hb : b ≤ max_seq) where
  -- For two valid sequence numbers, at any distance: `seqcmp` calls the first one earlier, or later,
  -- exactly if `seqoff` leads from it forward, or backward, to the second, and equal exactly if they
  -- are the same number.
  pub seqcmp-seqoff :
      ((seqcmp a b <ℤ pos 0) ↔ (pos 0 <ℤ seqoff a b))
      × ((pos 0 <ℤ seqcmp a b) ↔ (seqoff a b <ℤ pos 0))
      × ((seqcmp a b ≡ pos 0) ↔ (a ≡ b))
  unfolding seqcmp seqoff
  seqcmp-seqoff = ground arith

  -- For two valid sequence numbers, moving by `seqoff(a, b)` from `a`, forward if it is positive and
  -- backward if it is negative, gives `b`; and `seqoff(b, a)` is `-seqoff(a, b)`.
  pub seqoff_reaches :
      (decseq_by (incseq_by a (pos_part (seqoff a b))) (neg_part (seqoff a b)) ≡ b)
      × (seqoff b a ≡ neg (seqoff a b))
  unfolding seqoff incseq_by decseq_by
  seqoff_reaches = ground arith

  -- For two valid sequence numbers, `seqlen(a, b)` counts the numbers on the way forward from `a` to
  -- `b`, both included: it is at least 1, `b` is reached from `a` by that many less one, and where `b`
  -- is not earlier by `seqoff` it is that offset plus 1.
  pub seqlen_reaches :
      (1 ≤ seqlen a b)
      × (incseq_by a (seqlen a b - 1) ≡ b)
      × (pos 0 ≤ℤ seqoff a b → pos (seqlen a b) ≡ seqoff a b +ℤ pos 1)
  unfolding seqlen seqoff incseq_by ◌+ℤ◌
  seqlen_reaches = ground arith

  -- `maxseq` of two valid sequence numbers is one of the two, and earlier than neither.
  pub maxseq_latest :
      ((maxseq a b ≡ a) ⊎ (maxseq a b ≡ b))
      × (pos 0 ≤ℤ seqoff a (maxseq a b))
      × (pos 0 ≤ℤ seqoff b (maxseq a b))
  unfolding maxseq seqcmp seqoff
  maxseq_latest = ground arith

module _ {s d : ℕ} (hs : s ≤ max_seq) (hd : d < seq_th) where
  -- From a valid sequence number, moving forward or backward by less than the threshold changes
  -- `seqoff` by just that much.
  pub seqoff-incseq_by :
      (seqoff s (incseq_by s d) ≡ pos d) × (seqoff s (decseq_by s d) ≡ neg (pos d))
  unfolding seqoff incseq_by decseq_by
  seqoff-incseq_by = ground arith

module _ {s d : ℕ} (hs : s ≤ max_seq) (hd : d ≤ max_seq) where
  -- For a valid sequence number and any amount up to the largest one: moving forward and backward
  -- stays in the valid range, each undoes the other, and the one-step forms are those by 1.
  pub incseq_by-decseq_by :
      (incseq_by s d ≤ max_seq)
      × (decseq_by s d ≤ max_seq)
      × (decseq_by (incseq_by s d) d ≡ s)
      × (incseq_by (decseq_by s d) d ≡ s)
      × (incseq s ≡ incseq_by s 1)
      × (decseq s ≡ decseq_by s 1)
  unfolding incseq_by decseq_by incseq decseq
  incseq_by-decseq_by = ground arith

-- Where `seqoff` is not negative, it is the number of steps forward.
forward :
    (a b : ℕ)
    → a ≤ max_seq
    → b ≤ max_seq
    → pos 0 ≤ℤ seqoff a b
    → (seqoff a b ≡ pos (pos_part (seqoff a b))) × (incseq_by a (pos_part (seqoff a b)) ≡ b)
unfolding seqoff incseq_by
forward a b ha hb h = ground arith

-- Steps add up.
incseq_by_add :
    (s d e : ℕ) → s ≤ max_seq → d + e ≤ max_seq → incseq_by (incseq_by s d) e ≡ incseq_by s (d + e)
unfolding incseq_by
incseq_by_add s d e hs h = ground arith

steps_add :
    (a d e : ℕ)
    → a ≤ max_seq
    → (pos d +ℤ pos e) <ℤ pos seq_th
    → seqoff a (incseq_by (incseq_by a d) e) ≡ pos d +ℤ pos e
unfolding ◌+ℤ◌
steps_add a d e ha h =
    rw (incseq_by_add a d e ha (ground arith))
      ((seqoff-incseq_by ha (ground arith)).0 ∙ ground arith)

-- For valid sequence numbers of which the second is not earlier than the first, nor the third than the
-- second, and whose offsets add up to less than the threshold, the offset from the first to the third
-- is that sum: within such a stretch the circular order is transitive.
pub seqoff_add :
    {a b c : ℕ}
    → a ≤ max_seq
    → b ≤ max_seq
    → c ≤ max_seq
    → pos 0 ≤ℤ seqoff a b
    → pos 0 ≤ℤ seqoff b c
    → (seqoff a b +ℤ seqoff b c) <ℤ pos seq_th
    → seqoff a c ≡ seqoff a b +ℤ seqoff b c
seqoff_add {a} {b} {c} ha hb hc hab hbc h =
    let (d, to_b) = forward a b ha hb hab in
    let (e, to_c) = forward b c hb hc hbc in
    subst (λ z. seqoff a z ≡ seqoff a b +ℤ seqoff b c) to_c
      (subst (λ z. seqoff a (incseq_by z (pos_part (seqoff b c))) ≡ seqoff a b +ℤ seqoff b c) to_b
        (cc (
          steps_add a (pos_part (seqoff a b)) (pos_part (seqoff b c)) ha
            (subst₂ (λ y z. (y +ℤ z) <ℤ pos seq_th) d e h))))
