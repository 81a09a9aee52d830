-- ===== src/SeqNo/Unwrapped.antt =====
-- Sequence numbers as the remainders of positions that do not wrap, and the comparison of near ones.
use srtplay.Base.{ℕ, ◌+◌, ◌-◌, ◌%◌, ◌≤◌, ◌<◌, ◌≡◌, arith, ltb, leb, ◌==◌}
use srtplay.Base.Int.{pos, sub_ℕ, ltb_ℤ, leb_ℤ, eqb_ℤ}
use srtplay.SeqNo.{max_seq, seqcmp, seqlen, seqoff, incseq, decseq}

-- The sequence number of the packet at position `x` of the stream.
unfoldable pub seq_of : ℕ → ℕ
seq_of x = x % 0x80000000

-- The distance that the comparisons are made for.
abbrev pub Near : ℕ → ℕ → Type 0
Near x y = (x < y + 0x3FFFFFFF) × (y < x + 0x3FFFFFFF)

pub seq_of-le : (x : ℕ) → seq_of x ≤ max_seq
unfolding seq_of
seq_of-le x = omega arith

pub incseq-seq_of : (x : ℕ) → incseq (seq_of x) ≡ seq_of (x + 1)
unfolding seq_of incseq
incseq-seq_of x = ground arith

pub decseq-seq_of : (x : ℕ) → decseq (seq_of (x + 1)) ≡ seq_of x
unfolding seq_of decseq
decseq-seq_of x = ground arith

module _ (x y : ℕ) (n : Near x y) where
  pub seqoff-seq_of : seqoff (seq_of x) (seq_of y) ≡ sub_ℕ y x
  unfolding seq_of seqoff
  seqoff-seq_of = ground arith

  pub seqcmp-lt : ltb_ℤ (seqcmp (seq_of x) (seq_of y)) (pos 0) ≡ ltb x y
  unfolding seq_of seqcmp
  seqcmp-lt = ground arith

  pub seqcmp-gt : ltb_ℤ (pos 0) (seqcmp (seq_of x) (seq_of y)) ≡ ltb y x
  unfolding seq_of seqcmp
  seqcmp-gt = ground arith

  pub seqcmp-eq : eqb_ℤ (seqcmp (seq_of x) (seq_of y)) (pos 0) ≡ (x == y)
  unfolding seq_of seqcmp
  seqcmp-eq = ground arith

  pub seq_of_eq : (seq_of x == seq_of y) ≡ (x == y)
  unfolding seq_of
  seq_of_eq = ground arith

  pub seqlen-seq_of : x ≤ y → seqlen (seq_of x) (seq_of y) ≡ y - x + 1
  unfolding seq_of seqlen
  seqlen-seq_of h = ground arith

  pub seqcmp-le : leb_ℤ (seqcmp (seq_of x) (seq_of y)) (pos 0) ≡ leb x y
  unfolding seq_of seqcmp
  seqcmp-le = ground arith

  pub seqcmp-ge : leb_ℤ (pos 0) (seqcmp (seq_of x) (seq_of y)) ≡ leb y x
  unfolding seq_of seqcmp
  seqcmp-ge = ground arith
