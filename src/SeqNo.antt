-- ===== src/SeqNo.antt =====
-- `CSeqNo` (srt/srtcore/common.h): the circular arithmetic on packet sequence numbers. A sequence
-- number is an `int32_t` from 0 to `max_seq`. A difference of two of them is an `int` that may be
-- negative, and is an integer of the model where the source keeps it.
pub mod Order
pub mod Unwrapped
mod Tests
use srtplay.Base.{ℕ, ◌+◌, ◌-◌, ltb, leb, ◌==◌, if◌then◌else◌}
use srtplay.Base.Int.{ℤ, pos, sub_ℕ, abs, ltb_ℤ}

-- `m_iSeqNoTH`
abbrev pub seq_th : ℕ
seq_th = 0x3FFFFFFF

-- `m_iMaxSeqNo`
abbrev pub max_seq : ℕ
max_seq = 0x7FFFFFFF

-- Only the sign of the result has a meaning.
unfoldable pub seqcmp : ℕ → ℕ → ℤ
seqcmp seq1 seq2 = if ltb (abs (sub_ℕ seq1 seq2)) seq_th then sub_ℕ seq1 seq2 else sub_ℕ seq2 seq1

-- Where `seq2` is just before `seq1`, this is 2 ^ 31, one more than the `int` of the source can hold.
unfoldable pub seqlen : ℕ → ℕ → ℕ
seqlen seq1 seq2 = if leb seq1 seq2 then seq2 - seq1 + 1 else seq2 + max_seq + 2 - seq1

unfoldable pub seqoff : ℕ → ℕ → ℤ
seqoff seq1 seq2 =
    if ltb (abs (sub_ℕ seq1 seq2)) seq_th
    then sub_ℕ seq2 seq1
    else if ltb seq1 seq2
    then sub_ℕ seq2 (seq1 + max_seq + 1)
    else sub_ℕ (seq2 + max_seq + 1) seq1

-- `incseq(seq)` and `decseq(seq)`
unfoldable pub incseq : ℕ → ℕ
incseq seq = if seq == max_seq then 0 else seq + 1

unfoldable pub decseq : ℕ → ℕ
decseq seq = if seq == 0 then max_seq else seq - 1

-- `incseq(seq, inc)` and `decseq(seq, dec)`
unfoldable pub incseq_by : ℕ → ℕ → ℕ
incseq_by seq inc = if leb inc (max_seq - seq) then seq + inc else seq + inc - max_seq - 1

unfoldable pub decseq_by : ℕ → ℕ → ℕ
decseq_by seq dec = if ltb seq dec then max_seq + 1 - (dec - seq) else seq - dec

unfoldable pub maxseq : ℕ → ℕ → ℕ
maxseq seq1 seq2 = if ltb_ℤ (seqcmp seq1 seq2) (pos 0) then seq2 else seq1
