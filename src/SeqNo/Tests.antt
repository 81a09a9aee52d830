-- ===== src/SeqNo/Tests.antt =====
-- Runs of `CSeqNo` at the wrap, and its theorems there.
use srtplay.Base.{ℕ, ◌≤◌, ◌≡◌, ◌↔◌, refl, arith}
use srtplay.Base.Int.{pos, negsuc, ◌<ℤ◌}
use srtplay.SeqNo.{max_seq, seqcmp, seqoff, incseq, decseq, incseq_by, decseq_by}
use srtplay.SeqNo.Order.{seqcmp-seqoff, incseq_by-decseq_by}

off_over_wrap : (seqoff 0x7FFFFFFE 3 ≡ pos 5) × (seqoff 3 0x7FFFFFFE ≡ negsuc 4)
unfolding seqoff
off_over_wrap = (refl, refl)

steps_over_wrap : (incseq_by 0x7FFFFFFE 5 ≡ 3) × (decseq_by 3 5 ≡ 0x7FFFFFFE)
unfolding incseq_by decseq_by
steps_over_wrap = (refl, refl)

seqcmp-seqoff_example :
    ((seqcmp 0x7FFFFFFE 3 <ℤ pos 0) ↔ (pos 0 <ℤ seqoff 0x7FFFFFFE 3))
    × ((pos 0 <ℤ seqcmp 0x7FFFFFFE 3) ↔ (seqoff 0x7FFFFFFE 3 <ℤ pos 0))
    × ((seqcmp 0x7FFFFFFE 3 ≡ pos 0) ↔ (◌≡◌ {A = ℕ} 0x7FFFFFFE 3))
seqcmp-seqoff_example = seqcmp-seqoff {a = 0x7FFFFFFE} {b = 3} (omega arith) (omega arith)

incseq_by-decseq_by_example :
    (incseq_by 0x7FFFFFFE 5 ≤ max_seq)
    × (decseq_by 0x7FFFFFFE 5 ≤ max_seq)
    × (decseq_by (incseq_by 0x7FFFFFFE 5) 5 ≡ 0x7FFFFFFE)
    × (incseq_by (decseq_by 0x7FFFFFFE 5) 5 ≡ 0x7FFFFFFE)
    × (incseq 0x7FFFFFFE ≡ incseq_by 0x7FFFFFFE 1)
    × (decseq 0x7FFFFFFE ≡ decseq_by 0x7FFFFFFE 1)
incseq_by-decseq_by_example =
    incseq_by-decseq_by {s = 0x7FFFFFFE} {d = 5} (omega arith) (omega arith)
