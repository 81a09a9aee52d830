-- ===== src/FreshLoss/Tests.antt =====
-- A range over the wrap, from position 2^31 - 2 to 2^31 + 3, and the theorems there.
use srtplay.Base.{◌≡◌, refl, arith}
use srtplay.SeqNo.{seqcmp, incseq}
use srtplay.SeqNo.Unwrapped.{seq_of}
use srtplay.FreshLoss.{stripped, split, FreshLoss, revoke, revoke_range}
use srtplay.FreshLoss.Revoke.{Covers, RevokeRangeResult, revoke_range_lem}

abbrev over_wrap : FreshLoss
over_wrap = record { seqlo = 0x7FFFFFFE; seqhi = 3; ttl = 2; time_stamp = 0 }

over_wrap-Covers : Covers over_wrap 0x7FFFFFFE 0x80000003
unfolding seq_of
over_wrap-Covers = record { lo_eq = refl; hi_eq = refl; ordered = omega arith }

revoke_run :
    ((revoke over_wrap 0x7FFFFFFE) ≡ (stripped, record over_wrap { seqlo = 0x7FFFFFFF }))
    × ((revoke over_wrap 1).0 ≡ split)
unfolding revoke seqcmp incseq
revoke_run = (refl, refl)

revoke_range_lem_example :
    RevokeRangeResult over_wrap 0x7FFFFFFE 0x80000003 0x7FFFFFF0 0x80000001
      (revoke_range over_wrap (seq_of 0x7FFFFFF0) (seq_of 0x80000001))
revoke_range_lem_example =
    revoke_range_lem over_wrap 0x7FFFFFFE 0x80000003 0x7FFFFFF0 0x80000001 over_wrap-Covers
      (omega arith) (omega arith) (omega arith) (omega arith)
