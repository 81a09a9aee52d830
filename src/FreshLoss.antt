-- ===== src/FreshLoss.antt =====
-- `CRcvFreshLoss` (srt/srtcore/list.h and list.cpp): a range of lost packets that the receiver does not
-- report yet, because reordering may still bring them. The time stamp is a field that these
-- operations only carry.
pub mod Revoke
mod Tests
use srtplay.Base.{ℕ, ◌&&◌, ◌||◌, if◌then◌else◌}
use srtplay.Base.Int.{pos, ltb_ℤ, eqb_ℤ}
use srtplay.SeqNo.{seqcmp, incseq, decseq}

-- `Emod`; the constructor `unchanged` is `NONE`.
pub data Emod : Type 0 where
  unchanged stripped split delete : Emod

pub record FreshLoss : Type 0 where
  pub seqlo : ℕ
  pub seqhi : ℕ
  pub ttl : ℕ
  pub time_stamp : ℕ

-- `revoke(sequence)`
pub revoke : FreshLoss → ℕ → Emod × FreshLoss
revoke r sequence =
    let diffbegin = seqcmp sequence r.seqlo in
    let diffend = seqcmp sequence r.seqhi in
    if ltb_ℤ diffbegin (pos 0) || ltb_ℤ (pos 0) diffend
    then (unchanged, r)
    else if eqb_ℤ diffbegin (pos 0)
    then (if eqb_ℤ diffend (pos 0)
        then (delete, r)
        else (stripped, record r { seqlo = incseq r.seqlo }))
    else if eqb_ℤ diffend (pos 0)
    then (stripped, record r { seqhi = decseq r.seqhi })
    else (split, r)

-- `revoke(lo, hi)`
pub revoke_range : FreshLoss → ℕ → ℕ → Emod × FreshLoss
revoke_range r lo hi =
    if ltb_ℤ (pos 0) (seqcmp lo r.seqhi)
    then (delete, r)
    else if ltb_ℤ (seqcmp hi r.seqlo) (pos 0)
    then (unchanged, r)
    else if ltb_ℤ (seqcmp hi r.seqhi) (pos 0)
    then (stripped, record r { seqlo = incseq hi })
    else (delete, r)
