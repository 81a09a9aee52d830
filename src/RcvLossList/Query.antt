-- ===== src/RcvLossList/Query.antt =====
-- The queries of `CRcvLossList` (srt/srtcore/list.cpp).
pub mod Find
pub mod Report
use mathlib.Core.Option
use Prim.Native.Nat.{bit_or}
use srtplay.Base.{
  List, [], ◌∷◌, ltb, ◌+◌, ℕ, zero, suc, ◌==◌, if◌then◌else◌, ◌&&◌, ◌||◌, Bool, true, false, Option,
  none, some,
}
use srtplay.Base.Int.{pos, ltb_ℤ, leb_ℤ, eqb_ℤ}
use srtplay.SeqNo.{seqcmp}
use srtplay.RcvLossList.{Node, RcvLossList, ◌>>=◌}

-- `find`, from the node `p` on
pub find_from : (ℕ → Node) → ℕ → Option ℕ → ℕ → ℕ → Option Bool
find_from nodes rounds none seqno1 seqno2 = some false
find_from nodes zero (some p) seqno1 seqno2 = none
find_from nodes (suc rounds) (some p) seqno1 seqno2 = do
  let rest = find_from nodes rounds (nodes p).inext seqno1 seqno2
  start ← (nodes p).seqstart
  let reaches : Bool = elim (nodes p).seqend [
    | none ↦ false
    | some e ↦ leb_ℤ (pos 0) (seqcmp e seqno1)
  ]
  (if eqb_ℤ (seqcmp start seqno1) (pos 0)
        || (ltb_ℤ (pos 0) (seqcmp start seqno1) && leb_ℤ (seqcmp start seqno2) (pos 0))
        || (ltb_ℤ (seqcmp start seqno1) (pos 0) && reaches)
      then some true
      else rest)

pub find : ℕ → RcvLossList → ℕ → ℕ → Option Bool
find size l seqno1 seqno2 =
    if l.length == 0 then some false else find_from l.nodes size l.head seqno1 seqno2

pub get_loss_length : RcvLossList → ℕ
get_loss_length l = l.length

-- `none` is a fault; `some none` is SRT_SEQNO_NONE.
pub get_first_lost_seq : RcvLossList → Option (Option ℕ)
get_first_lost_seq l =
    if l.length == 0 then some none else Option.map (λ h. (l.nodes h).seqstart) l.head

-- `LOSSDATA_SEQNO_RANGE_FIRST`
abbrev pub range_first : ℕ
range_first = 0x80000000

-- The words that `getLossArray` writes from the node `p` on, where `len` words are written before.
pub loss_array_from : (ℕ → Node) → ℕ → ℕ → ℕ → Option ℕ → Option (List ℕ)
loss_array_from nodes rounds limit len none = some []
loss_array_from nodes zero limit len (some p) = if ltb (len + 1) limit then none else some []
loss_array_from nodes (suc rounds) limit len (some p) =
    let rest : ℕ → Option (List ℕ) = λ n. loss_array_from nodes rounds limit n (nodes p).inext in
    if ltb (len + 1) limit
    then ((nodes p).seqstart >>= λ start. elim (nodes p).seqend [
      | none ↦ Option.map (λ words. start ∷ words) (rest (len + 1))
      | some e ↦ Option.map (λ words. bit_or start range_first ∷ e ∷ words) (rest (len + 2))
    ])
    else some []

pub get_loss_array : ℕ → RcvLossList → ℕ → Option (List ℕ)
get_loss_array size l limit = loss_array_from l.nodes size limit 0 l.head
