-- ===== src/SndBuffer/Message.antt =====
-- The packets of a message: their payloads are the data, in order.
use native.Mathlib.Nat.{mod-add-div, mod-lt, mul_comm}
use srtplay.Base.{
  ℕ, zero, suc, ◌+◌, ◌-◌, ◌*◌, ◌/◌, ◌%◌, ◌<◌, ◌≤◌, ◌≡◌, refl, sym, ap, ap₂, ◌∙◌, arith, min, List,
  [], ◌∷◌, ◌++◌, length, take, drop, length-drop, take-append-drop, ℕ_discrete,
}
use srtplay.Base.Modular.{step_mul}
use srtplay.Base.Slices.{drop-drop, drop-all, take-min}
use srtplay.SeqNo.{incseq}
use srtplay.SndBuffer.{Block, MsgCtrl, bitset_of, part, packets_of}

-- The packets from number `i` on of the `size` packets of a message.
module _ (mss msgno origin : ℕ) (bytes : List ℕ) (ctrl : MsgCtrl) (size : ℕ) where
  abbrev pub message : ℕ → ℕ → ℕ → List Block
  message i seqno zero = []
  message i seqno (suc rest) =
      record {
        payload = part bytes mss i;
        msgno_bitset = bitset_of msgno ctrl.inorder i size;
        seq_no = seqno;
        origin_time = origin;
        rexmit_time = 0;
        ttl = ctrl.msgttl;
        next = 0;
      }
      ∷ message (i + 1) (incseq seqno) rest

  pub length-message : (i seqno rest : ℕ) → length (message i seqno rest) ≡ rest
  length-message i seqno zero = refl
  length-message i seqno (suc rest) = ap suc (length-message (i + 1) (incseq seqno) rest)

-- The payloads in a row.
abbrev pub payloads : List Block → List ℕ
payloads [] = []
payloads (s ∷ q) = s.payload ++ payloads q

-- So many packets are enough.
covered : (mss len : ℕ) → 0 < mss → len ≤ packets_of mss len * mss
covered mss len pos =
    let parts = mod-add-div len mss in
    let turned = mul_comm mss (len / mss) in
    let rest = mod-lt len pos in
    elim (ℕ_discrete (len % mss) 0) [
      | yes e ↦
          let count : packets_of mss len ≡ len / mss = ground (arith, e) in
          let all = ap (λ k. k * mss) count in omega (arith, all, parts, turned, e)
      | no e ↦
          let count : packets_of mss len ≡ len / mss + 1 = ground (arith, e) in
          let all = ap (λ k. k * mss) count in
          let one = step_mul (len / mss) mss in omega (arith, all, one, parts, turned, rest)
    ]

module _ (mss msgno origin : ℕ) (bytes : List ℕ) (ctrl : MsgCtrl) (size : ℕ)
    (enough : length bytes ≤ size * mss) where
  payloads-from :
      (rest i seqno : ℕ)
      → i + rest ≡ size
      → payloads (message mss msgno origin bytes ctrl size i seqno rest) ≡ drop (i * mss) bytes
  payloads-from zero i seqno e =
      let all = ap (λ k. k * mss) {x = i} {y = size} (omega (arith, e)) in
      sym (drop-all (i * mss) bytes (omega (arith, all, enough)))
  payloads-from (suc rest) i seqno e =
      let next = payloads-from rest (i + 1) (incseq seqno) (omega (arith, e)) in
      let left = drop (i * mss) bytes in
      let len = length-drop (i * mss) bytes in
      let same : part bytes mss i ≡ take mss left =
        ap (λ k. take k left) {x = min (length bytes - i * mss) mss} {y = min mss (length left)}
          (omega (arith, len))
        ∙ take-min mss left in
      let tail : drop ((i + 1) * mss) bytes ≡ drop mss left =
        ap (λ k. drop k bytes) (step_mul i mss) ∙ sym (drop-drop mss (i * mss) bytes) in
      ap₂ ◌++◌ same (next ∙ tail) ∙ take-append-drop mss left

-- The payloads of all packets of a message are the data.
pub payloads-message :
    (mss msgno origin : ℕ) (bytes : List ℕ) (ctrl : MsgCtrl) (seqno : ℕ)
    → 0 < mss
    → payloads (
        message mss msgno origin bytes ctrl
          (packets_of mss (length bytes))
          0
          seqno
          (packets_of mss (length bytes)))
      ≡ bytes
payloads-message mss msgno origin bytes ctrl seqno pos =
    let size = packets_of mss (length bytes) in
    payloads-from mss msgno origin bytes ctrl size (covered mss (length bytes) pos) size 0 seqno
      (omega arith)
    ∙ ap (λ k. drop k bytes) {x = 0 * mss} {y = 0} (omega arith)
