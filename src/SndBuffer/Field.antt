-- ===== src/SndBuffer/Field.antt =====
-- The message number field that `addBuffer` and `readData` write (srt/srtcore/buffer.cpp), as the packet's methods
-- read it (srt/srtcore/packet.cpp).
use Prim.Native.Nat.{bit_or}
use srtplay.Base.{
  ℕ, ◌+◌, ◌*◌, ◌^◌, ◌<◌, ◌≡◌, refl, ap, ◌∙◌, arith, ◌==◌, if◌then◌else◌, not, Bool, true, false,
  some, List,
}
use srtplay.Base.Bits.{shl, bit_or_field}
use srtplay.Packet.{
  Packet, unwrap, wrap, to_boundary, has_first, has_last, get_msg_boundary, get_msg_order_flag,
  get_msg_seq,
}
use srtplay.SndBuffer.{SndBuffer, MsgCtrl, bitset_of, packet_block}
use srtplay.SndBuffer.Read.{with_key}

abbrev digit : Bool → ℕ
digit true = 1
digit false = 0

-- One more bit.
or_bit :
    (c : Bool) (k a u v : ℕ)
    → a ≡ shl (shl u 1) k + v
    → v < shl 1 k
    → bit_or a (shl (digit c) k) ≡ a + shl (digit c) k
or_bit c k a u v e lt = bit_or_field k 1 a u v (digit c) e lt (ground arith)

module _ (msgno : ℕ) (lt : msgno < 2 ^ 26) where
  with_order : (o : Bool) → bit_or msgno (if o then 2 ^ 29 else 0) ≡ msgno + digit o * 2 ^ 29
  with_order true = or_bit true 29 msgno 0 msgno (omega arith) (omega (arith, lt)) ∙ omega arith
  with_order false = or_bit false 29 msgno 0 msgno (omega arith) (omega (arith, lt)) ∙ omega arith

  with_first :
      (a : ℕ) (f : Bool) → a < 2 ^ 31 → (if f then bit_or a (2 ^ 31) else a) ≡ a + digit f * 2 ^ 31
  with_first a true a_lt = or_bit true 31 a 0 a (omega arith) (omega (arith, a_lt)) ∙ omega arith
  with_first a false a_lt = omega arith

  with_last :
      (a : ℕ) (f l : Bool)
      → a < 2 ^ 30
      → (if l then bit_or (a + digit f * 2 ^ 31) (2 ^ 30) else a + digit f * 2 ^ 31)
        ≡ a + digit f * 2 ^ 31 + digit l * 2 ^ 30
  with_last a f true a_lt =
      or_bit true 30 (a + digit f * 2 ^ 31) (digit f) a (omega arith) (omega (arith, a_lt))
      ∙ omega arith
  with_last a f false a_lt = omega arith

  digit_lt : (c : Bool) → digit c < 2
  digit_lt true = omega arith
  digit_lt false = omega arith

  bitset_of-sum :
      (o : Bool) (i size : ℕ)
      → bitset_of msgno o i size
        ≡ msgno + digit o * 2 ^ 29 + digit (i == 0) * 2 ^ 31 + digit (i + 1 == size) * 2 ^ 30
  bitset_of-sum o i size =
      let bound = digit_lt o in
      ap
        (λ a.
          let b = if i == 0 then bit_or a (2 ^ 31) else a in
          if i + 1 == size then bit_or b (2 ^ 30) else b)
        (with_order o)
      ∙ ap (λ b. if i + 1 == size then bit_or b (2 ^ 30) else b)
          (with_first (msgno + digit o * 2 ^ 29) (i == 0) (omega (arith, lt, bound)))
      ∙ with_last (msgno + digit o * 2 ^ 29) (i == 0) (i + 1 == size) (omega (arith, lt, bound))

  -- With the encryption key flags.
  with_flags :
      (kflgs : ℕ) (o f l : Bool)
      → kflgs < 4
      → bit_or (msgno + digit o * 2 ^ 29 + digit f * 2 ^ 31 + digit l * 2 ^ 30) (wrap 28 27 kflgs)
        ≡ msgno + kflgs * 2 ^ 27 + digit o * 2 ^ 29 + digit f * 2 ^ 31 + digit l * 2 ^ 30
  with_flags kflgs o f l k_lt =
      let word = msgno + digit o * 2 ^ 29 + digit f * 2 ^ 31 + digit l * 2 ^ 30 in
      let field : wrap 28 27 kflgs ≡ shl kflgs 27 = omega (arith, k_lt) in
      ap (bit_or word) field
      ∙ bit_or_field 27 2 word (digit o + digit f * 4 + digit l * 2) msgno kflgs (omega arith)
          (omega (arith, lt)) (omega (arith, k_lt))
      ∙ omega arith

has_first-digits : (f l : Bool) → has_first (to_boundary (digit f * 2 + digit l)) ≡ f
unfolding to_boundary has_first
has_first-digits true true = refl
has_first-digits true false = refl
has_first-digits false true = refl
has_first-digits false false = refl

has_last-digits : (f l : Bool) → has_last (to_boundary (digit f * 2 + digit l)) ≡ l
unfolding to_boundary has_last
has_last-digits true true = refl
has_last-digits true false = refl
has_last-digits false true = refl
has_last-digits false false = refl

digit-not_zero : (o : Bool) → not (digit o == 0) ≡ o
digit-not_zero true = refl
digit-not_zero false = refl

-- The message number field of the packet `i` of `size` of a message that `addBuffer` stored and `readData` gave the
-- key flags is read back by the methods of the packet: the number of the message, whether it is to be read in order,
-- the key flags, and a boundary that has the first packet just for `i` 0 and the last just for `i + 1` of `size`.
pub packet_block-read :
    (b : SndBuffer) (bytes : List ℕ) (ctrl : MsgCtrl) (size i seqno next kflgs : ℕ) (p : Packet)
    → b.next_msg_no < 2 ^ 26
    → kflgs < 4
    → p.msgno_word
      ≡ (with_key (some kflgs) (packet_block b bytes ctrl size i seqno next)).msgno_bitset
    → (get_msg_seq true p ≡ b.next_msg_no)
      × (get_msg_order_flag p ≡ ctrl.inorder)
      × (unwrap 28 27 p.msgno_word ≡ kflgs)
      × (has_first (get_msg_boundary p) ≡ (i == 0))
      × (has_last (get_msg_boundary p) ≡ (i + 1 == size))
unfolding packet_block get_msg_seq get_msg_order_flag get_msg_boundary
packet_block-read b bytes ctrl size i seqno next kflgs p lt k_lt e =
    let o = ctrl.inorder in
    let f = i == 0 in
    let l = i + 1 == size in
    let o_lt = digit_lt b.next_msg_no lt o in
    let f_lt = digit_lt b.next_msg_no lt f in
    let l_lt = digit_lt b.next_msg_no lt l in
    let word =
      e
      ∙ ap (λ a. bit_or a (wrap 28 27 kflgs)) (bitset_of-sum b.next_msg_no lt o i size)
      ∙ with_flags b.next_msg_no lt kflgs o f l k_lt in
    let order : unwrap 29 29 p.msgno_word ≡ digit o =
      omega (arith, word, lt, k_lt, o_lt, f_lt, l_lt) in
    let boundary : unwrap 31 30 p.msgno_word ≡ digit f * 2 + digit l =
      omega (arith, word, lt, k_lt, o_lt, f_lt, l_lt) in
    (
      omega (arith, word, lt, k_lt, o_lt, f_lt, l_lt),
      ap (λ n. not (n == 0)) order ∙ digit-not_zero o,
      omega (arith, word, lt, k_lt, o_lt, f_lt, l_lt),
      ap (λ n. has_first (to_boundary n)) boundary ∙ has_first-digits f l,
      ap (λ n. has_last (to_boundary n)) boundary ∙ has_last-digits f l,
    )
