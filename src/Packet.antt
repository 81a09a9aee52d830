-- ===== src/Packet.antt =====
-- The message number field of a packet's header (srt/srtcore/packet.h and packet.cpp), and the bit
-- fields of a 32-bit word (`Bits` of srt/srtcore/utilities.h).
use srtplay.Base.{
  ℕ, ◌+◌, ◌-◌, ◌*◌, ◌/◌, ◌%◌, ◌^◌, ◌==◌, if◌then◌else◌, not, Bool, true, false, List, length,
}

-- `Bits<L, R>::unwrap` and `wrap`. To take the bits of `mask` is to take those from `r` to `l`.
abbrev pub unwrap : ℕ → ℕ → ℕ → ℕ
unwrap l r bitset = bitset / 2 ^ r % 2 ^ (l - r + 1)

abbrev pub wrap : ℕ → ℕ → ℕ → ℕ
wrap l r baseval = unwrap l r (baseval * 2 ^ r % 2 ^ 32) * 2 ^ r

pub data PacketBoundary : Type 0 where
  subsequent : PacketBoundary
  last : PacketBoundary
  first : PacketBoundary
  solo : PacketBoundary

-- `PacketBoundary(n)`, where `n` has two bits.
unfoldable pub to_boundary : ℕ → PacketBoundary
to_boundary n =
    if n == 0 then subsequent else if n == 1 then last else if n == 2 then first else solo

-- `boundary & PB_FIRST` and `boundary & PB_LAST`
unfoldable pub has_first : PacketBoundary → Bool
has_first subsequent = false
has_first last = false
has_first first = true
has_first solo = true

unfoldable pub has_last : PacketBoundary → Bool
has_last subsequent = false
has_last last = true
has_last first = false
has_last solo = true

unfoldable pub is_solo : PacketBoundary → Bool
is_solo subsequent = false
is_solo last = false
is_solo first = false
is_solo solo = true

-- A data packet: the fields of its header that are read here, and its payload.
pub record Packet : Type 0 where
  pub seq_no : ℕ
  pub msgno_word : ℕ
  pub time_stamp : ℕ
  pub payload : List ℕ

unfoldable pub get_msg_boundary : Packet → PacketBoundary
get_msg_boundary p = to_boundary (unwrap 31 30 p.msgno_word)

unfoldable pub get_msg_order_flag : Packet → Bool
get_msg_order_flag p = not (unwrap 29 29 p.msgno_word == 0)

unfoldable pub get_msg_seq : Bool → Packet → ℕ
get_msg_seq true p = unwrap 25 0 p.msgno_word
get_msg_seq false p = unwrap 26 0 p.msgno_word

abbrev pub get_length : Packet → ℕ
get_length p = length p.payload
