-- ===== src/SndBuffer.antt =====
-- `CSndBuffer` (srt/srtcore/buffer.h and buffer.cpp): the packets that are not yet acknowledged, in a ring of
-- blocks that grows.
-- The blocks are named by numbers, in the order in which they were made, and linked by `next`. Bytes are numbers,
-- times are in microseconds, 0 where they are not set. The running averages of the buffer's size, which are
-- floating-point numbers for the statistics, are left out. Memory for a larger ring can be had. What would be a
-- fault, a count that would go below 0, and a loop that has no end, result in `none`.
pub mod Read
pub mod Release
pub mod File
pub mod Ring
pub mod Holds
pub mod Room
pub mod Message
pub mod Fill
pub mod Add
pub mod Leave
pub mod Late
pub mod Change
pub mod Current
pub mod Sent
pub mod Field
pub mod Rexmit
pub mod Start
mod Tests
use Prim.Native.Nat.{bit_or}
use srtplay.Base.{
  ℕ, zero, suc, ◌+◌, ◌-◌, ◌*◌, ◌/◌, ◌%◌, ◌^◌, min, ltb, leb, ◌==◌, ◌&&◌, not, if◌then◌else◌, Bool,
  true, false, Option, none, some, update, List, [], ◌∷◌, length, take, drop, ◌>>=◌,
}
use srtplay.Packet.{unwrap, wrap}
use srtplay.RateEstimator
use srtplay.RateEstimator.{RateEstimator, update_input_rate}
use srtplay.SeqNo.{incseq}

pub record Block : Type 0 where
  pub payload : List ℕ
  pub msgno_bitset : ℕ
  pub seq_no : ℕ
  pub origin_time : ℕ
  pub rexmit_time : ℕ
  pub ttl : Option ℕ
  pub next : ℕ

pub record SndBuffer : Type 0 where
  pub blocks : ℕ → Block
  pub made : ℕ
  pub first_block : ℕ
  pub curr_block : ℕ
  pub last_block : ℕ
  pub next_msg_no : ℕ
  pub size : ℕ
  pub unit_size : ℕ
  pub mss : ℕ
  pub count : ℕ
  pub bytes_count : ℕ
  pub last_origin_time : ℕ
  pub rate : RateEstimator

abbrev pub next_of : SndBuffer → ℕ → ℕ
next_of b s = (b.blocks s).next

abbrev pub new_block : ℕ → Block
new_block next = record {
  payload = [];
  msgno_bitset = 0;
  seq_no = 0;
  origin_time = 0;
  rexmit_time = 0;
  ttl = none;
  next = next;
}

unfoldable pub init : ℕ → ℕ → SndBuffer
init size mss = record {
  blocks = λ i. new_block (if i + 1 == size then 0 else i + 1);
  made = size;
  first_block = 0;
  curr_block = 0;
  last_block = 0;
  next_msg_no = 1;
  size = size;
  unit_size = size;
  mss = mss;
  count = 0;
  bytes_count = 0;
  last_origin_time = 0;
  rate = RateEstimator.init;
}

-- `a - b` of counts.
abbrev pub less : ℕ → ℕ → Option ℕ
less a b = if leb b a then some (a - b) else none

-- `getMsgSeq`
abbrev pub msg_seq : Block → ℕ
msg_seq s = s.msgno_bitset % 2 ^ 26

-- `++MsgNo(n)`
abbrev pub next_msgno : ℕ → ℕ
next_msgno n = if ltb 0x3FFFFFF (n + 1) then 1 else n + 1

-- The new blocks stand behind the last one, which links to the first of them.
unfoldable pub spliced : SndBuffer → ℕ → Block
spliced b i =
    if i == b.last_block
    then record (b.blocks i) { next = b.made }
    else if leb b.made i && ltb i (b.made + b.unit_size)
    then new_block (if i + 1 == b.made + b.unit_size then next_of b b.last_block else i + 1)
    else b.blocks i

unfoldable pub increase : SndBuffer → SndBuffer
increase b = record b {
  blocks = spliced b;
  made = b.made + b.unit_size;
  size = b.size + b.unit_size;
}

-- Until there is room for `more` packets, and one is free.
unfoldable pub make_room : ℕ → SndBuffer → ℕ → Option SndBuffer
make_room zero b more = none
make_room (suc rounds) b more = elim (leb b.size (more + b.count)) [
  | true ↦ make_room rounds (increase b) more
  | false ↦ some b
]

-- How many packets of `mss` bytes hold `len` bytes.
abbrev pub packets_of : ℕ → ℕ → ℕ
packets_of mss len = len / mss + (if len % mss == 0 then 0 else 1)

-- `SRT_MSGCTRL`, as far as it is used; no message number is SRT_MSGNO_NONE, no TTL a negative one.
pub record MsgCtrl : Type 0 where
  pub msgno : Option ℕ
  pub pktseq : ℕ
  pub srctime : ℕ
  pub msgttl : Option ℕ
  pub inorder : Bool

-- The message number field of the packet `i` of `size`.
abbrev pub bitset_of : ℕ → Bool → ℕ → ℕ → ℕ
bitset_of msgno inorder i size =
    let plain = bit_or msgno (if inorder then 2 ^ 29 else 0) in
    let with_first = if i == 0 then bit_or plain (2 ^ 31) else plain in
    if i + 1 == size then bit_or with_first (2 ^ 30) else with_first

-- The part `i` of the data.
abbrev pub part : List ℕ → ℕ → ℕ → List ℕ
part bytes mss i = take (min (length bytes - i * mss) mss) (drop (i * mss) bytes)

-- The packet `i` of `size` of a message.
unfoldable pub packet_block : SndBuffer → List ℕ → MsgCtrl → ℕ → ℕ → ℕ → ℕ → Block
packet_block b bytes ctrl size i seqno next = record {
  payload = part bytes b.mss i;
  msgno_bitset = bitset_of b.next_msg_no ctrl.inorder i size;
  seq_no = seqno;
  origin_time = b.last_origin_time;
  rexmit_time = 0;
  ttl = ctrl.msgttl;
  next = next;
}

-- The rest of the packets, from packet `i` on, at the block `s`: the block behind them, and the next number.
unfoldable pub fill : ℕ → SndBuffer → List ℕ → MsgCtrl → ℕ → ℕ → ℕ → ℕ → SndBuffer × ℕ × ℕ
fill zero b bytes ctrl size i s seqno = (b, s, seqno)
fill (suc rest) b bytes ctrl size i s seqno =
    fill rest
      (record b {
        blocks = update b.blocks s (packet_block b bytes ctrl size i seqno (next_of b s));
      })
      bytes ctrl size (i + 1) (next_of b s) (incseq seqno)

-- `m_tsLastOriginTime` and `m_iNextMsgNo` of the message.
unfoldable pub note_message : SndBuffer → MsgCtrl → ℕ → SndBuffer
note_message b ctrl now = record b {
  last_origin_time = if ctrl.srctime == 0 then now else ctrl.srctime;
  next_msg_no = elim ctrl.msgno [ none ↦ b.next_msg_no | some n ↦ n ];
}

-- `m_pLastBlock`, the counts, the rate and the next message number; the control data as it is written back.
unfoldable pub note_added : List ℕ → MsgCtrl → ℕ → SndBuffer × ℕ × ℕ → Option (MsgCtrl × SndBuffer)
note_added bytes ctrl size (b, s, seqno) =
    update_input_rate b.rate b.last_origin_time size (length bytes) >>= λ rate. some (
      record ctrl { msgno = some b.next_msg_no; pktseq = seqno; srctime = b.last_origin_time },
      record b {
        last_block = s;
        count = b.count + size;
        bytes_count = b.bytes_count + length bytes;
        rate = rate;
        next_msg_no = next_msgno b.next_msg_no;
      },
    )

unfoldable pub add_buffer : SndBuffer → List ℕ → MsgCtrl → ℕ → Option (MsgCtrl × SndBuffer)
add_buffer b bytes ctrl now =
    let size = packets_of b.mss (length bytes) in
    make_room (size + b.count + 1) b size >>= λ b1.
    let b2 = note_message b1 ctrl now in
    note_added bytes ctrl size (fill size b2 bytes ctrl size 0 b2.last_block ctrl.pktseq)
