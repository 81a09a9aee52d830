-- ===== src/RcvBuffer.antt =====
-- `CRcvBufferNew` (srt/srtcore/buffer_rcv.h and buffer_rcv.cpp): the receiver buffer, an array of entries
-- that goes round. The array is a function of its index, an index is a remainder by `m_szSize`, which is
-- the argument `size`, and -1 as a position is `none`. The number `m_iMaxPosInc` is not negative: the source
-- asserts it, or sets it to 0.
pub mod Position
pub mod OutOfOrder
pub mod Insert
pub mod Drop
pub mod Read
pub mod Stream
pub mod Query
pub mod Valid
pub mod Messages
pub mod Nonread
pub mod Invariant
pub mod Advance
pub mod Range
mod Tests
use srtplay.Base.{
  ℕ, zero, suc, ◌+◌, ◌-◌, ◌*◌, ◌/◌, ◌%◌, ◌^◌, ltb, leb, ◌==◌, ◌&&◌, ◌||◌, not, if◌then◌else◌, Bool,
  true, false, Option, none, some, List, update,
}
use srtplay.Base.Int.{ℤ, pos, pos_part, ◌+ℤ◌, ltb_ℤ}
use srtplay.SeqNo.{incseq}
use srtplay.Packet.{Packet, get_msg_order_flag}
use srtplay.UnitQueue.{UnitQueue, make_unit_free}
use srtplay.TsbpdTime.{TsbpdTime, update_tsbpd_time_base}

-- `CUnit`, without its flag, which is in the queue of the units.
pub record RcvUnit : Type 0 where
  pub unit_id : ℕ
  pub packet : Packet

pub data EntryStatus : Type 0 where
  empty : EntryStatus
  avail : EntryStatus
  read : EntryStatus
  drop : EntryStatus

abbrev pub is_avail : EntryStatus → Bool
is_avail empty = false
is_avail avail = true
is_avail read = false
is_avail drop = false

abbrev pub is_empty : EntryStatus → Bool
is_empty empty = true
is_empty avail = false
is_empty read = false
is_empty drop = false

-- Read out of order, or dropped.
abbrev pub is_filler : EntryStatus → Bool
is_filler empty = false
is_filler avail = false
is_filler read = true
is_filler drop = true

pub record Entry : Type 0 where
  pub unit : Option RcvUnit
  pub status : EntryStatus

abbrev pub no_entry : Entry
no_entry = record { unit = none; status = empty }

abbrev pub has_unit : Entry → Bool
has_unit e = elim e.unit [ none ↦ false | some u ↦ true ]

pub record RcvBuffer : Type 0 where
  pub entries : ℕ → Entry
  pub unit_queue : UnitQueue
  pub start_seq_no : ℕ
  pub start_pos : ℕ
  pub first_nonread_pos : ℕ
  pub max_pos_inc : ℕ
  pub notch : ℕ
  pub num_out_of_order_packets : ℕ
  pub first_readable_out_of_order : Option ℕ
  pub peer_rexmit_flag : Bool
  pub message_api : Bool
  pub tsbpd : TsbpdTime
  pub bytes_count : ℤ
  pub pkts_count : ℤ
  pub avg_payload_sz : ℕ

-- The constructor.
pub init : ℕ → UnitQueue → Bool → TsbpdTime → RcvBuffer
init init_seq_no unitqueue message_api tsbpd = record {
  entries = λ i. no_entry;
  unit_queue = unitqueue;
  start_seq_no = init_seq_no;
  start_pos = 0;
  first_nonread_pos = 0;
  max_pos_inc = 0;
  notch = 0;
  num_out_of_order_packets = 0;
  first_readable_out_of_order = none;
  peer_rexmit_flag = true;
  message_api = message_api;
  tsbpd = tsbpd;
  bytes_count = pos 0;
  pkts_count = pos 0;
  avg_payload_sz = 1316;
}

-- `--n` for a `size_t`.
abbrev pub decrement : ℕ → ℕ
decrement n = if n == 0 then 2 ^ 64 - 1 else n - 1

abbrev pub has_readable_inorder_pkts : RcvBuffer → Bool
has_readable_inorder_pkts b = not (b.first_nonread_pos == b.start_pos)

-- `avg_iir<100>` of the sizes that are added.
unfoldable pub count_bytes : RcvBuffer → ℤ → ℤ → RcvBuffer
count_bytes b pkts bytes = record b {
  bytes_count = b.bytes_count +ℤ bytes;
  pkts_count = b.pkts_count +ℤ pkts;
  avg_payload_sz =
      if ltb_ℤ (pos 0) bytes
      then (b.avg_payload_sz * 99 + pos_part bytes) / 100
      else b.avg_payload_sz;
}

unfoldable pub release_unit_in_pos : RcvBuffer → ℕ → RcvBuffer
release_unit_in_pos b i = record b {
  entries = update b.entries i no_entry;
  unit_queue = elim (b.entries i).unit [
    | none ↦ b.unit_queue
    | some u ↦ make_unit_free b.unit_queue u.unit_id
  ];
}

-- `a == b`, where `a` may be -1.
abbrev pub is_pos : Option ℕ → ℕ → Bool
is_pos none i = false
is_pos (some a) i = a == i

-- What a drop of the unit `u` at `i` does besides the release.
unfoldable pub note_drop : RcvBuffer → ℕ → RcvUnit → RcvBuffer
note_drop b i u =
    if b.tsbpd.tsbpd_mode
    then record b { tsbpd = update_tsbpd_time_base b.tsbpd u.packet.time_stamp }
    else if b.message_api && not (get_msg_order_flag u.packet)
    then record b {
      num_out_of_order_packets = decrement b.num_out_of_order_packets;
      first_readable_out_of_order =
          if is_pos b.first_readable_out_of_order i then none else b.first_readable_out_of_order;
    }
    else b

unfoldable pub drop_unit_in_pos : RcvBuffer → ℕ → Bool × RcvBuffer
drop_unit_in_pos b i = elim (b.entries i).unit [
  | none ↦ (false, b)
  | some u ↦ (true, release_unit_in_pos (note_drop b i u) i)
]

-- `m_entries[i].status = status`
abbrev pub set_status : RcvBuffer → ℕ → EntryStatus → RcvBuffer
set_status b i status = record b {
  entries = update b.entries i (record (b.entries i) { status = status });
}

module _ (size : ℕ) where
  abbrev pub capacity : ℕ
  capacity = size - 1

  unfoldable pub inc_pos : ℕ → ℕ → ℕ
  inc_pos i inc = (i + inc) % size

  unfoldable pub dec_pos : ℕ → ℕ
  dec_pos i = if i == 0 then size - 1 else i - 1

  unfoldable pub off_pos : ℕ → ℕ → ℕ
  off_pos pos1 pos2 = if leb pos1 pos2 then pos2 - pos1 else size + pos2 - pos1

  -- `isInRange`
  unfoldable pub is_in_range : ℕ → ℕ → ℕ → Bool
  is_in_range start_pos max_pos_inc first_nonread_pos =
      let last_pos = (start_pos + max_pos_inc) % size in
      if first_nonread_pos == start_pos
      then true
      else if ltb last_pos start_pos
      then ltb start_pos first_nonread_pos || leb first_nonread_pos last_pos
      else ltb start_pos first_nonread_pos && leb first_nonread_pos last_pos

  -- One round of the loop of `releaseNextFillerEntries`.
  unfoldable pub release_filler : RcvBuffer → RcvBuffer
  release_filler b =
      let b1 = release_unit_in_pos b b.start_pos in
      record b1 {
        start_seq_no = incseq b.start_seq_no;
        start_pos = inc_pos b.start_pos 1;
        max_pos_inc = b.max_pos_inc - 1;
      }

  -- The loop, at most `rounds` times.
  unfoldable pub release_fillers : ℕ → RcvBuffer → RcvBuffer
  release_fillers zero b = b
  release_fillers (suc rounds) b =
      let rest = release_fillers rounds (release_filler b) in
      if is_filler (b.entries b.start_pos).status then rest else b

  abbrev pub release_next_filler_entries : RcvBuffer → RcvBuffer
  release_next_filler_entries b = release_fillers size b
