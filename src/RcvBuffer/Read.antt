-- ===== src/RcvBuffer/Read.antt =====
-- `CRcvBufferNew::readMessage` (srt/srtcore/buffer_rcv.cpp). What is written to `data` is the list `dst`.
pub mod Run
pub mod Message
use srtplay.Base.{
  ℕ, zero, suc, ◌+◌, ◌-◌, ◌==◌, ◌&&◌, not, min, if◌then◌else◌, Bool, true, false, Option, none,
  some, List, [], ◌++◌, take,
}
use srtplay.Base.Int.{ℤ, pos, neg}
use srtplay.SeqNo.{incseq}
use srtplay.Packet.{
  Packet, get_length, get_msg_boundary, get_msg_order_flag, get_msg_seq, has_first, has_last,
}
use srtplay.TsbpdTime.{get_pkt_tsbpd_time, update_tsbpd_time_base}
use srtplay.RcvBuffer.{
  RcvUnit, RcvBuffer, read, count_bytes, has_readable_inorder_pkts, inc_pos, is_in_range, is_pos,
  release_unit_in_pos, release_next_filler_entries, set_status,
}
use srtplay.RcvBuffer.OutOfOrder.{update_first_readable_out_of_order}

-- The fields of `SRT_MSGCTRL` that are set.
pub record MsgCtrl : Type 0 where
  pub msgno : ℤ
  pub srctime : ℤ
  pub pktseq : ℤ

-- The state of the loop.
pub record Reading : Type 0 where
  pub buffer : RcvBuffer
  pub remain : ℕ
  pub dst : List ℕ
  pub pkts_read : ℕ
  pub bytes_extracted : ℕ
  pub msgctrl : Option MsgCtrl

-- What the packet at hand leaves in the control data.
pub note_ctrl : RcvBuffer → Packet → MsgCtrl → MsgCtrl
note_ctrl b p c =
    let boundary = get_msg_boundary p in
    record {
      msgno = if has_first boundary then pos (get_msg_seq b.peer_rexmit_flag p) else c.msgno;
      srctime = if has_last boundary then get_pkt_tsbpd_time b.tsbpd p.time_stamp else c.srctime;
      pktseq = pos p.seq_no;
    }

-- The time base and the number of packets that may be read out of order, as a packet is read.
unfoldable pub note_read : RcvBuffer → Packet → RcvBuffer
note_read b p = record b {
  tsbpd = if b.tsbpd.tsbpd_mode then update_tsbpd_time_base b.tsbpd p.time_stamp else b.tsbpd;
  num_out_of_order_packets =
      if not (b.num_out_of_order_packets == 0) && not (get_msg_order_flag p)
      then b.num_out_of_order_packets - 1
      else b.num_out_of_order_packets;
}

-- The bytes of a packet.
unfoldable pub take_packet : Reading → Packet → Reading
take_packet s p =
    let unitsize = min s.remain (get_length p) in
    let b1 = note_read s.buffer p in
    record {
      buffer = b1;
      remain = s.remain - unitsize;
      dst = s.dst ++ take unitsize p.payload;
      pkts_read = s.pkts_read + 1;
      bytes_extracted = s.bytes_extracted + get_length p;
      msgctrl = elim s.msgctrl [ none ↦ none | some c ↦ some (note_ctrl b1 p c) ];
    }

-- After the last packet of the message that was read from `read_pos` on.
unfoldable pub end_message : RcvBuffer → ℕ → RcvBuffer
end_message b read_pos = record b {
  first_readable_out_of_order =
      if is_pos b.first_readable_out_of_order read_pos then none else b.first_readable_out_of_order;
}

module _ (size : ℕ) where
  -- The entry of a packet that was read, and the start of the buffer if it moves.
  unfoldable pub release_read : RcvBuffer → Bool → ℕ → Packet → RcvBuffer
  release_read b true i p =
      let b1 = release_unit_in_pos b i in
      record b1 {
        start_pos = inc_pos size i 1;
        max_pos_inc = b1.max_pos_inc - 1;
        start_seq_no = incseq p.seq_no;
      }
  release_read b false i p = set_status (release_unit_in_pos b i) i read

  -- One round of the loop, for the unit at `i`.
  unfoldable pub read_packet : Bool → ℕ → Packet → Reading → Reading
  read_packet update_start i p s =
      let s1 = take_packet s p in record s1 { buffer = release_read s1.buffer update_start i p }

  -- The loop from `i` on. An entry that was read has no unit, so `size + 1` rounds are enough.
  unfoldable pub read_packets : ℕ → Bool → ℕ → ℕ → Reading → Reading
  read_packets zero update_start read_pos i s = s
  read_packets (suc rounds) update_start read_pos i s = elim (s.buffer.entries i).unit [
    | none ↦ s
    | some u ↦
        let s1 = read_packet update_start i u.packet s in
        let rest = read_packets rounds update_start read_pos (inc_pos size i 1) s1 in
        if has_last (get_msg_boundary u.packet)
        then record s1 { buffer = end_message s1.buffer read_pos }
        else rest
  ]

  -- The positions after the loop.
  unfoldable pub close_read : Reading → RcvBuffer
  close_read s =
      let b1 =
        release_next_filler_entries size
          (count_bytes s.buffer (neg (pos s.pkts_read)) (neg (pos s.bytes_extracted))) in
      if is_in_range size b1.start_pos b1.max_pos_inc b1.first_nonread_pos
      then b1
      else record b1 { first_nonread_pos = b1.start_pos }

  -- The loop, the counts and the positions, for the message at `read_pos`.
  unfoldable pub read_from : RcvBuffer → ℕ → ℕ → Option MsgCtrl → Reading
  read_from b read_pos len msgctrl =
      let s = read_packets (size + 1) (read_pos == b.start_pos) read_pos read_pos (record {
        buffer = b;
        remain = len;
        dst = [];
        pkts_read = 0;
        bytes_extracted = 0;
        msgctrl = msgctrl;
      }) in
      record s { buffer = close_read s }

  -- Where the next message is.
  unfoldable pub read_pos : RcvBuffer → Option ℕ
  read_pos b =
      if has_readable_inorder_pkts b then some b.start_pos else b.first_readable_out_of_order

  -- The bytes, the control data and the buffer; the number of bytes is the source's result. `none` if the
  -- search for the next message to read out of order has no end.
  unfoldable pub read_message :
      RcvBuffer → ℕ → Option MsgCtrl → Option (List ℕ × Option MsgCtrl × RcvBuffer)
  read_message b len msgctrl = elim (read_pos b) [
    | none ↦ some ([], msgctrl, b)
    | some at ↦
        let s = read_from b at len msgctrl in
        if s.buffer.tsbpd.tsbpd_mode
        then some (s.dst, s.msgctrl, s.buffer)
        else elim (update_first_readable_out_of_order size s.buffer) [
          | none ↦ none
          | some b1 ↦ some (s.dst, s.msgctrl, b1)
        ]
  ]
