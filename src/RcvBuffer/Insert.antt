-- ===== src/RcvBuffer/Insert.antt =====
-- `CRcvBufferNew::insert` (srt/srtcore/buffer_rcv.cpp).
pub mod Outcome
use srtplay.Base.{
  ℕ, ◌+◌, ◌-◌, ◌%◌, ◌^◌, leb, ◌&&◌, not, if◌then◌else◌, Bool, true, false, some, update,
}
use srtplay.Base.Int.{ℤ, pos, negsuc, pos_part, ltb_ℤ, leb_ℤ}
use srtplay.SeqNo.{seqoff}
use srtplay.Packet.{get_length, get_msg_order_flag}
use srtplay.UnitQueue.{make_unit_good}
use srtplay.RcvBuffer.{RcvUnit, RcvBuffer, avail, is_empty, count_bytes, capacity}
use srtplay.RcvBuffer.Position.{update_nonread_pos}
use srtplay.RcvBuffer.OutOfOrder.{on_insert_not_in_order_packet}

-- The entry at the place `i`, and the counts.
unfoldable pub put_unit : RcvBuffer → RcvUnit → ℕ → RcvBuffer
put_unit b u i =
    count_bytes
      (record b {
        unit_queue = make_unit_good b.unit_queue u.unit_id;
        entries = update b.entries i (record { unit = some u; status = avail });
      })
      (pos 1) (pos (get_length u.packet))

module _ (size : ℕ) where
  -- A packet that may be read out of order.
  unfoldable pub note_insert : RcvBuffer → RcvUnit → ℕ → RcvBuffer
  note_insert b u i =
      if not b.tsbpd.tsbpd_mode && b.message_api && not (get_msg_order_flag u.packet)
      then on_insert_not_in_order_packet size
          (record b { num_out_of_order_packets = (b.num_out_of_order_packets + 1) % 2 ^ 64 }) i
          u.packet
      else b

  -- `m_iMaxPosInc` for a packet at `offset`.
  unfoldable pub extend_to : RcvBuffer → ℕ → RcvBuffer
  extend_to b offset = record b {
    max_pos_inc = if leb b.max_pos_inc offset then offset + 1 else b.max_pos_inc;
  }

  -- From the place of the packet on.
  unfoldable pub insert_at : RcvBuffer → RcvUnit → ℕ → ℤ × RcvBuffer
  insert_at b u offset =
      let i = (b.start_pos + offset) % size in
      let b1 = extend_to b offset in
      if not (is_empty (b1.entries i).status)
      then (negsuc 0, b1)
      else (pos 0, update_nonread_pos size (note_insert (put_unit b1 u i) u i))

  unfoldable pub insert : RcvBuffer → RcvUnit → ℤ × RcvBuffer
  insert b u =
      let offset = seqoff b.start_seq_no u.packet.seq_no in
      if ltb_ℤ offset (pos 0)
      then (negsuc 1, b)
      else if leb_ℤ (pos (capacity size)) offset
      then (negsuc 2, b)
      else insert_at b u (pos_part offset)
