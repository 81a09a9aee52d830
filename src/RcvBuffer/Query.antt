-- ===== src/RcvBuffer/Query.antt =====
-- What the receiver buffer is asked for (srt/srtcore/buffer_rcv.cpp and buffer_rcv.h): how much there is to
-- read, and when. A time is in microseconds, the clock is an argument, and the `-1` of a sequence number
-- is `none`.
use srtplay.Base.{
  ℕ, zero, suc, ◌+◌, ◌-◌, ◌/◌, ◌%◌, ◌^◌, leb, ◌==◌, ◌&&◌, ◌||◌, not, if◌then◌else◌, Bool, true,
  false, Option, none, some,
}
use srtplay.Base.Int.{ℤ, pos, pos_part, ◌-ℤ◌, ltb_ℤ, leb_ℤ}
use srtplay.SeqNo.{seqcmp, seqlen, incseq_by}
use srtplay.Packet.{Packet}
use srtplay.TsbpdTime.{get_pkt_tsbpd_time}
use srtplay.RcvBuffer.{RcvBuffer, has_readable_inorder_pkts, capacity, inc_pos}

-- `PacketInfo`
pub record PacketInfo : Type 0 where
  pub seqno : Option ℕ
  pub seq_gap : Bool
  pub tsbpd_time : ℤ

abbrev pub no_packet : PacketInfo
no_packet = record { seqno = none; seq_gap = false; tsbpd_time = pos 0 }

abbrev has_out_of_order : RcvBuffer → Bool
has_out_of_order b =
    not (b.num_out_of_order_packets == 0)
    && (elim b.first_readable_out_of_order [ none ↦ false | some i ↦ true ])

abbrev time_of : RcvBuffer → Packet → ℤ
time_of b p = get_pkt_tsbpd_time b.tsbpd p.time_stamp

unfoldable pub has_available_packets : RcvBuffer → Bool
has_available_packets b = has_readable_inorder_pkts b || has_out_of_order b

module _ (size : ℕ) where
  unfoldable pub get_rcv_data_size : RcvBuffer → ℕ
  get_rcv_data_size b =
      if leb b.start_pos b.first_nonread_pos
      then b.first_nonread_pos - b.start_pos
      else size + b.first_nonread_pos - b.start_pos

  unfoldable pub count_readable : RcvBuffer → ℕ
  count_readable b =
      if leb b.start_pos b.first_nonread_pos
      then b.first_nonread_pos - b.start_pos
      else size + b.first_nonread_pos - b.start_pos

  unfoldable pub get_available_packets_range : RcvBuffer → ℕ × ℕ
  get_available_packets_range b = (b.start_seq_no, incseq_by b.start_seq_no (count_readable b))

  -- A `size_t`.
  unfoldable pub get_avail_size : RcvBuffer → ℕ → ℕ
  get_avail_size b first_unack =
      if leb_ℤ (pos 0) (seqcmp b.start_seq_no first_unack)
      then (capacity size + 2 ^ 64 - seqlen first_unack b.start_seq_no + 1) % 2 ^ 64
      else (capacity size + 2 ^ 64 - seqlen b.start_seq_no first_unack + 1) % 2 ^ 64

  -- The loop of `getFirstValidPacketInfo` from `i` on.
  pub first_valid_from : ℕ → RcvBuffer → ℕ → PacketInfo
  first_valid_from zero b i = no_packet
  first_valid_from (suc rounds) b i =
      let rest = first_valid_from rounds b (inc_pos size i 1) in
      if i == inc_pos size b.start_pos b.max_pos_inc then no_packet else elim (b.entries i).unit [
        | none ↦ rest
        | some u ↦ record {
          seqno = some u.packet.seq_no;
          seq_gap = not (i == b.start_pos);
          tsbpd_time = time_of b u.packet;
        }
      ]

  unfoldable pub get_first_valid_packet_info : RcvBuffer → PacketInfo
  get_first_valid_packet_info b = first_valid_from size b b.start_pos

  pub is_rcv_data_ready : RcvBuffer → ℤ → Bool
  is_rcv_data_ready b time_now =
      let have_inorder = has_readable_inorder_pkts b in
      if not b.tsbpd.tsbpd_mode
      then have_inorder || has_out_of_order b
      else have_inorder && leb_ℤ (get_first_valid_packet_info b).tsbpd_time time_now

  -- The packet at a place whose entry the source reads without a test.
  abbrev packet_at : RcvBuffer → ℕ → Bool → PacketInfo
  packet_at b i gap = elim (b.entries i).unit [
    | none ↦ no_packet
    | some u ↦ record { seqno = some u.packet.seq_no; seq_gap = gap; tsbpd_time = pos 0 }
  ]

  pub get_first_readable_packet_info : RcvBuffer → ℤ → PacketInfo
  get_first_readable_packet_info b time_now =
      if not b.tsbpd.tsbpd_mode
      then (if has_readable_inorder_pkts b
          then packet_at b b.start_pos false
          else elim b.first_readable_out_of_order [
            | none ↦ no_packet
            | some i ↦ packet_at b i true
          ])
      else if not (has_readable_inorder_pkts b)
      then no_packet
      else (let info = get_first_valid_packet_info b in
          if leb_ℤ info.tsbpd_time time_now then info else no_packet)

  -- The loop of `getTimespan_ms`: the first place from `i` on, up to `lastpos`, with a unit.
  pub first_unit_from : ℕ → RcvBuffer → ℕ → ℕ → Option Packet
  first_unit_from zero b lastpos i = none
  first_unit_from (suc rounds) b lastpos i =
      let rest = first_unit_from rounds b lastpos (inc_pos size i 1) in
      elim (b.entries i).unit [
        | none ↦ if i == lastpos then none else rest
        | some u ↦ some u.packet
      ]

  pub get_timespan_ms : RcvBuffer → ℕ
  get_timespan_ms b =
      let lastpos = inc_pos size b.start_pos (b.max_pos_inc - 1) in
      if not b.tsbpd.tsbpd_mode
      then 0
      else if b.max_pos_inc == 0
      then 0
      else elim (first_unit_from size b lastpos b.start_pos) [
        | none ↦ 0
        | some p ↦ elim (b.entries lastpos).unit [
          | none ↦ 0
          | some u ↦
              let startstamp = time_of b p in
              let endstamp = time_of b u.packet in
              if ltb_ℤ endstamp startstamp then 0 else pos_part (endstamp -ℤ startstamp) / 1000 + 1
        ]
      ]
