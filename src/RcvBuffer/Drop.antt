-- ===== src/RcvBuffer/Drop.antt =====
-- `dropUpTo`, `dropAll` and `dropMessage` of the receiver buffer (srt/srtcore/buffer_rcv.cpp). A result is
-- `none` if the search for the next message to read out of order has no end.
pub mod First
pub mod UpTo
use srtplay.Base.{
  ℕ, zero, suc, ◌+◌, ◌-◌, ◌==◌, leb, ◌&&◌, ◌||◌, not, if◌then◌else◌, Bool, true, false, Option,
  none, some,
}
use srtplay.Base.Int.{ℤ, pos, pos_part, ltb_ℤ, leb_ℤ}
use srtplay.SeqNo.{seqoff, incseq_by}
use srtplay.Packet.{get_msg_boundary, get_msg_seq, is_solo}
use srtplay.RcvBuffer.{
  Entry, RcvBuffer, empty, drop, drop_unit_in_pos, set_status, inc_pos, off_pos,
  release_next_filler_entries,
}
use srtplay.RcvBuffer.Position.{update_nonread_pos}
use srtplay.RcvBuffer.OutOfOrder.{
  check_first_readable_out_of_order, update_first_readable_out_of_order,
}
use srtplay.RcvBuffer.Query.{get_rcv_data_size}

-- The entry has a packet of the message `msgno`.
abbrev pub is_of_message : Bool → ℕ → Entry → Bool
is_of_message flag msgno e = elim e.unit [
  | none ↦ false
  | some u ↦ get_msg_seq flag u.packet == msgno
]

-- The entry has a packet that is a whole message.
abbrev pub is_solo_entry : Entry → Bool
is_solo_entry e = elim e.unit [ none ↦ false | some u ↦ is_solo (get_msg_boundary u.packet) ]

-- The entry at `i` becomes `EntryState_Drop`.
unfoldable pub drop_entry : RcvBuffer → ℕ → RcvBuffer
drop_entry b i = set_status (drop_unit_in_pos b i).1 i drop

-- What a loop of `dropMessage` goes on with: the count, and the offset of the first dropped entry.
pub record Dropped : Type 0 where
  pub buffer : RcvBuffer
  pub drop_cnt : ℕ
  pub min_offset : Option ℕ

module _ (size : ℕ) where
  -- One round of the loop of `dropUpTo`.
  unfoldable pub drop_first : RcvBuffer → RcvBuffer
  drop_first b =
      let b1 = set_status (drop_unit_in_pos b b.start_pos).1 b.start_pos empty in
      record b1 { start_pos = inc_pos size b.start_pos 1 }

  unfoldable pub drop_first_n : ℕ → RcvBuffer → RcvBuffer
  drop_first_n zero b = b
  drop_first_n (suc len) b = drop_first_n len (drop_first b)

  -- The entries and positions behind the drop of `len` entries, where `seqno` is the first that is kept.
  unfoldable pub move_start : RcvBuffer → ℕ → ℕ → RcvBuffer
  move_start b len seqno =
      let b1 = drop_first_n len (record b { max_pos_inc = b.max_pos_inc - len }) in
      let b2 = release_next_filler_entries size (record b1 { start_seq_no = seqno }) in
      update_nonread_pos size (record b2 { first_nonread_pos = b2.start_pos })

  unfoldable pub drop_up_to : RcvBuffer → ℕ → Option (ℕ × RcvBuffer)
  drop_up_to b seqno =
      let off = seqoff b.start_seq_no seqno in
      if leb_ℤ off (pos 0)
      then some (0, b)
      else (let b1 = move_start b (pos_part off) seqno in
          if not b1.tsbpd.tsbpd_mode && b1.message_api
          then elim (update_first_readable_out_of_order size b1) [
            | none ↦ none
            | some b2 ↦ some (pos_part off, b2)
          ]
          else some (pos_part off, b1))

  unfoldable pub drop_all : RcvBuffer → Option (ℕ × RcvBuffer)
  drop_all b =
      if b.max_pos_inc == 0
      then some (0, b)
      else drop_up_to b (incseq_by b.start_seq_no b.max_pos_inc)

  unfoldable pub note_dropped : Dropped → ℕ → Dropped
  note_dropped d i = record {
    buffer = drop_entry d.buffer i;
    drop_cnt = d.drop_cnt + 1;
    min_offset = elim d.min_offset [
      | none ↦ some (off_pos size d.buffer.start_pos i)
      | some o ↦ some o
    ];
  }

  -- The loop over the entries of the message `msgno`, from `i` to `end_pos`.
  unfoldable pub drop_of_message : ℕ → ℕ → ℕ → ℕ → Dropped → Dropped
  drop_of_message zero msgno end_pos i d = d
  drop_of_message (suc rounds) msgno end_pos i d =
      let go = λ (d' : Dropped). drop_of_message rounds msgno end_pos (inc_pos size i 1) d' in
      if i == end_pos
      then d
      else if is_of_message d.buffer.peer_rexmit_flag msgno (d.buffer.entries i)
      then go (note_dropped d i)
      else go d

  -- The loop over the entries from `i` to `end_pos` or `last_pos`, whichever comes first.
  unfoldable pub drop_range : ℕ → ℕ → ℕ → ℕ → Dropped → Dropped
  drop_range zero end_pos last_pos i d = d
  drop_range (suc rounds) end_pos last_pos i d =
      let go = λ (d' : Dropped). drop_range rounds end_pos last_pos (inc_pos size i 1) d' in
      if i == end_pos || i == last_pos
      then d
      else if is_solo_entry (d.buffer.entries i)
      then go d
      else go (note_dropped d i)

  -- Units in front of `m_iFirstNonreadPos` were dropped.
  abbrev pub needs_update : Dropped → Bool
  needs_update d = elim d.min_offset [
    | none ↦ false
    | some o ↦ leb o (get_rcv_data_size size d.buffer)
  ]

  -- What follows both loops.
  unfoldable pub after_drop : Dropped → Option (ℕ × RcvBuffer)
  after_drop d =
      let b1 = release_next_filler_entries size d.buffer in
      let b2 =
        if needs_update d
        then update_nonread_pos size (record b1 { first_nonread_pos = b1.start_pos })
        else b1 in
      if not b2.tsbpd.tsbpd_mode && b2.message_api
      then elim (update_first_readable_out_of_order size (
          if check_first_readable_out_of_order size b2
          then b2
          else record b2 { first_readable_out_of_order = none })) [
            | none ↦ none
            | some b3 ↦ some (d.drop_cnt, b3)
          ]
      else some (d.drop_cnt, b2)

  unfoldable pub drop_message : RcvBuffer → ℕ → ℕ → ℕ → Option (ℕ × RcvBuffer)
  drop_message b seqnolo seqnohi msgno =
      let end_pos = inc_pos size b.start_pos b.max_pos_inc in
      let d0 : Dropped = record { buffer = b; drop_cnt = 0; min_offset = none } in
      let offset_a = seqoff b.start_seq_no seqnolo in
      let offset_b = seqoff b.start_seq_no seqnohi in
      if not (msgno == 0)
      then after_drop (drop_of_message size msgno end_pos b.start_pos d0)
      else if ltb_ℤ offset_b (pos 0)
      then some (0, b)
      else after_drop (
          drop_range size end_pos (inc_pos size b.start_pos (pos_part offset_b))
            (inc_pos size b.start_pos (pos_part offset_a)) d0)
