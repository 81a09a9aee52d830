-- ===== src/RcvBuffer/Position.antt =====
-- `updateNonreadPos` and `findLastMessagePkt` of the receiver buffer.
use srtplay.Base.{
  ℕ, zero, suc, ◌==◌, ◌&&◌, ◌||◌, not, if◌then◌else◌, Bool, true, false, Option, none, some,
}
use srtplay.Packet.{get_msg_boundary, has_first, has_last}
use srtplay.RcvBuffer.{Entry, RcvBuffer, has_unit, is_avail, inc_pos}

-- The packet of the entry has the mark of a message's first packet, or of its last one.
abbrev pub starts_message : Entry → Bool
starts_message e = elim e.unit [ none ↦ false | some u ↦ has_first (get_msg_boundary u.packet) ]

abbrev pub ends_message : Entry → Bool
ends_message e = elim e.unit [ none ↦ false | some u ↦ has_last (get_msg_boundary u.packet) ]

module _ (size : ℕ) where
  -- The inner loop from `i` on, for the message that starts at `start`: the place behind its last packet.
  unfoldable pub message_end : ℕ → RcvBuffer → ℕ → ℕ → ℕ → Option ℕ
  message_end zero b end_pos start i = none
  message_end (suc rounds) b end_pos start i =
      let rest = message_end rounds b end_pos start (inc_pos size i 1) in
      if i == end_pos
      then none
      else if not (has_unit (b.entries i)) || not (is_avail (b.entries start).status)
      then none
      else if not b.message_api || ends_message (b.entries i)
      then some (inc_pos size i 1)
      else rest

  -- The outer loop, where `i` is `m_iFirstNonreadPos`.
  unfoldable pub nonread_from : ℕ → RcvBuffer → ℕ → ℕ → ℕ
  nonread_from zero b end_pos i = i
  nonread_from (suc rounds) b end_pos i =
      if not (has_unit (b.entries i) && is_avail (b.entries i).status)
      then i
      else if b.message_api && not (starts_message (b.entries i))
      then i
      else elim (message_end size b end_pos i i) [
        | none ↦ i
        | some next ↦ elim (next == i || not (has_unit (b.entries next))) [
          | true ↦ next
          | false ↦ nonread_from rounds b end_pos next
        ]
      ]

  unfoldable pub update_nonread_pos : RcvBuffer → RcvBuffer
  update_nonread_pos b = if b.max_pos_inc == 0 then b else record b {
    first_nonread_pos =
        nonread_from size b (inc_pos size b.start_pos b.max_pos_inc) b.first_nonread_pos;
  }

  -- The loop of `findLastMessagePkt` from `i` on.
  unfoldable pub last_message_pkt_from : ℕ → RcvBuffer → ℕ → Option ℕ
  last_message_pkt_from zero b i = none
  last_message_pkt_from (suc rounds) b i =
      let rest = last_message_pkt_from rounds b (inc_pos size i 1) in
      if i == b.first_nonread_pos then none else if ends_message (b.entries i) then some i else rest

  abbrev pub find_last_message_pkt : RcvBuffer → Option ℕ
  find_last_message_pkt b = last_message_pkt_from size b b.start_pos
