-- ===== src/RcvBuffer/OutOfOrder.antt =====
-- The search for a message that can be read out of order in the receiver buffer.
pub mod Ends
use srtplay.Base.{
  ℕ, zero, suc, ◌+◌, ◌-◌, ◌%◌, ◌==◌, ◌&&◌, ◌||◌, not, if◌then◌else◌, Bool, true, false, Option,
  none, some,
}
use srtplay.Packet.{Packet, get_msg_boundary, get_msg_order_flag, get_msg_seq, has_first, has_last}
use srtplay.RcvBuffer.{RcvBuffer, has_readable_inorder_pkts, inc_pos, dec_pos, is_pos}

module _ (size : ℕ) where
  unfoldable pub last_pos : RcvBuffer → ℕ
  last_pos b = (b.start_pos + b.max_pos_inc - 1) % size

  -- The loop of `scanNotInOrderMessageRight`, which moves on from `i` before it looks.
  unfoldable pub scan_right_from : ℕ → RcvBuffer → ℕ → ℕ → Option ℕ
  scan_right_from zero b msgno i = none
  scan_right_from (suc rounds) b msgno i =
      let next = inc_pos size i 1 in
      let rest = scan_right_from rounds b msgno next in
      elim (b.entries next).unit [
        | none ↦ none
        | some u ↦
            if not (get_msg_seq b.peer_rexmit_flag u.packet == msgno)
            then none
            else if has_last (get_msg_boundary u.packet)
            then some next
            else if next == last_pos b
            then none
            else rest
      ]

  pub scan_not_in_order_message_right : RcvBuffer → ℕ → ℕ → Option ℕ
  scan_not_in_order_message_right b start msgno =
      if start == last_pos b then none else scan_right_from size b msgno start

  -- The same to the left.
  unfoldable pub scan_left_from : ℕ → RcvBuffer → ℕ → ℕ → Option ℕ
  scan_left_from zero b msgno i = none
  scan_left_from (suc rounds) b msgno i =
      let next = dec_pos size i in
      let rest = scan_left_from rounds b msgno next in
      elim (b.entries next).unit [
        | none ↦ none
        | some u ↦
            if not (get_msg_seq b.peer_rexmit_flag u.packet == msgno)
            then none
            else if has_first (get_msg_boundary u.packet)
            then some next
            else if next == b.start_pos
            then none
            else rest
      ]

  pub scan_not_in_order_message_left : RcvBuffer → ℕ → ℕ → Option ℕ
  scan_not_in_order_message_left b start msgno =
      if start == b.start_pos then none else scan_left_from size b msgno start

  -- `onInsertNotInOrderPacket`, for the packet at the place `i`
  unfoldable pub on_insert_not_in_order_packet : RcvBuffer → ℕ → Packet → RcvBuffer
  on_insert_not_in_order_packet b i pkt =
      if b.num_out_of_order_packets == 0 then b else elim b.first_readable_out_of_order [
        | some at ↦ b
        | none ↦
            let boundary = get_msg_boundary pkt in
            let msgno = get_msg_seq b.peer_rexmit_flag pkt in
            let right = scan_not_in_order_message_right b i msgno in
            let left = scan_not_in_order_message_left b i msgno in
            let found : Bool =
              has_last boundary || (elim right [ none ↦ false | some at ↦ true ]) in
            if not found then b else record b {
              first_readable_out_of_order = if has_first boundary then some i else left;
            }
      ]

  -- The loop of `checkFirstReadableOutOfOrder` from `i` on; `msgno` is the number of the packets so far.
  unfoldable pub check_from : ℕ → RcvBuffer → ℕ → Option ℕ → Bool
  check_from zero b i msgno = false
  check_from (suc rounds) b i msgno =
      let rest = λ (m : Option ℕ). check_from rounds b (inc_pos size i 1) m in
      if i == inc_pos size b.start_pos b.max_pos_inc then false else elim (b.entries i).unit [
        | none ↦ false
        | some u ↦
            let seq = get_msg_seq b.peer_rexmit_flag u.packet in
            let other : Bool = elim msgno [ none ↦ false | some m ↦ not (m == seq) ] in
            if get_msg_order_flag u.packet
            then false
            else if other
            then false
            else if has_last (get_msg_boundary u.packet)
            then true
            else rest (some seq)
      ]

  pub check_first_readable_out_of_order : RcvBuffer → Bool
  check_first_readable_out_of_order b = elim b.first_readable_out_of_order [
    | none ↦ false
    | some at ↦
        if b.num_out_of_order_packets == 0 || b.max_pos_inc == 0
        then false
        else check_from size b at none
  ]

  -- The loop of `updateFirstReadableOutOfOrder` from `i` on: `remain` packets may be read out of
  -- order, and `first` and `msgno` are of the message that is looked through. `none` stands for a loop that is
  -- not through within the rounds.
  unfoldable pub first_readable_from :
      ℕ → RcvBuffer → ℕ → ℕ → Option ℕ → Option ℕ → Option (Option ℕ)
  first_readable_from rounds b zero i first msgno = some none
  first_readable_from zero b (suc remain) i first msgno = none
  first_readable_from (suc rounds) b (suc remain) i first msgno =
      let next = inc_pos size i 1 in
      let skip = first_readable_from rounds b (suc remain) next none none in
      let rest = λ (f : Option ℕ) (m : Option ℕ). first_readable_from rounds b remain next f m in
      elim (b.entries i).unit [
        | none ↦ skip
        | some u ↦
            let boundary = get_msg_boundary u.packet in
            let seq = get_msg_seq b.peer_rexmit_flag u.packet in
            let first' = if has_first boundary then some i else first in
            let msgno' = if has_first boundary then some seq else msgno in
            if get_msg_order_flag u.packet
            then skip
            else if not (is_pos msgno' seq)
            then rest none none
            else if has_last boundary
            then some first'
            else if i == last_pos b
            then some none
            else rest first' msgno'
      ]

  -- `none` if the loop has no end.
  unfoldable pub update_first_readable_out_of_order : RcvBuffer → Option RcvBuffer
  update_first_readable_out_of_order b =
      if has_readable_inorder_pkts b || b.num_out_of_order_packets == 0
      then some b
      else elim b.first_readable_out_of_order [
        | some at ↦ some b
        | none ↦
            if b.max_pos_inc == 0
            then some b
            else elim (first_readable_from size b b.num_out_of_order_packets b.start_pos none
                none) [
                  | none ↦ none
                  | some found ↦ some (record b { first_readable_out_of_order = found })
                ]
      ]
