-- ===== src/SndBuffer/Tests.antt =====
-- A sender's buffer of four blocks of three bytes, and the theorems there.
use srtplay.Base.{
  ℕ, ◌+◌, ◌<◌, ◌≡◌, ◌↔◌, ltb, ◌==◌, if◌then◌else◌, refl, arith, true, none, some, List, [], ◌∷◌,
}
use srtplay.Base.Int.{pos, ◌+ℤ◌, ◌<ℤ◌, to_int32}
use srtplay.RateEstimator
use srtplay.RateEstimator.{
  RateEstimator, running_us, max_packets, update_input_rate, update_input_rate-none,
}
use srtplay.SndBuffer.{Block, SndBuffer, MsgCtrl, new_block, init, packet_block, add_buffer}
use srtplay.SndBuffer.Holds.{Holds}
use srtplay.SndBuffer.Start.{init-Holds}
use srtplay.SndBuffer.Message.{payloads}
use srtplay.SndBuffer.Field.{packet_block-read}
use srtplay.Packet.{
  Packet, unwrap, has_first, has_last, get_msg_boundary, get_msg_order_flag, get_msg_seq,
}
use srtplay.SndBuffer.Add.{Added, packets_added, add_buffer-Added}
use srtplay.SndBuffer.Release.{ack_data, drop_late_data}
use srtplay.SndBuffer.Read.{ReadResult, found, Reading, read_data, read_rexmit}
use srtplay.SndBuffer.Rexmit.{read_rexmit-found}
use srtplay.SndBuffer.Leave.{ack_data-Holds}
use srtplay.SndBuffer.Late.{drop_late_data-Holds}
use srtplay.SndBuffer.Sent.{ReadFrom, send_first, read_data-ReadFrom}

abbrev ctrl : MsgCtrl
ctrl = record { msgno = none; pktseq = 0x7FFFFFFF; srctime = 7000; msgttl = some 2; inorder = true }

abbrev bytes : List ℕ
bytes = 10 ∷ 11 ∷ 12 ∷ 13 ∷ 14 ∷ 15 ∷ 16 ∷ 17 ∷ 18 ∷ 19 ∷ 20 ∷ 21 ∷ 22 ∷ []

abbrev counted : RateEstimator
counted = record RateEstimator.init { start_time = 7000 }

-- The ring has to grow for five packets.
add_buffer-Added_example :
    (ctrl' : MsgCtrl) × (b' : SndBuffer) × (add_buffer (init 4 3) bytes ctrl 9000
      ≡ some (ctrl', b'))
    × Added [] (packets_added (init 4 3) bytes ctrl 9000) 0 7000 1 ctrl ctrl' b'
    × (payloads (packets_added (init 4 3) bytes ctrl 9000) ≡ bytes)
unfolding update_input_rate init
add_buffer-Added_example =
    add_buffer-Added (init 4 3) [] 0 bytes ctrl 9000 counted (init-Holds 4 3 (omega arith))
      (omega arith) refl

abbrev first_packet : Block
first_packet = record (new_block 0) {
  payload = 10 ∷ 11 ∷ [];
  msgno_bitset = 1;
  seq_no = 5;
  origin_time = 1000;
  ttl = some 2;
}

abbrev second_packet : Block
second_packet = record first_packet { payload = 12 ∷ []; seq_no = 6; origin_time = 5000 }

-- The first packet was read already.
abbrev two_packets : SndBuffer
two_packets = record (init 4 3) {
  blocks = λ i.
      if i == 0
      then record first_packet { next = 1 }
      else if i == 1
      then record second_packet { next = 2 }
      else (init 4 3).blocks i;
  curr_block = 1;
  last_block = 2;
  count = 2;
  bytes_count = 3;
}

two_packets-Holds : Holds two_packets (first_packet ∷ second_packet ∷ []) 1
unfolding init
two_packets-Holds = record {
  at = λ j. if ltb j 4 then j else 0;
  ring = record {
    linked = λ j lt. ground (arith, lt);
    closed = refl;
    apart = λ i j lt j_lt e. ground (arith, lt, j_lt, e);
  };
  below = λ j. ground arith;
  first_eq = refl;
  curr_eq = refl;
  last_eq = refl;
  sent_le = omega arith;
  room = omega arith;
  unit_pos = omega arith;
  queue_eq = refl;
  bytes_eq = refl;
}

ack_data-Holds_example :
    (b' : SndBuffer) × (ack_data two_packets 1 ≡ some b') × Holds b' (second_packet ∷ []) 0
ack_data-Holds_example =
    ack_data-Holds two_packets (first_packet ∷ second_packet ∷ []) 1 two_packets-Holds 1
      (omega arith)

drop_late_data-Holds_example :
    (b' : SndBuffer) × (drop_late_data two_packets 4000 ≡ some ((1, 2, 2), b'))
    × Holds b' (second_packet ∷ []) 0
drop_late_data-Holds_example =
    drop_late_data-Holds two_packets (first_packet ∷ second_packet ∷ []) 1 two_packets-Holds 4000

-- The second packet is not yet over, 1 millisecond after its time.
read_data-ReadFrom_example :
    (r : ReadResult) × (read_data two_packets (some 0) 6000 ≡ some r)
    × ReadFrom (first_packet ∷ []) (send_first (some 0) 6000 none 0 (second_packet ∷ [])) r
read_data-ReadFrom_example =
    read_data-ReadFrom two_packets (first_packet ∷ []) (second_packet ∷ []) (some 0) 6000
      two_packets-Holds

-- In the fast start, 2000 packets were counted.
abbrev busy : RateEstimator
busy = record counted { pkts_count = pos 2000; bytes_count = pos 2632000 }

update_input_rate-none_example : (update_input_rate busy 7000 1 1316 ≡ none) ↔ (
    (0 < 500000)
    × (500000 < running_us)
    × (0 < 7000)
    × (◌≡◌ {A = ℕ} 7000 7000)
    × (pos max_packets <ℤ to_int32 (pos 2000 +ℤ pos 1)))
update_input_rate-none_example = update_input_rate-none busy 7000 1 1316

-- The last packet of five, with the second key.
abbrev last_packet : Packet
last_packet = record { seq_no = 3; msgno_word = 0x70000001; time_stamp = 0; payload = 22 ∷ [] }

packet_block-read_example :
    (get_msg_seq true last_packet ≡ 1)
    × (get_msg_order_flag last_packet ≡ true)
    × (unwrap 28 27 last_packet.msgno_word ≡ 2)
    × (has_first (get_msg_boundary last_packet) ≡ (4 == 0))
    × (has_last (get_msg_boundary last_packet) ≡ (4 + 1 == 5))
unfolding init packet_block
packet_block-read_example =
    packet_block-read (init 4 3) bytes ctrl 5 4 3 0 2 last_packet (omega arith) (omega arith) refl

-- The caller has set a sequence number, which is not written.
abbrev resent : Reading
resent = record { payload = []; seq_no = 99; msgno = 0; srctime = 0 }

read_rexmit-found_example :
    (b' : SndBuffer) × (read_rexmit two_packets 1 resent 6000
      ≡ some (found (record { payload = 12 ∷ []; seq_no = 99; msgno = 1; srctime = 5000 }), b'))
    × Holds b' (first_packet ∷ record second_packet { rexmit_time = 6000 } ∷ []) 1
read_rexmit-found_example =
    read_rexmit-found two_packets (first_packet ∷ []) [] second_packet 1 resent 6000
      two_packets-Holds refl
