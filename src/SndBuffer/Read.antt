-- ===== src/SndBuffer/Read.antt =====
-- Reading packets from `CSndBuffer`: the next one that was not sent yet, and one for retransmission.
use Prim.Native.Nat.{bit_or}
use srtplay.Base.{
  ℕ, zero, suc, ◌+◌, ◌-◌, ◌/◌, ltb, leb, ◌==◌, ◌&&◌, if◌then◌else◌, Bool, true, false, Option, none,
  some, update, List, length, ◌>>=◌,
}
use srtplay.Packet.{wrap}
use srtplay.SndBuffer.{Block, SndBuffer, next_of, msg_seq}

-- What is read into the packet, and the time of the message.
pub record Reading : Type 0 where
  pub payload : List ℕ
  pub seq_no : ℕ
  pub msgno : ℕ
  pub srctime : ℕ

-- The time to live, in milliseconds, is over.
unfoldable pub expired : ℕ → Block → Bool
expired now s = elim s.ttl [
  | none ↦ false
  | some ttl ↦ leb s.origin_time now && ltb ttl ((now - s.origin_time) / 1000)
]

-- The encryption key flags go into the message number field; none is -1.
abbrev pub with_key : Option ℕ → Block → Block
with_key none s = s
with_key (some kflgs) s = record s { msgno_bitset = bit_or s.msgno_bitset (wrap 28 27 kflgs) }

unfoldable pub reading_of : Block → Reading
reading_of s = record {
  payload = s.payload;
  seq_no = s.seq_no;
  msgno = s.msgno_bitset;
  srctime = s.origin_time;
}

-- The length that is answered: 0 where encryption is required and not possible.
abbrev pub read_length : Option ℕ → Block → ℕ
read_length none s = 0
read_length (some kflgs) s = length s.payload

-- The current block is read, and the next one is current.
unfoldable pub step_curr : SndBuffer → Option ℕ → SndBuffer
step_curr b kflgs = record b {
  blocks = update b.blocks b.curr_block (with_key kflgs (b.blocks b.curr_block));
  curr_block = next_of b b.curr_block;
}

pub record ReadResult : Type 0 where
  pub readlen : ℕ
  pub packet : Option Reading
  pub seqnoinc : ℕ
  pub buffer : SndBuffer

-- Packets whose time is over are skipped. `packet` is what was read last.
unfoldable pub read_loop : ℕ → SndBuffer → Option ℕ → ℕ → Option Reading → ℕ → Option ReadResult
read_loop zero b kflgs now packet skipped = none
read_loop (suc rounds) b kflgs now packet skipped =
    let s = with_key kflgs (b.blocks b.curr_block) in
    elim (b.curr_block == b.last_block) [
      | true ↦ some (record { readlen = 0; packet = packet; seqnoinc = skipped; buffer = b })
      | false ↦ elim (expired now s) [
        | true ↦ read_loop rounds (step_curr b kflgs) kflgs now (some (reading_of s)) (skipped + 1)
        | false ↦ some (record {
          readlen = read_length kflgs s;
          packet = some (reading_of s);
          seqnoinc = skipped;
          buffer = step_curr b kflgs;
        })
      ]
    ]

-- `readData` of a packet that was not sent yet.
unfoldable pub read_data : SndBuffer → Option ℕ → ℕ → Option ReadResult
read_data b kflgs now = read_loop (b.count + 1) b kflgs now none 0

-- No time where nothing is left to send.
unfoldable pub peek_next_original : SndBuffer → ℕ
peek_next_original b =
    if b.curr_block == b.last_block then 0 else (b.blocks b.curr_block).origin_time

-- So many blocks behind a block.
unfoldable pub walk : ℕ → SndBuffer → ℕ → ℕ
walk zero b s = s
walk (suc n) b s = walk n b (next_of b s)

-- The same, but not behind the last block.
unfoldable pub walk_used : ℕ → SndBuffer → ℕ → ℕ
walk_used zero b s = s
walk_used (suc n) b s = elim (s == b.last_block) [ true ↦ s | false ↦ walk_used n b (next_of b s) ]

-- The number of the message at an offset, 0 for SRT_MSGNO_CONTROL.
unfoldable pub get_msg_no_at : SndBuffer → ℕ → ℕ
get_msg_no_at b offset =
    if leb b.count offset then 0 else msg_seq (b.blocks (walk offset b b.first_block))

unfoldable pub get_packet_rexmit_time : SndBuffer → ℕ → ℕ
get_packet_rexmit_time b offset = (b.blocks (walk offset b b.first_block)).rexmit_time

-- The rest of the message `msgno` is passed over, from the block `s` on, after `msglen` packets; the current block
-- goes along, once it is passed.
unfoldable pub pass_message : ℕ → SndBuffer → ℕ → ℕ → Bool → ℕ → Option (ℕ × SndBuffer)
pass_message zero b msgno s move msglen = none
pass_message (suc rounds) b msgno s move msglen =
    let move1 = if s == b.curr_block then true else move in
    let next = next_of b s in
    elim (s == b.last_block) [
      | true ↦ some (msglen, b)
      | false ↦ elim (msgno == msg_seq (b.blocks s)) [
        | false ↦ some (msglen, b)
        | true ↦
            pass_message rounds (if move1 then record b { curr_block = next } else b) msgno next
              move1 (msglen + 1)
      ]
    ]

-- What is answered, with the packet as it is written: 0, -1 with the number of packets to drop, or its length.
pub data RexmitResult : Type 0 where
  too_large : RexmitResult
  drop_message : Reading → ℕ → RexmitResult
  found : Reading → RexmitResult

-- The data, the message number field and the time of the block are written. The sequence number of the packet stays
-- what the caller set.
unfoldable pub rexmit_reading : Reading → Block → Reading
rexmit_reading packet s = record packet {
  payload = s.payload;
  msgno = s.msgno_bitset;
  srctime = s.origin_time;
}

unfoldable pub note_rexmit : SndBuffer → ℕ → ℕ → SndBuffer
note_rexmit b s now = record b {
  blocks = update b.blocks s (record (b.blocks s) { rexmit_time = now });
}

-- `readData` at an offset, for retransmission, into the packet of the caller: a message whose time is over is to be
-- dropped, of so many packets.
unfoldable pub read_rexmit : SndBuffer → ℕ → Reading → ℕ → Option (RexmitResult × SndBuffer)
read_rexmit b offset packet now =
    let s = walk_used offset b b.first_block in
    if s == b.last_block
    then some (too_large, b)
    else if expired now (b.blocks s)
    then (let msgno = msg_seq (b.blocks s) in
        pass_message (b.count + 1) b msgno (next_of b s) false 1 >>= λ r.
        some (drop_message (record packet { msgno = msgno }) r.0, r.1))
    else some (found (rexmit_reading packet (b.blocks s)), note_rexmit b s now)
