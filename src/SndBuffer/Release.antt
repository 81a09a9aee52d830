-- ===== src/SndBuffer/Release.antt =====
-- Packets leave `CSndBuffer`: they are acknowledged, or too late.
use srtplay.Base.{
  ℕ, zero, suc, ◌+◌, ◌-◌, ◌/◌, ltb, ◌==◌, if◌then◌else◌, Bool, true, false, Option, some, length,
  ◌>>=◌,
}
use srtplay.SndBuffer.{SndBuffer, next_of, less, msg_seq, next_msgno}

-- The first block leaves.
unfoldable pub step_first : SndBuffer → SndBuffer
step_first b = record b { first_block = next_of b b.first_block }

-- `move`: the first block passed the current one.
unfoldable pub release : ℕ → SndBuffer → Bool → Option (Bool × SndBuffer)
release zero b move = some (move, b)
release (suc n) b move = less b.bytes_count (length (b.blocks b.first_block).payload) >>= λ bytes.
    release n (record (step_first b) { bytes_count = bytes })
      (if b.first_block == b.curr_block then true else move)

abbrev pub moved_curr : Bool → SndBuffer → SndBuffer
moved_curr move b = if move then record b { curr_block = b.first_block } else b

unfoldable pub ack_data : SndBuffer → ℕ → Option SndBuffer
ack_data b offset = release offset b false >>= λ r.
    less b.count offset >>= λ count. some (record (moved_curr r.0 r.1) { count = count })

-- The loop of `dropLateData`: the packets and bytes dropped so far, the message number of the last one, and `move`.
pub record Dropping : Type 0 where
  pub pkts : ℕ
  pub bytes : ℕ
  pub msgno : ℕ
  pub move : Bool

-- At most `rest` packets.
unfoldable pub drop_loop : ℕ → SndBuffer → ℕ → Dropping → Dropping × SndBuffer
drop_loop zero b too_late d = (d, b)
drop_loop (suc rest) b too_late d =
    let s = b.blocks b.first_block in
    elim (ltb s.origin_time too_late) [
      | false ↦ (d, b)
      | true ↦ drop_loop rest (step_first b) too_late (record {
        pkts = d.pkts + 1;
        bytes = d.bytes + length s.payload;
        msgno = msg_seq s;
        move = if b.first_block == b.curr_block then true else d.move;
      })
    ]

abbrev pub no_drop : Dropping
no_drop = record { pkts = 0; bytes = 0; msgno = 0; move = false }

-- The packets and bytes that were dropped, and the message number behind them.
unfoldable pub drop_late_data : SndBuffer → ℕ → Option ((ℕ × ℕ × ℕ) × SndBuffer)
drop_late_data b too_late =
    let r = drop_loop b.count b too_late no_drop in
    less b.count r.0.pkts >>= λ count. less b.bytes_count r.0.bytes >>= λ bytes. some (
      (r.0.pkts, r.0.bytes, next_msgno r.0.msgno),
      record (moved_curr r.0.move r.1) { count = count; bytes_count = bytes },
    )

-- The bytes, and the time span in milliseconds, a whole one more where the buffer is not empty. The last origin
-- time is not before the first here.
unfoldable pub get_curr_buf_size : SndBuffer → ℕ × ℕ × ℕ
get_curr_buf_size b = (
  b.count,
  b.bytes_count,
  if ltb 0 b.count
      then (b.last_origin_time - (b.blocks b.first_block).origin_time) / 1000 + 1
      else 0,
)

unfoldable pub get_buffering_delay : SndBuffer → ℕ → ℕ
get_buffering_delay b now = if b.count == 0 then 0 else now - (b.blocks b.first_block).origin_time
