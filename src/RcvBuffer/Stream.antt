-- ===== src/RcvBuffer/Stream.antt =====
-- `CRcvBufferNew::readBufferTo` (srt/srtcore/buffer_rcv.cpp) and the function that `readBuffer` calls it
-- with. The target is a state `D` that the copy function changes, and that it may fail on. `m_iNotch` is
-- within the packet at the start.
pub mod Flow
pub mod Round
pub mod Fifo
use srtplay.Base.{
  ℕ, zero, suc, ◌+◌, ◌-◌, leb, ◌==◌, ◌&&◌, ◌||◌, min, if◌then◌else◌, Bool, true, false, none, some,
  List, ◌++◌, take, drop, length,
}
use srtplay.Base.Int.{ℤ, pos, negsuc, neg, ltb_ℤ}
use srtplay.SeqNo.{incseq}
use srtplay.Packet.{Packet, get_length}
use srtplay.TsbpdTime.{get_pkt_tsbpd_time}
use srtplay.RcvBuffer.{RcvUnit, RcvBuffer, count_bytes, inc_pos, is_in_range, release_unit_in_pos}

-- `copyBytesToBuf`
unfoldable pub copy_bytes_to_buf : List ℕ → List ℕ → ℕ → Bool × List ℕ
copy_bytes_to_buf buf bytes dst_offset =
    (true, take dst_offset buf ++ bytes ++ drop (dst_offset + length bytes) buf)

-- The start of the buffer moves over the first entry, which was read to its end.
unfoldable pub release_first : ℕ → RcvBuffer → ℕ → RcvBuffer
release_first size b p =
    let b1 = release_unit_in_pos b p in
    record b1 {
      notch = 0;
      start_pos = inc_pos size p 1;
      max_pos_inc = b1.max_pos_inc - 1;
      start_seq_no = incseq b.start_seq_no;
    }

-- The count is one packet, whatever was read.
unfoldable pub close_stream : ℕ → RcvBuffer → ℕ → RcvBuffer
close_stream size b bytes_read =
    let b1 = count_bytes b (negsuc 0) (neg (pos bytes_read)) in
    if is_in_range size b1.start_pos b1.max_pos_inc b1.first_nonread_pos
    then b1
    else record b1 { first_nonread_pos = b1.start_pos }

-- The state of the loop; `failed` is the early return of -1.
pub record Streaming {ℓ} (D : Type ℓ) : Type ℓ where
  pub buffer : RcvBuffer
  pub rs : ℕ
  pub target : D
  pub failed : Bool

-- How the loop goes on after a packet: not at all, with the next place, or with the same one.
pub data Step {ℓ} (D : Type ℓ) : Type ℓ where
  stop : Streaming D → Step D
  onward : Streaming D → Step D
  again : Streaming D → Step D

module _ {ℓ} {D : Type ℓ} (size : ℕ) (copy : D → List ℕ → ℕ → Bool × D) (now : ℤ) (len : ℕ) where
  unfoldable pub too_early : RcvBuffer → Packet → Bool
  too_early b pkt = b.tsbpd.tsbpd_mode && ltb_ℤ now (get_pkt_tsbpd_time b.tsbpd pkt.time_stamp)

  -- The bytes of the packet at `p` that are asked for.
  unfoldable pub unread_part : RcvBuffer → ℕ → Packet → List ℕ
  unread_part b rs pkt = take (min (get_length pkt - b.notch) rs) (drop b.notch pkt.payload)

  -- The body of the loop for the packet `pkt` at `p`.
  unfoldable pub stream_packet : ℕ → Packet → Streaming D → Step D
  stream_packet p pkt s =
      let b = s.buffer in
      let remain_pktlen = get_length pkt - b.notch in
      let unitsize = min remain_pktlen s.rs in
      let (copied, target) = copy s.target (unread_part b s.rs pkt) (len - s.rs) in
      if too_early b pkt then stop s else elim copied [
        | false ↦ stop (record s { target = target })
        | true ↦
            if leb remain_pktlen s.rs
            then onward (record s {
              buffer = release_first size b p;
              target = target;
              rs = s.rs - unitsize;
            })
            else again (record s {
              buffer = record b { notch = b.notch + s.rs };
              target = target;
              rs = s.rs - unitsize;
            })
      ]

  -- The loop from `p` on. Each round reads the last byte that is asked for or moves on, so `size + 1`
  -- rounds are enough.
  unfoldable pub stream_from : ℕ → ℕ → ℕ → Streaming D → Streaming D
  stream_from zero end_pos p s = s
  stream_from (suc rounds) end_pos p s =
      if p == end_pos || s.rs == 0 then s else elim (s.buffer.entries p).unit [
        | none ↦ record s { failed = true }
        | some u ↦ elim (stream_packet p u.packet s) [
          | stop s' ↦ s'
          | onward s' ↦ stream_from rounds end_pos (inc_pos size p 1) s'
          | again s' ↦ stream_from rounds end_pos p s'
        ]
      ]

  unfoldable pub read_buffer_to : RcvBuffer → D → ℤ × D × RcvBuffer
  read_buffer_to b arg =
      let s =
        stream_from (size + 1) b.first_nonread_pos b.start_pos
          (record { buffer = b; rs = len; target = arg; failed = false }) in
      if s.failed
      then (negsuc 0, s.target, s.buffer)
      else (pos (len - s.rs), s.target, close_stream size s.buffer (len - s.rs))

-- `readBuffer`; the clock is not read without TSBPD.
unfoldable pub read_buffer : ℕ → ℤ → RcvBuffer → List ℕ → ℕ → ℤ × List ℕ × RcvBuffer
read_buffer size now b dst len = read_buffer_to size copy_bytes_to_buf now len b dst
