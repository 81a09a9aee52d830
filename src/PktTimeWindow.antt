-- ===== src/PktTimeWindow.antt =====
-- `CPktTimeWindow` (srt/srtcore/window.h): the times between the packets that arrive, and between the
-- two packets of a probing pair. The arrays are functions of their index, a time is its number of
-- microseconds, and the clock is an argument.
pub mod Keep
mod Tests
use srtplay.Base.{
  ℕ, zero, suc, ◌+◌, ◌-◌, ◌*◌, ◌/◌, ◌%◌, ◌^◌, ltb, leb, ◌==◌, ◌&&◌, not, if◌then◌else◌, Bool, true,
  false, Option, none, some, update,
}
use srtplay.Base.Int.{ℤ, pos, negsuc, ◌-ℤ◌, neg, ltb_ℤ, to_int32, to_uint64, times}
use srtplay.SeqNo.{incseq}

-- `CPacket::SRT_MAX_PAYLOAD_SIZE`
abbrev pub max_payload_size : ℕ
max_payload_size = 1500 - (28 + 16)

pub record PktTimeWindow : Type 0 where
  pub pkt_window : ℕ → ℤ
  pub bytes_window : ℕ → ℤ
  pub pkt_window_ptr : ℕ
  pub probe_window : ℕ → ℤ
  pub probe_window_ptr : ℕ
  pub last_sent_time : ℤ
  pub min_pkt_snd_int : ℤ
  pub last_arr_time : ℤ
  pub curr_arr_time : ℤ
  pub probe_time : ℤ
  pub probe1_sequence : Option ℕ

-- The constructor, at the time `now`.
pub init : ℤ → PktTimeWindow
init now = record {
  pkt_window = λ i. pos 1000000;
  bytes_window = λ i. pos max_payload_size;
  pkt_window_ptr = 0;
  probe_window = λ i. pos 1000;
  probe_window_ptr = 0;
  last_sent_time = pos 0;
  min_pkt_snd_int = pos 1000000;
  last_arr_time = now;
  curr_arr_time = pos 0;
  probe_time = pos 0;
  probe1_sequence = none;
}

unfoldable pub on_pkt_sent : PktTimeWindow → ℤ → PktTimeWindow
on_pkt_sent w currtime =
    let interval = to_int32 (currtime -ℤ w.last_sent_time) in
    record w {
      min_pkt_snd_int =
          if ltb_ℤ interval w.min_pkt_snd_int && ltb_ℤ (pos 0) interval
          then interval
          else w.min_pkt_snd_int;
      last_sent_time = currtime;
    }

-- The next place of an array of `size` places.
abbrev pub next_ptr : ℕ → ℕ → ℕ
next_ptr size ptr = if ptr + 1 == size then 0 else ptr + 1

unfoldable pub on_pkt_arrival : ℕ → PktTimeWindow → ℤ → ℤ → PktTimeWindow
on_pkt_arrival asize w now pktsz = record w {
  curr_arr_time = now;
  pkt_window = update w.pkt_window w.pkt_window_ptr (to_int32 (now -ℤ w.last_arr_time));
  bytes_window = update w.bytes_window w.pkt_window_ptr pktsz;
  pkt_window_ptr = next_ptr asize w.pkt_window_ptr;
  last_arr_time = now;
}

-- The time that a full packet would have taken.
pub probe_case : ℤ → ℕ → ℤ
probe_case timediff pktsz =
    if pktsz == 0
    then to_int32 timediff
    else to_int32 (pos (to_uint64 (times timediff max_payload_size) / pktsz))

unfoldable pub probe1_arrival : PktTimeWindow → ℤ → ℕ → Bool → PktTimeWindow
probe1_arrival w now seqno unordered =
    if unordered && (elim w.probe1_sequence [ none ↦ false | some s ↦ seqno == s ])
    then record w { probe1_sequence = none }
    else record w { probe_time = now; probe1_sequence = some seqno }

unfoldable pub probe2_arrival : ℕ → PktTimeWindow → ℤ → ℕ → ℕ → PktTimeWindow
probe2_arrival psize w now seqno pktsz = elim w.probe1_sequence [
  | none ↦ w
  | some s ↦ if not (incseq s == seqno) then w else record w {
    curr_arr_time = now;
    probe1_sequence = none;
    probe_window =
        update w.probe_window w.probe_window_ptr (probe_case (now -ℤ w.probe_time) pktsz);
    probe_window_ptr = next_ptr psize w.probe_window_ptr;
  }
]

-- The mask `PUMASK_SEQNO_PROBE` takes the remainder by 16.
unfoldable pub probe_arrival : ℕ → PktTimeWindow → ℤ → ℕ → ℕ → Bool → PktTimeWindow
probe_arrival psize w now seqno pktsz unordered =
    let inorder16 = seqno % 16 in
    let w1 = if inorder16 == 0 then probe1_arrival w now seqno unordered else w in
    if unordered then w1 else if inorder16 == 1 then probe2_arrival psize w1 now seqno pktsz else w1
