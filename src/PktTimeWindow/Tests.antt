-- ===== src/PktTimeWindow/Tests.antt =====
-- Windows of four places.
use srtplay.Base.{◌+◌, ◌%◌, ◌≡◌, inl, refl, arith, true, false, [], ◌∷◌, none, update}
use srtplay.Base.Int.{pos, ◌+ℤ◌, ◌-ℤ◌, to_int32}
use srtplay.SeqNo.{incseq}
use srtplay.PktTimeWindow.{PktTimeWindow, init, next_ptr, probe_arrival}
use srtplay.PktTimeWindow.Keep.{
  Probe, full_time, arrive_all, probe_all, on_pkt_arrival-kept, probe_arrival-pair,
}

abbrev last_place : PktTimeWindow
unfolding init
last_place = record (init (pos 500)) { pkt_window_ptr = 3 }

-- The window goes round between the two packets.
on_pkt_arrival-kept_example :
    let last =
      arrive_all 4 last_place (
        (pos 700, pos 1456) ∷ (pos 800, pos 1316) ∷ (pos 900, pos 200) ∷ (pos 950, pos 100) ∷ []) in
    let place = (3 + 1) % 4 in
    (last.pkt_window place ≡ to_int32 (pos 800 -ℤ pos 700)) × (last.bytes_window place ≡ pos 1316)
unfolding init
on_pkt_arrival-kept_example =
    on_pkt_arrival-kept 4 last_place (pos 700) (pos 1456) (pos 800) (pos 1316)
      ((pos 900, pos 200) ∷ (pos 950, pos 100) ∷ []) (omega arith) (omega arith)

-- The late packet 17 is a retransmission.
abbrev late : Probe
late = record { at = pos 1010; seqno = 17; len = 1316; unordered = true }

abbrev started_at : PktTimeWindow
started_at = probe_all 4 (probe_arrival 4 last_place (pos 1000) 32 1456 false) (late ∷ [])

-- The second packet is half full, and took 20 microseconds.
probe_arrival-pair_example :
    let after = probe_arrival 4 started_at (pos 1000 +ℤ pos 20) (incseq 32) 728 false in
    (after.probe_window
      ≡ update last_place.probe_window last_place.probe_window_ptr (pos (full_time 20 728)))
    × (after.probe_window_ptr ≡ next_ptr 4 last_place.probe_window_ptr)
    × (after.probe1_sequence ≡ none)
    × (started_at.probe_window ≡ last_place.probe_window)
probe_arrival-pair_example =
    probe_arrival-pair 4 32 1456 728 20 last_place (pos 1000) (late ∷ []) refl (omega arith)
      (omega arith, inl refl, tt) (omega arith) (omega arith)
