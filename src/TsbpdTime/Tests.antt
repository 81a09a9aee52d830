-- ===== src/TsbpdTime/Tests.antt =====
-- A stream that passes the wrap-around of the timestamps, and a tracer of three samples.
use srtplay.Base.{ℕ, ◌+◌, ◌≡◌, inl, refl, arith, true, false, List, [], ◌∷◌}
use srtplay.Base.Int.{pos, negsuc, ◌+ℤ◌}
use srtplay.TsbpdTime.{TsbpdTime, new_tracer, get_pkt_tsbpd_time, update_tsbpd_time_base}
use srtplay.TsbpdTime.Wrap.{Follows, timestamp_of, arrive, get_pkt_tsbpd_time-arrive}

-- Delivery with a delay of 120 ms, from the origin 1000 on.
abbrev started : TsbpdTime
started = record {
  first_rtt = negsuc 0;
  tsbpd_mode = true;
  delay = pos 120000;
  time_base = pos 1000;
  wrap_check = false;
  tracer = new_tracer;
}

started-Follows : Follows (pos 1000) 0 4250000000 started
unfolding ◌+ℤ◌
started-Follows = record { base_eq = refl; phase = inl (refl, inl refl, omega arith) }

-- Round the wrap-around, and past the wrap check period.
abbrev stream : List ℕ
stream = 4270000000 ∷ 4290000000 ∷ 4310000000 ∷ 4300000000 ∷ 4330000000 ∷ []

get_pkt_tsbpd_time-arrive_example :
    get_pkt_tsbpd_time (arrive started stream) (timestamp_of 4340000000)
    ≡ ((pos 1000 +ℤ pos 4340000000) +ℤ pos 120000) +ℤ pos 0
get_pkt_tsbpd_time-arrive_example =
    get_pkt_tsbpd_time-arrive (pos 1000) 0 4250000000 4340000000 stream started started-Follows
      (omega arith) (omega arith)

arrive_run : (arrive started stream).time_base ≡ pos (1000 + 0x100000000)
unfolding update_tsbpd_time_base timestamp_of ◌+ℤ◌
arrive_run = refl
