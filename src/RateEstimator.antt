-- ===== src/RateEstimator.antt =====
-- `CRateEstimator` (srt/srtcore/buffer.h and buffer.cpp): the input rate of the sender's buffer. Times are in
-- microseconds, 0 where they are not set. The counts and the rate are 32-bit integers, which wrap where a sum is too
-- large. A division by zero results in `none`.
use srtplay.Base.{
  ℕ, ◌-◌, ◌/◌, ◌<◌, ◌≡◌, ◌↔◌, arith, ltb, ◌==◌, ◌&&◌, ◌||◌, if◌then◌else◌, Option, none, some,
}
use srtplay.Base.Int.{ℤ, pos, ◌+ℤ◌, ◌<ℤ◌, ltb_ℤ, to_int32, to_uint64, times}

pub record RateEstimator : Type 0 where
  pub pkts_count : ℤ
  pub bytes_count : ℤ
  pub start_time : ℕ
  pub period : ℕ
  pub rate_bps : ℤ

abbrev pub fast_start_us : ℕ
fast_start_us = 500000

abbrev pub running_us : ℕ
running_us = 1000000

abbrev pub max_packets : ℕ
max_packets = 2000

abbrev pub data_hdr_size : ℕ
data_hdr_size = 44

abbrev pub init : RateEstimator
init = record {
  pkts_count = pos 0;
  bytes_count = pos 0;
  start_time = 0;
  period = fast_start_us;
  rate_bps = pos 125000000;
}

-- The counts of the period are turned into the rate, and a new period starts at `time`. The product by a million is
-- a 64-bit integer, which the division by the unsigned period takes as unsigned.
unfoldable pub close_period : RateEstimator → ℕ → ℕ → RateEstimator
close_period r time period_us =
    let bytes = to_int32 (r.bytes_count +ℤ times r.pkts_count data_hdr_size) in
    record {
      pkts_count = pos 0;
      bytes_count = pos 0;
      start_time = time;
      period = running_us;
      rate_bps = to_int32 (pos (to_uint64 (times bytes 1000000) / period_us));
    }

unfoldable pub count_input : RateEstimator → ℕ → Option RateEstimator
count_input r time =
    let period_us = time - r.start_time in
    if ltb r.period running_us && ltb_ℤ (pos max_packets) r.pkts_count || ltb r.period period_us
    then (if period_us == 0 then none else some (close_period r time period_us))
    else some r

unfoldable pub update_input_rate : RateEstimator → ℕ → ℕ → ℕ → Option RateEstimator
update_input_rate r time pkts bytes =
    if r.period == 0
    then some r
    else if r.start_time == 0
    then some (record r { start_time = time })
    else if ltb time r.start_time
    then some r
    else count_input
        (record r {
          pkts_count = to_int32 (r.pkts_count +ℤ pos pkts);
          bytes_count = to_int32 (r.bytes_count +ℤ pos bytes);
        })
        time

-- `updateInputRate` divides by zero exactly if the estimator is in the fast start (its period is not 0 and below the
-- running period), the time of the call is the time, not 0, at which the period started, and with the packets of the
-- call more than 2000 are counted in the period.
pub update_input_rate-none :
    (r : RateEstimator) (time pkts bytes : ℕ)
    → (update_input_rate r time pkts bytes ≡ none) ↔ (
        (0 < r.period)
        × (r.period < running_us)
        × (0 < time)
        × (time ≡ r.start_time)
        × (pos max_packets <ℤ to_int32 (r.pkts_count +ℤ pos pkts)))
unfolding update_input_rate count_input
update_input_rate-none r time pkts bytes = ground arith
