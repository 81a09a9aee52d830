-- ===== src/TsbpdTime.antt =====
-- `CTsbpdTime` (srt/srtcore/tsbpd_time.h and tsbpd_time.cpp) and `DriftTracer` (srt/srtcore/utilities.h):
-- when a packet with a 32-bit timestamp is to be delivered. A time and a duration are their number of
-- microseconds, and an `int64_t` is an integer; the clock is an argument.
pub mod Wrap
pub mod Drift
mod Tests
use srtplay.Base.{
  ℕ, zero, suc, ◌+◌, ◌-◌, ◌*◌, ◌/◌, ltb, leb, ◌==◌, ◌&&◌, if◌then◌else◌, Bool, true, false,
}
use srtplay.Base.Int.{ℤ, pos, negsuc, ◌+ℤ◌, ◌-ℤ◌, abs, neg, ltb_ℤ, eqb_ℤ}

pub record DriftTracer : Type 0 where
  pub drift : ℤ
  pub overdrift : ℤ
  pub drift_sum : ℤ
  pub drift_span : ℕ

abbrev pub new_tracer : DriftTracer
new_tracer = record { drift = pos 0; overdrift = pos 0; drift_sum = pos 0; drift_span = 0 }

-- `int64_t` division by a positive number, towards zero.
unfoldable pub quot : ℤ → ℕ → ℤ
quot (pos a) n = pos (a / n)
quot (negsuc a) n = neg (pos ((a + 1) / n))

-- The mean `q` as the new drift, or the excess of it over `max_drift` where that is exceeded.
unfoldable pub set_drift : ℕ → DriftTracer → ℤ → DriftTracer
set_drift max_drift d q =
    if ltb max_drift (abs q)
    then (let over = if ltb_ℤ q (pos 0) then neg (pos max_drift) else pos max_drift in
        record d { drift = q -ℤ over; overdrift = over })
    else record d { drift = q }

module _ (max_span max_drift : ℕ) (clear_on_update : Bool) where
  unfoldable pub update_drift : DriftTracer → ℤ → Bool × DriftTracer
  update_drift d driftval =
      let sum = d.drift_sum +ℤ driftval in
      let span = d.drift_span + 1 in
      let over = if clear_on_update then pos 0 else d.overdrift in
      if ltb span max_span
      then (false, record d { drift_sum = sum; drift_span = span; overdrift = over })
      else (
        true,
        set_drift max_drift (record d { drift_sum = pos 0; drift_span = 0; overdrift = over })
            (quot sum span),
      )

pub force_drift : DriftTracer → ℤ → DriftTracer
force_drift d driftval = record d { drift = driftval }

-- `CPacket::MAX_TIMESTAMP` and the constants of the class.
abbrev pub max_timestamp : ℕ
max_timestamp = 0xFFFFFFFF

abbrev pub wrap_period : ℕ
wrap_period = 30 * 1000000

abbrev pub drift_max_value : ℕ
drift_max_value = 5000

abbrev pub drift_max_samples : ℕ
drift_max_samples = 1000

pub record TsbpdTime : Type 0 where
  pub first_rtt : ℤ
  pub tsbpd_mode : Bool
  pub delay : ℤ
  pub time_base : ℤ
  pub wrap_check : Bool
  pub tracer : DriftTracer

pub set_tsbpd_mode : TsbpdTime → ℤ → Bool → ℤ → TsbpdTime
set_tsbpd_mode t timebase wrap delay = record t {
  tsbpd_mode = true;
  wrap_check = wrap;
  time_base = timebase;
  delay = delay;
}

pub apply_group_time : TsbpdTime → ℤ → Bool → ℕ → ℤ → TsbpdTime
apply_group_time t timebase wrp delay udrift = record t {
  tsbpd_mode = true;
  time_base = timebase;
  wrap_check = wrp;
  delay = pos delay;
  tracer = force_drift t.tracer udrift;
}

pub apply_group_drift : TsbpdTime → ℤ → Bool → ℤ → TsbpdTime
apply_group_drift t timebase wrp udrift = record t {
  time_base = timebase;
  wrap_check = wrp;
  tracer = force_drift t.tracer udrift;
}

unfoldable pub get_tsbpd_time_base : TsbpdTime → ℕ → ℤ
get_tsbpd_time_base t timestamp =
    t.time_base
    +ℤ (if t.wrap_check && leb timestamp (2 * wrap_period) then pos (max_timestamp + 1) else pos 0)

unfoldable pub get_pkt_tsbpd_base_time : TsbpdTime → ℕ → ℤ
get_pkt_tsbpd_base_time t timestamp = get_tsbpd_time_base t timestamp +ℤ pos timestamp

unfoldable pub get_pkt_tsbpd_time : TsbpdTime → ℕ → ℤ
get_pkt_tsbpd_time t timestamp = get_pkt_tsbpd_base_time t timestamp +ℤ t.delay +ℤ t.tracer.drift

unfoldable pub update_tsbpd_time_base : TsbpdTime → ℕ → TsbpdTime
update_tsbpd_time_base t timestamp =
    if t.wrap_check
    then (if leb wrap_period timestamp && leb timestamp (wrap_period * 2)
        then record t { wrap_check = false; time_base = t.time_base +ℤ pos (max_timestamp + 1) }
        else t)
    else if ltb (max_timestamp - wrap_period) timestamp
    then record t { wrap_check = true }
    else t

-- The drift that is measured at the time `now`.
unfoldable pub drift_sample : TsbpdTime → ℤ → ℕ → ℤ → ℤ
drift_sample t now timestamp rtt =
    let delta = rtt -ℤ t.first_rtt in now -ℤ get_pkt_tsbpd_base_time t timestamp -ℤ quot delta 2

-- The first round-trip time is kept.
pub note_rtt : TsbpdTime → ℤ → TsbpdTime
note_rtt t rtt = if eqb_ℤ t.first_rtt (negsuc 0) then record t { first_rtt = rtt } else t

pub take_sample : TsbpdTime → ℤ → Bool × TsbpdTime
take_sample t sample =
    let (updated, d) = update_drift drift_max_samples drift_max_value true t.tracer sample in
    let t2 = record t { tracer = d } in
    (updated, if updated then record t2 { time_base = t2.time_base +ℤ d.overdrift } else t2)

pub add_drift_sample : TsbpdTime → ℤ → ℕ → ℤ → Bool × TsbpdTime
add_drift_sample t now timestamp rtt =
    let t1 = note_rtt t rtt in
    if t.tsbpd_mode then take_sample t1 (drift_sample t1 now timestamp rtt) else (false, t)

-- The time base, the flag and the drift, for another member of a group.
abbrev pub get_internal_time_base : TsbpdTime → ℤ × Bool × ℤ
get_internal_time_base t = (t.time_base, t.wrap_check, t.tracer.drift)
