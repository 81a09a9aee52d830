-- ===== src/SndBuffer/Start.antt =====
-- A new `CSndBuffer` holds nothing.
use srtplay.Base.{ℕ, ◌<◌, refl, arith, ltb, if◌then◌else◌, []}
use srtplay.SndBuffer.{init}
use srtplay.SndBuffer.Holds.{Holds}

pub init-Holds : (size mss : ℕ) → 0 < size → Holds (init size mss) [] 0
unfolding init
init-Holds size mss pos = record {
  at = λ j. if ltb j size then j else 0;
  ring = record {
    linked = λ j lt. ground (arith, lt);
    closed = ground (arith, pos);
    apart = λ i j lt j_lt e. ground (arith, lt, j_lt, e);
  };
  below = λ j. ground (arith, pos);
  first_eq = ground (arith, pos);
  curr_eq = ground (arith, pos);
  last_eq = ground (arith, pos);
  sent_le = omega arith;
  room = pos;
  unit_pos = pos;
  queue_eq = refl;
  bytes_eq = refl;
}
