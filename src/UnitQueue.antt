-- ===== src/UnitQueue.antt =====
-- `CUnitQueue` (srt/srtcore/queue.h and queue.cpp), as the receiver buffer uses it: the flags of the
-- units, and how many are taken. A unit is named by a number.
pub mod Pool
pub mod Scan
pub mod Search
pub mod Find
pub mod Count
mod Tests
use srtplay.Base.{ℕ, update}
use srtplay.Base.Int.{ℤ, pos, ◌+ℤ◌, ◌-ℤ◌}

-- `CUnit::Flag`
pub data Flag : Type 0 where
  free : Flag
  good : Flag
  passack : Flag
  dropped : Flag

pub record UnitQueue : Type 0 where
  pub flags : ℕ → Flag
  pub num_taken : ℤ

unfoldable pub make_unit_free : UnitQueue → ℕ → UnitQueue
make_unit_free q unit = record {
  flags = update q.flags unit free;
  num_taken = q.num_taken -ℤ pos 1;
}

unfoldable pub make_unit_good : UnitQueue → ℕ → UnitQueue
make_unit_good q unit = record {
  flags = update q.flags unit good;
  num_taken = q.num_taken +ℤ pos 1;
}
