-- ===== src/UnitQueue/Tests.antt =====
-- A queue of one block of two units, both taken, and a queue of three units that some steps lead to, with the
-- theorems there.
use srtplay.Base.{◌≤◌, ◌≡◌, refl, arith, inr, true, update}
use srtplay.Base.Int.{pos}
use srtplay.UnitQueue.{UnitQueue, free, good, make_unit_good, make_unit_free}
use srtplay.UnitQueue.Count.{Reach, start, made_good, made_free, num_taken-taken}
use srtplay.UnitQueue.Pool.{Pool, grown, get_next_avail_unit}
use srtplay.UnitQueue.Search.{Placed, Found}
use srtplay.UnitQueue.Find.{taken, get_next_avail_unit-Found}

abbrev full_pool : Pool
full_pool = record {
  units = record { flags = λ unit. good; num_taken = pos 2 };
  blocks = 1;
  size = 2;
  curr_queue = 0;
  avail_unit = 1;
}

abbrev start_queue : UnitQueue
start_queue = record { flags = λ unit. free; num_taken = pos 0 }

full_pool-Placed : Placed 2 full_pool
full_pool-Placed = record {
  size_eq = refl;
  curr_lt = omega arith;
  from_first = omega arith;
  to_end = omega arith;
}

get_next_avail_unit-Found_example :
    Found (grown 2 true full_pool) (get_next_avail_unit 2 true full_pool)
get_next_avail_unit-Found_example =
    get_next_avail_unit-Found 2 full_pool (omega arith) full_pool-Placed refl true
      (inr (refl, refl))

-- Two of three units are made good, then the first of them free.
one_left-Reach : Reach 3 (make_unit_free (make_unit_good (make_unit_good start_queue 0) 2) 0)
unfolding make_unit_good update
one_left-Reach =
    made_free (made_good (made_good start 0 (omega arith) refl) 2 (omega arith) refl) 0
      (omega arith) refl

num_taken-taken_example :
    let q = make_unit_free (make_unit_good (make_unit_good start_queue 0) 2) 0 in
    (q.num_taken ≡ pos (taken q.flags 3)) × (taken q.flags 3 ≤ 3)
num_taken-taken_example = num_taken-taken one_left-Reach
