-- ===== src/SndUList/Tests.antt =====
-- A schedule of seven nodes, the theorems there, and what `remove` of a node at a place where the last one does not
-- fit in leads to.
use srtplay.Base.{
  ℕ, zero, suc, List, [], ◌∷◌, ◌≡◌, refl, arith, ltb, ◌==◌, if◌then◌else◌, true, Option, none, some,
  some_inj, update, ◌>>=◌,
}
use srtplay.SndUList.{
  SndUList, remove_node, reschedule, pop, go_down, fill_hole, swap_down, swapped, remove_at,
}
use srtplay.SndUList.Valid.{Valid}
use srtplay.SndUList.Remove.{Removed, remove_node-Removed}
use srtplay.SndUList.Schedule.{Popped, Updated, pop-Popped, reschedule-Updated}

abbrev stamps : ℕ → ℕ
stamps n =
    if n == 0
    then 1
    else if n == 1
    then 10
    else if n == 2
    then 2
    else if n == 3
    then 11
    else if n == 4
    then 12
    else if n == 5
    then 20
    else 4

-- The node `n` is at the place `n`.
abbrev seven : SndUList
seven = record {
  heap = λ i. i;
  array_length = 512;
  entries = 7;
  time_stamp = stamps;
  heap_loc = λ n. if ltb n 7 then some n else none;
  interrupts = 0;
  notified = 0;
}

seven-Valid : Valid seven
seven-Valid = record {
  linked = record { at = λ i lt. ground (arith, lt); back = λ n i e. ground (arith, e) };
  ordered = λ c pos lt. ground (arith, pos, lt);
  room = omega arith;
  not_empty = omega arith;
}

remove_node-Removed_example :
    (s' : SndUList) × (remove_node seven 3 ≡ some s') × Removed 3 3 seven s'
remove_node-Removed_example = remove_node-Removed seven 3 3 seven-Valid refl

pop-Popped_example :
    (first : Option ℕ) × (s' : SndUList) × (pop seven 5 ≡ some (first, s'))
    × Valid s'
    × Popped 5 seven first s'
pop-Popped_example = pop-Popped seven seven-Valid 5

reschedule-Updated_example :
    (s' : SndUList) × (reschedule seven 5 true 3 ≡ some s') × Updated 5 3 seven s'
reschedule-Updated_example =
    reschedule-Updated seven 5 true 3 seven-Valid
      (λ loc e again lt pos more. let same : 5 ≡ loc = some_inj e in ground (arith, same))

-- The nodes that so many calls of `pop` give out.
pops : ℕ → SndUList → Option (List (Option ℕ))
pops zero s = some []
pops (suc n) s = pop s 99 >>= λ r. pops n r.1 >>= λ nodes. some (r.0 ∷ nodes)

-- Without the node 3, whose place node 6 takes, the nodes 0, 2 and 1 are given out, of the times 1, 2 and 10, and
-- only then node 6, of the time 4.
late_after_removal :
    (remove_node seven 3 >>= pops 4) ≡ some (some 0 ∷ some 2 ∷ some 1 ∷ some 6 ∷ [])
unfolding pops pop remove_node remove_at fill_hole go_down swap_down swapped update
late_after_removal = refl
