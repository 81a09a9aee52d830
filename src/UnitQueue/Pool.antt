-- ===== src/UnitQueue/Pool.antt =====
-- The blocks of units of `CUnitQueue`, and `getNextAvailUnit` (srt/srtcore/queue.h and queue.cpp).
-- All blocks have `block_size` units, and the ring of the blocks is in the order they were allocated: block k has
-- the units from k * block_size on.
use srtplay.Base.{
  ℕ, zero, suc, ◌+◌, ◌-◌, ◌*◌, ltb, leb, ◌==◌, ◌&&◌, if◌then◌else◌, Bool, true, false, Option, none,
  some,
}
use srtplay.Base.Int.{ℤ, pos, negsuc, ltb_ℤ}
use srtplay.UnitQueue.{UnitQueue, Flag, free, good, passack, dropped}

pub record Pool : Type 0 where
  pub units : UnitQueue
  pub blocks : ℕ
  pub size : ℕ
  pub curr_queue : ℕ
  pub avail_unit : ℕ

abbrev pub is_free : Flag → Bool
is_free free = true
is_free good = false
is_free passack = false
is_free dropped = false

-- `10 * n`
unfoldable pub tenfold : ℤ → ℤ
tenfold (pos n) = pos (n * 10)
tenfold (negsuc n) = negsuc (n * 10 + 9)

-- The first free one of the next units.
unfoldable pub scan : ℕ → (ℕ → Flag) → ℕ → Option ℕ
scan zero flags unit = none
scan (suc left) flags unit = elim (is_free (flags unit)) [
  | true ↦ some unit
  | false ↦ scan left flags (unit + 1)
]

abbrev pub next_queue : ℕ → ℕ → ℕ
next_queue blocks k = if k + 1 == blocks then 0 else k + 1

module _ (block_size : ℕ) where
  unfoldable pub init : Pool
  init = record {
    units = record { flags = λ unit. free; num_taken = pos 0 };
    blocks = 1;
    size = block_size;
    curr_queue = 0;
    avail_unit = 0;
  }

  -- Does nothing if the block cannot be allocated.
  unfoldable pub increase : Bool → Pool → Pool
  increase false p = p
  increase true p = record p {
    units = record p.units {
      flags = λ unit.
          if leb (p.blocks * block_size) unit && ltb unit (p.blocks * block_size + block_size)
          then free
          else p.units.flags unit;
    };
    blocks = p.blocks + 1;
    size = p.size + block_size;
  }

  -- From the unit that was available last, round the blocks.
  unfoldable pub search : ℕ → Pool → ℕ → Option (Option ℕ × Pool)
  search zero p checked = none
  search (suc rounds) p checked =
      let left = p.curr_queue * block_size + block_size - p.avail_unit in
      let next = next_queue p.blocks p.curr_queue in
      let p1 = record p { curr_queue = next; avail_unit = next * block_size } in
      elim (scan left p.units.flags p.avail_unit) [
        | some unit ↦ some (some unit, record p { avail_unit = unit })
        | none ↦ elim (ltb (checked + left) p.size) [
          | true ↦ search rounds p1 (checked + left)
          | false ↦ some (none, p1)
        ]
      ]

  -- Another block, if 90 % of the units are taken; `allocates` tells if memory for it can be had.
  unfoldable pub grown : Bool → Pool → Pool
  grown allocates p =
      if ltb_ℤ (pos (p.size * 9)) (tenfold p.units.num_taken) then increase allocates p else p

  unfoldable pub get_next_avail_unit : Bool → Pool → Option (Option ℕ × Pool)
  get_next_avail_unit allocates p =
      let p1 = grown allocates p in
      if ltb_ℤ p1.units.num_taken (pos p1.size)
      then search (p1.blocks + 1) p1 0
      else some (none, p1)
