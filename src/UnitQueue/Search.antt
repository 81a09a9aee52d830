-- ===== src/UnitQueue/Search.antt =====
-- The search of `getNextAvailUnit` round the blocks.
use srtplay.Base.{
  ℕ, zero, suc, ◌+◌, ◌-◌, ◌*◌, ◌<◌, ◌≤◌, ◌≡◌, refl, ap, ◌∙◌, arith, ltb, ◌==◌, true, false, Option,
  none, some, Option-cases, inl, inr, ◌⊎◌, ℕ_discrete,
}
use native.Mathlib.Nat.{mul-le-mul_right, suc-mul}
use srtplay.Base.Modular.{step_mul}
use srtplay.UnitQueue.Pool.{Pool, is_free, scan, next_queue, search}
use srtplay.UnitQueue.Scan.{scan-some, scan-none}

-- The search stands in one of the blocks.
pub record Placed (block_size : ℕ) (p : Pool) : Type 0 where
  pub size_eq : p.size ≡ p.blocks * block_size
  pub curr_lt : p.curr_queue < p.blocks
  pub from_first : p.curr_queue * block_size ≤ p.avail_unit
  pub to_end : p.avail_unit ≤ p.curr_queue * block_size + block_size

-- A free unit of the pool is the result.
pub record Found (p : Pool) (result : Option (Option ℕ × Pool)) : Type 0 where
  pub unit : ℕ
  pub queue : ℕ
  pub result_eq : result ≡ some (some unit, record p { avail_unit = unit; curr_queue = queue })
  pub unit_lt : unit < p.size
  pub unit-is_free : is_free (p.units.flags unit) ≡ true

-- The search in the block of the unit that was available last.
module _ (block_size rounds checked : ℕ) (p : Pool) where
  abbrev left : ℕ
  left = p.curr_queue * block_size + block_size - p.avail_unit

  abbrev next : ℕ
  next = next_queue p.blocks p.curr_queue

  abbrev moved : Pool
  moved = record p { curr_queue = next; avail_unit = next * block_size }

  search-here :
      (unit : ℕ)
      → scan left p.units.flags p.avail_unit ≡ some unit
      → search block_size (suc rounds) p checked ≡ some (some unit, record p { avail_unit = unit })
  unfolding search
  search-here unit q = rw (q, search) refl

  search-next :
      scan left p.units.flags p.avail_unit ≡ none
      → ltb (checked + left) p.size ≡ true
      → search block_size (suc rounds) p checked ≡ search block_size rounds moved (checked + left)
  unfolding search
  search-next q more = rw (q, more, search) refl

  -- What is found from the next block on is found.
  search-onward :
      scan left p.units.flags p.avail_unit ≡ none
      → checked + left < p.size
      → Found moved (search block_size rounds moved (checked + left))
      → Found p (search block_size (suc rounds) p checked)
  search-onward q more found =
      let goes_on : ltb (checked + left) p.size ≡ true = ground (arith, more) in
      record {
        unit = found.unit;
        queue = found.queue;
        result_eq = search-next q goes_on ∙ found.result_eq;
        unit_lt = found.unit_lt;
        unit-is_free = found.unit-is_free;
      }

  module _ (pl : Placed block_size p) where
    pub block_end : p.curr_queue * block_size + block_size ≤ p.size
    block_end =
        let below = mul-le-mul_right block_size pl.curr_lt in
        let eq = suc-mul p.curr_queue block_size in omega (arith, below, eq, pl.size_eq)

    -- The next block: the one behind, or the first.
    next-cases :
        ((next ≡ p.curr_queue + 1)
          × (next < p.blocks)
          × (next * block_size ≡ p.curr_queue * block_size + block_size))
        ⊎ ((next ≡ 0) × (next * block_size ≡ 0) × (p.curr_queue * block_size + block_size ≡ p.size))
    next-cases = elim (ℕ_discrete (p.curr_queue + 1) p.blocks) [
      | yes e ↦
          let last : (p.curr_queue + 1 == p.blocks) ≡ true = ground (arith, e) in
          let next_eq : next ≡ 0 = rw last refl in
          let all = ap (λ k. k * block_size) e in
          let eq = step_mul p.curr_queue block_size in
          inr (
            next_eq,
            ap (λ k. k * block_size) next_eq ∙ omega arith,
            omega (arith, all, eq, pl.size_eq),
          )
      | no e ↦
          let last : (p.curr_queue + 1 == p.blocks) ≡ false = ground (arith, e) in
          let next_eq : next ≡ p.curr_queue + 1 = rw last refl in
          let lt = pl.curr_lt in
          inl (
            next_eq,
            omega (arith, next_eq, lt, e),
            ap (λ k. k * block_size) next_eq ∙ step_mul p.curr_queue block_size,
          )
    ]

    moved-Placed : Placed block_size moved
    moved-Placed = record {
      size_eq = pl.size_eq;
      curr_lt = elim next-cases [
        | inl a ↦ a.1
        | inr a ↦ let lt = pl.curr_lt in omega (arith, a.0, lt)
      ];
      from_first = omega arith;
      to_end = omega arith;
    }

module _ (block_size w : ℕ) where
  -- The next free unit that is sure to be found is `v` units on from the first: the free unit `w`, or that one
  -- round later.
  pub search-Found :
      (rounds : ℕ) (p : Pool) (checked v : ℕ)
      → Placed block_size p
      → w < p.size
      → is_free (p.units.flags w) ≡ true
      → (v ≡ w) ⊎ (v ≡ w + p.size)
      → p.avail_unit ≤ v
      → checked + v < p.size + p.avail_unit
      → v < p.curr_queue * block_size + rounds * block_size
      → Found p (search block_size rounds p checked)
  unfolding search
  search-Found zero p checked v pl wlt wfree over le few room =
      let from = pl.from_first in absurd (omega (arith, from, le, room))
  search-Found (suc rounds) p checked v pl wlt wfree over le few room =
      elim (Option-cases (scan (left block_size rounds checked p) p.units.flags p.avail_unit)) [
        | inr (unit, q) ↦
            let found =
              scan-some (left block_size rounds checked p) p.units.flags p.avail_unit unit q in
            record {
              unit = unit;
              queue = p.curr_queue;
              result_eq = search-here block_size rounds checked p unit q;
              unit_lt =
                  (let end = block_end block_size rounds checked p pl in
                    let to = pl.to_end in omega (arith, found.1, end, to));
              unit-is_free = found.0;
            }
        | inl q ↦
            let onward = search-onward block_size rounds checked p q in
            let placed = moved-Placed block_size rounds checked p pl in
            let past =
              scan-none (left block_size rounds checked p) p.units.flags p.avail_unit w q in
            let end = block_end block_size rounds checked p pl in
            let to = pl.to_end in
            let more = suc-mul rounds block_size in
            let behind : p.curr_queue * block_size + block_size ≤ v = elim over [
              | inl e ↦ let far = past (omega (arith, e, le)) wfree in omega (arith, far, e, to)
              | inr e ↦ omega (arith, e, end)
            ] in
            elim (next-cases block_size rounds checked p pl) [
              | inl a ↦ onward (omega (arith, few, behind, to)) (
                  search-Found rounds (moved block_size rounds checked p)
                    (checked + left block_size rounds checked p) v placed wlt wfree over
                    (omega (arith, a, behind)) (omega (arith, a, few, to))
                    (omega (arith, a, room, more)))
              | inr a ↦
                  let round : v ≡ w + p.size = elim over [
                    | inl e ↦ absurd (omega (arith, e, a, behind, wlt))
                    | inr e ↦ e
                  ] in
                  onward (omega (arith, few, a, to, round)) (
                    search-Found rounds (moved block_size rounds checked p)
                      (checked + left block_size rounds checked p) w placed wlt wfree (inl refl)
                      (omega (arith, a)) (omega (arith, a, few, to, round))
                      (omega (arith, a, room, more, round)))
            ]
      ]
