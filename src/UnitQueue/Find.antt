-- ===== src/UnitQueue/Find.antt =====
-- `getNextAvailUnit` finds a free unit.
use srtplay.Base.{
  ℕ, zero, suc, ◌+◌, ◌*◌, ◌<◌, ◌≤◌, ◌≡◌, refl, sym, ap, ◌∙◌, arith, ltb, leb, ◌&&◌, if◌then◌else◌,
  Bool, true, false, Bool-cases, inl, inr, ◌⊎◌,
}
use srtplay.Base.Int.{pos, ltb_ℤ}
use srtplay.Base.Modular.{step_mul}
use srtplay.UnitQueue.{Flag}
use srtplay.UnitQueue.Pool.{Pool, tenfold, is_free, increase, search, grown, get_next_avail_unit}
use srtplay.UnitQueue.Search.{Placed, Found, block_end, search-Found}

-- How many of the first `n` units are not free.
abbrev pub taken : (ℕ → Flag) → ℕ → ℕ
taken flags zero = 0
taken flags (suc n) = if is_free (flags n) then taken flags n else taken flags n + 1

-- Where fewer units are taken than there are, one is free.
taken-free :
    (flags : ℕ → Flag) (n : ℕ) → taken flags n < n → (w : ℕ) × (w < n) × (is_free (flags w) ≡ true)
taken-free flags zero lt = absurd (omega arith)
taken-free flags (suc n) lt = elim (Bool-cases (is_free (flags n))) [
  | inl q ↦ (n, omega arith, q)
  | inr q ↦
      let fewer : taken flags n < n = ground (arith, q, lt) in
      let (w, w_lt, w_free) = taken-free flags n fewer in (w, omega (arith, w_lt), w_free)
]

module _ (block_size : ℕ) where
  -- From a free unit on, the whole of the search.
  whole-Found :
      (p : Pool) (w : ℕ)
      → Placed block_size p
      → w < p.size
      → is_free (p.units.flags w) ≡ true
      → Found p (search block_size (p.blocks + 1) p 0)
  whole-Found p w pl w_lt w_free =
      let from = pl.from_first in
      let to = pl.to_end in
      let all = pl.size_eq in
      let one = step_mul p.blocks block_size in
      let end = block_end block_size 0 0 p pl in
      elim (Bool-cases (leb p.avail_unit w)) [
        | inl q ↦
            let le : p.avail_unit ≤ w = ground (arith, q) in
            search-Found block_size w (p.blocks + 1) p 0 w pl w_lt w_free (inl refl) le
              (omega (arith, w_lt, le)) (omega (arith, w_lt, all, one))
        | inr q ↦
            let lt : w < p.avail_unit = ground (arith, q) in
            search-Found block_size w (p.blocks + 1) p 0 (w + p.size) pl w_lt w_free (inr refl)
              (omega (arith, to, end)) (omega (arith, lt)) (omega (arith, lt, to, all, one))
      ]

  increase-Placed :
      (p : Pool) → Placed block_size p → Placed block_size (increase block_size true p)
  unfolding increase
  increase-Placed p pl =
      let from = pl.from_first in
      let to = pl.to_end in
      let lt = pl.curr_lt in
      record {
        size_eq =
            (let all = pl.size_eq in
              let one = step_mul p.blocks block_size in omega (arith, all, one));
        curr_lt = omega (arith, lt);
        from_first = from;
        to_end = to;
      }

  new-is_free :
      (p : Pool)
      → Placed block_size p
      → 0 < block_size
      → is_free ((increase block_size true p).units.flags p.size) ≡ true
  unfolding increase
  new-is_free p pl b =
      let all = pl.size_eq in
      let inside : (leb (p.blocks * block_size) p.size
            && ltb p.size (p.blocks * block_size + block_size))
          ≡ true =
        ground (arith, all, b) in
      rw inside refl

  module _ (allocates : Bool) (p : Pool) where
    grown-full :
        ltb_ℤ (pos (p.size * 9)) (tenfold p.units.num_taken) ≡ true
        → grown block_size allocates p ≡ increase block_size allocates p
    unfolding grown
    grown-full q = rw q refl

    grown-same :
        ltb_ℤ (pos (p.size * 9)) (tenfold p.units.num_taken) ≡ false
        → grown block_size allocates p ≡ p
    unfolding grown
    grown-same q = rw q refl

    -- Where the grown pool `g` has a unit left, the search in it gives the result.
    grown-Found :
        (g : Pool)
        → grown block_size allocates p ≡ g
        → ltb_ℤ g.units.num_taken (pos g.size) ≡ true
        → Found g (search block_size (g.blocks + 1) g 0)
        → Found (grown block_size allocates p) (get_next_avail_unit block_size allocates p)
    unfolding get_next_avail_unit
    grown-Found g e left found = rw (e, left) found

module _ (block_size : ℕ) (p : Pool) (b : 0 < block_size) (pl : Placed block_size p)
    (count : p.units.num_taken ≡ pos (taken p.units.flags p.size)) where
  size_pos : 0 < p.size
  size_pos = let end = block_end block_size 0 0 p pl in omega (arith, end, b)

  -- In the pool as it is, if not all units are taken.
  same-Found :
      (allocates : Bool)
      → taken p.units.flags p.size < p.size
      → grown block_size allocates p ≡ p
      → Found (grown block_size allocates p) (get_next_avail_unit block_size allocates p)
  same-Found allocates some_left e =
      let (w, w_lt, w_free) = taken-free p.units.flags p.size some_left in
      let left : ltb_ℤ p.units.num_taken (pos p.size) ≡ true =
        rw count (ground (arith, some_left)) in
      grown-Found block_size allocates p p e left (whole-Found block_size p w pl w_lt w_free)

  -- In the pool with one more block.
  more-Found :
      taken p.units.flags p.size ≤ p.size
      → grown block_size true p ≡ increase block_size true p
      → Found (grown block_size true p) (get_next_avail_unit block_size true p)
  unfolding increase
  more-Found few e =
      let g = increase block_size true p in
      let left : ltb_ℤ g.units.num_taken (pos g.size) ≡ true = rw count (ground (arith, few, b)) in
      grown-Found block_size true p g e left (
        whole-Found block_size g p.size (increase-Placed block_size p pl) (omega (arith, b))
          (new-is_free block_size p pl b))

  -- Where more than nine in ten units are taken.
  full-Found :
      (allocates : Bool)
      → (taken p.units.flags p.size < p.size)
        ⊎ ((allocates ≡ true) × (taken p.units.flags p.size ≡ p.size))
      → grown block_size allocates p ≡ increase block_size allocates p
      → Found (grown block_size allocates p) (get_next_avail_unit block_size allocates p)
  unfolding increase
  full-Found true room e =
      more-Found (elim room [ inl lt ↦ omega (arith, lt) | inr all ↦ omega (arith, all.1) ]) e
  full-Found false (inl lt) e = same-Found false lt e
  full-Found false (inr all) e = let no = all.0 in absurd (ground (arith, no))

  -- Where the count of taken units is right, the result of `getNextAvailUnit` is a free unit of the pool, grown
  -- if more than nine in ten units are taken, unless all units are taken and no block can be allocated.
  pub get_next_avail_unit-Found :
      (allocates : Bool)
      → (taken p.units.flags p.size < p.size)
        ⊎ ((allocates ≡ true) × (taken p.units.flags p.size ≡ p.size))
      → Found (grown block_size allocates p) (get_next_avail_unit block_size allocates p)
  unfolding tenfold increase
  get_next_avail_unit-Found allocates room =
      elim (Bool-cases (ltb_ℤ (pos (p.size * 9)) (tenfold p.units.num_taken))) [
        | inl q ↦ full-Found allocates room (grown-full block_size allocates p q)
        | inr q ↦
            let few : taken p.units.flags p.size < p.size = elim room [
              | inl lt ↦ lt
              | inr all ↦
                  let most = ap (λ n. ltb_ℤ (pos (p.size * 9)) (tenfold n)) (sym count) ∙ q in
                  absurd (ground (arith, most, all.1, size_pos))
            ] in
            same-Found allocates few (grown-same block_size allocates p q)
      ]
