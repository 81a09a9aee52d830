-- ===== src/RcvLossList/Query/Find.antt =====
-- `find` and `getFirstLostSeq` against the list of ranges.
use srtplay.Base.{
  ℕ, zero, suc, ◌+◌, ◌≤◌, ◌<◌, ◌≡◌, ◌↔◌, ◌⊎◌, inl, inr, refl, ap, arith, leb, ◌==◌, ◌&&◌, ◌||◌,
  Bool, true, false, [], ◌∷◌, Option, none, some, dec_lt, ℕ_discrete,
}
use srtplay.SeqNo.Unwrapped.{seq_of, seqcmp-lt, seqcmp-gt, seqcmp-le, seqcmp-ge, seqcmp-eq}
use srtplay.RcvLossList.{Node, RcvLossList}
use srtplay.RcvLossList.Ranges.{Ranges, Sorted, Below, Lost}
use srtplay.RcvLossList.Repr.{first_idx, Seg, Repr}
use srtplay.RcvLossList.Query.{find_from, find, get_first_lost_seq}

-- Some position from `x` to `y` is lost.
unfoldable pub overlaps : ℕ → ℕ → Ranges → Bool
overlaps x y [] = false
overlaps x y ((lo, hi) ∷ xs) = (leb lo y && leb x hi) || overlaps x y xs

abbrev pub LostWithin : ℕ → ℕ → Ranges → Type 0
LostWithin x y xs = (z : ℕ) × (x ≤ z) × (z ≤ y) × Lost z xs

within_later : (x y lo hi : ℕ) (xs : Ranges) → LostWithin x y xs → LostWithin x y ((lo, hi) ∷ xs)
within_later x y lo hi xs (z, p, q, m) = (z, p, q, inr m)

within_here :
    (x y lo hi : ℕ) (xs : Ranges)
    → x ≤ y
    → lo ≤ hi
    → lo ≤ y
    → x ≤ hi
    → LostWithin x y ((lo, hi) ∷ xs)
within_here x y lo hi xs range r p q = elim (dec_lt x lo) [
  | yes h ↦ (lo, omega arith, p, inl (omega arith, r))
  | no h ↦ (x, omega arith, range, inl (omega arith, q))
]

within_cases :
    (x y lo hi : ℕ) (xs : Ranges)
    → LostWithin x y ((lo, hi) ∷ xs)
    → ((lo ≤ y) × (x ≤ hi)) ⊎ LostWithin x y xs
within_cases x y lo hi xs (z, p, q, inl m) = inl (omega arith, omega arith)
within_cases x y lo hi xs (z, p, q, inr m) = inr (z, p, q, m)

pub overlaps_iff :
    (b x y : ℕ) (xs : Ranges) → Sorted b xs → x ≤ y → (overlaps x y xs ≡ true) ↔ LostWithin x y xs
unfolding overlaps
overlaps_iff b x y [] s range = (λ e. cc, λ m. elim m.3 [ ])
overlaps_iff b x y ((lo, hi) ∷ xs) s range =
    let rest = overlaps_iff (hi + 1) x y xs s.2 range in
    (
      λ e. ground (arith, rest.0, within_here x y lo hi xs range, within_later x y lo hi xs),
      λ m. ground (arith, rest.1, within_cases x y lo hi xs m),
    )

abbrev pub count : Ranges → ℕ
count [] = 0
count ((lo, hi) ∷ xs) = suc (count xs)

-- There are no more ranges than places.
pub count-le : (b u : ℕ) (xs : Ranges) → Sorted b xs → Below u xs → b ≤ u → b + count xs ≤ u
count-le b u [] s f h = omega arith
count-le b u ((lo, hi) ∷ xs) s f h =
    let rest = count-le (hi + 1) u xs s.2 f.1 (omega arith) in omega arith

module _ (size c b x y : ℕ) (nodes : ℕ → Node) (range : x ≤ y) (from : b ≤ x)
    (near : y < b + 0x3FFFFFFF) where
  find_from-overlaps :
      (rounds : ℕ) (a : ℕ) (m : Option ℕ) (xs : Ranges)
      → b ≤ a
      → Sorted a xs
      → Below (b + 0x3FFFFFFF) xs
      → count xs ≤ rounds
      → Seg size c nodes m xs none
      → find_from nodes rounds (first_idx size c xs none) (seq_of x) (seq_of y)
        ≡ some (overlaps x y xs)
  unfolding find_from overlaps
  find_from-overlaps zero a m [] low s f h seg = refl
  find_from-overlaps (suc rounds) a m [] low s f h seg = refl
  find_from-overlaps zero a m ((lo, hi) ∷ xs) low s f h seg =
      let bad : ⊥ = omega arith in elim bad [ ]
  find_from-overlaps (suc rounds) a m ((lo, hi) ∷ xs) low s f h seg =
      let rest =
        find_from-overlaps rounds (hi + 1) _ xs (omega arith) s.2 f.1 (omega arith) seg.1 in
      let (at, long, later) = s in
      let close = f.0 in
      let equal = seqcmp-eq lo x (omega arith) in
      let behind = seqcmp-gt lo x (omega arith) in
      let before = seqcmp-lt lo x (omega arith) in
      let within = seqcmp-le lo y (omega arith) in
      let reach = seqcmp-ge hi x (omega arith) in
      elim (ℕ_discrete lo hi) [
        | yes e ↦
            let short : (lo == hi) ≡ true = ground arith in
            rw (seg.0, rest, equal, behind, before, within, short) (ground arith)
        | no n ↦
            let wide : (lo == hi) ≡ false = ground arith in
            rw (seg.0, rest, equal, behind, before, within, wide, reach) (ground arith)
      ]

find-overlaps :
    (size c b x y : ℕ) (xs : Ranges) (l : RcvLossList)
    → Repr size c b xs l
    → x ≤ y
    → b ≤ x
    → y < b + 0x3FFFFFFF
    → find size l (seq_of x) (seq_of y) ≡ some (overlaps x y xs)
unfolding find overlaps
find-overlaps size c b x y [] l r range from near =
    let none_lost : (l.length == 0) ≡ true = ground (arith, r.count_eq) in rw none_lost refl
find-overlaps size c b x y ((lo, hi) ∷ xs) l r range from near =
    let some_lost : (l.length == 0) ≡ false = ground (arith, r.count_eq) in
    let rounds = count-le b (b + size) ((lo, hi) ∷ xs) r.ordered r.fits (omega arith) in
    rw (some_lost, r.links.head_eq)
      (find_from-overlaps size c b x y l.nodes range from near size b none ((lo, hi) ∷ xs)
        (omega arith) r.ordered r.near (omega arith) r.links.seg)

-- `find` in a list that represents the ranges `xs` ends, without a fault, and says whether a position
-- from `x` to `y` is lost. These positions are not before the lower bound `b` of the list, and within
-- the half circle behind it.
pub find_lost :
    (size c b x y : ℕ) (xs : Ranges) (l : RcvLossList)
    → Repr size c b xs l
    → x ≤ y
    → b ≤ x
    → y < b + 0x3FFFFFFF
    → (found : Bool) × (find size l (seq_of x) (seq_of y) ≡ some found)
      × ((found ≡ true) ↔ LostWithin x y xs)
find_lost size c b x y xs l r range from near = (
  overlaps x y xs,
  find-overlaps size c b x y xs l r range from near,
  overlaps_iff b x y xs r.ordered range,
)

Lost-ge : (b y : ℕ) (xs : Ranges) → Sorted b xs → Lost y xs → b ≤ y
Lost-ge b y [] s m = elim m [ ]
Lost-ge b y ((lo, hi) ∷ xs) s (inl m) = omega arith
Lost-ge b y ((lo, hi) ∷ xs) s (inr m) = omega (arith, Lost-ge (hi + 1) y xs s.2 m)

-- In a list that represents the ranges `xs`, the first lost number is that of the first lost position,
-- or SRT_SEQNO_NONE where nothing is lost.
pub first-Lost :
    (size c b : ℕ) (xs : Ranges) (l : RcvLossList)
    → Repr size c b xs l
    → ((get_first_lost_seq l ≡ some none) × ((y : ℕ) → ¬ Lost y xs))
      ⊎ ((x : ℕ) × (get_first_lost_seq l ≡ some (some (seq_of x)))
          × Lost x xs
          × ((y : ℕ) → Lost y xs → x ≤ y))
unfolding get_first_lost_seq
first-Lost size c b [] l r =
    let none_lost : (l.length == 0) ≡ true = ground (arith, r.count_eq) in
    inl (rw none_lost refl, λ y m. m)
first-Lost size c b ((lo, hi) ∷ xs) l r =
    let some_lost : (l.length == 0) ≡ false = ground (arith, r.count_eq) in
    inr (
      lo,
      rw (some_lost, r.links.head_eq) (ap some (ap (λ (n : Node). n.seqstart) r.links.seg.0)),
      inl (omega arith, r.ordered.1),
      λ y m. Lost-ge lo y ((lo, hi) ∷ xs) (omega arith, r.ordered.1, r.ordered.2) m,
    )
