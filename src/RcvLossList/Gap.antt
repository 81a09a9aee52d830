-- ===== src/RcvLossList/Gap.antt =====
-- A represented list, taken apart at one of its ranges.
use srtplay.Base.{ℕ, ◌+◌, ◌≤◌, ◌<◌, ◌≡◌, arith, ◌∷◌, ◌++◌, none, some}
use srtplay.RcvLossList.{RcvLossList}
use srtplay.RcvLossList.Ranges.{Ranges, Sorted, Sorted-mono, Sorted-split, Below-mono, Below-split}
use srtplay.RcvLossList.Repr.{
  node_of, idx, first_idx, last_idx, Seg, Seg-split, Unused, Unused-before, Unused-behind, Repr,
}
use srtplay.RcvLossList.Links.{Parts}

module _ (size c : ℕ) where
  pub record Gap (b : ℕ) (ps : Ranges) (lo hi : ℕ) (qs : Ranges) (l : RcvLossList) : Type 0 where
    pub parts : Parts size c b lo ps qs
    pub range : lo ≤ hi
    pub inside : hi < b + size
    pub near : hi < b + 0x3FFFFFFF
    pub rest : Sorted (hi + 1) qs
    pub front : Seg size c l.nodes none ps (some (idx size c lo))
    pub node :
        l.nodes (idx size c lo) ≡ node_of lo hi (last_idx size c none ps) (first_idx size c qs none)
    pub back : Seg size c l.nodes (some (idx size c lo)) qs none

  pub gap :
      (b : ℕ) (ps : Ranges) (lo hi : ℕ) (qs : Ranges) (l : RcvLossList)
      → Repr size c b (ps ++ (lo, hi) ∷ qs) l
      → Gap b ps lo hi qs l
  gap b ps lo hi qs l r =
      let (o, below, from, range, rest) = Sorted-split b ps lo hi qs r.ordered in
      let (inside, back_below) = (Below-split (b + size) ps ((lo, hi) ∷ qs) r.fits).1 in
      let (near, _) = (Below-split (b + 0x3FFFFFFF) ps ((lo, hi) ∷ qs) r.near).1 in
      let (front, node_back) = Seg-split size c l.nodes none none ps ((lo, hi) ∷ qs) r.links.seg in
      record {
        parts = record {
          front_ordered = o;
          front_below = below;
          back_ordered = Sorted-mono lo (hi + 1) qs (omega arith) rest;
          back_below = back_below;
          above = from;
          room = omega arith;
        };
        range = range;
        inside = inside;
        near = near;
        rest = rest;
        front = front;
        node = node_back.0;
        back = node_back.1;
      }

  -- The positions from `lo` up to the next range are at places that the other ranges do not use.
  pub Gap-Unused :
      (b : ℕ) (ps : Ranges) (lo hi : ℕ) (qs : Ranges) (l : RcvLossList) (y : ℕ)
      → Gap b ps lo hi qs l
      → lo ≤ y
      → y < b + size
      → Sorted (y + 1) qs
      → Unused size c (idx size c y) ps × Unused size c (idx size c y) qs
  Gap-Unused b ps lo hi qs l y g from below later = (
    Unused-behind size c b y ps g.parts.front_ordered (Below-mono lo y ps from g.parts.front_below)
        below,
    Unused-before size c (y + 1) y qs later
        (Below-mono (b + size) (y + size) qs (omega (arith, g.parts.above)) g.parts.back_below)
        (omega arith),
  )
