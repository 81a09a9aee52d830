-- ===== src/RcvLossList/Removal/Cases.antt =====
-- `remove` at one range of the list, case by case.
use srtplay.Base.{
  ℕ, ◌+◌, ◌-◌, ◌%◌, ◌≤◌, ◌<◌, ◌≡◌, refl, sym, ap, ◌∙◌, subst, arith, ◌==◌, if◌then◌else◌, false,
  ℕ_discrete, ◌∷◌, ◌++◌, none, some,
}
use srtplay.SeqNo.Unwrapped.{seq_of, seqcmp-gt, seq_of_eq}
use srtplay.RcvLossList.{Node, RcvLossList}
use srtplay.RcvLossList.Removal.{trim, split, search_back, remove_start, remove_inside}
use srtplay.RcvLossList.Removal.Unlink.{unlinked, unlinked-Linked, unlink-unlinked}
use srtplay.RcvLossList.Removal.Shift.{shifted, shifted-Linked, shift-shifted}
use srtplay.RcvLossList.Removal.Search.{search_back-idx}
use srtplay.RcvLossList.Removal.Trim.{trimmed, trimmed-Linked}
use srtplay.RcvLossList.Removal.Split.{halves, halved, halved-Linked, split-halved}
use srtplay.RcvLossList.Ranges.{Ranges, Sorted, Sorted-mono}
use srtplay.RcvLossList.Repr.{
  idx, idx-ne, idx-lt, idx_back, idx_forward, Unused-append, IsFree, Repr,
}
use srtplay.RcvLossList.Gap.{gap, Gap-Unused}
use srtplay.RcvLossList.Removal.Outcome.{
  contains_here, without_here, contains_beyond, without_beyond, Removes, taken, kept,
}

-- The cases of a removal at one range of the list.
module _ (size c b : ℕ) (ps qs : Ranges) (l : RcvLossList) where
  pub single :
      (lo h t : ℕ)
      → Repr size c b (ps ++ (lo, lo) ∷ qs) l
      → l.head ≡ some h
      → Removes size c b lo (ps ++ (lo, lo) ∷ qs) (remove_start size l h t (idx size c lo))
  unfolding remove_start
  single lo h t r eh =
      let g = gap size c b ps lo lo qs l r in
      let ended : (l.nodes (idx size c lo)).seqend ≡ none =
        ap (λ (n : Node). n.seqend) g.node ∙ ground arith in
      taken size c b lo (ps ++ (lo, lo) ∷ qs) l r (ps ++ qs) (unlinked size c b ps qs lo l) _
        (rw (ended, remove_start, unlink-unlinked size c b ps qs lo l h r eh))
        (without_here b lo ps lo lo qs g.parts.front_ordered g.parts.front_below (omega arith)
            (omega arith)
          ∙ ap (λ z. ps ++ z) (ground arith))
        (contains_here b lo ps lo lo qs g.parts.front_ordered g.parts.front_below (omega arith)
          (omega arith))
        refl (unlinked-Linked size c b ps qs lo l r)

  pub first :
      (lo hi h t : ℕ)
      → Repr size c b (ps ++ (lo, hi) ∷ qs) l
      → lo < hi
      → l.head ≡ some h
      → l.tail ≡ some t
      → Removes size c b lo (ps ++ (lo, hi) ∷ qs) (remove_start size l h t (idx size c lo))
  unfolding remove_start
  first lo hi h t r long eh et =
      let g = gap size c b ps lo hi qs l r in
      let ended : (l.nodes (idx size c lo)).seqend ≡ some (seq_of hi) =
        ap (λ (n : Node). n.seqend) g.node ∙ ground arith in
      taken size c b lo (ps ++ (lo, hi) ∷ qs) l r (ps ++ (lo + 1, hi) ∷ qs)
        (shifted size c b ps qs lo hi l) _
        (rw (
          ended,
          remove_start,
          idx_forward size c lo 1,
          shift-shifted size c b ps qs lo hi l r long h t eh et,
        ))
        (without_here b lo ps lo hi qs g.parts.front_ordered g.parts.front_below (omega arith)
            (omega arith)
          ∙ ap (λ z. ps ++ z) (ground arith))
        (contains_here b lo ps lo hi qs g.parts.front_ordered g.parts.front_below (omega arith)
          (omega arith))
        refl (shifted-Linked size c b ps qs lo hi l r long)

  -- The position `y + 1` lies behind the start of the range, and before the next one.
  module _ (lo hi y : ℕ) (r : Repr size c b (ps ++ (lo, hi) ∷ qs) l) (from : lo ≤ y)
      (later : Sorted (y + 1 + 1) qs) (fits : y + 1 < b + size)
      (near : y + 1 < b + 0x3FFFFFFF) where
    pub IsFree-between : (z : ℕ) → lo < z → z ≤ y + 1 → IsFree (l.nodes (idx size c z))
    IsFree-between z p q =
        let g = gap size c b ps lo hi qs l r in
        let above = g.parts.above in
        let u =
          Gap-Unused size c b ps lo hi qs l z g (omega arith) (omega arith)
            (Sorted-mono (z + 1) (y + 1 + 1) qs (omega arith) later) in
        r.links.free (idx size c z) (idx-lt size c z (omega arith)) (
          Unused-append size c _ ps ((lo, hi) ∷ qs) u.0
            (λ e. idx-ne size c lo z p (omega arith) (sym e), u.1))

    found :
        search_back size l.nodes size ((idx size c (y + 1) + size - 1) % size)
        ≡ some (idx size c lo)
    found =
        let g = gap size c b ps lo hi qs l r in
        let above = g.parts.above in
        let there : lo + (y - lo) ≡ y = omega arith in
        rw (idx_back size c y (omega arith)) (
          subst (λ z. search_back size l.nodes size (idx size c z) ≡ some (idx size c lo)) there
            (search_back-idx size c l.nodes lo (seq_of lo) size (y - lo) (omega arith) (omega arith)
              (λ z p q. (IsFree-between z p (omega arith)).0)
              (ap (λ (n : Node). n.seqstart) g.node)))

    ends : (l.nodes (idx size c lo)).seqend ≡ (if lo == hi then none else some (seq_of hi))
    ends = ap (λ (n : Node). n.seqend) (gap size c b ps lo hi qs l r).node

    starts : (l.nodes (idx size c lo)).seqstart ≡ some (seq_of lo)
    starts = ap (λ (n : Node). n.seqstart) (gap size c b ps lo hi qs l r).node

    -- The range ends earlier: nothing is removed.
    misses :
        (t : ℕ)
        → hi < y + 1
        → remove_inside size l t (idx size c (y + 1)) (seq_of (y + 1)) ≡ some (false, l)
    unfolding remove_inside
    misses t short =
        let g = gap size c b ps lo hi qs l r in
        let above = g.parts.above in
        let range = g.range in
        let past = seqcmp-gt (y + 1) hi (omega arith) in
        elim (ℕ_discrete lo hi) [
          | yes e ↦
              let ended : (l.nodes (idx size c lo)).seqend ≡ none = ends ∙ ground arith in
              rw (found, starts, ended)
          | no n ↦
              let ended : (l.nodes (idx size c lo)).seqend ≡ some (seq_of hi) =
                ends ∙ ground arith in
              rw (found, starts, ended, past) (ground arith)
        ]

    pub beyond :
        (t : ℕ)
        → hi < y + 1
        → Removes size c b
            (y + 1)
            (ps ++ (lo, hi) ∷ qs)
            (remove_inside size l t (idx size c (y + 1)) (seq_of (y + 1)))
    beyond t short =
        let g = gap size c b ps lo hi qs l r in
        let o = g.parts.front_ordered in
        let f = g.parts.front_below in
        kept size c b (y + 1) (ps ++ (lo, hi) ∷ qs) l r _ (misses t short)
          (without_beyond b (y + 1) ps lo hi qs o f (omega arith) short later)
          (contains_beyond b (y + 1) ps lo hi qs o f (omega arith) short later)

    -- The range goes on: it is split.
    pub middle :
        (t : ℕ)
        → y + 1 < hi
        → l.tail ≡ some t
        → Removes size c b
            (y + 1)
            (ps ++ (lo, hi) ∷ qs)
            (remove_inside size l t (idx size c (y + 1)) (seq_of (y + 1)))
    unfolding remove_inside split
    middle t high et =
        let g = gap size c b ps lo hi qs l r in
        let o = g.parts.front_ordered in
        let f = g.parts.front_below in
        let above = g.parts.above in
        let close = g.near in
        let ended : (l.nodes (idx size c lo)).seqend ≡ some (seq_of hi) = ends ∙ ground arith in
        taken size c b (y + 1) (ps ++ (lo, hi) ∷ qs) l r (ps ++ halves size c b ps qs lo y hi l)
          (halved size c b ps qs lo y hi l) _
          (rw
            (
              found,
              starts,
              ended,
              seqcmp-gt (y + 1) hi (omega arith),
              seq_of_eq (y + 1) hi (omega arith),
              idx_forward size c (y + 1) 1,
              split-halved size c b ps qs lo y hi l r from (omega arith) t et,
            )
            (ground arith))
          (without_here b (y + 1) ps lo hi qs o f (omega arith) (omega arith)
            ∙ ap (λ z. ps ++ z) (ground arith))
          (contains_here b (y + 1) ps lo hi qs o f (omega arith) (omega arith)) refl
          (halved-Linked size c b ps qs lo y hi l r from (omega arith))

  -- The range ends here: it is cut.
  pub last :
      (lo y t : ℕ)
      → Repr size c b (ps ++ (lo, y + 1) ∷ qs) l
      → lo ≤ y
      → Sorted (y + 1 + 1) qs
      → y + 1 < b + size
      → y + 1 < b + 0x3FFFFFFF
      → Removes size c b
          (y + 1)
          (ps ++ (lo, y + 1) ∷ qs)
          (remove_inside size l t (idx size c (y + 1)) (seq_of (y + 1)))
  unfolding remove_inside trim
  last lo y t r from later fits near =
      let g = gap size c b ps lo (y + 1) qs l r in
      let o = g.parts.front_ordered in
      let f = g.parts.front_below in
      let ended : (l.nodes (idx size c lo)).seqend ≡ some (seq_of (y + 1)) =
        ends lo (y + 1) y r from later fits near ∙ ground arith in
      taken size c b (y + 1) (ps ++ (lo, y + 1) ∷ qs) l r (ps ++ (lo, y) ∷ qs)
        (trimmed size c b ps qs lo y l) _
        (rw
          (
            found lo (y + 1) y r from later fits near,
            starts lo (y + 1) y r from later fits near,
            ended,
            seqcmp-gt (y + 1) (y + 1) (omega arith),
            seq_of_eq (y + 1) (y + 1) (omega arith),
          )
          (ground arith))
        (without_here b (y + 1) ps lo (y + 1) qs o f (omega arith) (omega arith)
          ∙ ap (λ z. ps ++ z) (ground arith))
        (contains_here b (y + 1) ps lo (y + 1) qs o f (omega arith) (omega arith)) refl
        (trimmed-Linked size c b ps qs lo y l r from)
