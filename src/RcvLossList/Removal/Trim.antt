-- ===== src/RcvLossList/Removal/Trim.antt =====
-- `remove` of the last number of a longer range: the range ends one earlier.
use srtplay.Base.{
  ℕ, ◌+◌, ◌≤◌, ◌<◌, ◌≡◌, sym, ap₂, ◌∙◌, subst, arith, ◌==◌, if◌then◌else◌, ◌∷◌, ◌++◌, Option, none,
  some, update, update_self, update_ne,
}
use srtplay.SeqNo.Unwrapped.{seq_of, seq_of_eq, incseq-seq_of, decseq-seq_of}
use srtplay.RcvLossList.{Node, RcvLossList}
use srtplay.RcvLossList.Removal.{cut_end, trim}
use srtplay.RcvLossList.Ranges.{Ranges, Sorted-mono}
use srtplay.RcvLossList.Repr.{
  idx, first_idx-append, last_idx-append, Seg-append, Unused-append, Unused-split, IsFree, Linked,
  Repr,
}
use srtplay.RcvLossList.Links.{Seg-frame}
use srtplay.RcvLossList.Gap.{gap, Gap-Unused}

-- The end that the code gives to the part of a range before `x + 1`.
pub cut_end-seq_of :
    (lo x : ℕ)
    → lo ≤ x
    → x + 1 < lo + 0x3FFFFFFF
    → cut_end (seq_of (x + 1)) (seq_of lo) ≡ (if lo == x then none else some (seq_of x))
cut_end-seq_of lo x h n =
    rw (incseq-seq_of lo, seq_of_eq (x + 1) (lo + 1) (omega arith), decseq-seq_of x) (ground arith)

module _ (size c b : ℕ) (ps qs : Ranges) (lo x : ℕ) (l : RcvLossList) where
  abbrev pub trimmed : RcvLossList
  trimmed = trim l (idx size c lo) (seq_of (x + 1)) (seq_of lo)

  pub trimmed-Linked :
      Repr size c b (ps ++ (lo, x + 1) ∷ qs) l → lo ≤ x → Linked size c (ps ++ (lo, x) ∷ qs) trimmed
  unfolding trim
  trimmed-Linked r long =
      let loc = idx size c lo in
      let g = gap size c b ps lo (x + 1) qs l r in
      let from = g.parts.above in
      let near = g.near in
      let unused =
        Gap-Unused size c b ps lo (x + 1) qs l lo g (omega arith) (omega (arith, g.inside))
          (Sorted-mono (lo + 1) (x + 1 + 1) qs (omega arith) g.rest) in
      let v = record (l.nodes loc) { seqend = cut_end (seq_of (x + 1)) (seq_of lo) } in
      record {
        seg =
            Seg-append size c (update l.nodes loc v) none none ps ((lo, x) ∷ qs)
              (Seg-frame size c l.nodes none _ ps loc v unused.0 g.front)
              (
                update_self l.nodes loc v
                    ∙ ap₂ (λ (n : Node) (e : Option ℕ). record n { seqend = e }) g.node
                        (cut_end-seq_of lo x long (omega arith)),
                Seg-frame size c l.nodes _ none qs loc v unused.1 g.back,
              );
        head_eq =
            r.links.head_eq
            ∙ first_idx-append size c ps ((lo, x + 1) ∷ qs) none
            ∙ sym (first_idx-append size c ps ((lo, x) ∷ qs) none);
        tail_eq =
            r.links.tail_eq
            ∙ last_idx-append size c none ps ((lo, x + 1) ∷ qs)
            ∙ sym (last_idx-append size c none ps ((lo, x) ∷ qs));
        free = λ i lt u.
            let (up, n_uq) = Unused-split size c i ps ((lo, x) ∷ qs) u in
            subst IsFree (sym (update_ne l.nodes loc i v n_uq.0))
              (r.links.free i lt (Unused-append size c i ps ((lo, x + 1) ∷ qs) up n_uq));
      }
