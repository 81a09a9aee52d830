-- ===== src/RcvLossList/Removal/Shift.antt =====
-- `remove` of the first number of a longer range: its node moves one place on.
use srtplay.Base.{
  ℕ, ◌+◌, ◌≤◌, ◌<◌, ◌≡◌, ◌≢◌, refl, sym, ap, ap₂, ◌∙◌, subst, arith, ◌==◌, if◌then◌else◌,
  ℕ_discrete, [], ◌∷◌, ◌++◌, Option, none, some, update, update_self, update_ne,
}
use srtplay.Base.Int.{pos, ltb_ℤ}
use srtplay.SeqNo.{seqcmp}
use srtplay.SeqNo.Unwrapped.{seq_of, Near, seqcmp-gt, incseq-seq_of}
use srtplay.RcvLossList.{Node, RcvLossList, end_or}
use srtplay.RcvLossList.Removal.{shifted_nodes, shift}
use srtplay.RcvLossList.Removal.Ends.{prior_link, next_link}
use srtplay.RcvLossList.Ranges.{Ranges, Sorted-mono}
use srtplay.RcvLossList.Repr.{
  node_of, idx, idx-ne, idx-lt, first_idx, last_idx, first_idx-append, last_idx-append, Seg, Unused,
  Unused-append, Unused-split, IsFree, Linked, Repr,
}
use srtplay.RcvLossList.Links.{
  set_next, relinked, Seg-filled, Seg-frame, IsFree-relinked, relinked_elsewhere,
  set_next_elsewhere,
}
use srtplay.RcvLossList.Gap.{Gap, gap, Gap-Unused}

-- The end of a range that the code writes is that of its node.
pub end_or-seq_of :
    (lo hi : ℕ) (old : Option ℕ)
    → Near hi lo
    → lo ≤ hi
    → old ≡ none
    → end_or (ltb_ℤ (pos 0) (seqcmp (seq_of hi) (seq_of lo))) (seq_of hi) old
      ≡ (if lo == hi then none else some (seq_of hi))
end_or-seq_of lo hi old n h e = rw (seqcmp-gt hi lo n, e) (ground arith)

module _ (nodes : ℕ → Node) (loc i next seqend : ℕ) (apart : i ≢ loc) where
  shifted-old : IsFree (shifted_nodes nodes loc i next seqend loc)
  unfolding shifted_nodes
  shifted-old = rw (update_ne _ i loc _ (λ e. apart (sym e)), update_self) (refl, refl)

  shifted-other : (j : ℕ) → j ≢ loc → j ≢ i → shifted_nodes nodes loc i next seqend j ≡ nodes j
  unfolding shifted_nodes
  shifted-other j n n' = rw (update_ne _ i j _ n', update_ne _ loc j _ n, update_ne _ i j _ n')

  shifted-new : shifted_nodes nodes loc i next seqend i ≡ record {
    seqstart = some next;
    seqend = end_or (ltb_ℤ (pos 0) (seqcmp seqend next)) seqend (nodes i).seqend;
    inext = (nodes loc).inext;
    iprior = (nodes loc).iprior;
  }
  unfolding shifted_nodes update
  shifted-new = ground arith

  Seg-shifted :
      (size c : ℕ) (m k : Option ℕ) (xs : Ranges)
      → Unused size c loc xs
      → Unused size c i xs
      → Seg size c nodes m xs k
      → Seg size c (shifted_nodes nodes loc i next seqend) m xs k
  unfolding shifted_nodes
  Seg-shifted size c m k xs u v s =
      Seg-frame size c _ m k xs i _ v
        (Seg-frame size c _ m k xs loc _ u (Seg-frame size c nodes m k xs i _ v s))

module _ (size c b : ℕ) (ps qs : Ranges) (lo hi : ℕ) (l : RcvLossList) where
  -- The array with the range at its new place, before the neighbours know it.
  abbrev pub moved : ℕ → Node
  moved = shifted_nodes l.nodes (idx size c lo) (idx size c (lo + 1)) (seq_of (lo + 1)) (seq_of hi)

  abbrev pub shifted : RcvLossList
  shifted = record l {
    nodes = relinked size c moved ps qs (some (idx size c (lo + 1))) (some (idx size c (lo + 1)));
    head = first_idx size c (ps ++ (lo + 1, hi) ∷ qs) none;
    tail = last_idx size c none (ps ++ (lo + 1, hi) ∷ qs);
  }

  module _ (r : Repr size c b (ps ++ (lo, hi) ∷ qs) l) (long : lo < hi) where
    -- The facts about the two places.
    record Places : Type 0 where
      g : Gap size c b ps lo hi qs l
      apart : idx size c (lo + 1) ≢ idx size c lo
      old_ps : Unused size c (idx size c lo) ps
      old_qs : Unused size c (idx size c lo) qs
      new_ps : Unused size c (idx size c (lo + 1)) ps
      new_qs : Unused size c (idx size c (lo + 1)) qs
      was_free : IsFree (l.nodes (idx size c (lo + 1)))

    places : Places
    places =
        let g = gap size c b ps lo hi qs l r in
        let from = g.parts.above in
        let inside = g.inside in
        let old =
          Gap-Unused size c b ps lo hi qs l lo g (omega arith) (omega arith)
            (Sorted-mono (lo + 1) (hi + 1) qs (omega arith) g.rest) in
        let new =
          Gap-Unused size c b ps lo hi qs l (lo + 1) g (omega arith) (omega arith)
            (Sorted-mono (lo + 1 + 1) (hi + 1) qs (omega arith) g.rest) in
        let apart : idx size c (lo + 1) ≢ idx size c lo =
          λ e. idx-ne size c lo (lo + 1) (omega arith) (omega arith) (sym e) in
        record {
          g = g;
          apart = apart;
          old_ps = old.0;
          old_qs = old.1;
          new_ps = new.0;
          new_qs = new.1;
          was_free =
              r.links.free (idx size c (lo + 1)) (idx-lt size c (lo + 1) (omega arith))
                (Unused-append size c _ ps ((lo, hi) ∷ qs) new.0 (apart, new.1));
        }

    moved_new :
        moved (idx size c (lo + 1))
        ≡ node_of (lo + 1) hi (last_idx size c none ps) (first_idx size c qs none)
    moved_new =
        let p = places in
        let from = p.g.parts.above in
        let near = p.g.near in
        shifted-new l.nodes _ _ _ _ p.apart
        ∙ ap₂
            (λ (e : Option ℕ) (n : Node). record {
              seqstart = some (seq_of (lo + 1));
              seqend = e;
              inext = n.inext;
              iprior = n.iprior;
            })
            (end_or-seq_of (lo + 1) hi _ (omega arith) (omega arith) p.was_free.1) p.g.node

    shifted-IsFree :
        (i : ℕ) → i < size → Unused size c i (ps ++ (lo + 1, hi) ∷ qs) → IsFree (shifted.nodes i)
    shifted-IsFree i lt u =
        let p = places in
        let (up, new_uq) = Unused-split size c i ps ((lo + 1, hi) ∷ qs) u in
        IsFree-relinked size c moved ps qs _ _ i (elim (ℕ_discrete i (idx size c lo)) [
          | yes e ↦ rw e (shifted-old l.nodes _ _ _ _ p.apart)
          | no n ↦
              subst IsFree (sym (shifted-other l.nodes _ _ _ _ p.apart i n new_uq.0))
                (r.links.free i lt (Unused-append size c i ps ((lo, hi) ∷ qs) up (n, new_uq.1)))
        ])

    pub shifted-Linked : Linked size c (ps ++ (lo + 1, hi) ∷ qs) shifted
    shifted-Linked =
        let p = places in
        record {
          seg =
              Seg-filled size c moved b lo ps ((lo + 1, hi) ∷ []) qs _ _ p.g.parts
                (Seg-shifted l.nodes _ _ _ _ p.apart size c none _ ps p.old_ps p.new_ps p.g.front)
                (Seg-shifted l.nodes _ _ _ _ p.apart size c _ none qs p.old_qs p.new_qs p.g.back)
                (relinked_elsewhere size c moved ps qs _ _ _ p.new_ps p.new_qs ∙ moved_new, tt);
          head_eq = refl;
          tail_eq = refl;
          free = shifted-IsFree;
        }

    pub shift-shifted :
        (h t : ℕ)
        → l.head ≡ some h
        → l.tail ≡ some t
        → shift l h t (idx size c lo) (idx size c (lo + 1)) (seq_of hi) ≡ some shifted
    unfolding shift
    shift-shifted h t eh et =
        let p = places in
        let loc = idx size c lo in
        let i = idx size c (lo + 1) in
        let front =
          prior_link size c moved loc i ps l.head h p.old_ps eh
            (r.links.head_eq ∙ first_idx-append size c ps ((lo, hi) ∷ qs) none) in
        let behind =
          next_link size c (set_next moved (last_idx size c none ps) (some i)) loc i qs l.tail t
            p.old_qs et (r.links.tail_eq ∙ last_idx-append size c none ps ((lo, hi) ∷ qs)) in
        rw
          (
            ap (λ (n : Node). n.seqstart) p.g.node,
            incseq-seq_of lo,
            ap (λ (n : Node). n.iprior) moved_new,
            front.0,
            ap (λ (n : Node). n.inext)
                (set_next_elsewhere size c moved (some i) none i ps p.new_ps ∙ moved_new),
            behind.0,
          )
          (ap₂ (λ hd tl. some (record l { nodes = shifted.nodes; head = hd; tail = tl }))
            (front.1 ∙ sym (first_idx-append size c ps ((lo + 1, hi) ∷ qs) none))
            (behind.1 ∙ sym (last_idx-append size c none ps ((lo + 1, hi) ∷ qs))))
