-- ===== src/RcvLossList/Removal/Split.antt =====
-- `remove` of a number strictly inside a range: the range becomes two.
use srtplay.Base.{
  ℕ, ◌+◌, ◌≤◌, ◌<◌, ◌≡◌, ◌≢◌, refl, sym, ap, ap₂, ◌∙◌, subst, arith, ◌∷◌, ◌++◌, Option, none, some,
  update, update_ne,
}
use srtplay.Base.Int.{pos, ltb_ℤ}
use srtplay.SeqNo.{incseq, seqcmp}
use srtplay.SeqNo.Unwrapped.{seq_of, incseq-seq_of}
use srtplay.RcvLossList.{Node, RcvLossList, end_or}
use srtplay.RcvLossList.Removal.{cut_end, parted_nodes, split}
use srtplay.RcvLossList.Removal.Ends.{next_link}
use srtplay.RcvLossList.Removal.Shift.{end_or-seq_of}
use srtplay.RcvLossList.Removal.Trim.{cut_end-seq_of}
use srtplay.RcvLossList.Ranges.{Ranges, Sorted-mono, Below-mono}
use srtplay.RcvLossList.Repr.{
  node_of, idx, idx-ne, idx-lt, first_idx, last_idx, first_idx-append, last_idx-append, Seg,
  Seg-append, Unused, Unused-append, Unused-split, IsFree, Linked, Repr,
}
use srtplay.RcvLossList.Links.{
  set_prior, Seg-frame, Seg-set_prior, Seg-set_prior_frame, Parts-first, IsFree-set_prior,
  set_prior_elsewhere,
}
use srtplay.RcvLossList.Gap.{Gap, gap, Gap-Unused}

module _ (nodes : ℕ → Node) (i loc seqno start seqend : ℕ) (apart : loc ≢ i) where
  parted-first : parted_nodes nodes i loc seqno start seqend i ≡ record {
    seqstart = (nodes i).seqstart;
    seqend = cut_end seqno start;
    inext = some loc;
    iprior = (nodes i).iprior;
  }
  unfolding parted_nodes update
  parted-first = ground arith

  parted-second : parted_nodes nodes i loc seqno start seqend loc ≡ record {
    seqstart = some (incseq seqno);
    seqend = end_or (ltb_ℤ (pos 0) (seqcmp seqend (incseq seqno))) seqend (nodes loc).seqend;
    inext = (nodes i).inext;
    iprior = some i;
  }
  unfolding parted_nodes update
  parted-second = ground arith

  parted-other : (j : ℕ) → j ≢ i → j ≢ loc → parted_nodes nodes i loc seqno start seqend j ≡ nodes j
  unfolding parted_nodes
  parted-other j n n' = rw (
    update_ne _ loc j _ n',
    update_ne _ i j _ n,
    update_ne _ loc j _ n',
    update_ne _ i j _ n,
    update_ne _ loc j _ n',
  )

  Seg-parted :
      (size c : ℕ) (m k : Option ℕ) (xs : Ranges)
      → Unused size c i xs
      → Unused size c loc xs
      → Seg size c nodes m xs k
      → Seg size c (parted_nodes nodes i loc seqno start seqend) m xs k
  unfolding parted_nodes
  Seg-parted size c m k xs u v s = Seg-frame size c _ m k xs loc _ v (
      Seg-frame size c _ m k xs i _ u (
        Seg-frame size c _ m k xs loc _ v
          (Seg-frame size c _ m k xs i _ u (Seg-frame size c nodes m k xs loc _ v s))))

-- The position `x + 1` leaves the range from `lo` to `hi`.
module _ (size c b : ℕ) (ps qs : Ranges) (lo x hi : ℕ) (l : RcvLossList) where
  -- The two parts, before the range behind knows it.
  abbrev pub parted : ℕ → Node
  parted =
      parted_nodes l.nodes (idx size c lo) (idx size c (x + 1 + 1)) (seq_of (x + 1)) (seq_of lo)
        (seq_of hi)

  abbrev pub halves : Ranges
  halves = (lo, x) ∷ (x + 1 + 1, hi) ∷ qs

  abbrev pub halved : RcvLossList
  halved = record l {
    nodes = set_prior parted (first_idx size c qs none) (some (idx size c (x + 1 + 1)));
    tail = last_idx size c none (ps ++ halves);
  }

  module _ (r : Repr size c b (ps ++ (lo, hi) ∷ qs) l) (low : lo ≤ x) (high : x + 1 + 1 ≤ hi) where
    record Places : Type 0 where
      g : Gap size c b ps lo hi qs l
      apart : idx size c (x + 1 + 1) ≢ idx size c lo
      old_ps : Unused size c (idx size c lo) ps
      old_qs : Unused size c (idx size c lo) qs
      new_ps : Unused size c (idx size c (x + 1 + 1)) ps
      new_qs : Unused size c (idx size c (x + 1 + 1)) qs
      was_free : IsFree (l.nodes (idx size c (x + 1 + 1)))

    places : Places
    places =
        let g = gap size c b ps lo hi qs l r in
        let from = g.parts.above in
        let inside = g.inside in
        let old =
          Gap-Unused size c b ps lo hi qs l lo g (omega arith) (omega arith)
            (Sorted-mono (lo + 1) (hi + 1) qs (omega arith) g.rest) in
        let new =
          Gap-Unused size c b ps lo hi qs l (x + 1 + 1) g (omega arith) (omega arith)
            (Sorted-mono (x + 1 + 1 + 1) (hi + 1) qs (omega arith) g.rest) in
        let apart : idx size c (x + 1 + 1) ≢ idx size c lo =
          λ e. idx-ne size c lo (x + 1 + 1) (omega arith) (omega arith) (sym e) in
        record {
          g = g;
          apart = apart;
          old_ps = old.0;
          old_qs = old.1;
          new_ps = new.0;
          new_qs = new.1;
          was_free =
              r.links.free (idx size c (x + 1 + 1)) (idx-lt size c (x + 1 + 1) (omega arith))
                (Unused-append size c _ ps ((lo, hi) ∷ qs) new.0 (apart, new.1));
        }

    halved_first :
        parted (idx size c lo)
        ≡ node_of lo x (last_idx size c none ps) (some (idx size c (x + 1 + 1)))
    halved_first =
        let p = places in
        let from = p.g.parts.above in
        let near = p.g.near in
        parted-first l.nodes _ _ _ _ _ p.apart
        ∙ ap₂
            (λ (n : Node) (e : Option ℕ). record {
              seqstart = n.seqstart;
              seqend = e;
              inext = some (idx size c (x + 1 + 1));
              iprior = n.iprior;
            })
            p.g.node (cut_end-seq_of lo x low (omega arith))

    halved_second :
        parted (idx size c (x + 1 + 1))
        ≡ node_of (x + 1 + 1) hi (some (idx size c lo)) (first_idx size c qs none)
    halved_second =
        let p = places in
        let from = p.g.parts.above in
        let near = p.g.near in
        parted-second l.nodes _ _ _ _ _ p.apart
        ∙ rw (incseq-seq_of (x + 1)) (
            ap₂
              (λ (e : Option ℕ) (n : Node). record {
                seqstart = some (seq_of (x + 1 + 1));
                seqend = e;
                inext = n.inext;
                iprior = some (idx size c lo);
              })
              (end_or-seq_of (x + 1 + 1) hi _ (omega arith) high p.was_free.1) p.g.node)

    halved-IsFree : (i : ℕ) → i < size → Unused size c i (ps ++ halves) → IsFree (halved.nodes i)
    halved-IsFree i lt u =
        let p = places in
        let (up, un) = Unused-split size c i ps halves u in
        IsFree-set_prior parted (first_idx size c qs none) _ i (
          subst IsFree (sym (parted-other l.nodes _ _ _ _ _ p.apart i un.0 un.1.0))
            (r.links.free i lt (Unused-append size c i ps ((lo, hi) ∷ qs) up (un.0, un.1.1))))

    halved-Seg : Seg size c halved.nodes none (ps ++ halves) none
    halved-Seg =
        let p = places in
        let at = first_idx size c qs none in
        let new = some (idx size c (x + 1 + 1)) in
        Seg-append size c halved.nodes none none ps halves
          (Seg-set_prior_frame size c parted none _ ps at new
            (Parts-first size c b lo ps qs p.g.parts)
            (Seg-parted l.nodes _ _ _ _ _ p.apart size c none _ ps p.old_ps p.new_ps p.g.front))
          (
            set_prior_elsewhere size c parted none new (idx size c lo) qs p.old_qs ∙ halved_first,
            (
              set_prior_elsewhere size c parted none new (idx size c (x + 1 + 1)) qs p.new_qs
                  ∙ halved_second,
              Seg-set_prior size c parted _ new none lo qs p.g.parts.back_ordered
                  (Below-mono (b + size) (lo + size) qs (omega (arith, p.g.parts.above))
                    p.g.parts.back_below)
                  (Seg-parted l.nodes _ _ _ _ _ p.apart size c _ none qs p.old_qs p.new_qs
                    p.g.back),
            ),
          )

    pub halved-Linked : Linked size c (ps ++ halves) halved
    halved-Linked = record {
      seg = halved-Seg;
      head_eq =
          r.links.head_eq
          ∙ first_idx-append size c ps ((lo, hi) ∷ qs) none
          ∙ sym (first_idx-append size c ps halves none);
      tail_eq = refl;
      free = halved-IsFree;
    }

    pub split-halved :
        (t : ℕ)
        → l.tail ≡ some t
        → split l t
            (idx size c lo)
            (idx size c (x + 1 + 1))
            (seq_of (x + 1))
            (seq_of lo)
            (seq_of hi)
          ≡ some halved
    unfolding split
    split-halved t et =
        let p = places in
        let i = idx size c lo in
        let behind =
          next_link size c parted i (idx size c (x + 1 + 1)) qs l.tail t p.old_qs et
            (r.links.tail_eq ∙ last_idx-append size c none ps ((lo, hi) ∷ qs)) in
        rw (ap (λ (n : Node). n.inext) halved_second, behind.0)
          (ap (λ tl. some (record l { nodes = halved.nodes; tail = tl }))
            (behind.1 ∙ sym (last_idx-append size c none ps halves)))
