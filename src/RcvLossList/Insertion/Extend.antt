-- ===== src/RcvLossList/Insertion/Extend.antt =====
-- The insertion behind the last node of a list: a new node, or a later end of the last one.
use srtplay.Base.{
  not, ℕ, ◌+◌, ◌≤◌, ◌<◌, ◌≡◌, ◌≢◌, sym, ap, ap₂, ◌∙◌, subst, arith, ◌==◌, if◌then◌else◌, [], ◌∷◌,
  ◌++◌, Option, none, some, update, update_self, update_ne,
}
use srtplay.SeqNo.Unwrapped.{seq_of, Near, seq_of_eq}
use srtplay.RcvLossList.{Node, RcvLossList, end_or, extend_node, append_node}
use srtplay.RcvLossList.Ranges.{Ranges}
use srtplay.RcvLossList.Repr.{
  idx, idx-lt, idx-ne, first_idx-append, last_idx-append, Seg, Seg-append, Unused, Unused-append,
  Unused-split, IsFree, Linked, Repr,
}
use srtplay.RcvLossList.Links.{Seg-frame}
use srtplay.RcvLossList.Gap.{gap, Gap-Unused}

-- The end that the code writes for a new range.
pub end_or_new :
    (lo hi : ℕ) (old : Option ℕ)
    → Near hi lo
    → old ≡ none
    → end_or (not (seq_of hi == seq_of lo)) (seq_of hi) old
      ≡ (if lo == hi then none else some (seq_of hi))
end_or_new lo hi old n e = rw (seq_of_eq hi lo n, e) (ground arith)

-- The last range ends later.
module _ (size c b : ℕ) (ps : Ranges) (a e hi : ℕ) (l : RcvLossList) where
  abbrev pub extended : RcvLossList
  extended = extend_node l (idx size c a) (seq_of (e + 1)) (seq_of hi)

  pub extended-Linked :
      Repr size c b (ps ++ (a, e) ∷ []) l
      → a < e
      → e < hi
      → Linked size c (ps ++ (a, hi) ∷ []) extended
  unfolding extend_node
  extended-Linked r long more =
      let loc = idx size c a in
      let g = gap size c b ps a e [] l r in
      let unused = Gap-Unused size c b ps a e [] l a g (omega arith) (omega (arith, g.inside)) tt in
      let v = record (l.nodes loc) { seqend = some (seq_of hi) } in
      let ends : (if a == hi then none else some (seq_of hi)) ≡ some (seq_of hi) = ground arith in
      record {
        seg =
            Seg-append size c (update l.nodes loc v) none none ps ((a, hi) ∷ [])
              (Seg-frame size c l.nodes none _ ps loc v unused.0 g.front)
              (
                update_self l.nodes loc v
                    ∙ ap₂ (λ (n : Node) (z : Option ℕ). record n { seqend = z }) g.node (sym ends),
                tt,
              );
        head_eq =
            r.links.head_eq
            ∙ first_idx-append size c ps ((a, e) ∷ []) none
            ∙ sym (first_idx-append size c ps ((a, hi) ∷ []) none);
        tail_eq =
            r.links.tail_eq
            ∙ last_idx-append size c none ps ((a, e) ∷ [])
            ∙ sym (last_idx-append size c none ps ((a, hi) ∷ []));
        free = λ i lt u.
            let (up, n_uq) = Unused-split size c i ps ((a, hi) ∷ []) u in
            subst IsFree (sym (update_ne l.nodes loc i v n_uq.0))
              (r.links.free i lt (Unused-append size c i ps ((a, e) ∷ []) up n_uq));
      }

-- The nodes after a new one at `loc`.
module _ (l : RcvLossList) (t loc seqno1 seqno2 : ℕ) (apart : loc ≢ t) where
  appended-new : (append_node l t loc seqno1 seqno2).nodes loc ≡ record {
    seqstart = some seqno1;
    seqend = end_or (not (seqno2 == seqno1)) seqno2 (l.nodes loc).seqend;
    inext = none;
    iprior = some t;
  }
  unfolding append_node update
  appended-new = ground arith

  appended-tail :
      (append_node l t loc seqno1 seqno2).nodes t ≡ record (l.nodes t) { inext = some loc }
  unfolding append_node update
  appended-tail = ground arith

  appended-other :
      (j : ℕ) → j ≢ loc → j ≢ t → (append_node l t loc seqno1 seqno2).nodes j ≡ l.nodes j
  unfolding append_node
  appended-other j n n' = rw (update_ne _ loc j _ n, update_ne _ t j _ n', update_ne _ loc j _ n)

  Seg-appended :
      (size c : ℕ) (m k : Option ℕ) (xs : Ranges)
      → Unused size c loc xs
      → Unused size c t xs
      → Seg size c l.nodes m xs k
      → Seg size c (append_node l t loc seqno1 seqno2).nodes m xs k
  unfolding append_node
  Seg-appended size c m k xs u v s =
      Seg-frame size c _ m k xs loc _ u
        (Seg-frame size c _ m k xs t _ v (Seg-frame size c l.nodes m k xs loc _ u s))

-- A new node behind the last one.
module _ (size c b : ℕ) (ps : Ranges) (a e lo hi : ℕ) (l : RcvLossList) where
  abbrev pub appended : RcvLossList
  appended = append_node l (idx size c a) (idx size c lo) (seq_of lo) (seq_of hi)

  pub appended-Linked :
      Repr size c b (ps ++ (a, e) ∷ []) l
      → e < lo
      → lo ≤ hi
      → hi < b + size
      → hi < b + 0x3FFFFFFF
      → Linked size c (ps ++ (a, e) ∷ (lo, hi) ∷ []) appended
  unfolding append_node
  appended-Linked r behind range fits near =
      let g = gap size c b ps a e [] l r in
      let above = g.parts.above in
      let within = g.range in
      let new = Gap-Unused size c b ps a e [] l lo g (omega arith) (omega arith) tt in
      let old = Gap-Unused size c b ps a e [] l a g (omega arith) (omega arith) tt in
      let apart : idx size c lo ≢ idx size c a =
        λ q. idx-ne size c a lo (omega arith) (omega arith) (sym q) in
      let was_free =
        r.links.free (idx size c lo) (idx-lt size c lo (omega arith))
          (Unused-append size c _ ps ((a, e) ∷ []) new.0 (apart, tt)) in
      record {
        seg =
            Seg-append size c appended.nodes none none ps ((a, e) ∷ (lo, hi) ∷ [])
              (Seg-appended l _ _ _ _ apart size c none _ ps new.0 old.0 g.front)
              (
                appended-tail l _ _ _ _ apart
                    ∙ ap (λ (n : Node). record n { inext = some (idx size c lo) }) g.node,
                (
                  appended-new l _ _ _ _ apart
                      ∙ ap
                          (λ (z : Option ℕ). record {
                            seqstart = some (seq_of lo);
                            seqend = z;
                            inext = none;
                            iprior = some (idx size c a);
                          })
                          (end_or_new lo hi _ (omega arith) was_free.1),
                  tt,
                ),
              );
        head_eq =
            r.links.head_eq
            ∙ first_idx-append size c ps ((a, e) ∷ []) none
            ∙ sym (first_idx-append size c ps ((a, e) ∷ (lo, hi) ∷ []) none);
        tail_eq = sym (last_idx-append size c none ps ((a, e) ∷ (lo, hi) ∷ []));
        free = λ i lt u.
            let (up, un) = Unused-split size c i ps ((a, e) ∷ (lo, hi) ∷ []) u in
            subst IsFree (sym (appended-other l _ _ _ _ apart i un.1.0 un.0))
              (r.links.free i lt (Unused-append size c i ps ((a, e) ∷ []) up (un.0, tt)));
      }
