-- ===== src/RcvLossList/Removal/Unlink.antt =====
-- `remove` of a range of one number: its node leaves the list.
use srtplay.Base.{
  ℕ, ◌<◌, ◌≡◌, ◌≢◌, refl, sym, ap, ap₂, ◌∙◌, arith, ℕ_discrete, [], ◌∷◌, ◌++◌, Option, none, some,
  update_self, update_ne, some_inj,
}
use srtplay.RcvLossList.{Node, RcvLossList, clear_start}
use srtplay.RcvLossList.Removal.{unlink}
use srtplay.RcvLossList.Ranges.{Ranges}
use srtplay.RcvLossList.Repr.{
  idx, first_idx, last_idx, Unused, IsFree, Linked, Repr, Unused-append, Unused-split, last_some,
  last-ne, last_idx-append,
}
use srtplay.RcvLossList.Links.{
  set_next, set_prior, relinked, Seg-frame, IsFree-relinked, Seg-filled, seqend-relinked,
}
use srtplay.RcvLossList.Gap.{gap, Gap-Unused}

-- The tail, if nothing follows the node that leaves.
abbrev tail_or : Option ℕ → Option ℕ → Option ℕ → Option ℕ
tail_or none m t = m
tail_or (some n) m t = t

unlink_first :
    (l : RcvLossList) (loc : ℕ) (k : Option ℕ)
    → (l.nodes loc).inext ≡ k
    → unlink l loc loc
      ≡ some (record l {
        nodes = clear_start (set_prior l.nodes k none) loc;
        head = k;
        tail = tail_or k none l.tail;
      })
unfolding unlink
unlink_first l loc none e = ground arith
unlink_first l loc (some n) e = ground arith

unlink_later :
    (l : RcvLossList) (h loc p : ℕ) (k : Option ℕ)
    → h ≢ loc
    → p ≢ loc
    → (l.nodes loc).iprior ≡ some p
    → (l.nodes loc).inext ≡ k
    → unlink l h loc
      ≡ some (record l {
        nodes = clear_start (set_prior (set_next l.nodes (some p) k) k (some p)) loc;
        tail = tail_or k (some p) l.tail;
      })
unfolding unlink
unlink_later l h loc p none n q e f =
    ground (arith, update_ne l.nodes p loc (record (l.nodes p) { inext = (l.nodes loc).inext }))
unlink_later l h loc p (some k) n q e f =
    ground (arith, update_ne l.nodes p loc (record (l.nodes p) { inext = (l.nodes loc).inext }))

module _ (size c b : ℕ) (ps qs : Ranges) (lo : ℕ) (l : RcvLossList) where
  abbrev pub unlinked_nodes : ℕ → Node
  unlinked_nodes =
      clear_start
        (relinked size c l.nodes ps qs (first_idx size c qs none) (last_idx size c none ps))
        (idx size c lo)

  abbrev pub unlinked : RcvLossList
  unlinked = record l {
    nodes = unlinked_nodes;
    head = first_idx size c (ps ++ qs) none;
    tail = last_idx size c none (ps ++ qs);
  }

  module _ (r : Repr size c b (ps ++ (lo, lo) ∷ qs) l) where
    unlinked-IsFree : (i : ℕ) → i < size → Unused size c i (ps ++ qs) → IsFree (unlinked_nodes i)
    unlinked-IsFree i lt u = elim (ℕ_discrete i (idx size c lo)) [
      | yes e ↦
          let g = gap size c b ps lo lo qs l r in
          rw (e, update_self)
            (
              refl,
              seqend-relinked size c l.nodes ps qs (first_idx size c qs none)
                    (last_idx size c none ps) (idx size c lo)
                  ∙ (ap (λ (n : Node). n.seqend) g.node ∙ ground arith),
            )
      | no n ↦
          let (up, uq) = Unused-split size c i ps qs u in
          rw
            (update_ne
              (relinked size c l.nodes ps qs (first_idx size c qs none) (last_idx size c none ps))
              (idx size c lo) i _ n)
            (IsFree-relinked size c l.nodes ps qs (first_idx size c qs none)
              (last_idx size c none ps) i
              (r.links.free i lt (Unused-append size c i ps ((lo, lo) ∷ qs) up (n, uq))))
    ]

    pub unlinked-Linked : Linked size c (ps ++ qs) unlinked
    unlinked-Linked =
        let g = gap size c b ps lo lo qs l r in
        let (unused_ps, unused_qs) =
          Gap-Unused size c b ps lo lo qs l lo g (omega arith) g.inside g.rest in
        record {
          seg =
              Seg-frame size c _ none none (ps ++ qs) (idx size c lo) _
                (Unused-append size c (idx size c lo) ps qs unused_ps unused_qs)
                (Seg-filled size c l.nodes b lo ps [] qs _ _ g.parts g.front g.back tt);
          head_eq = refl;
          tail_eq = refl;
          free = λ i lt u. unlinked-IsFree i lt u;
        }

tail_or-last :
    (size c : ℕ) (i : ℕ) (m t : Option ℕ) (qs : Ranges)
    → t ≡ last_idx size c (some i) qs
    → tail_or (first_idx size c qs none) m t ≡ last_idx size c m qs
tail_or-last size c i m t [] e = refl
tail_or-last size c i m t ((lo, hi) ∷ qs) e = e

-- `unlink` at the place of a range of one number takes it out of the list.
pub unlink-unlinked :
    (size c b : ℕ) (ps qs : Ranges) (lo : ℕ) (l : RcvLossList) (h : ℕ)
    → Repr size c b (ps ++ (lo, lo) ∷ qs) l
    → l.head ≡ some h
    → unlink l h (idx size c lo) ≡ some (unlinked size c b ps qs lo l)
unlink-unlinked size c b [] qs lo l h r e =
    let loc = idx size c lo in
    let k = first_idx size c qs none in
    let g = gap size c b [] lo lo qs l r in
    let at : h ≡ loc = some_inj (sym e ∙ r.links.head_eq) in
    rw at (
      unlink_first l loc k (ap (λ (n : Node). n.inext) g.node)
      ∙ ap
          (λ t.
            some
              (record l { nodes = clear_start (set_prior l.nodes k none) loc; head = k; tail = t }))
          (tail_or-last size c loc none l.tail qs r.links.tail_eq))
unlink-unlinked size c b ((lo', hi') ∷ ps) qs lo l h r e =
    let loc = idx size c lo in
    let k = first_idx size c qs none in
    let front = last_idx size c (some (idx size c lo')) ps in
    let g = gap size c b ((lo', hi') ∷ ps) lo lo qs l r in
    let unused =
      (Gap-Unused size c b ((lo', hi') ∷ ps) lo lo qs l lo g (omega arith) g.inside g.rest).0 in
    let at : h ≡ idx size c lo' = some_inj (sym e ∙ r.links.head_eq) in
    let (p, ep) = last_some size c (idx size c lo') ps in
    let last : l.tail ≡ last_idx size c (some loc) qs =
      r.links.tail_eq ∙ last_idx-append size c (some (idx size c lo')) ps ((lo, lo) ∷ qs) in
    unlink_later l h loc p k (λ q. unused.0 (sym q ∙ at))
      (last-ne size c (idx size c lo') loc p ps (λ q. unused.0 (sym q)) unused.1 ep)
      (ap (λ (n : Node). n.iprior) g.node ∙ ep) (ap (λ (n : Node). n.inext) g.node)
    ∙ ap
        (λ o. some (record l {
          nodes = clear_start (set_prior (set_next l.nodes o k) k o) loc;
          tail = tail_or k o l.tail;
        }))
        (sym ep)
    ∙ ap₂
        (λ hd t. some (record l {
          nodes = unlinked_nodes size c b ((lo', hi') ∷ ps) qs lo l;
          head = hd;
          tail = t;
        }))
        r.links.head_eq
        (tail_or-last size c loc front l.tail qs last
          ∙ sym (last_idx-append size c (some (idx size c lo')) ps qs))
