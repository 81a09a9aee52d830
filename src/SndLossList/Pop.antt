-- ===== src/SndLossList/Pop.antt =====
-- How the array of `CSndLossList` represents a list of ranges, and `popLostSeq` on it.
use srtplay.Base.{
  ℕ, suc, ◌+◌, ◌-◌, ◌<◌, ◌≡◌, ◌≢◌, refl, sym, ap, ◌∙◌, arith, ltb, ◌==◌, if◌then◌else◌, true, false,
  Option, none, some, [], ◌∷◌, update, update_self, update_ne, ℕ_discrete, inl, inr, ◌⊎◌,
  Bool-cases,
}
use srtplay.Base.Int.{pos, ◌-ℤ◌, eqb_ℤ}
use srtplay.Base.Ring.{idx, idx-lt, idx-ne, idx_forward}
use srtplay.SeqNo.{incseq}
use srtplay.SeqNo.Unwrapped.{seq_of, incseq-seq_of, seqcmp-gt}
use srtplay.RcvLossList.Ranges.{Ranges, Sorted, Below, total, Below-mono, Sorted-mono}
use srtplay.RcvLossList.Repr.{first_idx, Unused, Unused-before}
use srtplay.SndLossList.{Seq, SndLossList, holds}
use srtplay.SndLossList.Removal.{pop_lost_seq, take_rest, rest_end, forget}

-- The node of a range in front of the node `k`.
abbrev pub seq_node : ℕ → ℕ → Option ℕ → Seq
seq_node lo hi k = record {
  seqstart = some (seq_of lo);
  seqend = if lo == hi then none else some (seq_of hi);
  inext = k;
}

module _ (size c : ℕ) where
  -- The nodes of the ranges, linked in order.
  abbrev pub Chain : (ℕ → Seq) → Ranges → Type 0
  Chain nodes [] = Unit {0}
  Chain nodes ((lo, hi) ∷ xs) =
      (nodes (idx size c lo) ≡ seq_node lo hi (first_idx size c xs none)) × Chain nodes xs

  -- A range starts at the place `i`.
  abbrev pub StartsAt : ℕ → Ranges → Type 0
  StartsAt i [] = ⊥
  StartsAt i ((lo, hi) ∷ xs) = (i ≡ idx size c lo) ⊎ StartsAt i xs

  -- The list `l` represents `xs`, which starts at `b` or later and fits the array and the half circle.
  pub record Represents (b : ℕ) (xs : Ranges) (l : SndLossList) : Type 0 where
    pub ordered : Sorted b xs
    pub fits : Below (b + size) xs
    pub near : Below (b + 0x3FFFFFFF) xs
    pub chain : Chain l.nodes xs
    pub head_eq : l.head ≡ first_idx size c xs none
    pub vacant :
        (i : ℕ)
        → i < size
        → Unused size c i xs
        → ((l.nodes i).seqstart ≡ none) × ((l.nodes i).seqend ≡ none)
    pub count_eq : l.length ≡ pos (total xs)
    pub last_in : (i : ℕ) → l.last_insert_pos ≡ some i → StartsAt i xs

  Chain-update :
      (nodes : ℕ → Seq) (i : ℕ) (n : Seq) (xs : Ranges)
      → Unused size c i xs
      → Chain nodes xs
      → Chain (update nodes i n) xs
  Chain-update nodes i n [] u h = tt
  Chain-update nodes i n ((lo, hi) ∷ xs) u h = (
    update_ne nodes i (idx size c lo) n (λ e. u.0 (sym e)) ∙ h.0,
    Chain-update nodes i n xs u.1 h.1,
  )

-- The first loss, and the ranges without it.
abbrev pub pop_range : Ranges → Option ℕ × Ranges
pop_range [] = (none, [])
pop_range ((lo, hi) ∷ xs) = (some (seq_of lo), if lo == hi then xs else (lo + 1, hi) ∷ xs)

module _ (size c b lo hi : ℕ) (xs : Ranges) (l : SndLossList)
    (r : Represents size c b ((lo, hi) ∷ xs) l) where
  abbrev h : ℕ
  h = idx size c lo

  -- Without the node at the head.
  forget-StartsAt : (i : ℕ) → forget l.last_insert_pos h ≡ some i → StartsAt size c i xs
  forget-StartsAt i e = elim (Bool-cases (holds l.last_insert_pos h)) [
    | inl q ↦ absurd (ground (arith, e, q))
    | inr q ↦
        let kept : l.last_insert_pos ≡ some i = ground (arith, e, q) in
        elim (r.last_in i kept) [
          | inl same ↦ absurd (ground (arith, same, q, kept))
          | inr there ↦ there
        ]
  ]

  behind_head : Unused size c h xs
  behind_head =
      let s = r.ordered in
      Unused-before size c (hi + 1) lo xs s.2
        (Below-mono (b + size) (lo + size) xs (omega arith) r.fits.1) (omega arith)

  abbrev head_node : Seq
  head_node = l.nodes h

  not_empty : eqb_ℤ l.length (pos 0) ≡ false
  not_empty = ap (λ n. eqb_ℤ n (pos 0)) r.count_eq ∙ ground arith

  start_eq : head_node.seqstart ≡ some (seq_of lo)
  start_eq = ap (λ n. n.seqstart) r.chain.0

  next_eq : head_node.inext ≡ first_idx size c xs none
  next_eq = ap (λ n. n.inext) r.chain.0

  fewer : (k : ℕ) → hi - lo + 1 + total xs ≡ suc k → l.length -ℤ pos 1 ≡ pos k
  unfolding ◌-ℤ◌
  fewer k e = ap (λ n. n -ℤ pos 1) (r.count_eq ∙ ap pos e) ∙ ground arith

  -- The range has one number.
  abbrev without_head : SndLossList
  without_head = record {
    nodes = update l.nodes h (record head_node { seqstart = none });
    head = head_node.inext;
    length = l.length -ℤ pos 1;
    last_insert_pos = forget l.last_insert_pos h;
  }

  single_end : lo ≡ hi → head_node.seqend ≡ none
  single_end e =
      let one : (lo == hi) ≡ true = ground (arith, e) in ap (λ n. n.seqend) r.chain.0 ∙ rw one refl

  pop-single : lo ≡ hi → pop_lost_seq size l ≡ some (some (seq_of lo), without_head)
  unfolding pop_lost_seq
  pop-single e =
      rw (not_empty, r.head_eq, start_eq, single_end e)
        (ap
          (λ z. some (
            some (seq_of lo),
            record without_head {
              nodes = update l.nodes h (record head_node { seqstart = none; seqend = z });
            },
          ))
          (single_end e))

  single-Represents : lo ≡ hi → Represents size c b xs without_head
  single-Represents e =
      let s = r.ordered in
      let left = record head_node { seqstart = none } in
      record {
        ordered = Sorted-mono b (hi + 1) xs (omega arith) s.2;
        fits = r.fits.1;
        near = r.near.1;
        chain = Chain-update size c l.nodes h left xs behind_head r.chain.1;
        head_eq = next_eq;
        vacant = λ i lt u. elim (ℕ_discrete i h) [
          | yes p ↦
              let at = ap (update l.nodes h left) p ∙ update_self l.nodes h left in
              (ap (λ n. n.seqstart) at, ap (λ n. n.seqend) at ∙ single_end e)
          | no p ↦
              let at = update_ne l.nodes h i left p in
              let free = r.vacant i lt (p, u) in
              (ap (λ n. n.seqstart) at ∙ free.0, ap (λ n. n.seqend) at ∙ free.1)
        ];
        count_eq = fewer (total xs) (omega arith);
        last_in = forget-StartsAt;
      }

  -- The range has more than one.
  module _ (long : lo < hi) where
    abbrev loc : ℕ
    loc = idx size c (lo + 1)

    inside : lo + 1 < b + size
    inside = let s = r.ordered in let f = r.fits.0 in omega arith

    long_end : head_node.seqend ≡ some (seq_of hi)
    long_end =
        let more : (lo == hi) ≡ false = ground (arith, long) in
        ap (λ n. n.seqend) r.chain.0 ∙ rw more refl

    apart : h ≢ loc
    apart = let s = r.ordered in idx-ne size c lo (lo + 1) (omega arith) (omega (arith, inside))

    loc-Unused : Unused size c loc ((lo, hi) ∷ xs)
    loc-Unused =
        let s = r.ordered in
        (
          λ e. apart (sym e),
          Unused-before size c (hi + 1) (lo + 1) xs s.2
              (Below-mono (b + size) (lo + 1 + size) xs (omega arith) r.fits.1) (omega arith),
        )

    abbrev moved_node : Seq
    moved_node = record {
      seqstart = some (incseq (seq_of lo));
      seqend = rest_end (seq_of hi) (incseq (seq_of lo)) (l.nodes loc).seqend;
      inext = head_node.inext;
    }

    moved_node-eq : moved_node ≡ seq_node (lo + 1) hi (first_idx size c xs none)
    moved_node-eq =
        let s = r.ordered in
        let f = r.near.0 in
        let later = seqcmp-gt hi (lo + 1) (omega arith, omega arith) in
        let old = (r.vacant loc (idx-lt size c (lo + 1) (omega (arith, inside))) loc-Unused).1 in
        let end_eq : (if ltb (lo + 1) hi then some (seq_of hi) else none)
            ≡ (if lo + 1 == hi then none else some (seq_of hi)) =
          ground (arith, long) in
        rw (incseq-seq_of lo, later, old, next_eq, end_eq) refl

    abbrev shifted : SndLossList
    shifted = record {
      nodes =
          update (update l.nodes loc moved_node) h
            (record (update l.nodes loc moved_node h) { seqstart = none; seqend = none });
      head = some loc;
      length = l.length -ℤ pos 1;
      last_insert_pos = forget l.last_insert_pos h;
    }

    pop-long : pop_lost_seq size l ≡ some (some (seq_of lo), shifted)
    unfolding pop_lost_seq take_rest
    pop-long = rw (not_empty, r.head_eq, start_eq, long_end, idx_forward size c lo 1) refl

    abbrev emptied : Seq
    emptied = record (update l.nodes loc moved_node h) { seqstart = none; seqend = none }

    shifted-Represents : Represents size c b ((lo + 1, hi) ∷ xs) shifted
    shifted-Represents =
        let s = r.ordered in
        let here =
          update_ne (update l.nodes loc moved_node) h loc emptied (λ e. apart (sym e))
          ∙ update_self l.nodes loc moved_node
          ∙ moved_node-eq in
        record {
          ordered = (omega arith, omega arith, s.2);
          fits = r.fits;
          near = r.near;
          chain = (
            here,
            Chain-update size c (update l.nodes loc moved_node) h emptied xs behind_head
                (Chain-update size c l.nodes loc moved_node xs loc-Unused.1 r.chain.1),
          );
          head_eq = refl;
          vacant = λ i lt u. elim (ℕ_discrete i h) [
            | yes p ↦
                let at =
                  ap (update (update l.nodes loc moved_node) h emptied) p
                  ∙ update_self (update l.nodes loc moved_node) h emptied in
                (ap (λ n. n.seqstart) at, ap (λ n. n.seqend) at)
            | no p ↦
                let at =
                  update_ne (update l.nodes loc moved_node) h i emptied p
                  ∙ update_ne l.nodes loc i moved_node u.0 in
                let free = r.vacant i lt (p, u.1) in
                (ap (λ n. n.seqstart) at ∙ free.0, ap (λ n. n.seqend) at ∙ free.1)
          ];
          count_eq = fewer (hi - (lo + 1) + 1 + total xs) (omega arith);
          last_in = λ i e. inr (forget-StartsAt i e);
        }

-- On a list that represents ranges, `popLostSeq` gives the first loss and leaves a list that represents the
-- ranges without it.
pub pop_lost_seq_refines :
    (size c b : ℕ) (xs : Ranges) (l : SndLossList)
    → Represents size c b xs l
    → (l' : SndLossList) × (pop_lost_seq size l ≡ some ((pop_range xs).0, l'))
      × Represents size c b (pop_range xs).1 l'
unfolding pop_lost_seq
pop_lost_seq_refines size c b [] l r = (l, rw r.count_eq refl, r)
pop_lost_seq_refines size c b ((lo, hi) ∷ xs) l r = elim (ℕ_discrete lo hi) [
  | yes e ↦
      let one : (lo == hi) ≡ true = ground (arith, e) in
      (
        without_head size c b lo hi xs l r,
        pop-single size c b lo hi xs l r e,
        rw one (single-Represents size c b lo hi xs l r e),
      )
  | no e ↦
      let s = r.ordered in
      let long : lo < hi = omega arith in
      let more : (lo == hi) ≡ false = ground (arith, e) in
      (
        shifted size c b lo hi xs l r long,
        pop-long size c b lo hi xs l r long,
        rw more (shifted-Represents size c b lo hi xs l r long),
      )
]
