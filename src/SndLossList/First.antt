-- ===== src/SndLossList/First.antt =====
-- `removeUpTo` of `CSndLossList` at the first loss, and in front of it.
use srtplay.Base.{
  ℕ, ◌+◌, ◌-◌, ◌%◌, ◌<◌, ◌≤◌, ◌≡◌, refl, sym, ap, ◌∙◌, arith, true, false, Option, none, some, [],
  ◌∷◌, update, update_self, ◌>>=◌, ◌==◌, if◌then◌else◌, some_inj, ℕ_discrete, Option-cases, inl,
  inr,
}
use mathlib.Core.Path.{fun_ext}
use srtplay.Base.Int.{pos, ltb_ℤ, negsuc, sub_ℕ, eqb_ℤ, ◌-ℤ◌}
use srtplay.SeqNo.{seqoff}
use srtplay.SeqNo.Unwrapped.{seq_of, seqoff-seq_of}
use srtplay.Base.Ring.{idx}
use srtplay.RcvLossList.Ranges.{Ranges}
use srtplay.SndLossList.Pop.{Represents, pop_range, pop_lost_seq_refines}
use srtplay.SndLossList.{Seq, SndLossList}
use srtplay.SndLossList.Removal.{remove_up_to, remove_first, pop_lost_seq, take_rest, forget}

update_twice : (f : ℕ → Seq) (h : ℕ) (a b : Seq) → update (update f h a) h b ≡ update f h b
unfolding update
update_twice f h a b = fun_ext (λ i. ground arith)

seqoff_self : (s : ℕ) → seqoff s s ≡ pos 0
unfolding seqoff
seqoff_self s = ground arith

module _ (size : ℕ) (l : SndLossList) (h start : ℕ) (head_eq : l.head ≡ some h)
    (start_eq : (l.nodes h).seqstart ≡ some start) where
  abbrev less : SndLossList
  less = record l { last_insert_pos = forget l.last_insert_pos h; length = l.length -ℤ pos 1 }

  -- The second write to the head adds to the first.
  emptied_twice :
      (nodes : ℕ → Seq)
      → update
          (update nodes h (record (nodes h) { seqend = none }))
          h
          (record (update nodes h (record (nodes h) { seqend = none }) h) { seqstart = none })
        ≡ update nodes h (record (nodes h) { seqstart = none; seqend = none })
  emptied_twice nodes =
      let first = record (nodes h) { seqend = none } in
      update_twice nodes h first (record (update nodes h first h) { seqstart = none })
      ∙ ap (λ (n : Seq). update nodes h (record n { seqstart = none })) (update_self nodes h first)

  -- On a list that is not empty, whose head is a node that starts at `start`, `popLostSeq` gives `start`, and
  -- `removeUpTo` that number leaves the list that `popLostSeq` leaves.
  pub pop_lost_seq-remove_up_to :
      eqb_ℤ l.length (pos 0) ≡ false
      → pop_lost_seq size l ≡ (remove_up_to size l start >>= λ l'. some (some start, l'))
  unfolding pop_lost_seq remove_up_to remove_first take_rest
  pop_lost_seq-remove_up_to some_lost = elim (Option-cases (l.nodes h).seqend) [
    | inl one ↦ rw (some_lost, head_eq, start_eq, seqoff_self start, one) refl
    | inr (e, more) ↦
        rw (some_lost, head_eq, start_eq, seqoff_self start, more)
          (ap
            (λ (ns : ℕ → Seq).
              some (some start, record less { nodes = ns; head = some ((h + 1) % size) }))
            (sym (emptied_twice (take_rest l ((h + 1) % size) h e start).nodes)))
  ]

answered :
    (o : Option SndLossList) (seqno : ℕ) (first : Option ℕ) (l : SndLossList)
    → ◌>>=◌ {B = Option ℕ × SndLossList} o (λ l'. some (some seqno, l')) ≡ some (first, l)
    → o ≡ some l
answered none seqno first l e = ground (arith, e)
answered (some l1) seqno first l e = ap (λ (p : Option ℕ × SndLossList). some p.1) (some_inj e)

-- The ranges without the first loss, if it is the position `p`.
abbrev pub up_to_first : ℕ → Ranges → Ranges
up_to_first p [] = []
up_to_first p ((lo, hi) ∷ xs) = if p == lo then (pop_range ((lo, hi) ∷ xs)).1 else (lo, hi) ∷ xs

-- The position `p` is not behind the first loss, and near it.
abbrev pub UpToFirst : ℕ → Ranges → Type 0
UpToFirst p [] = Unit {0}
UpToFirst p ((lo, hi) ∷ xs) = (p ≤ lo) × (lo < p + 0x3FFFFFFF)

module _ (size c b lo hi : ℕ) (xs : Ranges) (l : SndLossList)
    (r : Represents size c b ((lo, hi) ∷ xs) l) where
  start_at : (l.nodes (idx size c lo)).seqstart ≡ some (seq_of lo)
  start_at = ap (λ n. n.seqstart) r.chain.0

  lost : eqb_ℤ l.length (pos 0) ≡ false
  lost = ap (λ n. eqb_ℤ n (pos 0)) r.count_eq ∙ ground arith

  remove_up_to-lo :
      (l' : SndLossList) × (remove_up_to size l (seq_of lo) ≡ some l')
      × Represents size c b (pop_range ((lo, hi) ∷ xs)).1 l'
  remove_up_to-lo =
      let (l', popped, left) = pop_lost_seq_refines size c b ((lo, hi) ∷ xs) l r in
      let same =
        sym (pop_lost_seq-remove_up_to size l (idx size c lo) (seq_of lo) r.head_eq start_at lost)
        ∙ popped in
      (
        l',
        answered (remove_up_to size l (seq_of lo)) (seq_of lo) (pop_range ((lo, hi) ∷ xs)).0 l'
            same,
        left,
      )

  remove_up_to-before :
      (p : ℕ) → p < lo → lo < p + 0x3FFFFFFF → remove_up_to size l (seq_of p) ≡ some l
  unfolding remove_up_to
  remove_up_to-before p lt near =
      let behind : sub_ℕ p lo ≡ negsuc (lo - p - 1) = ground (arith, lt) in
      let not_after : ltb_ℤ (pos 0) (negsuc (lo - p - 1)) ≡ false = ground arith in
      rw
        (
          lost,
          r.head_eq,
          start_at,
          seqoff-seq_of lo p (omega arith, omega arith),
          behind,
          not_after,
        )
        refl

-- On a list that represents ranges, `removeUpTo` a near number that is not behind the first loss leaves a list
-- that represents the ranges without that number, or the same ranges if it is in front of the first loss.
pub remove_up_to_refines :
    (size c b : ℕ) (xs : Ranges) (l : SndLossList)
    → Represents size c b xs l
    → (p : ℕ) → UpToFirst p xs
    → (l' : SndLossList) × (remove_up_to size l (seq_of p) ≡ some l')
      × Represents size c b (up_to_first p xs) l'
unfolding remove_up_to
remove_up_to_refines size c b [] l r p n = (l, rw r.count_eq refl, r)
remove_up_to_refines size c b ((lo, hi) ∷ xs) l r p (le, near) = elim (ℕ_discrete p lo) [
  | yes e ↦
      let at : (p == lo) ≡ true = ground (arith, e) in
      rw (at, e) (remove_up_to-lo size c b lo hi xs l r)
  | no e ↦
      let lt : p < lo = omega arith in
      let before : (p == lo) ≡ false = ground (arith, lt) in
      (l, remove_up_to-before size c b lo hi xs l r p lt near, rw before r)
]
