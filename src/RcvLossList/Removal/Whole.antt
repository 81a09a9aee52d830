-- ===== src/RcvLossList/Removal/Whole.antt =====
-- `remove` against the removal from a list of ranges.
use srtplay.Base.{
  ℕ, ◌↔◌, ◌+◌, ◌-◌, ◌%◌, ◌≤◌, ◌<◌, ◌≡◌, ◌≢◌, inl, inr, refl, sym, ap, ◌∙◌, subst, arith, ◌==◌,
  if◌then◌else◌, Bool, true, false, dec_lt, ℕ_discrete, [], ◌∷◌, ◌++◌, none, some,
}
use srtplay.Base.Int.{pos, pos_part, ltb_ℤ, sub_ℕ}
use srtplay.SeqNo.{seqoff}
use srtplay.SeqNo.Unwrapped.{seq_of, seqoff-seq_of, seq_of_eq}
use srtplay.RcvLossList.{Node, RcvLossList, bind_some, holds}
use srtplay.RcvLossList.Removal.{note_largest, remove_start, remove_inside, remove_located, remove}
use srtplay.RcvLossList.Removal.Outcome.{Removes, kept}
use srtplay.RcvLossList.Removal.Cases.{single, first, IsFree-between, beyond, last, middle}
use srtplay.RcvLossList.Ranges.{
  Ranges, Sorted, Below, without, contains, Lost, contains_iff, Lost-without, without_before,
  contains_before, locate,
}
use srtplay.RcvLossList.Repr.{idx, idx_forward, last_some, Repr, Repr-largest}
use srtplay.RcvLossList.Gap.{gap}

note_largest-Repr :
    (size c b : ℕ) (xs : Ranges) (l : RcvLossList) (seqno : ℕ)
    → Repr size c b xs l
    → Repr size c b xs (note_largest l seqno)
unfolding note_largest
note_largest-Repr size c b xs l seqno r =
    let noted = Repr-largest size c b xs l (some seqno) r in ground (arith, noted, r)

module _ (size c b : ℕ) (l : RcvLossList) where
  -- The branch that `remove` takes at the place of `x` is right.
  abbrev Branch : Ranges → ℕ → ℕ → ℕ → Type 0
  Branch xs x h t = Removes size c b x xs (
      if holds (l.nodes (idx size c x)).seqstart (seq_of x)
      then remove_start size l h t (idx size c x)
      else remove_inside size l t (idx size c x) (seq_of x))

module _ (size c b : ℕ) (ps qs : Ranges) (l : RcvLossList) where
  abbrev At : ℕ → ℕ → ℕ → ℕ → ℕ → Type 0
  At lo hi x h t = Branch size c b l (ps ++ (lo, hi) ∷ qs) x h t

  At-single :
      (lo h t : ℕ) → Repr size c b (ps ++ (lo, lo) ∷ qs) l → l.head ≡ some h → At lo lo lo h t
  At-single lo h t r eh =
      let starts : (l.nodes (idx size c lo)).seqstart ≡ some (seq_of lo) =
        ap (λ (n : Node). n.seqstart) (gap size c b ps lo lo qs l r).node in
      rw (starts, seq_of_eq lo lo (omega arith))
        (ground (arith, single size c b ps qs l lo h t r eh))

  At-first :
      (lo hi h t : ℕ)
      → Repr size c b (ps ++ (lo, hi) ∷ qs) l
      → lo < hi
      → l.head ≡ some h
      → l.tail ≡ some t
      → At lo hi lo h t
  At-first lo hi h t r long eh et =
      let starts : (l.nodes (idx size c lo)).seqstart ≡ some (seq_of lo) =
        ap (λ (n : Node). n.seqstart) (gap size c b ps lo hi qs l r).node in
      rw (starts, seq_of_eq lo lo (omega arith))
        (ground (arith, first size c b ps qs l lo hi h t r long eh et))

  At-inside :
      (lo hi y h t : ℕ)
      → Repr size c b (ps ++ (lo, hi) ∷ qs) l
      → lo ≤ y
      → Sorted (y + 1 + 1) qs
      → y + 1 < b + size
      → y + 1 < b + 0x3FFFFFFF
      → l.tail ≡ some t
      → At lo hi (y + 1) h t
  At-inside lo hi y h t r from later fits near et =
      let free : (l.nodes (idx size c (y + 1))).seqstart ≡ none =
        (IsFree-between size c b ps qs l lo hi y r from later fits near (y + 1) (omega arith)
          (omega arith)).0 in
      rw free (elim (dec_lt hi (y + 1)) [
        | yes short ↦ beyond size c b ps qs l lo hi y r from later fits near t short
        | no p ↦ elim (dec_lt (y + 1) hi) [
          | yes high ↦ middle size c b ps qs l lo hi y r from later fits near t high et
          | no q ↦
              let e : y + 1 ≡ hi = omega arith in
              subst
                (λ z.
                  Repr size c b (ps ++ (lo, z) ∷ qs) l
                  → Removes size c b (y + 1) (ps ++ (lo, z) ∷ qs)
                      (remove_inside size l t (idx size c (y + 1)) (seq_of (y + 1))))
                e (λ r'. last size c b ps qs l lo y t r' from later fits near) r
        ]
      ])

  At-range :
      (lo hi x h t : ℕ)
      → Repr size c b (ps ++ (lo, hi) ∷ qs) l
      → lo ≤ x
      → Sorted (x + 1) qs
      → x < b + size
      → x < b + 0x3FFFFFFF
      → l.head ≡ some h
      → l.tail ≡ some t
      → At lo hi x h t
  At-range lo hi x h t r from later fits near eh et = elim (ℕ_discrete lo x) [
    | yes e ↦
        subst (λ z. At lo hi z h t) e
          (elim (ℕ_discrete lo hi) [
            | yes e' ↦
                subst (λ z. Repr size c b (ps ++ (lo, z) ∷ qs) l → At lo z lo h t) e'
                  (λ r'. At-single lo h t r' eh) r
            | no n ↦
                At-first lo hi h t r (omega (arith, (gap size c b ps lo hi qs l r).range)) eh et
          ])
    | no n ↦
        let s : x - 1 + 1 ≡ x = omega arith in
        subst (λ z. Sorted (z + 1) qs → z < b + size → z < b + 0x3FFFFFFF → At lo hi z h t) s
          (λ later' fits' near'. At-inside lo hi (x - 1) h t r (omega arith) later' fits' near' et)
          later fits near
  ]

located_eq :
    (size : ℕ) (l : RcvLossList) (seqno h t first : ℕ)
    → l.head ≡ some h
    → l.tail ≡ some t
    → (l.nodes h).seqstart ≡ some first
    → remove_located size l seqno ≡ (
        let loc = (h + pos_part (seqoff first seqno)) % size in
        if ltb_ℤ (seqoff first seqno) (pos 0)
        then some (false, l)
        else if holds (l.nodes loc).seqstart seqno
        then remove_start size l h t loc
        else remove_inside size l t loc seqno)
unfolding remove_located
located_eq size l seqno h t first eh et es =
    bind_some l.head h _ eh ∙ bind_some l.tail t _ et ∙ bind_some _ first _ es

module _ (size c b : ℕ) where
  in_list :
      (x lo hi : ℕ) (xs : Ranges) (l : RcvLossList)
      → Repr size c b ((lo, hi) ∷ xs) l
      → x < b + size
      → x < b + 0x3FFFFFFF
      → lo < x + 0x3FFFFFFF
      → Removes size c b x ((lo, hi) ∷ xs) (remove_located size l (seq_of x))
  in_list x lo hi xs l r fits near close =
      let (t, et) = last_some size c (idx size c lo) xs in
      let h = idx size c lo in
      let starts : (l.nodes h).seqstart ≡ some (seq_of lo) =
        ap (λ (n : Node). n.seqstart) r.links.seg.0 in
      let from = r.ordered.0 in
      let range = r.ordered.1 in
      let off = seqoff-seq_of lo x (omega (arith, r.near.0)) in
      let tail_eq = r.links.tail_eq ∙ et in
      rw (located_eq size l (seq_of x) h t (seq_of lo) r.links.head_eq tail_eq starts, off)
        (elim (dec_lt x lo) [
          | yes p ↦
              let negative : ltb_ℤ (sub_ℕ x lo) (pos 0) ≡ true = ground arith in
              rw negative (
                kept size c b x ((lo, hi) ∷ xs) l r _ refl
                  (without_before lo x ((lo, hi) ∷ xs) (omega arith, range, r.ordered.2) p)
                  (contains_before lo x ((lo, hi) ∷ xs) (omega arith, range, r.ordered.2) p))
          | no p ↦
              let positive : ltb_ℤ (sub_ℕ x lo) (pos 0) ≡ false = ground arith in
              let distance : pos_part (sub_ℕ x lo) ≡ x - lo = ground arith in
              let place : (h + pos_part (sub_ℕ x lo)) % size ≡ idx size c x =
                ap (λ d. (h + d) % size) distance
                ∙ idx_forward size c lo (x - lo)
                ∙ ap (idx size c) (omega arith) in
              rw (positive, place)
                (elim (locate b x ((lo, hi) ∷ xs) r.ordered) [
                  | inl s ↦ let bad : ⊥ = omega (arith, s.0) in elim bad [ ]
                  | inr z ↦
                      subst (λ zs. Repr size c b zs l → Branch size c b l zs x h t) (sym z.whole)
                        (λ r'.
                          At-range size c b z.ps z.qs l z.lo z.hi x h t r' z.starts z.later fits
                            near r.links.head_eq tail_eq)
                        r
                ])
        ])

  -- The outcome is the one of the removal from the ranges.
  pub remove_refines :
      (x : ℕ) (xs : Ranges) (l : RcvLossList)
      → Repr size c b xs l
      → x < b + size
      → x < b + 0x3FFFFFFF
      → Below (x + 0x3FFFFFFF) xs
      → Removes size c b x xs (remove size l (seq_of x))
  unfolding remove without contains
  remove_refines x [] l r fits near close =
      let r' = note_largest-Repr size c b [] l (seq_of x) r in
      let none_lost : ((note_largest l (seq_of x)).length == 0) ≡ true =
        ground (arith, r'.count_eq) in
      rw none_lost (kept size c b x [] (note_largest l (seq_of x)) r' _ refl refl refl)
  remove_refines x ((lo, hi) ∷ xs) l r fits near close =
      let l' = note_largest l (seq_of x) in
      let r' = note_largest-Repr size c b ((lo, hi) ∷ xs) l (seq_of x) r in
      let some_lost : (l'.length == 0) ≡ false = ground (arith, r'.count_eq) in
      rw some_lost (in_list x lo hi xs l' r' fits near (omega (arith, r.ordered.1, close.0)))

  -- Removing the sequence number of `x` from a list that represents the ranges `xs` never fails. It
  -- says whether `x` was lost, and results in a list that represents ranges where exactly the other
  -- lost positions are lost. The position `x` is within the array and the half circle behind the
  -- lower bound `b` of the list, and no range is further than that behind `x`.
  pub remove-Lost :
      (x : ℕ) (xs : Ranges) (l : RcvLossList)
      → Repr size c b xs l
      → x < b + size
      → x < b + 0x3FFFFFFF
      → Below (x + 0x3FFFFFFF) xs
      → (was : Bool) × (l' : RcvLossList) × (xs' : Ranges) × (remove size l (seq_of x)
          ≡ some (was, l'))
        × Repr size c b xs' l'
        × ((was ≡ true) ↔ Lost x xs)
        × ((y : ℕ) → Lost y xs' ↔ (Lost y xs × (y ≢ x)))
  remove-Lost x xs l r fits near close =
      let (l', e, r') = remove_refines x xs l r fits near close in
      (
        contains x xs,
        l',
        without x xs,
        e,
        r',
        contains_iff b x xs r.ordered,
        λ y. Lost-without b x y xs r.ordered,
      )
