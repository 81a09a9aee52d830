-- ===== src/RcvLossList/Insertion/Tail.antt =====
-- The insertion behind the last node: the branch of the coalescing, and the branch of a new node.
use mathlib.Core.Option
use srtplay.Base.{
  ℕ, ◌+◌, ◌-◌, ◌%◌, ◌≤◌, ◌<◌, ◌≡◌, refl, sym, ap, ◌∙◌, subst, arith, ltb, ◌==◌, ◌&&◌, if◌then◌else◌,
  Bool, true, false, dec_lt, [], ◌∷◌, ◌++◌, Option, none, some,
}
use srtplay.Base.Int.{pos, pos_part, ltb_ℤ}
use srtplay.SeqNo.{seqoff, incseq}
use srtplay.SeqNo.Unwrapped.{seq_of, seq_of_eq, seqlen-seq_of, incseq-seq_of}
use srtplay.RcvLossList.{Node, RcvLossList, bind_some, holds, extend_node, append_node, insert_next}
use srtplay.RcvLossList.Ranges.{Ranges, Below}
use srtplay.RcvLossList.Repr.{idx, Linked, Repr}
use srtplay.RcvLossList.Gap.{gap}
use srtplay.RcvLossList.Insertion.{
  joined, joined-append, meet, Sorted-joined, Below-joined, total-joined,
}
use srtplay.RcvLossList.Insertion.Extend.{extended-Linked, appended, appended-Linked}

pub inserted-Repr :
    (size c b lo hi : ℕ) (xs : Ranges) (l l' : RcvLossList)
    → Repr size c b xs l
    → b ≤ lo
    → lo ≤ hi
    → Below lo xs
    → hi < b + size
    → hi < b + 0x3FFFFFFF
    → l'.length ≡ l.length + (hi - lo + 1)
    → Linked size c (joined lo hi xs) l'
    → Repr size c b (joined lo hi xs) l'
inserted-Repr size c b lo hi xs l l' r from range below fits near count k = record {
  ordered = Sorted-joined lo hi range b xs from r.ordered below;
  fits = Below-joined lo hi range (b + size) xs fits r.fits;
  near = Below-joined lo hi range (b + 0x3FFFFFFF) xs near r.near;
  links = k;
  count_eq = omega (arith, count, total-joined lo hi range b xs r.ordered below, r.count_eq);
}

pub next_eq :
    (size : ℕ) (l : RcvLossList) (seqno1 seqno2 h t start : ℕ)
    → l.head ≡ some h
    → l.tail ≡ some t
    → (l.nodes h).seqstart ≡ some start
    → insert_next size l seqno1 seqno2 ≡ (
        if ltb_ℤ (seqoff start seqno1) (pos 0)
        then some l
        else if holds (Option.map incseq (l.nodes t).seqend) seqno1
        then some (extend_node l t seqno1 seqno2)
        else some (append_node l t ((h + pos_part (seqoff start seqno1)) % size) seqno1 seqno2))
unfolding insert_next
next_eq size l seqno1 seqno2 h t start eh et es =
    bind_some l.head h _ eh ∙ bind_some _ start _ es ∙ bind_some l.tail t _ et

pub some_if :
    {A : Type 0} → (t : Bool) (x y : A) → (if t then some x else some y) ≡ some (if t then x else y)
some_if true x y = refl
some_if false x y = refl

-- Behind a list that is not empty.
module _ (size c b : ℕ) (ps : Ranges) (a e lo hi : ℕ) (l : RcvLossList)
    (r : Repr size c b (ps ++ (a, e) ∷ []) l) (from : b ≤ lo) (range : lo ≤ hi) (behind : e < lo)
    (fits : hi < b + size) (near : hi < b + 0x3FFFFFFF) where
  pub record Added (out : RcvLossList) : Type 0 where
    pub count : out.length ≡ l.length + (hi - lo + 1)
    pub links : Linked size c (joined lo hi (ps ++ (a, e) ∷ [])) out
    pub largest : out.largest_seq ≡ l.largest_seq

  abbrev pub last_end : Option ℕ
  last_end = (l.nodes (idx size c a)).seqend

  pub meets : holds (Option.map incseq last_end) (seq_of lo) ≡ (ltb a e && (e + 1 == lo))
  meets =
      let g = gap size c b ps a e [] l r in
      let within = g.range in
      let above = g.parts.above in
      let ends : last_end ≡ (if a == e then none else some (seq_of e)) =
        ap (λ (n : Node). n.seqend) g.node in
      rw (ends) (elim (dec_lt a e) [
        | yes p ↦
            let long : (a == e) ≡ false = ground arith in
            rw (long, incseq-seq_of e, seq_of_eq (e + 1) lo (omega arith)) (ground arith)
        | no p ↦ let short : (a == e) ≡ true = ground arith in rw short (ground arith)
      ])

  coalesced : a < e → e + 1 ≡ lo → Added (extend_node l (idx size c a) (seq_of lo) (seq_of hi))
  unfolding extend_node
  coalesced long at =
      let met : meet a e lo hi ≡ (a, hi) ∷ [] = ground arith in
      record {
        count = ap (λ z. l.length + z) (seqlen-seq_of lo hi (omega arith) range);
        links =
            subst (λ zs. Linked size c zs (extend_node l (idx size c a) (seq_of lo) (seq_of hi)))
              (sym (joined-append lo hi a e ps ∙ ap (λ z. ps ++ z) met))
              (subst
                (λ z.
                  Linked size c (ps ++ (a, hi) ∷ [])
                    (extend_node l (idx size c a) (seq_of z) (seq_of hi)))
                at (extended-Linked size c b ps a e hi l r long (omega arith)));
        largest = refl;
      }

  separate :
      meet a e lo hi ≡ (a, e) ∷ (lo, hi) ∷ []
      → Added (append_node l (idx size c a) (idx size c lo) (seq_of lo) (seq_of hi))
  unfolding append_node
  separate apart = record {
    count = ap (λ z. l.length + z) (seqlen-seq_of lo hi (omega arith) range);
    links =
        subst (λ zs. Linked size c zs (appended size c b ps a e lo hi l))
          (sym (joined-append lo hi a e ps ∙ ap (λ z. ps ++ z) apart))
          (appended-Linked size c b ps a e lo hi l r behind range fits near);
    largest = refl;
  }

  pub added :
      (test : Bool)
      → (ltb a e && (e + 1 == lo)) ≡ test
      → Added (
          if test
          then extend_node l (idx size c a) (seq_of lo) (seq_of hi)
          else append_node l (idx size c a) (idx size c lo) (seq_of lo) (seq_of hi))
  added true q = coalesced (ground (arith, q)) (ground (arith, q))
  added false q = separate (ground (arith, q))
