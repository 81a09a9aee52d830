-- ===== src/RcvLossList/Insertion/Whole.antt =====
-- `insert` against the insertion into a list of ranges.
use mathlib.Core.Option
use srtplay.Base.{
  ℕ, ◌↔◌, ◌⊎◌, ◌+◌, ◌≤◌, ◌<◌, ◌≡◌, refl, sym, ap, ◌∙◌, subst, arith, ltb, leb, ◌==◌, if◌then◌else◌,
  true, false, dec_lt, [], ◌∷◌, Option, none, some,
}
use srtplay.SeqNo.Unwrapped.{seq_of, Near, incseq-seq_of, seqcmp-le, seqcmp-gt}
use srtplay.RcvLossList.{Node, RcvLossList, adjust, insert_first, insert_next, insert}
use srtplay.RcvLossList.Ranges.{Ranges, Sorted, Below, Below-mono, Lost}
use srtplay.RcvLossList.Repr.{Repr, Repr-largest}
use srtplay.RcvLossList.Insertion.{joined, Lost-joined, ended}
use srtplay.RcvLossList.Insertion.Next.{Inserts, in_next, in_empty}

-- Where a new range starts, behind the largest position so far.
unfoldable pub fresh : Option ℕ → ℕ → ℕ → Option ℕ
fresh none lo hi = some lo
fresh (some g) lo hi = if leb hi g then none else some (if ltb g lo then lo else g + 1)

adjust-seq_of :
    (g lo hi : ℕ)
    → lo ≤ hi
    → Near lo g
    → Near hi g
    → adjust (some (seq_of g)) (seq_of lo) (seq_of hi) ≡ Option.map seq_of (fresh (some g) lo hi)
unfolding fresh adjust
adjust-seq_of g lo hi range n m =
    rw (seqcmp-le lo g n, seqcmp-gt hi g m, incseq-seq_of g) (ground arith)

-- What is known of the largest position so far, before a range from `lo` to `hi` is inserted.
abbrev pub Known : ℕ → Ranges → Option ℕ → ℕ → ℕ → Type 0
Known b xs none lo hi = (xs ≡ []) × (b ≤ lo)
Known b xs (some g) lo hi = Below (g + 1) xs × (b ≤ g + 1) × Near lo g × Near hi g

abbrev pub Beyond : Option ℕ → ℕ → Type 0
Beyond none y = Unit {0}
Beyond (some g) y = g < y

-- The ranges and the largest position after the insertion.
abbrev pub inserted : Option ℕ → ℕ → ℕ → Ranges → Ranges
inserted largest lo hi xs = elim (fresh largest lo hi) [
  | none ↦ xs
  | some start ↦ joined start hi xs
]

abbrev pub largest_after : Option ℕ → ℕ → ℕ → Option ℕ
largest_after largest lo hi = elim (fresh largest lo hi) [ none ↦ largest | some start ↦ some hi ]

module _ (size c b hi : ℕ) (fits : hi < b + size) (near : hi < b + 0x3FFFFFFF) where
  -- Behind the list, whether it has ranges or not.
  behind_list :
      (start : ℕ) (xs : Ranges) (l : RcvLossList)
      → Repr size c b xs l
      → b ≤ start
      → start ≤ hi
      → Below start xs
      → Inserts size b (joined start hi xs) l.largest_seq (
          if l.length == 0
          then some (insert_first l (seq_of start) (seq_of hi))
          else insert_next size l (seq_of start) (seq_of hi))
  behind_list start [] l r from range below =
      let none_lost : (l.length == 0) ≡ true = ground (arith, r.count_eq) in
      rw none_lost (in_empty size c b start hi range from fits near l r)
  behind_list start ((f, fe) ∷ xs) l r from range below =
      let some_lost : (l.length == 0) ≡ false = ground (arith, r.count_eq) in
      let z = ended f fe xs in
      rw some_lost (
        subst
          (λ zs.
            Repr size c b zs l
            → Below start zs
            → Inserts size b (joined start hi zs) l.largest_seq
                (insert_next size l (seq_of start) (seq_of hi)))
          (sym z.whole)
          (λ r' below'.
            in_next size c b start hi range from fits near f z.ps z.lo z.hi l r' below'
              r.links.head_eq (ap (λ (n : Node). n.seqstart) r.links.seg.0) r.ordered.0
              (omega (arith, below.0, r.ordered.1)))
          r below)

  -- A range starts where it may.
  abbrev Start : Ranges → Option ℕ → Type 0
  Start xs none = Unit {0}
  Start xs (some start) = (b ≤ start) × (start ≤ hi) × Below start xs

  fresh-Start :
      (g lo : ℕ) (xs : Ranges)
      → Below (g + 1) xs
      → b ≤ g + 1
      → lo ≤ hi
      → Start xs (fresh (some g) lo hi)
  unfolding fresh
  fresh-Start g lo xs below from range = ground (arith, Below-mono (g + 1) lo xs)

  insert_from :
      (lo : ℕ) (xs : Ranges) (l : RcvLossList) (largest start : Option ℕ)
      → Repr size c b xs l
      → l.largest_seq ≡ Option.map seq_of largest
      → adjust l.largest_seq (seq_of lo) (seq_of hi) ≡ Option.map seq_of start
      → Start xs start
      → Inserts size b
          (elim start [ none ↦ xs | some s ↦ joined s hi xs ])
          (Option.map seq_of (elim start [ none ↦ largest | some s ↦ some hi ]))
          (insert size l (seq_of lo) (seq_of hi))
  unfolding insert
  insert_from lo xs l largest none r known at s = rw (insert, at) (l, refl, (c, r), known)
  insert_from lo xs l largest (some start) r known at s =
      rw (insert, at)
        (behind_list start xs (record l { largest_seq = some (seq_of hi) })
          (Repr-largest size c b xs l (some (seq_of hi)) r) s.0 s.1 s.2)

  -- The outcome is the one of the insertion into the ranges.
  pub insert_refines :
      (largest : Option ℕ) (lo : ℕ) (xs : Ranges) (l : RcvLossList)
      → Repr size c b xs l
      → l.largest_seq ≡ Option.map seq_of largest
      → Known b xs largest lo hi
      → lo ≤ hi
      → Inserts size b
          (inserted largest lo hi xs)
          (Option.map seq_of (largest_after largest lo hi))
          (insert size l (seq_of lo) (seq_of hi))
  unfolding fresh adjust
  insert_refines none lo xs l r known k range =
      insert_from lo xs l none (some lo) r known (ap (λ z. adjust z (seq_of lo) (seq_of hi)) known)
        (k.1, range, subst (Below lo) (sym k.0) tt)
  insert_refines (some g) lo xs l r known k range =
      insert_from lo xs l (some g) (fresh (some g) lo hi) r known
        (ap (λ z. adjust z (seq_of lo) (seq_of hi)) known ∙ adjust-seq_of g lo hi range k.2 k.3)
        (fresh-Start g lo xs k.0 k.1 range)

  -- What is lost after the insertion into the ranges.
  Lost-inserted :
      (largest : Option ℕ) (lo : ℕ) (xs : Ranges) (y : ℕ)
      → Sorted b xs
      → Known b xs largest lo hi
      → lo ≤ hi
      → Lost y (inserted largest lo hi xs) ↔ (Lost y xs ⊎ (Beyond largest y × (lo ≤ y) × (y ≤ hi)))
  unfolding fresh
  Lost-inserted none lo xs y s k range =
      let j = Lost-joined lo hi range b y xs s (subst (Below lo) (sym k.0) tt) in ground (arith, j)
  Lost-inserted (some g) lo xs y s k range =
      let below = λ (start : ℕ) (h : g < start). Below-mono (g + 1) start xs (omega arith) k.0 in
      elim (dec_lt g hi) [
        | no p ↦
            let old : fresh (some g) lo hi ≡ none = ground arith in
            rw (inserted, old) (ground arith)
        | yes p ↦ elim (dec_lt g lo) [
          | yes q ↦
              let all : fresh (some g) lo hi ≡ some lo = ground arith in
              rw (inserted, all) (ground (arith, Lost-joined lo hi range b y xs s (below lo q)))
          | no q ↦
              let part : fresh (some g) lo hi ≡ some (g + 1) = ground arith in
              rw (inserted, part)
                (ground (
                  arith,
                  Lost-joined (g + 1) hi (omega arith) b y xs s (below (g + 1) (omega arith)),
                ))
        ]
      ]

  -- Inserting the sequence numbers of `lo` to `hi` into a list that represents the ranges `xs` never
  -- fails. Exactly the lost positions, and those from `lo` to `hi` behind the largest one so far, are
  -- lost afterwards, and the largest number is the new one if there was anything new. The positions are
  -- within the array and the half circle behind the lower bound `b` of the list; the largest position
  -- so far is not before a lost one and near the new ones, or there is none and the list is empty.
  pub insert-Lost :
      (largest : Option ℕ) (lo : ℕ) (xs : Ranges) (l : RcvLossList)
      → Repr size c b xs l
      → l.largest_seq ≡ Option.map seq_of largest
      → Known b xs largest lo hi
      → lo ≤ hi
      → (l' : RcvLossList) × (c' : ℕ) × (xs' : Ranges) × (insert size l (seq_of lo) (seq_of hi)
          ≡ some l')
        × Repr size c' b xs' l'
        × (l'.largest_seq ≡ Option.map seq_of (largest_after largest lo hi))
        × ((y : ℕ) → Lost y xs' ↔ (Lost y xs ⊎ (Beyond largest y × (lo ≤ y) × (y ≤ hi))))
  insert-Lost largest lo xs l r known k range =
      let (l', e, placed, m) = insert_refines largest lo xs l r known k range in
      (
        l',
        placed.0,
        inserted largest lo hi xs,
        e,
        placed.1,
        m,
        λ y. Lost-inserted largest lo xs y r.ordered k range,
      )
