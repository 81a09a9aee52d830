-- ===== src/RcvLossList/Removal/Outcome.antt =====
-- What `remove` is to result in, and the removal from a list of ranges at one of them.
use srtplay.Base.{
  ℕ, ◌+◌, ◌≤◌, ◌<◌, ◌≡◌, sym, ap, ◌∙◌, subst, arith, Bool, true, false, ◌∷◌, ◌++◌, Option, some,
}
use srtplay.RcvLossList.{RcvLossList}
use srtplay.RcvLossList.Removal.{removed}
use srtplay.RcvLossList.Ranges.{
  Ranges, Sorted, Below, Below-mono, cut, without, contains, Sorted-without, Below-without,
  total-without, without-append, contains-append, without_before, contains_before,
}
use srtplay.RcvLossList.Repr.{Linked, Repr}

-- A number of the range behind `ps` is contained, and is cut out there.
module _ (b x : ℕ) (ps : Ranges) (lo hi : ℕ) (qs : Ranges) (s : Sorted b ps) (f : Below lo ps)
    (from : lo ≤ x) where
  pub contains_here : x ≤ hi → contains x (ps ++ (lo, hi) ∷ qs) ≡ true
  unfolding contains
  contains_here h =
      contains-append b x ps ((lo, hi) ∷ qs) s (Below-mono lo x ps from f) ∙ ground arith

  pub without_here : x ≤ hi → without x (ps ++ (lo, hi) ∷ qs) ≡ ps ++ cut lo hi x qs
  unfolding without
  without_here h =
      without-append b x ps ((lo, hi) ∷ qs) s (Below-mono lo x ps from f)
      ∙ ap (λ z. ps ++ z) (ground arith)

  pub contains_beyond : hi < x → Sorted (x + 1) qs → contains x (ps ++ (lo, hi) ∷ qs) ≡ false
  unfolding contains
  contains_beyond h later =
      contains-append b x ps ((lo, hi) ∷ qs) s (Below-mono lo x ps from f)
      ∙ ground (arith, contains_before (x + 1) x qs later)

  pub without_beyond :
      hi < x → Sorted (x + 1) qs → without x (ps ++ (lo, hi) ∷ qs) ≡ ps ++ (lo, hi) ∷ qs
  unfolding without
  without_beyond h later =
      without-append b x ps ((lo, hi) ∷ qs) s (Below-mono lo x ps from f)
      ∙ ap (λ z. ps ++ z) (ground (arith, without_before (x + 1) x qs later))

-- What a removal has to result in.
abbrev pub Removes : ℕ → ℕ → ℕ → ℕ → Ranges → Option (Bool × RcvLossList) → Type 0
Removes size c b x xs out =
    (l' : RcvLossList) × (out ≡ some (contains x xs, l')) × Repr size c b (without x xs) l'

module _ (size c b x : ℕ) (xs : Ranges) (l : RcvLossList) (r : Repr size c b xs l) where
  pub taken :
      (xs' : Ranges) (l' : RcvLossList) (out : Option (Bool × RcvLossList))
      → out ≡ some (removed l')
      → without x xs ≡ xs'
      → contains x xs ≡ true
      → l'.length ≡ l.length
      → Linked size c xs' l'
      → Removes size c b x xs out
  taken xs' l' out e w m n k = (
    (removed l').1,
    e ∙ ap (λ t. some (t, (removed l').1)) (sym m),
    record {
      ordered = Sorted-without b x xs r.ordered;
      fits = Below-without (b + size) x xs r.fits;
      near = Below-without (b + 0x3FFFFFFF) x xs r.near;
      links =
          subst (λ z. Linked size c z (removed l').1) (sym w)
            (record { seg = k.seg; head_eq = k.head_eq; tail_eq = k.tail_eq; free = k.free });
      count_eq = ground (arith, total-without b x xs r.ordered, r.count_eq);
    },
  )

  pub kept :
      (out : Option (Bool × RcvLossList))
      → out ≡ some (false, l)
      → without x xs ≡ xs
      → contains x xs ≡ false
      → Removes size c b x xs out
  kept out e w m = (l, e ∙ ap (λ t. some (t, l)) (sym m), subst (λ z. Repr size c b z l) (sym w) r)
