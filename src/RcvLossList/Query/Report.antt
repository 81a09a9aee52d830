-- ===== src/RcvLossList/Query/Report.antt =====
-- `getLossArray` against the list of ranges.
use Prim.Native.Nat.{bit_or}
use mathlib.Core.Option
use srtplay.Base.{
  ℕ, zero, suc, ◌+◌, ◌≤◌, ◌≡◌, ◌⊎◌, inl, inr, refl, sym, ap, ◌∙◌, subst, arith, ltb, ◌==◌,
  if◌then◌else◌, length, length-append, true, false, List, [], ◌∷◌, ◌++◌, Option, none, some,
  dec_lt, ℕ_discrete,
}
use srtplay.SeqNo.Unwrapped.{seq_of}
use srtplay.RcvLossList.{Node, RcvLossList}
use srtplay.RcvLossList.Ranges.{Ranges}
use srtplay.RcvLossList.Repr.{idx, first_idx, Seg, Repr}
use srtplay.RcvLossList.Query.{range_first, loss_array_from, get_loss_array}
use srtplay.RcvLossList.Query.Find.{count, count-le}

-- The code of a range: a number, or the first number with the mark of a range, and the last one.
abbrev pub code : ℕ → ℕ → List ℕ
code lo hi = if lo == hi then seq_of lo ∷ [] else bit_or (seq_of lo) range_first ∷ seq_of hi ∷ []

abbrev pub codes : Ranges → List ℕ
codes [] = []
codes ((lo, hi) ∷ xs) = code lo hi ++ codes xs

-- The words report the first ranges, as many as fit: all of them, or there is room for at most one more word.
pub record Reported (limit len : ℕ) (xs : Ranges) (out : Option (List ℕ)) : Type 0 where
  pub told : Ranges
  pub untold : Ranges
  pub whole : xs ≡ told ++ untold
  pub returns : out ≡ some (codes told)
  pub room : len + length (codes told) ≤ limit
  pub full : (untold ≡ []) ⊎ (limit ≤ len + length (codes told) + 1)

Reported-none :
    (limit len : ℕ) (xs : Ranges)
    → len ≤ limit
    → (xs ≡ []) ⊎ (limit ≤ len + 1)
    → Reported limit len xs (some [])
Reported-none limit len xs h f = record {
  told = [];
  untold = xs;
  whole = refl;
  returns = refl;
  room = omega arith;
  full = elim f [ inl e ↦ inl e | inr e ↦ inr (omega arith) ];
}

-- A range in front of a report.
Reported-more :
    (limit len lo hi : ℕ) (xs : Ranges) (w : List ℕ) (rest : Option (List ℕ))
    → code lo hi ≡ w
    → Reported limit (len + length w) xs rest
    → Reported limit len ((lo, hi) ∷ xs) (Option.map (λ words. w ++ words) rest)
Reported-more limit len lo hi xs w rest e r =
    let size_eq : length (code lo hi ++ codes r.told) ≡ length w + length (codes r.told) =
      length-append (code lo hi) (codes r.told) ∙ ap (λ z. length z + length (codes r.told)) e in
    record {
      told = (lo, hi) ∷ r.told;
      untold = r.untold;
      whole = ap (◌∷◌ (lo, hi)) r.whole;
      returns =
          ap (Option.map (λ words. w ++ words)) r.returns
          ∙ ap (λ z. some (z ++ codes r.told)) (sym e);
      room = omega (arith, size_eq, r.room);
      full = elim r.full [ inl z ↦ inl z | inr z ↦ inr (omega (arith, size_eq)) ];
    }

module _ (size c limit : ℕ) (nodes : ℕ → Node) where
  loss_array_from-Reported :
      (rounds len : ℕ) (m : Option ℕ) (xs : Ranges)
      → len ≤ limit
      → count xs ≤ rounds
      → Seg size c nodes m xs none
      → Reported limit len xs (loss_array_from nodes rounds limit len (first_idx size c xs none))
  unfolding loss_array_from
  loss_array_from-Reported zero len m [] h n s = Reported-none limit len [] h (inl refl)
  loss_array_from-Reported (suc rounds) len m [] h n s = Reported-none limit len [] h (inl refl)
  loss_array_from-Reported zero len m ((lo, hi) ∷ xs) h n s =
      let bad : ⊥ = omega arith in elim bad [ ]
  loss_array_from-Reported (suc rounds) len m ((lo, hi) ∷ xs) h n s =
      elim (dec_lt (len + 1) limit) [
        | no p ↦
            let stop : ltb (len + 1) limit ≡ false = ground arith in
            rw stop (Reported-none limit len ((lo, hi) ∷ xs) h (inr (omega arith)))
        | yes p ↦
            let next : (nodes (idx size c lo)).inext ≡ first_idx size c xs none =
              ap (λ (z : Node). z.inext) s.0 in
            let rest = λ (k : ℕ) (g : k ≤ limit).
              subst (λ o. Reported limit k xs (loss_array_from nodes rounds limit k o)) (sym next)
                (loss_array_from-Reported rounds k _ xs g (omega arith) s.1) in
            let go : ltb (len + 1) limit ≡ true = ground arith in
            elim (ℕ_discrete lo hi) [
              | yes e ↦
                  let one : (lo == hi) ≡ true = ground arith in
                  rw (go, s.0, one)
                    (Reported-more limit len lo hi xs (seq_of lo ∷ []) _ (ground arith)
                      (rest (len + 1) (omega arith)))
              | no e ↦
                  let two : (lo == hi) ≡ false = ground arith in
                  rw (go, s.0, two)
                    (Reported-more limit len lo hi xs
                      (bit_or (seq_of lo) range_first ∷ seq_of hi ∷ []) _ (ground arith)
                      (rest (len + 2) (omega arith)))
            ]
      ]

-- In a list that represents the ranges `xs`, `getLossArray` ends without a fault. It writes the codes of
-- the first ranges, as many as fit: at most `limit` words, and all ranges or at least `limit` - 1 words.
pub get_loss_array-Reported :
    (size c b limit : ℕ) (xs : Ranges) (l : RcvLossList)
    → Repr size c b xs l
    → Reported limit 0 xs (get_loss_array size l limit)
unfolding get_loss_array
get_loss_array-Reported size c b limit xs l r =
    let rounds = count-le b (b + size) xs r.ordered r.fits (omega arith) in
    subst (λ o. Reported limit 0 xs (loss_array_from l.nodes size limit 0 o)) (sym r.links.head_eq)
      (loss_array_from-Reported size c limit l.nodes size 0 none xs (omega arith) (omega arith)
        r.links.seg)
