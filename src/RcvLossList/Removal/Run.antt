-- ===== src/RcvLossList/Removal/Run.antt =====
-- The removal of a range of numbers, one number after the other.
use mathlib.Core.Option
use srtplay.Base.{
  ℕ, zero, suc, ◌+◌, ◌-◌, ◌≤◌, ◌<◌, ◌≡◌, ◌≢◌, ◌↔◌, ◌⊎◌, refl, sym, ap, ◌∙◌, arith, leb, ◌==◌, true,
  false, dec_lt, Option, none, some,
}
use srtplay.SeqNo.{max_seq}
use srtplay.SeqNo.Unwrapped.{seq_of, seq_of-le}
use srtplay.RcvLossList.{RcvLossList, ◌>>=◌, bind_some}
use srtplay.RcvLossList.Removal.{remove_run, remove_range}
use srtplay.RcvLossList.Removal.Whole.{remove_refines}
use srtplay.RcvLossList.Ranges.{
  Ranges, Below, Below-mono, Below-without, without, Lost, Lost-without,
}
use srtplay.RcvLossList.Repr.{Repr}

-- Just the lost positions that `keep` allows are left.
record Leaves (size c b : ℕ) (keep : ℕ → Type 0) (xs : Ranges) (out : Option RcvLossList)
    : Type 0 where
  left : RcvLossList
  xs' : Ranges
  returns : out ≡ some left
  repr : Repr size c b xs' left
  below : (u : ℕ) → Below u xs → Below u xs'
  lost : (z : ℕ) → Lost z xs' ↔ (Lost z xs × keep z)

seq_of_next : (x : ℕ) → seq_of x < max_seq → seq_of x + 1 ≡ seq_of (x + 1)
unfolding seq_of
seq_of_next x h = omega arith

module _ (size c b : ℕ) where
  run-Leaves :
      (n x : ℕ) (xs : Ranges) (l : RcvLossList)
      → Repr size c b xs l
      → seq_of x + n ≤ max_seq
      → x + n ≤ b + size
      → x + n ≤ b + 0x3FFFFFFF
      → Below (x + 0x3FFFFFFF) xs
      → Leaves size c b (λ z. (z < x) ⊎ (x + n ≤ z)) xs (remove_run size l (seq_of x) n)
  unfolding remove_run
  run-Leaves zero x xs l r plain fits near close = record {
    left = l;
    xs' = xs;
    returns = refl;
    repr = r;
    below = λ u f. f;
    lost = λ z. ground arith;
  }
  run-Leaves (suc n) x xs l r plain fits near close =
      let (l1, e, r1) = remove_refines size c b x xs l r (omega arith) (omega arith) close in
      let next = seq_of_next x (omega arith) in
      let rest =
        run-Leaves n (x + 1) (without x xs) l1 r1 (omega arith) (omega arith) (omega arith) (
          Below-without (x + 1 + 0x3FFFFFFF) x xs
            (Below-mono (x + 0x3FFFFFFF) (x + 1 + 0x3FFFFFFF) xs (omega arith) close)) in
      record {
        left = rest.left;
        xs' = rest.xs';
        returns =
            bind_some _ _ _ e
            ∙ ap (λ s. remove_run size l1 s n) (seq_of_next x (omega arith))
            ∙ rest.returns;
        repr = rest.repr;
        below = λ u f. rest.below u (Below-without u x xs f);
        lost = λ z. ground (arith, rest.lost z, Lost-without b x z xs r.ordered);
      }

-- Where the range goes past the largest number, and the position of that number.
plain_span :
    (x y : ℕ)
    → x ≤ y
    → y < x + 0x3FFFFFFF
    → seq_of x ≤ seq_of y
    → x + (seq_of y - seq_of x + 1) ≡ y + 1
unfolding seq_of
plain_span x y h n le = omega arith

wrapped_span :
    (x y : ℕ)
    → x ≤ y
    → y < x + 0x3FFFFFFF
    → seq_of y < seq_of x
    → x + (max_seq - seq_of x) + 1 + (seq_of y + 1) ≡ y + 1
unfolding seq_of
wrapped_span x y h n lt = omega arith

wrapped_start : (x : ℕ) → seq_of (x + (max_seq - seq_of x) + 1) ≡ 0
unfolding seq_of
wrapped_start x = omega arith

wrapped_at :
    (x y z : ℕ)
    → x ≤ z
    → z ≤ y
    → y < x + 0x3FFFFFFF
    → (seq_of z ≡ max_seq) ↔ (z ≡ x + (max_seq - seq_of x))
unfolding seq_of
wrapped_at x y z h h' n = (λ e. omega arith, λ e. omega arith)

plain_at :
    (x y z : ℕ)
    → x ≤ z
    → z ≤ y
    → y < x + 0x3FFFFFFF
    → seq_of x ≤ seq_of y
    → seq_of y ≢ max_seq
    → seq_of z ≢ max_seq
unfolding seq_of
plain_at x y z h h' n le m = omega arith

-- What a removal from `x` to `y` leaves: the rest, and the largest sequence number.
abbrev pub Kept : ℕ → ℕ → ℕ → Type 0
Kept x y z = (z < x) ⊎ ((y < z) ⊎ (seq_of z ≡ max_seq))

module _ (size c b : ℕ) where
  range_plain :
      (x y : ℕ) (xs : Ranges) (l : RcvLossList)
      → Repr size c b xs l
      → x ≤ y
      → y < x + 0x3FFFFFFF
      → y < b + size
      → y < b + 0x3FFFFFFF
      → Below (x + 0x3FFFFFFF) xs
      → seq_of x ≤ seq_of y
      → seq_of y < max_seq
      → Leaves size c b (Kept x y) xs (remove_run size l (seq_of x) (seq_of y - seq_of x + 1))
  range_plain x y xs l r range short fits near close plain low =
      let n = seq_of y - seq_of x + 1 in
      let span = plain_span x y range short plain in
      let run = run-Leaves size c b n x xs l r (omega arith) (omega arith) (omega arith) close in
      record {
        left = run.left;
        xs' = run.xs';
        returns = run.returns;
        repr = run.repr;
        below = run.below;
        lost = λ z. ground (
          arith,
          run.lost z,
          span,
          λ (p : x ≤ z) (q : z ≤ y). plain_at x y z p q short plain (omega arith),
        );
      }

  range_wrapped :
      (x y : ℕ) (xs : Ranges) (l : RcvLossList)
      → Repr size c b xs l
      → x ≤ y
      → y < x + 0x3FFFFFFF
      → y < b + size
      → y < b + 0x3FFFFFFF
      → Below (x + 0x3FFFFFFF) xs
      → seq_of y < seq_of x
      → seq_of x ≤ max_seq
      → Leaves size c b (Kept x y) xs (
          remove_run size l (seq_of x) (max_seq - seq_of x) >>= λ l'.
          remove_run size l' 0 (seq_of y + 1))
  range_wrapped x y xs l r range short fits near close round low =
      let p = x + (max_seq - seq_of x) in
      let span = wrapped_span x y range short round in
      let front =
        run-Leaves size c b (max_seq - seq_of x) x xs l r (omega arith) (omega arith) (omega arith)
          close in
      let start = wrapped_start x in
      let back =
        run-Leaves size c b (seq_of y + 1) (p + 1) front.xs' front.left front.repr (omega arith)
          (omega arith) (omega arith)
          (front.below (p + 1 + 0x3FFFFFFF)
            (Below-mono (x + 0x3FFFFFFF) (p + 1 + 0x3FFFFFFF) xs (omega arith) close)) in
      record {
        left = back.left;
        xs' = back.xs';
        returns =
            bind_some _ _ _ front.returns
            ∙ ap (λ s. remove_run size front.left s (seq_of y + 1)) (sym start)
            ∙ back.returns;
        repr = back.repr;
        below = λ u f. back.below u (front.below u f);
        lost = λ z. ground (
          arith,
          back.lost z,
          front.lost z,
          span,
          λ (q : x ≤ z) (q' : z ≤ y). wrapped_at x y z q q' short,
        );
      }

map-bind :
    {A B C : Type 0}
    → (o : Option A) (f : A → Option B) (g : B → C)
    → (o >>= λ a. Option.map g (f a)) ≡ Option.map g (o >>= f)
map-bind none f g = refl
map-bind (some a) f g = refl

-- Removing the numbers of the positions from `x` to `y` from a list that represents the ranges `xs`
-- ends without a fault and answers true. Of the lost positions from `x` to `y` just the one whose
-- number is the largest sequence number, if there is one, is left, and all others are. The number of
-- `y` is not the largest, and the positions are within the array and the half circle, as for one number.
pub remove_range-Lost :
    (size c b x y : ℕ) (xs : Ranges) (l : RcvLossList)
    → Repr size c b xs l
    → x ≤ y
    → y < x + 0x3FFFFFFF
    → y < b + size
    → y < b + 0x3FFFFFFF
    → Below (x + 0x3FFFFFFF) xs
    → seq_of y ≢ max_seq
    → (l' : RcvLossList) × (xs' : Ranges) × (remove_range size l (seq_of x) (seq_of y)
        ≡ some (true, l'))
      × Repr size c b xs' l'
      × ((z : ℕ) → Lost z xs' ↔ (Lost z xs × ((z < x) ⊎ ((y < z) ⊎ (seq_of z ≡ max_seq)))))
unfolding remove_range
remove_range-Lost size c b x y xs l r range short fits near close end =
    let small_x = seq_of-le x in
    let small_y = seq_of-le y in
    elim (dec_lt (seq_of y) (seq_of x)) [
      | no p ↦
          let out =
            range_plain size c b x y xs l r range short fits near close (omega arith)
              (omega arith) in
          let plain : leb (seq_of x) (seq_of y) ≡ true = ground arith in
          let other : (seq_of y == max_seq) ≡ false = ground arith in
          (out.left, out.xs', rw (plain, other, out.returns) refl, out.repr, out.lost)
      | yes p ↦
          let out = range_wrapped size c b x y xs l r range short fits near close p small_x in
          let round : leb (seq_of x) (seq_of y) ≡ false = ground arith in
          (
            out.left,
            out.xs',
            rw round (
                map-bind (remove_run size l (seq_of x) (max_seq - seq_of x)) _ _
                ∙ ap (Option.map (λ l'. (true, l'))) out.returns),
            out.repr,
            out.lost,
          )
    ]
