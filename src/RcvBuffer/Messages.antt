-- ===== src/RcvBuffer/Messages.antt =====
-- The whole messages of a receiver buffer in order, and the search for their end (`updateNonreadPos`).
use srtplay.Base.{ℕ, ◌+◌, ◌≤◌, ◌<◌, ◌≡◌, subst, arith, ◌||◌, not, Bool, true, false, dec_lt}
use srtplay.Base.Ring.{idx}
use srtplay.RcvBuffer.{Entry, has_unit}
use srtplay.RcvBuffer.Position.{starts_message, ends_message}

-- In the stream mode each packet is a message.
abbrev pub starts : Bool → Entry → Bool
starts api e = not api || starts_message e

abbrev pub ends : Bool → Entry → Bool
ends api e = not api || ends_message e

module _ (size c : ℕ) (api : Bool) (entries : ℕ → Entry) where
  abbrev pub at : ℕ → Entry
  at x = entries (idx size c x)

  -- All packets from `lo` to `hi` are there.
  abbrev pub Units : ℕ → ℕ → Type 0
  Units lo hi = (x : ℕ) → lo ≤ x → x < hi → has_unit (at x) ≡ true

  -- A message from `lo` to `hi` that is there.
  pub record Whole (lo hi : ℕ) : Type 0 where
    pub lo-le : lo ≤ hi
    pub start : starts api (at lo) ≡ true
    pub units : Units lo (hi + 1)
    pub inner : (x : ℕ) → lo ≤ x → x < hi → ends api (at x) ≡ false
    pub end : ends api (at hi) ≡ true

  -- Messages from `lo` up to `n`.
  pub data Messages : ℕ → ℕ → Type 0 where
    done : {n : ℕ} → Messages n n
    next : {lo hi n : ℕ} → Whole lo hi → Messages (hi + 1) n → Messages lo n

  pub Messages-le : (lo n : ℕ) → Messages lo n → lo ≤ n
  Messages-le lo n done = omega arith
  Messages-le lo n (next {hi = hi} w ms) =
      let h = w.lo-le in omega (arith, Messages-le (hi + 1) n ms)

  pub Messages-append : (lo m n : ℕ) → Messages lo m → Messages m n → Messages lo n
  Messages-append lo m n done b = b
  Messages-append lo m n (next {hi = hi} w a) b = next w (Messages-append (hi + 1) m n a b)

  pub Messages-Units : (lo n : ℕ) → Messages lo n → Units lo n
  Messages-Units lo n done x a b = absurd (omega arith)
  Messages-Units lo n (next {hi = hi} w ms) x a b = elim (dec_lt x (hi + 1)) [
    | yes p ↦ w.units x a p
    | no p ↦ Messages-Units (hi + 1) n ms x (omega arith) b
  ]

-- Messages are a matter of their own entries only.
module _ (size c : ℕ) (api : Bool) (entries entries' : ℕ → Entry) where
  abbrev Agree : ℕ → ℕ → Type 0
  Agree lo n = (x : ℕ) → lo ≤ x → x < n → entries (idx size c x) ≡ entries' (idx size c x)

  pub Whole-Agree :
      (lo hi : ℕ)
      → Agree lo (hi + 1)
      → Whole size c api entries lo hi
      → Whole size c api entries' lo hi
  Whole-Agree lo hi g w =
      let ordered = w.lo-le in
      record {
        lo-le = w.lo-le;
        start = subst (λ e. starts api e ≡ true) (g lo (omega arith) (omega arith)) w.start;
        units = λ x a b. subst (λ e. has_unit e ≡ true) (g x a b) (w.units x a b);
        inner = λ x a b. subst (λ e. ends api e ≡ false) (g x a (omega arith)) (w.inner x a b);
        end = subst (λ e. ends api e ≡ true) (g hi ordered (omega arith)) w.end;
      }

  pub Messages-Agree :
      (lo n : ℕ) → Agree lo n → Messages size c api entries lo n → Messages size c api entries' lo n
  Messages-Agree lo n g done = done
  Messages-Agree lo n g (next {hi = hi} w ms) =
      let ordered = w.lo-le in
      let behind = Messages-le size c api entries (hi + 1) n ms in
      next (Whole-Agree lo hi (λ x a b. g x a (omega arith)) w)
        (Messages-Agree (hi + 1) n (λ x a b. g x (omega arith) b) ms)
