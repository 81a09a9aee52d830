-- ===== src/RcvLossList/Ranges.antt =====
-- The abstract loss list: ranges of stream positions, earliest first.
use srtplay.Base.{
  ℕ, ◌+◌, ◌-◌, ◌≤◌, ◌<◌, ◌≡◌, ◌≢◌, ◌↔◌, ◌⊎◌, inl, inr, refl, arith, ltb, ◌==◌, if◌then◌else◌, List,
  [], ◌∷◌, ◌++◌, Bool, true, false, ap, dec_lt,
}

abbrev pub Ranges : Type 0
Ranges = List (ℕ × ℕ)

-- The ranges are not empty, ascending and disjoint, and start at `b` or later.
abbrev pub Sorted : ℕ → Ranges → Type 0
Sorted b [] = Unit {0}
Sorted b ((lo, hi) ∷ xs) = (b ≤ lo) × (lo ≤ hi) × Sorted (hi + 1) xs

-- All positions are below `u`.
abbrev pub Below : ℕ → Ranges → Type 0
Below u [] = Unit {0}
Below u ((lo, hi) ∷ xs) = (hi < u) × Below u xs

abbrev pub Lost : ℕ → Ranges → Type 0
Lost x [] = ⊥
Lost x ((lo, hi) ∷ xs) = ((lo ≤ x) × (x ≤ hi)) ⊎ Lost x xs

abbrev pub total : Ranges → ℕ
total [] = 0
total ((lo, hi) ∷ xs) = hi - lo + 1 + total xs

-- The range without `x`, which it has, in front of the others.
abbrev pub cut : ℕ → ℕ → ℕ → Ranges → Ranges
cut lo hi x xs =
    if x == lo
    then (if lo == hi then xs else (lo + 1, hi) ∷ xs)
    else (if x == hi then (lo, hi - 1) ∷ xs else (lo, x - 1) ∷ (x + 1, hi) ∷ xs)

unfoldable pub without : ℕ → Ranges → Ranges
without x [] = []
without x ((lo, hi) ∷ xs) =
    if ltb x lo then (lo, hi) ∷ xs else if ltb hi x then (lo, hi) ∷ without x xs else cut lo hi x xs

unfoldable pub contains : ℕ → Ranges → Bool
contains x [] = false
contains x ((lo, hi) ∷ xs) = if ltb x lo then false else if ltb hi x then contains x xs else true

pub Sorted-mono : (a b : ℕ) (xs : Ranges) → a ≤ b → Sorted b xs → Sorted a xs
Sorted-mono a b [] h s = tt
Sorted-mono a b ((lo, hi) ∷ xs) h s = (omega arith, s.1, s.2)

-- Before the start of the list nothing is lost.
pub not-Lost : (b x : ℕ) (xs : Ranges) → Sorted b xs → x < b → ¬ Lost x xs
not-Lost b x [] s h m = m
not-Lost b x ((lo, hi) ∷ xs) s h (inl m) = omega arith
not-Lost b x ((lo, hi) ∷ xs) s h (inr m) = not-Lost (hi + 1) x xs s.2 (omega arith) m

-- `contains` decides.
pub contains_iff : (b x : ℕ) (xs : Ranges) → Sorted b xs → (contains x xs ≡ true) ↔ Lost x xs
unfolding contains
contains_iff b x [] s = (λ e. cc, λ m. elim m [ ])
contains_iff b x ((lo, hi) ∷ xs) s = (
  λ e. ground (arith, (contains_iff (hi + 1) x xs s.2).0),
  λ m. ground (arith, (contains_iff (hi + 1) x xs s.2).1, not-Lost (hi + 1) x xs s.2),
)

-- What is lost after a removal.
pub Lost-without :
    (b x y : ℕ) (xs : Ranges) → Sorted b xs → Lost y (without x xs) ↔ (Lost y xs × (y ≢ x))
unfolding without
Lost-without b x y [] s = (λ m. elim m [ ], λ m. m.0)
Lost-without b x y ((lo, hi) ∷ xs) s =
    ground (arith, Lost-without (hi + 1) x y xs s.2, not-Lost (hi + 1) x xs s.2)

pub Sorted-without : (b x : ℕ) (xs : Ranges) → Sorted b xs → Sorted b (without x xs)
unfolding without
Sorted-without b x [] s = tt
Sorted-without b x ((lo, hi) ∷ xs) s = ground (
  arith,
  Sorted-without (hi + 1) x xs s.2,
  Sorted-mono b (hi + 1) xs,
  Sorted-mono (hi - 1 + 1) (hi + 1) xs,
)

pub total-without :
    (b x : ℕ) (xs : Ranges)
    → Sorted b xs
    → total (without x xs) + (if contains x xs then 1 else 0) ≡ total xs
unfolding without contains
total-without b x [] s = refl
total-without b x ((lo, hi) ∷ xs) s = ground (arith, total-without (hi + 1) x xs s.2)

pub Below-without : (u x : ℕ) (xs : Ranges) → Below u xs → Below u (without x xs)
unfolding without
Below-without u x [] s = tt
Below-without u x ((lo, hi) ∷ xs) s = ground (arith, Below-without u x xs s.1)

-- The ranges that end before `x` are passed over.
pub without-append :
    (b x : ℕ) (ps qs : Ranges)
    → Sorted b ps
    → Below x ps
    → without x (ps ++ qs) ≡ ps ++ without x qs
unfolding without
without-append b x [] qs s f = refl
without-append b x ((lo, hi) ∷ ps) qs s f = ground (arith, without-append (hi + 1) x ps qs s.2 f.1)

pub contains-append :
    (b x : ℕ) (ps qs : Ranges) → Sorted b ps → Below x ps → contains x (ps ++ qs) ≡ contains x qs
unfolding contains
contains-append b x [] qs s f = refl
contains-append b x ((lo, hi) ∷ ps) qs s f =
    ground (arith, contains-append (hi + 1) x ps qs s.2 f.1)

-- In front of the list `x` is nowhere.
pub without_before : (b x : ℕ) (xs : Ranges) → Sorted b xs → x < b → without x xs ≡ xs
unfolding without
without_before b x [] s h = refl
without_before b x ((lo, hi) ∷ xs) s h = ground arith

pub contains_before : (b x : ℕ) (xs : Ranges) → Sorted b xs → x < b → contains x xs ≡ false
unfolding contains
contains_before b x [] s h = refl
contains_before b x ((lo, hi) ∷ xs) s h = ground arith

-- The last range that starts at `x` or earlier, between those before and behind it.
pub record Located (x : ℕ) (xs : Ranges) : Type 0 where
  pub ps : Ranges
  pub lo : ℕ
  pub hi : ℕ
  pub qs : Ranges
  pub whole : xs ≡ ps ++ (lo, hi) ∷ qs
  pub starts : lo ≤ x
  pub later : Sorted (x + 1) qs

locate_first :
    (b x lo hi : ℕ) (xs : Ranges)
    → lo ≤ x
    → Sorted b xs
    → Sorted (x + 1) xs ⊎ Located x xs
    → Located x ((lo, hi) ∷ xs)
locate_first b x lo hi xs h s (inl l) = record {
  ps = [];
  lo = lo;
  hi = hi;
  qs = xs;
  whole = refl;
  starts = h;
  later = l;
}
locate_first b x lo hi xs h s (inr l) = record {
  ps = (lo, hi) ∷ l.ps;
  lo = l.lo;
  hi = l.hi;
  qs = l.qs;
  whole = ap (◌∷◌ (lo, hi)) l.whole;
  starts = l.starts;
  later = l.later;
}

pub locate : (b x : ℕ) (xs : Ranges) → Sorted b xs → Sorted (x + 1) xs ⊎ Located x xs
locate b x [] s = inl tt
locate b x ((lo, hi) ∷ xs) s = elim (dec_lt x lo) [
  | yes p ↦ inl (omega arith, s.1, s.2)
  | no p ↦ inr (locate_first (hi + 1) x lo hi xs (omega arith) s.2 (locate (hi + 1) x xs s.2))
]

pub Sorted-split :
    (b : ℕ) (ps : Ranges) (lo hi : ℕ) (qs : Ranges)
    → Sorted b (ps ++ (lo, hi) ∷ qs)
    → Sorted b ps × Below lo ps × (b ≤ lo) × (lo ≤ hi) × Sorted (hi + 1) qs
Sorted-split b [] lo hi qs s = (tt, tt, s.0, s.1, s.2)
Sorted-split b ((lo', hi') ∷ ps) lo hi qs s =
    let (sp, below, from, fits, rest) = Sorted-split (hi' + 1) ps lo hi qs s.2 in
    ((s.0, s.1, sp), (omega arith, below), omega arith, fits, rest)

pub Below-split : (u : ℕ) (ps qs : Ranges) → Below u (ps ++ qs) → Below u ps × Below u qs
Below-split u [] qs f = (tt, f)
Below-split u ((lo, hi) ∷ ps) qs f = let (a, b) = Below-split u ps qs f.1 in ((f.0, a), b)

pub Below-mono : (u v : ℕ) (xs : Ranges) → u ≤ v → Below u xs → Below v xs
Below-mono u v [] h f = tt
Below-mono u v ((lo, hi) ∷ xs) h f = (omega arith, Below-mono u v xs h f.1)
