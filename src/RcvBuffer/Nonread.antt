-- ===== src/RcvBuffer/Nonread.antt =====
-- The search for the end of the whole messages (`updateNonreadPos`) in a window of the receiver buffer.
use srtplay.Base.{
  ℕ, zero, suc, ◌+◌, ◌≤◌, ◌<◌, ◌≡◌, refl, sym, ap, subst, arith, ◌||◌, ◌&&◌, not, Bool, true, false,
  Option, none, some, dec_lt, ℕ_discrete, ==_iff, ◌==◌, Bool-cases, ◌⊎◌, inl, inr,
}
use srtplay.Base.Ring.{idx, idx-ne}
use srtplay.RcvBuffer.{Entry, has_unit, RcvBuffer}
use srtplay.RcvBuffer.Position.{message_end, nonread_from}
use srtplay.RcvBuffer.Valid.{Window, has_unit-avail, inc_pos-idx}
use srtplay.RcvBuffer.Messages.{starts, ends, at, Units, Whole, Messages, done, next}

module _ (size c : ℕ) (b : RcvBuffer) (lo stop : ℕ) (w : Window size c lo stop b.entries)
    (room : stop < lo + size) where
  abbrev entry : ℕ → Entry
  entry x = at size c b.message_api b.entries x

  abbrev WholeAt : ℕ → ℕ → Type 0
  WholeAt x y = Whole size c b.message_api b.entries x y

  -- There is no packet at the end.
  pub entry-stop : lo ≤ stop → has_unit (entry stop) ≡ false
  entry-stop h = elim (Bool-cases (has_unit (entry stop))) [
    | inl q ↦ absurd (omega (arith, (has_unit-avail stop stop (entry stop) (w stop h room) q).1))
    | inr q ↦ q
  ]

  -- No message from `x` on is there if a packet is missing before one that ends it.
  blocked :
      (x z : ℕ)
      → x ≤ z
      → ((y : ℕ) → x ≤ y → y < z → ends b.message_api (entry y) ≡ false)
      → has_unit (entry z) ≡ false
      → (y : ℕ) → ¬ WholeAt x y
  blocked x z h none_ends missing y m = elim (dec_lt y z) [
    | yes p ↦ let e = m.end in let f = none_ends y m.lo-le p in cc
    | no p ↦ let e = m.units z h (omega arith) in cc
  ]

  end_test : (x : ℕ) → lo ≤ x → x < stop → (idx size c x == idx size c stop) ≡ false
  end_test x h l = ground (arith, idx-ne size c x stop l (omega arith))

  -- What holds below `z` and at `z` holds below the next place.
  extend :
      (P : ℕ → Type 0) (x z : ℕ)
      → ((y : ℕ) → x ≤ y → y < z → P y)
      → P z
      → (y : ℕ) → x ≤ y
      → y < z + 1
      → P y
  extend P x z f last y h l = elim (ℕ_discrete y z) [
    | yes p ↦ subst P (sym p) last
    | no p ↦ f y h (omega arith)
  ]

  abbrev Found : ℕ → Option ℕ → Type 0
  Found x o =
      ((o ≡ none) × ((y : ℕ) → ¬ WholeAt x y))
      ⊎ ((y : ℕ) × (o ≡ some (idx size c (y + 1))) × WholeAt x y × (y < stop))

  message_end-Whole :
      (rounds x z : ℕ)
      → lo ≤ x
      → x ≤ z
      → z ≤ stop
      → stop < z + rounds
      → starts b.message_api (entry x) ≡ true
      → Units size c b.message_api b.entries x z
      → ((y : ℕ) → x ≤ y → y < z → ends b.message_api (entry y) ≡ false)
      → Found x (message_end size rounds b (idx size c stop) (idx size c x) (idx size c z))
  unfolding message_end
  message_end-Whole zero x z h0 h1 h2 enough st un ne = absurd (omega arith)
  message_end-Whole (suc rounds) x z h0 h1 h2 enough st un ne = elim (ℕ_discrete z stop) [
    | yes p ↦
        let same : (idx size c z == idx size c stop) ≡ true = (==_iff _ _).1 (ap (idx size c) p) in
        inl (
          rw same refl,
          blocked x z h1 ne
              (subst (λ k. has_unit (entry k) ≡ false) (sym p) (entry-stop (omega arith))),
        )
    | no p ↦
        let off = end_test z (omega arith) (omega arith) in
        elim (Bool-cases (has_unit (entry z))) [
          | inr q ↦ inl (rw (off, q) refl, blocked x z h1 ne q)
          | inl q ↦
              let un' = extend (λ y. has_unit (entry y) ≡ true) x z un q in
              let ready =
                (has_unit-avail stop x (entry x) (w x h0 (omega arith))
                  (un' x (omega arith) (omega arith))).0 in
              elim (Bool-cases (ends b.message_api (entry z))) [
                | inl r ↦ inr (
                  z,
                  rw (off, q, ready, r) (ap some (inc_pos-idx size c z)),
                  record {
                    lo-le = h1;
                    start = st;
                    units = λ y h l. un' y h (omega arith);
                    inner = ne;
                    end = r;
                  },
                  (omega arith),
                )
                | inr r ↦
                    rw (off, q, ready, r, inc_pos-idx size c z)
                      (message_end-Whole rounds x (z + 1) h0 (omega arith) (omega arith)
                        (omega arith) st un'
                        (extend (λ y. ends b.message_api (entry y) ≡ false) x z ne r))
              ]
        ]
  ]

  de_morgan : (p q : Bool) → (p && not q) ≡ not (not p || q)
  de_morgan true q = refl
  de_morgan false q = refl

  -- The search stops behind whole messages, where no whole message follows.
  abbrev pub Outcome : ℕ → ℕ → Type 0
  Outcome x i =
      (n : ℕ) × (i ≡ idx size c n)
      × Messages size c b.message_api b.entries x n
      × (n ≤ stop)
      × ((y : ℕ) → ¬ WholeAt n y)

  stay : (x : ℕ) → x ≤ stop → ((y : ℕ) → ¬ WholeAt x y) → Outcome x (idx size c x)
  stay x h f = (x, refl, done, h, f)

  pub no_unit : (x : ℕ) → has_unit (entry x) ≡ false → (y : ℕ) → ¬ WholeAt x y
  no_unit x q y m = let e = m.units x (omega arith) (omega (arith, m.lo-le)) in cc

  pub nonread_from-Messages :
      (rounds x : ℕ)
      → lo ≤ x
      → x ≤ stop
      → stop < x + rounds
      → Outcome x (nonread_from size rounds b (idx size c stop) (idx size c x))
  unfolding nonread_from
  nonread_from-Messages zero x h0 h1 enough = absurd (omega arith)
  nonread_from-Messages (suc rounds) x h0 h1 enough = elim (Bool-cases (has_unit (entry x))) [
    | inr q ↦ rw q (stay x h1 (no_unit x q))
    | inl q ↦
        let ready = (has_unit-avail stop x (entry x) (w x h0 (omega arith)) q).0 in
        elim (Bool-cases (starts b.message_api (entry x))) [
          | inr s ↦ rw (q, ready, de_morgan, s) (stay x h1 (λ y m. let e = m.start in cc))
          | inl s ↦
              elim (message_end-Whole size x x h0 (omega arith) h1 (omega arith) s
                (λ y l h. absurd (omega arith)) (λ y l h. absurd (omega arith))) [
                  | inl (e, f) ↦ rw (q, ready, de_morgan, s, e) (stay x h1 f)
                  | inr (y, e, m, below) ↦
                      let ordered = m.lo-le in
                      let moved : (idx size c (y + 1) == idx size c x) ≡ false =
                        ground (arith, idx-ne size c x (y + 1) (omega arith) (omega arith)) in
                      elim (Bool-cases (has_unit (entry (y + 1)))) [
                        | inr r ↦
                            rw (q, ready, de_morgan, s, e, moved, r)
                              (y + 1, refl, next m done, omega arith, no_unit (y + 1) r)
                        | inl r ↦
                            let (n, at_n, ms, bound, last) =
                              nonread_from-Messages rounds (y + 1) (omega arith) (omega arith)
                                (omega arith) in
                            rw (q, ready, de_morgan, s, e, moved, r)
                              (n, at_n, next m ms, bound, last)
                      ]
                ]
        ]
  ]
