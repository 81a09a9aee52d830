-- ===== src/TsbpdTime/Wrap.antt =====
-- `updateTsbPdTimeBase` and the delivery times, over times since the start that do not wrap round.
use srtplay.Base.{
  ℕ, ◌+◌, ◌-◌, ◌*◌, ◌%◌, ◌≤◌, ◌<◌, ◌≡◌, ◌⊎◌, inl, inr, refl, ap, ◌∙◌, arith, ltb, leb, ◌&&◌, max,
  true, false, dec_lt, List, [], ◌∷◌,
}
use srtplay.Base.Int.{ℤ, pos, ◌+ℤ◌, eq_of_parts, int_laws}
use srtplay.TsbpdTime.{
  TsbpdTime, max_timestamp, wrap_period, get_tsbpd_time_base, get_pkt_tsbpd_base_time,
  get_pkt_tsbpd_time, update_tsbpd_time_base,
}

-- The timestamp of a packet that is sent `x` microseconds after the start.
unfoldable pub timestamp_of : ℕ → ℕ
timestamp_of x = x % 0x100000000

-- The state after packets up to the time `h` since the start, which was at `origin`: the time base has
-- gone on by `k` rounds, and the wrap check period is that round the end of the round `k`.
pub record Follows (origin : ℤ) (k h : ℕ) (t : TsbpdTime) : Type 0 where
  pub base_eq : t.time_base ≡ origin +ℤ pos (k * 0x100000000)
  pub phase :
      ((t.wrap_check ≡ false)
        × ((k ≡ 0) ⊎ (k * 0x100000000 + wrap_period ≤ h))
        × (h + wrap_period < (k + 1) * 0x100000000))
      ⊎ ((t.wrap_check ≡ true)
          × ((k + 1) * 0x100000000 ≤ h + wrap_period)
          × (h < (k + 1) * 0x100000000 + wrap_period))

-- A packet at most the wrap period before or after the latest one so far.
abbrev pub Close : ℕ → ℕ → Type 0
Close h x = (h ≤ x + wrap_period) × (x ≤ h + wrap_period)

-- Where the packet is: in the round of the time base, or in the next one, which only the wrap check
-- period meets, and then near its start.
Place : ℕ → ℕ → TsbpdTime → Type 0
Place k x t =
    ((x % 0x100000000 + k * 0x100000000 ≡ x)
      × ((t.wrap_check ≡ false) ⊎ (2 * wrap_period < x % 0x100000000)))
    ⊎ ((x % 0x100000000 + (k + 1) * 0x100000000 ≡ x)
        × (t.wrap_check ≡ true)
        × (x % 0x100000000 ≤ 2 * wrap_period))

add_up : (o : ℤ) (a c d x : ℕ) → a + c + d ≡ x → (((o +ℤ pos a) +ℤ pos c) +ℤ pos d) ≡ (o +ℤ pos x)
add_up o a c d x e = eq_of_parts _ _ (omega int_laws)

add_two : (o : ℤ) (a c x : ℕ) → a + c ≡ x → ((o +ℤ pos a) +ℤ pos c) ≡ (o +ℤ pos x)
add_two o a c x e = eq_of_parts _ _ (omega int_laws)

module _ (origin : ℤ) (k h : ℕ) (t : TsbpdTime) (f : Follows origin k h t) (x : ℕ)
    (c : Close h x) where
  place : Place k x t
  unfolding Place
  place = elim f.phase [
    | inl p ↦
        let start : k * 0x100000000 ≤ x = elim p.1 [ inl z ↦ omega arith | inr z ↦ omega arith ] in
        inl (omega arith, inl p.0)
    | inr p ↦ elim (dec_lt x ((k + 1) * 0x100000000)) [
      | yes q ↦ inl (omega arith, inr (omega arith))
      | no q ↦ inr (omega arith, p.0, omega arith)
    ]
  ]

  -- The packet's time is the origin plus its time since the start.
  base_time : get_pkt_tsbpd_base_time t (timestamp_of x) ≡ origin +ℤ pos x
  unfolding get_pkt_tsbpd_base_time get_tsbpd_time_base timestamp_of Place
  base_time = rw f.base_eq (elim place [
    | inl p ↦
        let stays : (t.wrap_check && leb (x % 0x100000000) (2 * wrap_period)) ≡ false =
          ground arith in
        rw stays (add_up origin (k * 0x100000000) 0 (x % 0x100000000) x (omega (arith, p.0)))
    | inr p ↦
        let carries : (t.wrap_check && leb (x % 0x100000000) (2 * wrap_period)) ≡ true =
          ground arith in
        rw carries
          (add_up origin (k * 0x100000000) 0x100000000 (x % 0x100000000) x (omega (arith, p.0)))
  ])

  -- The state follows the packet too.
  Follows-update :
      (k' : ℕ) × Follows origin k' (max h x) (update_tsbpd_time_base t (timestamp_of x))
  unfolding update_tsbpd_time_base timestamp_of Place
  Follows-update = elim f.phase [
    | inl p ↦
        let here : x % 0x100000000 + k * 0x100000000 ≡ x = ground (arith, place) in
        let later : (k ≡ 0) ⊎ (k * 0x100000000 + wrap_period ≤ max h x) = elim p.1 [
          | inl z ↦ inl z
          | inr z ↦ inr (omega arith)
        ] in
        elim (dec_lt (x + wrap_period) ((k + 1) * 0x100000000)) [
          | yes q ↦
              let far : ltb (max_timestamp - wrap_period) (x % 0x100000000) ≡ false =
                ground arith in
              rw (p.0, far)
                (k, record { base_eq = f.base_eq; phase = inl (refl, later, omega arith) })
          | no q ↦
              let close : ltb (max_timestamp - wrap_period) (x % 0x100000000) ≡ true =
                ground arith in
              rw (p.0, close)
                (k, record { base_eq = f.base_eq; phase = inr (refl, omega arith, omega arith) })
        ]
    | inr p ↦ elim (dec_lt x ((k + 1) * 0x100000000 + wrap_period)) [
      | yes q ↦
          let inside : (leb wrap_period (x % 0x100000000)
                && leb (x % 0x100000000) (wrap_period * 2))
              ≡ false =
            ground (arith, place) in
          rw (p.0, inside)
            (k, record { base_eq = f.base_eq; phase = inr (refl, omega arith, omega arith) })
      | no q ↦
          let past : (leb wrap_period (x % 0x100000000) && leb (x % 0x100000000) (wrap_period * 2))
              ≡ true =
            ground (arith, place) in
          rw (p.0, past)
            (
              k + 1,
              record {
                base_eq =
                    ap (λ z. z +ℤ pos 0x100000000) f.base_eq
                    ∙ add_two origin (k * 0x100000000) 0x100000000 _ (omega arith);
                phase = inl (refl, inr (omega arith), omega arith);
              },
            )
    ]
  ]

-- The state after data packets that were sent at the times `xs` since the start.
abbrev pub arrive : TsbpdTime → List ℕ → TsbpdTime
arrive t [] = t
arrive t (x ∷ xs) = arrive (update_tsbpd_time_base t (timestamp_of x)) xs

-- Each packet is close to the latest one before it.
abbrev pub Steady : ℕ → List ℕ → Type 0
Steady h [] = Unit {0}
Steady h (x ∷ xs) = Close h x × Steady (max h x) xs

abbrev pub latest : ℕ → List ℕ → ℕ
latest h [] = h
latest h (x ∷ xs) = latest (max h x) xs

arrive-Follows :
    (origin : ℤ) (k h : ℕ) (xs : List ℕ) (t : TsbpdTime)
    → Follows origin k h t
    → Steady h xs
    → (k' : ℕ) × Follows origin k' (latest h xs) (arrive t xs)
arrive-Follows origin k h [] t f s = (k, f)
arrive-Follows origin k h (x ∷ xs) t f s =
    let (k', f') = Follows-update origin k h t f x s.0 in
    arrive-Follows origin k' (max h x) xs _ f' s.1

-- Only the time base and the flag change.
update-delay :
    (t : TsbpdTime) (ts : ℕ)
    → ((update_tsbpd_time_base t ts).delay ≡ t.delay)
      × ((update_tsbpd_time_base t ts).tracer ≡ t.tracer)
unfolding update_tsbpd_time_base
update-delay t ts = ground arith

arrive-delay :
    (xs : List ℕ) (t : TsbpdTime)
    → ((arrive t xs).delay ≡ t.delay) × ((arrive t xs).tracer ≡ t.tracer)
arrive-delay [] t = (refl, refl)
arrive-delay (x ∷ xs) t =
    let (d, r) = arrive-delay xs (update_tsbpd_time_base t (timestamp_of x)) in
    let (d', r') = update-delay t (timestamp_of x) in (d ∙ d', r ∙ r')

-- After any number of packets, of which each was sent at most the wrap period (30 seconds) before or
-- after the latest one before it, a packet that is as close to the latest one is to be delivered at the
-- origin plus its time since the start, the delay and the drift, however often the timestamps have wrapped
-- round. In the beginning the state follows the stream in the same sense.
pub get_pkt_tsbpd_time-arrive :
    (origin : ℤ) (k h x : ℕ) (xs : List ℕ) (t : TsbpdTime)
    → Follows origin k h t
    → Steady h xs
    → Close (latest h xs) x
    → get_pkt_tsbpd_time (arrive t xs) (timestamp_of x)
      ≡ ((origin +ℤ pos x) +ℤ t.delay) +ℤ t.tracer.drift
unfolding get_pkt_tsbpd_time
get_pkt_tsbpd_time-arrive origin k h x xs t f s c =
    let (k', f') = arrive-Follows origin k h xs t f s in
    let (d, r) = arrive-delay xs t in
    rw (base_time origin k' (latest h xs) (arrive t xs) f' x c, d, r) refl
