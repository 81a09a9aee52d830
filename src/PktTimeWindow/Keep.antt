-- ===== src/PktTimeWindow/Keep.antt =====
-- How long an interval stays in the window, and which pairs of packets are measured.
use srtplay.Base.{
  ℕ, suc, ◌+◌, ◌%◌, ◌≤◌, ◌<◌, ◌≡◌, ◌≢◌, ◌⊎◌, refl, sym, ap, ◌∙◌, arith, ◌==◌, length, Bool, true,
  false, List, [], ◌∷◌, none, some, update, update_self, update_ne, ◌*◌, ◌/◌, ◌^◌, if◌then◌else◌,
  inl, inr, Bool-cases,
}
use srtplay.Base.Int.{ℤ, pos, ◌+ℤ◌, ◌-ℤ◌, to_int32, to_int32_id, eq_of_parts, int_laws}
use srtplay.Base.Modular.{next_cases}
use srtplay.SeqNo.{incseq, max_seq}
use srtplay.PktTimeWindow.{
  PktTimeWindow, next_ptr, on_pkt_arrival, probe_case, probe1_arrival, probe2_arrival,
  probe_arrival,
}

-- The arrivals of packets, each with its time and its size.
abbrev pub arrive_all : ℕ → PktTimeWindow → List (ℤ × ℤ) → PktTimeWindow
arrive_all asize w [] = w
arrive_all asize w ((now, pktsz) ∷ xs) = arrive_all asize (on_pkt_arrival asize w now pktsz) xs

-- `k` places of a ring are free to write before place `p` comes round.
Ahead : ℕ → ℕ → ℕ → ℕ → Type 0
Ahead size p ptr k =
    (ptr < size) × (((ptr ≤ p) × (ptr + k ≤ p)) ⊎ ((p < ptr) × (ptr + k ≤ p + size)))

Ahead-next :
    (size p ptr k : ℕ) → Ahead size p ptr (suc k) → (ptr ≢ p) × Ahead size p (next_ptr size ptr) k
unfolding Ahead
Ahead-next size p ptr k a = ground arith

kept :
    (asize p : ℕ) (w : PktTimeWindow) (xs : List (ℤ × ℤ))
    → p < asize
    → Ahead asize p w.pkt_window_ptr (length xs)
    → ((arrive_all asize w xs).pkt_window p ≡ w.pkt_window p)
      × ((arrive_all asize w xs).bytes_window p ≡ w.bytes_window p)
unfolding on_pkt_arrival
kept asize p w [] h a = (refl, refl)
kept asize p w ((now, pktsz) ∷ xs) h a =
    let (other, ahead) = Ahead-next asize p w.pkt_window_ptr (length xs) a in
    let rest = kept asize p (on_pkt_arrival asize w now pktsz) xs h ahead in
    let elsewhere : p ≢ w.pkt_window_ptr = λ e. other (sym e) in
    (
      rest.0 ∙ update_ne w.pkt_window w.pkt_window_ptr p _ elsewhere,
      rest.1 ∙ update_ne w.bytes_window w.pkt_window_ptr p _ elsewhere,
    )

Ahead-start : (size p k : ℕ) → p < size → k < size → Ahead size p (next_ptr size p) k
unfolding Ahead
Ahead-start size p k h g = ground arith

arrive_all-kept :
    (asize : ℕ) (w : PktTimeWindow) (now pktsz : ℤ) (xs : List (ℤ × ℤ))
    → w.pkt_window_ptr < asize
    → length xs < asize
    → let last = arrive_all asize (on_pkt_arrival asize w now pktsz) xs in
      (last.pkt_window w.pkt_window_ptr ≡ to_int32 (now -ℤ w.last_arr_time))
      × (last.bytes_window w.pkt_window_ptr ≡ pktsz)
unfolding on_pkt_arrival
arrive_all-kept asize w now pktsz xs h n =
    let rest =
      kept asize w.pkt_window_ptr (on_pkt_arrival asize w now pktsz) xs h
        (Ahead-start asize w.pkt_window_ptr (length xs) h n) in
    (
      rest.0 ∙ update_self w.pkt_window w.pkt_window_ptr _,
      rest.1 ∙ update_self w.bytes_window w.pkt_window_ptr _,
    )

next_ptr-mod : (size ptr : ℕ) → ptr < size → next_ptr size ptr ≡ (ptr + 1) % size
next_ptr-mod size ptr h = elim (next_cases ptr size h) [
  | inl (lt, e) ↦ ground (arith, lt, e)
  | inr (eq, e) ↦ ground (arith, eq, e)
]

-- Of two packets that arrive one after the other, the interval between the two, as a 32-bit integer, and the size of
-- the second are in the window until the window, of `asize` places, has as many packets later than both: in the place
-- behind the one where the next place, inside the array, was when the first arrived.
pub on_pkt_arrival-kept :
    (asize : ℕ) (w : PktTimeWindow) (now0 pktsz0 now pktsz : ℤ) (xs : List (ℤ × ℤ))
    → w.pkt_window_ptr < asize
    → length xs < asize
    → let last = arrive_all asize w ((now0, pktsz0) ∷ (now, pktsz) ∷ xs) in
      let place = (w.pkt_window_ptr + 1) % asize in
      (last.pkt_window place ≡ to_int32 (now -ℤ now0)) × (last.bytes_window place ≡ pktsz)
unfolding on_pkt_arrival
on_pkt_arrival-kept asize w now0 pktsz0 now pktsz xs h n =
    let w1 = on_pkt_arrival asize w now0 pktsz0 in
    let last = arrive_all asize w ((now0, pktsz0) ∷ (now, pktsz) ∷ xs) in
    let e = next_ptr-mod asize w.pkt_window_ptr h in
    let inside : next_ptr asize w.pkt_window_ptr < asize = ground (arith, h) in
    let rest = arrive_all-kept asize w1 now pktsz xs inside n in
    (ap last.pkt_window (sym e) ∙ rest.0, ap last.bytes_window (sym e) ∙ rest.1)

-- A packet for the probe: its time, its number, its length, and whether it is out of order.
pub record Probe : Type 0 where
  pub at : ℤ
  pub seqno : ℕ
  pub len : ℕ
  pub unordered : Bool

abbrev pub probe_all : ℕ → PktTimeWindow → List Probe → PktTimeWindow
probe_all psize w [] = w
probe_all psize w (x ∷ xs) =
    probe_all psize (probe_arrival psize w x.at x.seqno x.len x.unordered) xs

-- Packets that neither start a probe nor complete the one that `s` started.
abbrev pub Between : ℕ → List Probe → Type 0
Between s [] = Unit {0}
Between s (x ∷ xs) =
    (x.seqno % 16 ≢ 0) × ((x.unordered ≡ true) ⊎ (x.seqno ≢ incseq s)) × Between s xs

between-same :
    (psize s : ℕ) (w : PktTimeWindow) (x : Probe)
    → w.probe1_sequence ≡ some s
    → x.seqno % 16 ≢ 0
    → (x.unordered ≡ true) ⊎ (x.seqno ≢ incseq s)
    → probe_arrival psize w x.at x.seqno x.len x.unordered ≡ w
unfolding probe_arrival probe2_arrival
between-same psize s w x e n o = ground arith

probe_all-same :
    (psize s : ℕ) (w : PktTimeWindow) (xs : List Probe)
    → w.probe1_sequence ≡ some s
    → Between s xs
    → probe_all psize w xs ≡ w
probe_all-same psize s w [] e b = refl
probe_all-same psize s w (x ∷ xs) e b =
    let same = between-same psize s w x e b.0 b.1 in
    ap (λ z. probe_all psize z xs) same ∙ probe_all-same psize s w xs e b.2

starts :
    (psize s len : ℕ) (w : PktTimeWindow) (now : ℤ)
    → s % 16 ≡ 0
    → probe_arrival psize w now s len false
      ≡ record w { probe_time = now; probe1_sequence = some s }
unfolding probe_arrival probe1_arrival
starts psize s len w now h = ground arith

completes :
    (psize s len : ℕ) (w : PktTimeWindow) (now : ℤ)
    → s % 16 ≡ 0
    → s ≤ max_seq
    → w.probe1_sequence ≡ some s
    → probe_arrival psize w now (incseq s) len false ≡ record w {
      curr_arr_time = now;
      probe1_sequence = none;
      probe_window =
          update w.probe_window w.probe_window_ptr (probe_case (now -ℤ w.probe_time) len);
      probe_window_ptr = next_ptr psize w.probe_window_ptr;
    }
unfolding probe_arrival probe2_arrival incseq
completes psize s len w now h m e =
    let same : (incseq s == incseq s) ≡ true = ground arith in
    let second : (incseq s % 16 == 0) ≡ false = ground arith in
    let odd : (incseq s % 16 == 1) ≡ true = ground arith in rw (second, odd, e, same) refl

probe_arrival-measure :
    (psize s len len' : ℕ) (w : PktTimeWindow) (t t' : ℤ) (xs : List Probe)
    → s % 16 ≡ 0
    → s ≤ max_seq
    → Between s xs
    → let between = probe_all psize (probe_arrival psize w t s len false) xs in
      let after = probe_arrival psize between t' (incseq s) len' false in
      (after.probe_window ≡ update w.probe_window w.probe_window_ptr (probe_case (t' -ℤ t) len'))
      × (after.probe_window_ptr ≡ next_ptr psize w.probe_window_ptr)
      × (after.probe1_sequence ≡ none)
      × (between.probe_window ≡ w.probe_window)
probe_arrival-measure psize s len len' w t t' xs h m b =
    let w1 = record w { probe_time = t; probe1_sequence = some s } in
    let same =
      ap (λ z. probe_all psize z xs) (starts psize s len w t h)
      ∙ probe_all-same psize s w1 xs refl b in
    rw same (
      ap (λ (z : PktTimeWindow). z.probe_window) (completes psize s len' w1 t' h m refl),
      ap (λ (z : PktTimeWindow). z.probe_window_ptr) (completes psize s len' w1 t' h m refl),
      ap (λ (z : PktTimeWindow). z.probe1_sequence) (completes psize s len' w1 t' h m refl),
      refl,
    )

-- The time that a packet with a full payload of 1456 bytes would have taken, where one of `len` bytes took `d`.
abbrev pub full_time : ℕ → ℕ → ℕ
full_time d len = if len == 0 then d else d * 1456 / len

int32_of : (n : ℕ) → n < 2 ^ 31 → to_int32 (pos n) ≡ pos n
int32_of n h = to_int32_id (pos n) (omega arith) (omega (arith, h))

probe_case-full_time :
    (d len : ℕ)
    → d < 2 ^ 31
    → full_time d len < 2 ^ 31
    → probe_case (pos d) len ≡ pos (full_time d len)
unfolding probe_case
probe_case-full_time d len h fits =
    let wide : d * 1456 % 2 ^ 64 ≡ d * 1456 = omega (arith, h) in
    elim (Bool-cases (len == 0)) [
      | inl e ↦ rw e (int32_of d h)
      | inr e ↦
          let value = ap (λ b. if b then d else d * 1456 / len) e in
          rw (e, wide) (int32_of (d * 1456 / len) (omega (arith, fits, value)))
    ]

later_by : (t : ℤ) (d : ℕ) → (t +ℤ pos d) -ℤ t ≡ pos d
later_by t d = eq_of_parts _ _ (omega int_laws)

-- An in-order packet whose number is a multiple of 16 and the very next one, also in order and `d` microseconds later,
-- make one measurement, of the time that a full packet would have taken, if that and `d` fit a 32-bit integer:
-- `d` times 1456 by the length of the second packet, or `d` itself if that is 0. Whatever packets that neither start
-- a probe nor complete this one arrive between the two, they change nothing of it.
pub probe_arrival-pair :
    (psize s len len' d : ℕ) (w : PktTimeWindow) (t : ℤ) (xs : List Probe)
    → s % 16 ≡ 0
    → s ≤ max_seq
    → Between s xs
    → d < 2 ^ 31
    → full_time d len' < 2 ^ 31
    → let between = probe_all psize (probe_arrival psize w t s len false) xs in
      let after = probe_arrival psize between (t +ℤ pos d) (incseq s) len' false in
      (after.probe_window ≡ update w.probe_window w.probe_window_ptr (pos (full_time d len')))
      × (after.probe_window_ptr ≡ next_ptr psize w.probe_window_ptr)
      × (after.probe1_sequence ≡ none)
      × (between.probe_window ≡ w.probe_window)
probe_arrival-pair psize s len len' d w t xs h m b d_lt fits =
    let measure = probe_arrival-measure psize s len len' w t (t +ℤ pos d) xs h m b in
    let value =
      ap (λ z. probe_case z len') (later_by t d) ∙ probe_case-full_time d len' d_lt fits in
    (
      measure.0 ∙ ap (update w.probe_window w.probe_window_ptr) value,
      measure.1,
      measure.2,
      measure.3,
    )
