-- ===== src/SndBuffer/Late.antt =====
-- `dropLateData` takes the packets that are too late from the front.
use srtplay.Base.{
  ℕ, zero, suc, ◌+◌, ◌-◌, ◌≤◌, ◌≡◌, refl, sym, ap, ap₂, ◌∙◌, arith, ltb, leb, if◌then◌else◌, true,
  Option, some, List, [], ◌∷◌, length, take, drop, ◌>>=◌, bind_some, Bool-cases, inl, inr,
}
use srtplay.SndBuffer.{Block, SndBuffer, less, msg_seq, next_msgno}
use srtplay.SndBuffer.Holds.{Holds, listing, listing-take, length-listing, total_bytes}
use srtplay.SndBuffer.Release.{step_first, moved_curr, Dropping, drop_loop, no_drop, drop_late_data}
use srtplay.SndBuffer.Leave.{
  left, left-Holds, front, from, passed, passed_one, passed-suc, moved-left, total-front,
}

-- How many packets at the front are from before the time.
abbrev pub late : ℕ → List Block → ℕ
late time [] = 0
late time (s ∷ q) = if ltb s.origin_time time then suc (late time q) else 0

-- The message number of the last packet, `msgno` if there is none.
abbrev pub last_msgno : ℕ → List Block → ℕ
last_msgno msgno [] = msgno
last_msgno msgno (s ∷ q) = last_msgno (msg_seq s) q

late-le : (time : ℕ) (q : List Block) → late time q ≤ length q
late-le time [] = omega arith
late-le time (s ∷ q) = ground (arith, late-le time q)

module _ (b : SndBuffer) (q : List Block) (sent : ℕ) (h : Holds b q sent) (time : ℕ) where
  -- The places from `i` on.
  abbrev rest_of : ℕ → ℕ → List Block
  rest_of i n = listing b.blocks h.at i n

  abbrev dropped : Dropping → ℕ → ℕ → Dropping
  dropped d i k = record {
    pkts = d.pkts + k;
    bytes = d.bytes + front b q sent h i k;
    msgno = last_msgno d.msgno (rest_of i k);
    move = passed b q sent h d.move i k;
  }

  Dropping-eq :
      {d d' : Dropping}
      → d.pkts ≡ d'.pkts
      → d.bytes ≡ d'.bytes
      → d.msgno ≡ d'.msgno
      → d.move ≡ d'.move
      → d ≡ d'
  Dropping-eq a b c e = λ i. record { pkts = a i; bytes = b i; msgno = c i; move = e i }

  none-dropped :
      (d : Dropping) (i : ℕ)
      → ◌≡◌ {A = Dropping × SndBuffer}
          (d, from b q sent h i b.bytes_count)
          (dropped d i 0, from b q sent h (i + 0) b.bytes_count)
  none-dropped d i =
      ap₂ (λ x k. (x, from b q sent h k b.bytes_count)) {u = i} {v = i + 0}
        (Dropping-eq {d = d} {d' = dropped d i 0} (omega arith) (omega arith) refl
          (ground (arith, Bool-cases d.move)))
        (omega arith)

  abbrev dropped_one : Dropping → ℕ → Dropping
  dropped_one d i = record {
    pkts = d.pkts + 1;
    bytes = d.bytes + length (b.blocks (h.at i)).payload;
    msgno = msg_seq (b.blocks (h.at i));
    move = passed_one b q sent h d.move i;
  }

  dropped-suc :
      (d : Dropping) (i k : ℕ)
      → i ≤ b.count
      → dropped (dropped_one d i) (i + 1) k ≡ dropped d i (suc k)
  dropped-suc d i k le =
      Dropping-eq {d = dropped (dropped_one d i) (i + 1) k} {d' = dropped d i (suc k)} (omega arith)
        (omega arith) refl (passed-suc b q sent h d.move i k le)

  drop_loop-late :
      (n i : ℕ) (d : Dropping)
      → i + n ≤ b.count
      → drop_loop n (from b q sent h i b.bytes_count) time d ≡ (
        dropped d i (late time (rest_of i n)),
        from b q sent h (i + late time (rest_of i n)) b.bytes_count,
      )
  unfolding drop_loop step_first
  drop_loop-late zero i d le = none-dropped d i
  drop_loop-late (suc n) i d le =
      let s = b.blocks (h.at i) in
      let room = h.room in
      let k = late time (rest_of (i + 1) n) in
      elim (Bool-cases (ltb s.origin_time time)) [
        | inl e ↦
            let run =
              ap (λ x. drop_loop n (record b { first_block = x }) time (dropped_one d i))
                (h.ring.linked i (omega (arith, le, room)))
              ∙ drop_loop-late n (i + 1) (dropped_one d i) (omega (arith, le))
              ∙ ap₂ (λ x p. (x, from b q sent h p b.bytes_count)) {u = i + 1 + k} {v = i + suc k}
                  (dropped-suc d i k (omega (arith, le))) (omega arith) in
            rw (e, drop_loop) run
        | inr e ↦ rw (e, drop_loop) (none-dropped d i)
      ]

  -- What follows the loop.
  abbrev finish : Dropping × SndBuffer → Option ((ℕ × ℕ × ℕ) × SndBuffer)
  finish r = less b.count r.0.pkts >>= λ count. less b.bytes_count r.0.bytes >>= λ bytes. some (
    (r.0.pkts, r.0.bytes, next_msgno r.0.msgno),
    record (moved_curr r.0.move r.1) { count = count; bytes_count = bytes },
  )

  -- `dropLateData` takes just the packets at the front that are from before the time, up to the first that is not,
  -- and answers with their number, their bytes, and the message number behind that of the last of them.
  pub drop_late_data-Holds :
      (b' : SndBuffer) × (drop_late_data b time
        ≡ some (
          (
            late time q,
            total_bytes (take (late time q) q),
            next_msgno (last_msgno 0 (take (late time q) q)),
          ),
          b',
        ))
      × Holds b' (drop (late time q) q) (sent - late time q)
  unfolding drop_late_data
  drop_late_data-Holds =
      let k = late time q in
      let le : k ≤ b.count =
        let most = late-le time q in
        let len =
          ap (length {A = Block}) (sym h.queue_eq) ∙ length-listing b.blocks h.at 0 b.count in
        omega (arith, most, len) in
      let gone = total_bytes (take k q) in
      let drops : Dropping = record {
        pkts = k;
        bytes = gone;
        msgno = last_msgno 0 (take k q);
        move = ltb sent k;
      } in
      let front_eq : rest_of 0 k ≡ take k q =
        sym (listing-take b.blocks h.at k 0 b.count le) ∙ ap (take k) h.queue_eq in
      let bytes_eq = ap total_bytes front_eq in
      let drops_eq : dropped no_drop 0 k ≡ drops =
        Dropping-eq {d = dropped no_drop 0 k} {d' = drops} (omega arith) (omega (arith, bytes_eq))
          (ap (last_msgno 0) front_eq) (ground arith) in
      let late_eq = ap (late time) h.queue_eq in
      let run : drop_loop b.count b time no_drop ≡ (drops, from b q sent h k b.bytes_count) =
        ap (λ s. drop_loop b.count (record b { first_block = s }) time no_drop) h.first_eq
        ∙ drop_loop-late b.count 0 no_drop (omega arith)
        ∙ ap (λ n. (dropped no_drop 0 n, from b q sent h (0 + n) b.bytes_count)) late_eq
        ∙ ap₂ (λ d n. (d, from b q sent h n b.bytes_count)) {u = 0 + k} {v = k} drops_eq
            (omega arith) in
      let whole = total-front b q sent h k le in
      let held = h.bytes_eq in
      let left_bytes : b.bytes_count - gone ≡ total_bytes (drop k q) =
        omega (arith, whole, held, bytes_eq) in
      let pkts_left : less b.count k ≡ some (b.count - k) =
        (let big : leb k b.count ≡ true = ground (arith, le) in rw big refl) in
      let bytes_left : less b.bytes_count gone ≡ some (b.bytes_count - gone) =
        (let big : leb gone b.bytes_count ≡ true = ground (arith, whole, held, bytes_eq) in
          rw big refl) in
      let answer : ℕ × ℕ × ℕ = (k, gone, next_msgno (last_msgno 0 (take k q))) in
      let end = λ (count bytes : ℕ).
        record (moved_curr (ltb sent k) (from b q sent h k b.bytes_count)) {
          count = count;
          bytes_count = bytes;
        } in
      (
        left b q sent h k (total_bytes (drop k q)),
        ap finish run
            ∙ bind_some (less b.count k) (b.count - k)
                (λ count. less b.bytes_count gone >>= λ bytes. some (answer, end count bytes))
                pkts_left
            ∙ bind_some (less b.bytes_count gone) (b.bytes_count - gone)
                (λ bytes. some (answer, end (b.count - k) bytes)) bytes_left
            ∙ ap (λ n. some (answer, end (b.count - k) n)) left_bytes
            ∙ ap
                (λ (x : SndBuffer).
                  some (answer, record x { bytes_count = total_bytes (drop k q) }))
                (moved-left b q sent h k b.bytes_count),
        left-Holds b q sent h k (total_bytes (drop k q)) le refl,
      )
