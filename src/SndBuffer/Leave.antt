-- ===== src/SndBuffer/Leave.antt =====
-- `ackData` and `dropLateData` take packets from the front of those that the buffer holds.
use srtplay.Base.{
  ℕ, zero, suc, ◌+◌, ◌-◌, ◌<◌, ◌≤◌, ◌≡◌, refl, sym, ap, ap₂, ◌∙◌, arith, ltb, leb, ◌==◌, ◌&&◌, ◌||◌,
  if◌then◌else◌, Bool, true, false, some, List, length, drop, ◌>>=◌, bind_some, ℕ_discrete,
  Bool-cases, inl, inr, dec_lt,
}
use srtplay.SndBuffer.{Block, SndBuffer, next_of, less}
use srtplay.SndBuffer.Ring.{Ring, shifted, shifted-Ring}
use srtplay.SndBuffer.Holds.{
  Holds, packet, listing, listing-cong, listing-append, listing-drop, total_bytes,
  total_bytes-append,
}
use srtplay.SndBuffer.Release.{step_first, release, moved_curr, ack_data}

-- The ring from `n` blocks further on.
pub record Turned (size n made : ℕ) (next at : ℕ → ℕ) : Type 0 where
  pub turned : ℕ → ℕ
  pub ring : Ring size next turned
  pub below : (j : ℕ) → turned j < made
  pub same : (j : ℕ) → j + n ≤ size → turned j ≡ at (j + n)

Turned-by :
    (n size made : ℕ) (next at : ℕ → ℕ)
    → 0 < size
    → Ring size next at
    → ((j : ℕ) → at j < made)
    → Turned size n made next at
Turned-by zero size made next at pos r below = record {
  turned = at;
  ring = r;
  below = below;
  same = λ j le. ap at {x = j} {y = j + 0} (omega arith);
}
Turned-by (suc n) size made next at pos r below =
    let t = Turned-by n size made next at pos r below in
    record {
      turned = shifted size t.turned;
      ring = shifted-Ring size next t.turned pos t.ring;
      below = λ j. ground (arith, t.below (j + 1), t.below 1);
      same = λ j le.
          let here : shifted size t.turned j ≡ t.turned (j + 1) = ground (arith, le) in
          here
          ∙ t.same (j + 1) (omega (arith, le))
          ∙ ap at {x = j + 1 + n} {y = j + suc n} (omega arith);
    }

module _ (b : SndBuffer) (q : List Block) (sent : ℕ) (h : Holds b q sent) where
  -- The first block is the current one.
  first-curr : (i : ℕ) → i ≤ b.count → (h.at i == b.curr_block) ≡ (i == sent)
  first-curr i le =
      let curr = h.curr_eq in
      let room = h.room in
      let sent_le = h.sent_le in
      ground (
        arith,
        curr,
        room,
        sent_le,
        le,
        h.ring.apart i sent,
        h.ring.apart sent i,
        ap h.at {x = i} {y = sent},
      )

  -- The first `n` packets have left.
  abbrev pub left : ℕ → ℕ → SndBuffer
  left n bytes = record b {
    first_block = h.at n;
    curr_block = if ltb sent n then h.at n else b.curr_block;
    count = b.count - n;
    bytes_count = bytes;
  }

  pub left-Holds :
      (n bytes : ℕ)
      → n ≤ b.count
      → bytes ≡ total_bytes (drop n q)
      → Holds (left n bytes) (drop n q) (sent - n)
  left-Holds n bytes le eq =
      let room = h.room in
      let sent_le = h.sent_le in
      let t = Turned-by n b.size b.made (next_of b) h.at (omega (arith, room)) h.ring h.below in
      let at_eq = λ (j : ℕ) (j_le : j + n ≤ b.count). t.same j (omega (arith, j_le, room)) in
      record {
        at = t.turned;
        ring = t.ring;
        below = t.below;
        first_eq = ap h.at {x = n} {y = 0 + n} (omega arith) ∙ sym (at_eq 0 (omega (arith, le)));
        curr_eq = elim (dec_lt sent n) [
          | yes p ↦
              let none_sent : (if ltb sent n then h.at n else b.curr_block) ≡ h.at (0 + n) =
                ground (arith, p, ap h.at {x = n} {y = 0 + n}) in
              none_sent
              ∙ sym (at_eq 0 (omega (arith, le)))
              ∙ ap t.turned {x = 0} {y = sent - n} (omega (arith, p))
          | no p ↦
              let some_sent : (if ltb sent n then h.at n else b.curr_block) ≡ h.at sent =
                ground (arith, p, h.curr_eq) in
              some_sent
              ∙ ap h.at {x = sent} {y = sent - n + n} (omega (arith, p))
              ∙ sym (at_eq (sent - n) (omega (arith, p, sent_le)))
        ];
        last_eq =
            h.last_eq
            ∙ ap h.at {x = b.count} {y = b.count - n + n} (omega (arith, le))
            ∙ sym (at_eq (b.count - n) (omega (arith, le)));
        sent_le = omega (arith, sent_le);
        room = omega (arith, room);
        unit_pos = h.unit_pos;
        queue_eq =
            listing-cong b.blocks b.blocks t.turned h.at 0 (0 + n) (b.count - n) (λ j lt.
              ap (λ k. packet (b.blocks k))
                (at_eq (0 + j) (omega (arith, lt))
                  ∙ ap h.at {x = 0 + j + n} {y = 0 + n + j} (omega arith)))
            ∙ sym (listing-drop b.blocks h.at n 0 b.count le)
            ∙ ap (drop n) h.queue_eq;
        bytes_eq = eq;
      }

  -- The payload bytes of the first `n` packets from the place `i` on.
  abbrev pub front : ℕ → ℕ → ℕ
  front i n = total_bytes (listing b.blocks h.at i n)

  abbrev pub from : ℕ → ℕ → SndBuffer
  from i bytes = record b { first_block = h.at i; bytes_count = bytes }

  -- The current block is one of the `n` from the place `i` on.
  abbrev pub passed : Bool → ℕ → ℕ → Bool
  passed move i n = move || (leb i sent && ltb sent (i + n))

  abbrev pub passed_one : Bool → ℕ → Bool
  passed_one move i = if h.at i == b.curr_block then true else move

  pub passed-suc :
      (move : Bool) (i n : ℕ)
      → i ≤ b.count
      → passed (passed_one move i) (i + 1) n ≡ passed move i (suc n)
  passed-suc move i n le = elim (ℕ_discrete i sent) [
    | yes e ↦
        let here : (h.at i == b.curr_block) ≡ true = ground (arith, first-curr i le, e) in
        rw here (ground (arith, Bool-cases move, e))
    | no ne ↦
        let other : (h.at i == b.curr_block) ≡ false = ground (arith, first-curr i le, ne) in
        rw other (ground (arith, Bool-cases move, ne))
  ]

  front-suc :
      (i n bytes : ℕ)
      → less (front i (suc n) + bytes) (length (b.blocks (h.at i)).payload)
        ≡ some (front (i + 1) n + bytes)
  front-suc i n bytes =
      let here = length (b.blocks (h.at i)).payload in
      let rest = total_bytes (listing b.blocks h.at (i + 1) n) in
      let enough : leb here (here + rest + bytes) ≡ true = ground arith in
      rw enough (ap some {x = here + rest + bytes - here} {y = rest + bytes} (omega arith))

  -- The loop of `ackData`, from the place `i` on.
  release-front :
      (n i bytes : ℕ) (move : Bool)
      → i + n ≤ b.count
      → release n (from i (front i n + bytes)) move ≡ some (passed move i n, from (i + n) bytes)
  unfolding release step_first
  release-front zero i bytes move le =
      let flag : move ≡ passed move i 0 = ground (arith, Bool-cases move) in
      let count : front i 0 + bytes ≡ bytes = omega arith in
      ap₂ (λ m x. some (m, x)) flag
        (ap₂ (λ s k. record b { first_block = s; bytes_count = k })
          (ap h.at {x = i} {y = i + 0} (omega arith)) count)
  release-front (suc n) i bytes move le =
      let room = h.room in
      let i_le : i ≤ b.count = omega (arith, le) in
      bind_some (less (front i (suc n) + bytes) (length (b.blocks (h.at i)).payload))
        (front (i + 1) n + bytes)
        (λ k.
          release n (record b { first_block = next_of b (h.at i); bytes_count = k })
            (passed_one move i))
        (front-suc i n bytes)
      ∙ ap
          (λ s.
            release n (record b { first_block = s; bytes_count = front (i + 1) n + bytes })
              (passed_one move i))
          (h.ring.linked i (omega (arith, le, room)))
      ∙ release-front n (i + 1) bytes (passed_one move i) (omega (arith, le))
      ∙ ap₂ (λ m x. some (m, x)) (passed-suc move i n i_le)
          (ap (λ k. from k bytes) {x = i + 1 + n} {y = i + suc n} (omega arith))

  pub total-front : (n : ℕ) → n ≤ b.count → front 0 n + total_bytes (drop n q) ≡ total_bytes q
  total-front n le =
      let split =
        ap (listing b.blocks h.at 0) {x = b.count} {y = n + (b.count - n)} (omega (arith, le))
        ∙ listing-append b.blocks h.at 0 n (b.count - n) in
      let rest = sym (listing-drop b.blocks h.at n 0 b.count le) ∙ ap (drop n) h.queue_eq in
      let all = ap total_bytes (sym h.queue_eq ∙ split) in
      let parts =
        total_bytes-append (listing b.blocks h.at 0 n)
          (listing b.blocks h.at (0 + n) (b.count - n)) in
      let last = ap total_bytes rest in omega (arith, all, parts, last)

  from-start : (n : ℕ) → n ≤ b.count → b ≡ from 0 (front 0 n + total_bytes (drop n q))
  from-start n le =
      ap₂ (λ s k. record b { first_block = s; bytes_count = k }) h.first_eq
        (h.bytes_eq ∙ sym (total-front n le))

  pub moved-left :
      (n bytes : ℕ)
      → record (moved_curr (ltb sent n) (from n bytes)) { count = b.count - n } ≡ left n bytes
  moved-left n bytes = elim (Bool-cases (ltb sent n)) [ inl e ↦ rw e refl | inr e ↦ rw e refl ]

  -- `ackData` of no more packets than the buffer holds takes just so many from the front, and what was read of them.
  pub ack_data-Holds :
      (offset : ℕ)
      → offset ≤ b.count
      → (b' : SndBuffer) × (ack_data b offset ≡ some b') × Holds b' (drop offset q) (sent - offset)
  unfolding ack_data
  ack_data-Holds offset le =
      let rest = total_bytes (drop offset q) in
      let flag : passed false 0 offset ≡ ltb sent offset = ground arith in
      let run : release offset b false ≡ some (ltb sent offset, from offset rest) =
        ap (λ x. release offset x false) (from-start offset le)
        ∙ release-front offset 0 rest false (omega (arith, le))
        ∙ ap₂ (λ m x. some (m, x)) flag
            (ap (λ k. from k rest) {x = 0 + offset} {y = offset} (omega arith)) in
      let enough : less b.count offset ≡ some (b.count - offset) =
        (let big : leb offset b.count ≡ true = ground (arith, le) in rw big refl) in
      (
        left offset rest,
        bind_some (release offset b false) (ltb sent offset, from offset rest)
              (λ r. less b.count offset >>= λ count.
                some (record (moved_curr r.0 r.1) { count = count }))
              run
            ∙ bind_some (less b.count offset) (b.count - offset)
                (λ count.
                  some (record (moved_curr (ltb sent offset) (from offset rest)) { count = count }))
                enough
            ∙ ap some (moved-left offset rest),
        left-Holds offset rest le refl,
      )
