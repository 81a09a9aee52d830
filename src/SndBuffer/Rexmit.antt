-- ===== src/SndBuffer/Rexmit.antt =====
-- `readData` of a packet at an offset, for retransmission.
use srtplay.Base.{
  ℕ, zero, suc, ◌+◌, ◌<◌, ◌≤◌, ◌≡◌, refl, sym, ap, ◌∙◌, arith, ◌==◌, true, false, some, List, ◌∷◌,
  ◌++◌, length, dec_lt,
}
use srtplay.SndBuffer.{Block, SndBuffer, next_of}
use srtplay.SndBuffer.Holds.{Holds, length-listing}
use srtplay.SndBuffer.Sent.{over, expired-over}
use srtplay.SndBuffer.Change.{count_eq, here_eq, changed-Holds}
use srtplay.SndBuffer.Read.{
  Reading, too_large, found, expired, rexmit_reading, walk_used, note_rexmit, read_rexmit,
}

walk_used-on :
    (n : ℕ) (b : SndBuffer) (s : ℕ)
    → (s == b.last_block) ≡ false
    → walk_used (suc n) b s ≡ walk_used n b (next_of b s)
unfolding walk_used
walk_used-on n b s e = rw (e, walk_used) refl

walk_used-end :
    (n : ℕ) (b : SndBuffer) (s : ℕ) → (s == b.last_block) ≡ true → walk_used (suc n) b s ≡ s
unfolding walk_used
walk_used-end n b s e = rw (e, walk_used) refl

-- The walk from the place `i` stops at the end of what the buffer holds.
module _ (b : SndBuffer) (q : List Block) (sent : ℕ) (h : Holds b q sent) where
  inside : (i : ℕ) → i < b.count → (h.at i == b.last_block) ≡ false
  inside i lt = let room = h.room in ground (arith, h.last_eq, h.ring.apart i b.count, lt, room)

  used : (n i : ℕ) → i + n ≤ b.count → walk_used n b (h.at i) ≡ h.at (i + n)
  unfolding walk_used
  used zero i le = ap h.at (omega arith)
  used (suc n) i le =
      let room = h.room in
      walk_used-on n b (h.at i) (inside i (omega (arith, le)))
      ∙ ap (walk_used n b) (h.ring.linked i (omega (arith, le, room)))
      ∙ used n (i + 1) (omega (arith, le))
      ∙ ap h.at {x = i + 1 + n} {y = i + suc n} (omega arith)

  past : (n i : ℕ) → i ≤ b.count → b.count ≤ i + n → walk_used n b (h.at i) ≡ b.last_block
  unfolding walk_used
  past zero i le ge = ap h.at {x = i} {y = b.count} (omega (arith, le, ge)) ∙ sym h.last_eq
  past (suc n) i le ge = elim (dec_lt i b.count) [
    | yes lt ↦
        let room = h.room in
        walk_used-on n b (h.at i) (inside i lt)
        ∙ ap (walk_used n b) (h.ring.linked i (omega (arith, lt, room)))
        ∙ past n (i + 1) (omega (arith, lt)) (omega (arith, ge))
    | no nlt ↦
        let e : h.at i ≡ b.last_block =
          ap h.at {x = i} {y = b.count} (omega (arith, le, nlt)) ∙ sym h.last_eq in
        walk_used-end n b (h.at i) (ground (arith, e)) ∙ e
  ]

-- An offset behind the packets is refused, and nothing changes.
read_rexmit-too_large :
    (b : SndBuffer) (q : List Block) (sent offset : ℕ) (p : Reading) (now : ℕ)
    → Holds b q sent
    → length q ≤ offset
    → read_rexmit b offset p now ≡ some (too_large, b)
unfolding read_rexmit
read_rexmit-too_large b q sent offset p now h ge =
    let count = sym (length-listing b.blocks h.at 0 b.count) ∙ ap (length {A = Block}) h.queue_eq in
    let stop : walk_used offset b b.first_block ≡ b.last_block =
      ap (walk_used offset b) h.first_eq
      ∙ past b q sent h offset 0 (omega arith) (omega (arith, count, ge)) in
    let done : (walk_used offset b b.first_block == b.last_block) ≡ true = ground (arith, stop) in
    rw (done, read_rexmit) refl

-- `readData` at the offset of a packet that the buffer holds, and whose time to live is not over, writes the data, the
-- message number field and the origin time of just that packet into the packet of the caller, whose sequence number
-- stays: the time of retransmission of the packet is now, and all else in the buffer stays.
pub read_rexmit-found :
    (b : SndBuffer) (front rest : List Block) (s : Block) (sent : ℕ) (p : Reading) (now : ℕ)
    → Holds b (front ++ s ∷ rest) sent
    → over now s ≡ false
    → (b' : SndBuffer) × (read_rexmit b (length front) p now
        ≡ some (
          found (record {
            payload = s.payload;
            seq_no = p.seq_no;
            msgno = s.msgno_bitset;
            srctime = s.origin_time;
          }),
          b',
        ))
      × Holds b' (front ++ record s { rexmit_time = now } ∷ rest) sent
unfolding read_rexmit note_rexmit rexmit_reading expired
read_rexmit-found b front rest s sent p now h fresh =
    let pos = length front in
    let q = front ++ s ∷ rest in
    let count = count_eq b front rest s sent h in
    let here = here_eq b front rest s sent h in
    let stop : walk_used pos b b.first_block ≡ h.at pos =
      ap (walk_used pos b) h.first_eq
      ∙ used b q sent h pos 0 (omega (arith, count))
      ∙ ap h.at {x = 0 + pos} {y = pos} (omega arith) in
    let on : (h.at pos == b.last_block) ≡ false = inside b q sent h pos (omega (arith, count)) in
    let young : expired now (b.blocks (h.at pos)) ≡ false =
      ap (expired now) here ∙ expired-over now s ∙ fresh in
    (
      note_rexmit b (h.at pos) now,
      rw (stop, on, young, read_rexmit)
          (ap (λ r. some (found r, note_rexmit b (h.at pos) now)) (ap (rexmit_reading p) here)),
      changed-Holds b front rest s sent h (record (b.blocks (h.at pos)) { rexmit_time = now })
          (record s { rexmit_time = now }) (ap (λ (n : Block). record n { rexmit_time = now }) here)
          refl refl,
    )
