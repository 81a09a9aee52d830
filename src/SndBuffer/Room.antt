-- ===== src/SndBuffer/Room.antt =====
-- The ring grows until there is room.
use srtplay.Base.{
  ℕ, zero, suc, ◌+◌, ◌<◌, ◌≡◌, refl, sym, ap, ◌∙◌, arith, ltb, leb, ◌==◌, ◌&&◌, if◌then◌else◌, some,
  List, Bool-cases, inl, inr,
}
use srtplay.SndBuffer.{Block, SndBuffer, next_of, spliced, increase, make_room}
use srtplay.SndBuffer.Ring.{inserted, inserted-Ring, inserted-lt}
use srtplay.SndBuffer.Holds.{Holds, packet, listing-cong}

-- Only the blocks differ.
abbrev pub Grown : SndBuffer → SndBuffer → Type 0
Grown b b' = b' ≡ record b { blocks = b'.blocks; made = b'.made; size = b'.size }

module _ (b : SndBuffer) (q : List Block) (sent : ℕ) (h : Holds b q sent) where
  next-spliced :
      (i : ℕ)
      → (spliced b i).next ≡ (
          if i == h.at b.count
          then b.made
          else if leb b.made i && ltb i (b.made + b.unit_size)
          then (if i + 1 == b.made + b.unit_size then next_of b (h.at b.count) else i + 1)
          else next_of b i)
  unfolding spliced
  next-spliced i = rw (sym h.last_eq) (ground arith)

  packet-spliced : (i : ℕ) → i < b.made → packet (spliced b i) ≡ packet (b.blocks i)
  unfolding spliced
  packet-spliced i lt = elim (Bool-cases (i == b.last_block)) [
    | inl e ↦ rw e refl
    | inr e ↦ elim (Bool-cases (leb b.made i && ltb i (b.made + b.unit_size))) [
      | inl f ↦ absurd (ground (arith, f, lt))
      | inr f ↦ rw (e, f) refl
    ]
  ]

  grown_at : ℕ → ℕ
  grown_at = inserted h.at b.count b.made b.unit_size

  increase-Holds : Holds (increase b) q sent
  unfolding increase grown_at
  increase-Holds = record {
    at = grown_at;
    ring =
        inserted-Ring b.size b.count b.made b.unit_size (next_of b) (λ i. (spliced b i).next) h.at
          h.room h.unit_pos h.ring h.below next-spliced;
    below =
        inserted-lt b.size b.count b.made b.unit_size (next_of b) (λ i. (spliced b i).next) h.at
          h.room h.unit_pos h.ring h.below next-spliced;
    first_eq = ground (arith, h.first_eq);
    curr_eq = ground (arith, h.curr_eq, h.sent_le);
    last_eq = ground (arith, h.last_eq);
    sent_le = h.sent_le;
    room = (let room = h.room in omega (arith, room));
    unit_pos = h.unit_pos;
    queue_eq =
        listing-cong (spliced b) b.blocks grown_at h.at 0 0 b.count (λ j lt.
          let same : grown_at (0 + j) ≡ h.at (0 + j) = ground (arith, lt) in
          ap (λ i. packet (spliced b i)) same ∙ packet-spliced (h.at (0 + j)) (h.below (0 + j)))
        ∙ h.queue_eq;
    bytes_eq = h.bytes_eq;
  }

-- There is room for `more` packets, and one block is free.
pub make_room-Holds :
    (rounds : ℕ) (b : SndBuffer) (q : List Block) (sent more : ℕ)
    → Holds b q sent
    → 0 < rounds
    → more + b.count + 1 < b.size + rounds
    → (b' : SndBuffer) × (make_room rounds b more ≡ some b')
      × Holds b' q sent
      × Grown b b'
      × (more + b'.count < b'.size)
unfolding make_room increase
make_room-Holds zero b q sent more h pos lt = absurd (omega (arith, pos))
make_room-Holds (suc rounds) b q sent more h pos lt =
    elim (Bool-cases (leb b.size (more + b.count))) [
      | inl e ↦
          let unit = h.unit_pos in
          let (b', run, h', grown, room) =
            make_room-Holds rounds (increase b) q sent more (increase-Holds b q sent h)
              (ground (arith, e, lt)) (omega (arith, lt, unit)) in
          (b', rw (e, make_room) run, h', grown, room)
      | inr e ↦ (b, rw (e, make_room) refl, h, refl, ground (arith, e))
    ]
