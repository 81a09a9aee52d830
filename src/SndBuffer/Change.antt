-- ===== src/SndBuffer/Change.antt =====
-- A packet that `CSndBuffer` holds is changed in its block.
use srtplay.Base.{
  ℕ, suc, ◌+◌, ◌-◌, ◌<◌, ◌≤◌, ◌≡◌, ◌≢◌, sym, ap, ap₂, ◌∙◌, arith, update, update_self, update_ne,
  ℕ_discrete, List, [], ◌∷◌, ◌++◌, length, length-append, take, drop,
}
use srtplay.Base.Slices.{take-length, drop-length}
use srtplay.SndBuffer.{Block, SndBuffer, next_of}
use srtplay.SndBuffer.Holds.{
  Holds, packet, listing, listing-cong, listing-append, listing-take, listing-drop, length-listing,
  total_bytes-append,
}

head_or : Block → List Block → Block
head_or d [] = d
head_or d (s ∷ q) = s

-- The packet `s` stands behind `front`, and `rest` behind it.
module _ (b : SndBuffer) (front rest : List Block) (s : Block) (sent : ℕ)
    (h : Holds b (front ++ s ∷ rest) sent) where
  abbrev pos : ℕ
  pos = length front

  pub count_eq : b.count ≡ pos + suc (length rest)
  count_eq =
      sym (length-listing b.blocks h.at 0 b.count)
      ∙ ap (length {A = Block}) h.queue_eq
      ∙ length-append front (s ∷ rest)

  pos_le : pos ≤ b.count
  pos_le = omega (arith, count_eq)

  front_eq : listing b.blocks h.at 0 pos ≡ front
  front_eq =
      sym (listing-take b.blocks h.at pos 0 b.count pos_le)
      ∙ ap (take pos) h.queue_eq
      ∙ take-length front (s ∷ rest)

  rest_eq : listing b.blocks h.at pos (suc (length rest)) ≡ s ∷ rest
  rest_eq =
      ap₂ (listing b.blocks h.at) {x = pos} {y = 0 + pos} {u = suc (length rest)}
        {v = b.count - pos} (omega arith) (omega (arith, count_eq))
      ∙ sym (listing-drop b.blocks h.at pos 0 b.count pos_le)
      ∙ ap (drop pos) h.queue_eq
      ∙ drop-length front (s ∷ rest)

  pub here_eq : packet (b.blocks (h.at pos)) ≡ s
  unfolding head_or
  here_eq = ap (head_or s) rest_eq

  behind_eq : listing b.blocks h.at (pos + 1) (length rest) ≡ rest
  behind_eq = ap (drop 1) rest_eq

  -- The block of `s` gets the packet `t`, of the same length.
  module _ (x t : Block) (x_eq : packet x ≡ t) (next_eq : x.next ≡ next_of b (h.at pos))
      (length_eq : length t.payload ≡ length s.payload) where
    abbrev nodes : ℕ → Block
    nodes = update b.blocks (h.at pos) x

    nodes_next : (i : ℕ) → (nodes i).next ≡ next_of b i
    nodes_next i = elim (ℕ_discrete i (h.at pos)) [
      | yes e ↦
          ap (λ k. (nodes k).next) e
          ∙ ap (λ (n : Block). n.next) (update_self b.blocks (h.at pos) x)
          ∙ next_eq
          ∙ ap (next_of b) (sym e)
      | no ne ↦ ap (λ (n : Block). n.next) (update_ne b.blocks (h.at pos) i x ne)
    ]

    other : (j : ℕ) → j < b.count → j ≢ pos → nodes (h.at j) ≡ b.blocks (h.at j)
    other j lt ne =
        let count = count_eq in
        let room = h.room in
        let apart : h.at j ≢ h.at pos =
          ground (arith, h.ring.apart j pos, h.ring.apart pos j, lt, ne, room, count) in
        update_ne b.blocks (h.at pos) (h.at j) x apart

    nodes_queue : listing nodes h.at 0 b.count ≡ front ++ t ∷ rest
    nodes_queue =
        let count = count_eq in
        let behind =
          listing-cong nodes b.blocks h.at h.at (pos + 1) (pos + 1) (length rest)
            (λ j lt. ap packet (other (pos + 1 + j) (omega (arith, lt, count)) (omega arith)))
          ∙ behind_eq in
        let before =
          listing-cong nodes b.blocks h.at h.at 0 0 pos
            (λ j lt. ap packet (other (0 + j) (omega (arith, lt, count)) (omega (arith, lt))))
          ∙ front_eq in
        let here : packet (nodes (h.at pos)) ≡ t =
          ap packet (update_self b.blocks (h.at pos) x) ∙ x_eq in
        ap (listing nodes h.at 0) count
        ∙ listing-append nodes h.at 0 pos (suc (length rest))
        ∙ ap₂ ◌++◌ before (
            ap (λ k. listing nodes h.at k (suc (length rest))) {x = 0 + pos} {y = pos} (omega arith)
            ∙ ap₂ ◌∷◌ here behind)

    pub changed-Holds : Holds (record b { blocks = nodes }) (front ++ t ∷ rest) sent
    changed-Holds = record {
      at = h.at;
      ring = record {
        linked = λ j lt. nodes_next (h.at j) ∙ h.ring.linked j lt;
        closed = h.ring.closed;
        apart = h.ring.apart;
      };
      below = h.below;
      first_eq = h.first_eq;
      curr_eq = h.curr_eq;
      last_eq = h.last_eq;
      sent_le = h.sent_le;
      room = h.room;
      unit_pos = h.unit_pos;
      queue_eq = nodes_queue;
      bytes_eq =
          let old = total_bytes-append front (s ∷ rest) in
          let new = total_bytes-append front (t ∷ rest) in
          let all = h.bytes_eq in omega (arith, old, new, length_eq, all);
    }
