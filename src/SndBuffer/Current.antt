-- ===== src/SndBuffer/Current.antt =====
-- The current block of `CSndBuffer`, which `readData` reads.
use srtplay.Base.{
  ℕ, ◌+◌, ◌≡◌, refl, sym, ap, subst, ◌∙◌, arith, ◌==◌, false, Option, none, some, update,
  update_self, List, ◌∷◌, ◌++◌, length,
}
use srtplay.SndBuffer.{Block, SndBuffer, next_of}
use srtplay.SndBuffer.Holds.{Holds, packet}
use srtplay.SndBuffer.Change.{count_eq, here_eq, changed-Holds}
use srtplay.SndBuffer.Read.{with_key, read_length, step_curr}

pub with_key-packet :
    (kflgs : Option ℕ) (s : Block) → with_key kflgs (packet s) ≡ packet (with_key kflgs s)
with_key-packet none s = refl
with_key-packet (some k) s = refl

pub with_key-next : (kflgs : Option ℕ) (s : Block) → (with_key kflgs s).next ≡ s.next
with_key-next none s = refl
with_key-next (some k) s = refl

pub with_key-payload : (kflgs : Option ℕ) (s : Block) → (with_key kflgs s).payload ≡ s.payload
with_key-payload none s = refl
with_key-payload (some k) s = refl

pub read_length-packet :
    (kflgs : Option ℕ) (s : Block) → read_length kflgs (packet s) ≡ read_length kflgs s
read_length-packet none s = refl
read_length-packet (some k) s = refl

-- The buffer holds `front` before the current packet `s`, and `rest` behind it.
module _ (b : SndBuffer) (front rest : List Block) (s : Block)
    (h : Holds b (front ++ s ∷ rest) (length front)) where
  abbrev sent : ℕ
  sent = length front

  pub curr-ne-last : (b.curr_block == b.last_block) ≡ false
  curr-ne-last =
      let count = count_eq b front rest s sent h in
      ground (arith, h.curr_eq, h.last_eq, h.ring.apart sent b.count, h.room, count)

  module _ (kflgs : Option ℕ) where
    -- The packet as it is read.
    abbrev keyed : Block
    keyed = with_key kflgs (b.blocks b.curr_block)

    pub keyed_eq : packet keyed ≡ with_key kflgs s
    keyed_eq =
        sym (with_key-packet kflgs (b.blocks b.curr_block))
        ∙ ap (λ k. with_key kflgs (packet (b.blocks k))) h.curr_eq
        ∙ ap (with_key kflgs) (here_eq b front rest s sent h)

    keyed-Holds :
        Holds
          (record b { blocks = update b.blocks b.curr_block keyed })
          (front ++ with_key kflgs s ∷ rest)
          sent
    keyed-Holds =
        subst
          (λ k.
            Holds (record b { blocks = update b.blocks k keyed }) (front ++ with_key kflgs s ∷ rest)
              sent)
          (sym h.curr_eq)
          (changed-Holds b front rest s sent h keyed (with_key kflgs s) keyed_eq
            (with_key-next kflgs (b.blocks b.curr_block) ∙ ap (next_of b) h.curr_eq)
            (ap (length {A = ℕ}) (with_key-payload kflgs s)))

    pub step_curr-Holds : Holds (step_curr b kflgs) (front ++ with_key kflgs s ∷ rest) (sent + 1)
    unfolding step_curr
    step_curr-Holds =
        let count = count_eq b front rest s sent h in
        let room = h.room in
        let k = keyed-Holds in
        record {
          at = k.at;
          ring = k.ring;
          below = k.below;
          first_eq = k.first_eq;
          curr_eq =
              sym (with_key-next kflgs (b.blocks b.curr_block))
              ∙ sym (ap (λ (n : Block). n.next) (update_self b.blocks b.curr_block keyed))
              ∙ ap (λ i. (update b.blocks b.curr_block keyed i).next) k.curr_eq
              ∙ k.ring.linked sent (omega (arith, count, room));
          last_eq = k.last_eq;
          sent_le = omega (arith, count);
          room = k.room;
          unit_pos = k.unit_pos;
          queue_eq = k.queue_eq;
          bytes_eq = k.bytes_eq;
        }
