-- ===== src/RcvBuffer/Insert/Outcome.antt =====
-- What the insertion of a packet does on each of its branches.
use srtplay.Base.{
  ℕ, ◌+◌, ◌-◌, ◌%◌, ◌^◌, ◌≤◌, ◌<◌, ◌≡◌, refl, sym, ap, ap₂, ◌∙◌, arith, true, false, some, ◌==◌,
  ltb, leb, if◌then◌else◌, Option-cases, inl, inr, update,
}
use srtplay.Base.Int.{pos, negsuc, sub_ℕ}
use srtplay.Base.Ring.{idx, idx_forward}
use srtplay.SeqNo.{seqoff}
use srtplay.SeqNo.Unwrapped.{seq_of, Near, seqoff-seq_of}
use srtplay.Packet.{Packet}
use srtplay.RcvBuffer.{RcvBuffer, RcvUnit, is_empty, avail, capacity, count_bytes, has_unit, Entry}
use srtplay.RcvBuffer.Position.{update_nonread_pos}
use srtplay.RcvBuffer.OutOfOrder.{on_insert_not_in_order_packet}
use srtplay.RcvBuffer.Insert.{insert, insert_at, extend_to, note_insert, put_unit}
use srtplay.RcvBuffer.Valid.{
  Window-later, Window-update, update-other, not_empty-below, empty-no_unit,
}
use srtplay.RcvBuffer.Messages.{Messages-Agree, Messages-Units}
use srtplay.RcvBuffer.Invariant.{
  Valid, Updated, update_nonread_pos-Valid, Framed, Framed-self, Framed-if, Valid-Framed,
  update_nonread_pos-entries,
}

module _ (size c b n p : ℕ) (r : RcvBuffer) (u : RcvUnit) (v : Valid size c b n r) (near : Near b p)
    (number : u.packet.seq_no ≡ seq_of p) where
  offset_eq : seqoff r.start_seq_no u.packet.seq_no ≡ sub_ℕ p b
  offset_eq = ap₂ seqoff v.seq_eq number ∙ seqoff-seq_of b p near

  place_eq : b ≤ p → (r.start_pos + (p - b)) % size ≡ idx size c p
  place_eq h =
      ap (λ s. (s + (p - b)) % size) v.start_eq
      ∙ idx_forward size c b (p - b)
      ∙ ap (idx size c) (omega arith)

  -- The tests on the offset are tests on the position.
  insert_cases : insert size r u ≡ (
      if ltb p b
      then (negsuc 1, r)
      else if leb (b + capacity size) p
      then (negsuc 2, r)
      else insert_at size r u (p - b))
  unfolding insert
  insert_cases = rw offset_eq (ground arith)

  -- A packet before the window, behind it, or at a place that is not empty is refused.
  pub insert-refused :
      (p < b → insert size r u ≡ (negsuc 1, r))
      × (b + capacity size ≤ p → insert size r u ≡ (negsuc 2, r))
      × (b ≤ p
          → p < b + capacity size
          → is_empty (r.entries (idx size c p)).status ≡ false
          → insert size r u ≡ (negsuc 0, r))
  unfolding insert_at extend_to
  insert-refused = (
    λ h. insert_cases ∙ ground (arith, h),
    λ h. insert_cases ∙ ground (arith, h),
    λ lo hi occupied.
        let below =
          not_empty-below (b + r.max_pos_inc) p (r.entries (idx size c p))
            (v.cells p lo (omega arith)) occupied in
        insert_cases ∙ (rw (place_eq lo, occupied) (ground (arith, lo, hi, below))),
  )

on_insert-Framed :
    (size : ℕ) (b : RcvBuffer) (i : ℕ) (q : Packet)
    → Framed b (on_insert_not_in_order_packet size b i q)
unfolding on_insert_not_in_order_packet
on_insert-Framed size b i q =
    Framed-if b b _ (b.num_out_of_order_packets == 0) (Framed-self b)
      (elim (Option-cases b.first_readable_out_of_order) [
        | inr (at, e) ↦ rw e (Framed-self b)
        | inl e ↦ rw e (
            Framed-if b b _ _ (Framed-self b)
              (b.tsbpd, b.num_out_of_order_packets, _, b.unit_queue, refl, refl))
      ])

note_insert-Framed :
    (size : ℕ) (b : RcvBuffer) (u : RcvUnit) (i : ℕ) → Framed b (note_insert size b u i)
unfolding note_insert
note_insert-Framed size b u i =
    let b1 = record b { num_out_of_order_packets = (b.num_out_of_order_packets + 1) % 2 ^ 64 } in
    let (t, k, o, q, m, e) = on_insert-Framed size b1 i u.packet in
    Framed-if b _ b _ (t, k, o, q, m, e) (Framed-self b)

module _ (size c b n p : ℕ) (r : RcvBuffer) (u : RcvUnit) (v : Valid size c b n r) (near : Near b p)
    (number : u.packet.seq_no ≡ seq_of p) (lo : b ≤ p) (hi : p < b + capacity size)
    (vacant : is_empty (r.entries (idx size c p)).status ≡ true) where
  abbrev filled : Entry
  filled = record { unit = some u; status = avail }

  abbrev stored : RcvBuffer
  stored = put_unit (extend_to size r (p - b)) u (idx size c p)

  stored-Valid : Valid size c b n stored
  unfolding put_unit extend_to count_bytes
  stored-Valid =
      let room = v.room in
      let bound = v.n-le in
      let grown : r.max_pos_inc ≤ stored.max_pos_inc = ground arith in
      let holds_p : p < b + stored.max_pos_inc = ground arith in
      let missing =
        empty-no_unit (b + r.max_pos_inc) p (r.entries (idx size c p)) (v.cells p lo (omega arith))
          vacant in
      record {
        room = ground arith;
        start_eq = v.start_eq;
        seq_eq = v.seq_eq;
        cells =
            Window-update size c b (b + stored.max_pos_inc) p r.entries filled lo (omega arith)
              (refl, number, holds_p)
              (Window-later size c b (b + r.max_pos_inc) (b + stored.max_pos_inc) r.entries
                (omega arith) v.cells);
        nonread_eq = v.nonread_eq;
        n-le = omega (arith, v.n-le);
        messages =
            Messages-Agree size c r.message_api r.entries (update r.entries (idx size c p) filled) b
              n
              (λ x a z. sym (
                update-other size c b x p r.entries filled a (omega arith) lo (omega arith) (λ e.
                  let there = Messages-Units size c r.message_api r.entries b n v.messages x a z in
                  let same = ap (λ k. has_unit (r.entries (idx size c k))) e in cc)))
              v.messages;
      }

  abbrev noted : RcvBuffer
  noted = note_insert size stored u (idx size c p)

  insert-noted : insert size r u ≡ (pos 0, update_nonread_pos size noted)
  unfolding insert_at extend_to
  insert-noted =
      insert_cases size c b n p r u v near number
      ∙ rw (place_eq size c b n p r u v near number lo, vacant) (ground (arith, lo, hi))

  noted-entries : noted.entries ≡ update r.entries (idx size c p) filled
  unfolding put_unit extend_to count_bytes
  noted-entries =
      let (t, k, o, q, m, e) = note_insert-Framed size stored u (idx size c p) in
      ap (λ s. s.entries) e

  pub insert-kept :
      ((insert size r u).0 ≡ pos 0)
      × ((insert size r u).1.entries ≡ update r.entries (idx size c p) filled)
      × Updated size c b n (insert size r u).1
  insert-kept = rw insert-noted (
    refl,
    update_nonread_pos-entries size noted ∙ noted-entries,
    update_nonread_pos-Valid size c b n noted (
        Valid-Framed size c b n stored noted (note_insert-Framed size stored u (idx size c p))
          stored-Valid),
  )
