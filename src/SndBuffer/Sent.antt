-- ===== src/SndBuffer/Sent.antt =====
-- `readData` of packets that were not sent yet.
use mathlib.Core.List.{append_assoc}
use srtplay.Base.{
  ℕ, zero, suc, Bool, leb, ◌*◌, Option-cases, ◌+◌, ◌<◌, ◌≡◌, refl, sym, ap, subst, subst₂, ◌∙◌,
  arith, ◌==◌, if◌then◌else◌, true, false, Option, none, some, List, [], ◌∷◌, ◌++◌, length,
  length-append, Bool-cases, inl, inr,
}
use srtplay.SndBuffer.{Block, SndBuffer}
use srtplay.SndBuffer.Holds.{Holds, packet, length-listing}
use srtplay.SndBuffer.Read.{
  Reading, ReadResult, expired, with_key, reading_of, read_length, step_curr, read_loop, read_data,
}
use srtplay.SndBuffer.Current.{read_length-packet, curr-ne-last, keyed_eq, step_curr-Holds}

-- The time to live, in whole milliseconds, has passed since the time of the packet, and one more.
abbrev pub over : ℕ → Block → Bool
over now s = elim s.ttl [ none ↦ false | some ttl ↦ leb (s.origin_time + (ttl + 1) * 1000) now ]

pub expired-over : (now : ℕ) (s : Block) → expired now s ≡ over now s
unfolding expired
expired-over now s = elim (Option-cases s.ttl) [
  | inl e ↦ rw e refl
  | inr (ttl, e) ↦ rw e (ground arith)
]

-- What the packet that is read gets.
abbrev pub contents_of : Block → Reading
contents_of s = record {
  payload = s.payload;
  seq_no = s.seq_no;
  msgno = s.msgno_bitset;
  srctime = s.origin_time;
}

-- What reading from the packets that are left to send gives: the first whose time is not over, if there is one.
pub record Sending : Type 0 where
  pub readlen : ℕ
  pub packet_read : Option Reading
  pub skipped : ℕ
  pub read : ℕ
  pub queue : List Block

abbrev pub send_first : Option ℕ → ℕ → Option Reading → ℕ → List Block → Sending
send_first kflgs now last skipped [] = record {
  readlen = 0;
  packet_read = last;
  skipped = skipped;
  read = 0;
  queue = [];
}
send_first kflgs now last skipped (s ∷ q) =
    let s1 = with_key kflgs s in
    let rest = send_first kflgs now (some (contents_of s1)) (skipped + 1) q in
    if over now s1 then record rest { read = rest.read + 1; queue = s1 ∷ rest.queue } else record {
      readlen = read_length kflgs s1;
      packet_read = some (contents_of s1);
      skipped = skipped;
      read = 1;
      queue = s1 ∷ q;
    }

-- The result of `readData`, for what was to be sent.
pub record ReadFrom (front : List Block) (out : Sending) (r : ReadResult) : Type 0 where
  pub readlen_eq : r.readlen ≡ out.readlen
  pub packet_eq : r.packet ≡ out.packet_read
  pub skipped_eq : r.seqnoinc ≡ out.skipped
  pub holds : Holds r.buffer (front ++ out.queue) (length front + out.read)

module _ (b : SndBuffer) (front : List Block) (kflgs : Option ℕ) (now : ℕ) (last : Option Reading)
    (skipped : ℕ) where
  -- Nothing is left to send.
  read_loop-end :
      (rounds : ℕ)
      → Holds b (front ++ []) (length front)
      → (r : ReadResult) × (read_loop (suc rounds) b kflgs now last skipped ≡ some r)
        × ReadFrom front (send_first kflgs now last skipped []) r
  unfolding read_loop
  read_loop-end rounds h =
      let count : b.count ≡ length front =
        sym (length-listing b.blocks h.at 0 b.count)
        ∙ ap (length {A = Block}) h.queue_eq
        ∙ length-append front []
        ∙ omega arith in
      let done : (b.curr_block == b.last_block) ≡ true =
        ground (arith, h.curr_eq, h.last_eq, ap h.at count) in
      (
        record { readlen = 0; packet = last; seqnoinc = skipped; buffer = b },
        rw (done, read_loop) refl,
        record {
          readlen_eq = refl;
          packet_eq = refl;
          skipped_eq = refl;
          holds =
              subst (Holds b (front ++ [])) {x = length front} {y = length front + 0} (omega arith)
                h;
        },
      )

  module _ (rest : List Block) (s : Block) (h : Holds b (front ++ s ∷ rest) (length front)) where
    abbrev blk : Block
    blk = with_key kflgs (b.blocks b.curr_block)

    abbrev s1 : Block
    s1 = with_key kflgs s

    blk_eq : packet blk ≡ s1
    blk_eq = keyed_eq b front rest s h kflgs

    expired_eq : expired now blk ≡ over now s1
    unfolding expired
    expired_eq = ap (expired now) blk_eq ∙ expired-over now s1

    reading_eq : reading_of blk ≡ contents_of s1
    unfolding reading_of
    reading_eq = ap reading_of blk_eq

    length_eq : read_length kflgs blk ≡ read_length kflgs s1
    length_eq = sym (read_length-packet kflgs blk) ∙ ap (read_length kflgs) blk_eq

    -- The current packet is read.
    read_loop-read :
        (rounds : ℕ)
        → over now s1 ≡ false
        → (r : ReadResult) × (read_loop (suc rounds) b kflgs now last skipped ≡ some r)
          × ReadFrom front (send_first kflgs now last skipped (s ∷ rest)) r
    unfolding read_loop
    read_loop-read rounds e =
        let ne = curr-ne-last b front rest s h in
        let fresh : expired now blk ≡ false = expired_eq ∙ e in
        (
          record {
            readlen = read_length kflgs blk;
            packet = some (reading_of blk);
            seqnoinc = skipped;
            buffer = step_curr b kflgs;
          },
          rw (ne, fresh, read_loop) refl,
          rw e (record {
            readlen_eq = length_eq;
            packet_eq = ap some reading_eq;
            skipped_eq = refl;
            holds = step_curr-Holds b front rest s h kflgs;
          }),
        )

    abbrev front1 : List Block
    front1 = front ++ s1 ∷ []

    skip-Holds : Holds (step_curr b kflgs) (front1 ++ rest) (length front1)
    skip-Holds =
        subst₂ (Holds (step_curr b kflgs)) (sym (append_assoc front (s1 ∷ []) rest))
          (sym (length-append front (s1 ∷ []))) (step_curr-Holds b front rest s h kflgs)

    -- The current packet is skipped.
    read_loop-skip :
        (rounds : ℕ)
        → over now s1 ≡ true
        → (r : ReadResult) × (read_loop rounds
              (step_curr b kflgs)
              kflgs
              now
              (some (contents_of s1))
              (skipped + 1)
            ≡ some r)
          × ReadFrom front1 (send_first kflgs now (some (contents_of s1)) (skipped + 1) rest) r
        → (r : ReadResult) × (read_loop (suc rounds) b kflgs now last skipped ≡ some r)
          × ReadFrom front (send_first kflgs now last skipped (s ∷ rest)) r
    unfolding read_loop
    read_loop-skip rounds e (r, run, from) =
        let ne = curr-ne-last b front rest s h in
        let over : expired now blk ≡ true = expired_eq ∙ e in
        let out = send_first kflgs now (some (contents_of s1)) (skipped + 1) rest in
        let len = length-append front (s1 ∷ []) in
        let code =
          ap (λ x. read_loop rounds (step_curr b kflgs) kflgs now (some x) (skipped + 1)) reading_eq
          ∙ run in
        (
          r,
          rw (ne, over, read_loop) code,
          rw e (record {
            readlen_eq = from.readlen_eq;
            packet_eq = from.packet_eq;
            skipped_eq = from.skipped_eq;
            holds =
                let count : length front1 + out.read ≡ length front + (out.read + 1) =
                  omega (arith, len) in
                subst₂ (Holds r.buffer) (append_assoc front (s1 ∷ []) out.queue) count from.holds;
          }),
        )

read_loop-ReadFrom :
    (rounds : ℕ) (b : SndBuffer) (front rest : List Block) (kflgs : Option ℕ) (now : ℕ)
    (last : Option Reading) (skipped : ℕ)
    → Holds b (front ++ rest) (length front)
    → length rest < rounds
    → (r : ReadResult) × (read_loop rounds b kflgs now last skipped ≡ some r)
      × ReadFrom front (send_first kflgs now last skipped rest) r
read_loop-ReadFrom zero b front rest kflgs now last skipped h lt = absurd (omega (arith, lt))
read_loop-ReadFrom (suc rounds) b front [] kflgs now last skipped h lt =
    read_loop-end b front kflgs now last skipped rounds h
read_loop-ReadFrom (suc rounds) b front (s ∷ rest) kflgs now last skipped h lt =
    elim (Bool-cases (over now (with_key kflgs s))) [
      | inl e ↦ read_loop-skip b front kflgs now last skipped rest s h rounds e (
          read_loop-ReadFrom rounds (step_curr b kflgs) (front ++ with_key kflgs s ∷ []) rest kflgs
            now (some (contents_of (with_key kflgs s))) (skipped + 1)
            (skip-Holds b front kflgs now last skipped rest s h) (omega (arith, lt)))
      | inr e ↦ read_loop-read b front kflgs now last skipped rest s h rounds e
    ]

-- `readData` never fails where the buffer holds packets of which the first were read: it gives the first one left
-- whose time to live is not over, and the number of those that it skips, or nothing if there is none, and they count
-- as read, with the key flags in their message number fields; all others stay as they are.
pub read_data-ReadFrom :
    (b : SndBuffer) (front rest : List Block) (kflgs : Option ℕ) (now : ℕ)
    → Holds b (front ++ rest) (length front)
    → (r : ReadResult) × (read_data b kflgs now ≡ some r)
      × ReadFrom front (send_first kflgs now none 0 rest) r
unfolding read_data
read_data-ReadFrom b front rest kflgs now h =
    let count =
      sym (length-listing b.blocks h.at 0 b.count)
      ∙ ap (length {A = Block}) h.queue_eq
      ∙ length-append front rest in
    read_loop-ReadFrom (b.count + 1) b front rest kflgs now none 0 h (omega (arith, count))
