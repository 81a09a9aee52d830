-- ===== src/SndBuffer/Add.antt =====
-- `addBuffer` puts the packets of a message behind those that the buffer holds.
use srtplay.Base.{
  ℕ, ◌+◌, ◌<◌, ◌≡◌, refl, sym, ap, ap₂, subst, ◌∙◌, arith, ◌==◌, if◌then◌else◌, none, some, List,
  [], ◌∷◌, ◌++◌, length, length-append, bind_some,
}
use srtplay.RateEstimator.{RateEstimator, update_input_rate}
use srtplay.SndBuffer.{
  Block, SndBuffer, MsgCtrl, next_of, fill, note_message, note_added, add_buffer, make_room,
  packets_of, next_msgno,
}
use srtplay.SndBuffer.Holds.{
  Holds, packet, listing, listing-cong, listing-append, total_bytes, total_bytes-append,
}
use srtplay.SndBuffer.Room.{make_room-Holds}
use srtplay.SndBuffer.Message.{message, length-message, payloads, payloads-message}
use srtplay.SndBuffer.Fill.{incseq_times, Ring-same, fill-Filled}

total_bytes-payloads : (q : List Block) → total_bytes q ≡ length (payloads q)
total_bytes-payloads [] = refl
total_bytes-payloads (s ∷ q) =
    let rest = total_bytes-payloads q in
    let all = length-append s.payload (payloads q) in omega (arith, rest, all)

-- The time and the number of the message.
abbrev pub origin_of : MsgCtrl → ℕ → ℕ
origin_of ctrl now = if ctrl.srctime == 0 then now else ctrl.srctime

abbrev pub msgno_of : SndBuffer → MsgCtrl → ℕ
msgno_of b ctrl = elim ctrl.msgno [ none ↦ b.next_msg_no | some n ↦ n ]

-- The packets of the message.
abbrev pub packets_added : SndBuffer → List ℕ → MsgCtrl → ℕ → List Block
packets_added b bytes ctrl now =
    let size = packets_of b.mss (length bytes) in
    message b.mss (msgno_of b ctrl) (origin_of ctrl now) bytes ctrl size 0 ctrl.pktseq size

-- The packets `packets` are behind those of `queue`, and the message's number and time are given back.
pub record Added (queue packets : List Block) (sent origin msgno : ℕ) (ctrl ctrl' : MsgCtrl)
    (b' : SndBuffer) : Type 0 where
  pub holds : Holds b' (queue ++ packets) sent
  pub ctrl_eq : ctrl' ≡ record ctrl {
    msgno = some msgno;
    pktseq = incseq_times (length packets) ctrl.pktseq;
    srctime = origin;
  }
  pub next_eq : b'.next_msg_no ≡ next_msgno msgno

-- With room for the message.
module _ (b : SndBuffer) (q : List Block) (sent : ℕ) (h : Holds b q sent) (bytes : List ℕ)
    (ctrl : MsgCtrl) (now : ℕ) (mss_pos : 0 < b.mss) (rate : RateEstimator)
    (room : packets_of b.mss (length bytes) + b.count < b.size)
    (counted : update_input_rate b.rate
        (origin_of ctrl now)
        (packets_of b.mss (length bytes))
        (length bytes)
      ≡ some rate) where
  abbrev size : ℕ
  size = packets_of b.mss (length bytes)

  abbrev b2 : SndBuffer
  b2 = note_message b ctrl now

  abbrev new : List Block
  new = packets_added b bytes ctrl now

  room-Added :
      (ctrl' : MsgCtrl) × (b' : SndBuffer) × (note_added bytes ctrl size
          (fill size b2 bytes ctrl size 0 b2.last_block ctrl.pktseq)
        ≡ some (ctrl', b'))
      × Added q new sent (origin_of ctrl now) (msgno_of b ctrl) ctrl ctrl' b'
  unfolding note_message note_added
  room-Added =
      let (nodes, run, f) =
        fill-Filled bytes ctrl size h.at size b2 0 b.count ctrl.pktseq h.ring
          (omega (arith, room)) in
      let c2 = record ctrl {
        msgno = some (msgno_of b ctrl);
        pktseq = incseq_times size ctrl.pktseq;
        srctime = origin_of ctrl now;
      } in
      let b3 = record b2 {
        blocks = nodes;
        last_block = h.at (b.count + size);
        count = b.count + size;
        bytes_count = b.bytes_count + length bytes;
        rate = rate;
        next_msg_no = next_msgno (msgno_of b ctrl);
      } in
      (
        c2,
        b3,
        ap (λ s. note_added bytes ctrl size (fill size b2 bytes ctrl size 0 s ctrl.pktseq))
              h.last_eq
            ∙ ap (note_added bytes ctrl size) run
            ∙ bind_some (update_input_rate b.rate (origin_of ctrl now) size (length bytes)) rate
                (λ r. some (c2, record b3 { rate = r })) counted,
        record {
          holds = record {
            at = h.at;
            ring = Ring-same b.size (next_of b) (λ i. (nodes i).next) h.at f.links h.ring;
            below = h.below;
            first_eq = h.first_eq;
            curr_eq = h.curr_eq;
            last_eq = refl;
            sent_le = (let le = h.sent_le in omega (arith, le));
            room = omega (arith, room);
            unit_pos = h.unit_pos;
            queue_eq =
                listing-append nodes h.at 0 b.count size
                ∙ ap₂ ◌++◌
                    (listing-cong nodes b.blocks h.at h.at 0 0 b.count (λ j lt.
                        let first : 0 + j < b.count = omega (arith, lt) in
                        ap packet (f.before (0 + j) first))
                      ∙ h.queue_eq)
                    (ap (λ k. listing nodes h.at k size) {x = 0 + b.count} {y = b.count}
                        (omega arith)
                      ∙ f.written);
            bytes_eq =
                (let whole =
                    payloads-message b.mss (msgno_of b ctrl) (origin_of ctrl now) bytes ctrl
                      ctrl.pktseq mss_pos in
                  let added = total_bytes-payloads new in
                  let len = ap (length {A = ℕ}) whole in
                  let all = total_bytes-append q new in
                  let old = h.bytes_eq in omega (arith, added, len, all, old));
          };
          ctrl_eq =
              ap
                (λ n. record ctrl {
                  msgno = some (msgno_of b ctrl);
                  pktseq = incseq_times n ctrl.pktseq;
                  srctime = origin_of ctrl now;
                })
                (sym (
                  length-message b.mss (msgno_of b ctrl) (origin_of ctrl now) bytes ctrl size 0
                    ctrl.pktseq size));
          next_eq = refl;
        },
      )

-- `addBuffer` of a message, where the input rate is counted with no fault, never fails: the buffer holds the packets
-- of the message behind those that it held, whose number that were read is the same. Their payloads in a row are
-- the data, and the number, the sequence number behind the message, and the time are given back.
pub add_buffer-Added :
    (b : SndBuffer) (q : List Block) (sent : ℕ) (bytes : List ℕ) (ctrl : MsgCtrl) (now : ℕ)
    (rate : RateEstimator)
    → Holds b q sent
    → 0 < b.mss
    → update_input_rate b.rate (origin_of ctrl now) (packets_of b.mss (length bytes)) (length bytes)
      ≡ some rate
    → (ctrl' : MsgCtrl) × (b' : SndBuffer) × (add_buffer b bytes ctrl now ≡ some (ctrl', b'))
      × Added q
          (packets_added b bytes ctrl now)
          sent
          (origin_of ctrl now)
          (msgno_of b ctrl)
          ctrl
          ctrl'
          b'
      × (payloads (packets_added b bytes ctrl now) ≡ bytes)
unfolding add_buffer
add_buffer-Added b q sent bytes ctrl now rate h mss_pos counted =
    let len = length bytes in
    let more = packets_of b.mss len in
    let room = h.room in
    let (b1, run, h1, grown, room1) =
      make_room-Holds (more + b.count + 1) b q sent more h (omega arith) (omega (arith, room)) in
    let mss_eq = ap (λ (x : SndBuffer). x.mss) grown in
    let rate_eq =
      ap
        (λ (x : SndBuffer).
          update_input_rate x.rate (origin_of ctrl now) (packets_of x.mss len) len)
        grown in
    let count_eq = ap (λ m. packets_of m len) mss_eq in
    let (ctrl', b', run', added) =
      room-Added b1 q sent h1 bytes ctrl now (omega (arith, mss_eq, mss_pos)) rate
        (omega (arith, room1, count_eq)) (rate_eq ∙ counted) in
    (
      ctrl',
      b',
      bind_some (make_room (more + b.count + 1) b more) b1
            (λ b1. note_added bytes ctrl more (
              fill more (note_message b1 ctrl now) bytes ctrl more 0
                (note_message b1 ctrl now).last_block ctrl.pktseq))
            run
          ∙ ap
              (λ k. note_added bytes ctrl k (
                fill k (note_message b1 ctrl now) bytes ctrl k 0
                  (note_message b1 ctrl now).last_block ctrl.pktseq))
              (sym count_eq)
          ∙ run',
      subst
          (λ (x : SndBuffer).
            Added q (packets_added x bytes ctrl now) sent (origin_of ctrl now) (msgno_of x ctrl)
              ctrl ctrl' b')
          grown added,
      payloads-message b.mss (msgno_of b ctrl) (origin_of ctrl now) bytes ctrl ctrl.pktseq mss_pos,
    )
