-- ===== src/RcvBuffer/Read/Message.antt =====
-- `readMessage` reads the next message in order.
use srtplay.Base.{
  ℕ, ◌+◌, ◌-◌, ◌≤◌, ◌<◌, ◌≡◌, refl, sym, ap, ap₂, ◌∙◌, subst, subst₂, arith, true, false, Option,
  some, ℕ_discrete, ◌==◌, Bool-cases, inl, inr, [], take,
}
use srtplay.Base.Int.{pos, neg}
use srtplay.Base.Slices.{take-all}
use srtplay.Base.Ring.{idx, idx-ne}
use srtplay.RcvBuffer.{
  RcvBuffer, Entry, is_filler, is_avail, count_bytes, is_in_range, release_fillers, EntryStatus,
  read, drop, avail, empty,
}
use srtplay.RcvBuffer.Valid.{has_unit-avail}
use srtplay.RcvBuffer.Messages.{
  Whole, Messages, next, done, Messages-le, Messages-Units, Messages-Agree,
}
use srtplay.RcvBuffer.Advance.{Started, Released, release_fillers-Released}
use srtplay.RcvBuffer.Invariant.{Valid}
use srtplay.RcvBuffer.Range.{is_in_range-idx, is_in_range-before}
use srtplay.RcvBuffer.Stream.Flow.{stream_bytes}
use srtplay.RcvBuffer.Read.{
  Reading, MsgCtrl, read_packets, close_read, read_from, read_pos, read_message,
}
use srtplay.RcvBuffer.Read.Run.{Run, read_packets-Run}

avail-filler : (s : EntryStatus) → is_avail s ≡ true → is_filler s ≡ true → ⊥
avail-filler empty a f = ground (arith, a)
avail-filler avail a f = ground (arith, f)
avail-filler read a f = ground (arith, a)
avail-filler drop a f = ground (arith, a)

-- What is left after the message up to `hi` was read: the window starts behind it, or behind the fillers
-- that follow, and what it holds was there before.
pub record ReadTo (size c b hi n : ℕ) (r r' : RcvBuffer) : Type 0 where
  pub begin : ℕ
  pub ready : ℕ
  pub begin-lt : hi < begin
  pub fillers : (x : ℕ) → hi < x → x < begin → is_filler (r.entries (idx size c x)).status ≡ true
  pub kept :
      (x : ℕ) → begin ≤ x → x < b + size → r'.entries (idx size c x) ≡ r.entries (idx size c x)
  pub ready-le : n ≤ ready
  pub valid : Valid size c begin ready r'

module _ (size c b hi n len : ℕ) (r : RcvBuffer) (v : Valid size c b n r)
    (api : r.message_api ≡ true) (lo-le : b ≤ hi)
    (behind : Messages size c true r.entries (hi + 1) n) (k : ℕ) (count : b + k ≡ hi + 1)
    (s : Reading) (run : Run size c b len r k s) where
  abbrev counted : RcvBuffer
  counted = count_bytes s.buffer (neg (pos s.pkts_read)) (neg (pos s.bytes_extracted))

  counted-Started : Started size c (hi + 1) counted
  unfolding count_bytes
  counted-Started =
      let st = subst (λ x. Started size c x s.buffer) count run.started in
      record { room = st.room; start_eq = st.start_eq; seq_eq = st.seq_eq; cells = st.cells }

  counted-frame :
      (counted.entries ≡ s.buffer.entries)
      × (counted.max_pos_inc ≡ s.buffer.max_pos_inc)
      × (counted.first_nonread_pos ≡ s.buffer.first_nonread_pos)
      × (counted.message_api ≡ s.buffer.message_api)
      × (counted.tsbpd ≡ s.buffer.tsbpd)
  unfolding count_bytes
  counted-frame = (refl, refl, refl, refl, refl)

  released : (b' : ℕ) × Released size c (hi + 1) b' counted (release_fillers size size counted)
  released =
      let st = counted-Started in
      release_fillers-Released size c size (hi + 1) counted st (omega (arith, st.room))

  -- Fillers follow only where nothing more can be read.
  no_filler :
      (b' : ℕ)
      → hi + 1 < b'
      → ((x : ℕ) → hi < x → x < b' → is_filler (r.entries (idx size c x)).status ≡ true)
      → n ≡ hi + 1
  no_filler b' later skipped =
      let at_least = Messages-le size c true r.entries (hi + 1) n behind in
      let bound = v.n-le in
      let room = v.room in
      elim (ℕ_discrete n (hi + 1)) [
        | yes p ↦ p
        | no p ↦
            let there =
              Messages-Units size c true r.entries (hi + 1) n behind (hi + 1) (omega arith)
                (omega arith) in
            let e = r.entries (idx size c (hi + 1)) in
            let cell = v.cells (hi + 1) (omega arith) (omega arith) in
            absurd (
              avail-filler e.status (has_unit-avail (b + r.max_pos_inc) (hi + 1) e cell there).0
                (skipped (hi + 1) (omega arith) later))
      ]

  pub close_read-ReadTo : ReadTo size c b hi n r (close_read size s)
  unfolding close_read
  close_read-ReadTo =
      let (b', rel) = released in
      let (same_entries, same_inc, same_nonread, same_api, same_tsbpd) = counted-frame in
      let st = rel.started in
      let r1 = release_fillers size size counted in
      let room = v.room in
      let total : b' + r1.max_pos_inc ≡ b + r.max_pos_inc =
        omega (arith, rel.same_end, same_inc, run.same_end) in
      let later = rel.start-le in
      let was : (x : ℕ)
          → hi < x
          → x < b + size
          → counted.entries (idx size c x) ≡ r.entries (idx size c x) =
        λ x lo l. ap (λ f. f (idx size c x)) same_entries ∙ run.kept x (omega arith) l in
      let skipped : (x : ℕ) → hi < x → x < b' → is_filler (r.entries (idx size c x)).status ≡ true =
        λ x lo l.
          subst (λ z. is_filler z.status ≡ true) (was x lo (omega arith))
            (rel.skipped x (omega arith) l) in
      let kept : (x : ℕ)
          → b' ≤ x
          → x < b + size
          → r1.entries (idx size c x) ≡ r.entries (idx size c x) =
        λ x lo l. rel.kept x lo (omega arith) ∙ was x (omega arith) l in
      let nonread = rel.same_nonread ∙ same_nonread ∙ run.same_nonread ∙ v.nonread_eq in
      let apis = rel.same_api ∙ same_api ∙ run.same_api ∙ api in
      let ready-ge = Messages-le size c true r.entries (hi + 1) n behind in
      let bound = v.n-le in
      elim (ℕ_discrete b' (hi + 1)) [
        | yes p ↦
            let inside : is_in_range size r1.start_pos r1.max_pos_inc r1.first_nonread_pos ≡ true =
              ap₂ (λ x y. is_in_range size x r1.max_pos_inc y) st.start_eq nonread
              ∙ is_in_range-idx size c b' n r1.max_pos_inc (omega arith) (omega arith) st.room in
            rw inside (record {
              begin = b';
              ready = n;
              begin-lt = omega arith;
              fillers = skipped;
              kept = kept;
              ready-le = omega arith;
              valid = record {
                room = st.room;
                start_eq = st.start_eq;
                seq_eq = st.seq_eq;
                cells = st.cells;
                nonread_eq = nonread;
                n-le = omega arith;
                messages =
                    subst (λ a. Messages size c a r1.entries b' n) (sym apis)
                      (Messages-Agree size c true r.entries r1.entries b' n
                        (λ x lo l. sym (kept x lo (omega arith)))
                        (subst (λ x. Messages size c true r.entries x n) (sym p) behind));
              };
            })
        | no p ↦
            let at_end : n ≡ hi + 1 = no_filler b' (omega arith) skipped in
            let outside : is_in_range size r1.start_pos r1.max_pos_inc r1.first_nonread_pos
                ≡ false =
              ap₂ (λ x y. is_in_range size x r1.max_pos_inc y) st.start_eq nonread
              ∙ is_in_range-before size c b' n r1.max_pos_inc (omega arith) (omega arith) in
            rw outside (record {
              begin = b';
              ready = b';
              begin-lt = omega arith;
              fillers = skipped;
              kept = kept;
              ready-le = omega arith;
              valid = record {
                room = st.room;
                start_eq = st.start_eq;
                seq_eq = st.seq_eq;
                cells = st.cells;
                nonread_eq = st.start_eq;
                n-le = omega arith;
                messages = done;
              };
            })
      ]

  pub close_read-mode : (close_read size s).tsbpd.tsbpd_mode ≡ r.tsbpd.tsbpd_mode
  unfolding close_read
  close_read-mode =
      let (b', rel) = released in
      let (same_entries, same_inc, same_nonread, same_api, same_tsbpd) = counted-frame in
      let r1 = release_fillers size size counted in
      let mode = ap (λ t. t.tsbpd_mode) (rel.same_tsbpd ∙ same_tsbpd) ∙ run.same_mode in
      elim (Bool-cases (is_in_range size r1.start_pos r1.max_pos_inc r1.first_nonread_pos)) [
        | inl q ↦ rw q mode
        | inr q ↦ rw q mode
      ]

-- The first of the messages that can be read.
first_message :
    (size c : ℕ) (e : ℕ → Entry) (b n : ℕ)
    → Messages size c true e b n
    → b < n
    → (hi : ℕ) × Whole size c true e b hi × Messages size c true e (hi + 1) n
first_message size c e b n done h = absurd (omega arith)
first_message size c e b n (next {hi = hi} w ms) h = (hi, w, ms)

module _ (size c b n len : ℕ) (r : RcvBuffer) (ctrl : Option MsgCtrl) (v : Valid size c b n r) where
  abbrev start : Reading
  start = record {
    buffer = r;
    remain = len;
    dst = [];
    pkts_read = 0;
    bytes_extracted = 0;
    msgctrl = ctrl;
  }

  abbrev read_through : Reading
  read_through = read_packets size (size + 1) true r.start_pos r.start_pos start

  start-Run : Run size c b len r 0 start
  start-Run =
      let same : b ≡ b + 0 = omega arith in
      record {
        started =
            subst (λ x. Started size c x r) same
              (record { room = v.room; start_eq = v.start_eq; seq_eq = v.seq_eq; cells = v.cells });
        same_end = omega arith;
        kept = λ y lo l. refl;
        dst_eq = sym (take-all len [] (omega arith));
        remain_eq = omega arith;
        same_nonread = refl;
        same_api = refl;
        same_mode = refl;
      }

  read_through-Run :
      (hi : ℕ)
      → Whole size c true r.entries b hi
      → hi < n
      → Run size c b len r (hi + 1 - b) read_through
  read_through-Run hi w below =
      let room = v.room in
      let bound = v.n-le in
      let ordered = w.lo-le in
      let last : hi ≡ b + 0 + (hi - b) = omega arith in
      let steps : 0 + (hi - b) + 1 ≡ hi + 1 - b = omega arith in
      let same : b + 0 ≡ b = omega arith in
      let place : idx size c (b + 0) ≡ r.start_pos = ap (idx size c) same ∙ sym v.start_eq in
      subst₂ (λ i m. Run size c b len r m (read_packets size (size + 1) true r.start_pos i start))
        place steps
        (read_packets-Run size c b len r (size + 1) 0 (hi - b) r.start_pos start start-Run
          (subst (Whole size c true r.entries b) last w) (omega arith) (omega arith))

  next_pos : b < n → read_pos size r ≡ some r.start_pos
  unfolding read_pos
  next_pos some_left =
      let room = v.room in
      let bound = v.n-le in
      let readable : (r.first_nonread_pos == r.start_pos) ≡ false =
        ap₂ (λ x y. x == y) v.nonread_eq v.start_eq
        ∙ ground (arith, idx-ne size c b n some_left (omega arith)) in
      rw readable refl

  from_start :
      read_from size r r.start_pos len ctrl
      ≡ record read_through { buffer = close_read size read_through }
  unfolding read_from
  from_start = let here : (r.start_pos == r.start_pos) ≡ true = ground arith in rw here refl

-- With TSBPD and the message API, where a message can be read in order: `readMessage` reads just that one, in
-- one piece.
pub read_message-ReadTo :
    (size c b n len : ℕ) (r : RcvBuffer) (ctrl : Option MsgCtrl)
    → Valid size c b n r
    → r.message_api ≡ true
    → r.tsbpd.tsbpd_mode ≡ true
    → b < n
    → (hi : ℕ) × (ctrl' : Option MsgCtrl) × (r' : RcvBuffer) × Whole size c true r.entries b hi
      × (hi < n)
      × (read_message size r len ctrl
          ≡ some (take len (stream_bytes size c r.entries (hi + 1 - b) b), ctrl', r'))
      × ReadTo size c b hi n r r'
unfolding read_message
read_message-ReadTo size c b n len r ctrl v api mode some_left =
    let (hi, w, behind) =
      first_message size c r.entries b n
        (subst (λ a. Messages size c a r.entries b n) api v.messages) some_left in
    let room = v.room in
    let bound = v.n-le in
    let ordered = w.lo-le in
    let later = Messages-le size c true r.entries (hi + 1) n behind in
    let run = read_through-Run size c b n len r ctrl v hi w (omega arith) in
    let s = read_through size c b n len r ctrl v in
    let count : b + (hi + 1 - b) ≡ hi + 1 = omega arith in
    let after =
      close_read-ReadTo size c b hi n len r v api ordered behind (hi + 1 - b) count s run in
    let after_mode =
      close_read-mode size c b hi n len r v api ordered behind (hi + 1 - b) count s run ∙ mode in
    (
      hi,
      s.msgctrl,
      close_read size s,
      w,
      omega arith,
      rw
          (
            read_message,
            next_pos size c b n len r ctrl v some_left,
            from_start size c b n len r ctrl v,
            after_mode,
            run.dst_eq,
          )
          refl,
      after,
    )
