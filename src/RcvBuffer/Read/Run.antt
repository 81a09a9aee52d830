-- ===== src/RcvBuffer/Read/Run.antt =====
-- The loop of `readMessage` over the packets of a message in order.
use srtplay.Base.{
  ℕ, zero, suc, ◌+◌, ◌-◌, ◌≤◌, ◌<◌, ◌≡◌, refl, sym, ap, ap₂, ◌∙◌, subst, arith, Bool, true, false,
  some, ℕ_discrete, min, if◌then◌else◌, Option-cases, inl, inr, update, ◌++◌, length, take,
  length-append,
}
use mathlib.Core.List.{append-nil, append_assoc}
use srtplay.Base.Slices.{take-append, take-min}
use srtplay.Base.Ring.{idx}
use srtplay.SeqNo.{incseq}
use srtplay.SeqNo.Unwrapped.{seq_of, incseq-seq_of}
use srtplay.Packet.{Packet, get_msg_boundary, has_last}
use srtplay.TsbpdTime.{TsbpdTime, update_tsbpd_time_base}
use srtplay.RcvBuffer.{RcvBuffer, RcvUnit, Entry, no_entry, has_unit, release_unit_in_pos}
use srtplay.RcvBuffer.Position.{ends_message}
use srtplay.RcvBuffer.Valid.{
  CellOf-some, Window, Window-advance, Window-later, inc_pos-idx, update-other,
}
use srtplay.RcvBuffer.Messages.{Whole}
use srtplay.RcvBuffer.Advance.{Started}
use srtplay.RcvBuffer.Invariant.{Framed, update_tsbpd_time_base-mode}
use srtplay.RcvBuffer.Stream.Flow.{payload_of, payload_of', stream_bytes}
use srtplay.RcvBuffer.Read.{
  Reading, note_read, take_packet, end_message, release_read, read_packet, read_packets,
}

stream_bytes-next :
    (size c : ℕ) (e : ℕ → Entry) (k b : ℕ)
    → stream_bytes size c e (suc k) b
      ≡ stream_bytes size c e k b ++ payload_of (e (idx size c (b + k)))
stream_bytes-next size c e zero b =
    let same : b ≡ b + 0 = omega arith in
    append-nil (payload_of (e (idx size c b))) ∙ ap (λ x. payload_of (e (idx size c x))) same
stream_bytes-next size c e (suc k) b =
    let same : b + 1 + k ≡ b + suc k = omega arith in
    ap (λ l. payload_of (e (idx size c b)) ++ l)
      (stream_bytes-next size c e k (b + 1)
        ∙ ap (λ x. stream_bytes size c e k (b + 1) ++ payload_of (e (idx size c x))) same)
    ∙ sym (
        append_assoc (payload_of (e (idx size c b))) (stream_bytes size c e k (b + 1))
          (payload_of (e (idx size c (b + suc k)))))

mode_if :
    (test : Bool) (t t' : TsbpdTime)
    → t.tsbpd_mode ≡ t'.tsbpd_mode
    → (if test then t else t').tsbpd_mode ≡ t'.tsbpd_mode
mode_if true t t' h = h
mode_if false t t' h = refl

note_read-Framed : (r : RcvBuffer) (p : Packet) → Framed r (note_read r p)
unfolding note_read
note_read-Framed r p = (
  if r.tsbpd.tsbpd_mode then update_tsbpd_time_base r.tsbpd p.time_stamp else r.tsbpd,
  _,
  r.first_readable_out_of_order,
  r.unit_queue,
  mode_if r.tsbpd.tsbpd_mode (update_tsbpd_time_base r.tsbpd p.time_stamp) r.tsbpd
      (update_tsbpd_time_base-mode r.tsbpd p.time_stamp),
  refl,
)

module _ (size c b len : ℕ) (r : RcvBuffer) where
  -- The first `k` packets from `b` on have been read.
  pub record Run (k : ℕ) (s : Reading) : Type 0 where
    pub started : Started size c (b + k) s.buffer
    pub same_end : b + k + s.buffer.max_pos_inc ≡ b + r.max_pos_inc
    pub kept :
        (y : ℕ)
        → b + k ≤ y
        → y < b + size
        → s.buffer.entries (idx size c y) ≡ r.entries (idx size c y)
    pub dst_eq : s.dst ≡ take len (stream_bytes size c r.entries k b)
    pub remain_eq : s.remain ≡ len - length (stream_bytes size c r.entries k b)
    pub same_nonread : s.buffer.first_nonread_pos ≡ r.first_nonread_pos
    pub same_api : s.buffer.message_api ≡ r.message_api
    pub same_mode : s.buffer.tsbpd.tsbpd_mode ≡ r.tsbpd.tsbpd_mode

  read_packet-Run :
      (k : ℕ) (s : Reading) (u : RcvUnit)
      → Run k s
      → b + k < b + size
      → (r.entries (idx size c (b + k))).unit ≡ some u
      → Run (suc k) (read_packet size true (idx size c (b + k)) u.packet s)
  unfolding read_packet take_packet release_read release_unit_in_pos
  read_packet-Run k s u run room q =
      let (t, n, o, qu, m, e) = note_read-Framed s.buffer u.packet in
      let st = run.started in
      let x = b + k in
      let es = s.buffer.entries in
      let (av, number, below) =
        CellOf-some (x + s.buffer.max_pos_inc) x (es (idx size c x)).unit (es (idx size c x)).status
          u (st.cells x (omega arith) (omega arith))
          (ap (λ z. z.unit) (run.kept x (omega arith) room) ∙ q) in
      let payload : payload_of (r.entries (idx size c x)) ≡ u.packet.payload = ap payload_of' q in
      let before = stream_bytes size c r.entries k b in
      let joined : stream_bytes size c r.entries (suc k) b ≡ before ++ u.packet.payload =
        stream_bytes-next size c r.entries k b ∙ ap (λ l. before ++ l) payload in
      let stop = x + s.buffer.max_pos_inc in
      let next_x : x + 1 ≡ b + suc k = omega arith in
      rw e (record {
        started = record {
          room = omega (arith, st.room);
          start_eq = inc_pos-idx size c x ∙ ap (idx size c) next_x;
          seq_eq = ap incseq number ∙ incseq-seq_of x ∙ ap seq_of next_x;
          cells =
              subst
                (λ z.
                  Window size c z (z + (s.buffer.max_pos_inc - 1))
                    (update es (idx size c x) no_entry))
                next_x
                (Window-later size c (x + 1) stop (x + 1 + (s.buffer.max_pos_inc - 1))
                  (update es (idx size c x) no_entry) (omega arith)
                  (Window-advance size c x stop es (omega arith) st.cells));
        };
        same_end = omega (arith, run.same_end);
        kept = λ y lo hi.
            update-other size c x y x es no_entry (omega arith) (omega arith) (omega arith)
              (omega arith) (omega arith)
            ∙ run.kept y (omega arith) hi;
        dst_eq =
            ap₂ (λ l n'. l ++ take (min n' (length u.packet.payload)) u.packet.payload) run.dst_eq
              run.remain_eq
            ∙ ap (λ l. take len before ++ l) (take-min (len - length before) u.packet.payload)
            ∙ sym (take-append len before u.packet.payload)
            ∙ ap (take len) (sym joined);
        remain_eq =
            omega (arith, run.remain_eq, ap length joined, length-append before u.packet.payload);
        same_nonread = run.same_nonread;
        same_api = run.same_api;
        same_mode = m ∙ run.same_mode;
      })

  end_message-Run :
      (k at : ℕ) (s : Reading) → Run k s → Run k (record s { buffer = end_message s.buffer at })
  unfolding end_message
  end_message-Run k at s run =
      let st = run.started in
      record {
        started = record {
          room = st.room;
          start_eq = st.start_eq;
          seq_eq = st.seq_eq;
          cells = st.cells;
        };
        same_end = run.same_end;
        kept = run.kept;
        dst_eq = run.dst_eq;
        remain_eq = run.remain_eq;
        same_nonread = run.same_nonread;
        same_api = run.same_api;
        same_mode = run.same_mode;
      }

  unit_of :
      (x : ℕ)
      → has_unit (r.entries (idx size c x)) ≡ true
      → (u : RcvUnit) × ((r.entries (idx size c x)).unit ≡ some u)
  unit_of x h = elim (Option-cases (r.entries (idx size c x)).unit) [
    | inl q ↦ absurd (ground (arith, q, h))
    | inr (u, q) ↦ (u, q)
  ]

  -- The loop reads on to the end of the message, `j` packets later.
  pub read_packets-Run :
      (rounds k j at : ℕ) (s : Reading)
      → Run k s
      → Whole size c true r.entries b (b + k + j)
      → b + k + j < b + size
      → j < rounds
      → Run (k + j + 1) (read_packets size rounds true at (idx size c (b + k)) s)
  unfolding read_packets
  read_packets-Run zero k j at s run w room enough = absurd (omega arith)
  read_packets-Run (suc rounds) k j at s run w room enough =
      let (u, q) = unit_of (b + k) (w.units (b + k) (omega arith) (omega arith)) in
      let here : (s.buffer.entries (idx size c (b + k))).unit ≡ some u =
        ap (λ z. z.unit) (run.kept (b + k) (omega arith) (omega arith)) ∙ q in
      let mark : ends_message (r.entries (idx size c (b + k)))
          ≡ has_last (get_msg_boundary u.packet) =
        rw q refl in
      let run1 = read_packet-Run k s u run (omega arith) q in
      let s1 = read_packet size true (idx size c (b + k)) u.packet s in
      elim (ℕ_discrete j 0) [
        | yes p ↦
            let same : b + k + j ≡ b + k = omega arith in
            let ended =
              sym mark ∙ ap (λ x. ends_message (r.entries (idx size c x))) (sym same) ∙ w.end in
            let count : suc k ≡ k + j + 1 = omega arith in
            rw (read_packets, here, ended)
              (subst (λ n. Run n (record s1 { buffer = end_message s1.buffer at })) count
                (end_message-Run (suc k) at s1 run1))
        | no p ↦
            let goes_on = sym mark ∙ w.inner (b + k) (omega arith) (omega arith) in
            let same : b + k + j ≡ b + suc k + (j - 1) = omega arith in
            let place : b + k + 1 ≡ b + suc k = omega arith in
            let count : suc k + (j - 1) + 1 ≡ k + j + 1 = omega arith in
            rw (read_packets, here, goes_on, inc_pos-idx size c (b + k), place)
              (subst (λ n. Run n (read_packets size rounds true at (idx size c (b + suc k)) s1))
                count
                (read_packets-Run rounds (suc k) (j - 1) at s1 run1
                  (subst (Whole size c true r.entries b) same w) (omega arith) (omega arith)))
      ]
