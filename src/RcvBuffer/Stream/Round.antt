-- ===== src/RcvBuffer/Stream/Round.antt =====
-- One round of the loop of `readBufferTo`, with `copyBytesToBuf`.
use srtplay.Base.{
  ℕ, suc, ◌+◌, ◌-◌, ◌≤◌, ◌<◌, ◌≡◌, refl, sym, ap, subst, arith, true, false, some, ◌==◌, leb, min,
  Option-cases, inl, inr, List, ◌++◌, length, take, drop, length-drop,
}
use srtplay.Base.Slices.{take-all}
use srtplay.Base.Int.{ℤ}
use srtplay.Base.Ring.{idx, idx-ne}
use srtplay.RcvBuffer.{RcvBuffer, RcvUnit}
use srtplay.RcvBuffer.Messages.{Messages}
use srtplay.RcvBuffer.Stream.{
  Streaming, copy_bytes_to_buf, release_first, too_early, unread_part, stream_packet, onward, again,
}
use srtplay.RcvBuffer.Stream.Flow.{Flow, written, copy-written, stream_first}

module _ (size c : ℕ) where
  pub at_end :
      (b k : ℕ) (r : RcvBuffer)
      → Flow size c b (suc k) r
      → (idx size c b == idx size c (b + suc k)) ≡ false
  at_end b k r f =
      let v = f.valid in
      let room = v.room in
      let bound = v.n-le in ground (arith, idx-ne size c b (b + suc k) (omega arith) (omega arith))

  pub first_unit :
      (b k : ℕ) (r : RcvBuffer)
      → Flow size c b (suc k) r
      → (u : RcvUnit) × ((r.entries (idx size c b)).unit ≡ some u)
  first_unit b k r f =
      let v = f.valid in
      let there =
        (stream_first size c r.entries b (b + suc k)
          (subst (λ a. Messages size c a r.entries b (b + suc k)) f.stream v.messages)
          (omega arith)).0 in
      elim (Option-cases (r.entries (idx size c b)).unit) [
        | inl q ↦ absurd (ground (arith, q, there))
        | inr (u, q) ↦ (u, q)
      ]

  module _ (now : ℤ) (len : ℕ) (dst : List ℕ) where
    module _ (rounds b k : ℕ) (bytes : List ℕ) (s : Streaming (List ℕ))
        (f : Flow size c b (suc k) s.buffer) (at_target : s.target ≡ written bytes dst)
        (total : length bytes + s.rs ≡ len) (asked : 0 < s.rs) (u : RcvUnit)
        (q : (s.buffer.entries (idx size c b)).unit ≡ some u) where
      abbrev first_bytes : List ℕ
      first_bytes = drop s.buffer.notch u.packet.payload

      going : (s.rs == 0) ≡ false
      going = ground (arith, asked)

      in_time : too_early size copy_bytes_to_buf now len s.buffer u.packet ≡ false
      unfolding too_early
      in_time = rw f.untimed refl

      copied :
          (part : List ℕ)
          → unread_part size copy_bytes_to_buf now len s.buffer s.rs u.packet ≡ part
          → copy_bytes_to_buf s.target
              (unread_part size copy_bytes_to_buf now len s.buffer s.rs u.packet)
              (len - s.rs)
            ≡ (true, written (bytes ++ part) dst)
      copied part e = rw (at_target, e) (copy-written bytes part dst (len - s.rs) (omega arith))

      unread-length : length u.packet.payload - s.buffer.notch ≡ length first_bytes
      unread-length = sym (length-drop s.buffer.notch u.packet.payload)

      part-all :
          length first_bytes ≤ s.rs
          → unread_part size copy_bytes_to_buf now len s.buffer s.rs u.packet ≡ first_bytes
      unfolding unread_part
      part-all fits =
          rw unread-length (take-all (min (length first_bytes) s.rs) first_bytes (omega arith))

      part-some :
          s.rs < length first_bytes
          → unread_part size copy_bytes_to_buf now len s.buffer s.rs u.packet
            ≡ take s.rs first_bytes
      unfolding unread_part
      part-some more =
          let e : min (length first_bytes) s.rs ≡ s.rs = omega arith in
          rw unread-length (ap (λ j. take j first_bytes) e)

      pub packet-whole :
          length first_bytes ≤ s.rs
          → stream_packet size copy_bytes_to_buf now len (idx size c b) u.packet s
            ≡ onward (record s {
              buffer = release_first size s.buffer (idx size c b);
              target = written (bytes ++ first_bytes) dst;
              rs = s.rs - length first_bytes;
            })
      unfolding stream_packet
      packet-whole fits =
          let all : unread_part size copy_bytes_to_buf now len s.buffer s.rs u.packet
              ≡ first_bytes =
            part-all fits in
          let test : leb (length first_bytes) s.rs ≡ true = ground (arith, fits) in
          let least : min (length first_bytes) s.rs ≡ length first_bytes = omega arith in
          rw (in_time, copied first_bytes all, unread-length, test, least)
            (ap
              (λ t. onward (record s {
                buffer = release_first size s.buffer (idx size c b);
                target = t;
                rs = s.rs - length first_bytes;
              }))
              (ap (λ z. z.1) (copied first_bytes all)))

      pub packet-part :
          s.rs < length first_bytes
          → stream_packet size copy_bytes_to_buf now len (idx size c b) u.packet s
            ≡ again (record s {
              buffer = record s.buffer { notch = s.buffer.notch + s.rs };
              target = written (bytes ++ take s.rs first_bytes) dst;
              rs = 0;
            })
      unfolding stream_packet
      packet-part more =
          let some_bytes = part-some more in
          let test : leb (length first_bytes) s.rs ≡ false = ground (arith, more) in
          let none_left : s.rs - min (length first_bytes) s.rs ≡ 0 = omega arith in
          rw (in_time, copied (take s.rs first_bytes) some_bytes, unread-length, test, none_left)
            (ap
              (λ t. again (record s {
                buffer = record s.buffer { notch = s.buffer.notch + s.rs };
                target = t;
                rs = 0;
              }))
              (ap (λ z. z.1) (copied (take s.rs first_bytes) some_bytes)))
