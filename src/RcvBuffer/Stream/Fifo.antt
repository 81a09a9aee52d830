-- ===== src/RcvBuffer/Stream/Fifo.antt =====
-- `readBufferTo` hands over the bytes of the packets in order.
use mathlib.Core.List.{append-nil, append_assoc}
use srtplay.Base.{
  ℕ, zero, suc, ◌+◌, ◌-◌, ◌≤◌, ◌<◌, ◌≡◌, refl, sym, ap, ap₂, ◌∙◌, subst, arith, true, false, dec_lt,
  ℕ_discrete, ◌==◌, min, Bool-cases, ◌⊎◌, inl, inr, List, [], ◌++◌, length, take, drop,
  length-append, length-drop,
}
use srtplay.Base.Slices.{take-all, drop-all, take-append, drop-append, drop-drop}
use srtplay.Base.Int.{ℤ, pos}
use srtplay.Base.Ring.{idx}
use srtplay.RcvBuffer.{RcvBuffer}
use srtplay.RcvBuffer.Valid.{inc_pos-idx}
use srtplay.RcvBuffer.Stream.{
  Streaming, copy_bytes_to_buf, release_first, stream_from, close_stream, read_buffer_to,
  read_buffer,
}
use srtplay.RcvBuffer.Stream.Flow.{
  Flow, payload_of', stream_bytes, unread, written, entry_bytes, release_first-Flow,
  release_first-unread, unread-first, close_stream-Flow, notch-Flow,
}
use srtplay.RcvBuffer.Stream.Round.{at_end, first_unit, packet-whole, packet-part}

module _ (size c : ℕ) where
  -- What a loop over the `k` packets from `b` on has come to, after `bytes` were written before.
  record Streamed (b k : ℕ) (bytes dst : List ℕ) (s s' : Streaming (List ℕ)) : Type 0 where
    ok : s'.failed ≡ false
    target_eq : s'.target ≡ written (bytes ++ take s.rs (unread size c b k s.buffer)) dst
    rs_eq : s'.rs ≡ s.rs - length (unread size c b k s.buffer)
    begin : ℕ
    left : ℕ
    same_end : begin + left ≡ b + k
    flow : Flow size c begin left s'.buffer
    rest : unread size c begin left s'.buffer ≡ drop s.rs (unread size c b k s.buffer)

  module _ (now : ℤ) (len : ℕ) (dst : List ℕ) where
    abbrev stream : ℕ → ℕ → ℕ → Streaming (List ℕ) → Streaming (List ℕ)
    stream rounds x y s =
        stream_from size copy_bytes_to_buf now len rounds (idx size c x) (idx size c y) s

    nothing_taken :
        (n : ℕ) (bytes : List ℕ)
        → (bytes ≡ []) ⊎ (n ≡ 0)
        → (take n bytes ≡ []) × (n ≡ n - length bytes) × (bytes ≡ drop n bytes)
    nothing_taken n bytes (inl e) =
        rw e (take-all n [] (omega arith), omega arith, sym (drop-all n [] (omega arith)))
    nothing_taken n bytes (inr e) = rw e (refl, omega arith, refl)

    -- Nothing is left to read, or nothing more is asked for.
    stay :
        (b k : ℕ) (bytes : List ℕ) (s : Streaming (List ℕ))
        → Flow size c b k s.buffer
        → s.failed ≡ false
        → s.target ≡ written bytes dst
        → (unread size c b k s.buffer ≡ []) ⊎ (s.rs ≡ 0)
        → Streamed b k bytes dst s s
    stay b k bytes s f ok at_target why =
        let (none_taken, same, all) = nothing_taken s.rs (unread size c b k s.buffer) why in
        record {
          ok = ok;
          target_eq =
              at_target
              ∙ ap (λ l. written l dst)
                  (sym (append-nil bytes) ∙ ap (λ l. bytes ++ l) (sym none_taken));
          rs_eq = same;
          begin = b;
          left = k;
          same_end = refl;
          flow = f;
          rest = all;
        }

    -- The first packet is read to its end, and the loop goes on behind it.
    after-whole :
        (b k : ℕ) (bytes part : List ℕ) (s s1 s' : Streaming (List ℕ))
        → unread size c b (suc k) s.buffer ≡ part ++ unread size c (b + 1) k s1.buffer
        → length part ≤ s.rs
        → s1.rs ≡ s.rs - length part
        → Streamed (b + 1) k (bytes ++ part) dst s1 s'
        → Streamed b (suc k) bytes dst s s'
    after-whole b k bytes part s s1 s' split fits less st =
        let behind = unread size c (b + 1) k s1.buffer in
        let all : take s.rs (part ++ behind) ≡ part ++ take s1.rs behind =
          take-append s.rs part behind
          ∙ ap₂ (λ p j. p ++ take j behind) (take-all s.rs part fits) (sym less) in
        let gone : drop s.rs (part ++ behind) ≡ drop s1.rs behind =
          drop-append s.rs part behind
          ∙ ap₂ (λ p j. p ++ drop j behind) (drop-all s.rs part fits) (sym less) in
        record {
          ok = st.ok;
          target_eq =
              st.target_eq
              ∙ ap (λ l. written l dst)
                  (append_assoc bytes part (take s1.rs behind)
                    ∙ ap (λ l. bytes ++ l) (sym all ∙ ap (take s.rs) (sym split)));
          rs_eq = omega (arith, st.rs_eq, less, ap length split, length-append part behind);
          begin = st.begin;
          left = st.left;
          same_end = omega (arith, st.same_end);
          flow = st.flow;
          rest = st.rest ∙ sym gone ∙ ap (drop s.rs) (sym split);
        }

    -- The first packet is read in part, which is all that is asked for.
    after-part :
        (b k : ℕ) (bytes part behind : List ℕ) (s s1 : Streaming (List ℕ))
        → unread size c b (suc k) s.buffer ≡ part ++ behind
        → s.rs < length part
        → Flow size c b (suc k) s1.buffer
        → s1.failed ≡ false
        → s1.rs ≡ 0
        → s1.target ≡ written (bytes ++ take s.rs part) dst
        → unread size c b (suc k) s1.buffer ≡ drop s.rs (unread size c b (suc k) s.buffer)
        → Streamed b (suc k) bytes dst s s1
    after-part b k bytes part behind s s1 split more f ok none_left at_target left =
        let e : s.rs - length part ≡ 0 = omega arith in
        let all : take s.rs (part ++ behind) ≡ take s.rs part =
          take-append s.rs part behind
          ∙ ap (λ j. take s.rs part ++ take j behind) e
          ∙ append-nil (take s.rs part) in
        record {
          ok = ok;
          target_eq =
              at_target ∙ ap (λ l. written (bytes ++ l) dst) (sym all ∙ ap (take s.rs) (sym split));
          rs_eq = omega (arith, none_left, ap length split, length-append part behind);
          begin = b;
          left = suc k;
          same_end = refl;
          flow = f;
          rest = left;
        }

    idle : (rounds x y : ℕ) (s : Streaming (List ℕ)) → s.rs ≡ 0 → stream rounds x y s ≡ s
    unfolding stream_from
    idle zero x y s e = refl
    idle (suc rounds) x y s e =
        let asked : (s.rs == 0) ≡ true = ground (arith, e) in
        elim (Bool-cases (idx size c y == idx size c x)) [
          | inl q ↦ rw q refl
          | inr q ↦ rw (q, asked) refl
        ]

    loop :
        (rounds b k : ℕ) (bytes : List ℕ) (s : Streaming (List ℕ))
        → Flow size c b k s.buffer
        → s.failed ≡ false
        → s.target ≡ written bytes dst
        → length bytes + s.rs ≡ len
        → k < rounds
        → Streamed b k bytes dst s (stream rounds (b + k) b s)
    unfolding stream_from
    loop zero b k bytes s f ok at_target total enough = absurd (omega arith)
    loop (suc rounds) b zero bytes s f ok at_target total enough =
        let same : b ≡ b + 0 = omega arith in
        let here : (idx size c b == idx size c (b + 0)) ≡ true =
          ground (arith, ap (idx size c) same) in
        rw here (stay b 0 bytes s f ok at_target (inl (drop-all s.buffer.notch [] (omega arith))))
    loop (suc rounds) b (suc k) bytes s f ok at_target total enough = elim (ℕ_discrete s.rs 0) [
      | yes p ↦
          let asked : (s.rs == 0) ≡ true = ground (arith, p) in
          rw (at_end size c b k s.buffer f, asked) (stay b (suc k) bytes s f ok at_target (inr p))
      | no p ↦
          let (u, q) = first_unit size c b k s.buffer f in
          let asked : (s.rs == 0) ≡ false = ground (arith, p) in
          let part = drop s.buffer.notch u.packet.payload in
          let payload : entry_bytes size c s.buffer b ≡ u.packet.payload = ap payload_of' q in
          let behind = stream_bytes size c s.buffer.entries k (b + 1) in
          let split : unread size c b (suc k) s.buffer ≡ part ++ behind =
            unread-first size c b k s.buffer f
            ∙ ap (λ l. drop s.buffer.notch l ++ behind) payload in
          elim (dec_lt s.rs (length part)) [
            | no fits ↦
                let s1 = record s {
                  buffer = release_first size s.buffer (idx size c b);
                  target = written (bytes ++ part) dst;
                  rs = s.rs - length part;
                } in
                let after =
                  loop rounds (b + 1) k (bytes ++ part) s1
                    (release_first-Flow size c b k s.buffer f) ok refl
                    (omega (arith, length-append bytes part)) (omega arith) in
                let same : b + 1 + k ≡ b + suc k = omega arith in
                rw
                  (
                    at_end size c b k s.buffer f,
                    asked,
                    q,
                    packet-whole size c now len dst rounds b k bytes s f at_target total
                        (omega arith) u q (omega arith),
                    inc_pos-idx size c b,
                  )
                  (subst (λ x. Streamed b (suc k) bytes dst s (stream rounds x (b + 1) s1)) same
                    (after-whole b k bytes part s s1 (stream rounds (b + 1 + k) (b + 1) s1)
                      (split
                        ∙ ap (λ l. part ++ l) (sym (release_first-unread size c b k s.buffer f)))
                      (omega arith) refl after))
            | yes more ↦
                let s1 = record s {
                  buffer = record s.buffer { notch = s.buffer.notch + s.rs };
                  target = written (bytes ++ take s.rs part) dst;
                  rs = 0;
                } in
                let within : s.buffer.notch + s.rs ≤ length (entry_bytes size c s.buffer b) =
                  omega (
                    arith,
                    ap length payload,
                    length-drop s.buffer.notch u.packet.payload,
                    f.notch-le,
                  ) in
                rw
                  (
                    at_end size c b k s.buffer f,
                    asked,
                    q,
                    packet-part size c now len dst rounds b k bytes s f at_target total
                        (omega arith) u q (omega arith),
                    idle rounds (b + suc k) b s1 refl,
                  )
                  (after-part b k bytes part behind s s1 split more
                    (notch-Flow size c b k s.rs s.buffer f within) ok refl refl
                    (sym (
                      drop-drop s.rs s.buffer.notch
                        (stream_bytes size c s.buffer.entries (suc k) b))))
          ]
    ]

  -- `readBuffer` writes the next bytes of the stream to the buffer, as many as it is asked for or as there
  -- are, and leaves the others.
  pub read_buffer-unread :
      (now : ℤ) (b k len : ℕ) (r : RcvBuffer) (dst : List ℕ)
      → Flow size c b k r
      → (b' : ℕ) × (k' : ℕ) × (r' : RcvBuffer) × (read_buffer size now r dst len ≡ (
        pos (min len (length (unread size c b k r))),
        written (take len (unread size c b k r)) dst,
        r',
      ))
        × (b' + k' ≡ b + k)
        × Flow size c b' k' r'
        × (unread size c b' k' r' ≡ drop len (unread size c b k r))
  unfolding read_buffer read_buffer_to
  read_buffer-unread now b k len r dst f =
      let v = f.valid in
      let room = v.room in
      let bound = v.n-le in
      let s : Streaming (List ℕ) = record { buffer = r; rs = len; target = dst; failed = false } in
      let st = loop now len dst (size + 1) b k [] s f refl refl (omega arith) (omega arith) in
      let bytes = unread size c b k r in
      let places : stream_from size copy_bytes_to_buf now len (size + 1) r.first_nonread_pos
            r.start_pos s
          ≡ stream now len dst (size + 1) (b + k) b s =
        ap₂ (λ x y. stream_from size copy_bytes_to_buf now len (size + 1) x y s) v.nonread_eq
          v.start_eq in
      let count : len - (len - length bytes) ≡ min len (length bytes) = omega arith in
      let s' = stream now len dst (size + 1) (b + k) b s in
      let closed = close_stream-Flow size c st.begin st.left (len - s'.rs) s'.buffer st.flow in
      (
        st.begin,
        st.left,
        close_stream size s'.buffer (len - s'.rs),
        rw (places, st.ok, st.target_eq, st.rs_eq, count) refl,
        st.same_end,
        closed.0,
        closed.1 ∙ st.rest,
      )
