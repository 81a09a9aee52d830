-- ===== src/RcvBuffer/Stream/Flow.antt =====
-- The bytes of the stream that a receiver buffer holds, and the start that moves over its packets.
use srtplay.Base.{
  ℕ, zero, suc, ◌+◌, ◌-◌, ◌≤◌, ◌<◌, ◌≡◌, refl, sym, ap, ap₂, ◌∙◌, subst, arith, true, false, Option,
  none, some, dec_lt, update, List, [], ◌++◌, length, take, drop, length-append,
}
use srtplay.Base.Slices.{drop-append, drop-drop, take-length, drop-length}
use srtplay.Base.Ring.{idx}
use srtplay.SeqNo.{incseq}
use srtplay.SeqNo.Unwrapped.{incseq-seq_of}
use srtplay.RcvBuffer.{
  RcvBuffer, RcvUnit, Entry, no_entry, has_unit, release_unit_in_pos, count_bytes, is_in_range,
}
use srtplay.RcvBuffer.Valid.{Window-advance, Window-later, inc_pos-idx, update-other}
use srtplay.RcvBuffer.Messages.{Messages, Messages-Agree, done, next}
use srtplay.RcvBuffer.Invariant.{Valid}
use srtplay.RcvBuffer.Range.{is_in_range-idx}
use srtplay.RcvBuffer.Stream.{copy_bytes_to_buf, release_first, close_stream}

abbrev pub payload_of' : Option RcvUnit → List ℕ
payload_of' none = []
payload_of' (some u) = u.packet.payload

abbrev pub payload_of : Entry → List ℕ
payload_of e = payload_of' e.unit

-- The payloads of `k` packets from `x` on.
abbrev pub stream_bytes : ℕ → ℕ → (ℕ → Entry) → ℕ → ℕ → List ℕ
stream_bytes size c entries zero x = []
stream_bytes size c entries (suc k) x =
    payload_of (entries (idx size c x)) ++ stream_bytes size c entries k (x + 1)

-- What is left to read of the `k` packets from `b` on.
abbrev pub unread : ℕ → ℕ → ℕ → ℕ → RcvBuffer → List ℕ
unread size c b k r = drop r.notch (stream_bytes size c r.entries k b)

-- What `copyBytesToBuf` has written after `done`, of the buffer `dst`.
abbrev pub written : List ℕ → List ℕ → List ℕ
written bytes dst = bytes ++ drop (length bytes) dst

pub copy-written :
    (bytes more dst : List ℕ) (k : ℕ)
    → length bytes ≡ k
    → copy_bytes_to_buf (written bytes dst) more k ≡ (true, written (bytes ++ more) dst)
unfolding copy_bytes_to_buf
copy-written bytes more dst k e =
    let total : length bytes + length more ≡ length (bytes ++ more) =
      sym (length-append bytes more) in
    let behind : drop (k + length more) (written bytes dst) ≡ drop (length (bytes ++ more)) dst =
      ap (λ j. drop (j + length more) (written bytes dst)) (sym e)
      ∙ sym (drop-drop (length more) (length bytes) (written bytes dst))
      ∙ ap (drop (length more)) (drop-length bytes (drop (length bytes) dst))
      ∙ drop-drop (length more) (length bytes) dst
      ∙ ap (λ j. drop j dst) total in
    let front : take k (written bytes dst) ≡ bytes =
      ap (λ j. take j (written bytes dst)) (sym e) ∙ take-length bytes (drop (length bytes) dst) in
    rw (front, behind) refl

-- In a stream each packet is a message.
pub stream_first :
    (size c : ℕ) (e : ℕ → Entry) (b n : ℕ)
    → Messages size c false e b n
    → b < n
    → has_unit (e (idx size c b)) ≡ true × Messages size c false e (b + 1) n
stream_first size c e b n done h = absurd (omega arith)
stream_first size c e b n (next {hi = hi} w ms) h = elim (dec_lt b hi) [
  | yes p ↦ let f = w.inner b (omega arith) p in ground (arith, f)
  | no p ↦
      let ordered = w.lo-le in
      let same : hi ≡ b = omega arith in
      (
        w.units b (omega arith) (omega arith),
        subst (λ x. Messages size c false e (x + 1) n) same ms,
      )
]

module _ (size c : ℕ) where
  stream_bytes-agree :
      (e e' : ℕ → Entry) (k x : ℕ)
      → ((y : ℕ) → x ≤ y → y < x + k → e (idx size c y) ≡ e' (idx size c y))
      → stream_bytes size c e k x ≡ stream_bytes size c e' k x
  stream_bytes-agree e e' zero x h = refl
  stream_bytes-agree e e' (suc k) x h =
      ap₂ (λ p q. payload_of p ++ q) (h x (omega arith) (omega arith))
        (stream_bytes-agree e e' k (x + 1) (λ y lo hi. h y (omega arith) (omega arith)))

  -- The start moves over a packet of a stream.
  release_first-Valid :
      (b n : ℕ) (r : RcvBuffer)
      → r.message_api ≡ false
      → b < n
      → Valid size c b n r
      → Valid size c (b + 1) n (release_first size r (idx size c b))
  unfolding release_first release_unit_in_pos
  release_first-Valid b n r api h v =
      let room = v.room in
      let bound = v.n-le in
      let rest =
        (stream_first size c r.entries b n
          (subst (λ a. Messages size c a r.entries b n) api v.messages) h).1 in
      record {
        room = omega arith;
        start_eq = inc_pos-idx size c b;
        seq_eq = ap incseq v.seq_eq ∙ incseq-seq_of b;
        cells =
            (Window-later size c (b + 1) (b + r.max_pos_inc) (b + 1 + (r.max_pos_inc - 1))
              (update r.entries (idx size c b) no_entry) (omega arith)
              (Window-advance size c b (b + r.max_pos_inc) r.entries (omega arith) v.cells));
        nonread_eq = v.nonread_eq;
        n-le = omega arith;
        messages =
            (Messages-Agree size c r.message_api r.entries
              (update r.entries (idx size c b) no_entry) (b + 1) n
              (λ x lo hi. sym (
                update-other size c b x b r.entries no_entry (omega arith) (omega arith)
                  (omega arith) (omega arith) (omega arith)))
              (subst (λ a. Messages size c a r.entries (b + 1) n) (sym api) rest));
      }

  abbrev pub entry_bytes : RcvBuffer → ℕ → List ℕ
  entry_bytes r x = payload_of (r.entries (idx size c x))

  -- What is at hand of a stream between the calls, where it is read without a clock.
  pub record Flow (b k : ℕ) (r : RcvBuffer) : Type 0 where
    pub valid : Valid size c b (b + k) r
    pub stream : r.message_api ≡ false
    pub untimed : r.tsbpd.tsbpd_mode ≡ false
    pub notch-le : 0 < k → r.notch ≤ length (entry_bytes r b)

  release_first-frame :
      (b : ℕ) (r : RcvBuffer)
      → ((release_first size r (idx size c b)).message_api ≡ r.message_api)
        × ((release_first size r (idx size c b)).tsbpd ≡ r.tsbpd)
        × ((release_first size r (idx size c b)).notch ≡ 0)
  unfolding release_first release_unit_in_pos
  release_first-frame b r = (refl, refl, refl)

  pub release_first-Flow :
      (b k : ℕ) (r : RcvBuffer)
      → Flow b (suc k) r
      → Flow (b + 1) k (release_first size r (idx size c b))
  release_first-Flow b k r f =
      let (api, mode, cut) = release_first-frame b r in
      record {
        valid =
            subst (λ n. Valid size c (b + 1) n (release_first size r (idx size c b))) (omega arith)
              (release_first-Valid b (b + suc k) r f.stream (omega arith) f.valid);
        stream = api ∙ f.stream;
        untimed = ap (λ t. t.tsbpd_mode) mode ∙ f.untimed;
        notch-le = λ h. omega (arith, cut);
      }

  -- The bytes behind the first packet.
  pub release_first-unread :
      (b k : ℕ) (r : RcvBuffer)
      → Flow b (suc k) r
      → unread size c (b + 1) k (release_first size r (idx size c b))
        ≡ stream_bytes size c r.entries k (b + 1)
  unfolding release_first release_unit_in_pos
  release_first-unread b k r f =
      let v = f.valid in
      let room = v.room in
      let bound = v.n-le in
      (stream_bytes-agree (update r.entries (idx size c b) no_entry) r.entries k (b + 1) (λ y lo hi.
        update-other size c b y b r.entries no_entry (omega arith) (omega arith) (omega arith)
          (omega arith) (omega arith)))

  -- What is left to read, by the first packet.
  pub unread-first :
      (b k : ℕ) (r : RcvBuffer)
      → Flow b (suc k) r
      → unread size c b (suc k) r
        ≡ drop r.notch (entry_bytes r b) ++ stream_bytes size c r.entries k (b + 1)
  unread-first b k r f =
      let within = f.notch-le (omega arith) in
      let e : r.notch - length (entry_bytes r b) ≡ 0 = omega arith in
      drop-append r.notch (entry_bytes r b) (stream_bytes size c r.entries k (b + 1))
      ∙ ap (λ j. drop r.notch (entry_bytes r b) ++ drop j (stream_bytes size c r.entries k (b + 1)))
          e

  pub notch-Flow :
      (b k m : ℕ) (r : RcvBuffer)
      → Flow b (suc k) r
      → r.notch + m ≤ length (entry_bytes r b)
      → Flow b (suc k) (record r { notch = r.notch + m })
  notch-Flow b k m r f h =
      let v = f.valid in
      record {
        valid = record {
          room = v.room;
          start_eq = v.start_eq;
          seq_eq = v.seq_eq;
          cells = v.cells;
          nonread_eq = v.nonread_eq;
          n-le = v.n-le;
          messages = v.messages;
        };
        stream = f.stream;
        untimed = f.untimed;
        notch-le = λ z. h;
      }

  -- The counts do not matter, and the end of what can be read is in the range.
  pub close_stream-Flow :
      (b k bytes_read : ℕ) (r : RcvBuffer)
      → Flow b k r
      → Flow b k (close_stream size r bytes_read)
        × (unread size c b k (close_stream size r bytes_read) ≡ unread size c b k r)
  unfolding close_stream count_bytes
  close_stream-Flow b k bytes_read r f =
      let v = f.valid in
      let e : is_in_range size r.start_pos r.max_pos_inc r.first_nonread_pos ≡ true =
        ap₂ (λ x y. is_in_range size x r.max_pos_inc y) v.start_eq v.nonread_eq
        ∙ is_in_range-idx size c b (b + k) r.max_pos_inc (omega arith) v.n-le v.room in
      rw e (
        record {
          valid = record {
            room = v.room;
            start_eq = v.start_eq;
            seq_eq = v.seq_eq;
            cells = v.cells;
            nonread_eq = v.nonread_eq;
            n-le = v.n-le;
            messages = v.messages;
          };
          stream = f.stream;
          untimed = f.untimed;
          notch-le = f.notch-le;
        },
        refl,
      )
