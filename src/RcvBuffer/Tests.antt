-- ===== src/RcvBuffer/Tests.antt =====
-- Buffers of four places with the packets 5 and 6, or with a dropped one, and the theorems there.
use srtplay.Base.{
  ℕ, ◌+◌, ◌-◌, ◌≤◌, ◌<◌, ◌≡◌, refl, arith, Bool, true, false, List, [], ◌∷◌, none, some, Option,
  update, subst, sym, ℕ_discrete, min, length, take, drop,
}
use srtplay.Base.Int.{pos, negsuc}
use srtplay.Base.Ring.{idx}
use srtplay.SeqNo.Unwrapped.{seq_of, Near}
use srtplay.Packet.{Packet, get_msg_order_flag, has_first, has_last, get_msg_boundary, to_boundary}
use srtplay.TsbpdTime.{TsbpdTime, new_tracer}
use srtplay.UnitQueue.{good}
use srtplay.RcvBuffer.{
  RcvUnit, Entry, EntryStatus, avail, RcvBuffer, no_entry, is_empty, has_unit, release_fillers,
}
use srtplay.RcvBuffer.OutOfOrder.{update_first_readable_out_of_order}
use srtplay.RcvBuffer.OutOfOrder.Ends.{unordered, update_first_readable-ends}
use srtplay.RcvBuffer.Valid.{Cell, Window}
use srtplay.RcvBuffer.Messages.{ends, Whole, Messages, next, done}
use srtplay.RcvBuffer.Invariant.{Valid, Updated}
use srtplay.RcvBuffer.Advance.{Started, Released, release_fillers-Released}
use srtplay.RcvBuffer.Insert.{insert}
use srtplay.RcvBuffer.Insert.Outcome.{insert-refused, insert-kept}
use srtplay.RcvBuffer.Drop.{drop_up_to}
use srtplay.RcvBuffer.Drop.UpTo.{DroppedTo, drop_up_to-DroppedTo}
use srtplay.RcvBuffer.Read.{read_message, MsgCtrl}
use srtplay.RcvBuffer.Read.Message.{ReadTo, read_message-ReadTo}
use srtplay.RcvBuffer.Stream.{read_buffer}
use srtplay.RcvBuffer.Stream.Flow.{Flow, unread, written, stream_bytes}
use srtplay.RcvBuffer.Stream.Fifo.{read_buffer-unread}

-- A message of two packets.
abbrev packet5 : Packet
packet5 = record { seq_no = 5; msgno_word = 0x80000001; time_stamp = 100; payload = 1 ∷ 2 ∷ 3 ∷ [] }

abbrev packet6 : Packet
packet6 = record { seq_no = 6; msgno_word = 0x40000001; time_stamp = 110; payload = 4 ∷ 5 ∷ [] }

-- One that is a message.
abbrev packet7 : Packet
packet7 = record { seq_no = 7; msgno_word = 0xC0000002; time_stamp = 120; payload = 6 ∷ [] }

abbrev unit5 : RcvUnit
unit5 = record { unit_id = 0; packet = packet5 }

abbrev unit6 : RcvUnit
unit6 = record { unit_id = 1; packet = packet6 }

abbrev unit7 : RcvUnit
unit7 = record { unit_id = 2; packet = packet7 }

abbrev held : RcvUnit → Entry
held u = record { unit = some u; status = avail }

abbrev times : Bool → TsbpdTime
times mode = record {
  first_rtt = negsuc 0;
  tsbpd_mode = mode;
  delay = pos 0;
  time_base = pos 0;
  wrap_check = false;
  tracer = new_tracer;
}

abbrev buffer_of : (ℕ → Entry) → Bool → Bool → RcvBuffer
buffer_of es api mode = record {
  entries = es;
  unit_queue = record { flags = λ i. good; num_taken = pos 2 };
  start_seq_no = 5;
  start_pos = 0;
  first_nonread_pos = 2;
  max_pos_inc = 2;
  notch = 0;
  num_out_of_order_packets = 2;
  first_readable_out_of_order = none;
  peer_rexmit_flag = true;
  message_api = api;
  tsbpd = times mode;
  bytes_count = pos 5;
  pkts_count = pos 2;
  avg_payload_sz = 1316;
}

-- The places 0 and 1 are those of the packets 5 and 6.
abbrev both : ℕ → Entry
both = update (update (λ i. no_entry) 0 (held unit5)) 1 (held unit6)

abbrev dropped : ℕ → Entry
dropped =
    update (update (λ i. no_entry) 0 (record { unit = none; status = EntryStatus.drop })) 1
      (held unit6)

-- What holds at the four positions holds in the window.
four : (P : ℕ → Type 0) → P 5 → P 6 → P 7 → P 8 → (x : ℕ) → 5 ≤ x → x < 5 + 4 → P x
four P p5 p6 p7 p8 x lo hi = elim (ℕ_discrete x 5) [
  | yes e ↦ subst P (sym e) p5
  | no n5 ↦ elim (ℕ_discrete x 6) [
    | yes e ↦ subst P (sym e) p6
    | no n6 ↦ elim (ℕ_discrete x 7) [
      | yes e ↦ subst P (sym e) p7
      | no n7 ↦ let e : 8 ≡ x = omega arith in subst P e p8
    ]
  ]
]

both-Window : Window 4 3 5 7 both
unfolding update idx seq_of
both-Window =
    four (λ x. Cell 7 x (both (idx 4 3 x))) (refl, refl, omega arith) (refl, refl, omega arith) tt
      tt

dropped-Window : Window 4 3 5 7 dropped
unfolding update idx seq_of
dropped-Window =
    four (λ x. Cell 7 x (dropped (idx 4 3 x))) (omega arith) (refl, refl, omega arith) tt tt

-- With the message API the two packets are a message, in a stream each is for itself.
pair_message : Whole 4 3 true both 5 6
unfolding update idx has_first has_last get_msg_boundary to_boundary
pair_message = record {
  lo-le = omega arith;
  start = refl;
  units = λ x lo hi.
      four (λ y. y < 7 → has_unit (both (idx 4 3 y)) ≡ true) (λ h. refl) (λ h. refl)
        (λ h. absurd (omega arith)) (λ h. absurd (omega arith)) x lo (omega arith) (omega arith);
  inner = λ x lo hi.
      let e : 5 ≡ x = omega arith in subst (λ y. ends true (both (idx 4 3 y)) ≡ false) e refl;
  end = refl;
}

single : (x : ℕ) → has_unit (both (idx 4 3 x)) ≡ true → Whole 4 3 false both x x
single x h = record {
  lo-le = omega arith;
  start = refl;
  units =
      λ y lo hi. let e : x ≡ y = omega arith in subst (λ z. has_unit (both (idx 4 3 z)) ≡ true) e h;
  inner = λ y lo hi. absurd (omega arith);
  end = refl;
}

singles : Messages 4 3 false both 5 7
unfolding update idx
singles = next (single 5 refl) (next (single 6 refl) done)

buffer-Valid :
    (api mode : Bool) → Messages 4 3 api both 5 7 → Valid 4 3 5 7 (buffer_of both api mode)
unfolding idx seq_of
buffer-Valid api mode ms = record {
  room = omega arith;
  start_eq = refl;
  seq_eq = refl;
  cells = both-Window;
  nonread_eq = refl;
  n-le = omega arith;
  messages = ms;
}

abbrev live : RcvBuffer
live = buffer_of both true true

live-Valid : Valid 4 3 5 7 live
live-Valid = buffer-Valid true true (next pair_message done)

Near-7 : Near 5 7
Near-7 = (omega arith, omega arith)

number_7 : 7 ≡ seq_of 7
unfolding seq_of
number_7 = refl

Near-5 : Near 5 5
Near-5 = (omega arith, omega arith)

number_5 : 5 ≡ seq_of 5
unfolding seq_of
number_5 = refl

taken_5 : is_empty (live.entries (idx 4 3 5)).status ≡ false
unfolding update idx
taken_5 = refl

-- The packet 5 comes once more.
insert-refused_example : insert 4 live unit5 ≡ (negsuc 0, live)
insert-refused_example =
    (insert-refused 4 3 5 7 5 live unit5 live-Valid Near-5 number_5).2 (omega arith) (omega arith)
      taken_5

vacant_7 : is_empty (both (idx 4 3 7)).status ≡ true
unfolding update idx
vacant_7 = refl

insert-kept_example :
    ((insert 4 live unit7).0 ≡ pos 0)
    × ((insert 4 live unit7).1.entries ≡ update both (idx 4 3 7) (held unit7))
    × Updated 4 3 5 7 (insert 4 live unit7).1
insert-kept_example =
    insert-kept 4 3 5 7 7 live unit7 live-Valid Near-7 number_7 (omega arith) (omega arith) vacant_7

drop_up_to-DroppedTo_example :
    (6 ≤ 5 → drop_up_to 4 live (seq_of 6) ≡ some (0, live))
    × (5 < 6
        → (r' : RcvBuffer) × (drop_up_to 4 live (seq_of 6) ≡ some (1, r'))
          × DroppedTo 4 3 5 6 live r')
drop_up_to-DroppedTo_example =
    drop_up_to-DroppedTo 4 3 5 7 6 live live-Valid (omega arith, omega arith) refl

read_message-ReadTo_example :
    (hi : ℕ) × (ctrl' : Option MsgCtrl) × (r' : RcvBuffer) × Whole 4 3 true both 5 hi
    × (hi < 7)
    × (read_message 4 live 4 none ≡ some (take 4 (stream_bytes 4 3 both (hi + 1 - 5) 5), ctrl', r'))
    × ReadTo 4 3 5 hi 7 live r'
read_message-ReadTo_example =
    read_message-ReadTo 4 3 5 7 4 live none live-Valid refl refl (omega arith)

abbrev file : RcvBuffer
file = buffer_of both false false

file-Flow : Flow 4 3 5 2 file
unfolding update idx
file-Flow = record {
  valid = buffer-Valid false false singles;
  stream = refl;
  untimed = refl;
  notch-le = λ h. omega arith;
}

abbrev target : List ℕ
target = 0 ∷ 0 ∷ 0 ∷ 0 ∷ 0 ∷ 0 ∷ []

read_buffer-unread_example :
    (b' : ℕ) × (k' : ℕ) × (r' : RcvBuffer) × (read_buffer 4 (pos 0) file target 4 ≡ (
      pos (min 4 (length (unread 4 3 5 2 file))),
      written (take 4 (unread 4 3 5 2 file)) target,
      r',
    ))
    × (b' + k' ≡ 5 + 2)
    × Flow 4 3 b' k' r'
    × (unread 4 3 b' k' r' ≡ drop 4 (unread 4 3 5 2 file))
read_buffer-unread_example = read_buffer-unread 4 3 (pos 0) 5 2 4 file target file-Flow

abbrev skipping : RcvBuffer
skipping = buffer_of dropped true true

skipping-Started : Started 4 3 5 skipping
unfolding idx seq_of
skipping-Started = record {
  room = omega arith;
  start_eq = refl;
  seq_eq = refl;
  cells = dropped-Window;
}

release_fillers-Released_example :
    (b' : ℕ) × Released 4 3 5 b' skipping (release_fillers 4 4 skipping)
release_fillers-Released_example =
    release_fillers-Released 4 3 4 5 skipping skipping-Started (omega arith)

abbrev unsorted : RcvBuffer
unsorted = record (buffer_of both true false) { first_nonread_pos = 0 }

unsorted_count : 2 ≤ unordered 4 3 both 4 5
unfolding update idx get_msg_order_flag
unsorted_count = omega arith

update_first_readable-ends_example :
    (o : Option ℕ) × (update_first_readable_out_of_order 4 unsorted
      ≡ some (record unsorted { first_readable_out_of_order = o }))
unfolding idx
update_first_readable-ends_example = update_first_readable-ends 4 3 5 unsorted refl unsorted_count
