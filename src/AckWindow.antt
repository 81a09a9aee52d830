-- ===== src/AckWindow.antt =====
-- `CACKWindow` (srt/srtcore/window.h) and `ACKWindowTools` (srt/srtcore/window.cpp): the ring in which
-- the receiver of data keeps the ACKs that it has sent until their ACKACK comes.
-- Times are microseconds of the steady clock; `now` is an argument. The arrays are read inside their
-- bounds only (`AckWindow.Records`), so the default of `get_or` is never met.
pub mod Records
pub mod Acknowledge
mod Tests
use srtplay.Base.{
  ℕ, zero, suc, ◌+◌, ◌-◌, ◌%◌, Bool, ◌==◌, leb, if◌then◌else◌, List, Option, none, some, set,
  get_or, replicate,
}
use srtplay.Base.Int.{ℤ, pos, negsuc, sub_ℕ, eqb_ℤ, to_int32}

-- `ACKWindowTools::Seq`
pub record Seq : Type 0 where
  pub ack_seq_no : ℤ
  pub ack : ℤ
  pub time_stamp : ℕ

-- `SRT_SEQNO_NONE`
abbrev pub seqno_none : ℤ
seqno_none = negsuc 0

abbrev pub zero_seq : Seq
zero_seq = record { ack_seq_no = pos 0; ack = pos 0; time_stamp = 0 }

pub record AckWindow : Type 0 where
  pub seqs : List Seq
  pub head : ℕ
  pub tail : ℕ

-- What `acknowledge` returns: the RTT, what it writes to `r_ack`, if anything, and the window.
pub record Answer : Type 0 where
  pub rtt : ℤ
  pub r_ack : Option ℤ
  pub window : AckWindow

-- `r_aSeq[i].iACKSeqNo = SRT_SEQNO_NONE`
abbrev clear_seq : List Seq → ℕ → List Seq
clear_seq a i = set a i (record (get_or a i zero_seq) { ack_seq_no = seqno_none })

-- `count_microseconds(currtime - tsTimeStamp)` as an `int`
unfoldable pub rtt_of : ℕ → ℕ → ℤ
rtt_of currtime stamp = to_int32 (sub_ℕ currtime stamp)

not_found : AckWindow → Answer
not_found w = record { rtt = negsuc 0; r_ack = none; window = w }

module _ (size : ℕ) where
  pub init : AckWindow
  init = record { seqs = clear_seq (replicate size zero_seq) 0; head = 0; tail = 0 }

  pub store : AckWindow → ℤ → ℤ → ℕ → AckWindow
  store w seq ack now =
      let head' = (w.head + 1) % size in
      record {
        seqs = set w.seqs w.head (record { ack_seq_no = seq; ack = ack; time_stamp = now });
        head = head';
        tail = if head' == w.tail then (w.tail + 1) % size else w.tail;
      }

  -- What a match at `j` does; `next_is_head` is the loop's test for a window that is now empty.
  answer : AckWindow → ℕ → Bool → ℕ → Answer
  answer w j next_is_head currtime =
      let r = get_or w.seqs j zero_seq in
      record {
        rtt = rtt_of currtime r.time_stamp;
        r_ack = some r.ack;
        window =
            if next_is_head
            then record { seqs = clear_seq w.seqs 0; head = 0; tail = 0 }
            else record w { tail = (j + 1) % size };
      }

  -- The loop where the head has not passed the end of the array: `rounds` entries from `i` on.
  acknowledge_flat : AckWindow → ℤ → ℕ → ℕ → ℕ → Answer
  unfolding answer not_found
  acknowledge_flat w seq currtime i zero = not_found w
  acknowledge_flat w seq currtime i (suc rounds) =
      let rest = acknowledge_flat w seq currtime (i + 1) rounds in
      if eqb_ℤ seq (get_or w.seqs i zero_seq).ack_seq_no
      then answer w i (i + 1 == w.head) currtime
      else rest

  -- The loop where the head is behind the tail.
  acknowledge_wrapped : AckWindow → ℤ → ℕ → ℕ → ℕ → Answer
  unfolding answer not_found
  acknowledge_wrapped w seq currtime j zero = not_found w
  acknowledge_wrapped w seq currtime j (suc rounds) =
      let rest = acknowledge_wrapped w seq currtime (j + 1) rounds in
      if eqb_ℤ seq (get_or w.seqs (j % size) zero_seq).ack_seq_no
      then answer w (j % size) (j % size == w.head) currtime
      else rest

  pub acknowledge : AckWindow → ℤ → ℕ → Answer
  unfolding acknowledge_flat acknowledge_wrapped
  acknowledge w seq currtime =
      if leb w.tail w.head
      then acknowledge_flat w seq currtime w.tail (w.head - w.tail)
      else acknowledge_wrapped w seq currtime w.tail (w.head + size - w.tail)
