-- ===== src/AckWindow/Tests.antt =====
-- A window of four places whose head has gone round, and the theorems there.
use srtplay.Base.{ℕ, ◌≡◌, refl, ◌∷◌, [], ◌+◌, some, none, arith}
use srtplay.Base.Int.{pos, negsuc, to_int32}
use srtplay.AckWindow.{Seq, AckWindow, rtt_of, store, acknowledge}
use srtplay.AckWindow.Records.{IsValid, records}
use srtplay.AckWindow.Acknowledge.{seen, search_acks, acknowledge_refines, acknowledge-store}

abbrev ack_at : ℕ → ℕ → Seq
ack_at n t = record { ack_seq_no = pos n; ack = pos (n + 100); time_stamp = t }

-- Holds the ACKs 7, 8 and 9, from index 3 round to index 1.
abbrev gone_round : AckWindow
gone_round = record {
  seqs = ack_at 8 20 ∷ ack_at 9 30 ∷ ack_at 6 5 ∷ ack_at 7 10 ∷ [];
  head = 2;
  tail = 3;
}

gone_round-IsValid : IsValid 4 gone_round
gone_round-IsValid = omega arith

records-gone_round : records 4 gone_round ≡ ack_at 7 10 ∷ ack_at 8 20 ∷ ack_at 9 30 ∷ []
records-gone_round = refl

acknowledge_run :
    seen 4 (acknowledge 4 gone_round (pos 8) 50) ≡ (pos 30, some (pos 108), ack_at 9 30 ∷ [])
unfolding acknowledge rtt_of to_int32
acknowledge_run = refl

acknowledge_refines_example :
    seen 4 (acknowledge 4 gone_round (pos 8) 50)
    ≡ search_acks (records 4 gone_round) (pos 8) 50 (negsuc 0, none, records 4 gone_round)
acknowledge_refines_example = acknowledge_refines 4 gone_round (pos 8) 50 gone_round-IsValid

acknowledge-store_example :
    seen 4 (acknowledge 4 (store 4 gone_round (pos 10) (pos 110) 40) (pos 10) 55)
    ≡ (rtt_of 55 40, some (pos 110), [])
acknowledge-store_example =
    acknowledge-store 4 gone_round (pos 10) (pos 110) 40 55 (omega arith) gone_round-IsValid
      (refl, (refl, (refl, tt)))
