-- ===== src/AckWindow/Acknowledge.antt =====
-- `acknowledge` against a search of the records, oldest first.
use native.Mathlib.Nat.{mod-eq_of_lt, mod-add-mod}
use srtplay.Base.{
  ℕ, zero, suc, ◌+◌, ◌-◌, ◌%◌, ◌≤◌, ◌<◌, ◌≡◌, ◌≢◌, inl, inr, refl, ◌∙◌, ◌==◌, if◌then◌else◌, arith,
  dec_lt, List, [], ◌∷◌, ◌++◌, Option, none, some, Bool, true, false, Bool-cases, length,
  length-set, get_or, drop,
}
use srtplay.Base.Modular.{mod_cases}
use srtplay.Base.Int.{ℤ, negsuc, eqb_ℤ, eqb_ℤ_iff}
use srtplay.AckWindow.{
  Seq, zero_seq, AckWindow, Answer, rtt_of, init, store, answer, not_found, acknowledge_flat,
  acknowledge_wrapped, acknowledge,
}
use srtplay.AckWindow.Records.{
  walk, length-walk, walk-mod, records, count, count-lt, IsValid, init-IsValid, store-IsValid,
  records-store,
}

-- The first record of this ACK number decides: its time gives the RTT, it and all older ones go.
unfoldable pub search_acks : List Seq → ℤ → ℕ → ℤ × Option ℤ × List Seq → ℤ × Option ℤ × List Seq
search_acks [] seq currtime missing = missing
search_acks (r ∷ rs) seq currtime missing =
    if eqb_ℤ seq r.ack_seq_no
    then (rtt_of currtime r.time_stamp, some r.ack, rs)
    else search_acks rs seq currtime missing

module _ (size : ℕ) where
  -- What a caller sees of an answer.
  abbrev pub seen : Answer → ℤ × Option ℤ × List Seq
  seen a = (a.rtt, a.r_ack, records size a.window)

  -- A match at index `j`, with `k` records behind it.
  answer_flat-seen :
      (w : AckWindow) (j k currtime : ℕ)
      → IsValid size w
      → (w.head ≡ j + suc k)
      → seen (answer size w j (j + 1 == w.head) currtime) ≡ (
        rtt_of currtime (get_or w.seqs j zero_seq).time_stamp,
        some (get_or w.seqs j zero_seq).ack,
        walk w.seqs size (j + 1) k,
      )
  unfolding answer
  answer_flat-seen w j zero currtime v e = ground (arith)
  answer_flat-seen w j (suc k) currtime v e = ground (arith, mod-eq_of_lt {n = j + 1} {m = size})

  acknowledge_flat-seen :
      (w : AckWindow) (seq : ℤ) (currtime i n : ℕ)
      → IsValid size w
      → (w.head ≡ i + n)
      → seen (acknowledge_flat size w seq currtime i n)
        ≡ search_acks (walk w.seqs size i n) seq currtime (seen (not_found w))
  unfolding acknowledge_flat search_acks
  acknowledge_flat-seen w seq currtime i zero v e = refl
  acknowledge_flat-seen w seq currtime i (suc n) v e =
      elim (Bool-cases (eqb_ℤ seq (get_or w.seqs i zero_seq).ack_seq_no)) [
        | inl hit ↦
            rw (mod-eq_of_lt {n = i} {m = size} (omega arith), hit)
              (answer_flat-seen w i n currtime v e)
        | inr miss ↦
            rw (mod-eq_of_lt {n = i} {m = size} (omega arith), miss)
              (acknowledge_flat-seen w seq currtime (i + 1) n v (omega arith))
      ]

  -- Between tail and head, going round, no index is the head's.
  wrapped_index :
      (w : AckWindow) (j k : ℕ)
      → IsValid size w
      → w.head < w.tail
      → w.tail ≤ j
      → w.head + size ≡ j + suc k
      → (j % size ≢ w.head) × (count size (record w { tail = (j + 1) % size }) ≡ k)
  wrapped_index w j k v below from e = ground (arith, mod_cases j size, mod_cases (j + 1) size)

  answer_wrapped-seen :
      (w : AckWindow) (i currtime : ℕ)
      → i ≢ w.head
      → let tail' = (i + 1) % size in
        seen (answer size w i (i == w.head) currtime) ≡ (
          rtt_of currtime (get_or w.seqs i zero_seq).time_stamp,
          some (get_or w.seqs i zero_seq).ack,
          walk w.seqs size tail' (count size (record w { tail = tail' })),
        )
  unfolding answer
  answer_wrapped-seen w i currtime h = ground arith

  acknowledge_wrapped-seen :
      (w : AckWindow) (seq : ℤ) (currtime j n : ℕ)
      → IsValid size w
      → w.head < w.tail
      → w.tail ≤ j
      → w.head + size ≡ j + n
      → seen (acknowledge_wrapped size w seq currtime j n)
        ≡ search_acks (walk w.seqs size j n) seq currtime (seen (not_found w))
  unfolding acknowledge_wrapped search_acks
  acknowledge_wrapped-seen w seq currtime j zero v below from e = refl
  acknowledge_wrapped-seen w seq currtime j (suc n) v below from e =
      elim (Bool-cases (eqb_ℤ seq (get_or w.seqs (j % size) zero_seq).ack_seq_no)) [
        | inl hit ↦
            let at = wrapped_index w j n v below from e in
            rw hit
              (answer_wrapped-seen w (j % size) currtime at.0 ∙ rw (mod-add-mod, at.1, walk-mod))
        | inr miss ↦
            rw miss (
              acknowledge_wrapped-seen w seq currtime (j + 1) n v below (omega arith) (omega arith))
      ]

  -- `acknowledge` finds the oldest record of the ACK number: it returns the RTT since that ACK and the
  -- data sequence number that it carried, and leaves the younger records. If there is none, the result
  -- is -1 and the window stays as it was.
  pub acknowledge_refines :
      (w : AckWindow) (seq : ℤ) (currtime : ℕ)
      → IsValid size w
      → seen (acknowledge size w seq currtime)
        ≡ search_acks (records size w) seq currtime (negsuc 0, none, records size w)
  unfolding acknowledge not_found
  acknowledge_refines w seq currtime v = elim (dec_lt w.head w.tail) [
    | yes p ↦
        ground (arith, acknowledge_wrapped-seen w seq currtime w.tail (w.head + size - w.tail) v)
    | no p ↦ ground (arith, acknowledge_flat-seen w seq currtime w.tail (w.head - w.tail) v)
  ]

  answer-IsValid :
      (w : AckWindow) (j : ℕ) (b : Bool) (currtime : ℕ)
      → IsValid size w
      → IsValid size (answer size w j b currtime).window
  unfolding answer
  answer-IsValid w j true currtime v = grind (arith, length-set)
  answer-IsValid w j false currtime v = ground arith

  acknowledge_flat-IsValid :
      (w : AckWindow) (seq : ℤ) (currtime i n : ℕ)
      → IsValid size w
      → IsValid size (acknowledge_flat size w seq currtime i n).window
  unfolding acknowledge_flat not_found
  acknowledge_flat-IsValid w seq currtime i zero v = v
  acknowledge_flat-IsValid w seq currtime i (suc n) v = ground (
    arith,
    answer-IsValid w i (i + 1 == w.head) currtime v,
    acknowledge_flat-IsValid w seq currtime (i + 1) n v,
  )

  acknowledge_wrapped-IsValid :
      (w : AckWindow) (seq : ℤ) (currtime j n : ℕ)
      → IsValid size w
      → IsValid size (acknowledge_wrapped size w seq currtime j n).window
  unfolding acknowledge_wrapped not_found
  acknowledge_wrapped-IsValid w seq currtime j zero v = v
  acknowledge_wrapped-IsValid w seq currtime j (suc n) v = ground (
    arith,
    answer-IsValid w (j % size) (j % size == w.head) currtime v,
    acknowledge_wrapped-IsValid w seq currtime (j + 1) n v,
  )

  acknowledge-IsValid :
      (w : AckWindow) (seq : ℤ) (currtime : ℕ)
      → IsValid size w
      → IsValid size (acknowledge size w seq currtime).window
  unfolding acknowledge
  acknowledge-IsValid w seq currtime v = ground (
    arith,
    acknowledge_flat-IsValid w seq currtime w.tail (w.head - w.tail) v,
    acknowledge_wrapped-IsValid w seq currtime w.tail (w.head + size - w.tail) v,
  )

-- The constructor, `store` and `acknowledge` keep the two indices inside the array, and its size: for
-- a size above 0 the new window is valid, and from a valid window both operations lead to one.
pub ack_IsValid :
    (size : ℕ)
    → 0 < size
    → (w : AckWindow) (seq ack seq' : ℤ) (now currtime : ℕ) → IsValid size w
    → IsValid size (init size)
      × IsValid size (store size w seq ack now)
      × IsValid size (acknowledge size w seq' currtime).window
ack_IsValid size h w seq ack seq' now currtime v = (
  init-IsValid size h,
  store-IsValid size w seq ack now v,
  acknowledge-IsValid size w seq' currtime v,
)

-- No record has this ACK number.
abbrev pub Absent : ℤ → List Seq → Type 0
Absent seq [] = Unit {0}
Absent seq (r ∷ rs) = (eqb_ℤ seq r.ack_seq_no ≡ false) × Absent seq rs

search_acks_last :
    (xs : List Seq) (r : Seq) (n currtime : ℕ) (missing : ℤ × Option ℤ × List Seq)
    → Absent r.ack_seq_no xs
    → n ≤ length xs
    → search_acks (drop n (xs ++ (r ∷ []))) r.ack_seq_no currtime missing
      ≡ (rtt_of currtime r.time_stamp, some r.ack, [])
unfolding search_acks
search_acks_last [] r zero currtime missing a h = rw ((eqb_ℤ_iff r.ack_seq_no r.ack_seq_no).1 refl)
search_acks_last [] r (suc n) currtime missing a h = elim h [ ]
search_acks_last (x ∷ xs) r zero currtime missing a h =
    rw (a.0) (search_acks_last xs r zero currtime missing a.1 (omega arith))
search_acks_last (x ∷ xs) r (suc n) currtime missing a h =
    search_acks_last xs r n currtime missing a.1 (omega arith)

-- An ACK that was stored under a number new to the window is found again by its ACKACK: the RTT
-- counts from its own time, its data sequence number comes back, and the window is empty then.
pub acknowledge-store :
    (size : ℕ) (w : AckWindow) (seq ack : ℤ) (sent currtime : ℕ)
    → 1 < size
    → IsValid size w
    → Absent seq (records size w)
    → seen size (acknowledge size (store size w seq ack sent) seq currtime)
      ≡ (rtt_of currtime sent, some ack, [])
acknowledge-store size w seq ack sent currtime h v a =
    acknowledge_refines size _ seq currtime (store-IsValid size w seq ack sent v)
    ∙ rw (records-store size w seq ack sent v) (
        search_acks_last (records size w) _ _ currtime _ a
          (omega (arith, count-lt size w v, length-walk w.seqs size w.tail (count size w))))
