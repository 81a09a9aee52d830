-- ===== src/AckWindow/Records.antt =====
-- The ACK window as a queue of records: its validity, and `store`.
use native.Mathlib.Nat.{mod-eq_of_lt, mod-eq-sub-mod, add-zero, mod-mod, mod-add-mod}
use srtplay.Base.{
  ℕ, zero, suc, ◌+◌, ◌-◌, ◌%◌, ◌<◌, ◌≡◌, refl, sym, ap, ap₂, ◌∙◌, leb, if◌then◌else◌, dec_lt, ◌⊎◌,
  inl, inr, arith, List, [], ◌∷◌, ◌++◌, length, set, length-set, get_or, get_or-set_self,
  get_or-set_ne, drop, length-replicate,
}
use srtplay.Base.Modular.{add-mod-ne, next_cases}
use srtplay.Base.Int.{ℤ}
use srtplay.AckWindow.{Seq, zero_seq, AckWindow, init, store}

module _ (a : List Seq) (size : ℕ) where
  -- The `n` records from index `i` on, round the array.
  abbrev pub walk : ℕ → ℕ → List Seq
  walk i zero = []
  walk i (suc n) = get_or a (i % size) zero_seq ∷ walk (i + 1) n

  pub length-walk : (i n : ℕ) → length (walk i n) ≡ n
  length-walk i zero = refl
  length-walk i (suc n) = ap suc (length-walk (i + 1) n)

  pub walk-mod : (i n : ℕ) → walk (i % size) n ≡ walk i n
  walk-mod i zero = refl
  walk-mod i (suc n) =
      ap₂ ◌∷◌ (rw mod-mod) (sym (walk-mod (i % size + 1) n) ∙ rw mod-add-mod (walk-mod (i + 1) n))

module _ (size : ℕ) where
  -- How many records the window holds.
  abbrev pub count : AckWindow → ℕ
  count w = if leb w.tail w.head then w.head - w.tail else w.head + size - w.tail

  -- The records in the window, oldest first.
  abbrev pub records : AckWindow → List Seq
  records w = walk w.seqs size w.tail (count w)

  pub record IsValid (w : AckWindow) : Type 0 where
    pub storage : length w.seqs ≡ size
    pub head_in : w.head < size
    pub tail_in : w.tail < size

  pub init-IsValid : 0 < size → IsValid (init size)
  unfolding init
  init-IsValid h = grind (arith, length-set, length-replicate)

  -- Both indices stay inside the array.
  pub store-IsValid :
      (w : AckWindow) (seq ack : ℤ) (now : ℕ) → IsValid w → IsValid (store size w seq ack now)
  unfolding store
  store-IsValid w seq ack now v = grind (arith, length-set)

  -- Writing just past a stretch of records extends it.
  walk-set :
      (a : List Seq) (r : Seq) (i n h : ℕ)
      → length a ≡ size
      → n < size
      → (i + n) % size ≡ h
      → walk (set a h r) size i (suc n) ≡ walk a size i n ++ (r ∷ [])
  walk-set a r i zero h l p e =
      rw (← e, add-zero, get_or-set_self a (i % size) r zero_seq (omega arith))
  walk-set a r i (suc n) h l p e =
      ap₂ ◌∷◌
        (get_or-set_ne a h (i % size) r zero_seq
          (rw (← e) (add-mod-ne i (suc n) size (omega arith) p)))
        (walk-set a r (i + 1) n h l (omega arith) (ap (λ k. k % size) (omega arith) ∙ e))

  pub count-lt : (w : AckWindow) → IsValid w → count w < size
  count-lt w v = ground arith

  pub tail-count : (w : AckWindow) → IsValid w → (w.tail + count w) % size ≡ w.head
  tail-count w v = elim (dec_lt w.head w.tail) [
    | yes p ↦
        ground (
          arith,
          mod-eq-sub-mod {n = w.head + size} {m = size},
          mod-eq_of_lt {n = w.head} {m = size},
        )
    | no p ↦ ground (arith, mod-eq_of_lt {n = w.head} {m = size})
  ]

  -- The window has room for a record more, or is full.
  store_cases :
      (w : AckWindow) (seq ack : ℤ) (now : ℕ)
      → IsValid w
      → let w' = store size w seq ack now in
        ((count w + 1 < size) × (w'.tail ≡ w.tail) × (count w' ≡ suc (count w)))
        ⊎ ((count w + 1 ≡ size) × (w'.tail ≡ (w.tail + 1) % size) × (count w' ≡ count w))
  unfolding store
  store_cases w seq ack now v = ground (arith, next_cases w.head size, next_cases w.tail size)

  seqs-store :
      (w : AckWindow) (seq ack : ℤ) (now : ℕ)
      → (store size w seq ack now).seqs
        ≡ set w.seqs w.head (record { ack_seq_no = seq; ack = ack; time_stamp = now })
  unfolding store
  seqs-store w seq ack now = refl

  -- `store` appends a record; a full window of `size - 1` records gives up its oldest.
  pub records-store :
      (w : AckWindow) (seq ack : ℤ) (now : ℕ)
      → IsValid w
      → records (store size w seq ack now)
        ≡ drop
            (count w + 1 - (size - 1))
            (records w ++ (record { ack_seq_no = seq; ack = ack; time_stamp = now } ∷ []))
  records-store w seq ack now v = elim (store_cases w seq ack now v) [
    | inl (room, t, c) ↦ rw (seqs-store w seq ack now, c, t, none_over room) extended
    | inr (full, t, c) ↦
        rw (seqs-store w seq ack now, c, t, one_over full, walk-mod) (ap (drop 1) extended)
  ]
    where
      r : Seq
      r = record { ack_seq_no = seq; ack = ack; time_stamp = now }

      extended : walk (set w.seqs w.head r) size w.tail (suc (count w)) ≡ records w ++ (r ∷ [])
      extended = walk-set w.seqs r w.tail (count w) w.head v.storage (count-lt w v) (tail-count w v)

      none_over : count w + 1 < size → count w + 1 - (size - 1) ≡ 0
      none_over h = omega arith

      one_over : count w + 1 ≡ size → count w + 1 - (size - 1) ≡ 1
      one_over h = omega arith
