-- ===== src/RcvBuffer/OutOfOrder/Ends.antt =====
-- When the search for a message to read out of order ends.
use srtplay.Base.{
  ℕ, zero, suc, ◌+◌, ◌≤◌, ◌≡◌, refl, ap, ◌∙◌, arith, Bool, true, false, Option, none, some, ◌||◌,
  ◌==◌, if◌then◌else◌, Bool-cases, Option-cases, inl, inr,
}
use srtplay.Base.Ring.{idx}
use srtplay.Packet.{get_msg_order_flag}
use srtplay.RcvBuffer.{RcvBuffer, RcvUnit, Entry, has_readable_inorder_pkts}
use srtplay.RcvBuffer.Valid.{inc_pos-idx}
use srtplay.RcvBuffer.OutOfOrder.{first_readable_from, update_first_readable_out_of_order}

-- 1 for a packet that may be read out of order.
abbrev unordered_unit : Option RcvUnit → ℕ
unordered_unit none = 0
unordered_unit (some u) = if get_msg_order_flag u.packet then 0 else 1

-- How many of the `k` entries from `x` on have such a packet.
abbrev pub unordered : ℕ → ℕ → (ℕ → Entry) → ℕ → ℕ → ℕ
unordered size c entries zero x = 0
unordered size c entries (suc k) x =
    unordered_unit (entries (idx size c x)).unit + unordered size c entries k (x + 1)

abbrev Found : Option (Option ℕ) → Type 0
Found a = (o : Option ℕ) × (a ≡ some o)

by_step : (a a' : Option (Option ℕ)) → a ≡ a' → Found a' → Found a
by_step a a' p (o, e) = (o, p ∙ e)

Found-if :
    (test : Bool) (a a' : Option (Option ℕ)) → Found a → Found a' → Found (if test then a else a')
Found-if true a a' f f' = f
Found-if false a a' f f' = f'

module _ (size c : ℕ) (r : RcvBuffer) where
  abbrev search_at : ℕ → ℕ → ℕ → Option ℕ → Option ℕ → Option (Option ℕ)
  search_at rounds remain x first msgno =
      first_readable_from size rounds r remain (idx size c x) first msgno

  -- The search ends within as many rounds as entries hold the packets that remain.
  search-Found :
      (rounds remain x : ℕ) (first msgno : Option ℕ)
      → remain ≤ unordered size c r.entries rounds x
      → Found (search_at rounds remain x first msgno)
  unfolding first_readable_from
  search-Found rounds zero x first msgno h = (none, refl)
  search-Found zero (suc remain) x first msgno h = absurd (omega arith)
  search-Found (suc rounds) (suc remain) x first msgno h =
      elim (Option-cases (r.entries (idx size c x)).unit) [
        | inl q ↦
            let count = ap unordered_unit q in
            by_step (search_at (suc rounds) (suc remain) x first msgno)
              (search_at rounds (suc remain) (x + 1) none none)
              (rw (first_readable_from, q, inc_pos-idx size c x) refl)
              (search-Found rounds (suc remain) (x + 1) none none (omega arith))
        | inr (u, q) ↦
            let count = ap unordered_unit q in
            elim (Bool-cases (get_msg_order_flag u.packet)) [
              | inl ordered ↦
                  let none_here : unordered_unit (some u) ≡ 0 = rw ordered refl in
                  by_step (search_at (suc rounds) (suc remain) x first msgno)
                    (search_at rounds (suc remain) (x + 1) none none)
                    (rw (first_readable_from, q, ordered, inc_pos-idx size c x) refl)
                    (search-Found rounds (suc remain) (x + 1) none none (omega arith))
              | inr free ↦
                  let one_here : unordered_unit (some u) ≡ 1 = rw free refl in
                  let rest =
                    λ (f m : Option ℕ). search-Found rounds remain (x + 1) f m (omega arith) in
                  rw (first_readable_from, q, free, inc_pos-idx size c x)
                    (Found-if _ _ _ (rest none none)
                      (Found-if _ _ _ (_, refl) (Found-if _ _ _ (none, refl) (rest _ _))))
            ]
      ]

-- With no more packets out of order than are counted, and none of them missing, the search ends, and only
-- its result is changed.
pub update_first_readable-ends :
    (size c b : ℕ) (r : RcvBuffer)
    → r.start_pos ≡ idx size c b
    → r.num_out_of_order_packets ≤ unordered size c r.entries size b
    → (o : Option ℕ) × (update_first_readable_out_of_order size r
        ≡ some (record r { first_readable_out_of_order = o }))
unfolding update_first_readable_out_of_order
update_first_readable-ends size c b r at h =
    let (o, e) = search-Found size c r size r.num_out_of_order_packets b none none h in
    let found =
      ap (λ i. first_readable_from size size r r.num_out_of_order_packets i none none) at ∙ e in
    elim (Bool-cases (has_readable_inorder_pkts r || r.num_out_of_order_packets == 0)) [
      | inl p ↦ (r.first_readable_out_of_order, simp p refl)
      | inr p ↦ elim (Option-cases r.first_readable_out_of_order) [
        | inr (i, q) ↦
            (some i, rw (p, q) (ap (λ o. some (record r { first_readable_out_of_order = o })) q))
        | inl q ↦ elim (Bool-cases (r.max_pos_inc == 0)) [
          | inl z ↦
              (none, rw (p, q, z) (ap (λ o. some (record r { first_readable_out_of_order = o })) q))
          | inr z ↦ (o, simp (p, q, z, found) refl)
        ]
      ]
    ]
