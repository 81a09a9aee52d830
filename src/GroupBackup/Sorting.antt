-- ===== src/GroupBackup/Sorting.antt =====
-- `sortByWeightAndState` (srt/srtcore/group_backup.cpp).
use mathlib.Core.List.{Permᴰ}
use mathlib.Core.List.Permᴰ
use srtplay.Base.{
  ℕ, ◌≤◌, ◌≡◌, refl, sym, ap, subst, arith, true, false, List, [], ◌∷◌, Bool-cases, inl, inr,
}
use srtplay.GroupBackup.{
  SocketData, Member, SendBackupCtx, rank_of, before, place, sorted, sort_by_weight_and_state,
}

-- A member with a greater weight, then with a later state, then with a smaller socket number, leads.
abbrev pub Leads : (ℕ → SocketData) → Member → Member → Type 0
Leads sockets m n =
    ((sockets n.socket_data).weight ≤ (sockets m.socket_data).weight)
    × ((sockets n.socket_data).weight ≡ (sockets m.socket_data).weight
        → (rank_of n.state ≤ rank_of m.state)
          × (rank_of n.state ≡ rank_of m.state → m.socket_id ≤ n.socket_id))

abbrev pub LeadsAll : (ℕ → SocketData) → Member → List Member → Type 0
LeadsAll sockets m [] = Unit
LeadsAll sockets m (n ∷ ms) = Leads sockets m n × LeadsAll sockets m ms

-- Each member leads all behind it.
abbrev pub InOrder : (ℕ → SocketData) → List Member → Type 0
InOrder sockets [] = Unit
InOrder sockets (m ∷ ms) = LeadsAll sockets m ms × InOrder sockets ms

module _ (sockets : ℕ → SocketData) where
  before-Leads : (m n : Member) → before sockets m n ≡ true → Leads sockets m n
  unfolding before
  before-Leads m n e = ground (arith, e)

  not_before-Leads : (m n : Member) → before sockets m n ≡ false → Leads sockets n m
  unfolding before
  not_before-Leads m n e = ground (arith, e)

  Leads-trans : (m n k : Member) → Leads sockets m n → Leads sockets n k → Leads sockets m k
  Leads-trans m n k e f = ground (arith, e, f)

  LeadsAll-trans :
      (m n : Member) (ms : List Member)
      → Leads sockets m n
      → LeadsAll sockets n ms
      → LeadsAll sockets m ms
  LeadsAll-trans m n [] e all = tt
  LeadsAll-trans m n (k ∷ ms) e all = (Leads-trans m n k e all.0, LeadsAll-trans m n ms e all.1)

  place-first :
      (m n : Member) (ms : List Member)
      → before sockets m n ≡ true
      → place sockets m (n ∷ ms) ≡ m ∷ n ∷ ms
  unfolding place
  place-first m n ms e = ap (λ b. elim b [ true ↦ m ∷ n ∷ ms | false ↦ n ∷ place sockets m ms ]) e

  place-behind :
      (m n : Member) (ms : List Member)
      → before sockets m n ≡ false
      → place sockets m (n ∷ ms) ≡ n ∷ place sockets m ms
  unfolding place
  place-behind m n ms e = ap (λ b. elim b [ true ↦ m ∷ n ∷ ms | false ↦ n ∷ place sockets m ms ]) e

  -- What holds of both places of `m` holds of the one that it takes.
  place-cases :
      (P : List Member → Type 0) (m n : Member) (ms : List Member)
      → (before sockets m n ≡ true → P (m ∷ n ∷ ms))
      → (before sockets m n ≡ false → P (n ∷ place sockets m ms))
      → P (place sockets m (n ∷ ms))
  place-cases P m n ms first behind = elim (Bool-cases (before sockets m n)) [
    | inl e ↦ subst P (sym (place-first m n ms e)) (first e)
    | inr e ↦ subst P (sym (place-behind m n ms e)) (behind e)
  ]

  LeadsAll-place :
      (m n : Member) (ms : List Member)
      → Leads sockets n m
      → LeadsAll sockets n ms
      → LeadsAll sockets n (place sockets m ms)
  unfolding place
  LeadsAll-place m n [] e all = (e, tt)
  LeadsAll-place m n (k ∷ ms) e all =
      place-cases (LeadsAll sockets n) m k ms (λ f. (e, all))
        λ f. (all.0, LeadsAll-place m n ms e all.1)

  place-InOrder :
      (m : Member) (ms : List Member) → InOrder sockets ms → InOrder sockets (place sockets m ms)
  unfolding place
  place-InOrder m [] all = (tt, tt)
  place-InOrder m (n ∷ ms) all =
      place-cases (InOrder sockets) m n ms
        (λ e. ((before-Leads m n e, LeadsAll-trans m n ms (before-Leads m n e) all.0), all))
        λ e. (LeadsAll-place m n ms (not_before-Leads m n e) all.0, place-InOrder m ms all.1)

  sorted-InOrder : (ms : List Member) → InOrder sockets (sorted sockets ms)
  unfolding sorted
  sorted-InOrder [] = tt
  sorted-InOrder (m ∷ ms) = place-InOrder m (sorted sockets ms) (sorted-InOrder ms)

  place-perm : (m : Member) (ms : List Member) → Permᴰ (place sockets m ms) (m ∷ ms)
  unfolding place
  place-perm m [] = Permᴰ.refl (m ∷ [])
  place-perm m (n ∷ ms) =
      place-cases (λ l. Permᴰ l (m ∷ n ∷ ms)) m n ms (λ e. Permᴰ.refl (m ∷ n ∷ ms))
        λ e. Permᴰ.trans (Permᴰ.cons refl (place-perm m ms)) (Permᴰ.swap refl refl)

  pub sorted-perm : (ms : List Member) → Permᴰ (sorted sockets ms) ms
  unfolding sorted
  sorted-perm [] = Permᴰ.nil
  sorted-perm (m ∷ ms) =
      Permᴰ.trans (place-perm m (sorted sockets ms)) (Permᴰ.cons refl (sorted-perm ms))

-- `sortByWeightAndState` changes just the order of the entries. Then no entry stands behind one with a smaller weight,
-- nor behind one with the same weight and an earlier state, nor behind one with the same weight and state and a
-- greater socket number.
pub sort_by_weight_and_state-InOrder :
    (sockets : ℕ → SocketData) (c : SendBackupCtx)
    → (ms : List Member) × (sort_by_weight_and_state sockets c ≡ record c { member_states = ms })
      × Permᴰ ms c.member_states
      × InOrder sockets ms
unfolding sort_by_weight_and_state
sort_by_weight_and_state-InOrder sockets c = (
  sorted sockets c.member_states,
  refl,
  sorted-perm sockets c.member_states,
  sorted-InOrder sockets c.member_states,
)
