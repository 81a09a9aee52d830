-- ===== src/GroupBackup/Counts.antt =====
-- The counts of `SendBackupCtx` (srt/srtcore/group_backup.cpp), and what `updateMemberState` changes.
use srtplay.Base.{
  ℕ, ◌+◌, ◌-◌, ◌%◌, ◌^◌, ◌<◌, ◌≡◌, ◌≢◌, refl, sym, ap, ◌∙◌, subst, arith, ◌==◌, if◌then◌else◌, true,
  false, none, some, some_inj, List, [], ◌∷◌, ◌++◌, Bool-cases, Option-cases, inl, inr,
}
use srtplay.GroupBackup.{
  BackupMemberState, Member, SendBackupCtx, rank_of, value_of, find_state, set_state,
}

-- 1 if the state has the value `i`.
abbrev pub is_value : ℕ → BackupMemberState → ℕ
is_value i st = if rank_of st == i + 1 then 1 else 0

-- The number of entries whose state has the value `i`.
abbrev pub tally : ℕ → List Member → ℕ
tally i [] = 0
tally i (m ∷ ms) = is_value i m.state + tally i ms

-- No entry has the unknown state.
abbrev pub AllKnown : List Member → Type 0
AllKnown [] = Unit
AllKnown (m ∷ ms) = (0 < rank_of m.state) × AllKnown ms

-- Which entries there are.
abbrev pub sockets_of : List Member → List (ℕ × ℕ)
sockets_of [] = []
sockets_of (m ∷ ms) = (m.socket_data, m.socket_id) ∷ sockets_of ms

-- Each count is the number of the entries of its state, as a 32-bit word.
pub record Counted (c : SendBackupCtx) : Type 0 where
  pub counts : (i : ℕ) → c.state_counter i ≡ tally i c.member_states % 2 ^ 32
  pub known : AllKnown c.member_states

pub word_up : (t : ℕ) → (t % 2 ^ 32 + 1) % 2 ^ 32 ≡ (t + 1) % 2 ^ 32
word_up t = omega arith

pub word_down : (t : ℕ) → 0 < t → (t % 2 ^ 32 + (2 ^ 32 - 1)) % 2 ^ 32 ≡ (t - 1) % 2 ^ 32
word_down t h = omega (arith, h)

pub value_of-rank : (st : BackupMemberState) → 0 < rank_of st → value_of st ≡ some (rank_of st - 1)
value_of-rank st h = elim (Option-cases (value_of st)) [
  | inl e ↦ absurd (ground (arith, h, e))
  | inr (i, e) ↦ ground (arith, h, e)
]

pub tally-append :
    (i : ℕ) (ms : List Member) (m : Member)
    → tally i (ms ++ m ∷ []) ≡ tally i ms + is_value i m.state
tally-append i [] m = omega arith
tally-append i (n ∷ ms) m = (let rest = tally-append i ms m in omega (arith, rest))

pub AllKnown-append :
    (ms : List Member) (m : Member) → AllKnown ms → 0 < rank_of m.state → AllKnown (ms ++ m ∷ [])
AllKnown-append [] m all h = (h, tt)
AllKnown-append (n ∷ ms) m all h = (all.0, AllKnown-append ms m all.1 h)

pub none-ne : {st : BackupMemberState} → ¬ (none ≡ some st)
none-ne e = cc

-- The first entry of a socket takes another state.
module _ (sock : ℕ) (st : BackupMemberState) where
  -- The entry in front is that of the socket.
  module _ (m : Member) (ms : List Member) (e : (m.socket_data == sock) ≡ true) where
    find-here : find_state sock (m ∷ ms) ≡ some m.state
    unfolding find_state
    find-here = rw e refl

    set-here : set_state sock st (m ∷ ms) ≡ record m { state = st } ∷ ms
    unfolding set_state
    set-here = rw e refl

  -- It is that of another one.
  module _ (m : Member) (ms : List Member) (e : (m.socket_data == sock) ≡ false) where
    find-other : find_state sock (m ∷ ms) ≡ find_state sock ms
    unfolding find_state
    find-other = rw e refl

    set-other : set_state sock st (m ∷ ms) ≡ m ∷ set_state sock st ms
    unfolding set_state
    set-other = rw e refl

  pub tally-set :
      (i : ℕ) (ms : List Member) (old : BackupMemberState)
      → find_state sock ms ≡ some old
      → tally i (set_state sock st ms) + is_value i old ≡ tally i ms + is_value i st
  unfolding find_state set_state
  tally-set i [] old e = absurd (none-ne e)
  tally-set i (m ∷ ms) old e = elim (Bool-cases (m.socket_data == sock)) [
    | inl here ↦
        let same = ap (is_value i) (some_inj (sym (find-here m ms here) ∙ e)) in
        let set = ap (tally i) (set-here m ms here) in omega (arith, same, set)
    | inr other ↦
        let rest = tally-set i ms old (sym (find-other m ms other) ∙ e) in
        let set = ap (tally i) (set-other m ms other) in omega (arith, rest, set)
  ]

  pub AllKnown-set :
      (ms : List Member) → AllKnown ms → 0 < rank_of st → AllKnown (set_state sock st ms)
  unfolding set_state
  AllKnown-set [] all h = tt
  AllKnown-set (m ∷ ms) all h = elim (Bool-cases (m.socket_data == sock)) [
    | inl here ↦ subst AllKnown (sym (set-here m ms here)) (h, all.1)
    | inr other ↦ subst AllKnown (sym (set-other m ms other)) (all.0, AllKnown-set ms all.1 h)
  ]

  pub find-Known :
      (ms : List Member) (old : BackupMemberState)
      → AllKnown ms
      → find_state sock ms ≡ some old
      → 0 < rank_of old
  unfolding find_state
  find-Known [] old all e = absurd (none-ne e)
  find-Known (m ∷ ms) old all e = elim (Bool-cases (m.socket_data == sock)) [
    | inl here ↦
        let same = ap rank_of (some_inj (sym (find-here m ms here) ∙ e)) in
        let known = all.0 in omega (arith, same, known)
    | inr other ↦ find-Known ms old all.1 (sym (find-other m ms other) ∙ e)
  ]

  -- Where it is found again.
  pub find-set :
      (ms : List Member) (old : BackupMemberState)
      → find_state sock ms ≡ some old
      → find_state sock (set_state sock st ms) ≡ some st
  unfolding find_state
  find-set [] old e = absurd (none-ne e)
  find-set (m ∷ ms) old e = elim (Bool-cases (m.socket_data == sock)) [
    | inl here ↦
        ap (find_state sock) (set-here m ms here) ∙ find-here (record m { state = st }) ms here
    | inr other ↦
        ap (find_state sock) (set-other m ms other)
        ∙ find-other m (set_state sock st ms) other
        ∙ find-set ms old (sym (find-other m ms other) ∙ e)
  ]

  pub find-set_ne :
      (t : ℕ) (ms : List Member) → t ≢ sock → find_state t (set_state sock st ms) ≡ find_state t ms
  unfolding find_state set_state
  find-set_ne t [] ne = refl
  find-set_ne t (m ∷ ms) ne = let rest = find-set_ne t ms ne in ground (arith, ne, rest)

  pub sockets-set : (ms : List Member) → sockets_of (set_state sock st ms) ≡ sockets_of ms
  unfolding set_state
  sockets-set [] = refl
  sockets-set (m ∷ ms) = elim (Bool-cases (m.socket_data == sock)) [
    | inl here ↦ ap sockets_of (set-here m ms here)
    | inr other ↦
        ap sockets_of (set-other m ms other)
        ∙ ap (◌∷◌ (m.socket_data, m.socket_id)) (sockets-set ms)
  ]
