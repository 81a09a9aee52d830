-- ===== src/GroupBackup/Members.antt =====
-- `recordMemberState` and `updateMemberState` (srt/srtcore/group_backup.cpp), and the counts after any calls.
use srtplay.Base.{
  ℕ, ◌+◌, ◌-◌, ◌%◌, ◌^◌, ◌<◌, ◌≡◌, ◌≢◌, refl, sym, ap, ◌∙◌, subst, arith, ◌==◌, if◌then◌else◌, none,
  some, update, [], ◌∷◌, ◌++◌, Bool-cases, Option-cases, inl, inr, ◌>>=◌, bind_some,
}
use srtplay.GroupBackup.{
  BackupMemberState, unknown, pending, standby, broken, active_unstable, active_unstable_wary,
  active_fresh, active_stable, is_state_active, SocketData, Member, SendBackupCtx, rank_of,
  value_of, count_up, count_down, note_weight, record_member_state, find_state, set_state,
  move_state, update_member_state, before, get_member_state,
}
use srtplay.GroupBackup.Counts.{
  is_value, tally, AllKnown, sockets_of, Counted, value_of-rank, tally-append, AllKnown-append,
  tally-set, AllKnown-set, find-Known, find-set, find-set_ne, sockets-set,
}

-- One count moves from the value `i` to the value `j`.
counts-move :
    (f : ℕ → ℕ) (i j : ℕ) (old st : BackupMemberState) (before after : ℕ → ℕ)
    → rank_of old ≡ i + 1
    → rank_of st ≡ j + 1
    → i ≢ j
    → ((k : ℕ) → f k ≡ before k % 2 ^ 32)
    → ((k : ℕ) → after k + is_value k old ≡ before k + is_value k st)
    → (k : ℕ) → count_up j (count_down i f) k ≡ after k % 2 ^ 32
unfolding update
counts-move f i j old st before after e_old e_st ne all moved k =
    let here = all k in
    let move = moved k in ground (arith, e_old, e_st, ne, here, move, all i, all j)

rank_of-value : (st : BackupMemberState) (i : ℕ) → value_of st ≡ some i → rank_of st ≡ i + 1
rank_of-value st i e = ap (λ o. elim o [ none ↦ 0 | some n ↦ n + 1 ]) e

-- The state of a rank.
of_rank : ℕ → BackupMemberState
of_rank n =
    if n == 0
    then unknown
    else if n == 1
    then pending
    else if n == 2
    then standby
    else if n == 3
    then broken
    else if n == 4
    then active_unstable
    else if n == 5
    then active_unstable_wary
    else if n == 6
    then active_fresh
    else active_stable

of_rank-rank : (st : BackupMemberState) → of_rank (rank_of st) ≡ st
unfolding of_rank value_of
of_rank-rank unknown = refl
of_rank-rank pending = refl
of_rank-rank standby = refl
of_rank-rank broken = refl
of_rank-rank active_unstable = refl
of_rank-rank active_unstable_wary = refl
of_rank-rank active_fresh = refl
of_rank-rank active_stable = refl

rank_inj : (a b : BackupMemberState) → rank_of a ≡ rank_of b → a ≡ b
rank_inj a b e = sym (of_rank-rank a) ∙ ap of_rank e ∙ of_rank-rank b

pub rank_pos : (st : BackupMemberState) → st ≢ unknown → 0 < rank_of st
unfolding value_of
rank_pos unknown ne = absurd (ne refl)
rank_pos pending ne = omega arith
rank_pos standby ne = omega arith
rank_pos broken ne = omega arith
rank_pos active_unstable ne = omega arith
rank_pos active_unstable_wary ne = omega arith
rank_pos active_fresh ne = omega arith
rank_pos active_stable ne = omega arith

note_weight-kept :
    (c : SendBackupCtx) (st : BackupMemberState) (weight : ℕ)
    → ((note_weight c st weight).member_states ≡ c.member_states)
      × ((note_weight c st weight).state_counter ≡ c.state_counter)
unfolding note_weight is_state_active
note_weight-kept c unknown weight = (refl, refl)
note_weight-kept c pending weight = (refl, refl)
note_weight-kept c standby weight = (refl, refl)
note_weight-kept c broken weight = (refl, refl)
note_weight-kept c active_unstable weight = (refl, refl)
note_weight-kept c active_unstable_wary weight = (refl, refl)
note_weight-kept c active_fresh weight = (refl, refl)
note_weight-kept c active_stable weight = (refl, refl)

counts-up :
    (f : ℕ → ℕ) (i : ℕ) (st : BackupMemberState) (before after : ℕ → ℕ)
    → rank_of st ≡ i + 1
    → ((k : ℕ) → f k ≡ before k % 2 ^ 32)
    → ((k : ℕ) → after k ≡ before k + is_value k st)
    → (k : ℕ) → count_up i f k ≡ after k % 2 ^ 32
unfolding update
counts-up f i st before after e_st all moved k =
    let here = all k in let move = moved k in ground (arith, e_st, here, move, all i)

pub record_member_state-Counted :
    (sockets : ℕ → SocketData) (c : SendBackupCtx) (sock : ℕ) (st : BackupMemberState)
    → Counted c
    → 0 < rank_of st
    → (c' : SendBackupCtx) × (record_member_state sockets c sock st ≡ some c')
      × Counted c'
      × (c'.member_states
          ≡ c.member_states
            ++ record { socket_data = sock; socket_id = (sockets sock).id; state = st } ∷ [])
unfolding record_member_state
record_member_state-Counted sockets c sock st counted h =
    let i = rank_of st - 1 in
    let member : Member = record {
      socket_data = sock;
      socket_id = (sockets sock).id;
      state = st;
    } in
    let next = λ (i : ℕ).
      note_weight
        (record c {
          member_states = c.member_states ++ member ∷ [];
          state_counter = count_up i c.state_counter;
        })
        st (sockets sock).weight in
    let kept =
      note_weight-kept
        (record c {
          member_states = c.member_states ++ member ∷ [];
          state_counter = count_up i c.state_counter;
        })
        st (sockets sock).weight in
    (
      next i,
      bind_some (value_of st) i (λ i. some (next i)) (value_of-rank st h),
      record {
        counts = λ k.
            ap (λ (f : ℕ → ℕ). f k) kept.1
            ∙ counts-up c.state_counter i st (λ k. tally k c.member_states)
                (λ k. tally k (c.member_states ++ member ∷ [])) (omega (arith, h)) counted.counts
                (λ k. tally-append k c.member_states member) k
            ∙ ap (λ l. tally k l % 2 ^ 32) (sym kept.0);
        known =
            subst AllKnown (sym kept.0) (AllKnown-append c.member_states member counted.known h);
      },
      kept.0,
    )

-- What `updateMemberState` leaves of `c`, of whose member `sock` the state is `st` now.
pub record Updated (c : SendBackupCtx) (sock : ℕ) (st : BackupMemberState) (c' : SendBackupCtx)
    : Type 0 where
  pub counted : Counted c'
  pub sockets_eq : sockets_of c'.member_states ≡ sockets_of c.member_states
  pub member_eq : get_member_state c sock ≢ unknown → get_member_state c' sock ≡ st
  pub others_eq : (t : ℕ) → t ≢ sock → get_member_state c' t ≡ get_member_state c t

move_state-Updated :
    (c : SendBackupCtx) (sock : ℕ) (old st : BackupMemberState)
    → Counted c
    → 0 < rank_of st
    → find_state sock c.member_states ≡ some old
    → (c' : SendBackupCtx) × (move_state c sock old st ≡ some c') × Updated c sock st c'
unfolding move_state get_member_state
move_state-Updated c sock old st counted h found = elim (Bool-cases (rank_of old == rank_of st)) [
  | inl same ↦ (
    c,
    rw same refl,
    record {
      counted = counted;
      sockets_eq = refl;
      member_eq = λ _.
          ap (λ o. elim o [ none ↦ unknown | some s ↦ s ]) found
          ∙ rank_inj old st (ground (arith, same));
      others_eq = λ t ne. refl;
    },
  )
  | inr differ ↦
      let i = rank_of old - 1 in
      let j = rank_of st - 1 in
      let old_pos = find-Known sock st c.member_states old counted.known found in
      let next = λ (i j : ℕ). record c {
        state_counter = count_up j (count_down i c.state_counter);
        member_states = set_state sock st c.member_states;
      } in
      (
        next i j,
        rw differ (
            bind_some (value_of old) i (λ i. value_of st >>= λ j. some (next i j))
              (value_of-rank old old_pos)
            ∙ bind_some (value_of st) j (λ j. some (next i j)) (value_of-rank st h)),
        record {
          counted = record {
            counts =
                counts-move c.state_counter i j old st (λ k. tally k c.member_states)
                  (λ k. tally k (set_state sock st c.member_states)) (omega (arith, old_pos))
                  (omega (arith, h)) (λ e. ground (arith, differ, e, old_pos, h)) counted.counts
                  (λ k. tally-set sock st k c.member_states old found);
            known = AllKnown-set sock st c.member_states counted.known h;
          };
          sockets_eq = sockets-set sock st c.member_states;
          member_eq = λ _.
              ap (λ o. elim o [ none ↦ unknown | some s ↦ s ])
                (find-set sock st c.member_states old found);
          others_eq = λ t ne.
              ap (λ o. elim o [ none ↦ unknown | some s ↦ s ])
                (find-set_ne sock st t c.member_states ne);
        },
      )
]

-- `updateMemberState` to a known state never fails where the counts are right, and leaves them right: then that is
-- the state of the member, if it is one, and all other members keep theirs, and their places.
pub update_member_state-Updated :
    (c : SendBackupCtx) (sock : ℕ) (st : BackupMemberState)
    → Counted c
    → st ≢ unknown
    → (c' : SendBackupCtx) × (update_member_state c sock st ≡ some c') × Updated c sock st c'
unfolding update_member_state get_member_state
update_member_state-Updated c sock st counted ne =
    let h = rank_pos st ne in
    elim (Option-cases (find_state sock c.member_states)) [
      | inl missing ↦ (
        c,
        ap (λ o. elim o [ none ↦ some c | some old ↦ move_state c sock old st ]) missing,
        record {
          counted = counted;
          sockets_eq = refl;
          member_eq =
              λ member. absurd (member (ap (λ o. elim o [ none ↦ unknown | some s ↦ s ]) missing));
          others_eq = λ t ne. refl;
        },
      )
      | inr (old, found) ↦
          let (c', run, updated) = move_state-Updated c sock old st counted h found in
          (
            c',
            ap (λ o. elim o [ none ↦ some c | some old ↦ move_state c sock old st ]) found ∙ run,
            updated,
          )
    ]
