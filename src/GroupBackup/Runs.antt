-- ===== src/GroupBackup/Runs.antt =====
-- The counts of `SendBackupCtx` (srt/srtcore/group_backup.cpp) after any calls.
use mathlib.Core.List.{Permᴰ}
use mathlib.Core.List.Permᴰ
use srtplay.Base.{
  ℕ, ◌-◌, ◌%◌, ◌^◌, ◌<◌, ◌≡◌, ◌≢◌, refl, ap, ◌∙◌, subst, arith, Option, some, List, [], ◌∷◌, ◌>>=◌,
  bind_some,
}
use srtplay.GroupBackup.{
  BackupMemberState, unknown, SocketData, Member, SendBackupCtx, rank_of, value_of, init,
  record_member_state, update_member_state, sort_by_weight_and_state, count_members_by_state,
}
use srtplay.GroupBackup.Counts.{is_value, tally, AllKnown, Counted, value_of-rank}
use srtplay.GroupBackup.Members.{rank_pos, record_member_state-Counted, update_member_state-Updated}
use srtplay.GroupBackup.Sorting.{sorted-perm}

tally-perm : (i : ℕ) {ms ns : List Member} → Permᴰ ms ns → tally i ms ≡ tally i ns
tally-perm i Permᴰ.nil = refl
tally-perm i (Permᴰ.cons e p) =
    let here = ap (λ (m : Member). is_value i m.state) e in
    let rest = tally-perm i p in omega (arith, here, rest)
tally-perm i (Permᴰ.swap {l = l} e f) =
    let here = ap (λ (m : Member). is_value i m.state) e in
    let there = ap (λ (m : Member). is_value i m.state) f in omega (arith, here, there)
tally-perm i (Permᴰ.trans p q) = tally-perm i p ∙ tally-perm i q

AllKnown-perm : {ms ns : List Member} → Permᴰ ms ns → AllKnown ms → AllKnown ns
AllKnown-perm Permᴰ.nil all = tt
AllKnown-perm (Permᴰ.cons e p) all =
    (subst (λ (m : Member). 0 < rank_of m.state) e all.0, AllKnown-perm p all.1)
AllKnown-perm (Permᴰ.swap e f) all = (
  subst (λ (m : Member). 0 < rank_of m.state) f all.1.0,
  (subst (λ (m : Member). 0 < rank_of m.state) e all.0, all.1.1),
)
AllKnown-perm (Permᴰ.trans p q) all = AllKnown-perm q (AllKnown-perm p all)

sort-Counted :
    (sockets : ℕ → SocketData) (c : SendBackupCtx)
    → Counted c
    → Counted (sort_by_weight_and_state sockets c)
unfolding sort_by_weight_and_state
sort-Counted sockets c counted =
    let p = Permᴰ.symm (sorted-perm sockets c.member_states) in
    record {
      counts = λ i. counted.counts i ∙ ap (λ n. n % 2 ^ 32) (tally-perm i p);
      known = AllKnown-perm p counted.known;
    }

init-Counted : Counted init
unfolding init
init-Counted = record { counts = λ i. omega arith; known = tt }

-- A call that changes the entries.
pub data Call : Type 0 where
  record_state : ℕ → BackupMemberState → Call
  update_state : ℕ → BackupMemberState → Call
  sort : Call

abbrev pub answer_to : (ℕ → SocketData) → Call → SendBackupCtx → Option SendBackupCtx
answer_to sockets (record_state sock st) c = record_member_state sockets c sock st
answer_to sockets (update_state sock st) c = update_member_state c sock st
answer_to sockets sort c = some (sort_by_weight_and_state sockets c)

-- The calls one after the other.
abbrev pub run : (ℕ → SocketData) → List Call → SendBackupCtx → Option SendBackupCtx
run sockets [] c = some c
run sockets (call ∷ calls) c = answer_to sockets call c >>= run sockets calls

abbrev pub Allowed : Call → Type 0
Allowed (record_state sock st) = st ≢ unknown
Allowed (update_state sock st) = st ≢ unknown
Allowed sort = Unit

abbrev pub AllAllowed : List Call → Type 0
AllAllowed [] = Unit
AllAllowed (call ∷ calls) = Allowed call × AllAllowed calls

answer-Counted :
    (sockets : ℕ → SocketData) (call : Call) (c : SendBackupCtx)
    → Allowed call
    → Counted c
    → (c' : SendBackupCtx) × (answer_to sockets call c ≡ some c') × Counted c'
answer-Counted sockets (record_state sock st) c ok counted =
    let (c', e, counted', _) =
      record_member_state-Counted sockets c sock st counted (rank_pos st ok) in
    (c', e, counted')
answer-Counted sockets (update_state sock st) c ok counted =
    let (c', e, updated) = update_member_state-Updated c sock st counted ok in
    (c', e, updated.counted)
answer-Counted sockets sort c ok counted =
    (sort_by_weight_and_state sockets c, refl, sort-Counted sockets c counted)

run_from-Counted :
    (sockets : ℕ → SocketData) (calls : List Call) (c : SendBackupCtx)
    → AllAllowed calls
    → Counted c
    → (c' : SendBackupCtx) × (run sockets calls c ≡ some c') × Counted c'
run_from-Counted sockets [] c ok counted = (c, refl, counted)
run_from-Counted sockets (call ∷ calls) c ok counted =
    let (c1, e1, counted1) = answer-Counted sockets call c ok.0 counted in
    let (c2, e2, counted2) = run_from-Counted sockets calls c1 ok.1 counted1 in
    (c2, bind_some (answer_to sockets call c) c1 (run sockets calls) e1 ∙ e2, counted2)

-- However recordMemberState, updateMemberState and sortByWeightAndState follow on each other from a new context, if
-- no member is given the unknown state, none of them fails, and countMembersByState of each other state is the number
-- of the entries of that state, as a 32-bit word.
pub run-Counted :
    (sockets : ℕ → SocketData) (calls : List Call)
    → AllAllowed calls
    → (c : SendBackupCtx) × (run sockets calls init ≡ some c)
      × ((st : BackupMemberState)
          → st ≢ unknown
          → (i : ℕ) × (value_of st ≡ some i)
            × (count_members_by_state c st ≡ some (tally i c.member_states % 2 ^ 32)))
unfolding count_members_by_state
run-Counted sockets calls ok =
    let (c, e, counted) = run_from-Counted sockets calls init ok init-Counted in
    (
      c,
      e,
      λ st ne.
          let i = rank_of st - 1 in
          let value = value_of-rank st (rank_pos st ne) in
          (
            i,
            value,
            bind_some (value_of st) i (λ i. some (c.state_counter i)) value
                ∙ ap some (counted.counts i),
          ),
    )
