-- ===== src/GroupBackup/Tests.antt =====
-- A backup group of three members, and the theorems there.
use mathlib.Core.List.{Permᴰ}
use srtplay.Base.{ℕ, ◌+◌, ◌%◌, ◌^◌, ◌≡◌, ◌≢◌, ap, arith, ◌==◌, if◌then◌else◌, some, List, [], ◌∷◌}
use srtplay.GroupBackup.{
  BackupMemberState, unknown, pending, standby, active_fresh, active_stable, SocketData, Member,
  SendBackupCtx, init, value_of, rank_of, update_member_state, sort_by_weight_and_state,
  count_members_by_state,
}
use srtplay.GroupBackup.Counts.{tally, Counted}
use srtplay.GroupBackup.Members.{Updated, update_member_state-Updated}
use srtplay.GroupBackup.Sorting.{InOrder, sort_by_weight_and_state-InOrder}
use srtplay.GroupBackup.Runs.{Call, record_state, update_state, sort, run, run-Counted}

-- The socket 2 has the greatest weight.
abbrev sockets : ℕ → SocketData
sockets i = record { id = 100 + i; weight = if i == 2 then 50 else 10 }

abbrev calls : List Call
calls =
    record_state 0 standby
    ∷ record_state 1 active_fresh
    ∷ record_state 2 standby
    ∷ update_state 0 active_stable
    ∷ update_state 7 pending
    ∷ sort
    ∷ []

standby-ne-unknown : standby ≢ unknown
standby-ne-unknown e = absurd (ground (arith, ap rank_of e))

active_fresh-ne-unknown : active_fresh ≢ unknown
active_fresh-ne-unknown e = absurd (ground (arith, ap rank_of e))

active_stable-ne-unknown : active_stable ≢ unknown
active_stable-ne-unknown e = absurd (ground (arith, ap rank_of e))

pending-ne-unknown : pending ≢ unknown
pending-ne-unknown e = absurd (ground (arith, ap rank_of e))

run-Counted_example :
    (c : SendBackupCtx) × (run sockets calls init ≡ some c)
    × ((st : BackupMemberState)
        → st ≢ unknown
        → (i : ℕ) × (value_of st ≡ some i)
          × (count_members_by_state c st ≡ some (tally i c.member_states % 2 ^ 32)))
run-Counted_example = run-Counted sockets calls (
  standby-ne-unknown,
  (
    active_fresh-ne-unknown,
    (standby-ne-unknown, (active_stable-ne-unknown, (pending-ne-unknown, (tt, tt)))),
  ),
)

-- Two members are standing by.
abbrev two_members : SendBackupCtx
two_members = record {
  member_states =
      record { socket_data = 0; socket_id = 100; state = standby }
      ∷ record { socket_data = 2; socket_id = 102; state = standby }
      ∷ [];
  state_counter = λ i. if i == 1 then 2 else 0;
  active_max_weight = 0;
  standby_max_weight = 50;
  rate_estimate = init.rate_estimate;
}

two_members-Counted : Counted two_members
unfolding value_of
two_members-Counted = record {
  counts = λ i. ground arith;
  known = (omega arith, (omega arith, tt));
}

update_member_state-Updated_example :
    (c' : SendBackupCtx) × (update_member_state two_members 2 active_fresh ≡ some c')
    × Updated two_members 2 active_fresh c'
update_member_state-Updated_example =
    update_member_state-Updated two_members 2 active_fresh two_members-Counted
      active_fresh-ne-unknown

sort_by_weight_and_state-InOrder_example :
    (ms : List Member) × (sort_by_weight_and_state sockets two_members
      ≡ record two_members { member_states = ms })
    × Permᴰ ms two_members.member_states
    × InOrder sockets ms
sort_by_weight_and_state-InOrder_example = sort_by_weight_and_state-InOrder sockets two_members
