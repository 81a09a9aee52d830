-- ===== src/GroupBackup.antt =====
-- `SendBackupCtx` (srt/srtcore/group_backup.h and group_backup.cpp): the members of a backup group and their states,
-- as the sending function keeps them.
-- A pointer to the data of a member's socket is a number, and what it points to an argument; an entry's pointer is
-- never null, since its constructor follows it. The counts are 32-bit words. The index -1, that of the unknown
-- state, would be a fault, and results in `none`.
pub mod Counts
pub mod Members
pub mod Sorting
pub mod Runs
mod Tests
use srtplay.Base.{
  ℕ, ◌+◌, ◌-◌, ◌%◌, ◌^◌, max, ltb, ◌==◌, if◌then◌else◌, Bool, true, false, Option, none, some,
  update, List, [], ◌∷◌, ◌++◌, ◌>>=◌,
}
use srtplay.RateEstimator
use srtplay.RateEstimator.{RateEstimator}

pub data BackupMemberState : Type 0 where
  unknown : BackupMemberState
  pending : BackupMemberState
  standby : BackupMemberState
  broken : BackupMemberState
  active_unstable : BackupMemberState
  active_unstable_wary : BackupMemberState
  active_fresh : BackupMemberState
  active_stable : BackupMemberState

-- The value of the enumeration, none for -1.
unfoldable pub value_of : BackupMemberState → Option ℕ
value_of unknown = none
value_of pending = some 0
value_of standby = some 1
value_of broken = some 2
value_of active_unstable = some 3
value_of active_unstable_wary = some 4
value_of active_fresh = some 5
value_of active_stable = some 6

-- The value plus one.
abbrev pub rank_of : BackupMemberState → ℕ
rank_of st = elim (value_of st) [ none ↦ 0 | some i ↦ i + 1 ]

unfoldable pub is_state_active : BackupMemberState → Bool
is_state_active active_fresh = true
is_state_active active_stable = true
is_state_active active_unstable = true
is_state_active active_unstable_wary = true
is_state_active unknown = false
is_state_active pending = false
is_state_active standby = false
is_state_active broken = false

pub record SocketData : Type 0 where
  pub id : ℕ
  pub weight : ℕ

pub record Member : Type 0 where
  pub socket_data : ℕ
  pub socket_id : ℕ
  pub state : BackupMemberState

pub record SendBackupCtx : Type 0 where
  pub member_states : List Member
  pub state_counter : ℕ → ℕ
  pub active_max_weight : ℕ
  pub standby_max_weight : ℕ
  pub rate_estimate : RateEstimator

unfoldable pub init : SendBackupCtx
init = record {
  member_states = [];
  state_counter = λ _. 0;
  active_max_weight = 0;
  standby_max_weight = 0;
  rate_estimate = RateEstimator.init;
}

-- `++m_stateCounter[i]`
abbrev pub count_up : ℕ → (ℕ → ℕ) → ℕ → ℕ
count_up i counter = update counter i ((counter i + 1) % 2 ^ 32)

-- `--m_stateCounter[i]`
abbrev pub count_down : ℕ → (ℕ → ℕ) → ℕ → ℕ
count_down i counter = update counter i ((counter i + (2 ^ 32 - 1)) % 2 ^ 32)

unfoldable pub note_weight : SendBackupCtx → BackupMemberState → ℕ → SendBackupCtx
note_weight c standby weight = record c { standby_max_weight = max c.standby_max_weight weight }
note_weight c st weight =
    if is_state_active st
    then record c { active_max_weight = max c.active_max_weight weight }
    else c

unfoldable pub record_member_state :
    (ℕ → SocketData) → SendBackupCtx → ℕ → BackupMemberState → Option SendBackupCtx
record_member_state sockets c sock st =
    let member : Member = record {
      socket_data = sock;
      socket_id = (sockets sock).id;
      state = st;
    } in
    value_of st >>= λ i. some (
      note_weight
        (record c {
          member_states = c.member_states ++ member ∷ [];
          state_counter = count_up i c.state_counter;
        })
        st (sockets sock).weight)

-- The state of the first entry of a socket.
unfoldable pub find_state : ℕ → List Member → Option BackupMemberState
find_state sock [] = none
find_state sock (m ∷ ms) = if m.socket_data == sock then some m.state else find_state sock ms

-- The same entry, with another state.
unfoldable pub set_state : ℕ → BackupMemberState → List Member → List Member
set_state sock st [] = []
set_state sock st (m ∷ ms) =
    if m.socket_data == sock then record m { state = st } ∷ ms else m ∷ set_state sock st ms

unfoldable pub move_state :
    SendBackupCtx → ℕ → BackupMemberState → BackupMemberState → Option SendBackupCtx
move_state c sock old st =
    if rank_of old == rank_of st
    then some c
    else (value_of old >>= λ i. value_of st >>= λ j. some (record c {
      state_counter = count_up j (count_down i c.state_counter);
      member_states = set_state sock st c.member_states;
    }))

-- A socket that is no member is only logged.
unfoldable pub update_member_state : SendBackupCtx → ℕ → BackupMemberState → Option SendBackupCtx
update_member_state c sock st = elim (find_state sock c.member_states) [
  | none ↦ some c
  | some old ↦ move_state c sock old st
]

-- `FCompareByWeight`
unfoldable pub before : (ℕ → SocketData) → Member → Member → Bool
before sockets a b =
    let wa = (sockets a.socket_data).weight in
    let wb = (sockets b.socket_data).weight in
    if wa == wb
    then (if rank_of a.state == rank_of b.state
        then ltb a.socket_id b.socket_id
        else ltb (rank_of b.state) (rank_of a.state))
    else ltb wb wa

-- `std::sort`, by insertion.
unfoldable pub place : (ℕ → SocketData) → Member → List Member → List Member
place sockets m [] = m ∷ []
place sockets m (n ∷ ms) = elim (before sockets m n) [
  | true ↦ m ∷ n ∷ ms
  | false ↦ n ∷ place sockets m ms
]

unfoldable pub sorted : (ℕ → SocketData) → List Member → List Member
sorted sockets [] = []
sorted sockets (m ∷ ms) = place sockets m (sorted sockets ms)

unfoldable pub sort_by_weight_and_state : (ℕ → SocketData) → SendBackupCtx → SendBackupCtx
sort_by_weight_and_state sockets c = record c { member_states = sorted sockets c.member_states }

unfoldable pub get_member_state : SendBackupCtx → ℕ → BackupMemberState
get_member_state c sock = elim (find_state sock c.member_states) [ none ↦ unknown | some st ↦ st ]

unfoldable pub count_members_by_state : SendBackupCtx → BackupMemberState → Option ℕ
count_members_by_state c st = value_of st >>= λ i. some (c.state_counter i)

unfoldable pub set_rate_estimate : SendBackupCtx → RateEstimator → SendBackupCtx
set_rate_estimate c rate = record c { rate_estimate = rate }
