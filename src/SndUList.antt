-- ===== src/SndUList.antt =====
-- `CSndUList` (srt/srtcore/queue.h and queue.cpp): the sockets that have something to send, as a binary heap in
-- the order of the times when they are to send next.
-- The node of a socket is named by a number. `entries` is `m_iLastEntry + 1`. What wakes a thread is counted:
-- `m_pTimer->interrupt()` and `m_ListCond.notify_one()`. Memory for a larger array can be had. A use of the index
-- -1, and a loop that has no end, result in `none`.
pub mod Order
pub mod Linked
pub mod Up
pub mod Down
pub mod Valid
pub mod Insert
pub mod Remove
pub mod Schedule
mod Tests
use srtplay.Base.{
  ℕ, zero, suc, ◌+◌, ◌-◌, ◌*◌, ◌/◌, ltb, leb, ◌==◌, ◌&&◌, not, if◌then◌else◌, Bool, true, false,
  Option, none, some, update, ◌>>=◌,
}

pub record SndUList : Type 0 where
  pub heap : ℕ → ℕ
  pub array_length : ℕ
  pub entries : ℕ
  pub time_stamp : ℕ → ℕ
  pub heap_loc : ℕ → Option ℕ
  pub interrupts : ℕ
  pub notified : ℕ

pub init : SndUList
init = record {
  heap = λ i. 0;
  array_length = 512;
  entries = 0;
  time_stamp = λ n. 0;
  heap_loc = λ n. none;
  interrupts = 0;
  notified = 0;
}

-- The time stamp of the node at a place.
abbrev pub key : SndUList → ℕ → ℕ
key s i = s.time_stamp (s.heap i)

abbrev pub is_some : Option ℕ → Bool
is_some none = false
is_some (some i) = true

abbrev pub count_if : Bool → ℕ → ℕ
count_if b n = if b then n + 1 else n

-- `swap(m_pHeap[p], m_pHeap[q])`
unfoldable pub swapped : (ℕ → ℕ) → ℕ → ℕ → ℕ → ℕ
swapped h p q = update (update h p (h q)) q (h p)

-- The swap as a new node goes up: it has no location yet.
unfoldable pub swap_up : SndUList → ℕ → ℕ → SndUList
swap_up s p q =
    let heap1 = swapped s.heap p q in
    record s { heap = heap1; heap_loc = update s.heap_loc (heap1 q) (some q) }

unfoldable pub go_up : ℕ → SndUList → ℕ → Option (ℕ × SndUList)
go_up zero s q = none
go_up (suc rounds) s q =
    let p = (q - 1) / 2 in
    elim (q == 0) [
      | true ↦ some (q, s)
      | false ↦ elim (leb (key s p) (key s q)) [
        | true ↦ some (q, s)
        | false ↦ go_up rounds (swap_up s p q) p
      ]
    ]

-- The new node `u` is at `q`.
unfoldable pub settle : ℕ → ℕ × SndUList → SndUList
settle u (q, s) = record s {
  heap_loc = update s.heap_loc u (some q);
  interrupts = count_if (q == 0) s.interrupts;
  notified = count_if (s.entries == 1) s.notified;
}

unfoldable pub insert_norealloc : SndUList → ℕ → ℕ → Option SndUList
insert_norealloc s ts u = elim (is_some (s.heap_loc u)) [
  | true ↦ some s
  | false ↦
      let s1 = record s {
        entries = s.entries + 1;
        heap = update s.heap s.entries u;
        time_stamp = update s.time_stamp u ts;
      } in
      go_up (s.entries + 1) s1 s.entries >>= λ r. some (settle u r)
]

unfoldable pub realloc : SndUList → SndUList
realloc s = record s { array_length = s.array_length * 2 }

-- The child of a place that comes first.
abbrev pub smaller_child : SndUList → ℕ → ℕ
smaller_child s p = if ltb (p + 1) s.entries && ltb (key s (p + 1)) (key s p) then p + 1 else p

unfoldable pub swap_down : SndUList → ℕ → ℕ → SndUList
swap_down s p q =
    let heap1 = swapped s.heap p q in
    record s {
      heap = heap1;
      heap_loc = update (update s.heap_loc (heap1 p) (some p)) (heap1 q) (some q);
    }

unfoldable pub go_down : ℕ → SndUList → ℕ → Option SndUList
go_down zero s q = none
go_down (suc rounds) s q = elim (ltb (q * 2 + 1) s.entries) [
  | true ↦
      let p = smaller_child s (q * 2 + 1) in
      elim (ltb (key s p) (key s q)) [ true ↦ go_down rounds (swap_down s p q) p | false ↦ some s ]
  | false ↦ some s
]

-- The node at `loc` goes, and the last one, behind `rest` others, takes its place.
unfoldable pub fill_hole : SndUList → ℕ → ℕ → SndUList
fill_hole s loc rest = record s {
  heap = update s.heap loc (s.heap rest);
  entries = rest;
  heap_loc = update s.heap_loc (s.heap rest) (some loc);
}

abbrev pub leave : ℕ → SndUList → SndUList
leave u s = record s { heap_loc = update s.heap_loc u none }

-- The node `u` is removed from `loc`, from among so many.
unfoldable pub remove_at : SndUList → ℕ → ℕ → ℕ → Option SndUList
remove_at s u loc zero = none
remove_at s u loc (suc rest) =
    go_down (suc rest) (fill_hole s loc rest) loc >>= λ s1. some (leave u s1)

-- `remove_`, and `remove`, which takes the lock.
unfoldable pub remove_node : SndUList → ℕ → Option SndUList
remove_node s u =
    (elim (s.heap_loc u) [ none ↦ some s | some loc ↦ remove_at s u loc s.entries ]) >>= λ s1.
    some (record s1 { interrupts = count_if (s1.entries == 1) s1.interrupts })

unfoldable pub insert : SndUList → ℕ → ℕ → Option SndUList
insert s ts u = insert_norealloc (if s.entries == s.array_length then realloc s else s) ts u

unfoldable pub reschedule_at : SndUList → ℕ → ℕ → ℕ → Option SndUList
reschedule_at s loc ts u =
    if leb (s.time_stamp u) ts
    then some s
    else if loc == 0
    then some (record s { time_stamp = update s.time_stamp u ts; interrupts = s.interrupts + 1 })
    else (remove_node s u >>= λ s1. insert_norealloc s1 ts u)

-- `update`
unfoldable pub reschedule : SndUList → ℕ → Bool → ℕ → Option SndUList
reschedule s u again ts = elim (s.heap_loc u) [
  | none ↦ insert s ts u
  | some loc ↦ if again then reschedule_at s loc ts u else some s
]

unfoldable pub pop : SndUList → ℕ → Option (Option ℕ × SndUList)
pop s now =
    if s.entries == 0
    then some (none, s)
    else if ltb now (key s 0)
    then some (none, s)
    else (remove_node s (s.heap 0) >>= λ s1. some (some (s.heap 0), s1))

-- A time of 0 where nothing is scheduled.
unfoldable pub get_next_proc_time : SndUList → ℕ
get_next_proc_time s = if s.entries == 0 then 0 else key s 0
