-- ===== src/SndUList/Valid.antt =====
-- Valid schedules.
use srtplay.Base.{ℕ, ◌<◌, ◌≤◌, Bool}
use srtplay.SndUList.{SndUList, key, is_some}
use srtplay.SndUList.Order.{IsHeap}
use srtplay.SndUList.Linked.{Linked}

-- The nodes know their places, none is earlier than its parent, and the array has room for them.
pub record Valid (s : SndUList) : Type 0 where
  pub linked : Linked s.entries s.heap s.heap_loc
  pub ordered : IsHeap s.entries (key s)
  pub room : s.entries ≤ s.array_length
  pub not_empty : 0 < s.array_length

abbrev pub scheduled : SndUList → ℕ → Bool
scheduled s n = is_some (s.heap_loc n)
