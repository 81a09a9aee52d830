-- ===== src/RcvLossList/Removal.antt =====
-- `CRcvLossList::remove` (srt/srtcore/list.cpp), branch by branch.
pub mod Unlink
pub mod Ends
pub mod Shift
pub mod Search
pub mod Trim
pub mod Split
pub mod Outcome
pub mod Cases
pub mod Whole
pub mod Run
use mathlib.Core.Option
use srtplay.Base.{
  ℕ, zero, suc, ◌+◌, ◌-◌, ◌%◌, leb, ◌==◌, if◌then◌else◌, Bool, true, false, Option, none, some,
  update,
}
use srtplay.Base.Int.{pos, pos_part, ltb_ℤ}
use srtplay.SeqNo.{max_seq, seqcmp, seqoff, incseq, decseq}
use srtplay.RcvLossList.{
  Node, RcvLossList, ◌>>=◌, holds, end_or, clear_start, link_prior, link_next,
}

-- The node `loc` leaves the list.
pub unlink : RcvLossList → ℕ → ℕ → Option RcvLossList
unlink l h loc =
    if h == loc
    then elim (l.nodes loc).inext [
      | some n ↦
          let nodes1 = update l.nodes n (record (l.nodes n) { iprior = none }) in
          some (record l { head = some n; nodes = clear_start nodes1 loc })
      | none ↦ some (record l { head = none; tail = none; nodes = clear_start l.nodes loc })
    ]
    else elim (l.nodes loc).iprior [
      | none ↦ none
      | some p ↦
          let nodes1 = update l.nodes p (record (l.nodes p) { inext = (l.nodes loc).inext }) in
          elim (nodes1 loc).inext [
            | some n ↦
                let nodes2 = update nodes1 n (record (nodes1 n) { iprior = (nodes1 loc).iprior }) in
                some (record l { nodes = clear_start nodes2 loc })
            | none ↦ some (record l { tail = (nodes1 loc).iprior; nodes = clear_start nodes1 loc })
          ]
    ]

-- The first node of a range, at `loc`, moves to the next place `i`, for the range from `next` on.
pub shifted_nodes : (ℕ → Node) → ℕ → ℕ → ℕ → ℕ → ℕ → Node
shifted_nodes nodes loc i next seqend =
    let nodes1 = update nodes i (record (nodes i) {
      seqstart = some next;
      seqend = end_or (ltb_ℤ (pos 0) (seqcmp seqend next)) seqend (nodes i).seqend;
    }) in
    let nodes2 = update nodes1 loc (record (nodes1 loc) { seqstart = none; seqend = none }) in
    update nodes2 i (record (nodes2 i) { inext = (nodes2 loc).inext; iprior = (nodes2 loc).iprior })

pub shift : RcvLossList → ℕ → ℕ → ℕ → ℕ → ℕ → Option RcvLossList
shift l h t loc i seqend = do
  start ← (l.nodes loc).seqstart
  let nodes3 = shifted_nodes l.nodes loc i (incseq start) seqend
  nodes4 ← link_prior nodes3 (h == loc) (nodes3 i).iprior i
  nodes5 ← link_next nodes4 (t == loc) (nodes4 i).inext i
  some (record l {
    nodes = nodes5;
    head = if h == loc then some i else l.head;
    tail = if t == loc then some i else l.tail;
  })

-- The first node at or below `i`, going round, that is used: `while (seqstart == NONE) i = i - 1`.
-- `none` if there is none within `rounds`.
pub search_back : ℕ → (ℕ → Node) → ℕ → ℕ → Option ℕ
search_back size nodes zero i = none
search_back size nodes (suc rounds) i =
    let rest = search_back size nodes rounds ((i + size - 1) % size) in
    elim (nodes i).seqstart [ some s ↦ some i | none ↦ rest ]

-- `seqno` is the end of the range that starts at node `i`, or that range is cut before it.
abbrev pub cut_end : ℕ → ℕ → Option ℕ
cut_end seqno start = if seqno == incseq start then none else some (decseq seqno)

-- The range at `i` without its last number.
pub trim : RcvLossList → ℕ → ℕ → ℕ → RcvLossList
trim l i seqno start = record l {
  nodes = update l.nodes i (record (l.nodes i) { seqend = cut_end seqno start });
}

-- The range at `i` in two, without `seqno`; the second part gets the node `loc`.
pub parted_nodes : (ℕ → Node) → ℕ → ℕ → ℕ → ℕ → ℕ → ℕ → Node
parted_nodes nodes i loc seqno start seqend =
    let next = incseq seqno in
    let nodes1 = update nodes loc (record (nodes loc) {
      seqstart = some next;
      seqend = end_or (ltb_ℤ (pos 0) (seqcmp seqend next)) seqend (nodes loc).seqend;
    }) in
    let nodes2 = update nodes1 i (record (nodes1 i) { seqend = cut_end seqno start }) in
    let nodes3 = update nodes2 loc (record (nodes2 loc) { inext = (nodes2 i).inext }) in
    let nodes4 = update nodes3 i (record (nodes3 i) { inext = some loc }) in
    update nodes4 loc (record (nodes4 loc) { iprior = some i })

pub split : RcvLossList → ℕ → ℕ → ℕ → ℕ → ℕ → ℕ → Option RcvLossList
split l t i loc seqno start seqend = do
  let nodes5 = parted_nodes l.nodes i loc seqno start seqend
  nodes6 ← link_next nodes5 (t == i) (nodes5 loc).inext loc
  some (record l { nodes = nodes6; tail = if t == i then some loc else l.tail })

-- The result of a removal, with one loss less.
abbrev pub removed : RcvLossList → Bool × RcvLossList
removed l = (true, record l { length = l.length - 1 })

pub note_largest : RcvLossList → ℕ → RcvLossList
note_largest l seqno = elim l.largest_seq [
  | none ↦ record l { largest_seq = some seqno }
  | some g ↦ if ltb_ℤ (pos 0) (seqcmp seqno g) then record l { largest_seq = some seqno } else l
]

module _ (size : ℕ) where
  -- `seqno` starts the range at `loc`.
  pub remove_start : RcvLossList → ℕ → ℕ → ℕ → Option (Bool × RcvLossList)
  remove_start l h t loc = Option.map removed (elim (l.nodes loc).seqend [
    | none ↦ unlink l h loc
    | some seqend ↦ shift l h t loc ((loc + 1) % size) seqend
  ])

  -- No range starts at `loc`; `seqno` may be in an earlier one.
  pub remove_inside : RcvLossList → ℕ → ℕ → ℕ → Option (Bool × RcvLossList)
  remove_inside l t loc seqno = do
    i ← search_back size l.nodes size ((loc + size - 1) % size)
    start ← (l.nodes i).seqstart
    (elim (l.nodes i).seqend [
      | none ↦ some (false, l)
      | some seqend ↦
          if ltb_ℤ (pos 0) (seqcmp seqno seqend)
          then some (false, l)
          else if seqno == seqend
          then some (removed (trim l i seqno start))
          else Option.map removed (split l t i ((loc + 1) % size) seqno start seqend)
    ])

  remove_located : RcvLossList → ℕ → Option (Bool × RcvLossList)
  remove_located l seqno = do
    h ← l.head
    t ← l.tail
    first ← (l.nodes h).seqstart
    let offset = seqoff first seqno
    let loc = (h + pos_part offset) % size
    (if ltb_ℤ offset (pos 0)
        then some (false, l)
        else if holds (l.nodes loc).seqstart seqno
        then remove_start l h t loc
        else remove_inside l t loc seqno)

  -- `remove(seqno)`
  pub remove : RcvLossList → ℕ → Option (Bool × RcvLossList)
  remove l seqno =
      let l' = note_largest l seqno in
      if l'.length == 0 then some (false, l') else remove_located l' seqno

  -- `remove(i)` for `n` values of `i`, one after the other.
  pub remove_run : RcvLossList → ℕ → ℕ → Option RcvLossList
  remove_run l i zero = some l
  remove_run l i (suc n) = do done ← remove l i; remove_run done.1 (i + 1) n

  -- `remove(seqno1, seqno2)`. The counter of the first loop has no value above `max_seq`, the largest
  -- `int32_t`, so that this loop does not end where `seqno2` is that number: `none`.
  pub remove_range : RcvLossList → ℕ → ℕ → Option (Bool × RcvLossList)
  remove_range l seqno1 seqno2 =
      if leb seqno1 seqno2
      then (if seqno2 == max_seq
          then none
          else Option.map (λ l'. (true, l')) (remove_run l seqno1 (seqno2 - seqno1 + 1)))
      else remove_run l seqno1 (max_seq - seqno1) >>= λ l'.
          Option.map (λ l''. (true, l'')) (remove_run l' 0 (seqno2 + 1))
