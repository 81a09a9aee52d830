-- ===== src/SndLossList/Insertion.antt =====
-- `CSndLossList::insert`.
use srtplay.Base.{ℕ, ◌+◌, leb, ◌==◌, ◌&&◌, ◌||◌, not, if◌then◌else◌, Option, none, some, ◌>>=◌}
use srtplay.Base.Int.{ℤ, pos, ◌+ℤ◌, ◌-ℤ◌, ltb_ℤ, leb_ℤ, eqb_ℤ, pos_part}
use srtplay.SeqNo.{seqcmp, seqlen, seqoff, incseq}
use srtplay.SndLossList.{
  SndLossList, holds, put, remainder, insert_head, insert_after, update_element, coalesce,
  search_prior,
}

-- Where the search starts: at the last insert position, if it is before `seqno1`.
unfoldable pub search_start : SndLossList → ℕ → ℕ → Option ℕ
search_start l head seqno1 = elim l.last_insert_pos [
  | none ↦ some head
  | some i ↦ elim (l.nodes i).seqstart [
    | none ↦ none
    | some start ↦ some (if ltb_ℤ (seqcmp start seqno1) (pos 0) then i else head)
  ]
]

-- The end of the range of a node.
abbrev pub range_end : SndLossList → ℕ → Option ℕ
range_end l i = elim (l.nodes i).seqend [ none ↦ (l.nodes i).seqstart | some e ↦ some e ]

-- Behind the node at `i`, the last that starts before `seqno1`: the place to coalesce at, or none if nothing
-- is new.
unfoldable pub insert_behind : SndLossList → ℕ → ℕ → ℕ → ℕ → ℕ → Option ℕ × SndLossList
insert_behind l i e loc seqno1 seqno2 =
    let l1 = record l { last_insert_pos = some i } in
    if ltb_ℤ (seqcmp e seqno1) (pos 0) && not (incseq e == seqno1)
    then (some loc, insert_after l loc i seqno1 seqno2)
    else if leb_ℤ (pos 0) (seqcmp e seqno2)
    then (none, l1)
    else (
      some i,
      record (put l1 i (record (l.nodes i) { seqend = some seqno2 })) {
        length = l.length +ℤ (pos (seqlen e seqno2) -ℤ pos 1);
      },
    )

module _ (size : ℕ) where
  unfoldable pub insert_later : SndLossList → ℕ → ℕ → ℕ → ℕ → Option (Option ℕ × SndLossList)
  insert_later l head loc seqno1 seqno2 =
      let (updated, l1) = update_element l loc seqno1 seqno2 in
      if holds (l.nodes loc).seqstart seqno1
      then some (if updated then some loc else none, l1)
      else search_start l head seqno1 >>= λ from. search_prior size l seqno1 from >>= λ i.
          range_end l i >>= λ e. some (insert_behind l i e loc seqno1 seqno2)

  -- By the offset from the first loss.
  unfoldable pub insert_located : SndLossList → ℕ → ℤ → ℕ → ℕ → ℕ → Option (Option ℕ × SndLossList)
  insert_located l head offset loc seqno1 seqno2 =
      let (updated, l1) = update_element l head seqno1 seqno2 in
      if ltb_ℤ offset (pos 0)
      then some (some loc, insert_head l loc seqno1 seqno2)
      else if ltb_ℤ (pos 0) offset
      then insert_later l head loc seqno1 seqno2
      else some (if updated then some loc else none, l1)

  -- The number of packets that were not in the list.
  unfoldable pub finish : ℤ → Option ℕ × SndLossList → Option (ℤ × SndLossList)
  finish origlen (none, l) = some (pos 0, l)
  finish origlen (some loc, l) = coalesce size l loc >>= λ l1. some (l1.length -ℤ origlen, l1)

  -- The place of an offset from the head, which is negative if the number is too old.
  unfoldable pub place : ℕ → ℤ → ℤ
  place head offset = remainder (pos (head + size) +ℤ offset) size

  unfoldable pub insert : SndLossList → ℕ → ℕ → Option (ℤ × SndLossList)
  insert l seqno1 seqno2 =
      if leb size (seqlen seqno1 seqno2)
      then some (pos 0, l)
      else if eqb_ℤ l.length (pos 0)
      then (let l1 = insert_head l 0 seqno1 seqno2 in some (l1.length, l1))
      else l.head >>= λ head. (l.nodes head).seqstart >>= λ start.
          let offset = seqoff start seqno1 in
          let loc1 = place head offset in
          let loc2 = place head (seqoff start seqno2) in
          let loc = if ltb_ℤ loc1 (pos 0) then loc2 else loc1 in
          if leb_ℤ (pos size) offset || ltb_ℤ loc (pos 0)
          then some (pos 0, l)
          else insert_located l head offset (pos_part loc) seqno1 seqno2 >>= finish l.length
