-- ===== src/SndLossList/Removal.antt =====
-- `removeUpTo` and `popLostSeq` of the sender's loss list.
use srtplay.Base.{ℕ, zero, suc, ◌+◌, ◌%◌, if◌then◌else◌, true, false, Option, none, some, ◌>>=◌}
use srtplay.Base.Int.{ℤ, pos, ◌-ℤ◌, ltb_ℤ, eqb_ℤ, pos_part}
use srtplay.SeqNo.{seqcmp, seqlen, seqoff, incseq}
use srtplay.SndLossList.{Seq, SndLossList, holds, put, search_prior}

-- `m_iLastInsertPos`, when the node at `i` goes.
abbrev pub forget : Option ℕ → ℕ → Option ℕ
forget p i = if holds p i then none else p

-- `seqend` of a node that takes the rest of a range up to `e`, from `start` on.
abbrev pub rest_end : ℕ → ℕ → Option ℕ → Option ℕ
rest_end e start old = if ltb_ℤ (pos 0) (seqcmp e start) then some e else old

-- The node at `loc` gets the numbers behind `seqno`, of the range up to `e` of the node at `i`.
unfoldable pub take_rest : SndLossList → ℕ → ℕ → ℕ → ℕ → SndLossList
take_rest l loc i e seqno = put l loc (record {
  seqstart = some (incseq seqno);
  seqend = rest_end e (incseq seqno) (l.nodes loc).seqend;
  inext = (l.nodes i).inext;
})

-- The number of losses of a node.
abbrev pub losses_of : Seq → Option ℤ
losses_of n = elim n.seqend [
  | none ↦ some (pos 1)
  | some e ↦ n.seqstart >>= λ start. some (pos (seqlen start e))
]

-- The node at `h`, of `less` losses, is emptied.
unfoldable pub clear_node : SndLossList → ℕ → ℤ → SndLossList
clear_node l h less = record (put l h (record (l.nodes h) { seqstart = none; seqend = none })) {
  length = l.length -ℤ less;
  last_insert_pos = forget l.last_insert_pos h;
}

-- The nodes in front of the head are emptied, from `h` on.
unfoldable pub drop_prior : ℕ → SndLossList → Option ℕ → Option SndLossList
drop_prior rounds l none = elim l.head [ none ↦ some l | some k ↦ none ]
drop_prior zero l (some h) = none
drop_prior (suc rounds) l (some h) = elim (holds l.head h) [
  | true ↦ some l
  | false ↦
      losses_of (l.nodes h) >>= λ less. drop_prior rounds (clear_node l h less) (l.nodes h).inext
]

module _ (size : ℕ) where
  unfoldable pub pop_lost_seq : SndLossList → Option (Option ℕ × SndLossList)
  pop_lost_seq l =
      if eqb_ℤ l.length (pos 0)
      then some (none, l)
      else l.head >>= λ h. (l.nodes h).seqstart >>= λ seqno.
          let l0 = record l {
            last_insert_pos = forget l.last_insert_pos h;
            length = l.length -ℤ pos 1;
          } in
          let loc = (h + 1) % size in
          elim (l.nodes h).seqend [
            | none ↦ some (
              some seqno,
              record (put l0 h (record (l.nodes h) { seqstart = none })) {
                head = (l.nodes h).inext;
              },
            )
            | some e ↦
                let l1 = take_rest l0 loc h e seqno in
                some (
                  some seqno,
                  record (put l1 h (record (l1.nodes h) { seqstart = none; seqend = none })) {
                    head = some loc;
                  },
                )
          ]

  -- `removeUpTo` the first loss, which is at the head `h`.
  unfoldable pub remove_first : SndLossList → ℕ → ℕ → SndLossList
  remove_first l h seqno =
      let loc = (h + 1) % size in
      let l1 : SndLossList = elim (l.nodes h).seqend [
        | none ↦ record l { head = (l.nodes h).inext }
        | some e ↦
            let rest = take_rest l loc h e seqno in
            record (put rest h (record (rest.nodes h) { seqend = none })) { head = some loc }
      ] in
      record (put l1 h (record (l1.nodes h) { seqstart = none })) {
        last_insert_pos = forget l.last_insert_pos h;
        length = l.length -ℤ pos 1;
      }

  -- The range of the node at `i` goes on behind `seqno` in the node at `loc`, which is the head then.
  unfoldable pub part_at : SndLossList → ℕ → ℕ → ℕ → ℕ → Option ℕ → SndLossList
  part_at l loc i e seqno new_end =
      let rest = take_rest l loc i e seqno in
      record (put rest i (record (rest.nodes i) { seqend = new_end; inext = some loc })) {
        head = some loc;
      }

  -- The new head, where a node starts at `seqno`, at `temp`.
  unfoldable pub cut_at : SndLossList → ℕ → ℕ → SndLossList
  cut_at l temp seqno = elim (l.nodes temp).seqend [
    | none ↦ record l { head = (l.nodes temp).inext }
    | some e ↦ part_at l ((temp + 1) % size) temp e seqno none
  ]

  -- The same, where none does: `i` is the last node before `seqno`, whose place is `loc`.
  unfoldable pub cut_behind : SndLossList → ℕ → ℕ → ℕ → SndLossList
  cut_behind l i loc seqno = elim (l.nodes i).seqend [
    | none ↦ record l { head = (l.nodes i).inext }
    | some e ↦
        if ltb_ℤ (pos 0) (seqcmp e seqno)
        then part_at l ((loc + 1) % size) i e seqno (some seqno)
        else record l { head = (l.nodes i).inext }
  ]

  -- The new head, `offset` numbers behind the first loss.
  unfoldable pub cut_up_to : SndLossList → ℕ → ℕ → ℕ → Option SndLossList
  cut_up_to l h offset seqno =
      let loc = (h + offset + size) % size in
      if holds (l.nodes loc).seqstart seqno
      then some (cut_at l loc seqno)
      else search_prior size l seqno h >>= λ i. some (cut_behind l i loc seqno)

  unfoldable pub remove_up_to : SndLossList → ℕ → Option SndLossList
  remove_up_to l seqno =
      if eqb_ℤ l.length (pos 0)
      then some l
      else l.head >>= λ h. (l.nodes h).seqstart >>= λ start.
          let offset = seqoff start seqno in
          if eqb_ℤ offset (pos 0)
          then some (remove_first l h seqno)
          else if ltb_ℤ (pos 0) offset
          then (cut_up_to l h (pos_part offset) seqno >>= λ l1. drop_prior (size + 1) l1 (some h))
          else some l
