-- ===== src/RcvLossList.antt =====
-- `CRcvLossList` (srt/srtcore/list.h and list.cpp): the receiver's list of lost packets, an array whose
-- used nodes form a doubly linked list of ranges of sequence numbers, earliest first.
-- In the model an index or a sequence number of -1 is `none`, and an operation that would use one
-- as an index or in the circular arithmetic results in `none`. The array is a function of its index; an
-- index is a link or a remainder by `m_iSize`, which is the argument `size`. `inext` and `iprior` of a
-- node that is not in the list are never read.
pub mod Ranges
pub mod Repr
pub mod Links
pub mod Gap
pub mod Removal
pub mod Insertion
pub mod Query
mod Tests
use mathlib.Core.Option
use srtplay.Base.{
  not, ℕ, zero, suc, ◌+◌, ◌-◌, ◌*◌, ◌%◌, ◌^◌, ltb, leb, ◌==◌, if◌then◌else◌, ◌&&◌, ◌||◌, Bool, true,
  false, List, [], ◌∷◌, Option, none, some, update, ◌≡◌, ap,
}
pub use srtplay.Base.{◌>>=◌, bind_some}
use srtplay.Base.Int.{pos, pos_part, ltb_ℤ, leb_ℤ, eqb_ℤ}
use srtplay.SeqNo.{max_seq, seqcmp, seqlen, seqoff, incseq, decseq}

-- `Seq`
pub record Node : Type 0 where
  pub seqstart : Option ℕ
  pub seqend : Option ℕ
  pub inext : Option ℕ
  pub iprior : Option ℕ

pub record RcvLossList : Type 0 where
  pub nodes : ℕ → Node
  pub head : Option ℕ
  pub tail : Option ℕ
  pub length : ℕ
  pub largest_seq : Option ℕ

pub empty_node : Node
empty_node = record { seqstart = none; seqend = none; inext = none; iprior = none }

pub init : RcvLossList
unfolding empty_node
init = record { nodes = λ i. empty_node; head = none; tail = none; length = 0; largest_seq = none }

-- `a == b`, where `a` may be -1.
abbrev pub holds : Option ℕ → ℕ → Bool
holds none b = false
holds (some a) b = a == b

-- `seqend` of a node that gets a range: it is written only where the range has more than one number.
abbrev pub end_or : Bool → ℕ → Option ℕ → Option ℕ
end_or more e old = if more then some e else old

-- The start of what is new in a range, if anything is.
pub adjust : Option ℕ → ℕ → ℕ → Option ℕ
adjust none seqno1 seqno2 = some seqno1
adjust (some largest) seqno1 seqno2 =
    if leb_ℤ (seqcmp seqno1 largest) (pos 0)
    then (if ltb_ℤ (pos 0) (seqcmp seqno2 largest) then some (incseq largest) else none)
    else some seqno1

-- The insertion into an empty list.
pub insert_first : RcvLossList → ℕ → ℕ → RcvLossList
insert_first l seqno1 seqno2 = record l {
  nodes = update l.nodes 0 (record {
    seqstart = some seqno1;
    seqend = end_or (not (seqno2 == seqno1)) seqno2 (l.nodes 0).seqend;
    inext = none;
    iprior = none;
  });
  head = some 0;
  tail = some 0;
  length = l.length + seqlen seqno1 seqno2;
}

-- A new node at `loc`, behind the tail `t`.
pub append_node : RcvLossList → ℕ → ℕ → ℕ → ℕ → RcvLossList
append_node l t loc seqno1 seqno2 =
    let nodes1 = update l.nodes loc (record (l.nodes loc) {
      seqstart = some seqno1;
      seqend = end_or (not (seqno2 == seqno1)) seqno2 (l.nodes loc).seqend;
    }) in
    let nodes2 = update nodes1 t (record (nodes1 t) { inext = some loc }) in
    let nodes3 = update nodes2 loc (record (nodes2 loc) { iprior = some t; inext = none }) in
    record l { nodes = nodes3; tail = some loc; length = l.length + seqlen seqno1 seqno2 }

-- The coalescing with the tail `t`.
pub extend_node : RcvLossList → ℕ → ℕ → ℕ → RcvLossList
extend_node l t seqno1 seqno2 = record l {
  nodes = update l.nodes t (record (l.nodes t) { seqend = some seqno2 });
  length = l.length + seqlen seqno1 seqno2;
}

-- `m_caSeq[loc].seqstart = SRT_SEQNO_NONE`
abbrev pub clear_start : (ℕ → Node) → ℕ → ℕ → Node
clear_start nodes loc = update nodes loc (record (nodes loc) { seqstart = none })

-- The neighbour `p` in front points to `i`, unless `i` is at the list's end there.
abbrev pub link_prior : (ℕ → Node) → Bool → Option ℕ → ℕ → Option (ℕ → Node)
link_prior nodes true p i = some nodes
link_prior nodes false none i = none
link_prior nodes false (some p) i = some (update nodes p (record (nodes p) { inext = some i }))

-- The same for the neighbour behind.
abbrev pub link_next : (ℕ → Node) → Bool → Option ℕ → ℕ → Option (ℕ → Node)
link_next nodes true n i = some nodes
link_next nodes false none i = none
link_next nodes false (some n) i = some (update nodes n (record (nodes n) { iprior = some i }))

module _ (size : ℕ) where
  -- The insertion into a list that is not empty.
  pub insert_next : RcvLossList → ℕ → ℕ → Option RcvLossList
  insert_next l seqno1 seqno2 = do
    h ← l.head
    start ← (l.nodes h).seqstart
    t ← l.tail
    let offset = seqoff start seqno1
    let loc = (h + pos_part offset) % size
    (if ltb_ℤ offset (pos 0)
        then some l
        else if holds (Option.map incseq (l.nodes t).seqend) seqno1
        then some (extend_node l t seqno1 seqno2)
        else some (append_node l t loc seqno1 seqno2))

  pub insert : RcvLossList → ℕ → ℕ → Option RcvLossList
  insert l seqno1 seqno2 = elim (adjust l.largest_seq seqno1 seqno2) [
    | none ↦ some l
    | some start ↦
        let l' = record l { largest_seq = some seqno2 } in
        if l.length == 0 then some (insert_first l' start seqno2) else insert_next l' start seqno2
  ]
