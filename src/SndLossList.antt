-- ===== src/SndLossList.antt =====
-- `CSndLossList` (srt/srtcore/list.h and list.cpp): the sender's list of lost packets, an array whose used
-- nodes form a singly linked list of ranges of sequence numbers, earliest first.
-- As in the receiver's list, an index or a sequence number of -1 is `none`, an operation that would use one
-- as an index or in the circular arithmetic results in `none`, and so does a walk that has no end. The numbers
-- that are given are not negative.
pub mod Insertion
pub mod Removal
pub mod Pop
pub mod First
mod Tests
use srtplay.Base.{
  ℕ, zero, suc, ◌+◌, ◌-◌, ◌%◌, ltb, leb, ◌==◌, ◌&&◌, ◌||◌, not, if◌then◌else◌, Bool, true, false,
  Option, none, some, update, ◌>>=◌,
}
use srtplay.Base.Int.{ℤ, pos, negsuc, neg, ◌+ℤ◌, ◌-ℤ◌, ltb_ℤ, leb_ℤ, eqb_ℤ, pos_part}
use srtplay.SeqNo.{seqcmp, seqlen, seqoff, incseq}

pub record Seq : Type 0 where
  pub seqstart : Option ℕ
  pub seqend : Option ℕ
  pub inext : Option ℕ

pub record SndLossList : Type 0 where
  pub nodes : ℕ → Seq
  pub head : Option ℕ
  pub length : ℤ
  pub last_insert_pos : Option ℕ

-- `inext` is not read before it is written.
abbrev pub no_seq : Seq
no_seq = record { seqstart = none; seqend = none; inext = none }

pub init : SndLossList
init = record { nodes = λ i. no_seq; head = none; length = pos 0; last_insert_pos = none }

-- `a == b`, where `a` may be -1.
abbrev pub holds : Option ℕ → ℕ → Bool
holds none b = false
holds (some a) b = a == b

abbrev pub is_none : Option ℕ → Bool
is_none none = true
is_none (some a) = false

-- `m_caSeq[i] = n`
abbrev pub put : SndLossList → ℕ → Seq → SndLossList
put l i n = record l { nodes = update l.nodes i n }

-- `seqend` of a node that gets a range.
abbrev pub end_or : ℕ → ℕ → Option ℕ → Option ℕ
end_or seqno1 seqno2 old = if seqno2 == seqno1 then old else some seqno2

-- `%` of an `int`, whose sign is that of the first number.
unfoldable pub remainder : ℤ → ℕ → ℤ
remainder (pos a) n = pos (a % n)
remainder (negsuc a) n = neg (pos ((a + 1) % n))

unfoldable pub insert_head : SndLossList → ℕ → ℕ → ℕ → SndLossList
insert_head l i seqno1 seqno2 = record l {
  nodes = update l.nodes i (record {
    seqstart = some seqno1;
    seqend = end_or seqno1 seqno2 (l.nodes i).seqend;
    inext = l.head;
  });
  head = some i;
  last_insert_pos = some i;
  length = l.length +ℤ pos (seqlen seqno1 seqno2);
}

unfoldable pub insert_after : SndLossList → ℕ → ℕ → ℕ → ℕ → SndLossList
insert_after l i after seqno1 seqno2 =
    let l1 = put l i (record {
      seqstart = some seqno1;
      seqend = end_or seqno1 seqno2 (l.nodes i).seqend;
      inext = (l.nodes after).inext;
    }) in
    record (put l1 after (record (l1.nodes after) { inext = some i })) {
      last_insert_pos = some i;
      length = l.length +ℤ pos (seqlen seqno1 seqno2);
    }

unfoldable pub update_element : SndLossList → ℕ → ℕ → ℕ → Bool × SndLossList
update_element l i seqno1 seqno2 =
    let l1 = record l { last_insert_pos = some i } in
    let grown = λ (more : ℤ). record (put l1 i (record (l.nodes i) { seqend = some seqno2 })) {
      length = l.length +ℤ more;
    } in
    if seqno2 == seqno1 then (false, l1) else elim (l.nodes i).seqend [
      | none ↦ (true, grown (pos (seqlen seqno1 seqno2) -ℤ pos 1))
      | some e ↦
          if leb_ℤ (seqcmp seqno2 e) (pos 0)
          then (false, l1)
          else (true, grown (pos (seqlen e seqno2) -ℤ pos 1))
    ]

-- What the node at `loc`, whose range ends at `e`, takes over of the next node, at `i`: its end and the change
-- of the length.
unfoldable pub merged : ℕ → ℕ → Option ℕ → ℕ × ℤ
merged e start none = if start == incseq e then (start, pos 0) else (e, negsuc 0)
merged e start (some e') =
    if ltb_ℤ (pos 0) (seqcmp e' e)
    then (e', if leb_ℤ (pos 0) (seqcmp e start) then neg (pos (seqlen start e)) else pos 0)
    else (e, neg (pos (seqlen start e')))

-- The node at `i` goes into the one at `loc`.
unfoldable pub merge : SndLossList → ℕ → ℕ → ℕ → ℕ → SndLossList
merge l loc e i start =
    let (e2, change) = merged e start (l.nodes i).seqend in
    let l1 = put l loc (record (l.nodes loc) { seqend = some e2 }) in
    let l2 = put l1 i (record (l1.nodes i) { seqstart = none; seqend = none }) in
    record (put l2 loc (record (l2.nodes loc) { inext = (l2.nodes i).inext })) {
      length = l.length +ℤ change;
    }

unfoldable pub coalesce : ℕ → SndLossList → ℕ → Option SndLossList
coalesce zero l loc = none
coalesce (suc rounds) l loc = elim (l.nodes loc).inext [
  | none ↦ some l
  | some i ↦ elim (l.nodes loc).seqend [
    | none ↦ some l
    | some e ↦ elim (l.nodes i).seqstart [
      | none ↦ none
      | some start ↦ elim (ltb_ℤ (pos 0) (seqcmp start (incseq e))) [
        | true ↦ some l
        | false ↦ coalesce rounds (merge l loc e i start) loc
      ]
    ]
  ]
]

-- The last node from `i` on that starts before `seqno`, or `i`.
unfoldable pub search_prior : ℕ → SndLossList → ℕ → ℕ → Option ℕ
search_prior zero l seqno i = none
search_prior (suc rounds) l seqno i = elim (l.nodes i).inext [
  | none ↦ some i
  | some k ↦ elim (l.nodes k).seqstart [
    | none ↦ none
    | some start ↦ elim (ltb_ℤ (seqcmp start seqno) (pos 0)) [
      | true ↦ search_prior rounds l seqno k
      | false ↦ some i
    ]
  ]
]
