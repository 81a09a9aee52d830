-- ===== src/SndUList/Insert.antt =====
-- `insert_` and `insert_norealloc_` of a node that is not scheduled.
use srtplay.Base.{
  ℕ, ◌+◌, ◌*◌, ◌<◌, ◌≡◌, refl, ap, ap₂, ◌∙◌, arith, ◌==◌, if◌then◌else◌, true, false, none, some,
  update, update-at, Bool-cases, inl, inr,
}
use srtplay.SndUList.{
  SndUList, key, is_some, count_if, go_up, settle, insert_norealloc, insert, realloc,
}
use srtplay.SndUList.Order.{parent, UpInv}
use srtplay.SndUList.Linked.{LinkedBut-append, Linked-settle}
use srtplay.SndUList.Up.{Raised, go_up-Raised}
use srtplay.SndUList.Valid.{Valid, scheduled}

-- The node `u` is scheduled for `ts`, and the thread is woken if it is the first to send, or the only one.
pub record Inserted (u ts : ℕ) (s s' : SndUList) : Type 0 where
  pub valid : Valid s'
  pub stamps : s'.time_stamp ≡ update s.time_stamp u ts
  pub nodes : (n : ℕ) → scheduled s' n ≡ (if n == u then true else scheduled s n)
  pub wakes : s'.interrupts ≡ count_if (s'.heap 0 == u) s.interrupts
  pub notifies : s'.notified ≡ count_if (s.entries == 0) s.notified

module _ (s : SndUList) (u ts : ℕ) (v : Valid s) (room : s.entries < s.array_length)
    (off : s.heap_loc u ≡ none) where
  abbrev appended : SndUList
  appended = record s {
    entries = s.entries + 1;
    heap = update s.heap s.entries u;
    time_stamp = update s.time_stamp u ts;
  }

  key-appended : (c : ℕ) → c < s.entries → key appended c ≡ key s c
  key-appended c lt =
      let node : update s.heap s.entries u c ≡ s.heap c =
        ground (arith, update-at s.heap s.entries u c, lt) in
      ap (update s.time_stamp u ts) node
      ∙ ground (arith, update-at s.time_stamp u ts (s.heap c), v.linked.at c, off, lt)

  appended-UpInv : UpInv (s.entries + 1) (key appended) s.entries
  appended-UpInv = record {
    inside = omega arith;
    edges = λ c c_pos c_lt ne.
        let lt : c < s.entries = omega (arith, c_lt, ne) in
        let up : parent c < s.entries = omega (arith, lt) in
        let edge = v.ordered c c_pos lt in
        let a = key-appended c lt in
        let b = key-appended (parent c) up in omega (arith, edge, a, b);
    bridged = λ c c_pos c_lt e pos. absurd (omega (arith, c_pos, c_lt, e));
  }

  settled-Inserted :
      (q : ℕ) (s' : SndUList) → Raised u q appended s' → Inserted u ts s (settle u (q, s'))
  unfolding settle
  settled-Inserted q s' r =
      let entries_eq = ap (λ (x : SndUList). x.entries) r.moved.kept in
      let length_eq = ap (λ (x : SndUList). x.array_length) r.moved.kept in
      let at_root = r.linked.at 0 in
      record {
        valid = record {
          linked = Linked-settle s'.entries s'.heap s'.heap_loc u q r.linked;
          ordered = r.ordered;
          room = omega (arith, entries_eq, length_eq, room);
          not_empty = omega (arith, length_eq, room);
        };
        stamps = ap (λ (x : SndUList). x.time_stamp) r.moved.kept;
        nodes = λ n. ground (arith, update-at s'.heap_loc u (some q) n, r.moved.same n);
        wakes =
            (let same = ap (λ (x : SndUList). x.interrupts) r.moved.kept in
              let first : (q == 0) ≡ (s'.heap 0 == u) = ground (
                arith,
                at_root,
                r.linked.here,
                r.linked.off,
                r.linked.inside,
                ap s'.heap {x = q} {y = 0},
              ) in
              ap₂ (λ b n. count_if b n) first same);
        notifies =
            (let same = ap (λ (x : SndUList). x.notified) r.moved.kept in
              let only : (s'.entries == 1) ≡ (s.entries == 0) = ground (arith, entries_eq) in
              ap₂ (λ b n. count_if b n) only same);
      }

  insert_norealloc-settle :
      (q : ℕ) (s' : SndUList)
      → go_up (s.entries + 1) appended s.entries ≡ some (q, s')
      → insert_norealloc s ts u ≡ some (settle u (q, s'))
  unfolding insert_norealloc
  insert_norealloc-settle q s' run =
      let new : is_some (s.heap_loc u) ≡ false = rw off refl in rw (new, run, insert_norealloc) refl

  pub insert_norealloc-Inserted :
      (s' : SndUList) × (insert_norealloc s ts u ≡ some s') × Inserted u ts s s'
  insert_norealloc-Inserted =
      let (q, s', run, r) =
        go_up-Raised (s.entries + 1) u appended s.entries (omega arith)
          (LinkedBut-append s.entries s.heap s.heap_loc u v.linked off) appended-UpInv in
      (settle u (q, s'), insert_norealloc-settle q s' run, settled-Inserted q s' r)

grown-Valid : (s : SndUList) → Valid s → Valid (realloc s) × (s.entries < s.array_length * 2)
unfolding realloc
grown-Valid s v =
    let room = v.room in
    let some_length = v.not_empty in
    (
      record {
        linked = v.linked;
        ordered = v.ordered;
        room = omega (arith, room);
        not_empty = omega (arith, some_length);
      },
      omega (arith, room, some_length),
    )

-- `insert_` of a node that is not scheduled leads from a valid schedule to a valid one, where just that node is new,
-- for the given time. The timer is interrupted just where the node is the first to send, and the waiting thread is
-- notified just where it is the only one.
pub insert-Inserted :
    (s : SndUList) (u ts : ℕ)
    → Valid s
    → s.heap_loc u ≡ none
    → (s' : SndUList) × (insert s ts u ≡ some s') × Inserted u ts s s'
unfolding insert realloc
insert-Inserted s u ts v off = elim (Bool-cases (s.entries == s.array_length)) [
  | inl e ↦
      let (grown, room) = grown-Valid s v in
      let (s', run, r) = insert_norealloc-Inserted (realloc s) u ts grown room off in
      (
        s',
        rw e run,
        record {
          valid = r.valid;
          stamps = r.stamps;
          nodes = r.nodes;
          wakes = r.wakes;
          notifies = r.notifies;
        },
      )
  | inr e ↦
      let room = v.room in
      let left : s.entries < s.array_length = ground (arith, e, room) in
      let (s', run, r) = insert_norealloc-Inserted s u ts v left off in (s', rw e run, r)
]
