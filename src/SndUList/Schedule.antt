-- ===== src/SndUList/Schedule.antt =====
-- `update` and `pop`.
use srtplay.Base.{
  ℕ, ◌+◌, ◌<◌, ◌≤◌, ◌≡◌, ◌≢◌, refl, sym, ap, ◌∙◌, arith, ◌==◌, ltb, leb, ◌&&◌, not, if◌then◌else◌,
  Bool, true, false, Option, none, some, update, update-at, Bool-cases, Option-cases, ℕ_discrete,
  inl, inr, bind_some, ◌>>=◌,
}
use srtplay.SndUList.{
  SndUList, key, is_some, remove_node, insert_norealloc, reschedule_at, reschedule, pop,
}
use srtplay.SndUList.Order.{parent, root_least}
use srtplay.SndUList.Valid.{Valid, scheduled}
use srtplay.SndUList.Insert.{Inserted, insert_norealloc-Inserted, insert-Inserted}
use srtplay.SndUList.Remove.{Fits, Removed, remove_node-Removed}

Removed-Valid : (u loc : ℕ) (s s' : SndUList) → Valid s → Fits s loc → Removed u loc s s' → Valid s'
Removed-Valid u loc s s' v fit r =
    let room = v.room in
    let not_empty = v.not_empty in
    let fewer = r.fewer in
    let len = r.length_eq in
    record {
      linked = r.linked;
      ordered = r.in_order fit;
      room = omega (arith, room, fewer, len);
      not_empty = omega (arith, not_empty, len);
    }

-- What `pop` results in: nothing, if no node is due at the time `now`, or the node that is due first.
pub data Popped (now : ℕ) (s : SndUList) : Option ℕ → SndUList → Type 0 where
  not_due : ((n : ℕ) → scheduled s n ≡ true → now < s.time_stamp n) → Popped now s none s
  due :
      (u : ℕ) (s' : SndUList)
      → scheduled s u ≡ true
      → s.time_stamp u ≤ now
      → ((n : ℕ) → scheduled s n ≡ true → s.time_stamp u ≤ s.time_stamp n)
      → s'.time_stamp ≡ s.time_stamp
      → ((n : ℕ) → scheduled s' n ≡ (if n == u then false else scheduled s n))
      → Popped now s (some u) s'

module _ (s : SndUList) (v : Valid s) where
  -- No node is earlier than the root.
  root-first : (n : ℕ) → scheduled s n ≡ true → (0 < s.entries) × (key s 0 ≤ s.time_stamp n)
  root-first n on = elim (Option-cases (s.heap_loc n)) [
    | inl off ↦ absurd (ground (arith, on, off))
    | inr (i, at) ↦
        let place = v.linked.back n i at in
        let least = root_least s.entries (key s) i v.ordered place.0 in
        let node = ap s.time_stamp place.1 in (omega (arith, place), omega (arith, least, node))
  ]

  root-scheduled : 0 < s.entries → s.heap_loc (s.heap 0) ≡ some 0
  root-scheduled lt = v.linked.at 0 lt

  -- From a valid schedule `pop` leads to a valid one. It gives nothing, and changes nothing, if every scheduled node
  -- is for a later time than now; otherwise it takes out a node that is due and that no other is earlier than.
  pub pop-Popped :
      (now : ℕ)
      → (first : Option ℕ) × (s' : SndUList) × (pop s now ≡ some (first, s'))
        × Valid s'
        × Popped now s first s'
  unfolding pop
  pop-Popped now = elim (Bool-cases (s.entries == 0)) [
    | inl e ↦ (
      none,
      s,
      rw e refl,
      v,
      not_due (λ n on. let r = root-first n on in absurd (ground (arith, e, r))),
    )
    | inr e ↦
        let pos : 0 < s.entries = ground (arith, e) in
        elim (Bool-cases (ltb now (key s 0))) [
          | inl f ↦
              let late : now < key s 0 = ground (arith, f) in
              (
                none,
                s,
                rw (e, f) refl,
                v,
                not_due (λ n on. let r = root-first n on in omega (arith, r, late)),
              )
          | inr f ↦
              let at = root-scheduled pos in
              let (s', run, r) = remove_node-Removed s (s.heap 0) 0 v at in
              let taken : (remove_node s (s.heap 0) >>= λ t. some (some (s.heap 0), t))
                  ≡ some (some (s.heap 0), s') =
                bind_some (remove_node s (s.heap 0)) s' (λ t. some (some (s.heap 0), t)) run in
              (
                some (s.heap 0),
                s',
                rw (e, f) taken,
                Removed-Valid (s.heap 0) 0 s s' v (λ p. absurd (omega (arith, p))) r,
                due (s.heap 0) s' (ap is_some at) (ground (arith, f)) (λ n on. (root-first n on).1)
                    r.stamps r.nodes,
              )
        ]
  ]

-- The time stamp of `u` after `update`: a scheduled node only gets an earlier one.
abbrev pub new_stamp : SndUList → ℕ → Bool → ℕ → ℕ
new_stamp s u again ts =
    if scheduled s u && not (again && ltb ts (s.time_stamp u)) then s.time_stamp u else ts

-- The node `u` is scheduled for `ts`, and nothing else is different.
pub record Updated (u ts : ℕ) (s s' : SndUList) : Type 0 where
  pub valid : Valid s'
  pub stamps : (n : ℕ) → s'.time_stamp n ≡ (if n == u then ts else s.time_stamp n)
  pub nodes : (n : ℕ) → scheduled s' n ≡ (if n == u then true else scheduled s n)

Inserted-Updated : (u ts : ℕ) (s s' : SndUList) → Inserted u ts s s' → Updated u ts s s'
Inserted-Updated u ts s s' r = record {
  valid = r.valid;
  stamps = λ n. ap (λ f. f n) r.stamps ∙ update-at s.time_stamp u ts n;
  nodes = r.nodes;
}

module _ (s : SndUList) (u loc ts : ℕ) (v : Valid s) (at : s.heap_loc u ≡ some loc) where
  same-Updated : Updated u (s.time_stamp u) s s
  same-Updated = record {
    valid = v;
    stamps = λ n. ground (arith, ap s.time_stamp {x = n} {y = u});
    nodes = λ n. ground (arith, at, ap s.heap_loc {x = n} {y = u});
  }

  abbrev earlier_root : SndUList
  earlier_root = record s { time_stamp = update s.time_stamp u ts; interrupts = s.interrupts + 1 }

  -- The root gets an earlier time.
  root-Updated : loc ≡ 0 → ts < s.time_stamp u → Updated u ts s earlier_root
  root-Updated e lt =
      let place = v.linked.back u loc at in
      let stamp = λ (n : ℕ). update-at s.time_stamp u ts n in
      let root_eq : s.heap 0 ≡ u = ap s.heap (sym e) ∙ place.1 in
      let lower : key earlier_root 0 ≤ key s 0 =
        ground (arith, stamp (s.heap 0), root_eq, lt, ap s.time_stamp root_eq) in
      let same = λ (c : ℕ) (pos : 0 < c) (c_lt : c < s.entries).
        let other : s.heap c ≢ u = ground (arith, v.linked.at c, at, e, pos, c_lt) in
        let kept : key earlier_root c ≡ key s c = ground (arith, stamp (s.heap c), other) in kept in
      record {
        valid = record {
          linked = v.linked;
          ordered = λ c pos c_lt.
              let edge = v.ordered c pos c_lt in
              let here = same c pos c_lt in
              elim (ℕ_discrete (parent c) 0) [
                | yes p ↦
                    let a = ap (key s) p in
                    let b = ap (key earlier_root) p in omega (arith, edge, here, lower, a, b)
                | no p ↦
                    let up = same (parent c) (omega (arith, p)) (omega (arith, c_lt)) in
                    omega (arith, edge, here, up)
              ];
          room = v.room;
          not_empty = v.not_empty;
        };
        stamps = stamp;
        nodes = (same-Updated).nodes;
      }

  -- Any other node is removed, and inserted again.
  again-Updated :
      Fits s loc
      → (s' : SndUList) × ((remove_node s u >>= λ s1. insert_norealloc s1 ts u) ≡ some s')
        × Updated u ts s s'
  again-Updated fit =
      let (s1, run, r) = remove_node-Removed s u loc v at in
      let v1 = Removed-Valid u loc s s1 v fit r in
      let room = v1.room in
      let room0 = v.room in
      let fewer = r.fewer in
      let len = r.length_eq in
      let off : s1.heap_loc u ≡ none = ground (arith, r.nodes u, Option-cases (s1.heap_loc u)) in
      let (s', run', i) =
        insert_norealloc-Inserted s1 u ts v1 (omega (arith, room0, fewer, len)) off in
      (
        s',
        bind_some (remove_node s u) s1 (λ t. insert_norealloc t ts u) run ∙ run',
        record {
          valid = i.valid;
          stamps = λ n.
              ap (λ f. f n) i.stamps
              ∙ update-at s1.time_stamp u ts n
              ∙ ap (λ f. if n == u then ts else f n) r.stamps;
          nodes = λ n. ground (arith, i.nodes n, r.nodes n);
        },
      )

module _ (s : SndUList) (u : ℕ) (again : Bool) (ts : ℕ) (v : Valid s) where
  reschedule-at :
      (loc : ℕ)
      → s.heap_loc u ≡ some loc
      → reschedule s u again ts ≡ (if again then reschedule_at s loc ts u else some s)
  unfolding reschedule
  reschedule-at loc at = rw (at, reschedule) refl

  -- `update` of a node that is scheduled.
  scheduled-Updated :
      (loc : ℕ)
      → s.heap_loc u ≡ some loc
      → (again ≡ true → ts < s.time_stamp u → Fits s loc)
      → (s' : SndUList) × (reschedule s u again ts ≡ some s')
        × Updated u (new_stamp s u again ts) s s'
  unfolding reschedule_at
  scheduled-Updated loc at fit =
      let on : scheduled s u ≡ true = ap is_some at in
      elim (Bool-cases again) [
        | inr e ↦
            let stays : new_stamp s u again ts ≡ s.time_stamp u = ground (arith, on, e) in
            (s, reschedule-at loc at ∙ rw e refl, rw stays (same-Updated s u loc ts v at))
        | inl e ↦ elim (Bool-cases (leb (s.time_stamp u) ts)) [
          | inl f ↦
              let stays : new_stamp s u again ts ≡ s.time_stamp u = ground (arith, on, e, f) in
              (s, reschedule-at loc at ∙ rw (e, f) refl, rw stays (same-Updated s u loc ts v at))
          | inr f ↦
              let lt : ts < s.time_stamp u = ground (arith, f) in
              let moves : new_stamp s u again ts ≡ ts = ground (arith, on, e, lt) in
              elim (Bool-cases (loc == 0)) [
                | inl root ↦
                    let first : loc ≡ 0 = ground (arith, root) in
                    (
                      earlier_root s u loc ts v at,
                      reschedule-at loc at ∙ rw (e, f, root) refl,
                      rw moves (root-Updated s u loc ts v at first lt),
                    )
                | inr inner ↦
                    let (s', run, r) = again-Updated s u loc ts v at (fit e lt) in
                    (s', reschedule-at loc at ∙ rw (e, f, inner) run, rw moves r)
              ]
        ]
      ]

  -- `update` of a node never fails, and leads from a valid schedule to a valid one, where the node is scheduled
  -- for the given time if it was not before or, if it is to be rescheduled, was scheduled for a later time, and
  -- otherwise for the time before; all other nodes and times stay. The condition is that a node that
  -- is rescheduled from a place other than the root leaves a place the last node fits in.
  pub reschedule-Updated :
      ((loc : ℕ) → s.heap_loc u ≡ some loc → again ≡ true → ts < s.time_stamp u → Fits s loc)
      → (s' : SndUList) × (reschedule s u again ts ≡ some s')
        × Updated u (new_stamp s u again ts) s s'
  unfolding reschedule
  reschedule-Updated fit = elim (Option-cases (s.heap_loc u)) [
    | inr (loc, at) ↦ scheduled-Updated loc at (fit loc at)
    | inl off ↦
        let (s', run, r) = insert-Inserted s u ts v off in
        let no : scheduled s u ≡ false = ap is_some off in
        (s', rw (off, reschedule) run, rw no (Inserted-Updated u ts s s' r))
  ]
