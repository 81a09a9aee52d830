-- ===== src/SndUList/Remove.antt =====
-- `remove_` of a node that is scheduled.
use srtplay.Base.{
  ℕ, suc, ◌+◌, ◌-◌, ◌<◌, ◌≤◌, ◌≡◌, refl, ap, subst, ◌∙◌, arith, ◌==◌, if◌then◌else◌, false, none,
  some, update, update-at, bind_some,
}
use srtplay.SndUList.{
  SndUList, key, is_some, count_if, go_down, fill_hole, leave, remove_at, remove_node,
}
use srtplay.SndUList.Order.{parent, IsHeap, DownInv}
use srtplay.SndUList.Linked.{Linked, LinkedOff, LinkedOff-fill, Linked-leave}
use srtplay.SndUList.Down.{Sunk, go_down-Sunk}
use srtplay.SndUList.Valid.{Valid, scheduled}

-- The last node fits in below the parent of the place `loc`, where there is one.
abbrev pub Fits : SndUList → ℕ → Type 0
Fits s loc = 0 < loc → loc + 1 < s.entries → key s (parent loc) ≤ key s (s.entries - 1)

-- The node `u`, which was at `loc`, is not scheduled any more.
pub record Removed (u loc : ℕ) (s s' : SndUList) : Type 0 where
  pub linked : Linked s'.entries s'.heap s'.heap_loc
  pub fewer : s'.entries + 1 ≡ s.entries
  pub length_eq : s'.array_length ≡ s.array_length
  pub stamps : s'.time_stamp ≡ s.time_stamp
  pub nodes : (n : ℕ) → scheduled s' n ≡ (if n == u then false else scheduled s n)
  pub wakes : s'.interrupts ≡ count_if (s'.entries == 1) s.interrupts
  pub in_order : Fits s loc → IsHeap s'.entries (key s')
  pub fits : IsHeap s'.entries (key s') → Fits s loc

module _ (s : SndUList) (u loc rest : ℕ) (v : Valid s) (e : s.entries ≡ rest + 1)
    (at : s.heap_loc u ≡ some loc) where
  abbrev filled : SndUList
  filled = fill_hole s loc rest

  place : (loc < s.entries) × (s.heap loc ≡ u)
  place = v.linked.back u loc at

  filled-LinkedOff : LinkedOff u rest filled.heap filled.heap_loc
  unfolding fill_hole
  filled-LinkedOff =
      LinkedOff-fill s.heap s.heap_loc u loc rest
        (subst (λ n. Linked n s.heap s.heap_loc) e v.linked) at

  key-filled : (c : ℕ) → key filled c ≡ (if c == loc then key s rest else key s c)
  unfolding fill_hole
  key-filled c = ground (arith, ap s.time_stamp (update-at s.heap loc (s.heap rest) c))

  -- The last node is at the place `rest`.
  last_eq : key s (s.entries - 1) ≡ key s rest
  last_eq = let last : s.entries - 1 ≡ rest = omega (arith, e) in ap (key s) last

  Fits-rest : Fits s loc → 0 < loc → loc < rest → key s (parent loc) ≤ key s rest
  Fits-rest fit pos lt = let f = fit pos (omega (arith, lt, e)) in omega (arith, f, last_eq)

  filled-DownInv : Fits s loc → DownInv rest (key filled) loc
  filled-DownInv fit = record {
    edges = λ c c_pos c_lt ne.
        let edge = v.ordered c c_pos (omega (arith, c_lt, e)) in
        ground (
          arith,
          key-filled c,
          key-filled (parent c),
          edge,
          Fits-rest fit,
          ap (key s) {x = parent c} {y = parent loc},
          c_pos,
          c_lt,
          ne,
        );
    bridged = λ c c_pos c_lt p pos.
        let edge = v.ordered c c_pos (omega (arith, c_lt, e)) in
        let up = v.ordered loc pos place.0 in
        ground (arith, key-filled c, key-filled (parent loc), edge, up, c_pos, c_lt, p, pos);
  }

  abbrev left_out : SndUList → SndUList
  left_out s1 = record (leave u s1) { interrupts = count_if (s1.entries == 1) s1.interrupts }

  remove_node-left_out :
      (s1 : SndUList)
      → go_down (suc rest) filled loc ≡ some s1
      → remove_node s u ≡ some (left_out s1)
  unfolding remove_node remove_at
  remove_node-left_out s1 run =
      let count : s.entries ≡ suc rest = omega (arith, e) in
      let taken : remove_at s u loc s.entries ≡ some (leave u s1) =
        ap (remove_at s u loc) count
        ∙ bind_some (go_down (suc rest) filled loc) s1 (λ t. some (leave u t)) run in
      rw (at, taken, remove_node) refl

  module _ (s1 : SndUList) (r : Sunk u loc filled s1) where
    stamps_eq : s1.time_stamp ≡ s.time_stamp
    stamps_eq = ap (λ (x : SndUList). x.time_stamp) r.moved.kept ∙ unfold fill_hole in refl

    entries_eq : s1.entries ≡ rest
    entries_eq = ap (λ (x : SndUList). x.entries) r.moved.kept ∙ unfold fill_hole in refl

    -- The place took the last node, which only sank, below a node that did not move.
    Fits-IsHeap : IsHeap s1.entries (key s1) → Fits s loc
    unfolding fill_hole
    Fits-IsHeap h pos lt =
        let edge = h loc pos (omega (arith, entries_eq, lt, e)) in
        let up_lt : parent loc < loc = omega (arith, pos) in
        let up : key s1 (parent loc) ≡ key s (parent loc) =
          ap (λ f. f (s1.heap (parent loc))) stamps_eq
          ∙ ap s.time_stamp (r.above (parent loc) up_lt)
          ∙ ground (arith, key-filled (parent loc), up_lt) in
        let sinks = r.sinks in
        let hole : key filled loc ≡ key s rest = ground (arith, key-filled loc) in
        omega (arith, edge, up, sinks, hole, last_eq)

    nodes_eq :
        (n : ℕ) → is_some (update s1.heap_loc u none n) ≡ (if n == u then false else scheduled s n)
    unfolding fill_hole
    nodes_eq n =
        let off = v.linked.at rest (omega (arith, e)) in
        ground (
          arith,
          update-at s1.heap_loc u none n,
          r.moved.same n,
          update-at s.heap_loc (s.heap rest) (some loc) n,
          off,
        )

    left_out-Removed : Removed u loc s (left_out s1)
    left_out-Removed = record {
      linked = Linked-leave s1.entries s1.heap s1.heap_loc u r.linked;
      fewer = omega (arith, entries_eq, e);
      length_eq = ap (λ (x : SndUList). x.array_length) r.moved.kept ∙ unfold fill_hole in refl;
      stamps = stamps_eq;
      nodes = nodes_eq;
      wakes =
          ap (count_if (s1.entries == 1))
            (ap (λ (x : SndUList). x.interrupts) r.moved.kept ∙ unfold fill_hole in refl);
      in_order = λ fit. r.ordered (unfold fill_hole in filled-DownInv fit);
      fits = Fits-IsHeap;
    }

-- `remove_` of a scheduled node ends, and takes just that node out of a valid schedule: all other nodes keep a place,
-- which they know, and no time changes. The timer is interrupted just where one node is left. The heap stays in
-- order exactly if the last node, which takes the place, is not earlier than the parent of the place.
pub remove_node-Removed :
    (s : SndUList) (u loc : ℕ)
    → Valid s
    → s.heap_loc u ≡ some loc
    → (s' : SndUList) × (remove_node s u ≡ some s') × Removed u loc s s'
remove_node-Removed s u loc v at =
    let place = v.linked.back u loc at in
    let rest = s.entries - 1 in
    let e : s.entries ≡ rest + 1 = omega (arith, place) in
    let (s1, run, r) =
      go_down-Sunk (suc rest) u (filled s u loc rest v e at) loc
        (unfold fill_hole in omega (arith, place)) (unfold fill_hole in omega arith)
        (unfold fill_hole in filled-LinkedOff s u loc rest v e at) in
    (
      left_out s u loc rest v e at s1,
      remove_node-left_out s u loc rest v e at s1 run,
      left_out-Removed s u loc rest v e at s1 r,
    )
