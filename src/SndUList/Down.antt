-- ===== src/SndUList/Down.antt =====
-- The way down of the node that fills the place of a removed one.
use srtplay.Base.{
  ℕ, zero, suc, ◌+◌, ◌*◌, ◌<◌, ◌≤◌, ◌≡◌, ◌⊎◌, refl, ap, ap₂, ◌∙◌, arith, ◌==◌, ltb, if◌then◌else◌,
  some, update, update-at, Bool-cases, inl, inr,
}
use srtplay.SndUList.{SndUList, key, swapped, swap_down, smaller_child, go_down}
use srtplay.SndUList.Order.{
  IsHeap, DownInv, IsFirstChild, DownInv-Exchanged, DownInv-IsHeap, Exchanged, swapped-at,
}
use srtplay.SndUList.Linked.{LinkedOff, LinkedOff-down}
use srtplay.SndUList.Up.{Moved, Moved-trans}

-- The node at `q` is as far down as it goes, and in order if only the edges below it were not.
pub record Sunk (u q : ℕ) (s s' : SndUList) : Type 0 where
  pub moved : Moved s s'
  pub linked : LinkedOff u s'.entries s'.heap s'.heap_loc
  pub above : (c : ℕ) → c < q → s'.heap c ≡ s.heap c
  pub sinks : key s' q ≤ key s q
  pub ordered : DownInv s.entries (key s) q → IsHeap s'.entries (key s')

smaller_child-IsFirstChild :
    (s : SndUList) (q : ℕ)
    → q * 2 + 1 < s.entries
    → IsFirstChild s.entries (key s) q (smaller_child s (q * 2 + 1))
smaller_child-IsFirstChild s q lt = record {
  inside = ground (arith, lt);
  child = ground (arith, lt);
  least = λ c c_pos c_lt e.
      let side : (c ≡ q * 2 + 1) ⊎ (c ≡ q * 2 + 1 + 1) = ground (arith, e, c_pos) in
      ground (arith, lt, c_lt, side, ap (key s) {x = c} {y = q * 2 + 1});
}

module _ (u : ℕ) (s : SndUList) (q : ℕ) (l : LinkedOff u s.entries s.heap s.heap_loc) where
  Sunk-here :
      (s.entries ≤ q * 2 + 1) ⊎ (key s q ≤ key s (smaller_child s (q * 2 + 1))) → Sunk u q s s
  Sunk-here bottom = record {
    moved = record { kept = refl; same = λ n. refl };
    linked = l;
    above = λ c lt. refl;
    sinks = omega arith;
    ordered = λ v. DownInv-IsHeap s.entries (key s) q v (λ c c_pos c_lt e.
        let more : q * 2 + 1 < s.entries = omega (arith, c_pos, c_lt, e) in
        let first = (smaller_child-IsFirstChild s q more).least c c_pos c_lt e in
        omega (arith, bottom, more, first));
  }

  module _ (p : ℕ) (first : IsFirstChild s.entries (key s) q p) (below : key s p < key s q) where
    below-lt : (q < p) × (p < s.entries)
    below-lt = let c = first.child in let i = first.inside in (omega (arith, c), i)

    heap-swap_down : Exchanged (swap_down s p q).heap s.heap p q
    unfolding swap_down
    heap-swap_down c = swapped-at s.heap p q c

    loc-swap_down :
        (n : ℕ)
        → (swap_down s p q).heap_loc n
          ≡ (if n == s.heap p then some q else if n == s.heap q then some p else s.heap_loc n)
    unfolding swap_down
    loc-swap_down n =
        let up : swapped s.heap p q q ≡ s.heap p = ground (arith, swapped-at s.heap p q q) in
        let down : swapped s.heap p q p ≡ s.heap q =
          ground (arith, swapped-at s.heap p q p, below-lt) in
        ap₂ (λ x y. update (update s.heap_loc x (some p)) y (some q) n) down up
        ∙ update-at (update s.heap_loc (s.heap q) (some p)) (s.heap p) (some q) n
        ∙ ap (λ z. if n == s.heap p then some q else z) (update-at s.heap_loc (s.heap q) (some p) n)

    swap_down-Moved : Moved s (swap_down s p q)
    swap_down-Moved = record {
      kept = unfold swap_down in refl;
      same = λ n. ground (arith, loc-swap_down n, l.at p, l.at q, below-lt);
    }

    swap_down-LinkedOff : LinkedOff u s.entries (swap_down s p q).heap (swap_down s p q).heap_loc
    swap_down-LinkedOff =
        LinkedOff-down s.entries s.heap (swap_down s p q).heap s.heap_loc (swap_down s p q).heap_loc
          p q heap-swap_down u l below-lt.1 (omega (arith, below-lt)) (omega (arith, below-lt))
          loc-swap_down

    Sunk-below : (s' : SndUList) → Sunk u p (swap_down s p q) s' → Sunk u q s s'
    unfolding swap_down
    Sunk-below s' r = record {
      moved = Moved-trans swap_down-Moved r.moved;
      linked = r.linked;
      above = λ c lt. ground (arith, r.above c, heap-swap_down c, below-lt, lt);
      sinks =
          (let stamp = ap (λ (x : SndUList). x.time_stamp (s'.heap q)) r.moved.kept in
            let node : s'.heap q ≡ s.heap p =
              r.above q below-lt.0 ∙ ground (arith, heap-swap_down q) in
            let earlier = ap s.time_stamp node in omega (arith, stamp, earlier, below));
      ordered = λ v. r.ordered (
          DownInv-Exchanged s.entries (key s) (λ c. s.time_stamp ((swap_down s p q).heap c)) q p v
            first below (λ c. ground (arith, heap-swap_down c)));
    }

-- The way down ends.
pub go_down-Sunk :
    (rounds u : ℕ) (s : SndUList) (q : ℕ)
    → q ≤ s.entries
    → s.entries < q + rounds
    → LinkedOff u s.entries s.heap s.heap_loc
    → (s' : SndUList) × (go_down rounds s q ≡ some s') × Sunk u q s s'
unfolding go_down swap_down
go_down-Sunk zero u s q le lt l = absurd (omega (arith, le, lt))
go_down-Sunk (suc rounds) u s q le lt l =
    let p = smaller_child s (q * 2 + 1) in
    elim (Bool-cases (ltb (q * 2 + 1) s.entries)) [
      | inl e ↦
          let more : q * 2 + 1 < s.entries = ground (arith, e) in
          let first = smaller_child-IsFirstChild s q more in
          elim (Bool-cases (ltb (key s p) (key s q))) [
            | inl f ↦
                let below : key s p < key s q = ground (arith, f) in
                let lower = below-lt u s q l p first below in
                let (s', run, r) =
                  go_down-Sunk rounds u (swap_down s p q) p (omega (arith, lower))
                    (omega (arith, lower, lt)) (swap_down-LinkedOff u s q l p first below) in
                (s', rw (e, f, go_down) run, Sunk-below u s q l p first below s' r)
            | inr f ↦
                let settled : key s q ≤ key s p = ground (arith, f) in
                (s, rw (e, f, go_down) refl, Sunk-here u s q l (inr settled))
          ]
      | inr e ↦
          let bottom : s.entries ≤ q * 2 + 1 = ground (arith, e) in
          (s, rw (e, go_down) refl, Sunk-here u s q l (inl bottom))
    ]
