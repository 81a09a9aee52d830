-- ===== src/SndUList/Up.antt =====
-- The way up of a new node.
use srtplay.Base.{
  ℕ, zero, suc, ◌<◌, ◌≤◌, ◌≡◌, ◌≢◌, refl, ap, ◌∙◌, arith, ◌==◌, leb, if◌then◌else◌, some, update,
  update-at, Bool-cases, inl, inr, ◌⊎◌,
}
use srtplay.SndUList.{SndUList, key, is_some, swapped, swap_up, go_up}
use srtplay.SndUList.Order.{
  parent, IsHeap, UpInv, UpInv-Exchanged, UpInv-IsHeap, Exchanged, swapped-at,
}
use srtplay.SndUList.Linked.{LinkedBut, LinkedBut-up}

-- Only the places of the nodes differ, and the same nodes have one.
pub record Moved (s s' : SndUList) : Type 0 where
  pub kept : s' ≡ record s { heap = s'.heap; heap_loc = s'.heap_loc }
  pub same : (n : ℕ) → is_some (s'.heap_loc n) ≡ is_some (s.heap_loc n)

pub Moved-trans : {s t r : SndUList} → Moved s t → Moved t r → Moved s r
Moved-trans {s} {t} {r} a b = record {
  kept = b.kept ∙ ap (λ (x : SndUList). record x { heap = r.heap; heap_loc = r.heap_loc }) a.kept;
  same = λ n. b.same n ∙ a.same n;
}

-- The new node `u` is at `q`, in order.
pub record Raised (u q : ℕ) (s s' : SndUList) : Type 0 where
  pub moved : Moved s s'
  pub linked : LinkedBut u q s'.entries s'.heap s'.heap_loc
  pub ordered : IsHeap s'.entries (key s')

module _ (u : ℕ) (s : SndUList) (q : ℕ) (l : LinkedBut u q s.entries s.heap s.heap_loc)
    (v : UpInv s.entries (key s) q) where
  Raised-here : (q ≡ 0) ⊎ (key s (parent q) ≤ key s q) → Raised u q s s
  Raised-here top = record {
    moved = record { kept = refl; same = λ n. refl };
    linked = l;
    ordered = UpInv-IsHeap s.entries (key s) q v top;
  }

  module _ (pos : 0 < q) (below : key s q < key s (parent q)) where
    parent-lt : parent q < s.entries
    parent-lt = let i = v.inside in omega (arith, i)

    parent-ne : parent q ≢ q
    parent-ne = omega (arith, pos)

    heap-swap_up : Exchanged (swap_up s (parent q) q).heap s.heap (parent q) q
    unfolding swap_up
    heap-swap_up c = swapped-at s.heap (parent q) q c

    loc-swap_up :
        (n : ℕ)
        → (swap_up s (parent q) q).heap_loc n
          ≡ (if n == s.heap (parent q) then some q else s.heap_loc n)
    unfolding swap_up
    loc-swap_up n =
        let up : swapped s.heap (parent q) q q ≡ s.heap (parent q) =
          ground (arith, swapped-at s.heap (parent q) q q) in
        ap (λ x. update s.heap_loc x (some q) n) up
        ∙ update-at s.heap_loc (s.heap (parent q)) (some q) n

    swap_up-Moved : Moved s (swap_up s (parent q) q)
    swap_up-Moved = record {
      kept = unfold swap_up in refl;
      same = λ n. ground (arith, loc-swap_up n, l.at (parent q), parent-lt, parent-ne);
    }

    swap_up-LinkedBut :
        LinkedBut u
          (parent q)
          s.entries
          (swap_up s (parent q) q).heap
          (swap_up s (parent q) q).heap_loc
    swap_up-LinkedBut =
        LinkedBut-up s.entries s.heap (swap_up s (parent q) q).heap s.heap_loc
          (swap_up s (parent q) q).heap_loc (parent q) q heap-swap_up u l parent-lt parent-ne
          loc-swap_up

    swap_up-UpInv : UpInv s.entries (λ c. s.time_stamp ((swap_up s (parent q) q).heap c)) (parent q)
    swap_up-UpInv =
        UpInv-Exchanged s.entries (key s) (λ c. s.time_stamp ((swap_up s (parent q) q).heap c)) q v
          pos below (λ c. ground (arith, heap-swap_up c))

-- The way up ends, with the new node in order.
pub go_up-Raised :
    (rounds u : ℕ) (s : SndUList) (q : ℕ)
    → q < rounds
    → LinkedBut u q s.entries s.heap s.heap_loc
    → UpInv s.entries (key s) q
    → (q' : ℕ) × (s' : SndUList) × (go_up rounds s q ≡ some (q', s')) × Raised u q' s s'
unfolding go_up swap_up
go_up-Raised zero u s q lt l v = absurd (omega (arith, lt))
go_up-Raised (suc rounds) u s q lt l v = elim (Bool-cases (q == 0)) [
  | inl e ↦
      let root : q ≡ 0 = ground (arith, e) in
      (q, s, rw (e, go_up) refl, Raised-here u s q l v (inl root))
  | inr e ↦
      let pos : 0 < q = ground (arith, e) in
      elim (Bool-cases (leb (key s (parent q)) (key s q))) [
        | inl f ↦
            let settled : key s (parent q) ≤ key s q = ground (arith, f) in
            (q, s, rw (e, f, go_up) refl, Raised-here u s q l v (inr settled))
        | inr f ↦
            let below : key s q < key s (parent q) = ground (arith, f) in
            let (q', s', run, r) =
              go_up-Raised rounds u (swap_up s (parent q) q) (parent q) (omega (arith, lt, pos))
                (swap_up-LinkedBut u s q l v pos below) (swap_up-UpInv u s q l v pos below) in
            (
              q',
              s',
              rw (e, f, go_up) run,
              record {
                moved = Moved-trans (swap_up-Moved u s q l v pos below) r.moved;
                linked = r.linked;
                ordered = r.ordered;
              },
            )
      ]
]
