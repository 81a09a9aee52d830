-- ===== src/RcvLossList/Links.antt =====
-- What a write to the array does to the linked nodes.
use srtplay.Base.{
  ℕ, ◌+◌, ◌≤◌, ◌<◌, ◌≡◌, refl, sym, ap, ◌∙◌, subst, arith, [], ◌∷◌, ◌++◌, Option, none, some,
  update, update_self, update_ne,
}
use srtplay.RcvLossList.{Node}
use srtplay.RcvLossList.Ranges.{Ranges, Sorted, Below, Below-mono}
use srtplay.RcvLossList.Repr.{
  idx, idx-ne, first_idx, last_idx, Seg, Unused, Unused-before, Unused-behind, IsFree, Seg-append,
  first_idx-append, last_some, last-ne,
}

-- The pointer to the next node, or to the previous one, changes at a place, if there is one.
abbrev pub set_next : (ℕ → Node) → Option ℕ → Option ℕ → ℕ → Node
set_next nodes none k = nodes
set_next nodes (some j) k = update nodes j (record (nodes j) { inext = k })

abbrev pub set_prior : (ℕ → Node) → Option ℕ → Option ℕ → ℕ → Node
set_prior nodes none m = nodes
set_prior nodes (some j) m = update nodes j (record (nodes j) { iprior = m })

module _ (size c : ℕ) where
  -- A write elsewhere does not matter.
  pub Seg-frame :
      (nodes : ℕ → Node) (m k : Option ℕ) (xs : Ranges) (j : ℕ) (v : Node)
      → Unused size c j xs
      → Seg size c nodes m xs k
      → Seg size c (update nodes j v) m xs k
  Seg-frame nodes m k [] j v u s = tt
  Seg-frame nodes m k ((lo, hi) ∷ xs) j v u s = (
    update_ne nodes j (idx size c lo) v (λ e. u.0 (sym e)) ∙ s.0,
    Seg-frame nodes (some (idx size c lo)) k xs j v u.1 s.1,
  )

  -- Only the first node points back.
  pub Seg-set_prior :
      (nodes : ℕ → Node) (m m' k : Option ℕ) (b : ℕ) (xs : Ranges)
      → Sorted b xs
      → Below (b + size) xs
      → Seg size c nodes m xs k
      → Seg size c (set_prior nodes (first_idx size c xs none) m') m' xs k
  Seg-set_prior nodes m m' k b [] o f s = tt
  Seg-set_prior nodes m m' k b ((lo, hi) ∷ xs) o f s = (
    update_self nodes (idx size c lo) _ ∙ ap (λ (n : Node). record n { iprior = m' }) s.0,
    Seg-frame nodes (some (idx size c lo)) k xs (idx size c lo) _
        (Unused-before size c (hi + 1) lo xs o.2
          (Below-mono (b + size) (lo + size) xs (omega arith) f.1) (omega arith))
        s.1,
  )

  set_next_before :
      (nodes : ℕ → Node) (k' : Option ℕ) (b y lo hi : ℕ) (xs : Ranges)
      → Sorted b ((lo, hi) ∷ xs)
      → Below (y + size) ((lo, hi) ∷ xs)
      → y < b
      → set_next nodes (last_idx size c (some (idx size c lo)) xs) k' (idx size c y)
        ≡ nodes (idx size c y)
  set_next_before nodes k' b y lo hi [] o f h =
      update_ne nodes (idx size c lo) (idx size c y) _
        (idx-ne size c y lo (omega arith) (omega arith))
  set_next_before nodes k' b y lo hi ((lo', hi') ∷ xs) o f h =
      set_next_before nodes k' (hi + 1) y lo' hi' xs o.2 f.1 (omega arith)

  -- Only the last node points on.
  pub Seg-set_next :
      (nodes : ℕ → Node) (m k k' : Option ℕ) (b : ℕ) (xs : Ranges)
      → Sorted b xs
      → Below (b + size) xs
      → Seg size c nodes m xs k
      → Seg size c (set_next nodes (last_idx size c none xs) k') m xs k'
  Seg-set_next nodes m k k' b [] o f s = tt
  Seg-set_next nodes m k k' b ((lo, hi) ∷ []) o f s =
      (update_self nodes (idx size c lo) _ ∙ ap (λ (n : Node). record n { inext = k' }) s.0, tt)
  Seg-set_next nodes m k k' b ((lo, hi) ∷ (lo', hi') ∷ xs) o f s = (
    set_next_before nodes k' (hi + 1) lo lo' hi' xs o.2
          (Below-mono (b + size) (lo + size) ((lo', hi') ∷ xs) (omega arith) f.1) (omega arith)
        ∙ s.0,
    Seg-set_next nodes (some (idx size c lo)) k k' (hi + 1) ((lo', hi') ∷ xs) o.2
        (Below-mono (b + size) (hi + 1 + size) ((lo', hi') ∷ xs) (omega arith) f.1) s.1,
  )

  -- The last place of `ps` is used by nothing behind it, the first of `qs` by nothing in front.
  abbrev pub UnusedAt : Option ℕ → Ranges → Type 0
  UnusedAt none xs = Unit {0}
  UnusedAt (some j) xs = Unused size c j xs

  pub UnusedAt-last :
      (b d lo hi : ℕ) (ps qs : Ranges)
      → Sorted b ((lo, hi) ∷ ps)
      → Below d ((lo, hi) ∷ ps)
      → Sorted d qs
      → Below (b + size) qs
      → UnusedAt (last_idx size c (some (idx size c lo)) ps) qs
  UnusedAt-last b d lo hi [] qs o f o' f' =
      Unused-before size c d lo qs o' (Below-mono (b + size) (lo + size) qs (omega arith) f')
        (omega arith)
  UnusedAt-last b d lo hi ((lo', hi') ∷ ps) qs o f o' f' =
      UnusedAt-last (hi + 1) d lo' hi' ps qs o.2 f.1 o'
        (Below-mono (b + size) (hi + 1 + size) qs (omega arith) f')

  -- Two parts of a list with room between them.
  pub record Parts (b d : ℕ) (ps qs : Ranges) : Type 0 where
    pub front_ordered : Sorted b ps
    pub front_below : Below d ps
    pub back_ordered : Sorted d qs
    pub back_below : Below (b + size) qs
    pub above : b ≤ d
    pub room : d ≤ b + size

  pub Parts-last :
      (b d : ℕ) (ps qs : Ranges) → Parts b d ps qs → UnusedAt (last_idx size c none ps) qs
  Parts-last b d [] qs p = tt
  Parts-last b d ((lo, hi) ∷ ps) qs p =
      UnusedAt-last b d lo hi ps qs p.front_ordered p.front_below p.back_ordered p.back_below

  pub Parts-first :
      (b d : ℕ) (ps qs : Ranges) → Parts b d ps qs → UnusedAt (first_idx size c qs none) ps
  Parts-first b d ps [] p = tt
  Parts-first b d ps ((lo, hi) ∷ qs) p =
      let (from, fits, rest) = p.back_ordered in
      let (below, _) = p.back_below in
      Unused-behind size c b lo ps p.front_ordered (Below-mono d lo ps from p.front_below)
        (omega arith)

  Seg-set_next_frame :
      (nodes : ℕ → Node) (m k : Option ℕ) (xs : Ranges) (o v : Option ℕ)
      → UnusedAt o xs
      → Seg size c nodes m xs k
      → Seg size c (set_next nodes o v) m xs k
  Seg-set_next_frame nodes m k xs none v u s = s
  Seg-set_next_frame nodes m k xs (some j) v u s = Seg-frame nodes m k xs j _ u s

  pub Seg-set_prior_frame :
      (nodes : ℕ → Node) (m k : Option ℕ) (xs : Ranges) (o v : Option ℕ)
      → UnusedAt o xs
      → Seg size c nodes m xs k
      → Seg size c (set_prior nodes o v) m xs k
  Seg-set_prior_frame nodes m k xs none v u s = s
  Seg-set_prior_frame nodes m k xs (some j) v u s = Seg-frame nodes m k xs j _ u s

  -- The two ends of a gap get new pointers.
  abbrev pub relinked : (ℕ → Node) → Ranges → Ranges → Option ℕ → Option ℕ → ℕ → Node
  relinked nodes ps qs k m =
      set_prior (set_next nodes (last_idx size c none ps) k) (first_idx size c qs none) m

  pub Seg-relinked :
      (nodes : ℕ → Node) (b d : ℕ) (ps qs : Ranges) (k k' m m' : Option ℕ)
      → Parts b d ps qs
      → Seg size c nodes none ps k
      → Seg size c nodes m qs none
      → Seg size c (relinked nodes ps qs k' m') none ps k'
        × Seg size c (relinked nodes ps qs k' m') m' qs none
  Seg-relinked nodes b d ps qs k k' m m' p s t = (
    Seg-set_prior_frame _ none k' ps _ m' (Parts-first b d ps qs p) (
        Seg-set_next nodes none k k' b ps p.front_ordered
          (Below-mono d (b + size) ps p.room p.front_below) s),
    Seg-set_prior _ m m' none d qs p.back_ordered
        (Below-mono (b + size) (d + size) qs (omega (arith, p.above)) p.back_below)
        (Seg-set_next_frame nodes m none qs _ k' (Parts-last b d ps qs p) t),
  )

  -- New ranges `ms` in the gap, once the two ends point to them.
  pub Seg-filled :
      (nodes : ℕ → Node) (b d : ℕ) (ps ms qs : Ranges) (k m : Option ℕ)
      → Parts b d ps qs
      → Seg size c nodes none ps k
      → Seg size c nodes m qs none
      → let front = last_idx size c none ps in
        let behind = first_idx size c qs none in
        let nodes' = relinked nodes ps qs (first_idx size c ms behind) (last_idx size c front ms) in
        Seg size c nodes' front ms behind → Seg size c nodes' none (ps ++ (ms ++ qs)) none
  Seg-filled nodes b d ps ms qs k m p s t middle =
      let front = last_idx size c none ps in
      let behind = first_idx size c qs none in
      let k' = first_idx size c ms behind in
      let m' = last_idx size c front ms in
      let nodes' = relinked nodes ps qs k' m' in
      let ends = Seg-relinked nodes b d ps qs k k' m m' p s t in
      Seg-append size c nodes' none none ps (ms ++ qs)
        (subst (λ z. Seg size c nodes' none ps z) (sym (first_idx-append size c ms qs none)) ends.0)
        (Seg-append size c nodes' front none ms qs middle ends.1)

-- Pointers do not make a node used.
IsFree-set_next :
    (nodes : ℕ → Node) (o v : Option ℕ) (i : ℕ) → IsFree (nodes i) → IsFree (set_next nodes o v i)
unfolding update
IsFree-set_next nodes none v i f = f
IsFree-set_next nodes (some j) v i f = ground arith

pub IsFree-set_prior :
    (nodes : ℕ → Node) (o v : Option ℕ) (i : ℕ) → IsFree (nodes i) → IsFree (set_prior nodes o v i)
unfolding update
IsFree-set_prior nodes none v i f = f
IsFree-set_prior nodes (some j) v i f = ground arith

-- Nor do they change where a range ends.
pub seqend-relinked :
    (size c : ℕ) (nodes : ℕ → Node) (ps qs : Ranges) (k m : Option ℕ) (i : ℕ)
    → (relinked size c nodes ps qs k m i).seqend ≡ (nodes i).seqend
unfolding update
seqend-relinked size c nodes ps qs k m i = ground arith

pub IsFree-relinked :
    (size c : ℕ) (nodes : ℕ → Node) (ps qs : Ranges) (k m : Option ℕ) (i : ℕ)
    → IsFree (nodes i)
    → IsFree (relinked size c nodes ps qs k m i)
IsFree-relinked size c nodes ps qs k m i f =
    IsFree-set_prior (set_next nodes (last_idx size c none ps) k) (first_idx size c qs none) m i
      (IsFree-set_next nodes (last_idx size c none ps) k i f)

-- A place that no range uses keeps its node.
module _ (size c : ℕ) (nodes : ℕ → Node) (k m : Option ℕ) (i : ℕ) where
  pub set_next_elsewhere :
      (ps : Ranges) → Unused size c i ps → set_next nodes (last_idx size c none ps) k i ≡ nodes i
  set_next_elsewhere [] u = refl
  set_next_elsewhere ((lo, hi) ∷ ps) u =
      let (p, ep) = last_some size c (idx size c lo) ps in
      rw ep (
        update_ne nodes p i _
          (λ q. last-ne size c (idx size c lo) i p ps (λ w. u.0 (sym w)) u.1 ep (sym q)))

  pub set_prior_elsewhere :
      (qs : Ranges) → Unused size c i qs → set_prior nodes (first_idx size c qs none) m i ≡ nodes i
  set_prior_elsewhere [] u = refl
  set_prior_elsewhere ((lo, hi) ∷ qs) u = update_ne nodes (idx size c lo) i _ u.0

pub relinked_elsewhere :
    (size c : ℕ) (nodes : ℕ → Node) (ps qs : Ranges) (k m : Option ℕ) (i : ℕ)
    → Unused size c i ps
    → Unused size c i qs
    → relinked size c nodes ps qs k m i ≡ nodes i
relinked_elsewhere size c nodes ps qs k m i up uq =
    set_prior_elsewhere size c (set_next nodes (last_idx size c none ps) k) k m i qs uq
    ∙ set_next_elsewhere size c nodes k m i ps up
