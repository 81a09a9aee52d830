-- ===== src/SndUList/Linked.antt =====
-- The locations of the nodes are their places in the heap, and what the swaps do to them.
use srtplay.Base.{
  ℕ, ◌<◌, ◌≡◌, ◌≢◌, arith, ◌==◌, if◌then◌else◌, Option, none, some, update, update-at, ◌+◌,
}
use srtplay.SndUList.Order.{Exchanged}

-- The nodes that are in the heap `h`, of `size` places, know where.
pub record Linked (size : ℕ) (h : ℕ → ℕ) (loc : ℕ → Option ℕ) : Type 0 where
  pub at : (i : ℕ) → i < size → loc (h i) ≡ some i
  pub back : (n i : ℕ) → loc n ≡ some i → (i < size) × (h i ≡ n)

-- All but the node `u` at `q`, which has no location yet.
pub record LinkedBut (u q size : ℕ) (h : ℕ → ℕ) (loc : ℕ → Option ℕ) : Type 0 where
  pub inside : q < size
  pub here : h q ≡ u
  pub off : loc u ≡ none
  pub at : (i : ℕ) → i < size → i ≢ q → loc (h i) ≡ some i
  pub back : (n i : ℕ) → loc n ≡ some i → (i < size) × (h i ≡ n)

-- All, but the node `u`, which is not in the heap, may have a location.
pub record LinkedOff (u size : ℕ) (h : ℕ → ℕ) (loc : ℕ → Option ℕ) : Type 0 where
  pub at : (i : ℕ) → i < size → loc (h i) ≡ some i
  pub off : (i : ℕ) → i < size → h i ≢ u
  pub back : (n i : ℕ) → n ≢ u → loc n ≡ some i → (i < size) × (h i ≡ n)

module _ (size : ℕ) (h h' : ℕ → ℕ) (loc loc' : ℕ → Option ℕ) (p q : ℕ)
    (heap_at : Exchanged h' h p q) where
  pub LinkedBut-up :
      (u : ℕ)
      → LinkedBut u q size h loc
      → p < size
      → p ≢ q
      → ((n : ℕ) → loc' n ≡ (if n == h p then some q else loc n))
      → LinkedBut u p size h' loc'
  LinkedBut-up u l lt ne loc_at = record {
    inside = lt;
    here = ground (arith, heap_at p, l.here, ne);
    off = ground (arith, loc_at u, l.off, l.at p, lt, ne);
    at =
        λ i i_lt i_ne. ground (arith, heap_at i, loc_at (h' i), l.at i, l.at p, i_lt, i_ne, lt, ne);
    back = λ n i e.
        ground (arith, heap_at i, loc_at n, l.back n i, l.off, l.here, l.inside, l.at p, lt, ne, e);
  }

  pub LinkedOff-down :
      (u : ℕ)
      → LinkedOff u size h loc
      → p < size
      → q < size
      → p ≢ q
      → ((n : ℕ) → loc' n ≡ (if n == h p then some q else if n == h q then some p else loc n))
      → LinkedOff u size h' loc'
  LinkedOff-down u l p_lt q_lt ne loc_at = record {
    at = λ i i_lt.
        ground (arith, heap_at i, loc_at (h' i), l.at i, l.at p, l.at q, i_lt, p_lt, q_lt, ne);
    off = λ i i_lt. ground (arith, heap_at i, l.off i, l.off p, l.off q, i_lt, p_lt, q_lt);
    back = λ n i n_ne e.
        ground (arith, heap_at i, loc_at n, l.back n i, l.at p, l.at q, p_lt, q_lt, ne, n_ne, e);
  }

module _ (size : ℕ) (h : ℕ → ℕ) (loc : ℕ → Option ℕ) where
  -- A new node is put behind the last.
  pub LinkedBut-append :
      (u : ℕ) → Linked size h loc → loc u ≡ none → LinkedBut u size (size + 1) (update h size u) loc
  LinkedBut-append u l off = record {
    inside = omega arith;
    here = ground (arith, update-at h size u size);
    off = off;
    at = λ i i_lt i_ne. ground (arith, update-at h size u i, l.at i, i_lt, i_ne);
    back = λ n i e. ground (arith, update-at h size u i, l.back n i, e);
  }

  -- It gets its location.
  pub Linked-settle : (u q : ℕ) → LinkedBut u q size h loc → Linked size h (update loc u (some q))
  Linked-settle u q l = record {
    at = λ i i_lt. ground (arith, update-at loc u (some q) (h i), l.at i, l.here, l.off, i_lt);
    back = λ n i e. ground (arith, update-at loc u (some q) n, l.back n i, l.here, l.inside, e);
  }

  -- The node that went loses its location.
  pub Linked-leave : (u : ℕ) → LinkedOff u size h loc → Linked size h (update loc u none)
  Linked-leave u l = record {
    at = λ i i_lt. ground (arith, update-at loc u none (h i), l.at i, l.off i, i_lt);
    back = λ n i e. ground (arith, update-at loc u none n, l.back n i, e);
  }

module _ (h : ℕ → ℕ) (loc : ℕ → Option ℕ) where
  -- The last node, behind `rest` others, takes the place of the node `u` at `i`.
  pub LinkedOff-fill :
      (u i rest : ℕ)
      → Linked (rest + 1) h loc
      → loc u ≡ some i
      → LinkedOff u rest (update h i (h rest)) (update loc (h rest) (some i))
  LinkedOff-fill u i rest l e =
      let place = l.back u i e in
      record {
        at = λ j j_lt. ground (
          arith,
          update-at h i (h rest) j,
          update-at loc (h rest) (some i) (update h i (h rest) j),
          l.at j,
          l.at rest,
          place,
          e,
          j_lt,
        );
        off = λ j j_lt. ground (arith, update-at h i (h rest) j, l.at j, l.at rest, place, e, j_lt);
        back = λ n j n_ne f. ground (
          arith,
          update-at h i (h rest) j,
          update-at loc (h rest) (some i) n,
          l.back n j,
          l.at rest,
          place,
          e,
          n_ne,
          f,
        );
      }
