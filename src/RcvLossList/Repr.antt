-- ===== src/RcvLossList/Repr.antt =====
-- How the array of `CRcvLossList` represents a list of ranges.
use srtplay.Base.{
  ℕ, ◌+◌, ◌<◌, ◌≡◌, ◌≢◌, refl, sym, ap, ◌∙◌, arith, ◌==◌, if◌then◌else◌, [], ◌∷◌, ◌++◌, Option,
  none, some,
}
unfoldable pub use srtplay.Base.Ring.{idx}
pub use srtplay.Base.Ring.{idx-lt, idx-ne, idx_back, idx_forward, idx_reset}
use srtplay.SeqNo.Unwrapped.{seq_of}
use srtplay.RcvLossList.{Node, RcvLossList, empty_node, init}
use srtplay.RcvLossList.Ranges.{Ranges, Sorted, Below, total}

-- The node of a range between the nodes `m` and `k`.
abbrev pub node_of : ℕ → ℕ → Option ℕ → Option ℕ → Node
node_of lo hi m k = record {
  seqstart = some (seq_of lo);
  seqend = if lo == hi then none else some (seq_of hi);
  inext = k;
  iprior = m;
}

abbrev pub IsFree : Node → Type 0
IsFree n = (n.seqstart ≡ none) × (n.seqend ≡ none)

module _ (size c : ℕ) where
  -- The places of the first and the last range.
  abbrev pub first_idx : Ranges → Option ℕ → Option ℕ
  first_idx [] k = k
  first_idx ((lo, hi) ∷ xs) k = some (idx size c lo)

  abbrev pub last_idx : Option ℕ → Ranges → Option ℕ
  last_idx m [] = m
  last_idx m ((lo, hi) ∷ xs) = last_idx (some (idx size c lo)) xs

  -- The nodes of the ranges, linked in order, between the nodes `m` and `k`.
  abbrev pub Seg : (ℕ → Node) → Option ℕ → Ranges → Option ℕ → Type 0
  Seg nodes m [] k = Unit {0}
  Seg nodes m ((lo, hi) ∷ xs) k =
      (nodes (idx size c lo) ≡ node_of lo hi m (first_idx xs k))
      × Seg nodes (some (idx size c lo)) xs k

  -- No range starts at the place `i`.
  abbrev pub Unused : ℕ → Ranges → Type 0
  Unused i [] = Unit {0}
  Unused i ((lo, hi) ∷ xs) = (i ≢ idx size c lo) × Unused i xs

  -- The nodes of `l` are linked as the ranges are, and all other places of the array are free.
  pub record Linked (xs : Ranges) (l : RcvLossList) : Type 0 where
    pub seg : Seg l.nodes none xs none
    pub head_eq : l.head ≡ first_idx xs none
    pub tail_eq : l.tail ≡ last_idx none xs
    pub free : (i : ℕ) → i < size → Unused i xs → IsFree (l.nodes i)

  -- The list `l` represents `xs`, which starts at `b` or later and fits the array and the half circle.
  pub record Repr (b : ℕ) (xs : Ranges) (l : RcvLossList) : Type 0 where
    pub ordered : Sorted b xs
    pub fits : Below (b + size) xs
    pub near : Below (b + 0x3FFFFFFF) xs
    pub links : Linked xs l
    pub count_eq : l.length ≡ total xs

  pub Unused-append : (i : ℕ) (ps qs : Ranges) → Unused i ps → Unused i qs → Unused i (ps ++ qs)
  Unused-append i [] qs a b = b
  Unused-append i ((lo, hi) ∷ ps) qs a b = (a.0, Unused-append i ps qs a.1 b)

  -- A position before all ranges, or behind them, is at a place of none.
  pub Unused-before :
      (b x : ℕ) (xs : Ranges) → Sorted b xs → Below (x + size) xs → x < b → Unused (idx size c x) xs
  Unused-before b x [] s f h = tt
  Unused-before b x ((lo, hi) ∷ xs) s f h = (
    idx-ne size c x lo (omega arith) (omega arith),
    Unused-before (hi + 1) x xs s.2 f.1 (omega arith),
  )

  pub Unused-behind :
      (b x : ℕ) (xs : Ranges) → Sorted b xs → Below x xs → x < b + size → Unused (idx size c x) xs
  Unused-behind b x [] s f h = tt
  Unused-behind b x ((lo, hi) ∷ xs) s f h = (
    λ e. idx-ne size c lo x (omega arith) (omega arith) (sym e),
    Unused-behind (hi + 1) x xs s.2 f.1 (omega arith),
  )

  pub first_idx-append :
      (ps qs : Ranges) (k : Option ℕ) → first_idx (ps ++ qs) k ≡ first_idx ps (first_idx qs k)
  first_idx-append [] qs k = refl
  first_idx-append ((lo, hi) ∷ ps) qs k = refl

  pub last_idx-append :
      (m : Option ℕ) (ps qs : Ranges) → last_idx m (ps ++ qs) ≡ last_idx (last_idx m ps) qs
  last_idx-append m [] qs = refl
  last_idx-append m ((lo, hi) ∷ ps) qs = last_idx-append (some (idx size c lo)) ps qs

  pub Seg-append :
      (nodes : ℕ → Node) (m k : Option ℕ) (ps qs : Ranges)
      → Seg nodes m ps (first_idx qs k)
      → Seg nodes (last_idx m ps) qs k
      → Seg nodes m (ps ++ qs) k
  Seg-append nodes m k [] qs a b = b
  Seg-append nodes m k ((lo, hi) ∷ ps) qs a b = (
    a.0 ∙ ap (node_of lo hi m) (sym (first_idx-append ps qs k)),
    Seg-append nodes (some (idx size c lo)) k ps qs a.1 b,
  )

  pub Seg-split :
      (nodes : ℕ → Node) (m k : Option ℕ) (ps qs : Ranges)
      → Seg nodes m (ps ++ qs) k
      → Seg nodes m ps (first_idx qs k) × Seg nodes (last_idx m ps) qs k
  Seg-split nodes m k [] qs a = (tt, a)
  Seg-split nodes m k ((lo, hi) ∷ ps) qs a =
      let (f, r) = Seg-split nodes (some (idx size c lo)) k ps qs a.1 in
      ((a.0 ∙ ap (node_of lo hi m) (first_idx-append ps qs k), f), r)

  pub Unused-split : (i : ℕ) (ps qs : Ranges) → Unused i (ps ++ qs) → Unused i ps × Unused i qs
  Unused-split i [] qs u = (tt, u)
  Unused-split i ((lo, hi) ∷ ps) qs u = let (a, b) = Unused-split i ps qs u.1 in ((u.0, a), b)

  -- Behind a node the last place is some place.
  pub last_some : (i : ℕ) (xs : Ranges) → (p : ℕ) × (last_idx (some i) xs ≡ some p)
  last_some i [] = (i, refl)
  last_some i ((lo, hi) ∷ xs) = last_some (idx size c lo) xs

  pub last-ne :
      (i j p : ℕ) (xs : Ranges) → i ≢ j → Unused j xs → last_idx (some i) xs ≡ some p → p ≢ j
  last-ne i j p [] n u e = ground arith
  last-ne i j p ((lo, hi) ∷ xs) n u e = last-ne (idx size c lo) j p xs (λ q. u.0 (sym q)) u.1 e

-- The number of the largest loss does not matter for the ranges.
pub Repr-largest :
    (size c b : ℕ) (xs : Ranges) (l : RcvLossList) (v : Option ℕ)
    → Repr size c b xs l
    → Repr size c b xs (record l { largest_seq = v })
Repr-largest size c b xs l v r = record {
  ordered = r.ordered;
  fits = r.fits;
  near = r.near;
  links = record {
    seg = r.links.seg;
    head_eq = r.links.head_eq;
    tail_eq = r.links.tail_eq;
    free = r.links.free;
  };
  count_eq = r.count_eq;
}

-- A new list represents the empty one, wherever the stream begins.
pub init-Repr : (size c b : ℕ) → Repr size c b [] init
unfolding init empty_node
init-Repr size c b = record {
  ordered = tt;
  fits = tt;
  near = tt;
  links = record { seg = tt; head_eq = refl; tail_eq = refl; free = λ i lt u. (refl, refl) };
  count_eq = refl;
}
