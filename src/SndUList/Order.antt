-- ===== src/SndUList/Order.antt =====
-- The heap order, over the time stamps of the places, and what a swap with the parent or with a child does to it.
use srtplay.Base.{
  ℕ, zero, suc, ◌+◌, ◌-◌, ◌*◌, ◌/◌, ◌<◌, ◌≤◌, ◌≡◌, ◌≢◌, ◌⊎◌, arith, ◌==◌, if◌then◌else◌, update,
}
use srtplay.SndUList.{swapped}

abbrev pub parent : ℕ → ℕ
parent c = (c - 1) / 2

-- No place has an earlier time stamp than its parent.
abbrev pub IsHeap : ℕ → (ℕ → ℕ) → Type 0
IsHeap n k = (c : ℕ) → 0 < c → c < n → k (parent c) ≤ k c

-- The edges past `q`, from its parent to its children, are in order.
abbrev pub IsBridged : ℕ → (ℕ → ℕ) → ℕ → Type 0
IsBridged n k q = (c : ℕ) → 0 < c → c < n → parent c ≡ q → 0 < q → k (parent q) ≤ k c

-- Only the edge above `q` may be out of order.
pub record UpInv (n : ℕ) (k : ℕ → ℕ) (q : ℕ) : Type 0 where
  pub inside : q < n
  pub edges : (c : ℕ) → 0 < c → c < n → c ≢ q → k (parent c) ≤ k c
  pub bridged : IsBridged n k q

-- Only the edges below `q` may be.
pub record DownInv (n : ℕ) (k : ℕ → ℕ) (q : ℕ) : Type 0 where
  pub edges : (c : ℕ) → 0 < c → c < n → parent c ≢ q → k (parent c) ≤ k c
  pub bridged : IsBridged n k q

-- `m` is the child of `q` that comes first.
pub record IsFirstChild (n : ℕ) (k : ℕ → ℕ) (q m : ℕ) : Type 0 where
  pub inside : m < n
  pub child : (m ≡ q * 2 + 1) ⊎ (m ≡ q * 2 + 2)
  pub least : (c : ℕ) → 0 < c → c < n → parent c ≡ q → k m ≤ k c

pub swapped-at :
    (h : ℕ → ℕ) (p q c : ℕ)
    → swapped h p q c ≡ (if c == q then h p else if c == p then h q else h c)
unfolding swapped update
swapped-at h p q c = ground arith

-- The time stamps `k'` are `k` with those of `p` and `q` exchanged.
abbrev pub Exchanged : (ℕ → ℕ) → (ℕ → ℕ) → ℕ → ℕ → Type 0
Exchanged k' k p q = (c : ℕ) → k' c ≡ (if c == q then k p else if c == p then k q else k c)

pub UpInv-Exchanged :
    (n : ℕ) (k k' : ℕ → ℕ) (q : ℕ)
    → UpInv n k q
    → 0 < q
    → k q < k (parent q)
    → Exchanged k' k (parent q) q
    → UpInv n k' (parent q)
UpInv-Exchanged n k k' q v pos below at = record {
  inside = (let i = v.inside in omega (arith, i));
  edges = λ c c_pos c_lt ne. ground (
    arith,
    v.inside,
    at c,
    at (parent c),
    v.edges c,
    v.edges q,
    v.bridged c,
    below,
    c_pos,
    c_lt,
    ne,
    pos,
  );
  bridged = λ c c_pos c_lt e p_pos. ground (
    arith,
    v.inside,
    at c,
    at (parent (parent q)),
    v.edges c,
    v.edges (parent q),
    below,
    c_pos,
    c_lt,
    e,
    p_pos,
    pos,
  );
}

pub UpInv-IsHeap :
    (n : ℕ) (k : ℕ → ℕ) (q : ℕ) → UpInv n k q → (q ≡ 0) ⊎ (k (parent q) ≤ k q) → IsHeap n k
UpInv-IsHeap n k q v top c c_pos c_lt = ground (arith, v.edges c, top, c_pos, c_lt)

pub DownInv-Exchanged :
    (n : ℕ) (k k' : ℕ → ℕ) (q m : ℕ)
    → DownInv n k q
    → IsFirstChild n k q m
    → k m < k q
    → Exchanged k' k m q
    → DownInv n k' m
DownInv-Exchanged n k k' q m v s below at = record {
  edges = λ c c_pos c_lt ne. ground (
    arith,
    s.inside,
    s.child,
    at c,
    at (parent c),
    v.edges c,
    v.bridged m,
    s.least c,
    below,
    c_pos,
    c_lt,
    ne,
  );
  bridged = λ c c_pos c_lt e m_pos.
      ground
        (arith, s.inside, s.child, at c, at (parent m), v.edges c, below, c_pos, c_lt, e, m_pos);
}

pub DownInv-IsHeap :
    (n : ℕ) (k : ℕ → ℕ) (q : ℕ)
    → DownInv n k q
    → ((c : ℕ) → 0 < c → c < n → parent c ≡ q → k q ≤ k c)
    → IsHeap n k
DownInv-IsHeap n k q v settled c c_pos c_lt = ground (arith, v.edges c, settled c, c_pos, c_lt)

root_least_below : (rounds n : ℕ) (k : ℕ → ℕ) (i : ℕ) → IsHeap n k → i < rounds → i < n → k 0 ≤ k i
root_least_below zero n k i h f lt = absurd (omega arith)
root_least_below (suc rounds) n k i h f lt =
    ground (arith, h i, root_least_below rounds n k (parent i) h, f, lt)

-- The root of a heap is the earliest.
pub root_least : (n : ℕ) (k : ℕ → ℕ) (i : ℕ) → IsHeap n k → i < n → k 0 ≤ k i
root_least n k i h lt = root_least_below (suc i) n k i h (omega arith) lt
