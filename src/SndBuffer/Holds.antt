-- ===== src/SndBuffer/Holds.antt =====
-- The packets that `CSndBuffer` holds, as a list.
use srtplay.Base.{
  ℕ, zero, suc, take, drop, ◌-◌, ◌+◌, ◌<◌, ◌≤◌, ◌≡◌, refl, ap, ap₂, ◌∙◌, arith, List, [], ◌∷◌, ◌++◌,
  length,
}
use srtplay.SndBuffer.{Block, SndBuffer, next_of}
use srtplay.SndBuffer.Ring.{Ring}

-- A packet, whatever block it is in.
abbrev pub packet : Block → Block
packet s = record s { next = 0 }

-- So many packets from the place `i` on.
abbrev pub listing : (ℕ → Block) → (ℕ → ℕ) → ℕ → ℕ → List Block
listing nodes at i zero = []
listing nodes at i (suc n) = packet (nodes (at i)) ∷ listing nodes at (i + 1) n

abbrev pub total_bytes : List Block → ℕ
total_bytes [] = 0
total_bytes (s ∷ q) = length s.payload + total_bytes q

-- The buffer holds the packets `queue`, of which `sent` were read.
pub record Holds (b : SndBuffer) (queue : List Block) (sent : ℕ) : Type 0 where
  pub at : ℕ → ℕ
  pub ring : Ring b.size (next_of b) at
  pub below : (j : ℕ) → at j < b.made
  pub first_eq : b.first_block ≡ at 0
  pub curr_eq : b.curr_block ≡ at sent
  pub last_eq : b.last_block ≡ at b.count
  pub sent_le : sent ≤ b.count
  pub room : b.count < b.size
  pub unit_pos : 0 < b.unit_size
  pub queue_eq : listing b.blocks at 0 b.count ≡ queue
  pub bytes_eq : b.bytes_count ≡ total_bytes queue

pub listing-cong :
    (nodes nodes' : ℕ → Block) (at at' : ℕ → ℕ) (i i' n : ℕ)
    → ((j : ℕ) → j < n → packet (nodes (at (i + j))) ≡ packet (nodes' (at' (i' + j))))
    → listing nodes at i n ≡ listing nodes' at' i' n
listing-cong nodes nodes' at at' i i' zero same = refl
listing-cong nodes nodes' at at' i i' (suc n) same =
    let here =
      ap (λ k. packet (nodes (at k))) {x = i} {y = i + 0} (omega arith)
      ∙ same 0 (omega arith)
      ∙ ap (λ k. packet (nodes' (at' k))) {x = i' + 0} {y = i'} (omega arith) in
    ap₂ ◌∷◌ here (
      listing-cong nodes nodes' at at' (i + 1) (i' + 1) n λ j lt.
        ap (λ k. packet (nodes (at k))) {x = i + 1 + j} {y = i + (j + 1)} (omega arith)
        ∙ same (j + 1) (omega (arith, lt))
        ∙ ap (λ k. packet (nodes' (at' k))) {x = i' + (j + 1)} {y = i' + 1 + j} (omega arith))

pub listing-append :
    (nodes : ℕ → Block) (at : ℕ → ℕ) (i n m : ℕ)
    → listing nodes at i (n + m) ≡ listing nodes at i n ++ listing nodes at (i + n) m
listing-append nodes at i zero m =
    ap₂ (λ k l. listing nodes at k l) {x = i} {y = i + 0} {u = 0 + m} {v = m} (omega arith)
      (omega arith)
listing-append nodes at i (suc n) m =
    let count : suc n + m ≡ suc (n + m) = omega arith in
    ap (λ k. listing nodes at i k) count
    ∙ ap (◌∷◌ (packet (nodes (at i)))) (
        listing-append nodes at (i + 1) n m
        ∙ ap (λ k. listing nodes at (i + 1) n ++ listing nodes at k m) {x = i + 1 + n}
            {y = i + suc n} (omega arith))

pub length-listing : (nodes : ℕ → Block) (at : ℕ → ℕ) (i n : ℕ) → length (listing nodes at i n) ≡ n
length-listing nodes at i zero = refl
length-listing nodes at i (suc n) = ap suc (length-listing nodes at (i + 1) n)

pub total_bytes-append : (p q : List Block) → total_bytes (p ++ q) ≡ total_bytes p + total_bytes q
total_bytes-append [] q = omega arith
total_bytes-append (s ∷ p) q = let rest = total_bytes-append p q in omega (arith, rest)

pub listing-take :
    (nodes : ℕ → Block) (at : ℕ → ℕ) (n i m : ℕ)
    → n ≤ m
    → take n (listing nodes at i m) ≡ listing nodes at i n
listing-take nodes at zero i m le = refl
listing-take nodes at (suc n) i zero le = absurd (omega (arith, le))
listing-take nodes at (suc n) i (suc m) le =
    ap (◌∷◌ (packet (nodes (at i)))) (listing-take nodes at n (i + 1) m (omega (arith, le)))

pub listing-drop :
    (nodes : ℕ → Block) (at : ℕ → ℕ) (n i m : ℕ)
    → n ≤ m
    → drop n (listing nodes at i m) ≡ listing nodes at (i + n) (m - n)
listing-drop nodes at zero i m le =
    ap₂ (λ k l. listing nodes at k l) {x = i} {y = i + 0} {u = m} {v = m - 0} (omega arith)
      (omega arith)
listing-drop nodes at (suc n) i zero le = absurd (omega (arith, le))
listing-drop nodes at (suc n) i (suc m) le =
    listing-drop nodes at n (i + 1) m (omega (arith, le))
    ∙ ap₂ (λ k l. listing nodes at k l) {x = i + 1 + n} {y = i + suc n} {u = m - n}
        {v = suc m - suc n} (omega arith) (omega arith)
