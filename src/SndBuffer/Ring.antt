-- ===== src/SndBuffer/Ring.antt =====
-- The ring of the blocks, from the first one on.
use srtplay.Base.{
  ℕ, ◌+◌, ◌-◌, ◌<◌, ◌≡◌, ◌≢◌, sym, ap, ◌∙◌, arith, ltb, leb, ◌==◌, ◌&&◌, if◌then◌else◌, ℕ_discrete,
  dec_lt,
}

-- `at j` is the block `j` links behind the first; behind the last of the ring it is the first again.
pub record Ring (size : ℕ) (next at : ℕ → ℕ) : Type 0 where
  pub linked : (j : ℕ) → j < size → next (at j) ≡ at (j + 1)
  pub closed : at size ≡ at 0
  pub apart : (i j : ℕ) → i < j → j < size → at i ≢ at j

-- The same blocks, from the second on.
abbrev pub shifted : ℕ → (ℕ → ℕ) → ℕ → ℕ
shifted size at j = if ltb j size then at (j + 1) else at 1

pub shifted-Ring :
    (size : ℕ) (next at : ℕ → ℕ) → 0 < size → Ring size next at → Ring size next (shifted size at)
shifted-Ring size next at pos r = record {
  linked = λ j lt. elim (dec_lt (j + 1) size) [
    | yes p ↦
        let here : shifted size at j ≡ at (j + 1) = ground (arith, lt) in
        let there : shifted size at (j + 1) ≡ at (j + 1 + 1) = ground (arith, p) in
        ap next here ∙ r.linked (j + 1) p ∙ sym there
    | no p ↦
        let end : j + 1 ≡ size = omega (arith, p, lt) in
        let here : shifted size at j ≡ at 0 = ground (arith, lt, ap at end, r.closed) in
        let there : shifted size at (j + 1) ≡ at 1 = ground (arith, end) in
        ap next here ∙ r.linked 0 pos ∙ sym there
  ];
  closed = ground (arith, pos);
  apart = λ i j lt j_lt e.
      let here : at (i + 1) ≡ at (j + 1) = ground (arith, e, lt, j_lt) in
      elim (dec_lt (j + 1) size) [
        | yes p ↦ r.apart (i + 1) (j + 1) (omega (arith, lt)) p here
        | no p ↦
            let end : j + 1 ≡ size = omega (arith, p, j_lt) in
            r.apart 0 (i + 1) (omega arith) (omega (arith, end, lt))
              (sym r.closed ∙ sym (ap at end) ∙ sym here)
      ];
}

-- With `unit` new blocks behind the place `c`, named from `made` on.
abbrev pub inserted : (ℕ → ℕ) → ℕ → ℕ → ℕ → ℕ → ℕ
inserted at c made unit j =
    if leb j c then at j else if leb j (c + unit) then made + (j - c - 1) else at (j - unit)

module _ (size c made unit : ℕ) (next next' at : ℕ → ℕ) (lt : c < size) (pos : 0 < unit)
    (r : Ring size next at) (below : (j : ℕ) → at j < made)
    (splice : (i : ℕ)
      → next' i ≡ (
          if i == at c
          then made
          else if leb made i && ltb i (made + unit)
          then (if i + 1 == made + unit then next (at c) else i + 1)
          else next i)) where
  inserted-linked :
      (j : ℕ)
      → j < size + unit
      → next' (inserted at c made unit j) ≡ inserted at c made unit (j + 1)
  inserted-linked j j_lt = elim (dec_lt j c) [
    | yes p ↦
        let here : inserted at c made unit j ≡ at j = ground (arith, p) in
        let there : inserted at c made unit (j + 1) ≡ at (j + 1) = ground (arith, p) in
        ap next' here
        ∙ ground (arith, splice (at j), r.apart j c p lt, below j)
        ∙ r.linked j (omega (arith, p, lt))
        ∙ sym there
    | no p ↦ elim (ℕ_discrete j c) [
      | yes e ↦
          let here : inserted at c made unit j ≡ at c = ground (arith, e) in
          let there : inserted at c made unit (j + 1) ≡ made = ground (arith, e, pos) in
          ap next' here ∙ ground (arith, splice (at c)) ∙ sym there
      | no ne ↦ elim (dec_lt (c + unit) j) [
        | no q ↦
            let i = made + (j - c - 1) in
            let here : inserted at c made unit j ≡ i = ground (arith, p, ne, q) in
            ap next' here ∙ elim (ℕ_discrete j (c + unit)) [
              | yes e ↦
                  let same : at (j + 1 - unit) ≡ at (c + 1) = ap at (omega (arith, e)) in
                  let there : inserted at c made unit (j + 1) ≡ at (c + 1) =
                    ground (arith, same, e) in
                  ground (arith, splice i, below c, e, pos) ∙ r.linked c lt ∙ sym there
              | no f ↦
                  let there : inserted at c made unit (j + 1) ≡ i + 1 =
                    ground (arith, p, ne, q, f) in
                  ground (arith, splice i, below c, p, ne, q, f) ∙ sym there
            ]
        | yes q ↦
            let here : inserted at c made unit j ≡ at (j - unit) = ground (arith, p, ne, q) in
            let there : inserted at c made unit (j + 1) ≡ at (j - unit + 1) =
              (let same : at (j + 1 - unit) ≡ at (j - unit + 1) = ap at (omega (arith, q)) in
                ground (arith, same, q)) in
            ap next' here
            ∙ ground
                (arith, splice (at (j - unit)), r.apart c (j - unit), below (j - unit), q, j_lt)
            ∙ r.linked (j - unit) (omega (arith, j_lt, q))
            ∙ sym there
      ]
    ]
  ]

  pub inserted-Ring : Ring (size + unit) next' (inserted at c made unit)
  inserted-Ring = record {
    linked = inserted-linked;
    closed =
        (let whole : at (size + unit - unit) ≡ at size = ap at (omega arith) in
          ground (arith, whole, r.closed, lt));
    apart = λ i j i_lt j_lt. ground (
      arith,
      r.apart i j,
      r.apart i (j - unit),
      r.apart (i - unit) (j - unit),
      below i,
      below (j - unit),
      below (i - unit),
      i_lt,
      j_lt,
      lt,
    );
  }

  pub inserted-lt : (j : ℕ) → inserted at c made unit j < made + unit
  inserted-lt j = ground (arith, below j, below (j - unit), pos)
