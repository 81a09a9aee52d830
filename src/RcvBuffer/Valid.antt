-- ===== src/RcvBuffer/Valid.antt =====
-- What holds of a receiver buffer between its operations. Positions of the stream do not wrap: the place of
-- `x` in the array is `idx size c x`, its sequence number `seq_of x`, and the window starts at `b`.
use srtplay.Base.{
  ℕ, ◌+◌, ◌≤◌, ◌<◌, ◌≡◌, ◌≢◌, refl, sym, ap, ◌∙◌, subst, arith, true, false, Option, none, some,
  update, update_self, update_ne, dec_lt, ℕ_discrete, Option-cases, inl, inr,
}
use srtplay.Base.Modular.{mod_cases}
use srtplay.Base.Ring.{idx, idx-ne, idx-lt, idx_forward}
use srtplay.SeqNo.Unwrapped.{seq_of}
use srtplay.RcvBuffer.{
  RcvUnit, EntryStatus, empty, avail, read, drop, Entry, no_entry, has_unit, is_avail, is_empty,
  inc_pos,
}

-- An entry at `x`, where packets are kept below `stop`: the unit of its sequence number, or a mark that
-- something was read or dropped there, or nothing.
abbrev pub CellOf : ℕ → ℕ → Option RcvUnit → EntryStatus → Type 0
CellOf stop x (some u) status = (status ≡ avail) × (u.packet.seq_no ≡ seq_of x) × (x < stop)
CellOf stop x none empty = Unit {0}
CellOf stop x none avail = ⊥
CellOf stop x none read = x < stop
CellOf stop x none drop = x < stop

abbrev pub Cell : ℕ → ℕ → Entry → Type 0
Cell stop x e = CellOf stop x e.unit e.status

-- The packets up to `stop` keep their cells if the bound is put off.
pub CellOf-later :
    (stop stop' x : ℕ) (o : Option RcvUnit) (s : EntryStatus)
    → stop ≤ stop'
    → CellOf stop x o s
    → CellOf stop' x o s
CellOf-later stop stop' x (some u) s h w = (w.0, w.1, omega arith)
CellOf-later stop stop' x none empty h w = tt
CellOf-later stop stop' x none avail h w = w
CellOf-later stop stop' x none read h w = omega arith
CellOf-later stop stop' x none drop h w = omega arith

pub CellOf-some :
    (stop x : ℕ) (o : Option RcvUnit) (s : EntryStatus) (u : RcvUnit)
    → CellOf stop x o s
    → o ≡ some u
    → (s ≡ avail) × (u.packet.seq_no ≡ seq_of x) × (x < stop)
CellOf-some stop x o s u w e = subst (λ o'. CellOf stop x o' s) e w

module _ (size c : ℕ) where
  -- The entries of the window.
  abbrev pub Window : ℕ → ℕ → (ℕ → Entry) → Type 0
  Window b stop entries = (x : ℕ) → b ≤ x → x < b + size → Cell stop x (entries (idx size c x))

  pub idx_wrap : (x : ℕ) → 0 < size → idx size c (x + size) ≡ idx size c x
  idx_wrap x h =
      let below = idx-lt size c x h in
      sym (idx_forward size c x size)
      ∙ omega (arith, mod_cases (idx size c x + size) size (omega arith))

  -- The window moves on over its first entry, which is emptied.
  pub Window-advance :
      (b stop : ℕ) (entries : ℕ → Entry)
      → 0 < size
      → Window b stop entries
      → Window (b + 1) stop (update entries (idx size c b) no_entry)
  Window-advance b stop entries h w x lo hi = elim (dec_lt x (b + size)) [
    | yes p ↦
        subst (Cell stop x)
          (sym (
            update_ne entries (idx size c b) (idx size c x) no_entry
              (λ e. idx-ne size c b x (omega arith) p (sym e))))
          (w x (omega arith) p)
    | no p ↦
        let e : x ≡ b + size = omega arith in
        let same : idx size c x ≡ idx size c b = ap (idx size c) e ∙ idx_wrap b h in
        subst (λ i. Cell stop x (update entries (idx size c b) no_entry i)) (sym same)
          (subst (Cell stop x) (sym (update_self entries (idx size c b) no_entry)) tt)
  ]

  -- A place of the window other than that of `y` is not changed by a write at `y`.
  pub update-other :
      (b x y : ℕ) (entries : ℕ → Entry) (e : Entry)
      → b ≤ x
      → x < b + size
      → b ≤ y
      → y < b + size
      → x ≢ y
      → update entries (idx size c y) e (idx size c x) ≡ entries (idx size c x)
  update-other b x y entries e lx hx ly hy ne =
      update_ne entries (idx size c y) (idx size c x) e (elim (dec_lt x y) [
        | yes p ↦ idx-ne size c x y p (omega arith)
        | no p ↦ λ q. idx-ne size c y x (omega arith) (omega arith) (sym q)
      ])

  -- A write at `y` of an entry that fits there.
  pub Window-update :
      (b stop y : ℕ) (entries : ℕ → Entry) (e : Entry)
      → b ≤ y
      → y < b + size
      → Cell stop y e
      → Window b stop entries
      → Window b stop (update entries (idx size c y) e)
  Window-update b stop y entries e ly hy cell w x lx hx = elim (ℕ_discrete x y) [
    | yes p ↦
        subst (λ z. Cell stop z (update entries (idx size c y) e (idx size c z))) (sym p)
          (subst (Cell stop y) (sym (update_self entries (idx size c y) e)) cell)
    | no p ↦ subst (Cell stop x) (sym (update-other b x y entries e lx hx ly hy p)) (w x lx hx)
  ]

  pub Window-later :
      (b stop stop' : ℕ) (entries : ℕ → Entry)
      → stop ≤ stop'
      → Window b stop entries
      → Window b stop' entries
  Window-later b stop stop' entries h w x lo hi =
      let e = entries (idx size c x) in CellOf-later stop stop' x e.unit e.status h (w x lo hi)

  pub inc_pos-idx : (x : ℕ) → inc_pos size (idx size c x) 1 ≡ idx size c (x + 1)
  unfolding inc_pos
  inc_pos-idx x = idx_forward size c x 1

-- An entry with a unit is available, and below the end.
pub has_unit-avail :
    (stop x : ℕ) (e : Entry)
    → Cell stop x e
    → has_unit e ≡ true
    → (is_avail e.status ≡ true) × (x < stop)
has_unit-avail stop x e w h = elim (Option-cases e.unit) [
  | inl q ↦ absurd (ground (arith, q, h))
  | inr (u, q) ↦ let (s, n, l) = CellOf-some stop x e.unit e.status u w q in (ap is_avail s, l)
]

-- What is not empty is below the end, and what is empty has no unit.
CellOf-below :
    (stop x : ℕ) (o : Option RcvUnit) (s : EntryStatus)
    → CellOf stop x o s
    → is_empty s ≡ false
    → x < stop
CellOf-below stop x (some u) s w h = w.2
CellOf-below stop x none empty w h = ground (arith, h)
CellOf-below stop x none avail w h = absurd w
CellOf-below stop x none read w h = w
CellOf-below stop x none drop w h = w

pub not_empty-below :
    (stop x : ℕ) (e : Entry) → Cell stop x e → is_empty e.status ≡ false → x < stop
not_empty-below stop x e w h = CellOf-below stop x e.unit e.status w h

CellOf-vacant :
    (stop x : ℕ) (o : Option RcvUnit) (s : EntryStatus)
    → CellOf stop x o s
    → is_empty s ≡ true
    → o ≡ none
CellOf-vacant stop x (some u) s w h = absurd (ground (arith, h, ap is_empty w.0))
CellOf-vacant stop x none s w h = refl

pub empty-no_unit :
    (stop x : ℕ) (e : Entry) → Cell stop x e → is_empty e.status ≡ true → has_unit e ≡ false
empty-no_unit stop x e w h = let q = CellOf-vacant stop x e.unit e.status w h in rw q refl
