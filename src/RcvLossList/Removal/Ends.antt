-- ===== src/RcvLossList/Removal/Ends.antt =====
-- The links and the ends of the list round a node that replaces another.
use srtplay.Base.{
  ℕ, ◌≡◌, ◌≢◌, refl, sym, ◌∙◌, arith, ◌==◌, if◌then◌else◌, [], ◌∷◌, Option, none, some, some_inj,
  true, false,
}
use srtplay.RcvLossList.{Node, link_prior, link_next}
use srtplay.RcvLossList.Ranges.{Ranges}
use srtplay.RcvLossList.Repr.{idx, first_idx, last_idx, Unused, last_some, last-ne}
use srtplay.RcvLossList.Links.{set_next, set_prior}

module _ (size c : ℕ) (nodes : ℕ → Node) (loc i : ℕ) where
  -- In front: the last of `ps` points to the new place `i`, or the head does.
  pub prior_link :
      (ps : Ranges) (head : Option ℕ) (h : ℕ)
      → Unused size c loc ps
      → head ≡ some h
      → head ≡ first_idx size c ps (some loc)
      → (link_prior nodes (h == loc) (last_idx size c none ps) i
          ≡ some (set_next nodes (last_idx size c none ps) (some i)))
        × ((if h == loc then some i else head) ≡ first_idx size c ps (some i))
  prior_link [] head h u e f =
      let at : h ≡ loc = some_inj (sym e ∙ f) in
      let yes_head : (h == loc) ≡ true = ground arith in rw yes_head (refl, refl)
  prior_link ((lo, hi) ∷ ps) head h u e f =
      let at : h ≡ idx size c lo = some_inj (sym e ∙ f) in
      let apart : loc ≢ idx size c lo = u.0 in
      let no_head : (h == loc) ≡ false = ground arith in
      let (p, ep) = last_some size c (idx size c lo) ps in rw (no_head, ep) (refl, f)

  -- Behind: the first of `qs` points back to it, or the tail does.
  pub next_link :
      (qs : Ranges) (tail : Option ℕ) (t : ℕ)
      → Unused size c loc qs
      → tail ≡ some t
      → tail ≡ last_idx size c (some loc) qs
      → (link_next nodes (t == loc) (first_idx size c qs none) i
          ≡ some (set_prior nodes (first_idx size c qs none) (some i)))
        × ((if t == loc then some i else tail) ≡ last_idx size c (some i) qs)
  next_link [] tail t u e f =
      let at : t ≡ loc = some_inj (sym e ∙ f) in
      let yes_tail : (t == loc) ≡ true = ground arith in rw yes_tail (refl, refl)
  next_link ((lo, hi) ∷ qs) tail t u e f =
      let apart : t ≢ loc =
        last-ne size c (idx size c lo) loc t qs (λ q. u.0 (sym q)) u.1 (sym f ∙ e) in
      let no_tail : (t == loc) ≡ false = ground arith in rw no_tail (refl, f)
