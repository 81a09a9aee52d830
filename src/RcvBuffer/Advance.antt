-- ===== src/RcvBuffer/Advance.antt =====
-- How the start of the receiver buffer moves over entries: the loop over fillers
-- (`releaseNextFillerEntries`) and that of a drop.
use srtplay.Base.{
  ℕ, zero, suc, ◌+◌, ◌-◌, ◌≤◌, ◌<◌, ◌≡◌, refl, sym, ap, ◌∙◌, subst, arith, true, false, Option,
  none, some, ℕ_discrete, Bool-cases, inl, inr, update,
}
use srtplay.Base.Ring.{idx}
use srtplay.SeqNo.{incseq}
use srtplay.SeqNo.Unwrapped.{seq_of, incseq-seq_of}
use srtplay.RcvBuffer.{
  RcvBuffer, RcvUnit, EntryStatus, no_entry, is_filler, inc_pos, release_filler, release_fillers,
  release_unit_in_pos, empty, avail, read, drop,
}
use srtplay.RcvBuffer.Valid.{
  CellOf, Window, Window-advance, Window-later, inc_pos-idx, update-other,
}

CellOf-filler :
    (stop x : ℕ) (o : Option RcvUnit) (s : EntryStatus)
    → CellOf stop x o s
    → is_filler s ≡ true
    → x < stop
CellOf-filler stop x (some u) s w h = w.2
CellOf-filler stop x none empty w h = ground (arith, h)
CellOf-filler stop x none avail w h = absurd w
CellOf-filler stop x none read w h = w
CellOf-filler stop x none drop w h = w

module _ (size c : ℕ) where
  -- The window, without what can be read.
  pub record Started (b : ℕ) (r : RcvBuffer) : Type 0 where
    pub room : r.max_pos_inc < size
    pub start_eq : r.start_pos ≡ idx size c b
    pub seq_eq : r.start_seq_no ≡ seq_of b
    pub cells : Window size c b (b + r.max_pos_inc) r.entries

  pub filler-below :
      (b : ℕ) (r : RcvBuffer)
      → Started b r
      → is_filler (r.entries r.start_pos).status ≡ true
      → 0 < r.max_pos_inc
  filler-below b r v h =
      let room = v.room in
      let e = r.entries (idx size c b) in
      let h' = subst (λ i. is_filler (r.entries i).status ≡ true) v.start_eq h in
      omega (
        arith,
        CellOf-filler (b + r.max_pos_inc) b e.unit e.status (v.cells b (omega arith) (omega arith))
            h',
      )

  release_filler-Started :
      (b : ℕ) (r : RcvBuffer) → Started b r → Started (b + 1) (release_filler size r)
  unfolding release_filler release_unit_in_pos
  release_filler-Started b r v =
      let room = v.room in
      record {
        room = omega arith;
        start_eq = ap (λ i. inc_pos size i 1) v.start_eq ∙ inc_pos-idx size c b;
        seq_eq = ap incseq v.seq_eq ∙ incseq-seq_of b;
        cells = rw v.start_eq (
            Window-later size c (b + 1) (b + r.max_pos_inc) (b + 1 + (r.max_pos_inc - 1))
              (update r.entries (idx size c b) no_entry) (omega arith)
              (Window-advance size c b (b + r.max_pos_inc) r.entries (omega arith) v.cells));
      }

  -- The start went from `b` to `b'` over fillers, and what follows is as it was.
  pub record Released (b b' : ℕ) (r r' : RcvBuffer) : Type 0 where
    pub started : Started b' r'
    pub start-le : b ≤ b'
    pub same_end : b' + r'.max_pos_inc ≡ b + r.max_pos_inc
    pub skipped : (x : ℕ) → b ≤ x → x < b' → is_filler (r.entries (idx size c x)).status ≡ true
    pub kept :
        (x : ℕ) → b' ≤ x → x < b + size → r'.entries (idx size c x) ≡ r.entries (idx size c x)
    pub stops : is_filler (r'.entries (idx size c b')).status ≡ false
    pub same_api : r'.message_api ≡ r.message_api
    pub same_nonread : r'.first_nonread_pos ≡ r.first_nonread_pos
    pub same_tsbpd : r'.tsbpd ≡ r.tsbpd
    pub same_notch : r'.notch ≡ r.notch

  release_filler-kept :
      (b x : ℕ) (r : RcvBuffer)
      → Started b r
      → b < x
      → x < b + size
      → (release_filler size r).entries (idx size c x) ≡ r.entries (idx size c x)
  unfolding release_filler release_unit_in_pos
  release_filler-kept b x r v h l = rw v.start_eq (
      update-other size c b x b r.entries no_entry (omega arith) l (omega arith) (omega arith)
        (omega arith))

  release_filler-frame :
      (r : RcvBuffer)
      → ((release_filler size r).max_pos_inc ≡ r.max_pos_inc - 1)
        × ((release_filler size r).message_api ≡ r.message_api)
        × ((release_filler size r).first_nonread_pos ≡ r.first_nonread_pos)
        × ((release_filler size r).tsbpd ≡ r.tsbpd)
        × ((release_filler size r).notch ≡ r.notch)
  unfolding release_filler release_unit_in_pos
  release_filler-frame r = (refl, refl, refl, refl, refl)

  -- One entry more at the start.
  Released-next :
      (b b' : ℕ) (r r' : RcvBuffer)
      → Started b r
      → is_filler (r.entries r.start_pos).status ≡ true
      → Released (b + 1) b' (release_filler size r) r'
      → Released b b' r r'
  Released-next b b' r r' v q s =
      let (less, api, nonread, mode, cut) = release_filler-frame r in
      let some_left = filler-below b r v q in
      let ordered = s.start-le in
      record {
        started = s.started;
        start-le = omega arith;
        same_end = omega (arith, s.same_end, less);
        skipped = λ x h l. elim (ℕ_discrete x b) [
          | yes e ↦
              subst (λ i. is_filler (r.entries i).status ≡ true)
                (v.start_eq ∙ ap (idx size c) (sym e)) q
          | no ne ↦
              let inside : x < b + size = omega (arith, s.same_end, less, v.room) in
              subst (λ e. is_filler e.status ≡ true)
                (release_filler-kept b x r v (omega arith) inside) (s.skipped x (omega arith) l)
        ];
        kept = λ x h l. s.kept x h (omega arith) ∙ release_filler-kept b x r v (omega arith) l;
        stops = s.stops;
        same_api = s.same_api ∙ api;
        same_nonread = s.same_nonread ∙ nonread;
        same_tsbpd = s.same_tsbpd ∙ mode;
        same_notch = s.same_notch ∙ cut;
      }

  pub release_fillers-Released :
      (rounds b : ℕ) (r : RcvBuffer)
      → Started b r
      → r.max_pos_inc < rounds
      → (b' : ℕ) × Released b b' r (release_fillers size rounds r)
  unfolding release_fillers
  release_fillers-Released zero b r v enough = absurd (omega arith)
  release_fillers-Released (suc rounds) b r v enough =
      elim (Bool-cases (is_filler (r.entries r.start_pos).status)) [
        | inr q ↦ rw q (
          b,
          record {
            started = v;
            start-le = omega arith;
            same_end = refl;
            skipped = λ x h l. absurd (omega arith);
            kept = λ x h l. refl;
            stops = ap (λ i. is_filler (r.entries i).status) (sym v.start_eq) ∙ q;
            same_api = refl;
            same_nonread = refl;
            same_tsbpd = refl;
            same_notch = refl;
          },
        )
        | inl q ↦
            let less = (release_filler-frame r).0 in
            let some_left = filler-below b r v q in
            let (b', s) =
              release_fillers-Released rounds (b + 1) (release_filler size r)
                (release_filler-Started b r v) (omega arith) in
            rw q
              (b', Released-next b b' r (release_fillers size rounds (release_filler size r)) v q s)
      ]
