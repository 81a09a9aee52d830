-- ===== src/RcvBuffer/Drop/UpTo.antt =====
-- What `dropUpTo` keeps and drops.
use srtplay.Base.{
  ℕ, ◌+◌, ◌-◌, ◌≤◌, ◌<◌, ◌≡◌, refl, ap, ◌∙◌, subst, arith, true, false, some, not, ◌&&◌, ◌==◌,
  Bool-cases, inl, inr,
}
use srtplay.Base.Int.{pos, sub_ℕ}
use srtplay.Base.Ring.{idx}
use srtplay.SeqNo.{seqoff}
use srtplay.SeqNo.Unwrapped.{seq_of, seqoff-seq_of, Near}
use srtplay.RcvBuffer.{RcvBuffer, is_filler, release_fillers}
use srtplay.RcvBuffer.Position.{update_nonread_pos}
use srtplay.RcvBuffer.Valid.{Window-later}
use srtplay.RcvBuffer.Advance.{Started, Released, release_fillers-Released}
use srtplay.RcvBuffer.Messages.{done}
use srtplay.RcvBuffer.Invariant.{
  Valid, Updated, update_nonread_pos-Valid, update_nonread_pos-entries,
}
use srtplay.RcvBuffer.Drop.{drop_first_n, move_start, drop_up_to}
use srtplay.RcvBuffer.Drop.First.{Left, drop_first_n-Left}

-- What `dropUpTo` the packet at `s` leaves: the window starts there, or behind the fillers that follow; what
-- it holds was there before, and what can be read in order is up to date.
pub record DroppedTo (size c b s : ℕ) (r r' : RcvBuffer) : Type 0 where
  pub begin : ℕ
  pub begin-le : s ≤ begin
  pub fillers : (x : ℕ) → s ≤ x → x < begin → is_filler (r.entries (idx size c x)).status ≡ true
  pub kept :
      (x : ℕ) → begin ≤ x → x < b + size → r'.entries (idx size c x) ≡ r.entries (idx size c x)
  pub updated : Updated size c begin begin r'

update_nonread_pos-mode :
    (size : ℕ) (r : RcvBuffer)
    → ((update_nonread_pos size r).tsbpd ≡ r.tsbpd)
      × ((update_nonread_pos size r).message_api ≡ r.message_api)
unfolding update_nonread_pos
update_nonread_pos-mode size r = elim (Bool-cases (r.max_pos_inc == 0)) [
  | inl q ↦ rw q (refl, refl)
  | inr q ↦ rw q (refl, refl)
]

module _ (size c b n s : ℕ) (r : RcvBuffer) (v : Valid size c b n r) (ahead : b < s) where
  abbrev moved : RcvBuffer
  moved = move_start size r (s - b) (seq_of s)

  abbrev emptied : RcvBuffer
  emptied = drop_first_n size (s - b) (record r { max_pos_inc = r.max_pos_inc - (s - b) })

  positive : 0 < size
  positive = let room = v.room in omega arith

  abbrev stop : ℕ
  stop = b + r.max_pos_inc

  emptied-Left :
      Left size c positive b s stop (record r { max_pos_inc = r.max_pos_inc - (s - b) }) emptied
  emptied-Left =
      subst
        (λ x.
          Left size c positive b x stop (record r { max_pos_inc = r.max_pos_inc - (s - b) })
            emptied)
        (omega arith)
        (drop_first_n-Left size c positive (s - b) b stop
          (record r { max_pos_inc = r.max_pos_inc - (s - b) }) v.start_eq v.cells)

  abbrev restarted : RcvBuffer
  restarted = record emptied { start_seq_no = seq_of s }

  restarted-Started : Started size c s restarted
  restarted-Started =
      let e = emptied-Left in
      let room = v.room in
      let less = e.same_inc in
      record {
        room = omega arith;
        start_eq = e.start_eq;
        seq_eq = refl;
        cells =
            Window-later size c s stop (s + restarted.max_pos_inc) restarted.entries (omega arith)
              e.cells;
      }

  restarted-Released :
      (b' : ℕ) × Released size c s b' restarted (release_fillers size size restarted)
  restarted-Released =
      let room = v.room in
      let less = emptied-Left.same_inc in
      release_fillers-Released size c size s restarted restarted-Started (omega arith)

  pub move_start-DroppedTo : DroppedTo size c b s r moved
  unfolding move_start
  move_start-DroppedTo =
      let (b', f) = restarted-Released in
      let e = emptied-Left in
      let released = release_fillers size size restarted in
      let st = f.started in
      let ready = record released { first_nonread_pos = released.start_pos } in
      let room = v.room in
      let valid : Valid size c b' b' ready = record {
        room = st.room;
        start_eq = st.start_eq;
        seq_eq = st.seq_eq;
        cells = st.cells;
        nonread_eq = st.start_eq;
        n-le = omega arith;
        messages = done;
      } in
      let bound = f.same_end in
      let less = e.same_inc in
      let entries = update_nonread_pos-entries size ready in
      record {
        begin = b';
        begin-le = f.start-le;
        fillers = λ x h l.
            subst (λ z. is_filler z.status ≡ true) (e.kept x h (omega arith)) (f.skipped x h l);
        kept = λ x h l.
            ap (λ z. z (idx size c x)) entries
            ∙ f.kept x h (omega arith)
            ∙ e.kept x (omega (arith, f.start-le)) l;
        updated = update_nonread_pos-Valid size c b' b' ready valid;
      }

  moved-modes : (moved.tsbpd.tsbpd_mode ≡ r.tsbpd.tsbpd_mode) × (moved.message_api ≡ r.message_api)
  unfolding move_start
  moved-modes =
      let (b', f) = restarted-Released in
      let released = release_fillers size size restarted in
      let (mode, api) =
        update_nonread_pos-mode size (record released { first_nonread_pos = released.start_pos }) in
      (
        ap (λ t. t.tsbpd_mode) (mode ∙ f.same_tsbpd) ∙ emptied-Left.same_mode,
        api ∙ f.same_api ∙ emptied-Left.same_api,
      )

-- A drop up to the packet at `s`, where the search out of order is not made.
pub drop_up_to-DroppedTo :
    (size c b n s : ℕ) (r : RcvBuffer)
    → Valid size c b n r
    → Near b s
    → (not r.tsbpd.tsbpd_mode && r.message_api) ≡ false
    → (s ≤ b → drop_up_to size r (seq_of s) ≡ some (0, r))
      × (b < s
          → (r' : RcvBuffer) × (drop_up_to size r (seq_of s) ≡ some (s - b, r'))
            × DroppedTo size c b s r r')
unfolding drop_up_to
drop_up_to-DroppedTo size c b n s r v near in_order =
    let off : seqoff r.start_seq_no (seq_of s) ≡ sub_ℕ s b =
      ap (λ z. seqoff z (seq_of s)) v.seq_eq ∙ seqoff-seq_of b s near in
    (
      λ h. rw off (ground (arith, h)),
      λ h.
          let (mode, api) = moved-modes size c b n s r v h in
          let forward : seqoff r.start_seq_no (seq_of s) ≡ pos (s - b) = off ∙ ground (arith, h) in
          (
            moved size c b n s r v h,
            rw (forward, mode, api, in_order) (ground (arith, h)),
            move_start-DroppedTo size c b n s r v h,
          ),
    )
