-- ===== src/RcvBuffer/Invariant.antt =====
-- The invariant of the receiver buffer. The window starts at the position `b`, and what can be read in order
-- ends at `n`.
use srtplay.Base.{
  ℕ, ◌+◌, ◌≤◌, ◌<◌, ◌≡◌, refl, sym, ap, ap₂, ◌∙◌, subst, arith, Bool, true, false, Option, ==_iff,
  ◌==◌, if◌then◌else◌, Bool-cases, inl, inr,
}
use srtplay.Base.Ring.{idx, idx_forward}
use srtplay.SeqNo.Unwrapped.{seq_of}
use srtplay.TsbpdTime.{TsbpdTime, update_tsbpd_time_base}
use srtplay.UnitQueue.{UnitQueue}
use srtplay.RcvBuffer.{RcvBuffer, inc_pos, has_unit}
use srtplay.RcvBuffer.Position.{update_nonread_pos, nonread_from}
use srtplay.RcvBuffer.Valid.{Window}
use srtplay.RcvBuffer.Messages.{Whole, Messages, Messages-append, Messages-le}
use srtplay.RcvBuffer.Nonread.{nonread_from-Messages, entry-stop, no_unit}

module _ (size c : ℕ) where
  pub record Valid (b n : ℕ) (r : RcvBuffer) : Type 0 where
    pub room : r.max_pos_inc < size
    pub start_eq : r.start_pos ≡ idx size c b
    pub seq_eq : r.start_seq_no ≡ seq_of b
    pub cells : Window size c b (b + r.max_pos_inc) r.entries
    pub nonread_eq : r.first_nonread_pos ≡ idx size c n
    pub n-le : n ≤ b + r.max_pos_inc
    pub messages : Messages size c r.message_api r.entries b n

  -- No message that is there starts at `n`.
  abbrev pub Maximal : RcvBuffer → ℕ → Type 0
  Maximal r n = (y : ℕ) → ¬ Whole size c r.message_api r.entries n y

  -- The messages that can be read in order are all there are.
  abbrev pub Updated : ℕ → ℕ → RcvBuffer → Type 0
  Updated b n r = (n' : ℕ) × (n ≤ n') × Valid b n' r × Maximal r n'

  pub inc_pos-forward : (x d : ℕ) → inc_pos size (idx size c x) d ≡ idx size c (x + d)
  unfolding inc_pos
  inc_pos-forward x d = idx_forward size c x d

  pub update_nonread_pos-Valid :
      (b n : ℕ) (r : RcvBuffer) → Valid b n r → Updated b n (update_nonread_pos size r)
  unfolding update_nonread_pos
  update_nonread_pos-Valid b n r v =
      let room = v.room in
      let bound = v.n-le in
      let behind = Messages-le size c r.message_api r.entries b n v.messages in
      let stop = b + r.max_pos_inc in
      elim (Bool-cases (r.max_pos_inc == 0)) [
        | inl q ↦
            let at_end : stop ≡ n = omega (arith, (==_iff r.max_pos_inc 0).0 q) in
            let missing = entry-stop size c r b stop v.cells (omega arith) (omega arith) in
            rw q (
              n,
              omega arith,
              v,
              no_unit size c r b stop v.cells (omega arith) n
                  (subst (λ x. has_unit (r.entries (idx size c x)) ≡ false) at_end missing),
            )
        | inr q ↦
            let (m, e, ms, below, last) =
              nonread_from-Messages size c r b stop v.cells (omega arith) size n behind bound
                (omega arith) in
            let end_eq =
              ap (λ i. inc_pos size i r.max_pos_inc) v.start_eq ∙ inc_pos-forward b r.max_pos_inc in
            rw q (
              m,
              Messages-le size c r.message_api r.entries n m ms,
              record {
                room = room;
                start_eq = v.start_eq;
                seq_eq = v.seq_eq;
                cells = v.cells;
                nonread_eq = ap₂ (nonread_from size size r) end_eq v.nonread_eq ∙ e;
                n-le = below;
                messages = Messages-append size c r.message_api r.entries b n m v.messages ms;
              },
              last,
            )
      ]

-- What the window does not depend on may have changed: the time base, but not the mode; the
-- search out of order; the units' queue.
abbrev pub Framed : RcvBuffer → RcvBuffer → Type 0
Framed b b' =
    (t : TsbpdTime) × (k : ℕ) × (o : Option ℕ) × (q : UnitQueue) × (t.tsbpd_mode
      ≡ b.tsbpd.tsbpd_mode)
    × (b' ≡ record b {
      tsbpd = t;
      num_out_of_order_packets = k;
      first_readable_out_of_order = o;
      unit_queue = q;
    })

pub Framed-self : (b : RcvBuffer) → Framed b b
Framed-self b =
    (b.tsbpd, b.num_out_of_order_packets, b.first_readable_out_of_order, b.unit_queue, refl, refl)

pub Framed-if :
    (b x y : RcvBuffer) (t : Bool) → Framed b x → Framed b y → Framed b (if t then x else y)
Framed-if b x y true f g = f
Framed-if b x y false f g = g

pub Valid-Framed :
    (size c b n : ℕ) (r r' : RcvBuffer) → Framed r r' → Valid size c b n r → Valid size c b n r'
Valid-Framed size c b n r r' (t, k, o, q, m, e) v = subst (Valid size c b n) (sym e) (record {
  room = v.room;
  start_eq = v.start_eq;
  seq_eq = v.seq_eq;
  cells = v.cells;
  nonread_eq = v.nonread_eq;
  n-le = v.n-le;
  messages = v.messages;
})

pub update_nonread_pos-entries :
    (size : ℕ) (r : RcvBuffer) → (update_nonread_pos size r).entries ≡ r.entries
unfolding update_nonread_pos
update_nonread_pos-entries size r = elim (Bool-cases (r.max_pos_inc == 0)) [
  | inl q ↦ rw q refl
  | inr q ↦ rw q refl
]

pub update_tsbpd_time_base-mode :
    (t : TsbpdTime) (stamp : ℕ) → (update_tsbpd_time_base t stamp).tsbpd_mode ≡ t.tsbpd_mode
unfolding update_tsbpd_time_base
update_tsbpd_time_base-mode t stamp = ground arith
