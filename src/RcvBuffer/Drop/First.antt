-- ===== src/RcvBuffer/Drop/First.antt =====
-- One step of the loop of `dropUpTo`, and the loop.
use srtplay.Base.{
  ℕ, zero, suc, ◌+◌, ◌≤◌, ◌<◌, ◌≡◌, refl, ap, ◌∙◌, subst, arith, true, false, none, some, not, ◌&&◌,
  ◌==◌, Bool-cases, Option-cases, inl, inr, update, update_self,
}
use mathlib.Core.Path.{fun_ext}
use srtplay.Base.Ring.{idx}
use srtplay.UnitQueue.{make_unit_free}
use srtplay.Packet.{get_msg_order_flag}
use srtplay.RcvBuffer.{
  RcvBuffer, RcvUnit, Entry, no_entry, inc_pos, release_unit_in_pos, drop_unit_in_pos, note_drop,
  empty,
}
use srtplay.RcvBuffer.Valid.{Window, Window-advance, inc_pos-idx, update-other}
use srtplay.RcvBuffer.Invariant.{Framed, Framed-self, Framed-if, update_tsbpd_time_base-mode}
use srtplay.RcvBuffer.Drop.{drop_first, drop_first_n}

note_drop-Framed : (r : RcvBuffer) (i : ℕ) (u : RcvUnit) → Framed r (note_drop r i u)
unfolding note_drop
note_drop-Framed r i u =
    Framed-if r _ _ r.tsbpd.tsbpd_mode
      (
        _,
        r.num_out_of_order_packets,
        r.first_readable_out_of_order,
        r.unit_queue,
        update_tsbpd_time_base-mode r.tsbpd u.packet.time_stamp,
        refl,
      )
      (Framed-if r _ r (r.message_api && not (get_msg_order_flag u.packet))
        (r.tsbpd, _, _, r.unit_queue, refl, refl) (Framed-self r))

drop_unit-none :
    (r : RcvBuffer) (i : ℕ) → (r.entries i).unit ≡ none → drop_unit_in_pos r i ≡ (false, r)
unfolding drop_unit_in_pos
drop_unit-none r i q = rw (drop_unit_in_pos, q) refl

drop_unit-some :
    (r : RcvBuffer) (i : ℕ) (u : RcvUnit)
    → (r.entries i).unit ≡ some u
    → drop_unit_in_pos r i ≡ (true, release_unit_in_pos (note_drop r i u) i)
unfolding drop_unit_in_pos
drop_unit-some r i u q = rw (drop_unit_in_pos, q) refl

-- The entry at `i` with the status `empty`, where it has no unit or was emptied.
update-empty :
    (f : ℕ → Entry) (i : ℕ)
    → (f i).unit ≡ none
    → update f i (record (f i) { status = empty }) ≡ update f i no_entry
update-empty f i q = ap (update f i) (rw q refl)

update_twice :
    (f : ℕ → Entry) (i : ℕ) → update (update f i no_entry) i no_entry ≡ update f i no_entry
unfolding update
update_twice f i =
    fun_ext (λ j. elim (Bool-cases (j == i)) [ inl q ↦ rw q refl | inr q ↦ rw q refl ])

-- A drop leaves the entry empty, whatever was in it.
abbrev dropped : ℕ → RcvBuffer → RcvBuffer
dropped size r = record r {
  entries = update r.entries r.start_pos no_entry;
  start_pos = inc_pos size r.start_pos 1;
}

drop_first-Framed : (size : ℕ) (r : RcvBuffer) → Framed (dropped size r) (drop_first size r)
unfolding drop_first release_unit_in_pos
drop_first-Framed size r = elim (Option-cases (r.entries r.start_pos).unit) [
  | inl q ↦ rw (drop_unit-none r r.start_pos q) (
    r.tsbpd,
    r.num_out_of_order_packets,
    r.first_readable_out_of_order,
    r.unit_queue,
    refl,
    ap (λ es. record r { entries = es; start_pos = inc_pos size r.start_pos 1 })
        (update-empty r.entries r.start_pos q),
  )
  | inr (u, q) ↦
      let (t, k, o, qu, m, e) = note_drop-Framed r r.start_pos u in
      let first = r.start_pos in
      rw (drop_unit-some r first u q, e)
        (
          t,
          k,
          o,
          elim (r.entries first).unit [ none ↦ qu | some u' ↦ make_unit_free qu u'.unit_id ],
          m,
          ap
              (λ es.
                record (release_unit_in_pos
                  (record r {
                    tsbpd = t;
                    num_out_of_order_packets = k;
                    first_readable_out_of_order = o;
                    unit_queue = qu;
                  })
                  first) { entries = es; start_pos = inc_pos size first 1 })
              (update-empty (update r.entries first no_entry) first
                  (ap (λ z. z.unit) (update_self r.entries first no_entry))
                ∙ update_twice r.entries first),
        )
]

module _ (size c : ℕ) (positive : 0 < size) where
  -- What is left behind the drop of all entries from `b` to `b'`.
  pub record Left (b b' stop : ℕ) (r r' : RcvBuffer) : Type 0 where
    pub start_eq : r'.start_pos ≡ idx size c b'
    pub cells : Window size c b' stop r'.entries
    pub kept :
        (x : ℕ) → b' ≤ x → x < b + size → r'.entries (idx size c x) ≡ r.entries (idx size c x)
    pub same_inc : r'.max_pos_inc ≡ r.max_pos_inc
    pub same_api : r'.message_api ≡ r.message_api
    pub same_mode : r'.tsbpd.tsbpd_mode ≡ r.tsbpd.tsbpd_mode

  drop_first-Left :
      (b stop : ℕ) (r : RcvBuffer)
      → r.start_pos ≡ idx size c b
      → Window size c b stop r.entries
      → Left b (b + 1) stop r (drop_first size r)
  drop_first-Left b stop r at w =
      let (t, k, o, q, m, e) = drop_first-Framed size r in
      rw (e) (record {
        start_eq = ap (λ i. inc_pos size i 1) at ∙ inc_pos-idx size c b;
        cells = rw at (Window-advance size c b stop r.entries positive w);
        kept = λ x h l. rw at (
            update-other size c b x b r.entries no_entry (omega arith) l (omega arith) (omega arith)
              (omega arith));
        same_inc = refl;
        same_api = refl;
        same_mode = m;
      })

  pub drop_first_n-Left :
      (len b stop : ℕ) (r : RcvBuffer)
      → r.start_pos ≡ idx size c b
      → Window size c b stop r.entries
      → Left b (b + len) stop r (drop_first_n size len r)
  unfolding drop_first_n
  drop_first_n-Left zero b stop r at w = record {
    start_eq = at ∙ ap (idx size c) (omega arith);
    cells = subst (λ x. Window size c x stop r.entries) (omega arith) w;
    kept = λ x h l. refl;
    same_inc = refl;
    same_api = refl;
    same_mode = refl;
  }
  drop_first_n-Left (suc len) b stop r at w =
      let one = drop_first-Left b stop r at w in
      let rest = drop_first_n-Left len (b + 1) stop (drop_first size r) one.start_eq one.cells in
      record {
        start_eq = rest.start_eq ∙ ap (idx size c) (omega arith);
        cells =
            subst (λ x. Window size c x stop (drop_first_n size len (drop_first size r)).entries)
              (omega arith) rest.cells;
        kept = λ x h l. rest.kept x (omega arith) (omega arith) ∙ one.kept x (omega arith) l;
        same_inc = rest.same_inc ∙ one.same_inc;
        same_api = rest.same_api ∙ one.same_api;
        same_mode = rest.same_mode ∙ one.same_mode;
      }
