-- ===== src/RcvLossList/Insertion/Next.antt =====
-- The insertion of a range behind all others, into a list with ranges or without.
use srtplay.Base.{
  ℕ, ◌+◌, ◌-◌, ◌%◌, ◌≤◌, ◌<◌, ◌≡◌, refl, sym, ap, ◌∙◌, subst, arith, ltb, ◌==◌, ◌&&◌, if◌then◌else◌,
  false, [], ◌∷◌, ◌++◌, Option, none, some, update_self, update_ne,
}
use srtplay.Base.Int.{pos, pos_part, ltb_ℤ, sub_ℕ}
use srtplay.SeqNo.Unwrapped.{seq_of, seqoff-seq_of, seqlen-seq_of}
use srtplay.RcvLossList.{RcvLossList, extend_node, append_node, insert_first, insert_next}
use srtplay.RcvLossList.Ranges.{Ranges, Below, Below-split}
use srtplay.RcvLossList.Repr.{idx, idx_forward, idx_reset, last_idx-append, Linked, Repr, IsFree}
use srtplay.RcvLossList.Insertion.{joined}
use srtplay.RcvLossList.Insertion.Extend.{end_or_new}
use srtplay.RcvLossList.Insertion.Tail.{inserted-Repr, next_eq, some_if, meets, added}

-- What an insertion has to result in; the array may lie in another way to the stream then.
abbrev pub Inserts : ℕ → ℕ → Ranges → Option ℕ → Option RcvLossList → Type 0
Inserts size b xs largest out =
    (l' : RcvLossList) × (out ≡ some l')
    × ((c' : ℕ) × Repr size c' b xs l')
    × (l'.largest_seq ≡ largest)

module _ (size c b : ℕ) (lo hi : ℕ) (range : lo ≤ hi) (from : b ≤ lo) (fits : hi < b + size)
    (near : hi < b + 0x3FFFFFFF) where
  pub in_next :
      (f : ℕ) (ps : Ranges) (a e : ℕ) (l : RcvLossList)
      → Repr size c b (ps ++ (a, e) ∷ []) l
      → Below lo (ps ++ (a, e) ∷ [])
      → l.head ≡ some (idx size c f)
      → (l.nodes (idx size c f)).seqstart ≡ some (seq_of f)
      → b ≤ f
      → f < lo
      → Inserts size b
          (joined lo hi (ps ++ (a, e) ∷ []))
          l.largest_seq
          (insert_next size l (seq_of lo) (seq_of hi))
  in_next f ps a e l r below eh es low behind =
      let t = idx size c a in
      let et = r.links.tail_eq ∙ last_idx-append size c none ps ((a, e) ∷ []) in
      let off = seqoff-seq_of f lo (omega arith) in
      let test = ltb a e && (e + 1 == lo) in
      let gap_below = (Below-split lo ps ((a, e) ∷ []) below).1.0 in
      let out = added size c b ps a e lo hi l r from range gap_below fits near test refl in
      let positive : ltb_ℤ (sub_ℕ lo f) (pos 0) ≡ false = ground arith in
      let distance : pos_part (sub_ℕ lo f) ≡ lo - f = ground arith in
      let place : (idx size c f + pos_part (sub_ℕ lo f)) % size ≡ idx size c lo =
        ap (λ d. (idx size c f + d) % size) distance
        ∙ idx_forward size c f (lo - f)
        ∙ ap (idx size c) (omega arith) in
      let l' =
        if test
        then extend_node l t (seq_of lo) (seq_of hi)
        else append_node l t (idx size c lo) (seq_of lo) (seq_of hi) in
      (
        l',
        next_eq size l (seq_of lo) (seq_of hi) (idx size c f) t (seq_of f) eh et es
            ∙ rw
                (
                  off,
                  positive,
                  place,
                  meets size c b ps a e lo hi l r from range gap_below fits near,
                )
                (some_if test _ _),
        (
          c,
          inserted-Repr size c b lo hi (ps ++ (a, e) ∷ []) l l' r from range below fits near
              out.count out.links,
        ),
        out.largest,
      )

  -- The array starts anew with the position `lo` at the place 0.
  restart : ℕ
  restart = size - lo % size

  first-Linked :
      (l : RcvLossList)
      → Repr size c b [] l
      → Linked size restart ((lo, hi) ∷ []) (insert_first l (seq_of lo) (seq_of hi))
  unfolding insert_first restart
  first-Linked l r =
      let place : idx size restart lo ≡ 0 = idx_reset size lo (omega arith) in
      let was_free = r.links.free 0 (omega arith) tt in
      record {
        seg = (
          ap (insert_first l (seq_of lo) (seq_of hi)).nodes place
              ∙ update_self l.nodes 0 _
              ∙ ap
                  (λ (z : Option ℕ). record {
                    seqstart = some (seq_of lo);
                    seqend = z;
                    inext = none;
                    iprior = none;
                  })
                  (end_or_new lo hi _ (omega arith) was_free.1),
          tt,
        );
        head_eq = ap some (sym place);
        tail_eq = ap some (sym place);
        free = λ i lt u.
            subst IsFree (sym (update_ne l.nodes 0 i _ (λ q. u.0 (q ∙ sym place))))
              (r.links.free i lt tt);
      }

  pub in_empty :
      (l : RcvLossList)
      → Repr size c b [] l
      → Inserts size b
          (joined lo hi [])
          l.largest_seq
          (some (insert_first l (seq_of lo) (seq_of hi)))
  unfolding insert_first joined
  in_empty l r =
      let old : Repr size restart b [] l = record {
        ordered = tt;
        fits = tt;
        near = tt;
        links = record {
          seg = tt;
          head_eq = r.links.head_eq;
          tail_eq = r.links.tail_eq;
          free = r.links.free;
        };
        count_eq = r.count_eq;
      } in
      let whole =
        inserted-Repr size restart b lo hi [] l _ old from range tt fits near
          (ap (λ z. l.length + z) (seqlen-seq_of lo hi (omega arith) range)) (first-Linked l r) in
      (insert_first l (seq_of lo) (seq_of hi), refl, (restart, whole), refl)
