-- ===== src/SndBuffer/Fill.antt =====
-- The loop of `addBuffer` that fills the blocks with the packets of a message.
use srtplay.Base.{
  ℕ, zero, suc, ◌+◌, ◌<◌, ◌≡◌, refl, sym, ap, ap₂, ◌∙◌, arith, update, update_self, update_ne,
  ℕ_discrete, List, ◌∷◌,
}
use srtplay.SeqNo.{incseq}
use srtplay.SndBuffer.{Block, SndBuffer, MsgCtrl, next_of, packet_block, fill}
use srtplay.SndBuffer.Ring.{Ring}
use srtplay.SndBuffer.Holds.{packet, listing}
use srtplay.SndBuffer.Message.{message}

-- The number behind so many.
abbrev pub incseq_times : ℕ → ℕ → ℕ
incseq_times zero seqno = seqno
incseq_times (suc n) seqno = incseq_times n (incseq seqno)

pub Ring-same :
    (size : ℕ) (next next' at : ℕ → ℕ)
    → ((i : ℕ) → next' i ≡ next i)
    → Ring size next at
    → Ring size next' at
Ring-same size next next' at same r = record {
  linked = λ j lt. same (at j) ∙ r.linked j lt;
  closed = r.closed;
  apart = r.apart;
}

-- What `fill` leaves: only the blocks behind the first `c` differ, and have the packets of the message.
pub record Filled (b : SndBuffer) (at : ℕ → ℕ) (c rest : ℕ) (packets : List Block)
    (nodes : ℕ → Block) : Type 0 where
  pub links : (i : ℕ) → (nodes i).next ≡ next_of b i
  pub before : (j : ℕ) → j < c → nodes (at j) ≡ b.blocks (at j)
  pub written : listing nodes at c rest ≡ packets

module _ (bytes : List ℕ) (ctrl : MsgCtrl) (size : ℕ) (at : ℕ → ℕ) where
  abbrev one : SndBuffer → ℕ → ℕ → ℕ → SndBuffer
  one b i c seqno = record b {
    blocks = update b.blocks (at c) (packet_block b bytes ctrl size i seqno (next_of b (at c)));
  }

  one-links : (b : SndBuffer) (i c seqno s : ℕ) → next_of (one b i c seqno) s ≡ next_of b s
  unfolding packet_block
  one-links b i c seqno s = elim (ℕ_discrete s (at c)) [
    | yes e ↦
        let x = packet_block b bytes ctrl size i seqno (next_of b (at c)) in
        ap (λ k. (update b.blocks (at c) x k).next) e
        ∙ ap (λ (n : Block). n.next) (update_self b.blocks (at c) x)
        ∙ ap (next_of b) (sym e)
    | no ne ↦
        ap (λ (n : Block). n.next)
          (update_ne b.blocks (at c) s (packet_block b bytes ctrl size i seqno (next_of b (at c)))
            ne)
  ]

  pub fill-Filled :
      (rest : ℕ) (b : SndBuffer) (i c seqno : ℕ)
      → Ring b.size (next_of b) at
      → c + rest < b.size
      → (nodes : ℕ → Block) × (fill rest b bytes ctrl size i (at c) seqno
          ≡ (record b { blocks = nodes }, at (c + rest), incseq_times rest seqno))
        × Filled b at c rest
            (message b.mss b.next_msg_no b.last_origin_time bytes ctrl size i seqno rest)
            nodes
  unfolding fill packet_block
  fill-Filled zero b i c seqno r lt = (
    b.blocks,
    ap (λ k. (b, at k, seqno)) {x = c} {y = c + 0} (omega arith),
    record { links = λ s. refl; before = λ j j_lt. refl; written = refl },
  )
  fill-Filled (suc rest) b i c seqno r lt =
      let b1 = one b i c seqno in
      let x = packet_block b bytes ctrl size i seqno (next_of b (at c)) in
      let ring = Ring-same b.size (next_of b) (next_of b1) at (one-links b i c seqno) r in
      let (nodes, run, f) =
        fill-Filled rest b1 (i + 1) (c + 1) (incseq seqno) ring (omega (arith, lt)) in
      let here : nodes (at c) ≡ x = f.before c (omega arith) ∙ update_self b.blocks (at c) x in
      (
        nodes,
        ap (λ s. fill rest b1 bytes ctrl size (i + 1) s (incseq seqno))
              (r.linked c (omega (arith, lt)))
            ∙ run
            ∙ ap (λ k. (record b { blocks = nodes }, at k, incseq_times rest (incseq seqno)))
                {x = c + 1 + rest} {y = c + suc rest} (omega arith),
        record {
          links = λ s. f.links s ∙ one-links b i c seqno s;
          before = λ j j_lt.
              f.before j (omega (arith, j_lt))
              ∙ update_ne b.blocks (at c) (at j) x (r.apart j c j_lt (omega (arith, lt)));
          written = ap₂ ◌∷◌ (ap packet here) f.written;
        },
      )
