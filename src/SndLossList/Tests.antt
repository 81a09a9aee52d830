-- ===== src/SndLossList/Tests.antt =====
-- A sender's list of sixteen places with the losses 5 to 7 and 10, and the theorems there.
use srtplay.Base.{◌≡◌, ◌≢◌, refl, arith, inl, inr, [], ◌∷◌, none, some, some_inj, update, ◌>>=◌}
use srtplay.Base.Int.{pos}
use srtplay.Base.Ring.{idx}
use srtplay.RcvLossList.Ranges.{Ranges}
use srtplay.SeqNo.Unwrapped.{seq_of}
use srtplay.SndLossList.{SndLossList, no_seq}
use srtplay.SndLossList.Removal.{pop_lost_seq, remove_up_to}
use srtplay.SndLossList.First.{pop_lost_seq-remove_up_to, remove_up_to_refines}
use srtplay.SndLossList.Pop.{seq_node, Represents, pop_lost_seq_refines}

abbrev losses : Ranges
losses = (5, 7) ∷ (10, 10) ∷ []

abbrev snd_list : SndLossList
snd_list = record {
  nodes = update (update (λ i. no_seq) 0 (seq_node 5 7 (some 5))) 5 (seq_node 10 10 none);
  head = some 0;
  length = pos 4;
  last_insert_pos = some 5;
}

snd_list-Represents : Represents 16 11 5 losses snd_list
unfolding update seq_of idx
snd_list-Represents = record {
  ordered = (omega arith, omega arith, (omega arith, omega arith, tt));
  fits = (omega arith, (omega arith, tt));
  near = (omega arith, (omega arith, tt));
  chain = (refl, (refl, tt));
  head_eq = refl;
  vacant = λ i lt u. let not_first : i ≢ 0 = u.0 in let not_second : i ≢ 5 = u.1.0 in ground arith;
  count_eq = refl;
  last_in = λ i e. let same : 5 ≡ i = some_inj e in inr (inl (omega arith));
}

pop_lost_seq_refines_example :
    (l' : SndLossList) × (pop_lost_seq 16 snd_list ≡ some (some (seq_of 5), l'))
    × Represents 16 11 5 ((6, 7) ∷ (10, 10) ∷ []) l'
pop_lost_seq_refines_example = pop_lost_seq_refines 16 11 5 losses snd_list snd_list-Represents

pop_lost_seq-remove_up_to_example :
    pop_lost_seq 16 snd_list ≡ (remove_up_to 16 snd_list 5 >>= λ l'. some (some 5, l'))
unfolding update seq_of
pop_lost_seq-remove_up_to_example = pop_lost_seq-remove_up_to 16 snd_list 0 5 refl refl refl

remove_up_to_refines_example :
    (l' : SndLossList) × (remove_up_to 16 snd_list (seq_of 5) ≡ some l')
    × Represents 16 11 5 ((6, 7) ∷ (10, 10) ∷ []) l'
remove_up_to_refines_example =
    remove_up_to_refines 16 11 5 losses snd_list snd_list-Represents 5 (omega arith, omega arith)
