-- ===== src/RcvLossList/Tests.antt =====
-- A list of sixteen places with the losses 5 to 7 and 10, and the theorems there.
use srtplay.Base.{
  ℕ, ◌≤◌, ◌<◌, ◌≡◌, ◌≢◌, ◌↔◌, ◌⊎◌, refl, arith, Bool, true, [], ◌∷◌, none, some, update,
}
use srtplay.RcvLossList.{Node, RcvLossList, insert}
use srtplay.RcvLossList.Ranges.{Ranges, Lost}
use srtplay.RcvLossList.Repr.{node_of, idx, Repr, Linked}
use srtplay.SeqNo.Unwrapped.{seq_of}
use srtplay.RcvLossList.Removal.{remove, remove_range}
use srtplay.RcvLossList.Removal.Whole.{remove-Lost}
use srtplay.RcvLossList.Removal.Run.{remove_range-Lost}
use srtplay.RcvLossList.Insertion.Whole.{fresh, insert-Lost}
use srtplay.RcvLossList.Query.{find, get_loss_array}
use srtplay.RcvLossList.Query.Report.{Reported, get_loss_array-Reported}
use srtplay.RcvLossList.Query.Find.{find_lost, LostWithin}

abbrev losses : Ranges
losses = (5, 7) ∷ (10, 10) ∷ []

abbrev no_nodes : ℕ → Node
no_nodes i = record { seqstart = none; seqend = none; inext = none; iprior = none }

abbrev loss_list : RcvLossList
loss_list = record {
  nodes = update (update no_nodes 0 (node_of 5 7 none (some 5))) 5 (node_of 10 10 (some 0) none);
  head = some 0;
  tail = some 5;
  length = 4;
  largest_seq = some 10;
}

loss_list-Linked : Linked 16 11 losses loss_list
unfolding update seq_of idx
loss_list-Linked = record {
  seg = (refl, (refl, tt));
  head_eq = refl;
  tail_eq = refl;
  free = λ i lt u. let not_first : i ≢ 0 = u.0 in let not_second : i ≢ 5 = u.1.0 in ground arith;
}

loss_list-Repr : Repr 16 11 5 losses loss_list
loss_list-Repr = record {
  ordered = omega arith;
  fits = omega arith;
  near = omega arith;
  links = loss_list-Linked;
  count_eq = refl;
}

remove-Lost_example :
    (was : Bool) × (l' : RcvLossList) × (xs' : Ranges) × (remove 16 loss_list (seq_of 6)
      ≡ some (was, l'))
    × Repr 16 11 5 xs' l'
    × ((was ≡ true) ↔ Lost 6 losses)
    × ((y : ℕ) → Lost y xs' ↔ (Lost y losses × (y ≢ 6)))
remove-Lost_example =
    remove-Lost 16 11 5 6 losses loss_list loss_list-Repr (omega arith) (omega arith) (omega arith)

remove_range-Lost_example :
    (l' : RcvLossList) × (xs' : Ranges) × (remove_range 16 loss_list (seq_of 6) (seq_of 10)
      ≡ some (true, l'))
    × Repr 16 11 5 xs' l'
    × ((z : ℕ) → Lost z xs' ↔ (Lost z losses × ((z < 6) ⊎ ((10 < z) ⊎ (seq_of z ≡ 0x7FFFFFFF)))))
unfolding seq_of
remove_range-Lost_example =
    remove_range-Lost 16 11 5 6 10 losses loss_list loss_list-Repr (omega arith) (omega arith)
      (omega arith) (omega arith) (omega arith) (omega arith)

insert-Lost_example :
    (l' : RcvLossList) × (c' : ℕ) × (xs' : Ranges) × (insert 16 loss_list (seq_of 9) (seq_of 12)
      ≡ some l')
    × Repr 16 c' 5 xs' l'
    × (l'.largest_seq ≡ some 12)
    × ((y : ℕ) → Lost y xs' ↔ (Lost y losses ⊎ ((10 < y) × (9 ≤ y) × (y ≤ 12))))
unfolding seq_of fresh
insert-Lost_example =
    insert-Lost 16 11 5 12 (omega arith) (omega arith) (some 10) 9 losses loss_list loss_list-Repr
      refl (omega arith) (omega arith)

find_lost_example :
    (found : Bool) × (find 16 loss_list (seq_of 8) (seq_of 10) ≡ some found)
    × ((found ≡ true) ↔ LostWithin 8 10 losses)
find_lost_example =
    find_lost 16 11 5 8 10 losses loss_list loss_list-Repr (omega arith) (omega arith) (omega arith)

-- With room for two words only the first range is reported.
get_loss_array-Reported_example : Reported 2 0 losses (get_loss_array 16 loss_list 2)
get_loss_array-Reported_example = get_loss_array-Reported 16 11 5 2 losses loss_list loss_list-Repr
