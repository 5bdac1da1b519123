-- ===== src/Examples/Deontic.antt =====
-- The theorems on contracts at a concrete contract.
use l4_ide.Prelude.{ℕ, Option, none, some, [], ◌∷◌, ◌≡◌, refl, if◌then◌else◌, any}
use l4_ide.Deontic.{
  Value, undefined_value, null_value, bool_value, number_value, text_value, array_value,
  object_value, no_fields, text_expr, deep_equal, deontic_value_matches, strip_marks,
  eval_deontic_guard, gt_guard, lit,
}
use l4_ide.Deontic.Run.{
  Event, Terms, must, Contract, missing, if_node, obligation, kept, broken, due, past, absolute,
  skip_before, find_match, event_matches, walk, sort_events, insert_event, run_deontic,
  last_observed,
}
use l4_ide.Deontic.Past.{from_time, run_deontic-from_time}
use l4_ide.Deontic.Once.{timely, open_answer, single_obligation}

-- Numbers are read, and nothing else.
abbrev number_of : Value → Option ℕ
number_of (number_value n) = some n
number_of undefined_value = none
number_of null_value = some 0
number_of (bool_value b) = if b then some 1 else some 0
number_of (text_value s) = none
number_of (array_value vs) = none
number_of (object_value fs) = none

-- The seller, 115, must deliver, 100, within 5.
abbrev deliver : Terms
deliver = record {
  party = text_expr (115 ∷ []);
  action = text_expr (96 ∷ 100 ∷ 96 ∷ []);
  deadline = some 5;
  modal = must;
}

-- The buyer, 98, must pay, 112, within 3 after that.
abbrev pay : Terms
pay = record {
  party = text_expr (98 ∷ []);
  action = text_expr (112 ∷ []);
  deadline = some 3;
  modal = must;
}

abbrev sale : Contract
sale =
    if_node (gt_guard (lit (number_value 3)) (lit (number_value 2)))
      (obligation deliver (obligation pay missing missing) missing) missing

abbrev delivered : ℕ → Event
delivered t = record { party = text_value (115 ∷ []); action = text_value (100 ∷ []); at = t }

abbrev paid : ℕ → Event
paid t = record { party = text_value (98 ∷ []); action = text_value (112 ∷ []); at = t }

-- The payment before the delivery does not count, whatever the order in which the events are given.
sale_kept : run_deontic no_fields number_of sale 10 (paid 16 ∷ delivered 14 ∷ paid 12 ∷ []) ≡ kept
unfolding run_deontic walk sort_events insert_event skip_before find_match event_matches
    deontic_value_matches deep_equal strip_marks eval_deontic_guard
sale_kept = refl

sale_due : run_deontic no_fields number_of sale 10 (delivered 14 ∷ paid 12 ∷ []) ≡ due pay none
unfolding run_deontic walk sort_events insert_event skip_before find_match event_matches
    deontic_value_matches deep_equal strip_marks eval_deontic_guard last_observed
sale_due = refl

sale_broken :
    run_deontic no_fields number_of sale 10 (delivered 14 ∷ paid 18 ∷ []) ≡ broken none none
unfolding run_deontic walk sort_events insert_event skip_before find_match event_matches
    deontic_value_matches deep_equal strip_marks eval_deontic_guard
sale_broken = refl

single_example :
    run_deontic no_fields number_of
      (obligation deliver missing missing)
      10
      (delivered 17 ∷ delivered 9 ∷ [])
    ≡ (if any (timely no_fields number_of deliver 10) (delivered 17 ∷ delivered 9 ∷ [])
        then kept
        else if any
            (λ e. past (absolute 10 deliver.deadline) e.at)
            (delivered 17 ∷ delivered 9 ∷ [])
        then broken none none
        else open_answer no_fields number_of deliver 10 (delivered 17 ∷ delivered 9 ∷ []))
single_example = single_obligation no_fields number_of deliver 10 (delivered 17 ∷ delivered 9 ∷ [])

from_time_example :
    run_deontic no_fields number_of sale 10 (from_time 10 (delivered 3 ∷ delivered 14 ∷ []))
    ≡ run_deontic no_fields number_of sale 10 (delivered 3 ∷ delivered 14 ∷ [])
from_time_example =
    run_deontic-from_time no_fields number_of sale 10 (delivered 3 ∷ delivered 14 ∷ [])
