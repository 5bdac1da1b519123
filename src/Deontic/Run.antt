-- ===== src/Deontic/Run.antt =====
-- jl4-runtime.mjs: `runDeonticInternal`. Times and deadlines are natural numbers. `rest` is the part of the
-- sorted events from the cursor on. A contract that is not there is `missing`.
use l4_ide.Prelude.{
  ℕ, ◌+◌, ◌-◌, Bool, true, false, ◌&&◌, Option, none, some, List, [], ◌∷◌, if◌then◌else◌, ltb, leb,
  any,
}
use l4_ide.Deontic.{
  Value, Fields, Guard, DeonticExpr, truthy, eval_deontic_guard, resolve_deontic_expr,
  deontic_value_matches,
}

pub record Event : Type 0 where
  pub party : Value
  pub action : Value
  pub at : ℕ

pub data Modal : Type 0 where
  must may must_not do_modal no_modal : Modal

-- What an obligation says of itself. The interpreter asks only whether the modal is `may`.
pub record Terms : Type 0 where
  pub party : DeonticExpr
  pub action : DeonticExpr
  pub deadline : Option ℕ
  pub modal : Modal

pub data Contract : Type 0 where
  missing fulfilled : Contract
  breach : Option (List ℕ) → Option (List ℕ) → Contract
  if_node : Guard → Contract → Contract → Contract
  obligation : Terms → Contract → Contract → Contract

-- The contract is kept, it is broken, or something is still due: the obligation, with the time that remains
-- if an event has been observed.
pub data Answer : Type 0 where
  kept : Answer
  broken : Option (List ℕ) → Option (List ℕ) → Answer
  due : Terms → Option ℕ → Answer

abbrev pub is_may : Modal → Bool
is_may may = true
is_may must = false
is_may must_not = false
is_may do_modal = false
is_may no_modal = false

unfoldable pub insert_event : Event → List Event → List Event
insert_event e [] = e ∷ []
insert_event e (f ∷ es) = if leb e.at f.at then e ∷ f ∷ es else f ∷ insert_event e es

-- The stable sort by time.
unfoldable pub sort_events : List Event → List Event
unfolding insert_event
sort_events [] = []
sort_events (e ∷ es) = insert_event e (sort_events es)

unfoldable pub skip_before : ℕ → List Event → List Event
skip_before now [] = []
skip_before now (e ∷ es) = if ltb e.at now then skip_before now es else e ∷ es

abbrev pub past : Option ℕ → ℕ → Bool
past none t = false
past (some d) t = ltb d t

-- The latest event that the obligation observes.
unfoldable pub last_observed : Option ℕ → ℕ → List Event → ℕ
last_observed d latest [] = latest
last_observed d latest (e ∷ es) =
    let later = last_observed d (if ltb latest e.at then e.at else latest) es in
    if past d e.at then latest else later

abbrev pub absolute : ℕ → Option ℕ → Option ℕ
absolute start none = none
absolute start (some d) = some (start + d)

-- `current.hence || { kind: "FULFILLED" }` and `current.lest || { kind: "BREACH" }`, run by the call given.
abbrev pub or_kept : Contract → Answer → Answer
or_kept missing a = kept
or_kept fulfilled a = a
or_kept (breach p r) a = a
or_kept (if_node g x y) a = a
or_kept (obligation t h l) a = a

abbrev pub or_broken : Contract → Answer → Answer
or_broken missing a = broken none none
or_broken fulfilled a = a
or_broken (breach p r) a = a
or_broken (if_node g x y) a = a
or_broken (obligation t h l) a = a

abbrev pub remaining : Option ℕ → ℕ → ℕ → Option ℕ
remaining none start observed = none
remaining (some d) start observed = if ltb start observed then some (d - observed) else none

-- No event matches: the deadline has passed, a permission lapses, or the obligation is due.
abbrev pub unmatched : List Event → Terms → ℕ → ℕ → List Event → Answer → Answer
unmatched sorted t now start rest lapsed =
    let deadline = absolute start t.deadline in
    if any (λ e. past deadline e.at) sorted
    then lapsed
    else if is_may t.modal
    then kept
    else due t (remaining deadline start (last_observed deadline now rest))

module _ (args : Fields) (to_number : Value → Option ℕ) where
  unfoldable pub event_matches : Event → Terms → Bool
  unfolding deontic_value_matches
  event_matches e t =
      deontic_value_matches (resolve_deontic_expr args t.party) e.party
      && deontic_value_matches (resolve_deontic_expr args t.action) e.action

  -- The first match, and the events after it.
  unfoldable pub find_match : Terms → List Event → Option (Event × List Event)
  unfolding event_matches
  find_match t [] = none
  find_match t (e ∷ es) = if event_matches e t then some (e, es) else find_match t es

  unfoldable pub walk : List Event → Contract → ℕ → ℕ → List Event → Answer
  unfolding find_match skip_before
  walk sorted missing now start rest = kept
  walk sorted fulfilled now start rest = kept
  walk sorted (breach p r) now start rest = broken p r
  walk sorted (if_node g x y) now start rest =
      let yes_branch = walk sorted x now start rest in
      let no_branch = walk sorted y now start rest in
      if truthy (eval_deontic_guard args to_number g) then yes_branch else no_branch
  walk sorted (obligation t hence lest) now start rest =
      let here : List Event = skip_before now rest in
      let lapsed : Answer = or_broken lest (walk sorted lest now start here) in
      elim (find_match t here) [
        | none ↦ unmatched sorted t now start here lapsed
        | some (e, after) ↦
            let goes_on : Answer = or_kept hence (walk sorted hence e.at e.at after) in
            if past (absolute start t.deadline) e.at then lapsed else goes_on
      ]

  unfoldable pub run_deontic : Contract → ℕ → List Event → Answer
  unfolding sort_events walk
  run_deontic c t0 events = walk (sort_events events) c t0 t0 (sort_events events)
