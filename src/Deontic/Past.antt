-- ===== src/Deontic/Past.antt =====
-- jl4-runtime.mjs: events before the start of a simulation do not matter.
use l4_ide.Prelude.{
  ℕ, ◌≤◌, Bool, true, false, Option, none, some, List, [], ◌∷◌, ◌≡◌, refl, sym, ◌∙◌, subst, ap,
  arith, if◌then◌else◌, leb, any, filter, ◌⊎◌, inl, inr,
}
use l4_ide.Deontic.{Value, Fields, truthy, eval_deontic_guard}
use l4_ide.Deontic.Run.{
  Event, Terms, Contract, missing, fulfilled, breach, if_node, obligation, Answer, past, absolute,
  skip_before, find_match, event_matches, unmatched, or_kept, or_broken, walk, sort_events,
  run_deontic, is_may, kept, due, remaining, last_observed,
}
use l4_ide.Deontic.Sorted.{
  IsByTime, sort_events-IsByTime, skip_before-IsByTime, filter-later, skip_before-filter,
  filter-sort_events,
}

-- The events from a time on.
abbrev pub from_time : ℕ → List Event → List Event
from_time t es = filter (λ e. leb t e.at) es

any-past-from_time :
    (t start : ℕ) (d : Option ℕ) (es : List Event)
    → t ≤ start
    → any (λ e. past (absolute start d) e.at) (from_time t es)
      ≡ any (λ e. past (absolute start d) e.at) es
any-past-from_time t start none [] h = refl
any-past-from_time t start (some d) [] h = refl
any-past-from_time t start none (e ∷ es) h = ground (arith, any-past-from_time t start none es h)
any-past-from_time t start (some d) (e ∷ es) h =
    ground (arith, any-past-from_time t start (some d) es h)

module _ (args : Fields) (to_number : Value → Option ℕ) where
  -- The match, and the events after it, come from the events searched.
  pub find_match-IsByTime :
      (n : ℕ) (t : Terms) (es : List Event) {e : Event} {after : List Event}
      → IsByTime n es
      → find_match args to_number t es ≡ some (e, after)
      → (n ≤ e.at) × IsByTime e.at after
  unfolding find_match
  find_match-IsByTime n t [] h f = absurd (cc)
  find_match-IsByTime n t (x ∷ es) {e} {after} h f =
      by_match (event_matches args to_number x t) f (λ g. find_match-IsByTime x.at t es h.1 g)
    where
      by_match :
          (b : Bool)
          → (if b then some (x, es) else find_match args to_number t es) ≡ some (e, after)
          → (find_match args to_number t es ≡ some (e, after) → (x.at ≤ e.at) × IsByTime e.at after)
          → (n ≤ e.at) × IsByTime e.at after
      by_match true g ih =
          subst
            (λ (o : Option (Event × List Event)). elim o [
              | none ↦ Unit {0}
              | some (y, ys) ↦ (n ≤ y.at) × IsByTime y.at ys
            ])
            g h
      by_match false g ih =
          let found = ih g in let h0 = h.0 in let le = found.0 in (omega arith, found.1)

  find_match-cases :
      (t : Terms) (es : List Event)
      → (find_match args to_number t es ≡ none)
        ⊎ ((e : Event) × (after : List Event) × (find_match args to_number t es ≡ some (e, after)))
  find_match-cases t es = by_match (find_match args to_number t es)
    where
      by_match :
          (o : Option (Event × List Event))
          → (o ≡ none) ⊎ ((e : Event) × (after : List Event) × (o ≡ some (e, after)))
      by_match none = inl refl
      by_match (some (e, after)) = inr (e, after, refl)

  -- What the walk does at an obligation, by what the search finds.
  abbrev pub at_obligation :
      List Event
      → Terms
      → Contract
      → ℕ
      → ℕ
      → List Event
      → Answer
      → (Event → List Event → Answer)
      → Option (Event × List Event)
      → Answer
  at_obligation sorted t hence now start here lapsed go none =
      unmatched sorted t now start here lapsed
  at_obligation sorted t hence now start here lapsed go (some (e, after)) =
      if past (absolute start t.deadline) e.at then lapsed else or_kept hence (go e after)

  pub walk_lem :
      (sorted : List Event) (t : Terms) (hence lest : Contract) (now start : ℕ) (rest : List Event)
      → walk args to_number sorted (obligation t hence lest) now start rest
        ≡ at_obligation sorted t hence now start
            (skip_before now rest)
            (or_broken lest (walk args to_number sorted lest now start (skip_before now rest)))
            (λ e after. walk args to_number sorted hence e.at e.at after)
            (find_match args to_number t (skip_before now rest))
  unfolding walk
  walk_lem sorted t hence lest now start rest =
      by_match (find_match args to_number t (skip_before now rest))
    where
      by_match :
          (o : Option (Event × List Event))
          → ◌≡◌ {A = Answer}
              (elim o [
                | none ↦ unmatched sorted t now start (skip_before now rest) (
                    or_broken lest
                      (walk args to_number sorted lest now start (skip_before now rest)))
                | some (e, after) ↦
                    if past (absolute start t.deadline) e.at
                    then or_broken lest
                        (walk args to_number sorted lest now start (skip_before now rest))
                    else or_kept hence (walk args to_number sorted hence e.at e.at after)
              ])
              (at_obligation sorted t hence now start
                (skip_before now rest)
                (or_broken lest (walk args to_number sorted lest now start (skip_before now rest)))
                (λ e after. walk args to_number sorted hence e.at e.at after)
                o)
      by_match none = refl
      by_match (some (e, after)) = refl

  unmatched-from_time :
      (t0 : ℕ) (sorted : List Event) (t : Terms) (now start : ℕ) (here : List Event) {a b : Answer}
      → t0 ≤ start
      → a ≡ b
      → unmatched (from_time t0 sorted) t now start here a ≡ unmatched sorted t now start here b
  unmatched-from_time t0 sorted t now start here h e = λ i.
      if any-past-from_time t0 start t.deadline sorted h i
      then e i
      else if is_may t.modal
      then kept
      else due t (
          remaining (absolute start t.deadline) start
            (last_observed (absolute start t.deadline) now here))

  walk-from_time :
      (t0 : ℕ) (c : Contract) (sorted rest : List Event) (now start n : ℕ)
      → t0 ≤ now
      → t0 ≤ start
      → IsByTime n rest
      → walk args to_number (from_time t0 sorted) c now start (from_time t0 rest)
        ≡ walk args to_number sorted c now start rest
  unfolding walk
  walk-from_time t0 missing sorted rest now start n h k b = refl
  walk-from_time t0 fulfilled sorted rest now start n h k b = refl
  walk-from_time t0 (breach p r) sorted rest now start n h k b = refl
  walk-from_time t0 (if_node g x y) sorted rest now start n h k b = λ i.
      if truthy (eval_deontic_guard args to_number g)
      then walk-from_time t0 x sorted rest now start n h k b i
      else walk-from_time t0 y sorted rest now start n h k b i
  walk-from_time t0 (obligation t hence lest) sorted rest now start n h k b =
      let here : List Event = skip_before now rest in
      let sorted_here : IsByTime now here = skip_before-IsByTime now n rest b in
      let same : skip_before now (from_time t0 rest) ≡ here =
        skip_before-filter t0 now n rest h b in
      let lapses : walk args to_number (from_time t0 sorted) lest now start here
          ≡ walk args to_number sorted lest now start here =
        ap (λ (x : List Event). walk args to_number (from_time t0 sorted) lest now start x)
          (sym (filter-later t0 now here h sorted_here))
        ∙ walk-from_time t0 lest sorted here now start now h k sorted_here in
      walk_lem (from_time t0 sorted) t hence lest now start (from_time t0 rest)
      ∙ (λ i.
          at_obligation (from_time t0 sorted) t hence now start (same i)
            (or_broken lest (walk args to_number (from_time t0 sorted) lest now start (same i)))
            (λ e after. walk args to_number (from_time t0 sorted) hence e.at e.at after)
            (find_match args to_number t (same i)))
      ∙ by_match (find_match args to_number t here) refl (ap (or_broken lest) lapses)
          (λ e after he ha.
            ap (λ (x : List Event). walk args to_number (from_time t0 sorted) hence e.at e.at x)
              (sym (filter-later t0 e.at after he ha))
            ∙ walk-from_time t0 hence sorted after e.at e.at e.at he he ha)
      ∙ sym (walk_lem sorted t hence lest now start rest)
    where
      by_match :
          {a c : Answer} (o : Option (Event × List Event))
          → find_match args to_number t (skip_before now rest) ≡ o
          → a ≡ c
          → ((e : Event) (after : List Event)
              → t0 ≤ e.at
              → IsByTime e.at after
              → walk args to_number (from_time t0 sorted) hence e.at e.at after
                ≡ walk args to_number sorted hence e.at e.at after)
          → at_obligation
              (from_time t0 sorted)
              t
              hence
              now
              start
              (skip_before now rest)
              a
              (λ e after. walk args to_number (from_time t0 sorted) hence e.at e.at after)
              o
            ≡ at_obligation sorted t hence now start
                (skip_before now rest)
                c
                (λ e after. walk args to_number sorted hence e.at e.at after)
                o
      by_match none f same goes =
          unmatched-from_time t0 sorted t now start (skip_before now rest) k same
      by_match (some (e, after)) f same goes =
          let found =
            find_match-IsByTime now t (skip_before now rest) (skip_before-IsByTime now n rest b)
              f in
          let le = found.0 in
          let go = goes e after (omega arith) found.1 in
          λ i. if past (absolute start t.deadline) e.at then same i else or_kept hence (go i)

  -- Events before the start of the simulation do not change its answer: the contract gives the same answer on
  -- the events from that time on.
  pub run_deontic-from_time :
      (c : Contract) (t0 : ℕ) (events : List Event)
      → run_deontic args to_number c t0 (from_time t0 events)
        ≡ run_deontic args to_number c t0 events
  unfolding run_deontic
  run_deontic-from_time c t0 events =
      (λ i.
        walk args to_number (filter-sort_events t0 events i) c t0 t0
          (filter-sort_events t0 events i))
      ∙ walk-from_time t0 c (sort_events events) (sort_events events) t0 t0 0 (omega arith)
          (omega arith) (sort_events-IsByTime events)
