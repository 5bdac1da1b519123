-- ===== src/Deontic/Once.antt =====
-- jl4-runtime.mjs: a contract of one obligation, as a statement on its events in any order.
use l4_ide.Prelude.{
  ℕ, ◌≤◌, Bool, true, false, not, ◌&&◌, ◌||◌, Option, none, some, List, [], ◌∷◌, ◌≡◌, refl, sym,
  ◌∙◌, subst, arith, if◌then◌else◌, leb, any,
}
use l4_ide.Deontic.{Value, Fields}
use l4_ide.Deontic.Run.{
  Event, Terms, missing, obligation, Answer, kept, broken, due, past, absolute, skip_before,
  find_match, event_matches, is_may, remaining, last_observed, walk, sort_events, run_deontic,
}
use l4_ide.Deontic.Sorted.{
  IsByTime, sort_events-IsByTime, skip_before-IsByTime, any-sort_events, any-skip_before,
}
use l4_ide.Deontic.Past.{walk_lem, at_obligation}

past_mono : (d : Option ℕ) (a b : ℕ) → a ≤ b → past d a ≡ true → past d b ≡ true
past_mono none a b h k = absurd (cc)
past_mono (some d) a b h k = ground arith

-- After an event past the deadline, all are.
none_in_time :
    (d : Option ℕ) (m : Event → Bool) (n : ℕ) (es : List Event)
    → IsByTime n es
    → past d n ≡ true
    → any (λ e. m e && not (past d e.at)) es ≡ false
none_in_time d m n [] h k = refl
none_in_time d m n (e ∷ es) h k =
    let late = past_mono d n e.at h.0 k in ground (arith, none_in_time d m e.at es h.1 late)

any-both :
    (p q : Event → Bool) (es : List Event) → any (λ e. p e && q e) es ≡ true → any q es ≡ true
any-both p q [] h = h
any-both p q (e ∷ es) h = ground (arith, any-both p q es)

module _ (args : Fields) (to_number : Value → Option ℕ) where
  -- A match is in time: the first one is, since the others come later.
  abbrev first_in_time : Option ℕ → Option (Event × List Event) → Bool
  first_in_time d none = false
  first_in_time d (some (e, after)) = not (past d e.at)

  first_in_time-find_match :
      (d : Option ℕ) (t : Terms) (n : ℕ) (es : List Event)
      → IsByTime n es
      → first_in_time d (find_match args to_number t es)
        ≡ any (λ e. event_matches args to_number e t && not (past d e.at)) es
  unfolding find_match
  first_in_time-find_match d t n [] h = refl
  first_in_time-find_match d t n (e ∷ es) h =
      by_match (event_matches args to_number e t) (first_in_time-find_match d t e.at es h.1)
    where
      rest_late :
          past d e.at ≡ true
          → any (λ f. event_matches args to_number f t && not (past d f.at)) es ≡ false
      rest_late = none_in_time d (λ f. event_matches args to_number f t) e.at es h.1

      by_late :
          (c : Bool)
          → past d e.at ≡ c
          → not c ≡ not c || any (λ f. event_matches args to_number f t && not (past d f.at)) es
      by_late true p = sym (rest_late p)
      by_late false p = refl

      by_match :
          (b : Bool)
          → first_in_time d (find_match args to_number t es)
            ≡ any (λ f. event_matches args to_number f t && not (past d f.at)) es
          → first_in_time d (if b then some (e, es) else find_match args to_number t es)
            ≡ (b && not (past d e.at))
              || any (λ f. event_matches args to_number f t && not (past d f.at)) es
      by_match true ih = by_late (past d e.at) refl
      by_match false ih = ih

  -- A match past the deadline is an event past it.
  find_match-late :
      (d : Option ℕ) (t : Terms) (es : List Event) (e : Event) (after : List Event)
      → find_match args to_number t es ≡ some (e, after)
      → past d e.at ≡ true
      → any (λ f. past d f.at) es ≡ true
  unfolding find_match
  find_match-late d t [] e after f p = absurd (cc)
  find_match-late d t (x ∷ es) e after f p =
      by_match (event_matches args to_number x t) f (λ g. find_match-late d t es e after g p)
    where
      by_match :
          (b : Bool)
          → (if b then some (x, es) else find_match args to_number t es) ≡ some (e, after)
          → (find_match args to_number t es ≡ some (e, after) → any (λ f. past d f.at) es ≡ true)
          → past d x.at || any (λ f. past d f.at) es ≡ true
      by_match true g ih =
          let same : past d x.at ≡ true =
            subst
              (λ (o : Option (Event × List Event)).
                elim o [ none ↦ true | some (y, ys) ↦ past d y.at ] ≡ true)
              (sym g) p in
          rw same refl
      by_match false g ih = let e = ih g in ground (arith)

  -- An event that fulfils the obligation, in time.
  abbrev pub timely : Terms → ℕ → Event → Bool
  timely t t0 e =
      leb t0 e.at && (event_matches args to_number e t && not (past (absolute t0 t.deadline) e.at))

  -- What the obligation gives when nothing is in time and no event is past the deadline.
  abbrev pub open_answer : Terms → ℕ → List Event → Answer
  open_answer t t0 events =
      let dl = absolute t0 t.deadline in
      if is_may t.modal
      then kept
      else due t (remaining dl t0 (last_observed dl t0 (skip_before t0 (sort_events events))))

  -- A contract of one obligation, with nothing to follow it, is kept if some event that matches comes from the
  -- start on and not past the deadline; if there is none, it is broken if some event is past the deadline; and
  -- if there is none of those either, a permission is kept and an obligation is due. This is so for each modal:
  -- a permission that was not used is broken once an event is past its deadline, and a prohibition is kept by
  -- the act that it forbids, where the language's documentation says the opposite. The order in which the
  -- events are given does not matter to the two tests.
  pub single_obligation :
      (t : Terms) (t0 : ℕ) (events : List Event)
      → run_deontic args to_number (obligation t missing missing) t0 events ≡ (
          if any (timely t t0) events
          then kept
          else if any (λ e. past (absolute t0 t.deadline) e.at) events
          then broken none none
          else open_answer t t0 events)
  unfolding run_deontic walk
  single_obligation t t0 events =
      walk_lem args to_number sorted t missing missing t0 t0 sorted
      ∙ by_match (find_match args to_number t here) refl
      ∙ (λ i.
          if in_time i
          then kept
          else if any-sort_events (λ e. past dl e.at) events i
          then broken none none
          else open_answer t t0 events)
    where
      sorted : List Event
      sorted = sort_events events

      here : List Event
      here = skip_before t0 (sort_events events)

      dl : Option ℕ
      dl = absolute t0 t.deadline

      in_time :
          first_in_time
            (absolute t0 t.deadline)
            (find_match args to_number t (skip_before t0 (sort_events events)))
          ≡ any (timely t t0) events
      in_time =
          first_in_time-find_match (absolute t0 t.deadline) t t0
            (skip_before t0 (sort_events events))
            (skip_before-IsByTime t0 0 (sort_events events) (sort_events-IsByTime events))
          ∙ any-skip_before t0 0
              (λ e. event_matches args to_number e t && not (past (absolute t0 t.deadline) e.at))
              (sort_events events) (sort_events-IsByTime events)
          ∙ any-sort_events (timely t t0) events

      late_somewhere :
          (e : Event) (after : List Event)
          → find_match args to_number t (skip_before t0 (sort_events events)) ≡ some (e, after)
          → past (absolute t0 t.deadline) e.at ≡ true
          → any (λ f. past (absolute t0 t.deadline) f.at) (sort_events events) ≡ true
      late_somewhere e after f p =
          any-both (λ f. leb t0 f.at) (λ f. past (absolute t0 t.deadline) f.at) (sort_events events)
            (sym (
                any-skip_before t0 0 (λ f. past (absolute t0 t.deadline) f.at) (sort_events events)
                  (sort_events-IsByTime events))
              ∙ find_match-late (absolute t0 t.deadline) t (skip_before t0 (sort_events events)) e
                  after f p)

      by_late :
          (b : Bool)
          → (b ≡ true → any (λ f. past (absolute t0 t.deadline) f.at) (sort_events events) ≡ true)
          → (if b then broken none none else kept) ≡ (
              if not b
              then kept
              else if any (λ f. past (absolute t0 t.deadline) f.at) (sort_events events)
              then broken none none
              else open_answer t t0 events)
      by_late true h = rw (h refl) refl
      by_late false h = refl

      by_match :
          (o : Option (Event × List Event))
          → find_match args to_number t (skip_before t0 (sort_events events)) ≡ o
          → at_obligation args to_number
              (sort_events events)
              t
              missing
              t0
              t0
              (skip_before t0 (sort_events events))
              (broken none none)
              (λ e after. walk args to_number (sort_events events) missing e.at e.at after)
              o
            ≡ (if first_in_time (absolute t0 t.deadline) o
                then kept
                else if any (λ f. past (absolute t0 t.deadline) f.at) (sort_events events)
                then broken none none
                else open_answer t t0 events)
      by_match none f = refl
      by_match (some (e, after)) f =
          by_late (past (absolute t0 t.deadline) e.at) (late_somewhere e after f)
