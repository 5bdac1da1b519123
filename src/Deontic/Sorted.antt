-- ===== src/Deontic/Sorted.antt =====
-- jl4-runtime.mjs: what the sort of the events by time and the moves of the cursor keep.
use l4_ide.Prelude.{
  ℕ, ◌≤◌, Bool, true, false, ◌&&◌, ◌||◌, List, [], ◌∷◌, ◌≡◌, refl, sym, ◌∙◌, ap, arith,
  if◌then◌else◌, ltb, leb, any, filter,
}
use l4_ide.Deontic.Run.{Event, insert_event, sort_events, skip_before}

-- The events come at `n` or later, each no earlier than the one before.
abbrev pub IsByTime : ℕ → List Event → Type 0
IsByTime n [] = Unit
IsByTime n (e ∷ es) = (n ≤ e.at) × IsByTime e.at es

insert_event-IsByTime :
    (n : ℕ) (e : Event) (es : List Event)
    → n ≤ e.at
    → IsByTime n es
    → IsByTime n (insert_event e es)
unfolding insert_event
insert_event-IsByTime n e [] h k = (h, tt)
insert_event-IsByTime n e (f ∷ es) h k =
    by_order (leb e.at f.at) refl (λ o. insert_event-IsByTime f.at e es o k.1)
  where
    by_order :
        (b : Bool)
        → leb e.at f.at ≡ b
        → (f.at ≤ e.at → IsByTime f.at (insert_event e es))
        → IsByTime n (if b then e ∷ f ∷ es else f ∷ insert_event e es)
    by_order true o ih = (h, (ground arith, k.1))
    by_order false o ih = (k.0, ih (ground arith))

pub sort_events-IsByTime : (es : List Event) → IsByTime 0 (sort_events es)
unfolding sort_events
sort_events-IsByTime [] = tt
sort_events-IsByTime (e ∷ es) =
    insert_event-IsByTime 0 e (sort_events es) (omega arith) (sort_events-IsByTime es)

any-insert_event :
    (p : Event → Bool) (e : Event) (es : List Event) → any p (insert_event e es) ≡ p e || any p es
unfolding insert_event
any-insert_event p e [] = refl
any-insert_event p e (f ∷ es) = by_order (leb e.at f.at) (any-insert_event p e es)
  where
    by_order :
        (b : Bool)
        → any p (insert_event e es) ≡ p e || any p es
        → any p (if b then e ∷ f ∷ es else f ∷ insert_event e es) ≡ p e || (p f || any p es)
    by_order true ih = refl
    by_order false ih = ground (arith, ih)

pub any-sort_events : (p : Event → Bool) (es : List Event) → any p (sort_events es) ≡ any p es
unfolding sort_events
any-sort_events p [] = refl
any-sort_events p (e ∷ es) =
    any-insert_event p e (sort_events es) ∙ ap (λ (b : Bool). p e || b) (any-sort_events p es)

pub skip_before-IsByTime :
    (now n : ℕ) (es : List Event) → IsByTime n es → IsByTime now (skip_before now es)
unfolding skip_before
skip_before-IsByTime now n [] h = tt
skip_before-IsByTime now n (e ∷ es) h =
    by_test (ltb e.at now) refl (skip_before-IsByTime now e.at es h.1)
  where
    by_test :
        (b : Bool)
        → ltb e.at now ≡ b
        → IsByTime now (skip_before now es)
        → IsByTime now (if b then skip_before now es else e ∷ es)
    by_test true t ih = ih
    by_test false t ih = (ground arith, h.1)

-- From a time on, a test of the time does not matter.
any-later :
    (t n : ℕ) (p : Event → Bool) (es : List Event)
    → t ≤ n
    → IsByTime n es
    → any (λ e. leb t e.at && p e) es ≡ any p es
any-later t n p [] h k = refl
any-later t n p (e ∷ es) h k =
    let k0 = k.0 in
    let ih = any-later t e.at p es (omega arith) k.1 in
    let here : leb t e.at ≡ true = ground arith in rw (here, ih) refl

-- What is left of the events when those before a time are skipped.
pub any-skip_before :
    (now n : ℕ) (p : Event → Bool) (es : List Event)
    → IsByTime n es
    → any p (skip_before now es) ≡ any (λ e. leb now e.at && p e) es
unfolding skip_before
any-skip_before now n p [] h = refl
any-skip_before now n p (e ∷ es) h = by_test (ltb e.at now) refl (any-skip_before now e.at p es h.1)
  where
    by_test :
        (b : Bool)
        → ltb e.at now ≡ b
        → any p (skip_before now es) ≡ any (λ f. leb now f.at && p f) es
        → any p (if b then skip_before now es else e ∷ es)
          ≡ (leb now e.at && p e) || any (λ f. leb now f.at && p f) es
    by_test true t ih = let out : leb now e.at ≡ false = ground arith in rw out ih
    by_test false t ih =
        let here : leb now e.at ≡ true = ground arith in
        rw here (ap (λ (b : Bool). p e || b) (sym (any-later now e.at p es (ground arith) h.1)))

pub filter-later :
    (t n : ℕ) (es : List Event) → t ≤ n → IsByTime n es → filter (λ e. leb t e.at) es ≡ es
filter-later t n [] h k = refl
filter-later t n (e ∷ es) h k =
    let k0 = k.0 in
    let here : leb t e.at ≡ true = ground arith in
    rw here (ap (λ (x : List Event). e ∷ x) (filter-later t e.at es (omega arith) k.1))

-- The events before a time that the cursor has passed do not matter to it.
pub skip_before-filter :
    (t now n : ℕ) (es : List Event)
    → t ≤ now
    → IsByTime n es
    → skip_before now (filter (λ e. leb t e.at) es) ≡ skip_before now es
unfolding skip_before
skip_before-filter t now n [] h k = refl
skip_before-filter t now n (e ∷ es) h k =
    by_test (leb t e.at) (ltb e.at now) refl refl (skip_before-filter t now e.at es h k.1)
  where
    by_test :
        (b c : Bool)
        → leb t e.at ≡ b
        → ltb e.at now ≡ c
        → skip_before now (filter (λ f. leb t f.at) es) ≡ skip_before now es
        → skip_before now
            (if b then e ∷ filter (λ f. leb t f.at) es else filter (λ f. leb t f.at) es)
          ≡ (if c then skip_before now es else e ∷ es)
    by_test true true p q ih = rw q ih
    by_test true false p q ih =
        rw q (ap (λ (x : List Event). e ∷ x) (filter-later t e.at es (ground arith) k.1))
    by_test false true p q ih = ih
    by_test false false p q ih = absurd (ground arith)

filter-insert_event :
    (t : ℕ) (e : Event) (es : List Event)
    → filter (λ f. leb t f.at) (insert_event e es) ≡ (
        if leb t e.at
        then insert_event e (filter (λ f. leb t f.at) es)
        else filter (λ f. leb t f.at) es)
unfolding insert_event
filter-insert_event t e [] = refl
filter-insert_event t e (f ∷ es) =
    by_tests (leb t e.at) (leb t f.at) (leb e.at f.at) refl refl refl (filter-insert_event t e es)
  where
    by_tests :
        (a b c : Bool)
        → leb t e.at ≡ a
        → leb t f.at ≡ b
        → leb e.at f.at ≡ c
        → filter (λ x. leb t x.at) (insert_event e es) ≡ (
            if leb t e.at
            then insert_event e (filter (λ x. leb t x.at) es)
            else filter (λ x. leb t x.at) es)
        → filter (λ x. leb t x.at) (if c then e ∷ f ∷ es else f ∷ insert_event e es) ≡ (
            if a
            then insert_event e
                (if b then f ∷ filter (λ x. leb t x.at) es else filter (λ x. leb t x.at) es)
            else (if b then f ∷ filter (λ x. leb t x.at) es else filter (λ x. leb t x.at) es))
    by_tests true true true p q r ih = rw (p, q, r) refl
    by_tests true true false p q r ih = rw (q, r) (ap (λ (x : List Event). f ∷ x) (ih ∙ rw p refl))
    by_tests true false true p q r ih = absurd (ground arith)
    by_tests true false false p q r ih = rw q (ih ∙ rw p refl)
    by_tests false true true p q r ih = rw (p, q) refl
    by_tests false true false p q r ih = rw q (ap (λ (x : List Event). f ∷ x) (ih ∙ rw p refl))
    by_tests false false true p q r ih = rw (p, q) refl
    by_tests false false false p q r ih = rw q (ih ∙ rw p refl)

-- Sorting the events from a time on is dropping the others from the sorted events.
pub filter-sort_events :
    (t : ℕ) (es : List Event)
    → sort_events (filter (λ e. leb t e.at) es) ≡ filter (λ e. leb t e.at) (sort_events es)
unfolding sort_events
filter-sort_events t [] = refl
filter-sort_events t (e ∷ es) =
    by_test (leb t e.at) (filter-sort_events t es) ∙ sym (filter-insert_event t e (sort_events es))
  where
    by_test :
        (b : Bool)
        → sort_events (filter (λ f. leb t f.at) es) ≡ filter (λ f. leb t f.at) (sort_events es)
        → sort_events (if b then e ∷ filter (λ f. leb t f.at) es else filter (λ f. leb t f.at) es)
          ≡ (if b
              then insert_event e (filter (λ f. leb t f.at) (sort_events es))
              else filter (λ f. leb t f.at) (sort_events es))
    by_test true ih = ap (insert_event e) ih
    by_test false ih = ih
