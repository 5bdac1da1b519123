-- ===== src/EventLog/Stream.antt =====
-- event-log.ts: what the queue holds, as a stream of code units and other events. Joining deltas keeps it.
use l4_ide.Prelude.{
  ℕ, Bool, true, false, ◌||◌, Option, none, some, List, [], ◌∷◌, ◌++◌, ◌≡◌, refl, sym, ap, ◌∙◌,
  subst, arith, if◌then◌else◌, map, Bool-cases, inl, inr,
}
use mathlib.Core.List.{append_assoc, append-nil, map-append}
use l4_ide.Protocol.{Fields}
use l4_ide.Protocol.Validate.{same_text}
use l4_ide.Protocol.Variants.{same_text_eq}
use l4_ide.EventLog.{
  Payload, text_delta, thinking_delta, other_event, Log, joined, is_delta, queued, take_delta,
  schedule_flush, collect, emit, write_pending, is_some,
}

-- A code unit of a conversation's text or of its thinking, or another event.
pub data Atom : Type 0 where
  text_code thinking_code : List ℕ → ℕ → Atom
  whole_event : Fields → Atom

abbrev pub atoms_of : Payload → List Atom
atoms_of (text_delta c s) = map (λ x. text_code c x) s
atoms_of (thinking_delta c s) = map (λ x. thinking_code c x) s
atoms_of (other_event k) = whole_event k ∷ []

abbrev pub atoms : List Payload → List Atom
atoms [] = []
atoms (p ∷ ps) = atoms_of p ++ atoms ps

pub atoms-append : (a b : List Payload) → atoms (a ++ b) ≡ atoms a ++ atoms b
atoms-append [] b = refl
atoms-append (p ∷ a) b =
    ap (λ (x : List Atom). atoms_of p ++ x) (atoms-append a b)
    ∙ sym (append_assoc (atoms_of p) (atoms a) (atoms b))

-- What is queued, with the delta that is collected.
abbrev pub queue : Log → List Payload
queue l = l.pending ++ queued l.delta

-- Joined deltas are the one text after the other.
atoms_of-joined : (p q r : Payload) → joined p q ≡ some r → atoms_of r ≡ atoms_of p ++ atoms_of q
atoms_of-joined (text_delta c s) (text_delta d t) r h = elim (Bool-cases (same_text c d)) [
  | inl e ↦
      let same : c ≡ d = same_text_eq c d e in
      let is_r : some (text_delta c (s ++ t)) ≡ some r = sym (rw e refl) ∙ h in
      subst
        (λ (x : Option Payload).
          elim x [ none ↦ [] | some y ↦ atoms_of y ]
          ≡ map (λ x. text_code c x) s ++ map (λ x. text_code d x) t)
        is_r
        (map-append (λ x. text_code c x) s t
          ∙ (λ i. map (λ x. text_code c x) s ++ map (λ x. text_code (same i) x) t))
  | inr e ↦ absurd (ground arith)
]
atoms_of-joined (thinking_delta c s) (thinking_delta d t) r h = elim (Bool-cases (same_text c d)) [
  | inl e ↦
      let same : c ≡ d = same_text_eq c d e in
      let is_r : some (thinking_delta c (s ++ t)) ≡ some r = sym (rw e refl) ∙ h in
      subst
        (λ (x : Option Payload).
          elim x [ none ↦ [] | some y ↦ atoms_of y ]
          ≡ map (λ x. thinking_code c x) s ++ map (λ x. thinking_code d x) t)
        is_r
        (map-append (λ x. thinking_code c x) s t
          ∙ (λ i. map (λ x. thinking_code c x) s ++ map (λ x. thinking_code (same i) x) t))
  | inr e ↦ absurd (ground arith)
]
atoms_of-joined (text_delta c s) (thinking_delta d t) r h = absurd (ground arith)
atoms_of-joined (text_delta c s) (other_event d) r h = absurd (ground arith)
atoms_of-joined (thinking_delta c s) (text_delta d t) r h = absurd (ground arith)
atoms_of-joined (thinking_delta c s) (other_event d) r h = absurd (ground arith)
atoms_of-joined (other_event c) q r h = absurd (ground arith)

-- The call leaves the head, the last number and the write that runs, and adds `news` to the stream.
pub record Adds (news : List Payload) (l m : Log) : Type 0 where
  pub head : m.head ≡ l.head
  pub seq : m.seq ≡ l.seq
  pub unclean : m.unclean ≡ l.unclean
  pub in_flight : m.in_flight ≡ l.in_flight
  pub closed : m.closed ≡ l.closed
  pub stream : atoms (queue m) ≡ atoms (queue l) ++ atoms news

pub Adds-same : (l : Log) → Adds [] l l
Adds-same l = record {
  head = refl;
  seq = refl;
  unclean = refl;
  in_flight = refl;
  closed = refl;
  stream = sym (append-nil (atoms (queue l)));
}

pub Adds-trans : (a b : List Payload) (l m n : Log) → Adds a l m → Adds b m n → Adds (a ++ b) l n
Adds-trans a b l m n p q = record {
  head = q.head ∙ p.head;
  seq = q.seq ∙ p.seq;
  unclean = q.unclean ∙ p.unclean;
  in_flight = q.in_flight ∙ p.in_flight;
  closed = q.closed ∙ p.closed;
  stream =
      q.stream
      ∙ ap (λ (x : List Atom). x ++ atoms b) p.stream
      ∙ append_assoc (atoms (queue l)) (atoms a) (atoms b)
      ∙ ap (λ (x : List Atom). atoms (queue l) ++ x) (sym (atoms-append a b));
}

pub take_delta-Adds : (l : Log) → Adds [] l (take_delta l)
unfolding take_delta
take_delta-Adds l = record {
  head = refl;
  seq = refl;
  unclean = refl;
  in_flight = refl;
  closed = refl;
  stream = ap atoms (append-nil (l.pending ++ queued l.delta)) ∙ sym (append-nil (atoms (queue l)));
}

pub schedule_flush-Adds : (l : Log) → Adds [] l (schedule_flush l)
unfolding schedule_flush
schedule_flush-Adds l = by_test (l.flush_timer || is_some l.retry_timer)
  where
    by_test : (b : Bool) → Adds [] l (if b then l else record l { flush_timer = true })
    by_test true = Adds-same l
    by_test false = record {
      head = refl;
      seq = refl;
      unclean = refl;
      in_flight = refl;
      closed = refl;
      stream = sym (append-nil (atoms (queue l)));
    }

pub write_pending-Adds : (l : Log) → Adds [] l (write_pending l)
unfolding write_pending
write_pending-Adds l = record {
  head = refl;
  seq = refl;
  unclean = refl;
  in_flight = refl;
  closed = refl;
  stream = sym (append-nil (atoms (queue l)));
}

-- A log with no delta collects one.
start_delta :
    (p : Payload) (l : Log)
    → l.delta ≡ none
    → Adds (p ∷ []) l (record l { delta = some p; delta_timer = true })
start_delta p l h = record {
  head = refl;
  seq = refl;
  unclean = refl;
  in_flight = refl;
  closed = refl;
  stream =
      let e : queue l ≡ l.pending =
        ap (λ (x : Option Payload). l.pending ++ queued x) h ∙ append-nil l.pending in
      atoms-append l.pending (p ∷ [])
      ∙ ap (λ (x : List Payload). atoms x ++ atoms (p ∷ [])) (sym e);
}

delta-take_delta : (l : Log) → (take_delta l).delta ≡ none
unfolding take_delta
delta-take_delta l = refl

delta-schedule_flush : (l : Log) → (schedule_flush (take_delta l)).delta ≡ none
unfolding schedule_flush take_delta
delta-schedule_flush l = ground arith

regroup : (a b c : List Atom) → a ++ ((b ++ c) ++ []) ≡ (a ++ (b ++ [])) ++ (c ++ [])
regroup a b c = simp (append_assoc, append-nil)

-- An event is queued where no delta is collected.
push_lem :
    (p : Payload) (l : Log)
    → l.delta ≡ none
    → Adds (p ∷ []) l (record l { pending = l.pending ++ (p ∷ []) })
push_lem p l h = record {
  head = refl;
  seq = refl;
  unclean = refl;
  in_flight = refl;
  closed = refl;
  stream =
      let e : (x : List Payload) → x ++ queued l.delta ≡ x =
        λ x. ap (λ (y : Option Payload). x ++ queued y) h ∙ append-nil x in
      ap atoms (e (l.pending ++ (p ∷ [])))
      ∙ atoms-append l.pending (p ∷ [])
      ∙ ap (λ (x : List Payload). atoms x ++ atoms (p ∷ [])) (sym (e l.pending));
}

collect-Adds :
    (p : Payload) (o : Option Payload) (l : Log) → l.delta ≡ o → Adds (p ∷ []) l (collect p o l)
unfolding collect
collect-Adds p none l h = start_delta p l h
collect-Adds p (some d) l h = by_join (joined d p) refl
  where
    taken : Log
    taken = schedule_flush (take_delta l)

    by_join :
        (o : Option Payload)
        → joined d p ≡ o
        → Adds (p ∷ []) l (elim o [
          | some q ↦ record l { delta = some q; delta_timer = true }
          | none ↦ record (schedule_flush (take_delta l)) { delta = some p; delta_timer = true }
        ])
    by_join none e =
        Adds-trans [] (p ∷ []) l (schedule_flush (take_delta l))
          (record (schedule_flush (take_delta l)) { delta = some p; delta_timer = true })
          (Adds-trans [] [] l (take_delta l) (schedule_flush (take_delta l)) (take_delta-Adds l)
            (schedule_flush-Adds (take_delta l)))
          (start_delta p (schedule_flush (take_delta l)) (delta-schedule_flush l))
    by_join (some q) e = record {
      head = refl;
      seq = refl;
      unclean = refl;
      in_flight = refl;
      closed = refl;
      stream =
          atoms-append l.pending (q ∷ [])
          ∙ ap (λ (x : List Atom). atoms l.pending ++ (x ++ [])) (atoms_of-joined d p q e)
          ∙ regroup (atoms l.pending) (atoms_of d) (atoms_of p)
          ∙ ap (λ (x : List Atom). x ++ atoms (p ∷ []))
              (sym (
                ap (λ (x : Option Payload). atoms (l.pending ++ queued x)) h
                ∙ atoms-append l.pending (d ∷ [])));
    }

pub emit-Adds : (p : Payload) (l : Log) → l.closed ≡ false → Adds (p ∷ []) l (emit p l)
unfolding emit
emit-Adds p l h = by_closed l.closed h (by_kind (is_delta p))
  where
    by_closed :
        {m : Log} (b : Bool) → b ≡ false → Adds (p ∷ []) l m → Adds (p ∷ []) l (if b then l else m)
    by_closed true e a = absurd (cc)
    by_closed false e a = a

    by_kind :
        (b : Bool)
        → Adds (p ∷ []) l (
            if b
            then collect p l.delta l
            else schedule_flush
                (record (take_delta l) { pending = (take_delta l).pending ++ (p ∷ []) }))
    by_kind true = collect-Adds p l.delta l refl
    by_kind false =
        let added : Log = record (take_delta l) { pending = (take_delta l).pending ++ (p ∷ []) } in
        Adds-trans (p ∷ []) [] l added (schedule_flush added)
          (Adds-trans [] (p ∷ []) l (take_delta l) added (take_delta-Adds l)
            (push_lem p (take_delta l) (delta-take_delta l)))
          (schedule_flush-Adds added)
