-- ===== src/Commands/Faults.antt =====
-- What a failing write changes, and what the operations are when none fails.
use l4_ide.Prelude.{
  ℕ, zero, suc, Bool, true, false, not, Option, none, some, List, [], ◌∷◌, ◌++◌, ◌≡◌, refl,
  if◌then◌else◌, leb, ltb, length, filter, max, min, Bool-cases, inl, inr, arith, ◌∙◌,
}
use l4_ide.Robdd.{add}
use l4_ide.Commands.{
  CommandReader, Attempt, ReadResult, wait, skip, ready, read, advance, persist, mark_handled,
  mark_handled_through, poll_from,
}
use l4_ide.Commands.Failing.{
  persist_try, mark_handled_try, mark_handled_through_try, with_command, poll_try_from,
}

-- The reader that a try leaves is the one without errors, but for what is written.
abbrev pub OnlyWritten : Bool × CommandReader → CommandReader → Type 0
OnlyWritten r t = r.1 ≡ record t { written = r.1.written }

persist_choice :
    (next : ℕ) (s : CommandReader) (b : Bool)
    → OnlyWritten
        (if b
          then (true, record s { done = next; written = s.written ++ (next ∷ []) })
          else (false, record s { done = next }))
        (record s { done = next; written = s.written ++ (next ∷ []) })
persist_choice next s true = refl
persist_choice next s false = refl

persist_try_only :
    (writes : Bool) (next : ℕ) (s : CommandReader)
    → OnlyWritten (persist_try writes next s) (persist next s)
unfolding persist_try persist
persist_try_only writes next s = elim (Bool-cases (leb next s.done)) [
  | inl e ↦ rw (e, persist_try, persist) refl
  | inr e ↦ rw (e, persist_try, persist) (persist_choice next s writes)
]

pub mark_handled_try_only :
    (writes : Bool) (n : ℕ) (s : CommandReader)
    → OnlyWritten (mark_handled_try writes n s) (mark_handled n s)
unfolding mark_handled_try mark_handled
mark_handled_try_only writes n s = elim (Bool-cases (leb n s.done)) [
  | inl e ↦ rw (e, mark_handled_try, mark_handled) refl
  | inr e ↦
      rw (e, mark_handled_try, mark_handled)
        (let above = add n s.handled_above in
          let a = advance (length above) s.done above in
          persist_try_only writes (a.0) (record s { handled_above = a.1 }))
]

pub mark_handled_through_try_only :
    (writes : Bool) (n : ℕ) (s : CommandReader)
    → OnlyWritten (mark_handled_through_try writes n s) (mark_handled_through n s)
unfolding mark_handled_through_try mark_handled_through
mark_handled_through_try_only writes n s =
    persist_try_only writes (max s.done (min n s.delivered))
      (record s { handled_above = filter (λ k. not (leb k n)) s.handled_above })

-- What throws is the write.
persist_try_fails :
    (writes : Bool) (next : ℕ) (s : CommandReader)
    → (persist_try writes next s).0 ≡ false
    → writes ≡ false
unfolding persist_try
persist_try_fails writes next s h = ground (arith, h)

pub mark_handled_try_fails :
    (writes : Bool) (n : ℕ) (s : CommandReader)
    → (mark_handled_try writes n s).0 ≡ false
    → writes ≡ false
unfolding mark_handled_try
mark_handled_try_fails writes n s = elim (Bool-cases (leb n s.done)) [
  | inl e ↦ rw (e, mark_handled_try) (λ h. absurd (cc))
  | inr e ↦
      rw (e, mark_handled_try)
        (let above = add n s.handled_above in
          let a = advance (length above) s.done above in
          persist_try_fails writes (a.0) (record s { handled_above = a.1 }))
]

-- With a write that succeeds, the operations are those without errors.
persist_try-true : (next : ℕ) (s : CommandReader) → persist_try true next s ≡ (true, persist next s)
unfolding persist_try persist
persist_try-true next s = elim (Bool-cases (leb next s.done)) [
  | inl e ↦ rw (e, persist_try, persist) refl
  | inr e ↦ rw (e, persist_try, persist) refl
]

mark_handled_try-true :
    (n : ℕ) (s : CommandReader) → mark_handled_try true n s ≡ (true, mark_handled n s)
unfolding mark_handled_try mark_handled
mark_handled_try-true n s = elim (Bool-cases (leb n s.done)) [
  | inl e ↦ rw (e, mark_handled_try, mark_handled) refl
  | inr e ↦
      rw (e, mark_handled_try, mark_handled)
        (let above = add n s.handled_above in
          let a = advance (length above) s.done above in
          persist_try-true (a.0) (record s { handled_above = a.1 }))
]

pub poll_try_from-true :
    (fuel : ℕ) (files : ℕ → Attempt × ℕ) (s : CommandReader)
    → poll_try_from fuel (λ _. true) files s
      ≡ (some (poll_from fuel files s).0, (poll_from fuel files s).1)
unfolding poll_try_from poll_from
poll_try_from-true zero files s = refl
poll_try_from-true (suc fuel) files s = elim (Bool-cases (ltb s.delivered s.high_water)) [
  | inr e ↦ rw (e, poll_try_from, poll_from) refl
  | inl e ↦
      rw (e, poll_try_from, poll_from)
        (by_result
          (read (suc s.delivered) (files (suc s.delivered)).0 (files (suc s.delivered)).1 s)
          (poll_try_from-true fuel files))
]
  where
    by_result :
        (r : ReadResult × CommandReader)
        → ((u : CommandReader)
            → poll_try_from fuel (λ _. true) files u
              ≡ (some (poll_from fuel files u).0, (poll_from fuel files u).1))
        → let p : Option (List ℕ) × CommandReader = elim (r.0) [
          | wait ↦ (some [], r.1)
          | skip ↦
              let marked =
                mark_handled_try true
                  (suc s.delivered)
                  (record (r.1) { delivered = suc s.delivered }) in
              let rest = poll_try_from fuel (λ _. true) files (marked.1) in
              elim (marked.0) [ true ↦ rest | false ↦ (none, marked.1) ]
          | ready id ↦
              let rest =
                poll_try_from fuel
                  (λ _. true)
                  files
                  (record (r.1) { delivered = suc s.delivered }) in
              (with_command id (rest.0), rest.1)
        ] in
          let q : List ℕ × CommandReader = elim (r.0) [
            | wait ↦ ([], r.1)
            | skip ↦
                poll_from fuel files
                  (mark_handled (suc s.delivered) (record (r.1) { delivered = suc s.delivered }))
            | ready id ↦
                let rest = poll_from fuel files (record (r.1) { delivered = suc s.delivered }) in
                (id ∷ rest.0, rest.1)
          ] in
          ◌≡◌ {A = Option (List ℕ) × CommandReader} p (some q.0, q.1)
    by_result (wait, u) ih = refl
    by_result (skip, u) ih =
        let v = record u { delivered = suc s.delivered } in
        (λ i.
          let m : Bool × CommandReader = mark_handled_try-true (suc s.delivered) v i in
          let rest : Option (List ℕ) × CommandReader = poll_try_from fuel (λ _. true) files (m.1) in
          elim (m.0) as (λ _. Option (List ℕ) × CommandReader) [
            | true ↦ rest
            | false ↦ (none, m.1)
          ])
        ∙ ih (mark_handled (suc s.delivered) v)
    by_result (ready id, u) ih = let v = record u { delivered = suc s.delivered } in rw (ih v) refl
