-- ===== src/Commands/Written.antt =====
-- What is written of `commands.done`, while any write may fail, is not ahead of the reader.
use l4_ide.Prelude.{
  ℕ, zero, suc, ◌≤◌, Bool, true, false, Option, none, some, List, [], ◌∷◌, ◌++◌, ◌≡◌, refl, arith,
  leb, ltb, length, filter, max, min, not, Bool-cases, inl, inr, subst, sym, if◌then◌else◌,
}
use l4_ide.Robdd.{add}
use l4_ide.Commands.{CommandReader, Attempt, ReadResult, wait, skip, ready, read, advance, note_seq}
use l4_ide.Commands.Delivery.{OnlyStuck, read-OnlyStuck}
use l4_ide.Commands.Failing.{
  persist_try, mark_handled_try, mark_handled_through_try, poll_try_from, poll_try, with_command,
}

-- The number that `commands.done` holds: the last one written, or the one at the start.
abbrev pub last_from : ℕ → List ℕ → ℕ
last_from start [] = start
last_from start (x ∷ xs) = last_from x xs

last_from-append : (start x : ℕ) (xs : List ℕ) → last_from start (xs ++ (x ∷ [])) ≡ x
last_from-append start x [] = refl
last_from-append start x (y ∷ xs) = last_from-append y x xs

module _ (start : ℕ) where
  -- The file is not ahead of the reader.
  abbrev pub IsBehind : CommandReader → Type 0
  IsBehind t = last_from start t.written ≤ t.done

  persist_try-IsBehind :
      (writes : Bool) (next : ℕ) (s : CommandReader)
      → IsBehind s
      → IsBehind (persist_try writes next s).1
  unfolding persist_try
  persist_try-IsBehind writes next s h = elim (Bool-cases (leb next s.done)) [
    | inl e ↦ rw (e, persist_try) h
    | inr e ↦ rw (e, persist_try) (by_write writes (ground (arith, e, h)))
  ]
    where
      by_write :
          (b : Bool)
          → last_from start s.written ≤ next
          → let r : Bool × CommandReader =
              if b
              then (true, record s { done = next; written = s.written ++ (next ∷ []) })
              else (false, record s { done = next }) in
            IsBehind r.1
      by_write true le = rw (last_from-append start next s.written) (omega arith)
      by_write false le = le

  pub mark_handled_try-IsBehind :
      (writes : Bool) (n : ℕ) (s : CommandReader)
      → IsBehind s
      → IsBehind (mark_handled_try writes n s).1
  unfolding mark_handled_try
  mark_handled_try-IsBehind writes n s h = elim (Bool-cases (leb n s.done)) [
    | inl e ↦ rw (e, mark_handled_try) h
    | inr e ↦
        rw (e, mark_handled_try)
          (let above = add n s.handled_above in
            let a = advance (length above) s.done above in
            persist_try-IsBehind writes (a.0) (record s { handled_above = a.1 }) h)
  ]

  pub mark_handled_through_try-IsBehind :
      (writes : Bool) (n : ℕ) (s : CommandReader)
      → IsBehind s
      → IsBehind (mark_handled_through_try writes n s).1
  unfolding mark_handled_through_try
  mark_handled_through_try-IsBehind writes n s h =
      persist_try-IsBehind writes (max s.done (min n s.delivered))
        (record s { handled_above = filter (λ k. not (leb k n)) s.handled_above }) h

  -- By whether the write threw.
  marked-IsBehind :
      (m : Bool × CommandReader) (rest : Option (List ℕ) × CommandReader)
      → IsBehind m.1
      → IsBehind rest.1
      → IsBehind
          (elim (m.0) as (λ _. Option (List ℕ) × CommandReader) [
            | true ↦ rest
            | false ↦ (none, m.1)
          ]).1
  marked-IsBehind (true, v) rest h g = g
  marked-IsBehind (false, v) rest h g = h

  poll_try_from-IsBehind :
      (fuel : ℕ) (writes : ℕ → Bool) (files : ℕ → Attempt × ℕ) (s : CommandReader)
      → IsBehind s
      → IsBehind (poll_try_from fuel writes files s).1
  unfolding poll_try_from
  poll_try_from-IsBehind zero writes files s h = h
  poll_try_from-IsBehind (suc fuel) writes files s h =
      elim (Bool-cases (ltb s.delivered s.high_water)) [
        | inr e ↦ rw (e, poll_try_from) h
        | inl e ↦
            rw (e, poll_try_from)
              (by_result
                (read (suc s.delivered) (files (suc s.delivered)).0 (files (suc s.delivered)).1 s)
                (read-OnlyStuck (suc s.delivered) (files (suc s.delivered)).0
                  (files (suc s.delivered)).1 s)
                (poll_try_from-IsBehind fuel writes files))
      ]
    where
      by_result :
          (r : ReadResult × CommandReader)
          → OnlyStuck (suc s.delivered) s r
          → ((u : CommandReader) → IsBehind u → IsBehind (poll_try_from fuel writes files u).1)
          → let p : Option (List ℕ) × CommandReader = elim (r.0) [
            | wait ↦ (some [], r.1)
            | skip ↦
                let marked =
                  mark_handled_try
                    (writes (suc s.delivered))
                    (suc s.delivered)
                    (record (r.1) { delivered = suc s.delivered }) in
                let rest = poll_try_from fuel writes files (marked.1) in
                elim (marked.0) [ true ↦ rest | false ↦ (none, marked.1) ]
            | ready id ↦
                let rest =
                  poll_try_from fuel writes files (record (r.1) { delivered = suc s.delivered }) in
                (with_command id (rest.0), rest.1)
          ] in
            IsBehind p.1
      by_result (wait, u) (same, _) ih = subst IsBehind (sym same) h
      by_result (skip, u) (same, _) ih =
          let n = suc s.delivered in
          let kept : IsBehind u = subst IsBehind (sym same) h in
          let v = record u { delivered = n } in
          let later = mark_handled_try-IsBehind (writes n) n v kept in
          marked-IsBehind (mark_handled_try (writes n) n v) _ later
            (ih (mark_handled_try (writes n) n v).1 later)
      by_result (ready id, u) (same, _) ih =
          let kept : IsBehind u = subst IsBehind (sym same) h in
          ih (record u { delivered = suc s.delivered }) kept

  note_seq-IsBehind : (seq : Option ℕ) (s : CommandReader) → IsBehind s → IsBehind (note_seq seq s)
  unfolding note_seq
  note_seq-IsBehind none s h = h
  note_seq-IsBehind (some seq) s h = elim (Bool-cases (ltb s.high_water seq)) [
    | inl e ↦ rw (e, note_seq) h
    | inr e ↦ rw (e, note_seq) h
  ]

  pub poll_try-IsBehind :
      (seq : Option ℕ) (writes : ℕ → Bool) (files : ℕ → Attempt × ℕ) (s : CommandReader)
      → IsBehind s
      → IsBehind (poll_try seq writes files s).1
  unfolding poll_try
  poll_try-IsBehind seq writes files s h =
      poll_try_from-IsBehind _ writes files (note_seq seq s) (note_seq-IsBehind seq s h)
