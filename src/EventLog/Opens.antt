-- ===== src/EventLog/Opens.antt =====
-- event-log.ts: where no call on the disk fails, `open` returns, unless head.json is invalid.
use l4_ide.Prelude.{
  ℕ, suc, Bool, true, false, not, Option, some, List, [], ◌∷◌, ◌≡◌, refl, sym, subst, if◌then◌else◌,
  ltb, Bool-cases, inl, inr,
}
use l4_ide.EventLog.{Event, Head}
use l4_ide.EventLog.Disk.{
  Storage, Fault, fine, fails, Piece, Outcome, went, threw, call, answer, next_fault, later_faults,
  check_fence, remove_file, write_head, truncate_to, cut, size, pure, ◌>>◌,
}
use l4_ide.EventLog.Rules.{Ends, and_then-Ends, Ends-mono}
use l4_ide.EventLog.Recovery.{
  last_seq_from, seq_or_before, valid_head, reads, skip_segment, resume, open_with, open_log,
}

-- Some call that is still to come fails.
abbrev pub has_fault : List Fault → Bool
has_fault [] = false
has_fault (fine ∷ fs) = has_fault fs
has_fault (fails n ∷ fs) = true

abbrev Quiet : Storage → Type 0
Quiet s = has_fault s.faults ≡ false

abbrev Done {ℓ} : {A : Type ℓ} → Outcome A → Type 0
Done o = Ends o (λ _ t. Quiet t) (λ _. ⊥)

call-Done :
    (done : Storage → Storage) (broken : ℕ → Storage → Storage) (s : Storage) (P : Storage → Type 0)
    → ((fs : List Fault) → has_fault fs ≡ false → P (done (record s { faults = fs })))
    → Quiet s
    → Ends (call done broken s) (λ _ t. P t) (λ _. ⊥)
unfolding call
call-Done done broken s P keep h = by_faults s.faults h
  where
    by_faults :
        (fs : List Fault)
        → has_fault fs ≡ false
        → Ends
            (answer done broken (next_fault fs) (record s { faults = later_faults fs }))
            (λ _ t. P t)
            (λ _. ⊥)
    by_faults [] q = keep [] refl
    by_faults (fine ∷ fs) q = keep fs q
    by_faults (fails n ∷ fs) q = absurd (cc)

module _ (json_bytes : Event → ℕ) where
  skip_segment-Done :
      (h : Head) (files : ℕ → List Piece) (s : Storage)
      → Quiet s
      → Done (skip_segment json_bytes h files s)
  unfolding skip_segment remove_file write_head
  skip_segment-Done h files s q =
      let h' : Head = record { segment = suc h.segment; length = 0 } in
      let n = seq_or_before files h.segment (last_seq_from 0 (files h.segment)) in
      and_then-Ends (remove_file (suc h.segment) s) (λ _. write_head h' >> pure (h', n))
        (λ _ t. Quiet t) (λ _ t. Quiet t) (λ _. ⊥) (call-Done _ _ s Quiet (λ fs e. e) q)
        (λ _ t qt.
          and_then-Ends (write_head h' t) (λ _. pure (h', n)) (λ _ u. Quiet u) (λ _ u. Quiet u)
            (λ _. ⊥) (call-Done _ _ t Quiet (λ fs e. e) qt) (λ _ u qu. qu))

  resume-Done :
      (h : Head) (files : ℕ → List Piece) (s : Storage)
      → Quiet s
      → Done (resume json_bytes h files s)
  unfolding resume truncate_to
  resume-Done h files s q =
      let n =
        seq_or_before files h.segment
          (last_seq_from 0 (cut json_bytes h.length (files h.segment))) in
      and_then-Ends
        ((if ltb h.length (size json_bytes (files h.segment))
            then truncate_to json_bytes h
            else pure tt)
          s)
        (λ _. pure (h, n)) (λ _ t. Quiet t) (λ _ t. Quiet t) (λ _. ⊥)
        (by_length (ltb h.length (size json_bytes (files h.segment)))) (λ _ t qt. qt)
    where
      by_length : (b : Bool) → Done ((if b then truncate_to json_bytes h else pure tt) s)
      by_length true = call-Done _ _ s Quiet (λ fs e. e) q
      by_length false = q

  open_with-Done :
      (h : Head) (files : ℕ → List Piece) (s : Storage)
      → valid_head h ≡ true
      → Quiet s
      → Done (open_with json_bytes (some h) files s)
  unfolding resume skip_segment
  open_with-Done h files s valid q =
      by_tests (valid_head h) (ltb (size json_bytes (files h.segment)) h.length) valid
    where
      by_tests :
          (v c : Bool)
          → v ≡ true
          → Done (
              (if not v
                  then (λ x. threw x)
                  else if c
                  then skip_segment json_bytes h files
                  else resume json_bytes h files)
                s)
      by_tests false c e = absurd (cc)
      by_tests true true e = skip_segment-Done h files s q
      by_tests true false e = resume-Done h files s q

  open_log-Done :
      (s : Storage) (h : Head)
      → s.head_file ≡ some h
      → valid_head h ≡ true
      → Quiet s
      → Done (open_log json_bytes s)
  unfolding open_log check_fence
  open_log-Done s h e valid q =
      let Found : Storage → Type 0 = λ t. Quiet t × (t.head_file ≡ some h) in
      and_then-Ends (check_fence s) (λ _. reads (λ t. open_with json_bytes t.head_file t.files))
        (λ _ t. Found t) (λ _ t. Quiet t) (λ _. ⊥) (call-Done _ _ s Found (λ fs k. (k, e)) q)
        (λ _ t b.
          subst (λ (o : Option Head). Done (open_with json_bytes o t.files t)) (sym b.1)
            (open_with-Done h t.files t valid b.0))

  Ends-always {ℓ} :
      {A : Type ℓ} (o : Outcome A) (P : Type 0) → P → Ends o (λ _ _. Unit {0}) (λ _. P)
  Ends-always (went a s) P p = tt
  Ends-always (threw s) P p = p

  -- If `open` throws, then a call has failed.
  pub open_log-faults :
      (s : Storage) (h : Head)
      → s.head_file ≡ some h
      → valid_head h ≡ true
      → Ends (open_log json_bytes s) (λ _ _. Unit {0}) (λ _. has_fault s.faults ≡ true)
  open_log-faults s h e valid = elim (Bool-cases (has_fault s.faults)) [
    | inl f ↦ Ends-always (open_log json_bytes s) (has_fault s.faults ≡ true) f
    | inr q ↦
        Ends-mono (open_log json_bytes s) (λ _ t. Quiet t) (λ _ _. Unit {0}) (λ _. ⊥)
          (λ _. has_fault s.faults ≡ true) (open_log-Done s h e valid q) (λ _ _ _. tt)
          (λ _ x. absurd x)
  ]
