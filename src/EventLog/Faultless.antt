-- ===== src/EventLog/Faultless.antt =====
-- event-log.ts: where no call on the disk fails, a write returns.
use l4_ide.Prelude.{
  ℕ, suc, ◌+◌, Bool, true, false, ◌&&◌, some, List, [], ◌∷◌, ◌++◌, ◌≡◌, refl, sym, subst,
  if◌then◌else◌, ltb,
}
use l4_ide.EventLog.{Event, Head}
use l4_ide.EventLog.Disk.{
  Storage, Fault, Piece, line, write, Outcome, Io, call, answer, next_fault, later_faults, put_file,
  check_fence, append_to_file, remove_file, write_head, truncate_to, make_clean, commit,
  write_lines, write_events, cut, size, bytes, appended, pure, ◌>>◌, ◌>>=◌, and_then,
  event_segment_max_bytes,
}
use l4_ide.EventLog.Rules.{Ends, and_then-Ends}

-- No call fails any more.
abbrev pub IsFine : Storage → Type 0
IsFine s = s.faults ≡ []

abbrev pub Succeeds {ℓ} : {A : Type ℓ} → Outcome A → Type 0
Succeeds o = Ends o (λ _ t. IsFine t) (λ _. ⊥)

call-Succeeds :
    (done : Storage → Storage) (broken : ℕ → Storage → Storage) (s : Storage)
    → ((t : Storage) → IsFine t → IsFine (done t))
    → IsFine s
    → Succeeds (call done broken s)
unfolding call
call-Succeeds done broken s keep h =
    subst
      (λ (fs : List Fault).
        Succeeds (answer done broken (next_fault fs) (record s { faults = later_faults fs })))
      (sym h) (keep (record s { faults = [] }) refl)

chain-Succeeds {ℓ κ} :
    {A : Type ℓ} {B : Type κ} (o : Outcome A) (f : A → Io B)
    → Succeeds o
    → ((a : A) (s : Storage) → IsFine s → Succeeds (f a s))
    → Succeeds (and_then o f)
chain-Succeeds o f h k = and_then-Ends o f (λ _ t. IsFine t) (λ _ t. IsFine t) (λ _. ⊥) h k

fence-Succeeds : (s : Storage) → IsFine s → Succeeds (check_fence s)
unfolding check_fence
fence-Succeeds s h = call-Succeeds (λ x. x) (λ m x. x) s (λ t ht. ht) h

module _ (json_bytes : Event → ℕ) where
  commit-Succeeds :
      (h : Head) (chunk : List Piece) (s : Storage)
      → IsFine s
      → Succeeds (commit json_bytes h chunk s)
  unfolding commit append_to_file
  commit-Succeeds h [] s fs = fs
  commit-Succeeds h (p ∷ ps) s fs =
      let h' : Head = record h { length = h.length + size json_bytes (p ∷ ps) } in
      chain-Succeeds (check_fence s) (λ _. append_to_file json_bytes h.segment (p ∷ ps) >> pure h')
        (fence-Succeeds s fs)
        (λ _ t ft.
          chain-Succeeds (append_to_file json_bytes h.segment (p ∷ ps) t) (λ _. pure h')
            (call-Succeeds (appended json_bytes h.segment (p ∷ ps))
              (λ m x. appended json_bytes h.segment (cut json_bytes m (p ∷ ps)) x) t (λ u fu. fu)
              ft)
            (λ _ u fu. fu))

  either-Succeeds :
      (b : Bool) (f g : Io Head) (s : Storage)
      → Succeeds (f s)
      → Succeeds (g s)
      → Succeeds ((if b then f else g) s)
  either-Succeeds true f g s a c = a
  either-Succeeds false f g s a c = c

  lines-Succeeds :
      (h : Head) (chunk : List Piece) (es : List Event) (s : Storage)
      → IsFine s
      → Succeeds (write_lines json_bytes h chunk es s)
  unfolding write_lines remove_file
  lines-Succeeds h chunk [] s fs = commit-Succeeds h chunk s fs
  lines-Succeeds h chunk (e ∷ es) s fs =
      let next_head : Head → Head = λ h1. record { segment = suc h1.segment; length = 0 } in
      let over : Head → Io Head = λ h1.
        remove_file (suc h1.segment) >> write_lines json_bytes (next_head h1) (line e ∷ []) es in
      either-Succeeds
        (ltb 0 (h.length + size json_bytes chunk)
          && ltb event_segment_max_bytes
              (h.length + size json_bytes chunk + bytes json_bytes (line e)))
        (commit json_bytes h chunk >>= over) (write_lines json_bytes h (chunk ++ (line e ∷ [])) es)
        s
        (chain-Succeeds (commit json_bytes h chunk s) over (commit-Succeeds h chunk s fs)
          (λ h1 t ft.
            chain-Succeeds (remove_file (suc h1.segment) t)
              (λ _. write_lines json_bytes (next_head h1) (line e ∷ []) es)
              (call-Succeeds (λ x. record x { files = put_file (suc h1.segment) [] x.files })
                (λ m x. x) t (λ u fu. fu) ft)
              (λ _ u fu. lines-Succeeds (next_head h1) (line e ∷ []) es u fu)))
        (lines-Succeeds h (chunk ++ (line e ∷ [])) es s fs)

  events-Succeeds :
      (h : Head) (es : List Event) (s : Storage)
      → IsFine s
      → Succeeds (write_events json_bytes h es s)
  unfolding write_events write_head
  events-Succeeds h [] s fs = fs
  events-Succeeds h (e ∷ es) s fs =
      chain-Succeeds (write_lines json_bytes h [] (e ∷ es) s)
        (λ h1. check_fence >> (write_head h1 >> pure h1)) (lines-Succeeds h [] (e ∷ es) s fs)
        (λ h1 t ft.
          chain-Succeeds (check_fence t) (λ _. write_head h1 >> pure h1) (fence-Succeeds t ft)
            (λ _ u fu.
              chain-Succeeds (write_head h1 u) (λ _. pure h1)
                (call-Succeeds (λ x. record x { head_file = some h1 }) (λ m x. x) u (λ v fv. fv) fu)
                (λ _ v fv. fv)))

  clean-Succeeds :
      (unclean : Bool) (h : Head) (s : Storage)
      → IsFine s
      → Succeeds (make_clean json_bytes unclean h s)
  unfolding make_clean truncate_to
  clean-Succeeds false h s fs = fs
  clean-Succeeds true h s fs =
      call-Succeeds
        (λ x. record x {
          files = put_file h.segment (cut json_bytes h.length (x.files h.segment)) x.files;
        })
        (λ m x. x) s (λ t ft. ft) fs

  pub write-Succeeds :
      (unclean : Bool) (h : Head) (es : List Event) (s : Storage)
      → IsFine s
      → Succeeds (write json_bytes unclean h es s)
  unfolding write
  write-Succeeds unclean h es s fs =
      chain-Succeeds (check_fence s)
        (λ _. make_clean json_bytes unclean h >> write_events json_bytes h es) (fence-Succeeds s fs)
        (λ _ t ft.
          chain-Succeeds (make_clean json_bytes unclean h t) (λ _. write_events json_bytes h es)
            (clean-Succeeds unclean h t ft) (λ _ u fu. events-Succeeds h es u fu))
