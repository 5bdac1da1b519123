-- ===== src/EventLog/Lines.antt =====
-- event-log.ts: `write` of a batch publishes its lines after those before, or publishes nothing.
use l4_ide.Prelude.{
  ℕ, suc, ◌+◌, Bool, true, false, ◌&&◌, List, [], ◌∷◌, ◌++◌, refl, sym, subst, if◌then◌else◌, ltb,
  map,
}
use mathlib.Core.List.{append_assoc, append-nil}
use l4_ide.EventLog.{Event, Head}
use l4_ide.EventLog.Disk.{
  Piece, line, Storage, and_then, put_file, remove_file, bytes, size, commit, write_lines,
  event_segment_max_bytes, later_faults, ◌>>◌, ◌>>=◌,
}
use l4_ide.EventLog.Rules.{Ends, and_then-Ends, call-Ends}
use l4_ide.EventLog.Segments.{Keeps, Wrote, Wrote-faults, Wrote-removed, commit-Ends}

module _ (json_bytes : Event → ℕ) (n : ℕ) (s : Storage) where
  abbrev Begun : List Piece → Head → Storage → Type 0
  Begun c h t = Wrote json_bytes n s c h t

  pub write_lines-Ends :
      (c chunk : List Piece) (h : Head) (es : List Event) (t : Storage)
      → Begun c h t
      → Ends
          (write_lines json_bytes h chunk es t)
          (λ h' u. Begun (c ++ (chunk ++ map line es)) h' u)
          (λ u. Keeps n s u)
  unfolding write_lines remove_file
  write_lines-Ends c chunk h [] t w =
      subst
        (λ (x : List Piece).
          Ends (commit json_bytes h chunk t) (λ h' u. Begun (c ++ x) h' u) (λ u. Keeps n s u))
        (sym (append-nil chunk)) (commit-Ends json_bytes n s c chunk h t w)
  write_lines-Ends c chunk h (e ∷ es) t w =
      by_test
        (ltb 0 (h.length + size json_bytes chunk)
          && ltb event_segment_max_bytes
              (h.length + size json_bytes chunk + bytes json_bytes (line e)))
        (subst
          (λ (x : List Piece).
            Ends (write_lines json_bytes h (chunk ++ (line e ∷ [])) es t)
              (λ h' u. Begun (c ++ x) h' u) (λ u. Keeps n s u))
          (append_assoc chunk (line e ∷ []) (map line es))
          (write_lines-Ends c (chunk ++ (line e ∷ [])) h es t w))
        (λ h1 u wu.
          write_lines-Ends (c ++ chunk) (line e ∷ [])
            (record { segment = suc h1.segment; length = 0 }) es u wu)
    where
      next : Head → Head
      next h1 = record { segment = suc h1.segment; length = 0 }

      by_test :
          (b : Bool)
          → Ends
              (write_lines json_bytes h (chunk ++ (line e ∷ [])) es t)
              (λ h' u. Begun (c ++ (chunk ++ map line (e ∷ es))) h' u)
              (λ u. Keeps n s u)
          → ((h1 : Head) (u : Storage)
              → Begun (c ++ chunk) (record { segment = suc h1.segment; length = 0 }) u
              → Ends
                  (write_lines json_bytes
                    (record { segment = suc h1.segment; length = 0 })
                    (line e ∷ [])
                    es
                    u)
                  (λ h' v. Begun ((c ++ chunk) ++ (line e ∷ map line es)) h' v)
                  (λ v. Keeps n s v))
          → Ends
              ((if b
                  then (do
                    h1 ← commit json_bytes h chunk
                    remove_file (suc h1.segment)
                    write_lines json_bytes
                        (record { segment = suc h1.segment; length = 0 })
                        (line e ∷ [])
                        es)
                  else write_lines json_bytes h (chunk ++ (line e ∷ [])) es)
                t)
              (λ h' u. Begun (c ++ (chunk ++ map line (e ∷ es))) h' u)
              (λ u. Keeps n s u)
      by_test false here over = here
      by_test true here over =
          subst
            (λ (x : List Piece).
              Ends
                (and_then (commit json_bytes h chunk t) (λ h1.
                  remove_file (suc h1.segment)
                  >> write_lines json_bytes (next h1) (line e ∷ []) es))
                (λ h' u. Begun x h' u) (λ u. Keeps n s u))
            (append_assoc c chunk (line e ∷ map line es))
            (and_then-Ends (commit json_bytes h chunk t)
              (λ h1.
                remove_file (suc h1.segment) >> write_lines json_bytes (next h1) (line e ∷ []) es)
              (λ h1 u. Begun (c ++ chunk) h1 u)
              (λ h' u. Begun ((c ++ chunk) ++ (line e ∷ map line es)) h' u) (λ u. Keeps n s u)
              (commit-Ends json_bytes n s c chunk h t w)
              (λ h1 u wu.
                let u' : Storage = record u { faults = later_faults u.faults } in
                let wu' = Wrote-faults json_bytes n s (c ++ chunk) h1 u u' refl refl wu in
                and_then-Ends (remove_file (suc h1.segment) u)
                  (λ _. write_lines json_bytes (next h1) (line e ∷ []) es)
                  (λ _ v. Begun (c ++ chunk) (next h1) v)
                  (λ h' v. Begun ((c ++ chunk) ++ (line e ∷ map line es)) h' v) (λ v. Keeps n s v)
                  (call-Ends (λ x. record x { files = put_file (suc h1.segment) [] x.files })
                    (λ m x. x) u (λ v. Begun (c ++ chunk) (next h1) v) (λ v. Keeps n s v)
                    (Wrote-removed json_bytes n s (c ++ chunk) h1 u' wu') (λ m. wu'.kept))
                  (λ _ v wv. over h1 v wv)))
