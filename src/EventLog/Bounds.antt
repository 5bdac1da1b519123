-- ===== src/EventLog/Bounds.antt =====
-- event-log.ts: the sizes of the segments that `write` fills.
use l4_ide.Prelude.{
  ℕ, zero, suc, ◌+◌, ◌≤◌, ◌<◌, Bool, true, false, ◌&&◌, List, [], ◌∷◌, ◌++◌, ◌≡◌, refl, sym, ap,
  ◌∙◌, subst, arith, ◌==◌, if◌then◌else◌, ltb, Bool-cases, inl, inr, ◌⊎◌,
}
use mathlib.Core.List.{append_assoc, append-nil}
use l4_ide.EventLog.{Event, Head}
use l4_ide.EventLog.Disk.{
  Piece, line, Storage, Outcome, put_file, bytes, size, cut, check_fence, appended, append_to_file,
  remove_file, commit, write_lines, event_segment_max_bytes, later_faults, pure, ◌>>◌, ◌>>=◌,
}
use l4_ide.EventLog.Rules.{Ends, and_then-Ends, call-Ends}
use l4_ide.EventLog.Segments.{size-append}

abbrev pub spent : Storage → Storage
spent s = record s { faults = later_faults s.faults }

module _ (json_bytes : Event → ℕ) where
  -- At most EVENT_SEGMENT_MAX_BYTES, or one line alone.
  abbrev pub Fits : List Piece → Type 0
  Fits ps = (size json_bytes ps ≤ event_segment_max_bytes) ⊎ ((e : Event) × (ps ≡ line e ∷ []))

  -- A file with its head's length in which the chunk still has its place, after files that fit.
  pub record Filled (h : Head) (chunk : List Piece) (t : Storage) : Type 0 where
    pub below : (k : ℕ) → k < h.segment → Fits (t.files k)
    pub fits : Fits (t.files h.segment ++ chunk)
    pub exact : size json_bytes (t.files h.segment) ≡ h.length

  pub put_file-same :
      (k : ℕ) (ps : List Piece) (files : ℕ → List Piece) → put_file k ps files k ≡ ps
  put_file-same k ps files = let e : (k == k) ≡ true = ground arith in rw e refl

  pub put_file-other :
      (k j : ℕ) (ps : List Piece) (files : ℕ → List Piece) → j < k → put_file k ps files j ≡ files j
  put_file-other k j ps files h = let e : (j == k) ≡ false = ground arith in rw e refl

  no_bytes : (ps : List Piece) → size json_bytes ps ≡ 0 → ps ≡ []
  no_bytes [] h = refl
  no_bytes (p ∷ ps) h = absurd (some_byte p h)
    where
      some_byte : (p : Piece) → bytes json_bytes p + size json_bytes ps ≡ 0 → ⊥
      some_byte (Piece.line e) g = omega arith
      some_byte (Piece.torn n) g = omega arith

  -- The test of `write` leaves no line that would pass the limit in a segment with bytes.
  Fits-here :
      (ps : List Piece) (e : Event) (used : ℕ)
      → size json_bytes ps ≡ used
      → (ltb 0 used && ltb event_segment_max_bytes (used + bytes json_bytes (line e))) ≡ false
      → Fits (ps ++ (line e ∷ []))
  Fits-here ps e zero s t = inr (e, ap (λ (x : List Piece). x ++ (line e ∷ [])) (no_bytes ps s))
  Fits-here ps e (suc n) s t =
      let total = size-append json_bytes ps (line e ∷ []) in inl (ground arith)

  Filled-files :
      (h : Head) (chunk : List Piece) (t u : Storage)
      → u.files ≡ t.files
      → Filled h chunk t
      → Filled h chunk u
  Filled-files h chunk t u e f = record {
    below = λ k hk. subst (λ (g : ℕ → List Piece). Fits (g k)) (sym e) (f.below k hk);
    fits = subst (λ (g : ℕ → List Piece). Fits (g h.segment ++ chunk)) (sym e) f.fits;
    exact = (λ i. size json_bytes (e i h.segment)) ∙ f.exact;
  }

  Filled-appended :
      (h : Head) (chunk : List Piece) (t : Storage)
      → Filled h chunk t
      → Filled
          (record h { length = h.length + size json_bytes chunk })
          []
          (appended json_bytes h.segment chunk t)
  Filled-appended h chunk t f =
      let k : ℕ = h.segment in
      let file : List Piece = t.files k ++ chunk in
      let here = put_file-same k file t.files in
      record {
        below = λ j hj. subst Fits (sym (put_file-other k j file t.files hj)) (f.below j hj);
        fits = subst Fits (sym (append-nil (put_file k file t.files k) ∙ here)) f.fits;
        exact =
            ap (size json_bytes) here
            ∙ size-append json_bytes (t.files k) chunk
            ∙ ap (λ (x : ℕ). x + size json_bytes chunk) f.exact;
      }

  -- A new segment takes any line.
  Filled-removed :
      (h : Head) (e : Event) (t : Storage)
      → Filled h [] t
      → Filled
          (record { segment = suc h.segment; length = 0 })
          (line e ∷ [])
          (record t { files = put_file (suc h.segment) [] t.files })
  Filled-removed h e t f =
      let k : ℕ = h.segment in
      let here = put_file-same (suc k) [] t.files in
      record {
        below = λ j hj.
            subst Fits (sym (put_file-other (suc k) j [] t.files hj)) (elim (Bool-cases (j == k)) [
              | inl q ↦
                  let same : k ≡ j = ground arith in
                  subst (λ (i : ℕ). Fits (t.files i)) same
                    (subst Fits (append-nil (t.files k)) f.fits)
              | inr q ↦ f.below j (ground arith)
            ]);
        fits = inr (e, ap (λ (x : List Piece). x ++ (line e ∷ [])) here);
        exact = ap (size json_bytes) here;
      }

  -- Where a part of the write returns. Nothing is asked of where it throws.
  abbrev pub Fills : Outcome Head → List Piece → Type 0
  Fills o chunk = Ends o (λ h t. Filled h chunk t) (λ _. Unit)

  commit-Fills :
      (h : Head) (chunk : List Piece) (t : Storage)
      → Filled h chunk t
      → Fills (commit json_bytes h chunk t) []
  unfolding commit check_fence append_to_file
  commit-Fills h [] t f = f
  commit-Fills h (p ∷ ps) t f =
      let chunk : List Piece = p ∷ ps in
      let h' : Head = record h { length = h.length + size json_bytes chunk } in
      and_then-Ends (check_fence t) (λ _. append_to_file json_bytes h.segment chunk >> pure h')
        (λ _ u. Filled h chunk u) (λ h2 u. Filled h2 [] u) (λ _. Unit)
        (call-Ends (λ x. x) (λ m x. x) t (λ u. Filled h chunk u) (λ _. Unit)
          (Filled-files h chunk t (spent t) refl f) (λ m. tt))
        (λ _ u fu.
          and_then-Ends (append_to_file json_bytes h.segment chunk u) (λ _. pure h')
            (λ _ v. Filled h' [] v) (λ h2 v. Filled h2 [] v) (λ _. Unit)
            (call-Ends (appended json_bytes h.segment chunk)
              (λ m x. appended json_bytes h.segment (cut json_bytes m chunk) x) u
              (λ v. Filled h' [] v) (λ _. Unit)
              (Filled-appended h chunk (spent u) (Filled-files h chunk u (spent u) refl fu))
              (λ m. tt))
            (λ _ v fv. fv))

  abbrev next : Head → Head
  next h = record { segment = suc h.segment; length = 0 }

  pub write_lines-Fills :
      (h : Head) (chunk : List Piece) (es : List Event) (t : Storage)
      → Filled h chunk t
      → Fills (write_lines json_bytes h chunk es t) []
  unfolding write_lines remove_file
  write_lines-Fills h chunk [] t f = commit-Fills h chunk t f
  write_lines-Fills h chunk (e ∷ es) t f =
      by_test
        (ltb 0 (h.length + size json_bytes chunk)
          && ltb event_segment_max_bytes
              (h.length + size json_bytes chunk + bytes json_bytes (line e)))
        refl (λ g. write_lines-Fills h (chunk ++ (line e ∷ [])) es t g)
        (λ h1 u fu. write_lines-Fills (next h1) (line e ∷ []) es u fu)
    where
      by_test :
          (b : Bool)
          → (ltb 0 (h.length + size json_bytes chunk)
              && ltb event_segment_max_bytes
                  (h.length + size json_bytes chunk + bytes json_bytes (line e)))
            ≡ b
          → (Filled h (chunk ++ (line e ∷ [])) t
              → Fills (write_lines json_bytes h (chunk ++ (line e ∷ [])) es t) [])
          → ((h1 : Head) (u : Storage)
              → Filled (next h1) (line e ∷ []) u
              → Fills (write_lines json_bytes (next h1) (line e ∷ []) es u) [])
          → Fills
              ((if b
                  then (do
                    h1 ← commit json_bytes h chunk
                    remove_file (suc h1.segment)
                    write_lines json_bytes
                        (record { segment = suc h1.segment; length = 0 })
                        (line e ∷ [])
                        es)
                  else write_lines json_bytes h (chunk ++ (line e ∷ [])) es)
                t)
              []
      by_test false q here over =
          let room =
            Fits-here (t.files h.segment ++ chunk) e (h.length + size json_bytes chunk)
              (size-append json_bytes (t.files h.segment) chunk
                ∙ ap (λ (x : ℕ). x + size json_bytes chunk) f.exact)
              q in
          here (record {
            below = f.below;
            fits = subst Fits (append_assoc (t.files h.segment) chunk (line e ∷ [])) room;
            exact = f.exact;
          })
      by_test true q here over =
          and_then-Ends (commit json_bytes h chunk t)
            (λ h1.
              remove_file (suc h1.segment) >> write_lines json_bytes (next h1) (line e ∷ []) es)
            (λ h1 u. Filled h1 [] u) (λ h' u. Filled h' [] u) (λ _. Unit) (commit-Fills h chunk t f)
            (λ h1 u fu.
              and_then-Ends (remove_file (suc h1.segment) u)
                (λ _. write_lines json_bytes (next h1) (line e ∷ []) es)
                (λ _ v. Filled (next h1) (line e ∷ []) v) (λ h' v. Filled h' [] v) (λ _. Unit)
                (call-Ends (λ x. record x { files = put_file (suc h1.segment) [] x.files })
                  (λ m x. x) u (λ v. Filled (next h1) (line e ∷ []) v) (λ _. Unit)
                  (Filled-removed h1 e (spent u) (Filled-files h1 [] u (spent u) refl fu))
                  (λ m. tt))
                (λ _ v fv. over h1 v fv))
