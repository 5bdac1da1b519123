-- ===== src/EventLog/Bounded.antt =====
-- event-log.ts: the sizes of the segments that a reader finds, whatever happens to the log and to its disk.
use l4_ide.Prelude.{
  ℕ, ◌<◌, Bool, true, false, some, List, [], ◌∷◌, ◌++◌, ◌≡◌, refl, sym, ap, ◌∙◌, subst, arith, map,
}
use mathlib.Core.List.{append_assoc, append-nil}
use l4_ide.EventLog.{Event, Head}
use l4_ide.EventLog.Disk.{
  Piece, line, Storage, Outcome, put_file, size, bytes, cut, check_fence, write_lines, write_head,
  truncate_to, make_clean, write_events, write, pure, ◌>>◌,
}
use l4_ide.EventLog.Steps.{segments_below}
use l4_ide.EventLog.Rules.{Ends, Ends-both, Ends-mono, and_then-Ends, call-Ends}
use l4_ide.EventLog.Segments.{Keeps, Keeps-refl, Wrote}
use l4_ide.EventLog.Lines.{write_lines-Ends}
use l4_ide.EventLog.Writes.{IsPositive, cut-size}
use l4_ide.EventLog.Bounds.{Fits, Filled, write_lines-Fills, spent, put_file-same, put_file-other}

module _ (json_bytes : Event → ℕ) where
  -- The segments up to the head fit, and what a write that failed has left stands after the head.
  pub record Bounded (h : Head) (unclean : Bool) (t : Storage) : Type 0 where
    pub below : (k : ℕ) → k < h.segment → Fits json_bytes (t.files k)
    pub current : List Piece
    pub rest : List Piece
    pub file : t.files h.segment ≡ current ++ rest
    pub exact : size json_bytes current ≡ h.length
    pub fits : Fits json_bytes current
    pub clean : unclean ≡ false → rest ≡ []

  all-IsPositive : (ps : List Piece) → IsPositive json_bytes ps
  all-IsPositive [] = tt
  all-IsPositive (p ∷ ps) = (some_byte p, all-IsPositive ps)
    where
      some_byte : (p : Piece) → 0 < bytes json_bytes p
      some_byte (Piece.line e) = omega arith
      some_byte (Piece.torn n) = omega arith

  pub cut-current :
      (h : Head) (unclean : Bool) (t : Storage) (b : Bounded h unclean t)
      → cut json_bytes h.length (t.files h.segment) ≡ b.current
  cut-current h unclean t b =
      (λ i. cut json_bytes (sym b.exact i) (b.file i))
      ∙ cut-size json_bytes b.current b.rest (all-IsPositive b.current)

  pub Bounded-files :
      (h : Head) (unclean : Bool) (t u : Storage)
      → u.files ≡ t.files
      → Bounded h unclean t
      → Bounded h unclean u
  Bounded-files h unclean t u e b = record {
    below = λ k hk. subst (λ (g : ℕ → List Piece). Fits json_bytes (g k)) (sym e) (b.below k hk);
    current = b.current;
    rest = b.rest;
    file = (λ i. e i h.segment) ∙ b.file;
    exact = b.exact;
    fits = b.fits;
    clean = b.clean;
  }

  pub Bounded-unclean :
      (h : Head) (unclean : Bool) (t : Storage) → Bounded h unclean t → Bounded h true t
  Bounded-unclean h unclean t b = record {
    below = b.below;
    current = b.current;
    rest = b.rest;
    file = b.file;
    exact = b.exact;
    fits = b.fits;
    clean = λ e. absurd (cc);
  }

  Bounded-Keeps :
      (h : Head) (unclean : Bool) (s t : Storage)
      → Bounded h unclean s
      → Keeps h.segment s t
      → Bounded h true t
  Bounded-Keeps h unclean s t b kept = record {
    below = λ k hk. subst (Fits json_bytes) (sym (kept.before k hk)) (b.below k hk);
    current = b.current;
    rest = b.rest ++ kept.more;
    file =
        kept.grown
        ∙ ap (λ (x : List Piece). x ++ kept.more) b.file
        ∙ append_assoc b.current b.rest kept.more;
    exact = b.exact;
    fits = b.fits;
    clean = λ e. absurd (cc);
  }

  Bounded-truncated :
      (h : Head) (t : Storage)
      → Bounded h true t
      → Bounded h false (record t {
        files = put_file h.segment (cut json_bytes h.length (t.files h.segment)) t.files;
      })
  Bounded-truncated h t b =
      let k : ℕ = h.segment in
      let kept : List Piece = cut json_bytes h.length (t.files k) in
      record {
        below = λ j hj.
            subst (Fits json_bytes) (sym (put_file-other json_bytes k j kept t.files hj))
              (b.below j hj);
        current = b.current;
        rest = [];
        file =
            put_file-same json_bytes k kept t.files
            ∙ cut-current h true t b
            ∙ sym (append-nil b.current);
        exact = b.exact;
        fits = b.fits;
        clean = λ _. refl;
      }

  Bounded-Filled : (h : Head) (t : Storage) → Filled json_bytes h [] t → Bounded h false t
  Bounded-Filled h t f = record {
    below = f.below;
    current = t.files h.segment;
    rest = [];
    file = sym (append-nil (t.files h.segment));
    exact = f.exact;
    fits = subst (Fits json_bytes) (append-nil (t.files h.segment)) f.fits;
    clean = λ _. refl;
  }

  whole_file : (h : Head) (t : Storage) (b : Bounded h false t) → t.files h.segment ≡ b.current
  whole_file h t b =
      b.file ∙ ap (λ (x : List Piece). b.current ++ x) (b.clean refl) ∙ append-nil b.current

  Filled-start : (h : Head) (t : Storage) → Bounded h false t → Filled json_bytes h [] t
  Filled-start h t b = record {
    below = b.below;
    fits = subst (Fits json_bytes) (sym (append-nil (t.files h.segment) ∙ whole_file h t b)) b.fits;
    exact = ap (size json_bytes) (whole_file h t b) ∙ b.exact;
  }

  -- The lines of a batch: the head that is reached is bounded, or the head before still is.
  write_lines-Bounded :
      (h : Head) (es : List Event) (s : Storage)
      → Bounded h false s
      → Ends
          (write_lines json_bytes h [] es s)
          (λ h' t. Bounded h' false t × Bounded h true t)
          (λ t. Bounded h true t)
  write_lines-Bounded h es s b =
      let n : ℕ = h.segment in
      let before : List Piece = segments_below n s.files ++ s.files n in
      let all : List Piece = before ++ map line es in
      let start : Wrote json_bytes n s before h s = record {
        kept = Keeps-refl n s;
        later = omega arith;
        content = refl;
        exact = (Filled-start h s b).exact;
      } in
      let o : Outcome Head = write_lines json_bytes h [] es s in
      Ends-mono o (λ h' t. Wrote json_bytes n s all h' t × Filled json_bytes h' [] t)
        (λ h' t. Bounded h' false t × Bounded h true t) (λ t. Keeps n s t × Unit)
        (λ t. Bounded h true t)
        (Ends-both o (λ h' t. Wrote json_bytes n s all h' t) (λ h' t. Filled json_bytes h' [] t)
          (λ t. Keeps n s t) (λ _. Unit) (write_lines-Ends json_bytes n s before [] h es s start)
          (write_lines-Fills json_bytes h [] es s (Filled-start h s b)))
        (λ h' t w. (Bounded-Filled h' t w.1, Bounded-Keeps h false s t b w.0.kept))
        (λ t w. Bounded-Keeps h false s t b w.0)

  -- A call that changes no file.
  passes-Bounded :
      (h : Head) (unclean : Bool) (s : Storage)
      → Bounded h unclean s
      → Ends (check_fence s) (λ _ t. Bounded h unclean t) (λ t. Bounded h true t)
  unfolding check_fence
  passes-Bounded h unclean s b =
      let b' = Bounded-files h unclean s (spent s) refl b in
      call-Ends (λ x. x) (λ m x. x) s (λ t. Bounded h unclean t) (λ t. Bounded h true t) b'
        (λ m. Bounded-unclean h unclean (spent s) b')

  make_clean-Bounded :
      (h : Head) (unclean : Bool) (s : Storage)
      → Bounded h unclean s
      → Ends (make_clean json_bytes unclean h s) (λ _ t. Bounded h false t) (λ t. Bounded h true t)
  unfolding make_clean truncate_to
  make_clean-Bounded h false s b = b
  make_clean-Bounded h true s b =
      let b' = Bounded-files h true s (spent s) refl b in
      call-Ends
        (λ x. record x {
          files = put_file h.segment (cut json_bytes h.length (x.files h.segment)) x.files;
        })
        (λ m x. x) s (λ t. Bounded h false t) (λ t. Bounded h true t)
        (Bounded-truncated h (spent s) b') (λ m. b')

  publish-Bounded :
      (h h1 : Head) (t : Storage)
      → Bounded h1 false t
      → Bounded h true t
      → Ends
          ((check_fence >> (write_head h1 >> pure h1)) t)
          (λ h' u. Bounded h' false u)
          (λ u. Bounded h true u)
  unfolding check_fence write_head
  publish-Bounded h h1 t new old =
      let Both : Storage → Type 0 = λ u. Bounded h1 false u × Bounded h true u in
      let Old : Storage → Type 0 = λ u. Bounded h true u in
      let Done : Head → Storage → Type 0 = λ h' u. Bounded h' false u in
      let old' = λ (u : Storage) (b : Old u). Bounded-files h true u (spent u) refl b in
      and_then-Ends (check_fence t) (λ _. write_head h1 >> pure h1) (λ _ u. Both u) Done Old
        (call-Ends (λ x. x) (λ m x. x) t Both Old
          (Bounded-files h1 false t (spent t) refl new, old' t old) (λ m. old' t old))
        (λ _ u both.
          and_then-Ends (write_head h1 u) (λ _. pure h1) (λ _ v. Bounded h1 false v) Done Old
            (call-Ends (λ x. record x { head_file = some h1 }) (λ m x. x) u
              (λ v. Bounded h1 false v) Old
              (Bounded-files h1 false u (record (spent u) { head_file = some h1 }) refl both.0)
              (λ m. old' u both.1))
            (λ _ v b. b))

  write_events-Bounded :
      (h : Head) (es : List Event) (s : Storage)
      → Bounded h false s
      → Ends (write_events json_bytes h es s) (λ h' t. Bounded h' false t) (λ t. Bounded h true t)
  unfolding write_events
  write_events-Bounded h [] s b = b
  write_events-Bounded h (e ∷ es) s b =
      and_then-Ends (write_lines json_bytes h [] (e ∷ es) s)
        (λ h1. check_fence >> (write_head h1 >> pure h1))
        (λ h' t. Bounded h' false t × Bounded h true t) (λ h' t. Bounded h' false t)
        (λ t. Bounded h true t) (write_lines-Bounded h (e ∷ es) s b)
        (λ h1 t both. publish-Bounded h h1 t both.0 both.1)

  -- A write keeps the segments that are published within the bound, where it returns and where it throws.
  pub write-Bounded :
      (h : Head) (unclean : Bool) (es : List Event) (s : Storage)
      → Bounded h unclean s
      → Ends (write json_bytes unclean h es s) (λ h' t. Bounded h' false t) (λ t. Bounded h true t)
  unfolding write
  write-Bounded h unclean es s b =
      let Done : Head → Storage → Type 0 = λ h' t. Bounded h' false t in
      let Old : Storage → Type 0 = λ t. Bounded h true t in
      and_then-Ends (check_fence s)
        (λ _. make_clean json_bytes unclean h >> write_events json_bytes h es)
        (λ _ t. Bounded h unclean t) Done Old (passes-Bounded h unclean s b)
        (λ _ t bt.
          and_then-Ends (make_clean json_bytes unclean h t) (λ _. write_events json_bytes h es)
            (λ _ u. Bounded h false u) Done Old (make_clean-Bounded h unclean t bt)
            (λ _ u bu. write_events-Bounded h es u bu))
