-- ===== src/EventLog/Writes.antt =====
-- event-log.ts: the write of a batch publishes all of its lines after those before, or nothing.
use l4_ide.Prelude.{
  ℕ, zero, suc, ◌+◌, ◌-◌, ◌<◌, Bool, true, false, none, some, List, [], ◌∷◌, ◌++◌, ◌≡◌, refl, sym,
  ap, ◌∙◌, subst, arith, ◌==◌, leb, map,
}
use mathlib.Core.List.{append_assoc, append-nil}
use l4_ide.EventLog.{Event, Head, first_head}
use l4_ide.EventLog.Disk.{Piece, line, Storage, put_file, bytes, size, cut, head_of}
use l4_ide.EventLog.Steps.{segments_below, read_log}
use l4_ide.EventLog.Segments.{Keeps, Wrote, segments_below-put_file}

segments_below-same :
    (n : ℕ) (f g : ℕ → List Piece)
    → ((k : ℕ) → k < n → f k ≡ g k)
    → segments_below n f ≡ segments_below n g
unfolding segments_below
segments_below-same zero f g h = refl
segments_below-same (suc n) f g h =
    (λ i. segments_below-same n f g (λ k hk. h k (omega arith)) i ++ h n (omega arith) i)

module _ (json_bytes : Event → ℕ) where
  -- Every piece has a byte.
  abbrev pub IsPositive : List Piece → Type 0
  IsPositive [] = Unit
  IsPositive (p ∷ ps) = (0 < bytes json_bytes p) × IsPositive ps

  lines-IsPositive : (es : List Event) → IsPositive (map line es)
  lines-IsPositive [] = tt
  lines-IsPositive (e ∷ es) = (omega arith, lines-IsPositive es)

  IsPositive-end : (a b : List Piece) → IsPositive (a ++ b) → IsPositive b
  IsPositive-end [] b h = h
  IsPositive-end (p ∷ a) b h = IsPositive-end a b h.1

  -- The bytes of some pieces, cut off a file that starts with them, are these pieces.
  pub cut-size : (a b : List Piece) → IsPositive a → cut json_bytes (size json_bytes a) (a ++ b) ≡ a
  unfolding cut
  cut-size [] [] h = refl
  cut-size [] (q ∷ b) h = ground arith
  cut-size (p ∷ a) b h =
      let ih = cut-size a b h.1 in
      let rest : bytes json_bytes p + size json_bytes a - bytes json_bytes p ≡ size json_bytes a =
        omega arith in
      let some_bytes : (bytes json_bytes p + size json_bytes a == 0) ≡ false =
        let b0 = h.0 in ground (arith) in
      let fits : leb (bytes json_bytes p) (bytes json_bytes p + size json_bytes a) ≡ true =
        ground arith in
      rw (some_bytes, fits, rest, ih) refl

  -- The events that the log holds: what a reader finds up to the head is their lines, and the file of the
  -- head's segment ends there too, unless a write has failed.
  pub record Holds (s : Storage) (h : Head) (unclean : Bool) (es : List Event) : Type 0 where
    pub current : List Piece
    pub rest : List Piece
    pub shown : head_of s ≡ h
    pub file : s.files h.segment ≡ current ++ rest
    pub exact : size json_bytes current ≡ h.length
    pub content : segments_below h.segment s.files ++ current ≡ map line es
    pub clean : unclean ≡ false → rest ≡ []

  pub current-IsPositive :
      (s : Storage) (h : Head) (unclean : Bool) (es : List Event) (a : Holds s h unclean es)
      → IsPositive a.current
  current-IsPositive s h unclean es a =
      IsPositive-end (segments_below h.segment s.files) a.current
        (subst IsPositive (sym a.content) (lines-IsPositive es))

  -- A reader finds the lines of the events, whatever a write that failed has left.
  pub read_log-Holds :
      (s : Storage) (h : Head) (unclean : Bool) (es : List Event)
      → Holds s h unclean es
      → read_log json_bytes (head_of s) s.files ≡ map line es
  unfolding read_log
  read_log-Holds s h unclean es a =
      ap (λ (x : Head). read_log json_bytes x s.files) a.shown
      ∙ ap (λ (x : List Piece). segments_below h.segment s.files ++ x)
          ((λ i. cut json_bytes (sym a.exact i) (a.file i))
            ∙ cut-size a.current a.rest (current-IsPositive s h unclean es a))
      ∙ a.content

  pub Holds-faults :
      (s t : Storage) (h : Head) (unclean : Bool) (es : List Event)
      → t.files ≡ s.files
      → t.head_file ≡ s.head_file
      → Holds s h unclean es
      → Holds t h unclean es
  Holds-faults s t h unclean es f g a = record {
    current = a.current;
    rest = a.rest;
    shown = (λ i. elim (g i) [ none ↦ first_head | some x ↦ x ]) ∙ a.shown;
    file = (λ i. f i h.segment) ∙ a.file;
    exact = a.exact;
    content = (λ i. segments_below h.segment (f i) ++ a.current) ∙ a.content;
    clean = a.clean;
  }

  pub Holds-unclean :
      (s : Storage) (h : Head) (unclean : Bool) (es : List Event)
      → Holds s h unclean es
      → Holds s h true es
  Holds-unclean s h unclean es a = record {
    current = a.current;
    rest = a.rest;
    shown = a.shown;
    file = a.file;
    exact = a.exact;
    content = a.content;
    clean = λ e. absurd (cc);
  }

  -- What a write that failed leaves is after the head's length.
  pub Holds-Keeps :
      (s t : Storage) (h : Head) (unclean : Bool) (es : List Event)
      → Holds s h unclean es
      → Keeps h.segment s t
      → Holds t h true es
  Holds-Keeps s t h unclean es a k = record {
    current = a.current;
    rest = a.rest ++ k.more;
    shown = (λ i. elim (k.same_head i) [ none ↦ first_head | some x ↦ x ]) ∙ a.shown;
    file =
        k.grown
        ∙ ap (λ (x : List Piece). x ++ k.more) a.file
        ∙ append_assoc a.current a.rest k.more;
    exact = a.exact;
    content =
        ap (λ (x : List Piece). x ++ a.current)
          (segments_below-same h.segment t.files s.files (λ j hj. k.before j hj))
        ∙ a.content;
    clean = λ e. absurd (cc);
  }

  pub Holds-truncated :
      (s : Storage) (h : Head) (unclean : Bool) (es : List Event)
      → Holds s h unclean es
      → Holds
          (record s {
            files = put_file h.segment (cut json_bytes h.length (s.files h.segment)) s.files;
          })
          h
          false
          es
  Holds-truncated s h unclean es a =
      let k : ℕ = h.segment in
      let cut_file : List Piece = cut json_bytes h.length (s.files k) in
      let kept : cut_file ≡ a.current =
        (λ i. cut json_bytes (sym a.exact i) (a.file i))
        ∙ cut-size a.current a.rest (current-IsPositive s h unclean es a) in
      let e : (k == k) ≡ true = ground arith in
      record {
        current = a.current;
        rest = [];
        shown = a.shown;
        file = rw e (kept ∙ sym (append-nil a.current));
        exact = a.exact;
        content =
            ap (λ (x : List Piece). x ++ a.current)
              (segments_below-put_file k k cut_file s.files (omega arith))
            ∙ a.content;
        clean = λ _. refl;
      }

  -- The head that a write has reached is published.
  pub Holds-published :
      (n : ℕ) (s t : Storage) (h : Head) (es : List Event)
      → Wrote json_bytes n s (map line es) h t
      → Holds (record t { head_file = some h }) h false es
  Holds-published n s t h es w = record {
    current = t.files h.segment;
    rest = [];
    shown = refl;
    file = sym (append-nil (t.files h.segment));
    exact = w.exact;
    content = w.content;
    clean = λ _. refl;
  }
