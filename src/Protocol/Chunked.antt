-- ===== src/Protocol/Chunked.antt =====
-- events.ts: however the bytes of a log arrive, a reader finds the same events.
use l4_ide.Prelude.{
  ℕ, suc, ◌+◌, ◌<◌, Bool, true, false, none, some, List, [], ◌∷◌, ◌++◌, ◌==◌, ◌≡◌, refl, sym, ap,
  ◌∙◌, subst, arith, if◌then◌else◌, length, length-append, take, drop, ==_refl, ==_true, Bool-cases,
  inl, inr, ◌⊎◌, ok, err,
}
use mathlib.Core.List.{append_assoc, append-nil}
use l4_ide.Protocol.{Value}
use l4_ide.Protocol.Validate.{Checked, key}
use l4_ide.Protocol.Events.{cloud_event}
use l4_ide.Protocol.Patterns.{split_on, onto_first}
use l4_ide.Protocol.Chunks.{
  Line, blank, no_json, value, Parsed, nothing, line_feed, last_index, note_line, note_event,
  add_invalid, parse_lines, parse_event_chunk,
}

-- No byte of the text is the one.
abbrev Free : ℕ → List ℕ → Type 0
Free c s = last_index c s ≡ none

-- A text up to the last of a byte, and after it.
record IsSplit (c : ℕ) (s : List ℕ) : Type 0 where
  before : List ℕ
  after : List ℕ
  whole : s ≡ before ++ (c ∷ after)
  last : Free c after

last_index-split : (c : ℕ) (a b : List ℕ) → Free c b → last_index c (a ++ (c ∷ b)) ≡ some (length a)
unfolding last_index
last_index-split c [] b h = rw (h, ==_refl c) refl
last_index-split c (d ∷ a) b h = rw (last_index-split c a b h) refl

IsSplit-cases : (c : ℕ) (s : List ℕ) → Free c s ⊎ IsSplit c s
unfolding last_index
IsSplit-cases c [] = inl refl
IsSplit-cases c (d ∷ s) = by_rest (IsSplit-cases c s) (Bool-cases (d == c))
  where
    by_rest :
        Free c s ⊎ IsSplit c s
        → ((d == c) ≡ true) ⊎ ((d == c) ≡ false)
        → Free c (d ∷ s) ⊎ IsSplit c (d ∷ s)
    by_rest (inr p) e = inr (record {
      before = d ∷ p.before;
      after = p.after;
      whole = ap (λ (x : List ℕ). d ∷ x) p.whole;
      last = p.last;
    })
    by_rest (inl f) (inl e) =
        inr (record {
          before = [];
          after = s;
          whole = ap (λ (x : ℕ). x ∷ s) (==_true d c e);
          last = f;
        })
    by_rest (inl f) (inr e) = inl (rw (f, e) refl)

onto_first-append :
    (d : ℕ) (x y : List (List ℕ)) → 0 < length x → onto_first d (x ++ y) ≡ onto_first d x ++ y
onto_first-append d [] y h = absurd (omega arith)
onto_first-append d (s ∷ x) y h = refl

split_on-length : (c : ℕ) (s : List ℕ) → 0 < length (split_on c s)
split_on-length c [] = omega arith
split_on-length c (d ∷ s) = by_test (d == c) (split_on c s)
  where
    by_test : (b : Bool) (x : List (List ℕ)) → 0 < length (if b then [] ∷ x else onto_first d x)
    by_test true x = omega arith
    by_test false [] = omega arith
    by_test false (t ∷ x) = omega arith

split_on-append : (c : ℕ) (a b : List ℕ) → split_on c (a ++ (c ∷ b)) ≡ split_on c a ++ split_on c b
split_on-append c [] b = rw (==_refl c) refl
split_on-append c (d ∷ a) b = elim (Bool-cases (d == c)) [
  | inl e ↦ rw e (ap (λ (x : List (List ℕ)). [] ∷ x) (split_on-append c a b))
  | inr e ↦ rw e (
      ap (onto_first d) (split_on-append c a b)
      ∙ onto_first-append d (split_on c a) (split_on c b) (split_on-length c a))
]

take-length : (a b : List ℕ) → take (length a) (a ++ b) ≡ a
take-length [] b = refl
take-length (c ∷ a) b = ap (λ (x : List ℕ). c ∷ x) (take-length a b)

drop_line : (a b : List ℕ) (c : ℕ) → drop (suc (length a)) (a ++ (c ∷ b)) ≡ b
drop_line [] b c = refl
drop_line (d ∷ a) b c = drop_line a b c

-- What two reads find together.
abbrev pub both_parsed : Parsed → Parsed → Parsed
both_parsed r s = record {
  events = r.events ++ s.events;
  bytes = r.bytes + s.bytes;
  invalid = r.invalid + s.invalid;
}

abbrev up_to : ℕ → Parsed → Parsed
up_to n r = record r { bytes = n }

zero_plus : (n : ℕ) → 0 + n ≡ n
zero_plus n = omega arith

plus_zero : (n : ℕ) → n + 0 ≡ n
plus_zero n = omega arith

suc_plus : (m n : ℕ) → suc (m + n) ≡ suc m + n
suc_plus m n = omega arith

both_parsed-nothing : (r : Parsed) → both_parsed nothing r ≡ r
both_parsed-nothing r =
    λ i. record { events = r.events; bytes = zero_plus r.bytes i; invalid = zero_plus r.invalid i }

nothing-both_parsed : (r : Parsed) → both_parsed r nothing ≡ r
nothing-both_parsed r = λ i. record {
  events = append-nil r.events i;
  bytes = plus_zero r.bytes i;
  invalid = plus_zero r.invalid i;
}

invalid_both : (r s : Parsed) → add_invalid (both_parsed r s) ≡ both_parsed (add_invalid r) s
invalid_both r s = λ i. record {
  events = r.events ++ s.events;
  bytes = r.bytes + s.bytes;
  invalid = suc_plus r.invalid s.invalid i;
}

module _ (json_text : Value → List ℕ) (read_line : List ℕ → Line) where
  abbrev lines_of : List (List ℕ) → Parsed
  unfolding parse_lines
  lines_of = parse_lines json_text read_line

  note_line-both :
      (l : Line) (r s : Parsed)
      → note_line json_text read_line l (both_parsed r s)
        ≡ both_parsed (note_line json_text read_line l r) s
  note_line-both blank r s = refl
  note_line-both no_json r s = invalid_both r s
  note_line-both (value v) r s = by_check (cloud_event json_text v (key "event" ∷ []))
    where
      by_check : (c : Checked) → note_event c (both_parsed r s) ≡ both_parsed (note_event c r) s
      by_check (ok w) = refl
      by_check (err e) = invalid_both r s

  parse_lines-append :
      (x y : List (List ℕ)) → lines_of (x ++ y) ≡ both_parsed (lines_of x) (lines_of y)
  unfolding parse_lines
  parse_lines-append [] y = sym (both_parsed-nothing (lines_of y))
  parse_lines-append (l ∷ x) y =
      ap (note_line json_text read_line (read_line l)) (parse_lines-append x y)
      ∙ note_line-both (read_line l) (lines_of x) (lines_of y)

  parse_split :
      (a b : List ℕ)
      → Free line_feed b
      → parse_event_chunk json_text read_line (a ++ (line_feed ∷ b))
        ≡ up_to (suc (length a)) (lines_of (split_on line_feed a))
  unfolding parse_event_chunk
  parse_split a b h =
      rw (parse_event_chunk, last_index-split line_feed a b h)
        (ap (λ (x : List ℕ). up_to (suc (length a)) (lines_of (split_on line_feed x)))
          (take-length a (line_feed ∷ b)))

  parse-Free : (s : List ℕ) → Free line_feed s → parse_event_chunk json_text read_line s ≡ nothing
  unfolding parse_event_chunk
  parse-Free s h = rw (parse_event_chunk, h) refl

  -- What comes after the last line feed of the first bytes.
  parse_after :
      (a b : List ℕ)
      → parse_event_chunk json_text read_line (a ++ (line_feed ∷ b))
        ≡ both_parsed
            (up_to (suc (length a)) (lines_of (split_on line_feed a)))
            (parse_event_chunk json_text read_line b)
  parse_after a b = by_split (IsSplit-cases line_feed b)
    where
      found : Parsed
      found = up_to (suc (length a)) (lines_of (split_on line_feed a))

      by_split :
          Free line_feed b ⊎ IsSplit line_feed b
          → parse_event_chunk json_text read_line (a ++ (line_feed ∷ b))
            ≡ both_parsed found (parse_event_chunk json_text read_line b)
      by_split (inl f) =
          parse_split a b f
          ∙ sym (nothing-both_parsed found)
          ∙ ap (both_parsed found) (sym (parse-Free b f))
      by_split (inr p) =
          let m : List ℕ = a ++ (line_feed ∷ p.before) in
          let whole : a ++ (line_feed ∷ b) ≡ m ++ (line_feed ∷ p.after) =
            ap (λ (x : List ℕ). a ++ (line_feed ∷ x)) p.whole
            ∙ sym (append_assoc a (line_feed ∷ p.before) (line_feed ∷ p.after)) in
          let second =
            ap (parse_event_chunk json_text read_line) p.whole
            ∙ parse_split p.before p.after p.last in
          let lines =
            ap lines_of (split_on-append line_feed a p.before)
            ∙ parse_lines-append (split_on line_feed a) (split_on line_feed p.before) in
          let bytes : suc (length m) ≡ suc (length a) + suc (length p.before) =
            omega (arith, length-append a (line_feed ∷ p.before)) in
          ap (parse_event_chunk json_text read_line) whole
          ∙ parse_split m p.after p.last
          ∙ (λ i. up_to (bytes i) (lines i))
          ∙ ap (both_parsed found) (sym second)

  -- A reader that parses the first bytes and then, from where that left off, the rest with what has come since
  -- finds the same events, bytes and invalid lines as one that parses all at once.
  pub parse_event_chunk-append :
      (a b : List ℕ)
      → parse_event_chunk json_text read_line (a ++ b)
        ≡ both_parsed (parse_event_chunk json_text read_line a) (
            parse_event_chunk json_text read_line
              (drop (parse_event_chunk json_text read_line a).bytes a ++ b))
  parse_event_chunk-append a b = by_split (IsSplit-cases line_feed a)
    where
      parse : List ℕ → Parsed
      parse = parse_event_chunk json_text read_line

      from : Parsed → Type 0
      from r = parse (a ++ b) ≡ both_parsed r (parse (drop r.bytes a ++ b))

      by_split : Free line_feed a ⊎ IsSplit line_feed a → from (parse a)
      by_split (inl f) =
          subst from (sym (parse-Free a f)) (sym (both_parsed-nothing (parse (a ++ b))))
      by_split (inr p) =
          let first : parse a
              ≡ up_to (suc (length p.before)) (lines_of (split_on line_feed p.before)) =
            ap parse p.whole ∙ parse_split p.before p.after p.last in
          let left : drop (suc (length p.before)) a ≡ p.after =
            ap (drop (suc (length p.before))) p.whole ∙ drop_line p.before p.after line_feed in
          subst from (sym first) (
            ap (λ (x : List ℕ). parse (x ++ b)) p.whole
            ∙ ap parse (append_assoc p.before (line_feed ∷ p.after) b)
            ∙ parse_after p.before (p.after ++ b)
            ∙ ap
                (λ (x : List ℕ).
                  both_parsed
                    (up_to (suc (length p.before)) (lines_of (split_on line_feed p.before)))
                    (parse (x ++ b)))
                (sym left))
