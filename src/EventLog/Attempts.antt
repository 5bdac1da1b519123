-- ===== src/EventLog/Attempts.antt =====
-- event-log.ts: a delta whose text is too large is cut until it is written.
use Prim.Native.Nat.{◌/◌}
use mathlib.Core.List.{reverse}
use l4_ide.Prelude.{
  ℕ, zero, suc, ◌+◌, ◌*◌, ◌-◌, ◌≤◌, ◌<◌, Bool, true, false, none, some, List, [], ◌∷◌, ◌++◌, ◌≡◌,
  refl, sym, ap, ◌∙◌, subst, arith, ltb, ◌==◌, length, take, length-append, ok, err,
}
use l4_ide.Digits.{last_digits, tens, digits_from-length, length-reverse}
use l4_ide.Protocol.{Value, object}
use l4_ide.Protocol.Validate.{max_safe_integer}
use l4_ide.Protocol.Patterns.{is_opaque_id}
use l4_ide.Protocol.Events.{cloud_event}
use l4_ide.EventLog.{Event}
use l4_ide.EventLog.Disk.{validated_from, validated, shrink_attempts, smaller, event_path}
use l4_ide.EventLog.Shrink.{
  note_start, note_end, truncation_note, match_note, strip_note, body_of, shrink_text, shrink_value,
  shrink_field, put_back, map_text,
}
use l4_ide.EventLog.Notes.{told_of, told_length, cut_note, shrink_text-counts}
use l4_ide.Doubles.{if_false, finite, exact_limit, number_text, number_text-exact}
use l4_ide.EventLog.Halving.{delta_payload, delta_object, too_long, delta-cloud_event}

note-length : (d : ℕ) → d < tens 14 → length (truncation_note (finite d)) ≤ 33
unfolding truncation_note tens
note-length d h =
    let digits = digits_from-length (suc d) d 13 h in
    let one = length-append note_start (reverse (last_digits d) ++ note_end) in
    let two = length-append (reverse (last_digits d)) note_end in
    let three = length-reverse (last_digits d) in
    let text : number_text (finite d) ≡ reverse (last_digits d) =
      number_text-exact d (omega (arith, h)) in
    rw text (omega (arith, one, two, three, digits))

length-take_exact : (n : ℕ) (s : List ℕ) → n ≤ length s → length (take n s) ≡ n
length-take_exact zero s h = refl
length-take_exact (suc n) [] h = absurd (omega arith)
length-take_exact (suc n) (c ∷ s) h = ap suc (length-take_exact n s (omega arith))

-- What the cut of a text that is not all note is.
shrink_text-some :
    (s : List ℕ)
    → told_length s < exact_limit
    → 0 < length (strip_note s)
    → shrink_text s
      ≡ some (
          take (length (strip_note s) / 2) (strip_note s)
          ++ truncation_note
              (finite (told_length s - length (take (length (strip_note s) / 2) (strip_note s)))))
unfolding shrink_text
shrink_text-some s small h =
    let half = length-take_exact (length (strip_note s) / 2) (strip_note s) (omega arith) in
    let less : (length (take (length (strip_note s) / 2) (strip_note s)) == length (strip_note s))
        ≡ false =
      ground (arith, half) in
    if_false (length (take (length (strip_note s) / 2) (strip_note s)) == length (strip_note s))
      none _ less
    ∙ ap (λ (x : List ℕ). some (take (length (strip_note s) / 2) (strip_note s) ++ x))
        (cut_note s (take (length (strip_note s) / 2) (strip_note s)) small)

-- The lengths that so many halvings bring below 900,000.
budget : ℕ → ℕ
budget zero = 900000
budget (suc left) = 2 * budget left

module _ (json_text : Value → List ℕ) (now : ℕ → ℕ) (n : ℕ) (c : List ℕ) (n1 : 1 ≤ n)
    (n2 : n ≤ max_safe_integer) (t1 : now n ≤ max_safe_integer) (c1 : is_opaque_id c ≡ true) where
  abbrev Written : ℕ → Bool → List ℕ → Type 0
  Written left b s =
      (e : Event) × (validated_from json_text now left n (delta_object b n (now n) c s) ≡ some e)

  short_checked :
      (b : Bool) (s : List ℕ)
      → ltb 1000000 (length s) ≡ false
      → cloud_event json_text (object (delta_object b n (now n) c s)) event_path
        ≡ ok (object (delta_object b n (now n) c s))
  short_checked b s h = delta-cloud_event json_text n (now n) c n1 n2 t1 c1 b s ∙ rw h refl

  Written-here :
      (left : ℕ) (b : Bool) (s : List ℕ) → ltb 1000000 (length s) ≡ false → Written left b s
  unfolding validated_from
  Written-here zero b s h = (
    record { seq = n; content = object (delta_object b n (now n) c s) },
    (λ i. elim (short_checked b s h i) [
      | ok w ↦ some (record { seq = n; content = w })
      | err f ↦ none
    ]),
  )
  Written-here (suc left) b s h = (
    record { seq = n; content = object (delta_object b n (now n) c s) },
    (λ i. elim (short_checked b s h i) [
      | ok w ↦ some (record { seq = n; content = w })
      | err f ↦ elim (smaller json_text now (delta_object b n (now n) c s) f) [
        | none ↦ none
        | some d ↦ validated_from json_text now left n d
      ]
    ]),
  )

  smaller-delta :
      (b : Bool) (s t : List ℕ)
      → shrink_text s ≡ some t
      → smaller json_text now (delta_object b n (now n) c s) too_long
        ≡ some (delta_object b n (now n) c t)
  unfolding shrink_field shrink_value
  smaller-delta b s t h =
      λ i. put_back json_text "text" (delta_object b n (now n) c s) (map_text (h i))

  Written-later :
      (left : ℕ) (b : Bool) (s t : List ℕ)
      → ltb 1000000 (length s) ≡ true
      → shrink_text s ≡ some t
      → Written left b t
      → Written (suc left) b s
  unfolding validated_from
  Written-later left b s t long cuts w =
      let checked : cloud_event json_text (object (delta_object b n (now n) c s)) event_path
          ≡ err too_long =
        delta-cloud_event json_text n (now n) c n1 n2 t1 c1 b s ∙ rw long refl in
      (
        w.0,
        (λ i. elim (checked i) [
          | ok v ↦ some (record { seq = n; content = v })
          | err f ↦ elim (smaller json_text now (delta_object b n (now n) c s) f) [
            | none ↦ none
            | some d ↦ validated_from json_text now left n d
          ]
        ])
            ∙ (λ i. elim (smaller-delta b s t cuts i) [
              | none ↦ none
              | some d ↦ validated_from json_text now left n d
            ])
            ∙ w.1,
      )

  -- The text without its note is short enough for the halvings that are left.
  abbrev IsCut : ℕ → List ℕ → Type 0
  IsCut left s =
      (length (strip_note s) < budget left)
      × (told_length s < tens 14)
      × (length s ≤ length (strip_note s) + 33)

  told_small : (s : List ℕ) → told_length s < tens 14 → told_length s < exact_limit
  unfolding tens
  told_small s h = omega (arith, h)

  Written-from : (left : ℕ) (b : Bool) (s : List ℕ) → IsCut left s → Written left b s
  unfolding budget
  Written-from zero b s h = Written-here zero b s (let l = h.0 in let m = h.2 in ground arith)
  Written-from (suc left) b s h = by_length (ltb 1000000 (length s)) refl (Written-from left b)
    where
      half : ℕ
      half = length (strip_note s) / 2

      kept : List ℕ
      kept = take half (strip_note s)

      cut : List ℕ
      cut = kept ++ truncation_note (finite (told_length s - length kept))

      cut-IsCut : ltb 1000000 (length s) ≡ true → IsCut left cut
      cut-IsCut e =
          let small = told_small s (h.1) in
          let some_text : 0 < length (strip_note s) = let m = h.2 in ground arith in
          let counts = shrink_text-counts s cut small (shrink_text-some s small some_text) in
          let half_length = length-take_exact half (strip_note s) (omega arith) in
          let body : length (strip_note cut) ≡ half = ap length counts.0 ∙ half_length in
          let note = note-length (told_length s - length kept) (let o = h.1 in omega arith) in
          let whole_length =
            length-append kept (truncation_note (finite (told_length s - length kept))) in
          (
            (let l = h.0 in omega (arith, body)),
            (let o = h.1 in omega (arith, counts.1)),
            omega (arith, whole_length, note, body, half_length),
          )

      by_length :
          (a : Bool)
          → ltb 1000000 (length s) ≡ a
          → ((t : List ℕ) → IsCut left t → Written left b t)
          → Written (suc left) b s
      by_length false e ih = Written-here (suc left) b s e
      by_length true e ih =
          Written-later left b s cut e
            (shrink_text-some s (told_small s (h.1)) (let m = h.2 in ground arith))
            (ih cut (cut-IsCut e))

  no_note-IsCut :
      (s : List ℕ)
      → match_note (reverse s) ≡ none
      → length s < 15099494400000
      → IsCut shrink_attempts s
  unfolding budget tens strip_note told_length
  no_note-IsCut s plain short =
      let body : strip_note s ≡ s = ap (body_of s) plain in
      let whole : told_length s ≡ length s =
        (λ i. length (body i) + told_of (plain i)) ∙ omega arith in
      let same : length (strip_note s) ≡ length s = ap length body in
      (
        subst (λ (k : ℕ). k < budget shrink_attempts) (sym same) short,
        omega (arith, whole),
        omega (arith, same),
      )

  -- A delta whose conversation's id is valid, whose number and time are safe integers, and whose text has less
  -- than 15,099,494,400,000 code units and no note of a cut at its end is written: the attempts are enough to
  -- cut its text until it fits.
  pub delta_written :
      (b : Bool) (s : List ℕ)
      → match_note (reverse s) ≡ none
      → length s < 15099494400000
      → (e : Event) × (validated json_text now n (delta_payload b c s) ≡ some e)
  unfolding validated
  delta_written false s plain short =
      Written-from shrink_attempts false s (no_note-IsCut s plain short)
  delta_written true s plain short =
      Written-from shrink_attempts true s (no_note-IsCut s plain short)
