-- ===== src/EventLog/Valid.antt =====
-- event-log.ts: an event that is written is one that the protocol's check has returned.
use l4_ide.Prelude.{
  ℕ, zero, suc, Bool, true, false, Option, none, some, List, [], ◌∷◌, ◌≡◌, refl, sym, ap, ◌∙◌,
  subst, arith, if◌then◌else◌, ok, err,
}
use Prim.Native.String.{String}
use text.Mathlib.TextEquality.{eq_iff}
use l4_ide.Protocol.{Value, object, Fields, field, end, whole, get, put, is_named}
use l4_ide.Protocol.Spread.{get-put_other, Without, get-spread-Without}
use l4_ide.EventLog.Shrink.{shrink_value, put_back, shrink_field}
use l4_ide.Protocol.Validate.{Part, key, index}
use l4_ide.Protocol.Validate.{Checked, Failure}
use l4_ide.Protocol.Events.{cloud_event}
use l4_ide.Protocol.Reader.{cloud_event-settled, cloud_event-seq}
use l4_ide.EventLog.{Payload, Event}
use l4_ide.EventLog.Disk.{
  validated_from, validated, shrink_attempts, candidate, smaller, is_size_problem, payload_fields,
  event_path,
}

module _ (json_text : Value → List ℕ) (now : ℕ → ℕ) where
  -- The event has the number, and it is what the check has returned for an object with the number of the one
  -- at the start.
  pub record IsFrom (n : ℕ) (start : Fields) (e : Event) : Type 0 where
    pub numbered : e.seq ≡ n
    pub given : Fields
    pub number_kept : get "seq" start ≡ whole n → get "seq" given ≡ whole n
    pub checked : cloud_event json_text (object given) event_path ≡ ok e.content

  -- No number is shrunk.
  put_back-number :
      (k : String) (i : Option ℕ) (n : ℕ) (c d : Fields)
      → get "seq" c ≡ whole n
      → put_back json_text k c (shrink_value json_text (get k c) i) ≡ some d
      → get "seq" d ≡ whole n
  unfolding shrink_value
  put_back-number k i n c d q h = by_name (is_named k "seq") refl
    where
      by_shrunk :
          (o : Option Value)
          → is_named k "seq" ≡ false
          → put_back json_text k c o ≡ some d
          → get "seq" d ≡ whole n
      by_shrunk none e g = absurd (cc)
      by_shrunk (some v) e g =
          let same : put k v c ≡ d = ground arith in
          ap (get "seq") (sym same) ∙ get-put_other k "seq" v c e ∙ q

      by_name : (b : Bool) → is_named k "seq" ≡ b → get "seq" d ≡ whole n
      by_name true e =
          let named : k ≡ "seq" = (eq_iff k "seq").0 e in
          let value : get k c ≡ whole n = ap (λ (x : String). get x c) named ∙ q in
          let none_left : none ≡ some d =
            (λ j. put_back json_text k c (shrink_value json_text (sym value j) i)) ∙ h in
          absurd (cc)
      by_name false e = by_shrunk (shrink_value json_text (get k c) i) e h

  smaller-number :
      (n : ℕ) (c d : Fields) (f : Failure)
      → get "seq" c ≡ whole n
      → smaller json_text now c f ≡ some d
      → get "seq" d ≡ whole n
  unfolding shrink_field
  smaller-number n c d f q h = by_size (is_size_problem f.problem) f.path h
    where
      by_named :
          (k : String) (i : Option ℕ) (b : Bool)
          → (if b then none else put_back json_text k c (shrink_value json_text (get k c) i))
            ≡ some d
          → get "seq" d ≡ whole n
      by_named k i true g = absurd (cc)
      by_named k i false g = put_back-number k i n c d q g

      by_path : (path : List Part) → shrink_field json_text c path ≡ some d → get "seq" d ≡ whole n
      by_path (key e ∷ key k ∷ index i ∷ rest) g = by_named k (some i) (is_named k "type") g
      by_path (key e ∷ key k ∷ []) g = by_named k none (is_named k "type") g
      by_path (key e ∷ key k ∷ key j ∷ rest) g = by_named k none (is_named k "type") g
      by_path (key e ∷ index k ∷ rest) g = absurd (cc)
      by_path (key e ∷ []) g = absurd (cc)
      by_path (index e ∷ rest) g = absurd (cc)
      by_path [] g = absurd (cc)

      by_size :
          (b : Bool) (path : List Part)
          → (if b then shrink_field json_text c path else none) ≡ some d
          → get "seq" d ≡ whole n
      by_size true path g = by_path path g
      by_size false path g = absurd (cc)

  some_same : (d e : Event) → some d ≡ some e → d ≡ e
  some_same d e h = ground arith

  validated_from-IsFrom :
      (left n : ℕ) (c : Fields) (e : Event)
      → validated_from json_text now left n c ≡ some e
      → IsFrom n c e
  unfolding validated_from
  validated_from-IsFrom zero n c e h = by_check (cloud_event json_text (object c) event_path) refl h
    where
      by_check :
          (r : Checked)
          → cloud_event json_text (object c) event_path ≡ r
          → (elim r [ ok w ↦ some (record { seq = n; content = w }) | err f ↦ none ]) ≡ some e
          → IsFrom n c e
      by_check (ok w) g k =
          let same = some_same (record { seq = n; content = w }) e k in
          subst (IsFrom n c) same
            (record { numbered = refl; given = c; number_kept = λ q. q; checked = g })
      by_check (err f) g k = absurd (cc)
  validated_from-IsFrom (suc left) n c e h =
      by_check (cloud_event json_text (object c) event_path) refl h
        (λ d. validated_from-IsFrom left n d e)
    where
      after : Option Fields → Option Event
      after o = elim o [ none ↦ none | some d ↦ validated_from json_text now left n d ]

      by_smaller :
          (f : Failure) (o : Option Fields)
          → smaller json_text now c f ≡ o
          → ((d : Fields) → validated_from json_text now left n d ≡ some e → IsFrom n d e)
          → after o ≡ some e
          → IsFrom n c e
      by_smaller f none g ih k = absurd (cc)
      by_smaller f (some d) g ih k =
          let from = ih d k in
          record {
            numbered = from.numbered;
            given = from.given;
            number_kept = λ q. from.number_kept (smaller-number n c d f q g);
            checked = from.checked;
          }

      by_check :
          (r : Checked)
          → cloud_event json_text (object c) event_path ≡ r
          → (elim r [
            | ok w ↦ some (record { seq = n; content = w })
            | err f ↦ after (smaller json_text now c f)
          ])
            ≡ some e
          → ((d : Fields) → validated_from json_text now left n d ≡ some e → IsFrom n d e)
          → IsFrom n c e
      by_check (ok w) g k ih =
          let same = some_same (record { seq = n; content = w }) e k in
          subst (IsFrom n c) same
            (record { numbered = refl; given = c; number_kept = λ q. q; checked = g })
      by_check (err f) g k ih = by_smaller f (smaller json_text now c f) refl ih k

  pub validated-IsFrom :
      (n : ℕ) (p : Payload) (e : Event)
      → validated json_text now n p ≡ some e
      → IsFrom n (candidate json_text now n p) e
  unfolding validated
  validated-IsFrom n p e h =
      validated_from-IsFrom shrink_attempts n (candidate json_text now n p) e h

  -- The event that is written has the number it was given, also in its line, and a reader's check returns it
  -- unchanged. The payload's own fields have no number.
  pub validated-readable :
      (n : ℕ) (p : Payload) (e : Event)
      → Without "seq" (payload_fields p)
      → validated json_text now n p ≡ some e
      → (ws : Fields) × (e.content ≡ object ws)
        × (get "seq" ws ≡ whole n)
        × (cloud_event json_text e.content event_path ≡ ok e.content)
  validated-readable n p e unnumbered h =
      let from = validated-IsFrom n p e h in
      let start : Fields = field "seq" (whole n) (field "ts" (whole (now n)) end) in
      let given : get "seq" from.given ≡ whole n =
        from.number_kept (get-spread-Without "seq" start (payload_fields p) unnumbered) in
      let made = cloud_event-seq json_text from.given e.content event_path from.checked in
      (
        made.0,
        made.1,
        made.2 ∙ given,
        cloud_event-settled json_text (object from.given) e.content event_path from.checked,
      )
