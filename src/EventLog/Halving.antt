-- ===== src/EventLog/Halving.antt =====
-- event-log.ts: the attempts of `validated` are enough for a text that is too large.
use Prim.Native.String.{String}
use l4_ide.Prelude.{
  ℕ, ◌≤◌, Bool, true, false, List, [], ◌∷◌, ◌≡◌, refl, arith, if◌then◌else◌, ltb, length,
  Bool-cases, inl, inr, ok, err, list_key, nat_key,
}
use l4_ide.Protocol.{Value, whole, object, Fields, field}
use l4_ide.Protocol.Validate.{
  Failure, key, longer, str, int, literal, obj, union, check_fields, variant_for, max_safe_integer,
}
use l4_ide.Protocol.Patterns.{is_opaque_id}
use l4_ide.Protocol.Events.{cloud_event, envelope, payload, chat_shapes, cloud_shapes}
use l4_ide.EventLog.{Payload, text_delta, thinking_delta}
use l4_ide.EventLog.Disk.{event_path, delta_fields}

-- The two kinds of delta.
abbrev pub delta_name : Bool → String
delta_name false = "text-delta"
delta_name true = "thinking-delta"

abbrev pub delta_payload : Bool → List ℕ → List ℕ → Payload
delta_payload false c s = text_delta c s
delta_payload true c s = thinking_delta c s

abbrev pub delta_object : Bool → ℕ → ℕ → List ℕ → List ℕ → Fields
delta_object b n ts c s =
    field "seq" (whole n) (field "ts" (whole ts) (delta_fields (delta_name b) c s))

abbrev pub too_long : Failure
too_long = record { problem = longer; path = key "event" ∷ key "text" ∷ [] }

module _ (json_text : Value → List ℕ) (n ts : ℕ) (c : List ℕ) (n1 : 1 ≤ n)
    (n2 : n ≤ max_safe_integer) (t1 : ts ≤ max_safe_integer) (c1 : is_opaque_id c ≡ true) where
  tests :
      (ltb max_safe_integer n ≡ false)
      × (ltb n 1 ≡ false)
      × (ltb max_safe_integer ts ≡ false)
      × (ltb ts 0 ≡ false)
      × (ltb 1000000 (length c) ≡ false)
      × (ltb (length c) 0 ≡ false)
  tests = (ground arith, ground arith, ground arith, ground arith, ground arith, ground arith)

  no_shorter : (s : List ℕ) → ltb (length s) 0 ≡ false
  no_shorter s = ground arith

  -- All but the text's length is right.
  pub delta-cloud_event :
      (b : Bool) (s : List ℕ)
      → cloud_event json_text (object (delta_object b n ts c s)) event_path
        ≡ (if ltb 1000000 (length s) then err too_long else ok (object (delta_object b n ts c s)))
  unfolding cloud_event envelope payload obj union literal str int check_fields variant_for
      chat_shapes cloud_shapes
  delta-cloud_event false s = elim (Bool-cases (ltb 1000000 (length s))) [
    | inl e ↦ rw (tests.0, tests.1, tests.2, tests.3, tests.4, tests.5, no_shorter s, c1, e) refl
    | inr e ↦ rw (tests.0, tests.1, tests.2, tests.3, tests.4, tests.5, no_shorter s, c1, e) refl
  ]
  delta-cloud_event true s = elim (Bool-cases (ltb 1000000 (length s))) [
    | inl e ↦ rw (tests.0, tests.1, tests.2, tests.3, tests.4, tests.5, no_shorter s, c1, e) refl
    | inr e ↦ rw (tests.0, tests.1, tests.2, tests.3, tests.4, tests.5, no_shorter s, c1, e) refl
  ]
