-- ===== src/Examples/Protocol.antt =====
-- The theorems on the protocol's checks at concrete inputs.
use l4_ide.Prelude.{ℕ, List, [], ◌∷◌, ◌≡◌, ◌≢◌, refl, arith, ok, drop, ◌==◌, ◌++◌, if◌then◌else◌}
use l4_ide.Protocol.{Value, whole, string, object, Fields, end, field, codes, get, spread}
use l4_ide.Protocol.Validate.{key, Part}
use l4_ide.Protocol.Events.{chat_shapes, cloud_shapes, cloud_event}
use l4_ide.Protocol.Commands.{client_command, cloud_command, stored_command}
use l4_ide.Protocol.Spread.{Without}
use l4_ide.Protocol.Variants.{settle_rules}
use l4_ide.Protocol.Chunks.{Line, blank, no_json, value, parse_event_chunk}
use l4_ide.Protocol.Chunked.{both_parsed, parse_event_chunk-append}
use l4_ide.Protocol.Declared.{cloud_event-declared}
use l4_ide.Protocol.Stored.{client_command-read}

abbrev no_text : Value → List ℕ
no_text v = []

abbrev path : List Part
path = key "event" ∷ []

-- An event with a field that no check declares.
abbrev spawn_fields : Fields
spawn_fields =
    field "type" (string (codes "turn-spawn"))
      (field "conversationId" (string (codes "c1")) (field "subTurnId" (string (codes "t2")) end))

abbrev spawn_event : Fields
spawn_event = field "seq" (whole 4) (field "ts" (whole 1700000000000) spawn_fields)

abbrev spoilt_event : Fields
spoilt_event = field "__proto__" (object end) spawn_event

declared_example : (ws : Fields) × (object spawn_event ≡ object ws) × Without "__proto__" ws
unfolding cloud_event chat_shapes cloud_shapes
declared_example =
    cloud_event-declared no_text "__proto__" spoilt_event (object spawn_event) path
      (refl, (refl, tt)) (search settle_rules) refl

abbrev answer_fields : Fields
answer_fields =
    field "type" (string (codes "answer"))
      (field "callId" (string (codes "q1")) (field "answer" (string (codes "yes")) end))

read_example :
    (get "type" answer_fields ≢ string (codes "apply-bundle"))
    × (get "type" answer_fields ≢ string (codes "add-files"))
    × (cloud_command (object (stored_command 7 1700000000000 answer_fields)) path
        ≡ ok (
            object
              (spread (field "id" (whole 7) (field "ts" (whole 1700000000000) end)) answer_fields)))
unfolding client_command
read_example =
    client_command-read 7 1700000000000 answer_fields answer_fields path (omega arith) (omega arith)
      (omega arith) refl

-- A line that is the digit 1 is an event, and an empty one is blank.
abbrev one_is_event : List ℕ → Line
one_is_event [] = blank
one_is_event (c ∷ s) = if c == 49 then value (object spawn_event) else no_json

-- The second read begins in the middle of the first one's last line.
chunk_example :
    parse_event_chunk no_text one_is_event ((49 ∷ 10 ∷ 50 ∷ []) ++ (51 ∷ 10 ∷ 49 ∷ 10 ∷ []))
    ≡ both_parsed (parse_event_chunk no_text one_is_event (49 ∷ 10 ∷ 50 ∷ [])) (
        parse_event_chunk no_text one_is_event (
          drop
            (parse_event_chunk no_text one_is_event (49 ∷ 10 ∷ 50 ∷ [])).bytes
            (49 ∷ 10 ∷ 50 ∷ [])
          ++ (51 ∷ 10 ∷ 49 ∷ 10 ∷ [])))
chunk_example =
    parse_event_chunk-append no_text one_is_event (49 ∷ 10 ∷ 50 ∷ []) (51 ∷ 10 ∷ 49 ∷ 10 ∷ [])

both_events :
    parse_event_chunk no_text one_is_event (49 ∷ 10 ∷ 50 ∷ 51 ∷ 10 ∷ 49 ∷ 10 ∷ [])
    ≡ record { events = object spawn_event ∷ object spawn_event ∷ []; bytes = 7; invalid = 1 }
unfolding parse_event_chunk
both_events = refl
