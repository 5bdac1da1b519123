-- ===== src/Examples/EventLog.antt =====
-- The theorems on the event log at concrete inputs.
use Prim.Native.Nat.{◌/◌, ◌^◌}
use l4_ide.Prelude.{
  none, ok, map, take, ℕ, zero, suc, ◌+◌, true, false, some, List, [], ◌∷◌, ◌++◌, ◌≡◌, refl, arith,
  length, ◌==◌, if◌then◌else◌,
}
use l4_ide.EventLog.{
  Payload, text_delta, other_event, Event, Head, emit, take_delta, schedule_flush, collect,
  write_pending, begin_write, schedule_retry, delay_at,
}
use l4_ide.Protocol.{array, cons, nil, Value, string, object, whole, Fields, field, end, codes, get}
use l4_ide.Protocol.Events.{cloud_event}
use l4_ide.Protocol.Validate.{fail, longer, key, index}
use l4_ide.EventLog.Opens.{has_fault}
use l4_ide.EventLog.Shrink.{
  shrink_field, shrink_value, shrink_text, strip_note, original_length, match_note,
}
use l4_ide.EventLog.Disk.{
  fine, fails, Storage, line, write, number_events, torn, head_of, event_path, candidate, validated,
  validated, validated_from, check_fence, call, make_clean, truncate_to, cut, write_events,
  write_lines, commit, append_to_file, remove_file, write_head,
}
use l4_ide.EventLog.Steps.{
  Input, emitted, write_begins, write_ends, flush_fires, run, step, end_write, read_log,
  segments_below,
}
use l4_ide.EventLog.Rules.{Ends}
use l4_ide.EventLog.Writes.{Holds}
use l4_ide.EventLog.Publish.{write-Ends}
use l4_ide.EventLog.Recovery.{open_log}
use l4_ide.EventLog.Notes.{told_length, shrink_text-counts}
use l4_ide.Doubles.{finite, to_number, number_text}
use l4_ide.EventLog.Attempts.{delta_written}
use l4_ide.EventLog.Halving.{delta_payload}
use l4_ide.EventLog.Valid.{validated-readable}
use l4_ide.EventLog.Readable.{AreReadable, published_readable}
use l4_ide.EventLog.Limits.{read_segment, segments_bounded}
use l4_ide.EventLog.Bounds.{Fits}
use l4_ide.EventLog.Reopen.{Resumed, open_resumes}
use l4_ide.EventLog.Stream.{Atom, atoms}
use l4_ide.EventLog.Delivers.{new_world, sent_before_close}
use l4_ide.EventLog.Delivery.{Finds, IsNumbered, run_of, published_in_order}
use l4_ide.EventLog.Flush.{flush_inputs, flush_publishes}

-- No JSON value is too large.
abbrev no_text : Value → List ℕ
no_text v = []

abbrev clock : ℕ → ℕ
clock n = 1700000000000 + n

abbrev conversation : List ℕ
conversation = codes "c1"

abbrev repeat : ℕ → List ℕ
repeat zero = []
repeat (suc n) = 120 ∷ repeat n

-- A turn's end, with a reason that is longer than 64 characters for a large number.
abbrev done_fields : List ℕ → Fields
done_fields reason =
    field "type" (string (codes "done"))
      (field "conversationId" (string conversation) (field "finishReason" (string reason) end))

abbrev done_event : ℕ → Payload
done_event n = other_event (done_fields (repeat n))

abbrev line_of : ℕ → Fields → Event
line_of n fs = record {
  seq = n;
  content = object (field "seq" (whole n) (field "ts" (whole (clock n)) fs));
}

abbrev text_fields : List ℕ → Fields
text_fields s =
    field "type" (string (codes "text-delta"))
      (field "conversationId" (string conversation) (field "text" (string s) end))

abbrev ten_bytes : Event → ℕ
ten_bytes e = 9

-- Two deltas are joined, a write fails in the middle of its lines, and more comes in while it runs.
abbrev busy : List Input
busy =
    emitted (text_delta conversation (104 ∷ []))
    ∷ emitted (text_delta conversation (105 ∷ []))
    ∷ emitted (done_event 70)
    ∷ flush_fires
    ∷ write_begins
    ∷ emitted (text_delta conversation (33 ∷ []))
    ∷ write_ends (fine ∷ fine ∷ fails 12 ∷ [])
    ∷ []

published_example :
    (done : List Payload) × (rest : List Atom) × Finds no_text clock ten_bytes
      (500 ∷ [])
      (run_of no_text clock ten_bytes (500 ∷ []) busy new_world)
      done
    × IsNumbered 0 (number_events no_text clock 0 done)
    × (atoms done ++ rest ≡ atoms (sent_before_close busy))
    × ((run_of no_text clock ten_bytes (500 ∷ []) busy new_world).log.seq
        ≡ length (number_events no_text clock 0 done))
published_example = published_in_order no_text clock ten_bytes (500 ∷ []) busy

-- After the failure and a flush, a reader finds both lines, then the text that came in meanwhile.
after_flush :
    read_log ten_bytes
      (record { segment = 1; length = 30 })
      (run_of no_text clock ten_bytes
        (500 ∷ [])
        flush_inputs
        (run_of no_text clock ten_bytes (500 ∷ []) busy new_world)).storage.files
    ≡ line (line_of 1 (text_fields (104 ∷ 105 ∷ [])))
      ∷ line (line_of 2 (done_fields (repeat 35 ++ codes "…[truncated 35 chars]")))
      ∷ line (line_of 3 (text_fields (33 ∷ [])))
      ∷ []
unfolding run step emit take_delta schedule_flush collect write_pending begin_write end_write
    schedule_retry delay_at number_events validated validated_from shrink_field shrink_value
    shrink_text cloud_event write check_fence call make_clean truncate_to cut write_events
    write_lines commit append_to_file remove_file write_head read_log segments_below
after_flush = refl

flush_example :
    (done : List Payload) × Finds no_text clock ten_bytes
      (500 ∷ [])
      (run_of no_text clock ten_bytes
        (500 ∷ [])
        flush_inputs
        (run_of no_text clock ten_bytes (500 ∷ []) busy new_world))
      done
    × (atoms done ≡ atoms (sent_before_close busy))
unfolding run step emit take_delta schedule_flush collect write_pending begin_write end_write
    schedule_retry delay_at number_events validated validated_from shrink_field shrink_value
    shrink_text cloud_event write check_fence call make_clean truncate_to cut write_events
    write_lines commit append_to_file remove_file write_head
flush_example = flush_publishes no_text clock ten_bytes (500 ∷ []) busy refl refl

-- One event is published, and a write that failed has left 4 bytes after it.
abbrev torn_storage : Storage
torn_storage = record {
  files = λ k. if k == 1 then line (line_of 1 (done_fields (repeat 2))) ∷ torn 3 ∷ [] else [];
  head_file = some (record { segment = 1; length = 10 });
  faults = [];
}

abbrev one_head : Head
one_head = record { segment = 1; length = 10 }

abbrev one_event : List Event
one_event = line_of 1 (done_fields (repeat 2)) ∷ []

torn_storage-Holds : Holds ten_bytes torn_storage one_head true one_event
unfolding segments_below
torn_storage-Holds = record {
  current = line (line_of 1 (done_fields (repeat 2))) ∷ [];
  rest = torn 3 ∷ [];
  shown = refl;
  file = refl;
  exact = refl;
  content = refl;
  clean = λ e. absurd (cc);
}

write_example :
    Ends
      (write ten_bytes true one_head (line_of 2 (done_fields (repeat 3)) ∷ []) torn_storage)
      (λ h' t. Holds ten_bytes t h' false (one_event ++ (line_of 2 (done_fields (repeat 3)) ∷ [])))
      (λ t. Holds ten_bytes t one_head true one_event)
write_example =
    write-Ends ten_bytes one_head one_event true (line_of 2 (done_fields (repeat 3)) ∷ [])
      torn_storage torn_storage-Holds

open_example :
    Ends
      (open_log ten_bytes torn_storage)
      (Resumed ten_bytes one_head one_event)
      (λ t. Holds ten_bytes t one_head true one_event × (has_fault torn_storage.faults ≡ true))
open_example =
    open_resumes ten_bytes torn_storage one_head true one_event torn_storage-Holds refl refl
      (refl, tt) (omega arith)

valid_example :
    (ws : Fields) × ((line_of 2 (done_fields (repeat 35 ++ codes "…[truncated 35 chars]"))).content
      ≡ object ws)
    × (get "seq" ws ≡ whole 2)
    × (cloud_event no_text
          (line_of 2 (done_fields (repeat 35 ++ codes "…[truncated 35 chars]"))).content
          event_path
        ≡ ok (line_of 2 (done_fields (repeat 35 ++ codes "…[truncated 35 chars]"))).content)
unfolding validated validated_from shrink_field shrink_value shrink_text cloud_event
valid_example =
    validated-readable no_text clock 2 (done_event 70)
      (line_of 2 (done_fields (repeat 35 ++ codes "…[truncated 35 chars]")))
      (refl, (refl, (refl, tt))) refl

readable_example :
    (es : List Event) × (read_log ten_bytes
        (head_of (run_of no_text clock ten_bytes (500 ∷ []) busy new_world).storage)
        (run_of no_text clock ten_bytes (500 ∷ []) busy new_world).storage.files
      ≡ map line es)
    × IsNumbered 0 es
    × AreReadable no_text es
readable_example = published_readable no_text clock ten_bytes (500 ∷ []) busy

-- A line that is longer than a segment has one of its own.
abbrev long_bytes : Event → ℕ
long_bytes e = 2000000

bounds_example : Fits long_bytes (
    read_segment long_bytes
      (head_of
        (run_of no_text clock long_bytes (500 ∷ []) (busy ++ flush_inputs) new_world).storage)
      (run_of no_text clock long_bytes (500 ∷ []) (busy ++ flush_inputs) new_world).storage.files
      2)
unfolding run step emit take_delta schedule_flush collect write_pending begin_write end_write
    schedule_retry delay_at number_events validated validated_from shrink_field shrink_value
    shrink_text cloud_event write check_fence call make_clean truncate_to cut write_events
    write_lines commit append_to_file remove_file write_head
bounds_example =
    segments_bounded no_text clock long_bytes (500 ∷ []) (busy ++ flush_inputs) 2 (omega arith)

delta_example :
    (e : Event) × (validated no_text clock 3 (delta_payload false conversation (repeat 5)) ≡ some e)
unfolding match_note
delta_example =
    delta_written no_text clock 3 conversation (omega arith) (omega arith) (omega arith) refl false
      (repeat 5) refl (omega arith)

-- A text that was cut before.
abbrev cut_before : List ℕ
cut_before = repeat 9 ++ codes "…[truncated 91 chars]"

abbrev cut_again : List ℕ
cut_again = repeat 4 ++ codes "…[truncated 96 chars]"

counts_example :
    (strip_note cut_again ≡ take (length (strip_note cut_before) / 2) (strip_note cut_before))
    × (told_length cut_again ≡ told_length cut_before)
    × (original_length cut_before ≡ finite (told_length cut_before))
    × (original_length cut_again ≡ finite (told_length cut_before))
unfolding shrink_text told_length
counts_example = shrink_text-counts cut_before cut_again (omega arith) refl

-- Numbers that are rounded, and how they are printed.
rounded_text : number_text (to_number 9223372036854775807) ≡ codes "9223372036854776000"
unfolding number_text
rounded_text = refl

large_text : number_text (to_number 1234567890123456789012345) ≡ codes "1.2345678901234568e+24"
unfolding number_text
large_text = refl

power_text : number_text (to_number (10 ^ 21)) ≡ codes "1e+21"
unfolding number_text
power_text = refl

infinite_text : number_text (to_number (10 ^ 309)) ≡ codes "Infinity"
unfolding number_text
infinite_text = refl

-- An event whose source has an address that is longer than 4096 characters.
abbrev long_source : Payload
long_source = other_event (
    field "type" (string (codes "tool-activity")) (
      field "conversationId" (string conversation) (
        field "tool" (string (codes "search")) (
          field "status" (string (codes "done")) (
            field "message" (string []) (
              field "sources" (array (cons (object (field "url" (string (repeat 4097)) end)) nil))
                end))))))

-- The check finds the address too long. The event is dropped, and its field is not cut.
long_source_dropped :
    (cloud_event no_text (object (candidate no_text clock 1 long_source)) event_path
      ≡ fail longer (key "event" ∷ key "sources" ∷ index 0 ∷ key "url" ∷ []))
    × (validated no_text clock 1 long_source ≡ none)
unfolding validated validated_from shrink_field shrink_value cloud_event
long_source_dropped = (refl, refl)
