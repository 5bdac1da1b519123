-- ===== src/EventLog/Readable.antt =====
-- event-log.ts: a reader's check accepts all that it finds in the log.
use l4_ide.Prelude.{ℕ, suc, Option, none, some, List, [], ◌∷◌, ◌≡◌, refl, map, ok}
use l4_ide.Protocol.{Value}
use l4_ide.Protocol.Events.{cloud_event}
use l4_ide.Protocol.Reader.{cloud_event-settled}
use l4_ide.Protocol.{object}
use l4_ide.EventLog.{Payload, Event}
use l4_ide.EventLog.Disk.{number_events, validated, line, head_of, event_path}
use l4_ide.EventLog.Steps.{Input, read_log}
use l4_ide.EventLog.Valid.{validated-IsFrom}
use l4_ide.EventLog.Delivers.{new_world}
use l4_ide.EventLog.Delivery.{IsNumbered, run_of, published_in_order}

module _ (json_text : Value → List ℕ) where
  -- `parseCloudEvent` returns each event's object as it stands.
  abbrev pub AreReadable : List Event → Type 0
  AreReadable [] = Unit
  AreReadable (e ∷ es) =
      (cloud_event json_text e.content event_path ≡ ok e.content) × AreReadable es

module _ (json_text : Value → List ℕ) (now : ℕ → ℕ) (json_bytes : Event → ℕ) (delays : List ℕ) where
  number_events-AreReadable :
      (n : ℕ) (ps : List Payload) → AreReadable json_text (number_events json_text now n ps)
  unfolding number_events
  number_events-AreReadable n [] = tt
  number_events-AreReadable n (p ∷ ps) =
      by_event (validated json_text now (suc n) p) refl (number_events-AreReadable n ps)
        (number_events-AreReadable (suc n) ps)
    where
      by_event :
          (o : Option Event)
          → validated json_text now (suc n) p ≡ o
          → AreReadable json_text (number_events json_text now n ps)
          → AreReadable json_text (number_events json_text now (suc n) ps)
          → AreReadable json_text (elim o [
            | none ↦ number_events json_text now n ps
            | some e ↦ e ∷ number_events json_text now (suc n) ps
          ])
      by_event none h here later = here
      by_event (some e) h here later =
          let from = validated-IsFrom json_text now (suc n) p e h in
          (
            cloud_event-settled json_text (object from.given) e.content event_path from.checked,
            later,
          )

  -- Whatever happens to the log and to its disk, a reader finds whole lines of events that are numbered from 1
  -- on, and the protocol's check returns each of them unchanged.
  pub published_readable :
      (is : List Input)
      → (es : List Event) × (read_log json_bytes
            (head_of (run_of json_text now json_bytes delays is new_world).storage)
            (run_of json_text now json_bytes delays is new_world).storage.files
          ≡ map line es)
        × IsNumbered 0 es
        × AreReadable json_text es
  published_readable is =
      let found = published_in_order json_text now json_bytes delays is in
      (number_events json_text now 0 found.0, found.2, found.3, number_events-AreReadable 0 found.0)
