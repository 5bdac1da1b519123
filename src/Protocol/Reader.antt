-- ===== src/Protocol/Reader.antt =====
-- events.ts: an event that `cloudEvent` has returned is returned by it again.
use l4_ide.Prelude.{ℕ, List, [], ◌∷◌, ◌++◌, ◌≡◌, refl, sym, ap, ◌∙◌, ok}
use l4_ide.Protocol.{Value, object, Fields, get, spread}
use l4_ide.Protocol.Validate.{
  Check, Shape, Part, key, check_fields, required, int, max_safe_integer,
}
use l4_ide.Protocol.Events.{chat_shapes, cloud_shapes, cloud_event, envelope, payload, epoch_ms}
use l4_ide.Protocol.Settled.{first_field-ok, int_itself}
use l4_ide.Protocol.Objects.{ShapeSettles}
use l4_ide.Protocol.Spread.{get-spread-Without, check_fields-Without}
use l4_ide.Protocol.Variants.{envelope_shape, settle_rules, events-AllFit}
use l4_ide.Protocol.Tagged.{tagged_object-Made, tagged_object-settled}

pub envelope-ShapeSettles : ShapeSettles envelope_shape
envelope-ShapeSettles = search settle_rules

module _ (json_text : Value → List ℕ) where
  -- An event that the check has returned is accepted by a reader as it stands.
  pub cloud_event-settled :
      (v w : Value) (path : List Part)
      → cloud_event json_text v path ≡ ok w
      → cloud_event json_text w path ≡ ok w
  unfolding cloud_event envelope payload
  cloud_event-settled v w path h =
      tagged_object-settled envelope_shape (chat_shapes json_text ++ cloud_shapes)
        envelope-ShapeSettles (refl, (refl, tt)) (events-AllFit json_text) v w path h

  -- The event has the number that was given.
  pub cloud_event-seq :
      (fs : Fields) (w : Value) (path : List Part)
      → cloud_event json_text (object fs) path ≡ ok w
      → (ws : Fields) × (w ≡ object ws) × (get "seq" ws ≡ get "seq" fs)
  unfolding check_fields cloud_event envelope payload
  cloud_event-seq fs w path h =
      let m =
        tagged_object-Made envelope_shape (chat_shapes json_text ++ cloud_shapes)
          envelope-ShapeSettles (refl, (refl, tt)) (events-AllFit json_text) fs w path h in
      let var = m.selects.selected in
      let at : List Part = path ++ (key "seq" ∷ []) in
      let rest : Shape = ("ts", required epoch_ms) ∷ [] in
      let number : Check = int 1 max_safe_integer in
      let parts =
        first_field-ok "seq" (number (get "seq" fs) at) (check_fields rest fs path) m.first
          m.first_made in
      (
        spread m.first m.second,
        m.whole_is,
        get-spread-Without "seq" m.first m.second (
              check_fields-Without "seq" var.shape fs m.second path var.first_apart.0 m.second_made)
            ∙ ap (get "seq") parts.4
            ∙ sym (int_itself 1 max_safe_integer (get "seq" fs) parts.0 at parts.2),
      )
