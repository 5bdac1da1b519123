-- ===== src/Protocol/Variants.antt =====
-- events.ts: the variants of an event, each with its tag among its fields.
use Prim.Native.String.{String}
use l4_ide.Prelude.{
  ℕ, true, List, [], ◌∷◌, ◌++◌, ◌≡◌, refl, ap, ◌∙◌, arith, ok, list_key, nat_key, map,
}
use l4_ide.Protocol.{Value, string, Fields, codes, get}
use l4_ide.Protocol.Validate.{
  Check, required, Shape, Part, key, check_fields, obj, literal, int, same_text,
}
use l4_ide.Protocol.Events.{
  variant, one_of, chat_shapes, cloud_shapes, repo_data_path, epoch_ms, attachment_ref,
}
use l4_ide.Protocol.Settled.{
  Settles, itself-Settles, first_field-ok, str-Settles, int-Settles, literal-Settles, json-Settles,
  arr-Settles,
}
use l4_ide.Protocol.Objects.{Lacks, ShapeSettles, obj-Settles}
use l4_ide.Protocol.Spread.{Apart}

pub repo_data_path-Settles : Settles repo_data_path
unfolding repo_data_path
repo_data_path-Settles = itself-Settles repo_data_path same
  where
    same : (v w : Value) (path : List Part) → repo_data_path v path ≡ ok w → v ≡ w
    same v w path h = ground arith

pub ruleset settle_rules = (
  str-Settles, int-Settles, literal-Settles, json-Settles, arr-Settles, obj-Settles,
  repo_data_path-Settles,
)

abbrev pub envelope_shape : Shape
envelope_shape = ("seq", required (int 1 9007199254740991)) ∷ ("ts", required epoch_ms) ∷ []

abbrev pub typed : String → Shape → Shape
typed name shape = ("type", required (one_of (name ∷ []))) ∷ shape

pub same_text_eq : (a b : List ℕ) → same_text a b ≡ true → a ≡ b
same_text_eq a b h = list_key.same_eq a b h

one_of-tag :
    (name : String) (v w : Value) (path : List Part)
    → one_of (name ∷ []) v path ≡ ok w
    → w ≡ string (codes name)
unfolding literal
one_of-tag name v w path h = one_text v h
  where
    one_text : (v : Value) → literal (codes name ∷ []) v path ≡ ok w → w ≡ string (codes name)
    one_text (string s) g = ground (arith, same_text_eq s (codes name))
    one_text v g = absurd (ground arith)

-- Variants beside an envelope of the shape `env`.
module _ (env : Shape) where
  -- A check of an object whose fields settle, with a tag, and apart from those of the envelope.
  pub record IsVariant (tag : List ℕ) (c : Check) : Type 1 where
    pub shape : Shape
    pub is_obj : c ≡ obj shape
    pub settles : ShapeSettles shape
    pub apart : Apart shape env
    pub first_apart : Apart env shape
    pub tagged :
        (fs ws : Fields) (path : List Part)
        → check_fields shape fs path ≡ ok ws
        → get "type" ws ≡ string tag

  abbrev pub FitsEvent : Shape → Type 0
  FitsEvent shape = ShapeSettles shape × Apart shape env × Apart env shape

  -- A variant is one, where its shape settles and is apart from the envelope's.
  pub variant-IsVariant :
      (name : String) (shape : Shape)
      → FitsEvent (typed name shape)
      → IsVariant (codes name) (variant (name, shape)).1
  variant-IsVariant name shape fits = record {
    shape = typed name shape;
    is_obj = refl;
    settles = fits.0;
    apart = fits.1;
    first_apart = fits.2;
    tagged = λ fs ws path h.
        let at : List Part = path ++ (key "type" ∷ []) in
        let parts =
          first_field-ok "type" (one_of (name ∷ []) (get "type" fs) at) (check_fields shape fs path)
            ws (unfold check_fields in h) in
        ap (get "type") parts.4 ∙ one_of-tag name (get "type" fs) parts.0 at parts.2;
  }

  abbrev pub AreVariants : List (String × Check) → Type 1
  AreVariants [] = Unit
  AreVariants ((k, c) ∷ variants) = IsVariant (codes k) c × AreVariants variants

  abbrev pub AllFit : List (String × Shape) → Type 0
  AllFit [] = Unit
  AllFit ((name, shape) ∷ shapes) = FitsEvent (typed name shape) × AllFit shapes

  pub AllFit-append : (a b : List (String × Shape)) → AllFit a → AllFit b → AllFit (a ++ b)
  AllFit-append [] b f g = g
  AllFit-append ((name, shape) ∷ a) b f g = (f.0, AllFit-append a b f.1 g)

  pub variants-AreVariants :
      (shapes : List (String × Shape)) → AllFit shapes → AreVariants (map variant shapes)
  variants-AreVariants [] f = tt
  variants-AreVariants ((name, shape) ∷ shapes) f =
      (variant-IsVariant name shape f.0, variants-AreVariants shapes f.1)

chat-AllFit : (json_text : Value → List ℕ) → AllFit envelope_shape (chat_shapes json_text)
unfolding chat_shapes
chat-AllFit json_text = search settle_rules

attachment_ref-Settles : Settles attachment_ref
attachment_ref-Settles = search settle_rules

cloud-AllFit : AllFit envelope_shape cloud_shapes
unfolding cloud_shapes
cloud-AllFit = search (settle_rules, attachment_ref-Settles)

pub events-AllFit :
    (json_text : Value → List ℕ) → AllFit envelope_shape (chat_shapes json_text ++ cloud_shapes)
events-AllFit json_text =
    AllFit-append envelope_shape (chat_shapes json_text) cloud_shapes (chat-AllFit json_text)
      cloud-AllFit
