-- ===== src/Protocol/Declared.antt =====
-- validate.ts: no field flows further than a check that does not declare it.
use Prim.Native.String.{String}
use text.Mathlib.Text.{◌==◌}
use l4_ide.Prelude.{
  ℕ, Bool, true, false, List, [], ◌∷◌, ◌++◌, ◌≡◌, ◌≢◌, refl, subst, arith, if◌then◌else◌, ok, map,
}
use l4_ide.Protocol.{Value, object, Fields, end, field, codes, put, spread}
use l4_ide.Protocol.Validate.{Check, Shape, Part, check_fields, obj, same_text, variant_for}
use l4_ide.Protocol.Events.{variant, chat_shapes, cloud_shapes, cloud_event, envelope, payload}
use l4_ide.Protocol.Settled.{object_of-ok}
use l4_ide.Protocol.Objects.{Lacks, ShapeSettles}
use l4_ide.Protocol.Spread.{Without, check_fields-Without}
use l4_ide.Protocol.Variants.{typed, AllFit, envelope_shape, events-AllFit}
use l4_ide.Protocol.Tagged.{tagged_object, tagged_object-Made, unknown}
use l4_ide.Protocol.Reader.{envelope-ShapeSettles}

-- No variant of the table has a field of the name.
abbrev pub AllLack : String → List (String × Shape) → Type 0
AllLack k [] = Unit
AllLack k ((name, shape) ∷ shapes) = Lacks k (typed name shape) × AllLack k shapes

put-Without :
    (j k : String) (v : Value) (fs : Fields)
    → (j == k) ≡ false
    → Without k fs
    → Without k (put j v fs)
put-Without j k v end h w = (h, tt)
put-Without j k v (field i u fs) h w = by_name (i == j) (put-Without j k v fs h w.1)
  where
    by_name :
        (b : Bool)
        → Without k (put j v fs)
        → Without k (if b then field j v fs else field i u (put j v fs))
    by_name true ih = (h, w.1)
    by_name false ih = (w.0, ih)

spread-Without : (k : String) (a b : Fields) → Without k a → Without k b → Without k (spread a b)
spread-Without k a end h g = h
spread-Without k a (field j v b) h g =
    spread-Without k (put j v a) b (put-Without j k v a g.0 h) g.1

variant_for-Without :
    (k : String) (s : List ℕ) (shapes : List (String × Shape)) (otherwise : Check) (fs ws : Fields)
    (path : List Part)
    → AllLack k shapes
    → variant_for s (map variant shapes) otherwise (object fs) path ≡ ok (object ws)
    → ((u : Value) (at : List Part) → otherwise u at ≢ ok (object ws))
    → Without k ws
unfolding variant_for obj
variant_for-Without k s [] otherwise fs ws path lack h none_else =
    absurd (none_else (object fs) path h)
variant_for-Without k s ((name, shape) ∷ shapes) otherwise fs ws path lack h none_else =
    by_test (same_text s (codes name)) h
      (λ g. variant_for-Without k s shapes otherwise fs ws path lack.1 g none_else)
  where
    by_test :
        (b : Bool)
        → (if b then (variant (name, shape)).1 else variant_for s (map variant shapes) otherwise)
            (object fs)
            path
          ≡ ok (object ws)
        → (variant_for s (map variant shapes) otherwise (object fs) path ≡ ok (object ws)
            → Without k ws)
        → Without k ws
    by_test true g ih =
        let made = object_of-ok (check_fields (typed name shape) fs path) (object ws) g in
        let same : made.0 ≡ ws = let e = made.2 in ground arith in
        subst (Without k) same
          (check_fields-Without k (typed name shape) fs made.0 path lack.0 made.1)
    by_test false g ih = ih g

module _ (env : Shape) (shapes : List (String × Shape)) (settles : ShapeSettles env)
    (no_type : Lacks "type" env) (fit : AllFit env shapes) where
  pub tagged_object-Without :
      (k : String) (fs : Fields) (w : Value) (path : List Part)
      → Lacks k env
      → AllLack k shapes
      → tagged_object env shapes settles no_type fit (object fs) path ≡ ok w
      → (ws : Fields) × (w ≡ object ws) × Without k ws
  tagged_object-Without k fs w path first_lacks lack h =
      let m = tagged_object-Made env shapes settles no_type fit fs w path h in
      (
        spread m.first m.second,
        m.whole_is,
        spread-Without k m.first m.second
            (check_fields-Without k env fs m.first path first_lacks m.first_made)
            (variant_for-Without k m.selects.tag shapes (unknown env shapes settles no_type fit) fs
              m.second path lack m.selects.returned (λ u at bad. absurd (ground arith))),
      )

-- A field that neither the envelope nor a variant declares is in no event that the check returns.
pub cloud_event-declared :
    (json_text : Value → List ℕ) (k : String) (fs : Fields) (w : Value) (path : List Part)
    → Lacks k envelope_shape
    → AllLack k (chat_shapes json_text ++ cloud_shapes)
    → cloud_event json_text (object fs) path ≡ ok w
    → (ws : Fields) × (w ≡ object ws) × Without k ws
unfolding cloud_event envelope payload
cloud_event-declared json_text k fs w path first_lacks lack h =
    tagged_object-Without envelope_shape (chat_shapes json_text ++ cloud_shapes)
      envelope-ShapeSettles (refl, (refl, tt)) (events-AllFit json_text) k fs w path first_lacks
      lack h
