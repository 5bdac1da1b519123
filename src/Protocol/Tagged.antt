-- ===== src/Protocol/Tagged.antt =====
-- events.ts and commands.ts: a tagged object beside an envelope, which is returned again as it was returned.
use Prim.Native.String.{String}
use l4_ide.Prelude.{
  ℕ, Bool, true, false, List, [], ◌∷◌, ◌++◌, ◌≡◌, ◌≢◌, refl, sym, ap, ◌∙◌, subst, arith,
  if◌then◌else◌, ok, err, map,
}
use l4_ide.Protocol.{
  Value, undefined, null_value, boolean, whole, negative, fraction, string, array, object, Fields,
  codes, get, spread,
}
use l4_ide.Protocol.Validate.{
  Check, Checked, Shape, Part, key, check_fields, obj, object_of, same_text, variant_for, union,
  tagged, fail, unknown_tag,
}
use l4_ide.Protocol.Events.{variant, merged}
use l4_ide.Protocol.Settled.{object_of-ok}
use l4_ide.Protocol.Objects.{Lacks, ShapeSettles, check_fields-settled, get-check_fields}
use l4_ide.Protocol.Spread.{
  get-spread, HasDistinctNames, check_fields-Unique, spread-Agree_first, spread-Agree_second,
}
use l4_ide.Protocol.Variants.{IsVariant, AreVariants, AllFit, variants-AreVariants, same_text_eq}

ShapeSettles-HasDistinctNames : (shape : Shape) → ShapeSettles shape → HasDistinctNames shape
ShapeSettles-HasDistinctNames [] s = tt
ShapeSettles-HasDistinctNames ((k, r) ∷ shape) s = (s.1, ShapeSettles-HasDistinctNames shape s.2)

-- A variant that returns is one of the table's, with the name that was looked for.
variant_for-IsVariant :
    (env : Shape) (s : List ℕ) (variants : List (String × Check)) (otherwise : Check) (v w : Value)
    (path : List Part)
    → AreVariants env variants
    → variant_for s variants otherwise v path ≡ ok w
    → ((u : Value) (at : List Part) → otherwise u at ≢ ok w)
    → IsVariant env s (variant_for s variants otherwise)
unfolding variant_for
variant_for-IsVariant env s [] otherwise v w path are h none_else = absurd (none_else v path h)
variant_for-IsVariant env s ((k, c) ∷ variants) otherwise v w path are h none_else =
    by_test (same_text s (codes k)) refl h
      (λ g. variant_for-IsVariant env s variants otherwise v w path are.1 g none_else)
  where
    by_test :
        (b : Bool)
        → same_text s (codes k) ≡ b
        → (if b then c else variant_for s variants otherwise) v path ≡ ok w
        → (variant_for s variants otherwise v path ≡ ok w
            → IsVariant env s (variant_for s variants otherwise))
        → IsVariant env s (if b then c else variant_for s variants otherwise)
    by_test true e g ih =
        subst (λ (x : List ℕ). IsVariant env x c) (sym (same_text_eq s (codes k) e)) are.0
    by_test false e g ih = ih g

merged-ok :
    (x y : Checked) (w : Value)
    → merged x y ≡ ok w
    → (a : Value) × (b : Value) × (x ≡ ok a) × (y ≡ ok b)
merged-ok (ok a) (ok b) w h = (a, b, refl, refl)
merged-ok (ok a) (err e) w h = absurd (one_side a h)
  where
    one_side : (a : Value) → merged (ok a) (err e) ≡ ok w → ⊥
    one_side a g = ground arith
merged-ok (err e) y w h = absurd (ground arith)

module _ (env : Shape) (shapes : List (String × Shape)) (settles : ShapeSettles env)
    (no_type : Lacks "type" env) (fit : AllFit env shapes) where
  -- The envelope's fields, and those of the variant that the tag selects.
  abbrev pub tagged_object : Check
  tagged_object v path = merged (obj env v path) (union "type" (map variant shapes) v path)

  abbrev pub table : List (String × Check)
  table = map variant shapes

  abbrev pub unknown : Check
  unknown u at = fail unknown_tag (at ++ (key "type" ∷ []))

  -- The check that the tag of an object selects.
  pub record Selected (fs : Fields) (w : Value) (path : List Part) : Type 1 where
    pub tag : List ℕ
    pub tag_is : get "type" fs ≡ string tag
    pub selected : IsVariant env tag (variant_for tag table unknown)
    pub returned : variant_for tag table unknown (object fs) path ≡ ok w

  pub union-Selected :
      (fs : Fields) (w : Value) (path : List Part)
      → union "type" table (object fs) path ≡ ok w
      → Selected fs w path
  unfolding union
  union-Selected fs w path h = by_tag (get "type" fs) refl h
    where
      by_tag :
          (t : Value)
          → get "type" fs ≡ t
          → tagged "type" table fs t (object fs) path ≡ ok w
          → Selected fs w path
      by_tag (string s) e g = record {
        tag = s;
        tag_is = e;
        selected =
            variant_for-IsVariant env s table unknown (object fs) w path
              (variants-AreVariants env shapes fit) g (λ u at bad. absurd (ground arith));
        returned = g;
      }
      by_tag undefined e g = absurd (cc)
      by_tag null_value e g = absurd (cc)
      by_tag (boolean b) e g = absurd (cc)
      by_tag (whole n) e g = absurd (cc)
      by_tag (negative n) e g = absurd (cc)
      by_tag (fraction n) e g = absurd (cc)
      by_tag (array xs) e g = absurd (cc)
      by_tag (object o) e g = absurd (cc)

  pub union-tag :
      (gs : Fields) (s : List ℕ) (path : List Part)
      → get "type" gs ≡ string s
      → union "type" table (object gs) path ≡ variant_for s table unknown (object gs) path
  unfolding union
  union-tag gs s path e = ap (λ (t : Value). tagged "type" table gs t (object gs) path) e

  -- What both parts of the check have made.
  pub record Made (fs : Fields) (w : Value) (path : List Part) : Type 1 where
    pub first : Fields
    pub first_made : check_fields env fs path ≡ ok first
    pub second : Fields
    pub selects : Selected fs (object second) path
    pub second_made : check_fields selects.selected.shape fs path ≡ ok second
    pub whole_is : w ≡ object (spread first second)

  pub tagged_object-Made :
      (fs : Fields) (w : Value) (path : List Part)
      → tagged_object (object fs) path ≡ ok w
      → Made fs w path
  unfolding obj
  tagged_object-Made fs w path h =
      let x : Checked = object_of (check_fields env fs path) in
      let y : Checked = union "type" table (object fs) path in
      let parts = merged-ok x y w h in
      let a = object_of-ok (check_fields env fs path) parts.0 parts.2 in
      let sel = union-Selected fs parts.1 path parts.3 in
      let by_obj : object_of (check_fields sel.selected.shape fs path) ≡ ok parts.1 =
        (λ i. sym sel.selected.is_obj i (object fs) path) ∙ sel.returned in
      let b = object_of-ok (check_fields sel.selected.shape fs path) parts.1 by_obj in
      record {
        first = a.0;
        first_made = a.1;
        second = b.0;
        selects = record {
          tag = sel.tag;
          tag_is = sel.tag_is;
          selected = sel.selected;
          returned =
              subst (λ (v : Value). variant_for sel.tag table unknown (object fs) path ≡ ok v) b.2
                sel.returned;
        };
        second_made = b.1;
        whole_is = sym (
            ok_same w (object (spread a.0 b.0))
              (sym h ∙ (λ i. merged ((parts.2 ∙ ap ok a.2) i) ((parts.3 ∙ ap ok b.2) i))));
      }
    where
      ok_same : (u v : Value) → ◌≡◌ {A = Checked} (ok u) (ok v) → v ≡ u
      ok_same u v e = ground arith

  -- What the check has returned, it returns again.
  pub tagged_object-settled :
      (v w : Value) (path : List Part) → tagged_object v path ≡ ok w → tagged_object w path ≡ ok w
  unfolding obj
  tagged_object-settled (object fs) w path h =
      let m = tagged_object-Made fs w path h in
      let var = m.selects.selected in
      let all : Fields = spread m.first m.second in
      let unique =
        check_fields-Unique var.shape fs m.second path
          (ShapeSettles-HasDistinctNames var.shape var.settles) m.second_made in
      let agree =
        spread-Agree_second var.shape env fs m.first m.second path var.apart m.first_made unique in
      let first_again =
        check_fields-settled env fs m.first all path settles m.first_made (
          spread-Agree_first env var.shape fs m.first m.second path var.first_apart
            m.second_made) in
      let second_again =
        check_fields-settled var.shape fs m.second all path var.settles m.second_made agree in
      let tag_again : get "type" all ≡ string m.selects.tag =
        get-spread "type" m.first m.second
          (get-check_fields "type" env fs m.first path no_type m.first_made) unique
        ∙ var.tagged fs m.second path m.second_made in
      let union_again : union "type" table (object all) path ≡ ok (object m.second) =
        union-tag all m.selects.tag path tag_again
        ∙ (λ i. var.is_obj i (object all) path)
        ∙ ap object_of second_again in
      subst (λ (x : Value). tagged_object x path ≡ ok x) (sym m.whole_is)
        (λ i. merged (ap object_of first_again i) (union_again i))
  tagged_object-settled v w path h = absurd (ground arith)
