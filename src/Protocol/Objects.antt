-- ===== src/Protocol/Objects.antt =====
-- validate.ts: what a shape's checks return has the fields of the shape, and is returned again unchanged.
use Prim.Native.String.{String}
use text.Mathlib.Text.{◌==◌}
use text.Mathlib.TextEquality.{eq_iff}
use l4_ide.Prelude.{
  Bool, true, false, List, [], ◌∷◌, ◌++◌, ◌≡◌, refl, sym, ap, ◌∙◌, subst, arith, if◌then◌else◌, ok,
}
use l4_ide.Protocol.{
  Value, undefined, null_value, boolean, whole, negative, fraction, string, array, object, Fields,
  end, field, get, is_nullish,
}
use l4_ide.Protocol.Validate.{
  Checked, Rule, required, optional, Shape, Part, key, obj, first_field, object_of, check_fields,
}
use l4_ide.Protocol.Settled.{Settles, first_field-ok, object_of-ok}

-- No field of the shape has the name.
abbrev pub Lacks : String → Shape → Type 0
Lacks k [] = Unit
Lacks k ((j, r) ∷ shape) = ((j == k) ≡ false) × Lacks k shape

abbrev pub RuleSettles : Rule → Type 0
RuleSettles (required c) = Settles c
RuleSettles (optional c) = Settles c

-- The names differ, and the checks settle.
abbrev pub ShapeSettles : Shape → Type 0
ShapeSettles [] = Unit
ShapeSettles ((k, r) ∷ shape) = RuleSettles r × Lacks k shape × ShapeSettles shape

-- The objects have the same fields of the shape.
abbrev pub Agree : Shape → Fields → Fields → Type 0
Agree [] fs gs = Unit
Agree ((k, r) ∷ shape) fs gs = (get k fs ≡ get k gs) × Agree shape fs gs

pub Agree-refl : (shape : Shape) (fs : Fields) → Agree shape fs fs
Agree-refl [] fs = tt
Agree-refl ((k, r) ∷ shape) fs = (refl, Agree-refl shape fs)

-- A field that the shape lacks is not in what is made of it.
pub get-check_fields :
    (k : String) (shape : Shape) (fs ws : Fields) (path : List Part)
    → Lacks k shape
    → check_fields shape fs path ≡ ok ws
    → get k ws ≡ undefined
unfolding check_fields
get-check_fields k [] fs ws path lacks h = let e : end ≡ ws = ground arith in ap (get k) (sym e)
get-check_fields k ((j, required c) ∷ shape) fs ws path lacks h =
    let parts =
      first_field-ok j (c (get j fs) (path ++ (key j ∷ []))) (check_fields shape fs path) ws h in
    ap (get k) parts.4 ∙ rw lacks.0 (get-check_fields k shape fs parts.1 path lacks.1 parts.3)
get-check_fields k ((j, optional c) ∷ shape) fs ws path lacks h =
    by_test (is_nullish (get j fs)) (λ gs. get-check_fields k shape fs gs path lacks.1) h
  where
    by_test :
        (b : Bool)
        → ((gs : Fields) → check_fields shape fs path ≡ ok gs → get k gs ≡ undefined)
        → (if b
            then check_fields shape fs path
            else first_field j (c (get j fs) (path ++ (key j ∷ []))) (check_fields shape fs path))
          ≡ ok ws
        → get k ws ≡ undefined
    by_test true ih g = ih ws g
    by_test false ih g =
        let parts =
          first_field-ok j (c (get j fs) (path ++ (key j ∷ []))) (check_fields shape fs path) ws
            g in
        ap (get k) parts.4 ∙ rw lacks.0 (ih parts.1 parts.3)

same_name : (k : String) → (k == k) ≡ true
same_name k = (eq_iff k k).1 refl

other_name : (j k : String) → (j == k) ≡ false → (k == j) ≡ false
other_name j k h = ground (arith, eq_iff j k, eq_iff k j)

get-field : (k : String) (v : Value) (fs : Fields) → get k (field k v fs) ≡ v
get-field k v fs = rw (same_name k) refl

-- The fields after the first.
Agree-rest :
    (k : String) (v : Value) (shape : Shape) (fs gs : Fields)
    → Lacks k shape
    → Agree shape (field k v fs) gs
    → Agree shape fs gs
Agree-rest k v [] fs gs lacks a = tt
Agree-rest k v ((j, r) ∷ shape) fs gs lacks a = (
  sym (first_other (k == j) (other_name j k lacks.0)) ∙ a.0,
  Agree-rest k v shape fs gs lacks.1 a.1,
)
  where
    first_other : (b : Bool) → b ≡ false → (if b then v else get j fs) ≡ get j fs
    first_other true e = absurd (cc)
    first_other false e = refl

-- An object with the fields that were made is checked as they were.
pub check_fields-settled :
    (shape : Shape) (fs ws gs : Fields) (path : List Part)
    → ShapeSettles shape
    → check_fields shape fs path ≡ ok ws
    → Agree shape ws gs
    → check_fields shape gs path ≡ ok ws
unfolding check_fields
check_fields-settled [] fs ws gs path s h a = h
check_fields-settled ((k, required c) ∷ shape) fs ws gs path s h a =
    let at : List Part = path ++ (key k ∷ []) in
    let parts = first_field-ok k (c (get k fs) at) (check_fields shape fs path) ws h in
    let made : ws ≡ field k parts.0 parts.1 = parts.4 in
    let given : parts.0 ≡ get k gs =
      sym (get-field k parts.0 parts.1) ∙ ap (get k) (sym made) ∙ a.0 in
    let agree = subst (λ (x : Fields). Agree shape x gs) made a.1 in
    let ih =
      check_fields-settled shape fs parts.1 gs path s.2 parts.3
        (Agree-rest k parts.0 shape parts.1 gs s.1 agree) in
    (λ i. first_field k (c (sym given i) at) (ih i))
    ∙ ap (λ (x : Checked). first_field k x (ok parts.1)) (s.0 (get k fs) parts.0 at parts.2).0
    ∙ ap ok (sym made)
check_fields-settled ((k, optional c) ∷ shape) fs ws gs path s h a =
    by_test (is_nullish (get k fs)) refl h (λ xs. check_fields-settled shape fs xs gs path s.2)
  where
    at : List Part
    at = path ++ (key k ∷ [])

    goal : Type 0
    goal =
        (if is_nullish (get k gs)
          then check_fields shape gs path
          else first_field k (c (get k gs) at) (check_fields shape gs path))
        ≡ ok ws

    by_test :
        (b : Bool)
        → is_nullish (get k fs) ≡ b
        → (if b
            then check_fields shape fs path
            else first_field k (c (get k fs) at) (check_fields shape fs path))
          ≡ ok ws
        → ((xs : Fields)
            → check_fields shape fs path ≡ ok xs
            → Agree shape xs gs
            → check_fields shape gs path ≡ ok xs)
        → goal
    by_test true e g ih =
        let gone : is_nullish (get k gs) ≡ true =
          ap is_nullish (sym a.0) ∙ ap is_nullish (get-check_fields k shape fs ws path s.1 g) in
        rw gone (ih ws g a.1)
    by_test false e g ih =
        let parts = first_field-ok k (c (get k fs) at) (check_fields shape fs path) ws g in
        let made : ws ≡ field k parts.0 parts.1 = parts.4 in
        let given : parts.0 ≡ get k gs =
          sym (get-field k parts.0 parts.1) ∙ ap (get k) (sym made) ∙ a.0 in
        let settled = s.0 (get k fs) parts.0 at parts.2 in
        let present : is_nullish (get k gs) ≡ false = ap is_nullish (sym given) ∙ settled.1 e in
        let agree = subst (λ (x : Fields). Agree shape x gs) made a.1 in
        let rest = ih parts.1 parts.3 (Agree-rest k parts.0 shape parts.1 gs s.1 agree) in
        rw present (
          (λ i. first_field k (c (sym given i) at) (rest i))
          ∙ ap (λ (x : Checked). first_field k x (ok parts.1)) settled.0
          ∙ ap ok (sym made))

pub obj-Settles : (shape : Shape) → ShapeSettles shape → Settles (obj shape)
unfolding obj
obj-Settles shape s (object fs) w path h =
    let made = object_of-ok (check_fields shape fs path) w h in
    let again =
      check_fields-settled shape fs made.0 made.0 path s made.1 (Agree-refl shape made.0) in
    (
      subst (λ (x : Value). obj shape x path ≡ ok x) (sym made.2) (ap object_of again),
      λ _. ap is_nullish made.2,
    )
obj-Settles shape s undefined w path h = absurd (cc)
obj-Settles shape s null_value w path h = absurd (cc)
obj-Settles shape s (boolean b) w path h = absurd (cc)
obj-Settles shape s (whole n) w path h = absurd (cc)
obj-Settles shape s (negative n) w path h = absurd (cc)
obj-Settles shape s (fraction n) w path h = absurd (cc)
obj-Settles shape s (string t) w path h = absurd (cc)
obj-Settles shape s (array xs) w path h = absurd (cc)
