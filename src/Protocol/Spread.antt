-- ===== src/Protocol/Spread.antt =====
-- events.ts: the fields of an object that is spread after another.
use Prim.Native.String.{String}
use text.Mathlib.Text.{◌==◌}
use text.Mathlib.TextEquality.{eq_iff}
use l4_ide.Prelude.{
  Bool, true, false, List, [], ◌∷◌, ◌++◌, ◌≡◌, refl, sym, ap, ◌∙◌, subst, arith, if◌then◌else◌, ok,
}
use l4_ide.Protocol.{Value, undefined, Fields, end, field, get, put, spread, is_nullish}
use l4_ide.Protocol.Validate.{required, optional, Shape, Part, key, check_fields, first_field}
use l4_ide.Protocol.Settled.{first_field-ok}
use l4_ide.Protocol.Objects.{Lacks, Agree, get-check_fields}

-- The object has no property of the name.
abbrev pub Without : String → Fields → Type 0
Without k end = Unit
Without k (field j v fs) = ((j == k) ≡ false) × Without k fs

-- No name stands twice.
abbrev pub Unique : Fields → Type 0
Unique end = Unit
Unique (field j v fs) = Without j fs × Unique fs

-- The shape lacks all names of the other one.
abbrev pub Apart : Shape → Shape → Type 0
Apart [] other = Unit
Apart ((k, r) ∷ shape) other = Lacks k other × Apart shape other

-- The names of a shape differ.
abbrev pub HasDistinctNames : Shape → Type 0
HasDistinctNames [] = Unit
HasDistinctNames ((k, r) ∷ shape) = Lacks k shape × HasDistinctNames shape

pub get-put : (k : String) (v : Value) (fs : Fields) → get k (put k v fs) ≡ v
get-put k v end = let e = (eq_iff k k).1 refl in rw e refl
get-put k v (field j w fs) = by_name (j == k) refl (get-put k v fs)
  where
    by_name :
        (b : Bool)
        → (j == k) ≡ b
        → get k (put k v fs) ≡ v
        → get k (if b then field k v fs else field j w (put k v fs)) ≡ v
    by_name true e ih = let same = (eq_iff k k).1 refl in rw same refl
    by_name false e ih = rw e ih

pub get-put_other :
    (j k : String) (v : Value) (fs : Fields) → (j == k) ≡ false → get k (put j v fs) ≡ get k fs
get-put_other j k v end h = rw h refl
get-put_other j k v (field i w fs) h = by_name (i == j) refl (get-put_other j k v fs h)
  where
    by_name :
        (b : Bool)
        → (i == j) ≡ b
        → get k (put j v fs) ≡ get k fs
        → get k (if b then field j v fs else field i w (put j v fs)) ≡ get k (field i w fs)
    by_name true e ih =
        let same : i ≡ j = (eq_iff i j).0 e in
        let other : (i == k) ≡ false = subst (λ (x : String). (x == k) ≡ false) (sym same) h in
        rw (h, other) refl
    by_name false e ih = ap (λ (x : Value). if i == k then w else x) ih

-- What is not in the second object is that of the first.
pub get-spread-Without : (k : String) (a b : Fields) → Without k b → get k (spread a b) ≡ get k a
get-spread-Without k a end h = refl
get-spread-Without k a (field j v b) h =
    get-spread-Without k (put j v a) b h.1 ∙ get-put_other j k v a h.0

-- What is not in the first is that of the second.
pub get-spread :
    (k : String) (a b : Fields) → get k a ≡ undefined → Unique b → get k (spread a b) ≡ get k b
get-spread k a end h u = h
get-spread k a (field j v b) h u =
    by_name (j == k) refl (λ e. get-spread k (put j v a) b (get-put_other j k v a e ∙ h) u.1)
  where
    by_name :
        (c : Bool)
        → (j == k) ≡ c
        → ((j == k) ≡ false → get k (spread (put j v a) b) ≡ get k b)
        → get k (spread (put j v a) b) ≡ (if c then v else get k b)
    by_name true e ih =
        let same : j ≡ k = (eq_iff j k).0 e in
        get-spread-Without k (put j v a) b (subst (λ (x : String). Without x b) same u.0)
        ∙ ap (λ (x : String). get k (put x v a)) same
        ∙ get-put k v a
    by_name false e ih = ih e

pub check_fields-Without :
    (k : String) (shape : Shape) (fs ws : Fields) (path : List Part)
    → Lacks k shape
    → check_fields shape fs path ≡ ok ws
    → Without k ws
unfolding check_fields
check_fields-Without k [] fs ws path lacks h =
    let e : end ≡ ws = ground arith in subst (Without k) e tt
check_fields-Without k ((j, required c) ∷ shape) fs ws path lacks h =
    let parts =
      first_field-ok j (c (get j fs) (path ++ (key j ∷ []))) (check_fields shape fs path) ws h in
    subst (Without k) (sym parts.4)
      (lacks.0, check_fields-Without k shape fs parts.1 path lacks.1 parts.3)
check_fields-Without k ((j, optional c) ∷ shape) fs ws path lacks h =
    by_test (is_nullish (get j fs)) (λ gs. check_fields-Without k shape fs gs path lacks.1) h
  where
    by_test :
        (b : Bool)
        → ((gs : Fields) → check_fields shape fs path ≡ ok gs → Without k gs)
        → (if b
            then check_fields shape fs path
            else first_field j (c (get j fs) (path ++ (key j ∷ []))) (check_fields shape fs path))
          ≡ ok ws
        → Without k ws
    by_test true ih g = ih ws g
    by_test false ih g =
        let parts =
          first_field-ok j (c (get j fs) (path ++ (key j ∷ []))) (check_fields shape fs path) ws
            g in
        subst (Without k) (sym parts.4) (lacks.0, ih parts.1 parts.3)

-- What is made by a shape whose names differ has no name twice.
pub check_fields-Unique :
    (shape : Shape) (fs ws : Fields) (path : List Part)
    → HasDistinctNames shape
    → check_fields shape fs path ≡ ok ws
    → Unique ws
unfolding check_fields
check_fields-Unique [] fs ws path apart h = let e : end ≡ ws = ground arith in subst Unique e tt
check_fields-Unique ((k, required c) ∷ shape) fs ws path apart h =
    let parts =
      first_field-ok k (c (get k fs) (path ++ (key k ∷ []))) (check_fields shape fs path) ws h in
    subst Unique (sym parts.4) (
      check_fields-Without k shape fs parts.1 path apart.0 parts.3,
      check_fields-Unique shape fs parts.1 path apart.1 parts.3,
    )
check_fields-Unique ((k, optional c) ∷ shape) fs ws path apart h =
    by_test (is_nullish (get k fs)) (λ gs. check_fields-Unique shape fs gs path apart.1) h
  where
    by_test :
        (b : Bool)
        → ((gs : Fields) → check_fields shape fs path ≡ ok gs → Unique gs)
        → (if b
            then check_fields shape fs path
            else first_field k (c (get k fs) (path ++ (key k ∷ []))) (check_fields shape fs path))
          ≡ ok ws
        → Unique ws
    by_test true ih g = ih ws g
    by_test false ih g =
        let parts =
          first_field-ok k (c (get k fs) (path ++ (key k ∷ []))) (check_fields shape fs path) ws
            g in
        subst Unique (sym parts.4)
          (check_fields-Without k shape fs parts.1 path apart.0 parts.3, ih parts.1 parts.3)

-- The fields of the second shape are those of what it made.
pub spread-Agree_second :
    (shape first : Shape) (fs a b : Fields) (path : List Part)
    → Apart shape first
    → check_fields first fs path ≡ ok a
    → Unique b
    → Agree shape b (spread a b)
spread-Agree_second [] first fs a b path apart h u = tt
spread-Agree_second ((k, r) ∷ shape) first fs a b path apart h u = (
  sym (get-spread k a b (get-check_fields k first fs a path apart.0 h) u),
  spread-Agree_second shape first fs a b path apart.1 h u,
)

-- The fields of the first shape are those of what it made.
pub spread-Agree_first :
    (shape second : Shape) (fs a b : Fields) (path : List Part)
    → Apart shape second
    → check_fields second fs path ≡ ok b
    → Agree shape a (spread a b)
spread-Agree_first [] second fs a b path apart h = tt
spread-Agree_first ((k, r) ∷ shape) second fs a b path apart h = (
  sym (get-spread-Without k a b (check_fields-Without k second fs b path apart.0 h)),
  spread-Agree_first shape second fs a b path apart.1 h,
)
