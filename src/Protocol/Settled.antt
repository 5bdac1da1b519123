-- ===== src/Protocol/Settled.antt =====
-- validate.ts: a value that a check has returned is returned by it again, unchanged.
use Prim.Native.String.{String}
use l4_ide.Prelude.{
  ℕ, suc, Bool, true, false, List, [], ◌∷◌, ◌++◌, ◌≡◌, refl, sym, ap, ◌∙◌, subst, arith,
  if◌then◌else◌, ltb, Result, ok, err,
}
use l4_ide.Protocol.{
  Value, undefined, null_value, boolean, whole, negative, fraction, string, array, object, Items,
  nil, cons, Fields, field, count, is_nullish,
}
use l4_ide.Protocol.Validate.{
  Check, Checked, Failure, Part, index, str, int, literal, json, arr, first_item, first_field,
  array_of, object_of, check_items, more,
}

-- What the check returns, it returns again, and only for an absent value it returns one that counts as absent.
abbrev pub Settles : Check → Type 0
Settles c =
    (v w : Value) (path : List Part)
    → c v path ≡ ok w
    → (c w path ≡ ok w) × (is_nullish v ≡ false → is_nullish w ≡ false)

-- A check that returns its own argument settles.
pub itself-Settles :
    (c : Check) → ((v w : Value) (path : List Part) → c v path ≡ ok w → v ≡ w) → Settles c
itself-Settles c same v w path h =
    let e : v ≡ w = same v w path h in
    (
      subst (λ (x : Value). c x path ≡ ok w) e h,
      λ n. subst (λ (x : Value). is_nullish x ≡ false) e n,
    )

pub str-Settles : (least most : ℕ) (matches : List ℕ → Bool) → Settles (str least most matches)
unfolding str
str-Settles least most matches = itself-Settles (str least most matches) same
  where
    same : (v w : Value) (path : List Part) → str least most matches v path ≡ ok w → v ≡ w
    same v w path h = ground arith

pub int_itself :
    (least most : ℕ) (v w : Value) (path : List Part) → int least most v path ≡ ok w → v ≡ w
unfolding int
int_itself least most v w path h = ground arith

pub int-Settles : (least most : ℕ) → Settles (int least most)
int-Settles least most = itself-Settles (int least most) (int_itself least most)

pub literal-Settles : (values : List (List ℕ)) → Settles (literal values)
unfolding literal
literal-Settles values = itself-Settles (literal values) same
  where
    same : (v w : Value) (path : List Part) → literal values v path ≡ ok w → v ≡ w
    same v w path h = ground arith

pub json-Settles : (json_text : Value → List ℕ) (most : ℕ) → Settles (json json_text most)
unfolding json
json-Settles json_text most = itself-Settles (json json_text most) same
  where
    same : (v w : Value) (path : List Part) → json json_text most v path ≡ ok w → v ≡ w
    same v w path h = ground arith

first_item-ok :
    (a : Checked) (rest : Result Failure Items) (ys : Items)
    → first_item a rest ≡ ok ys
    → (v : Value) × (xs : Items) × (a ≡ ok v) × (rest ≡ ok xs) × (ys ≡ cons v xs)
first_item-ok (ok v) (ok xs) ys h = (v, xs, refl, refl, ground arith)
first_item-ok (ok v) (err e) ys h = absurd (ground arith)
first_item-ok (err e) rest ys h = absurd (ground arith)

pub first_field-ok :
    (k : String) (a : Checked) (rest : Result Failure Fields) (ws : Fields)
    → first_field k a rest ≡ ok ws
    → (v : Value) × (fs : Fields) × (a ≡ ok v) × (rest ≡ ok fs) × (ws ≡ field k v fs)
first_field-ok k (ok v) (ok fs) ws h = (v, fs, refl, refl, ground arith)
first_field-ok k (ok v) (err e) ws h = absurd (ground arith)
first_field-ok k (err e) rest ws h = absurd (ground arith)

array_of-ok :
    (r : Result Failure Items) (w : Value)
    → array_of r ≡ ok w
    → (xs : Items) × (r ≡ ok xs) × (w ≡ array xs)
array_of-ok (ok xs) w h = (xs, refl, ground arith)
array_of-ok (err e) w h = absurd (ground arith)

pub object_of-ok :
    (r : Result Failure Fields) (w : Value)
    → object_of r ≡ ok w
    → (fs : Fields) × (r ≡ ok fs) × (w ≡ object fs)
object_of-ok (ok fs) w h = (fs, refl, ground arith)
object_of-ok (err e) w h = absurd (ground arith)

module _ (item : Check) (settles : Settles item) where
  check_items-Settles :
      (i : ℕ) (xs ys : Items) (path : List Part)
      → check_items item i xs path ≡ ok ys
      → (check_items item i ys path ≡ ok ys) × (count ys ≡ count xs)
  unfolding check_items
  check_items-Settles i nil ys path h =
      let e : nil ≡ ys = ground arith in
      (subst (λ (x : Items). check_items item i x path ≡ ok x) e refl, ap count (sym e))
  check_items-Settles i (cons v xs) ys path h =
      let at : List Part = path ++ (index i ∷ []) in
      let parts = first_item-ok (item v at) (check_items item (suc i) xs path) ys h in
      let ih = check_items-Settles (suc i) xs parts.1 path parts.3 in
      let first = (settles v parts.0 at parts.2).0 in
      (
        subst (λ (x : Items). check_items item i x path ≡ ok x) (sym parts.4)
            (λ j. first_item (first j) (ih.0 j)),
        ap count parts.4 ∙ ap suc ih.1,
      )

  pub arr-Settles : (most : ℕ) → Settles (arr item most)
  unfolding arr
  arr-Settles most (array xs) w path h = by_count (ltb most (count xs)) refl h
    where
      by_count :
          (b : Bool)
          → ltb most (count xs) ≡ b
          → (if b
              then err (record { problem = more; path = path })
              else array_of (check_items item 0 xs path))
            ≡ ok w
          → (arr item most w path ≡ ok w) × (is_nullish (array xs) ≡ false → is_nullish w ≡ false)
      by_count true e g = absurd (cc)
      by_count false e g =
          let made = array_of-ok (check_items item 0 xs path) w g in
          let again = check_items-Settles 0 xs made.0 path made.1 in
          let fits : ltb most (count made.0) ≡ false = ap (ltb most) again.1 ∙ e in
          (
            subst (λ (x : Value). arr item most x path ≡ ok x) (sym made.2)
                (rw (fits, again.0) refl),
            λ _. ap is_nullish made.2,
          )
  arr-Settles most undefined w path h = absurd (cc)
  arr-Settles most null_value w path h = absurd (cc)
  arr-Settles most (boolean b) w path h = absurd (cc)
  arr-Settles most (whole n) w path h = absurd (cc)
  arr-Settles most (negative n) w path h = absurd (cc)
  arr-Settles most (fraction n) w path h = absurd (cc)
  arr-Settles most (string s) w path h = absurd (cc)
  arr-Settles most (object fs) w path h = absurd (cc)
