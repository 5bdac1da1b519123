-- ===== src/Protocol/Validate.antt =====
-- validate.ts: the checks. A check returns a clean value, or throws an error that names the path.
use Prim.Native.String.{String}
use l4_ide.Prelude.{
  ℕ, suc, Bool, ◌||◌, List, [], ◌∷◌, ◌++◌, if◌then◌else◌, ltb, any, length, Result, ok, err,
  list_key, nat_key,
}
use l4_ide.Protocol.{
  Value, undefined, whole, negative, string, array, object, Items, nil, cons, Fields, end, field,
  codes, get, count, is_nullish,
}

-- `event.files[3]` is the keys event and files and the index 3.
pub data Part : Type 0 where
  key : String → Part
  index : ℕ → Part

-- The messages, without the limits and names that they quote.
pub data Problem : Type 0 where
  expected shorter longer larger more out_of_range bad_format not_serialisable unknown_tag : Problem

-- `ProtocolError`
pub record Failure : Type 0 where
  pub problem : Problem
  pub path : List Part

abbrev pub Checked : Type 0
Checked = Result Failure Value

abbrev pub Check : Type 0
Check = Value → List Part → Checked

abbrev pub fail : Problem → List Part → Checked
fail problem path = err (record { problem = problem; path = path })

abbrev pub same_text : List ℕ → List ℕ → Bool
same_text a b = list_key.same a b

-- Any text of a length from `least` to `most` that matches the pattern.
unfoldable pub str : ℕ → ℕ → (List ℕ → Bool) → Check
str least most matches (string s) path =
    if ltb (length s) least
    then fail shorter path
    else if ltb most (length s)
    then fail longer path
    else if matches s
    then ok (string s)
    else fail bad_format path
str least most matches _ path = fail expected path

-- Number.MAX_SAFE_INTEGER
abbrev pub max_safe_integer : ℕ
max_safe_integer = 9007199254740991

unfoldable pub int : ℕ → ℕ → Check
int least most (whole n) path =
    if ltb max_safe_integer n
    then fail expected path
    else if ltb n least || ltb most n
    then fail out_of_range path
    else ok (whole n)
int least most (negative n) path =
    if ltb max_safe_integer (suc n) then fail expected path else fail out_of_range path
int least most _ path = fail expected path

-- One of these texts.
unfoldable pub literal : List (List ℕ) → Check
literal values (string s) path =
    if any (same_text s) values then ok (string s) else fail expected path
literal values _ path = fail expected path

-- The text of a value's JSON, where a value that is undefined has none. What is parsed from it is the value.
-- The copy through JSON is the value itself, since a value here is one that JSON holds. `json_text` is its text.
unfoldable pub json : (Value → List ℕ) → ℕ → Check
json json_text most undefined path = ok undefined
json json_text most v path = if ltb most (length (json_text v)) then fail larger path else ok v

abbrev pub array_of : Result Failure Items → Checked
array_of (ok xs) = ok (array xs)
array_of (err e) = err e

abbrev pub object_of : Result Failure Fields → Checked
object_of (ok fs) = ok (object fs)
object_of (err e) = err e

abbrev pub first_item : Checked → Result Failure Items → Result Failure Items
first_item (ok v) (ok xs) = ok (cons v xs)
first_item (ok v) (err e) = err e
first_item (err e) rest = err e

abbrev pub first_field : String → Checked → Result Failure Fields → Result Failure Fields
first_field k (ok v) (ok fs) = ok (field k v fs)
first_field k (ok v) (err e) = err e
first_field k (err e) rest = err e

-- The items from the i-th on.
unfoldable pub check_items : Check → ℕ → Items → List Part → Result Failure Items
check_items item i nil path = ok nil
check_items item i (cons v xs) path =
    first_item (item v (path ++ (index i ∷ []))) (check_items item (suc i) xs path)

unfoldable pub arr : Check → ℕ → Check
unfolding check_items
arr item most (array xs) path =
    if ltb most (count xs) then fail more path else array_of (check_items item 0 xs path)
arr item most _ path = fail expected path

pub data Rule : Type 0 where
  required optional : Check → Rule

abbrev pub Shape : Type 0
Shape = List (String × Rule)

-- What the fields of a shape are made of.
unfoldable pub check_fields : Shape → Fields → List Part → Result Failure Fields
check_fields [] fs path = ok end
check_fields ((k, required c) ∷ shape) fs path =
    first_field k (c (get k fs) (path ++ (key k ∷ []))) (check_fields shape fs path)
check_fields ((k, optional c) ∷ shape) fs path =
    let rest = check_fields shape fs path in
    if is_nullish (get k fs) then rest else first_field k (c (get k fs) (path ++ (key k ∷ []))) rest

unfoldable pub obj : Shape → Check
unfolding check_fields
obj shape (object fs) path = object_of (check_fields shape fs path)
obj shape _ path = fail expected path

-- The check of the variant whose name is the tag.
unfoldable pub variant_for : List ℕ → List (String × Check) → Check → Check
variant_for s [] otherwise = otherwise
variant_for s ((k, c) ∷ variants) otherwise =
    if same_text s (codes k) then c else variant_for s variants otherwise

abbrev pub tagged : String → List (String × Check) → Fields → Value → Check
unfolding variant_for
tagged tag variants fs (string s) v path =
    variant_for s variants (λ _ at. fail unknown_tag (at ++ (key tag ∷ []))) v path
tagged tag variants fs _ v path = fail unknown_tag (path ++ (key tag ∷ []))

unfoldable pub union : String → List (String × Check) → Check
unfolding variant_for
union tag variants (object fs) path = tagged tag variants fs (get tag fs) (object fs) path
union tag variants _ path = fail expected path
