-- ===== src/Deontic.antt =====
-- jl4-mlir/runtime/jl4-runtime.mjs: the values that guards and events carry, and the guards of a contract.
-- A text is its list of code units; numbers are natural numbers, and NaN is no number. Objects have no
-- property but their own fields.
pub mod Run
pub mod Sorted
pub mod Once
pub mod Past
use l4_ide.Prelude.{
  ℕ, zero, suc, Bool, true, false, not, ◌&&◌, ◌||◌, Option, none, some, List, [], ◌∷◌, ◌==◌,
  if◌then◌else◌, ltb, leb, same_list, same_bool, nat_key, Map, get, list_key,
}

mutual
  pub data Value : Type 0 where
    undefined_value null_value : Value
    bool_value : Bool → Value
    number_value : ℕ → Value
    text_value : List ℕ → Value
    array_value : Values → Value
    object_value : Fields → Value

  pub data Values : Type 0 where
    no_values : Values
    more_values : Value → Values → Values

  pub data Fields : Type 0 where
    no_fields : Fields
    more_fields : List ℕ → Value → Fields → Fields

abbrev pub count_fields : Fields → ℕ
count_fields no_fields = 0
count_fields (more_fields k v fs) = suc (count_fields fs)

-- `obj[field]`
abbrev pub field_of : List ℕ → Fields → Value
field_of k no_fields = undefined_value
field_of k (more_fields j v fs) = if same_list k j then v else field_of k fs

unfoldable mutual
  pub deep_equal : Value → Value → Bool
  deep_equal undefined_value undefined_value = true
  deep_equal null_value null_value = true
  deep_equal (bool_value a) (bool_value b) = same_bool a b
  deep_equal (number_value a) (number_value b) = a == b
  deep_equal (text_value a) (text_value b) = same_list a b
  deep_equal (array_value a) (array_value b) = equal_values a b
  deep_equal (object_value a) (object_value b) =
      (count_fields a == count_fields b) && equal_fields a b
  deep_equal _ _ = false

  pub equal_values : Values → Values → Bool
  equal_values no_values no_values = true
  equal_values (more_values a xs) (more_values b ys) = deep_equal a b && equal_values xs ys
  equal_values _ _ = false

  -- Each field of the first is compared with the second's field of that name.
  pub equal_fields : Fields → Fields → Bool
  equal_fields no_fields b = true
  equal_fields (more_fields k v fs) b = deep_equal v (field_of k b) && equal_fields fs b

-- `Boolean(v)`
abbrev pub truthy : Value → Bool
truthy undefined_value = false
truthy null_value = false
truthy (bool_value b) = b
truthy (number_value n) = not (n == 0)
truthy (text_value []) = false
truthy (text_value (c ∷ cs)) = true
truthy (array_value vs) = true
truthy (object_value fs) = true

pub data Guard : Type 0 where
  no_guard : Guard
  lit : Value → Guard
  var : List ℕ → Guard
  proj : Guard → List ℕ → Guard
  equals and_guard or_guard lt_guard gt_guard leq_guard geq_guard : Guard → Guard → Guard
  not_guard : Guard → Guard

abbrev pub project : Value → List ℕ → Value
project (object_value fs) k = field_of k fs
project undefined_value k = undefined_value
project null_value k = undefined_value
project (bool_value b) k = undefined_value
project (number_value n) k = undefined_value
project (text_value s) k = undefined_value
project (array_value vs) k = undefined_value

-- A comparison with NaN is false.
abbrev pub compare_numbers : (ℕ → ℕ → Bool) → Option ℕ → Option ℕ → Bool
compare_numbers test none b = false
compare_numbers test (some a) none = false
compare_numbers test (some a) (some b) = test a b

-- The request's arguments; and what `Number` makes of a value, `none` for NaN.
module _ (args : Fields) (to_number : Value → Option ℕ) where
  unfoldable pub eval_deontic_guard : Guard → Value
  unfolding deep_equal
  eval_deontic_guard no_guard = null_value
  eval_deontic_guard (lit v) = v
  eval_deontic_guard (var k) = field_of k args
  eval_deontic_guard (proj g k) = project (eval_deontic_guard g) k
  eval_deontic_guard (equals a b) =
      bool_value (deep_equal (eval_deontic_guard a) (eval_deontic_guard b))
  eval_deontic_guard (and_guard a b) =
      bool_value (truthy (eval_deontic_guard a) && truthy (eval_deontic_guard b))
  eval_deontic_guard (or_guard a b) =
      bool_value (truthy (eval_deontic_guard a) || truthy (eval_deontic_guard b))
  eval_deontic_guard (not_guard a) = bool_value (not (truthy (eval_deontic_guard a)))
  eval_deontic_guard (lt_guard a b) =
      bool_value
        (compare_numbers ltb (to_number (eval_deontic_guard a)) (to_number (eval_deontic_guard b)))
  eval_deontic_guard (gt_guard a b) = bool_value (
      compare_numbers (λ x y. ltb y x) (to_number (eval_deontic_guard a))
        (to_number (eval_deontic_guard b)))
  eval_deontic_guard (leq_guard a b) =
      bool_value
        (compare_numbers leb (to_number (eval_deontic_guard a)) (to_number (eval_deontic_guard b)))
  eval_deontic_guard (geq_guard a b) = bool_value (
      compare_numbers (λ x y. leb y x) (to_number (eval_deontic_guard a))
        (to_number (eval_deontic_guard b)))

-- The name of a party or an action, a text or a parameter.
pub data DeonticExpr : Type 0 where
  no_expr : DeonticExpr
  text_expr : List ℕ → DeonticExpr
  param_expr : List ℕ → DeonticExpr
  value_expr : Value → DeonticExpr

abbrev pub resolve_deontic_expr : Fields → DeonticExpr → Value
resolve_deontic_expr args no_expr = null_value
resolve_deontic_expr args (text_expr s) = text_value s
resolve_deontic_expr args (param_expr k) = field_of k args
resolve_deontic_expr args (value_expr v) = v

abbrev pub drop_last : List ℕ → List ℕ
drop_last [] = []
drop_last (c ∷ []) = []
drop_last (c ∷ d ∷ cs) = c ∷ drop_last (d ∷ cs)

abbrev pub ends_with : ℕ → List ℕ → Bool
ends_with q [] = false
ends_with q (c ∷ []) = c == q
ends_with q (c ∷ d ∷ cs) = ends_with q (d ∷ cs)

-- `s.slice(1, -1)` of a text that starts and ends with the mark.
unfoldable pub strip_marks : ℕ → List ℕ → List ℕ
strip_marks q [] = []
strip_marks q (c ∷ cs) = if (c == q) && ends_with q (c ∷ cs) then drop_last cs else c ∷ cs

abbrev pub deontic_strip_backticks : List ℕ → List ℕ
unfolding strip_marks
deontic_strip_backticks s = strip_marks 96 s

unfoldable pub deontic_value_matches : Value → Value → Bool
unfolding deep_equal
deontic_value_matches (text_value s) (text_value t) = same_list (deontic_strip_backticks s) t
deontic_value_matches a b = deep_equal a b
