-- ===== src/Ladder/Assignment.antt =====
-- ts-shared/l4-ladder-visualizer/src/lib/eval/assignment.ts and type.ts: a sparse array from uniques
-- to values.
use l4_ide.Prelude.{
  ℕ, zero, suc, ◌+◌, Bool, true, false, Option, none, some, List, [], ◌∷◌, nat_key,
}
use l4_ide.Expr.{UBoolValue, true_v, false_v, unknown_v}

-- `none` is a hole of the array.
abbrev pub Assignment : Type 0
Assignment = List (Option UBoolValue)

-- `this.#subst[unique]`
unfoldable pub lookup : ℕ → Assignment → Option UBoolValue
lookup u [] = none
lookup zero (o ∷ os) = o
lookup (suc u) (o ∷ os) = lookup u os

-- `this.#subst[unique] = value`: a write past the end leaves holes.
unfoldable pub assign : ℕ → UBoolValue → Assignment → Assignment
assign zero v [] = some v ∷ []
assign zero v (o ∷ os) = some v ∷ os
assign (suc u) v [] = none ∷ assign u v []
assign (suc u) v (o ∷ os) = o ∷ assign u v os

unfoldable pub from_entries : List (ℕ × UBoolValue) → Assignment → Assignment
unfolding assign
from_entries [] a = a
from_entries ((u, v) ∷ es) a = from_entries es (assign u v a)

-- `getEntries`, from index `i` on.
unfoldable pub entries_from : ℕ → Assignment → List (ℕ × UBoolValue)
entries_from i [] = []
entries_from i (none ∷ os) = entries_from (i + 1) os
entries_from i (some v ∷ os) = (i, v) ∷ entries_from (i + 1) os

abbrev pub is_true_val : UBoolValue → Bool
is_true_val true_v = true
is_true_val _ = false

abbrev pub is_false_val : UBoolValue → Bool
is_false_val false_v = true
is_false_val _ = false

abbrev pub is_unknown_val : UBoolValue → Bool
is_unknown_val unknown_v = true
is_unknown_val _ = false

unfoldable pub cycle : UBoolValue → UBoolValue
cycle true_v = false_v
cycle false_v = unknown_v
cycle unknown_v = true_v
