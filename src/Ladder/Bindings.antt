-- ===== src/Ladder/Bindings.antt =====
-- The answers that an analyzer reads off an assignment.
use l4_ide.Prelude.{
  ℕ, zero, suc, ◌+◌, ◌<◌, Bool, true, false, Option, none, some, List, [], ◌∷◌, ◌≡◌, refl, sym, ◌∙◌,
  arith, Map, get, set, get-set, nat_key, ◌==◌, ==_true, ==_refl, ==_ne, if◌then◌else◌, ap,
}
use l4_ide.Expr.{UBoolValue, true_v, false_v, unknown_v}
use l4_ide.DecisionQuery.Meaning.{IsMap, answered}
use l4_ide.Ladder.Assignment.{Assignment, lookup, entries_from}
use l4_ide.Ladder.Analyzer.{add_binding, bindings_from, bindings_of}
use l4_ide.Ladder.Sound.{Says, Completes}

abbrev pub answer_of : Option UBoolValue → Option Bool
answer_of none = none
answer_of (some true_v) = some true
answer_of (some false_v) = some false
answer_of (some unknown_v) = none

abbrev over : Option Bool → Option Bool → Option Bool
over none old = old
over (some b) old = some b

get-add_binding_other :
    (u w : ℕ) (v : UBoolValue) (m : Map ℕ Bool)
    → (w == u) ≡ false
    → get w (add_binding (u, v) m) ≡ get w m
get-add_binding_other u w true_v m ne = get-set w u true m ∙ rw ne refl
get-add_binding_other u w false_v m ne = get-set w u false m ∙ rw ne refl
get-add_binding_other u w unknown_v m ne = refl

get-add_binding_self :
    (u : ℕ) (v : UBoolValue) (m : Map ℕ Bool)
    → get u (add_binding (u, v) m) ≡ over (answer_of (some v)) (get u m)
get-add_binding_self u true_v m = let e = ==_refl u in get-set u u true m ∙ rw e refl
get-add_binding_self u false_v m = let e = ==_refl u in get-set u u false m ∙ rw e refl
get-add_binding_self u unknown_v m = refl

-- The entries from index `i` on say nothing about the uniques before it.
get-bindings_before :
    (w i : ℕ) (a : Assignment) (m : Map ℕ Bool)
    → w < i
    → get w (bindings_from (entries_from i a) m) ≡ get w m
unfolding bindings_from entries_from
get-bindings_before w i [] m lt = refl
get-bindings_before w i (none ∷ os) m lt = get-bindings_before w (i + 1) os m (omega (arith, lt))
get-bindings_before w i (some v ∷ os) m lt =
    get-bindings_before w (i + 1) os (add_binding (i, v) m) (omega (arith, lt))
    ∙ get-add_binding_other i w v m (ground arith)

get-bindings_from :
    (i k : ℕ) (a : Assignment) (m : Map ℕ Bool)
    → get (i + k) (bindings_from (entries_from i a) m)
      ≡ over (answer_of (lookup k a)) (get (i + k) m)
unfolding bindings_from entries_from lookup
get-bindings_from i k [] m = refl
get-bindings_from i zero (none ∷ os) m = get-bindings_before (i + 0) (i + 1) os m (omega arith)
get-bindings_from i zero (some v ∷ os) m =
    let same : i + 0 ≡ i = omega arith in
    get-bindings_before (i + 0) (i + 1) os (add_binding (i, v) m) (omega arith)
    ∙ rw same (get-add_binding_self i v m)
get-bindings_from i (suc k) (none ∷ os) m =
    let same : i + suc k ≡ (i + 1) + k = omega arith in rw same (get-bindings_from (i + 1) k os m)
get-bindings_from i (suc k) (some v ∷ os) m =
    let same : i + suc k ≡ (i + 1) + k = omega arith in
    rw same (
      get-bindings_from (i + 1) k os (add_binding (i, v) m)
      ∙ ap (over (answer_of (lookup k os))) (
          get-add_binding_other i ((i + 1) + k) v m
            (==_ne ((i + 1) + k) i (λ e. omega (arith, e)))))

-- The answers of an assignment are its true and false values.
pub get-bindings_of : (u : ℕ) (a : Assignment) → get u (bindings_of a) ≡ answer_of (lookup u a)
unfolding bindings_of get
get-bindings_of u a =
    let same : 0 + u ≡ u = omega arith in
    sym (ap (λ w. get w (bindings_of a)) same)
    ∙ get-bindings_from 0 u a []
    ∙ over_none (answer_of (lookup u a))
  where
    over_none : (o : Option Bool) → over o none ≡ o
    over_none none = refl
    over_none (some b) = refl

set-IsMap : (u : ℕ) (b : Bool) (m : Map ℕ Bool) → IsMap m → IsMap (set u b m)
unfolding get set
set-IsMap u b [] n = (refl, tt)
set-IsMap u b ((w, c) ∷ m) n = replaced_or_later (u == w) refl (set-IsMap u b m n.1)
  where
    replaced_or_later :
        (t : Bool)
        → (u == w) ≡ t
        → IsMap (set u b m)
        → IsMap (if t then (u, b) ∷ m else (w, c) ∷ set u b m)
    replaced_or_later true e ih = let same = ==_true u w e in (rw same n.0, n.1)
    replaced_or_later false e ih =
        let apart : (w == u) ≡ false = ground arith in (get-set w u b m ∙ rw apart n.0, ih)

add_binding-IsMap :
    (u : ℕ) (v : UBoolValue) (m : Map ℕ Bool) → IsMap m → IsMap (add_binding (u, v) m)
add_binding-IsMap u true_v m n = set-IsMap u true m n
add_binding-IsMap u false_v m n = set-IsMap u false m n
add_binding-IsMap u unknown_v m n = n

bindings_from-IsMap :
    (es : List (ℕ × UBoolValue)) (m : Map ℕ Bool) → IsMap m → IsMap (bindings_from es m)
unfolding bindings_from
bindings_from-IsMap [] m n = n
bindings_from-IsMap ((u, v) ∷ es) m n =
    bindings_from-IsMap es (add_binding (u, v) m) (add_binding-IsMap u v m n)

pub bindings_of-IsMap : (a : Assignment) → IsMap (bindings_of a)
unfolding bindings_of
bindings_of-IsMap a = bindings_from-IsMap (entries_from 0 a) [] tt

-- Overriding an assignment of truth values with the answers completes the assignment.
pub answered-Completes : (a : Assignment) (σ : ℕ → Bool) → Completes a (answered (bindings_of a) σ)
answered-Completes a σ u v at =
    let e = get-bindings_of u a in says v (get u (bindings_of a)) (rw (e, at) refl)
  where
    says :
        (v : UBoolValue) (o : Option Bool)
        → o ≡ answer_of (some v)
        → Says v (elim o [ some b ↦ b | none ↦ σ u ])
    says true_v o e = rw e refl
    says false_v o e = rw e refl
    says unknown_v o e = tt
