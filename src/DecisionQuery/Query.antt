-- ===== src/DecisionQuery/Query.antt =====
-- The returned object of `compileDecisionQuery`: `rank` and `query`.
use l4_ide.Prelude.{
  ℕ, ◌+◌, Bool, true, false, Option, none, some, List, [], ◌∷◌, ◌==◌, if◌then◌else◌, leb, ltb,
  length, Map, get, set, nat_key, ok,
}
use l4_ide.Robdd.{Bdd, M, ◌>>=◌, return, restrict, node_count, Bindings}
use l4_ide.DecisionQuery.{
  Compiled, VarImpact, DecisionQueryResult, is_determined_id, support_from_restricted,
  outcome_from_restricted,
}

abbrev pub known : Option Bool → ℕ
known none = 0
known (some _) = 1

-- `determinableCount`: without an entry `undefined !== null` counts both sides.
abbrev pub determinable_count : Map ℕ VarImpact → ℕ → ℕ
determinable_count impact u = elim (get u impact) [
  | none ↦ 2
  | some imp ↦ known imp.if_true.determined + known imp.if_false.determined
]

abbrev pub level_of : Map ℕ ℕ → ℕ → ℕ
level_of idx u = elim (get u idx) [ some i ↦ i | none ↦ 1000000 ]

-- The comparison of two scores: the higher count first, then the lower level.
abbrev pub ranks_before : Map ℕ ℕ → Map ℕ VarImpact → ℕ → ℕ → Bool
ranks_before idx impact a b =
    let ca = determinable_count impact a in
    let cb = determinable_count impact b in
    if ca == cb then leb (level_of idx a) (level_of idx b) else ltb cb ca

unfoldable pub insert_ranked : (ℕ → ℕ → Bool) → ℕ → List ℕ → List ℕ
insert_ranked before u [] = u ∷ []
insert_ranked before u (w ∷ ws) = if before u w then u ∷ w ∷ ws else w ∷ insert_ranked before u ws

unfoldable pub sort_ranked : (ℕ → ℕ → Bool) → List ℕ → List ℕ
unfolding insert_ranked
sort_ranked before [] = []
sort_ranked before (u ∷ us) = insert_ranked before u (sort_ranked before us)

unfoldable pub rank : Map ℕ ℕ → List ℕ → Map ℕ VarImpact → List ℕ
unfolding sort_ranked
rank idx support impact = sort_ranked (ranks_before idx impact) support

-- The bindings by index; a unique without an index is passed over.
unfoldable pub index_bindings : Map ℕ ℕ → Map ℕ Bool → Bindings → Bindings
index_bindings idx [] out = out
index_bindings idx ((u, b) ∷ bs) out =
    index_bindings idx bs (elim (get u idx) [ some i ↦ set i b out | none ↦ out ])

-- The body of the loop over the support.
unfoldable pub impact_of : Compiled → ℕ → ℕ → M VarImpact
impact_of c restricted i = restrict ((i, true) ∷ []) restricted >>= λ with_true.
    restrict ((i, false) ∷ []) restricted >>= λ with_false.
    outcome_from_restricted c with_true >>= λ t.
    outcome_from_restricted c with_false >>= λ f. return (record { if_true = t; if_false = f })

unfoldable pub impacts : Compiled → ℕ → List ℕ → Map ℕ VarImpact → M (Map ℕ VarImpact)
unfolding impact_of
impacts c restricted [] out = return out
impacts c restricted (u ∷ us) out = elim (get u c.index_of) [
  | none ↦ impacts c restricted us out
  | some i ↦ impact_of c restricted i >>= λ imp. impacts c restricted us (set u imp out)
]

abbrev pub get_state : M Bdd
get_state s = ok (s, s)

unfoldable pub query : Compiled → Map ℕ Bool → M DecisionQueryResult
unfolding impacts rank index_bindings support_from_restricted outcome_from_restricted
query c bindings = restrict (index_bindings c.index_of bindings []) c.root >>= λ restricted.
    support_from_restricted c restricted >>= λ us. impacts c restricted us [] >>= λ impact.
    get_state >>= λ bdd. return (record {
      determined = is_determined_id restricted;
      support = us;
      ranked = rank c.index_of us impact;
      impact = impact;
      stats_nodes = node_count bdd;
      stats_support = length us;
    })
