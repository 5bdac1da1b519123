-- ===== src/Examples/Override.antt =====
-- The theorem on the query planner's answer at a concrete plan.
use l4_ide.Prelude.{ℕ, true, false, none, List, [], ◌∷◌, ◌==◌, if◌then◌else◌}
use l4_ide.Expr.{true_e, true_v}
use l4_ide.Ladder.Override.{AtomLike, QueryPlan, ShownAnalysis}

-- The atom 7 has the uniques 1 and 2; no other atom is found by its id, and by a label 3 is found.
abbrev by_id : List ℕ → List ℕ
by_id [] = []
by_id (c ∷ cs) = if c == 7 then 1 ∷ 2 ∷ [] else []

abbrev by_label : List ℕ → List ℕ
by_label l = 3 ∷ []

abbrev atom : ℕ → AtomLike
atom n = record { atom_id = n ∷ []; label = 9 ∷ [] }

abbrev two_asks : QueryPlan
two_asks = record {
  asks =
      record { ask = record { container = []; path = []; label = 4 ∷ [] }; atoms = atom 7 ∷ [] }
      ∷ record {
        ask = record { container = []; path = []; label = 4 ∷ [] };
        atoms = atom 8 ∷ atom 7 ∷ [];
      }
      ∷ [];
  ranked = [];
  still_needed = atom 8 ∷ [];
}

abbrev before_plan : ShownAnalysis
before_plan = record {
  analysis = record {
    overall_result = true_v;
    is_determined = true;
    not_asked = [];
    next = [];
    still_needed = [];
    dont_care = 5 ∷ [];
    ranked = [];
    node_relevance = [];
    irrelevant_root_ids = [];
    consulted_uniques = [];
    short_circuited_roots = [];
    short_circuited_node_ids = [];
    restricted_expr = true_e 0 none;
    bdd_stats = none;
    used_bdd = false;
  };
  ask_by_unique = [];
  restricted_expr_text = [];
  declined = none;
}
