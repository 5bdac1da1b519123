-- ===== src/Ladder/Asks.antt =====
-- query-plan-override.ts: what the ladder shows of the planner's answer.
use l4_ide.Prelude.{ℕ, Bool, false, ◌&&◌, some, List, [], map, ◌≡◌, nat_key, same_list, any}
use l4_ide.Ladder.Ranking.{each_once, all_uniques}
use l4_ide.Expr.{unknown_v}
use l4_ide.Robdd.{has}
use l4_ide.Ladder.Override.{
  ElicitationAsk, PlanAsk, QueryPlan, ShownAnalysis, Asked, all_in, has_text, uniques_for_atom,
  ranked_atoms, first_atoms,
}

abbrev pub labels : List ElicitationAsk → List (List ℕ)
labels asks = map (λ (a : ElicitationAsk). a.label) asks

-- The labels that are seen are those of the asks collected.
abbrev Agrees : Asked → Type 0
Agrees s = (v : ℕ) → labels (all_in v s.by_unique) ≡ all_in v s.seen

module _ (by_id by_label : List ℕ → List ℕ) where
  -- An ask with this label has an atom of this unique.
  abbrev pub asks_for : ℕ → List ℕ → PlanAsk → Bool
  asks_for v l p =
      same_list l p.ask.label && any (λ a. has v (uniques_for_atom by_id by_label a)) p.atoms

  -- What the ladder shows of a plan: as ranked, as needed and as next it lists the uniques of the plan's atoms
  -- in the plan's order, each once, where it first stands; a unique has an ask with a label exactly if the plan asks for one of its atoms by that label;
  -- and the answer of the rule and the inputs that do not matter stay the ladder's own.
  pub record ShowsPlan (s : ShownAnalysis) (plan : QueryPlan) (r : ShownAnalysis) : Type 0 where
    pub ranked :
        r.analysis.ranked
        ≡ each_once (all_uniques by_id by_label (ranked_atoms by_id by_label plan))
    pub needed : r.analysis.still_needed ≡ each_once (all_uniques by_id by_label plan.still_needed)
    pub next :
        r.analysis.next
        ≡ each_once (all_uniques by_id by_label (first_atoms by_id by_label plan.asks))
    pub asks :
        (v : ℕ) (l : List ℕ)
        → has_text l (labels (all_in v r.ask_by_unique)) ≡ any (asks_for v l) plan.asks
    pub same_result : r.analysis.overall_result ≡ s.analysis.overall_result
    pub same_dont_care : r.analysis.dont_care ≡ s.analysis.dont_care

  -- What it shows when the planner declines: no answer, nothing asked for, ranked or classed as moot, and why.
  pub record ShowsRefusal (why : List ℕ) (r : ShownAnalysis) : Type 0 where
    pub no_answer : r.analysis.overall_result ≡ unknown_v
    pub not_determined : r.analysis.is_determined ≡ false
    pub nothing_ranked : r.analysis.ranked ≡ []
    pub nothing_needed : r.analysis.still_needed ≡ []
    pub nothing_next : r.analysis.next ≡ []
    pub nothing_moot : r.analysis.dont_care ≡ []
    pub no_roots : r.analysis.irrelevant_root_ids ≡ []
    pub reason : r.declined ≡ some why
