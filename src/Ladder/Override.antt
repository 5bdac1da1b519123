-- ===== src/Ladder/Override.antt =====
-- ts-shared/l4-ladder-visualizer/src/lib/eval/query-plan-override.ts: the query planner's answer in place of
-- the ladder's own ranking. A text is its list of code units; the uniques of an atom are looked up in the
-- ladder graph, by the atom's id and by its label. The analysis stands here with the fields that the
-- analyzer's model leaves out.
use l4_ide.Prelude.{
  ℕ, Bool, false, Option, none, some, List, [], ◌∷◌, ◌++◌, if◌then◌else◌, Map, get, set, nat_key,
  same_list, any,
}
use l4_ide.Expr.{unknown_v}
use l4_ide.Robdd.{add}
use l4_ide.Ladder.Analyzer.{PartialEvalAnalysis}

pub record AtomLike : Type 0 where
  pub atom_id : List ℕ
  pub label : List ℕ

pub record ElicitationAsk : Type 0 where
  pub container : List ℕ
  pub path : List (List ℕ)
  pub label : List ℕ

pub record PlanAsk : Type 0 where
  pub ask : ElicitationAsk
  pub atoms : List AtomLike

pub record QueryPlan : Type 0 where
  pub asks : List PlanAsk
  pub ranked : List AtomLike
  pub still_needed : List AtomLike

-- The planner's plan, or the sentence with which it declines.
pub data PlanAnswer : Type 0 where
  planned : QueryPlan → PlanAnswer
  refused : List ℕ → PlanAnswer

abbrev pub AskMap : Type 0
AskMap = Map ℕ (List ElicitationAsk)

pub record ElicitationOverride : Type 0 where
  pub ranked : List ℕ
  pub still_needed : List ℕ
  pub next : List ℕ
  pub ask_by_unique : AskMap
  pub declined : Option (List ℕ)

pub record ShownAnalysis : Type 0 where
  pub analysis : PartialEvalAnalysis
  pub ask_by_unique : AskMap
  pub restricted_expr_text : List ℕ
  pub declined : Option (List ℕ)

-- The overrides that are passed in have `next` and `askByUnique`.
unfoldable pub with_elicitation_override :
    ShownAnalysis → Option ElicitationOverride → ShownAnalysis
with_elicitation_override s none = s
with_elicitation_override s (some o) =
    let shown : PartialEvalAnalysis = record s.analysis {
      next = o.next;
      ranked = o.ranked;
      still_needed = o.still_needed;
    } in
    elim o.declined [
      | none ↦ record s { analysis = shown; ask_by_unique = o.ask_by_unique; declined = none }
      | some why ↦ record {
        analysis = record shown {
          dont_care = [];
          irrelevant_root_ids = [];
          overall_result = unknown_v;
          is_determined = false;
        };
        ask_by_unique = o.ask_by_unique;
        restricted_expr_text = [];
        declined = some why;
      }
    ]

-- What has been collected for each unique, and the labels that it has been asked for by.
pub record Asked : Type 0 where
  pub by_unique : AskMap
  pub seen : Map ℕ (List (List ℕ))

abbrev pub all_in {ℓ} : {A : Type ℓ} → ℕ → Map ℕ (List A) → List A
all_in u m = elim (get u m) [ none ↦ [] | some xs ↦ xs ]

abbrev pub has_text : List ℕ → List (List ℕ) → Bool
has_text s ts = any (λ t. same_list s t) ts

module _ (uniques_for_atom_id uniques_for_label : List ℕ → List ℕ) where
  abbrev pub uniques_for_atom : AtomLike → List ℕ
  uniques_for_atom a = elim (uniques_for_atom_id a.atom_id) [
    | [] ↦ uniques_for_label a.label
    | u ∷ us ↦ u ∷ us
  ]

  -- The inner loop of `uniquesForAtoms`.
  unfoldable pub add_all : List ℕ → List ℕ → List ℕ
  add_all [] out = out
  add_all (u ∷ us) out = add_all us (add u out)

  unfoldable pub collect_uniques : List AtomLike → List ℕ → List ℕ
  unfolding add_all
  collect_uniques [] out = out
  collect_uniques (a ∷ atoms) out = collect_uniques atoms (add_all (uniques_for_atom a) out)

  abbrev pub uniques_for_atoms : List AtomLike → List ℕ
  unfolding collect_uniques
  uniques_for_atoms atoms = collect_uniques atoms []

  unfoldable pub note_ask : ElicitationAsk → ℕ → Asked → Asked
  note_ask ask u s =
      let seen = all_in u s.seen in
      if has_text ask.label seen then record s { seen = set u seen s.seen } else record {
        by_unique = set u (all_in u s.by_unique ++ (ask ∷ [])) s.by_unique;
        seen = set u (seen ++ (ask.label ∷ [])) s.seen;
      }

  unfoldable pub note_uniques : ElicitationAsk → List ℕ → Asked → Asked
  unfolding note_ask
  note_uniques ask [] s = s
  note_uniques ask (u ∷ us) s = note_uniques ask us (note_ask ask u s)

  unfoldable pub note_atoms : ElicitationAsk → List AtomLike → Asked → Asked
  unfolding note_uniques
  note_atoms ask [] s = s
  note_atoms ask (a ∷ atoms) s = note_atoms ask atoms (note_uniques ask (uniques_for_atom a) s)

  unfoldable pub note_asks : List PlanAsk → Asked → Asked
  unfolding note_atoms
  note_asks [] s = s
  note_asks (p ∷ ps) s = note_asks ps (note_atoms p.ask p.atoms s)

  unfoldable pub atoms_of_asks : List PlanAsk → List AtomLike
  atoms_of_asks [] = []
  atoms_of_asks (p ∷ ps) = p.atoms ++ atoms_of_asks ps

  abbrev pub ranked_atoms : QueryPlan → List AtomLike
  unfolding atoms_of_asks
  ranked_atoms plan = elim plan.asks [ [] ↦ plan.ranked | p ∷ ps ↦ atoms_of_asks (p ∷ ps) ]

  abbrev pub first_atoms : List PlanAsk → List AtomLike
  first_atoms [] = []
  first_atoms (p ∷ ps) = p.atoms

  unfoldable pub elicitation_override_from_query_plan : PlanAnswer → ElicitationOverride
  unfolding collect_uniques note_asks atoms_of_asks
  elicitation_override_from_query_plan (refused why) = record {
    ranked = [];
    still_needed = [];
    next = [];
    ask_by_unique = [];
    declined = some why;
  }
  elicitation_override_from_query_plan (planned plan) = record {
    ranked = uniques_for_atoms (ranked_atoms plan);
    still_needed = uniques_for_atoms plan.still_needed;
    next = uniques_for_atoms (first_atoms plan.asks);
    ask_by_unique = (note_asks plan.asks (record { by_unique = []; seen = [] })).by_unique;
    declined = none;
  }
