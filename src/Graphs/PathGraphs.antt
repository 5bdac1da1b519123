-- ===== src/Graphs/PathGraphs.antt =====
-- dag.ts: the graph of a path.
use l4_ide.Prelude.{
  ℕ, Bool, true, false, ◌&&◌, ◌||◌, List, [], ◌∷◌, ◌≡◌, refl, sym, ap, ◌∙◌, arith, ◌==◌, Bool-cases,
  inl, inr, nat_key, pair_key, ==_refl, ==_true,
}
use l4_ide.Robdd.{has}
use l4_ide.Graphs.Dag.{Dag, vertex, overlay, connect, reduce_overlay, path_edges, path_from_values}
use l4_ide.Graphs.View.{Relation, Relation-ext, ◌⊕◌, ◌⊗◌, single}
use l4_ide.Graphs.Laws.{
  IsMap, relation_of, relation_of-connect, relation_of-overlay, relation_of-vertex,
  relation_of-empty, connect-IsMap,
}

-- The second follows the first in the list.
abbrev pub steps : ℕ → ℕ → List ℕ → Bool
steps u v [] = false
steps u v (a ∷ []) = false
steps u v (a ∷ b ∷ p) = (u == a && v == b) || steps u v (b ∷ p)

-- A path as a relation: its members, each related to the next.
abbrev pub path_relation : List ℕ → Relation
path_relation p = record { domain = λ v. has v p; relation = λ u v. steps u v p }

abbrev edge_graph : ℕ → ℕ → Dag
edge_graph u v = connect (vertex u) (vertex v)

edge_graph-IsMap : (u v : ℕ) → IsMap (edge_graph u v)
edge_graph-IsMap u v = connect-IsMap (vertex u) (vertex v) (refl, tt)

relation_of-edge_graph : (u v : ℕ) → relation_of (edge_graph u v) ≡ path_relation (u ∷ v ∷ [])
relation_of-edge_graph u v =
    relation_of-connect (vertex u) (vertex v) (refl, tt)
    ∙ (λ i. relation_of-vertex u i ⊗ relation_of-vertex v i)
    ∙ Relation-ext (single u ⊗ single v) (path_relation (u ∷ v ∷ [])) (λ w. ground arith)
        (λ a b. ground arith)

-- What overlaying the edges after a vertex of the graph adds.
relation_of-reduce_overlay :
    (v : ℕ) (vs : List ℕ) (g : Dag)
    → (relation_of g).domain v ≡ true
    → relation_of (reduce_overlay g (path_edges v vs)) ≡ relation_of g ⊕ path_relation (v ∷ vs)
unfolding reduce_overlay path_edges
relation_of-reduce_overlay v [] g d = sym (
    Relation-ext (relation_of g ⊕ path_relation (v ∷ [])) (relation_of g)
      (λ w. elim (Bool-cases (w == v)) [
        | inl h ↦ let e : w ≡ v = ==_true w v h in rw (e, d) refl
        | inr h ↦ rw h (ground arith)
      ])
      (λ a b. ground arith))
relation_of-reduce_overlay v (w ∷ vs) g d =
    let e =
      relation_of-overlay g (edge_graph v w) (edge_graph-IsMap v w)
      ∙ ap (λ (q : Relation). relation_of g ⊕ q) (relation_of-edge_graph v w) in
    let d' : (relation_of (overlay g (edge_graph v w))).domain w ≡ true =
      ap (λ (q : Relation). q.domain w) e ∙ ground (arith, ==_refl w) in
    relation_of-reduce_overlay w vs (overlay g (edge_graph v w)) d'
    ∙ ap (λ (q : Relation). q ⊕ path_relation (w ∷ vs)) e
    ∙ Relation-ext ((relation_of g ⊕ path_relation (v ∷ w ∷ [])) ⊕ path_relation (w ∷ vs))
        (relation_of g ⊕ path_relation (v ∷ w ∷ vs)) (λ x. ground arith) (λ a b. ground arith)

-- The graph of a path has the path's members, each joined to the next and to nothing else.
pub relation_of-path_from_values : (p : List ℕ) → relation_of (path_from_values p) ≡ path_relation p
unfolding path_from_values
relation_of-path_from_values [] = relation_of-empty
relation_of-path_from_values (u ∷ []) =
    relation_of-vertex u
    ∙ Relation-ext (single u) (path_relation (u ∷ [])) (λ v. ground arith) (λ a b. refl)
relation_of-path_from_values (u ∷ v ∷ vs) =
    let e = relation_of-edge_graph u v in
    relation_of-reduce_overlay v vs (edge_graph u v)
      (ap (λ (q : Relation). q.domain v) e ∙ ground (arith, ==_refl v))
    ∙ ap (λ (q : Relation). q ⊕ path_relation (v ∷ vs)) e
    ∙ Relation-ext (path_relation (u ∷ v ∷ []) ⊕ path_relation (v ∷ vs))
        (path_relation (u ∷ v ∷ vs)) (λ w. ground arith) (λ a b. ground arith)
