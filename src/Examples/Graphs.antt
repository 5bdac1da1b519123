-- ===== src/Examples/Graphs.antt =====
-- The theorems on graphs at concrete graphs.
use l4_ide.Prelude.{
  ℕ, List, [], ◌∷◌, ◌≡◌, refl, arith, ◌==◌, ltb, if◌then◌else◌, get, set, Returns, nat_key,
  pair_key,
}
use l4_ide.Graphs.{
  AdjacencyMap, get_edges, get_all_edges, sort_edges, insert_edge, edges_from, get_vertices,
  has_edge,
}
use l4_ide.DecisionQuery.{sort, insert_sorted, to_set}
use l4_ide.Graphs.Dag.{
  Dag, maps_of, empty, vertex, overlay, connect, bind, gmap, induce, edge, path_from_values,
  get_all_paths,
}
use l4_ide.Graphs.Laws.{relation_of, meaning, MatchesRelations, SatisfiesLaws, graph_algebra}
use l4_ide.Graphs.Loops.{without_loops}
use l4_ide.Graphs.Bind.{bind_laws}
use l4_ide.Graphs.Sound.{
  IsSound, IsPartition, partition_lem, operations-IsSound, path_from_values-IsSound, vertex-IsSound,
}
use l4_ide.Graphs.Paths.{Falls, has_path, maximal_path}
use l4_ide.Graphs.Labels.{AreGraphsOf, IsSameGraph, get_all_paths_lem}

-- A diamond: from 1 to 4 by 2 and by 3.
abbrev diamond : AdjacencyMap
diamond = (1, 2 ∷ 3 ∷ []) ∷ (2, 4 ∷ []) ∷ (3, 4 ∷ []) ∷ (4, []) ∷ []

abbrev diamond_graph : Dag
diamond_graph =
    Dag.vertex_graph 1 (record { adjacency = diamond; attributes = ((1, 2), "yes") ∷ [] })

abbrev sorted : AdjacencyMap → List ℕ
sorted m = 1 ∷ 2 ∷ 3 ∷ 4 ∷ []

abbrev depth : ℕ → ℕ
depth v = if ltb v 2 then 2 else if ltb v 4 then 1 else 0

connects_all :
    get_edges (maps_of (connect (vertex 1) (connect (vertex 2) (vertex 3)))).adjacency
    ≡ (1, 2) ∷ (1, 3) ∷ (2, 3) ∷ []
unfolding connect get_edges get_all_edges sort_edges insert_edge edges_from get_vertices sort
    insert_sorted get set to_set
connects_all = refl

diamond-Falls : Falls depth diamond
unfolding has_edge get
diamond-Falls u v h = ground arith

graph_algebra_example :
    MatchesRelations (vertex 1) (vertex 2) 4 × SatisfiesLaws (vertex 1) (vertex 2) (vertex 3)
graph_algebra_example =
    graph_algebra (vertex 1) (vertex 2) (vertex 3) 4 (refl, tt) (refl, tt) (refl, tt)

bind_laws_example :
    (relation_of (bind (λ a. vertex a) (bind (λ a. edge a 7) (vertex 1)))
      ≡ relation_of (bind (λ x. bind (λ a. vertex a) (edge x 7)) (vertex 1)))
    × (relation_of (bind (λ a. edge a 7) (vertex 5)) ≡ without_loops (meaning (edge 5 7)))
    × (relation_of (bind vertex (vertex 1)) ≡ without_loops (meaning (vertex 1)))
bind_laws_example = bind_laws (λ a. edge a 7) (λ a. vertex a) 5 (vertex 1)

operations_example :
    IsSound empty
    × IsSound (vertex 3)
    × IsSound (path_from_values (1 ∷ 2 ∷ []))
    × IsSound (overlay (vertex 1) (vertex 2))
    × IsSound (connect (vertex 1) (vertex 2))
    × IsSound (bind (λ a. edge a 7) (vertex 1))
    × IsSound (gmap (λ a. 9) (vertex 1))
    × IsSound (induce (λ a. a == 1) (vertex 1))
operations_example =
    operations-IsSound 3 (1 ∷ 2 ∷ []) (λ a. edge a 7) (λ a. 9) (λ a. a == 1) (vertex 1) (vertex 2)
      (vertex-IsSound 1) (vertex-IsSound 2)

partition_example : IsPartition (λ a. a == 2) (path_from_values (1 ∷ 2 ∷ 3 ∷ []))
partition_example =
    partition_lem (λ a. a == 2) (path_from_values (1 ∷ 2 ∷ 3 ∷ []))
      (path_from_values-IsSound (1 ∷ 2 ∷ 3 ∷ []))

get_all_paths_example :
    (ps : List (List ℕ)) × ((p : List ℕ) → has_path p ps ≡ maximal_path diamond 1 p)
    × Returns
        (get_all_paths sorted 3 diamond_graph)
        (λ r. AreGraphsOf (maps_of diamond_graph) ps r.0 × IsSameGraph (maps_of diamond_graph) r.1)
get_all_paths_example =
    get_all_paths_lem sorted depth 3 diamond_graph 1 (2 ∷ 3 ∷ 4 ∷ []) diamond-Falls refl
      (omega arith)
