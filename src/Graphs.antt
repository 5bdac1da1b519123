-- ===== src/Graphs.antt =====
-- ts-shared/l4-ladder-visualizer/src/lib/algebraic-graphs: directed graphs as adjacency maps, with
-- attributes on the edges (base-adjacency-map.ts, adjacency-map-directed-graph.ts), and the attributes of
-- layout-ir/ladder-graph/edge-attributes.ts. A vertex is a number: the code keys its maps by the vertex, and
-- orders vertices by `compare`. The key of an edge's attributes is the pair of its ends.
pub mod Dag
pub mod View
pub mod Build
pub mod Laws
pub mod Bind
pub mod Sound
pub mod Loops
pub mod Paths
pub mod PathGraphs
pub mod Labels
use Prim.Native.String
use Prim.Native.String.{String}
use l4_ide.Prelude.{
  ℕ, zero, suc, Bool, true, false, not, ◌&&◌, ◌||◌, Option, none, some, List, [], ◌∷◌, ◌++◌, map,
  ◌==◌, leb, ltb, if◌then◌else◌, Map, get, set, nat_key, pair_key, filter, any,
}
use l4_ide.Robdd.{has, add}
use l4_ide.DecisionQuery.{to_set, sort}

abbrev pub AdjacencyMap : Type 0
AdjacencyMap = Map ℕ (List ℕ)

-- The attributes of an edge: its label.
abbrev pub EdgeAttributeMap : Type 0
EdgeAttributeMap = Map (ℕ × ℕ) String

-- `mergeEdgeLabels`
abbrev pub merge_labels : String → String → String
merge_labels String.[] l2 = l2
merge_labels (String.◌∷◌ c l1) String.[] = String.◌∷◌ c l1
merge_labels (String.◌∷◌ c l1) (String.◌∷◌ d l2) = String.◌∷◌ d l2

abbrev pub keys {ℓ} : {V : Type ℓ} → Map ℕ V → List ℕ
keys [] = []
keys ((k, v) ∷ m) = k ∷ keys m

-- `map.get(v) ?? new Set()`
abbrev pub neighbors_of : ℕ → AdjacencyMap → List ℕ
neighbors_of v m = elim (get v m) [ none ↦ [] | some ns ↦ ns ]

unfoldable pub set_union : List ℕ → List ℕ → List ℕ
set_union a b = to_set [] (a ++ b)

-- The loop of `graphUnion` over the second map.
unfoldable pub graph_union : AdjacencyMap → AdjacencyMap → AdjacencyMap
unfolding set_union
graph_union combined [] = combined
graph_union combined ((v, ns) ∷ y) =
    graph_union (set v (set_union (neighbors_of v combined) ns) combined) y

unfoldable pub append_vertices_to_source_neighbors : AdjacencyMap → List ℕ → List ℕ → AdjacencyMap
unfolding set_union
append_vertices_to_source_neighbors combined [] targets = combined
append_vertices_to_source_neighbors combined (v ∷ vs) targets =
    append_vertices_to_source_neighbors
      (set v (set_union (neighbors_of v combined) (to_set [] targets)) combined) vs targets

-- `makeDirectedConnectAdjacencyMap`
unfoldable pub connect_maps : AdjacencyMap → AdjacencyMap → AdjacencyMap
unfolding graph_union append_vertices_to_source_neighbors
connect_maps a b = append_vertices_to_source_neighbors (graph_union a b) (keys a) (keys b)

abbrev pub label_of : ℕ × ℕ → EdgeAttributeMap → String
label_of e m = elim (get e m) [ none ↦ "" | some l ↦ l ]

-- The loop of `mergeEdgeAttributeMaps` over the second map.
unfoldable pub merge_edge_attribute_maps : EdgeAttributeMap → EdgeAttributeMap → EdgeAttributeMap
merge_edge_attribute_maps merged [] = merged
merge_edge_attribute_maps merged ((e, l) ∷ right) =
    merge_edge_attribute_maps (set e (merge_labels (label_of e merged) l) merged) right

-- `hasVertex` and `hasEdge`
unfoldable pub has_vertex : ℕ → AdjacencyMap → Bool
has_vertex v m = elim (get v m) [ none ↦ false | some ns ↦ true ]

unfoldable pub has_edge : ℕ → ℕ → AdjacencyMap → Bool
has_edge u v m = elim (get u m) [ none ↦ false | some ns ↦ has v ns ]

-- `_removeEdge`
unfoldable pub remove_edge : ℕ → ℕ → AdjacencyMap → AdjacencyMap
remove_edge u v m = elim (get u m) [
  | none ↦ m
  | some ns ↦ set u (to_set [] (filter (λ n. not (n == v)) ns)) m
]

-- `map.delete(edgeKey)`
unfoldable pub remove_attributes : ℕ × ℕ → EdgeAttributeMap → EdgeAttributeMap
remove_attributes e [] = []
remove_attributes (a, b) (((u, v), l) ∷ m) =
    if a == u && b == v then m else ((u, v), l) ∷ remove_attributes (a, b) m

unfoldable pub get_vertices : AdjacencyMap → List ℕ
get_vertices m = sort (keys m)

abbrev pub edge_leb : ℕ × ℕ → ℕ × ℕ → Bool
edge_leb (a, b) (c, d) = if a == c then leb b d else ltb a c

unfoldable pub insert_edge : ℕ × ℕ → List (ℕ × ℕ) → List (ℕ × ℕ)
insert_edge e [] = e ∷ []
insert_edge e (f ∷ es) = if edge_leb e f then e ∷ f ∷ es else f ∷ insert_edge e es

unfoldable pub sort_edges : List (ℕ × ℕ) → List (ℕ × ℕ)
unfolding insert_edge
sort_edges [] = []
sort_edges (e ∷ es) = insert_edge e (sort_edges es)

-- The edges of each vertex, in the order of the vertices.
unfoldable pub edges_from : AdjacencyMap → List ℕ → List (ℕ × ℕ)
edges_from m [] = []
edges_from m (v ∷ vs) = map (λ n. (v, n)) (neighbors_of v m) ++ edges_from m vs

unfoldable pub get_all_edges : AdjacencyMap → List (ℕ × ℕ)
unfolding edges_from sort_edges get_vertices
get_all_edges m = sort_edges (edges_from m (get_vertices m))

unfoldable pub get_edges : AdjacencyMap → List (ℕ × ℕ)
unfolding get_all_edges
get_edges m = sort_edges (get_all_edges m)
