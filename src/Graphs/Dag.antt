-- ===== src/Graphs/Dag.antt =====
-- algebraic-graphs/dag.ts: graphs built from the empty graph, vertices, overlays and connections. Each
-- node of the expression has the adjacency map and the attributes that its constructor computed;
-- `removeSelfLoops` changes those of its graph and not the expression. The topological sort is the library's.
use Prim.Native.String.{String}
use l4_ide.Prelude.{
  ℕ, zero, suc, Bool, not, none, some, List, [], ◌∷◌, ◌++◌, map, ◌==◌, if◌then◌else◌, get, set,
  nat_key, pair_key, Result, ok, err,
}
use l4_ide.Graphs.{
  AdjacencyMap, EdgeAttributeMap, graph_union, connect_maps, merge_edge_attribute_maps, get_edges,
  remove_edge, remove_attributes, has_edge, neighbors_of,
}

pub record Maps : Type 0 where
  pub adjacency : AdjacencyMap
  pub attributes : EdgeAttributeMap

pub data Dag : Type 0 where
  empty_graph : Maps → Dag
  vertex_graph : ℕ → Maps → Dag
  overlay_graph connect_graph : Dag → Dag → Maps → Dag

abbrev pub maps_of : Dag → Maps
maps_of (empty_graph m) = m
maps_of (vertex_graph v m) = m
maps_of (overlay_graph x y m) = m
maps_of (connect_graph x y m) = m

abbrev pub with_maps : Maps → Dag → Dag
with_maps m (empty_graph _) = empty_graph m
with_maps m (vertex_graph v _) = vertex_graph v m
with_maps m (overlay_graph x y _) = overlay_graph x y m
with_maps m (connect_graph x y _) = connect_graph x y m

abbrev pub empty : Dag
empty = empty_graph (record { adjacency = []; attributes = [] })

abbrev pub vertex : ℕ → Dag
vertex v = vertex_graph v (record { adjacency = (v, []) ∷ []; attributes = [] })

unfoldable pub overlay : Dag → Dag → Dag
unfolding graph_union merge_edge_attribute_maps
overlay x y = overlay_graph x y (record {
  adjacency = graph_union (maps_of x).adjacency (maps_of y).adjacency;
  attributes = merge_edge_attribute_maps (maps_of x).attributes (maps_of y).attributes;
})

unfoldable pub connect : Dag → Dag → Dag
unfolding connect_maps merge_edge_attribute_maps
connect x y = connect_graph x y (record {
  adjacency = connect_maps (maps_of x).adjacency (maps_of y).adjacency;
  attributes = merge_edge_attribute_maps (maps_of x).attributes (maps_of y).attributes;
})

unfoldable pub foldg {ℓ} : {B : Type ℓ} → B → (ℕ → B) → (B → B → B) → (B → B → B) → Dag → B
foldg e v o c (empty_graph m) = e
foldg e v o c (vertex_graph a m) = v a
foldg e v o c (overlay_graph x y m) = o (foldg e v o c x) (foldg e v o c y)
foldg e v o c (connect_graph x y m) = c (foldg e v o c x) (foldg e v o c y)

-- The loop of `removeSelfLoops` over the edges.
unfoldable pub remove_loops : List (ℕ × ℕ) → Maps → Maps
remove_loops [] m = m
remove_loops ((u, v) ∷ es) m = remove_loops es (
    if u == v
    then record {
      adjacency = remove_edge u v m.adjacency;
      attributes = remove_attributes (u, v) m.attributes;
    }
    else m)

unfoldable pub remove_self_loops : Dag → Dag
unfolding remove_loops
remove_self_loops g = with_maps (remove_loops (get_edges (maps_of g).adjacency) (maps_of g)) g

-- `buildg` hands the four primitives to a function, here the two folds of `bind`.
unfoldable pub bind : (ℕ → Dag) → Dag → Dag
unfolding foldg overlay connect remove_self_loops
bind f g =
    remove_self_loops
      (foldg empty (λ a. foldg empty vertex overlay connect (f a)) overlay connect g)

unfoldable pub gmap : (ℕ → ℕ) → Dag → Dag
unfolding bind
gmap f = bind (λ a. vertex (f a))

unfoldable pub induce : (ℕ → Bool) → Dag → Dag
unfolding bind
induce p = bind (λ a. if p a then vertex a else empty)

pub record Partition : Type 0 where
  pub induced : Dag
  pub complement : Dag

unfoldable pub partition : (ℕ → Bool) → Dag → Partition
unfolding induce
partition p g = record { induced = induce p g; complement = induce (λ a. not (p a)) g }

-- `edge`: both branches build the connection of two vertices.
unfoldable pub edge : ℕ → ℕ → Dag
unfolding connect
edge x y = if x == y then connect (vertex x) (vertex x) else connect (vertex x) (vertex y)

-- `graphs.reduce(overlay, g)`
unfoldable pub reduce_overlay : Dag → List Dag → Dag
unfolding overlay
reduce_overlay g [] = g
reduce_overlay g (h ∷ hs) = reduce_overlay (overlay g h) hs

unfoldable pub vertices : List ℕ → Dag
unfolding reduce_overlay
vertices vs = reduce_overlay empty (map (λ v. vertex v) vs)

unfoldable pub overlays : List Dag → Dag
unfolding reduce_overlay
overlays gs = reduce_overlay empty gs

-- The connections of each vertex with the next one.
unfoldable pub path_edges : ℕ → List ℕ → List Dag
unfolding connect
path_edges u [] = []
path_edges u (v ∷ vs) = connect (vertex u) (vertex v) ∷ path_edges v vs

unfoldable pub path_from_values : List ℕ → Dag
unfolding connect reduce_overlay path_edges
path_from_values [] = empty
path_from_values (u ∷ []) = vertex u
path_from_values (u ∷ v ∷ vs) = reduce_overlay (connect (vertex u) (vertex v)) (path_edges v vs)

pub data GraphError : Type 0 where
  no_such_edge out_of_fuel : GraphError

-- `getAttributesForEdge`: a missing entry is filled in.
unfoldable pub get_attributes_for_edge : ℕ × ℕ → Maps → String × Maps
get_attributes_for_edge e m = elim (get e m.attributes) [
  | some l ↦ (l, m)
  | none ↦ ("", record m { attributes = set e "" m.attributes })
]

unfoldable pub set_edge_attributes : ℕ × ℕ → String → Maps → Result GraphError Maps
unfolding has_edge
set_edge_attributes (u, v) l m =
    if not (has_edge u v m.adjacency)
    then err no_such_edge
    else ok (record m { attributes = set (u, v) l m.attributes })

-- The calls of `flatMap`, one after the other.
unfoldable pub flat_map_paths :
    (ℕ → Result GraphError (List (List ℕ))) → List ℕ → Result GraphError (List (List ℕ))
flat_map_paths paths [] = ok []
flat_map_paths paths (n ∷ ns) = elim (paths n) [
  | err e ↦ err e
  | ok here ↦ elim (flat_map_paths paths ns) [ err e ↦ err e | ok rest ↦ ok (here ++ rest) ]
]

-- `getAllPathsFromVertex`, on fuel: each call goes to a neighbour.
unfoldable pub all_paths_from_vertex : ℕ → AdjacencyMap → ℕ → Result GraphError (List (List ℕ))
unfolding flat_map_paths
all_paths_from_vertex zero m v = err out_of_fuel
all_paths_from_vertex (suc fuel) m v = elim (neighbors_of v m) [
  | [] ↦ ok ((v ∷ []) ∷ [])
  | n ∷ ns ↦ elim (flat_map_paths (all_paths_from_vertex fuel m) (n ∷ ns)) [
    | err e ↦ err e
    | ok paths ↦ ok (map (λ p. v ∷ p) paths)
  ]
]

-- The attributes of the path's edges, read from the graph and set in the path.
unfoldable pub copy_attributes : List (ℕ × ℕ) → Maps → Maps → Result GraphError (Maps × Maps)
unfolding get_attributes_for_edge set_edge_attributes
copy_attributes [] path graph = ok (path, graph)
copy_attributes (e ∷ es) path graph =
    let read = get_attributes_for_edge e graph in
    elim (set_edge_attributes e read.0 path) [
      | err x ↦ err x
      | ok path' ↦ copy_attributes es path' read.1
    ]

unfoldable pub path_graphs : List (List ℕ) → Maps → Result GraphError (List Dag × Maps)
unfolding copy_attributes path_from_values
path_graphs [] graph = ok ([], graph)
path_graphs (p ∷ ps) graph =
    let g = path_from_values p in
    elim (copy_attributes (get_edges (maps_of g).adjacency) (maps_of g) graph) [
      | err x ↦ err x
      | ok (path, graph') ↦ elim (path_graphs ps graph') [
        | err x ↦ err x
        | ok (gs, graph'') ↦ ok (with_maps path g ∷ gs, graph'')
      ]
    ]

-- `top_sort` is the graph library's topological sort.
module _ (top_sort : AdjacencyMap → List ℕ) where
  abbrev pub get_source : Dag → Dag
  get_source g = elim (top_sort (maps_of g).adjacency) [ [] ↦ empty | v ∷ vs ↦ vertex v ]

  abbrev pub last_of : ℕ → List ℕ → ℕ
  last_of v [] = v
  last_of v (w ∷ ws) = last_of w ws

  abbrev pub get_sink : Dag → Dag
  get_sink g = elim (top_sort (maps_of g).adjacency) [ [] ↦ empty | v ∷ vs ↦ vertex (last_of v vs) ]

  unfoldable pub connect_sink_to_node : Dag → ℕ → Dag
  unfolding overlay connect
  connect_sink_to_node g node = overlay g (connect (get_sink g) (vertex node))

  -- `getAllPaths`, with a path for each way from the first vertex of the sort, and the graph's maps after.
  unfoldable pub get_all_paths : ℕ → Dag → Result GraphError (List Dag × Maps)
  unfolding all_paths_from_vertex path_graphs
  get_all_paths fuel g = elim (top_sort (maps_of g).adjacency) [
    | [] ↦ ok ([], maps_of g)
    | v ∷ vs ↦ elim (all_paths_from_vertex fuel (maps_of g).adjacency v) [
      | err e ↦ err e
      | ok paths ↦ path_graphs paths (maps_of g)
    ]
  ]
