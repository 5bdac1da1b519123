-- ===== src/Graphs/Loops.antt =====
-- What `getEdges` lists and what `removeSelfLoops` removes.
use l4_ide.Prelude.{
  ℕ, Bool, true, false, not, ◌&&◌, ◌||◌, List, [], ◌∷◌, ◌++◌, map, ◌≡◌, refl, ◌∙◌, arith, ◌==◌,
  if◌then◌else◌, get, nat_key, pair_key, filter, Option-cases, inl, inr, ap, Bool-cases,
}
use l4_ide.Robdd.{has}
use l4_ide.DecisionQuery.{to_set, sort}
use l4_ide.DecisionQuery.Order.{NoRepeats}
use l4_ide.DecisionQuery.Sorting.{has-to_set, has-sort}
use l4_ide.Graphs.{
  AdjacencyMap, keys, neighbors_of, has_vertex, has_edge, remove_edge, remove_attributes,
  get_vertices, edge_leb, insert_edge, sort_edges, edges_from, get_all_edges, get_edges,
}
use l4_ide.Graphs.Dag.{Maps, Dag, maps_of, with_maps, remove_loops, remove_self_loops}
use l4_ide.Graphs.View.{
  Relation, Relation-ext, view, has_edge-neighbors_of, has_vertex-keys, has_vertex-set,
  has_edge-set,
}
use l4_ide.Graphs.Build.{set-NoRepeats, has_edge-has_vertex}

-- Does the list name this edge?
abbrev pub lists : ℕ → ℕ → List (ℕ × ℕ) → Bool
lists u v [] = false
lists u v ((a, b) ∷ es) = (u == a && v == b) || lists u v es

-- Each edge comes before the next, or is the same.
abbrev pub IsSortedEdges : List (ℕ × ℕ) → Type 0
IsSortedEdges [] = Unit
IsSortedEdges (e ∷ []) = Unit
IsSortedEdges (e ∷ f ∷ es) = (edge_leb e f ≡ true) × IsSortedEdges (f ∷ es)

lists-append : (u v : ℕ) (a b : List (ℕ × ℕ)) → lists u v (a ++ b) ≡ lists u v a || lists u v b
lists-append u v [] b = refl
lists-append u v ((x, y) ∷ a) b = ground (arith, lists-append u v a b)

lists-row : (u v k : ℕ) (ns : List ℕ) → lists u v (map (λ n. (k, n)) ns) ≡ (u == k) && has v ns
lists-row u v k [] = ground arith
lists-row u v k (n ∷ ns) = ground (arith, lists-row u v k ns)

lists-insert_edge :
    (u v : ℕ) (e : ℕ × ℕ) (es : List (ℕ × ℕ)) → lists u v (insert_edge e es) ≡ lists u v (e ∷ es)
unfolding insert_edge
lists-insert_edge u v e [] = refl
lists-insert_edge u v (a, b) ((c, d) ∷ es) = ground (arith, lists-insert_edge u v (a, b) es)

lists-sort_edges : (u v : ℕ) (es : List (ℕ × ℕ)) → lists u v (sort_edges es) ≡ lists u v es
unfolding sort_edges
lists-sort_edges u v [] = refl
lists-sort_edges u v ((a, b) ∷ es) =
    ground (arith, lists-insert_edge u v (a, b) (sort_edges es), lists-sort_edges u v es)

lists-edges_from :
    (u v : ℕ) (m : AdjacencyMap) (vs : List ℕ)
    → lists u v (edges_from m vs) ≡ has u vs && has_edge u v m
unfolding edges_from
lists-edges_from u v m [] = refl
lists-edges_from u v m (k ∷ vs) =
    let split = lists-append u v (map (λ n. (k, n)) (neighbors_of k m)) (edges_from m vs) in
    let row = lists-row u v k (neighbors_of k m) in
    let edge = has_edge-neighbors_of k v m in ground (arith, lists-edges_from u v m vs)

-- `getEdges` lists an edge exactly when the map has it.
pub lists-get_edges : (u v : ℕ) (m : AdjacencyMap) → lists u v (get_edges m) ≡ has_edge u v m
unfolding get_edges get_all_edges get_vertices
lists-get_edges u v m =
    let a = lists-sort_edges u v (sort_edges (edges_from m (sort (keys m)))) in
    let b = lists-sort_edges u v (edges_from m (sort (keys m))) in
    let c = lists-edges_from u v m (sort (keys m)) in
    let d = has-sort u (keys m) in
    let e = has_vertex-keys u m in let f = has_edge-has_vertex u v m in ground (arith)

insert_edge-IsSortedEdges :
    (e : ℕ × ℕ) (es : List (ℕ × ℕ)) → IsSortedEdges es → IsSortedEdges (insert_edge e es)
unfolding insert_edge
insert_edge-IsSortedEdges e [] s = tt
insert_edge-IsSortedEdges (a, b) ((c, d) ∷ []) s = ground arith
insert_edge-IsSortedEdges (a, b) ((c, d) ∷ (x, y) ∷ es) s =
    let ih = insert_edge-IsSortedEdges (a, b) ((x, y) ∷ es) s.1 in ground arith

sort_edges-IsSortedEdges : (es : List (ℕ × ℕ)) → IsSortedEdges (sort_edges es)
unfolding sort_edges
sort_edges-IsSortedEdges [] = tt
sort_edges-IsSortedEdges (e ∷ es) =
    insert_edge-IsSortedEdges e (sort_edges es) (sort_edges-IsSortedEdges es)

-- The edges that `getEdges` lists are those of the graph's map, in the order of `DirectedEdge.compare`.
pub get_edges_complete :
    (m : AdjacencyMap)
    → ((u v : ℕ) → lists u v (get_edges m) ≡ has_edge u v m) × IsSortedEdges (get_edges m)
get_edges_complete m =
    ((λ u v. lists-get_edges u v m), unfold get_edges in sort_edges-IsSortedEdges (get_all_edges m))

has-without :
    (v n : ℕ) (ns : List ℕ) → has v (filter (λ x. not (x == n)) ns) ≡ has v ns && not (v == n)
has-without v n [] = refl
has-without v n (x ∷ ns) = ground (arith, has-without v n ns)

has_edge-remove_edge :
    (a b u v : ℕ) (m : AdjacencyMap)
    → has_edge a b (remove_edge u v m) ≡ has_edge a b m && not (a == u && b == v)
has_edge-remove_edge a b u v m = elim (Option-cases (get u m)) [
  | inl e ↦ unfold remove_edge has_edge in ground (arith)
  | inr (ns, e) ↦
      let kept : List ℕ = to_set [] (filter (λ n. not (n == v)) ns) in
      let written = has_edge-set a b u kept m in
      let old : has_edge u b m ≡ has b ns = unfold has_edge in ground arith in
      let p = has-to_set b (filter (λ n. not (n == v)) ns) [] in
      let q = has-without b v ns in unfold remove_edge in ground arith
]

has_vertex-remove_edge :
    (a u v : ℕ) (m : AdjacencyMap) → has_vertex a (remove_edge u v m) ≡ has_vertex a m
has_vertex-remove_edge a u v m = elim (Option-cases (get u m)) [
  | inl e ↦ unfold remove_edge in ground (arith)
  | inr (ns, e) ↦
      let kept : List ℕ = to_set [] (filter (λ n. not (n == v)) ns) in
      let written = has_vertex-set a u kept m in
      let old : has_vertex u m ≡ true = unfold has_vertex in ground arith in
      unfold remove_edge in ground arith
]

pub remove_edge-NoRepeats :
    (u v : ℕ) (m : AdjacencyMap) → NoRepeats (keys m) → NoRepeats (keys (remove_edge u v m))
remove_edge-NoRepeats u v m n = elim (Option-cases (get u m)) [
  | inl e ↦ unfold remove_edge in ground (arith)
  | inr (ns, e) ↦
      let kept : List ℕ = to_set [] (filter (λ n. not (n == v)) ns) in
      let written = set-NoRepeats u kept m n in unfold remove_edge in ground arith
]

abbrev pub without_loops : Relation → Relation
without_loops r = record { domain = r.domain; relation = λ u v. r.relation u v && not (u == v) }

-- One round of the loop.
abbrev drop_loop : ℕ → ℕ → Maps → Maps
drop_loop u v m =
    if u == v
    then record {
      adjacency = remove_edge u v m.adjacency;
      attributes = remove_attributes (u, v) m.attributes;
    }
    else m

has_edge-drop_loop :
    (a b u v : ℕ) (m : Maps)
    → has_edge a b (drop_loop u v m).adjacency
      ≡ has_edge a b m.adjacency && not (a == b && a == u && b == v)
has_edge-drop_loop a b u v m = elim (Bool-cases (u == v)) [
  | inl h ↦ rw h (ground (arith, has_edge-remove_edge a b u v m.adjacency))
  | inr h ↦ rw h (ground arith)
]

has_vertex-drop_loop :
    (a u v : ℕ) (m : Maps) → has_vertex a (drop_loop u v m).adjacency ≡ has_vertex a m.adjacency
has_vertex-drop_loop a u v m = elim (Bool-cases (u == v)) [
  | inl h ↦ rw h (has_vertex-remove_edge a u v m.adjacency)
  | inr h ↦ rw h refl
]

has_edge-remove_loops :
    (a b : ℕ) (es : List (ℕ × ℕ)) (m : Maps)
    → has_edge a b (remove_loops es m).adjacency
      ≡ has_edge a b m.adjacency && not (a == b && lists a b es)
unfolding remove_loops
has_edge-remove_loops a b [] m = ground arith
has_edge-remove_loops a b ((u, v) ∷ es) m =
    ground (arith, has_edge-remove_loops a b es (drop_loop u v m), has_edge-drop_loop a b u v m)

has_vertex-remove_loops :
    (a : ℕ) (es : List (ℕ × ℕ)) (m : Maps)
    → has_vertex a (remove_loops es m).adjacency ≡ has_vertex a m.adjacency
unfolding remove_loops
has_vertex-remove_loops a [] m = refl
has_vertex-remove_loops a ((u, v) ∷ es) m =
    has_vertex-remove_loops a es (drop_loop u v m) ∙ has_vertex-drop_loop a u v m

pub maps_of-with_maps : (m : Maps) (g : Dag) → maps_of (with_maps m g) ≡ m
maps_of-with_maps m (Dag.empty_graph _) = refl
maps_of-with_maps m (Dag.vertex_graph v _) = refl
maps_of-with_maps m (Dag.overlay_graph x y _) = refl
maps_of-with_maps m (Dag.connect_graph x y _) = refl

pub view-remove_self_loops :
    (g : Dag)
    → view (maps_of (remove_self_loops g)).adjacency ≡ without_loops (view (maps_of g).adjacency)
unfolding remove_self_loops
view-remove_self_loops g =
    let m : Maps = maps_of g in
    let es : List (ℕ × ℕ) = get_edges m.adjacency in
    ap (λ (n : Maps). view n.adjacency) (maps_of-with_maps (remove_loops es m) g)
    ∙ Relation-ext (view (remove_loops es m).adjacency) (without_loops (view m.adjacency))
        (λ v. has_vertex-remove_loops v es m)
        (λ u v.
          let a = has_edge-remove_loops u v es m in
          let b = lists-get_edges u v m.adjacency in ground (arith))
