-- ===== src/Graphs/Build.antt =====
-- What the maps of an overlay and of a connection hold, and the well-formedness of maps.
use l4_ide.Prelude.{
  ℕ, true, ◌&&◌, ◌||◌, List, [], ◌∷◌, ◌≡◌, refl, sym, ◌∙◌, arith, ◌==◌, if◌then◌else◌, get, set,
  nat_key,
}
use l4_ide.Robdd.{has}
use l4_ide.DecisionQuery.{to_set}
use l4_ide.DecisionQuery.Order.{NoRepeats}
use l4_ide.DecisionQuery.Sorting.{has-to_set}
use l4_ide.Graphs.{
  AdjacencyMap, keys, neighbors_of, set_union, graph_union, append_vertices_to_source_neighbors,
  connect_maps, has_vertex, has_edge,
}
use l4_ide.Graphs.View.{
  Relation-ext, view, ◌⊕◌, ◌⊗◌, has-set_union, has_edge-neighbors_of, has_vertex-keys,
  has_vertex-set, has_edge-set,
}

has-keys-set :
    (v k : ℕ) (ns : List ℕ) (m : AdjacencyMap)
    → has v (keys (set k ns m)) ≡ (v == k) || has v (keys m)
has-keys-set v k ns m =
    sym (has_vertex-keys v (set k ns m))
    ∙ has_vertex-set v k ns m
    ∙ (λ i. (v == k) || has_vertex-keys v m i)

-- A write keeps the keys apart.
pub set-NoRepeats :
    (k : ℕ) (ns : List ℕ) (m : AdjacencyMap) → NoRepeats (keys m) → NoRepeats (keys (set k ns m))
unfolding set
set-NoRepeats k ns [] n = (refl, tt)
set-NoRepeats k ns ((j, ms) ∷ m) n = ground (arith, set-NoRepeats k ns m, has-keys-set j k ns m)

pub graph_union-NoRepeats :
    (x y : AdjacencyMap) → NoRepeats (keys x) → NoRepeats (keys (graph_union x y))
unfolding graph_union
graph_union-NoRepeats x [] n = n
graph_union-NoRepeats x ((v, ns) ∷ y) n =
    graph_union-NoRepeats (set v (set_union (neighbors_of v x) ns) x) y
      (set-NoRepeats v (set_union (neighbors_of v x) ns) x n)

append-NoRepeats :
    (x : AdjacencyMap) (vs targets : List ℕ)
    → NoRepeats (keys x)
    → NoRepeats (keys (append_vertices_to_source_neighbors x vs targets))
unfolding append_vertices_to_source_neighbors
append-NoRepeats x [] targets n = n
append-NoRepeats x (v ∷ vs) targets n =
    append-NoRepeats (set v (set_union (neighbors_of v x) (to_set [] targets)) x) vs targets
      (set-NoRepeats v (set_union (neighbors_of v x) (to_set [] targets)) x n)

pub connect_maps-NoRepeats :
    (x y : AdjacencyMap) → NoRepeats (keys x) → NoRepeats (keys (connect_maps x y))
unfolding connect_maps
connect_maps-NoRepeats x y n =
    append-NoRepeats (graph_union x y) (keys x) (keys y) (graph_union-NoRepeats x y n)

has_vertex-graph_union :
    (v : ℕ) (x y : AdjacencyMap) → has_vertex v (graph_union x y) ≡ has_vertex v x || has_vertex v y
unfolding graph_union has_vertex get
has_vertex-graph_union v x [] = ground arith
has_vertex-graph_union v x ((k, ns) ∷ y) =
    let ih = has_vertex-graph_union v (set k (set_union (neighbors_of k x) ns) x) y in
    ground (arith, ih, has_vertex-set v k (set_union (neighbors_of k x) ns) x)

-- An edge starts at a vertex.
pub has_edge-has_vertex :
    (u v : ℕ) (m : AdjacencyMap) → has_edge u v m ≡ true → has_vertex u m ≡ true
unfolding has_edge has_vertex
has_edge-has_vertex u v m h = ground arith

has_edge-graph_union :
    (u v : ℕ) (x y : AdjacencyMap)
    → NoRepeats (keys y)
    → has_edge u v (graph_union x y) ≡ has_edge u v x || has_edge u v y
unfolding graph_union
has_edge-graph_union u v x [] n = unfold has_edge get in ground arith
has_edge-graph_union u v x ((k, ns) ∷ y) n =
    let x' : AdjacencyMap = set k (set_union (neighbors_of k x) ns) x in
    let ih = has_edge-graph_union u v x' y n.1 in
    let here = has_edge-set u v k (set_union (neighbors_of k x) ns) x in
    let both = has-set_union v (neighbors_of k x) ns in
    let old = has_edge-neighbors_of k v x in
    let start = has_edge-has_vertex k v y in
    let absent = has_vertex-keys k y in
    let first : has_edge u v ((k, ns) ∷ y) ≡ (if u == k then has v ns else has_edge u v y) =
      unfold has_edge get in ground arith in
    ground (arith)

has_vertex-append :
    (v : ℕ) (x : AdjacencyMap) (vs targets : List ℕ)
    → has_vertex v (append_vertices_to_source_neighbors x vs targets) ≡ has_vertex v x || has v vs
unfolding append_vertices_to_source_neighbors
has_vertex-append v x [] targets = ground arith
has_vertex-append v x (k ∷ vs) targets =
    let ns : List ℕ = set_union (neighbors_of k x) (to_set [] targets) in
    let ih = has_vertex-append v (set k ns x) vs targets in
    ground (arith, ih, has_vertex-set v k ns x)

has_edge-append :
    (u v : ℕ) (x : AdjacencyMap) (vs targets : List ℕ)
    → has_edge u v (append_vertices_to_source_neighbors x vs targets)
      ≡ has_edge u v x || (has u vs && has v targets)
unfolding append_vertices_to_source_neighbors
has_edge-append u v x [] targets = ground arith
has_edge-append u v x (k ∷ vs) targets =
    let ns : List ℕ = set_union (neighbors_of k x) (to_set [] targets) in
    let ih = has_edge-append u v (set k ns x) vs targets in
    let here = has_edge-set u v k ns x in
    let both = has-set_union v (neighbors_of k x) (to_set [] targets) in
    let old = has_edge-neighbors_of k v x in let all = has-to_set v targets [] in ground (arith)

pub view-graph_union :
    (x y : AdjacencyMap) → NoRepeats (keys y) → view (graph_union x y) ≡ view x ⊕ view y
view-graph_union x y n =
    Relation-ext (view (graph_union x y)) (view x ⊕ view y) (λ v. has_vertex-graph_union v x y)
      (λ u v. has_edge-graph_union u v x y n)

pub view-connect_maps :
    (x y : AdjacencyMap) → NoRepeats (keys y) → view (connect_maps x y) ≡ view x ⊗ view y
unfolding connect_maps
view-connect_maps x y n =
    Relation-ext (view (connect_maps x y)) (view x ⊗ view y)
      (λ v.
        let a = has_vertex-append v (graph_union x y) (keys x) (keys y) in
        let b = has_vertex-graph_union v x y in let c = has_vertex-keys v x in ground (arith))
      (λ u v.
        let a = has_edge-append u v (graph_union x y) (keys x) (keys y) in
        let b = has_edge-graph_union u v x y n in
        let c = has_vertex-keys u x in let d = has_vertex-keys v y in ground (arith))
