-- ===== src/Graphs/Labels.antt =====
-- dag.ts: `getAllPaths` makes a graph of each path and copies the labels of its edges.
use Prim.Native.String.{String}
use l4_ide.Prelude.{
  ℕ, ◌<◌, true, ◌&&◌, Option, none, some, List, [], ◌∷◌, ◌≡◌, refl, sym, ap, ◌∙◌, arith, ◌==◌,
  if◌then◌else◌, Bool-cases, inl, inr, ok, Returns, get, set, get-set, nat_key, pair_key, ==_refl,
  subst,
}
use l4_ide.Graphs.{AdjacencyMap, EdgeAttributeMap, get_edges, has_edge, label_of}
use l4_ide.Graphs.Dag.{
  Maps, Dag, maps_of, with_maps, path_from_values, get_attributes_for_edge, set_edge_attributes,
  copy_attributes, path_graphs, all_paths_from_vertex, get_all_paths,
}
use l4_ide.Graphs.View.{Relation, view}
use l4_ide.Graphs.Loops.{lists, lists-get_edges, maps_of-with_maps}
use l4_ide.Graphs.Laws.{relation_of}
use l4_ide.Graphs.Paths.{Falls, has_path, maximal_path, all_paths_from_vertex_lem}
use l4_ide.Graphs.PathGraphs.{path_relation, steps, relation_of-path_from_values}

-- The same vertices and edges, with the same label on every edge.
abbrev pub IsSameGraph : Maps → Maps → Type 0
IsSameGraph a b =
    (b.adjacency ≡ a.adjacency)
    × ((u v : ℕ) → label_of (u, v) b.attributes ≡ label_of (u, v) a.attributes)

-- The graph of the path, with the labels of the whole graph on its edges.
abbrev pub IsGraphOf : Maps → List ℕ → Dag → Type 0
IsGraphOf whole p g =
    (relation_of g ≡ path_relation p)
    × ((u v : ℕ)
        → steps u v p ≡ true
        → label_of (u, v) (maps_of g).attributes ≡ label_of (u, v) whole.attributes)

abbrev pub AreGraphsOf : Maps → List (List ℕ) → List Dag → Type 0
AreGraphsOf whole [] [] = Unit
AreGraphsOf whole (p ∷ ps) (g ∷ gs) = IsGraphOf whole p g × AreGraphsOf whole ps gs
AreGraphsOf whole ps gs = ⊥

label_of-set :
    (u v a b : ℕ) (l : String) (m : EdgeAttributeMap)
    → label_of (u, v) (set (a, b) l m) ≡ (if u == a && v == b then l else label_of (u, v) m)
label_of-set u v a b l m = ground (arith, get-set (u, v) (a, b) l m)

-- What a read gives, by the entry that is there.
abbrev filled : ℕ → ℕ → Maps → Option String → String × Maps
filled a b m none = ("", record m { attributes = set (a, b) "" m.attributes })
filled a b m (some l) = (l, m)

filled_lem :
    (a b : ℕ) (m : Maps) (o : Option String)
    → get (a, b) m.attributes ≡ o
    → ((filled a b m o).0 ≡ label_of (a, b) m.attributes) × IsSameGraph m (filled a b m o).1
filled_lem a b m none e =
    let empty_label : label_of (a, b) m.attributes ≡ "" = rw (label_of, e) refl in
    (
      sym empty_label,
      (
        refl,
        λ u v.
            let w = label_of-set u v a b "" m.attributes in
            elim (Bool-cases ((u == a) && (v == b))) [
              | inl h ↦
                  let p : u ≡ a = ground arith in
                  let q : v ≡ b = ground arith in w ∙ rw (h, p, q) (sym empty_label)
              | inr h ↦ w ∙ rw h refl
            ],
      ),
    )
filled_lem a b m (some l) e = (rw (label_of, e) refl, (refl, λ u v. refl))

read_run :
    (a b : ℕ) (m : Maps) → get_attributes_for_edge (a, b) m ≡ filled a b m (get (a, b) m.attributes)
unfolding get_attributes_for_edge
read_run a b m = by_entry (get (a, b) m.attributes)
  where
    by_entry :
        (o : Option String)
        → ◌≡◌ {A = String × Maps}
            (elim o [
              | some l ↦ (l, m)
              | none ↦ ("", record m { attributes = set (a, b) "" m.attributes })
            ])
            (filled a b m o)
    by_entry none = refl
    by_entry (some l) = refl

read_lem :
    (a b : ℕ) (m : Maps)
    → ((get_attributes_for_edge (a, b) m).0 ≡ label_of (a, b) m.attributes)
      × IsSameGraph m (get_attributes_for_edge (a, b) m).1
read_lem a b m =
    subst (λ (r : String × Maps). (r.0 ≡ label_of (a, b) m.attributes) × IsSameGraph m r.1)
      (sym (read_run a b m)) (filled_lem a b m (get (a, b) m.attributes) refl)

write_lem :
    (a b : ℕ) (l : String) (m : Maps)
    → has_edge a b m.adjacency ≡ true
    → set_edge_attributes (a, b) l m ≡ ok (record m { attributes = set (a, b) l m.attributes })
unfolding set_edge_attributes
write_lem a b l m h = rw h refl

copy_attributes_run :
    (a b : ℕ) (es : List (ℕ × ℕ)) (path graph path' : Maps)
    → set_edge_attributes (a, b) (get_attributes_for_edge (a, b) graph).0 path ≡ ok path'
    → copy_attributes ((a, b) ∷ es) path graph
      ≡ copy_attributes es path' (get_attributes_for_edge (a, b) graph).1
unfolding copy_attributes
copy_attributes_run a b es path graph path' e = rw (copy_attributes, e) refl

-- What copying the labels of some edges leaves.
abbrev Copied : List (ℕ × ℕ) → Maps → Maps → Maps × Maps → Type 0
Copied es path graph r =
    (r.0.adjacency ≡ path.adjacency)
    × ((u v : ℕ)
        → label_of (u, v) r.0.attributes ≡ (
            if lists u v es
            then label_of (u, v) graph.attributes
            else label_of (u, v) path.attributes))
    × IsSameGraph graph r.1

copy_attributes_lem :
    (es : List (ℕ × ℕ)) (path graph : Maps)
    → ((u v : ℕ) → lists u v es ≡ true → has_edge u v path.adjacency ≡ true)
    → Returns (copy_attributes es path graph) (Copied es path graph)
unfolding copy_attributes
copy_attributes_lem [] path graph h =
    ((path, graph), refl, (refl, (λ u v. refl), (refl, λ u v. refl)))
copy_attributes_lem ((a, b) ∷ es) path graph h =
    let l : String = (get_attributes_for_edge (a, b) graph).0 in
    let graph' : Maps = (get_attributes_for_edge (a, b) graph).1 in
    let read = read_lem a b graph in
    let path' : Maps = record path { attributes = set (a, b) l path.attributes } in
    let written = write_lem a b l path (h a b (ground (arith, ==_refl a, ==_refl b))) in
    let ih = copy_attributes_lem es path' graph' (λ u v k. h u v (ground arith)) in
    (
      ih.0,
      copy_attributes_run a b es path graph path' written ∙ ih.1,
      (
        ih.2.0,
        (λ u v.
            let step = ih.2.1 u v in
            let w = label_of-set u v a b l path.attributes in
            let same = read.1.1 u v in
            elim (Bool-cases ((u == a) && (v == b))) [
              | inl k ↦
                  let p : u ≡ a = ground arith in
                  let q : v ≡ b = ground arith in
                  let old : l ≡ label_of (u, v) graph.attributes = rw (p, q) (read.0) in
                  ground (arith)
              | inr k ↦ ground (arith)
            ]),
        (ih.2.2.0 ∙ read.1.0, λ u v. ih.2.2.1 u v ∙ read.1.1 u v),
      ),
    )

IsSameGraph-trans : (a b c : Maps) → IsSameGraph a b → IsSameGraph b c → IsSameGraph a c
IsSameGraph-trans a b c h k = (k.0 ∙ h.0, λ u v. k.1 u v ∙ h.1 u v)

-- The labels of a graph may be read from any graph with the same labels.
AreGraphsOf-same :
    (a b : Maps) (ps : List (List ℕ)) (gs : List Dag)
    → IsSameGraph a b
    → AreGraphsOf b ps gs
    → AreGraphsOf a ps gs
AreGraphsOf-same a b [] [] s h = tt
AreGraphsOf-same a b (p ∷ ps) (g ∷ gs) s h =
    ((h.0.0, λ u v k. h.0.1 u v k ∙ s.1 u v), AreGraphsOf-same a b ps gs s h.1)
AreGraphsOf-same a b [] (g ∷ gs) s h = elim h [ ]
AreGraphsOf-same a b (p ∷ ps) [] s h = elim h [ ]

path_graphs_run :
    (p : List ℕ) (ps : List (List ℕ)) (graph : Maps) {r : Maps × Maps} {q : List Dag × Maps}
    → copy_attributes
        (get_edges (maps_of (path_from_values p)).adjacency)
        (maps_of (path_from_values p))
        graph
      ≡ ok r
    → path_graphs ps r.1 ≡ ok q
    → path_graphs (p ∷ ps) graph ≡ ok (with_maps r.0 (path_from_values p) ∷ q.0, q.1)
unfolding path_graphs
path_graphs_run p ps graph {r} {q} a b = rw (path_graphs, a, b) refl

pub path_graphs_lem :
    (ps : List (List ℕ)) (graph : Maps)
    → Returns (path_graphs ps graph) (λ r. AreGraphsOf graph ps r.0 × IsSameGraph graph r.1)
unfolding path_graphs
path_graphs_lem [] graph = (([], graph), refl, (tt, (refl, λ u v. refl)))
path_graphs_lem (p ∷ ps) graph =
    let g : Dag = path_from_values p in
    let m : Maps = maps_of g in
    let copied =
      copy_attributes_lem (get_edges m.adjacency) m graph
        (λ u v h. sym (lists-get_edges u v m.adjacency) ∙ h) in
    let path : Maps = copied.0.0 in
    let rest = path_graphs_lem ps copied.0.1 in
    let put : maps_of (with_maps path g) ≡ path = maps_of-with_maps path g in
    let is_path = relation_of-path_from_values p in
    let adjacent : (maps_of (with_maps path g)).adjacency ≡ m.adjacency =
      ap (λ (x : Maps). x.adjacency) put ∙ copied.2.0 in
    (
      (with_maps path g ∷ rest.0.0, rest.0.1),
      path_graphs_run p ps graph copied.1 rest.1,
      (
        (
          (
            ap view adjacent ∙ is_path,
            λ u v k.
                let edge : lists u v (get_edges m.adjacency) ≡ true =
                  lists-get_edges u v m.adjacency
                  ∙ ap (λ (q : Relation). q.relation u v) is_path
                  ∙ k in
                ap (λ (x : Maps). label_of (u, v) x.attributes) put ∙ copied.2.1 u v ∙ rw edge refl,
          ),
          AreGraphsOf-same graph copied.0.1 ps rest.0.0 copied.2.2 rest.2.0,
        ),
        IsSameGraph-trans graph copied.0.1 rest.0.1 copied.2.2 rest.2.1,
      ),
    )

module _ (top_sort : AdjacencyMap → List ℕ) where
  get_all_paths_run :
      (fuel : ℕ) (g : Dag) (v : ℕ) (vs : List ℕ) {ps : List (List ℕ)}
      → top_sort (maps_of g).adjacency ≡ v ∷ vs
      → all_paths_from_vertex fuel (maps_of g).adjacency v ≡ ok ps
      → get_all_paths top_sort fuel g ≡ path_graphs ps (maps_of g)
  unfolding get_all_paths
  get_all_paths_run fuel g v vs {ps} a b = rw (get_all_paths, a, b) refl

  -- Where the graph has no cycle and the sort's first vertex has a rank below the fuel, `getAllPaths` throws
  -- no error and gives a graph for each maximal path from that vertex: the path's vertices, each joined to the
  -- next and to nothing else, and each edge with its label in the whole graph. The whole graph keeps its
  -- vertices, edges and labels.
  pub get_all_paths_lem :
      (rank : ℕ → ℕ) (fuel : ℕ) (g : Dag) (v : ℕ) (vs : List ℕ)
      → Falls rank (maps_of g).adjacency
      → top_sort (maps_of g).adjacency ≡ v ∷ vs
      → rank v < fuel
      → (ps : List (List ℕ)) × ((p : List ℕ)
          → has_path p ps ≡ maximal_path (maps_of g).adjacency v p)
        × Returns
            (get_all_paths top_sort fuel g)
            (λ r. AreGraphsOf (maps_of g) ps r.0 × IsSameGraph (maps_of g) r.1)
  get_all_paths_lem rank fuel g v vs falls e h =
      let found = all_paths_from_vertex_lem rank (maps_of g).adjacency fuel v falls h in
      let made = path_graphs_lem found.0 (maps_of g) in
      (found.0, found.2, (made.0, get_all_paths_run fuel g v vs e found.1 ∙ made.1, made.2))
