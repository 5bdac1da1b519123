-- ===== src/Graphs/Laws.antt =====
-- The algebra of graphs: what the four constructions and `bind` of dag.ts do to the relations.
use l4_ide.Prelude.{ℕ, ◌≡◌, refl, sym, ap, ◌∙◌, arith, get, nat_key}
use l4_ide.DecisionQuery.Order.{NoRepeats}
use l4_ide.Graphs.{keys, has_vertex, has_edge}
use l4_ide.Graphs.Dag.{Dag, maps_of, empty, vertex, overlay, connect, foldg}
use l4_ide.Graphs.View.{Relation, Relation-ext, view, none_related, single, ◌⊕◌, ◌⊗◌}
use l4_ide.Graphs.Build.{
  graph_union-NoRepeats, connect_maps-NoRepeats, view-graph_union, view-connect_maps,
}
use l4_ide.Graphs.Loops.{without_loops}

-- The relation of a graph's maps, and that of its expression.
abbrev pub relation_of : Dag → Relation
relation_of g = view (maps_of g).adjacency

abbrev pub meaning : Dag → Relation
meaning g = foldg none_related single ◌⊕◌ ◌⊗◌ g

-- The adjacency map of the graph has each vertex once.
abbrev pub IsMap : Dag → Type 0
IsMap g = NoRepeats (keys (maps_of g).adjacency)

pub overlay-IsMap : (x y : Dag) → IsMap x → IsMap (overlay x y)
unfolding overlay
overlay-IsMap x y n = graph_union-NoRepeats (maps_of x).adjacency (maps_of y).adjacency n

pub connect-IsMap : (x y : Dag) → IsMap x → IsMap (connect x y)
unfolding connect
connect-IsMap x y n = connect_maps-NoRepeats (maps_of x).adjacency (maps_of y).adjacency n

pub relation_of-overlay :
    (x y : Dag) → IsMap y → relation_of (overlay x y) ≡ relation_of x ⊕ relation_of y
unfolding overlay
relation_of-overlay x y n = view-graph_union (maps_of x).adjacency (maps_of y).adjacency n

pub relation_of-connect :
    (x y : Dag) → IsMap y → relation_of (connect x y) ≡ relation_of x ⊗ relation_of y
unfolding connect
relation_of-connect x y n = view-connect_maps (maps_of x).adjacency (maps_of y).adjacency n

pub relation_of-empty : relation_of empty ≡ none_related
unfolding has_vertex has_edge get
relation_of-empty = refl

pub relation_of-vertex : (a : ℕ) → relation_of (vertex a) ≡ single a
unfolding has_vertex has_edge get
relation_of-vertex a =
    Relation-ext (relation_of (vertex a)) (single a) (λ v. ground arith) (λ u v. ground arith)

⊕-comm : (r s : Relation) → r ⊕ s ≡ s ⊕ r
⊕-comm r s = Relation-ext (r ⊕ s) (s ⊕ r) (λ v. ground arith) (λ u v. ground arith)

⊕-assoc : (r s t : Relation) → (r ⊕ s) ⊕ t ≡ r ⊕ (s ⊕ t)
⊕-assoc r s t = Relation-ext ((r ⊕ s) ⊕ t) (r ⊕ (s ⊕ t)) (λ v. ground arith) (λ u v. ground arith)

⊗-assoc : (r s t : Relation) → (r ⊗ s) ⊗ t ≡ r ⊗ (s ⊗ t)
⊗-assoc r s t = Relation-ext ((r ⊗ s) ⊗ t) (r ⊗ (s ⊗ t)) (λ v. ground arith) (λ u v. ground arith)

⊗-⊕ : (r s t : Relation) → r ⊗ (s ⊕ t) ≡ (r ⊗ s) ⊕ (r ⊗ t)
⊗-⊕ r s t = Relation-ext (r ⊗ (s ⊕ t)) ((r ⊗ s) ⊕ (r ⊗ t)) (λ v. ground arith) (λ u v. ground arith)

⊕-⊗ : (r s t : Relation) → (r ⊕ s) ⊗ t ≡ (r ⊗ t) ⊕ (s ⊗ t)
⊕-⊗ r s t = Relation-ext ((r ⊕ s) ⊗ t) ((r ⊗ t) ⊕ (s ⊗ t)) (λ v. ground arith) (λ u v. ground arith)

⊗-parts : (r s t : Relation) → (r ⊗ s) ⊗ t ≡ ((r ⊗ s) ⊕ (r ⊗ t)) ⊕ (s ⊗ t)
⊗-parts r s t =
    Relation-ext ((r ⊗ s) ⊗ t) (((r ⊗ s) ⊕ (r ⊗ t)) ⊕ (s ⊗ t)) (λ v. ground arith)
      (λ u v. ground arith)

pub ⊕-none_related : (r : Relation) → r ⊕ none_related ≡ r
⊕-none_related r = Relation-ext (r ⊕ none_related) r (λ v. ground arith) (λ u v. ground arith)

pub ⊗-none_related : (r : Relation) → r ⊗ none_related ≡ r
⊗-none_related r = Relation-ext (r ⊗ none_related) r (λ v. ground arith) (λ u v. ground arith)

none_related-⊗ : (r : Relation) → none_related ⊗ r ≡ r
none_related-⊗ r = Relation-ext (none_related ⊗ r) r (λ v. ground arith) (λ u v. ground arith)

pub without_loops-⊕ : (r s : Relation) → without_loops (r ⊕ s) ≡ without_loops r ⊕ without_loops s
without_loops-⊕ r s =
    Relation-ext (without_loops (r ⊕ s)) (without_loops r ⊕ without_loops s) (λ v. refl)
      (λ u v. ground arith)

pub without_loops-⊗ :
    (r s : Relation) → without_loops (r ⊗ s) ≡ without_loops (without_loops r ⊗ without_loops s)
without_loops-⊗ r s =
    Relation-ext (without_loops (r ⊗ s)) (without_loops (without_loops r ⊗ without_loops s))
      (λ v. refl) (λ u v. ground arith)

pub without_loops-twice : (r : Relation) → without_loops (without_loops r) ≡ without_loops r
without_loops-twice r =
    Relation-ext (without_loops (without_loops r)) (without_loops r) (λ v. refl)
      (λ u v. ground arith)

-- What the constructions are, as relations: a vertex or an edge of an overlay is one of either graph, and a
-- connection has an edge as well from each vertex of the first graph to each of the second.
abbrev pub MatchesRelations : Dag → Dag → ℕ → Type 0
MatchesRelations x y a =
    (relation_of empty ≡ none_related)
    × (relation_of (vertex a) ≡ single a)
    × (relation_of (overlay x y) ≡ relation_of x ⊕ relation_of y)
    × (relation_of (connect x y) ≡ relation_of x ⊗ relation_of y)

-- The laws of the algebra of graphs, as relations.
abbrev pub SatisfiesLaws : Dag → Dag → Dag → Type 0
SatisfiesLaws x y z =
    (relation_of (overlay x y) ≡ relation_of (overlay y x))
    × (relation_of (overlay (overlay x y) z) ≡ relation_of (overlay x (overlay y z)))
    × (relation_of (overlay x empty) ≡ relation_of x)
    × (relation_of (connect (connect x y) z) ≡ relation_of (connect x (connect y z)))
    × (relation_of (connect x empty) ≡ relation_of x)
    × (relation_of (connect empty x) ≡ relation_of x)
    × (relation_of (connect x (overlay y z)) ≡ relation_of (overlay (connect x y) (connect x z)))
    × (relation_of (connect (overlay x y) z) ≡ relation_of (overlay (connect x z) (connect y z)))
    × (relation_of (connect (connect x y) z)
        ≡ relation_of (overlay (overlay (connect x y) (connect x z)) (connect y z)))

graph_laws : (x y z : Dag) → IsMap x → IsMap y → IsMap z → SatisfiesLaws x y z
graph_laws x y z nx ny nz =
    let r : Relation = relation_of x in
    let s : Relation = relation_of y in
    let t : Relation = relation_of z in
    let xy = relation_of-connect x y ny in
    let xz = relation_of-connect x z nz in
    let yz = relation_of-connect y z nz in
    let oxy = relation_of-overlay x y ny in
    let oyz = relation_of-overlay y z nz in
    let nyz = overlay-IsMap y z ny in
    let three = relation_of-connect (connect x y) z nz ∙ ap (λ (q : Relation). q ⊗ t) xy in
    (
      oxy ∙ ⊕-comm r s ∙ sym (relation_of-overlay y x nx),
      relation_of-overlay (overlay x y) z nz
          ∙ ap (λ (q : Relation). q ⊕ t) oxy
          ∙ ⊕-assoc r s t
          ∙ sym (relation_of-overlay x (overlay y z) nyz ∙ ap (λ (q : Relation). r ⊕ q) oyz),
      relation_of-overlay x empty tt
          ∙ ap (λ (q : Relation). r ⊕ q) relation_of-empty
          ∙ ⊕-none_related r,
      three
          ∙ ⊗-assoc r s t
          ∙ sym (
              relation_of-connect x (connect y z) (connect-IsMap y z ny)
              ∙ ap (λ (q : Relation). r ⊗ q) yz),
      relation_of-connect x empty tt
          ∙ ap (λ (q : Relation). r ⊗ q) relation_of-empty
          ∙ ⊗-none_related r,
      relation_of-connect empty x nx
          ∙ ap (λ (q : Relation). q ⊗ r) relation_of-empty
          ∙ none_related-⊗ r,
      relation_of-connect x (overlay y z) nyz
          ∙ ap (λ (q : Relation). r ⊗ q) oyz
          ∙ ⊗-⊕ r s t
          ∙ sym (
              relation_of-overlay (connect x y) (connect x z) (connect-IsMap x z nx)
              ∙ (λ i. xy i ⊕ xz i)),
      relation_of-connect (overlay x y) z nz
          ∙ ap (λ (q : Relation). q ⊗ t) oxy
          ∙ ⊕-⊗ r s t
          ∙ sym (
              relation_of-overlay (connect x z) (connect y z) (connect-IsMap y z ny)
              ∙ (λ i. xz i ⊕ yz i)),
      three
          ∙ ⊗-parts r s t
          ∙ sym (
              relation_of-overlay (overlay (connect x y) (connect x z)) (connect y z)
                (connect-IsMap y z ny)
              ∙ (λ i.
                  (relation_of-overlay (connect x y) (connect x z) (connect-IsMap x z nx)
                      ∙ (λ j. xy j ⊕ xz j))
                    i
                  ⊕ yz i)),
    )

-- Where the maps of the graphs have each vertex once: the empty graph has no vertex, and `vertex a` has the one
-- vertex `a` and no edge; the vertices and edges of an overlay are those of either graph; and a connection
-- has, besides these, an edge from each vertex of the first graph to each vertex of the second, and no other.
-- So they satisfy the laws of the algebra of graphs, as relations: an overlay commutes, is associative and
-- has the empty graph as its unit; a connection is associative, has the empty graph as its unit on both
-- sides and distributes over overlays on both sides; and a connection of three graphs is the overlay of its
-- three connections of two.
pub graph_algebra :
    (x y z : Dag) (a : ℕ)
    → IsMap x
    → IsMap y
    → IsMap z
    → MatchesRelations x y a × SatisfiesLaws x y z
graph_algebra x y z a nx ny nz = (
  (relation_of-empty, relation_of-vertex a, relation_of-overlay x y ny, relation_of-connect x y ny),
  graph_laws x y z nx ny nz,
)
