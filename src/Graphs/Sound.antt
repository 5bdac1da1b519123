-- ===== src/Graphs/Sound.antt =====
-- dag.ts: the invariant of the graphs that its functions build, and the graphs that `induce`, `partition` and
-- `gmap` make of such a graph.
use l4_ide.Prelude.{
  ℕ, Bool, true, false, not, ◌&&◌, ◌||◌, List, [], ◌∷◌, ◌≡◌, refl, sym, ap, ◌∙◌, arith, ◌==◌,
  if◌then◌else◌, subst, get, nat_key,
}
use l4_ide.DecisionQuery.Order.{NoRepeats}
use l4_ide.Graphs.{keys, get_edges, has_vertex, has_edge, remove_edge, remove_attributes}
use l4_ide.Graphs.Dag.{
  Maps, Dag, empty_graph, vertex_graph, overlay_graph, connect_graph, maps_of, remove_loops,
  remove_self_loops, empty, vertex, overlay, connect, foldg, bind, gmap, induce, partition,
  reduce_overlay, path_edges, path_from_values,
}
use l4_ide.Graphs.View.{Relation, Relation-ext, none_related, single, ◌⊕◌, ◌⊗◌}
use l4_ide.Graphs.Loops.{without_loops, remove_edge-NoRepeats, maps_of-with_maps}
use l4_ide.Graphs.Laws.{
  relation_of, meaning, IsMap, overlay-IsMap, connect-IsMap, relation_of-overlay,
  relation_of-connect, relation_of-vertex, without_loops-⊕, without_loops-⊗, without_loops-twice,
}
use l4_ide.Graphs.Bind.{
  bind_lem, foldg-bind, restrict, relation_of-induce, foldg-vertex, foldg-overlay, foldg-connect,
  built, built-IsMap, copy-IsMap,
}

-- Each edge leads to a vertex.
abbrev pub IsClosed : Relation → Type 0
IsClosed r = (u v : ℕ) → r.relation u v ≡ true → (r.domain u ≡ true) × (r.domain v ≡ true)

-- The map has each vertex once, its edges join its vertices, and it has the edges of the expression, except
-- perhaps for self-loops.
pub record IsSound (g : Dag) : Type 0 where
  pub once : IsMap g
  pub closed : IsClosed (relation_of g)
  pub agrees : without_loops (relation_of g) ≡ without_loops (meaning g)

⊕-IsClosed : (r s : Relation) → IsClosed r → IsClosed s → IsClosed (r ⊕ s)
⊕-IsClosed r s a b = λ u v h. ground (arith, a u v, b u v)

⊗-IsClosed : (r s : Relation) → IsClosed r → IsClosed s → IsClosed (r ⊗ s)
⊗-IsClosed r s a b = λ u v h. ground (arith, a u v, b u v)

without_loops-IsClosed : (r : Relation) → IsClosed r → IsClosed (without_loops r)
without_loops-IsClosed r a = λ u v h. ground (arith, a u v)

foldg-IsClosed :
    (f : ℕ → Relation) (g : Dag)
    → ((a : ℕ) → IsClosed (f a))
    → IsClosed (foldg none_related f ◌⊕◌ ◌⊗◌ g)
unfolding foldg
foldg-IsClosed f (empty_graph m) h = λ u v k. absurd (cc)
foldg-IsClosed f (vertex_graph a m) h = h a
foldg-IsClosed f (overlay_graph x y m) h =
    ⊕-IsClosed (foldg none_related f ◌⊕◌ ◌⊗◌ x) (foldg none_related f ◌⊕◌ ◌⊗◌ y)
      (foldg-IsClosed f x h) (foldg-IsClosed f y h)
foldg-IsClosed f (connect_graph x y m) h =
    ⊗-IsClosed (foldg none_related f ◌⊕◌ ◌⊗◌ x) (foldg none_related f ◌⊕◌ ◌⊗◌ y)
      (foldg-IsClosed f x h) (foldg-IsClosed f y h)

meaning-IsClosed : (g : Dag) → IsClosed (meaning g)
meaning-IsClosed g = foldg-IsClosed single g (λ a u v k. absurd (cc))

pub empty-IsSound : IsSound empty
unfolding foldg has_edge has_vertex get
empty-IsSound = record { once = tt; closed = λ u v h. absurd (cc); agrees = refl }

pub vertex-IsSound : (a : ℕ) → IsSound (vertex a)
vertex-IsSound a = record {
  once = (refl, tt);
  closed = subst IsClosed (sym (relation_of-vertex a)) (λ u v h. absurd (cc));
  agrees =
      ap without_loops (relation_of-vertex a ∙ sym (foldg-vertex none_related single ◌⊕◌ ◌⊗◌ a));
}

pub overlay-IsSound : (x y : Dag) → IsSound x → IsSound y → IsSound (overlay x y)
overlay-IsSound x y a b =
    let r : Relation = relation_of x in
    let s : Relation = relation_of y in
    let e = relation_of-overlay x y b.once in
    record {
      once = overlay-IsMap x y a.once;
      closed = subst IsClosed (sym e) (⊕-IsClosed r s a.closed b.closed);
      agrees =
          ap without_loops e
          ∙ without_loops-⊕ r s
          ∙ (λ i. a.agrees i ⊕ b.agrees i)
          ∙ sym (without_loops-⊕ (meaning x) (meaning y))
          ∙ ap without_loops (sym (foldg-overlay none_related single ◌⊕◌ ◌⊗◌ x y));
    }

pub connect-IsSound : (x y : Dag) → IsSound x → IsSound y → IsSound (connect x y)
connect-IsSound x y a b =
    let r : Relation = relation_of x in
    let s : Relation = relation_of y in
    let e = relation_of-connect x y b.once in
    record {
      once = connect-IsMap x y a.once;
      closed = subst IsClosed (sym e) (⊗-IsClosed r s a.closed b.closed);
      agrees =
          ap without_loops e
          ∙ without_loops-⊗ r s
          ∙ (λ i. without_loops (a.agrees i ⊗ b.agrees i))
          ∙ sym (without_loops-⊗ (meaning x) (meaning y))
          ∙ ap without_loops (sym (foldg-connect none_related single ◌⊕◌ ◌⊗◌ x y));
    }

remove_loops-NoRepeats :
    (es : List (ℕ × ℕ)) (m : Maps)
    → NoRepeats (keys m.adjacency)
    → NoRepeats (keys (remove_loops es m).adjacency)
unfolding remove_loops
remove_loops-NoRepeats [] m n = n
remove_loops-NoRepeats ((u, v) ∷ es) m n = remove_loops-NoRepeats es next (by_test (u == v))
  where
    next : Maps
    next =
        if u == v
        then record {
          adjacency = remove_edge u v m.adjacency;
          attributes = remove_attributes (u, v) m.attributes;
        }
        else m

    by_test :
        (b : Bool)
        → NoRepeats (
            keys
              (if b
                then record {
                  adjacency = remove_edge u v m.adjacency;
                  attributes = remove_attributes (u, v) m.attributes;
                }
                else m).adjacency)
    by_test true = remove_edge-NoRepeats u v m.adjacency n
    by_test false = n

-- `bind` gives a sound graph, whatever the maps of its argument hold.
pub bind-IsSound : (f : ℕ → Dag) (g : Dag) → IsSound (bind f g)
bind-IsSound f g =
    let r : Relation = foldg none_related (λ a. meaning (f a)) ◌⊕◌ ◌⊗◌ g in
    let e = bind_lem f g in
    let b : Dag = built f g in
    let n : IsMap b =
      built-IsMap (λ a. foldg empty vertex overlay connect (f a)) g (λ a. copy-IsMap (f a)) in
    record {
      once =
          unfold bind remove_self_loops in
          subst (λ m. NoRepeats (keys m.adjacency))
            (sym (maps_of-with_maps (remove_loops (get_edges (maps_of b).adjacency) (maps_of b)) b))
            (remove_loops-NoRepeats (get_edges (maps_of b).adjacency) (maps_of b) n);
      closed = subst IsClosed (sym e) (
          without_loops-IsClosed r
            (foldg-IsClosed (λ a. meaning (f a)) g (λ a. meaning-IsClosed (f a))));
      agrees =
          ap without_loops e
          ∙ without_loops-twice r
          ∙ ap without_loops (sym (foldg-bind none_related single ◌⊕◌ ◌⊗◌ f g));
    }

pub reduce_overlay-IsSound :
    (v : ℕ) (vs : List ℕ) (g : Dag) → IsSound g → IsSound (reduce_overlay g (path_edges v vs))
unfolding reduce_overlay path_edges
reduce_overlay-IsSound v [] g s = s
reduce_overlay-IsSound v (w ∷ vs) g s =
    let e : Dag = connect (vertex v) (vertex w) in
    reduce_overlay-IsSound w vs (overlay g e) (
      overlay-IsSound g e s
        (connect-IsSound (vertex v) (vertex w) (vertex-IsSound v) (vertex-IsSound w)))

pub path_from_values-IsSound : (vs : List ℕ) → IsSound (path_from_values vs)
unfolding path_from_values
path_from_values-IsSound [] = empty-IsSound
path_from_values-IsSound (u ∷ []) = vertex-IsSound u
path_from_values-IsSound (u ∷ v ∷ vs) =
    reduce_overlay-IsSound v vs (connect (vertex u) (vertex v))
      (connect-IsSound (vertex u) (vertex v) (vertex-IsSound u) (vertex-IsSound v))

-- The invariant holds of the empty graph, of a vertex and of a path's graph, an overlay and a connection of
-- sound graphs keep it, and `bind`, so `gmap` and `induce`, gives a sound graph.
pub operations-IsSound :
    (a : ℕ) (vs : List ℕ) (f : ℕ → Dag) (k : ℕ → ℕ) (p : ℕ → Bool) (x y : Dag)
    → IsSound x
    → IsSound y
    → IsSound empty
      × IsSound (vertex a)
      × IsSound (path_from_values vs)
      × IsSound (overlay x y)
      × IsSound (connect x y)
      × IsSound (bind f x)
      × IsSound (gmap k x)
      × IsSound (induce p x)
unfolding gmap induce
operations-IsSound a vs f k p x y sx sy = (
  empty-IsSound,
  vertex-IsSound a,
  path_from_values-IsSound vs,
  overlay-IsSound x y sx sy,
  connect-IsSound x y sx sy,
  bind-IsSound f x,
  bind-IsSound (λ b. vertex (k b)) x,
  bind-IsSound (λ b. if p b then vertex b else empty) x,
)

without_loops-restrict :
    (p : ℕ → Bool) (r : Relation) → without_loops (restrict p r) ≡ restrict p (without_loops r)
without_loops-restrict p r =
    Relation-ext (without_loops (restrict p r)) (restrict p (without_loops r)) (λ v. refl)
      (λ u v. ground arith)

induce-restrict :
    (p : ℕ → Bool) (g : Dag)
    → IsSound g
    → relation_of (induce p g) ≡ without_loops (restrict p (relation_of g))
induce-restrict p g s =
    relation_of-induce p g
    ∙ without_loops-restrict p (meaning g)
    ∙ ap (λ r. restrict p r) (sym s.agrees)
    ∙ sym (without_loops-restrict p (relation_of g))

-- The two graphs of a partition.
abbrev pub IsPartition : (ℕ → Bool) → Dag → Type 0
IsPartition p g =
    (relation_of (partition p g).induced ≡ without_loops (restrict p (relation_of g)))
    × (relation_of (partition p g).complement
        ≡ without_loops (restrict (λ v. not (p v)) (relation_of g)))
    × ((v : ℕ)
        → (has_vertex v (maps_of g).adjacency
            ≡ has_vertex v (maps_of (partition p g).induced).adjacency
              || has_vertex v (maps_of (partition p g).complement).adjacency)
          × (has_vertex v (maps_of (partition p g).induced).adjacency
                && has_vertex v (maps_of (partition p g).complement).adjacency
              ≡ false))

-- Of a sound graph, `partition` gives the subgraph of the vertices that satisfy the predicate and that of the
-- others, each with the edges between its vertices, self-loops excepted; and each vertex of the graph is in
-- exactly one of the two.
pub partition_lem : (p : ℕ → Bool) (g : Dag) → IsSound g → IsPartition p g
unfolding partition
partition_lem p g s =
    let e = induce-restrict p g s in
    let c = induce-restrict (λ v. not (p v)) g s in
    (
      e,
      c,
      λ v.
          let a = ap (λ (r : Relation). r.domain v) e in
          let b = ap (λ (r : Relation). r.domain v) c in (ground (arith), ground (arith)),
    )
