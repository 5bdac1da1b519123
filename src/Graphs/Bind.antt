-- ===== src/Graphs/Bind.antt =====
-- dag.ts: `bind`, `gmap`, `induce` and `partition` on the relations, and the invariant of graphs.
use l4_ide.Prelude.{
  ℕ, Bool, ◌&&◌, ◌≡◌, refl, sym, ap, ◌∙◌, arith, if◌then◌else◌, fun_ext, Bool-cases, inl, inr,
  nat_key,
}
use l4_ide.Graphs.{get_edges}
use l4_ide.Graphs.Dag.{
  Maps, Dag, empty_graph, vertex_graph, overlay_graph, connect_graph, maps_of, with_maps,
  remove_loops, remove_self_loops, empty, vertex, overlay, connect, foldg, bind, induce,
}
use l4_ide.Graphs.View.{Relation, Relation-ext, none_related, single, ◌⊕◌, ◌⊗◌}
use l4_ide.Graphs.Loops.{without_loops, view-remove_self_loops}
use l4_ide.Graphs.Laws.{
  relation_of, meaning, IsMap, overlay-IsMap, connect-IsMap, relation_of-overlay,
  relation_of-connect, relation_of-empty, relation_of-vertex,
}

-- The graph that `bind` builds before it removes the loops.
abbrev pub built : (ℕ → Dag) → Dag → Dag
built f g = foldg empty (λ a. foldg empty vertex overlay connect (f a)) overlay connect g

-- A fold that builds graphs from graphs with each vertex once.
pub built-IsMap :
    (f : ℕ → Dag) (g : Dag) → ((a : ℕ) → IsMap (f a)) → IsMap (foldg empty f overlay connect g)
unfolding foldg
built-IsMap f (empty_graph m) h = tt
built-IsMap f (vertex_graph v m) h = h v
built-IsMap f (overlay_graph x y m) h =
    overlay-IsMap (foldg empty f overlay connect x) (foldg empty f overlay connect y)
      (built-IsMap f x h)
built-IsMap f (connect_graph x y m) h =
    connect-IsMap (foldg empty f overlay connect x) (foldg empty f overlay connect y)
      (built-IsMap f x h)

relation_of-built :
    (f : ℕ → Dag) (g : Dag)
    → ((a : ℕ) → IsMap (f a))
    → relation_of (foldg empty f overlay connect g)
      ≡ foldg none_related (λ a. relation_of (f a)) ◌⊕◌ ◌⊗◌ g
unfolding foldg
relation_of-built f (empty_graph m) h = relation_of-empty
relation_of-built f (vertex_graph v m) h = refl
relation_of-built f (overlay_graph x y m) h =
    relation_of-overlay (foldg empty f overlay connect x) (foldg empty f overlay connect y)
      (built-IsMap f y h)
    ∙ (λ i. relation_of-built f x h i ⊕ relation_of-built f y h i)
relation_of-built f (connect_graph x y m) h =
    relation_of-connect (foldg empty f overlay connect x) (foldg empty f overlay connect y)
      (built-IsMap f y h)
    ∙ (λ i. relation_of-built f x h i ⊗ relation_of-built f y h i)

vertex-IsMap : (a : ℕ) → IsMap (vertex a)
vertex-IsMap a = (refl, tt)

pub copy-IsMap : (g : Dag) → IsMap (foldg empty vertex overlay connect g)
copy-IsMap g = built-IsMap vertex g vertex-IsMap

relation_of-copy : (g : Dag) → relation_of (foldg empty vertex overlay connect g) ≡ meaning g
relation_of-copy g =
    relation_of-built vertex g vertex-IsMap
    ∙ (λ i. foldg none_related (fun_ext relation_of-vertex i) ◌⊕◌ ◌⊗◌ g)

-- `bind` gives the fold of its results' relations, without the loops.
pub bind_lem :
    (f : ℕ → Dag) (g : Dag)
    → relation_of (bind f g) ≡ without_loops (foldg none_related (λ a. meaning (f a)) ◌⊕◌ ◌⊗◌ g)
unfolding bind
bind_lem f g =
    view-remove_self_loops (built f g)
    ∙ ap without_loops (
        relation_of-built (λ a. foldg empty vertex overlay connect (f a)) g (λ a. copy-IsMap (f a))
        ∙ (λ i. foldg none_related (fun_ext (λ a. relation_of-copy (f a)) i) ◌⊕◌ ◌⊗◌ g))

foldg-with_maps {ℓ} :
    {B : Type ℓ} (e : B) (v : ℕ → B) (o c : B → B → B) (m : Maps) (g : Dag)
    → foldg e v o c (with_maps m g) ≡ foldg e v o c g
unfolding foldg
foldg-with_maps e v o c m (empty_graph _) = refl
foldg-with_maps e v o c m (vertex_graph a _) = refl
foldg-with_maps e v o c m (overlay_graph x y _) = refl
foldg-with_maps e v o c m (connect_graph x y _) = refl

pub foldg-overlay {ℓ} :
    {B : Type ℓ} (e : B) (v : ℕ → B) (o c : B → B → B) (x y : Dag)
    → foldg e v o c (overlay x y) ≡ o (foldg e v o c x) (foldg e v o c y)
unfolding overlay foldg
foldg-overlay e v o c x y = refl

pub foldg-connect {ℓ} :
    {B : Type ℓ} (e : B) (v : ℕ → B) (o c : B → B → B) (x y : Dag)
    → foldg e v o c (connect x y) ≡ c (foldg e v o c x) (foldg e v o c y)
unfolding connect foldg
foldg-connect e v o c x y = refl

foldg-built {ℓ} :
    {B : Type ℓ} (e : B) (v : ℕ → B) (o c : B → B → B) (f : ℕ → Dag) (g : Dag)
    → foldg e v o c (foldg empty f overlay connect g) ≡ foldg e (λ a. foldg e v o c (f a)) o c g
unfolding foldg
foldg-built e v o c f (empty_graph m) = refl
foldg-built e v o c f (vertex_graph a m) = refl
foldg-built e v o c f (overlay_graph x y m) =
    foldg-overlay e v o c (foldg empty f overlay connect x) (foldg empty f overlay connect y)
    ∙ (λ i. o (foldg-built e v o c f x i) (foldg-built e v o c f y i))
foldg-built e v o c f (connect_graph x y m) =
    foldg-connect e v o c (foldg empty f overlay connect x) (foldg empty f overlay connect y)
    ∙ (λ i. c (foldg-built e v o c f x i) (foldg-built e v o c f y i))

pub foldg-vertex {ℓ} :
    {B : Type ℓ} (e : B) (v : ℕ → B) (o c : B → B → B) (a : ℕ) → foldg e v o c (vertex a) ≡ v a
unfolding foldg
foldg-vertex e v o c a = refl

foldg-copy {ℓ} :
    {B : Type ℓ} (e : B) (v : ℕ → B) (o c : B → B → B) (g : Dag)
    → foldg e v o c (foldg empty vertex overlay connect g) ≡ foldg e v o c g
foldg-copy e v o c g =
    foldg-built e v o c vertex g ∙ (λ i. foldg e (fun_ext (λ a. foldg-vertex e v o c a) i) o c g)

-- A fold of a graph that `bind` built folds each vertex's graph in its place.
pub foldg-bind {ℓ} :
    {B : Type ℓ} (e : B) (v : ℕ → B) (o c : B → B → B) (f : ℕ → Dag) (g : Dag)
    → foldg e v o c (bind f g) ≡ foldg e (λ a. foldg e v o c (f a)) o c g
unfolding bind remove_self_loops
foldg-bind e v o c f g =
    foldg-with_maps e v o c
      (remove_loops (get_edges (maps_of (built f g)).adjacency) (maps_of (built f g))) (built f g)
    ∙ foldg-built e v o c (λ a. foldg empty vertex overlay connect (f a)) g
    ∙ (λ i. foldg e (fun_ext (λ a. foldg-copy e v o c (f a)) i) o c g)

-- `bind` is associative with `vertex` as its unit, on the relations, where self-loops do not count: binding
-- twice is binding the composition; binding over one vertex gives that vertex's graph without its
-- self-loops; and binding to single vertices gives the graph without its self-loops.
pub bind_laws :
    (f h : ℕ → Dag) (a : ℕ) (g : Dag)
    → (relation_of (bind h (bind f g)) ≡ relation_of (bind (λ x. bind h (f x)) g))
      × (relation_of (bind f (vertex a)) ≡ without_loops (meaning (f a)))
      × (relation_of (bind vertex g) ≡ without_loops (meaning g))
bind_laws f h a g =
    let inner : ℕ → Relation = λ x. meaning (h x) in
    (
      bind_lem h (bind f g)
          ∙ ap without_loops (
              foldg-bind none_related inner ◌⊕◌ ◌⊗◌ f g ∙ (λ i.
                foldg none_related
                  (fun_ext (λ x. sym (foldg-bind none_related single ◌⊕◌ ◌⊗◌ h (f x))) i) ◌⊕◌ ◌⊗◌
                  g))
          ∙ sym (bind_lem (λ x. bind h (f x)) g),
      bind_lem f (vertex a)
          ∙ ap without_loops (foldg-vertex none_related (λ x. meaning (f x)) ◌⊕◌ ◌⊗◌ a),
      bind_lem vertex g
          ∙ ap without_loops (λ i.
            foldg none_related (fun_ext (λ x. foldg-vertex none_related single ◌⊕◌ ◌⊗◌ x) i) ◌⊕◌ ◌⊗◌
              g),
    )

-- The vertices that satisfy a predicate, and the edges between them.
abbrev pub restrict : (ℕ → Bool) → Relation → Relation
restrict p r = record {
  domain = λ v. r.domain v && p v;
  relation = λ u v. r.relation u v && p u && p v;
}

restrict-⊕ : (p : ℕ → Bool) (r s : Relation) → restrict p (r ⊕ s) ≡ restrict p r ⊕ restrict p s
restrict-⊕ p r s =
    Relation-ext (restrict p (r ⊕ s)) (restrict p r ⊕ restrict p s) (λ v. ground arith)
      (λ u v. ground arith)

restrict-⊗ : (p : ℕ → Bool) (r s : Relation) → restrict p (r ⊗ s) ≡ restrict p r ⊗ restrict p s
restrict-⊗ p r s =
    Relation-ext (restrict p (r ⊗ s)) (restrict p r ⊗ restrict p s) (λ v. ground arith)
      (λ u v. ground arith)

-- What `induce` puts in place of a vertex.
abbrev chosen : (ℕ → Bool) → ℕ → Dag
chosen p a = if p a then vertex a else empty

meaning-chosen : (p : ℕ → Bool) (a : ℕ) → meaning (chosen p a) ≡ restrict p (single a)
unfolding foldg
meaning-chosen p a = elim (Bool-cases (p a)) [
  | inl h ↦
      rw h
        (Relation-ext (single a) (restrict p (single a)) (λ v. ground arith) (λ u v. ground arith))
  | inr h ↦
      rw h (
        Relation-ext none_related (restrict p (single a)) (λ v. ground arith) (λ u v. ground arith))
]

meaning-induced :
    (p : ℕ → Bool) (g : Dag)
    → foldg none_related (λ a. restrict p (single a)) ◌⊕◌ ◌⊗◌ g ≡ restrict p (meaning g)
unfolding foldg
meaning-induced p (empty_graph m) =
    Relation-ext none_related (restrict p none_related) (λ v. refl) (λ u v. refl)
meaning-induced p (vertex_graph a m) = refl
meaning-induced p (overlay_graph x y m) =
    (λ i. meaning-induced p x i ⊕ meaning-induced p y i)
    ∙ sym (restrict-⊕ p (meaning x) (meaning y))
meaning-induced p (connect_graph x y m) =
    (λ i. meaning-induced p x i ⊗ meaning-induced p y i)
    ∙ sym (restrict-⊗ p (meaning x) (meaning y))

pub relation_of-induce :
    (p : ℕ → Bool) (g : Dag) → relation_of (induce p g) ≡ without_loops (restrict p (meaning g))
unfolding induce
relation_of-induce p g =
    bind_lem (chosen p) g
    ∙ ap without_loops
        ((λ i. foldg none_related (fun_ext (meaning-chosen p) i) ◌⊕◌ ◌⊗◌ g) ∙ meaning-induced p g)
