-- ===== src/Graphs/Paths.antt =====
-- dag.ts: `getAllPathsFromVertex` ends on a graph without cycles and lists the maximal paths.
use l4_ide.Prelude.{
  ℕ, zero, suc, ◌<◌, Bool, true, false, ◌&&◌, ◌||◌, List, [], ◌∷◌, ◌++◌, map, ◌≡◌, refl, ap, ◌∙◌,
  arith, ◌==◌, any, ==_refl, Bool-cases, inl, inr, Result, ok, err, Returns, same_list, nat_key,
}
use l4_ide.Robdd.{has}
use l4_ide.Graphs.{AdjacencyMap, has_edge, neighbors_of}
use l4_ide.Graphs.Dag.{GraphError, flat_map_paths, all_paths_from_vertex}
use l4_ide.Graphs.View.{has_edge-neighbors_of}

abbrev pub has_path : List ℕ → List (List ℕ) → Bool
has_path p ps = any (λ q. same_list p q) ps

-- The list starts at the vertex, goes on along edges, and ends where no edge starts.
unfoldable pub maximal_path : AdjacencyMap → ℕ → List ℕ → Bool
maximal_path m v [] = false
maximal_path m v (x ∷ []) = (x == v) && elim (neighbors_of v m) [ [] ↦ true | n ∷ ns ↦ false ]
maximal_path m v (x ∷ y ∷ p) = (x == v) && has_edge v y m && maximal_path m y (y ∷ p)

-- Along each edge the rank falls: the graph has no cycle.
abbrev pub Falls : (ℕ → ℕ) → AdjacencyMap → Type 0
Falls rank m = (u v : ℕ) → has_edge u v m ≡ true → rank v < rank u

abbrev from_any : AdjacencyMap → List ℕ → List ℕ → Bool
from_any m ns p = any (λ n. maximal_path m n p) ns

maximal_path-start :
    (m : AdjacencyMap) (n y : ℕ) (q : List ℕ)
    → maximal_path m n (y ∷ q) ≡ (y == n) && maximal_path m y (y ∷ q)
unfolding maximal_path
maximal_path-start m n y [] = elim (Bool-cases (y == n)) [
  | inl h ↦ let e : y ≡ n = ground arith in rw (e, ==_refl n) refl
  | inr h ↦ rw h refl
]
maximal_path-start m n y (z ∷ q) = elim (Bool-cases (y == n)) [
  | inl h ↦ let e : y ≡ n = ground arith in rw (e, ==_refl n) refl
  | inr h ↦ rw h refl
]

from_any-start :
    (m : AdjacencyMap) (ns : List ℕ) (y : ℕ) (q : List ℕ)
    → from_any m ns (y ∷ q) ≡ has y ns && maximal_path m y (y ∷ q)
from_any-start m [] y q = refl
from_any-start m (n ∷ ns) y q =
    let a = maximal_path-start m n y q in let b = from_any-start m ns y q in ground (arith)

from_any-nil : (m : AdjacencyMap) (ns : List ℕ) → from_any m ns [] ≡ false
unfolding maximal_path
from_any-nil m [] = refl
from_any-nil m (n ∷ ns) = from_any-nil m ns

has_path-append :
    (p : List ℕ) (a b : List (List ℕ)) → has_path p (a ++ b) ≡ has_path p a || has_path p b
has_path-append p [] b = refl
has_path-append p (q ∷ a) b = ground (arith, has_path-append p a b)

has_path-longer :
    (v x : ℕ) (p : List ℕ) (ps : List (List ℕ))
    → has_path (x ∷ p) (map (λ q. v ∷ q) ps) ≡ (x == v) && has_path p ps
has_path-longer v x p [] = ground arith
has_path-longer v x p (q ∷ ps) = ground (arith, has_path-longer v x p ps)

has_path-nil-longer : (v : ℕ) (ps : List (List ℕ)) → has_path [] (map (λ q. v ∷ q) ps) ≡ false
has_path-nil-longer v [] = refl
has_path-nil-longer v (q ∷ ps) = has_path-nil-longer v ps

-- The call lists the maximal paths from its vertex.
abbrev pub ListsPaths : AdjacencyMap → ℕ → Result GraphError (List (List ℕ)) → Type 0
ListsPaths m v r = Returns r (λ ps. (p : List ℕ) → has_path p ps ≡ maximal_path m v p)

flat_map_paths_run :
    (f : ℕ → Result GraphError (List (List ℕ))) (n : ℕ) (ns : List ℕ) {here rest : List (List ℕ)}
    → f n ≡ ok here
    → flat_map_paths f ns ≡ ok rest
    → flat_map_paths f (n ∷ ns) ≡ ok (here ++ rest)
unfolding flat_map_paths
flat_map_paths_run f n ns a b = rw (flat_map_paths, a, b) refl

flat_map_paths_lem :
    (m : AdjacencyMap) (f : ℕ → Result GraphError (List (List ℕ))) (ns : List ℕ)
    → ((n : ℕ) → has n ns ≡ true → ListsPaths m n (f n))
    → Returns (flat_map_paths f ns) (λ ps. (p : List ℕ) → has_path p ps ≡ from_any m ns p)
unfolding flat_map_paths
flat_map_paths_lem m f [] h = ([], refl, λ p. refl)
flat_map_paths_lem m f (n ∷ ns) h =
    let here = h n (ground arith) in
    let rest = flat_map_paths_lem m f ns (λ k kh. h k (ground arith)) in
    (
      here.0 ++ rest.0,
      flat_map_paths_run f n ns here.1 rest.1,
      λ p.
          let a = has_path-append p here.0 rest.0 in
          let b = here.2 p in let c = rest.2 p in ground (arith),
    )

-- What the paths from the neighbours give, with the vertex put before each.
longer_lem :
    (m : AdjacencyMap) (v n : ℕ) (ns : List ℕ) (ps : List (List ℕ))
    → neighbors_of v m ≡ n ∷ ns
    → ((p : List ℕ) → has_path p ps ≡ from_any m (n ∷ ns) p)
    → (p : List ℕ) → has_path p (map (λ q. v ∷ q) ps) ≡ maximal_path m v p
unfolding maximal_path
longer_lem m v n ns ps e h [] = has_path-nil-longer v ps
longer_lem m v n ns ps e h (x ∷ []) =
    let a = has_path-longer v x [] ps in
    let b = h [] in let c = from_any-nil m (n ∷ ns) in rw e (ground (arith))
longer_lem m v n ns ps e h (x ∷ y ∷ p) =
    let a = has_path-longer v x (y ∷ p) ps in
    let b = h (y ∷ p) in
    let c = from_any-start m (n ∷ ns) y p in
    let d = has_edge-neighbors_of v y m ∙ ap (λ (l : List ℕ). has y l) e in ground (arith)

alone_lem :
    (m : AdjacencyMap) (v : ℕ)
    → neighbors_of v m ≡ []
    → (p : List ℕ) → has_path p ((v ∷ []) ∷ []) ≡ maximal_path m v p
unfolding maximal_path
alone_lem m v e [] = refl
alone_lem m v e (x ∷ []) = rw e (ground arith)
alone_lem m v e (x ∷ y ∷ p) =
    let d = has_edge-neighbors_of v y m ∙ ap (λ (l : List ℕ). has y l) e in ground (arith)

-- On a graph in which some rank falls along each edge, with more fuel than the vertex's rank, the search for
-- the paths from the vertex ends, and a list of vertices is among its results exactly when it is a path along
-- edges from the vertex to one at which no edge starts.
pub all_paths_from_vertex_lem :
    (rank : ℕ → ℕ) (m : AdjacencyMap) (fuel v : ℕ)
    → Falls rank m
    → rank v < fuel
    → ListsPaths m v (all_paths_from_vertex fuel m v)
unfolding all_paths_from_vertex
all_paths_from_vertex_lem rank m zero v falls h = absurd (omega arith)
all_paths_from_vertex_lem rank m (suc fuel) v falls h = by_neighbors (neighbors_of v m) refl (λ n k.
    all_paths_from_vertex_lem rank m fuel n falls
      (let d = has_edge-neighbors_of v n m in let f = falls v n in ground (arith)))
  where
    by_neighbors :
        (ns : List ℕ)
        → neighbors_of v m ≡ ns
        → ((n : ℕ)
            → has n (neighbors_of v m) ≡ true
            → ListsPaths m n (all_paths_from_vertex fuel m n))
        → ListsPaths m v (elim ns [
          | [] ↦ ok ((v ∷ []) ∷ [])
          | n ∷ ks ↦ elim (flat_map_paths (all_paths_from_vertex fuel m) (n ∷ ks)) [
            | err e ↦ err e
            | ok paths ↦ ok (map (λ p. v ∷ p) paths)
          ]
        ])
    by_neighbors [] e ih = ((v ∷ []) ∷ [], refl, alone_lem m v e)
    by_neighbors (n ∷ ns) e ih =
        let found =
          flat_map_paths_lem m (all_paths_from_vertex fuel m) (n ∷ ns)
            (λ k kh. ih k (ap (λ (l : List ℕ). has k l) e ∙ kh)) in
        (map (λ p. v ∷ p) found.0, rw found.1 refl, longer_lem m v n ns found.0 e found.2)
