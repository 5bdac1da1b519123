-- ===== src/Graphs/View.antt =====
-- The relation that a graph stands for, and what the constructions do to it.
use l4_ide.Prelude.{
  ℕ, Bool, false, ◌&&◌, ◌||◌, Option, none, some, List, [], ◌∷◌, ◌++◌, ◌≡◌, refl, ◌∙◌, arith, ◌==◌,
  if◌then◌else◌, get, set, get-set, nat_key,
}
use l4_ide.Robdd.{has}
use l4_ide.DecisionQuery.Sorting.{has-to_set}
use l4_ide.Graphs.{AdjacencyMap, keys, neighbors_of, set_union, has_vertex, has_edge}

-- The comment in `Overlay`: a domain, and a relation on it.
pub record Relation : Type 0 where
  pub domain : ℕ → Bool
  pub relation : ℕ → ℕ → Bool

pub Relation-ext :
    (r s : Relation)
    → ((v : ℕ) → r.domain v ≡ s.domain v)
    → ((u v : ℕ) → r.relation u v ≡ s.relation u v)
    → r ≡ s
Relation-ext r s h k = λ i. record { domain = λ v. h v i; relation = λ u v. k u v i }

abbrev pub none_related : Relation
none_related = record { domain = λ v. false; relation = λ u v. false }

abbrev pub single : ℕ → Relation
single a = record { domain = λ v. v == a; relation = λ u v. false }

infixl 60 ◌⊕◌
infixl 70 ◌⊗◌
abbrev pub ◌⊕◌ : Relation → Relation → Relation
r ⊕ s = record {
  domain = λ v. r.domain v || s.domain v;
  relation = λ u v. r.relation u v || s.relation u v;
}

abbrev pub ◌⊗◌ : Relation → Relation → Relation
r ⊗ s = record {
  domain = λ v. r.domain v || s.domain v;
  relation = λ u v. r.relation u v || s.relation u v || (r.domain u && s.domain v);
}

abbrev pub view : AdjacencyMap → Relation
view m = record { domain = λ v. has_vertex v m; relation = λ u v. has_edge u v m }

has-append : (v : ℕ) (a b : List ℕ) → has v (a ++ b) ≡ has v a || has v b
has-append v [] b = refl
has-append v (x ∷ a) b = ground (arith, has-append v a b)

pub has-set_union : (v : ℕ) (a b : List ℕ) → has v (set_union a b) ≡ has v a || has v b
unfolding set_union
has-set_union v a b = has-to_set v (a ++ b) [] ∙ has-append v a b

pub has_edge-neighbors_of : (u v : ℕ) (m : AdjacencyMap) → has_edge u v m ≡ has v (neighbors_of u m)
unfolding has_edge
has_edge-neighbors_of u v m = by_entry (get u m)
  where
    by_entry :
        (o : Option (List ℕ))
        → (elim o [ none ↦ false | some ns ↦ has v ns ])
          ≡ has v (elim o [ none ↦ [] | some ns ↦ ns ])
    by_entry none = refl
    by_entry (some ns) = refl

pub has_vertex-keys : (v : ℕ) (m : AdjacencyMap) → has_vertex v m ≡ has v (keys m)
unfolding has_vertex get
has_vertex-keys v [] = refl
has_vertex-keys v ((k, ns) ∷ m) = ground (arith, has_vertex-keys v m)

pub has_vertex-set :
    (v k : ℕ) (ns : List ℕ) (m : AdjacencyMap)
    → has_vertex v (set k ns m) ≡ (v == k) || has_vertex v m
unfolding has_vertex
has_vertex-set v k ns m = ground (arith, get-set v k ns m)

pub has_edge-set :
    (u v k : ℕ) (ns : List ℕ) (m : AdjacencyMap)
    → has_edge u v (set k ns m) ≡ (if u == k then has v ns else has_edge u v m)
unfolding has_edge
has_edge-set u v k ns m = ground (arith, get-set u k ns m)
