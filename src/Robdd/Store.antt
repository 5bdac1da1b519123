-- ===== src/Robdd/Store.antt =====
-- What a node id denotes, and what pushing further nodes leaves alone.
use l4_ide.Prelude.{
  ℕ, ◌≤◌, ◌<◌, Bool, true, false, Option, none, some, List, [], ◌∷◌, ◌++◌, ◌==◌, if◌then◌else◌,
  length, length-append, ◌≡◌, refl, ◌∙◌, arith, Bool-cases, inl, inr, ok,
}
use l4_ide.Robdd.{Node, terminal, node, node_at, Bdd, get_node}

-- A truth value for each variable index.
abbrev pub Env : Type 0
Env = ℕ → Bool

-- The value of the diagram under `id`: at a node, the branch that the environment takes.
unfoldable pub eval : Env → ℕ → List Node → Bool
eval ρ id [] = false
eval ρ id (terminal b ∷ older) = elim (id == length older) [ true ↦ b | false ↦ eval ρ id older ]
eval ρ id (node v low high ∷ older) = elim (id == length older) [
  | true ↦ elim (ρ v) [ true ↦ eval ρ high older | false ↦ eval ρ low older ]
  | false ↦ eval ρ id older
]

-- The variable tested at a place comes after `v`. Terminals come after every variable.
abbrev pub Above : ℕ → Option Node → Type 0
Above v (some (node w _ _)) = v < w
Above v _ = Unit

pub Above-weaken : {w v : ℕ} (o : Option Node) → w < v → Above v o → Above w o
Above-weaken (some (node x l h)) lt a = omega arith
Above-weaken (some (terminal b)) lt a = tt
Above-weaken none lt a = tt

-- `ms` is `ns` with further nodes pushed.
abbrev pub Grows : List Node → List Node → Type 0
Grows ns ms = (more : List Node) × (ms ≡ more ++ ns)

pub Grows-refl : (ns : List Node) → Grows ns ns
Grows-refl ns = ([], refl)

append_cong : (xs : List Node) {ys zs : List Node} → ys ≡ zs → xs ++ ys ≡ xs ++ zs
append_cong xs e = rw e

assoc : (xs ys zs : List Node) → xs ++ (ys ++ zs) ≡ (xs ++ ys) ++ zs
assoc [] ys zs = refl
assoc (x ∷ xs) ys zs = rw (assoc xs ys zs)

pub Grows-trans : {ns ms ks : List Node} → Grows ns ms → Grows ms ks → Grows ns ks
Grows-trans {ns} (a, p) (b, q) = (b ++ a, q ∙ append_cong b p ∙ assoc b a ns)

pub length-Grows : {ns ms : List Node} → Grows ns ms → length ns ≤ length ms
length-Grows {ns} (a, p) = rw p (omega (arith, length-append a ns))

node_at-append : (id : ℕ) (a ns : List Node) → id < length ns → node_at id (a ++ ns) ≡ node_at id ns
unfolding node_at
node_at-append id [] ns h = refl
node_at-append id (n ∷ a) ns h = ground (arith, node_at-append id a ns, length-append a ns)

eval-append :
    (ρ : Env) (id : ℕ) (a ns : List Node) → id < length ns → eval ρ id (a ++ ns) ≡ eval ρ id ns
unfolding eval
eval-append ρ id [] ns h = refl
eval-append ρ id (terminal b ∷ a) ns h = ground (arith, eval-append ρ id a ns, length-append a ns)
eval-append ρ id (node v l k ∷ a) ns h = ground (arith, eval-append ρ id a ns, length-append a ns)

pub node_at-Grows :
    {ns ms : List Node} {id : ℕ} → Grows ns ms → id < length ns → node_at id ms ≡ node_at id ns
node_at-Grows {ns} {id = id} (a, p) h = rw p (node_at-append id a ns h)

pub eval-Grows :
    {ns ms : List Node} {id : ℕ} (ρ : Env)
    → Grows ns ms
    → id < length ns
    → eval ρ id ms ≡ eval ρ id ns
eval-Grows {ns} {id = id} ρ (a, p) h = rw p (eval-append ρ id a ns h)

pub node_at-lt : (id : ℕ) (ns : List Node) {n : Node} → node_at id ns ≡ some n → id < length ns
unfolding node_at
node_at-lt id [] h = ground arith
node_at-lt id (m ∷ ns) {n} h = ground (arith, node_at-lt id ns {n = n})

pub node_at-total :
    (id : ℕ) (ns : List Node) → id < length ns → (n : Node) × (node_at id ns ≡ some n)
unfolding node_at
node_at-total id [] h = absurd (omega arith)
node_at-total id (n ∷ ns) h = elim (Bool-cases (id == length ns)) [
  | inl e ↦ (n, rw e)
  | inr e ↦ rw e (node_at-total id ns (ground arith))
]

-- An entry above the queried id is passed over.
eval-cons :
    (ρ : Env) (id : ℕ) (n : Node) (ns : List Node)
    → id < length ns
    → eval ρ id (n ∷ ns) ≡ eval ρ id ns
eval-cons ρ id n ns h = eval-append ρ id (n ∷ []) ns h

pub eval-node :
    (ρ : Env) (id : ℕ) (ns : List Node) {v l h : ℕ}
    → node_at id ns ≡ some (node v l h)
    → l < id
    → h < id
    → eval ρ id ns ≡ (if ρ v then eval ρ h ns else eval ρ l ns)
unfolding eval node_at
eval-node ρ id [] {v} e p q = ground arith
eval-node ρ id (terminal b ∷ ns) {v} {l} {h} e p q = ground (
  arith,
  eval-node ρ id ns {v = v} {l = l} {h = h},
  node_at-lt id ns {n = node v l h},
  eval-cons ρ l (terminal b) ns,
  eval-cons ρ h (terminal b) ns,
)
eval-node ρ id (node w m k ∷ ns) {v} {l} {h} e p q = ground (
  arith,
  eval-node ρ id ns {v = v} {l = l} {h = h},
  node_at-lt id ns {n = node v l h},
  eval-cons ρ l (node w m k) ns,
  eval-cons ρ h (node w m k) ns,
)

pub eval-terminal :
    (ρ : Env) (id : ℕ) (ns : List Node) {b : Bool}
    → node_at id ns ≡ some (terminal b)
    → eval ρ id ns ≡ b
unfolding eval node_at
eval-terminal ρ id [] e = ground arith
eval-terminal ρ id (terminal c ∷ ns) {b} e = ground (arith, eval-terminal ρ id ns {b = b})
eval-terminal ρ id (node w m k ∷ ns) {b} e = ground (arith, eval-terminal ρ id ns {b = b})

pub get_node_run :
    (id : ℕ) (s : Bdd) {n : Node} → node_at id s.nodes ≡ some n → get_node id s ≡ ok (n, s)
unfolding get_node
get_node_run id s e = rw (e, get_node)
