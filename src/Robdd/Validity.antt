-- ===== src/Robdd/Validity.antt =====
-- The invariant of the tables: the node array is a reduced ordered diagram without duplicates, and
-- every memo entry is right about the nodes that it names.
use l4_ide.Prelude.{
  ◌==◌, ==_true, Bool-cases, inl, inr, true, ℕ, ◌<◌, Bool, not, none, some, List, Map, get, nat_key,
  bool_key, pair_key, list_key, length, ◌≡◌, ◌≢◌, ◌∙◌, arith,
}
use l4_ide.Robdd.{
  is_terminal, true_id, Node, terminal, node, Bdd, NodeKey, Bindings, Op, op_eval, op_tag,
  terminal_id, node_at, bindings_key,
}
use l4_ide.Robdd.Store.{
  eval-terminal, Env, eval, Above, Grows, Grows-refl, Grows-trans, length-Grows, node_at-Grows,
  eval-Grows,
}

pub record IsShaped (ns : List Node) (id v l h : ℕ) : Type 0 where
  pub low_below : l < id
  pub high_below : h < id
  pub reduced : l ≢ h
  pub low_after : Above v (node_at l ns)
  pub high_after : Above v (node_at h ns)

pub record IsStore (ns : List Node) (table : Map NodeKey ℕ) : Type 0 where
  pub false_at : node_at 0 ns ≡ some (terminal Bool.false)
  pub true_at : node_at 1 ns ≡ some (terminal Bool.true)
  pub only_two : (id : ℕ) (b : Bool) → node_at id ns ≡ some (terminal b) → id ≡ terminal_id b
  pub shaped : (id v l h : ℕ) → node_at id ns ≡ some (node v l h) → IsShaped ns id v l h
  pub listed : (id v l h : ℕ) → node_at id ns ≡ some (node v l h) → get (v, (l, h)) table ≡ some id
  pub filed : (id v l h : ℕ) → get (v, (l, h)) table ≡ some id → node_at id ns ≡ some (node v l h)

pub terminal_at :
    {ns : List Node} {table : Map NodeKey ℕ}
    → IsStore ns table
    → (b : Bool) → node_at (terminal_id b) ns ≡ some (terminal b)
terminal_at store Bool.true = store.true_at
terminal_at store Bool.false = store.false_at

pub terminal_value :
    {ns : List Node} {table : Map NodeKey ℕ} (store : IsStore ns table) (a : ℕ)
    → is_terminal a ≡ true
    → (ρ : Env) → eval ρ a ns ≡ (a == true_id)
terminal_value {ns} store a h ρ = elim (Bool-cases (a == true_id)) [
  | inl one ↦ rw (==_true a true_id one) (eval-terminal ρ true_id ns store.true_at)
  | inr other ↦
      let zero_id : a ≡ 0 = ground arith in rw zero_id (eval-terminal ρ 0 ns store.false_at)
]

-- `r` is a node that computes `f`, with its variables after all that `floor` bounds.
pub record Computes (ns : List Node) (floor : ℕ → Type 0) (f : Env → Bool) (r : ℕ) : Type 0 where
  pub inside : r < length ns
  pub value : (ρ : Env) → eval ρ r ns ≡ f ρ
  pub above : (v : ℕ) → floor v → Above v (node_at r ns)

-- An environment with some variables bound.
abbrev pub override : Bindings → Env → Env
override b ρ v = elim (get v b) [ some x ↦ x | none ↦ ρ v ]

-- What the three recursive methods promise for their arguments.
abbrev pub Negates : List Node → ℕ → ℕ → Type 0
Negates ns id r = Computes ns (λ v. Above v (node_at id ns)) (λ ρ. not (eval ρ id ns)) r

abbrev pub Applies : List Node → Op → ℕ → ℕ → ℕ → Type 0
Applies ns op a b r =
    Computes ns (λ v. Above v (node_at a ns) × Above v (node_at b ns))
      (λ ρ. op_eval op (eval ρ a ns) (eval ρ b ns)) r

abbrev pub Restricts : List Node → Bindings → ℕ → ℕ → Type 0
Restricts ns b id r = Computes ns (λ v. Above v (node_at id ns)) (λ ρ. eval (override b ρ) id ns) r

pub record IsValid (s : Bdd) : Type 0 where
  pub store : IsStore s.nodes s.unique_table
  pub negs : (id r : ℕ) → get id s.neg_memo ≡ some r → (id < length s.nodes) × Negates s.nodes id r
  pub applies :
      (op : Op) (a b r : ℕ)
      → get (op_tag op, (a, b)) s.apply_memo ≡ some r
      → (a < length s.nodes) × (b < length s.nodes) × Applies s.nodes op a b r
  pub restricts :
      (bs : Bindings) (id r : ℕ)
      → get (id, bindings_key bs) s.restrict_memo ≡ some r
      → (id < length s.nodes) × Restricts s.nodes bs id r

-- A call took the tables `s` to `t`: these are valid, and no node of `s` has changed.
pub record Steps (s t : Bdd) : Type 0 where
  pub valid : IsValid t
  pub grows : Grows s.nodes t.nodes

pub Steps-refl : {s : Bdd} → IsValid s → Steps s s
Steps-refl {s} v = record { valid = v; grows = Grows-refl s.nodes }

pub Steps-trans : {s t u : Bdd} → Steps s t → Steps t u → Steps s u
Steps-trans p q = record { valid = q.valid; grows = Grows-trans p.grows q.grows }

pub Computes-Grows :
    {ns ms : List Node} {floor : ℕ → Type 0} {f : Env → Bool} {r : ℕ}
    → Grows ns ms
    → Computes ns floor f r
    → Computes ms floor f r
Computes-Grows {ns} g c = record {
  inside = omega (arith, c.inside, length-Grows g);
  value = λ ρ. eval-Grows ρ g c.inside ∙ c.value ρ;
  above = λ v h. rw (node_at-Grows g c.inside) (c.above v h);
}

-- The same with the floor and the function given by other, equivalent terms.
pub Computes-change :
    {ns : List Node} {floor floor' : ℕ → Type 0} {f f' : Env → Bool} {r : ℕ}
    → Computes ns floor f r
    → ((ρ : Env) → f ρ ≡ f' ρ)
    → ((v : ℕ) → floor' v → floor v)
    → Computes ns floor' f' r
Computes-change c same lower = record {
  inside = c.inside;
  value = λ ρ. c.value ρ ∙ same ρ;
  above = λ v h. c.above v (lower v h);
}

module _ {ns ms : List Node} (g : Grows ns ms) where
  Above-back : (v id : ℕ) → id < length ns → Above v (node_at id ms) → Above v (node_at id ns)
  Above-back v id h a = rw (node_at-Grows g h) at a

  pub Negates-Grows : {id r : ℕ} → id < length ns → Negates ns id r → Negates ms id r
  Negates-Grows {id} h c =
      Computes-change (Computes-Grows g c) (λ ρ. rw (eval-Grows ρ g h)) (λ v. Above-back v id h)

  pub Applies-Grows :
      (op : Op) {a b r : ℕ}
      → a < length ns
      → b < length ns
      → Applies ns op a b r
      → Applies ms op a b r
  Applies-Grows op {a} {b} ha hb c =
      Computes-change (Computes-Grows g c) (λ ρ. rw (eval-Grows ρ g ha, eval-Grows ρ g hb))
        (λ v p. (Above-back v a ha p.0, Above-back v b hb p.1))

  pub Restricts-Grows :
      (bs : Bindings) {id r : ℕ} → id < length ns → Restricts ns bs id r → Restricts ms bs id r
  Restricts-Grows bs {id} h c =
      Computes-change (Computes-Grows g c) (λ ρ. rw (eval-Grows (override bs ρ) g h))
        (λ v. Above-back v id h)
