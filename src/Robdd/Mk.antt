-- ===== src/Robdd/Mk.antt =====
-- `mk`: the node that it returns tests its variable, and the tables stay valid.
use l4_ide.Prelude.{
  ℕ, ◌<◌, Bool, none, some, List, [], ◌∷◌, if◌then◌else◌, if_both, Map, get, set, get-set,
  get-set_cases, nat_key, bool_key, pair_key, list_key, length, ◌≡◌, refl, ◌≢◌, sym, ◌∙◌, ◌⊎◌,
  arith, Returns, ◌==◌, ==_true, ==_false, ==_refl, Bool-cases, Option-cases, inl, inr,
}
use l4_ide.Robdd.{Node, terminal, node, Bdd, NodeKey, node_at, mk}
use l4_ide.Robdd.Store.{eval, Above, Above-weaken, Grows, node_at-lt, node_at-Grows, eval-node}
use l4_ide.Robdd.Validity.{
  IsShaped, IsStore, IsValid, Steps, Steps-refl, Computes, Negates-Grows, Applies-Grows,
  Restricts-Grows,
}

node_at-cons :
    (id : ℕ) (n : Node) (ns : List Node)
    → node_at id (n ∷ ns) ≡ (if id == length ns then some n else node_at id ns)
unfolding node_at
node_at-cons id n ns = refl

node_ne_terminal : {v l h : ℕ} {b : Bool} → node v l h ≡ terminal b → ⊥
node_ne_terminal e = cc

module _ (s : Bdd) (valid : IsValid s) (v l h : ℕ) where
  module _ (in_l : l < length s.nodes) (in_h : h < length s.nodes)
      (after_l : Above v (node_at l s.nodes)) (after_h : Above v (node_at h s.nodes)) (ne : l ≢ h)
      (fresh : get (v, (l, h)) s.unique_table ≡ none) where
    abbrev grown : List Node
    grown = node v l h ∷ s.nodes

    grow : Grows s.nodes grown
    grow = (node v l h ∷ [], refl)

    old : (id : ℕ) → id < length s.nodes → node_at id grown ≡ node_at id s.nodes
    old id p = node_at-Grows grow p

    -- A place of the grown array is the new one or one of the old ones.
    places :
        (id : ℕ) (n : Node)
        → node_at id grown ≡ some n
        → ((id ≡ length s.nodes) × (node v l h ≡ n)) ⊎ (node_at id s.nodes ≡ some n)
    places id n e = ground (arith, node_at-cons id (node v l h) s.nodes)

    abbrev grown_table : Map NodeKey ℕ
    grown_table = set (v, (l, h)) (length s.nodes) s.unique_table

    grown-IsShaped : (id w m k : ℕ) → node_at id grown ≡ some (node w m k) → IsShaped grown id w m k
    grown-IsShaped id w m k e = elim (places id (node w m k) e) [
      | inl (here, same) ↦
          let ew : v ≡ w = cc in
          let em : l ≡ m = cc in
          let ek : h ≡ k = cc in
          record {
            low_below = omega arith;
            high_below = omega arith;
            reduced = omega arith;
            low_after = rw (← em, ← ew, old l in_l) after_l;
            high_after = rw (← ek, ← ew, old h in_h) after_h;
          }
      | inr before ↦
          let p = valid.store.shaped id w m k before in
          let inside = node_at-lt id s.nodes before in
          record {
            low_below = p.low_below;
            high_below = p.high_below;
            reduced = p.reduced;
            low_after = rw (old m (omega (arith, p.low_below))) p.low_after;
            high_after = rw (old k (omega (arith, p.high_below))) p.high_after;
          }
    ]

    grown-listed :
        (id w m k : ℕ)
        → node_at id grown ≡ some (node w m k)
        → get (w, (m, k)) grown_table ≡ some id
    grown-listed id w m k e = elim (places id (node w m k) e) [
      | inl (here, same) ↦ ground (
        arith,
        get-set (w, (m, k)) (v, (l, h)) (length s.nodes) s.unique_table,
        ==_refl v,
        ==_refl l,
        ==_refl h,
      )
      | inr before ↦ ground (
        arith,
        get-set (w, (m, k)) (v, (l, h)) (length s.nodes) s.unique_table,
        valid.store.listed id w m k before,
        ==_true w v,
        ==_true m l,
        ==_true k h,
      )
    ]

    grown-filed :
        (id w m k : ℕ)
        → get (w, (m, k)) grown_table ≡ some id
        → node_at id grown ≡ some (node w m k)
    grown-filed id w m k e =
        elim (get-set_cases (w, (m, k)) (v, (l, h)) (length s.nodes) id s.unique_table e) [
          | inl (same, here) ↦
              ground (arith, node_at-cons id (node v l h) s.nodes, ==_refl (length s.nodes))
          | inr before ↦
              let p = valid.store.filed id w m k before in old id (node_at-lt id s.nodes p) ∙ p
        ]

    grown-IsStore : IsStore grown grown_table
    grown-IsStore = record {
      false_at = old 0 (node_at-lt 0 s.nodes valid.store.false_at) ∙ valid.store.false_at;
      true_at = old 1 (node_at-lt 1 s.nodes valid.store.true_at) ∙ valid.store.true_at;
      only_two = λ id b e. elim (places id (terminal b) e) [
        | inl (here, same) ↦ absurd (node_ne_terminal same)
        | inr before ↦ valid.store.only_two id b before
      ];
      shaped = grown-IsShaped;
      listed = grown-listed;
      filed = grown-filed;
    }

    abbrev pushed : Bdd
    pushed = record s { nodes = grown; unique_table = grown_table }

    pushed-IsValid : IsValid pushed
    pushed-IsValid = record {
      store = grown-IsStore;
      negs = λ id r e. let (p, c) = valid.negs id r e in (omega (arith, p), Negates-Grows grow p c);
      applies = λ op a b r e.
          let (p, q, c) = valid.applies op a b r e in
          (omega (arith, p), omega (arith, q), Applies-Grows grow op p q c);
      restricts = λ bs id r e.
          let (p, c) = valid.restricts bs id r e in (omega (arith, p), Restricts-Grows grow bs p c);
    }

-- A node computes the choice between its branches.
pub node-Computes :
    {ns : List Node} {table : Map NodeKey ℕ} (store : IsStore ns table) {id v l h : ℕ}
    → node_at id ns ≡ some (node v l h)
    → Computes ns (λ w. w < v) (λ ρ. if ρ v then eval ρ h ns else eval ρ l ns) id
node-Computes {ns} store {id} {v} {l} {h} e =
    let p = store.shaped id v l h e in
    record {
      inside = node_at-lt id ns e;
      value = λ ρ. eval-node ρ id ns e p.low_below p.high_below;
      above = λ w lt. rw e lt;
    }

-- The call of `mk` took the tables from `s` and returned a node that computes the choice.
pub record Makes (s : Bdd) (v l h : ℕ) (p : ℕ × Bdd) : Type 0 where
  pub steps : Steps s p.1
  pub computes :
      Computes p.1.nodes
        (λ w. w < v)
        (λ ρ. if ρ v then eval ρ h p.1.nodes else eval ρ l p.1.nodes)
        p.0

pub mk-Makes :
    (s : Bdd) (valid : IsValid s) (v l h : ℕ)
    → l < length s.nodes
    → h < length s.nodes
    → Above v (node_at l s.nodes)
    → Above v (node_at h s.nodes)
    → Returns (mk v l h s) (Makes s v l h)
unfolding mk
mk-Makes s valid v l h in_l in_h after_l after_h = elim (Bool-cases (l == h)) [
  | inl e ↦
      let same = ==_true l h e in
      (
        (l, s),
        rw e,
        record {
          steps = Steps-refl valid;
          computes = record {
            inside = in_l;
            value = λ ρ. rw (← same) (sym (if_both (ρ v) (eval ρ l s.nodes)));
            above = λ w lt. Above-weaken (node_at l s.nodes) lt after_l;
          };
        },
      )
  | inr ne ↦ elim (Option-cases (get (v, (l, h)) s.unique_table)) [
    | inr (id, found) ↦
        let at = valid.store.filed id v l h found in
        (
          (id, s),
          rw (ne, found),
          record { steps = Steps-refl valid; computes = node-Computes valid.store at },
        )
    | inl fresh ↦
        let next = pushed-IsValid s valid v l h in_l in_h after_l after_h (==_false l h ne) fresh in
        (
          (length s.nodes, _),
          rw (ne, fresh),
          record {
            steps = record { valid = next; grows = (node v l h ∷ [], refl) };
            computes =
                node-Computes next.store
                  (ground (arith, node_at-cons (length s.nodes) (node v l h) s.nodes));
          },
        )
  ]
]
