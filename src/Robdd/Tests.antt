-- ===== src/Robdd/Tests.antt =====
-- Runs of the operations on small diagrams.
use l4_ide.Prelude.{ℕ, true, Option, none, some, [], ◌∷◌, ok, err, ◌≡◌, refl, length, get, set}
use l4_ide.Robdd.{
  M, ◌>>=◌, conj, new_bdd, var, mk, neg, apply, restrict, get_node, node_at, insert_binding,
}

-- x0 && !x1, and its cofactor at x0 = true
sample : M ℕ
sample = do a ← var 0; b ← var 1; nb ← neg b; c ← apply conj a nb; restrict ((0, true) ∷ []) c

outcome : Option (ℕ × ℕ)
outcome = elim (sample new_bdd) [ ok (r, s) ↦ some (r, length s.nodes) | err _ ↦ none ]

sample_run : outcome ≡ some (4, 6)
unfolding outcome sample new_bdd var mk neg apply restrict get set get_node node_at insert_binding
sample_run = refl
