-- ===== src/Robdd/Yield.antt =====
-- What a recursive method promises about the tables before and after, and the step that all three
-- share: two results joined by `mk`.
use l4_ide.Prelude.{ℕ, ◌<◌, if◌then◌else◌, ◌≡◌, ◌∙◌, Returns, Bool}
use l4_ide.Robdd.{Bdd, mk}
use l4_ide.Robdd.Store.{Env, eval-Grows}
use l4_ide.Robdd.Validity.{Steps, Steps-trans, Computes, Computes-Grows, Computes-change}
use l4_ide.Robdd.Mk.{mk-Makes}

-- Starting from `s`, a call returned a node that computes `f`, in tables that extend those of `s`.
pub record Yields (s : Bdd) (floor : ℕ → Type 0) (f : Env → Bool) (p : ℕ × Bdd) : Type 0 where
  pub steps : Steps s p.1
  pub computes : Computes p.1.nodes floor f p.0

pub Yields-change :
    {s : Bdd} {floor floor' : ℕ → Type 0} {f f' : Env → Bool} {p : ℕ × Bdd}
    → Yields s floor f p
    → ((ρ : Env) → f ρ ≡ f' ρ)
    → ((v : ℕ) → floor' v → floor v)
    → Yields s floor' f' p
Yields-change y same lower = record {
  steps = y.steps;
  computes = Computes-change y.computes same lower;
}

pub Yields-after :
    {s t : Bdd} {floor : ℕ → Type 0} {f : Env → Bool} {p : ℕ × Bdd}
    → Steps s t
    → Yields t floor f p
    → Yields s floor f p
Yields-after st y = record { steps = Steps-trans st y.steps; computes = y.computes }

if_congr :
    (b : Bool) {x y x' y' : Bool} → x ≡ x' → y ≡ y' → (if b then x else y) ≡ (if b then x' else y')
if_congr b p q = rw (p, q)

pub join-Yields :
    {s t u : Bdd} {F G : ℕ → Type 0} {f g : Env → Bool} {l h : ℕ} (v : ℕ)
    → Yields s F f (l, t)
    → Yields t G g (h, u)
    → F v
    → G v
    → Returns (mk v l h u) (Yields s (λ w. w < v) (λ ρ. if ρ v then g ρ else f ρ))
join-Yields {s} {t} {u} {f = f} {g = g} {l = l} {h = h} v yl yh low_after high_after =
    let cl = Computes-Grows yh.steps.grows yl.computes in
    let ch = yh.computes in
    let (p, run, made) =
      mk-Makes u yh.steps.valid v l h cl.inside ch.inside (cl.above v low_after)
        (ch.above v high_after) in
    (
      p,
      run,
      record {
        steps = Steps-trans yl.steps (Steps-trans yh.steps made.steps);
        computes =
            Computes-change made.computes
              (λ ρ.
                if_congr (ρ v) (eval-Grows ρ made.steps.grows ch.inside ∙ ch.value ρ)
                  (eval-Grows ρ made.steps.grows cl.inside ∙ cl.value ρ))
              (λ w lt. lt);
      },
    )
