-- ===== src/Prelude/Maps.antt =====
-- `Map` as an association list in insertion order, over keys with a Boolean test of equality.
use mathlib.Core.Path.{◌≡◌, refl}
use mathlib.Core.Bool.{Bool, true, false, ◌&&◌}
use mathlib.Core.Option.{Option, none, some}
use mathlib.Core.List.{List, [], ◌∷◌}
use Prim.Native.Nat.{ℕ}
use mathlib.Core.Logic.{◌⊎◌, inl, inr}
use native.Mathlib.Omega.{arith}
use l4_ide.Prelude.Tests.{if◌then◌else◌, ◌==◌, ==_refl, ==_true, Bool-cases}

pub record Key {ℓ} (K : Type ℓ) : Type ℓ where
  pub same : K → K → Bool
  pub same_refl : (a : K) → same a a ≡ true
  pub same_eq : (a b : K) → same a b ≡ true → a ≡ b

instance abbrev pub nat_key : Key ℕ
nat_key = record { same = ◌==◌; same_refl = ==_refl; same_eq = ==_true }

abbrev pub same_bool : Bool → Bool → Bool
same_bool true b = b
same_bool false true = false
same_bool false false = true

pub same_bool_refl : (a : Bool) → same_bool a a ≡ true
same_bool_refl true = refl
same_bool_refl false = refl

pub same_bool_eq : (a b : Bool) → same_bool a b ≡ true → a ≡ b
same_bool_eq a b h = ground arith

instance abbrev pub bool_key : Key Bool
bool_key = record { same = same_bool; same_refl = same_bool_refl; same_eq = same_bool_eq }

module _ {ℓ κ} {A : Type ℓ} {B : Type κ} ⦃ka : Key A⦄ ⦃kb : Key B⦄ where
  abbrev pub same_pair : A × B → A × B → Bool
  same_pair (a, b) (c, d) = ka.same a c && kb.same b d

  pub same_pair_refl : (p : A × B) → same_pair p p ≡ true
  same_pair_refl (a, b) = ground (arith, ka.same_refl a, kb.same_refl b)

  pub same_pair_eq : (p q : A × B) → same_pair p q ≡ true → p ≡ q
  same_pair_eq (a, b) (c, d) h = ground (arith, ka.same_eq a c, kb.same_eq b d)

  instance abbrev pub pair_key : Key (A × B)
  pair_key = record { same = same_pair; same_refl = same_pair_refl; same_eq = same_pair_eq }

module _ {ℓ} {A : Type ℓ} ⦃ka : Key A⦄ where
  abbrev pub same_list : List A → List A → Bool
  same_list [] [] = true
  same_list (x ∷ xs) (y ∷ ys) = ka.same x y && same_list xs ys
  same_list _ _ = false

  pub same_list_refl : (xs : List A) → same_list xs xs ≡ true
  same_list_refl [] = refl
  same_list_refl (x ∷ xs) = ground (arith, ka.same_refl x, same_list_refl xs)

  pub same_list_eq : (xs ys : List A) → same_list xs ys ≡ true → xs ≡ ys
  same_list_eq (x ∷ xs) (y ∷ ys) h = ground (arith, ka.same_eq x y, same_list_eq xs ys)
  same_list_eq xs ys h = ground arith

  instance abbrev pub list_key : Key (List A)
  list_key = record { same = same_list; same_refl = same_list_refl; same_eq = same_list_eq }

abbrev pub Map {ℓ κ} : Type ℓ → Type κ → Type (ℓ ⊔ κ)
Map K V = List (K × V)

module _ {ℓ κ} {K : Type ℓ} {V : Type κ} ⦃key : Key K⦄ where
  -- `m.get(k)`
  unfoldable pub get : K → Map K V → Option V
  get k [] = none
  get k ((j, v) ∷ m) = if key.same k j then some v else get k m

  -- `m.set(k, v)`: an entry that is there keeps its place.
  unfoldable pub set : K → V → Map K V → Map K V
  set k v [] = (k, v) ∷ []
  set k v ((j, w) ∷ m) = if key.same k j then (k, v) ∷ m else (j, w) ∷ set k v m

  pub get-set :
      (j k : K) (v : V) (m : Map K V)
      → get j (set k v m) ≡ (if key.same j k then some v else get j m)
  unfolding get set
  get-set j k v [] = refl
  get-set j k v ((i, w) ∷ m) =
      ground
        (arith, get-set j k v m, key.same_eq k i, key.same_eq j i, key.same_eq j k, key.same_refl i)

  -- A read after a write finds the new value, or what was there under another key.
  pub get-set_cases :
      (j k : K) (v w : V) (m : Map K V)
      → get j (set k v m) ≡ some w
      → ((j ≡ k) × (v ≡ w)) ⊎ (get j m ≡ some w)
  get-set_cases j k v w m h =
      let e = get-set j k v m in
      elim (Bool-cases (key.same j k)) [
        | inl hit ↦ inl (key.same_eq j k hit, cc)
        | inr miss ↦ inr (cc)
      ]
