-- ===== src/Permissions/Bounds.antt =====
-- The strictest permission wins, and settings above the user's only tighten.
use l4_ide.Prelude.{
  ℕ, ◌≤◌, ◌<◌, Bool, true, false, Option, none, some, List, [], ◌∷◌, ◌++◌, ◌≡◌, refl, arith,
  if◌then◌else◌, ltb, ◌⊎◌, inl, inr, Bool-cases, ap,
}
use l4_ide.Permissions.{
  PermissionValue, PermissionCategory, fs_delete, fs_edit, fs_create, strictness, tighten,
  effective_permission, Strictest, worst_from, strictest_permission, categories_for_call, CallArgs,
  fs_copy_file,
}

-- Membership, as a type that computes.
abbrev pub Has : {A : Type 0} → A → List A → Type 0
Has x [] = ⊥
Has x (y ∷ ys) = (x ≡ y) ⊎ Has x ys

tighten_keeps :
    (v : PermissionValue) (ls : List (Option PermissionValue))
    → strictness v ≤ strictness (tighten v ls)
unfolding tighten
tighten_keeps v [] = omega arith
tighten_keeps v (none ∷ ls) = tighten_keeps v ls
tighten_keeps v (some t ∷ ls) = elim (Bool-cases (ltb (strictness v) (strictness t))) [
  | inl e ↦ rw e (let ih = tighten_keeps t ls in ground (arith, ih, e))
  | inr e ↦ rw e (tighten_keeps v ls)
]

tighten_reaches :
    (v l : PermissionValue) (ls : List (Option PermissionValue))
    → Has (some l) ls
    → strictness l ≤ strictness (tighten v ls)
unfolding tighten
tighten_reaches v l [] h = absurd h
tighten_reaches v l (none ∷ ls) (inl h) = absurd (cc)
tighten_reaches v l (none ∷ ls) (inr h) = tighten_reaches v l ls h
tighten_reaches v l (some t ∷ ls) (inl h) =
    let same : l ≡ t = cc in
    elim (Bool-cases (ltb (strictness v) (strictness t))) [
      | inl e ↦ rw (e, same) (tighten_keeps t ls)
      | inr e ↦ rw (e, same) (let ih = tighten_keeps v ls in ground (arith, ih, e))
    ]
tighten_reaches v l (some t ∷ ls) (inr h) =
    tighten_reaches (if ltb (strictness v) (strictness t) then t else v) l ls h

tighten_from :
    (v : PermissionValue) (ls : List (Option PermissionValue))
    → (tighten v ls ≡ v) ⊎ Has (some (tighten v ls)) ls
unfolding tighten
tighten_from v [] = inl refl
tighten_from v (none ∷ ls) = elim (tighten_from v ls) [ inl e ↦ inl e | inr h ↦ inr (inr h) ]
tighten_from v (some t ∷ ls) =
    chosen (ltb (strictness v) (strictness t)) (tighten_from t ls) (tighten_from v ls)
  where
    chosen :
        (b : Bool)
        → (tighten t ls ≡ t) ⊎ Has (some (tighten t ls)) ls
        → (tighten v ls ≡ v) ⊎ Has (some (tighten v ls)) ls
        → (tighten (if b then t else v) ls ≡ v)
          ⊎ Has (some (tighten (if b then t else v) ls)) (some t ∷ ls)
    chosen true (inl e) k = inr (inl (ap some e))
    chosen true (inr h) k = inr (inr h)
    chosen false h (inl e) = inl e
    chosen false h (inr k) = inr (inr k)

abbrev pub own_value : Option PermissionValue → PermissionValue → PermissionValue
own_value none fallback = fallback
own_value (some v) fallback = v

-- The permission that applies is at least as strict as the user's own value, or the default without one,
-- and as each workspace level, and it is one of these values.
pub effective_permission_lem :
    (user : Option PermissionValue) (fallback : PermissionValue)
    (levels : List (Option PermissionValue))
    → let value = effective_permission user fallback levels in
      (strictness (own_value user fallback) ≤ strictness value)
      × ((l : PermissionValue) → Has (some l) levels → strictness l ≤ strictness value)
      × ((value ≡ own_value user fallback) ⊎ Has (some value) levels)
unfolding effective_permission
effective_permission_lem none fallback ls =
    (tighten_keeps fallback ls, λ l h. tighten_reaches fallback l ls h, tighten_from fallback ls)
effective_permission_lem (some v) fallback ls =
    (tighten_keeps v ls, λ l h. tighten_reaches v l ls h, tighten_from v ls)

-- The strictest of some categories, the first on a tie: it stands in the list at a place before which all
-- are less strict, and none is stricter.
pub record IsStrictest (policy : PermissionCategory → PermissionValue)
    (cs : List PermissionCategory) (w : Strictest) : Type 0 where
  pub right : w.permission ≡ policy w.category
  pub before : List PermissionCategory
  pub after : List PermissionCategory
  pub place : cs ≡ before ++ (w.category ∷ after)
  pub bound : (c : PermissionCategory) → Has c cs → strictness (policy c) ≤ strictness w.permission
  pub first :
      (c : PermissionCategory) → Has c before → strictness (policy c) < strictness w.permission

-- Either the worst so far stays, and nothing is stricter, or a later one replaces it.
abbrev Goes :
    (PermissionCategory → PermissionValue)
    → Strictest
    → List PermissionCategory
    → Strictest
    → Type 0
Goes policy w cs r =
    ((r ≡ w)
      × ((c : PermissionCategory) → Has c cs → strictness (policy c) ≤ strictness w.permission))
    ⊎ (IsStrictest policy cs r × (strictness w.permission < strictness r.permission))

module _ (policy : PermissionCategory → PermissionValue) where
  abbrev entry : PermissionCategory → Strictest
  entry c = record { category = c; permission = policy c }

  bound_cons :
      {n : ℕ} (c : PermissionCategory) (cs : List PermissionCategory)
      → strictness (policy c) ≤ n
      → ((d : PermissionCategory) → Has d cs → strictness (policy d) ≤ n)
      → (d : PermissionCategory) → Has d (c ∷ cs)
      → strictness (policy d) ≤ n
  bound_cons c cs h ih d (inl e) = rw e h
  bound_cons c cs h ih d (inr k) = ih d k

  first_cons :
      {n : ℕ} (c : PermissionCategory) (cs : List PermissionCategory)
      → strictness (policy c) < n
      → ((d : PermissionCategory) → Has d cs → strictness (policy d) < n)
      → (d : PermissionCategory) → Has d (c ∷ cs)
      → strictness (policy d) < n
  first_cons c cs h ih d (inl e) = rw e h
  first_cons c cs h ih d (inr k) = ih d k

  later-IsStrictest :
      (c : PermissionCategory) (cs : List PermissionCategory) (r : Strictest)
      → strictness (policy c) < strictness r.permission
      → IsStrictest policy cs r
      → IsStrictest policy (c ∷ cs) r
  later-IsStrictest c cs r lt k = record {
    right = k.right;
    before = c ∷ k.before;
    after = k.after;
    place = ap (λ l. c ∷ l) k.place;
    bound = bound_cons c cs (omega (arith, lt)) k.bound;
    first = first_cons c k.before lt k.first;
  }

  here-IsStrictest :
      (c : PermissionCategory) (cs : List PermissionCategory)
      → ((d : PermissionCategory) → Has d cs → strictness (policy d) ≤ strictness (policy c))
      → IsStrictest policy (c ∷ cs) (entry c)
  here-IsStrictest c cs h = record {
    right = refl;
    before = [];
    after = cs;
    place = refl;
    bound = bound_cons c cs (omega arith) h;
    first = λ d k. absurd k;
  }

  entry-IsStrictest :
      (c : PermissionCategory) (cs : List PermissionCategory) (r : Strictest)
      → Goes policy (entry c) cs r
      → IsStrictest policy (c ∷ cs) r
  entry-IsStrictest c cs r (inl (same, h)) = rw same (here-IsStrictest c cs h)
  entry-IsStrictest c cs r (inr (k, lt)) = later-IsStrictest c cs r lt k

  worst_from-Goes :
      (w : Strictest) (cs : List PermissionCategory)
      → (r : Strictest) × (worst_from policy (some w) cs ≡ some r) × Goes policy w cs r
  unfolding worst_from
  worst_from-Goes w [] = (w, refl, inl (refl, λ c h. absurd h))
  worst_from-Goes w (c ∷ cs) =
      elim (Bool-cases (ltb (strictness w.permission) (strictness (policy c)))) [
        | inl e ↦
            let (r, run, g) = worst_from-Goes (entry c) cs in
            let k = entry-IsStrictest c cs r g in
            (r, rw e run, inr (k, let b = k.bound c (inl refl) in ground (arith, e, b)))
        | inr e ↦ let (r, run, g) = worst_from-Goes w cs in (r, rw e run, kept r e g)
      ]
    where
      kept :
          (r : Strictest)
          → ltb (strictness w.permission) (strictness (policy c)) ≡ false
          → Goes policy w cs r
          → Goes policy w (c ∷ cs) r
      kept r e (inl (same, h)) = inl (same, bound_cons c cs (ground (arith, e)) h)
      kept r e (inr (k, lt)) = inr (later-IsStrictest c cs r (ground (arith, e, lt)) k, lt)

  -- For at least one category the result is a category of the list with its own permission, such that no
  -- category of the list is stricter, and those before it are less strict.
  pub strictest_permission_lem :
      (c : PermissionCategory) (cs : List PermissionCategory)
      → (w : Strictest) × (strictest_permission policy (c ∷ cs) ≡ some w)
        × IsStrictest policy (c ∷ cs) w
  unfolding strictest_permission worst_from
  strictest_permission_lem c cs =
      let (r, run, g) = worst_from-Goes (entry c) cs in (r, run, entry-IsStrictest c cs r g)

  -- A copy that deletes its source has a strictest permission, and it is at least as strict as each of
  -- those for creating and deleting files, and for editing them if it overwrites.
  pub copy_guarded :
      (args : CallArgs)
      → args.delete_source ≡ true
      → (w : Strictest) × (strictest_permission policy (categories_for_call fs_copy_file args)
          ≡ some w)
        × (strictness (policy fs_create) ≤ strictness w.permission)
        × (strictness (policy fs_delete) ≤ strictness w.permission)
        × (args.overwrite ≡ true → strictness (policy fs_edit) ≤ strictness w.permission)
  unfolding categories_for_call
  copy_guarded args deletes = overwriting args.overwrite refl
    where
      overwriting :
          (b : Bool)
          → args.overwrite ≡ b
          → (w : Strictest) × (strictest_permission policy (categories_for_call fs_copy_file args)
              ≡ some w)
            × (strictness (policy fs_create) ≤ strictness w.permission)
            × (strictness (policy fs_delete) ≤ strictness w.permission)
            × (args.overwrite ≡ true → strictness (policy fs_edit) ≤ strictness w.permission)
      overwriting true e =
          let (w, run, k) = strictest_permission_lem fs_create (fs_edit ∷ fs_delete ∷ []) in
          (
            w,
            rw (e, deletes) run,
            k.bound fs_create (inl refl),
            k.bound fs_delete (inr (inr (inl refl))),
            λ h. k.bound fs_edit (inr (inl refl)),
          )
      overwriting false e =
          let (w, run, k) = strictest_permission_lem fs_create (fs_delete ∷ []) in
          (
            w,
            rw (e, deletes) run,
            k.bound fs_create (inl refl),
            k.bound fs_delete (inr (inl refl)),
            λ h. absurd (cc),
          )
