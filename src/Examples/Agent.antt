-- ===== src/Examples/Agent.antt =====
-- The theorems on permissions, at small inputs.
use l4_ide.Prelude.{◌≤◌, Bool, true, false, some, [], ◌∷◌, ◌≡◌, refl}
use l4_ide.Permissions.{
  fs_create, fs_edit, fs_delete, default_permission, strictest_permission, strictness,
  categories_for_call, fs_copy_file, Strictest,
}
use l4_ide.Permissions.Bounds.{IsStrictest, strictest_permission_lem, copy_guarded}

strictest_example :
    (w : Strictest) × (strictest_permission default_permission
        (fs_create ∷ fs_delete ∷ fs_edit ∷ [])
      ≡ some w)
    × IsStrictest default_permission (fs_create ∷ fs_delete ∷ fs_edit ∷ []) w
strictest_example = strictest_permission_lem default_permission fs_create (fs_delete ∷ fs_edit ∷ [])

copy_example :
    (w : Strictest) × (strictest_permission default_permission (
        categories_for_call fs_copy_file
          (record { overwrite = true; delete_source = true; has_content = false }))
      ≡ some w)
    × (strictness (default_permission fs_create) ≤ strictness w.permission)
    × (strictness (default_permission fs_delete) ≤ strictness w.permission)
    × (◌≡◌ {A = Bool} true true → strictness (default_permission fs_edit) ≤ strictness w.permission)
copy_example =
    copy_guarded default_permission
      (record { overwrite = true; delete_source = true; has_content = false }) refl
