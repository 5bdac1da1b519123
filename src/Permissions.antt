-- ===== src/Permissions.antt =====
-- ts-shared/legalese-agent/src/permissions.ts: which permission a tool call of the agent needs.
-- A tool name is given by the test of `categoryForTool` that it meets. A stored setting is what
-- `parsePermissionValue` makes of it: a value, or `none`.
pub mod Bounds
use l4_ide.Prelude.{
  ℕ, Bool, true, false, Option, none, some, List, [], ◌∷◌, ◌++◌, if◌then◌else◌, ltb,
}

pub data PermissionValue : Type 0 where
  never ask always : PermissionValue

pub data PermissionCategory : Type 0 where
  fs_read fs_create fs_edit fs_delete l4_evaluate l4_refactor mcp_l4_rules mcp_vscode meta_ask_user
        meta_status_update :
      PermissionCategory

abbrev pub permission_categories : List PermissionCategory
permission_categories =
    fs_read ∷ fs_create ∷ fs_edit ∷ fs_delete ∷ l4_evaluate ∷ l4_refactor ∷ mcp_l4_rules
    ∷ mcp_vscode ∷ meta_ask_user ∷ meta_status_update ∷ []

unfoldable pub default_permission : PermissionCategory → PermissionValue
default_permission fs_delete = ask
default_permission _ = always

pub data ToolName : Type 0 where
  fs_read_file fs_create_file fs_edit_file fs_delete_file fs_copy_file evaluate_tool refactor_tool
        ask_user_tool post_status_update l4_rules_prefix vsmcp_prefix other_tool :
      ToolName

unfoldable pub category_for_tool : ToolName → Option PermissionCategory
category_for_tool fs_read_file = some fs_read
category_for_tool fs_create_file = some fs_create
category_for_tool fs_edit_file = some fs_edit
category_for_tool fs_delete_file = some fs_delete
category_for_tool fs_copy_file = some fs_edit
category_for_tool evaluate_tool = some l4_evaluate
category_for_tool refactor_tool = some l4_refactor
category_for_tool ask_user_tool = some meta_ask_user
category_for_tool post_status_update = some meta_status_update
category_for_tool l4_rules_prefix = some mcp_l4_rules
category_for_tool vsmcp_prefix = some mcp_vscode
category_for_tool other_tool = none

-- What is read of the arguments: whether two of them are truthy, and whether there is a content that is a
-- string and not empty.
pub record CallArgs : Type 0 where
  pub overwrite : Bool
  pub delete_source : Bool
  pub has_content : Bool

unfoldable pub categories_for_call : ToolName → CallArgs → List PermissionCategory
unfolding category_for_tool
categories_for_call fs_copy_file args =
    fs_create ∷ (if args.overwrite then fs_edit ∷ [] else [])
    ++ (if args.delete_source then fs_delete ∷ [] else [])
categories_for_call fs_create_file args =
    if args.has_content then fs_create ∷ fs_edit ∷ [] else fs_create ∷ []
categories_for_call tool args = elim (category_for_tool tool) [
  | some category ↦ category ∷ []
  | none ↦ []
]

unfoldable pub strictness : PermissionValue → ℕ
strictness always = 0
strictness ask = 1
strictness never = 2

-- The loop over the workspace levels.
unfoldable pub tighten : PermissionValue → List (Option PermissionValue) → PermissionValue
unfolding strictness
tighten value [] = value
tighten value (none ∷ levels) = tighten value levels
tighten value (some tighter ∷ levels) =
    tighten (if ltb (strictness value) (strictness tighter) then tighter else value) levels

unfoldable pub effective_permission :
    Option PermissionValue → PermissionValue → List (Option PermissionValue) → PermissionValue
unfolding tighten
effective_permission none fallback levels = tighten fallback levels
effective_permission (some value) fallback levels = tighten value levels

pub record Strictest : Type 0 where
  pub category : PermissionCategory
  pub permission : PermissionValue

-- The loop over the categories, with the worst so far.
unfoldable pub worst_from :
    (PermissionCategory → PermissionValue)
    → Option Strictest
    → List PermissionCategory
    → Option Strictest
unfolding strictness
worst_from policy worst [] = worst
worst_from policy none (c ∷ cs) =
    worst_from policy (some (record { category = c; permission = policy c })) cs
worst_from policy (some w) (c ∷ cs) =
    worst_from policy
      (some (
        if ltb (strictness w.permission) (strictness (policy c))
        then record { category = c; permission = policy c }
        else w))
      cs

unfoldable pub strictest_permission :
    (PermissionCategory → PermissionValue) → List PermissionCategory → Option Strictest
unfolding worst_from
strictest_permission policy categories = worst_from policy none categories

unfoldable pub fixed_permission_policy :
    (PermissionCategory → Option PermissionValue) → PermissionCategory → PermissionValue
unfolding default_permission
fixed_permission_policy overrides category = elim (overrides category) [
  | some value ↦ value
  | none ↦ default_permission category
]
