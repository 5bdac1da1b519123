-- ===== src/Protocol/Commands.antt =====
-- commands.ts: the checks of commands, and sealed.ts: the check of a sealed text. dev.ts: the command that is
-- stored for one that a client sends.
use Prim.Native.String.{String}
use l4_ide.Prelude.{ℕ, Bool, false, ◌||◌, List, [], ◌∷◌, map, if◌then◌else◌, ok}
use l4_ide.Protocol.{Value, whole, string, object, Fields, end, field, codes, get, spread}
use l4_ide.Protocol.Validate.{
  Check, Checked, required, optional, Shape, expected, bad_format, Part, fail, str, int, literal,
  arr, obj, union, max_safe_integer, same_text,
}
use l4_ide.Protocol.Patterns.{
  is_ulid, is_file_name, is_repo_relative_path, is_bundle_name, is_sealed_string,
}
use l4_ide.Protocol.Events.{
  variant, opaque_id, epoch_ms, str_up_to, str_like, repo_data_path, merged, turn,
}

abbrev pub max_batch_files : ℕ
max_batch_files = 500

abbrev pub prompt_max : ℕ
prompt_max = 200000

unfoldable pub repo_path : Check
repo_path (string s) path = if is_repo_relative_path s then ok (string s) else fail bad_format path
repo_path _ path = fail expected path

unfoldable pub sealed_string : Check
sealed_string (string s) path = if is_sealed_string s then ok (string s) else fail expected path
sealed_string _ path = fail expected path

unfoldable pub bundle_name : Check
bundle_name (string s) path = if is_bundle_name s then ok (string s) else fail expected path
bundle_name _ path = fail expected path

abbrev pub context_shape : Shape
context_shape = ("activeFile", optional repo_path) ∷ ("mentions", optional (arr repo_path 200)) ∷ []

abbrev pub batch_file_shape : Shape
batch_file_shape = ("path", required repo_data_path) ∷ []

unfoldable pub command_shapes : List (String × Shape)
unfolding obj arr str repo_path sealed_string bundle_name repo_data_path
command_shapes =
    (
      "message",
      turn
          ∷ ("text", required (str_up_to prompt_max))
          ∷ ("attachments", optional (arr (str_like is_file_name) 50))
          ∷ ("context", optional (obj context_shape))
          ∷ [],
    )
    ∷ (
      "inject",
      turn ∷ ("injectionId", optional opaque_id) ∷ ("text", required (str_up_to prompt_max)) ∷ [],
    )
    ∷ ("abort", turn ∷ [])
    ∷ ("answer", ("callId", required opaque_id) ∷ ("answer", required (str_up_to prompt_max)) ∷ [])
    ∷ ("rollback", turn ∷ [])
    ∷ ("mcp-credentials", ("sealed", required sealed_string) ∷ [])
    ∷ ("stop", [])
    ∷ ("apply-bundle", ("file", required bundle_name) ∷ [])
    ∷ (
      "add-files",
      ("batchId", required (str_like is_ulid))
          ∷ ("files", required (arr (obj batch_file_shape) max_batch_files))
          ∷ [],
    )
    ∷ []

unfoldable pub command_payload : Check
unfolding union command_shapes literal
command_payload = union "type" (map variant command_shapes)

abbrev pub is_internal : Value → Bool
is_internal (string s) = same_text s (codes "apply-bundle") || same_text s (codes "add-files")
is_internal _ = false

abbrev pub client_only : List Part → Checked → Checked
client_only path (ok (object fs)) =
    if is_internal (get "type" fs) then fail expected path else ok (object fs)
client_only path r = r

unfoldable pub client_command : Check
unfolding command_payload
client_command v path = client_only path (command_payload v path)

abbrev pub command_envelope_shape : Shape
command_envelope_shape = ("id", required (int 1 max_safe_integer)) ∷ ("ts", required epoch_ms) ∷ []

unfoldable pub command_envelope : Check
unfolding obj int
command_envelope = obj command_envelope_shape

unfoldable pub cloud_command : Check
unfolding command_payload command_envelope
cloud_command v path = merged (command_envelope v path) (command_payload v path)

-- `{ ...payload, id: n, ts: now }`
abbrev pub stored_command : ℕ → ℕ → Fields → Fields
stored_command n now fs = spread fs (field "id" (whole n) (field "ts" (whole now) end))
