-- ===== src/Protocol/Events.antt =====
-- events.ts and common.ts: the check of an event.
use Prim.Native.String.{String}
use l4_ide.Prelude.{ℕ, Bool, true, List, [], ◌∷◌, ◌++◌, map, if◌then◌else◌, ok, err}
use l4_ide.Protocol.{Value, string, object, codes, spread}
use l4_ide.Protocol.Validate.{
  Check, Checked, Rule, required, optional, Shape, expected, fail, str, int, literal, json, arr,
  obj, union, max_safe_integer,
}
use l4_ide.Protocol.Patterns.{
  is_opaque_id, is_git_sha, is_ulid, is_file_name, is_base64url, is_content_type, is_repo_data_path,
}

abbrev pub anything : List ℕ → Bool
anything s = true

-- `str({ max })`
abbrev pub str_up_to : ℕ → Check
str_up_to most = str 0 most anything

-- `str({ pattern })`
abbrev pub str_like : (List ℕ → Bool) → Check
str_like matches = str 0 1000000 matches

abbrev pub one_of : List String → Check
one_of names = literal (map codes names)

abbrev pub opaque_id : Check
opaque_id = str_like is_opaque_id

abbrev pub epoch_ms : Check
epoch_ms = int 0 max_safe_integer

abbrev pub session_state : Check
session_state = one_of ("sleeping" ∷ "starting" ∷ "running" ∷ "busy" ∷ "waiting" ∷ "parked" ∷ [])

abbrev pub max_attachment_bytes : ℕ
max_attachment_bytes = 10485760

abbrev pub attachment_ref : Check
attachment_ref = obj (
    ("name", required (str_like is_file_name))
    ∷ ("contentType", required (str 1 255 is_content_type))
    ∷ ("size", required (int 0 max_attachment_bytes))
    ∷ [])

abbrev pub git_summary_max : ℕ
git_summary_max = 200

abbrev pub event_text : Check
event_text = str_up_to 1000000

abbrev pub sha : Check
sha = str_like is_git_sha

abbrev pub tool_status : Check
tool_status = one_of ("running" ∷ "done" ∷ "error" ∷ [])

-- A path under data/.
unfoldable pub repo_data_path : Check
repo_data_path (string s) path = if is_repo_data_path s then ok (string s) else fail expected path
repo_data_path _ path = fail expected path

-- A variant's check has the tag's literal among its fields.
abbrev pub variant : String × Shape → String × Check
variant (name, shape) = (name, obj (("type", required (one_of (name ∷ []))) ∷ shape))

abbrev pub conversation : String × Rule
conversation = ("conversationId", required opaque_id)

abbrev pub turn : String × Rule
turn = ("turnId", required opaque_id)

abbrev pub source_shape : Shape
source_shape = ("url", required (str_up_to 4096)) ∷ ("title", optional (str_up_to 1024)) ∷ []

abbrev pub file_shape : Shape
file_shape = ("path", required repo_data_path) ∷ ("sha", optional sha) ∷ []

abbrev pub usage_shape : Shape
usage_shape =
    ("promptTokens", required (int 0 max_safe_integer))
    ∷ ("completionTokens", required (int 0 max_safe_integer))
    ∷ []

module _ (json_text : Value → List ℕ) where
  unfoldable pub chat_shapes : List (String × Shape)
  unfolding obj arr json
  chat_shapes =
      ("started", conversation ∷ turn ∷ ("model", required (str_up_to 256)) ∷ [])
      ∷ ("text-delta", conversation ∷ ("text", required event_text) ∷ [])
      ∷ ("thinking-delta", conversation ∷ ("text", required event_text) ∷ [])
      ∷ (
        "tool-activity",
        conversation
            ∷ ("tool", required (str_up_to 256))
            ∷ ("status", required tool_status)
            ∷ ("label", optional (str_up_to 256))
            ∷ ("message", required event_text)
            ∷ ("input", optional (json json_text 1000000))
            ∷ ("output", optional (json json_text 1000000))
            ∷ ("ruleId", optional (str_up_to 512))
            ∷ ("deploymentId", optional (str_up_to 256))
            ∷ ("error", optional event_text)
            ∷ ("sources", optional (arr (obj source_shape) 200))
            ∷ [],
      )
      ∷ (
        "tool-call",
        conversation
            ∷ ("callId", required opaque_id)
            ∷ ("name", required (str_up_to 256))
            ∷ ("argsJson", required event_text)
            ∷ ("status", required (one_of ("pending-approval" ∷ "running" ∷ "done" ∷ "error" ∷ [])))
            ∷ ("result", optional event_text)
            ∷ ("error", optional event_text)
            ∷ ("ruleFnName", optional (str_up_to 512))
            ∷ ("deploymentId", optional (str_up_to 256))
            ∷ [],
      )
      ∷ (
        "done",
        conversation
            ∷ ("finishReason", required (str_up_to 64))
            ∷ ("usage", optional (obj usage_shape))
            ∷ [],
      )
      ∷ (
        "error",
        conversation ∷ ("message", required event_text) ∷ ("code", optional (str_up_to 128)) ∷ [],
      )
      ∷ ("turn-spawn", conversation ∷ ("subTurnId", required opaque_id) ∷ [])
      ∷ ("queue-consumed", conversation ∷ ("injectionIds", required (arr opaque_id 1000)) ∷ [])
      ∷ []

unfoldable pub cloud_shapes : List (String × Shape)
unfolding obj arr str
cloud_shapes =
    (
      "user-message",
      turn ∷ ("text", required event_text) ∷ ("attachments", required (arr attachment_ref 50)) ∷ [],
    )
    ∷ (
      "ask-user",
      conversation
          ∷ turn
          ∷ ("callId", required opaque_id)
          ∷ ("question", required event_text)
          ∷ ("choices", optional (arr (str_up_to 4096) 50))
          ∷ [],
    )
    ∷ (
      "session-state",
      ("state", required session_state) ∷ ("publicKey", optional (str 43 43 is_base64url)) ∷ [],
    )
    ∷ (
      "git-committed",
      turn
          ∷ ("sha", required sha)
          ∷ ("parent", required sha)
          ∷ ("summary", optional (str 1 git_summary_max anything))
          ∷ [],
    )
    ∷ ("rolled-back", turn ∷ ("sha", required sha) ∷ [])
    ∷ ("local-merged", ("sha", required sha) ∷ [])
    ∷ (
      "files-added",
      ("batchId", required (str_like is_ulid))
          ∷ ("files", required (arr (obj file_shape) 500))
          ∷ [],
    )
    ∷ ("local-merge-conflict", ("files", required (arr (str 1 4096 anything) 1000)) ∷ [])
    ∷ (
      "auth-required",
      ("reason", required (one_of ("invalid_key" ∷ "chain_expired" ∷ "chain_forked" ∷ "mcp" ∷ [])))
          ∷ ("server", optional (str_up_to 64))
          ∷ [],
    )
    ∷ []

unfoldable pub envelope : Check
unfolding obj int
envelope = obj (("seq", required (int 1 max_safe_integer)) ∷ ("ts", required epoch_ms) ∷ [])

-- `{ ...envelope(v, path), ...payload(v, path) }`
abbrev pub merged : Checked → Checked → Checked
merged (ok (object a)) (ok (object b)) = ok (object (spread a b))
merged (ok a) (ok b) = ok a
merged (ok a) (err e) = err e
merged (err e) b = err e

module _ (json_text : Value → List ℕ) where
  unfoldable pub payload : Check
  unfolding union literal str int repo_data_path chat_shapes cloud_shapes
  payload = union "type" (map variant (chat_shapes json_text ++ cloud_shapes))

  unfoldable pub cloud_event : Check
  unfolding payload envelope
  cloud_event v path = merged (envelope v path) (payload v path)
