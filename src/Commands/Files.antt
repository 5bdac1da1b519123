-- ===== src/Commands/Files.antt =====
-- ts-apps/cloud-agent/src/command-reader.ts: what a read of a file of the queue means. `JSON.parse` is a
-- parameter, which gives no value where it throws.
use l4_ide.Prelude.{ltb, ℕ, Option, none, some, List, [], ◌∷◌, if◌then◌else◌, ok, any}
use l4_ide.Protocol.{Value, whole, object, codes, get}
use l4_ide.Protocol.Validate.{Checked, same_text}
use l4_ide.Protocol.Commands.{cloud_command}
use l4_ide.Protocol.Numbers.{parse_command_seq}
use l4_ide.Commands.{
  CommandReader, open_at, Attempt, transient_failure, other_failure, unfinished, invalid_command,
  command,
}

-- What `readText` gives: an error with its code, no file, or its text.
pub data FileRead : Type 0 where
  failed : Option (List ℕ) → FileRead
  missing : FileRead
  found : List ℕ → FileRead

-- A file of the queue, or the code of the error that opening it gives.
pub data QueueFile : Type 0 where
  absent : QueueFile
  unreadable : Option (List ℕ) → QueueFile
  holds : List ℕ → QueueFile

abbrev pub max_command_bytes : ℕ
max_command_bytes = 1100000

-- `readKnownText` of safe-fs.ts: a file that is too large is an error. `utf8_bytes` is the size of a text's file.
unfoldable pub read_known_text : (List ℕ → ℕ) → ℕ → QueueFile → FileRead
read_known_text utf8_bytes max_bytes absent = missing
read_known_text utf8_bytes max_bytes (unreadable errno) = failed errno
read_known_text utf8_bytes max_bytes (holds content) =
    if ltb max_bytes (utf8_bytes content) then failed none else found content

abbrev pub transient_errnos : List (List ℕ)
transient_errnos =
    codes "ESTALE"
    ∷ codes "EIO"
    ∷ codes "EAGAIN"
    ∷ codes "EBUSY"
    ∷ codes "EINTR"
    ∷ codes "ETIMEDOUT"
    ∷ codes "ENOTCONN"
    ∷ codes "EHOSTDOWN"
    ∷ codes "EHOSTUNREACH"
    ∷ codes "ECONNRESET"
    ∷ []

unfoldable pub failure : Option (List ℕ) → Attempt
failure none = other_failure
failure (some errno) =
    if any (same_text errno) transient_errnos then transient_failure else other_failure

-- A command is told by its number.
abbrev pub id_attempt : Value → Attempt
id_attempt (whole n) = command n
id_attempt _ = invalid_command

abbrev pub checked_attempt : Checked → Attempt
checked_attempt (ok (object cmd)) = id_attempt (get "id" cmd)
checked_attempt _ = invalid_command

abbrev pub parsed_attempt : Option Value → Attempt
parsed_attempt none = unfinished
parsed_attempt (some json) = checked_attempt (cloud_command json [])

unfoldable pub attempt : (List ℕ → Option Value) → FileRead → Attempt
unfolding failure
attempt json (failed errno) = failure errno
attempt json missing = unfinished
attempt json (found content) = parsed_attempt (json content)

-- What a read of `commands.seq` or `commands.done` shows: 0 without a file, and nothing if it is invalid.
unfoldable pub shown : Option (List ℕ) → Option ℕ
unfolding parse_command_seq
shown none = some 0
shown (some content) = parse_command_seq content

abbrev pub or_zero : Option ℕ → ℕ
or_zero none = 0
or_zero (some n) = n

-- `open`, with what a read of `commands.done` gives.
unfoldable pub open_reader : Option (List ℕ) → CommandReader
unfolding shown
open_reader content = open_at (or_zero (shown content))
