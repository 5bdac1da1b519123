-- ===== src/Commands/Queued.antt =====
-- A command that a client sends, from the check of the Sessions API to the poll of a harness that starts again.
use l4_ide.Prelude.{
  none, ltb, if◌then◌else◌, ℕ, ◌≤◌, ◌<◌, Bool, false, Option, some, List, [], ◌∷◌, ◌++◌, ◌≡◌, refl,
  sym, ap, ◌∙◌, ok, arith,
}
use l4_ide.Protocol.{Value, whole, object, Fields, get, put}
use l4_ide.Protocol.Validate.{
  Check, Shape, Part, required, int, max_safe_integer, key, check_fields,
}
use l4_ide.Protocol.Events.{epoch_ms}
use l4_ide.Protocol.Commands.{
  client_command, cloud_command, stored_command, command_envelope_shape, command_shapes,
}
use l4_ide.Protocol.Settled.{first_field-ok, int_itself}
use l4_ide.Protocol.Spread.{get-put, get-put_other, get-spread-Without, check_fields-Without}
use l4_ide.Protocol.Tagged.{tagged_object-Made}
use l4_ide.Protocol.Stored.{client_command-read, envelope-ShapeSettles, commands-AllFit}
use l4_ide.Protocol.Numbers.{format_command_seq, parse_command_seq}
use l4_ide.Protocol.Printed.{parse-format_command_seq}
use l4_ide.Commands.{Attempt, CommandReader, command, open_at}
use l4_ide.Commands.Handled.{handled, open_at-IsSound}
use l4_ide.Commands.Failing.{poll_try}
use l4_ide.Commands.Files.{
  shown, open_reader, QueueFile, holds, max_command_bytes, read_known_text, found, failed, attempt,
  checked_attempt, parsed_attempt, id_attempt,
}
use l4_ide.Commands.History.{After, After-Keeps}
use l4_ide.Commands.Written.{last_from}
use l4_ide.Commands.Restart.{HandsOut, redelivered}

-- A command that the check accepts keeps its number.
cloud_command-id :
    (fs ws : Fields) (path : List Part)
    → cloud_command (object fs) path ≡ ok (object ws)
    → get "id" ws ≡ get "id" fs
unfolding check_fields cloud_command
cloud_command-id fs ws path h =
    let m =
      tagged_object-Made command_envelope_shape command_shapes envelope-ShapeSettles
        (refl, (refl, tt)) commands-AllFit fs (object ws) path h in
    let var = m.selects.selected in
    let at : List Part = path ++ (key "id" ∷ []) in
    let rest : Shape = ("ts", required epoch_ms) ∷ [] in
    let number : Check = int 1 max_safe_integer in
    let parts =
      first_field-ok "id" (number (get "id" fs) at) (check_fields rest fs path) m.first
        m.first_made in
    same_fields ws _ m.whole_is
    ∙ get-spread-Without "id" m.first m.second
        (check_fields-Without "id" var.shape fs m.second path var.first_apart.0 m.second_made)
    ∙ ap (get "id") parts.4
    ∙ sym (int_itself 1 max_safe_integer (get "id" fs) parts.0 at parts.2)
  where
    same_fields : (a b : Fields) → object a ≡ object b → get "id" a ≡ get "id" b
    same_fields a b e = let same : a ≡ b = cc in ap (get "id") same

module _ (json : List ℕ → Option Value) (utf8_bytes : List ℕ → ℕ) where
  -- The file of number `n` holds a client's command that the check accepted, as it is stored, and is no
  -- larger than what the reader reads.
  pub record IsQueued (n : ℕ) (f : QueueFile) : Type 0 where
    pub content : List ℕ
    pub is_held : f ≡ holds content
    pub fits : utf8_bytes content ≤ max_command_bytes
    pub sent : Fields
    pub checked : Fields
    pub accepted : client_command (object sent) [] ≡ ok (object checked)
    pub now : ℕ
    pub is_stored : json content ≡ some (object (stored_command n now checked))
    pub counted : 1 ≤ n
    pub is_safe : n ≤ max_safe_integer
    pub now_safe : now ≤ max_safe_integer

  -- What the reader makes of the files.
  abbrev pub attempts : (ℕ → QueueFile × ℕ) → ℕ → Attempt × ℕ
  attempts files n =
      (attempt json (read_known_text utf8_bytes max_command_bytes (files n).0), (files n).1)

  IsQueued-command :
      (n : ℕ) (f : QueueFile)
      → IsQueued n f
      → attempt json (read_known_text utf8_bytes max_command_bytes f) ≡ command n
  unfolding attempt read_known_text
  IsQueued-command n f q =
      let gs : Fields = stored_command n q.now q.checked in
      let (_, _, reads) =
        client_command-read n q.now q.sent q.checked [] q.counted q.is_safe q.now_safe q.accepted in
      let kept = cloud_command-id gs _ [] reads in
      let id_is : get "id" gs ≡ whole n =
        get-put_other "ts" "id" (whole q.now) (put "id" (whole n) q.checked) refl
        ∙ get-put "id" (whole n) q.checked in
      let small = q.fits in
      let limit : ltb max_command_bytes (utf8_bytes q.content) ≡ false = ground (arith, small) in
      ap (λ (x : QueueFile). attempt json (read_known_text utf8_bytes max_command_bytes x))
        q.is_held
      ∙ ap (λ (b : Bool). attempt json (if b then failed none else found q.content)) limit
      ∙ ap parsed_attempt q.is_stored
      ∙ ap checked_attempt reads
      ∙ ap id_attempt (kept ∙ id_is)

-- A printed number is shown again.
shown-printed :
    (n : ℕ) (content : List ℕ)
    → n < 1000000000000
    → format_command_seq n ≡ some content
    → shown (some content) ≡ some n
unfolding shown
shown-printed n content lt e =
    let (printed, is_printed, back) = parse-format_command_seq n (omega (arith, lt)) in
    let same : printed ≡ content = cc in ap parse_command_seq (sym same) ∙ back ∙ ground (arith, lt)

-- What clients send is not lost: let a run from the number `start` in `commands.done` lead to `s`, whatever it
-- polled and reported and whichever writes failed, and let `k` be a number that it has not handled. Let the
-- harness then start with the printed number that `commands.done` holds, let `commands.seq` hold a printed
-- number of at most twelve digits that is `k` or more, and let `k`'s file hold what was stored for a client's
-- command that the check accepted, in no more bytes than the reader reads. Whatever the other files hold, the
-- first poll hands out `k`; or it stops to wait for the file of an earlier number, which is not there, half
-- written, or failed to be read in a way that passes; or it throws before `k`, since `commands.done` could not
-- be written.
pub accepted_redelivered :
    (json : List ℕ → Option Value) (utf8_bytes : List ℕ → ℕ) (start seq k : ℕ)
    (done_text seq_text : List ℕ) (writes : ℕ → Bool) (files : ℕ → QueueFile × ℕ)
    (s : CommandReader)
    → After (open_at start) s
    → handled s k ≡ false
    → k ≤ seq
    → seq < 1000000000000
    → format_command_seq (last_from start s.written) ≡ some done_text
    → format_command_seq seq ≡ some seq_text
    → IsQueued json utf8_bytes k (files k).0
    → HandsOut writes (attempts json utf8_bytes files) k (
        poll_try
          (shown (some seq_text))
          writes
          (attempts json utf8_bytes files)
          (open_reader (some done_text)))
unfolding open_reader
accepted_redelivered json utf8_bytes start seq k done_text seq_text writes files s run new le short
      wrote announced queued =
    let kept = After-Keeps start (open_at start) s (open_at-IsSound start) (omega arith) run in
    let behind = kept.behind in
    let at = last_from start s.written in
    let low : at < 1000000000000 = ground (arith, new, behind, le, short) in
    rw (shown-printed seq seq_text short announced, shown-printed at done_text low wrote)
      (redelivered start seq k writes (attempts json utf8_bytes files) s run new le
        (IsQueued-command json utf8_bytes k (files k).0 queued))
