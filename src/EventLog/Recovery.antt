-- ===== src/EventLog/Recovery.antt =====
-- event-log.ts: `open` finds where the log of a run that has ended stopped. A file that is missing is read as
-- an empty one, and a torn line counts as no line.
use l4_ide.Prelude.{
  ℕ, zero, suc, ◌+◌, ◌-◌, Bool, not, ◌&&◌, Option, none, some, List, [], ◌∷◌, ◌==◌, if◌then◌else◌,
  leb, ltb,
}
use l4_ide.EventLog.{Event, Head, first_head, first_event_segment}
use l4_ide.EventLog.Disk.{
  Storage, Piece, line, torn, Io, threw, size, cut, check_fence, remove_file, write_head,
  truncate_to, pure, ◌>>◌,
}

-- `lastSeqIn`: the number of the last line, or the one given.
unfoldable pub last_seq_from : ℕ → List Piece → ℕ
last_seq_from n [] = n
last_seq_from n (line e ∷ ps) = last_seq_from e.seq ps
last_seq_from n (torn k ∷ ps) = last_seq_from n ps

-- `lastSeqBefore`, with the segment it reads next.
unfoldable pub last_seq_before : (ℕ → List Piece) → ℕ → ℕ → ℕ
unfolding last_seq_from
last_seq_before files segment zero = 0
last_seq_before files segment (suc n) =
    let earlier = last_seq_before files segment n in
    let here = last_seq_from 0 (files (suc n)) in
    if ltb 0 here then here else if ltb (suc n + 2) segment then 0 else earlier

abbrev pub seq_or_before : (ℕ → List Piece) → ℕ → ℕ → ℕ
unfolding last_seq_before
seq_or_before files segment here =
    if here == 0 then last_seq_before files segment (segment - 1) else here

-- `parseHeadFile`
abbrev pub valid_head : Head → Bool
valid_head h = leb first_event_segment h.segment && leb h.segment 1000000 && leb h.length 67108864

abbrev pub reads {ℓ} : {A : Type ℓ} → (Storage → Io A) → Io A
reads f s = f s s

module _ (json_bytes : Event → ℕ) where
  -- The head segment is shorter than head.json says: the log goes on in a new segment.
  unfoldable pub skip_segment : Head → (ℕ → List Piece) → Io (Head × ℕ)
  unfolding last_seq_before last_seq_from remove_file write_head
  skip_segment h files =
      let h' : Head = record { segment = suc h.segment; length = 0 } in
      let n = seq_or_before files h.segment (last_seq_from 0 (files h.segment)) in
      remove_file (suc h.segment) >> (write_head h' >> pure (h', n))

  -- What was written and never published is dropped.
  unfoldable pub resume : Head → (ℕ → List Piece) → Io (Head × ℕ)
  unfolding last_seq_before last_seq_from truncate_to cut
  resume h files =
      let n =
        seq_or_before files h.segment
          (last_seq_from 0 (cut json_bytes h.length (files h.segment))) in
      (if ltb h.length (size json_bytes (files h.segment))
        then truncate_to json_bytes h
        else pure tt)
      >> pure (h, n)

  abbrev pub open_with : Option Head → (ℕ → List Piece) → Io (Head × ℕ)
  unfolding skip_segment resume remove_file
  open_with none files = remove_file first_event_segment >> pure (first_head, 0)
  open_with (some h) files =
      if not (valid_head h)
      then (λ s. threw s)
      else if ltb (size json_bytes (files h.segment)) h.length
      then skip_segment h files
      else resume h files

  unfoldable pub open_log : Io (Head × ℕ)
  unfolding check_fence open_with
  open_log = check_fence >> reads (λ s. open_with s.head_file s.files)
