-- ===== src/EventLog/Publish.antt =====
-- event-log.ts: `write` publishes the whole batch or nothing.
use l4_ide.Prelude.{
  ℕ, Bool, true, false, some, List, [], ◌∷◌, ◌++◌, ◌≡◌, refl, sym, ap, ◌∙◌, subst, arith, map,
}
use mathlib.Core.List.{append-nil, map-append}
use l4_ide.EventLog.{Event, Head}
use l4_ide.EventLog.Disk.{
  Piece, line, Storage, Io, put_file, check_fence, size, cut, write_lines, later_faults, pure, ◌>>◌,
  write_head, truncate_to, make_clean, write_events, write,
}
use l4_ide.EventLog.Rules.{Ends, and_then-Ends, call-Ends, Ends-mono}
use l4_ide.EventLog.Segments.{Keeps, Keeps-refl, Wrote, Wrote-faults}
use l4_ide.EventLog.Steps.{segments_below}
use l4_ide.EventLog.Lines.{write_lines-Ends}
use l4_ide.EventLog.Writes.{
  Holds, Holds-faults, Holds-unclean, Holds-Keeps, Holds-truncated, Holds-published,
}

abbrev spent : Storage → Storage
spent s = record s { faults = later_faults s.faults }

module _ (json_bytes : Event → ℕ) (h : Head) (es : List Event) where
  -- The log is as before, but for what may stand after its end.
  abbrev Failed : Storage → Type 0
  Failed s = Holds json_bytes s h true es

  check_fence-Ends :
      (unclean : Bool) (s : Storage)
      → Holds json_bytes s h unclean es
      → Ends (check_fence s) (λ _ t. Holds json_bytes t h unclean es) Failed
  unfolding check_fence
  check_fence-Ends unclean s a =
      let a' = Holds-faults json_bytes s (spent s) h unclean es refl refl a in
      call-Ends (λ x. x) (λ m x. x) s (λ t. Holds json_bytes t h unclean es) Failed a'
        (λ m. Holds-unclean json_bytes (spent s) h unclean es a')

  make_clean-Ends :
      (unclean : Bool) (s : Storage)
      → Holds json_bytes s h unclean es
      → Ends (make_clean json_bytes unclean h s) (λ _ t. Holds json_bytes t h false es) Failed
  unfolding make_clean truncate_to
  make_clean-Ends false s a = a
  make_clean-Ends true s a =
      let a' = Holds-faults json_bytes s (spent s) h true es refl refl a in
      call-Ends
        (λ x. record x {
          files = put_file h.segment (cut json_bytes h.length (x.files h.segment)) x.files;
        })
        (λ m x. x) s (λ t. Holds json_bytes t h false es) Failed
        (Holds-truncated json_bytes (spent s) h true es a') (λ m. a')

  Wrote-start :
      (s : Storage) → Holds json_bytes s h false es → Wrote json_bytes h.segment s (map line es) h s
  Wrote-start s a =
      let whole : s.files h.segment ≡ a.current =
        a.file ∙ ap (λ (x : List Piece). a.current ++ x) (a.clean refl) ∙ append-nil a.current in
      record {
        kept = Keeps-refl h.segment s;
        later = omega arith;
        content = ap (λ (x : List Piece). segments_below h.segment s.files ++ x) whole ∙ a.content;
        exact = ap (size json_bytes) whole ∙ a.exact;
      }

  -- The head is written last.
  publish_lem :
      (n : ℕ) (s : Storage) (h1 : Head) (all : List Event) (t : Storage)
      → Wrote json_bytes n s (map line all) h1 t
      → ((u : Storage) → Keeps n s u → Failed u)
      → Ends
          ((check_fence >> (write_head h1 >> pure h1)) t)
          (λ h' u. Holds json_bytes u h' false all)
          Failed
  unfolding check_fence write_head
  publish_lem n s h1 all t w back =
      let Written : Storage → Type 0 = λ u. Wrote json_bytes n s (map line all) h1 u in
      let w' : (u : Storage) → Written u → Written (spent u) =
        λ u x. Wrote-faults json_bytes n s (map line all) h1 u (spent u) refl refl x in
      and_then-Ends (check_fence t) (λ _. write_head h1 >> pure h1) (λ _ u. Written u)
        (λ h' u. Holds json_bytes u h' false all) Failed
        (call-Ends (λ x. x) (λ m x. x) t Written Failed (w' t w)
          (λ m. back (spent t) (w' t w).kept))
        (λ _ u wu.
          and_then-Ends (write_head h1 u) (λ _. pure h1) (λ _ v. Holds json_bytes v h1 false all)
            (λ h' v. Holds json_bytes v h' false all) Failed
            (call-Ends (λ x. record x { head_file = some h1 }) (λ m x. x) u
              (λ v. Holds json_bytes v h1 false all) Failed
              (Holds-published json_bytes n s (spent u) h1 all (w' u wu))
              (λ m. back (spent u) (w' u wu).kept))
            (λ _ v b. b))

  write_events-Ends :
      (news : List Event) (s : Storage)
      → Holds json_bytes s h false es
      → Ends
          (write_events json_bytes h news s)
          (λ h' t. Holds json_bytes t h' false (es ++ news))
          Failed
  unfolding write_events
  write_events-Ends [] s a =
      subst (λ (x : List Event). Holds json_bytes s h false x) (sym (append-nil es)) a
  write_events-Ends (e ∷ news) s a =
      let all : List Event = es ++ (e ∷ news) in
      let n : ℕ = h.segment in
      let back : (t : Storage) → Keeps n s t → Failed t =
        λ t k. Holds-Keeps json_bytes s t h false es a k in
      let Done : Head → Storage → Type 0 = λ h' t. Holds json_bytes t h' false all in
      let Written : Head → Storage → Type 0 = λ h1 t. Wrote json_bytes n s (map line all) h1 t in
      let lines_end : Ends (write_lines json_bytes h [] (e ∷ news) s) Written (λ t. Keeps n s t) =
        subst
          (λ (x : List Piece).
            Ends (write_lines json_bytes h [] (e ∷ news) s) (λ h1 t. Wrote json_bytes n s x h1 t)
              (λ t. Keeps n s t))
          (sym (map-append line es (e ∷ news)))
          (write_lines-Ends json_bytes n s (map line es) [] h (e ∷ news) s (Wrote-start s a)) in
      let publish : Head → Io Head = λ h1. check_fence >> (write_head h1 >> pure h1) in
      and_then-Ends (write_lines json_bytes h [] (e ∷ news) s) publish Written Done Failed
        (Ends-mono (write_lines json_bytes h [] (e ∷ news) s) Written Written (λ t. Keeps n s t)
          Failed lines_end (λ h1 t w. w) back)
        (λ h1 t w. publish_lem n s h1 all t w back)

  -- A batch is published whole, after what was published before; or the write throws, and a reader finds
  -- what it found before.
  pub write-Ends :
      (unclean : Bool) (news : List Event) (s : Storage)
      → Holds json_bytes s h unclean es
      → Ends
          (write json_bytes unclean h news s)
          (λ h' t. Holds json_bytes t h' false (es ++ news))
          (λ t. Holds json_bytes t h true es)
  unfolding write
  write-Ends unclean news s a =
      let Done : Head → Storage → Type 0 = λ h' t. Holds json_bytes t h' false (es ++ news) in
      and_then-Ends (check_fence s)
        (λ _. make_clean json_bytes unclean h >> write_events json_bytes h news)
        (λ _ t. Holds json_bytes t h unclean es) Done Failed (check_fence-Ends unclean s a)
        (λ _ t b.
          and_then-Ends (make_clean json_bytes unclean h t) (λ _. write_events json_bytes h news)
            (λ _ u. Holds json_bytes u h false es) Done Failed (make_clean-Ends unclean t b)
            (λ _ u c. write_events-Ends news u c))
