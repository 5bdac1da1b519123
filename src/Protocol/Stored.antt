-- ===== src/Protocol/Stored.antt =====
-- commands.ts and dev.ts: a command that a client may send is one that the harness reads.
use l4_ide.Prelude.{
  ℕ, ◌≤◌, Bool, true, false, List, [], ◌∷◌, ◌++◌, ◌≡◌, ◌≢◌, refl, sym, ap, ◌∙◌, subst, arith,
  if◌then◌else◌, ltb, ok,
}
use l4_ide.Protocol.{Value, whole, string, object, Fields, end, field, codes, get, put, spread}
use l4_ide.Protocol.Validate.{
  Checked, Shape, Part, check_fields, obj, object_of, int, max_safe_integer, first_field, key, fail,
  expected,
}
use l4_ide.Protocol.Events.{merged}
use l4_ide.Protocol.Commands.{
  repo_path, sealed_string, bundle_name, command_shapes, command_payload, is_internal, client_only,
  client_command, command_envelope_shape, command_envelope, cloud_command, stored_command,
}
use l4_ide.Protocol.Settled.{Settles, itself-Settles, object_of-ok}
use l4_ide.Protocol.Objects.{Agree, ShapeSettles, check_fields-settled}
use l4_ide.Protocol.Spread.{Apart, get-put, get-put_other}
use l4_ide.Protocol.Variants.{settle_rules, AllFit}
use l4_ide.Protocol.Tagged.{Selected, union-Selected, union-tag}

repo_path-Settles : Settles repo_path
unfolding repo_path
repo_path-Settles = itself-Settles repo_path same
  where
    same : (v w : Value) (path : List Part) → repo_path v path ≡ ok w → v ≡ w
    same v w path h = ground arith

sealed_string-Settles : Settles sealed_string
unfolding sealed_string
sealed_string-Settles = itself-Settles sealed_string same
  where
    same : (v w : Value) (path : List Part) → sealed_string v path ≡ ok w → v ≡ w
    same v w path h = ground arith

bundle_name-Settles : Settles bundle_name
unfolding bundle_name
bundle_name-Settles = itself-Settles bundle_name same
  where
    same : (v w : Value) (path : List Part) → bundle_name v path ≡ ok w → v ≡ w
    same v w path h = ground arith

pub commands-AllFit : AllFit command_envelope_shape command_shapes
unfolding command_shapes
commands-AllFit =
    search (settle_rules, repo_path-Settles, sealed_string-Settles, bundle_name-Settles)

pub envelope-ShapeSettles : ShapeSettles command_envelope_shape
envelope-ShapeSettles = search settle_rules

-- A stored command has the fields of the payload.
stored-Agree :
    (shape : Shape) (n now : ℕ) (fs : Fields)
    → Apart shape command_envelope_shape
    → Agree shape fs (stored_command n now fs)
stored-Agree [] n now fs apart = tt
stored-Agree ((k, r) ∷ shape) n now fs apart =
    let lacks = apart.0 in
    (
      sym (
          get-put_other "ts" k (whole now) (put "id" (whole n) fs) lacks.1.0
          ∙ get-put_other "id" k (whole n) fs lacks.0),
      stored-Agree shape n now fs apart.1,
    )

stored-envelope :
    (n now : ℕ) (fs : Fields) (path : List Part)
    → 1 ≤ n
    → n ≤ max_safe_integer
    → now ≤ max_safe_integer
    → check_fields command_envelope_shape (stored_command n now fs) path
      ≡ ok (field "id" (whole n) (field "ts" (whole now) end))
unfolding check_fields int
stored-envelope n now fs path n1 n2 t1 =
    let gs : Fields = stored_command n now fs in
    let id_is : get "id" gs ≡ whole n =
      get-put_other "ts" "id" (whole now) (put "id" (whole n) fs) refl
      ∙ get-put "id" (whole n) fs in
    let ts_is : get "ts" gs ≡ whole now = get-put "ts" (whole now) (put "id" (whole n) fs) in
    let e1 : ltb max_safe_integer n ≡ false = ground arith in
    let e2 : ltb n 1 ≡ false = ground arith in
    let e3 : ltb max_safe_integer now ≡ false = ground arith in
    let e4 : ltb now 0 ≡ false = ground arith in
    (λ i.
      first_field "id" (int 1 max_safe_integer (id_is i) (path ++ (key "id" ∷ [])))
        (first_field "ts" (int 0 max_safe_integer (ts_is i) (path ++ (key "ts" ∷ []))) (ok end)))
    ∙ rw (e1, e2, e3, e4) refl

-- The object that the check of a payload has made, with the shape that its tag selected.
record Payload (fs : Fields) (w : Value) (path : List Part) : Type 1 where
  made : Fields
  is_made : w ≡ object made
  selects :
      Selected command_envelope_shape command_shapes envelope-ShapeSettles
        (refl, (refl, tt))
        commands-AllFit
        fs
        w
        path
  fields_made : check_fields selects.selected.shape fs path ≡ ok made

command_payload-made :
    (fs : Fields) (w : Value) (path : List Part)
    → command_payload (object fs) path ≡ ok w
    → Payload fs w path
unfolding command_payload obj
command_payload-made fs w path h =
    let sel =
      union-Selected command_envelope_shape command_shapes envelope-ShapeSettles (refl, (refl, tt))
        commands-AllFit fs w path h in
    let by_obj : object_of (check_fields sel.selected.shape fs path) ≡ ok w =
      (λ i. sym sel.selected.is_obj i (object fs) path) ∙ sel.returned in
    let made = object_of-ok (check_fields sel.selected.shape fs path) w by_obj in
    record { made = made.0; is_made = made.2; selects = sel; fields_made = made.1 }

-- The harness reads the payload's fields in the stored command.
payload-stored :
    (n now : ℕ) (fs : Fields) (w : Value) (path : List Part) (p : Payload fs w path)
    → command_payload (object (stored_command n now p.made)) path ≡ ok (object p.made)
unfolding command_payload obj
payload-stored n now fs w path p =
    let var = p.selects.selected in
    let gs : Fields = stored_command n now p.made in
    let again =
      check_fields-settled var.shape fs p.made gs path var.settles p.fields_made
        (stored-Agree var.shape n now p.made var.apart) in
    let tag_again : get "type" gs ≡ string p.selects.tag =
      get-put_other "ts" "type" (whole now) (put "id" (whole n) p.made) refl
      ∙ get-put_other "id" "type" (whole n) p.made refl
      ∙ var.tagged fs p.made path p.fields_made in
    union-tag command_envelope_shape command_shapes envelope-ShapeSettles (refl, (refl, tt))
      commands-AllFit gs p.selects.tag path tag_again
    ∙ (λ i. var.is_obj i (object gs) path)
    ∙ ap object_of again

-- A client's command that is accepted is no internal one.
client_only-ok :
    (path : List Part) (r : Checked) (fs : Fields)
    → client_only path r ≡ ok (object fs)
    → (r ≡ ok (object fs)) × (is_internal (get "type" fs) ≡ false)
client_only-ok path (ok (object gs)) fs h = by_test (is_internal (get "type" gs)) refl h
  where
    by_test :
        (b : Bool)
        → is_internal (get "type" gs) ≡ b
        → ◌≡◌ {A = Checked} (if b then fail expected path else ok (object gs)) (ok (object fs))
        → ◌≡◌ {A = Checked} (ok (object gs)) (ok (object fs))
          × (is_internal (get "type" fs) ≡ false)
    by_test true e g = absurd (cc)
    by_test false e g =
        let same : gs ≡ fs = ground arith in
        (g, subst (λ (x : Fields). is_internal (get "type" x) ≡ false) same e)
client_only-ok path r fs h = absurd (ground arith)

not_internal :
    (v : Value) (s : List ℕ) → is_internal (string s) ≡ true → is_internal v ≡ false → v ≢ string s
not_internal v s internal h e =
    let bad : true ≡ false = sym internal ∙ ap is_internal (sym e) ∙ h in absurd (cc)

-- A client's command that the check accepts, stored with its number and the time, is accepted by the harness,
-- which reads the number, the time and the same fields; and it is no internal command. The number and the time
-- are safe integers, and the number is 1 or more.
pub client_command-read :
    (n now : ℕ) (fs ws : Fields) (path : List Part)
    → 1 ≤ n
    → n ≤ max_safe_integer
    → now ≤ max_safe_integer
    → client_command (object fs) path ≡ ok (object ws)
    → (get "type" ws ≢ string (codes "apply-bundle"))
      × (get "type" ws ≢ string (codes "add-files"))
      × (cloud_command (object (stored_command n now ws)) path
          ≡ ok (object (spread (field "id" (whole n) (field "ts" (whole now) end)) ws)))
unfolding client_command cloud_command command_envelope obj
client_command-read n now fs ws path n1 n2 t1 h =
    let client = client_only-ok path (command_payload (object fs) path) ws h in
    let p = command_payload-made fs (object ws) path client.0 in
    let same : p.made ≡ ws = let e = p.is_made in ground arith in
    let first = ap object_of (stored-envelope n now ws path n1 n2 t1) in
    let second =
      subst (λ (x : Fields). command_payload (object (stored_command n now x)) path ≡ ok (object x))
        same (payload-stored n now fs (object ws) path p) in
    (
      not_internal (get "type" ws) (codes "apply-bundle") refl client.1,
      not_internal (get "type" ws) (codes "add-files") refl client.1,
      (λ i. merged (first i) (second i)),
    )
