-- ===== src/Pending/Once.antt =====
-- A promise is settled at most once, and no promise that waits was settled.
use l4_ide.Prelude.{
  ℕ, suc, ◌+◌, ◌≤◌, ◌<◌, Bool, true, false, Option, some, List, [], ◌∷◌, ◌++◌, ◌≡◌, refl, arith,
  ◌==◌, ==_true, Map, get, set, nat_key, Option-cases, inl, inr,
}
use Prim.Native.String.{String}
use l4_ide.Pending.{
  PendingInteractions, Waiting, Early, ToolCallContext, Settlement, Decision, deny, decided,
  replied, delete, request_approval, decide, ask_user, answer, keep_where, settle_where,
  cancel_where, cancel_conversation, cancel_turn, cancel_all, new_pending,
}

abbrev pub one : Bool → ℕ
one true = 1
one false = 0

-- How many entries of the map wait with the promise.
abbrev pub waits : ℕ → Map ℕ Waiting → ℕ
waits p [] = 0
waits p ((k, w) ∷ m) = one (w.promise == p) + waits p m

-- How often the promise was settled.
abbrev pub times : ℕ → List (ℕ × Settlement) → ℕ
times p [] = 0
times p ((q, how) ∷ log) = one (q == p) + times p log

abbrev pub uses : ℕ → PendingInteractions → ℕ
uses p s = waits p s.approvals + waits p s.questions + times p s.settled

-- Each promise stands in at most one place, and those that are not yet made in none.
pub record IsOnce (s : PendingInteractions) : Type 0 where
  pub once : (p : ℕ) → uses p s ≤ 1
  pub unmade : (p : ℕ) → s.made ≤ p → uses p s ≡ 0

pub times-append : (p : ℕ) (a b : List (ℕ × Settlement)) → times p (a ++ b) ≡ times p a + times p b
times-append p [] b = omega arith
times-append p ((q, how) ∷ a) b = omega (arith, times-append p a b)

waits-delete : (p k : ℕ) (m : Map ℕ Waiting) → waits p (delete k m) ≤ waits p m
unfolding delete
waits-delete p k [] = omega arith
waits-delete p k ((j, w) ∷ m) = ground (arith, waits-delete p k m)

waits-delete_found :
    (p k : ℕ) (w : Waiting) (m : Map ℕ Waiting)
    → get k m ≡ some w
    → waits p (delete k m) + one (w.promise == p) ≡ waits p m
unfolding delete get
waits-delete_found p k w [] h = cc
waits-delete_found p k w ((j, v) ∷ m) h = ground (arith, waits-delete_found p k w m)

waits-set :
    (p k : ℕ) (w : Waiting) (m : Map ℕ Waiting)
    → waits p (set k w m) ≤ waits p m + one (w.promise == p)
unfolding set
waits-set p k w [] = omega arith
waits-set p k w ((j, v) ∷ m) = ground (arith, waits-set p k w m)

waits-keep_where :
    (p : ℕ) (hit : ToolCallContext → Bool) (how : Settlement) (m : Map ℕ Waiting)
    → waits p (keep_where hit m) + times p (settle_where hit how m) ≡ waits p m
unfolding keep_where settle_where
waits-keep_where p hit how [] = omega arith
waits-keep_where p hit how ((k, w) ∷ m) = ground (arith, waits-keep_where p hit how m)

IsOnce-made :
    {s t : PendingInteractions}
    → ((p : ℕ) → uses p t ≤ uses p s + one (s.made == p))
    → t.made ≡ suc s.made
    → IsOnce s
    → IsOnce t
IsOnce-made {s} {t} h m o = record {
  once = λ p. at_most p (h p) (o.once p) (o.unmade p);
  unmade = λ p le. none_yet p (h p) (o.unmade p) (omega (arith, m, le));
}
  where
    at_most :
        (p : ℕ)
        → uses p t ≤ uses p s + one (s.made == p)
        → uses p s ≤ 1
        → (s.made ≤ p → uses p s ≡ 0)
        → uses p t ≤ 1
    at_most p g a b = ground (arith, ==_true s.made p)

    none_yet :
        (p : ℕ)
        → uses p t ≤ uses p s + one (s.made == p)
        → (s.made ≤ p → uses p s ≡ 0)
        → s.made < p
        → uses p t ≡ 0
    none_yet p g a lt = ground (arith, ==_true s.made p)

IsOnce-kept :
    {s t : PendingInteractions}
    → ((p : ℕ) → uses p t ≤ uses p s)
    → t.made ≡ s.made
    → IsOnce s
    → IsOnce t
IsOnce-kept h m o = record {
  once = λ p. omega (arith, h p, o.once p);
  unmade = λ p le. omega (arith, h p, o.unmade p (omega (arith, m, le)));
}

request_approval-IsOnce :
    (k : ℕ) (ctx : ToolCallContext) (s : PendingInteractions)
    → IsOnce s
    → IsOnce (request_approval k ctx s).1
unfolding request_approval
request_approval-IsOnce k ctx s o = elim (Option-cases (get k s.early)) [
  | inl none_early ↦ rw none_early (
      IsOnce-made
        (λ p. omega (arith, waits-set p k (record { promise = s.made; ctx = ctx }) s.approvals))
        refl o)
  | inr (e, found) ↦ rw found (
      IsOnce-made (λ p. omega (arith, times-append p s.settled ((s.made, decided e.decision) ∷ [])))
        refl o)
]

decide-IsOnce :
    (k : ℕ) (d : Decision) (c : Option ℕ) (s : PendingInteractions)
    → IsOnce s
    → IsOnce (decide k d c s).1
unfolding decide
decide-IsOnce k d c s o = elim (Option-cases (get k s.approvals)) [
  | inl absent ↦ rw (absent, decide) (IsOnce-kept (λ p. omega arith) refl o)
  | inr (w, found) ↦
      rw (found, decide)
        (IsOnce-kept
          (λ p. omega (
            arith,
            times-append p s.settled ((w.promise, decided d) ∷ []),
            waits-delete_found p k w s.approvals found,
          ))
          refl o)
]

ask_user-IsOnce :
    (k : ℕ) (ctx : ToolCallContext) (s : PendingInteractions)
    → IsOnce s
    → IsOnce (ask_user k ctx s).1
unfolding ask_user
ask_user-IsOnce k ctx s o =
    IsOnce-made
      (λ p. omega (arith, waits-set p k (record { promise = s.made; ctx = ctx }) s.questions)) refl
      o

answer-IsOnce :
    (k : ℕ) (text : String) (s : PendingInteractions) → IsOnce s → IsOnce (answer k text s).1
unfolding answer
answer-IsOnce k text s o = elim (Option-cases (get k s.questions)) [
  | inl absent ↦ rw (absent, answer) o
  | inr (w, found) ↦
      rw (found, answer)
        (IsOnce-kept
          (λ p. omega (
            arith,
            times-append p s.settled ((w.promise, replied text) ∷ []),
            waits-delete_found p k w s.questions found,
          ))
          refl o)
]

uses-cancel_where :
    (p : ℕ) (hit : ToolCallContext → Bool) (s : PendingInteractions)
    → uses p (cancel_where hit s).1
      ≡ waits p (keep_where hit s.approvals)
        + waits p (keep_where hit s.questions)
        + times p (
            s.settled
            ++ settle_where hit (decided deny) s.approvals
            ++ settle_where hit (replied "") s.questions)
unfolding cancel_where
uses-cancel_where p hit s = refl

cancel_where-IsOnce :
    (hit : ToolCallContext → Bool) (s : PendingInteractions)
    → IsOnce s
    → IsOnce (cancel_where hit s).1
unfolding cancel_where
cancel_where-IsOnce hit s o =
    let denied = settle_where hit (decided deny) s.approvals in
    let skipped = settle_where hit (replied "") s.questions in
    IsOnce-kept
      (λ p. omega (
        arith,
        uses-cancel_where p hit s,
        times-append p (s.settled ++ denied) skipped,
        times-append p s.settled denied,
        waits-keep_where p hit (decided deny) s.approvals,
        waits-keep_where p hit (replied "") s.questions,
      ))
      refl o

IsOnce-early :
    (s : PendingInteractions) (early : Map ℕ Early) → IsOnce s → IsOnce (record s { early = early })
IsOnce-early s early o = IsOnce-kept (λ p. omega arith) refl o

-- One call of an operation.
pub data Step : PendingInteractions → PendingInteractions → Type 0 where
  requested :
      (k : ℕ) (ctx : ToolCallContext) (s : PendingInteractions)
      → Step s (request_approval k ctx s).1
  decided_on :
      (k : ℕ) (d : Decision) (c : Option ℕ) (s : PendingInteractions) → Step s (decide k d c s).1
  asked : (k : ℕ) (ctx : ToolCallContext) (s : PendingInteractions) → Step s (ask_user k ctx s).1
  answered : (k : ℕ) (text : String) (s : PendingInteractions) → Step s (answer k text s).1
  conversation_cancelled : (c : ℕ) (s : PendingInteractions) → Step s (cancel_conversation c s).1
  turn_cancelled : (t : ℕ) (s : PendingInteractions) → Step s (cancel_turn t s).1
  all_cancelled : (s : PendingInteractions) → Step s (cancel_all s).1

-- What calls lead to from the new object.
pub data Reachable : PendingInteractions → Type 0 where
  start : Reachable new_pending
  after : {s t : PendingInteractions} → Reachable s → Step s t → Reachable t

Step-IsOnce : {s t : PendingInteractions} → Step s t → IsOnce s → IsOnce t
unfolding cancel_conversation cancel_turn cancel_all
Step-IsOnce (requested k ctx s) o = request_approval-IsOnce k ctx s o
Step-IsOnce (decided_on k d c s) o = decide-IsOnce k d c s o
Step-IsOnce (asked k ctx s) o = ask_user-IsOnce k ctx s o
Step-IsOnce (answered k text s) o = answer-IsOnce k text s o
Step-IsOnce (conversation_cancelled c s) o =
    cancel_where-IsOnce (λ ctx. ctx.conversation_id == c) _ (IsOnce-early s _ o)
Step-IsOnce (turn_cancelled t s) o =
    cancel_where-IsOnce (λ ctx. ctx.turn_id == t) _ (IsOnce-early s _ o)
Step-IsOnce (all_cancelled s) o = cancel_where-IsOnce (λ ctx. true) _ (IsOnce-early s _ o)

-- In every reachable state, each promise stands in at most one of these places, and there once: among
-- the waiting approvals, among the waiting questions, or among the settled ones. So no promise is
-- settled twice, and none that waits was settled. A promise that is not yet made stands in none.
pub Reachable-IsOnce : {s : PendingInteractions} → Reachable s → IsOnce s
Reachable-IsOnce start = record { once = λ p. omega arith; unmade = λ p le. refl }
Reachable-IsOnce (after r st) = Step-IsOnce st (Reachable-IsOnce r)
