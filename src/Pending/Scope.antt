-- ===== src/Pending/Scope.antt =====
-- What a cancellation reaches, and what becomes of an early decision.
use l4_ide.Prelude.{
  ℕ, suc, ◌+◌, Bool, true, false, Option, none, some, [], ◌∷◌, ◌++◌, ◌≡◌, refl, sym, ◌∙◌, arith,
  ◌==◌, ==_refl, ==_true, if◌then◌else◌, Map, get, set, get-set, nat_key, length, length-append,
  any, ap,
}
use l4_ide.DecisionQuery.Meaning.{IsMap}
use l4_ide.Pending.{
  PendingInteractions, Waiting, Early, ToolCallContext, Settlement, Decision, deny, decided,
  replied, delete, request_approval, decide, keep_where, settle_where, cancel_where, drop_early,
  cancel_conversation, cancel_turn, conversations_of,
}

-- An entry, unless its context is hit.
abbrev pub unless : (ToolCallContext → Bool) → Option Waiting → Option Waiting
unless hit none = none
unless hit (some w) = if hit w.ctx then none else some w

get-keep_where :
    (hit : ToolCallContext → Bool) (k : ℕ) (m : Map ℕ Waiting)
    → IsMap m
    → get k (keep_where hit m) ≡ unless hit (get k m)
unfolding get keep_where
get-keep_where hit k [] n = refl
get-keep_where hit k ((j, w) ∷ m) n =
    let ih = get-keep_where hit k m n.1 in ground (arith, ih, n.0, ==_true k j)

length-keep_where :
    (hit : ToolCallContext → Bool) (how : Settlement) (m : Map ℕ Waiting)
    → length (keep_where hit m) + length (settle_where hit how m) ≡ length m
unfolding keep_where settle_where
length-keep_where hit how [] = omega arith
length-keep_where hit how ((k, w) ∷ m) = ground (arith, length-keep_where hit how m)

-- What a cancellation does: exactly the entries that are hit go, each with one settlement, and the
-- count is the number of them.
pub record Cancels (hit : ToolCallContext → Bool) (s : PendingInteractions) (n : ℕ)
    (t : PendingInteractions) : Type 0 where
  pub approval : (k : ℕ) → get k t.approvals ≡ unless hit (get k s.approvals)
  pub question : (k : ℕ) → get k t.questions ≡ unless hit (get k s.questions)
  pub counted :
      length t.approvals + length t.questions + n ≡ length s.approvals + length s.questions
  pub settlements : length t.settled ≡ length s.settled + n
  pub log :
      t.settled
      ≡ s.settled
        ++ settle_where hit (decided deny) s.approvals
        ++ settle_where hit (replied "") s.questions

cancel_where-Cancels :
    (hit : ToolCallContext → Bool) (s : PendingInteractions)
    → IsMap s.approvals
    → IsMap s.questions
    → Cancels hit s (cancel_where hit s).0 (cancel_where hit s).1
unfolding cancel_where
cancel_where-Cancels hit s m n =
    let denied = settle_where hit (decided deny) s.approvals in
    let skipped = settle_where hit (replied "") s.questions in
    let a = length-keep_where hit (decided deny) s.approvals in
    let b = length-keep_where hit (replied "") s.questions in
    let c : length (s.settled ++ denied ++ skipped)
        ≡ length s.settled + (length denied + length skipped) =
      omega (arith, length-append (s.settled ++ denied) skipped, length-append s.settled denied) in
    record {
      approval = λ k. get-keep_where hit k s.approvals m;
      question = λ k. get-keep_where hit k s.questions n;
      counted = omega (arith, a, b);
      settlements = c;
      log = refl;
    }

-- Cancelling a conversation, where each call waits at most once as an approval and once as a question,
-- denies the approvals and skips the questions of that conversation and leaves all others waiting; it
-- returns how many it cancelled, and as many promises are settled.
pub cancel_conversation-Cancels :
    (c : ℕ) (s : PendingInteractions)
    → IsMap s.approvals
    → IsMap s.questions
    → Cancels
        (λ ctx. ctx.conversation_id == c)
        s
        (cancel_conversation c s).0
        (cancel_conversation c s).1
unfolding cancel_conversation
cancel_conversation-Cancels c s m n =
    let k =
      cancel_where-Cancels (λ ctx. ctx.conversation_id == c)
        (record s { early = drop_early (λ d. d == c) s.early }) m n in
    record {
      approval = k.approval;
      question = k.question;
      counted = k.counted;
      settlements = k.settlements;
      log = k.log;
    }

-- Cancelling a turn does the same to what the turn raised.
pub cancel_turn-Cancels :
    (turn : ℕ) (s : PendingInteractions)
    → IsMap s.approvals
    → IsMap s.questions
    → Cancels (λ ctx. ctx.turn_id == turn) s (cancel_turn turn s).0 (cancel_turn turn s).1
unfolding cancel_turn
cancel_turn-Cancels turn s m n =
    let k =
      cancel_where-Cancels (λ ctx. ctx.turn_id == turn)
        (record s {
          early =
              drop_early
                (λ x.
                  any (λ y. x == y)
                    (conversations_of turn s.approvals ++ conversations_of turn s.questions))
                s.early;
        })
        m n in
    record {
      approval = k.approval;
      question = k.question;
      counted = k.counted;
      settlements = k.settlements;
      log = k.log;
    }

decide_early-run :
    (k : ℕ) (d : Decision) (c : Option ℕ) (s : PendingInteractions)
    → get k s.approvals ≡ none
    → decide k d c s
      ≡ (false, record s { early = set k (record { decision = d; conversation_id = c }) s.early })
unfolding decide
decide_early-run k d c s h = rw (h, decide) refl

request_early-run :
    (k : ℕ) (ctx : ToolCallContext) (s : PendingInteractions) {e : Early}
    → get k s.early ≡ some e
    → request_approval k ctx s ≡ (
      s.made,
      record s {
        early = delete k s.early;
        made = suc s.made;
        settled = s.settled ++ ((s.made, decided e.decision) ∷ []);
      },
    )
unfolding request_approval
request_early-run k ctx s h = rw (h, request_approval) refl

request_new-run :
    (k : ℕ) (ctx : ToolCallContext) (s : PendingInteractions)
    → get k s.early ≡ none
    → request_approval k ctx s ≡ (
      s.made,
      record s {
        approvals = set k (record { promise = s.made; ctx = ctx }) s.approvals;
        made = suc s.made;
      },
    )
unfolding request_approval
request_new-run k ctx s h = rw (h, request_approval) refl

decide_waiting-run :
    (k : ℕ) (d : Decision) (c : Option ℕ) (s : PendingInteractions) {w : Waiting}
    → get k s.approvals ≡ some w
    → decide k d c s ≡ (
      true,
      record s {
        approvals = delete k s.approvals;
        settled = s.settled ++ ((w.promise, decided d) ∷ []);
      },
    )
unfolding decide
decide_waiting-run k d c s h = rw (h, decide) refl

get-set_self {ℓ} : {V : Type ℓ} (k : ℕ) (v : V) (m : Map ℕ V) → get k (set k v m) ≡ some v
get-set_self k v m = let e = ==_refl k in get-set k k v m ∙ rw e refl

-- For a call that neither waits nor has an early decision, deciding first and requesting then, and
-- requesting first and deciding then, both settle the promise of the request with the decision; only the
-- second reports that an approval was waiting.
pub decide_either_order :
    (k : ℕ) (d : Decision) (c : Option ℕ) (ctx : ToolCallContext) (s : PendingInteractions)
    → get k s.approvals ≡ none
    → get k s.early ≡ none
    → let early = decide k d c s in
      let late = request_approval k ctx s in
      (early.0 ≡ false)
      × ((request_approval k ctx early.1).0 ≡ late.0)
      × ((request_approval k ctx early.1).1.settled ≡ s.settled ++ ((late.0, decided d) ∷ []))
      × ((decide k d c late.1).0 ≡ true)
      × ((decide k d c late.1).1.settled ≡ s.settled ++ ((late.0, decided d) ∷ []))
decide_either_order k d c ctx s quiet fresh =
    let e1 = decide_early-run k d c s quiet in
    let e2 = request_new-run k ctx s fresh in
    let noted : Early = record { decision = d; conversation_id = c } in
    let waiting : Waiting = record { promise = s.made; ctx = ctx } in
    let e3 =
      request_early-run k ctx (record s { early = set k noted s.early })
        (get-set_self k noted s.early) in
    let e4 =
      decide_waiting-run k d c
        (record s { approvals = set k waiting s.approvals; made = suc s.made })
        (get-set_self k waiting s.approvals) in
    (
      ap (λ r. r.0) e1,
      ap (λ r. (request_approval k ctx r.1).0) e1 ∙ ap (λ r. r.0) e3 ∙ sym (ap (λ r. r.0) e2),
      ap (λ r. (request_approval k ctx r.1).1.settled) e1
          ∙ ap (λ r. r.1.settled) e3
          ∙ sym (ap (λ r. s.settled ++ ((r.0, decided d) ∷ [])) e2),
      ap (λ r. (decide k d c r.1).0) e2 ∙ ap (λ r. r.0) e4,
      ap (λ r. (decide k d c r.1).1.settled) e2
          ∙ ap (λ r. r.1.settled) e4
          ∙ sym (ap (λ r. s.settled ++ ((r.0, decided d) ∷ [])) e2),
    )
