-- ===== src/Pending.antt =====
-- ts-shared/legalese-agent/src/pending-interactions.ts: approvals and questions that wait for the user.
-- An id is a number, since the code only compares ids. A promise is a number, in the order in which the
-- promises were made; `settled` lists the promises that were resolved, with what they resolved to.
pub mod Once
pub mod Scope
use Prim.Native.String.{String}
use l4_ide.Prelude.{
  ℕ, suc, ◌+◌, Bool, true, false, ◌&&◌, not, Option, none, some, List, [], ◌∷◌, ◌++◌, ◌==◌,
  if◌then◌else◌, Map, get, set, nat_key, filter, map, any, length,
}

pub data Decision : Type 0 where
  allow deny : Decision

pub record ToolCallContext : Type 0 where
  pub conversation_id : ℕ
  pub turn_id : ℕ

-- A waiting approval or question: the promise that its `resolve` settles, and where it was raised.
pub record Waiting : Type 0 where
  pub promise : ℕ
  pub ctx : ToolCallContext

pub record Early : Type 0 where
  pub decision : Decision
  pub conversation_id : Option ℕ

pub data Settlement : Type 0 where
  decided : Decision → Settlement
  replied : String → Settlement

pub record PendingInteractions : Type 0 where
  pub approvals : Map ℕ Waiting
  pub questions : Map ℕ Waiting
  pub early : Map ℕ Early
  pub made : ℕ
  pub settled : List (ℕ × Settlement)

abbrev pub new_pending : PendingInteractions
new_pending = record { approvals = []; questions = []; early = []; made = 0; settled = [] }

-- `m.delete(k)`
unfoldable pub delete {ℓ} : {V : Type ℓ} → ℕ → Map ℕ V → Map ℕ V
delete k [] = []
delete k ((j, v) ∷ m) = if k == j then m else (j, v) ∷ delete k m

-- `requestApproval`: the promise, and the state after the call.
unfoldable pub request_approval :
    ℕ → ToolCallContext → PendingInteractions → ℕ × PendingInteractions
unfolding get set delete
request_approval call_id ctx s = (s.made, with_early (get call_id s.early))
  where
    with_early : Option Early → PendingInteractions
    with_early none = record s {
      approvals = set call_id (record { promise = s.made; ctx = ctx }) s.approvals;
      made = suc s.made;
    }
    with_early (some e) = record s {
      early = delete call_id s.early;
      made = suc s.made;
      settled = s.settled ++ ((s.made, decided e.decision) ∷ []);
    }

unfoldable pub decide : ℕ → Decision → Option ℕ → PendingInteractions → Bool × PendingInteractions
unfolding get set delete
decide call_id decision conversation_id s = elim (get call_id s.approvals) [
  | none ↦ (
    false,
    record s {
      early =
          set call_id (record { decision = decision; conversation_id = conversation_id }) s.early;
    },
  )
  | some p ↦ (
    true,
    record s {
      approvals = delete call_id s.approvals;
      settled = s.settled ++ ((p.promise, decided decision) ∷ []);
    },
  )
]

unfoldable pub ask_user : ℕ → ToolCallContext → PendingInteractions → ℕ × PendingInteractions
unfolding set
ask_user call_id ctx s = (
  s.made,
  record s {
    questions = set call_id (record { promise = s.made; ctx = ctx }) s.questions;
    made = suc s.made;
  },
)

unfoldable pub answer : ℕ → String → PendingInteractions → Bool × PendingInteractions
unfolding get delete
answer call_id text s = elim (get call_id s.questions) [
  | none ↦ (false, s)
  | some p ↦ (
    true,
    record s {
      questions = delete call_id s.questions;
      settled = s.settled ++ ((p.promise, replied text) ∷ []);
    },
  )
]

unfoldable pub context_for : ℕ → PendingInteractions → Option ToolCallContext
unfolding get
context_for call_id s = elim (get call_id s.approvals) [
  | some p ↦ some p.ctx
  | none ↦ elim (get call_id s.questions) [ some p ↦ some p.ctx | none ↦ none ]
]

abbrev pub pending_approval_count : PendingInteractions → ℕ
pending_approval_count s = length s.approvals

abbrev pub pending_question_count : PendingInteractions → ℕ
pending_question_count s = length s.questions

-- The entries that go on waiting, and the promises of those that do not.
unfoldable pub keep_where : (ToolCallContext → Bool) → Map ℕ Waiting → Map ℕ Waiting
keep_where hit [] = []
keep_where hit ((k, p) ∷ m) = if hit p.ctx then keep_where hit m else (k, p) ∷ keep_where hit m

unfoldable pub settle_where :
    (ToolCallContext → Bool) → Settlement → Map ℕ Waiting → List (ℕ × Settlement)
settle_where hit how [] = []
settle_where hit how ((k, p) ∷ m) =
    if hit p.ctx then (p.promise, how) ∷ settle_where hit how m else settle_where hit how m

unfoldable pub cancel_where :
    (ToolCallContext → Bool) → PendingInteractions → ℕ × PendingInteractions
unfolding keep_where settle_where
cancel_where hit s =
    let denied = settle_where hit (decided deny) s.approvals in
    let skipped = settle_where hit (replied "") s.questions in
    (
      length denied + length skipped,
      record s {
        approvals = keep_where hit s.approvals;
        questions = keep_where hit s.questions;
        settled = s.settled ++ denied ++ skipped;
      },
    )

-- The early decisions without those that are attributed to one of the conversations.
unfoldable pub drop_early : (ℕ → Bool) → Map ℕ Early → Map ℕ Early
drop_early hit [] = []
drop_early hit ((k, e) ∷ m) =
    if attributed e.conversation_id then drop_early hit m else (k, e) ∷ drop_early hit m
  where
    attributed : Option ℕ → Bool
    attributed none = false
    attributed (some c) = hit c

unfoldable pub cancel_conversation : ℕ → PendingInteractions → ℕ × PendingInteractions
unfolding cancel_where drop_early
cancel_conversation conversation_id s =
    cancel_where (λ ctx. ctx.conversation_id == conversation_id)
      (record s { early = drop_early (λ c. c == conversation_id) s.early })

-- The conversations in which the turn raised something that waits.
unfoldable pub conversations_of : ℕ → Map ℕ Waiting → List ℕ
conversations_of turn_id [] = []
conversations_of turn_id ((k, p) ∷ m) =
    if p.ctx.turn_id == turn_id
    then p.ctx.conversation_id ∷ conversations_of turn_id m
    else conversations_of turn_id m

unfoldable pub cancel_turn : ℕ → PendingInteractions → ℕ × PendingInteractions
unfolding cancel_where drop_early conversations_of
cancel_turn turn_id s =
    let conversations =
      conversations_of turn_id s.approvals ++ conversations_of turn_id s.questions in
    cancel_where (λ ctx. ctx.turn_id == turn_id)
      (record s { early = drop_early (λ c. any (λ d. c == d) conversations) s.early })

unfoldable pub cancel_all : PendingInteractions → ℕ × PendingInteractions
unfolding cancel_where
cancel_all s = cancel_where (λ ctx. true) (record s { early = [] })
