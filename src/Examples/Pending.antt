-- ===== src/Examples/Pending.antt =====
-- The theorems on pending interactions, at a small history.
use l4_ide.Prelude.{true, false, [], ◌∷◌, ◌++◌, none, ◌≡◌, refl, get, nat_key, ◌==◌}
use l4_ide.Pending.{
  PendingInteractions, ToolCallContext, allow, deny, decided, new_pending, request_approval, decide,
  ask_user, cancel_conversation, cancel_turn,
}
use l4_ide.Pending.Once.{
  IsOnce, Reachable, start, after, requested, asked, decided_on, Reachable-IsOnce,
}
use l4_ide.Pending.Scope.{
  Cancels, cancel_conversation-Cancels, cancel_turn-Cancels, decide_either_order,
}

abbrev here : ToolCallContext
here = record { conversation_id = 1; turn_id = 10 }

abbrev there : ToolCallContext
there = record { conversation_id = 2; turn_id = 20 }

-- Call 5 waits for an approval here, call 6 for an answer there, and call 5 is then allowed.
abbrev history : PendingInteractions
history = (decide 5 allow none (ask_user 6 there (request_approval 5 here new_pending).1).1).1

history-Reachable : Reachable history
history-Reachable =
    after (after (after start (requested 5 here _)) (asked 6 there _)) (decided_on 5 allow none _)

once_example : IsOnce history
once_example = Reachable-IsOnce history-Reachable

abbrev waiting_two : PendingInteractions
waiting_two = record {
  approvals =
      (5, record { promise = 0; ctx = here }) ∷ (7, record { promise = 2; ctx = there }) ∷ [];
  questions = (6, record { promise = 1; ctx = there }) ∷ [];
  early = [];
  made = 3;
  settled = [];
}

cancel_conversation_example :
    Cancels
      (λ ctx. ctx.conversation_id == 2)
      waiting_two
      (cancel_conversation 2 waiting_two).0
      (cancel_conversation 2 waiting_two).1
cancel_conversation_example =
    cancel_conversation-Cancels 2 waiting_two (unfold get in (refl, (refl, tt)))
      (unfold get in (refl, tt))

cancel_turn_example :
    Cancels
      (λ ctx. ctx.turn_id == 10)
      waiting_two
      (cancel_turn 10 waiting_two).0
      (cancel_turn 10 waiting_two).1
cancel_turn_example =
    cancel_turn-Cancels 10 waiting_two (unfold get in (refl, (refl, tt))) (unfold get in (refl, tt))

either_order_example :
    let early = decide 9 deny none waiting_two in
    let late = request_approval 9 here waiting_two in
    (early.0 ≡ false)
    × ((request_approval 9 here early.1).0 ≡ late.0)
    × ((request_approval 9 here early.1).1.settled
        ≡ waiting_two.settled ++ ((late.0, decided deny) ∷ []))
    × ((decide 9 deny none late.1).0 ≡ true)
    × ((decide 9 deny none late.1).1.settled ≡ waiting_two.settled ++ ((late.0, decided deny) ∷ []))
either_order_example =
    decide_either_order 9 deny none here waiting_two (unfold get in refl) (unfold get in refl)
