-- ===== src/Examples/Conversation.antt =====
-- A cache of two sessions, and a short dialogue.
use Prim.Native.String.{len}
use shookie.Prelude.{◌<◌, ◌≤◌, ◌≡◌, refl, none, some, List, [], ◌∷◌, arith}
use shookie.Prelude.Maps.{lookup, insert, erase}
use shookie.Conversation.Memory.{
  Message, user, assistant, Store, ok, input_too_large, input_bytes, get, set_messages, clear,
  budget_messages,
}
use shookie.Conversation.Memory.Budget.{IsBudgeted, budget_messages_lem}
use shookie.Conversation.Memory.Cache.{Inv, store-Inv}

abbrev question : Message
question = record { role = user; content = "hi" }

abbrev reply : Message
reply = record { role = assistant; content = "hello" }

-- Two messages to a session, two sessions, for a second.
abbrev small : Store
small = record {
  conversations = ("C1:1.0", record { messages = question ∷ reply ∷ []; expires = 1500 }) ∷ [];
  max_messages = 2;
  max_sessions = 2;
  ttl_ms = 1000;
}

small-Inv : Inv small
unfolding lookup
small-Inv = record { distinct = (refl, tt); bounded = omega arith; short = (omega arith, tt) }

keeps_two :
    (get 1100 "C1:2.0" (set_messages 1000 "C1:2.0" (reply ∷ question ∷ reply ∷ []) small)).1
    ≡ some (question ∷ reply ∷ [])
unfolding get set_messages lookup insert erase
keeps_two = refl

expires_at_once : (get 1500 "C1:1.0" small).1 ≡ none
unfolding get lookup
expires_at_once = refl

store-Inv_example :
    Inv (get 1100 "C1:1.0" small).0
    × Inv (set_messages 1100 "C1:1.0" (question ∷ []) small)
    × Inv (clear "C1:1.0" small)
store-Inv_example = store-Inv 1100 "C1:1.0" (question ∷ []) small (omega arith) small-Inv

keeps_turn :
    budget_messages (question ∷ reply ∷ []) "bye"
    ≡ ok (question ∷ reply ∷ record { role = user; content = "bye" } ∷ [])
unfolding budget_messages
keeps_turn = refl

budget_messages_lem_example :
    (input_bytes < len "bye" → budget_messages (question ∷ reply ∷ []) "bye" ≡ input_too_large)
    × (len "bye" ≤ input_bytes
        → (result : List Message) × (budget_messages (question ∷ reply ∷ []) "bye" ≡ ok result)
          × IsBudgeted (question ∷ reply ∷ []) "bye" result)
budget_messages_lem_example = budget_messages_lem (question ∷ reply ∷ []) "bye"
