-- ===== src/Chat/Transcript.antt =====
-- What a user sees of one reply: the task as a whole, in place of its loops and its store.
use nbe_financial_advisor_ba.Prelude.{
  ℕ, ◌≡◌, refl, ◌∙◌, Option, none, some, List, [], ◌∷◌, ◌++◌, map,
}
use nbe_financial_advisor_ba.Prelude.Text.{Text, codes}
use mathlib.Core.List.{append-nil, append_assoc}
use nbe_financial_advisor_ba.Chat.Stream.{
  Reference, Result, Body, empty, partial, full, Envelope, token, tool_call, agent_selected, done,
  error, other, malformed, Ending, exhausted, ai_service_error,
}
use nbe_financial_advisor_ba.Chat.Relay.{
  Step, tool, agent, Event, chat_token, chat_tool_status, chat_agent_selected, chat_error,
  chat_message, Room, Turn, failed, crashed, publish, ended, result_of, or_chat_failed, relay,
  reply_of,
}

-- What the envelopes before the first terminal one show, and the steps that they add.
unfoldable pub said : (conversation : ℕ) → List Envelope → List Event
said c [] = []
said c (token t ∷ es) = chat_token c t ∷ said c es
said c (tool_call call_id name status ∷ es) = chat_tool_status c call_id name status ∷ said c es
said c (agent_selected name ∷ es) = chat_agent_selected c name ∷ said c es
said c (other ∷ es) = said c es
said c (done body ∷ es) = []
said c (error message ∷ es) = []
said c (malformed ∷ es) = []

unfoldable pub steps_of : List Envelope → List Step
steps_of [] = []
steps_of (token t ∷ es) = steps_of es
steps_of (tool_call call_id name status ∷ es) = tool call_id name status ∷ steps_of es
steps_of (agent_selected name ∷ es) = agent name ∷ steps_of es
steps_of (other ∷ es) = steps_of es
steps_of (done body ∷ es) = []
steps_of (error message ∷ es) = []
steps_of (malformed ∷ es) = []

-- A reply with its references, or the text of a failure.
pub data Conclusion : Type 0 where
  reply : Result → List Reference → Conclusion
  failure : Text → Conclusion

unfoldable pub all_of : List (Option Reference) → Option (List Reference)
all_of [] = some []
all_of (none ∷ refs) = none
all_of (some r ∷ refs) = add r (all_of refs)
  where
    add : Reference → Option (List Reference) → Option (List Reference)
    add r none = none
    add r (some rs) = some (r ∷ rs)

unfoldable pub concluded : Result → Option (List Reference) → Option Conclusion
concluded r none = none
concluded r (some refs) = some (reply r refs)

unfoldable pub refs_of : Option (List (Option Reference)) → Option (List Reference)
refs_of none = none
refs_of (some refs) = all_of refs

unfoldable pub conclusion_of : Body → Option Conclusion
conclusion_of empty = some (failure (codes "AI service chat ended without a result"))
conclusion_of partial = none
conclusion_of (full r) = concluded r (refs_of r.references)

unfoldable pub ending_text : Ending → Text
ending_text exhausted = codes "AI service chat ended without a result"
ending_text (ai_service_error message) = message

-- What the first terminal envelope says, or the end of the stream; nothing when it cannot be read.
unfoldable pub conclusion : List Envelope → Ending → Option Conclusion
conclusion [] ending = some (failure (ending_text ending))
conclusion (token t ∷ es) ending = conclusion es ending
conclusion (tool_call call_id name status ∷ es) ending = conclusion es ending
conclusion (agent_selected name ∷ es) ending = conclusion es ending
conclusion (other ∷ es) ending = conclusion es ending
conclusion (done body ∷ es) ending = conclusion_of body
conclusion (error message ∷ es) ending = some (failure (or_chat_failed message))
conclusion (malformed ∷ es) ending = none

abbrev pub with_message : ℕ → Reference → ℕ × Reference
with_message message r = (message, r)

-- The room after a reply that can be read.
unfoldable pub room_after : (c fresh duration_ms : ℕ) → List Envelope → Conclusion → Room → Room
room_after c fresh duration_ms es (failure message) room = record room {
  events = room.events ++ (said c es ++ (chat_error c message ∷ []));
}
room_after c fresh duration_ms es (reply r refs) room =
    let m = reply_of c fresh duration_ms (steps_of es) r in
    record room {
      messages = room.messages ++ (m ∷ []);
      references = room.references ++ map (with_message fresh) refs;
      saved = room.saved ++ (c ∷ []);
      events = room.events ++ (said c es ++ (chat_message m refs ∷ []));
    }

-- How the loop ends, without the rest.
unfoldable pub turn_of : List Envelope → Ending → Turn
turn_of [] ending = ended ending
turn_of (token t ∷ es) ending = turn_of es ending
turn_of (tool_call call_id name status ∷ es) ending = turn_of es ending
turn_of (agent_selected name ∷ es) ending = turn_of es ending
turn_of (other ∷ es) ending = turn_of es ending
turn_of (done body ∷ es) ending = result_of body
turn_of (error message ∷ es) ending = failed (or_chat_failed message)
turn_of (malformed ∷ es) ending = crashed

abbrev pub add_events : List Event → Room → Room
add_events new room = record room { events = room.events ++ new }

-- The loop in one equation.
pub relay_lem :
    (c : ℕ) (es : List Envelope) (ending : Ending) (steps : List Step) (room : Room)
    → relay c es ending steps room
      ≡ (turn_of es ending, steps ++ steps_of es, add_events (said c es) room)
unfolding relay turn_of steps_of said publish
relay_lem c [] ending steps room = rw (append-nil, append-nil) refl
relay_lem c (token t ∷ es) ending steps room =
    relay_lem c es ending steps (publish (chat_token c t) room) ∙ rw (append_assoc) refl
relay_lem c (tool_call call_id name status ∷ es) ending steps room =
    relay_lem c es ending (steps ++ (tool call_id name status ∷ []))
      (publish (chat_tool_status c call_id name status) room)
    ∙ rw (append_assoc, append_assoc) refl
relay_lem c (agent_selected name ∷ es) ending steps room =
    relay_lem c es ending (steps ++ (agent name ∷ [])) (publish (chat_agent_selected c name) room)
    ∙ rw (append_assoc, append_assoc) refl
relay_lem c (other ∷ es) ending steps room = relay_lem c es ending steps room
relay_lem c (done body ∷ es) ending steps room = rw (append-nil, append-nil) refl
relay_lem c (error message ∷ es) ending steps room = rw (append-nil, append-nil) refl
relay_lem c (malformed ∷ es) ending steps room = rw (append-nil, append-nil) refl
