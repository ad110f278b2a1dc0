-- ===== src/Chat/Relay.antt =====
-- `generate_chat_reply` of core/tasks/conversations.py, and `ConversationMessagesView.post` of
-- core/views/conversations.py. The events of a user's channel are a list, the newest last. The rows of
-- the task exist, the clock's answer is an argument, and Redis does not fail.
use nbe_financial_advisor_ba.Prelude.{
  ℕ, Bool, true, false, Option, none, some, List, [], ◌∷◌, ◌++◌, ◌==◌, if◌then◌else◌,
}
use nbe_financial_advisor_ba.Prelude.Text.{Text, codes}
use nbe_financial_advisor_ba.Chat.Stream.{
  Reference, Result, Body, empty, partial, full, Envelope, token, tool_call, agent_selected, done,
  error, other, malformed, Ending, exhausted, ai_service_error, Stream,
}

pub data Step : Type 0 where
  tool : (call_id tool status : Text) → Step
  agent : Text → Step

pub record Thinking : Type 0 where
  pub steps : List Step
  pub duration_ms : ℕ

pub data Sender : Type 0 where
  user assistant : Sender

pub record Message : Type 0 where
  pub id : ℕ
  pub conversation : ℕ
  pub sender : Sender
  pub content : Text
  pub widget : Option Text
  pub suggestions : List Text
  pub thinking : Option Thinking

pub data Event : Type 0 where
  chat_token : (conversation : ℕ) → Text → Event
  chat_tool_status : (conversation : ℕ) (call_id tool status : Text) → Event
  chat_agent_selected : (conversation : ℕ) → Text → Event
  chat_error : (conversation : ℕ) → Text → Event
  chat_message : Message → List Reference → Event

-- The rows, the queued tasks as pairs of conversation and message, and the channel.
pub record Room : Type 0 where
  pub messages : List Message
  pub references : List (ℕ × Reference)
  pub saved : List ℕ
  pub queue : List (ℕ × ℕ)
  pub events : List Event

pub data Exit : Type 0 where
  returned raised : Exit

-- How the loop ends: with the result, an AIServiceError, or another exception.
pub data Turn : Type 0 where
  answered : Body → Turn
  failed : Text → Turn
  crashed : Turn

unfoldable pub publish : Event → Room → Room
publish e room = record room { events = room.events ++ (e ∷ []) }

unfoldable pub ended : Ending → Turn
ended exhausted = failed (codes "AI service chat ended without a result")
ended (ai_service_error message) = failed message

-- A "done" whose data is null leaves `result` at `None`.
unfoldable pub result_of : Body → Turn
result_of empty = failed (codes "AI service chat ended without a result")
result_of partial = answered partial
result_of (full r) = answered (full r)

-- `envelope["data"].get("message", "AI service chat failed")`
abbrev pub or_chat_failed : Option Text → Text
or_chat_failed none = codes "AI service chat failed"
or_chat_failed (some message) = message

-- `thinking_json`: the clock was started with the first step.
abbrev pub thinking_of : (duration_ms : ℕ) → List Step → Option Thinking
thinking_of duration_ms [] = none
thinking_of duration_ms (s ∷ steps) = some (record { steps = s ∷ steps; duration_ms = duration_ms })

-- `result.get("suggestions") or []`
abbrev pub or_nothing : Option (List Text) → List Text
or_nothing none = []
or_nothing (some suggestions) = suggestions

-- The loop of `add_reference`: whether it ends, and the rows of the message.
unfoldable pub add_references :
    (message : ℕ) → List (Option Reference) → List (ℕ × Reference) → Bool × List (ℕ × Reference)
add_references message [] rows = (true, rows)
add_references message (none ∷ refs) rows = (false, rows)
add_references message (some r ∷ refs) rows =
    add_references message refs (rows ++ ((message, r) ∷ []))

unfoldable pub references_of : (message : ℕ) → List (ℕ × Reference) → List Reference
references_of message [] = []
references_of message ((m, r) ∷ rows) =
    let rest = references_of message rows in if m == message then r ∷ rest else rest

module _ (conversation : ℕ) where
  -- The loop of the task: how it ends, the steps, and the room.
  unfoldable pub relay : List Envelope → Ending → List Step → Room → Turn × List Step × Room
  relay [] ending steps room = (ended ending, steps, room)
  relay (token t ∷ es) ending steps room =
      relay es ending steps (publish (chat_token conversation t) room)
  relay (tool_call call_id name status ∷ es) ending steps room =
      relay es ending (steps ++ (tool call_id name status ∷ []))
        (publish (chat_tool_status conversation call_id name status) room)
  relay (agent_selected name ∷ es) ending steps room =
      relay es ending (steps ++ (agent name ∷ []))
        (publish (chat_agent_selected conversation name) room)
  relay (done body ∷ es) ending steps room = (result_of body, steps, room)
  relay (error message ∷ es) ending steps room = (failed (or_chat_failed message), steps, room)
  relay (other ∷ es) ending steps room = relay es ending steps room
  relay (malformed ∷ es) ending steps room = (crashed, steps, room)

  abbrev pub reply_of : (fresh duration_ms : ℕ) → List Step → Result → Message
  reply_of fresh duration_ms steps r = record {
    id = fresh;
    conversation = conversation;
    sender = assistant;
    content = r.content;
    widget = r.widget;
    suggestions = or_nothing r.suggestions;
    thinking = thinking_of duration_ms steps;
  }

  -- From `add_reference` on, the message being stored.
  unfoldable pub announce : Message → Option (List (Option Reference)) → Room → Exit × Room
  announce m none room = (raised, room)
  announce m (some refs) room =
      let (complete, rows) = add_references m.id refs room.references in
      let room' = record room { references = rows } in
      if complete
      then (
        returned,
        publish (chat_message m (references_of m.id rows))
            (record room' { saved = room'.saved ++ (conversation ∷ []) }),
      )
      else (raised, room')

  unfoldable pub finish : (fresh duration_ms : ℕ) → Turn × List Step × Room → Exit × Room
  finish fresh duration_ms (failed message, steps, room) =
      (returned, publish (chat_error conversation message) room)
  finish fresh duration_ms (crashed, steps, room) = (raised, room)
  finish fresh duration_ms (answered empty, steps, room) = (raised, room)
  finish fresh duration_ms (answered partial, steps, room) = (raised, room)
  finish fresh duration_ms (answered (full r), steps, room) =
      let m = reply_of fresh duration_ms steps r in
      announce m r.references (record room { messages = room.messages ++ (m ∷ []) })

  -- `generate_chat_reply`, on the stream of the client
  unfoldable pub generate_chat_reply : (fresh duration_ms : ℕ) → Stream → Room → Exit × Room
  generate_chat_reply fresh duration_ms (es, ending) room =
      finish fresh duration_ms (relay es ending [] room)

  -- `ConversationMessagesView.post`, on a conversation of the user
  unfoldable pub post_message : (fresh : ℕ) (content : Text) → Room → Message × Room
  post_message fresh content room =
      let m : Message = record {
        id = fresh;
        conversation = conversation;
        sender = user;
        content = content;
        widget = none;
        suggestions = [];
        thinking = none;
      } in
      (
        m,
        record room {
          messages = room.messages ++ (m ∷ []);
          saved = room.saved ++ (conversation ∷ []);
          queue = room.queue ++ ((conversation, fresh) ∷ []);
        },
      )
