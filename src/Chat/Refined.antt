-- ===== src/Chat/Refined.antt =====
-- The task against its transcript: `generate_chat_reply` of core/tasks/conversations.py.
use nbe_financial_advisor_ba.Prelude.{
  ℕ, ◌≡◌, refl, sym, ◌∙◌, true, false, Option, none, some, List, [], ◌∷◌, ◌++◌, map, ◌==◌, arith,
  inl, inr, Bool-cases, Option-cases,
}
use mathlib.Core.List.{append-nil, append_assoc}
use nbe_financial_advisor_ba.Chat.Stream.{
  Reference, Result, Body, empty, partial, full, Envelope, token, tool_call, agent_selected, done,
  error, other, malformed, Ending, exhausted, ai_service_error,
}
use nbe_financial_advisor_ba.Chat.Relay.{
  Room, returned, raised, Turn, answered, failed, crashed, Message, publish, ended, result_of,
  reply_of, add_references, references_of, announce, finish, generate_chat_reply,
}
use nbe_financial_advisor_ba.Chat.Transcript.{
  said, steps_of, Conclusion, reply, failure, all_of, concluded, refs_of, conclusion_of, conclusion,
  ending_text, with_message, room_after, turn_of, add_events, relay_lem,
}

all_of-inv :
    (r : Reference) (refs : List (Option Reference)) (rs : List Reference)
    (complete : all_of (some r ∷ refs) ≡ some rs)
    → (rs' : List Reference) × (all_of refs ≡ some rs') × (rs ≡ r ∷ rs')
unfolding all_of
all_of-inv r refs rs complete = elim (Option-cases (all_of refs)) [
  | inl missing ↦ grind (arith, missing, complete)
  | inr (rs', found) ↦ (rs', found, grind (arith, found, complete))
]

add_references_complete :
    (m : ℕ) (refs : List (Option Reference)) (rs : List Reference) (rows : List (ℕ × Reference))
    (complete : all_of refs ≡ some rs)
    → add_references m refs rows ≡ (true, rows ++ map (with_message m) rs)
unfolding add_references all_of
add_references_complete m [] [] rows complete = rw (append-nil) refl
add_references_complete m [] (r ∷ rs) rows complete = grind (arith, complete)
add_references_complete m (none ∷ refs) rs rows complete = grind (arith, complete)
add_references_complete m (some r ∷ refs) rs rows complete =
    let (rs', found, same) = all_of-inv r refs rs complete in
    add_references_complete m refs rs' (rows ++ ((m, r) ∷ [])) found ∙ rw (same, append_assoc) refl

add_references_incomplete :
    (m : ℕ) (refs : List (Option Reference)) (rows : List (ℕ × Reference))
    (incomplete : all_of refs ≡ none)
    → (add_references m refs rows).0 ≡ false
unfolding add_references all_of
add_references_incomplete m [] rows incomplete = grind (arith, incomplete)
add_references_incomplete m (none ∷ refs) rows incomplete = refl
add_references_incomplete m (some r ∷ refs) rows incomplete = elim (Option-cases (all_of refs)) [
  | inl missing ↦ add_references_incomplete m refs (rows ++ ((m, r) ∷ [])) missing
  | inr (rs', found) ↦ grind (arith, found, incomplete)
]

references_of-map : (m : ℕ) (rs : List Reference) → references_of m (map (with_message m) rs) ≡ rs
unfolding references_of
references_of-map m [] = refl
references_of-map m (r ∷ rs) = grind (arith, references_of-map m rs)

references_of-append :
    (m : ℕ) (rows new : List (ℕ × Reference))
    → references_of m (rows ++ new) ≡ references_of m rows ++ references_of m new
unfolding references_of
references_of-append m [] new = refl
references_of-append m ((k, r) ∷ rows) new = elim (Bool-cases (k == m)) [
  | inl same ↦ rw (same, references_of-append m rows new) refl
  | inr other' ↦ rw (other', references_of-append m rows new) refl
]

-- What the end of the loop amounts to.
abbrev concluded_by : Turn → Option Conclusion
concluded_by (answered empty) = none
concluded_by (answered partial) = none
concluded_by (answered (full r)) = concluded r (refs_of r.references)
concluded_by (failed message) = some (failure message)
concluded_by crashed = none

conclusion_of-result_of : (body : Body) → conclusion_of body ≡ concluded_by (result_of body)
unfolding conclusion_of result_of
conclusion_of-result_of empty = refl
conclusion_of-result_of partial = refl
conclusion_of-result_of (full r) = refl

conclusion-turn_of :
    (es : List Envelope) (ending : Ending) → conclusion es ending ≡ concluded_by (turn_of es ending)
unfolding conclusion turn_of ended ending_text
conclusion-turn_of [] exhausted = refl
conclusion-turn_of [] (ai_service_error message) = refl
conclusion-turn_of (token t ∷ es) ending = conclusion-turn_of es ending
conclusion-turn_of (tool_call call_id name status ∷ es) ending = conclusion-turn_of es ending
conclusion-turn_of (agent_selected name ∷ es) ending = conclusion-turn_of es ending
conclusion-turn_of (other ∷ es) ending = conclusion-turn_of es ending
conclusion-turn_of (done body ∷ es) ending = conclusion_of-result_of body
conclusion-turn_of (error message ∷ es) ending = refl
conclusion-turn_of (malformed ∷ es) ending = refl

module _ (c fresh duration_ms : ℕ) (es : List Envelope) (room : Room) where
  -- The room when the loop ends.
  abbrev heard : Room
  heard = add_events (said c es) room

  announce_complete :
      (r : Result) (o : Option (List (Option Reference))) (conc : Conclusion)
      (readable : concluded r (refs_of o) ≡ some conc)
      (unused : references_of fresh room.references ≡ [])
      → (let m = reply_of c fresh duration_ms (steps_of es) r in
          announce c m o (record heard { messages = room.messages ++ (m ∷ []) }))
        ≡ (returned, room_after c fresh duration_ms es conc room)
  unfolding concluded refs_of announce room_after publish
  announce_complete r none conc readable unused = grind (arith, readable)
  announce_complete r (some refs) conc readable unused = elim (Option-cases (all_of refs)) [
    | inl missing ↦ grind (arith, missing, readable)
    | inr (rs, found) ↦
        let same : conc ≡ reply r rs = grind (arith, found, readable) in
        rw
          (
            add_references_complete fresh refs rs room.references found,
            same,
            references_of-append,
            unused,
            references_of-map,
            append_assoc,
          )
          refl
  ]

  finish_readable :
      (t : Turn) (conc : Conclusion) (readable : concluded_by t ≡ some conc)
      (unused : references_of fresh room.references ≡ [])
      → finish c fresh duration_ms (t, steps_of es, heard)
        ≡ (returned, room_after c fresh duration_ms es conc room)
  unfolding finish room_after publish
  finish_readable (answered empty) conc readable unused = grind (arith, readable)
  finish_readable (answered partial) conc readable unused = grind (arith, readable)
  finish_readable crashed conc readable unused = grind (arith, readable)
  finish_readable (answered (full r)) conc readable unused =
      announce_complete r r.references conc readable unused
  finish_readable (failed message) conc readable unused =
      let same : conc ≡ failure message = grind (arith, readable) in rw (same, append_assoc) refl

  announce_incomplete :
      (r : Result) (o : Option (List (Option Reference)))
      (unreadable : concluded r (refs_of o) ≡ none) (m : Message) (room' : Room)
      → ((announce c m o room').0 ≡ raised) × ((announce c m o room').1.events ≡ room'.events)
  unfolding concluded refs_of announce
  announce_incomplete r none unreadable m room' = (refl, refl)
  announce_incomplete r (some refs) unreadable m room' = elim (Option-cases (all_of refs)) [
    | inl missing ↦ rw (add_references_incomplete m.id refs room'.references missing) (refl, refl)
    | inr (rs, found) ↦ grind (arith, found, unreadable)
  ]

  finish_unreadable :
      (t : Turn) (unreadable : concluded_by t ≡ none)
      → ((finish c fresh duration_ms (t, steps_of es, heard)).0 ≡ raised)
        × ((finish c fresh duration_ms (t, steps_of es, heard)).1.events ≡ heard.events)
  unfolding finish
  finish_unreadable (answered empty) unreadable = (refl, refl)
  finish_unreadable (answered partial) unreadable = (refl, refl)
  finish_unreadable crashed unreadable = (refl, refl)
  finish_unreadable (failed message) unreadable = grind (arith, unreadable)
  finish_unreadable (answered (full r)) unreadable =
      let m = reply_of c fresh duration_ms (steps_of es) r in
      announce_incomplete r r.references unreadable m
        (record heard { messages = room.messages ++ (m ∷ []) })

-- If the message's id is fresh and the stream can be read up to its end or its first terminal envelope,
-- then the task returns, and the room is the one that its transcript describes: what the envelopes
-- before that one show was published in order, and after it one event, which is the stored message with
-- its steps and references if there is a result, and the failure otherwise, nothing being stored then.
pub generate_chat_reply_refines :
    (c fresh duration_ms : ℕ) (es : List Envelope) (ending : Ending) (room : Room)
    (conc : Conclusion) (readable : conclusion es ending ≡ some conc)
    (unused : references_of fresh room.references ≡ [])
    → generate_chat_reply c fresh duration_ms (es, ending) room
      ≡ (returned, room_after c fresh duration_ms es conc room)
unfolding generate_chat_reply
generate_chat_reply_refines c fresh duration_ms es ending room conc readable unused =
    rw (relay_lem c es ending [] room) (
      finish_readable c fresh duration_ms es room (turn_of es ending) conc
        (sym (conclusion-turn_of es ending) ∙ readable) unused)

-- If an envelope up to the first terminal one cannot be read, or the result lacks a key, or one of
-- its references does, then the task raises, and neither a message nor a failure is published after
-- what was shown.
pub unreadable_reply_raises :
    (c fresh duration_ms : ℕ) (es : List Envelope) (ending : Ending) (room : Room)
    (unreadable : conclusion es ending ≡ none)
    → ((generate_chat_reply c fresh duration_ms (es, ending) room).0 ≡ raised)
      × ((generate_chat_reply c fresh duration_ms (es, ending) room).1.events
          ≡ room.events ++ said c es)
unfolding generate_chat_reply
unreadable_reply_raises c fresh duration_ms es ending room unreadable =
    rw (relay_lem c es ending [] room) (
      finish_unreadable c fresh duration_ms es room (turn_of es ending)
        (sym (conclusion-turn_of es ending) ∙ unreadable))
