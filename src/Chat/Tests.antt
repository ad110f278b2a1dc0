-- ===== src/Chat/Tests.antt =====
-- The chat on concrete input.
use nbe_financial_advisor_ba.Prelude.{◌≡◌, refl, true, Option, none, some, List, [], ◌∷◌, ◌++◌}
use nbe_financial_advisor_ba.Prelude.Text.{Text, codes}
use nbe_financial_advisor_ba.Chat.Stream.{
  Reference, Result, full, Envelope, token, tool_call, done, exhausted, after_prefix, Response,
  stream_chat,
}
use nbe_financial_advisor_ba.Chat.Relay.{
  tool, chat_token, chat_tool_status, chat_error, chat_message, Room, returned, raised, Message,
  publish, result_of, reply_of, relay, add_references, references_of, announce, finish,
  generate_chat_reply, post_message,
}
use nbe_financial_advisor_ba.Chat.Transcript.{
  said, reply, all_of, concluded, refs_of, conclusion_of, conclusion, room_after,
}
use nbe_financial_advisor_ba.Chat.Refined.{generate_chat_reply_refines, unreadable_reply_raises}
use nbe_financial_advisor_ba.Chat.Wire.{silent_service_fails}

abbrev empty_room : Room
empty_room = record { messages = []; references = []; saved = []; queue = []; events = [] }

abbrev asked : Room
asked = (post_message 1 7 (codes "Where did it go?") empty_room).1

abbrev row : Reference
row = record { target_type = codes "transaction"; target_id = codes "9" }

abbrev answer_to : Option (List (Option Reference)) → Result
answer_to refs = record {
  content = codes "On food.";
  widget = none;
  suggestions = none;
  references = refs;
}

abbrev envelopes : Option (List (Option Reference)) → List Envelope
envelopes refs =
    token (codes "On")
    ∷ tool_call (codes "c1") (codes "sql") (codes "ok")
    ∷ done (full (answer_to refs))
    ∷ token (codes "late")
    ∷ []

answer_message : Message
answer_message =
    reply_of 1 8 40 (tool (codes "c1") (codes "sql") (codes "ok") ∷ []) (answer_to (some []))

-- The run: the answer is stored behind the question, and two events stand before it.
reply_test : generate_chat_reply 1 8 40 (envelopes (some (some row ∷ [])), exhausted) asked ≡ (
  returned,
  record asked {
    messages =
        asked.messages
        ++ (reply_of 1 8 40
              (tool (codes "c1") (codes "sql") (codes "ok") ∷ [])
              (answer_to (some (some row ∷ [])))
            ∷ []);
    references = (8, row) ∷ [];
    saved = 1 ∷ 1 ∷ [];
    events =
        chat_token 1 (codes "On")
        ∷ chat_tool_status 1 (codes "c1") (codes "sql") (codes "ok")
        ∷ chat_message
            (reply_of 1 8 40
              (tool (codes "c1") (codes "sql") (codes "ok") ∷ [])
              (answer_to (some (some row ∷ []))))
            (row ∷ [])
        ∷ [];
  },
)
unfolding generate_chat_reply finish announce relay publish result_of add_references references_of
    post_message
reply_test = refl

generate_chat_reply_refines_example :
    generate_chat_reply 1 8 40 (envelopes (some (some row ∷ [])), exhausted) asked ≡ (
      returned,
      room_after 1 8 40
          (envelopes (some (some row ∷ [])))
          (reply (answer_to (some (some row ∷ []))) (row ∷ []))
          asked,
    )
unfolding conclusion conclusion_of concluded refs_of all_of references_of post_message
generate_chat_reply_refines_example =
    generate_chat_reply_refines 1 8 40 (envelopes (some (some row ∷ []))) exhausted asked
      (reply (answer_to (some (some row ∷ []))) (row ∷ [])) refl refl

-- A reference without one of its keys.
unreadable_reply_raises_example :
    ((generate_chat_reply 1 8 40 (envelopes (some (none ∷ [])), exhausted) asked).0 ≡ raised)
    × ((generate_chat_reply 1 8 40 (envelopes (some (none ∷ [])), exhausted) asked).1.events
        ≡ asked.events ++ said 1 (envelopes (some (none ∷ []))))
unfolding conclusion conclusion_of concluded refs_of all_of
unreadable_reply_raises_example =
    unreadable_reply_raises 1 8 40 (envelopes (some (none ∷ []))) exhausted asked refl

abbrev loads : Text → Option Envelope
loads [] = none
loads (c ∷ text) = some (token text)

abbrev cut_short : Response
cut_short = record {
  lines = codes "data: \"Hel" ∷ codes ": ping" ∷ codes "data: " ∷ [];
  is_broken = true;
}

silent_service_fails_example :
    (message : Text) × (generate_chat_reply 1 8 40
        (stream_chat loads (codes "refused") (some cut_short))
        asked
      ≡ (
        returned,
        record asked {
          events =
              asked.events
              ++ (said 1 (stream_chat loads (codes "refused") (some cut_short)).0
                  ++ (chat_error 1 message ∷ []));
        },
      ))
unfolding after_prefix references_of post_message
silent_service_fails_example =
    silent_service_fails loads 1 8 40 (codes "refused") (some cut_short) asked
      (refl, (refl, (refl, tt))) refl
