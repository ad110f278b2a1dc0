-- ===== src/Chat/Wire.antt =====
-- The chat task on the lines of the response: `stream_chat` under `generate_chat_reply`.
use nbe_financial_advisor_ba.Prelude.{
  ℕ, ◌≡◌, refl, sym, ap, ◌∙◌, Bool, true, false, Option, none, some, List, [], ◌∷◌, ◌++◌, arith,
  inl, inr, Bool-cases, Option-cases, All,
}
use nbe_financial_advisor_ba.Prelude.Text.{Text, codes}
use nbe_financial_advisor_ba.Chat.Stream.{
  Envelope, token, tool_call, agent_selected, done, error, other, malformed, Ending, exhausted,
  Stream, is_terminal, after_prefix, Response, read_line, read_lines, stream_chat,
}
use nbe_financial_advisor_ba.Chat.Relay.{
  chat_error, Room, returned, references_of, generate_chat_reply,
}
use nbe_financial_advisor_ba.Chat.Transcript.{said, failure, conclusion, ending_text, room_after}
use nbe_financial_advisor_ba.Chat.Refined.{generate_chat_reply_refines}

-- No JSON, or an envelope that can be read and does not end the reply.
abbrev pub is_quiet : Option Envelope → Bool
is_quiet none = true
is_quiet (some (done body)) = false
is_quiet (some (error message)) = false
is_quiet (some malformed) = false
is_quiet (some _) = true

module _ (loads : Text → Option Envelope) where
  abbrev pub loaded : Option Text → Option Envelope
  loaded none = none
  loaded (some payload) = loads payload

  -- What a line of the response carries.
  abbrev pub carried : Text → Option Envelope
  carried l = loaded (after_prefix (codes "data: ") l)

  abbrev pub IsQuiet : Text → Type 0
  IsQuiet l = is_quiet (carried l) ≡ true

  conclusion-cons :
      (e : Envelope) (es : List Envelope) (ending : Ending) (quiet : is_quiet (some e) ≡ true)
      → conclusion (e ∷ es) ending ≡ conclusion es ending
  unfolding conclusion
  conclusion-cons (token t) es ending quiet = refl
  conclusion-cons (tool_call call_id name status) es ending quiet = refl
  conclusion-cons (agent_selected name) es ending quiet = refl
  conclusion-cons (done body) es ending quiet = ground (arith, quiet)
  conclusion-cons (error message) es ending quiet = ground (arith, quiet)
  conclusion-cons other es ending quiet = refl
  conclusion-cons malformed es ending quiet = ground (arith, quiet)

  abbrev IsFailure : Stream → Type 0
  IsFailure (es, ending) = (message : Text) × (conclusion es ending ≡ some (failure message))

  is_terminal_quiet : (e : Envelope) (quiet : is_quiet (some e) ≡ true) → is_terminal e ≡ false
  is_terminal_quiet (token t) quiet = refl
  is_terminal_quiet (tool_call call_id name status) quiet = refl
  is_terminal_quiet (agent_selected name) quiet = refl
  is_terminal_quiet (done body) quiet = ground (arith, quiet)
  is_terminal_quiet (error message) quiet = ground (arith, quiet)
  is_terminal_quiet other quiet = refl
  is_terminal_quiet malformed quiet = refl

  read_line-IsFailure :
      (o : Option Text) (rest : Stream) (quiet : is_quiet (loaded o) ≡ true)
      (fails : IsFailure rest)
      → IsFailure (read_line loads o rest)
  unfolding read_line conclusion ending_text
  read_line-IsFailure none rest quiet fails = fails
  read_line-IsFailure (some payload) (es, ending) quiet (message, same) =
      elim (Option-cases (loads payload)) [
        | inl missing ↦ rw (missing) (codes "AI service chat stream failed", refl)
        | inr (e, found) ↦
            let quiet' : is_quiet (some e) ≡ true = sym (ap is_quiet found) ∙ quiet in
            rw (found, is_terminal_quiet e quiet')
              (message, conclusion-cons e es ending quiet' ∙ same)
      ]

  read_lines-IsFailure :
      (response : Response) (ls : List Text) (quiet : All IsQuiet ls)
      → IsFailure (read_lines loads response ls)
  unfolding read_lines conclusion ending_text
  read_lines-IsFailure response [] quiet = elim (Bool-cases response.is_broken) [
    | inl b ↦ rw (b) (codes "AI service chat stream failed", refl)
    | inr b ↦ rw (b) (codes "AI service chat stream ended without a terminal event", refl)
  ]
  read_lines-IsFailure response (l ∷ ls) (quiet, quiets) =
      read_line-IsFailure (after_prefix (codes "data: ") l) (read_lines loads response ls) quiet
        (read_lines-IsFailure response ls quiets)

  -- The lines that arrive.
  abbrev pub lines_of : Option Response → List Text
  lines_of none = []
  lines_of (some response) = response.lines

  stream_chat-IsFailure :
      (request_error : Text) (response : Option Response) (quiet : All IsQuiet (lines_of response))
      → IsFailure (stream_chat loads request_error response)
  unfolding stream_chat conclusion ending_text
  stream_chat-IsFailure request_error none quiet = (request_error, refl)
  stream_chat-IsFailure request_error (some response) quiet =
      read_lines-IsFailure response response.lines quiet

  -- If the message's id is fresh and no line carries a terminal envelope or one that cannot be read,
  -- then the task returns, stores nothing, and publishes one failure after what was shown: whether
  -- the request failed, a line is no JSON, the connection broke, or the response just ended.
  pub silent_service_fails :
      (c fresh duration_ms : ℕ) (request_error : Text) (response : Option Response) (room : Room)
      (quiet : All IsQuiet (lines_of response)) (unused : references_of fresh room.references ≡ [])
      → (let stream = stream_chat loads request_error response in
          (message : Text) × (generate_chat_reply c fresh duration_ms stream room ≡ (
            returned,
            record room {
              events = room.events ++ (said c stream.0 ++ (chat_error c message ∷ []));
            },
          )))
  unfolding room_after
  silent_service_fails c fresh duration_ms request_error response room quiet unused =
      let stream = stream_chat loads request_error response in
      let (message, fails) = stream_chat-IsFailure request_error response quiet in
      (
        message,
        generate_chat_reply_refines c fresh duration_ms stream.0 stream.1 room (failure message)
            fails unused,
      )

  -- A line with a terminal envelope closes the stream.
  read_line-terminal :
      (o : Option Text) (e : Envelope) (carries : loaded o ≡ some e) (ends : is_terminal e ≡ true)
      (rest : Stream)
      → read_line loads o rest ≡ (e ∷ [], exhausted)
  unfolding read_line
  read_line-terminal none e carries ends rest = grind (arith, carries)
  read_line-terminal (some payload) e carries ends (es, ending) = rw (carries, ends) refl

  late_lines_ignored :
      (before after after' : List Text) (l : Text) (e : Envelope) (response response' : Response)
      (carries : carried l ≡ some e) (ends : is_terminal e ≡ true)
      → read_lines loads response (before ++ (l ∷ after))
        ≡ read_lines loads response' (before ++ (l ∷ after'))
  unfolding read_lines
  late_lines_ignored [] after after' l e response response' carries ends =
      let o = after_prefix (codes "data: ") l in
      read_line-terminal o e carries ends (read_lines loads response after)
      ∙ sym (read_line-terminal o e carries ends (read_lines loads response' after'))
  late_lines_ignored (k ∷ before) after after' l e response response' carries ends =
      ap (read_line loads (after_prefix (codes "data: ") k))
        (late_lines_ignored before after after' l e response response' carries ends)

  -- Once a line carries a terminal envelope, the reply does not depend on what arrives after it, nor on
  -- whether the connection breaks then, whatever came before it.
  pub late_lines_change_nothing :
      (c fresh duration_ms : ℕ) (request_error : Text) (before after after' : List Text) (l : Text)
      (e : Envelope) (broken broken' : Bool) (room : Room) (carries : carried l ≡ some e)
      (ends : is_terminal e ≡ true)
      → generate_chat_reply c fresh duration_ms
          (stream_chat loads request_error
            (some (record { lines = before ++ (l ∷ after); is_broken = broken })))
          room
        ≡ generate_chat_reply c fresh duration_ms
            (stream_chat loads request_error
              (some (record { lines = before ++ (l ∷ after'); is_broken = broken' })))
            room
  unfolding stream_chat
  late_lines_change_nothing c fresh d request_error before after after' l e broken broken' room
        carries ends =
      let response : Response = record { lines = before ++ (l ∷ after); is_broken = broken } in
      let response' : Response = record { lines = before ++ (l ∷ after'); is_broken = broken' } in
      ap (λ stream. generate_chat_reply c fresh d stream room)
        (late_lines_ignored before after after' l e response response' carries ends)
