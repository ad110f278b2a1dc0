-- ===== src/Chat/Stream.antt =====
-- `AIServiceClient.stream_chat`, without the exception's own text at the end of its messages: the lines of the response, read as envelopes. `json.loads` is an
-- argument; what it gives is sorted by what the relay reads of it. A generator is the list of what it
-- yields with the way in which it ends.
use nbe_financial_advisor_ba.Prelude.{
  Bool, true, false, Option, none, some, List, [], ◌∷◌, ◌==◌, if◌then◌else◌,
}
use nbe_financial_advisor_ba.Prelude.Text.{Text, codes}

pub record Reference : Type 0 where
  pub target_type : Text
  pub target_id : Text

-- The `data` of a "done" envelope. `none` for `references` is a body without that key, and in the list
-- it is a reference without one of its two keys or with an id that is no UUID.
pub record Result : Type 0 where
  pub content : Text
  pub widget : Option Text
  pub suggestions : Option (List Text)
  pub references : Option (List (Option Reference))

-- `empty` is null, `partial` a body without "content" or "widget".
pub data Body : Type 0 where
  empty partial : Body
  full : Result → Body

-- `malformed` is an envelope without "event", or without what is read of its "data"; `other` has an
-- event that the relay does not know.
pub data Envelope : Type 0 where
  token : Text → Envelope
  tool_call : (call_id tool status : Text) → Envelope
  agent_selected : Text → Envelope
  done : Body → Envelope
  error : Option Text → Envelope
  other malformed : Envelope

pub data Ending : Type 0 where
  exhausted : Ending
  ai_service_error : Text → Ending

abbrev pub Stream : Type 0
Stream = List Envelope × Ending

-- `envelope.get("event") in ("done", "error")`
abbrev pub is_terminal : Envelope → Bool
is_terminal (done body) = true
is_terminal (error message) = true
is_terminal _ = false

-- What follows a prefix, if the text has it.
unfoldable pub after_prefix : Text → Text → Option Text
after_prefix [] s = some s
after_prefix (a ∷ p) [] = none
after_prefix (a ∷ p) (b ∷ s) = if a == b then after_prefix p s else none

-- The response: the lines that arrive, and whether the connection then breaks.
pub record Response : Type 0 where
  pub lines : List Text
  pub is_broken : Bool

module _ (loads : Text → Option Envelope) where
  unfoldable pub read_line : Option Text → Stream → Stream
  read_line none rest = rest
  read_line (some payload) rest = yielded (loads payload) rest
    where
      yielded : Option Envelope → Stream → Stream
      yielded none rest = ([], ai_service_error (codes "AI service chat stream failed"))
      yielded (some e) (es, ending) =
          if is_terminal e then (e ∷ [], exhausted) else (e ∷ es, ending)

  -- The loop over the lines.
  unfoldable pub read_lines : Response → List Text → Stream
  read_lines response [] = (
    [],
    ai_service_error (
        if response.is_broken
        then codes "AI service chat stream failed"
        else codes "AI service chat stream ended without a terminal event"),
  )
  read_lines response (l ∷ ls) =
      read_line (after_prefix (codes "data: ") l) (read_lines response ls)

  -- `stream_chat`; without a response the request failed with the text.
  unfoldable pub stream_chat : (request_error : Text) → Option Response → Stream
  stream_chat request_error none = ([], ai_service_error request_error)
  stream_chat request_error (some response) = read_lines response response.lines
