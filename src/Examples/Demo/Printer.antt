-- ===== src/Examples/Demo/Printer.antt =====
-- EaStreamPrinter (examples/common/ea_demo_io.cpp) and the callbacks that feed it
-- (examples/chat_agent/chat_agent.cpp). A text is what goes to stdout.
use embed_agent.Base.{
  ℕ, zero, suc, Bool, true, false, not, List, [], ◌∷◌, ◌++◌, Text, codes, is_empty, if◌then◌else◌,
}
use embed_agent.Agent.{Output, round_started, text_said, request_sent, session_saved, done_called}

pub record StreamPrinter : Type 0 where
  pub segment_started : Bool
  pub wrote_content : Bool

abbrev pub new_printer : StreamPrinter
new_printer = record { segment_started = false; wrote_content = false }

unfoldable pub begin_segment : StreamPrinter → StreamPrinter × Text
begin_segment p = (record p { segment_started = false }, if p.segment_started then 10 ∷ [] else [])

unfoldable pub feed : StreamPrinter → Text → StreamPrinter × Text
feed p delta = if is_empty delta then (p, []) else (
  record { segment_started = true; wrote_content = true },
  if not p.segment_started then 10 ∷ codes "Assistant: " ++ delta else delta,
)

unfoldable pub finish : StreamPrinter → Text
finish p = if p.wrote_content then 10 ∷ [] else []

abbrev pub user_prompt : Text → Text
user_prompt prompt = 10 ∷ codes "User: " ++ (prompt ++ 10 ∷ [])

-- What the callback of a round prints in front of the segment.
abbrev pub round_header : Text → ℕ → Text
round_header header zero = []
round_header header (suc n) = header

-- What a call of one of the agent's callbacks prints.
unfoldable pub show_output : Text → StreamPrinter → Output → StreamPrinter × Text
unfolding begin_segment feed
show_output header p (round_started n) =
    let b = begin_segment p in (b.0, round_header header n ++ b.1)
show_output header p (text_said cb delta) = feed p delta
show_output header p (request_sent r) = (p, [])
show_output header p (session_saved s) = (p, [])
show_output header p (done_called cb ok error) = (p, [])

unfoldable pub show_outputs : Text → StreamPrinter → List Output → StreamPrinter × Text
unfolding show_output
show_outputs header p [] = (p, [])
show_outputs header p (o ∷ os) =
    let first = show_output header p o in
    let rest = show_outputs header first.0 os in (rest.0, first.1 ++ rest.1)

-- The whole of a turn: the user's prompt, what the callbacks print, and what the end prints.
unfoldable pub show_turn : Text → Text → List Output → Text
unfolding show_outputs finish
show_turn header prompt os =
    let shown = show_outputs header new_printer os in
    user_prompt prompt ++ (shown.1 ++ finish shown.0)

-- The header between the rounds of chat_agent.
abbrev pub chat_header : Text
chat_header =
    10 ∷ codes "[tool round complete " ++ (226 ∷ (128 ∷ (148 ∷ codes " continuing]")) ++ 10 ∷ [])
