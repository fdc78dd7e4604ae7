-- ===== src/NetworkError.antt =====
-- src/ea_network_error.cpp: which errors of a chat put the user's message into the queue.
pub mod Classes
use embed_agent.Base.{
  ℕ, Bool, true, false, [], ◌++◌, Option, none, some, Text, codes, is_empty, leb, ◌==◌,
  if◌then◌else◌, after_first, leading_digits, value_from,
}

abbrev pub http_prefix : Text
http_prefix = codes "EaLlmClient: HTTP "

-- The number that the text behind the prefix begins with; 0 where there is none.
unfoldable pub code_behind : Option Text → ℕ
unfolding leading_digits value_from
code_behind none = 0
code_behind (some rest) =
    let digits = leading_digits rest in if is_empty digits then 0 else value_from 0 digits

unfoldable pub parse_http_code_from_error : Text → ℕ
unfolding after_first code_behind
parse_http_code_from_error error = code_behind (after_first error http_prefix)

unfoldable pub is_queueable_llm_error : Text → Bool
unfolding parse_http_code_from_error
is_queueable_llm_error error =
    if is_empty error
    then false
    else (let http_code = parse_http_code_from_error error in
        if http_code == 0
        then true
        else if leb 500 http_code
        then true
        else if http_code == 429
        then true
        else false)
