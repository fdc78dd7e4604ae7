-- ===== src/NetworkError/Classes.antt =====
-- The classes of errors of isQueueableLlmError (src/ea_network_error.cpp), for the texts that
-- EaLlmClient and EaAgent make.
use embed_agent.Base.{
  ℕ, ◌≡◌, true, false, ◌||◌, [], ◌∷◌, ◌∙◌, ◌++◌, none, some, Text, is_empty, leb, ◌==◌, arith, ap,
  after_first, after_first-append, contains, leading_digits-to_string, value_from-to_string,
  to_string-nonempty, to_string,
}
use embed_agent.NetworkError.{
  http_prefix, code_behind, parse_http_code_from_error, is_queueable_llm_error,
}

-- The text of EaLlmClient for a response with this code.
abbrev pub http_error : ℕ → Text
http_error code = http_prefix ++ to_string code

code_behind-to_string : (code : ℕ) → code_behind (some (to_string code)) ≡ code
unfolding code_behind
code_behind-to_string code =
    rw (leading_digits-to_string code, to_string-nonempty code) (value_from-to_string code)

parse-http_error : (code : ℕ) → parse_http_code_from_error (http_error code) ≡ code
parse-http_error code =
    unfold parse_http_code_from_error in
    ap code_behind (after_first-append http_prefix (to_string code)) ∙ code_behind-to_string code

-- An HTTP failure is queued for a later try exactly where its code is 0, 429, or 500 or more.
pub is_queueable-http_error :
    (code : ℕ)
    → is_queueable_llm_error (http_error code) ≡ (code == 0 || leb 500 code || code == 429)
unfolding is_queueable_llm_error
is_queueable-http_error code = rw (parse-http_error code) (ground arith)

after_first-none : (s pat : Text) → contains s pat ≡ false → after_first s pat ≡ none
unfolding after_first contains
after_first-none [] pat h = rw h
after_first-none (a ∷ s) pat h = ground (arith, after_first-none s pat)

parse-no_prefix :
    (error : Text) → contains error http_prefix ≡ false → parse_http_code_from_error error ≡ 0
unfolding parse_http_code_from_error
parse-no_prefix error h = ap code_behind (after_first-none error http_prefix h)

-- Any other text that is not empty counts as a transport failure.
is_queueable_other :
    (error : Text)
    → is_empty error ≡ false
    → contains error http_prefix ≡ false
    → is_queueable_llm_error error ≡ true
unfolding is_queueable_llm_error
is_queueable_other error some_text no_code = rw (parse-no_prefix error no_code, some_text)
