-- ===== src/Llm/Url.antt =====
-- resolveChatCompletionsUrl (src/ea_llm_client.cpp).
use embed_agent.Base.{
  [], ◌∷◌, ◌++◌, Text, codes, contains, ends_with, is_empty, ◌==◌, ◌&&◌, if◌then◌else◌,
}

-- `pop_back` while the last character is a slash.
unfoldable pub strip_trailing_slash : Text → Text
strip_trailing_slash [] = []
strip_trailing_slash (c ∷ cs) =
    let rest = strip_trailing_slash cs in if c == b'/' && is_empty rest then [] else c ∷ rest

abbrev pub completions : Text
completions = codes "completions"

unfoldable pub resolve_chat_completions_url : Text → Text
unfolding strip_trailing_slash contains ends_with
resolve_chat_completions_url url =
    if is_empty url
    then url
    else if contains url completions
    then url
    else (let base = strip_trailing_slash url in
        if ends_with base (codes "/v1")
        then base ++ codes "/chat/completions"
        else base ++ codes "/v1/chat/completions")
