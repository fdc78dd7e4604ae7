-- ===== src/Tests/Parts.antt =====
-- Examples for the properties of the tools, the errors, the address, the monitor and the queue.
use embed_agent.Base.{
  refl, ◌≡◌, ◌⊎◌, true, false, [], ◌∷◌, ◌++◌, some, codes, contains, text_eq, ends_with,
}
use embed_agent.Tool.Registry.{register_tool, invoke}
use embed_agent.Tool.Lookup.{
  IsValid, register_all, register_all_empty-IsValid, invoke-register_tool,
}
use embed_agent.NetworkError.{is_queueable_llm_error}
use embed_agent.NetworkError.Classes.{http_error, is_queueable-http_error}
use embed_agent.Base.{length}
use embed_agent.Prompt.{placeholder, replace_all}
use embed_agent.Prompt.Render.{replace_all-placeholder}
use embed_agent.Llm.Url.{resolve_chat_completions_url}
use embed_agent.Llm.Target.{resolve-slashes}
use embed_agent.Connectivity.{create, start_probe}
use embed_agent.Connectivity.Probe.{IsConsistent, Reach-IsConsistent, here, next, starts}
use embed_agent.Tests.Data.{light_tool}

register_all_empty-IsValid_example : IsValid (register_all [] (light_tool ∷ (light_tool ∷ [])))
register_all_empty-IsValid_example = register_all_empty-IsValid (light_tool ∷ (light_tool ∷ []))

invoke-register_tool_example :
    let r = register_tool [] light_tool in
    ((r.1 ≡ false) × (r.0 ≡ []))
    ⊎ ((r.1 ≡ true) × (invoke r.0 (codes "light") (codes "{}") true ≡ some (codes "on")))
unfolding text_eq
invoke-register_tool_example = invoke-register_tool [] light_tool (codes "light") (codes "{}")

is_queueable-http_error_example : is_queueable_llm_error (http_error 503) ≡ true
is_queueable-http_error_example = is_queueable-http_error 503

resolve-slashes_example :
    (resolve_chat_completions_url (codes "http://host") ≡ codes "http://host/v1/chat/completions")
    × (resolve_chat_completions_url (codes "http://host/v1//")
        ≡ codes "http://host/v1/chat/completions")
unfolding ends_with contains
resolve-slashes_example = resolve-slashes (codes "http://host") 0 2 refl refl refl refl refl

Reach-IsConsistent_example : IsConsistent (start_probe create (codes "http://host"))
Reach-IsConsistent_example = Reach-IsConsistent (next here (starts (codes "http://host")))

replace_all-placeholder_example :
    let text = codes "on " ++ (placeholder (codes "d") ++ codes "!") in
    replace_all (length text) (placeholder (codes "d")) (codes "x") text
    ≡ codes "on " ++ (codes "x" ++ replace_all 1 (placeholder (codes "d")) (codes "x") (codes "!"))
replace_all-placeholder_example =
    replace_all-placeholder (codes "on ") (codes "d") (codes "x") (codes "!") refl
