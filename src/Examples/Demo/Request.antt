-- ===== src/Examples/Demo/Request.antt =====
-- The first request of chat_agent and tool_call_demo (examples/chat_agent/chat_agent.cpp).
use mathlib.Core.Path.{subst}
use embed_agent.Base.{
  ◌≡◌, refl, ap, sym, ◌∙◌, Bool, true, false, not, List, [], ◌∷◌, Option, some, Text, is_empty,
  if◌then◌else◌, pos, ℤ, leb_ℤ,
}
use embed_agent.Files.{FileSystem}
use embed_agent.Cppev.{ChatCodec, JsonCodec}
use embed_agent.Tool.Registry.{Registry}
use embed_agent.Llm.Client.{LlmClient, LlmClientOptions, new_client}
use embed_agent.Agent.{
  AgentOptions, Agent, Outcome, create, submit_user_message, set_tool_registry,
  set_round_start_callback,
}
use embed_agent.Secret.Resolver.{
  new_runtime_config, resolve_api_key, from_cli, SecretSource, set_cli_override, new_resolver,
}
use embed_agent.Examples.Demo.Options.{DemoConfig}
use embed_agent.Examples.Demo.Launch.{
  Launched, quits, launched, init_runtime, apply_runtime, live_options, run_chat, run_live_agent,
  run_mock_agent, on_start, loaded_session, with_key,
}
use embed_agent.Examples.Demo.Asking.{BuildsAll, IsUsable, HasAsked, create-IsNew, submit-HasAsked}

module _ (F : FileSystem) (machine_id : Option Text) (J : JsonCodec) (C : ChatCodec)
    (builds : BuildsAll C) where
  run_chat-HasAsked :
      (opts : AgentOptions) (tools : Registry) (c : DemoConfig) (s : F.State) (now : Text)
      → IsUsable opts.llm
      → leb_ℤ opts.max_tool_round_trips (pos 0) ≡ false
      → HasAsked C opts.llm.url opts.llm.api_key (run_chat F machine_id J C opts tools c s now)
  unfolding run_chat new_client
  run_chat-HasAsked opts tools c s now usable rounds =
      let made = create C Unit opts (loaded_session F machine_id J C s c.data_dir) now in
      let ready = set_round_start_callback C Unit (set_tool_registry C Unit made (some tools)) in
      let (same, client, silent, idle) =
        create-IsNew C builds opts (loaded_session F machine_id J C s c.data_dir) now in
      subst
        (λ (l : LlmClient).
          HasAsked C l.opts.url l.opts.api_key
            (submit_user_message C Unit ready now c.prompt (some 0) tt false))
        client
        (submit-HasAsked C builds ready now c.prompt idle silent refl
          (ap (λ (o : AgentOptions). leb_ℤ o.max_tool_round_trips (pos 0)) same ∙ rounds)
          (subst (λ (l : LlmClient). IsUsable l.opts) (sym client) usable))

  -- The key of the options is what the resolver finds first.
  resolve-key :
      (s s' : F.State) (c : DemoConfig) (env : Option Text)
      → is_empty c.api_key ≡ false
      → resolve_api_key F machine_id (init_runtime F machine_id J C s c).1.secrets s' env
        ≡ (some c.api_key, from_cli)
  unfolding init_runtime new_runtime_config resolve_api_key
  resolve-key s s' c env given = by_key c.api_key given
    where
      by_key :
          (key : Text)
          → is_empty key ≡ false
          → resolve_api_key F machine_id
              (if not (is_empty key)
                then set_cli_override (new_resolver c.data_dir) key
                else new_resolver c.data_dir)
              s'
              env
            ≡ (some key, from_cli)
      by_key [] e = absurd (cc e)
      by_key (k ∷ ks) e = refl

  -- Started without --mock, with an address, a key and the name of a model, chat_agent and
  -- tool_call_demo announce the first round and send one request to the completions of the address,
  -- with the key of the options whatever the environment and the files hold, and wait for it. That
  -- is so for every system prompt and every codec that has a text for each request.
  pub on_start-HasAsked :
      (prompted : AgentOptions → AgentOptions) (responses : List Text) (tools : Registry)
      (c : DemoConfig) (s : F.State) (env : Option Text) (now : Text)
      → ((o : AgentOptions) → (prompted o).llm ≡ o.llm)
      → ((o : AgentOptions) → (prompted o).max_tool_round_trips ≡ o.max_tool_round_trips)
      → c.mock ≡ false
      → is_empty c.url ≡ false
      → is_empty c.api_key ≡ false
      → is_empty c.model ≡ false
      → (r : Agent C Unit × Outcome C Unit) × ((on_start F machine_id J C prompted responses tools c
            s env now).1
          ≡ launched r)
        × HasAsked C c.url c.api_key r
  unfolding on_start run_live_agent apply_runtime
  on_start-HasAsked prompted responses tools c s env now same_llm same_rounds live url key model =
      let runtime = init_runtime F machine_id J C s c in
      let keyed =
        with_key F machine_id J C
          (record (live_options F machine_id J C c) {
            has_storage = true;
            persist_session = runtime.1.persist_session;
          })
          (some c.api_key) in
      let opts = prompted keyed in
      let started : AgentOptions → Launched F machine_id J C = λ o.
        if is_empty o.llm.api_key
        then quits
        else launched (run_chat F machine_id J C (prompted o) tools c runtime.0 now) in
      let keep = λ (key : Option Text).
        with_key F machine_id J C
          (record (live_options F machine_id J C c) {
            has_storage = true;
            persist_session = runtime.1.persist_session;
          })
          key in
      let run = run_chat F machine_id J C opts tools c runtime.0 now in
      let found = resolve-key s runtime.0 c env key in
      (
        run,
        ap
              (λ (mock : Bool).
                if mock
                then run_mock_agent F machine_id J C prompted responses tools c runtime.1 runtime.0
                    now
                else run_live_agent F machine_id J C prompted tools c runtime.1 runtime.0 env now)
              live
            ∙ (ap
                  (λ (missing : Bool).
                    if missing
                    then quits
                    else started
                        (keep (resolve_api_key F machine_id runtime.1.secrets runtime.0 env).0))
                  url
                ∙ (ap (λ (k : Option Text × SecretSource). started (keep k.0)) found
                    ∙ ap (λ (missing : Bool). if missing then quits else launched run) key)),
        subst (λ (l : LlmClientOptions). HasAsked C l.url l.api_key run) (same_llm keyed)
            (run_chat-HasAsked opts tools c runtime.0 now
              (subst IsUsable (sym (same_llm keyed)) (refl, url, key, model, refl))
              (ap (λ (m : ℤ). leb_ℤ m (pos 0)) (same_rounds keyed))),
      )
