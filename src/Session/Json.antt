-- ===== src/Session/Json.antt =====
-- serializeSession and loadSessionSnapshot (src/ea_session_codec.cpp): a session as a JSON text, over
-- the JSON library.
use embed_agent.Base.{
  ℕ, zero, suc, ◌-◌, ◌%◌, ◌^◌, ◌≡◌, ◌<◌, refl, ap, ◌∙◌, Bool, true, false, List, [], ◌∷◌, Text,
  codes, arith, is_empty, ℤ, pos, negsuc, Option, none, some, ltb, lt→ltb, if◌then◌else◌,
}
use embed_agent.Cppev.{Message, JsonField, text_field, int_field, raw_field, JsonCodec}
use embed_agent.Cppev.Reading.{IsRead, find_field}
use embed_agent.Session.{Session, SessionOptions, default_options}
use embed_agent.Session.Codec.{SessionSnapshot, non_system_messages, session_snapshot}

-- `static_cast<int>` of a std::size_t.
unfoldable pub int_of_size : ℕ → ℤ
int_of_size n = let w = n % 2 ^ 32 in if ltb w (2 ^ 31) then pos w else negsuc (2 ^ 32 - 1 - w)

unfoldable pub option_fields : SessionOptions → List JsonField
unfolding int_of_size
option_fields o =
    int_field (codes "maxMessages") (int_of_size o.max_messages)
    ∷ (int_field (codes "maxApproxTokens") (int_of_size o.max_approx_tokens) ∷ [])

abbrev pub session_fields : Session → Text → Text → List JsonField
session_fields s opts_json messages_json =
    int_field (codes "version") (pos 1)
    ∷ (text_field (codes "systemPrompt") s.system_prompt
        ∷ (raw_field (codes "sessionOptions") opts_json
            ∷ (raw_field (codes "messages") messages_json ∷ [])))

-- A value that was read replaces the default where it is positive.
abbrev positive_or : ℕ → Option ℤ → ℕ
positive_or def (some (pos (suc n))) = suc n
positive_or def _ = def

module _ (J : JsonCodec) where
  open J use {json, build, get_array, doc_to_string, serialize_messages_json, parse_messages_json}
  open json use {Doc, parse, get_string, get_int, get_object}

  abbrev with_options : Session → Text → Option Text → Option Text
  with_options s messages_json none = none
  with_options s messages_json (some opts_json) = build (session_fields s opts_json messages_json)

  abbrev with_messages : Session → Option Text → Option Text
  with_messages s none = none
  with_messages s (some messages_json) = with_options s messages_json (build (option_fields s.opts))

  unfoldable pub serialize_session : Session → Option Text
  unfolding non_system_messages
  serialize_session s = with_messages s (serialize_messages_json (non_system_messages s))

  -- The options of a fresh snapshot, with the members that are there.
  abbrev read_options : Option Doc → SessionOptions
  read_options none = default_options
  read_options (some d) = record {
    max_messages = positive_or default_options.max_messages (get_int d (codes "maxMessages"));
    max_approx_tokens =
        positive_or default_options.max_approx_tokens (get_int d (codes "maxApproxTokens"));
  }

  abbrev is_version_one : Option ℤ → Bool
  is_version_one (some (pos (suc zero))) = true
  is_version_one _ = false

  abbrev text_or_empty : Option Text → Text
  text_or_empty none = []
  text_or_empty (some t) = t

  abbrev read_messages : Option Doc → Option (List Message)
  read_messages none = some []
  read_messages (some d) = parse_messages_json (doc_to_string d)

  abbrev read_snapshot : Doc → Option (List Message) → Option SessionSnapshot
  read_snapshot d none = none
  read_snapshot d (some messages) = some (record {
    version = pos 1;
    system_prompt = text_or_empty (get_string d (codes "systemPrompt"));
    opts = read_options (get_object d (codes "sessionOptions"));
    messages = messages;
  })

  -- `none` where it returns false.
  unfoldable pub load_session_snapshot : Text → Option SessionSnapshot
  load_session_snapshot text = if is_empty text then none else elim (parse text) [
    | none ↦ none
    | some d ↦
        if is_version_one (get_int d (codes "version"))
        then read_snapshot d (read_messages (get_array d (codes "messages")))
        else none
  ]

  -- The JSON library builds the text of the session's members and that of its options, reads each
  -- member back, and reads the messages back from their text.
  pub record IsReadBack (s : Session) (text : Text) : Type 0 where
    pub messages_json : Text
    pub opts_json : Text
    pub members : IsRead J (session_fields s opts_json messages_json) text
    pub opts : IsRead J (option_fields s.opts) opts_json
    pub messages_written : serialize_messages_json (non_system_messages s) ≡ some messages_json
    pub messages_read : parse_messages_json messages_json ≡ some (non_system_messages s)

int_of_size_small : (n : ℕ) → n < 2 ^ 31 → int_of_size n ≡ pos n
unfolding int_of_size
int_of_size_small n small = rw (unwrapped, lt→ltb n (2 ^ 31) small) refl
  where
    unwrapped : n % 2 ^ 32 ≡ n
    unwrapped = omega arith

positive_or-int_of_size :
    (def n : ℕ) → 0 < n → n < 2 ^ 31 → positive_or def (some (int_of_size n)) ≡ n
positive_or-int_of_size def zero h small = absurd (omega arith)
positive_or-int_of_size def (suc n) h small =
    ap (λ m. positive_or def (some m)) (int_of_size_small (suc n) small)

module _ (J : JsonCodec) where
  -- A session whose two limits are positive and below 2^31 is written to a text from which its
  -- snapshot is read again, where the JSON library builds the texts of the session and of its options
  -- and reads each member that is in them back by its key, and reads back the text of the messages.
  pub load-serialize_session :
      (s : Session) (text : Text)
      → IsReadBack J s text
      → 0 < s.opts.max_messages
      → s.opts.max_messages < 2 ^ 31
      → 0 < s.opts.max_approx_tokens
      → s.opts.max_approx_tokens < 2 ^ 31
      → (serialize_session J s ≡ some text)
        × (load_session_snapshot J text ≡ some (session_snapshot s))
  unfolding serialize_session load_session_snapshot session_snapshot find_field option_fields
  load-serialize_session s text r m m' t t' =
      let array =
        r.members.arrays (codes "messages") r.messages_json (non_system_messages s) refl
          r.messages_written in
      (
        ap (with_messages J s) r.messages_written
            ∙ (ap (with_options J s r.messages_json) r.opts.written ∙ r.members.written),
        rw
            (
              r.members.some_text,
              r.members.read,
              r.members.ints (codes "version") (pos 1) refl,
              array.1,
              array.2 ∙ r.messages_read,
              r.members.texts (codes "systemPrompt") s.system_prompt refl,
              r.members.objects (codes "sessionOptions") r.opts_json (option_fields s.opts) refl
                    r.opts.written
                  ∙ r.opts.read,
            )
            (ap (λ o. some (record (session_snapshot s) { opts = o })) same_options),
      )
    where
      same_options : read_options J (some r.opts.doc) ≡ s.opts
      same_options =
          rw
            (
              r.opts.ints (codes "maxMessages") (int_of_size s.opts.max_messages) refl,
              r.opts.ints (codes "maxApproxTokens") (int_of_size s.opts.max_approx_tokens) refl,
              positive_or-int_of_size default_options.max_messages s.opts.max_messages m m',
              positive_or-int_of_size default_options.max_approx_tokens s.opts.max_approx_tokens t
                  t',
            )
            refl
