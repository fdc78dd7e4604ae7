-- ===== src/Cppev/Reading.antt =====
-- What the JSON library of cppev gives back of an object that it has built: the members, by key.
use embed_agent.Base.{
  ◌≡◌, false, List, [], ◌∷◌, Option, none, some, Text, ℤ, is_empty, text_eq, if◌then◌else◌,
}
use embed_agent.Cppev.{JsonField, text_field, int_field, raw_field, JsonCodec, Message}

abbrev pub key_of : JsonField → Text
key_of (text_field key v) = key
key_of (int_field key v) = key
key_of (raw_field key v) = key

-- The first member with a key.
unfoldable pub find_field : List JsonField → Text → Option JsonField
unfolding text_eq
find_field [] key = none
find_field (f ∷ fs) key =
    let rest = find_field fs key in if text_eq (key_of f) key then some f else rest

abbrev pub text_of_field : Option JsonField → Option Text
text_of_field (some (text_field key v)) = some v
text_of_field _ = none

abbrev pub int_of_field : Option JsonField → Option ℤ
int_of_field (some (int_field key n)) = some n
int_of_field _ = none

abbrev pub raw_of_field : Option JsonField → Option Text
raw_of_field (some (raw_field key v)) = some v
raw_of_field _ = none

module _ (J : JsonCodec) where
  open J use {json, build, get_array, doc_to_string, serialize_messages_json, parse_messages_json}
  open json use {Doc, parse, get_string, get_int, get_object}

  -- The library builds the text of an object with these members, parses it, and gives each text and
  -- each number by its key; an object that was put in as a text is there as that text would be
  -- parsed, and an array of messages is written to a text that has the messages of the first.
  pub record IsRead (fields : List JsonField) (text : Text) : Type 0 where
    pub doc : Doc
    pub written : build fields ≡ some text
    pub some_text : is_empty text ≡ false
    pub read : parse text ≡ some doc
    pub texts :
        (key v : Text)
        → text_of_field (find_field fields key) ≡ some v
        → get_string doc key ≡ some v
    pub ints :
        (key : Text) (n : ℤ)
        → int_of_field (find_field fields key) ≡ some n
        → get_int doc key ≡ some n
    pub objects :
        (key raw : Text) (members : List JsonField)
        → raw_of_field (find_field fields key) ≡ some raw
        → build members ≡ some raw
        → get_object doc key ≡ parse raw
    pub arrays :
        (key raw : Text) (messages : List Message)
        → raw_of_field (find_field fields key) ≡ some raw
        → serialize_messages_json messages ≡ some raw
        → (d : Doc) × (get_array doc key ≡ some d)
          × (parse_messages_json (doc_to_string d) ≡ parse_messages_json raw)
