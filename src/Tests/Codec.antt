-- ===== src/Tests/Codec.antt =====
-- A JSON library for the examples. It writes each member as three chunks with a zero behind each:
-- its kind, its key and its value, the characters of texts moved up by 11; it reads them back.
use embed_agent.Base.{
  ◌+◌, ◌-◌, ◌≡◌, refl, ap, ◌∙◌, true, false, List, [], ◌∷◌, ◌++◌, Option, none, some, Text, ℤ, pos,
  negsuc, map, arith, if◌then◌else◌, ◌==◌, is_empty,
}
use embed_agent.Cppev.{JsonCodec, JsonField, text_field, int_field, raw_field, Message}
use embed_agent.Cppev.Reading.{IsRead, find_field, text_of_field, int_of_field, raw_of_field}
use embed_agent.OfflineQueue.File.{cons_char}
use embed_agent.OfflineQueue.Reload.{one_line}
use embed_agent.Examples.Stream.Reads.{lacks}

abbrev shifted : Text → Text
shifted [] = []
shifted (c ∷ cs) = (c + 11) ∷ shifted cs

abbrev unshifted : Text → Text
unshifted [] = []
unshifted (c ∷ cs) = (c - 11) ∷ unshifted cs

abbrev number_code : ℤ → Text
number_code (pos n) = 1 ∷ (n + 11) ∷ []
number_code (negsuc n) = 2 ∷ (n + 11) ∷ []

abbrev chunks_of : JsonField → Text × Text × Text
chunks_of (text_field key v) = (3 ∷ [], shifted key, shifted v)
chunks_of (int_field key n) = (4 ∷ [], shifted key, number_code n)
chunks_of (raw_field key v) = (5 ∷ [], shifted key, shifted v)

abbrev put_chunks : Text × Text × Text → Text → Text
put_chunks (a, b, c) rest = a ++ 0 ∷ (b ++ 0 ∷ (c ++ 0 ∷ rest))

abbrev pub fields_code : List JsonField → Text
fields_code [] = []
fields_code (f ∷ fs) = put_chunks (chunks_of f) (fields_code fs)

unfoldable pub chunks : Text → List Text
chunks [] = []
chunks (c ∷ cs) = let rest = chunks cs in if c == 0 then [] ∷ rest else cons_char c rest

abbrev number : Text → ℤ
number (c ∷ (n ∷ [])) = if c == 2 then negsuc (n - 11) else pos (n - 11)
number _ = pos 0

abbrev field_of : Text → Text → Text → JsonField
field_of (c ∷ []) key v =
    if c == 3
    then text_field (unshifted key) (unshifted v)
    else if c == 4
    then int_field (unshifted key) (number v)
    else raw_field (unshifted key) (unshifted v)
field_of _ key v = raw_field (unshifted key) (unshifted v)

abbrev pub decoded : List Text → List JsonField
decoded (a ∷ (b ∷ (c ∷ rest))) = field_of a b c ∷ decoded rest
decoded _ = []

abbrev message_field : Message → JsonField
message_field m = text_field m.role m.content

abbrev message_of : JsonField → Message
message_of (text_field role content) = record {
  role = role;
  content = content;
  tool_call_id = [];
  tool_calls = [];
}
message_of _ = record { role = []; content = []; tool_call_id = []; tool_calls = [] }

abbrev pub object_in : Option Text → Option (List JsonField)
object_in none = none
object_in (some t) = some (decoded (chunks t))

-- An array is kept as its text.
abbrev pub array_in : Option Text → Option (List JsonField)
array_in none = none
array_in (some t) = some (raw_field [] t ∷ [])

abbrev pub array_text : List JsonField → Text
array_text (raw_field key t ∷ []) = t
array_text _ = []

abbrev pub chunk_json : JsonCodec
chunk_json = record {
  json = record {
    Doc = List JsonField;
    empty_doc = [];
    parse = λ t. some (decoded (chunks t));
    get_string = λ d key. text_of_field (find_field d key);
    get_int = λ d key. int_of_field (find_field d key);
    get_bool = λ d key. none;
    get_object = λ d key. object_in (raw_of_field (find_field d key));
  };
  build = λ fields. some (fields_code fields);
  get_array = λ d key. array_in (raw_of_field (find_field d key));
  doc_to_string = array_text;
  serialize_messages_json = λ ms. some (fields_code (map message_field ms));
  parse_messages_json = λ t. some (map message_of (decoded (chunks t)));
}

unshifted-shifted : (t : Text) → unshifted (shifted t) ≡ t
unshifted-shifted [] = refl
unshifted-shifted (c ∷ t) = ground (arith, unshifted-shifted t)

one_line-append : (s t : Text) → one_line s ≡ true → one_line t ≡ true → one_line (s ++ t) ≡ true
one_line-append [] t hs ht = ht
one_line-append (c ∷ s) t hs ht = ground (arith, one_line-append s t)

one_line-shifted : (t : Text) → one_line (shifted t) ≡ true
one_line-shifted [] = refl
one_line-shifted (c ∷ t) = ground (arith, one_line-shifted t)

lacks-shifted : (t : Text) → lacks 0 (shifted t) ≡ true
lacks-shifted [] = refl
lacks-shifted (c ∷ t) = ground (arith, lacks-shifted t)

-- A chunk is in one line and has no zero.
abbrev IsPlain : Text → Type 0
IsPlain t = (one_line t ≡ true) × (lacks 0 t ≡ true)

number_code-IsPlain : (n : ℤ) → IsPlain (number_code n)
number_code-IsPlain (pos n) = ground arith
number_code-IsPlain (negsuc n) = ground arith

shifted-IsPlain : (t : Text) → IsPlain (shifted t)
shifted-IsPlain t = (one_line-shifted t, lacks-shifted t)

chunks_of-IsPlain :
    (f : JsonField) → IsPlain (chunks_of f).0 × IsPlain (chunks_of f).1 × IsPlain (chunks_of f).2
chunks_of-IsPlain (text_field key v) = ((refl, refl), shifted-IsPlain key, shifted-IsPlain v)
chunks_of-IsPlain (int_field key n) = ((refl, refl), shifted-IsPlain key, number_code-IsPlain n)
chunks_of-IsPlain (raw_field key v) = ((refl, refl), shifted-IsPlain key, shifted-IsPlain v)

pub one_line-fields_code : (fs : List JsonField) → one_line (fields_code fs) ≡ true
one_line-fields_code [] = refl
one_line-fields_code (f ∷ fs) =
    let (a, b, c) = chunks_of-IsPlain f in
    let (x, y, z) = chunks_of f in
    one_line-append x (0 ∷ (y ++ 0 ∷ (z ++ 0 ∷ fields_code fs))) a.0 (
      one_line-append y (0 ∷ (z ++ 0 ∷ fields_code fs)) b.0
        (one_line-append z (0 ∷ fields_code fs) c.0 (one_line-fields_code fs)))

chunks-append : (t rest : Text) → lacks 0 t ≡ true → chunks (t ++ 0 ∷ rest) ≡ t ∷ chunks rest
unfolding chunks
chunks-append [] rest h = refl
chunks-append (c ∷ t) rest h = ground (arith, h, chunks-append t rest)

number-number_code : (n : ℤ) → number (number_code n) ≡ n
number-number_code (pos n) = ap pos (omega arith)
number-number_code (negsuc n) = ap negsuc (omega arith)

field_of-chunks_of : (f : JsonField) → field_of (chunks_of f).0 (chunks_of f).1 (chunks_of f).2 ≡ f
field_of-chunks_of (text_field key v) = rw (unshifted-shifted key, unshifted-shifted v) refl
field_of-chunks_of (int_field key n) = rw (unshifted-shifted key, number-number_code n) refl
field_of-chunks_of (raw_field key v) = rw (unshifted-shifted key, unshifted-shifted v) refl

decoded-fields_code : (fs : List JsonField) → decoded (chunks (fields_code fs)) ≡ fs
unfolding chunks
decoded-fields_code [] = refl
decoded-fields_code (f ∷ fs) =
    let (a, b, c) = chunks_of-IsPlain f in
    let (x, y, z) = chunks_of f in
    ap decoded (
      chunks-append x (y ++ 0 ∷ (z ++ 0 ∷ fields_code fs)) a.1
      ∙ ap (◌∷◌ x) (
          chunks-append y (z ++ 0 ∷ fields_code fs) b.1
          ∙ ap (◌∷◌ y) (chunks-append z (fields_code fs) c.1)))
    ∙ (ap (λ (g : JsonField). g ∷ decoded (chunks (fields_code fs))) (field_of-chunks_of f)
        ∙ ap (◌∷◌ f) (decoded-fields_code fs))

is_empty-put : (x rest : Text) → is_empty (x ++ 0 ∷ rest) ≡ false
is_empty-put [] rest = refl
is_empty-put (c ∷ x) rest = refl

-- An object with at least one member is read back.
pub chunk_json-IsRead :
    (f : JsonField) (fs : List JsonField) → IsRead chunk_json (f ∷ fs) (fields_code (f ∷ fs))
chunk_json-IsRead f fs = record {
  doc = f ∷ fs;
  written = refl;
  some_text = is_empty-put (chunks_of f).0 _;
  read = ap some (decoded-fields_code (f ∷ fs));
  texts = λ key v h. h;
  ints = λ key n h. h;
  objects = λ key raw members h b. ap object_in h;
  arrays = λ key raw messages h b. (raw_field [] raw ∷ [], ap array_in h, refl);
}

pub messages_read-chunk_json :
    (ms : List Message)
    → chunk_json.parse_messages_json (fields_code (map message_field ms))
      ≡ some (map message_of (map message_field ms))
messages_read-chunk_json ms = ap (λ fs. some (map message_of fs)) (decoded-fields_code _)
