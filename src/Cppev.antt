-- ===== src/Cppev.antt =====
-- The data of the cppev library that EmbedAgent reads and writes, by the fields that it uses.

pub mod Reading
use embed_agent.Base.{Text, List, Option, Bool, ℤ}

-- cppev::ext::EvLlmToolCall.
pub record ToolCall : Type 0 where
  pub id : Text
  pub name : Text
  pub arguments : Text

-- cppev::ext::EvLlmMessage.
pub record Message : Type 0 where
  pub role : Text
  pub content : Text
  pub tool_call_id : Text
  pub tool_calls : List ToolCall

-- cppev::ext::EvLlmToolDef.
pub record ToolDef : Type 0 where
  pub name : Text
  pub description : Text
  pub parameters_json : Text

-- cppev::ext::EvJsonDocument: a parsed document and the typed getters, `none` where they return
-- false.
pub record Json : Type 1 where
  pub Doc : Type 0
  pub empty_doc : Doc
  pub parse : Text → Option Doc
  pub get_string : Doc → Text → Option Text
  pub get_int : Doc → Text → Option ℤ
  pub get_bool : Doc → Text → Option Bool
  pub get_object : Doc → Text → Option Doc

-- cppev::ext::EvLlmChatRequest.
pub record ChatRequest : Type 0 where
  pub model : Text
  pub messages : List Message
  pub tools : List ToolDef
  pub stream : Bool
  pub tool_choice : Text

-- cppev::ext::EvLlmChatResponse.
pub record ChatResponse : Type 0 where
  pub content : Text
  pub finish_reason : Text
  pub tool_calls : List ToolCall

-- The JSON codec of chats, the parser of server-sent events and the accumulator of stream deltas.
-- `feed` gives the payloads for which the data callback is called.
pub record ChatCodec : Type 1 where
  pub parse_chat_response : Text → Option ChatResponse
  pub build_chat_request_json : ChatRequest → Option Text
  pub Delta : Type 0
  pub delta_content : Delta → Text
  pub content_delta : Text → Delta
  pub parse_stream_delta : Text → Option Delta
  pub Parser : Type 0
  pub new_parser : Parser
  pub feed : Parser → Text → Parser × List Text × Bool
  pub Accumulator : Type 0
  pub new_accumulator : Accumulator
  pub apply_delta : Accumulator → Delta → Accumulator
  pub accumulated : Accumulator → ChatResponse

-- The members that cppev::ext::EvJsonBuilder adds to an object.
pub data JsonField : Type 0 where
  text_field : Text → Text → JsonField
  int_field : Text → ℤ → JsonField
  raw_field : Text → Text → JsonField

-- A JSON library: the documents, `finish` of a builder for an object of the members given, and the
-- messages of a chat.
pub record JsonCodec : Type 1 where
  pub json : Json
  pub build : List JsonField → Option Text
  pub get_array : json.Doc → Text → Option json.Doc
  pub doc_to_string : json.Doc → Text
  pub serialize_messages_json : List Message → Option Text
  pub parse_messages_json : Text → Option (List Message)
