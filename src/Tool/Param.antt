-- ===== src/Tool/Param.antt =====
-- src/ea_tool_param.cpp: the JSON Schema text of a tool's parameters.
use embed_agent.Base.{
  ℕ, Bool, true, false, not, List, [], ◌∷◌, ◌++◌, Text, codes, is_empty, ◌==◌, if◌then◌else◌,
}

-- EaParamType.
pub data ParamType : Type 0 where
  string integer number boolean : ParamType

-- EaToolParam.
pub record ToolParam : Type 0 where
  pub name : Text
  pub type : ParamType
  pub description : Text
  pub required : Bool
  pub enum_values : List Text

abbrev param_type_string : ParamType → Text
param_type_string string = codes "string"
param_type_string integer = codes "integer"
param_type_string number = codes "number"
param_type_string boolean = codes "boolean"

abbrev pub quote : ℕ
quote = 34

abbrev pub backslash : ℕ
backslash = 92

-- What one character becomes.
unfoldable pub escape_char : ℕ → Text
escape_char c =
    if c == quote
    then backslash ∷ quote ∷ []
    else if c == backslash
    then backslash ∷ backslash ∷ []
    else if c == 10
    then backslash ∷ b'n' ∷ []
    else if c == 13
    then backslash ∷ b'r' ∷ []
    else if c == 9
    then backslash ∷ b't' ∷ []
    else c ∷ []

unfoldable pub json_escape : Text → Text
unfolding escape_char
json_escape [] = []
json_escape (c ∷ cs) = escape_char c ++ json_escape cs

abbrev quoted : Text → Text
quoted s = quote ∷ s ++ quote ∷ []

-- `items` with a comma between each two.
abbrev join_commas : List Text → Text
join_commas [] = []
join_commas (t ∷ []) = t
join_commas (t ∷ (u ∷ us)) = t ++ b',' ∷ join_commas (u ∷ us)

abbrev is_numeric : ParamType → Bool
is_numeric integer = true
is_numeric number = true
is_numeric _ = false

unfoldable enum_value : ParamType → Text → Text
unfolding json_escape
enum_value type v = if is_numeric type then v else quoted (json_escape v)

abbrev map_enum : ParamType → List Text → List Text
map_enum type [] = []
map_enum type (v ∷ vs) = enum_value type v ∷ map_enum type vs

-- The entry of one parameter.
unfoldable property_json : ToolParam → Text
unfolding json_escape enum_value
property_json p =
    quoted (json_escape p.name)
    ++ (codes ":{\"type\":"
        ++ (quoted (param_type_string p.type)
            ++ ((if not (is_empty p.description)
                  then codes ",\"description\":" ++ quoted (json_escape p.description)
                  else [])
                ++ ((if not (is_empty p.enum_values)
                      then codes ",\"enum\":["
                        ++ (join_commas (map_enum p.type p.enum_values) ++ codes "]")
                      else [])
                    ++ codes "}"))))

abbrev map_properties : List ToolParam → List Text
map_properties [] = []
map_properties (p ∷ ps) = property_json p ∷ map_properties ps

abbrev required_names : List ToolParam → List Text
required_names [] = []
required_names (p ∷ ps) =
    let rest = required_names ps in if p.required then quoted (json_escape p.name) ∷ rest else rest

-- The list is written only where some parameter is required.
unfoldable required_json : List Text → Text
required_json [] = []
required_json (n ∷ ns) = codes ",\"required\":[" ++ (join_commas (n ∷ ns) ++ codes "]")

unfoldable pub build_parameters_json : List ToolParam → Text
unfolding property_json required_json
build_parameters_json params =
    codes "{\"type\":\"object\",\"properties\":{"
    ++ (join_commas (map_properties params)
        ++ (codes "}" ++ (required_json (required_names params) ++ codes "}")))
