-- ===== src/Tool/Registry.antt =====
-- EaToolRegistry (src/ea_tool_registry.cpp). A handler is a function of the arguments' text; what
-- it does to the device is outside of the model.
use embed_agent.Base.{
  Bool, true, false, not, ◌||◌, List, [], ◌∷◌, ◌++◌, Option, none, some, Text, is_empty,
  if◌then◌else◌, text_eq,
}
use embed_agent.Cppev.{ToolDef, Json}
use embed_agent.Tool.Param.{ToolParam, build_parameters_json}
use embed_agent.Tool.Args.{ToolArgs, tool_args}

-- EaToolHandler: the bool that it returns and the result text that it writes.
abbrev Handler : Type 0
Handler = Text → Bool × Text

-- EaToolSpec; `none` is a null handler.
pub record ToolSpec : Type 0 where
  pub def : ToolDef
  pub handler : Option Handler

abbrev pub Registry : Type 0
Registry = List ToolSpec

abbrev pub is_null : Option Handler → Bool
is_null none = true
is_null (some h) = false

-- Whether the first loop of registerTool finds the name.
unfoldable pub has_tool : Registry → Text → Bool
unfolding text_eq
has_tool [] name = false
has_tool (t ∷ ts) name = text_eq t.def.name name || has_tool ts name

unfoldable pub register_tool : Registry → ToolSpec → Registry × Bool
unfolding has_tool
register_tool tools spec =
    if is_empty spec.def.name || is_null spec.handler
    then (tools, false)
    else if has_tool tools spec.def.name
    then (tools, false)
    else (tools ++ spec ∷ [], true)

abbrev pub call_handler : Option Handler → Text → Option Text
call_handler none args = none
call_handler (some h) args = if (h args).0 then some (h args).1 else none

-- The result text where invoke returns true. `out` says that `resultJson` is not null.
unfoldable pub find_and_call : Registry → Text → Text → Option Text
unfolding text_eq
find_and_call [] name args = none
find_and_call (t ∷ ts) name args =
    let rest = find_and_call ts name args in
    if text_eq t.def.name name then call_handler t.handler args else rest

unfoldable pub invoke : Registry → Text → Text → Bool → Option Text
unfolding find_and_call
invoke tools name args out = if not out then none else find_and_call tools name args

unfoldable pub tool_definitions : Registry → List ToolDef
tool_definitions [] = []
tool_definitions (t ∷ ts) = t.def ∷ tool_definitions ts

module _ (J : Json) where
  -- EaToolArgsHandler.
  abbrev pub ArgsHandler : Type 0
  ArgsHandler = ToolArgs J → Bool × Text

  -- The lambda around a typed handler.
  abbrev wrap_handler : ArgsHandler → Handler
  wrap_handler h args_json = h (tool_args J args_json)

  abbrev pub wrap : Option ArgsHandler → Option Handler
  wrap none = none
  wrap (some h) = some (wrap_handler h)

  abbrev is_null_args : Option ArgsHandler → Bool
  is_null_args none = true
  is_null_args (some h) = false

  -- The overload with a list of parameters.
  unfoldable pub register_typed_tool :
      Registry → Text → Text → List ToolParam → Option ArgsHandler → Registry × Bool
  unfolding register_tool
  register_typed_tool tools name description params handler =
      if is_empty name || is_null_args handler
      then (tools, false)
      else register_tool tools (record {
        def = record {
          name = name;
          description = description;
          parameters_json = build_parameters_json params;
        };
        handler = wrap handler;
      })
