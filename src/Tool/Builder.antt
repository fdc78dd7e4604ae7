-- ===== src/Tool/Builder.antt =====
-- EaToolBuilder (include/ea_tool_builder.h).
use embed_agent.Base.{Bool, List, [], ◌∷◌, ◌++◌, Option, none, some, Text}
use embed_agent.Cppev.{Json}
use embed_agent.Tool.Param.{ParamType, ToolParam, build_parameters_json}
use embed_agent.Tool.Registry.{ToolSpec, ArgsHandler, wrap}

module _ (J : Json) where
  pub record ToolBuilder : Type 0 where
    pub tool_name : Text
    pub tool_description : Text
    pub params : List ToolParam
    pub args_handler : Option (ArgsHandler J)

  abbrev pub new_builder : ToolBuilder
  new_builder = record { tool_name = []; tool_description = []; params = []; args_handler = none }

  abbrev pub name : ToolBuilder → Text → ToolBuilder
  name b n = record b { tool_name = n }

  abbrev pub description : ToolBuilder → Text → ToolBuilder
  description b d = record b { tool_description = d }

  -- enumParam; `param` is the case of no values.
  abbrev pub enum_param : ToolBuilder → Text → ParamType → Text → List Text → Bool → ToolBuilder
  enum_param b param_name type desc values required = record b {
    params =
        b.params
        ++ record {
          name = param_name;
          type = type;
          description = desc;
          required = required;
          enum_values = values;
        }
          ∷ [];
  }

  abbrev pub param : ToolBuilder → Text → ParamType → Text → Bool → ToolBuilder
  param b param_name type desc required = enum_param b param_name type desc [] required

  abbrev pub handler : ToolBuilder → ArgsHandler J → ToolBuilder
  handler b h = record b { args_handler = some h }

  -- buildParametersJson cannot fail here: its output pointer is not null.
  unfoldable pub build : ToolBuilder → ToolSpec
  build b = record {
    def = record {
      name = b.tool_name;
      description = b.tool_description;
      parameters_json = build_parameters_json b.params;
    };
    handler = wrap J b.args_handler;
  }
