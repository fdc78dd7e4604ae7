-- ===== src/Tool/Args.antt =====
-- src/ea_tool_args.cpp over the JSON documents of cppev.
use embed_agent.Base.{Bool, true, false, Option, none, some, Text, ℤ, is_empty, if◌then◌else◌}
use embed_agent.Cppev.{Json}
use embed_agent.Doubles.{Doubles}

abbrev pub or_default {ℓ} : {A : Type ℓ} → Option A → A → A
or_default none d = d
or_default (some a) d = a

abbrev pub is_some {ℓ} : {A : Type ℓ} → Option A → Bool
is_some none = false
is_some (some a) = true

module _ (J : Json) where
  open J use {Doc, empty_doc, parse, get_string, get_int, get_bool, get_object}

  -- EaToolArgs.
  pub record ToolArgs : Type 0 where
    pub valid : Bool
    pub doc : Doc

  unfoldable pub tool_args : Text → ToolArgs
  tool_args args_json =
      if is_empty args_json
      then record { valid = false; doc = empty_doc }
      else elim (parse args_json) [
        | none ↦ record { valid = false; doc = empty_doc }
        | some d ↦ record { valid = true; doc = d }
      ]

  unfoldable pub arg_string : ToolArgs → Text → Text → Text
  arg_string a key def = if a.valid then or_default (get_string a.doc key) def else def

  unfoldable pub arg_int : ToolArgs → Text → ℤ → ℤ
  arg_int a key def = if a.valid then or_default (get_int a.doc key) def else def

  -- getDouble: the documents have numbers of type int only.
  abbrev widened : (D : Doubles) → Option ℤ → D.Double → D.Double
  widened D none def = def
  widened D (some n) def = D.of_int n

  unfoldable arg_double : (D : Doubles) → ToolArgs → Text → D.Double → D.Double
  arg_double D a key def = if a.valid then widened D (get_int a.doc key) def else def

  unfoldable arg_bool : ToolArgs → Text → Bool → Bool
  arg_bool a key def = if a.valid then or_default (get_bool a.doc key) def else def

  unfoldable pub has : ToolArgs → Text → Bool
  has a key =
      if a.valid
      then (if is_some (get_string a.doc key)
          then true
          else if is_some (get_int a.doc key)
          then true
          else if is_some (get_bool a.doc key)
          then true
          else is_some (get_object a.doc key))
      else false
