-- ===== src/Examples/Gpio/Registration.antt =====
-- registerGpioTools (examples/tool_call_demo/ea_tool_gpio.cpp).
use embed_agent.Base.{Bool, true, [], ◌∷◌, ◌++◌, some, Text, codes}
use embed_agent.Files.{FileSystem}
use embed_agent.Cppev.{Json}
use embed_agent.Tool.Args.{ToolArgs}
use embed_agent.Tool.Param.{ToolParam, string, integer}
use embed_agent.Tool.Registry.{Registry, ToolSpec, register_tool, register_typed_tool}
use embed_agent.Tool.Builder.{new_builder, name, description, param, enum_param, handler, build}
use embed_agent.Examples.Gpio.{handle_gpio_read, handle_gpio_write, handle_gpio_set_direction}

abbrev pin_text : Text
pin_text = codes "GPIO pin number (BCM / sysfs index)"

abbrev pin_param : ToolParam
pin_param = record {
  name = codes "pin";
  type = integer;
  description = pin_text;
  required = true;
  enum_values = [];
}

module _ (F : FileSystem) (J : Json) (errno_text : F.State → Text) where
  open F use {State}

  -- What a handler returns and prints.
  abbrev printed_result : State × Bool × Text → Bool × Text
  printed_result r = (r.1, r.2)

  unfoldable write_spec : State → ToolSpec
  unfolding handle_gpio_write build
  write_spec s =
      let named = name J (new_builder J) (codes "gpio_write") in
      let described = description J named (
        codes "Drive a GPIO output pin to logic high (1) or low (0) via the Linux "
        ++ (codes "sysfs interface. Automatically sets direction to output. "
            ++ codes "The pin is auto-exported if needed.")) in
      let with_pin = param J described (codes "pin") integer pin_text true in
      let with_value =
        enum_param J with_pin (codes "value") integer (codes "Output level: 0 = low, 1 = high")
          (codes "0" ∷ (codes "1" ∷ [])) true in
      build J (
        handler J with_value
          (λ (args : ToolArgs J). printed_result (handle_gpio_write F J errno_text s args)))

  unfoldable direction_spec : State → ToolSpec
  unfolding handle_gpio_set_direction build
  direction_spec s =
      let named = name J (new_builder J) (codes "gpio_set_direction") in
      let described = description J named (
        codes "Configure a GPIO pin as an input or output via the Linux sysfs "
        ++ codes "interface. The pin is auto-exported if needed.") in
      let with_pin = param J described (codes "pin") integer pin_text true in
      let with_direction =
        enum_param J with_pin (codes "direction") string (codes "Pin direction: \"in\" or \"out\"")
          (codes "in" ∷ (codes "out" ∷ [])) true in
      build J (
        handler J with_direction
          (λ (args : ToolArgs J). printed_result (handle_gpio_set_direction F J errno_text s args)))

  -- The handlers read and write the files as they are when they are called: the tools here are those
  -- at a time when the files are in the state `s`, with what they print but not what they write.
  unfoldable pub register_gpio_tools : State → Registry → Registry
  unfolding register_tool register_typed_tool write_spec direction_spec handle_gpio_read
  register_gpio_tools s tools =
      let one =
        (register_typed_tool J tools (codes "gpio_read")
          (codes "Read the current logic level (0 or 1) and direction of a GPIO pin "
            ++ (codes "via the Linux sysfs interface. "
                ++ codes "The pin is auto-exported if not already accessible."))
          (pin_param ∷ [])
          (some
            (λ (args : ToolArgs J). printed_result (handle_gpio_read F J errno_text s args)))).0 in
      (register_tool (register_tool one (write_spec s)).0 (direction_spec s)).0
