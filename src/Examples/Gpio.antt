-- ===== src/Examples/Gpio.antt =====
-- The GPIO tools of examples/tool_call_demo/ea_tool_gpio.cpp, over the files of sysfs.
pub mod Messages
pub mod Guards
pub mod Level
pub mod Registration
use embed_agent.Base.{
  ℕ, ◌-◌, Bool, true, false, not, ◌&&◌, ◌||◌, [], ◌∷◌, ◌++◌, Option, none, some, Text, codes,
  is_empty, is_space, take, if◌then◌else◌, text_eq, ℤ, pos, negsuc, int_to_string, ◌==◌,
}
use embed_agent.Files.{FileSystem, Written}
use embed_agent.Storage.{is_open}
use embed_agent.Cppev.{Json}
use embed_agent.Tool.Args.{ToolArgs, arg_int, arg_string, is_some}
use embed_agent.Examples.Stream.{printed, first_word, word_of}

abbrev gpio_dir : ℤ → Text
gpio_dir pin = codes "/sys/class/gpio/gpio" ++ int_to_string pin

abbrev pub value_path : ℤ → Text
value_path pin = gpio_dir pin ++ codes "/value"

abbrev pub direction_path : ℤ → Text
direction_path pin = gpio_dir pin ++ codes "/direction"

abbrev pub is_negative : ℤ → Bool
is_negative (pos n) = false
is_negative (negsuc n) = true

-- Whether a value is 0 or 1.
abbrev pub is_level : ℤ → Bool
is_level (pos n) = n == 0 || n == 1
is_level (negsuc n) = false

abbrev pub level_text : ℤ → Text
level_text (pos n) = if n == 1 then codes "1" else codes "0"
level_text (negsuc n) = codes "0"

abbrev invalid_pin : Text
invalid_pin = codes "{\"error\":\"invalid pin number\"}"

abbrev invalid_level : Text
invalid_level = codes "{\"error\":\"invalid pin or value (must be 0 or 1)\"}"

abbrev invalid_direction : Text
invalid_direction = codes "{\"error\":\"direction must be \\\"in\\\" or \\\"out\\\"\"}"

abbrev pub written_message : ℤ → ℤ → Text
written_message pin val =
    codes "{\"ok\":true,\"pin\":"
    ++ (int_to_string pin ++ (codes ",\"value\":" ++ (int_to_string val ++ codes "}")))

abbrev pub directed_message : ℤ → Text → Text
directed_message pin dir =
    codes "{\"ok\":true,\"pin\":"
    ++ (int_to_string pin ++ (codes ",\"direction\":\"" ++ (dir ++ codes "\"}")))

abbrev pub read_message : ℤ → Text → Text → Text
read_message pin value direction =
    codes "{\"pin\":"
    ++ (int_to_string pin
        ++ (codes ",\"value\":"
            ++ (value
                ++ (codes ",\"direction\":\""
                    ++ ((if is_empty direction then codes "unknown" else direction)
                        ++ codes "\"}")))))

-- `errno_text` is std::strerror(errno).
module _ (F : FileSystem) (J : Json) (errno_text : F.State → Text) where
  open F use {State, read_file, write_file, good_before_flush}

  unfoldable pub gpio_is_exported : State → ℤ → Bool
  gpio_is_exported s pin = is_some (read_file s (value_path pin))

  -- The stream is asked before its buffer is flushed.
  unfoldable pub gpio_write_file : State → Text → Text → State × Bool
  gpio_write_file s path value =
      let w = write_file s path value in (w.0, is_open w.1 && good_before_flush s path value)

  unfoldable gpio_export : State → ℤ → State × Bool
  unfolding gpio_is_exported gpio_write_file
  gpio_export s pin =
      if gpio_is_exported s pin
      then (s, true)
      else gpio_write_file s (codes "/sys/class/gpio/export") (int_to_string pin)

  unfoldable pub gpio_read_file : State → Text → Text
  unfolding first_word
  gpio_read_file s path = word_of (read_file s path)

  -- `gpioIsExported(pin) || gpioExport(pin)`.
  unfoldable pub exported : State → ℤ → State × Bool
  unfolding gpio_is_exported gpio_export
  exported s pin = if gpio_is_exported s pin then (s, true) else gpio_export s pin

  abbrev pub failed : State → Text → ℤ → Text → State × Bool × Text
  failed s before pin after = (
    s,
    true,
    printed 128 (
        codes "{\"error\":\""
        ++ (before ++ (int_to_string pin ++ (after ++ (errno_text s ++ codes "\"}"))))),
  )

  abbrev unexported : State → ℤ → State × Bool × Text
  unexported s pin = failed s (codes "cannot export pin ") pin (codes ": ")

  unfoldable pub read_pin : State → ℤ → State × Bool × Text
  unfolding gpio_read_file
  read_pin s pin =
      let value = gpio_read_file s (value_path pin) in
      if is_empty value
      then (
        s,
        true,
        printed 128 (codes "{\"error\":\"cannot read pin " ++ (int_to_string pin ++ codes "\"}")),
      )
      else (s, true, printed 128 (read_message pin value (gpio_read_file s (direction_path pin))))

  -- The files after it, the bool that it returns, and its result.
  unfoldable pub handle_gpio_read : State → ToolArgs J → State × Bool × Text
  unfolding exported read_pin arg_int
  handle_gpio_read s args =
      let pin = arg_int J args (codes "pin") (negsuc 0) in
      if is_negative pin
      then (s, true, invalid_pin)
      else (let e = exported s pin in if not e.1 then unexported e.0 pin else read_pin e.0 pin)

  -- The direction is set where it is not "out"; whether that succeeds is not looked at.
  unfoldable pub turn_out : State → ℤ → State
  unfolding gpio_read_file gpio_write_file text_eq
  turn_out s pin =
      if not (text_eq (gpio_read_file s (direction_path pin)) (codes "out"))
      then (gpio_write_file s (direction_path pin) (codes "out")).0
      else s

  unfoldable pub write_pin : State → ℤ → ℤ → State × Bool × Text
  unfolding turn_out gpio_write_file
  write_pin s pin val =
      let w = gpio_write_file (turn_out s pin) (value_path pin) (level_text val) in
      if not w.1
      then failed w.0 (codes "write to pin ") pin (codes " failed: ")
      else (w.0, true, printed 64 (written_message pin val))

  unfoldable pub handle_gpio_write : State → ToolArgs J → State × Bool × Text
  unfolding exported write_pin arg_int
  handle_gpio_write s args =
      let pin = arg_int J args (codes "pin") (negsuc 0) in
      let val = arg_int J args (codes "value") (negsuc 0) in
      if is_negative pin || not (is_level val)
      then (s, true, invalid_level)
      else (let e = exported s pin in if not e.1 then unexported e.0 pin else write_pin e.0 pin val)

  unfoldable direct_pin : State → ℤ → Text → State × Bool × Text
  unfolding gpio_write_file
  direct_pin s pin dir =
      let w = gpio_write_file s (direction_path pin) dir in
      if not w.1
      then failed w.0 (codes "set direction on pin ") pin (codes " failed: ")
      else (w.0, true, printed 64 (directed_message pin dir))

  unfoldable pub handle_gpio_set_direction : State → ToolArgs J → State × Bool × Text
  unfolding exported direct_pin arg_int arg_string text_eq
  handle_gpio_set_direction s args =
      let pin = arg_int J args (codes "pin") (negsuc 0) in
      let dir = arg_string J args (codes "direction") [] in
      if is_negative pin
      then (s, true, invalid_pin)
      else if not (text_eq dir (codes "in") || text_eq dir (codes "out"))
      then (s, true, invalid_direction)
      else (let e = exported s pin in
          if not e.1 then unexported e.0 pin else direct_pin e.0 pin dir)
