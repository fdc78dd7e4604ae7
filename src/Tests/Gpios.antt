-- ===== src/Tests/Gpios.antt =====
-- Examples for the GPIO tools, over a pin 5 whose two files are kept in memory.
use embed_agent.Base.{
  ℕ, ◌≡◌, ◌⊎◌, refl, Bool, true, false, [], ◌∷◌, ◌++◌, none, some, Text, codes, text_eq, pos,
  negsuc, if◌then◌else◌,
}
use embed_agent.Cppev.{Json}
use embed_agent.Files.{FileSystem, Made, Written}
use embed_agent.Tool.Args.{ToolArgs, arg_int, arg_string}
use embed_agent.Tool.Param.{json_escape}
use embed_agent.Tool.Escape.{read_string, read_string-json_escape}
use embed_agent.Examples.Gpio.{handle_gpio_write, handle_gpio_set_direction}
use embed_agent.Examples.Gpio.Guards.{handle_gpio_guarded}

abbrev pin_five : FileSystem
pin_five = record {
  State = Text × Text;
  stat = λ s p. none;
  mkdir = λ s p. (s, Made.failed);
  read_file = λ s p.
      if text_eq p (codes "/sys/class/gpio/gpio5/value")
      then some (s.0 ++ 10 ∷ [])
      else if text_eq p (codes "/sys/class/gpio/gpio5/direction")
      then some (s.1 ++ 10 ∷ [])
      else none;
  write_file = λ s p t.
      if text_eq p (codes "/sys/class/gpio/gpio5/value")
      then ((t, s.1), Written.whole)
      else if text_eq p (codes "/sys/class/gpio/gpio5/direction")
      then ((s.0, t), Written.whole)
      else (s, Written.unopened);
  good_before_flush = λ s p t. true;
  chmod = λ s p. (s, true);
  rename = λ s p q. (s, false);
  remove = λ s p. (s, false);
}

abbrev toy_ints : Json
toy_ints = record {
  Doc = Bool;
  empty_doc = false;
  parse = λ t. some true;
  get_string = λ d key. none;
  get_int = λ d key.
      if text_eq key (codes "pin")
      then some (pos 5)
      else if text_eq key (codes "value")
      then some (pos 1)
      else none;
  get_bool = λ d key. none;
  get_object = λ d key. none;
}

abbrev five_high : ToolArgs toy_ints
five_high = record { valid = true; doc = true }

abbrev low_input : Text × Text
low_input = (codes "0", codes "in")

abbrev no_error : Text × Text → Text
no_error s = codes "Success"

handle_gpio_guarded_example :
    let pin = arg_int toy_ints five_high (codes "pin") (negsuc 0) in
    let dir = arg_string toy_ints five_high (codes "direction") [] in
    let val = arg_int toy_ints five_high (codes "value") (negsuc 0) in
    (((handle_gpio_write pin_five toy_ints no_error low_input five_high).0 ≡ low_input)
      ⊎ (((n : ℕ) × (pin ≡ pos n)) × ((val ≡ pos 0) ⊎ (val ≡ pos 1))))
    × (((handle_gpio_set_direction pin_five toy_ints no_error low_input five_high).0 ≡ low_input)
        ⊎ (((n : ℕ) × (pin ≡ pos n)) × ((dir ≡ codes "in") ⊎ (dir ≡ codes "out"))))
handle_gpio_guarded_example = handle_gpio_guarded pin_five toy_ints no_error low_input five_high

read_string-json_escape_example :
    read_string (json_escape (codes "say \"on\"\n\\")) ≡ some (codes "say \"on\"\n\\")
read_string-json_escape_example = read_string-json_escape (codes "say \"on\"\n\\") refl
