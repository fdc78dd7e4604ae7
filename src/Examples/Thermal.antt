-- ===== src/Examples/Thermal.antt =====
-- The tools of examples/tool_call_demo/ea_tool_thermal.cpp, over the files of sysfs.
pub mod Zones
use embed_agent.Base.{
  ℕ, Bool, true, false, not, ◌||◌, List, [], ◌∷◌, ◌++◌, Option, none, some, Text, codes,
  if◌then◌else◌, starts_with, contains, ℤ, pos, map,
}
use embed_agent.Files.{FileSystem}
use embed_agent.Cppev.{Json}
use embed_agent.Doubles.{Doubles}
use embed_agent.Tool.Args.{ToolArgs}
use embed_agent.Tool.Registry.{Registry, register_typed_tool}
use embed_agent.Examples.Stream.{
  Stream, stream, in_signed, word_of, first_word, or_text, printed, json_str, json_chars, listed,
}

abbrev pub thermal_path : Text → Text → Text
thermal_path name file = codes "/sys/class/thermal/" ++ (name ++ (codes "/" ++ file))

-- Whether the type of a zone is that of a processor.
unfoldable pub is_cpu_type : Text → Bool
unfolding contains
is_cpu_type t = contains t (codes "cpu") || contains t (codes "x86_pkg") || contains t (codes "soc")

abbrev no_zone : Text
no_zone = codes "{\"error\":\"no thermal zone available\"}"

-- `entries` are the names in /sys/class/thermal, `none` where it cannot be opened.
module _ (F : FileSystem) (J : Json) (D : Doubles) (entries : F.State → Option (List Text)) where
  open F use {State, read_file}
  open D use {Double, literal, of_int, to_int, add, mul, div, fixed}

  pub record ThermalZone : Type 0 where
    pub name : Text
    pub type : Text
    pub temp_c : Double

  abbrev number_read : Stream × ℤ → Option ℤ
  number_read r = if r.0.good then some r.1 else none

  -- readThermalMilliC: the number, `none` where it returns false. What it then leaves in the
  -- variable is not read.
  unfoldable pub read_thermal_milli_c : State → Text → Option ℤ
  unfolding in_signed
  read_thermal_milli_c s path = elim (read_file s path) [
    | none ↦ none
    | some text ↦ number_read (in_signed 64 (stream text) (pos 0))
  ]

  unfoldable read_thermal_type : State → Text → Text
  unfolding first_word
  read_thermal_type s name =
      or_text (word_of (read_file s (thermal_path name (codes "type")))) (codes "unknown")

  abbrev thousandths : ℤ → Double
  thousandths millic = div (of_int millic) (literal (codes "1000.0"))

  abbrev zone_of : State → Text → ℤ → ThermalZone
  zone_of s n millic = record {
    name = n;
    type = read_thermal_type s n;
    temp_c = thousandths millic;
  }

  abbrev add_zone : State → Text → Option ℤ → List ThermalZone → List ThermalZone
  add_zone s n none zones = zones
  add_zone s n (some millic) zones = zone_of s n millic ∷ zones

  unfoldable scan_names : State → List Text → List ThermalZone
  unfolding starts_with read_thermal_milli_c read_thermal_type
  scan_names s [] = []
  scan_names s (n ∷ ns) =
      let rest = scan_names s ns in
      if starts_with n (codes "thermal_zone")
      then add_zone s n (read_thermal_milli_c s (thermal_path n (codes "temp"))) rest
      else rest

  abbrev names_in : Option (List Text) → List Text
  names_in none = []
  names_in (some ns) = ns

  unfoldable pub scan_thermal_zones : State → List ThermalZone
  unfolding scan_names
  scan_thermal_zones s = scan_names s (names_in (entries s))

  -- The temperature of the first zone of a processor, in millidegrees.
  unfoldable pub first_cpu_zone : List ThermalZone → Option ℤ
  unfolding is_cpu_type
  first_cpu_zone [] = none
  first_cpu_zone (z ∷ zs) =
      let rest = first_cpu_zone zs in
      if is_cpu_type z.type then some (to_int (mul z.temp_c (of_int (pos 1000)))) else rest

  abbrev pub or_else : Option ℤ → Option ℤ → Option ℤ
  or_else none other = other
  or_else (some n) other = some n

  unfoldable pub cpu_milli_c : State → Option ℤ
  unfolding read_thermal_milli_c first_cpu_zone scan_thermal_zones
  cpu_milli_c s =
      or_else (read_thermal_milli_c s (thermal_path (codes "thermal_zone0") (codes "temp")))
        (first_cpu_zone (scan_thermal_zones s))

  abbrev pub fahrenheit : Double → Double
  fahrenheit c =
      add (div (mul c (literal (codes "9.0"))) (literal (codes "5.0"))) (literal (codes "32.0"))

  unfoldable pub temperature_message : Double → Text
  temperature_message c = printed 128 (
      codes "{\"temp_c\":"
      ++ (fixed 1 c ++ (codes ",\"temp_f\":" ++ (fixed 1 (fahrenheit c) ++ codes "}"))))

  abbrev pub temperature_result : Option ℤ → Bool × Text
  temperature_result none = (true, no_zone)
  temperature_result (some millic) = (true, temperature_message (thousandths millic))

  unfoldable pub handle_read_cpu_temperature : State → ToolArgs J → Bool × Text
  unfolding cpu_milli_c temperature_message
  handle_read_cpu_temperature s args = temperature_result (cpu_milli_c s)

  unfoldable zone_entry : ThermalZone → Text
  unfolding json_chars
  zone_entry z = printed 256 (
      codes "{\"zone\":"
      ++ (json_str z.name
          ++ (codes ",\"type\":"
              ++ (json_str z.type ++ (codes ",\"temp_c\":" ++ (fixed 1 z.temp_c ++ codes "}"))))))

  unfoldable handle_list_thermal_zones : State → ToolArgs J → Bool × Text
  unfolding scan_thermal_zones zone_entry
  handle_list_thermal_zones s args =
      (true, b'[' ∷ listed (map zone_entry (scan_thermal_zones s)) ++ codes "]")

  -- registerThermalTools, at a time when the files are in the state `s`.
  unfoldable pub register_thermal_tools : State → Registry → Registry
  unfolding register_typed_tool handle_read_cpu_temperature handle_list_thermal_zones
  register_thermal_tools s tools =
      (register_typed_tool J
        (register_typed_tool J tools (codes "read_cpu_temperature")
          (codes "Read the primary CPU / SoC temperature in Celsius and Fahrenheit "
            ++ (codes "from the kernel's thermal subsystem (/sys/class/thermal/thermal_zone0). "
                ++ codes "Falls back to the first CPU-related zone if zone0 is unavailable."))
          [] (some (handle_read_cpu_temperature s))).0
        (codes "list_thermal_zones")
        (codes "List all thermal zones exposed by the kernel, including their "
          ++ (codes "zone name, type (e.g. cpu-thermal, x86_pkg_temp), and current "
              ++ codes "temperature in Celsius."))
        [] (some (handle_list_thermal_zones s))).0
