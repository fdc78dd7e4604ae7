-- ===== src/Examples/Demo/Tools.antt =====
-- The tools that the programs register (examples/chat_agent/chat_agent.cpp,
-- examples/tool_call_demo/tool_call_demo.cpp, examples/offline_queue_demo/offline_queue_demo.cpp).
use embed_agent.Base.{
  suc, ◌+◌, ◌*◌, Bool, true, false, not, ◌||◌, List, [], ◌∷◌, ◌++◌, Option, some, Text, codes,
  text_eq, if◌then◌else◌, ℤ, pos, negsuc, difference, int_to_string,
}
use embed_agent.Files.{FileSystem}
use embed_agent.Cppev.{Json}
use embed_agent.Doubles.{Doubles}
use embed_agent.Tool.Args.{ToolArgs, arg_int, arg_string}
use embed_agent.Tool.Param.{integer, string}
use embed_agent.Tool.Registry.{Registry, ToolSpec, ArgsHandler, register_tool, register_typed_tool}
use embed_agent.Tool.Builder.{new_builder, name, description, param, enum_param, handler, build}
use embed_agent.Examples.Stream.{printed}
use embed_agent.Examples.Gpio.{is_negative, is_level}
use embed_agent.Examples.Gpio.Registration.{register_gpio_tools}
use embed_agent.Examples.Network.{register_network_tools}
use embed_agent.Examples.Process.{register_process_tools}
use embed_agent.Examples.Sysinfo.{DiskStats, register_sysinfo_tools}
use embed_agent.Examples.Thermal.{register_thermal_tools}

-- The tool of the program for the queue.
abbrev pub status_tool : ToolSpec
status_tool = record {
  def = record {
    name = codes "get_device_status";
    description = codes "Return device uptime and temperature";
    parameters_json = codes "{\"type\":\"object\",\"properties\":{}}";
  };
  handler = some (λ args. (true, codes "{\"uptime_sec\":3600,\"temp_c\":42}"));
}

-- `512 + sid * 10`, on values that fit.
abbrev raw_value : ℤ → ℤ
raw_value (pos n) = pos (512 + n * 10)
raw_value (negsuc n) = difference 512 (suc n * 10)

module _ (J : Json) (D : Doubles) where
  open D use {Double, literal, of_int, add, mul, div, fixed}

  unfoldable handle_device_status : ToolArgs J → Bool × Text
  handle_device_status args = (
    true,
    codes "{\"uptime_sec\":7200,\"temp_c\":43," ++ codes "\"mem_free_kb\":61440,\"load_avg\":0.42}",
  )

  unfoldable handle_set_gpio_pin : ToolArgs J → Bool × Text
  unfolding arg_int
  handle_set_gpio_pin args =
      let pin = arg_int J args (codes "pin") (negsuc 0) in
      let val = arg_int J args (codes "value") (negsuc 0) in
      if is_negative pin || not (is_level val)
      then (true, codes "{\"ok\":false,\"error\":\"invalid pin or value\"}")
      else (
        true,
        codes "{\"ok\":true,\"pin\":"
            ++ (int_to_string pin ++ (codes ",\"value\":" ++ (int_to_string val ++ codes "}"))),
      )

  abbrev celsius_value : ℤ → Double
  celsius_value sid = add (literal (codes "38.5")) (mul (of_int sid) (literal (codes "1.2")))

  unfoldable sensor_value : ℤ → Text → Double
  unfolding text_eq
  sensor_value sid unit =
      if text_eq unit (codes "fahrenheit")
      then add (div (mul (celsius_value sid) (literal (codes "9.0"))) (literal (codes "5.0")))
          (literal (codes "32.0"))
      else if text_eq unit (codes "raw")
      then of_int (raw_value sid)
      else celsius_value sid

  unfoldable handle_read_sensor : ToolArgs J → Bool × Text
  unfolding sensor_value arg_int arg_string
  handle_read_sensor args =
      let sid = arg_int J args (codes "sensor_id") (pos 1) in
      let unit = arg_string J args (codes "unit") (codes "celsius") in
      (
        true,
        printed 128 (
            codes "{\"sensor_id\":"
            ++ (int_to_string sid
                ++ (codes ",\"value\":"
                    ++ (fixed 1 (sensor_value sid unit)
                        ++ (codes ",\"unit\":\"" ++ (unit ++ codes "\"}")))))),
      )

  unfoldable handle_network_info : ToolArgs J → Bool × Text
  handle_network_info args = (
    true,
    codes "{\"hostname\":\"embed-device-01\","
        ++ (codes "\"ip\":\"192.168.1.42\"," ++ codes "\"link_up\":true}"),
  )

  unfoldable gpio_spec : ToolSpec
  unfolding handle_set_gpio_pin build
  gpio_spec =
      let named = name J (new_builder J) (codes "set_gpio_pin") in
      let described =
        description J named (codes "Set an embedded GPIO output pin to high (1) or low (0).") in
      let with_pin =
        param J described (codes "pin") integer (codes "GPIO pin number (0-based, BCM numbering)")
          true in
      let with_value =
        enum_param J with_pin (codes "value") integer (codes "Output level: 0 = low, 1 = high")
          (codes "0" ∷ (codes "1" ∷ [])) true in
      build J (handler J with_value handle_set_gpio_pin)

  unfoldable sensor_spec : ToolSpec
  unfolding handle_read_sensor build
  sensor_spec =
      let named = name J (new_builder J) (codes "read_sensor") in
      let described = description J named (
        codes "Read a value from a connected sensor (temperature, humidity, "
        ++ codes "pressure, etc.) and return it in the requested unit.") in
      let with_id =
        param J described (codes "sensor_id") integer (codes "Sensor identifier (1-based index)")
          true in
      let with_unit =
        enum_param J with_id (codes "unit") string
          (codes "Unit for the returned value: celsius, fahrenheit, or raw")
          (codes "celsius" ∷ (codes "fahrenheit" ∷ (codes "raw" ∷ []))) false in
      build J (handler J with_unit handle_read_sensor)

  -- registerTools of chat_agent.
  unfoldable register_chat_tools : Registry → Registry
  unfolding register_tool register_typed_tool gpio_spec sensor_spec handle_device_status
      handle_network_info
  register_chat_tools tools =
      let one =
        (register_typed_tool J tools (codes "get_device_status")
          (codes "Return the embedded device's current uptime (seconds), CPU temperature "
            ++ codes "(Celsius), free memory (KB), and 1-minute load average.")
          [] (some handle_device_status)).0 in
      let two = (register_tool one gpio_spec).0 in
      let three = (register_tool two sensor_spec).0 in
      (register_typed_tool J three (codes "get_network_info")
        (codes "Return the device's primary network interface IP address, hostname, "
          ++ codes "and whether the link is currently up.")
        [] (some handle_network_info)).0

-- registerTools of tool_call_demo, at a time when the files are in the state `s`; the arguments are
-- those of the five groups of tools.
module _ (F : FileSystem) (J : Json) (D : Doubles) (statvfs : F.State → Text → Option DiskStats)
    (errno_text : F.State → Text) (zones interfaces : F.State → Option (List Text))
    (ipv4 netmask : F.State → Text → Text) (list_top get_info : ArgsHandler J) where
  unfoldable register_device_tools : F.State → Registry → Registry
  unfolding register_sysinfo_tools register_thermal_tools register_gpio_tools register_network_tools
      register_process_tools
  register_device_tools s tools =
      let sysinfo = register_sysinfo_tools F J D statvfs errno_text s tools in
      let thermal = register_thermal_tools F J D zones s sysinfo in
      let gpio = register_gpio_tools F J errno_text s thermal in
      let network = register_network_tools F J interfaces ipv4 netmask s gpio in
      register_process_tools J list_top get_info network
