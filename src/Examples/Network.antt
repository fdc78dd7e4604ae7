-- ===== src/Examples/Network.antt =====
-- The network tools of examples/tool_call_demo/ea_tool_network.cpp, over the files of sysfs.
pub mod Entries
use embed_agent.Base.{
  ℕ, zero, suc, ◌+◌, ◌-◌, ◌*◌, ◌%◌, ◌^◌, Bool, true, false, not, ◌&&◌, ◌||◌, List, [], ◌∷◌, ◌++◌,
  Option, none, some, Text, codes, is_empty, is_space, if◌then◌else◌, text_eq, leb, ltb, ◌==◌,
  to_string, leading_digits, value_from,
}
use embed_agent.Files.{FileSystem}
use embed_agent.Cppev.{Json}
use embed_agent.Tool.Args.{ToolArgs, arg_string}
use embed_agent.Tool.Param.{ToolParam, ParamType, string, quote, backslash}
use embed_agent.Tool.Registry.{Registry, register_typed_tool}
use embed_agent.Examples.Stream.{
  printed, word_of, first_word, json_chars, json_str, listed, or_text, extracted,
}

abbrev number_of : Option Text → ℕ
number_of none = 0
number_of (some text) = extracted 64 text

abbrev net_path : Text → Text → Text
net_path iface filename = codes "/sys/class/net/" ++ (iface ++ (codes "/" ++ filename))

-- One interface, as it is printed.
abbrev pub interface_entry : Text → Text → Text → Text → Text → Text → Text
interface_entry name mac ip mask state mtu =
    codes "{\"name\":"
    ++ (json_str name
        ++ (codes ",\"mac\":"
            ++ (json_str mac
                ++ (codes ",\"ip\":"
                    ++ (json_str ip
                        ++ (codes ",\"netmask\":"
                            ++ (json_str mask
                                ++ (codes ",\"state\":"
                                    ++ (json_str state
                                        ++ (codes ",\"mtu\":"
                                            ++ (json_str mtu ++ codes "}")))))))))))

abbrev is_dots : Text → Bool
is_dots name = text_eq name (codes ".") || text_eq name (codes "..")

-- What readdir gives, without the two entries for directories.
unfoldable list_interfaces : Option (List Text) → List Text
unfolding text_eq
list_interfaces none = []
list_interfaces (some []) = []
list_interfaces (some (n ∷ ns)) =
    let rest = list_interfaces (some ns) in if is_dots n then rest else n ∷ rest

-- `entries` are the names in /sys/class/net, `none` where it cannot be opened; `ipv4` and `netmask`
-- are what the two ioctl calls give for an interface, the empty text where they fail.
module _ (F : FileSystem) (J : Json) (entries : F.State → Option (List Text))
    (ipv4 netmask : F.State → Text → Text) where
  open F use {State, read_file}

  unfoldable pub read_sys_net_file : State → Text → Text → Text
  unfolding first_word
  read_sys_net_file s iface filename = word_of (read_file s (net_path iface filename))

  unfoldable read_stat_ull : State → Text → Text → ℕ
  unfolding extracted
  read_stat_ull s iface stat =
      number_of (read_file s (net_path iface (codes "statistics/" ++ stat)))

  unfoldable pub describe_interface : State → Text → Text
  unfolding read_sys_net_file json_chars
  describe_interface s name = printed 512 (
      interface_entry name (or_text (read_sys_net_file s name (codes "address")) (codes "unknown"))
        (ipv4 s name) (netmask s name)
        (or_text (read_sys_net_file s name (codes "operstate")) (codes "unknown"))
        (or_text (read_sys_net_file s name (codes "mtu")) (codes "0")))

  abbrev describe_all : State → List Text → List Text
  describe_all s [] = []
  describe_all s (n ∷ ns) = describe_interface s n ∷ describe_all s ns

  unfoldable handle_get_network_interfaces : State → ToolArgs J → Bool × Text
  unfolding list_interfaces describe_interface
  handle_get_network_interfaces s args =
      (true, b'[' ∷ listed (describe_all s (list_interfaces (entries s))) ++ codes "]")

  -- A member with a number.
  abbrev counter : State → Text → Text → Text
  counter s iface stat =
      codes ",\"" ++ (stat ++ (codes "\":" ++ to_string (read_stat_ull s iface stat)))

  unfoldable stats_message : State → Text → Text
  unfolding read_stat_ull json_chars to_string
  stats_message s iface =
      codes "{\"iface\":"
      ++ (json_str iface
          ++ (counter s iface (codes "rx_bytes")
              ++ (counter s iface (codes "rx_packets")
                  ++ (counter s iface (codes "rx_errors")
                      ++ (counter s iface (codes "rx_dropped")
                          ++ (counter s iface (codes "tx_bytes")
                              ++ (counter s iface (codes "tx_packets")
                                  ++ (counter s iface (codes "tx_errors")
                                      ++ (counter s iface (codes "tx_dropped") ++ codes "}")))))))))

  unfoldable handle_get_interface_stats : State → ToolArgs J → Bool × Text
  unfolding read_sys_net_file stats_message arg_string
  handle_get_interface_stats s args =
      let iface = arg_string J args (codes "iface") [] in
      if is_empty iface
      then (true, codes "{\"error\":\"iface parameter is required\"}")
      else if is_empty (read_sys_net_file s iface (codes "operstate"))
      then (true, printed 128 (codes "{\"error\":\"interface " ++ (iface ++ codes " not found\"}")))
      else (true, printed 512 (stats_message s iface))

  abbrev iface_param : ToolParam
  iface_param = record {
    name = codes "iface";
    type = string;
    description = codes "Network interface name (e.g. \"eth0\", \"wlan0\")";
    required = true;
    enum_values = [];
  }

  -- registerNetworkTools. The handlers read the files as they are when they are called: the tools
  -- here are those at a time when the files are in the state `s`.
  unfoldable pub register_network_tools : State → Registry → Registry
  unfolding register_typed_tool handle_get_network_interfaces handle_get_interface_stats
  register_network_tools s tools =
      (register_typed_tool J
        (register_typed_tool J tools (codes "get_network_interfaces")
          (codes "List all network interfaces on the device. For each interface, "
            ++ (codes "returns the name, MAC address, IPv4 address, netmask, "
                ++ codes "operational state (up/down/unknown), and MTU."))
          [] (some (handle_get_network_interfaces s))).0
        (codes "get_interface_stats")
        (codes "Return RX/TX traffic statistics for a single network interface: "
          ++ codes "bytes, packets, errors, and dropped counts in each direction.")
        (iface_param ∷ []) (some (handle_get_interface_stats s))).0
