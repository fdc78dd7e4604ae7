-- ===== src/Examples/Network/Entries.antt =====
-- The texts that the network tools print (examples/tool_call_demo/ea_tool_network.cpp).
use embed_agent.Base.{
  Bool, false, ◌||◌, ltb, ◌+◌, ◌*◌, ◌≡◌, ◌≤◌, refl, inl, inr, List, [], ◌∷◌, ◌++◌, Option, some,
  Text, codes, length, length-append, arith, Bool-cases, ◌==◌,
}
use embed_agent.Files.{FileSystem}
use embed_agent.Cppev.{Json}
use embed_agent.Tool.Param.{quote, backslash}
use embed_agent.Tool.Escape.{read_string, read_string_empty, read_plain, read_escape}
use embed_agent.Examples.Gpio.Messages.{take-whole}
use embed_agent.Examples.Network.{interface_entry, describe_interface, read_sys_net_file}
use embed_agent.Examples.Stream.{json_chars, json_str, or_text}

abbrev has_control : Text → Bool
has_control [] = false
has_control (c ∷ cs) = ltb c 32 || has_control cs

-- A reader of JSON gets back what jsonStr was given, where no control character is in it.
read_string-json_chars : (s : Text) → has_control s ≡ false → read_string (json_chars s) ≡ some s
unfolding json_chars
read_string-json_chars [] h = read_string_empty
read_string-json_chars (c ∷ s) h =
    let rest : read_string (json_chars s) ≡ some s = read_string-json_chars s (ground arith) in
    elim (Bool-cases (c == quote)) [
      | inl q ↦ rw q (read_escape c quote c (json_chars s) s q (rw q refl) rest)
      | inr q ↦ elim (Bool-cases (c == backslash)) [
        | inl b ↦ rw (q, b) (read_escape c backslash c (json_chars s) s b (rw (q, b) refl) rest)
        | inr b ↦ rw (q, b) (read_plain c (json_chars s) s (ground arith) rest)
      ]
    ]

length-json_chars : (s : Text) → length (json_chars s) ≤ 2 * length s
unfolding json_chars
length-json_chars [] = omega arith
length-json_chars (c ∷ s) = ground (arith, length-json_chars s)

length-json_str : (s : Text) → length (json_str s) ≤ 2 * length s + 2
length-json_str s = omega (arith, length-json_chars s, length-append (json_chars s) (quote ∷ []))

-- One member of an entry, and what stands behind it.
member_length :
    (before x rest : Text)
    → length (before ++ (json_str x ++ rest)) ≤ length before + (2 * length x + 2) + length rest
member_length before x rest = omega (
  arith,
  length-append before (json_str x ++ rest),
  length-append (json_str x) rest,
  length-json_str x,
)

interface_entry-length :
    (name mac ip mask state mtu : Text)
    → length (interface_entry name mac ip mask state mtu)
      ≤ 2 * (length name + length mac + length ip + length mask + length state + length mtu) + 61
interface_entry-length name mac ip mask state mtu =
    let r6 = codes ",\"mtu\":" ++ (json_str mtu ++ codes "}") in
    let r5 = codes ",\"state\":" ++ (json_str state ++ r6) in
    let r4 = codes ",\"netmask\":" ++ (json_str mask ++ r5) in
    let r3 = codes ",\"ip\":" ++ (json_str ip ++ r4) in
    let r2 = codes ",\"mac\":" ++ (json_str mac ++ r3) in
    omega (
      arith,
      member_length (codes "{\"name\":") name r2,
      member_length (codes ",\"mac\":") mac r3,
      member_length (codes ",\"ip\":") ip r4,
      member_length (codes ",\"netmask\":") mask r5,
      member_length (codes ",\"state\":") state r6,
      member_length (codes ",\"mtu\":") mtu (codes "}"),
    )

module _ (F : FileSystem) (J : Json) (entries : F.State → Option (List Text))
    (ipv4 netmask : F.State → Text → Text) where
  open F use {State}

  -- What get_network_interfaces prints for an interface is not cut off where its name, its addresses
  -- and its texts of sysfs have at most 225 bytes together, and a reader of JSON gets its name back.
  describe_interface-whole :
      (s : State) (name : Text)
      → let mac =
          or_text
            (read_sys_net_file F J entries ipv4 netmask s name (codes "address"))
            (codes "unknown") in
        let state =
          or_text
            (read_sys_net_file F J entries ipv4 netmask s name (codes "operstate"))
            (codes "unknown") in
        let mtu =
          or_text (read_sys_net_file F J entries ipv4 netmask s name (codes "mtu")) (codes "0") in
        length name
            + length mac
            + length (ipv4 s name)
            + length (netmask s name)
            + length state
            + length mtu
          ≤ 225
        → has_control name ≡ false
        → (describe_interface F J entries ipv4 netmask s name
            ≡ interface_entry name mac (ipv4 s name) (netmask s name) state mtu)
          × (read_string (json_chars name) ≡ some name)
  unfolding describe_interface
  describe_interface-whole s name short plain = (
    take-whole 511 _ (
        omega (
          arith,
          interface_entry-length name
              (or_text (read_sys_net_file F J entries ipv4 netmask s name (codes "address"))
                (codes "unknown"))
              (ipv4 s name) (netmask s name)
              (or_text (read_sys_net_file F J entries ipv4 netmask s name (codes "operstate"))
                (codes "unknown"))
              (or_text (read_sys_net_file F J entries ipv4 netmask s name (codes "mtu"))
                (codes "0")),
        )),
    read_string-json_chars name plain,
  )
