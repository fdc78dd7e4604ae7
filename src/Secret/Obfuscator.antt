-- ===== src/Secret/Obfuscator.antt =====
-- EaSecretObfuscator (src/ea_secret_obfuscator.cpp): an API key is kept as Base64 of the exclusive
-- or with a pepper. The text of /etc/machine-id is an argument, `none` where it cannot be opened.
use embed_agent.Base.{
  ℕ, suc, ◌%◌, bit_xor, [], ◌∷◌, ◌++◌, Option, none, some, Text, codes, is_empty, if◌then◌else◌,
  ltb, ◌==◌, length, take,
}
use embed_agent.Secret.Base64.{char_at, base64_encode, base64_decode}

-- kEmbedAgentPepper.
abbrev pub embed_agent_pepper : Text
embed_agent_pepper = codes "cppev-embedagent-v1"

-- std::getline: the text up to the first line break.
unfoldable pub first_line : Text → Text
first_line [] = []
first_line (c ∷ cs) = let rest = first_line cs in if c == 10 then [] else c ∷ rest

-- `line.resize(16)` of a longer line.
abbrev shortened : Text → Text
shortened line = if ltb 16 (length line) then take 16 line else line

unfoldable pub read_machine_id_prefix : Option Text → Text
unfolding first_line
read_machine_id_prefix none = []
read_machine_id_prefix (some text) = shortened (first_line text)

unfoldable pub pepper : Option Text → Text
unfolding read_machine_id_prefix
pepper machine_id = embed_agent_pepper ++ read_machine_id_prefix machine_id

-- The loop of xorInPlace from the index `i` on.
unfoldable pub xor_from : ℕ → Text → Text → Text
xor_from i key [] = []
xor_from i key (c ∷ cs) = bit_xor c (char_at key (i % length key)) ∷ xor_from (suc i) key cs

unfoldable pub xor_in_place : Text → Text → Text
unfolding xor_from
xor_in_place text key = if is_empty key then text else xor_from 0 key text

unfoldable pub encode : Option Text → Text → Text
unfolding xor_in_place pepper base64_encode
encode machine_id plain = base64_encode (xor_in_place plain (pepper machine_id))

unfoldable pub reveal : Option Text → Option Text → Option Text
unfolding xor_in_place pepper
reveal machine_id none = none
reveal machine_id (some buf) = some (xor_in_place buf (pepper machine_id))

-- `none` where it returns false.
unfoldable pub decode : Option Text → Text → Option Text
unfolding base64_decode reveal
decode machine_id encoded =
    if is_empty encoded then none else reveal machine_id (base64_decode encoded)
