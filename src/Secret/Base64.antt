-- ===== src/Secret/Base64.antt =====
-- base64Encode and base64Decode of EaSecretObfuscator (src/ea_secret_obfuscator.cpp).
use embed_agent.Base.{
  ℕ, zero, suc, ◌+◌, ◌-◌, ◌*◌, ◌/◌, ◌%◌, ◌^◌, true, false, ◌&&◌, [], ◌∷◌, Option, none, some, Text,
  codes, is_empty, is_space, if◌then◌else◌, leb, ◌==◌,
}

-- base64Chars.
abbrev pub base64_chars : Text
base64_chars = codes "ABCDEFGHIJKLMNOPQRSTUVWXYZabcdefghijklmnopqrstuvwxyz0123456789+/"

abbrev pub char_at : Text → ℕ → ℕ
char_at [] i = 0
char_at (c ∷ cs) zero = c
char_at (c ∷ cs) (suc i) = char_at cs i

-- `base64Chars()[(triple >> shift) & 0x3F]`.
unfoldable pub digit : ℕ → ℕ → ℕ
digit triple shift = char_at base64_chars (triple / 2 ^ shift % 64)

-- The three bytes are fields of their own, so `|` adds them.
abbrev pub triple_of : ℕ → ℕ → ℕ → ℕ
triple_of b0 b1 b2 = b0 * 2 ^ 16 + b1 * 2 ^ 8 + b2

-- A round takes three bytes, or what is left.
unfoldable pub base64_encode : Text → Text
unfolding digit
base64_encode [] = []
base64_encode (b0 ∷ []) =
    let t = triple_of b0 0 0 in digit t 18 ∷ (digit t 12 ∷ (b'=' ∷ (b'=' ∷ [])))
base64_encode (b0 ∷ (b1 ∷ [])) =
    let t = triple_of b0 b1 0 in digit t 18 ∷ (digit t 12 ∷ (digit t 6 ∷ (b'=' ∷ [])))
base64_encode (b0 ∷ (b1 ∷ (b2 ∷ bs))) =
    let t = triple_of b0 b1 b2 in
    digit t 18 ∷ (digit t 12 ∷ (digit t 6 ∷ (digit t 0 ∷ base64_encode bs)))

-- decodeChar; `none` for -1.
unfoldable pub decode_char : ℕ → Option ℕ
decode_char c =
    if leb b'A' c && leb c b'Z'
    then some (c - b'A')
    else if leb b'a' c && leb c b'z'
    then some (c - b'a' + 26)
    else if leb b'0' c && leb c b'9'
    then some (c - b'0' + 52)
    else if c == b'+'
    then some 62
    else if c == b'/'
    then some 63
    else none

abbrev pub push_byte : ℕ → Option Text → Option Text
push_byte b none = none
push_byte b (some bs) = some (b ∷ bs)

-- `(val << 6) | d` on 32 bits; the low six bits are free for `d`.
abbrev pub shift_in : ℕ → ℕ → ℕ
shift_in val d = (val * 2 ^ 6 + d) % 2 ^ 32

-- The loop over the text. `held` is valb + 8, so a byte is complete where it reaches 8; the bits of
-- `val` that are read stand below the thirteenth, where its sign does not matter.
unfoldable pub decode_from : ℕ → ℕ → Text → Option Text
unfolding decode_char
decode_from val held [] = some []
decode_from val held (c ∷ cs) =
    let skipped = decode_from val held cs in
    if c == b'=' then some [] else if is_space c then skipped else elim (decode_char c) [
      | none ↦ none
      | some d ↦ elim (leb 8 (held + 6)) [
        | true ↦
            push_byte (shift_in val d / 2 ^ (held + 6 - 8) % 256)
              (decode_from (shift_in val d) (held + 6 - 8) cs)
        | false ↦ decode_from (shift_in val d) (held + 6) cs
      ]
    ]

-- `none` where it returns false.
unfoldable pub base64_decode : Text → Option Text
unfolding decode_from
base64_decode input = if is_empty input then none else decode_from 0 0 input
