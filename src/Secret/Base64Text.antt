-- ===== src/Secret/Base64Text.antt =====
-- Decoding what was encoded (src/ea_secret_obfuscator.cpp).
use embed_agent.Base.{
  append-nil, ℕ, ◌+◌, ◌-◌, ◌*◌, ◌/◌, ◌%◌, ◌^◌, ◌≡◌, ◌<◌, refl, ap, sym, ◌∙◌, Bool, true, false, not,
  ◌&&◌, [], ◌∷◌, ◌++◌, Option, none, some, Text, is_empty, is_space, IsBytes, leb, ◌==◌,
  range_passes, range_passes-at, arith,
}
use embed_agent.Secret.Base64.{
  base64_chars, char_at, digit, triple_of, base64_encode, decode_char, push_byte, shift_in,
  decode_from, base64_decode,
}

abbrev is_value : Option ℕ → ℕ → Bool
is_value none n = false
is_value (some m) n = m == n

-- A character of the alphabet is not a pad, not a space, and is decoded to its index.
abbrev reads_back : ℕ → Bool
reads_back n =
    let c = char_at base64_chars n in
    not (c == b'=') && not (is_space c) && is_value (decode_char c) n

alphabet_table : range_passes reads_back 0 64 ≡ true
unfolding decode_char range_passes
alphabet_table = refl

is_value-some : (o : Option ℕ) (n : ℕ) → is_value o n ≡ true → o ≡ some n
is_value-some none n h = cc
is_value-some (some m) n h = ground arith

record IsDigit (c n : ℕ) : Type 0 where
  pub pad : (c == b'=') ≡ false
  pub space : is_space c ≡ false
  pub value : decode_char c ≡ some n

char_at-IsDigit : (n : ℕ) → n < 64 → IsDigit (char_at base64_chars n) n
char_at-IsDigit n h =
    let row = range_passes-at reads_back 0 64 n alphabet_table (omega arith) (omega arith) in
    record { pad = ground arith; space = ground arith; value = is_value-some _ n (ground arith) }

module _ (val held c n : ℕ) (cs : Text) (r : IsDigit c n) where
  -- A character that completes no byte.
  next_char :
      leb 8 (held + 6) ≡ false
      → decode_from val held (c ∷ cs) ≡ decode_from (shift_in val n) (held + 6) cs
  unfolding decode_from
  next_char h = rw (r.pad, r.space, r.value, h) refl

  next_byte :
      leb 8 (held + 6) ≡ true
      → decode_from val held (c ∷ cs)
        ≡ push_byte
            (shift_in val n / 2 ^ (held + 6 - 8) % 256)
            (decode_from (shift_in val n) (held + 6 - 8) cs)
  unfolding decode_from
  next_byte h = rw (r.pad, r.space, r.value, h) refl

low_bits : (v a b : ℕ) → a < 64 → b < 64 → shift_in (shift_in v a) b % 2 ^ 12 ≡ a * 64 + b
low_bits v a b ha hb = omega arith

first_byte :
    (v a b : ℕ) → a < 64 → b < 64 → shift_in (shift_in v a) b / 2 ^ 4 % 256 ≡ (a * 64 + b) / 16
first_byte v a b ha hb = omega (arith, low_bits v a b ha hb)

second_byte :
    (v a b : ℕ) → a < 64 → b < 64 → shift_in (shift_in v a) b / 2 ^ 2 % 256 ≡ (a * 64 + b) / 4 % 256
second_byte v a b ha hb = omega (arith, low_bits v a b ha hb)

third_byte :
    (v a b : ℕ) → a < 64 → b < 64 → shift_in (shift_in v a) b / 2 ^ 0 % 256 ≡ (a * 64 + b) % 256
third_byte v a b ha hb = omega (arith, low_bits v a b ha hb)

digit-IsDigit : (t shift : ℕ) → IsDigit (digit t shift) (t / 2 ^ shift % 64)
unfolding digit
digit-IsDigit t shift = char_at-IsDigit (t / 2 ^ shift % 64) (omega arith)

-- The first byte of a triple, whatever was read before.
decode_two :
    (v b0 b1 b2 : ℕ) (cs : Text)
    → b0 < 256
    → b1 < 256
    → b2 < 256
    → let t = triple_of b0 b1 b2 in
      decode_from v 0 (digit t 18 ∷ (digit t 12 ∷ cs))
      ≡ push_byte b0 (decode_from (shift_in (shift_in v (t / 2 ^ 18 % 64)) (t / 2 ^ 12 % 64)) 4 cs)
decode_two v b0 b1 b2 cs h0 h1 h2 =
    let t = triple_of b0 b1 b2 in
    next_char v 0 (digit t 18) (t / 2 ^ 18 % 64) (digit t 12 ∷ cs) (digit-IsDigit t 18) refl
    ∙ (next_byte (shift_in v (t / 2 ^ 18 % 64)) 6 (digit t 12) (t / 2 ^ 12 % 64) cs
          (digit-IsDigit t 12) refl
        ∙ ap
            (λ b.
              push_byte b
                (decode_from (shift_in (shift_in v (t / 2 ^ 18 % 64)) (t / 2 ^ 12 % 64)) 4 cs))
            (first_byte v (t / 2 ^ 18 % 64) (t / 2 ^ 12 % 64) (omega arith) (omega arith)
              ∙ omega arith))

-- The second byte, behind the bits of the second character.
decode_third :
    (v b0 b1 b2 : ℕ) (cs : Text)
    → b0 < 256
    → b1 < 256
    → b2 < 256
    → let t = triple_of b0 b1 b2 in
      decode_from (shift_in v (t / 2 ^ 12 % 64)) 4 (digit t 6 ∷ cs)
      ≡ push_byte b1 (decode_from (shift_in (shift_in v (t / 2 ^ 12 % 64)) (t / 2 ^ 6 % 64)) 2 cs)
decode_third v b0 b1 b2 cs h0 h1 h2 =
    let t = triple_of b0 b1 b2 in
    next_byte (shift_in v (t / 2 ^ 12 % 64)) 4 (digit t 6) (t / 2 ^ 6 % 64) cs (digit-IsDigit t 6)
      refl
    ∙ ap
        (λ b.
          push_byte b (decode_from (shift_in (shift_in v (t / 2 ^ 12 % 64)) (t / 2 ^ 6 % 64)) 2 cs))
        (second_byte v (t / 2 ^ 12 % 64) (t / 2 ^ 6 % 64) (omega arith) (omega arith) ∙ omega arith)

decode_fourth :
    (v b0 b1 b2 : ℕ) (cs : Text)
    → b0 < 256
    → b1 < 256
    → b2 < 256
    → let t = triple_of b0 b1 b2 in
      decode_from (shift_in v (t / 2 ^ 6 % 64)) 2 (digit t 0 ∷ cs)
      ≡ push_byte b2 (decode_from (shift_in (shift_in v (t / 2 ^ 6 % 64)) (t / 2 ^ 0 % 64)) 0 cs)
decode_fourth v b0 b1 b2 cs h0 h1 h2 =
    let t = triple_of b0 b1 b2 in
    next_byte (shift_in v (t / 2 ^ 6 % 64)) 2 (digit t 0) (t / 2 ^ 0 % 64) cs (digit-IsDigit t 0)
      refl
    ∙ ap
        (λ b.
          push_byte b (decode_from (shift_in (shift_in v (t / 2 ^ 6 % 64)) (t / 2 ^ 0 % 64)) 0 cs))
        (third_byte v (t / 2 ^ 6 % 64) (t / 2 ^ 0 % 64) (omega arith) (omega arith) ∙ omega arith)

decode_pad : (v held : ℕ) (cs : Text) → decode_from v held (b'=' ∷ cs) ≡ some []
unfolding decode_from
decode_pad v held cs = refl

-- What follows the encoded text, where it holds no byte whatever was read before.
abbrev pub IsBlank : Text → Type 0
IsBlank tail = (v : ℕ) → decode_from v 0 tail ≡ some []

decode_from-encode :
    (s tail : Text) (v : ℕ)
    → IsBytes s
    → IsBlank tail
    → decode_from v 0 (base64_encode s ++ tail) ≡ some s
unfolding base64_encode
decode_from-encode [] tail v h blank = blank v
decode_from-encode (b0 ∷ []) tail v (h0, _) blank =
    decode_two v b0 0 0 _ h0 (omega arith) (omega arith) ∙ ap (push_byte b0) (decode_pad _ _ _)
decode_from-encode (b0 ∷ (b1 ∷ [])) tail v (h0, (h1, _)) blank =
    decode_two v b0 b1 0 _ h0 h1 (omega arith)
    ∙ ap (push_byte b0)
        (decode_third _ b0 b1 0 _ h0 h1 (omega arith) ∙ ap (push_byte b1) (decode_pad _ _ _))
decode_from-encode (b0 ∷ (b1 ∷ (b2 ∷ bs))) tail v (h0, (h1, (h2, h))) blank =
    decode_two v b0 b1 b2 _ h0 h1 h2
    ∙ ap (push_byte b0) (
        decode_third _ b0 b1 b2 _ h0 h1 h2
        ∙ ap (push_byte b1) (
            decode_fourth _ b0 b1 b2 _ h0 h1 h2
            ∙ ap (push_byte b2) (decode_from-encode bs tail _ h blank)))

pub nil-IsBlank : IsBlank []
unfolding decode_from
nil-IsBlank v = refl

pub newline-IsBlank : IsBlank (10 ∷ [])
unfolding decode_from
newline-IsBlank v = refl

pub encode_some : (b : ℕ) (bs tail : Text) → is_empty (base64_encode (b ∷ bs) ++ tail) ≡ false
unfolding base64_encode
encode_some b [] tail = refl
encode_some b (c ∷ []) tail = refl
encode_some b (c ∷ (d ∷ bs)) tail = refl

-- Decoding gives back what was encoded, unless it is empty, with or without blanks behind it that
-- hold no character of the alphabet.
pub base64_decode-append :
    (b : ℕ) (bs tail : Text)
    → IsBytes (b ∷ bs)
    → IsBlank tail
    → base64_decode (base64_encode (b ∷ bs) ++ tail) ≡ some (b ∷ bs)
unfolding base64_decode
base64_decode-append b bs tail h blank =
    rw (encode_some b bs tail) (decode_from-encode (b ∷ bs) tail 0 h blank)

-- Base64 loses nothing: a string of bytes that is not empty is encoded to a text from which
-- base64Decode gives it back.
pub base64_decode-base64_encode :
    (s : Text) → IsBytes s → is_empty s ≡ false → base64_decode (base64_encode s) ≡ some s
base64_decode-base64_encode [] h some_text = cc
base64_decode-base64_encode (b ∷ bs) h some_text =
    ap base64_decode (sym (append-nil (base64_encode (b ∷ bs))))
    ∙ base64_decode-append b bs [] h nil-IsBlank
