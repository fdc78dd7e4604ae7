-- ===== src/Secret/Cipher.antt =====
-- EaSecretObfuscator::decode against encode (src/ea_secret_obfuscator.cpp).
use embed_agent.Base.{
  append-nil, ℕ, zero, suc, ◌%◌, ◌≡◌, ◌<◌, refl, ap, sym, ◌∙◌, bit_xor_lt, bit_xor_twice, false, [],
  ◌∷◌, ◌++◌, Option, none, some, Text, is_empty, IsBytes, ltb, ◌==◌, length, take, arith, if-intro,
}
use embed_agent.Secret.Base64.{char_at, base64_encode, base64_decode}
use embed_agent.Secret.Base64Text.{IsBlank, base64_decode-append, nil-IsBlank, encode_some}
use embed_agent.Secret.Obfuscator.{
  embed_agent_pepper, first_line, read_machine_id_prefix, pepper, xor_from, xor_in_place, encode,
  decode, reveal,
}

char_at-byte : (key : Text) (i : ℕ) → IsBytes key → char_at key i < 256
char_at-byte [] i h = omega arith
char_at-byte (c ∷ cs) zero h = h.0
char_at-byte (c ∷ cs) (suc i) h = char_at-byte cs i h.1

xor_from-IsBytes : (i : ℕ) (key s : Text) → IsBytes key → IsBytes s → IsBytes (xor_from i key s)
unfolding xor_from
xor_from-IsBytes i key [] k h = tt
xor_from-IsBytes i key (c ∷ cs) k h =
    (bit_xor_lt 8 c _ h.0 (char_at-byte key _ k), xor_from-IsBytes (suc i) key cs k h.1)

xor_from_twice :
    (i : ℕ) (key s : Text) → IsBytes key → IsBytes s → xor_from i key (xor_from i key s) ≡ s
unfolding xor_from
xor_from_twice i key [] k h = refl
xor_from_twice i key (c ∷ cs) k h =
    rw
      (
        bit_xor_twice 8 c _ h.0 (char_at-byte key (i % length key) k),
        xor_from_twice (suc i) key cs k h.1,
      )
      refl

first_line-IsBytes : (s : Text) → IsBytes s → IsBytes (first_line s)
unfolding first_line
first_line-IsBytes [] h = tt
first_line-IsBytes (c ∷ cs) h = if-intro IsBytes (c == 10) tt (h.0, first_line-IsBytes cs h.1)

take-IsBytes : (n : ℕ) (s : Text) → IsBytes s → IsBytes (take n s)
take-IsBytes zero s h = tt
take-IsBytes (suc n) [] h = tt
take-IsBytes (suc n) (c ∷ cs) h = (h.0, take-IsBytes n cs h.1)

-- The text of the machine's id, where there is one, is a string of bytes.
abbrev pub HasBytes : Option Text → Type 0
HasBytes none = Unit {0}
HasBytes (some text) = IsBytes text

prefix-IsBytes : (m : Option Text) → HasBytes m → IsBytes (read_machine_id_prefix m)
unfolding read_machine_id_prefix
prefix-IsBytes none h = tt
prefix-IsBytes (some text) h =
    if-intro IsBytes (ltb 16 (length (first_line text)))
      (take-IsBytes 16 (first_line text) (first_line-IsBytes text h)) (first_line-IsBytes text h)

append-IsBytes : (s t : Text) → IsBytes s → IsBytes t → IsBytes (s ++ t)
append-IsBytes [] t h k = k
append-IsBytes (c ∷ s) t h k = (h.0, append-IsBytes s t h.1 k)

embed_agent_pepper-IsBytes : IsBytes embed_agent_pepper
embed_agent_pepper-IsBytes = ground arith

pepper-IsBytes : (m : Option Text) → HasBytes m → IsBytes (pepper m)
unfolding pepper
pepper-IsBytes m h =
    append-IsBytes embed_agent_pepper (read_machine_id_prefix m) embed_agent_pepper-IsBytes
      (prefix-IsBytes m h)

xor_in_place_eq : (s : Text) (m : Option Text) → xor_in_place s (pepper m) ≡ xor_from 0 (pepper m) s
unfolding xor_in_place pepper
xor_in_place_eq s m = refl

encode_eq : (m : Option Text) (s : Text) → encode m s ≡ base64_encode (xor_from 0 (pepper m) s)
unfolding encode
encode_eq m s = ap base64_encode (xor_in_place_eq s m)

decode_held :
    (m : Option Text) (text buf : Text)
    → is_empty text ≡ false
    → base64_decode text ≡ some buf
    → decode m text ≡ some (xor_from 0 (pepper m) buf)
unfolding decode reveal
decode_held m text buf h e = rw (e, h) (ap some (xor_in_place_eq buf m))

-- What was encoded is decoded, with blanks behind it.
pub decode-append :
    (m : Option Text) (b : ℕ) (bs tail : Text)
    → HasBytes m
    → IsBytes (b ∷ bs)
    → IsBlank tail
    → decode m (encode m (b ∷ bs) ++ tail) ≡ some (b ∷ bs)
unfolding xor_from
decode-append m b bs tail hm h blank =
    let p = pepper-IsBytes m hm in
    let hidden = xor_from 0 (pepper m) (b ∷ bs) in
    ap (λ t. decode m (t ++ tail)) (encode_eq m (b ∷ bs))
    ∙ (decode_held m (base64_encode hidden ++ tail) hidden (encode_some _ _ tail)
          (base64_decode-append _ _ tail (xor_from-IsBytes 0 (pepper m) (b ∷ bs) p h) blank)
        ∙ ap some (xor_from_twice 0 (pepper m) (b ∷ bs) p h))

-- encode and decode on one machine lose nothing: an API key of bytes that is not empty comes back
-- from its encoded form.
pub decode-encode :
    (m : Option Text) (plain : Text)
    → HasBytes m
    → IsBytes plain
    → is_empty plain ≡ false
    → decode m (encode m plain) ≡ some plain
decode-encode m [] hm h some_text = cc
decode-encode m (b ∷ bs) hm h some_text =
    ap (decode m) (sym (append-nil (encode m (b ∷ bs)))) ∙ decode-append m b bs [] hm h nil-IsBlank
