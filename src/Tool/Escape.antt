-- ===== src/Tool/Escape.antt =====
-- jsonEscape (src/ea_tool_param.cpp) against the strings of JSON.
use embed_agent.Base.{
  ℕ, Bool, not, ◌&&◌, ◌||◌, ltb, arith, ◌≡◌, refl, ap, sym, ◌∙◌, ==_iff, true, false, [], ◌∷◌, ◌++◌,
  Option, none, some, Text, ◌==◌, if◌then◌else◌, Bool-cases, inl, inr,
}
use embed_agent.Tool.Param.{quote, backslash, escape_char, json_escape}

-- The character that stands behind a backslash, by the two-character escapes of RFC 8259; `none`
-- for any other.
abbrev escaped : ℕ → Option ℕ
escaped c =
    if c == quote
    then some quote
    else if c == backslash
    then some backslash
    else if c == b'/'
    then some b'/'
    else if c == b'b'
    then some 8
    else if c == b'f'
    then some 12
    else if c == b'n'
    then some 10
    else if c == b'r'
    then some 13
    else if c == b't'
    then some 9
    else none

abbrev put : Option ℕ → Option Text → Option Text
put none r = none
put (some c) none = none
put (some c) (some s) = some (c ∷ s)

abbrev behind : Text → Option Text → Option Text
behind [] r = none
behind (c ∷ cs) r = put (escaped c) r

-- What a string may hold as it is: no quotation mark, no backslash, no control character.
abbrev is_unescaped : ℕ → Bool
is_unescaped c = not (c == quote) && not (c == backslash) && not (ltb c 32)

-- The text between two quotation marks, as a reader of JSON takes it (RFC 8259, without the escapes
-- of code points, which jsonEscape does not write); `none` where the text is not that of a string: a
-- quotation mark or a control character stands in it, or a backslash before no escape.
pub read_string : Text → Option Text
read_string [] = some []
read_string (c ∷ []) = if is_unescaped c then some (c ∷ []) else none
read_string (c ∷ (d ∷ cs)) =
    let two = read_string cs in
    let one = read_string (d ∷ cs) in
    if c == backslash
    then put (escaped d) two
    else if is_unescaped c
    then put (some c) one
    else none

pub read_string_empty : read_string [] ≡ some []
unfolding read_string
read_string_empty = refl

-- A character that needs no escape is itself.
pub read_plain :
    (c : ℕ) (t s : Text)
    → is_unescaped c ≡ true
    → read_string t ≡ some s
    → read_string (c ∷ t) ≡ some (c ∷ s)
unfolding read_string
read_plain c [] s u e = rw u (ap (put (some c)) e)
read_plain c (d ∷ t) s u e = ground (arith, e, u)

read_pair :
    (c d : ℕ) (t s : Text)
    → escaped d ≡ some c
    → read_string t ≡ some s
    → read_string (backslash ∷ (d ∷ t)) ≡ some (c ∷ s)
unfolding read_string
read_pair c d t s e h = ap (λ o. put o (read_string t)) e ∙ ap (put (some c)) h

pub read_escape :
    (c k d : ℕ) (t s : Text)
    → (c == k) ≡ true
    → escaped d ≡ some k
    → read_string t ≡ some s
    → read_string (backslash ∷ (d ∷ t)) ≡ some (c ∷ s)
read_escape c k d t s same e h =
    read_pair k d t s e h ∙ ap (λ n. some (n ∷ s)) (sym ((==_iff c k).0 same))

-- The control characters that have no escape in jsonEscape.
abbrev pub is_bare_control : ℕ → Bool
is_bare_control c = ltb c 32 && not (c == 10) && not (c == 13) && not (c == 9)

abbrev pub has_bare_control : Text → Bool
has_bare_control [] = false
has_bare_control (c ∷ cs) = is_bare_control c || has_bare_control cs

read_char :
    (c : ℕ) (t s : Text)
    → is_bare_control c ≡ false
    → read_string t ≡ some s
    → read_string (escape_char c ++ t) ≡ some (c ∷ s)
unfolding escape_char
read_char c t s bare h = elim (Bool-cases (c == quote)) [
  | inl e ↦ rw e (read_escape c quote quote t s e refl h)
  | inr q ↦ elim (Bool-cases (c == backslash)) [
    | inl e ↦ rw (q, e) (read_escape c backslash backslash t s e refl h)
    | inr b ↦ elim (Bool-cases (c == 10)) [
      | inl e ↦ rw (q, b, e) (read_escape c 10 b'n' t s e refl h)
      | inr n ↦ elim (Bool-cases (c == 13)) [
        | inl e ↦ rw (q, b, n, e) (read_escape c 13 b'r' t s e refl h)
        | inr r ↦ elim (Bool-cases (c == 9)) [
          | inl e ↦ rw (q, b, n, r, e) (read_escape c 9 b't' t s e refl h)
          | inr u ↦ rw (q, b, n, r, u) (read_plain c t s (unescaped q b n r u) h)
        ]
      ]
    ]
  ]
]
  where
    unescaped :
        (c == quote) ≡ false
        → (c == backslash) ≡ false
        → (c == 10) ≡ false
        → (c == 13) ≡ false
        → (c == 9) ≡ false
        → is_unescaped c ≡ true
    unescaped q b n r u = ground arith

-- A reader of JSON that refuses raw control characters gets back what jsonEscape was given, where
-- the text has no control character but line breaks, carriage returns and tabs: no character of it
-- ends the string early or changes another one.
pub read_string-json_escape :
    (s : Text) → has_bare_control s ≡ false → read_string (json_escape s) ≡ some s
unfolding json_escape read_string
read_string-json_escape [] h = refl
read_string-json_escape (c ∷ s) h =
    read_char c (json_escape s) s (ground arith) (read_string-json_escape s (ground arith))
