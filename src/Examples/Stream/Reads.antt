-- ===== src/Examples/Stream/Reads.antt =====
-- The reads of examples/tool_call_demo/ on words and numbers that a blank stands in front of.
use embed_agent.Base.{
  ℕ, ◌-◌, ◌^◌, ◌≡◌, ◌<◌, refl, ap, ◌∙◌, Bool, true, false, ◌&&◌, not, List, [], ◌∷◌, ◌++◌, Text,
  is_empty, is_space, ◌==◌, ltb, lt→ltb, arith, ℤ, pos, leading_digits, value_from, to_string, drop,
  length, is_digit, leading_digits-to_string, value_from-to_string, to_string-nonempty,
}
use embed_agent.Examples.Stream.{
  stream, skip_blanks, until_blank, behind_word, in_word, in_signed, signed_at, signed_digits,
}

-- No character of a text is a blank.
abbrev is_solid : Text → Bool
is_solid [] = true
is_solid (c ∷ cs) = not (is_space c) && is_solid cs

-- A word: solid, and not empty.
abbrev pub is_word : Text → Bool
is_word w = not (is_empty w) && is_solid w

-- Whether a character is not in a text.
abbrev pub lacks : ℕ → Text → Bool
lacks c [] = true
lacks c (d ∷ ds) = not (d == c) && lacks c ds

-- Words with a blank in front of each.
abbrev pub spaced : List Text → Text → Text
spaced [] rest = rest
spaced (w ∷ ws) rest = b' ' ∷ w ++ spaced ws rest

pub lacks-append :
    (c : ℕ) (s t : Text) → lacks c s ≡ true → lacks c t ≡ true → lacks c (s ++ t) ≡ true
lacks-append c [] t hs ht = ht
lacks-append c (d ∷ s) t hs ht = ground (arith, lacks-append c s t)

behind_word-solid : (w r : Text) → is_solid w ≡ true → behind_word (w ++ b' ' ∷ r) ≡ b' ' ∷ r
unfolding behind_word
behind_word-solid [] r h = refl
behind_word-solid (c ∷ w) r h = ground (arith, behind_word-solid w r)

until_blank-solid : (w r : Text) → is_solid w ≡ true → until_blank (w ++ b' ' ∷ r) ≡ w
unfolding until_blank
until_blank-solid [] r h = refl
until_blank-solid (c ∷ w) r h = ground (arith, until_blank-solid w r)

-- A word is read whole.
pub in_word-word :
    (w r old : Text)
    → is_word w ≡ true
    → in_word (stream (b' ' ∷ w ++ b' ' ∷ r)) old ≡ (stream (b' ' ∷ r), w)
unfolding in_word skip_blanks
in_word-word [] r old h = absurd (cc h)
in_word-word (c ∷ w) r old h =
    ground (arith, h, behind_word-solid (c ∷ w) r, until_blank-solid (c ∷ w) r)

-- A text of digits only.
abbrev IsNumeral : Text → Type 0
IsNumeral t = (leading_digits t ≡ t) × (is_empty t ≡ false)

pub to_string-IsNumeral : (n : ℕ) → IsNumeral (to_string n)
to_string-IsNumeral n = (leading_digits-to_string n, to_string-nonempty n)

digit-first :
    (c : ℕ) (t : Text)
    → leading_digits (c ∷ t) ≡ c ∷ t
    → (is_digit c ≡ true) × (leading_digits t ≡ t)
unfolding leading_digits
digit-first c t h = ground (arith, h)

lacks-digits : (c : ℕ) (t : Text) → is_digit c ≡ false → leading_digits t ≡ t → lacks c t ≡ true
lacks-digits c [] other h = refl
lacks-digits c (d ∷ t) other h =
    ground (arith, other, (digit-first d t h).0, lacks-digits c t other (digit-first d t h).1)

-- A printed number has no character that is not a digit.
pub lacks-to_string : (c n : ℕ) → is_digit c ≡ false → lacks c (to_string n) ≡ true
lacks-to_string c n other = lacks-digits c (to_string n) other (leading_digits-to_string n)

leading_digits-blank : (t r : Text) → leading_digits t ≡ t → leading_digits (t ++ b' ' ∷ r) ≡ t
unfolding leading_digits
leading_digits-blank [] r h = refl
leading_digits-blank (c ∷ t) r h =
    ground (arith, (digit-first c t h).0, leading_digits-blank t r (digit-first c t h).1)

drop-length : (t r : Text) → drop (length t) (t ++ r) ≡ r
drop-length [] r = refl
drop-length (c ∷ t) r = drop-length t r

signed_digits-numeral :
    (w : ℕ) (t r : Text)
    → IsNumeral t
    → ltb (value_from 0 t) (2 ^ (w - 1)) ≡ true
    → signed_digits w false (t ++ b' ' ∷ r) ≡ (stream (b' ' ∷ r), pos (value_from 0 t))
signed_digits-numeral w t r (digits, nonempty) small =
    rw (leading_digits-blank t r digits, nonempty, small, drop-length t (b' ' ∷ r)) refl

skip_blanks-digit : (c : ℕ) (t : Text) → is_digit c ≡ true → skip_blanks (b' ' ∷ c ∷ t) ≡ c ∷ t
unfolding skip_blanks
skip_blanks-digit c t d = ground (arith, d)

signed_at-digit :
    (w c : ℕ) (t : Text) (old : ℤ)
    → is_digit c ≡ true
    → signed_at w (c ∷ t) old ≡ signed_digits w false (c ∷ t)
signed_at-digit w c t old d = rw (not_minus, not_plus) refl
  where
    not_minus : (c == b'-') ≡ false
    not_minus = ground (arith, d)

    not_plus : (c == b'+') ≡ false
    not_plus = ground (arith, d)

-- A number is read whole, and gives its value.
in_signed-numeral :
    (w : ℕ) (t r : Text) (old : ℤ)
    → IsNumeral t
    → ltb (value_from 0 t) (2 ^ (w - 1)) ≡ true
    → in_signed w (stream (b' ' ∷ t ++ b' ' ∷ r)) old ≡ (stream (b' ' ∷ r), pos (value_from 0 t))
unfolding in_signed
in_signed-numeral w [] r old (digits, nonempty) small = absurd (cc nonempty)
in_signed-numeral w (c ∷ t) r old (digits, nonempty) small =
    let d = (digit-first c t digits).0 in
    ap (λ (s : Text). signed_at w s old) (skip_blanks-digit c (t ++ b' ' ∷ r) d)
    ∙ signed_at-digit w c (t ++ b' ' ∷ r) old d
    ∙ signed_digits-numeral w (c ∷ t) r (digits, nonempty) small

pub in_signed-to_string :
    (w n : ℕ) (r : Text) (old : ℤ)
    → n < 2 ^ (w - 1)
    → in_signed w (stream (b' ' ∷ to_string n ++ b' ' ∷ r)) old ≡ (stream (b' ' ∷ r), pos n)
in_signed-to_string w n r old small =
    in_signed-numeral w (to_string n) r old (to_string-IsNumeral n)
      (rw (value_from-to_string n) (lt→ltb n (2 ^ (w - 1)) small))
    ∙ ap (λ (v : ℕ). (stream (b' ' ∷ r), pos v)) (value_from-to_string n)
