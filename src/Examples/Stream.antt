-- ===== src/Examples/Stream.antt =====
-- What the tools of examples/tool_call_demo/ share: the extraction of words and numbers from a
-- std::istream, std::snprintf into a buffer, and the printing of strings and lists of JSON.
pub mod Reads
use embed_agent.Base.{
  ℕ, ◌-◌, ◌^◌, ◌%◌, Bool, true, false, List, [], ◌∷◌, ◌++◌, Option, none, some, Text, is_empty,
  is_space, take, if◌then◌else◌, ◌==◌, ◌||◌, leb, ltb, leading_digits, value_from, ℤ, pos, negsuc,
  opposite, suc, zero, drop, length,
}
use embed_agent.Tool.Param.{quote, backslash}

-- What std::snprintf leaves in a buffer of `size` bytes.
abbrev pub printed : ℕ → Text → Text
printed size text = take (size - 1) text

-- `in >> text`: blanks are skipped, and the characters up to the next blank are taken.
unfoldable pub until_blank : Text → Text
until_blank [] = []
until_blank (c ∷ cs) = let rest = until_blank cs in if is_space c then [] else c ∷ rest

unfoldable pub first_word : Text → Text
unfolding until_blank
first_word [] = []
first_word (c ∷ cs) = let rest = first_word cs in if is_space c then rest else until_blank (c ∷ cs)

abbrev pub word_of : Option Text → Text
word_of none = []
word_of (some text) = first_word text

-- jsonStr, without its quotation marks.
unfoldable pub json_chars : Text → Text
json_chars [] = []
json_chars (c ∷ cs) =
    let rest = json_chars cs in
    if c == quote || c == backslash then backslash ∷ c ∷ rest else c ∷ rest

abbrev pub json_str : Text → Text
json_str s = quote ∷ json_chars s ++ quote ∷ []

-- A list of entries with commas between them.
abbrev pub listed : List Text → Text
listed [] = []
listed (e ∷ []) = e
listed (e ∷ (f ∷ es)) = e ++ b',' ∷ listed (f ∷ es)

abbrev pub or_text : Text → Text → Text
or_text text other = if is_empty text then other else text

-- `in >> n` for an unsigned number of `w` bits: blanks are skipped, a sign may stand first, a number
-- that is too large gives the largest one, and where no digit follows it gives 0.
abbrev bounded : ℕ → Bool → ℕ → ℕ
bounded w negative n =
    if leb (2 ^ w) n then 2 ^ w - 1 else if negative then (2 ^ w - n) % 2 ^ w else n

abbrev unsigned_number : ℕ → Text → ℕ
unsigned_number w [] = 0
unsigned_number w (c ∷ cs) =
    if c == b'-'
    then bounded w true (value_from 0 (leading_digits cs))
    else if c == b'+'
    then bounded w false (value_from 0 (leading_digits cs))
    else bounded w false (value_from 0 (leading_digits (c ∷ cs)))

unfoldable pub extracted : ℕ → Text → ℕ
unfolding leading_digits value_from
extracted w [] = 0
extracted w (c ∷ cs) =
    let rest = extracted w cs in if is_space c then rest else unsigned_number w (c ∷ cs)

-- What `in` still has to read, and whether none of its reads has failed.
pub record Stream : Type 0 where
  pub rest : Text
  pub good : Bool

abbrev pub stream : Text → Stream
stream text = record { rest = text; good = true }

abbrev pub failed_stream : Stream
failed_stream = record { rest = []; good = false }

unfoldable pub skip_blanks : Text → Text
skip_blanks [] = []
skip_blanks (c ∷ cs) = let rest = skip_blanks cs in if is_space c then rest else c ∷ cs

unfoldable pub behind_word : Text → Text
behind_word [] = []
behind_word (c ∷ cs) = let rest = behind_word cs in if is_space c then c ∷ cs else rest

-- A read at the end of the text fails, and leaves the variable as it is.
abbrev word_at : Text → Text → Stream × Text
word_at [] old = (failed_stream, old)
word_at (c ∷ cs) old = (stream (behind_word (c ∷ cs)), until_blank (c ∷ cs))

abbrev pub char_at : Text → ℕ → Stream × ℕ
char_at [] old = (failed_stream, old)
char_at (c ∷ cs) old = (stream cs, c)

-- A number of a signed type of `w` bits, the first digit of the text being at its begin: no digit
-- gives 0 and a number that does not fit the nearest one, and both make the stream fail.
abbrev pub signed_digits : ℕ → Bool → Text → Stream × ℤ
signed_digits w negative cs =
    let digits = leading_digits cs in
    let n = value_from 0 digits in
    let after = stream (drop (length digits) cs) in
    if is_empty digits
    then (failed_stream, pos 0)
    else if negative
    then (if leb n (2 ^ (w - 1))
        then (after, opposite n)
        else (failed_stream, negsuc (2 ^ (w - 1) - 1)))
    else if ltb n (2 ^ (w - 1))
    then (after, pos n)
    else (failed_stream, pos (2 ^ (w - 1) - 1))

abbrev pub signed_at : ℕ → Text → ℤ → Stream × ℤ
signed_at w [] old = (failed_stream, old)
signed_at w (c ∷ cs) old =
    if c == b'-'
    then signed_digits w true cs
    else if c == b'+'
    then signed_digits w false cs
    else signed_digits w false (c ∷ cs)

-- `in >> word`, `in >> c` and `in >> n` for a signed number, with the variable's value before it.
unfoldable pub in_word : Stream → Text → Stream × Text
unfolding skip_blanks behind_word until_blank
in_word s old = if s.good then word_at (skip_blanks s.rest) old else (s, old)

unfoldable pub in_char : Stream → ℕ → Stream × ℕ
unfolding skip_blanks
in_char s old = if s.good then char_at (skip_blanks s.rest) old else (s, old)

unfoldable pub in_signed : ℕ → Stream → ℤ → Stream × ℤ
unfolding skip_blanks leading_digits value_from
in_signed w s old = if s.good then signed_at w (skip_blanks s.rest) old else (s, old)

-- std::getline: nothing is left to read behind the last line break.
unfoldable pub behind_line : Text → Text
behind_line [] = []
behind_line (c ∷ cs) = let rest = behind_line cs in if c == 10 then cs else rest

abbrev line_at : Text → Stream
line_at [] = failed_stream
line_at (c ∷ cs) = stream (behind_line (c ∷ cs))

unfoldable pub skip_line : Stream → Stream
unfolding behind_line
skip_line s = if s.good then line_at s.rest else s
