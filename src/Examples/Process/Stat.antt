-- ===== src/Examples/Process/Stat.antt =====
-- The times that parseProcStat finds (examples/tool_call_demo/ea_tool_process.cpp).
use embed_agent.Base.{
  ℕ, ◌^◌, ◌≡◌, ◌<◌, refl, ap, sym, is_digit, ◌∙◌, Bool, true, false, ◌&&◌, List, [], ◌∷◌, ◌++◌,
  Option, none, some, Text, ◌==◌, arith, Bool-cases, inl, inr, ℤ, pos, to_string, length,
}
use embed_agent.OfflineQueue.File.{lines_of, cons_char}
use embed_agent.Examples.Stream.{Stream, stream, in_word, skip_blanks}
use embed_agent.Examples.Stream.Reads.{
  is_word, lacks, spaced, in_word-word, lacks-append, lacks-to_string, in_signed-to_string,
}
use embed_agent.Examples.Process.{
  behind_last_paren, skip_words, stat_times, times_in, times_behind, read_times, first_line,
}

-- Every text of a list is a word that no closing parenthesis and no line break is in.
abbrev are_fields : List Text → Bool
are_fields [] = true
are_fields (w ∷ ws) = is_word w && (lacks b')' w && (lacks 10 w && are_fields ws))

first_line-lines_of : (l : Text) → lacks 10 l ≡ true → first_line (lines_of (l ++ 10 ∷ [])) ≡ l
unfolding lines_of
first_line-lines_of [] h = refl
first_line-lines_of (c ∷ l) h = elim (Bool-cases (c == 10)) [
  | inl break ↦ absurd (ground (arith, h, break))
  | inr other ↦ rw other (
      first_line-cons c (lines_of (l ++ 10 ∷ [])) l
        (first_line-lines_of l (ground (arith, h, other))))
]
  where
    first_line-cons :
        (c : ℕ) (ls : List Text) (l : Text)
        → first_line ls ≡ l
        → first_line (cons_char c ls) ≡ c ∷ l
    first_line-cons c [] l e = ap (◌∷◌ c) e
    first_line-cons c (k ∷ ls) l e = ap (◌∷◌ c) e

behind_last_paren-lacks : (t : Text) → lacks b')' t ≡ true → behind_last_paren t ≡ none
unfolding behind_last_paren
behind_last_paren-lacks [] h = refl
behind_last_paren-lacks (c ∷ t) h = ground (arith, h, behind_last_paren-lacks t)

behind_last_paren-append :
    (s t : Text) → lacks b')' t ≡ true → behind_last_paren (s ++ b')' ∷ t) ≡ some t
unfolding behind_last_paren
behind_last_paren-append [] t h = rw (behind_last_paren-lacks t h) refl
behind_last_paren-append (c ∷ s) t h = rw (behind_last_paren-append s t h) refl

spaced-lacks_paren :
    (ws : List Text) (r : Text)
    → are_fields ws ≡ true
    → lacks b')' r ≡ true
    → lacks b')' (spaced ws r) ≡ true
spaced-lacks_paren [] r h k = k
spaced-lacks_paren (w ∷ ws) r h k =
    ground (arith, h, k, spaced-lacks_paren ws r, lacks-append b')' w (spaced ws r))

spaced-lacks_break :
    (ws : List Text) (r : Text)
    → are_fields ws ≡ true
    → lacks 10 r ≡ true
    → lacks 10 (spaced ws r) ≡ true
spaced-lacks_break [] r h k = k
spaced-lacks_break (w ∷ ws) r h k =
    ground (arith, h, k, spaced-lacks_break ws r, lacks-append 10 w (spaced ws r))

spaced-begins : (ws : List Text) (r : Text) → (t : Text) × (spaced ws (b' ' ∷ r) ≡ b' ' ∷ t)
spaced-begins [] r = (r, refl)
spaced-begins (w ∷ ws) r = (w ++ spaced ws (b' ' ∷ r), refl)

in_word-spaced :
    (w : Text) (ws : List Text) (r : Text)
    → is_word w ≡ true
    → in_word (stream (b' ' ∷ w ++ spaced ws (b' ' ∷ r))) [] ≡ (stream (spaced ws (b' ' ∷ r)), w)
in_word-spaced w ws r h = let next = spaced-begins ws r in rw next.1 (in_word-word w next.0 [] h)

-- Each of the words is skipped.
skip_words-spaced :
    (ws : List Text) (r : Text)
    → are_fields ws ≡ true
    → skip_words (length ws) (stream (spaced ws (b' ' ∷ r))) ≡ stream (b' ' ∷ r)
unfolding skip_words
skip_words-spaced [] r h = refl
skip_words-spaced (w ∷ ws) r h =
    ap (λ (p : Stream × Text). skip_words (length ws) p.0)
      (in_word-spaced w ws r (ground (arith, h)))
    ∙ skip_words-spaced ws r (ground (arith, h))

-- The blank behind the parenthesis, which substr leaves out, makes no difference.
times_behind-blank :
    (tail x : Text) (old : ℤ × ℤ)
    → tail ≡ b' ' ∷ x
    → times_behind tail old ≡ some (read_times (skip_words 11 (stream tail)) old)
unfolding skip_words in_word skip_blanks
times_behind-blank tail x old e = rw e refl

-- The two times, as they stand behind the words.
abbrev pub times_text : ℕ → ℕ → Text → Text
times_text u t more = to_string u ++ b' ' ∷ (to_string t ++ b' ' ∷ more)

read_times-times_text :
    (u t : ℕ) (more : Text) (old : ℤ × ℤ)
    → u < 2 ^ 63
    → t < 2 ^ 63
    → read_times (stream (b' ' ∷ times_text u t more)) old ≡ (pos u, pos t)
read_times-times_text u t more old hu ht =
    rw
      (
        in_signed-to_string 64 u (to_string t ++ b' ' ∷ more) old.0 hu,
        in_signed-to_string 64 t more old.1 ht,
      )
      refl

times_text-lacks :
    (c u t : ℕ) (more : Text)
    → is_digit c ≡ false
    → (b' ' == c) ≡ false
    → lacks c more ≡ true
    → lacks c (b' ' ∷ times_text u t more) ≡ true
times_text-lacks c u t more digit blank h =
    let inner = lacks-append c (to_string t) (b' ' ∷ more) (lacks-to_string c t digit) in
    let whole = lacks-append c (to_string u) (b' ' ∷ (to_string t ++ b' ' ∷ more)) in
    ground (arith, h, digit, blank, inner, whole, lacks-to_string c u digit)

-- The times are found behind any name of a process, also one with parentheses and blanks, where
-- the first line of the stat file is eleven words and two numbers of a long behind the last
-- parenthesis, and more that has no parenthesis.
pub stat_times-fields :
    (before : Text) (fields : List Text) (u t : ℕ) (more : Text) (old : ℤ × ℤ)
    → lacks 10 before ≡ true
    → are_fields fields ≡ true
    → length fields ≡ 11
    → u < 2 ^ 63
    → t < 2 ^ 63
    → lacks b')' more ≡ true
    → lacks 10 more ≡ true
    → stat_times (before ++ b')' ∷ spaced fields (b' ' ∷ times_text u t more) ++ 10 ∷ []) old
      ≡ some (pos u, pos t)
unfolding stat_times
stat_times-fields before fields u t more old hb hf eleven hu ht hp hn =
    let tail = spaced fields (b' ' ∷ times_text u t more) in
    let paren =
      spaced-lacks_paren fields (b' ' ∷ times_text u t more) hf
        (times_text-lacks b')' u t more refl refl hp) in
    let break =
      spaced-lacks_break fields (b' ' ∷ times_text u t more) hf
        (times_text-lacks 10 u t more refl refl hn) in
    let line = lacks-append 10 before (b')' ∷ tail) hb break in
    let next = spaced-begins fields (times_text u t more) in
    ap (λ (l : Text). times_in (behind_last_paren l) old)
      (first_line-lines_of (before ++ b')' ∷ tail) line)
    ∙ ap (λ (b : Option Text). times_in b old) (behind_last_paren-append before tail paren)
    ∙ times_behind-blank tail next.0 old next.1
    ∙ ap some (
        rw (sym eleven) (
          rw (skip_words-spaced fields (times_text u t more) hf)
            (read_times-times_text u t more old hu ht)))
