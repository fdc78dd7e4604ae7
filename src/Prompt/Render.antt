-- ===== src/Prompt/Render.antt =====
-- What EaPromptTemplate::render substitutes (src/ea_prompt_template.cpp).
use embed_agent.Base.{
  ℕ, zero, suc, ◌+◌, ◌≤◌, ◌≡◌, refl, ap, ◌∙◌, Bool, true, not, ◌&&◌, ◌==◌, [], ◌∷◌, ◌++◌, Text,
  codes, starts_with, starts_with-append, length, drop, arith, length-append,
}
use embed_agent.Prompt.{replace_all, placeholder}

length-drop-le : (n : ℕ) (s : Text) → length (drop n s) ≤ length s
length-drop-le zero s = omega arith
length-drop-le (suc n) [] = omega arith
length-drop-le (suc n) (c ∷ s) = omega (arith, length-drop-le n s)

-- Any two amounts of fuel that are enough give the same text.
replace_all_enough :
    (f g : ℕ) (c : ℕ) (pattern value s : Text)
    → length s ≤ f
    → length s ≤ g
    → replace_all f (c ∷ pattern) value s ≡ replace_all g (c ∷ pattern) value s
unfolding replace_all
replace_all_enough zero zero c pattern value s hf hg = refl
replace_all_enough zero (suc g) c pattern value [] hf hg = refl
replace_all_enough (suc f) zero c pattern value [] hf hg = refl
replace_all_enough (suc f) (suc g) c pattern value [] hf hg = refl
replace_all_enough zero (suc g) c pattern value (a ∷ s) hf hg = elim hf [ ]
replace_all_enough (suc f) zero c pattern value (a ∷ s) hf hg = elim hg [ ]
replace_all_enough (suc f) (suc g) c pattern value (a ∷ s) hf hg =
    rw
      (
        replace_all_enough f g c pattern value (drop (length pattern) s)
            (omega (arith, length-drop-le (length pattern) s))
            (omega (arith, length-drop-le (length pattern) s)),
        replace_all_enough f g c pattern value s (omega arith) (omega arith),
      )
      refl

drop-length : (p s : Text) → drop (length p) (p ++ s) ≡ s
drop-length [] s = refl
drop-length (c ∷ p) s = drop-length p s

-- A text in which no placeholder begins.
abbrev no_brace : Text → Bool
no_brace [] = true
no_brace (c ∷ cs) = not (c == b'{') && no_brace cs

-- `n` rounds, and one for each character of a text.
abbrev rounds : Text → ℕ → ℕ
rounds [] n = n
rounds (c ∷ cs) n = suc (rounds cs n)

rounds_sum : (a : Text) (n : ℕ) → rounds a n ≡ length a + n
rounds_sum [] n = omega arith
rounds_sum (c ∷ cs) n = omega (arith, rounds_sum cs n)

replace_all-prefix :
    (a : Text) (fuel : ℕ) (pattern value s : Text)
    → no_brace a ≡ true
    → replace_all (rounds a fuel) (b'{' ∷ pattern) value (a ++ s)
      ≡ a ++ replace_all fuel (b'{' ∷ pattern) value s
unfolding replace_all starts_with
replace_all-prefix [] fuel pattern value s h = refl
replace_all-prefix (c ∷ a) fuel pattern value s h =
    ground (arith, replace_all-prefix a fuel pattern value s)

-- A placeholder at the front is replaced, and the text behind it is treated in the same way.
replace_all-front :
    (fuel : ℕ) (pattern value s : Text)
    → replace_all (suc fuel) (b'{' ∷ pattern) value ((b'{' ∷ pattern) ++ s)
      ≡ value ++ replace_all fuel (b'{' ∷ pattern) value s
unfolding replace_all
replace_all-front fuel pattern value s =
    rw (starts_with-append (b'{' ∷ pattern) s, drop-length pattern s) refl

-- With a round for each character, the text before the first placeholder of a key stays, where it
-- has no opening brace, the placeholder becomes the value, and the text behind it is treated in the
-- same way; the value itself is not read again.
pub replace_all-placeholder :
    (a key value s : Text)
    → no_brace a ≡ true
    → let text = a ++ (placeholder key ++ s) in
      replace_all (length text) (placeholder key) value text
      ≡ a ++ (value ++ replace_all (length s) (placeholder key) value s)
replace_all-placeholder a key value s h =
    replace_all_enough (length text) (rounds a (suc fuel)) b'{' pattern value text (omega arith) (
      omega (
        arith,
        rounds_sum a (suc fuel),
        length-append a (placeholder key ++ s),
        length-append (placeholder key) s,
      ))
    ∙ (replace_all-prefix a (suc fuel) pattern value (placeholder key ++ s) h
        ∙ ap (◌++◌ a) (
            replace_all-front fuel pattern value s
            ∙ ap (◌++◌ value) (
                replace_all_enough fuel (length s) b'{' pattern value s
                  (omega (arith, length-append (placeholder key) s)) (omega arith))))
  where
    text : Text
    text = a ++ (placeholder key ++ s)

    pattern : Text
    pattern = b'{' ∷ (key ++ codes "}}")

    fuel : ℕ
    fuel = length (placeholder key ++ s)
