-- ===== src/Prompt.antt =====
-- EaPromptTemplate (src/ea_prompt_template.cpp): {{variable}} substitution.
pub mod Render
use embed_agent.Base.{
  ℕ, zero, suc, Bool, true, false, List, [], ◌∷◌, ◌++◌, Text, codes, starts_with, if◌then◌else◌,
  drop, length, text_eq, ltb,
}

-- Whether the first text stands before the second in the order of std::string.
unfoldable text_lt : Text → Text → Bool
text_lt s [] = false
text_lt [] (b ∷ t) = true
text_lt (a ∷ s) (b ∷ t) =
    let rest = text_lt s t in if ltb a b then true else if ltb b a then false else rest

-- A std::map: its entries in the order of their keys.
abbrev Variables : Type 0
Variables = List (Text × Text)

pub record PromptTemplate : Type 0 where
  pub text : Text
  pub variables : Variables

-- `variables_[key] = value`.
unfoldable assign : Text → Text → Variables → Variables
unfolding text_eq text_lt
assign key value [] = (key, value) ∷ []
assign key value ((k, v) ∷ vs) =
    let rest = assign key value vs in
    if text_eq k key
    then (k, value) ∷ vs
    else if text_lt key k
    then (key, value) ∷ ((k, v) ∷ vs)
    else (k, v) ∷ rest

unfoldable pub set_variable : PromptTemplate → Text → Text → PromptTemplate
unfolding assign
set_variable p key value = record p { variables = assign key value p.variables }

unfoldable clear_variables : PromptTemplate → PromptTemplate
clear_variables p = record p { variables = [] }

abbrev pub placeholder : Text → Text
placeholder key = codes "{{" ++ (key ++ codes "}}")

-- The loop of find and replace: it goes on behind each value that it has put in, so it reads the
-- text once from the left. A placeholder is not empty, so a round for each character is enough.
unfoldable pub replace_all : ℕ → Text → Text → Text → Text
unfolding starts_with
replace_all zero pattern value s = s
replace_all (suc fuel) pattern value [] = []
replace_all (suc fuel) pattern value (c ∷ s) =
    let replaced = value ++ replace_all fuel pattern value (drop (length pattern) (c ∷ s)) in
    let kept = c ∷ replace_all fuel pattern value s in
    if starts_with (c ∷ s) pattern then replaced else kept

-- One pass for each variable, in the order of the keys.
unfoldable render_with : Variables → Text → Text
unfolding replace_all
render_with [] s = s
render_with ((k, v) ∷ vs) s = render_with vs (replace_all (length s) (placeholder k) v s)

unfoldable pub render : PromptTemplate → Text
unfolding render_with
render p = render_with p.variables p.text
