-- ===== src/Examples/Demo/Page.antt =====
-- What EaStreamPrinter (examples/common/ea_demo_io.cpp) prints, by the texts of the rounds.
use embed_agent.Base.{
  ℕ, suc, ◌≡◌, refl, sym, ap, ◌∙◌, Bool, true, false, not, ◌||◌, List, [], ◌∷◌, ◌++◌, Text, codes,
  is_empty, append_assoc, map,
}
use embed_agent.Agent.{Output, round_started, text_said}
use embed_agent.Examples.Demo.Printer.{
  StreamPrinter, new_printer, begin_segment, feed, finish, user_prompt, round_header, show_output,
  show_outputs, show_turn,
}

-- The pieces of a text one behind the other.
abbrev joined : List Text → Text
joined [] = []
joined (d ∷ ds) = d ++ joined ds

-- The calls for one round whose text comes in pieces.
abbrev round_outputs : ℕ → List Text → List Output
round_outputs n ds = round_started n ∷ map (text_said 0) ds

-- The calls of a turn, from the round number `n` on.
abbrev turn_outputs : ℕ → List (List Text) → List Output
turn_outputs n [] = []
turn_outputs n (ds ∷ rounds) = round_outputs n ds ++ turn_outputs (suc n) rounds

abbrev segment : Text → Text
segment [] = []
segment (c ∷ cs) = 10 ∷ codes "Assistant: " ++ (c ∷ cs)

abbrev line_break : Bool → Text
line_break true = 10 ∷ []
line_break false = []

-- The rounds by their whole texts; `started` says whether the round before had any.
abbrev page : Text → ℕ → Bool → List Text → Text
page header n started [] = []
page header n started (t ∷ ts) =
    round_header header n
    ++ (line_break started ++ (segment t ++ page header (suc n) (not (is_empty t)) ts))

abbrev any_text : List Text → Bool
any_text [] = false
any_text (t ∷ ts) = not (is_empty t) || any_text ts

show_outputs-append :
    (header : Text) (p : StreamPrinter) (os rest : List Output)
    → show_outputs header p (os ++ rest) ≡ (
      (show_outputs header (show_outputs header p os).0 rest).0,
      (show_outputs header p os).1 ++ (show_outputs header (show_outputs header p os).0 rest).1,
    )
unfolding show_outputs
show_outputs-append header p [] rest = refl
show_outputs-append header p (o ∷ os) rest =
    let first = show_output header p o in
    ap (λ (r : StreamPrinter × Text). (r.0, first.1 ++ r.1))
      (show_outputs-append header first.0 os rest)
    ∙ ap (λ (t : Text). ((show_outputs header (show_outputs header first.0 os).0 rest).0, t))
        (sym (
          append_assoc first.1 (show_outputs header first.0 os).1
            (show_outputs header (show_outputs header first.0 os).0 rest).1))

-- A segment that has begun goes on.
show_deltas-started :
    (header : Text) (ds : List Text)
    → show_outputs header
        (record { segment_started = true; wrote_content = true })
        (map (text_said 0) ds)
      ≡ (record { segment_started = true; wrote_content = true }, joined ds)
unfolding show_outputs show_output feed
show_deltas-started header [] = refl
show_deltas-started header ([] ∷ ds) = rw (show_deltas-started header ds) refl
show_deltas-started header ((c ∷ cs) ∷ ds) = rw (show_deltas-started header ds) refl

show_deltas :
    (header : Text) (wrote : Bool) (ds : List Text)
    → show_outputs header
        (record { segment_started = false; wrote_content = wrote })
        (map (text_said 0) ds)
      ≡ (
        record {
          segment_started = not (is_empty (joined ds));
          wrote_content = not (is_empty (joined ds)) || wrote;
        },
        segment (joined ds),
      )
unfolding show_outputs show_output feed
show_deltas header wrote [] = refl
show_deltas header wrote ([] ∷ ds) = rw (show_deltas header wrote ds) refl
show_deltas header wrote ((c ∷ cs) ∷ ds) = rw (show_deltas-started header ds) refl

abbrev printer : Bool → Bool → StreamPrinter
printer started wrote = record { segment_started = started; wrote_content = wrote }

show_round :
    (header : Text) (n : ℕ) (started wrote : Bool) (ds : List Text)
    → show_outputs header (printer started wrote) (round_outputs n ds) ≡ (
      printer (not (is_empty (joined ds))) (not (is_empty (joined ds)) || wrote),
      round_header header n ++ (line_break started ++ segment (joined ds)),
    )
unfolding show_outputs show_output begin_segment
show_round header n true wrote ds = rw (show_deltas header wrote ds) (
    ap
      (λ (t : Text).
        (printer (not (is_empty (joined ds))) (not (is_empty (joined ds)) || wrote), t))
      (append_assoc (round_header header n) (10 ∷ []) (segment (joined ds))))
show_round header n false wrote ds = rw (show_deltas header wrote ds) (
    ap
      (λ (t : Text).
        (printer (not (is_empty (joined ds))) (not (is_empty (joined ds)) || wrote), t))
      (append_assoc (round_header header n) [] (segment (joined ds))))

or_swap : (a b c : Bool) → (a || (b || c)) ≡ ((b || a) || c)
or_swap true true c = refl
or_swap true false c = refl
or_swap false true c = refl
or_swap false false c = refl

show_rounds :
    (header : Text) (n : ℕ) (started wrote : Bool) (rounds : List (List Text))
    → let shown = show_outputs header (printer started wrote) (turn_outputs n rounds) in
      (shown.0.wrote_content ≡ (any_text (map joined rounds) || wrote))
      × (shown.1 ≡ page header n started (map joined rounds))
unfolding show_outputs
show_rounds header n started wrote [] = (refl, refl)
show_rounds header n started wrote (ds ∷ rounds) =
    let said = not (is_empty (joined ds)) in
    let later = turn_outputs (suc n) rounds in
    let rest = show_rounds header (suc n) said (said || wrote) rounds in
    let whole =
      show_outputs-append header (printer started wrote) (round_outputs n ds) later
      ∙ ap
          (λ (q : StreamPrinter × Text).
            ((show_outputs header q.0 later).0, q.1 ++ (show_outputs header q.0 later).1))
          (show_round header n started wrote ds) in
    let line = line_break started ++ segment (joined ds) in
    (
      ap (λ (q : StreamPrinter × Text). q.0.wrote_content) whole
          ∙ (rest.0 ∙ or_swap (any_text (map joined rounds)) said wrote),
      ap (λ (q : StreamPrinter × Text). q.1) whole
          ∙ (append_assoc (round_header header n) line
                (show_outputs header (printer said (said || wrote)) later).1
              ∙ ap (◌++◌ (round_header header n)) (
                  append_assoc (line_break started) (segment (joined ds))
                    (show_outputs header (printer said (said || wrote)) later).1
                  ∙ ap (λ (t : Text). line_break started ++ (segment (joined ds) ++ t)) rest.1)),
    )

finish-line_break : (p : StreamPrinter) → finish p ≡ line_break p.wrote_content
unfolding finish
finish-line_break p = by_flag p.wrote_content
  where
    by_flag : (b : Bool) → finish (record p { wrote_content = b }) ≡ line_break b
    by_flag true = refl
    by_flag false = refl

or_false : (b : Bool) → (b || false) ≡ b
or_false true = refl
or_false false = refl

-- What a program prints for a turn does not depend on how the answers are cut into pieces: it is the
-- user's prompt and the page of the whole texts of the rounds, each text that is not empty behind
-- "Assistant:", the header in front of every round but the first, and a line break at the end where
-- there is any text.
pub show_turn-turn_outputs :
    (header prompt : Text) (rounds : List (List Text))
    → show_turn header prompt (turn_outputs 0 rounds)
      ≡ user_prompt prompt
        ++ (page header 0 false (map joined rounds) ++ line_break (any_text (map joined rounds)))
unfolding show_turn
show_turn-turn_outputs header prompt rounds =
    let shown = show_rounds header 0 false false rounds in
    let printed = show_outputs header new_printer (turn_outputs 0 rounds) in
    ap (λ (t : Text). user_prompt prompt ++ (t ++ finish printed.0)) shown.1
    ∙ ap (λ (t : Text). user_prompt prompt ++ (page header 0 false (map joined rounds) ++ t))
        (finish-line_break printed.0
          ∙ ap line_break (shown.0 ∙ or_false (any_text (map joined rounds))))
