-- ===== src/Session/Trim.antt =====
-- EaSession::trim (src/ea_session.cpp) as a whole.
use embed_agent.Base.{
  ℕ, zero, suc, ◌+◌, ◌^◌, ◌≤◌, ◌<◌, ◌≡◌, ◌⊎◌, refl, sym, ◌∙◌, true, false, ap, List, [], ◌∷◌, ◌++◌,
  arith, length, take, drop, take-append-drop, length-append,
}
use embed_agent.Cppev.{Message}
use embed_agent.Session.{Session, trim, start_idx}
use embed_agent.Session.Prompt.{IsWellFormed, start_idx-le-length}
use embed_agent.Session.Suffix.{
  longest_suffix, count_fits, within_budget, longest_suffix-longest, longest_suffix-fits,
  longest_suffix-splits, drop_over_count-longest, drop_over_tokens-longest, longest_suffix-twice,
}

-- The system message, where there is one.
abbrev pub head_part : Session → List Message
head_part s = take (start_idx s) s.messages

-- The messages behind it.
abbrev pub history : Session → List Message
history s = drop (start_idx s) s.messages

length-take-eq : (n : ℕ) (ms : List Message) → n ≤ length ms → length (take n ms) ≡ n
length-take-eq zero ms h = refl
length-take-eq (suc n) [] h = elim h [ ]
length-take-eq (suc n) (m ∷ ms) h = ap suc (length-take-eq n ms (omega arith))

length-split : (n : ℕ) (ms : List Message) → length (take n ms) + length (drop n ms) ≡ length ms
length-split n ms = sym (length-append (take n ms) (drop n ms)) ∙ ap length (take-append-drop n ms)

-- Both loops, on a history that is given as two parts.
trim_parts :
    (s : Session) (p ms : List Message)
    → s.messages ≡ p ++ ms
    → start_idx s ≡ length p
    → length p + length ms < 2 ^ 64
    → (trim s).messages ≡ p ++ longest_suffix (within_budget s.opts p) ms
unfolding trim
trim_parts s p ms split start small =
    rw
      (
        start,
        split,
        drop_over_count-longest s.opts p ms (length (p ++ ms)) (omega (arith, length-append p ms))
            small,
        drop_over_tokens-longest s.opts p (longest_suffix (count_fits s.opts) ms)
            (length (p ++ longest_suffix (count_fits s.opts) ms))
            (omega (arith, length-append p (longest_suffix (count_fits s.opts) ms))),
      )
      (ap (◌++◌ p) (longest_suffix-twice s.opts p ms))

-- trim keeps the system message and, of the messages behind it, the longest suffix that is within
-- both budgets.
pub trim_lem :
    (s : Session)
    → IsWellFormed s
    → length s.messages < 2 ^ 64
    → (trim s).messages
      ≡ head_part s ++ longest_suffix (within_budget s.opts (head_part s)) (history s)
trim_lem s w small =
    trim_parts s (head_part s) (history s) (sym (take-append-drop (start_idx s) s.messages))
      (sym (length-take-eq (start_idx s) s.messages (start_idx-le-length s w)))
      (omega (arith, length-split (start_idx s) s.messages))

-- What it means for `r` to be the part of a history that trim has to keep.
pub record IsLongestKept (s : Session) (r : List Message) : Type 0 where
  -- The system message stays, and `r` follows it.
  pub kept : (trim s).messages ≡ head_part s ++ r
  -- Messages are dropped from the front of the history only.
  pub suffix : (dropped : List Message) × (history s ≡ dropped ++ r)
  -- Both budgets hold, unless nothing is left behind the system message.
  pub fits : (r ≡ []) ⊎ (within_budget s.opts (head_part s) r ≡ true)
  -- Every longer suffix of the history exceeds a budget.
  pub longest :
      (dropped q : List Message)
      → history s ≡ dropped ++ q
      → length r < length q
      → within_budget s.opts (head_part s) q ≡ false

-- For a well-formed session of fewer than 2^64 messages, trim keeps the system message and exactly
-- the longest suffix of the other messages that is within maxMessages and within maxApproxTokens
-- (counted with the system message), or none of them where no suffix is.
pub trim-IsLongestKept :
    (s : Session)
    → IsWellFormed s
    → length s.messages < 2 ^ 64
    → (r : List Message) × IsLongestKept s r
trim-IsLongestKept s w small = (
  longest_suffix (within_budget s.opts (head_part s)) (history s),
  record {
    kept = trim_lem s w small;
    suffix = longest_suffix-splits _ (history s);
    fits = longest_suffix-fits _ (history s);
    longest = longest_suffix-longest _ (history s);
  },
)
