-- ===== src/Session/Suffix.antt =====
-- The two loops of EaSession::trim (src/ea_session.cpp) keep a longest suffix each.
use embed_agent.Base.{
  ℕ, zero, suc, ◌+◌, ◌^◌, ◌≤◌, ◌<◌, ◌≡◌, ◌⊎◌, refl, ap, inl, inr, Bool, true, false, not, ◌&&◌,
  List, [], ◌∷◌, ◌++◌, arith, ltb, if◌then◌else◌, length, length-append, erase_at, append-nil,
  Bool-cases,
}
use embed_agent.Cppev.{Message}
use embed_agent.Session.{
  SessionOptions, drop_over_count, drop_over_tokens, approx_token_count, tail,
}

-- The longest suffix that passes a test; the empty one where none does.
unfoldable pub longest_suffix : (List Message → Bool) → List Message → List Message
longest_suffix keep [] = []
longest_suffix keep (m ∷ ms) =
    let rest = longest_suffix keep ms in if keep (m ∷ ms) then m ∷ ms else rest

unfoldable pub count_fits : SessionOptions → List Message → Bool
count_fits opts r = not (ltb opts.max_messages (length r))

unfoldable pub tokens_fit : SessionOptions → List Message → List Message → Bool
tokens_fit opts kept r = not (ltb opts.max_approx_tokens (approx_token_count (kept ++ r)))

-- Both budgets, behind the messages `kept` that trim never drops.
unfoldable pub within_budget : SessionOptions → List Message → List Message → Bool
unfolding count_fits tokens_fit
within_budget opts kept r = count_fits opts r && tokens_fit opts kept r

pub longest_suffix-fits :
    (keep : List Message → Bool) (ms : List Message)
    → (longest_suffix keep ms ≡ []) ⊎ (keep (longest_suffix keep ms) ≡ true)
unfolding longest_suffix
longest_suffix-fits keep [] = inl refl
longest_suffix-fits keep (m ∷ ms) = elim (Bool-cases (keep (m ∷ ms))) [
  | inl fits ↦ inr (rw (fits) fits)
  | inr over ↦ rw over (longest_suffix-fits keep ms)
]

pub longest_suffix-splits :
    (keep : List Message → Bool) (ms : List Message)
    → (dropped : List Message) × (ms ≡ dropped ++ longest_suffix keep ms)
unfolding longest_suffix
longest_suffix-splits keep [] = ([], refl)
longest_suffix-splits keep (m ∷ ms) = elim (Bool-cases (keep (m ∷ ms))) [
  | inl fits ↦ ([], rw fits)
  | inr over ↦
      let (dropped, e) = longest_suffix-splits keep ms in (m ∷ dropped, rw over (ap (◌∷◌ m) e))
]

longest_suffix-length-le :
    (keep : List Message → Bool) (ms : List Message) → length (longest_suffix keep ms) ≤ length ms
unfolding longest_suffix
longest_suffix-length-le keep [] = omega arith
longest_suffix-length-le keep (m ∷ ms) = ground (arith, longest_suffix-length-le keep ms)

-- Every longer suffix fails the test.
pub longest_suffix-longest :
    (keep : List Message → Bool) (ms dropped r : List Message)
    → ms ≡ dropped ++ r
    → length (longest_suffix keep ms) < length r
    → keep r ≡ false
unfolding longest_suffix
longest_suffix-longest keep [] [] r e longer = ground (arith, e)
longest_suffix-longest keep [] (d ∷ ds) r e longer = cc
longest_suffix-longest keep (m ∷ ms) [] r e longer = elim (Bool-cases (keep (m ∷ ms))) [
  | inl fits ↦ absurd (ground (arith, ap length e))
  | inr over ↦ rw (← e) over
]
longest_suffix-longest keep (m ∷ ms) (d ∷ ds) r e longer = ground (
  arith,
  ap length (ap tail e),
  length-append ds r,
  longest_suffix-longest keep ms ds r (ap tail e),
)

erase_at-append :
    (p : List Message) (x : Message) (xs : List Message)
    → erase_at (length p) (p ++ x ∷ xs) ≡ p ++ xs
erase_at-append [] x xs = refl
erase_at-append (y ∷ p) x xs = ap (◌∷◌ y) (erase_at-append p x xs)

pub drop_over_count-longest :
    (opts : SessionOptions) (p ms : List Message) (fuel : ℕ)
    → length ms ≤ fuel
    → length p + length ms < 2 ^ 64
    → drop_over_count fuel (length p) opts.max_messages (p ++ ms)
      ≡ p ++ longest_suffix (count_fits opts) ms
unfolding drop_over_count longest_suffix count_fits
drop_over_count-longest opts p [] zero enough small = refl
drop_over_count-longest opts p (m ∷ ms) zero enough small = absurd (omega arith)
drop_over_count-longest opts p [] (suc fuel) enough small = rw (append-nil p) (ground arith)
drop_over_count-longest opts p (m ∷ ms) (suc fuel) enough small =
    rw (erase_at-append p m ms, drop_over_count-longest opts p ms fuel (omega arith) (omega arith))
      (ground (arith, length-append p (m ∷ ms)))

pub drop_over_tokens-longest :
    (opts : SessionOptions) (p ms : List Message) (fuel : ℕ)
    → length ms ≤ fuel
    → drop_over_tokens fuel (length p) opts.max_approx_tokens (p ++ ms)
      ≡ p ++ longest_suffix (tokens_fit opts p) ms
unfolding drop_over_tokens longest_suffix tokens_fit
drop_over_tokens-longest opts p [] zero enough = refl
drop_over_tokens-longest opts p (m ∷ ms) zero enough = absurd (omega arith)
drop_over_tokens-longest opts p [] (suc fuel) enough = rw (append-nil p) (ground arith)
drop_over_tokens-longest opts p (m ∷ ms) (suc fuel) enough =
    rw (erase_at-append p m ms, drop_over_tokens-longest opts p ms fuel (omega arith))
      (ground (arith, length-append p (m ∷ ms)))

-- A count that fits still fits after a drop, so two passes are one.
longest_suffix-both :
    (opts : SessionOptions) (p ms : List Message)
    → count_fits opts ms ≡ true
    → longest_suffix (tokens_fit opts p) ms ≡ longest_suffix (within_budget opts p) ms
unfolding longest_suffix within_budget count_fits
longest_suffix-both opts p [] h = refl
longest_suffix-both opts p (m ∷ ms) h = ground (arith, longest_suffix-both opts p ms)

pub longest_suffix-twice :
    (opts : SessionOptions) (p ms : List Message)
    → longest_suffix (tokens_fit opts p) (longest_suffix (count_fits opts) ms)
      ≡ longest_suffix (within_budget opts p) ms
unfolding longest_suffix within_budget
longest_suffix-twice opts p [] = refl
longest_suffix-twice opts p (m ∷ ms) =
    ground (arith, longest_suffix-both opts p (m ∷ ms), longest_suffix-twice opts p ms)

pub longest_suffix_self :
    (keep : List Message → Bool) (ms : List Message) → keep ms ≡ true → longest_suffix keep ms ≡ ms
unfolding longest_suffix
longest_suffix_self keep [] h = refl
longest_suffix_self keep (m ∷ ms) h = rw h
