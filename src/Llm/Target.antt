-- ===== src/Llm/Target.antt =====
-- The address that EaLlmClient sends to (src/ea_llm_client.cpp).
use embed_agent.Base.{
  ℕ, zero, suc, Bool, not, ◌==◌, ◌∙◌, if◌then◌else◌, append_assoc, ends_with-append, arith, ◌≡◌,
  refl, ap, inl, inr, true, false, [], ◌∷◌, ◌++◌, Text, codes, contains, contains-prepend, if-intro,
  ends_with, is_empty, Bool-cases,
}
use embed_agent.Llm.Url.{strip_trailing_slash, completions, resolve_chat_completions_url}

path_completes : contains (codes "/chat/completions") completions ≡ true
unfolding contains
path_completes = refl

versioned_path_completes : contains (codes "/v1/chat/completions") completions ≡ true
unfolding contains
versioned_path_completes = refl

-- An address that is not empty always becomes one that names a completions endpoint.
contains-resolve :
    (url : Text)
    → is_empty url ≡ false
    → contains (resolve_chat_completions_url url) completions ≡ true
unfolding resolve_chat_completions_url
contains-resolve url given = elim (Bool-cases (contains url completions)) [
  | inl direct ↦ rw (given, direct) direct
  | inr base ↦
      rw (given, base)
        (if-intro (λ u. contains u completions ≡ true)
          (ends_with (strip_trailing_slash url) (codes "/v1"))
          (contains-prepend (strip_trailing_slash url) _ completions path_completes)
          (contains-prepend (strip_trailing_slash url) _ completions versioned_path_completes))
]

strip_append-slash :
    (url : Text) → strip_trailing_slash (url ++ b'/' ∷ []) ≡ strip_trailing_slash url
unfolding strip_trailing_slash
strip_append-slash [] = refl
strip_append-slash (c ∷ cs) = rw (strip_append-slash cs)

resolve-endpoint :
    (url : Text) → contains url completions ≡ true → resolve_chat_completions_url url ≡ url
unfolding resolve_chat_completions_url
resolve-endpoint url h = rw h (if-intro (λ u. u ≡ url) (is_empty url) refl refl)

resolve-nil : resolve_chat_completions_url [] ≡ []
unfolding resolve_chat_completions_url
resolve-nil = refl

-- Resolving a resolved address changes nothing.
resolve_idempotent :
    (url : Text)
    → resolve_chat_completions_url (resolve_chat_completions_url url)
      ≡ resolve_chat_completions_url url
resolve_idempotent [] = ap resolve_chat_completions_url resolve-nil
resolve_idempotent (c ∷ cs) = resolve-endpoint _ (contains-resolve (c ∷ cs) refl)

-- A slash at the end of a base address makes no difference.
resolve-append-slash :
    (url : Text)
    → is_empty url ≡ false
    → contains url completions ≡ false
    → contains (url ++ b'/' ∷ []) completions ≡ false
    → resolve_chat_completions_url (url ++ b'/' ∷ []) ≡ resolve_chat_completions_url url
unfolding resolve_chat_completions_url
resolve-append-slash (c ∷ cs) given base base' = rw (base, base', strip_append-slash (c ∷ cs))
resolve-append-slash [] given base base' = cc

abbrev pub slashes : ℕ → Text
slashes zero = []
slashes (suc n) = b'/' ∷ slashes n

-- The last character is not a slash.
abbrev pub is_stripped : Text → Bool
is_stripped [] = true
is_stripped (c ∷ []) = not (c == b'/')
is_stripped (c ∷ (d ∷ cs)) = is_stripped (d ∷ cs)

strip_slashes : (n : ℕ) → strip_trailing_slash (slashes n) ≡ []
unfolding strip_trailing_slash
strip_slashes zero = refl
strip_slashes (suc n) = rw (strip_slashes n) refl

strip-append-slashes :
    (base : Text) (n : ℕ)
    → is_stripped base ≡ true
    → strip_trailing_slash (base ++ slashes n) ≡ base
unfolding strip_trailing_slash
strip-append-slashes [] n h = strip_slashes n
strip-append-slashes (c ∷ []) n h = rw (strip_slashes n) (ground arith)
strip-append-slashes (c ∷ (d ∷ cs)) n h = ground (arith, strip-append-slashes (d ∷ cs) n h)

is_stripped-append :
    (base : Text) (d : ℕ) (cs : Text)
    → is_stripped (d ∷ cs) ≡ true
    → is_stripped (base ++ d ∷ cs) ≡ true
is_stripped-append [] d cs h = h
is_stripped-append (b ∷ []) d cs h = h
is_stripped-append (b ∷ (c ∷ base)) d cs h = is_stripped-append (c ∷ base) d cs h

-- What an address that is not an endpoint becomes, by its text without slashes at the end.
resolve-base :
    (url base : Text)
    → is_empty url ≡ false
    → contains url completions ≡ false
    → strip_trailing_slash url ≡ base
    → resolve_chat_completions_url url ≡ (
        if ends_with base (codes "/v1")
        then base ++ codes "/chat/completions"
        else base ++ codes "/v1/chat/completions")
unfolding resolve_chat_completions_url
resolve-base url base given direct stripped = rw (given, direct, stripped) refl

is_empty-append : (s t : Text) → is_empty s ≡ false → is_empty (s ++ t) ≡ false
is_empty-append [] t h = cc
is_empty-append (c ∷ s) t h = refl

-- A base address that does not end in a slash or in "/v1", and the same with "/v1" behind it, each
-- with any number of slashes at the end, are resolved to the same address: the base with
-- "/v1/chat/completions" behind it. That is so where neither of the two has "completions" in it.
pub resolve-slashes :
    (base : Text) (m n : ℕ)
    → is_empty base ≡ false
    → is_stripped base ≡ true
    → ends_with base (codes "/v1") ≡ false
    → contains (base ++ slashes m) completions ≡ false
    → contains ((base ++ codes "/v1") ++ slashes n) completions ≡ false
    → (resolve_chat_completions_url (base ++ slashes m) ≡ base ++ codes "/v1/chat/completions")
      × (resolve_chat_completions_url ((base ++ codes "/v1") ++ slashes n)
          ≡ base ++ codes "/v1/chat/completions")
resolve-slashes base m n given stripped bare direct direct' = (
  resolve-base (base ++ slashes m) base (is_empty-append base (slashes m) given) direct
        (strip-append-slashes base m stripped)
      ∙ rw bare refl,
  resolve-base ((base ++ codes "/v1") ++ slashes n) (base ++ codes "/v1")
        (is_empty-append (base ++ codes "/v1") (slashes n)
          (is_empty-append base (codes "/v1") given))
        direct'
        (strip-append-slashes (base ++ codes "/v1") n
          (is_stripped-append base b'/' (codes "v1") refl))
      ∙ (rw (ends_with-append base (codes "/v1")) refl
          ∙ append_assoc base (codes "/v1") (codes "/chat/completions")),
)
