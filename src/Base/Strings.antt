-- ===== src/Base/Strings.antt =====
-- std::string as the list of its bytes.
use Prim.Native.Nat.{ℕ, ◌-◌, ◌<◌}
use Prim.Native.Char.{code}
use Prim.Native.String.{String}
use mathlib.Core.Path.{◌≡◌, refl, ap}
use mathlib.Core.Bool.{Bool, true, false, ◌&&◌, ◌||◌}
use mathlib.Core.Option.{Option, none, some}
use mathlib.Core.List.{List, [], ◌∷◌, ◌++◌}
use native.Mathlib.Omega.{arith}
use embed_agent.Base.Tests.{◌==◌, leb, if◌then◌else◌}
use embed_agent.Base.Lists.{drop, length, length-append}

abbrev pub Text : Type 0
Text = List ℕ

-- The bytes of an ASCII literal of the source.
abbrev pub codes : String → Text
codes String.[] = []
codes (String.◌∷◌ c s) = code c ∷ codes s

-- std::isspace in the C locale.
abbrev pub is_space : ℕ → Bool
is_space c = c == 32 || leb 9 c && leb c 13

-- What makes a list of numbers a std::string.
abbrev pub IsBytes : Text → Type 0
IsBytes [] = Unit {0}
IsBytes (c ∷ cs) = (c < 256) × IsBytes cs

-- `a == b` on strings.
unfoldable pub text_eq : Text → Text → Bool
text_eq [] [] = true
text_eq [] (b ∷ bs) = false
text_eq (a ∷ as') [] = false
text_eq (a ∷ as') (b ∷ bs) = (a == b) && text_eq as' bs

pub text_eq_refl : (t : Text) → text_eq t t ≡ true
unfolding text_eq
text_eq_refl [] = refl
text_eq_refl (a ∷ t) = ground (arith, text_eq_refl t)

pub text_eq→eq : (s t : Text) → text_eq s t ≡ true → s ≡ t
unfolding text_eq
text_eq→eq [] [] h = refl
text_eq→eq [] (b ∷ t) h = cc
text_eq→eq (a ∷ s) [] h = cc
text_eq→eq (a ∷ s) (b ∷ t) h = ground (arith, text_eq→eq s t)

pub text_eq_cong : (t s n : Text) → text_eq s n ≡ true → text_eq t s ≡ text_eq t n
text_eq_cong t s n h = ap (text_eq t) (text_eq→eq s n h)

-- `s.compare(0, p.size(), p) == 0`: the prefix test.
unfoldable pub starts_with : Text → Text → Bool
starts_with s [] = true
starts_with [] (b ∷ bs) = false
starts_with (a ∷ s) (b ∷ bs) = (a == b) && starts_with s bs

pub starts_with-append : (p s : Text) → starts_with (p ++ s) p ≡ true
unfolding starts_with
starts_with-append [] [] = refl
starts_with-append [] (a ∷ s) = refl
starts_with-append (a ∷ p) s = ground (arith, starts_with-append p s)

-- `s.find(pat) != npos`.
unfoldable pub contains : Text → Text → Bool
unfolding starts_with
contains [] pat = starts_with [] pat
contains (a ∷ s) pat = starts_with (a ∷ s) pat || contains s pat

contains-here : (p s : Text) → contains (p ++ s) p ≡ true
unfolding contains
contains-here [] [] = refl
contains-here [] (a ∷ s) = refl
contains-here (a ∷ p) s = rw (starts_with-append (a ∷ p) s)

pub contains-append : (before p after : Text) → contains (before ++ (p ++ after)) p ≡ true
unfolding contains
contains-append [] p after = contains-here p after
contains-append (a ∷ before) p after = ground (arith, contains-append before p after)

pub contains-prepend :
    (before s pat : Text) → contains s pat ≡ true → contains (before ++ s) pat ≡ true
unfolding contains
contains-prepend [] s pat h = h
contains-prepend (a ∷ before) s pat h = ground (arith, contains-prepend before s pat h)

-- `s.substr(s.find(pat) + pat.size())`; `none` where find returns npos.
unfoldable pub after_first : Text → Text → Option Text
unfolding starts_with
after_first [] pat = if starts_with [] pat then some [] else none
after_first (a ∷ s) pat =
    let rest = after_first s pat in
    if starts_with (a ∷ s) pat then some (drop (length pat) (a ∷ s)) else rest

drop-length : (p s : Text) → drop (length p) (p ++ s) ≡ s
drop-length [] s = refl
drop-length (a ∷ p) s = drop-length p s

pub after_first-append : (p s : Text) → after_first (p ++ s) p ≡ some s
unfolding after_first
after_first-append [] [] = refl
after_first-append [] (a ∷ s) = refl
after_first-append (a ∷ p) s = rw (starts_with-append (a ∷ p) s) (ap some (drop-length p s))

-- `s.back() == c` and the suffix test `s.compare(s.size() - p.size(), p.size(), p) == 0`.
unfoldable pub ends_with : Text → Text → Bool
unfolding text_eq
ends_with s suffix =
    leb (length suffix) (length s) && text_eq (drop (length s - length suffix) s) suffix

leb-append : (base s : Text) → leb (length s) (length (base ++ s)) ≡ true
leb-append [] s = ground arith
leb-append (c ∷ base) s = ground (arith, length-append base s)

text_eq-same : (s t : Text) → s ≡ t → text_eq s t ≡ true
text_eq-same s t e = rw e (text_eq_refl t)

length_rest : (base s : Text) → length (base ++ s) - length s ≡ length base
length_rest base s = omega (arith, length-append base s)

pub ends_with-append : (base s : Text) → ends_with (base ++ s) s ≡ true
unfolding ends_with
ends_with-append base s =
    rw (leb-append base s, length_rest base s)
      (text_eq-same (drop (length base) (base ++ s)) s (drop-length base s))
