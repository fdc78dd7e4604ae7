-- ===== src/Base/Decimal.antt =====
-- Decimal numbers as std::to_string prints them and std::atoi reads them, on values that fit.
use Prim.Native.Nat.{ℕ, zero, suc, ◌+◌, ◌-◌, ◌*◌, ◌/◌, ◌%◌, ◌^◌, ◌≤◌, ◌<◌}
use mathlib.Core.Path.{◌≡◌, refl}
use mathlib.Core.Logic.{inl, inr}
use mathlib.Core.Bool.{Bool, false, ◌&&◌}
use mathlib.Core.List.{[], ◌∷◌, ◌++◌}
use native.Mathlib.Omega.{arith}
use native.Mathlib.Nat.{pow-suc}
use embed_agent.Base.Tests.{leb, ltb, if◌then◌else◌, if-intro, Bool-cases, ltb→le, lt→ltb}
use embed_agent.Base.Lists.{is_empty, length, length-append}
use embed_agent.Base.Strings.{Text}
use embed_agent.Base.Int.{ℤ, pos, negsuc}

abbrev pub is_digit : ℕ → Bool
is_digit c = leb b'0' c && leb c b'9'

-- Each round prints one digit.
print_fuel : ℕ → ℕ → Text
print_fuel zero n = []
print_fuel (suc fuel) n =
    let front = print_fuel fuel (n / 10) in
    if ltb n 10 then (b'0' + n) ∷ [] else front ++ (b'0' + n % 10) ∷ []

-- std::to_string of a number that is not negative.
unfoldable pub to_string : ℕ → Text
unfolding print_fuel
to_string n = print_fuel (suc n) n

-- std::to_string of a number of a signed type.
abbrev pub int_to_string : ℤ → Text
int_to_string (pos n) = to_string n
int_to_string (negsuc n) = b'-' ∷ to_string (suc n)

-- The digits that a text begins with.
unfoldable pub leading_digits : Text → Text
leading_digits [] = []
leading_digits (c ∷ cs) = let rest = leading_digits cs in if is_digit c then c ∷ rest else []

-- std::atoi of a text of digits; the value fits an int.
unfoldable pub value_from : ℕ → Text → ℕ
value_from acc [] = acc
value_from acc (c ∷ cs) = value_from (acc * 10 + (c - b'0')) cs

value_from-append :
    (acc : ℕ) (s t : Text) → value_from acc (s ++ t) ≡ value_from (value_from acc s) t
unfolding value_from
value_from-append acc [] t = refl
value_from-append acc (c ∷ s) t = value_from-append (acc * 10 + (c - b'0')) s t

value_from-print_fuel : (fuel n : ℕ) → n < fuel → value_from 0 (print_fuel fuel n) ≡ n
unfolding value_from print_fuel
value_from-print_fuel zero n h = elim h [ ]
value_from-print_fuel (suc fuel) n h = elim (Bool-cases (ltb n 10)) [
  | inl small ↦ rw small (omega arith)
  | inr large ↦
      rw (large, value_from-append 0 (print_fuel fuel (n / 10)) ((b'0' + n % 10) ∷ []))
        (omega (
          arith,
          ltb→le n 10 large,
          value_from-print_fuel fuel (n / 10) (omega (arith, ltb→le n 10 large)),
        ))
]

-- Reading back what was printed gives the number.
pub value_from-to_string : (n : ℕ) → value_from 0 (to_string n) ≡ n
unfolding to_string
value_from-to_string n = value_from-print_fuel (suc n) n (omega arith)

leading_digits-append :
    (s t : Text) → leading_digits s ≡ s → leading_digits (s ++ t) ≡ s ++ leading_digits t
unfolding leading_digits
leading_digits-append [] t h = refl
leading_digits-append (c ∷ s) t h = ground (arith, leading_digits-append s t)

leading_digits-print_fuel : (fuel n : ℕ) → leading_digits (print_fuel fuel n) ≡ print_fuel fuel n
unfolding leading_digits print_fuel
leading_digits-print_fuel zero n = refl
leading_digits-print_fuel (suc fuel) n = elim (Bool-cases (ltb n 10)) [
  | inl small ↦ rw small (ground arith)
  | inr large ↦
      rw
        (
          large,
          leading_digits-append (print_fuel fuel (n / 10)) ((b'0' + n % 10) ∷ [])
              (leading_digits-print_fuel fuel (n / 10)),
        )
        (ground arith)
]

-- A printed number is digits throughout, and is not empty.
pub leading_digits-to_string : (n : ℕ) → leading_digits (to_string n) ≡ to_string n
unfolding to_string
leading_digits-to_string n = leading_digits-print_fuel (suc n) n

pub to_string-nonempty : (n : ℕ) → is_empty (to_string n) ≡ false
unfolding to_string print_fuel
to_string-nonempty n = elim (Bool-cases (ltb n 10)) [
  | inl small ↦ rw small refl
  | inr large ↦ rw large (snoc-nonempty (print_fuel n (n / 10)) _)
]
  where
    snoc-nonempty : (s : Text) (c : ℕ) → is_empty (s ++ c ∷ []) ≡ false
    snoc-nonempty [] c = refl
    snoc-nonempty (a ∷ s) c = refl

-- A number of at most k + 1 digits is printed with at most as many.
length-print_fuel : (k fuel n : ℕ) → n < 10 ^ suc k → length (print_fuel fuel n) ≤ suc k
unfolding print_fuel
length-print_fuel k zero n h = omega arith
length-print_fuel zero (suc fuel) n h = rw (lt→ltb n 10 (omega arith)) (omega arith)
length-print_fuel (suc k) (suc fuel) n h =
    let rest = length-print_fuel k fuel (n / 10) (omega (arith, pow-suc 10 (suc k))) in
    if-intro (λ (t : Text). length t ≤ suc (suc k)) (ltb n 10) one
      (longer (print_fuel fuel (n / 10)) rest)
  where
    one : 1 ≤ suc (suc k)
    one = omega arith

    longer : (t : Text) → length t ≤ suc k → length (t ++ (b'0' + n % 10) ∷ []) ≤ suc (suc k)
    longer t h = omega (arith, length-append t ((b'0' + n % 10) ∷ []))

pub length-to_string : (k n : ℕ) → n < 10 ^ suc k → length (to_string n) ≤ suc k
unfolding to_string
length-to_string k n h = length-print_fuel k (suc n) n h
