-- ===== src/Base/Bits.antt =====
-- Exclusive or of bytes, and checks by evaluation over a range.
use Prim.Native.Nat.{
  ℕ, zero, suc, ◌+◌, ◌*◌, ◌/◌, ◌%◌, ◌^◌, ◌≤◌, ◌<◌, digits, differ, bit_xor, bit_xor-bitwise,
}
use mathlib.Core.Path.{◌≡◌, refl, ap, sym, ◌∙◌}
use mathlib.Core.Bool.{Bool, true, false, ◌&&◌}
use mathlib.Core.Logic.{inl, inr}
use embed_agent.Base.Tests.{leb, Bool-cases}
use native.Mathlib.Omega.{arith}
use native.Mathlib.Nat.{pow-suc}

-- Whether a test is passed by `count` numbers from `first` on.
unfoldable pub range_passes : (ℕ → Bool) → (first count : ℕ) → Bool
range_passes test first zero = true
range_passes test first (suc count) =
    let later = range_passes test (suc first) count in test first && later

pub range_passes-at :
    (test : ℕ → Bool) (first count i : ℕ)
    → range_passes test first count ≡ true
    → first ≤ i
    → i < first + count
    → test i ≡ true
unfolding range_passes
range_passes-at test first zero i all low high = absurd (omega arith)
range_passes-at test first (suc count) i all low high = elim (Bool-cases (leb i first)) [
  | inl here ↦ by_first i first (same i first here low) (ground arith)
  | inr later ↦ range_passes-at test (suc first) count i (ground arith) (ground arith) (omega arith)
]
  where
    same : (i j : ℕ) → leb i j ≡ true → j ≤ i → j ≡ i
    same i j h le = ground arith

    by_first : (i j : ℕ) → j ≡ i → test j ≡ true → test i ≡ true
    by_first i j e h = rw (sym e) h

-- What bit_xor stands for: the digits in turn, at most `rounds` of them.
abbrev xor_rounds : (rounds a b : ℕ) → ℕ
xor_rounds rounds a b = digits (λ n. n) differ rounds a b

-- A round beyond the first number's size changes nothing.
spare_round : (n a b : ℕ) → a ≤ n → xor_rounds (suc n) a b ≡ xor_rounds n a b
spare_round zero zero b le = refl
spare_round (suc n) zero b le = refl
spare_round (suc n) (suc a) b le = rw (spare_round n (suc a / 2) (b / 2) (omega arith)) refl
spare_round zero (suc a) b le = absurd (omega arith)

no_rounds : (m : ℕ) → m ≤ 0 → 0 ≡ m
no_rounds m h = omega arith

spare_rounds : (n m a b : ℕ) → a ≤ m → m ≤ n → xor_rounds n a b ≡ xor_rounds m a b
spare_rounds zero m a b le short = ap (λ k. xor_rounds k a b) (no_rounds m short)
spare_rounds (suc n) m a b le short = elim (Bool-cases (leb m n)) [
  | inl inside ↦ spare_round n a b (ground arith) ∙ spare_rounds n m a b le (ground arith)
  | inr whole ↦ ap (λ k. xor_rounds k a b) (at_end (leb→not m n whole))
]
  where
    leb→not : (m n : ℕ) → leb m n ≡ false → n < m
    leb→not m n h = ground arith

    at_end : n < m → suc n ≡ m
    at_end lt = omega arith

zero-bit_xor : (b : ℕ) → bit_xor 0 b ≡ b
zero-bit_xor b = bit_xor-bitwise 0 b

differ-zero : (a : ℕ) → differ a 0 ≡ a
differ-zero zero = refl
differ-zero (suc a) = refl

-- The law for the lowest digit.
bit_xor_step : (a b : ℕ) → bit_xor a b ≡ bit_xor (a / 2) (b / 2) * 2 + differ (a % 2) (b % 2)
bit_xor_step zero b = simp bit_xor-bitwise (omega arith)
bit_xor_step (suc a) b = omega (
  arith,
  bit_xor-bitwise (suc a) b,
  bit_xor-bitwise (suc a / 2) (b / 2),
  spare_rounds a (suc a / 2) (suc a / 2) (b / 2) (omega arith) (omega arith),
)

differ_twice : (x y : ℕ) → x < 2 → y < 2 → differ (differ x y) y ≡ x
differ_twice zero zero hx hy = refl
differ_twice zero (suc zero) hx hy = refl
differ_twice (suc zero) zero hx hy = refl
differ_twice (suc zero) (suc zero) hx hy = refl
differ_twice zero (suc (suc y)) hx hy = absurd (omega arith)
differ_twice (suc zero) (suc (suc y)) hx hy = absurd (omega arith)
differ_twice (suc (suc x)) y hx hy = absurd (omega arith)

differ_lt : (x y : ℕ) → x < 2 → y < 2 → differ x y < 2
differ_lt zero y hx hy = hy
differ_lt (suc zero) zero hx hy = hx
differ_lt (suc zero) (suc zero) hx hy = omega arith
differ_lt (suc zero) (suc (suc y)) hx hy = absurd (omega arith)
differ_lt (suc (suc x)) y hx hy = absurd (omega arith)

-- Numbers of k digits give a number of k digits.
pub bit_xor_lt : (k a b : ℕ) → a < 2 ^ k → b < 2 ^ k → bit_xor a b < 2 ^ k
bit_xor_lt zero zero zero ha hb = omega (arith, zero-bit_xor 0)
bit_xor_lt zero zero (suc b) ha hb = absurd (omega arith)
bit_xor_lt zero (suc a) b ha hb = absurd (omega arith)
bit_xor_lt (suc k) a b ha hb = omega (
  arith,
  pow-suc 2 k,
  bit_xor_step a b,
  differ_lt (a % 2) (b % 2) (omega arith) (omega arith),
  bit_xor_lt k (a / 2) (b / 2) (omega (arith, pow-suc 2 k)) (omega (arith, pow-suc 2 k)),
)

-- Once more with the same number gives the first number back.
pub bit_xor_twice : (k a b : ℕ) → a < 2 ^ k → b < 2 ^ k → bit_xor (bit_xor a b) b ≡ a
bit_xor_twice zero zero zero ha hb = refl
bit_xor_twice zero zero (suc b) ha hb = absurd (omega arith)
bit_xor_twice zero (suc a) b ha hb = absurd (omega arith)
bit_xor_twice (suc k) a b ha hb = omega (
  arith,
  bit_xor_step (bit_xor a b) b,
  ap (λ n. bit_xor n (b / 2))
      (half (bit_xor (a / 2) (b / 2)) r (bit_xor a b) small (bit_xor_step a b)),
  ap (λ n. differ n (b % 2))
      (rest (bit_xor (a / 2) (b / 2)) r (bit_xor a b) small (bit_xor_step a b)),
  bit_xor_twice k (a / 2) (b / 2) (omega (arith, pow-suc 2 k)) (omega (arith, pow-suc 2 k)),
  differ_twice (a % 2) (b % 2) (omega arith) (omega arith),
)
  where
    r : ℕ
    r = differ (a % 2) (b % 2)

    small : r < 2
    small = differ_lt (a % 2) (b % 2) (omega arith) (omega arith)

    half : (q r n : ℕ) → r < 2 → n ≡ q * 2 + r → n / 2 ≡ q
    half q r n h e = omega arith

    rest : (q r n : ℕ) → r < 2 → n ≡ q * 2 + r → n % 2 ≡ r
    rest q r n h e = omega arith
