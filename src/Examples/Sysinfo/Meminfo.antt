-- ===== src/Examples/Sysinfo/Meminfo.antt =====
-- What get_memory_info reads of /proc/meminfo (examples/tool_call_demo/ea_tool_sysinfo.cpp).
use embed_agent.Base.{
  ap, inl, inr, Bool-cases, text_eq, text_eq→eq, if◌then◌else◌, ℕ, zero, suc, ◌≡◌, ◌≤◌, ◌<◌, ◌^◌,
  refl, sym, ◌∙◌, true, List, [], ◌∷◌, ◌++◌, some, Text, codes, length, arith, ℤ, pos, to_string,
  length-append,
}
use embed_agent.Examples.Stream.{stream, in_word, in_signed, skip_line, behind_line, skip_blanks}
use embed_agent.Examples.Stream.Reads.{is_word, in_word-word, in_signed-to_string}
use embed_agent.Examples.Sysinfo.{MemInfo, no_memory, set_memory, read_memory, memory_of}

-- A line of the file: its key with the colon, the blanks behind it but one, and the number.
pub record Entry : Type 0 where
  pub key : Text
  pub padding : ℕ
  pub value : ℕ

abbrev blanks : ℕ → Text → Text
blanks zero t = t
blanks (suc n) t = b' ' ∷ blanks n t

-- What stands behind the key.
abbrev behind_key : Entry → Text → Text
behind_key e rest =
    b' ' ∷ blanks e.padding (b' ' ∷ to_string e.value ++ b' ' ∷ (codes "kB" ++ 10 ∷ rest))

abbrev entry_line : Entry → Text → Text
entry_line e rest = e.key ++ behind_key e rest

abbrev pub meminfo_text : List Entry → Text
meminfo_text [] = []
meminfo_text (e ∷ es) = entry_line e (meminfo_text es)

-- The keys are words, and the numbers fit a long.
abbrev AreEntries : List Entry → Type 0
AreEntries [] = Unit
AreEntries (e ∷ es) = (is_word e.key ≡ true) × (e.value < 2 ^ 63) × AreEntries es

-- The lines taken in order.
abbrev pub set_all : MemInfo → List Entry → MemInfo
set_all m [] = m
set_all m (e ∷ es) = set_all (set_memory m e.key (pos e.value)) es

in_word-blank : (t old : Text) → in_word (stream (b' ' ∷ t)) old ≡ in_word (stream t) old
unfolding in_word skip_blanks
in_word-blank t old = refl

in_signed-blanks :
    (n w : ℕ) (t : Text) (old : ℤ)
    → in_signed w (stream (b' ' ∷ blanks n t)) old ≡ in_signed w (stream t) old
unfolding in_signed skip_blanks
in_signed-blanks zero w t old = refl
in_signed-blanks (suc n) w t old = in_signed-blanks n w t old

-- One line.
key_read :
    (e : Entry) (rest old : Text)
    → is_word e.key ≡ true
    → in_word (stream (entry_line e rest)) old ≡ (stream (behind_key e rest), e.key)
key_read e rest old h =
    sym (in_word-blank (entry_line e rest) old)
    ∙ in_word-word e.key
        (blanks e.padding (b' ' ∷ to_string e.value ++ b' ' ∷ (codes "kB" ++ 10 ∷ rest))) old h

value_read :
    (e : Entry) (rest : Text) (old : ℤ)
    → e.value < 2 ^ 63
    → in_signed 64 (stream (behind_key e rest)) old
      ≡ (stream (b' ' ∷ (codes "kB" ++ 10 ∷ rest)), pos e.value)
value_read e rest old h =
    in_signed-blanks e.padding 64 (b' ' ∷ to_string e.value ++ b' ' ∷ (codes "kB" ++ 10 ∷ rest)) old
    ∙ in_signed-to_string 64 e.value (codes "kB" ++ 10 ∷ rest) old h

unit_skipped : (rest : Text) → skip_line (stream (b' ' ∷ (codes "kB" ++ 10 ∷ rest))) ≡ stream rest
unfolding skip_line behind_line
unit_skipped rest = refl

entry_read :
    (fuel : ℕ) (e : Entry) (rest : Text) (m : MemInfo)
    → is_word e.key ≡ true
    → e.value < 2 ^ 63
    → read_memory (suc fuel) (stream (entry_line e rest)) m
      ≡ read_memory fuel (stream rest) (set_memory m e.key (pos e.value))
unfolding read_memory
entry_read fuel e rest m hk hv =
    rw (read_memory, key_read e rest [] hk)
      (rw (value_read e rest (pos 0) hv) (rw (unit_skipped rest) refl))

read_memory-entries :
    (fuel : ℕ) (es : List Entry) (m : MemInfo)
    → length es < fuel
    → AreEntries es
    → read_memory fuel (stream (meminfo_text es)) m ≡ set_all m es
unfolding read_memory in_word in_signed skip_blanks
read_memory-entries zero es m enough h = elim (enough) [ ]
read_memory-entries (suc fuel) [] m enough h = refl
read_memory-entries (suc fuel) (e ∷ es) m enough (hk, hv, hs) =
    entry_read fuel e (meminfo_text es) m hk hv
    ∙ read_memory-entries fuel es (set_memory m e.key (pos e.value)) (omega arith) hs

length-blanks : (n : ℕ) (t : Text) → length t ≤ length (blanks n t)
length-blanks zero t = omega arith
length-blanks (suc n) t = omega (arith, length-blanks n t)

length-behind_key : (e : Entry) (rest : Text) → length rest < length (behind_key e rest)
length-behind_key e rest = omega (
  arith,
  length-blanks e.padding (b' ' ∷ to_string e.value ++ b' ' ∷ (codes "kB" ++ 10 ∷ rest)),
  length-append (b' ' ∷ to_string e.value) (b' ' ∷ (codes "kB" ++ 10 ∷ rest)),
)

length-meminfo_text : (es : List Entry) → length es ≤ length (meminfo_text es)
length-meminfo_text [] = omega arith
length-meminfo_text (e ∷ es) = omega (
  arith,
  length-meminfo_text es,
  length-append e.key (behind_key e (meminfo_text es)),
  length-behind_key e (meminfo_text es),
)

-- The number of the last line with a key, and 0 where there is none.
abbrev pub last_value : ℤ → List Entry → Text → ℤ
last_value old [] key = old
last_value old (e ∷ es) key = last_value (if text_eq e.key key then pos e.value else old) es key

-- The variables by the keys of the file.
abbrev pub values_by_key : (Text → ℤ) → MemInfo
values_by_key v = record {
  total_kb = v (codes "MemTotal:");
  free_kb = v (codes "MemFree:");
  available_kb = v (codes "MemAvailable:");
  buffers_kb = v (codes "Buffers:");
  cached_kb = v (codes "Cached:");
  swap_total_kb = v (codes "SwapTotal:");
  swap_free_kb = v (codes "SwapFree:");
}

set_memory-values :
    (v : Text → ℤ) (key : Text) (n : ℤ)
    → set_memory (values_by_key v) key n ≡ values_by_key (λ k. if text_eq key k then n else v k)
unfolding set_memory text_eq
set_memory-values v key n = elim (Bool-cases (text_eq key (codes "MemTotal:"))) [
  | inl e ↦ rw (text_eq→eq key (codes "MemTotal:") e) refl
  | inr a ↦ elim (Bool-cases (text_eq key (codes "MemFree:"))) [
    | inl e ↦ rw (text_eq→eq key (codes "MemFree:") e) refl
    | inr b ↦ elim (Bool-cases (text_eq key (codes "MemAvailable:"))) [
      | inl e ↦ rw (text_eq→eq key (codes "MemAvailable:") e) refl
      | inr c ↦ elim (Bool-cases (text_eq key (codes "Buffers:"))) [
        | inl e ↦ rw (text_eq→eq key (codes "Buffers:") e) refl
        | inr d ↦ elim (Bool-cases (text_eq key (codes "Cached:"))) [
          | inl e ↦ rw (text_eq→eq key (codes "Cached:") e) refl
          | inr f ↦ elim (Bool-cases (text_eq key (codes "SwapTotal:"))) [
            | inl e ↦ rw (text_eq→eq key (codes "SwapTotal:") e) refl
            | inr g ↦ elim (Bool-cases (text_eq key (codes "SwapFree:"))) [
              | inl e ↦ rw (text_eq→eq key (codes "SwapFree:") e) refl
              | inr h ↦ rw (a, b, c, d, f, g, h) refl
            ]
          ]
        ]
      ]
    ]
  ]
]

set_all-values :
    (v : Text → ℤ) (es : List Entry)
    → set_all (values_by_key v) es ≡ values_by_key (λ k. last_value (v k) es k)
set_all-values v [] = refl
set_all-values v (e ∷ es) =
    ap (λ m. set_all m es) (set_memory-values v e.key (pos e.value))
    ∙ set_all-values (λ k. if text_eq e.key k then pos e.value else v k) es

-- get_memory_info takes the lines of /proc/meminfo, each `key:`, blanks, a number of a long and kB,
-- up to the last of them: each of its seven variables has the number of the last line with its key,
-- or 0 where there is none.
pub memory_of-meminfo_text :
    (es : List Entry)
    → AreEntries es
    → memory_of (some (meminfo_text es)) ≡ record {
      total_kb = last_value (pos 0) es (codes "MemTotal:");
      free_kb = last_value (pos 0) es (codes "MemFree:");
      available_kb = last_value (pos 0) es (codes "MemAvailable:");
      buffers_kb = last_value (pos 0) es (codes "Buffers:");
      cached_kb = last_value (pos 0) es (codes "Cached:");
      swap_total_kb = last_value (pos 0) es (codes "SwapTotal:");
      swap_free_kb = last_value (pos 0) es (codes "SwapFree:");
    }
unfolding memory_of
memory_of-meminfo_text es h =
    read_memory-entries (suc (length (meminfo_text es))) es no_memory
      (omega (arith, length-meminfo_text es)) h
    ∙ set_all-values (λ k. pos 0) es
