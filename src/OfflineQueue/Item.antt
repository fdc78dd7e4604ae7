-- ===== src/OfflineQueue/Item.antt =====
-- serializeQueuedItem and parseQueuedItem (src/ea_offline_queue.cpp): a queued item as a line of
-- JSON, over the JSON library.
use embed_agent.Base.{
  is_space, ℕ, zero, suc, ◌^◌, ◌≡◌, ◌<◌, refl, ap, ◌∙◌, sym, Bool, true, false, List, [], ◌∷◌,
  Option, none, some, Text, codes, ℤ, pos, negsuc, is_empty, if◌then◌else◌, ltb, ◌==◌,
  leading_digits, value_from, to_string, int_to_string, arith, leading_digits-to_string,
  value_from-to_string, to_string-nonempty,
}
use embed_agent.Cppev.{JsonField, text_field, int_field, JsonCodec}
use embed_agent.Cppev.Reading.{IsRead, find_field}
use embed_agent.OfflineQueue.{QueuedItem}

-- The number that a text begins with, where it begins with one.
unfoldable magnitude : Text → Option ℕ
unfolding leading_digits value_from
magnitude s =
    let digits = leading_digits s in if is_empty digits then none else some (value_from 0 digits)

-- The value where it fits 64 bits.
abbrev fit : Bool → Option ℕ → Option ℤ
fit negative none = none
fit false (some n) = if ltb n (2 ^ 63) then some (pos n) else none
fit true (some zero) = some (pos 0)
fit true (some (suc n)) = if ltb n (2 ^ 63) then some (negsuc n) else none

-- std::stoll; `none` where it throws.
unfoldable stoll : Text → Option ℤ
unfolding magnitude
stoll [] = none
stoll (c ∷ cs) =
    let rest = stoll cs in
    if is_space c
    then rest
    else if c == b'-'
    then fit true (magnitude cs)
    else if c == b'+'
    then fit false (magnitude cs)
    else fit false (magnitude (c ∷ cs))

abbrev pub item_fields : QueuedItem → List JsonField
item_fields x =
    text_field (codes "id") x.id
    ∷ (text_field (codes "userText") x.user_text
        ∷ (text_field (codes "enqueuedAtMs") (int_to_string x.enqueued_at_ms)
            ∷ (int_field (codes "attemptCount") x.attempt_count ∷ [])))

-- What parseQueuedItem does: it returns false, it fills the item in, or std::stoll throws.
pub data ParsedItem : Type 0 where
  corrupt : ParsedItem
  parsed : QueuedItem → ParsedItem
  throws : ParsedItem

-- The item with the time that std::stoll gives.
abbrev timed_item : Text → Text → Option ℤ → Option ℤ → ParsedItem
timed_item id text count none = throws
timed_item id text none (some ms) =
    parsed (record { id = id; user_text = text; enqueued_at_ms = ms; attempt_count = pos 0 })
timed_item id text (some count) (some ms) =
    parsed (record { id = id; user_text = text; enqueued_at_ms = ms; attempt_count = count })

-- The item, once its members are read.
unfoldable fill_item : Option Text → Option Text → Option Text → Option ℤ → ParsedItem
unfolding stoll
fill_item none _ _ _ = corrupt
fill_item (some id) none _ _ = corrupt
fill_item (some id) (some text) none _ = corrupt
fill_item (some id) (some text) (some at) count = timed_item id text count (stoll at)

module _ (J : JsonCodec) where
  open J use {json, build}
  open json use {Doc, parse, get_string, get_int}

  unfoldable pub serialize_queued_item : QueuedItem → Option Text
  serialize_queued_item x = build (item_fields x)

  abbrev read_item : Doc → ParsedItem
  read_item d =
      fill_item (get_string d (codes "id")) (get_string d (codes "userText"))
        (get_string d (codes "enqueuedAtMs")) (get_int d (codes "attemptCount"))

  unfoldable pub parse_queued_item : Text → ParsedItem
  unfolding fill_item
  parse_queued_item line =
      if is_empty line then corrupt else elim (parse line) [ none ↦ corrupt | some d ↦ read_item d ]

  -- The JSON library builds the line of the item's members, and reads each of them back from it.
  abbrev pub IsReadBack : QueuedItem → Text → Type 0
  IsReadBack x line = IsRead J (item_fields x) line

magnitude-to_string : (n : ℕ) → magnitude (to_string n) ≡ some n
unfolding magnitude
magnitude-to_string n =
    rw (leading_digits-to_string n, to_string-nonempty n) (ap some (value_from-to_string n))

stoll_digits :
    (s : Text) (n : ℕ)
    → leading_digits s ≡ s
    → is_empty s ≡ false
    → magnitude s ≡ some n
    → n < 2 ^ 63
    → stoll s ≡ some (pos n)
unfolding stoll leading_digits
stoll_digits [] n h some_text m small = cc
stoll_digits (c ∷ cs) n h some_text m small = ground arith

-- Reading the time back, for a time that is not negative.
stoll-to_string : (n : ℕ) → n < 2 ^ 63 → stoll (to_string n) ≡ some (pos n)
stoll-to_string n small =
    stoll_digits (to_string n) n (leading_digits-to_string n) (to_string-nonempty n)
      (magnitude-to_string n) small

module _ (J : JsonCodec) where
  -- parseQueuedItem gives back the item whose line serializeQueuedItem wrote, where the JSON library
  -- builds the line and reads each member that is in it back by its key, and the item's time is from
  -- 0 to 2^63 - 1.
  pub parse-serialize_queued_item :
      (x : QueuedItem) (line : Text) (n : ℕ)
      → IsReadBack J x line
      → x.enqueued_at_ms ≡ pos n
      → n < 2 ^ 63
      → (serialize_queued_item J x ≡ some line) × (parse_queued_item J line ≡ parsed x)
  unfolding serialize_queued_item parse_queued_item fill_item find_field
  parse-serialize_queued_item x line n r time small = (
    r.written,
    rw
        (
          r.some_text,
          r.read,
          r.texts (codes "id") x.id refl,
          r.texts (codes "userText") x.user_text refl,
          r.texts (codes "enqueuedAtMs") (int_to_string x.enqueued_at_ms) refl,
          r.ints (codes "attemptCount") x.attempt_count refl,
          fill_item,
        )
        (ap (timed_item x.id x.user_text (some x.attempt_count)) same_time),
  )
    where
      same_time : stoll (int_to_string x.enqueued_at_ms) ≡ some x.enqueued_at_ms
      same_time =
          ap (λ t. stoll (int_to_string t)) time ∙ (stoll-to_string n small ∙ ap some (sym time))
