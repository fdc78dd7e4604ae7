-- ===== src/Examples/Gpio/Messages.antt =====
-- The buffers of the GPIO tools (examples/tool_call_demo/ea_tool_gpio.cpp).
use embed_agent.Base.{
  ℕ, zero, suc, ◌+◌, ◌^◌, ◌≡◌, ◌≤◌, ◌<◌, refl, ap, [], ◌∷◌, ◌++◌, Text, codes, take, length,
  length-append, arith, pos, to_string, length-to_string,
}
use embed_agent.Examples.Gpio.{written_message, directed_message}
use embed_agent.Examples.Stream.{printed}

pub take-whole : (n : ℕ) (t : Text) → length t ≤ n → take n t ≡ t
take-whole zero [] le = refl
take-whole (suc n) [] le = refl
take-whole zero (c ∷ t) le = absurd (omega arith)
take-whole (suc n) (c ∷ t) le = ap (λ s. c ∷ s) (take-whole n t (omega arith))

length-parts :
    (a t b u c : Text)
    → length (a ++ (t ++ (b ++ (u ++ c)))) ≡ length a + length t + length b + length u + length c
length-parts a t b u c = omega (
  arith,
  length-append a (t ++ (b ++ (u ++ c))),
  length-append t (b ++ (u ++ c)),
  length-append b (u ++ c),
  length-append u c,
)

-- The buffers of 64 bytes hold the whole result of gpio_write and of gpio_set_direction, for a pin
-- that is an int, not negative, a level and a direction.
messages_fit :
    (n v : ℕ) (dir : Text)
    → n < 2 ^ 31
    → v < 2
    → length dir ≤ 3
    → (printed 64 (written_message (pos n) (pos v)) ≡ written_message (pos n) (pos v))
      × (printed 64 (directed_message (pos n) dir) ≡ directed_message (pos n) dir)
messages_fit n v dir pin level short = (
  take-whole 63 (written_message (pos n) (pos v)) (
      omega (
        arith,
        length-parts (codes "{\"ok\":true,\"pin\":") (to_string n) (codes ",\"value\":")
            (to_string v) (codes "}"),
        length-to_string 9 n (omega arith),
        length-to_string 0 v (omega arith),
      )),
  take-whole 63 (directed_message (pos n) dir) (
      omega (
        arith,
        length-parts (codes "{\"ok\":true,\"pin\":") (to_string n) (codes ",\"direction\":\"") dir
            (codes "\"}"),
        length-to_string 9 n (omega arith),
      )),
)
