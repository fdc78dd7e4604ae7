-- ===== src/Examples/Gpio/Guards.antt =====
-- The checks of the arguments of the GPIO tools (examples/tool_call_demo/ea_tool_gpio.cpp).
use embed_agent.Base.{
  ℕ, zero, suc, pos, arith, ◌≡◌, ◌⊎◌, refl, inl, inr, Bool, true, false, [], Text, codes, text_eq,
  text_eq→eq, ℤ, negsuc,
}
use embed_agent.Files.{FileSystem}
use embed_agent.Cppev.{Json}
use embed_agent.Tool.Args.{ToolArgs, arg_int, arg_string}
use embed_agent.Examples.Gpio.{is_negative, is_level, handle_gpio_write, handle_gpio_set_direction}

not_negative : (v : ℤ) → is_negative v ≡ false → (n : ℕ) × (v ≡ pos n)
not_negative (pos n) h = (n, refl)
not_negative (negsuc n) h = cc

-- A level is 0 or 1.
is_level_cases : (v : ℤ) → is_level v ≡ true → (v ≡ pos 0) ⊎ (v ≡ pos 1)
is_level_cases (pos zero) h = inl refl
is_level_cases (pos (suc zero)) h = inr refl
is_level_cases (pos (suc (suc n))) h = absurd (wrong h)
  where
    wrong : is_level (pos (suc (suc n))) ≡ true → ⊥
    wrong e = ground arith
is_level_cases (negsuc n) h = cc

module _ (F : FileSystem) (J : Json) (errno_text : F.State → Text) where
  open F use {State, read_file, write_file, good_before_flush}

  -- gpio_write and gpio_set_direction leave the files as they are, or their arguments name a pin
  -- that is not negative and a level, 0 or 1, or a direction, "in" or "out".
  pub handle_gpio_guarded :
      (s : State) (args : ToolArgs J)
      → let pin = arg_int J args (codes "pin") (negsuc 0) in
        let val = arg_int J args (codes "value") (negsuc 0) in
        let dir = arg_string J args (codes "direction") [] in
        (((handle_gpio_write F J errno_text s args).0 ≡ s)
          ⊎ (((n : ℕ) × (pin ≡ pos n)) × ((val ≡ pos 0) ⊎ (val ≡ pos 1))))
        × (((handle_gpio_set_direction F J errno_text s args).0 ≡ s)
            ⊎ (((n : ℕ) × (pin ≡ pos n)) × ((dir ≡ codes "in") ⊎ (dir ≡ codes "out"))))
  unfolding handle_gpio_write handle_gpio_set_direction
  handle_gpio_guarded s args = (
    by_level (is_negative pin) (is_level val) refl refl,
    by_direction (is_negative pin) (text_eq dir (codes "in")) (text_eq dir (codes "out")) refl refl
        refl,
  )
    where
      pin : ℤ
      pin = arg_int J args (codes "pin") (negsuc 0)

      val : ℤ
      val = arg_int J args (codes "value") (negsuc 0)

      dir : Text
      dir = arg_string J args (codes "direction") []

      by_level :
          (b l : Bool)
          → is_negative pin ≡ b
          → is_level val ≡ l
          → ((handle_gpio_write F J errno_text s args).0 ≡ s)
            ⊎ (((n : ℕ) × (pin ≡ pos n)) × ((val ≡ pos 0) ⊎ (val ≡ pos 1)))
      by_level true l b e = inl (rw b refl)
      by_level false false b e = inl (rw (b, e) refl)
      by_level false true b e = inr (not_negative pin b, is_level_cases val e)

      by_direction :
          (b i o : Bool)
          → is_negative pin ≡ b
          → text_eq dir (codes "in") ≡ i
          → text_eq dir (codes "out") ≡ o
          → ((handle_gpio_set_direction F J errno_text s args).0 ≡ s)
            ⊎ (((n : ℕ) × (pin ≡ pos n)) × ((dir ≡ codes "in") ⊎ (dir ≡ codes "out")))
      by_direction true i o b e f = inl (rw b refl)
      by_direction false true o b e f =
          inr (not_negative pin b, inl (text_eq→eq dir (codes "in") e))
      by_direction false false true b e f =
          inr (not_negative pin b, inr (text_eq→eq dir (codes "out") f))
      by_direction false false false b e f = inl (rw (b, e, f) refl)
