-- ===== src/Examples/Gpio/Level.antt =====
-- What the GPIO tools write and read (examples/tool_call_demo/ea_tool_gpio.cpp).
use embed_agent.Base.{◌≡◌, ◌⊎◌, [], ◌∷◌, ◌++◌, some, Text, codes, ℤ}
use embed_agent.Files.{FileSystem, Written}
use embed_agent.Cppev.{Json}
use embed_agent.Examples.Gpio.{value_path, direction_path}
use embed_agent.Examples.Stream.{first_word}

module _ (F : FileSystem) (J : Json) (errno_text : F.State → Text) where
  open F use {State, read_file, write_file, good_before_flush}

  -- The two files of a pin can be read.
  pub record IsDriven (pin : ℤ) (s : State) : Type 0 where
    pub value : Text
    pub direction : Text
    pub value_read : read_file s (value_path pin) ≡ some value
    pub direction_read : read_file s (direction_path pin) ≡ some direction

  -- A pin whose direction is "out".
  pub record IsOut (pin : ℤ) (s : State) : Type 0 where
    pub driven : IsDriven pin s
    pub out : first_word driven.direction ≡ codes "out"

  -- What the driver of a pin promises, as long as nothing else changes the pin: where it takes what
  -- is written, the value file of an output gives the level 0 or 1 that was written to it, and a line
  -- break, and the direction file gives the direction "out" that was written to it, with a value file
  -- that can be read then too, with whatever level; a write of a value leaves the direction as it is.
  pub record IsDriver (pin : ℤ) : Type 0 where
    pub level :
        (s : State) (t : Text)
        → IsOut pin s
        → (t ≡ codes "0") ⊎ (t ≡ codes "1")
        → (write_file s (value_path pin) t).1 ≡ Written.whole
        → read_file (write_file s (value_path pin) t).0 (value_path pin) ≡ some (t ++ 10 ∷ [])
    pub level_kept :
        (s : State) (t : Text)
        → IsOut pin s
        → read_file (write_file s (value_path pin) t).0 (direction_path pin)
          ≡ read_file s (direction_path pin)
    pub out :
        (s : State)
        → IsDriven pin s
        → (write_file s (direction_path pin) (codes "out")).1 ≡ Written.whole
        → read_file (write_file s (direction_path pin) (codes "out")).0 (direction_path pin)
          ≡ some (codes "out\n")
    pub out_read :
        (s : State)
        → IsDriven pin s
        → (write_file s (direction_path pin) (codes "out")).1 ≡ Written.whole
        → (v : Text) × (read_file
              (write_file s (direction_path pin) (codes "out")).0
              (value_path pin)
            ≡ some v)
