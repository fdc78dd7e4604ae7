-- ===== src/Doubles.antt =====
-- The floating-point numbers of C++, as far as src/ea_tool_args.cpp and the tools of examples/
-- compute with them.
use embed_agent.Base.{ℕ, Option, Text, ℤ}

-- `double`: a literal, the conversions from and to an integer, three operations, "%.nf", and the
-- reading of a number at the begin of a text: what stands behind it, `none` where the stream fails,
-- and the value.
pub record Doubles : Type 1 where
  pub Double : Type 0
  pub literal : Text → Double
  pub of_int : ℤ → Double
  pub to_int : Double → ℤ
  pub add : Double → Double → Double
  pub mul : Double → Double → Double
  pub div : Double → Double → Double
  pub fixed : ℕ → Double → Text
  pub read : Text → Option Text × Double
