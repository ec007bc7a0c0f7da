-- ===== src/Stream/Float.antt =====
-- The floating-point numbers that frame rates are, with the operations that are made on them. Nothing
-- is assumed of them, so what is proved holds whatever the rounding.
use vox_streaming.Base.{Bool}
use vox_streaming.Base.Int.{ℤ}
use vox_streaming.Base.Clock.{Duration}

pub record Floats : Type 1 where
  pub Float : Type 0
  -- `float64(n)`, and `d.Seconds()`.
  pub of_int : ℤ → Float
  pub seconds_of : Duration → Float
  pub plus : Float → Float → Float
  pub times : Float → Float → Float
  pub over : Float → Float → Float
  pub less : Float → Float → Bool
