-- ===== src/Common/Float.antt =====
-- What the anomaly detector does with a `float`: the type is a parameter `F`, beside `W` for
-- `double`.
use Prim.Native.String.{String}
use mathlib.Core.Bool.{Bool}

pub record FloatOps (W F : Type 0) : Type 0 where
  pub literal : String → F  -- a literal of the source, such as 140.0f
  pub narrow : W → F  -- static_cast<float>
  pub widen : F → W  -- the conversion to double of nlohmann's number_float
  pub sub : F → F → F
  pub div : F → F → F
  pub gt : F → F → Bool
