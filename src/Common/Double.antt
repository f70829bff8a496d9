-- ===== src/Common/Double.antt =====
-- What the gateway does with a `double` (and with a `float`, its rounding): the type is a
-- parameter `W` of every definition that holds one, and these are the operations on it.
use sdv_edge_gateway.Common.Int.{ℤ}

pub record DoubleOps (W : Type 0) : Type 0 where
  pub nought : W  -- 0.0
  pub of_int : ℤ → W  -- static_cast<double>(int64_t)
  pub to_int : W → ℤ  -- static_cast<int>(double)
  pub add : W → W → W
  pub mul : W → W → W
