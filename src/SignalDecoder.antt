-- ===== src/SignalDecoder.antt =====
-- src/can_layer/signal_decoder.cpp and include/can_layer/signal_decoder.hpp: decoding a frame.
--
-- `W` is `double` with its operations as a parameter. `signals_` is a list of its entries in the
-- order in which the unordered_map is walked. The shifts of the source are defined for the lengths
-- from 1 to 64 of a signed signal and from 0 to 64 of an unsigned one.
pub mod Bits
pub mod Decode
pub mod Regex
pub mod Load
pub mod Loading
pub mod Files
pub mod Loaded
use sdv_edge_gateway.Common.{
  ℕ, zero, suc, ◌+◌, ◌-◌, ◌*◌, ◌/◌, ◌%◌, ◌^◌, ◌≤◌, String, Bool, true, false, List, [], ◌∷◌, leb,
  ltb, ◌==◌, not, if◌then◌else◌, get_or,
}
use sdv_edge_gateway.Common.Int.{ℤ, pos, negsuc}
use sdv_edge_gateway.Common.Double.{DoubleOps}
use sdv_edge_gateway.Types.{CanFrame, DecodedSignal}

pub record SignalDef (W : Type 0) : Type 0 where
  pub can_id : ℕ  -- uint32
  pub start_bit : ℕ  -- uint8
  pub length : ℕ  -- uint8
  pub is_little_endian : Bool
  pub is_signed : Bool
  pub scale : W
  pub offset : W
  pub unit : String

-- The loop over the bits of a signal: rounds left, `i`, `raw`. The bit `i` of `raw` is still 0 when
-- it is set, so `raw |= 1 << i` is a sum. A frame has no byte past the eighth; one is read as 0.
unfoldable pub extract : CanFrame → ℕ → ℕ → ℕ → ℕ → ℕ
extract frame start_bit zero i raw = raw
extract frame start_bit (suc rounds) i raw =
    let bit_pos = (start_bit + i) % 256 in
    let byte_idx = bit_pos / 8 in
    let bit_idx = bit_pos % 8 in
    let bit = get_or frame.bytes byte_idx 0 / 2 ^ bit_idx % 2 in
    let raw' = if bit == 1 then raw + 2 ^ i else raw in
    let rest = extract frame start_bit rounds (i + 1) raw' in
    if leb frame.dlc byte_idx then raw else rest

-- static_cast<int64_t> of a uint64_t.
unfoldable pub to_int64 : ℕ → ℤ
to_int64 u = if ltb u (2 ^ 63) then pos u else negsuc (2 ^ 64 - u - 1)

-- `raw | ~(2 ^ k - 1)`: the low bits of `raw`, and ones from bit `k` up.
unfoldable pub fill_above : ℕ → ℕ → ℕ
fill_above raw k = raw % 2 ^ k + (2 ^ 64 - 2 ^ k)

unfoldable pub sign_extend : ℕ → ℕ → ℤ
unfolding to_int64 fill_above
sign_extend len raw =
    if raw / 2 ^ (len - 1) % 2 == 1 then to_int64 (fill_above raw (len - 1)) else to_int64 raw

module _ {W : Type 0} (double : DoubleOps W) where
  open double use {of_int, add, mul}

  unfoldable pub raw_value : SignalDef W → CanFrame → ℤ
  unfolding extract sign_extend
  raw_value def frame =
      let raw = extract frame def.start_bit def.length 0 0 in
      if def.is_signed then sign_extend def.length raw else to_int64 raw

  unfoldable pub physical : SignalDef W → CanFrame → W
  unfolding raw_value
  physical def frame = add (mul (of_int (raw_value def frame)) def.scale) def.offset

  -- `now` is what the clock says when the signal of that name is decoded.
  unfoldable pub decode :
      (now : String → ℕ) → List (String × SignalDef W) → CanFrame → List (DecodedSignal W)
  unfolding physical
  decode now [] frame = []
  decode now ((name, def) ∷ signals) frame =
      let rest = decode now signals frame in
      if not (def.can_id == frame.can_id)
      then rest
      else record { name = name; value = physical def frame; unit = def.unit; timestamp = now name }
        ∷ rest
