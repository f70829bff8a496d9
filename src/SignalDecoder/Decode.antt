-- ===== src/SignalDecoder/Decode.antt =====
-- What a decoded signal means, and what of its definition decoding does not read.
use native.Mathlib.Nat.{mod-lt, pow-le-pow_right}
use native.Mathlib.Decide.{ℕ_discrete}
use mathlib.Core.List.{filter}
use sdv_edge_gateway.Common.{
  ℕ, ◌+◌, ◌-◌, ◌*◌, ◌/◌, ◌%◌, ◌^◌, ◌≤◌, ◌<◌, ◌≡◌, refl, ap, ◌∙◌, String, Bool, false, List, [], ◌∷◌,
  map, arith, if◌then◌else◌, All,
}
use sdv_edge_gateway.Common.Int.{pos, negsuc}
use sdv_edge_gateway.Common.Double.{DoubleOps}
use sdv_edge_gateway.Common.Bits.{IsByte, le_number, pow-pos}
use sdv_edge_gateway.Types.{CanFrame, DecodedSignal}
use sdv_edge_gateway.SignalDecoder.{SignalDef, extract, to_int64, raw_value, physical, decode}
use sdv_edge_gateway.SignalDecoder.Bits.{extract_lem, sign_extend_lem, twos}

-- The bits of a signal in a frame as one unsigned number.
abbrev pub bits : {W : Type 0} → SignalDef W → CanFrame → ℕ
bits def frame = le_number frame.bytes / 2 ^ def.start_bit % 2 ^ def.length

-- The signal lies in the frame's data, and has a length that `int64_t` holds.
pub record Fits {W : Type 0} (def : SignalDef W) (frame : CanFrame) : Type 0 where
  pub has_bits : 1 ≤ def.length
  pub narrow : def.length ≤ 63
  pub inside : def.start_bit + def.length ≤ 8 * frame.dlc
  pub size : frame.dlc ≤ 8
  pub are_bytes : All IsByte frame.bytes

module _ {W : Type 0} (double : DoubleOps W) where
  extract-bits :
      (def : SignalDef W) (frame : CanFrame)
      → All IsByte frame.bytes
      → def.start_bit + def.length ≤ 8 * frame.dlc
      → frame.dlc ≤ 8
      → extract frame def.start_bit def.length 0 0 ≡ bits def frame
  extract-bits def frame b inside size =
      extract_lem frame def.start_bit def.length b (omega arith)
      ∙ ap (λ (t : ℕ). le_number frame.bytes / 2 ^ def.start_bit % 2 ^ t) (omega arith)

  to_int64-small : (raw len : ℕ) → len ≤ 63 → raw < 2 ^ len → to_int64 raw ≡ pos raw
  unfolding to_int64
  to_int64-small raw len h lt =
      let fits : 2 ^ len ≤ 2 ^ 63 = pow-le-pow_right (omega arith) {i = len} {j = 63} h in
      ground (arith, fits)

  -- A signal of 1 to 63 bits that lies in the data of a frame of at most eight bytes is decoded to
  -- its bits, lowest byte first: as an unsigned number, or as two's complement over its length if
  -- it is signed.
  pub raw_value_lem :
      (def : SignalDef W) (frame : CanFrame)
      → Fits def frame
      → raw_value double def frame
        ≡ (if def.is_signed then twos def.length (bits def frame) else pos (bits def frame))
  unfolding raw_value
  raw_value_lem def frame f =
      let lt : bits def frame < 2 ^ def.length = mod-lt _ (pow-pos def.length) in
      rw (extract-bits def frame f.are_bytes f.inside f.size) (
        ground (
          arith,
          sign_extend_lem def.length (bits def frame) f.has_bits (omega arith) lt,
          to_int64-small (bits def frame) def.length f.narrow lt,
        ))

  -- An unsigned signal of 64 bits in a frame of eight bytes is decoded to its number less 2 ^ 64
  -- when its top bit is set.
  unsigned_wraps :
      (def : SignalDef W) (frame : CanFrame)
      → All IsByte frame.bytes
      → frame.dlc ≡ 8
      → def.start_bit ≡ 0
      → def.length ≡ 64
      → def.is_signed ≡ false
      → 2 ^ 63 ≤ bits def frame
      → raw_value double def frame ≡ negsuc (2 ^ 64 - bits def frame - 1)
  unfolding raw_value to_int64
  unsigned_wraps def frame b d s l u top =
      rw (u, extract-bits def frame b (omega arith) (omega arith)) (ground arith)

  abbrev pub with_endian : Bool → String × SignalDef W → String × SignalDef W
  with_endian e (name, def) = (name, record def { is_little_endian = e })

  -- Decoding gives the same signals whichever byte order the definitions say.
  pub decode-with_endian :
      (e : Bool) (now : String → ℕ) (signals : List (String × SignalDef W)) (frame : CanFrame)
      → decode double now (map (with_endian e) signals) frame ≡ decode double now signals frame
  unfolding decode
  decode-with_endian e now [] frame = refl
  decode-with_endian e now ((name, def) ∷ signals) frame =
      ground (arith, decode-with_endian e now signals frame)

  abbrev pub decoded_as : (String → ℕ) → CanFrame → String × SignalDef W → DecodedSignal W
  decoded_as now frame (name, def) = record {
    name = name;
    value = physical double def frame;
    unit = def.unit;
    timestamp = now name;
  }

  -- Exactly the signals of the frame's identifier are decoded, each once, in the map's order.
  pub decode-filter :
      (now : String → ℕ) (signals : List (String × SignalDef W)) (frame : CanFrame)
      → decode double now signals frame
        ≡ map (decoded_as now frame) (filter (λ s. ℕ_discrete s.1.can_id frame.can_id) signals)
  unfolding decode
  decode-filter now [] frame = refl
  decode-filter now ((name, def) ∷ signals) frame = ground (arith, decode-filter now signals frame)
