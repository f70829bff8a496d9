-- ===== src/Tests/Decoding.antt =====
-- Frames and signals.
use sdv_edge_gateway.Common.{ℕ, ◌≡◌, String, true, false, List, [], ◌∷◌, arith}
use sdv_edge_gateway.Common.Int.{pos}
use sdv_edge_gateway.CanWriter.{RawFrame}
use sdv_edge_gateway.CanReader.{translate}
use sdv_edge_gateway.CanReader.Frames.{decode-stack}
use sdv_edge_gateway.SignalDecoder.{SignalDef, raw_value, decode}
use sdv_edge_gateway.SignalDecoder.Decode.{Fits, raw_value_lem}
use sdv_edge_gateway.Tests.Instances.{whole_double, clock, speed_frame}

abbrev speed_def : SignalDef ℕ
speed_def = record {
  can_id = 0x100;
  start_bit = 0;
  length = 16;
  is_little_endian = true;
  is_signed = false;
  scale = 1;
  offset = 0;
  unit = "km/h";
}

abbrev pub signals : List (String × SignalDef ℕ)
signals = ("VEHICLE_SPEED", speed_def) ∷ ("OTHER", record speed_def { can_id = 0x101 }) ∷ []

speed-Fits : Fits speed_def speed_frame
speed-Fits = record {
  has_bits = omega arith;
  narrow = omega arith;
  inside = omega arith;
  size = omega arith;
  are_bytes = (
    omega arith,
    (
      omega arith,
      (omega arith, (omega arith, (omega arith, (omega arith, (omega arith, (omega arith, tt)))))),
    ),
  );
}

raw_value_lem_example : raw_value whole_double speed_def speed_frame ≡ pos 5000
raw_value_lem_example = raw_value_lem whole_double speed_def speed_frame speed-Fits

abbrev raw : RawFrame
raw = record { can_id = 0x100; can_dlc = 2; bytes = 0x88 ∷ 0x13 ∷ 0 ∷ 0 ∷ 0 ∷ 0 ∷ 0 ∷ 0 ∷ [] }

decode-stack_example :
    decode whole_double clock signals (translate (7 ∷ []) 5 raw)
    ≡ decode whole_double clock signals (translate [] 5 raw)
decode-stack_example = decode-stack whole_double clock signals 5 raw (7 ∷ []) [] (omega arith)
