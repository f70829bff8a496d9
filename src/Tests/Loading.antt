-- ===== src/Tests/Loading.antt =====
-- The repository's dbc/toyota_corolla.dbc, and lines of it.
use Prim.Native.Char.{Char}
use mathlib.Core.List.{cons-ne-nil}
use sdv_edge_gateway.Common.{
  ℕ, ◌≡◌, refl, String, ◌<>◌, true, false, Option, some, List, [], ◌∷◌, map, arith,
}
use sdv_edge_gateway.Common.Assoc.{assign}
use sdv_edge_gateway.Types.{CanFrame}
use sdv_edge_gateway.SignalDecoder.{SignalDef, decode}
use sdv_edge_gateway.SignalDecoder.Regex.{chars, search}
use sdv_edge_gateway.SignalDecoder.Regex.Search.{IsSearched, search-IsSearched}
use sdv_edge_gateway.SignalDecoder.Load.{bo_re, value, returns, load}
use sdv_edge_gateway.SignalDecoder.Loading.{SignalLine, IsSignalLine}
use sdv_edge_gateway.SignalDecoder.Files.{
  Entry, message, signal, other, line_of, file_of, load-meaning,
}
use sdv_edge_gateway.SignalDecoder.Loaded.{IsLoaded, load-IsLoaded}
use sdv_edge_gateway.Tests.Instances.{whole_double, clock}

-- Whole numbers only.
abbrev pub stod : List Char → Option ℕ
stod text = some (value 0 text)

abbrev pub names : List String
names = "VEHICLE_SPEED" ∷ "GEAR_SHIFT" ∷ "ENGINE_COOLANT_TEMP" ∷ []

abbrev pub dbc : String
dbc =
    "VERSION \"\"\n\nNS_ :\n\nBS_:\n\nBU_: ECU TCU\n\nBO_ 180 ENGINE_DATA: 8 ECU\n"
    <> " SG_ VEHICLE_SPEED : 40|16@1+ (1,0) [0|250] \"km/h\" TCU\n"
    <> " SG_ ENGINE_RPM : 24|16@1+ (1,0) [0|8000] \"rpm\" TCU\n"
    <> " SG_ GEAR_SHIFT : 0|8@1+ (1,0) [0|4] \"\" TCU\n\n" <> "BO_ 452 ENGINE_TEMP: 8 ECU\n"
    <> " SG_ ENGINE_COOLANT_TEMP : 0|8@1+ (1,40) [-40|215] \"degC\" TCU\n"

abbrev gear_def : SignalDef ℕ
gear_def = record {
  can_id = 180;
  start_bit = 0;
  length = 8;
  is_little_endian = true;
  is_signed = false;
  scale = 1;
  offset = 0;
  unit = "";
}

abbrev pub signals : List (String × SignalDef ℕ)
signals =
    ("VEHICLE_SPEED", record gear_def { start_bit = 40; length = 16; unit = "km/h" })
    ∷ ("GEAR_SHIFT", gear_def)
    ∷ ("ENGINE_COOLANT_TEMP", record gear_def { can_id = 452; offset = 40; unit = "degC" })
    ∷ []

-- The wanted signals of the file, with their messages' identifiers.
pub toyota : load stod names (some (chars dbc)) [] ≡ returns true signals
unfolding load assign
toyota = refl

-- A frame of the engine, decoded with them.
abbrev pub engine_frame : CanFrame
engine_frame = record {
  can_id = 180;
  dlc = 8;
  bytes = 3 ∷ 0 ∷ 0 ∷ 0 ∷ 0 ∷ 0x88 ∷ 0x13 ∷ 0 ∷ [];
  timestamp = 5;
}

toyota_engine :
    decode whole_double clock signals engine_frame
    ≡ record { name = "VEHICLE_SPEED"; value = 5000; unit = "km/h"; timestamp = 7 }
      ∷ record { name = "GEAR_SHIFT"; value = 3; unit = ""; timestamp = 7 }
      ∷ []
unfolding decode
toyota_engine = refl

search-IsSearched_example :
    IsSearched bo_re (chars "BO_ 180 ENGINE") (search bo_re (chars "BO_ 180 ENGINE"))
search-IsSearched_example = search-IsSearched bo_re (chars "BO_ 180 ENGINE")

abbrev gear_line : SignalLine
gear_line = record {
  margin = chars " ";
  gap = chars " ";
  name = chars "GEAR";
  before_colon = chars " ";
  after_colon = chars " ";
  start = chars "0";
  len = chars "8";
  endian = "1";
  sign = "+";
  before_paren = chars " ";
  scale = chars "1";
  offset = chars "0";
  between = chars " [0|4] ";
  open_quote = "\"";
  unit = chars "";
  close_quote = "\"";
  tail = chars " TCU";
}

gear_line-IsSignalLine : IsSignalLine gear_line
gear_line-IsSignalLine = record {
  margin = (cons-ne-nil _ _, (refl, tt));
  gap = (cons-ne-nil _ _, (refl, tt));
  name = (cons-ne-nil _ _, (refl, (refl, (refl, (refl, tt)))));
  before_colon = (refl, tt);
  after_colon = (refl, tt);
  start = (cons-ne-nil _ _, (refl, tt));
  len = (cons-ne-nil _ _, (refl, tt));
  endian = refl;
  sign = refl;
  before_paren = (refl, tt);
  scale = (cons-ne-nil _ _, (refl, tt));
  offset = (cons-ne-nil _ _, (refl, tt));
  between = (refl, (refl, (refl, (refl, (refl, (refl, (refl, tt)))))));
  open_quote = refl;
  unit = tt;
  close_quote = refl;
}

abbrev entries : List (Entry ℕ)
entries =
    message (chars " ") (chars "18") (chars ": 8") ∷ signal gear_line 1 0 ∷ other (chars "VE") ∷ []

load-meaning_example :
    load stod ("GEAR" ∷ []) (some (file_of (map (line_of stod ("GEAR" ∷ [])) entries))) []
    ≡ returns true (("GEAR", record gear_def { can_id = 18 }) ∷ [])
unfolding search assign
load-meaning_example =
    load-meaning stod ("GEAR" ∷ []) entries []
      (
        ((cons-ne-nil _ _, (refl, tt)), ((cons-ne-nil _ _, (refl, (refl, tt))), omega arith), refl),
        ((gear_line-IsSignalLine, omega arith, omega arith, refl, refl), ((refl, refl), tt)),
      )
      (
        (refl, (refl, (refl, (refl, (refl, (refl, (refl, (refl, (refl, tt))))))))),
        (
          (
            refl,
            (
              refl,
              (
                refl,
                (
                  refl,
                  (
                    refl,
                    (
                      refl,
                      (
                        refl,
                        (
                          refl,
                          (
                            refl,
                            (
                              refl,
                              (
                                refl,
                                (
                                  refl,
                                  (
                                    refl,
                                    (
                                      refl,
                                      (
                                        refl,
                                        (
                                          refl,
                                          (
                                            refl,
                                            (
                                              refl,
                                              (
                                                refl,
                                                (
                                                  refl,
                                                  (
                                                    refl,
                                                    (
                                                      refl,
                                                      (
                                                        refl,
                                                        (
                                                          refl,
                                                          (
                                                            refl,
                                                            (
                                                            refl,
                                                            (
                                                            refl,
                                                            (
                                                            refl,
                                                            (
                                                            refl,
                                                            (
                                                            refl,
                                                            (
                                                            refl,
                                                            (
                                                            refl,
                                                            (
                                                            refl,
                                                            (refl, (refl, (refl, (refl, tt)))),
                                                            ),
                                                            ),
                                                            ),
                                                            ),
                                                            ),
                                                            ),
                                                            ),
                                                            ),
                                                          ),
                                                        ),
                                                      ),
                                                    ),
                                                  ),
                                                ),
                                              ),
                                            ),
                                          ),
                                        ),
                                      ),
                                    ),
                                  ),
                                ),
                              ),
                            ),
                          ),
                        ),
                      ),
                    ),
                  ),
                ),
              ),
            ),
          ),
          ((refl, (refl, tt)), tt),
        ),
      )

load-IsLoaded_example : IsLoaded stod names (load stod names (some (chars dbc)) [])
load-IsLoaded_example = load-IsLoaded stod names (chars dbc) [] tt
