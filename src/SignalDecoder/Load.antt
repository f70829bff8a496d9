-- ===== src/SignalDecoder/Load.antt =====
-- SignalDecoder::load: the DBC file, line by line.
--
-- The file is its characters. An exception of std::stoul or std::stod is caught nowhere, so it ends
-- the process: `none`. `stod` on the texts is a parameter, as the other operations on double are.
use Prim.Native.Char.{Char, code}
use text.Mathlib.TextBridge.{of_list}
use sdv_edge_gateway.Common.{
  ◌>>=◌, ℕ, ◌+◌, ◌-◌, ◌*◌, ◌%◌, ◌^◌, String, str_eq, Bool, true, false, ◌||◌, not, Option, none,
  some, List, [], ◌∷◌, ◌++◌, ltb, if◌then◌else◌,
}
use sdv_edge_gateway.Common.Assoc.{assign}
use sdv_edge_gateway.SignalDecoder.{SignalDef}
use sdv_edge_gateway.SignalDecoder.Regex.{
  Piece, once, star, plus, is_space, is_digit, is_word, is, is_quote, group, piece, literal,
  Captures, search,
}

-- ^BO_\s+(\d+)
abbrev pub bo_re : List Piece
bo_re = literal "BO_" ++ piece plus is_space ∷ group plus is_digit ∷ []

-- ^\s+SG_\s+(\w+)\s*:\s*(\d+)\|(\d+)@([01])([+-])\s*\(([^,]+),([^)]+)\)[^"']*["']([^"']*)["']
abbrev pub sg_re : List Piece
sg_re =
    piece plus is_space ∷ literal "SG_"
    ++ piece plus is_space
      ∷ group plus is_word
      ∷ piece star is_space
      ∷ piece once (is b':')
      ∷ piece star is_space
      ∷ group plus is_digit
      ∷ piece once (is b'|')
      ∷ group plus is_digit
      ∷ piece once (is b'@')
      ∷ group once (λ c. is b'0' c || is b'1' c)
      ∷ group once (λ c. is b'+' c || is b'-' c)
      ∷ piece star is_space
      ∷ piece once (is b'(')
      ∷ group plus (λ c. not (is b',' c))
      ∷ piece once (is b',')
      ∷ group plus (λ c. not (is b')' c))
      ∷ piece once (is b')')
      ∷ piece star (λ c. not (is_quote c))
      ∷ piece once is_quote
      ∷ group star (λ c. not (is_quote c))
      ∷ piece once is_quote
      ∷ []

-- The value of decimal digits behind `n`.
abbrev pub value : ℕ → List Char → ℕ
value n [] = n
value n (c ∷ cs) = value (n * 10 + (code c - b'0')) cs

-- std::stoul on digits, with an `unsigned long` of 64 bits.
unfoldable pub stoul : List Char → Option ℕ
stoul digits = let n = value 0 digits in if ltb n (2 ^ 64) then some n else none

-- std::getline until the end of the file.
abbrev pub push : Char → List (List Char) → List (List Char)
push c [] = (c ∷ []) ∷ []
push c (line ∷ rest) = (c ∷ line) ∷ rest

unfoldable pub get_lines : List Char → List (List Char)
get_lines [] = []
get_lines (c ∷ cs) = let rest = get_lines cs in if is b'\n' c then [] ∷ rest else push c rest

-- `wanted.find(name) != wanted.end()`.
abbrev pub is_wanted : List String → String → Bool
is_wanted [] name = false
is_wanted (w ∷ wanted) name = str_eq w name || is_wanted wanted name

-- Whether a captured text is this one character.
abbrev pub is_text : ℕ → List Char → Bool
is_text b (c ∷ []) = is b c
is_text b _ = false

-- The local `current_can_id`, and the member `signals_`.
pub record Loader (W : Type 0) : Type 0 where
  pub current_can_id : ℕ
  pub signals : List (String × SignalDef W)

-- How `load` ends: it returns, or an exception leaves it.
pub data Loaded (W : Type 0) : Type 0 where
  returns : Bool → List (String × SignalDef W) → Loaded W
  throws : Loaded W

module _ {W : Type 0} (stod : List Char → Option W) (wanted : List String) where
  -- The definition that the captures of a signal line give. A number is cut to its 8 bits.
  unfoldable pub read_def : (can_id : ℕ) → Captures → Option (SignalDef W)
  unfolding stoul
  read_def can_id (start ∷ len ∷ endian ∷ sign ∷ scale_text ∷ offset_text ∷ unit ∷ []) = do
    start_bit ← stoul start
    length ← stoul len
    scale ← stod scale_text
    offset ← stod offset_text
    some (record {
      can_id = can_id;
      start_bit = start_bit % 2 ^ 8;
      length = length % 2 ^ 8;
      is_little_endian = is_text b'1' endian;
      is_signed = is_text b'-' sign;
      scale = scale;
      offset = offset;
      unit = of_list unit;
    })
  read_def can_id _ = none

  abbrev pub add_signal : String → Loader W → Option (SignalDef W) → Option (Loader W)
  add_signal name l none = none
  add_signal name l (some def) = some (record l { signals = assign name def l.signals })

  -- A line that matches the signal pattern, from the name on; the pattern captures eight texts.
  unfoldable pub load_signal : Loader W → Captures → Option (Loader W)
  unfolding read_def
  load_signal l [] = some l
  load_signal l (name ∷ fields) =
      if is_wanted wanted (of_list name)
      then add_signal (of_list name) l (read_def l.current_can_id fields)
      else some l

  unfoldable pub load_message : Loader W → Captures → Option (Loader W)
  unfolding stoul
  load_message l (id ∷ []) = do n ← stoul id; some (record l { current_can_id = n % 2 ^ 32 })
  load_message l _ = some l

  -- The two tests of a round, by what the searches give.
  abbrev pub load_matched : Loader W → Option Captures → Option Captures → Option (Loader W)
  load_matched l (some bo) sg = load_message l bo
  load_matched l none (some sg) = load_signal l sg
  load_matched l none none = some l

  unfoldable pub load_line : Loader W → List Char → Option (Loader W)
  unfolding load_signal load_message search
  load_line l line = load_matched l (search bo_re line) (search sg_re line)

  unfoldable pub load_lines : Loader W → List (List Char) → Option (Loader W)
  unfolding load_line
  load_lines l [] = some l
  load_lines l (line ∷ lines) = load_line l line >>= λ l'. load_lines l' lines

  abbrev pub ended : Option (Loader W) → Loaded W
  ended none = throws
  ended (some l) = returns true l.signals

  -- `none` is a file that does not open.
  unfoldable pub load : Option (List Char) → List (String × SignalDef W) → Loaded W
  unfolding load_lines get_lines
  load none signals = returns false signals
  load (some file) signals =
      ended (load_lines (record { current_can_id = 0; signals = signals }) (get_lines file))
