-- ===== src/SignalDecoder/Files.antt =====
-- Loading a whole DBC file against what its lines say.
use Prim.Native.Char.{Char}
use text.Mathlib.TextBridge.{of_list}
use sdv_edge_gateway.Common.{
  ℕ, ◌≡◌, ◌<◌, ◌%◌, ◌^◌, refl, ap, ◌∙◌, String, true, not, Option, none, some, List, map, [], ◌∷◌,
  ◌++◌, arith, if◌then◌else◌, All, lt→ltb, Bool-cases, inl, inr,
}
use sdv_edge_gateway.Common.Assoc.{assign}
use sdv_edge_gateway.SignalDecoder.{SignalDef}
use sdv_edge_gateway.SignalDecoder.Regex.{
  plus, is_space, is_digit, is, chars, search, take_quantity,
}
use sdv_edge_gateway.SignalDecoder.Regex.Search.{AllIn, IsTaken}
use sdv_edge_gateway.SignalDecoder.Regex.Reads.{Stops, joined, search-Reads, Stops-nonempty}
use sdv_edge_gateway.SignalDecoder.Load.{
  bo_re, sg_re, value, stoul, get_lines, is_wanted, Loader, returns, read_def, load_signal,
  load_message, load_line, load_lines, load,
}
use sdv_edge_gateway.SignalDecoder.Loading.{
  SignalLine, segments, IsSignalLine, signal-Reads, space-digit,
}

-- A line of a file: of a message, of a signal with the numbers that its texts stand for, or another.
pub data Entry (W : Type 0) : Type 0 where
  message : (gap id tail : List Char) → Entry W
  signal : SignalLine → (scale offset : W) → Entry W
  other : List Char → Entry W

module _ {W : Type 0} (stod : List Char → Option W) (wanted : List String) where
  abbrev pub line_of : Entry W → List Char
  line_of (message gap id tail) = joined (chars "B" ∷ chars "O" ∷ chars "_" ∷ gap ∷ id ∷ []) tail
  line_of (signal t scale offset) = joined (segments t) t.tail
  line_of (other line) = line

  abbrev pub IsNumber : ℕ → List Char → Type 0
  IsNumber limit digits = IsTaken plus is_digit digits × (value 0 digits < limit)

  -- The line is of its kind, and its numbers are ones that std::stoul and std::stod read.
  abbrev pub IsEntry : Entry W → Type 0
  IsEntry (message gap id tail) =
      IsTaken plus is_space gap × IsNumber (2 ^ 64) id × Stops is_digit tail
  IsEntry (signal t scale offset) =
      IsSignalLine t
      × (value 0 t.start < 2 ^ 64)
      × (value 0 t.len < 2 ^ 64)
      × (stod t.scale ≡ some scale)
      × (stod t.offset ≡ some offset)
  IsEntry (other line) = (search bo_re line ≡ none) × (search sg_re line ≡ none)

  -- What the signal line says, under the message before it.
  abbrev pub def_of : (can_id : ℕ) → SignalLine → W → W → SignalDef W
  def_of can_id t scale offset = record {
    can_id = can_id;
    start_bit = value 0 t.start % 256;
    length = value 0 t.len % 256;
    is_little_endian = is b'1' t.endian;
    is_signed = is b'-' t.sign;
    scale = scale;
    offset = offset;
    unit = of_list t.unit;
  }

  -- The specification: a message's identifier holds for the signals after it, a wanted signal is
  -- added or replaced under its name, and all other lines say nothing.
  abbrev pub meaning : Loader W → Entry W → Loader W
  meaning l (message gap id tail) = record l { current_can_id = value 0 id % 2 ^ 32 }
  meaning l (signal t scale offset) =
      if is_wanted wanted (of_list t.name)
      then record l {
        signals = assign (of_list t.name) (def_of l.current_can_id t scale offset) l.signals;
      }
      else l
  meaning l (other line) = l

  abbrev pub meaning_all : Loader W → List (Entry W) → Loader W
  meaning_all l [] = l
  meaning_all l (e ∷ es) = meaning_all (meaning l e) es

  stoul-value :
      (digits : List Char) → value 0 digits < 2 ^ 64 → stoul digits ≡ some (value 0 digits)
  unfolding stoul
  stoul-value digits h = rw (lt→ltb (value 0 digits) (2 ^ 64) h) refl

  message-search :
      (gap id tail : List Char)
      → IsEntry (message gap id tail)
      → search bo_re (line_of (message gap id tail)) ≡ some (id ∷ [])
  message-search gap id tail (spaces, (digits, fits), stops) =
      search-Reads bo_re (chars "B" ∷ chars "O" ∷ chars "_" ∷ gap ∷ id ∷ []) tail (
        (_, refl, refl),
        tt,
        (
          (_, refl, refl),
          tt,
          (
            (_, refl, refl),
            tt,
            (spaces, Stops-nonempty is_space is_digit id _ space-digit digits, (digits, stops, tt)),
          ),
        ),
      )

  -- A line that starts with a space starts no message.
  margin-search :
      (margin rest : List Char)
      → IsTaken plus is_space margin
      → search bo_re (margin ++ rest) ≡ none
  unfolding search take_quantity
  margin-search [] rest (nonempty, all) = absurd (nonempty refl)
  margin-search (c ∷ margin) rest (nonempty, all) = ground (arith, all.0)

  read_def-def_of :
      (can_id : ℕ) (t : SignalLine) (scale offset : W)
      → IsEntry (signal t scale offset)
      → read_def stod wanted can_id
          (t.start ∷ t.len ∷ (t.endian ∷ []) ∷ (t.sign ∷ []) ∷ t.scale ∷ t.offset ∷ t.unit ∷ [])
        ≡ some (def_of can_id t scale offset)
  unfolding read_def
  read_def-def_of can_id t scale offset (h, start, len, s, o) =
      rw (stoul-value t.start start, stoul-value t.len len, s, o) refl

  load_line-meaning :
      (l : Loader W) (e : Entry W)
      → IsEntry e
      → load_line stod wanted l (line_of e) ≡ some (meaning l e)
  unfolding load_line load_message load_signal
  load_line-meaning l (message gap id tail) h =
      rw (message-search gap id tail h, stoul-value id h.1.1) refl
  load_line-meaning l (signal t scale offset) h =
      rw
        (
          margin-search t.margin _ h.0.margin,
          search-Reads sg_re (segments t) t.tail (signal-Reads t h.0),
          read_def-def_of l.current_can_id t scale offset h,
        )
        (elim (Bool-cases (is_wanted wanted (of_list t.name))) [
          | inl chosen ↦ rw chosen refl
          | inr unwanted ↦ rw unwanted refl
        ])
  load_line-meaning l (other line) (bo, sg) = rw (bo, sg) refl

  load_lines-meaning :
      (l : Loader W) (es : List (Entry W))
      → All IsEntry es
      → load_lines stod wanted l (map line_of es) ≡ some (meaning_all l es)
  unfolding load_lines
  load_lines-meaning l [] h = refl
  load_lines-meaning l (e ∷ es) h =
      rw (load_line-meaning l e h.0) (load_lines-meaning (meaning l e) es h.1)

-- The characters of a line are none of them the end of the line.
abbrev pub IsOneLine : List Char → Type 0
IsOneLine line = AllIn (λ c. not (is b'\n' c)) line

-- A file with these lines, each ended.
abbrev pub file_of : List (List Char) → List Char
file_of [] = []
file_of (line ∷ lines) = line ++ (chars "\n" ++ file_of lines)

get_lines-line :
    (line rest : List Char)
    → IsOneLine line
    → get_lines (line ++ (chars "\n" ++ rest)) ≡ line ∷ get_lines rest
unfolding get_lines
get_lines-line [] rest h = refl
get_lines-line (c ∷ line) rest h = rw (get_lines-line line rest h.1) (ground (arith, h.0))

get_lines-file_of :
    (lines : List (List Char)) → All IsOneLine lines → get_lines (file_of lines) ≡ lines
unfolding get_lines
get_lines-file_of [] h = refl
get_lines-file_of (line ∷ lines) h =
    get_lines-line line (file_of lines) h.0 ∙ ap (◌∷◌ line) (get_lines-file_of lines h.1)

module _ {W : Type 0} (stod : List Char → Option W) (wanted : List String) where
  -- A file of message lines, signal lines and lines that match neither pattern, whose numbers
  -- std::stoul and std::stod read, is loaded to what its lines say, in any spacing that the patterns
  -- allow: the wanted signals, each with the identifier of the message line before it and the fields
  -- of its own line, a later line replacing an earlier one of the same name; and `load` returns true.
  pub load-meaning :
      (entries : List (Entry W)) (signals : List (String × SignalDef W))
      → All (IsEntry stod wanted) entries
      → All IsOneLine (map (line_of stod wanted) entries)
      → load stod wanted (some (file_of (map (line_of stod wanted) entries))) signals
        ≡ returns true
            (meaning_all stod wanted
              (record { current_can_id = 0; signals = signals })
              entries).signals
  unfolding load
  load-meaning entries signals h one =
      rw
        (
          get_lines-file_of (map (line_of stod wanted) entries) one,
          load_lines-meaning stod wanted (record { current_can_id = 0; signals = signals }) entries
              h,
        )
        refl
