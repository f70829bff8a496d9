-- ===== src/SignalDecoder/Regex.antt =====
-- The part of std::regex, in its ECMAScript grammar, that the DBC patterns use: a sequence of classes
-- of characters, each once, repeated from 0 times (`*`) or from 1 time (`+`), some in a group that
-- captures. The match is anchored at the start of the line, tries the longest repetition first and
-- goes back to shorter ones, and leaves the rest of the line free, as regex_search with `^` does.
pub mod Search
pub mod Reads
use Prim.Native.Char.{Char, code}
use sdv_edge_gateway.Common.{
  ℕ, String, Bool, true, false, not, ◌&&◌, ◌||◌, Option, none, some, List, [], ◌∷◌, ◌++◌, map, leb,
  ◌==◌, if◌then◌else◌,
}

pub data Quantity : Type 0 where
  once star plus : Quantity

pub record Piece : Type 0 where
  pub test : Char → Bool
  pub quantity : Quantity
  pub captures : Bool

-- \s, \d and \w in the "C" locale.
abbrev pub is_space : Char → Bool
is_space c = code c == 32 || (leb 9 (code c) && leb (code c) 13)

abbrev pub is_digit : Char → Bool
is_digit c = leb b'0' (code c) && leb (code c) b'9'

abbrev pub is_word : Char → Bool
is_word c =
    is_digit c
    || (leb b'A' (code c) && leb (code c) b'Z')
    || (leb b'a' (code c) && leb (code c) b'z')
    || code c == b'_'

abbrev pub is : ℕ → Char → Bool
is b c = code c == b

abbrev pub is_quote : Char → Bool
is_quote c = code c == b'"' || code c == b'\''

-- A group of one class, and a class outside groups.
abbrev pub group : Quantity → (Char → Bool) → Piece
group quantity test = record { test = test; quantity = quantity; captures = true }

abbrev pub piece : Quantity → (Char → Bool) → Piece
piece quantity test = record { test = test; quantity = quantity; captures = false }

abbrev pub chars : String → List Char
chars String.[] = []
chars (String.◌∷◌ c s) = c ∷ chars s

-- The characters of a text, one after the other.
abbrev pub literal : String → List Piece
literal t = map (λ c. piece once (λ d. code d == code c)) (chars t)

-- What the groups captured, in their order.
abbrev pub Captures : Type 0
Captures = List (List Char)

abbrev pub Taken : Type 0
Taken = Option (List Char × Captures)

abbrev pub add : Char → Taken → Taken
add c none = none
add c (some (taken, r)) = some (c ∷ taken, r)

abbrev pub begin : Option Captures → Taken
begin none = none
begin (some r) = some ([], r)

abbrev pub or_else : Taken → Taken → Taken
or_else none second = second
or_else (some t) second = some t

-- `*`: what is taken, and the captures of what comes next.
unfoldable pub take_star : (Char → Bool) → (List Char → Option Captures) → List Char → Taken
take_star test next [] = begin (next [])
take_star test next (c ∷ cs) =
    let longer = take_star test next cs in
    let here = begin (next (c ∷ cs)) in if test c then or_else (add c longer) here else here

unfoldable pub take_quantity :
    Quantity → (Char → Bool) → (List Char → Option Captures) → List Char → Taken
unfolding take_star
take_quantity star test next line = take_star test next line
take_quantity once test next [] = none
take_quantity once test next (c ∷ cs) = if test c then add c (begin (next cs)) else none
take_quantity plus test next [] = none
take_quantity plus test next (c ∷ cs) = if test c then add c (take_star test next cs) else none

abbrev pub keep : Bool → Taken → Option Captures
keep captures none = none
keep captures (some (taken, r)) = some (if captures then taken ∷ r else r)

unfoldable pub search : List Piece → List Char → Option Captures
unfolding take_quantity
search [] line = some []
search (p ∷ ps) line = keep p.captures (take_quantity p.quantity p.test (search ps) line)
