-- ===== src/SignalDecoder/Regex/Reads.antt =====
-- Lines that a pattern reads in one way: each piece takes one segment, and stops where it ends.
use Prim.Native.Char.{Char}
use sdv_edge_gateway.Common.{
  ◌≡◌, refl, ap, Bool, true, false, Option, some, List, [], ◌∷◌, ◌++◌, if◌then◌else◌,
}
use sdv_edge_gateway.SignalDecoder.Regex.{
  Quantity, once, star, plus, Piece, Captures, take_star, take_quantity, keep, search,
}
use sdv_edge_gateway.SignalDecoder.Regex.Search.{AllIn, IsTaken}

-- The line goes on with a character outside the class, or ends.
abbrev pub Stops : (Char → Bool) → List Char → Type 0
Stops test [] = Unit {0}
Stops test (c ∷ cs) = test c ≡ false

-- A repetition has to stop after its segment.
abbrev pub StopsAfter : Quantity → (Char → Bool) → List Char → Type 0
StopsAfter once test rest = Unit {0}
StopsAfter _ test rest = Stops test rest

abbrev pub joined : List (List Char) → List Char → List Char
joined [] tail = tail
joined (segment ∷ segments) tail = segment ++ joined segments tail

-- The pieces take these segments of a line that goes on with `tail`.
abbrev pub Reads : List Piece → List (List Char) → List Char → Type 0
Reads [] [] tail = Unit {0}
Reads (p ∷ ps) (segment ∷ segments) tail =
    IsTaken p.quantity p.test segment
    × StopsAfter p.quantity p.test (joined segments tail)
    × Reads ps segments tail
Reads _ _ tail = ⊥

abbrev pub captured : List Piece → List (List Char) → Captures
captured (p ∷ ps) (segment ∷ segments) =
    let r = captured ps segments in if p.captures then segment ∷ r else r
captured _ _ = []

module _ (test : Char → Bool) (next : List Char → Option Captures) where
  take_star-Stops :
      (rest : List Char) (r : Captures)
      → Stops test rest
      → next rest ≡ some r
      → take_star test next rest ≡ some ([], r)
  unfolding take_star
  take_star-Stops [] r h e = rw e refl
  take_star-Stops (c ∷ cs) r h e = rw (h, e) refl

  take_star-segment :
      (segment rest : List Char) (r : Captures)
      → AllIn test segment
      → Stops test rest
      → next rest ≡ some r
      → take_star test next (segment ++ rest) ≡ some (segment, r)
  unfolding take_star
  take_star-segment [] rest r all h e = take_star-Stops rest r h e
  take_star-segment (c ∷ segment) rest r all h e =
      rw (all.0, take_star-segment segment rest r all.1 h e) refl

  take_quantity-segment :
      (q : Quantity) (segment rest : List Char) (r : Captures)
      → IsTaken q test segment
      → StopsAfter q test rest
      → next rest ≡ some r
      → take_quantity q test next (segment ++ rest) ≡ some (segment, r)
  unfolding take_quantity
  take_quantity-segment star segment rest r all h e = take_star-segment segment rest r all h e
  take_quantity-segment plus [] rest r (nonempty, all) h e = absurd (nonempty refl)
  take_quantity-segment plus (c ∷ segment) rest r (nonempty, all) h e =
      rw (all.0, take_star-segment segment rest r all.1 h e) refl
  take_quantity-segment once segment rest r (c, one, t) h e = rw (one, t, e) refl

-- A line that is read segment by segment is found, and the groups capture their segments.
pub search-Reads :
    (ps : List Piece) (segments : List (List Char)) (tail : List Char)
    → Reads ps segments tail
    → search ps (joined segments tail) ≡ some (captured ps segments)
unfolding search
search-Reads [] [] tail h = refl
search-Reads [] (s ∷ segments) tail h = absurd h
search-Reads (p ∷ ps) [] tail h = absurd h
search-Reads (p ∷ ps) (segment ∷ segments) tail (t, stops, h) = ap (keep p.captures) (
    take_quantity-segment p.test (search ps) p.quantity segment (joined segments tail)
      (captured ps segments) t stops (search-Reads ps segments tail h))

-- Characters of a class that the repetition has no part in, before a line where it stops.
pub Stops-append :
    (test other : Char → Bool) (gap rest : List Char)
    → ((c : Char) → other c ≡ true → test c ≡ false)
    → AllIn other gap
    → Stops test rest
    → Stops test (gap ++ rest)
Stops-append test other [] rest apart all h = h
Stops-append test other (c ∷ gap) rest apart all h = apart c all.0

-- The same where the characters are there.
pub Stops-nonempty :
    (test other : Char → Bool) (gap rest : List Char)
    → ((c : Char) → other c ≡ true → test c ≡ false)
    → IsTaken plus other gap
    → Stops test (gap ++ rest)
Stops-nonempty test other [] rest apart (nonempty, all) = absurd (nonempty refl)
Stops-nonempty test other (c ∷ gap) rest apart (nonempty, all) = apart c all.0
