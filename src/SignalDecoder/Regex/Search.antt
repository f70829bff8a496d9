-- ===== src/SignalDecoder/Regex/Search.antt =====
-- The search with backtracking against what a pattern means.
use Prim.Native.Char.{Char}
use sdv_edge_gateway.Common.{
  ◌≡◌, ◌≢◌, ◌⊎◌, inl, inr, refl, sym, ap, ◌∙◌, subst, Bool, true, false, Option, none, some, List,
  [], ◌∷◌, ◌++◌, arith, if◌then◌else◌, All, Bool-cases,
}
use sdv_edge_gateway.SignalDecoder.Regex.{
  Quantity, once, star, plus, Piece, Captures, Taken, add, begin, or_else, take_star, take_quantity,
  keep, search,
}

-- All characters of a text are in a class.
abbrev pub AllIn : (Char → Bool) → List Char → Type 0
AllIn test cs = All (λ c. test c ≡ true) cs

-- What a piece may take.
abbrev pub IsTaken : Quantity → (Char → Bool) → List Char → Type 0
IsTaken once test taken = (c : Char) × (taken ≡ c ∷ []) × (test c ≡ true)
IsTaken star test taken = AllIn test taken
IsTaken plus test taken = (taken ≢ []) × AllIn test taken

-- The line starts with what the pieces may take, one after the other, and `r` is what the groups
-- took.
abbrev pub Matches : List Piece → List Char → Captures → Type 0
Matches [] line r = r ≡ []
Matches (p ∷ ps) line r =
    (taken rest : List Char) × (r' : Captures) × (line ≡ taken ++ rest)
    × IsTaken p.quantity p.test taken
    × Matches ps rest r'
    × (r ≡ (if p.captures then taken ∷ r' else r'))

-- What taking a piece's characters and then searching `next` should find in a line: a way, or no way
-- at all.
abbrev IsFound : (List Char → Type 0) → (List Char → Option Captures) → List Char → Taken → Type 0
IsFound Fits next line none =
    (taken rest : List Char) → line ≡ taken ++ rest → Fits taken → next rest ≡ none
IsFound Fits next line (some (taken, r)) =
    Fits taken × (rest : List Char) × (line ≡ taken ++ rest) × (next rest ≡ some r)

-- No way to take characters and go on.
abbrev IsLost : (List Char → Type 0) → (List Char → Option Captures) → List Char → Type 0
IsLost Fits next line =
    (taken rest : List Char) → line ≡ taken ++ rest → Fits taken → next rest ≡ none

module _ (test : Char → Bool) (next : List Char → Option Captures) where
  nil-IsLost : next [] ≡ none → IsLost (AllIn test) next []
  nil-IsLost e [] rest split h = ap next (sym split) ∙ e
  nil-IsLost e (c ∷ taken) rest split h = absurd (ground (arith, split))

  stop-IsLost :
      (c : Char) (cs : List Char)
      → test c ≡ false
      → next (c ∷ cs) ≡ none
      → IsLost (AllIn test) next (c ∷ cs)
  stop-IsLost c cs t e [] rest split h = ap next (sym split) ∙ e
  stop-IsLost c cs t e (d ∷ taken) rest split h = absurd (ground (arith, split, h.0, t))

  go_on-IsLost :
      (c : Char) (cs : List Char)
      → next (c ∷ cs) ≡ none
      → IsLost (AllIn test) next cs
      → IsLost (AllIn test) next (c ∷ cs)
  go_on-IsLost c cs e ih [] rest split h = ap next (sym split) ∙ e
  go_on-IsLost c cs e ih (d ∷ taken) rest split h = ih taken rest (ground (arith, split)) h.1

  plus-IsLost :
      (c : Char) (cs : List Char)
      → (test c ≡ false) ⊎ IsLost (AllIn test) next cs
      → IsLost (IsTaken plus test) next (c ∷ cs)
  plus-IsLost c cs o [] rest split (nonempty, h) = absurd (nonempty refl)
  plus-IsLost c cs (inl t) (d ∷ taken) rest split (nonempty, h) =
      absurd (ground (arith, split, h.0, t))
  plus-IsLost c cs (inr ih) (d ∷ taken) rest split (nonempty, h) =
      ih taken rest (ground (arith, split)) h.1

  plus_nil-IsLost : IsLost (IsTaken plus test) next []
  plus_nil-IsLost [] rest split (nonempty, h) = absurd (nonempty refl)
  plus_nil-IsLost (c ∷ taken) rest split h = absurd (ground (arith, split))

  once-IsLost :
      (c : Char) (cs : List Char)
      → (test c ≡ false) ⊎ (next cs ≡ none)
      → IsLost (IsTaken once test) next (c ∷ cs)
  once-IsLost c cs (inl t) taken rest split (d, one, h) = absurd (ground (arith, split, one, h, t))
  once-IsLost c cs (inr e) taken rest split (d, one, h) = ground (arith, split, one, e)

  -- What a quantifier finds is a way, and it finds one if there is any.
  nil-IsFound : (o : Option Captures) → next [] ≡ o → IsFound (AllIn test) next [] (begin o)
  nil-IsFound none e = nil-IsLost e
  nil-IsFound (some r) e = (tt, [], refl, e)

  stop-IsFound :
      (c : Char) (cs : List Char) (o : Option Captures)
      → test c ≡ false
      → next (c ∷ cs) ≡ o
      → IsFound (AllIn test) next (c ∷ cs) (begin o)
  stop-IsFound c cs none t e = stop-IsLost c cs t e
  stop-IsFound c cs (some r) t e = (tt, c ∷ cs, refl, e)

  go_on-IsFound :
      (c : Char) (cs : List Char) (longer : Taken) (o : Option Captures)
      → test c ≡ true
      → next (c ∷ cs) ≡ o
      → IsFound (AllIn test) next cs longer
      → IsFound (AllIn test) next (c ∷ cs) (or_else (add c longer) (begin o))
  go_on-IsFound c cs none none t e ih = go_on-IsLost c cs e ih
  go_on-IsFound c cs none (some r) t e ih = (tt, c ∷ cs, refl, e)
  go_on-IsFound c cs (some (taken, r)) o t e (h, rest, split, found) =
      ((t, h), rest, ap (◌∷◌ c) split, found)

  take_star-IsFound : (line : List Char) → IsFound (AllIn test) next line (take_star test next line)
  unfolding take_star
  take_star-IsFound [] = nil-IsFound (next []) refl
  take_star-IsFound (c ∷ cs) = elim (Bool-cases (test c)) [
    | inl t ↦
        rw t (
          go_on-IsFound c cs (take_star test next cs) (next (c ∷ cs)) t refl (take_star-IsFound cs))
    | inr t ↦ rw t (stop-IsFound c cs (next (c ∷ cs)) t refl)
  ]

  once-IsFound :
      (c : Char) (cs : List Char) (o : Option Captures)
      → test c ≡ true
      → next cs ≡ o
      → IsFound (IsTaken once test) next (c ∷ cs) (add c (begin o))
  once-IsFound c cs none t e = once-IsLost c cs (inr e)
  once-IsFound c cs (some r) t e = ((c, refl, t), cs, refl, e)

  plus-IsFound :
      (c : Char) (cs : List Char) (longer : Taken)
      → test c ≡ true
      → IsFound (AllIn test) next cs longer
      → IsFound (IsTaken plus test) next (c ∷ cs) (add c longer)
  plus-IsFound c cs none t ih = plus-IsLost c cs (inr ih)
  plus-IsFound c cs (some (taken, r)) t (h, rest, split, found) =
      (((λ e. ground (arith, e)), (t, h)), rest, ap (◌∷◌ c) split, found)

  take_quantity-IsFound :
      (q : Quantity) (line : List Char)
      → IsFound (IsTaken q test) next line (take_quantity q test next line)
  unfolding take_quantity
  take_quantity-IsFound star line = take_star-IsFound line
  take_quantity-IsFound once [] =
      λ taken rest split (d, one, h). absurd (ground (arith, split, one))
  take_quantity-IsFound once (c ∷ cs) = elim (Bool-cases (test c)) [
    | inl t ↦ rw t (once-IsFound c cs (next cs) t refl)
    | inr t ↦ rw t (once-IsLost c cs (inl t))
  ]
  take_quantity-IsFound plus [] = plus_nil-IsLost
  take_quantity-IsFound plus (c ∷ cs) = elim (Bool-cases (test c)) [
    | inl t ↦ rw t (plus-IsFound c cs (take_star test next cs) t (take_star-IsFound cs))
    | inr t ↦ rw t (plus-IsLost c cs (inl t))
  ]

-- What a search should find: a match, or none if there is none.
abbrev pub IsSearched : List Piece → List Char → Option Captures → Type 0
IsSearched ps line none = (r : Captures) → ¬ Matches ps line r
IsSearched ps line (some r) = Matches ps line r

found-IsSearched :
    (p : Piece) (ps : List Piece) (line : List Char) (t : Taken)
    → IsFound (IsTaken p.quantity p.test) (search ps) line t
    → ((rest : List Char) (o : Option Captures) → search ps rest ≡ o → IsSearched ps rest o)
    → IsSearched (p ∷ ps) line (keep p.captures t)
found-IsSearched p ps line none lost ih =
    λ r (taken, rest, r', split, fits, m, e). ih rest none (lost taken rest split fits) r' m
found-IsSearched p ps line (some (taken, r)) (fits, rest, split, e) ih =
    (taken, rest, r, split, fits, ih rest (some r) e, refl)

-- The search with its retreats finds a match of the pattern at the start of the line whenever there
-- is one, what it captures is what the groups of a match took, and it finds nothing where there is
-- none.
pub search-IsSearched : (ps : List Piece) (line : List Char) → IsSearched ps line (search ps line)
unfolding search
search-IsSearched [] line = refl
search-IsSearched (p ∷ ps) line =
    found-IsSearched p ps line (take_quantity p.quantity p.test (search ps) line)
      (take_quantity-IsFound p.test (search ps) p.quantity line)
      λ rest o e. subst (IsSearched ps rest) e (search-IsSearched ps rest)
