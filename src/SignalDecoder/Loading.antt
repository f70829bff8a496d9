-- ===== src/SignalDecoder/Loading.antt =====
-- Loading a DBC file against what its lines say.
use Prim.Native.Char.{Char}
use sdv_edge_gateway.Common.{◌≡◌, refl, true, false, not, ◌||◌, List, [], ◌∷◌, arith}
use sdv_edge_gateway.SignalDecoder.Regex.{plus, is_space, is_digit, is_word, is, is_quote, chars}
use sdv_edge_gateway.SignalDecoder.Regex.Search.{AllIn, IsTaken}
use sdv_edge_gateway.SignalDecoder.Regex.Reads.{Reads, Stops-append, Stops-nonempty}
use sdv_edge_gateway.SignalDecoder.Load.{sg_re}

-- A signal line, part by part.
pub record SignalLine : Type 0 where
  pub margin : List Char
  pub gap : List Char
  pub name : List Char
  pub before_colon : List Char
  pub after_colon : List Char
  pub start : List Char
  pub len : List Char
  pub endian : Char
  pub sign : Char
  pub before_paren : List Char
  pub scale : List Char
  pub offset : List Char
  pub between : List Char
  pub open_quote : Char
  pub unit : List Char
  pub close_quote : Char
  pub tail : List Char

abbrev pub segments : SignalLine → List (List Char)
segments t =
    t.margin
    ∷ chars "S"
    ∷ chars "G"
    ∷ chars "_"
    ∷ t.gap
    ∷ t.name
    ∷ t.before_colon
    ∷ chars ":"
    ∷ t.after_colon
    ∷ t.start
    ∷ chars "|"
    ∷ t.len
    ∷ chars "@"
    ∷ (t.endian ∷ [])
    ∷ (t.sign ∷ [])
    ∷ t.before_paren
    ∷ chars "("
    ∷ t.scale
    ∷ chars ","
    ∷ t.offset
    ∷ chars ")"
    ∷ t.between
    ∷ (t.open_quote ∷ [])
    ∷ t.unit
    ∷ (t.close_quote ∷ [])
    ∷ []

pub record IsSignalLine (t : SignalLine) : Type 0 where
  pub margin : IsTaken plus is_space t.margin
  pub gap : IsTaken plus is_space t.gap
  pub name : IsTaken plus is_word t.name
  pub before_colon : AllIn is_space t.before_colon
  pub after_colon : AllIn is_space t.after_colon
  pub start : IsTaken plus is_digit t.start
  pub len : IsTaken plus is_digit t.len
  pub endian : (is b'0' t.endian || is b'1' t.endian) ≡ true
  pub sign : (is b'+' t.sign || is b'-' t.sign) ≡ true
  pub before_paren : AllIn is_space t.before_paren
  pub scale : IsTaken plus (λ c. not (is b',' c)) t.scale
  pub offset : IsTaken plus (λ c. not (is b')' c)) t.offset
  pub between : AllIn (λ c. not (is_quote c)) t.between
  pub open_quote : is_quote t.open_quote ≡ true
  pub unit : AllIn (λ c. not (is_quote c)) t.unit
  pub close_quote : is_quote t.close_quote ≡ true

space-word : (c : Char) → is_word c ≡ true → is_space c ≡ false
space-word c h = ground arith

pub space-digit : (c : Char) → is_digit c ≡ true → is_space c ≡ false
space-digit c h = ground arith

word-space : (c : Char) → is_space c ≡ true → is_word c ≡ false
word-space c h = ground arith

not_quote : (c : Char) → is_quote c ≡ true → not (is_quote c) ≡ false
not_quote c h = rw h refl

pub signal-Reads : (t : SignalLine) → IsSignalLine t → Reads sg_re (segments t) t.tail
signal-Reads t h = (
  h.margin,
  refl,
  (
    (_, refl, refl),
    tt,
    (
      (_, refl, refl),
      tt,
      (
        (_, refl, refl),
        tt,
        (
          h.gap,
          Stops-nonempty is_space is_word t.name _ space-word h.name,
          (
            h.name,
            Stops-append is_word is_space t.before_colon _ word-space h.before_colon refl,
            (
              h.before_colon,
              refl,
              (
                (_, refl, refl),
                tt,
                (
                  h.after_colon,
                  Stops-nonempty is_space is_digit t.start _ space-digit h.start,
                  (
                    h.start,
                    refl,
                    (
                      (_, refl, refl),
                      tt,
                      (
                        h.len,
                        refl,
                        (
                          (_, refl, refl),
                          tt,
                          (
                            (_, refl, h.endian),
                            tt,
                            (
                              (_, refl, h.sign),
                              tt,
                              (
                                h.before_paren,
                                refl,
                                (
                                  (_, refl, refl),
                                  tt,
                                  (
                                    h.scale,
                                    refl,
                                    (
                                      (_, refl, refl),
                                      tt,
                                      (
                                        h.offset,
                                        refl,
                                        (
                                          (_, refl, refl),
                                          tt,
                                          (
                                            h.between,
                                            not_quote t.open_quote h.open_quote,
                                            (
                                              (_, refl, h.open_quote),
                                              tt,
                                              (
                                                h.unit,
                                                not_quote t.close_quote h.close_quote,
                                                ((_, refl, h.close_quote), tt, tt),
                                              ),
                                            ),
                                          ),
                                        ),
                                      ),
                                    ),
                                  ),
                                ),
                              ),
                            ),
                          ),
                        ),
                      ),
                    ),
                  ),
                ),
              ),
            ),
          ),
        ),
      ),
    ),
  ),
)
