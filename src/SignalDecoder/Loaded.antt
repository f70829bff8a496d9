-- ===== src/SignalDecoder/Loaded.antt =====
-- What holds of every definition that was loaded, whatever the file says.
use Prim.Native.Char.{Char}
use native.Mathlib.Nat.{mod-lt}
use text.Mathlib.TextBridge.{of_list}
use sdv_edge_gateway.Common.{
  ℕ, ◌<◌, ◌^◌, ◌≡◌, refl, String, str_eq, true, Option, none, some, List, [], ◌∷◌, All, Bool-cases,
  inl, inr, Holds, bind-Holds, Holds-bind,
}
use sdv_edge_gateway.Common.Assoc.{assign}
use sdv_edge_gateway.Common.Bits.{pow-pos}
use sdv_edge_gateway.SignalDecoder.{SignalDef}
use sdv_edge_gateway.SignalDecoder.Regex.{Captures, search}
use sdv_edge_gateway.SignalDecoder.Load.{
  bo_re, sg_re, stoul, get_lines, is_wanted, Loader, Loaded, returns, throws, read_def, add_signal,
  load_signal, load_message, load_matched, load_line, load_lines, load, ended,
}

-- The ranges of the fields' types.
pub record IsInRange {W : Type 0} (def : SignalDef W) : Type 0 where
  pub can_id : def.can_id < 2 ^ 32
  pub start_bit : def.start_bit < 256
  pub length : def.length < 256

module _ {W : Type 0} (stod : List Char → Option W) (wanted : List String) where
  -- A wanted name, and a definition in range.
  abbrev pub IsLoadable : String × SignalDef W → Type 0
  IsLoadable (name, def) = (is_wanted wanted name ≡ true) × IsInRange def

  assign-IsLoadable :
      (name : String) (def : SignalDef W) (signals : List (String × SignalDef W))
      → IsLoadable (name, def)
      → All IsLoadable signals
      → All IsLoadable (assign name def signals)
  unfolding assign
  assign-IsLoadable name def [] h all = (h, tt)
  assign-IsLoadable name def ((other, d) ∷ signals) h all = elim (Bool-cases (str_eq other name)) [
    | inl same ↦ rw same ((all.0.0, h.1), all.1)
    | inr apart ↦ rw apart (all.0, assign-IsLoadable name def signals h all.1)
  ]

  pub record IsLoader (l : Loader W) : Type 0 where
    pub identifier : l.current_can_id < 2 ^ 32
    pub loadable : All IsLoadable l.signals

  read_def-IsInRange :
      (can_id : ℕ) (c : Captures)
      → can_id < 2 ^ 32
      → Holds IsInRange (read_def stod wanted can_id c)
  unfolding read_def
  read_def-IsInRange can_id (start ∷ len ∷ endian ∷ sign ∷ scale ∷ offset ∷ unit ∷ []) h =
      bind-Holds IsInRange (stoul start) _ λ start_bit. bind-Holds IsInRange (stoul len) _ λ length.
        bind-Holds IsInRange (stod scale) _ λ scale'.
          bind-Holds IsInRange (stod offset) _ λ offset'. record {
            can_id = h;
            start_bit = mod-lt start_bit (pow-pos 8);
            length = mod-lt length (pow-pos 8);
          }
  read_def-IsInRange can_id _ h = tt

  add_signal-IsLoader :
      (name : String) (l : Loader W) (o : Option (SignalDef W))
      → is_wanted wanted name ≡ true
      → IsLoader l
      → Holds IsInRange o
      → Holds IsLoader (add_signal stod wanted name l o)
  add_signal-IsLoader name l none w h r = tt
  add_signal-IsLoader name l (some def) w h r = record {
    identifier = h.identifier;
    loadable = assign-IsLoadable name def l.signals (w, r) h.loadable;
  }

  load_signal-IsLoader :
      (l : Loader W) (c : Captures) → IsLoader l → Holds IsLoader (load_signal stod wanted l c)
  unfolding load_signal
  load_signal-IsLoader l [] h = h
  load_signal-IsLoader l (name ∷ fields) h = elim (Bool-cases (is_wanted wanted (of_list name))) [
    | inl w ↦ rw w (
        add_signal-IsLoader (of_list name) l (read_def stod wanted l.current_can_id fields) w h
          (read_def-IsInRange l.current_can_id fields h.identifier))
    | inr unwanted ↦ rw unwanted h
  ]

  load_message-IsLoader :
      (l : Loader W) (c : Captures) → IsLoader l → Holds IsLoader (load_message stod wanted l c)
  unfolding load_message
  load_message-IsLoader l (id ∷ []) h =
      bind-Holds IsLoader (stoul id) _
        λ n. record { identifier = mod-lt n (pow-pos 32); loadable = h.loadable }
  load_message-IsLoader l [] h = h
  load_message-IsLoader l (id ∷ other ∷ c) h = h

  load_matched-IsLoader :
      (l : Loader W) (bo sg : Option Captures)
      → IsLoader l
      → Holds IsLoader (load_matched stod wanted l bo sg)
  load_matched-IsLoader l (some c) sg h = load_message-IsLoader l c h
  load_matched-IsLoader l none (some c) h = load_signal-IsLoader l c h
  load_matched-IsLoader l none none h = h

  load_lines-IsLoader :
      (l : Loader W) (lines : List (List Char))
      → IsLoader l
      → Holds IsLoader (load_lines stod wanted l lines)
  unfolding load_lines load_line
  load_lines-IsLoader l [] h = h
  load_lines-IsLoader l (line ∷ lines) h =
      Holds-bind IsLoader IsLoader (load_line stod wanted l line) _
        (load_matched-IsLoader l (search bo_re line) (search sg_re line) h)
        (λ l' h'. load_lines-IsLoader l' lines h')

  -- How loading an opened file ends.
  abbrev pub IsLoaded : Loaded W → Type 0
  IsLoaded (returns ok signals) = (ok ≡ true) × All IsLoadable signals
  IsLoaded throws = Unit {0}

  ended-IsLoaded : (o : Option (Loader W)) → Holds IsLoader o → IsLoaded (ended stod wanted o)
  ended-IsLoaded none h = tt
  ended-IsLoaded (some l) h = (refl, h.loadable)

  -- Whatever an opened file says, `load` does not return false: it throws, or it returns true and
  -- each definition that it holds has a wanted name and an identifier of 32 bits, and a start bit and
  -- a length of 8, if that was so before.
  pub load-IsLoaded :
      (file : List Char) (signals : List (String × SignalDef W))
      → All IsLoadable signals
      → IsLoaded (load stod wanted (some file) signals)
  unfolding load
  load-IsLoaded file signals h =
      let l : Loader W = record { current_can_id = 0; signals = signals } in
      ended-IsLoaded (load_lines stod wanted l (get_lines file))
        (load_lines-IsLoader l (get_lines file) (record { identifier = pow-pos 32; loadable = h }))
