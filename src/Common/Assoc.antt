-- ===== src/Common/Assoc.antt =====
-- A map from names, as an association list: `operator[]` of a std::unordered_map and a look-up.
use Prim.Native.String.{String}
use text.Mathlib.Text.{◌==◌ as str_eq}
use text.Mathlib.TextEquality.{eq_iff}
use mathlib.Core.Path.{◌≡◌, refl}
use mathlib.Core.Option.{Option, none, some}
use mathlib.Core.List.{List, [], ◌∷◌}
use native.Mathlib.Omega.{arith}
use sdv_edge_gateway.Common.Tests.{if◌then◌else◌}

module _ {V : Type 0} where
  unfoldable pub find : String → List (String × V) → Option V
  find name [] = none
  find name ((key, v) ∷ entries) = if str_eq key name then some v else find name entries

  -- `map[name] = v`: the entry of the name is changed, or made.
  unfoldable pub assign : String → V → List (String × V) → List (String × V)
  assign name v [] = (name, v) ∷ []
  assign name v ((key, w) ∷ entries) =
      if str_eq key name then (key, v) ∷ entries else (key, w) ∷ assign name v entries

  pub find-assign :
      (other name : String) (v : V) (entries : List (String × V))
      → find other (assign name v entries)
        ≡ (if str_eq name other then some v else find other entries)
  unfolding find assign
  find-assign other name v [] = refl
  find-assign other name v ((key, w) ∷ entries) = ground (
    arith,
    find-assign other name v entries,
    eq_iff key name,
    eq_iff key other,
    eq_iff name other,
  )
