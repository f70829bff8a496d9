-- ===== src/AnomalyDetector/Bands.antt =====
-- What normalisation makes of a value inside its signal's normal band.
use sdv_edge_gateway.Common.{◌≡◌, subst, true, some}
use sdv_edge_gateway.Common.Float.{FloatOps}
use sdv_edge_gateway.Types.{DecodedSignal}
use sdv_edge_gateway.AnomalyDetector.{normal_bounds, normalize}

-- What IEEE 754 gives of subtraction and division, `le` the order: both are monotone, rounding
-- included; x - x is zero, and for a positive x also 0 / x is zero and x / x is one. `IsFinite` is
-- neither NaN nor infinite.
record IsIeee {W F : Type 0} (float : FloatOps W F) (IsFinite : F → Type 0) (le : F → F → Type 0)
    (zero one : F) : Type 0 where
  pub sub_mono :
      (x y z : F)
      → IsFinite x
      → IsFinite y
      → IsFinite z
      → le x y
      → le (float.sub x z) (float.sub y z)
  pub sub_self : (x : F) → IsFinite x → float.sub x x ≡ zero
  pub div_mono :
      (x y z : F)
      → IsFinite x
      → IsFinite y
      → IsFinite z
      → float.gt z zero ≡ true
      → le x y
      → le (float.div x z) (float.div y z)
  pub zero_finite : IsFinite zero
  pub div_self : (x : F) → IsFinite x → float.gt x zero ≡ true → float.div x x ≡ one
  pub zero_div : (x : F) → IsFinite x → float.gt x zero ≡ true → float.div zero x ≡ zero

module _ {W F : Type 0} (float : FloatOps W F) (IsFinite : F → Type 0) (le : F → F → Type 0)
    (zero one : F) (ieee : IsIeee float IsFinite le zero one) where
  -- By the laws of IEEE 754, a value inside the normal band of its signal, the numbers being finite
  -- and the width of the band positive, is normalised to a number from 0 to 1.
  normalize_band :
      (s : DecodedSignal W) (lo hi : F)
      → normal_bounds float s.name ≡ some (lo, hi)
      → IsFinite lo
      → IsFinite hi
      → IsFinite (float.narrow s.value)
      → IsFinite (float.sub (float.narrow s.value) lo)
      → IsFinite (float.sub hi lo)
      → le lo (float.narrow s.value)
      → le (float.narrow s.value) hi
      → float.gt (float.sub hi lo) zero ≡ true
      → le zero (normalize float s) × le (normalize float s) one
  unfolding normalize
  normalize_band s lo hi band flo fhi fv fraw fwidth above below wide =
      let v = float.narrow s.value in
      let width = float.sub hi lo in
      let raw = float.sub v lo in
      let bottom : le (float.div zero width) (float.div raw width) =
        ieee.div_mono zero raw width ieee.zero_finite fraw fwidth wide
          (subst (λ z. le z raw) (ieee.sub_self lo flo) (ieee.sub_mono lo v lo flo fv flo above)) in
      let top : le (float.div raw width) (float.div width width) =
        ieee.div_mono raw width width fraw fwidth fwidth wide
          (ieee.sub_mono v hi lo fv fhi flo below) in
      rw band (
        subst (λ z. le z (float.div raw width)) (ieee.zero_div width fwidth wide) bottom,
        subst (λ z. le (float.div raw width) z) (ieee.div_self width fwidth wide) top,
      )
