-- ===== src/Base/Order.antt =====
-- The order of Python's texts, by code points from the left, with what it takes to find a least text.
use Prim.Native.Char.{code}
use Prim.Native.String.{String}
use mathlib.Core.Path.{◌≡◌, refl}
use mathlib.Core.Bool.{Bool, true, false, ◌&&◌, ◌||◌}
use native.Mathlib.Omega.{arith}
use text.Mathlib.TextEquality.{Char-path}
use kosa_aws.Base.Tests.{ltb, nat_eq}

-- `s < t`
unfoldable pub text_lt : String → String → Bool
text_lt String.[] String.[] = false
text_lt String.[] (String.◌∷◌ d t) = true
text_lt (String.◌∷◌ c s) String.[] = false
text_lt (String.◌∷◌ c s) (String.◌∷◌ d t) =
    ltb (code c) (code d) || (nat_eq (code c) (code d) && text_lt s t)

pub text_lt_trans : (s t u : String) → text_lt s t ≡ true → text_lt t u ≡ true → text_lt s u ≡ true
unfolding text_lt
text_lt_trans String.[] String.[] u p q = cc
text_lt_trans String.[] (String.◌∷◌ d t) String.[] p q = cc
text_lt_trans String.[] (String.◌∷◌ d t) (String.◌∷◌ e u) p q = refl
text_lt_trans (String.◌∷◌ c s) String.[] u p q = cc
text_lt_trans (String.◌∷◌ c s) (String.◌∷◌ d t) String.[] p q = cc
text_lt_trans (String.◌∷◌ c s) (String.◌∷◌ d t) (String.◌∷◌ e u) p q =
    ground (arith, text_lt_trans s t u)

-- Two texts of which neither comes first are one text.
pub text_lt-connected : (s t : String) → text_lt s t ≡ false → text_lt t s ≡ false → s ≡ t
unfolding text_lt
text_lt-connected String.[] String.[] p q = refl
text_lt-connected String.[] (String.◌∷◌ d t) p q = cc
text_lt-connected (String.◌∷◌ c s) String.[] p q = cc
text_lt-connected (String.◌∷◌ c s) (String.◌∷◌ d t) p q =
    let same : (code c ≡ code d) × (text_lt s t ≡ false) × (text_lt t s ≡ false) = ground arith in
    let head : (c ≡ d) = Char-path c d same.0 in
    let rest : (s ≡ t) = text_lt-connected s t same.1 same.2 in cc
