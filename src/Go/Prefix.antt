-- ===== src/Go/Prefix.antt =====
-- `strings.CutPrefix` against concatenation.
use treenq.Base.{[], ◌∷◌, ◌++◌, Text, some, ◌≡◌, arith}
use treenq.Go.{cut_prefix}

pub cut_prefix_sound : (s p : Text) {t : Text} → cut_prefix s p ≡ some t → s ≡ p ++ t
unfolding cut_prefix
cut_prefix_sound [] [] h = ground arith
cut_prefix_sound (c ∷ s) [] h = ground arith
cut_prefix_sound [] (c ∷ p) h = cc
cut_prefix_sound (c ∷ s) (d ∷ p) {t} h = ground (arith, cut_prefix_sound s p {t = t})
