-- ===== src/Operator/Order.antt =====
-- The order that the operator sorts assignments by.
use Prim.Native.String.{String}
use opendps.Prelude.{Bool, true, false}
use opendps.Text.{text_leb}

-- A comparison of tuples: the first components, and where they are equal, the rest.
unfoldable pub then_by : Bool → Bool → Bool → Bool
then_by true true rest = rest
then_by true false rest = true
then_by false back rest = false

-- The key of the operator's sorts: two texts around a number.
unfoldable pub key_leb {ℓ} :
    {N : Type ℓ}
    → (N → N → Bool)
    → String × N × String × String
    → String × N × String × String
    → Bool
unfolding then_by
key_leb number_leb (a, m, b, c) (a', m', b', c') = then_by (text_leb a a') (text_leb a' a) (
    then_by (number_leb m m') (number_leb m' m)
      (then_by (text_leb b b') (text_leb b' b) (text_leb c c')))
