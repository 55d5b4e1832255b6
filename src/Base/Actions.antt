-- ===== src/Base/Actions.antt =====
-- Handlers that read and write a world and may raise: a raise keeps the writes before it.
use empire_backend.Base.Results.{Result, ok, err}

abbrev pub Action : Type 0 → Type 0 → Type 0
Action W T = W → Result T × W

abbrev pub then_run : {W T V : Type 0} → Result T × W → (T → Action W V) → Result V × W
then_run (err error, w) rest = (err error, w)
then_run (ok value, w) rest = rest value w

infixl 5 ◌>>=◌ ◌>>◌
unfoldable pub ◌>>=◌ : {W T V : Type 0} → Action W T → (T → Action W V) → Action W V
(first >>= rest) w = then_run (first w) rest

unfoldable pub ◌>>◌ : {W V : Type 0} → Action W (Unit {0}) → Action W V → Action W V
unfolding ◌>>=◌
first >> rest = first >>= λ _. rest

abbrev pub lift : {W T : Type 0} → Result T → Action W T
lift r w = (r, w)

abbrev pub done : {W : Type 0} → Action W (Unit {0})
done w = (ok tt, w)
