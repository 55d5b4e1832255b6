-- ===== src/Base/Keeping.antt =====
-- When an action keeps an invariant of the world, whether or not it raises, and what then holds of
-- its value.
use mathlib.Core.Path.{◌≡◌, refl}
use mathlib.Core.Bool.{Bool, true, false}
use empire_backend.Base.Tests.{if◌then◌else◌}
use empire_backend.Base.Results.{Result, ok, err}
use empire_backend.Base.Actions.{Action, then_run, ◌>>=◌, ◌>>◌, lift}

module _ {W : Type 0} (I : W → Type 0) where
  pub record Keeps {T : Type 0} (Q : T → Type 0) (m : Action W T) : Type 0 where
    pub run : (w : W) → I w → I (m w).1 × ((v : T) → (m w).0 ≡ ok v → Q v)

  abbrev pub Always : {T : Type 0} → T → Type 0
  Always v = Unit

  pub then_run-Keeps :
      {T V : Type 0} (Q : T → Type 0) (R : V → Type 0) (rest : T → Action W V)
      → ((v : T) → Q v → Keeps R (rest v))
      → (r : Result T × W) → I r.1
      → ((v : T) → r.0 ≡ ok v → Q v)
      → I (then_run r rest).1 × ((v : V) → (then_run r rest).0 ≡ ok v → R v)
  then_run-Keeps Q R rest k (ok v, w) kept q = (k v (q v refl)).run w kept
  then_run-Keeps Q R rest k (err e, w) kept q = (kept, λ v h. cc)

  pub Keeps-bind :
      {T V : Type 0} {Q : T → Type 0} {R : V → Type 0} {m : Action W T} {rest : T → Action W V}
      → Keeps Q m
      → ((v : T) → Q v → Keeps R (rest v))
      → Keeps R (m >>= rest)
  unfolding ◌>>=◌
  Keeps-bind {T} {V} {Q} {R} {m} {rest} h k = record {
    run = λ w kept. let (after, q) = h.run w kept in then_run-Keeps Q R rest k (m w) after q;
  }

  pub Keeps-then :
      {V : Type 0} {R : V → Type 0} {m : Action W (Unit {0})} {rest : Action W V}
      → Keeps Always m
      → Keeps R rest
      → Keeps R (m >> rest)
  unfolding ◌>>◌
  Keeps-then {V} {R} {m} {rest} h k = Keeps-bind {m = m} {rest = λ _. rest} h (λ _ _. k)

  pub Keeps-lift :
      {T : Type 0} {Q : T → Type 0} (r : Result T) → ((v : T) → r ≡ ok v → Q v) → Keeps Q (lift r)
  Keeps-lift r h = record { run = λ w kept. (kept, h) }

  pub Keeps-if :
      {T : Type 0} {Q : T → Type 0} (b : Bool) {m n : Action W T}
      → (b ≡ true → Keeps Q m)
      → (b ≡ false → Keeps Q n)
      → Keeps Q (if b then m else n)
  Keeps-if true h k = h refl
  Keeps-if false h k = k refl
