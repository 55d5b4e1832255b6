-- ===== src/Base/Results.antt =====
-- Results of calls that may raise, with the exceptions of the source as values.
use mathlib.Core.Path.{◌≡◌, refl}
use mathlib.Core.Logic.{◌⊎◌, inl, inr}
use mathlib.Core.Bool.{Bool, true, false}
use mathlib.Core.Option.{Option, none, some}

-- `type_error` is the access to a property of `undefined`; `stuck` is a loop that never ends.
pub data Error : Type 0 where
  bad_request not_found internal type_error stuck : Error

pub data Result {ℓ} (A : Type ℓ) : Type ℓ where
  ok : A → Result A
  err : Error → Result A

-- The value of a lookup, where a missing one raises.
abbrev pub or_throw {ℓ} : {T : Type ℓ} → Option T → Error → Result T
or_throw (some value) error = ok value
or_throw none error = err error

-- `if (test) throw error`
abbrev pub throw_if : Bool → Error → Result (Unit {0})
throw_if false error = ok tt
throw_if true error = err error

infixl 5 ◌>>=◌ ◌>>◌
-- The rest of a body runs on the value, and not at all after a throw.
abbrev pub ◌>>=◌ {ℓ κ} : {T : Type ℓ} {V : Type κ} → Result T → (T → Result V) → Result V
err error >>= rest = err error
ok value >>= rest = rest value

abbrev pub ◌>>◌ {ℓ} : {V : Type ℓ} → Result (Unit {0}) → Result V → Result V
check >> rest = check >>= λ _. rest

-- A body that returns has had a value to run on.
pub >>=-eq-ok {ℓ κ} :
    {T : Type ℓ} {V : Type κ} (first : Result T) (rest : T → Result V) {result : V}
    → (first >>= rest) ≡ ok result
    → (value : T) × (first ≡ ok value) × (rest value ≡ ok result)
>>=-eq-ok (err error) rest h = cc
>>=-eq-ok (ok value) rest h = (value, refl, h)

-- What a successful call has passed.
pub throw_if-eq-ok {ℓ} :
    {B : Type ℓ} (b : Bool) (e : Error) (m : Result B) {x : B}
    → (throw_if b e >> m) ≡ ok x
    → (b ≡ false) × (m ≡ ok x)
throw_if-eq-ok true e m h = cc
throw_if-eq-ok false e m h = (refl, h)

pub or_throw-eq-ok {ℓ κ} :
    {A : Type ℓ} {B : Type κ} (o : Option A) (e : Error) (f : A → Result B) {x : B}
    → (or_throw o e >>= f) ≡ ok x
    → (a : A) × (o ≡ some a) × (f a ≡ ok x)
or_throw-eq-ok none e f h = cc
or_throw-eq-ok (some a) e f h = (a, refl, h)

pub or_throw-ok {ℓ} :
    {A : Type ℓ} (o : Option A) (e : Error) (a : A) → or_throw o e ≡ ok a → o ≡ some a
or_throw-ok none e a h = cc
or_throw-ok (some b) e a h = cc

pub ok-injective {ℓ} : {A : Type ℓ} (a b : A) → ok a ≡ ok b → a ≡ b
ok-injective a b h = cc

pub err-ne-ok {ℓ} : {A : Type ℓ} (e : Error) (a : A) → err e ≡ ok a → ⊥
err-ne-ok e a h = cc

pub Result-cases {ℓ} :
    {A : Type ℓ} (r : Result A) → ((a : A) × (r ≡ ok a)) ⊎ ((e : Error) × (r ≡ err e))
Result-cases (ok a) = inl (a, refl)
Result-cases (err e) = inr (e, refl)
