-- ===== src/Base/Outcome.antt =====
-- Exceptions as values. A Python function that may raise returns a `Result`.
use Prim.Native.Nat.{ℕ}
use Prim.Native.String.{String}
use mathlib.Core.Path.{◌≡◌, refl, ap}
use mathlib.Core.Option.{Option, none, some}

-- The exceptions that the tools let escape. `key_error` carries the missing key,
-- `version_error n` is the `KeyError` at the key 'v%d' % n.
pub data Error : Type 0 where
  key_error : String → Error
  version_error : ℕ → Error
  index_error value_error type_error struct_error attribute_error : Error
  overflow_error os_error system_exit name_error : Error

-- `stuck` is no outcome of the program: a loop of the model ran out of its fuel.
pub data Result {ℓ} (A : Type ℓ) : Type ℓ where
  ok : A → Result A
  err : Error → Result A
  stuck : Result A

infixl 5 ◌>>=◌
abbrev pub ◌>>=◌ {ℓ κ} : {A : Type ℓ} {B : Type κ} → Result A → (A → Result B) → Result B
stuck >>= next = stuck
err e >>= next = err e
ok a >>= next = next a

abbrev pub or_raise {ℓ} : {A : Type ℓ} → Option A → Error → Result A
or_raise none e = err e
or_raise (some a) e = ok a

-- A chain that returns a value got one from its first part too.
module _ {ℓ κ} {A : Type ℓ} {B : Type κ} {b : B} where
  pub >>=-eq-ok :
      (first : Result A) (next : A → Result B)
      → first >>= next ≡ ok b
      → (a : A) × (first ≡ ok a) × (next a ≡ ok b)
  >>=-eq-ok stuck next h = cc
  >>=-eq-ok (err e) next h = cc
  >>=-eq-ok (ok a) next h = (a, refl, h)

pub >>=_assoc {ℓ κ ι} :
    {A : Type ℓ} {B : Type κ} {C : Type ι} (m : Result A) (f : A → Result B) (g : B → Result C)
    → (m >>= f >>= g) ≡ (m >>= λ a. f a >>= g)
>>=_assoc (ok a) f g = refl
>>=_assoc (err e) f g = refl
>>=_assoc stuck f g = refl

-- Two ways to go on that agree on every value
pub >>=_ext {ℓ κ} :
    {A : Type ℓ} {B : Type κ} (m : Result A) (f g : A → Result B)
    → ((a : A) → f a ≡ g a)
    → m >>= f ≡ m >>= g
>>=_ext (ok a) f g h = h a
>>=_ext (err e) f g h = refl
>>=_ext stuck f g h = refl

-- The value of a result, with a default.
abbrev value_or {ℓ} : {A : Type ℓ} → A → Result A → A
value_or d (ok a) = a
value_or d _ = d

pub ok-injective {ℓ} : {A : Type ℓ} {a b : A} → ok a ≡ ok b → a ≡ b
ok-injective {a} h = ap (value_or a) h
