-- ===== src/Base/State.antt =====
-- Fallible code over a state. A C function that returns an errno and changes what its arguments
-- point to is a function `S → Result A × S`: a failure keeps the changes made before it.
use mathlib.Core.Path.{◌≡◌, refl}
use mathlib.Core.Logic.{◌⊎◌, inl, inr}
use mathlib.Core.Bool.{Bool, true, false}

-- The errno values that the driver returns. `undefined` is none of them: it stands for a step that
-- C leaves undefined, such as a read outside an array.
pub data Errno : Type 0 where
  eio etimedout einval ebusy enoent enomem enxio emsgsize eopnotsupp enobufs : Errno
  undefined : Errno

pub data Result {ℓ} (A : Type ℓ) : Type ℓ where
  ok : A → Result A
  err : Errno → Result A

abbrev pub M : Type 0 → Type 0 → Type 0
M S A = S → Result A × S

-- What follows a result: only a success goes on.
abbrev pub then_run : {S A B : Type 0} → Result A → S → (A → M S B) → Result B × S
then_run (ok a) s f = f a s
then_run (err e) s f = (err e, s)

infixl 5 ◌>>=◌ ◌>>◌
abbrev pub ◌>>=◌ : {S A B : Type 0} → M S A → (A → M S B) → M S B
◌>>=◌ m f s = let (r, s') = m s in then_run r s' f

abbrev pub ◌>>◌ : {S B : Type 0} → M S (Unit {0}) → M S B → M S B
m >> k = m >>= λ _. k

abbrev pub pure : {S A : Type 0} → A → M S A
pure a s = (ok a, s)

abbrev pub throw : {S A : Type 0} → Errno → M S A
throw e s = (err e, s)

abbrev pub get : {S : Type 0} → M S S
get s = (ok s, s)

abbrev pub put : {S : Type 0} → S → M S (Unit {0})
put s' s = (ok tt, s')

abbrev pub modify : {S : Type 0} → (S → S) → M S (Unit {0})
modify f s = (ok tt, f s)

-- `if (m() == 0)` and `(void)m()`: the error is a value, and does not end the caller.
abbrev pub attempt : {S A : Type 0} → M S A → M S (Result A)
attempt m s = let (r, s') = m s in (ok r, s')

abbrev pub ignore : {S A : Type 0} → M S A → M S (Unit {0})
ignore m s = let (r, s') = m s in (ok tt, s')

abbrev pub when : {S : Type 0} → Bool → M S (Unit {0}) → M S (Unit {0})
when true m = m
when false m = pure tt

pub Result-cases {ℓ} :
    {A : Type ℓ} (r : Result A) → ((a : A) × (r ≡ ok a)) ⊎ ((e : Errno) × (r ≡ err e))
Result-cases (ok a) = inl (a, refl)
Result-cases (err e) = inr (e, refl)
