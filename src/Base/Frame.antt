-- ===== src/Base/Frame.antt =====
-- Rules for code in the monad `M`: what a block preserves, and what a successful block did.
use Prim.Native.Nat.{ℕ, zero, suc}
use mathlib.Core.Path.{◌≡◌, refl, ap}
use mathlib.Core.Bool.{Bool, true, false}
use mathlib.Core.Logic.{inl, inr}
use native.Mathlib.Omega.{arith}
use rtw88_pub.Base.State.{
  Errno, Result, ok, err, M, ◌>>=◌, ◌>>◌, pure, throw, get, ignore, attempt, when, then_run,
  Result-cases,
}
use rtw88_pub.Base.Poll.{poll}
use rtw88_pub.Base.Tests.{if◌then◌else◌}

-- `m` keeps `P`, whether it succeeds or fails.
pub record Preserves {κ} {S A : Type 0} (P : S → Type κ) (m : M S A) : Type κ where
  pub keeps : (s : S) → P s → P (m s).1

module _ {κ} {S : Type 0} {P : S → Type κ} where
  pub Preserves-pure : {A : Type 0} (a : A) → Preserves {A = A} P (pure a)
  Preserves-pure a = record { keeps = λ s p. p }

  pub Preserves-throw : {A : Type 0} (e : Errno) → Preserves {A = A} P (throw e)
  Preserves-throw e = record { keeps = λ s p. p }

  pub Preserves-get : Preserves P (get {S = S})
  Preserves-get = record { keeps = λ s p. p }

  pub Preserves-ignore : {A : Type 0} {m : M S A} → Preserves P m → Preserves P (ignore m)
  Preserves-ignore h = record { keeps = λ s p. h.keeps s p }

  pub Preserves-attempt : {A : Type 0} {m : M S A} → Preserves P m → Preserves P (attempt m)
  Preserves-attempt h = record { keeps = λ s p. h.keeps s p }

  pub Preserves-when : (b : Bool) {m : M S (Unit {0})} → Preserves P m → Preserves P (when b m)
  Preserves-when true h = h
  Preserves-when false h = record { keeps = λ s p. p }

  then_run-keeps :
      {A B : Type 0} (r : Result A) (s : S) (f : A → M S B)
      → P s
      → ((a : A) → Preserves P (f a))
      → P (then_run r s f).1
  then_run-keeps (ok a) s f p h = (h a).keeps s p
  then_run-keeps (err e) s f p h = p

  pub Preserves-bind :
      {A B : Type 0} {m : M S A} {f : A → M S B}
      → Preserves P m
      → ((a : A) → Preserves P (f a))
      → Preserves P (m >>= f)
  Preserves-bind {m = m} {f = f} h k = record {
    keeps = λ s p. then_run-keeps (m s).0 (m s).1 f (h.keeps s p) k;
  }

  pub Preserves-seq :
      {B : Type 0} {m : M S (Unit {0})} {k : M S B}
      → Preserves P m
      → Preserves P k
      → Preserves P (m >> k)
  Preserves-seq h k = Preserves-bind h (λ _. k)

  pub Preserves-test :
      {A : Type 0} (b : Bool) {m n : M S A}
      → Preserves P m
      → Preserves P n
      → Preserves P (elim b [ true ↦ m | false ↦ n ])
  Preserves-test true h k = h
  Preserves-test false h k = k

  pub Preserves-poll :
      {A : Type 0} (n : ℕ) {read : M S A} (test : A → Bool) (e : Errno)
      → Preserves P read
      → Preserves P (poll n read test e)
  unfolding poll
  Preserves-poll zero test e h = Preserves-throw e
  Preserves-poll (suc n) test e h =
      Preserves-bind h (λ v. Preserves-test (test v) (Preserves-pure v) (Preserves-poll n test e h))

  pub Preserves-if :
      {A : Type 0} (b : Bool) {m n : M S A}
      → Preserves P m
      → Preserves P n
      → Preserves P (if b then m else n)
  Preserves-if true h k = h
  Preserves-if false h k = k

pub ruleset frame = (
  Preserves-pure, Preserves-throw, Preserves-get, Preserves-ignore, Preserves-attempt,
  Preserves-when, Preserves-bind, Preserves-poll, Preserves-if, Preserves-test,
)

-- A block that succeeds went through its first part.
pub bind_ok :
    {S A B : Type 0} (m : M S A) (f : A → M S B) (s : S) {b : B}
    → ((m >>= f) s).0 ≡ ok b
    → (a : A) × ((m s).0 ≡ ok a) × ((m >>= f) s ≡ f a (m s).1)
bind_ok m f s h = elim (Result-cases (m s).0) [
  | inl (a, e) ↦ (a, e, ap (λ r. then_run r (m s).1 f) e)
  | inr (x, e) ↦ ground arith
]

module _ {S A B C : Type 0} where
  then_run_assoc :
      (r : Result A) (s : S) (f : A → M S B) (g : B → M S C)
      → then_run (then_run r s f).0 (then_run r s f).1 g ≡ then_run r s (λ a. f a >>= g)
  then_run_assoc (ok a) s f g = refl
  then_run_assoc (err e) s f g = refl

  pub bind_assoc :
      (m : M S A) (f : A → M S B) (g : B → M S C) (s : S)
      → ((m >>= f) >>= g) s ≡ (m >>= λ a. f a >>= g) s
  bind_assoc m f g s = then_run_assoc (m s).0 (m s).1 f g

module _ {κ} {S A B : Type 0} {P : S → Type κ} where
  then_run_agree :
      (r : Result A) (s : S) (f g : A → M S B)
      → P s
      → ((a : A) (s : S) → P s → f a s ≡ g a s)
      → then_run r s f ≡ then_run r s g
  then_run_agree (ok a) s f g p h = h a s p
  then_run_agree (err e) s f g p h = refl

  -- Two continuations that agree where `P` holds do so behind what preserves it.
  pub bind_agree :
      {m : M S A} {f g : A → M S B}
      → Preserves P m
      → ((a : A) (s : S) → P s → f a s ≡ g a s)
      → (s : S) → P s
      → (m >>= f) s ≡ (m >>= g) s
  bind_agree {m} {f} {g} k h s p = then_run_agree (m s).0 (m s).1 f g (k.keeps s p) h

module _ {S A B : Type 0} where
  pub bind_ext :
      (m : M S A) (f g : A → M S B)
      → ((a : A) (s : S) → f a s ≡ g a s)
      → (s : S) → (m >>= f) s ≡ (m >>= g) s
  bind_ext m f g h s = then_run_agree {P = λ _. Unit {0}} (m s).0 (m s).1 f g tt (λ a s' p. h a s')

module _ {S A B : Type 0} where
  pub bind_same : (m n : M S A) (f : A → M S B) (s : S) → m s ≡ n s → (m >>= f) s ≡ (n >>= f) s
  bind_same m n f s e = ap (λ (r : Result A × S). then_run r.0 r.1 f) e

module _ {S : Type 0} (m : M S (Unit {0})) where
  pub when-true : (b : Bool) (s : S) → b ≡ true → when b m s ≡ m s
  when-true b s e = ap (λ c. when c m s) e

  pub when-false : (b : Bool) (s : S) → b ≡ false → when b m s ≡ (ok tt, s)
  when-false b s e = ap (λ c. when c m s) e
