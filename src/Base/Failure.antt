-- ===== src/Base/Failure.antt =====
-- With which errno values code in the monad `M` can fail.
use Prim.Native.Nat.{ℕ, zero, suc}
use mathlib.Core.Path.{◌≡◌, refl, subst}
use mathlib.Core.Bool.{Bool, true, false}
use rtw88_pub.Base.State.{
  Errno, Result, ok, err, M, ◌>>=◌, pure, throw, get, modify, ignore, attempt, when, then_run,
}
use rtw88_pub.Base.Poll.{poll}
use rtw88_pub.Base.Tests.{if◌then◌else◌}

pub ok_not_err : {A : Type 0} (a : A) (e : Errno) → ok a ≡ err e → ⊥
ok_not_err a e h = cc

pub err_inj : {A : Type 0} {x y : Errno} → ◌≡◌ {A = Result A} (err x) (err y) → x ≡ y
err_inj h = cc

-- The errno values that a block can fail with.
pub record Fails {κ} {S A : Type 0} (E : Errno → Type κ) (m : M S A) : Type κ where
  pub only : (s : S) (e : Errno) → (m s).0 ≡ err e → E e

module _ {κ} {S : Type 0} {E : Errno → Type κ} where
  pub Fails-pure : {A : Type 0} (a : A) → Fails {S = S} E (pure a)
  Fails-pure a = record { only = λ s e h. absurd (ok_not_err a e h) }

  pub Fails-throw : {A : Type 0} (x : Errno) → E x → Fails {S = S} {A = A} E (throw x)
  Fails-throw {A} x p = record { only = λ s e h. subst E (err_inj {A = A} h) p }

  then_run-fails :
      {A B : Type 0} (r : Result A) (s : S) (f : A → M S B)
      → ((x : Errno) → r ≡ err x → E x)
      → ((a : A) → Fails E (f a))
      → (e : Errno) → (then_run r s f).0 ≡ err e
      → E e
  then_run-fails (ok a) s f h k e q = (k a).only s e q
  then_run-fails {B = B} (err x) s f h k e q = subst E (err_inj {A = B} q) (h x refl)

  pub Fails-bind :
      {A B : Type 0} {m : M S A} {f : A → M S B}
      → Fails E m
      → ((a : A) → Fails E (f a))
      → Fails E (m >>= f)
  Fails-bind {m = m} {f = f} h k = record {
    only = λ s e q. then_run-fails (m s).0 (m s).1 f (λ x r. h.only s x r) k e q;
  }

  pub Fails-if :
      {A : Type 0} (b : Bool) {m n : M S A} → Fails E m → Fails E n → Fails E (if b then m else n)
  Fails-if true h k = h
  Fails-if false h k = k

  pub Fails-test :
      {A : Type 0} (b : Bool) {m n : M S A}
      → Fails E m
      → Fails E n
      → Fails E (elim b [ true ↦ m | false ↦ n ])
  Fails-test true h k = h
  Fails-test false h k = k

  pub Fails-poll :
      {A : Type 0} (n : ℕ) {read : M S A} (test : A → Bool) (x : Errno)
      → Fails E read
      → E x
      → Fails E (poll n read test x)
  unfolding poll
  Fails-poll zero test x h p = Fails-throw x p
  Fails-poll (suc n) test x h p =
      Fails-bind h (λ v. Fails-test (test v) (Fails-pure v) (Fails-poll n test x h p))

  pub Fails-ignore : {A : Type 0} (m : M S A) → Fails E (ignore m)
  Fails-ignore m = record { only = λ s e h. absurd (ok_not_err tt e h) }

  pub Fails-attempt : {A : Type 0} (m : M S A) → Fails E (attempt m)
  Fails-attempt m = record { only = λ s e h. absurd (ok_not_err (m s).0 e h) }

  pub Fails-modify : (f : S → S) → Fails E (modify f)
  Fails-modify f = record { only = λ s e h. absurd (ok_not_err tt e h) }

  pub Fails-get : Fails E (get {S = S})
  Fails-get = record { only = λ s e h. absurd (ok_not_err s e h) }

  pub Fails-when : (b : Bool) {m : M S (Unit {0})} → Fails E m → Fails E (when b m)
  Fails-when true h = h
  Fails-when false h = Fails-pure tt

  -- Where the test matters, each branch may use its answer.
  pub Fails-either :
      {A : Type 0} (b : Bool) {m n : M S A}
      → (b ≡ true → Fails E m)
      → (b ≡ false → Fails E n)
      → Fails E (if b then m else n)
  Fails-either true h k = h refl
  Fails-either false h k = k refl
