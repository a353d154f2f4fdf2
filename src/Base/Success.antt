-- ===== src/Base/Success.antt =====
-- Code in the monad `M` that always succeeds, with a result of which `P` holds.
use mathlib.Core.Path.{◌≡◌, refl, sym, ap, ◌∙◌}
use mathlib.Core.Bool.{Bool, true, false}
use rtw88_pub.Base.State.{ok, M, ◌>>=◌, pure, modify, get, when, then_run}
use rtw88_pub.Base.Tests.{if◌then◌else◌}

pub record Returns {κ} {S A : Type 0} (P : A → Type κ) (m : M S A) : Type κ where
  pub returns : (s : S) → (a : A) × ((m s).0 ≡ ok a) × P a

module _ {κ} {S : Type 0} where
  pub Returns-pure : {A : Type 0} {P : A → Type κ} (a : A) → P a → Returns {S = S} P (pure a)
  Returns-pure a p = record { returns = λ s. (a, refl, p) }

  pub Returns-bind :
      {A B : Type 0} {P : A → Type κ} {Q : B → Type κ} {m : M S A} {f : A → M S B}
      → Returns P m
      → ((a : A) → P a → Returns Q (f a))
      → Returns Q (m >>= f)
  Returns-bind {m = m} {f = f} h k = record {
    returns = λ s.
        let (a, e, p) = h.returns s in
        let (b, e', q) = (k a p).returns (m s).1 in
        (b, ap (λ r. (then_run r (m s).1 f).0) e ∙ e', q);
  }

  pub Returns-if :
      {A : Type 0} {P : A → Type κ} (b : Bool) {m n : M S A}
      → (b ≡ true → Returns P m)
      → (b ≡ false → Returns P n)
      → Returns P (if b then m else n)
  Returns-if true h k = h refl
  Returns-if false h k = k refl

  pub Returns-test :
      {A : Type 0} {P : A → Type κ} (b : Bool) {m n : M S A}
      → (b ≡ true → Returns P m)
      → (b ≡ false → Returns P n)
      → Returns P (elim b [ true ↦ m | false ↦ n ])
  Returns-test true h k = h refl
  Returns-test false h k = k refl

  -- Two continuations that agree on what comes back do so behind it.
  pub bind_agree_on :
      {A B : Type 0} {P : A → Type κ} {m : M S A} {f g : A → M S B}
      → Returns P m
      → ((a : A) → P a → (s : S) → f a s ≡ g a s)
      → (s : S) → (m >>= f) s ≡ (m >>= g) s
  bind_agree_on {m = m} {f = f} {g = g} h k s =
      let (a, e, p) = h.returns s in
      ap (λ r. then_run r (m s).1 f) e ∙ k a p (m s).1 ∙ sym (ap (λ r. then_run r (m s).1 g) e)

module _ {S : Type 0} where
  pub Returns-modify : (f : S → S) → Returns (λ _. Unit {0}) (modify f)
  Returns-modify f = record { returns = λ s. (tt, refl, tt) }

  pub Returns-get : Returns (λ _. Unit {0}) (get {S = S})
  Returns-get = record { returns = λ s. (s, refl, tt) }

  pub Returns-when :
      (b : Bool) {m : M S (Unit {0})}
      → Returns (λ _. Unit {0}) m
      → Returns (λ _. Unit {0}) (when b m)
  Returns-when true h = h
  Returns-when false h = record { returns = λ s. (tt, refl, tt) }
