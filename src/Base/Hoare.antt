-- ===== src/Base/Hoare.antt =====
-- Hoare triples for the monad `M`: `Q` holds of the result and the state of a success, `E` of the
-- errno and the state of a failure.
use rtw88_pub.Base.State.{Errno, Result, ok, err, M, ◌>>=◌, ◌>>◌, then_run}
use rtw88_pub.Base.Frame.{Preserves}

abbrev pub Post {κ} :
    {S A : Type 0} → (A → S → Type κ) → (Errno → S → Type κ) → Result A → S → Type κ
Post Q E (ok a) s = Q a s
Post Q E (err e) s = E e s

pub record Triple {κ} {S A : Type 0} (P : S → Type κ) (Q : A → S → Type κ) (E : Errno → S → Type κ)
    (m : M S A) : Type κ where
  pub runs : (s : S) → P s → Post Q E (m s).0 (m s).1

module _ {κ} {S : Type 0} where
  then_run-Post :
      {A B : Type 0} (R : A → S → Type κ) (Q : B → S → Type κ) (E : Errno → S → Type κ)
      (r : Result A) (s : S) (f : A → M S B)
      → Post R E r s
      → ((a : A) → Triple (R a) Q E (f a))
      → Post Q E (then_run r s f).0 (then_run r s f).1
  then_run-Post R Q E (ok a) s f p h = (h a).runs s p
  then_run-Post R Q E (err e) s f p h = p

  pub Triple-bind :
      {A B : Type 0} {P : S → Type κ} (R : A → S → Type κ) {Q : B → S → Type κ}
      {E : Errno → S → Type κ} {m : M S A} {f : A → M S B}
      → Triple P R E m
      → ((a : A) → Triple (R a) Q E (f a))
      → Triple P Q E (m >>= f)
  Triple-bind R {Q} {E} {m} {f} h k = record {
    runs = λ s p. then_run-Post R Q E (m s).0 (m s).1 f (h.runs s p) k;
  }

  pub Triple-seq :
      {B : Type 0} {P : S → Type κ} (R : S → Type κ) {Q : B → S → Type κ} {E : Errno → S → Type κ}
      {m : M S (Unit {0})} {k : M S B}
      → Triple P (λ _. R) E m
      → Triple R Q E k
      → Triple P Q E (m >> k)
  Triple-seq R h k = Triple-bind (λ _. R) h (λ _. k)

  Post-both :
      {A : Type 0} (P : S → Type κ) (r : Result A) (s : S) → P s → Post (λ _. P) (λ _. P) r s
  Post-both P (ok a) s p = p
  Post-both P (err e) s p = p

  -- What is preserved holds after a success and after a failure.
  pub Triple-Preserves :
      {A : Type 0} {P : S → Type κ} {m : M S A} → Preserves P m → Triple P (λ _. P) (λ _. P) m
  Triple-Preserves {P = P} {m = m} h = record {
    runs = λ s p. Post-both P (m s).0 (m s).1 (h.keeps s p);
  }
