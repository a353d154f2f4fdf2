-- ===== src/Base/Conduct.antt =====
-- Blocks that can fail only with certain errno values and keep a property either way, and blocks
-- that fail so or else reach a second property.
use mathlib.Core.Path.{◌≡◌, refl}
use mathlib.Core.Logic.{◌≢◌, ◌⊎◌, inl, inr}
use mathlib.Core.Bool.{Bool, true, false}
use rtw88_pub.Base.State.{Errno, ok, err, M, ◌>>=◌, ◌>>◌, pure, get, ignore, when, Result-cases}
use rtw88_pub.Base.Tests.{if◌then◌else◌}
use rtw88_pub.Base.Frame.{
  Preserves, Preserves-pure, Preserves-get, Preserves-ignore, Preserves-when, Preserves-bind,
  Preserves-if,
}
use rtw88_pub.Base.Failure.{
  Fails, Fails-pure, Fails-get, Fails-ignore, Fails-when, Fails-bind, Fails-if,
}

pub record Careful {κ μ} {S A : Type 0} (E : Errno → Type κ) (P : S → Type μ) (m : M S A)
    : Type (κ ⊔ μ) where
  pub fails : Fails E m
  pub preserves : Preserves P m

module _ {κ μ} {S : Type 0} {E : Errno → Type κ} {P : S → Type μ} where
  pub Careful-pure : {A : Type 0} (a : A) → Careful E P (pure a)
  Careful-pure a = record { fails = Fails-pure a; preserves = Preserves-pure a }

  pub Careful-get : Careful E P (get {S = S})
  Careful-get = record { fails = Fails-get; preserves = Preserves-get }

  pub Careful-ignore : {A : Type 0} {m : M S A} → Preserves P m → Careful E P (ignore m)
  Careful-ignore {m = m} h = record { fails = Fails-ignore m; preserves = Preserves-ignore h }

  pub Careful-when : (b : Bool) {m : M S (Unit {0})} → Careful E P m → Careful E P (when b m)
  Careful-when b h = record {
    fails = Fails-when b h.fails;
    preserves = Preserves-when b h.preserves;
  }

  pub Careful-bind :
      {A B : Type 0} {m : M S A} {f : A → M S B}
      → Careful E P m
      → ((a : A) → Careful E P (f a))
      → Careful E P (m >>= f)
  Careful-bind h k = record {
    fails = Fails-bind h.fails (λ a. (k a).fails);
    preserves = Preserves-bind h.preserves (λ a. (k a).preserves);
  }

  pub Careful-seq :
      {B : Type 0} {m : M S (Unit {0})} {k : M S B}
      → Careful E P m
      → Careful E P k
      → Careful E P (m >> k)
  Careful-seq h k = Careful-bind h (λ _. k)

  pub Careful-if :
      {A : Type 0} (b : Bool) {m n : M S A}
      → Careful E P m
      → Careful E P n
      → Careful E P (if b then m else n)
  Careful-if b h k = record {
    fails = Fails-if b h.fails k.fails;
    preserves = Preserves-if b h.preserves k.preserves;
  }

  pub Careful-test :
      {A : Type 0} (b : Bool) {m n : M S A}
      → Careful E P m
      → Careful E P n
      → Careful E P (elim b [ true ↦ m | false ↦ n ])
  Careful-test true h k = h
  Careful-test false h k = k

pub ruleset conduct = (
  Careful-bind, Careful-when, Careful-if, Careful-get, Careful-pure, Careful-ignore, Careful-test,
)

-- From `P`, the block fails and keeps it, or succeeds and reaches `Q`.
pub record Ends {κ μ ν} {S : Type 0} (E : Errno → Type κ) (P : S → Type μ) (Q : S → Type ν)
    (m : M S (Unit {0})) : Type (κ ⊔ μ ⊔ ν) where
  pub ends :
      (s : S)
      → P s
      → ((e : Errno) × ((m s).0 ≡ err e) × E e × P (m s).1) ⊎ (((m s).0 ≡ ok tt) × Q (m s).1)

module _ {κ μ ν} {S : Type 0} {E : Errno → Type κ} {P : S → Type μ} {Q : S → Type ν} where
  -- All that can fail comes first.
  pub Ends-bind :
      {A : Type 0} {m : M S A} {f : A → M S (Unit {0})}
      → Careful E P m
      → ((a : A) → Ends E P Q (f a))
      → Ends E P Q (m >>= f)
  Ends-bind {A} {m} {f} h k = record { ends = ended }
    where
      ended :
          (s : S)
          → P s
          → ((e : Errno) × (((m >>= f) s).0 ≡ err e) × E e × P ((m >>= f) s).1)
            ⊎ ((((m >>= f) s).0 ≡ ok tt) × Q ((m >>= f) s).1)
      ended s p = elim (Result-cases (m s).0) [
        | inl (a, e) ↦ rw e ((k a).ends (m s).1 (h.preserves.keeps s p))
        | inr (x, e) ↦ rw e (inl (x, refl, h.fails.only s x e, h.preserves.keeps s p))
      ]

  pub Ends-modify : (f : S → S) → ((s : S) → P s → Q (f s)) → Ends E P Q (λ s. (ok tt, f s))
  Ends-modify f h = record { ends = λ s p. inr (refl, h s p) }

  -- A block that never succeeds ends the code behind it.
  pub Ends-stop :
      {m : M S (Unit {0})} (k : Unit {0} → M S (Unit {0}))
      → Ends E P (λ _. ⊥) m
      → Ends E P Q (m >>= k)
  Ends-stop {m} k h = record { ends = stopped }
    where
      stopped :
          (s : S)
          → P s
          → ((e : Errno) × (((m >>= k) s).0 ≡ err e) × E e × P ((m >>= k) s).1)
            ⊎ ((((m >>= k) s).0 ≡ ok tt) × Q ((m >>= k) s).1)
      stopped s p = elim (h.ends s p) [
        | inl (e, failed, allowed, kept) ↦ rw failed (inl (e, refl, allowed, kept))
        | inr (done, never) ↦ absurd never
      ]

  -- A first block that never succeeds ends the code behind it.
  pub Ends-never :
      {A : Type 0} {m : M S A} (f : A → M S (Unit {0}))
      → Careful E P m
      → ((s : S) (a : A) → P s → (m s).0 ≢ ok a)
      → Ends E P Q (m >>= f)
  Ends-never {A} {m} f h never = record { ends = ended }
    where
      ended :
          (s : S)
          → P s
          → ((e : Errno) × (((m >>= f) s).0 ≡ err e) × E e × P ((m >>= f) s).1)
            ⊎ ((((m >>= f) s).0 ≡ ok tt) × Q ((m >>= f) s).1)
      ended s p = elim (Result-cases (m s).0) [
        | inl (a, e) ↦ absurd (never s a p e)
        | inr (x, e) ↦ rw e (inl (x, refl, h.fails.only s x e, h.preserves.keeps s p))
      ]

  -- What was read is the state itself.
  pub Ends-get :
      {f : S → M S (Unit {0})} → ((s : S) → P s → Ends E P Q (f s)) → Ends E P Q (get >>= f)
  Ends-get h = record { ends = λ s p. (h s p).ends s p }
