-- ===== src/Base/Poll.antt =====
-- Polling loops, `for (try = 0; try < n; try++) { read; if (test) break; }` with an error after the
-- last round.
use Prim.Native.Nat.{ℕ, zero, suc}
use mathlib.Core.Path.{◌≡◌, refl}
use mathlib.Core.Logic.{◌≢◌, inl, inr}
use mathlib.Core.Bool.{Bool, true, false}
use native.Mathlib.Omega.{arith}
use rtw88_pub.Base.State.{Errno, ok, err, M, ◌>>=◌, pure, throw, Result-cases}

module _ {S A : Type 0} where
  unfoldable pub poll : ℕ → M S A → (A → Bool) → Errno → M S A
  poll zero read test e = throw e
  poll (suc n) read test e = do
    v ← read
    elim (test v) [ true ↦ pure v | false ↦ poll n read test e ]

  module _ (read : M S A) (test : A → Bool) (e : Errno) where
    pub poll_hit :
        (n : ℕ) (s s' : S) (v : A)
        → read s ≡ (ok v, s')
        → test v ≡ true
        → poll (suc n) read test e s ≡ (ok v, s')
    unfolding poll
    poll_hit n s s' v h k = rw h (rw k)

    pub poll_miss :
        (n : ℕ) (s s' : S) (v : A)
        → read s ≡ (ok v, s')
        → test v ≡ false
        → poll (suc n) read test e s ≡ poll n read test e s'
    unfolding poll
    poll_miss n s s' v h k = rw h (rw k)

    -- A value that comes back passed the test.
    pub poll-ok : (n : ℕ) (s : S) (v : A) → (poll n read test e s).0 ≡ ok v → test v ≡ true
    unfolding poll
    poll-ok zero s v h = cc
    poll-ok (suc n) s v h = ground (arith, poll-ok n (read s).1 v)

    -- A poll whose reads succeed and never pass the test gives its error, whatever the reads do to
    -- the state as long as they stay in `P`.
    pub poll_never {κ} :
        (P : S → Type κ)
        → ((s : S) → P s → (v : A) × (test v ≡ false) × ((read s).0 ≡ ok v) × P (read s).1)
        → (n : ℕ) (s : S) → P s
        → (poll n read test e s).0 ≡ err e
    unfolding poll
    poll_never P misses zero s p = refl
    poll_never P misses (suc n) s p =
        let (v, no_hit, value, p') = misses s p in
        ground (arith, poll_never P misses n (read s).1 p')

    -- A poll whose reads never pass the test does not succeed, where reads may fail.
    pub poll_misses :
        ((s : S) (v : A) → (read s).0 ≡ ok v → test v ≡ false)
        → (n : ℕ) (s : S) (v : A) → (poll n read test e s).0 ≢ ok v
    unfolding poll
    poll_misses misses zero s v done = cc
    poll_misses misses (suc n) s v done = elim (Result-cases (read s).0) [
      | inl (a, got) ↦ ground (arith, poll_misses misses n (read s).1 v, misses s a got)
      | inr (x, got) ↦ ground arith
    ]

    -- A read error ends a poll at once.
    pub poll_fails :
        (n : ℕ) (s : S) (x : Errno)
        → (read s).0 ≡ err x
        → (poll (suc n) read test e s) ≡ (err x, (read s).1)
    unfolding poll
    poll_fails n s x h = ground arith
