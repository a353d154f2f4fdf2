-- ===== src/Usb/Claim/Exclusion.antt =====
-- Mutual exclusion of the threads that claim endpoint 0, and progress.
use rtw88_pub.Base.{
  ℕ, zero, suc, ◌+◌, ◌≤◌, ◌<◌, ◌≡◌, refl, ap, ◌∙◌, arith, ◌⊎◌, inl, inr, true, false, List, [], ◌∷◌,
  replicate, get_or, set, length, if◌then◌else◌, Bool-cases,
}
use rtw88_pub.Usb.Claim.{
  Phase, idle, asking, holding, Threads, phase, Step, ask, take, give, Reaches, here, later,
}

abbrev weight : Phase → ℕ
weight idle = 0
weight asking = 0
weight holding = 1

-- How many threads are inside.
pub holders : List Phase → ℕ
holders [] = 0
holders (p ∷ ps) = weight p + holders ps

holders-set :
    (ps : List Phase) (i : ℕ) (p : Phase)
    → i < length ps
    → holders (set ps i p) + weight (get_or ps i idle) ≡ holders ps + weight p
unfolding holders
holders-set [] i p h = elim h [ ]
holders-set (q ∷ ps) zero p h = omega arith
holders-set (q ∷ ps) (suc i) p h = omega (arith, holders-set ps i p (omega arith))

-- A thread that is not idle exists.
not_idle :
    (ps : List Phase) (i : ℕ)
    → (get_or ps i idle ≡ asking) ⊎ (get_or ps i idle ≡ holding)
    → i < length ps
not_idle [] i (inl h) = absurd cc
not_idle [] i (inr h) = absurd cc
not_idle (p ∷ ps) zero h = omega arith
not_idle (p ∷ ps) (suc i) h = omega (arith, not_idle ps i h)

-- The flag counts the threads inside.
abbrev pub Counted : Threads → Type 0
Counted t = holders t.phases ≡ (if t.busy then 1 else 0)

Step-Counted : {t u : Threads} → Step t u → Counted t → Counted u
Step-Counted {t} (ask i h e) c =
    let moved = holders-set t.phases i asking h in
    let was = ap weight e in omega (arith, moved, was, c)
Step-Counted {t} (take i e f) c =
    let moved = holders-set t.phases i holding (not_idle t.phases i (inl e)) in
    let was = ap weight e in
    let free : holders t.phases ≡ 0 = c ∙ ap (λ b. if b then 1 else 0) f in
    omega (arith, moved, was, free)
Step-Counted {t} (give i e) c =
    let moved = holders-set t.phases i idle (not_idle t.phases i (inr e)) in
    let was = ap weight e in
    let few : holders t.phases ≤ 1 = ground (arith, c) in omega (arith, moved, was, few)

Reaches-Counted : {t u : Threads} → Reaches t u → Counted t → Counted u
Reaches-Counted here c = c
Reaches-Counted (later r s) c = Step-Counted s (Reaches-Counted r c)

holders-idle : (n : ℕ) → holders (replicate n idle) ≡ 0
unfolding holders
holders-idle zero = refl
holders-idle (suc n) = omega (arith, holders-idle n)

abbrev pub start : ℕ → Threads
start n = record { busy = false; phases = replicate n idle }

one_holder : (ps : List Phase) (i : ℕ) → get_or ps i idle ≡ holding → 1 ≤ holders ps
unfolding holders
one_holder [] i h = absurd cc
one_holder (p ∷ ps) zero h = omega (arith, ap weight h)
one_holder (p ∷ ps) (suc i) h = omega (arith, one_holder ps i h)

-- Two holders count as two.
two_holders :
    (ps : List Phase) (i j : ℕ)
    → get_or ps i idle ≡ holding
    → get_or ps j idle ≡ holding
    → holders ps ≤ 1
    → i ≡ j
unfolding holders
two_holders [] i j h k few = absurd cc
two_holders (p ∷ ps) zero zero h k few = refl
two_holders (p ∷ ps) zero (suc j) h k few =
    absurd (omega (arith, ap weight h, one_holder ps j k, few))
two_holders (p ∷ ps) (suc i) zero h k few =
    absurd (omega (arith, ap weight k, one_holder ps i h, few))
two_holders (p ∷ ps) (suc i) (suc j) h k few = ap suc (two_holders ps i j h k (omega (arith, few)))

some_holder : (ps : List Phase) → 1 ≤ holders ps → (i : ℕ) × (get_or ps i idle ≡ holding)
unfolding holders
some_holder [] h = elim h [ ]
some_holder (holding ∷ ps) h = (0, refl)
some_holder (idle ∷ ps) h = let (i, e) = some_holder ps (omega arith) in (suc i, e)
some_holder (asking ∷ ps) h = let (i, e) = some_holder ps (omega arith) in (suc i, e)

-- In every state that `n` idle threads reach, at most one thread holds endpoint 0, the flag is set
-- exactly while one does, and there is no deadlock: whenever a thread asks, either it can take the
-- endpoint at once, or some thread holds it and can give it back.
pub claim-exclusive :
    (n : ℕ) (t : Threads)
    → Reaches (start n) t
    → ((i j : ℕ) → phase t i ≡ holding → phase t j ≡ holding → i ≡ j)
      × ((i : ℕ) → phase t i ≡ holding → t.busy ≡ true)
      × (t.busy ≡ true → (i : ℕ) × (phase t i ≡ holding))
      × ((i : ℕ)
          → phase t i ≡ asking
          → Step t (record { busy = true; phases = set t.phases i holding })
            ⊎ ((j : ℕ) × Step t (record { busy = false; phases = set t.phases j idle })))
claim-exclusive n t r =
    let c = Reaches-Counted r (holders-idle n) in
    let few : holders t.phases ≤ 1 = ground (arith, c) in
    (
      λ i j h k. two_holders t.phases i j h k few,
      λ i h. ground (arith, c, one_holder t.phases i h),
      λ b. some_holder t.phases (ground (arith, c, b)),
      λ i h. elim (Bool-cases t.busy) [
        | inr f ↦ inl (take i h f)
        | inl f ↦ let (j, e) = some_holder t.phases (ground (arith, c, f)) in inr (j, give j e)
      ],
    )
