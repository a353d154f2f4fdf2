-- ===== src/Usb/Dig/Gain.antt =====
-- The gain that the decision of rtw88_dig_tick takes: its bounds and where it settles.
use rtw88_pub.Base.{ℕ, ◌+◌, ◌≤◌, ◌<◌, ◌^◌, ◌≡◌, arith, List, [], ◌∷◌, length, All, ◌*◌}
use rtw88_pub.Usb.Dig.{dig_cvrg_min, dig_cvrg_max, step_up, stepped, next_igi}

-- One decision: the gain stays between the coverage bounds, moves by two at most from a gain that is
-- within them, does not fall when more than 2000 alarms were counted and it was at most the upper
-- bound, does not rise when at most 4000 were and it was at least the lower bound, and is no lower
-- for more alarms.
pub next_igi-bounds :
    (pre fa : ℕ)
    → pre < 2 ^ 8
    → (dig_cvrg_min ≤ next_igi pre fa)
      × (next_igi pre fa ≤ dig_cvrg_max)
      × (dig_cvrg_min ≤ pre
          → pre ≤ dig_cvrg_max
          → (next_igi pre fa ≤ pre + 2) × (pre ≤ next_igi pre fa + 2))
      × (2000 < fa → pre ≤ dig_cvrg_max → pre ≤ next_igi pre fa)
      × (fa ≤ 4000 → dig_cvrg_min ≤ pre → next_igi pre fa ≤ pre)
      × ((more : ℕ) → fa ≤ more → next_igi pre fa ≤ next_igi pre more)
unfolding next_igi step_up stepped
next_igi-bounds pre fa h = (
  ground arith,
  ground arith,
  λ a b. (ground arith, ground arith),
  λ a b. ground arith,
  λ a b. ground arith,
  λ more k. ground arith,
)

-- The gain after the samples of several ticks.
pub igi_after : ℕ → List ℕ → ℕ
igi_after pre [] = pre
igi_after pre (fa ∷ samples) = igi_after (next_igi pre fa) samples

descends :
    (samples : List ℕ) (pre : ℕ)
    → All (λ fa. fa ≤ 2000) samples
    → dig_cvrg_min ≤ pre
    → pre ≤ dig_cvrg_min + 2 * length samples
    → igi_after pre samples ≡ dig_cvrg_min
unfolding igi_after next_igi step_up stepped
descends [] pre q h k = omega arith
descends (fa ∷ samples) pre q h k =
    descends samples (next_igi pre fa) q.1 (ground (arith, q.0)) (ground (arith, q.0))

ascends :
    (samples : List ℕ) (pre : ℕ)
    → All (λ fa. 5000 < fa) samples
    → pre ≤ dig_cvrg_max
    → dig_cvrg_max ≤ pre + 2 * length samples
    → igi_after pre samples ≡ dig_cvrg_max
unfolding igi_after next_igi step_up stepped
ascends [] pre q h k = omega arith
ascends (fa ∷ samples) pre q h k =
    ascends samples (next_igi pre fa) q.1 (ground (arith, q.0)) (ground (arith, q.0))

-- From any gain, eight ticks or more on a quiet channel, at most 2000 alarms each, take the gain to
-- its lower bound, and as many on a channel with more than 5000 alarms each to its upper bound.
pub igi_after-settles :
    (pre : ℕ) (samples : List ℕ)
    → pre < 2 ^ 8
    → 8 ≤ length samples
    → (All (λ fa. fa ≤ 2000) samples → igi_after pre samples ≡ dig_cvrg_min)
      × (All (λ fa. 5000 < fa) samples → igi_after pre samples ≡ dig_cvrg_max)
unfolding igi_after next_igi step_up stepped
igi_after-settles pre [] h k = ground arith
igi_after-settles pre (fa ∷ samples) h k =
    let bounds = next_igi-bounds pre fa h in
    (
      λ q. descends samples (next_igi pre fa) q.1 bounds.0 (omega arith),
      λ q. ascends samples (next_igi pre fa) q.1 bounds.1 (omega arith),
    )
