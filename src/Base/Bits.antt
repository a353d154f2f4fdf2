-- ===== src/Base/Bits.antt =====
-- The bit operations of C at variables: what `&`, `|` and `~` do to each bit, and as arithmetic.
mod Step
pub use Step.{bit_and_step, bit_or_step, bit_xor_step}
use Prim.Native.Nat.{
  ℕ, zero, suc, ◌+◌, ◌-◌, ◌*◌, ◌/◌, ◌%◌, ◌^◌, ◌≤◌, ◌<◌, min, max, bit_and, bit_or, bit_xor,
  bit_or-bitwise, bit_and-bitwise,
}
use mathlib.Core.Path.{◌≡◌, refl, sym, ap, ◌∙◌}
use mathlib.Core.Bool.{Bool, true, false, not, ◌&&◌, ◌||◌}
use native.Mathlib.Nat.{
  pow-suc, one-le-pow, div-div-eq-div-mul, mul-add-mod_self_left, mod-eq_of_lt,
}
use native.Mathlib.Omega.{arith}
use rtw88_pub.Base.Tests.{ltb, ◌==◌, if◌then◌else◌}

-- Bit `i` of `x`.
unfoldable pub testb : ℕ → ℕ → Bool
testb x zero = x % 2 == 1
testb x (suc i) = testb (x / 2) i

pub testb-and : (i a b : ℕ) → testb (bit_and a b) i ≡ (testb a i && testb b i)
unfolding testb
testb-and zero a b = ground (arith, bit_and_step a b)
testb-and (suc i) a b = ap (λ x. testb x i) half ∙ testb-and i (a / 2) (b / 2)
  where
    half : bit_and a b / 2 ≡ bit_and (a / 2) (b / 2)
    half = omega (arith, bit_and_step a b)

pub testb-or : (i a b : ℕ) → testb (bit_or a b) i ≡ (testb a i || testb b i)
unfolding testb
testb-or zero a b = ground (arith, bit_or_step a b)
testb-or (suc i) a b = ap (λ x. testb x i) half ∙ testb-or i (a / 2) (b / 2)
  where
    half : bit_or a b / 2 ≡ bit_or (a / 2) (b / 2)
    half = omega (arith, bit_or_step a b)

-- `~x` at a width above `i`.
pub testb-not : (n i x : ℕ) → i < n → x < 2 ^ n → testb (2 ^ n - 1 - x) i ≡ not (testb x i)
unfolding testb
testb-not zero i x h k = elim h [ ]
testb-not (suc n) zero x h k = ground (arith, pow-suc 2 n, one-le-pow n 2)
testb-not (suc n) (suc i) x h k =
    ap (λ y. testb y i) half ∙ testb-not n i (x / 2) (omega arith) (omega (arith, pow-suc 2 n))
  where
    half : (2 ^ suc n - 1 - x) / 2 ≡ 2 ^ n - 1 - x / 2
    half = omega (arith, pow-suc 2 n, one-le-pow n 2)

-- Words with the same bits are equal.
pub testb_ext :
    (n a b : ℕ) → a < 2 ^ n → b < 2 ^ n → ((i : ℕ) → i < n → testb a i ≡ testb b i) → a ≡ b
unfolding testb
testb_ext zero a b ha hb h = omega arith
testb_ext (suc n) a b ha hb h =
    let halves : a / 2 ≡ b / 2 =
      testb_ext n (a / 2) (b / 2) (omega (arith, pow-suc 2 n)) (omega (arith, pow-suc 2 n))
        (λ i k. h (suc i) (omega arith)) in
    ground (arith, h 0 (omega arith), halves)

two_pow_suc : (k : ℕ) → 2 ^ suc k ≡ 2 * 2 ^ k
two_pow_suc k = omega (arith, pow-suc 2 k)

mul_two_pow_suc : (q k : ℕ) → q * 2 ^ suc k ≡ 2 * (q * 2 ^ k)
mul_two_pow_suc q k = rw (two_pow_suc k) (omega arith)

bit_or-zero_left : (b : ℕ) → bit_or 0 b ≡ b
bit_or-zero_left b = bit_or-bitwise 0 b

half_shift : (q k : ℕ) → q * 2 ^ suc k / 2 ≡ q * 2 ^ k
half_shift q k = omega (arith, mul_two_pow_suc q k)

half_mask : (k : ℕ) → (2 ^ suc k - 1) / 2 ≡ 2 ^ k - 1
half_mask k = omega (arith, two_pow_suc k, one-le-pow k 2)

halve : (m n : ℕ) → n ≡ 2 * m → n / 2 ≡ m
halve m n h = omega arith

-- `r | (q << k)` is a sum where `r` has `k` bits.
pub bit_or_field : (k r q : ℕ) → r < 2 ^ k → bit_or r (q * 2 ^ k) ≡ r + q * 2 ^ k
bit_or_field zero r q h =
    let e : r ≡ 0 = omega arith in rw e (omega (arith, bit_or-zero_left (q * 2 ^ 0)))
bit_or_field (suc k) r q h = omega (
  arith,
  bit_or_step r (q * 2 ^ suc k),
  mul_two_pow_suc q k,
  ap (λ n. bit_or (r / 2) n) (half_shift q k),
  bit_or_field k (r / 2) q (omega (arith, two_pow_suc k)),
)

bit_and-zero_below : (n a : ℕ) → a ≤ n → bit_and a 0 ≡ 0
bit_and-zero_below zero zero h = refl
bit_and-zero_below zero (suc a) h = elim h [ ]
bit_and-zero_below (suc n) zero h = refl
bit_and-zero_below (suc n) (suc a) h =
    omega (arith, bit_and_step (suc a) 0, bit_and-zero_below n (suc a / 2) (omega arith))

mod_shift : (m q r : ℕ) → r < m → (m * q + r) % m ≡ r
mod_shift m q r h = mul-add-mod_self_left m q r ∙ mod-eq_of_lt h

mod_double : (a m : ℕ) → 0 < m → a % (2 * m) ≡ a / 2 % m * 2 + a % 2
mod_double a m h = ap (λ n. n % (2 * m)) split ∙ mod_shift (2 * m) (a / 2 / m) _ (omega arith)
  where
    split : a ≡ 2 * m * (a / 2 / m) + (a / 2 % m * 2 + a % 2)
    split = omega arith

-- A mask of the `k` low bits is a remainder.
pub bit_and_low : (k a : ℕ) → bit_and a (2 ^ k - 1) ≡ a % 2 ^ k
bit_and_low zero a = omega (arith, bit_and-zero_below a a (omega arith))
bit_and_low (suc k) a =
    let odd : (2 ^ suc k - 1) % 2 ≡ 1 = omega (arith, two_pow_suc k, one-le-pow k 2) in
    bit_and_step a (2 ^ suc k - 1)
    ∙ rw (half_mask k, odd, bit_and_low k (a / 2), two_pow_suc k)
        (omega (arith, mod_double a (2 ^ k) (one-le-pow k 2 (omega arith))))

-- Both results stay in the width of their arguments.
pub bit_or-lt : (n a b : ℕ) → a < 2 ^ n → b < 2 ^ n → bit_or a b < 2 ^ n
bit_or-lt zero a b ha hb = let e : a ≡ 0 = omega arith in rw e (omega (arith, bit_or-zero_left b))
bit_or-lt (suc n) a b ha hb = omega (
  arith,
  bit_or_step a b,
  two_pow_suc n,
  bit_or-lt n (a / 2) (b / 2) (omega (arith, two_pow_suc n)) (omega (arith, two_pow_suc n)),
)

pub bit_and-lt : (n a b : ℕ) → a < 2 ^ n → bit_and a b < 2 ^ n
bit_and-lt zero a b ha = let e : a ≡ 0 = omega arith in rw e (omega (arith, bit_and-bitwise 0 b))
bit_and-lt (suc n) a b ha = omega (
  arith,
  bit_and_step a b,
  two_pow_suc n,
  bit_and-lt n (a / 2) (b / 2) (omega (arith, two_pow_suc n)),
)

-- The bits under a mask come from one word, the others from another.
pub testb-merge :
    (n i m v x : ℕ)
    → i < n
    → m < 2 ^ n
    → testb (bit_or (bit_and v (2 ^ n - 1 - m)) (bit_and x m)) i
      ≡ (if testb m i then testb x i else testb v i)
testb-merge n i m v x h k = ground (
  arith,
  testb-or i (bit_and v (2 ^ n - 1 - m)) (bit_and x m),
  testb-and i v (2 ^ n - 1 - m),
  testb-and i x m,
  testb-not n i m h k,
)

pub merge-lt :
    (n m v x : ℕ)
    → m < 2 ^ n
    → v < 2 ^ n
    → x < 2 ^ n
    → bit_or (bit_and v (2 ^ n - 1 - m)) (bit_and x m) < 2 ^ n
merge-lt n m v x hm hv hx = bit_or-lt n _ _ (bit_and-lt n v _ hv) (bit_and-lt n x m hx)

-- `(x & m) != 0` for a mask of one bit is that bit.
unfoldable pub has : ℕ → ℕ → Bool
has x m = not (bit_and x m == 0)

bit_and-pow_suc : (i x : ℕ) → bit_and x (2 ^ suc i) ≡ bit_and (x / 2) (2 ^ i) * 2
bit_and-pow_suc i x = omega (
  arith,
  bit_and_step x (2 ^ suc i),
  two_pow_suc i,
  ap (λ n. bit_and (x / 2) n) (halve (2 ^ i) (2 ^ suc i) (two_pow_suc i)),
)

double_is_zero : (n m : ℕ) → n ≡ m * 2 → (n == 0) ≡ (m == 0)
double_is_zero n m h = ground arith

pub has-pow : (i x : ℕ) → has x (2 ^ i) ≡ testb x i
unfolding has testb
has-pow zero x = ground (arith, bit_and_low 1 x)
has-pow (suc i) x =
    ap not (double_is_zero _ _ (bit_and-pow_suc i x)) ∙ unfold has testb in has-pow i (x / 2)

bit_or_comm_below : (n a b : ℕ) → a ≤ n → b ≤ n → bit_or a b ≡ bit_or b a
bit_or_comm_below zero zero zero h k = refl
bit_or_comm_below zero zero (suc b) h k = elim k [ ]
bit_or_comm_below zero (suc a) b h k = elim h [ ]
bit_or_comm_below (suc n) a b h k = omega (
  arith,
  bit_or_step a b,
  bit_or_step b a,
  bit_or_comm_below n (a / 2) (b / 2) (omega arith) (omega arith),
)

pub bit_or_comm : (a b : ℕ) → bit_or a b ≡ bit_or b a
bit_or_comm a b = bit_or_comm_below (a + b) a b (omega arith) (omega arith)

times_one : (n : ℕ) → n * 2 ^ 0 ≡ n
times_one n = omega arith

over_one : (n : ℕ) → n / 2 ^ 0 ≡ n
over_one n = omega arith

div_pow_suc : (x j : ℕ) → x / 2 ^ suc j ≡ x / 2 / 2 ^ j
div_pow_suc x j = rw two_pow_suc (sym (div-div-eq-div-mul x 2 (2 ^ j)))

-- `x & (((1 << k) - 1) << j)` keeps the `k` bits above the lowest `j`.
pub bit_and_field : (j k x : ℕ) → bit_and x ((2 ^ k - 1) * 2 ^ j) ≡ x / 2 ^ j % 2 ^ k * 2 ^ j
bit_and_field zero k x = omega (
  arith,
  bit_and_low k x,
  ap (λ n. bit_and x n) (times_one (2 ^ k - 1)),
  ap (λ n. n % 2 ^ k) (over_one x),
)
bit_and_field (suc j) k x = omega (
  arith,
  bit_and_step x ((2 ^ k - 1) * 2 ^ suc j),
  mul_two_pow_suc (2 ^ k - 1) j,
  mul_two_pow_suc (x / 2 ^ suc j % 2 ^ k) j,
  ap (λ n. bit_and (x / 2) n) (half_shift (2 ^ k - 1) j),
  ap (λ n. n % 2 ^ k * 2 ^ j) (div_pow_suc x j),
  bit_and_field j k (x / 2),
)

pub testb-zero : (i : ℕ) → testb 0 i ≡ false
unfolding testb
testb-zero zero = refl
testb-zero (suc i) = testb-zero i

==_suc : (i k : ℕ) → (suc i == suc k) ≡ (i == k)
==_suc i k = ground arith

-- A power of two is one bit.
pub testb-pow : (k i : ℕ) → testb (2 ^ k) i ≡ (i == k)
unfolding testb
testb-pow zero zero = refl
testb-pow zero (suc i) = testb-zero i ∙ ground arith
testb-pow (suc k) zero = ground (arith, two_pow_suc k)
testb-pow (suc k) (suc i) =
    ap (λ x. testb x i) (halve (2 ^ k) (2 ^ suc k) (two_pow_suc k)) ∙ testb-pow k i ∙ ground arith

-- The lowest `k` bits.
pub testb-ones : (k i : ℕ) → testb (2 ^ k - 1) i ≡ ltb i k
unfolding testb
testb-ones zero i = testb-zero i ∙ ground arith
testb-ones (suc k) zero = ground (arith, two_pow_suc k, one-le-pow k 2)
testb-ones (suc k) (suc i) =
    ap (λ x. testb x i) (omega (arith, two_pow_suc k, one-le-pow k 2))
    ∙ testb-ones k i
    ∙ ground arith
