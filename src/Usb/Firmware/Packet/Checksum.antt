-- ===== src/Usb/Firmware/Packet/Checksum.antt =====
-- The checksum of a transmit descriptor.
use Prim.Native.Nat.{differ}
use native.Mathlib.Nat.{pow-suc}
use native.Mathlib.Decide.{dec_lt}
use rtw88_pub.Base.{
  ℕ, zero, suc, ◌+◌, ◌*◌, ◌/◌, ◌%◌, ◌^◌, ◌≤◌, ◌<◌, ◌≡◌, ◌≢◌, refl, sym, ap, ap₂, ◌∙◌, arith, Bool,
  true, false, List, [], ◌∷◌, All, bit_xor, bit_xor_step, testb, testb_ext, length, get_or, set,
  le16dec, get_or-set_self, get_or-set_ne, length-set, ◌==◌,
}
use rtw88_pub.Usb.Firmware.Packet.{xor_words, txdesc_checksum, fill_checksum}

abbrev differs : Bool → Bool → Bool
differs true true = false
differs true false = true
differs false b = b

differ_bits :
    (a b : ℕ)
    → (differ (a % 2) (b % 2) < 2)
      × ((differ (a % 2) (b % 2) == 1) ≡ differs (a % 2 == 1) (b % 2 == 1))
differ_bits a b = elim (dec_lt (a % 2) 1) [
  | yes low ↦ elim (dec_lt (b % 2) 1) [
    | yes low' ↦ at 0 0 (omega arith) (omega arith) (omega arith) refl
    | no high' ↦ at 0 1 (omega arith) (omega arith) (omega arith) refl
  ]
  | no high ↦ elim (dec_lt (b % 2) 1) [
    | yes low' ↦ at 1 0 (omega arith) (omega arith) (omega arith) refl
    | no high' ↦ at 1 1 (omega arith) (omega arith) (omega arith) refl
  ]
]
  where
    at :
        (x y : ℕ)
        → a % 2 ≡ x
        → b % 2 ≡ y
        → differ x y < 2
        → (differ x y == 1) ≡ differs (x == 1) (y == 1)
        → (differ (a % 2) (b % 2) < 2)
          × ((differ (a % 2) (b % 2) == 1) ≡ differs (a % 2 == 1) (b % 2 == 1))
    at x y ex ey small bit = rw (ex, ey) (small, bit)

testb-xor : (i a b : ℕ) → testb (bit_xor a b) i ≡ differs (testb a i) (testb b i)
unfolding testb
testb-xor zero a b = ground (arith, bit_xor_step a b, differ_bits a b)
testb-xor (suc i) a b = ap (λ x. testb x i) half ∙ testb-xor i (a / 2) (b / 2)
  where
    half : bit_xor a b / 2 ≡ bit_xor (a / 2) (b / 2)
    half = omega (arith, bit_xor_step a b, (differ_bits a b).0)

bit_xor-lt : (n a b : ℕ) → a < 2 ^ n → b < 2 ^ n → bit_xor a b < 2 ^ n
bit_xor-lt zero a b ha hb =
    let a0 : a ≡ 0 = omega arith in let b0 : b ≡ 0 = omega arith in rw (a0, b0) (omega arith)
bit_xor-lt (suc n) a b ha hb =
    let low : differ (a % 2) (b % 2) < 2 = (differ_bits a b).0 in
    let high : bit_xor (a / 2) (b / 2) < 2 ^ n =
      bit_xor-lt n (a / 2) (b / 2) (omega (arith, pow-suc 2 n)) (omega (arith, pow-suc 2 n)) in
    omega (arith, bit_xor_step a b, low, high, pow-suc 2 n)

-- The words from `i` on are all that a checksum looks at.
xor_words-agree :
    (d e : List ℕ) (n i chksum : ℕ)
    → ((j : ℕ) → i ≤ j → j < i + n → le16dec d (j * 2) ≡ le16dec e (j * 2))
    → xor_words d n i chksum ≡ xor_words e n i chksum
unfolding xor_words
xor_words-agree d e zero i chksum same = refl
xor_words-agree d e (suc n) i chksum same =
    ap (λ w. xor_words d n (i + 1) (bit_xor chksum w)) (same i (omega arith) (omega arith))
    ∙ xor_words-agree d e n (i + 1) _ (λ j lo hi. same j (omega arith) (omega arith))

xor_words-lt :
    (d : List ℕ) (n i chksum : ℕ)
    → ((j : ℕ) → le16dec d (j * 2) < 2 ^ 16)
    → chksum < 2 ^ 16
    → xor_words d n i chksum < 2 ^ 16
unfolding xor_words
xor_words-lt d zero i chksum words h = h
xor_words-lt d (suc n) i chksum words h =
    xor_words-lt d n (i + 1) _ words (bit_xor-lt 16 chksum _ h (words i))

bytes_word : (d : List ℕ) → All (λ b. b < 2 ^ 8) d → (j : ℕ) → le16dec d j < 2 ^ 16
bytes_word d small j = omega (arith, byte d j small, byte d (j + 1) small)
  where
    byte : (d : List ℕ) (i : ℕ) → All (λ b. b < 2 ^ 8) d → get_or d i 0 < 2 ^ 8
    byte [] i small = omega arith
    byte (x ∷ d) zero small = small.0
    byte (x ∷ d) (suc i) small = byte d i small.1

pub testb_zero : (i : ℕ) → testb 0 i ≡ false
unfolding testb
testb_zero zero = refl
testb_zero (suc i) = testb_zero i

differs_cancels : (x y z : Bool) → z ≡ false → differs (differs x (differs (differs x z) y)) y ≡ z
differs_cancels true true z h = rw h refl
differs_cancels true false z h = rw h refl
differs_cancels false true z h = rw h refl
differs_cancels false false z h = rw h refl

-- `(x ^ c) ^ y` vanishes where `c` is `(x ^ 0) ^ y`.
xor_cancels :
    (x y : ℕ) → x < 2 ^ 16 → y < 2 ^ 16 → bit_xor (bit_xor x (bit_xor (bit_xor x 0) y)) y ≡ 0
xor_cancels x y hx hy =
    testb_ext 16 _ 0
      (bit_xor-lt 16 _ y
        (bit_xor-lt 16 x _ hx (bit_xor-lt 16 _ y (bit_xor-lt 16 x 0 hx (omega arith)) hy)) hy)
      (omega arith) λ i k. bits i
  where
    bits : (i : ℕ) → testb (bit_xor (bit_xor x (bit_xor (bit_xor x 0) y)) y) i ≡ testb 0 i
    bits i =
        testb-xor i _ y
        ∙ ap (λ b. differs b (testb y i))
            (testb-xor i x _
              ∙ ap (differs (testb x i))
                  (testb-xor i _ y ∙ ap (λ b. differs b (testb y i)) (testb-xor i x 0)))
        ∙ differs_cancels (testb x i) (testb y i) (testb 0 i) (testb_zero i)

module _ (d : List ℕ) (c : ℕ) where
  abbrev filled : List ℕ
  filled = set (set d 28 (c % 256)) 29 (c / 2 ^ 8 % 256)

  filled-other : (i : ℕ) → i ≢ 28 → i ≢ 29 → get_or filled i 0 ≡ get_or d i 0
  filled-other i h k =
      get_or-set_ne (set d 28 (c % 256)) 29 i _ 0 (λ e. k (sym e))
      ∙ get_or-set_ne d 28 i _ 0 (λ e. h (sym e))

  filled-word : 32 ≤ length d → c < 2 ^ 16 → le16dec filled 28 ≡ c
  filled-word long small = omega (arith, low, high, small)
    where
      low : get_or filled 28 0 ≡ c % 256
      low =
          get_or-set_ne (set d 28 (c % 256)) 29 28 _ 0 (λ e. cc)
          ∙ get_or-set_self d 28 _ 0 (omega (arith, long))

      high : get_or filled 29 0 ≡ c / 2 ^ 8 % 256
      high =
          get_or-set_self (set d 28 (c % 256)) 29 _ 0
            (omega (arith, long, length-set d 28 (c % 256)))

  filled-words :
      (n i : ℕ)
      → i + n ≤ 14
      → (j : ℕ) → i ≤ j
      → j < i + n
      → le16dec filled (j * 2) ≡ le16dec d (j * 2)
  filled-words n i room j lo hi =
      ap₂ (λ a b. a + b * 2 ^ 8) (filled-other (j * 2) (λ e. omega arith) (λ e. omega arith))
        (filled-other (j * 2 + 1) (λ e. omega arith) (λ e. omega arith))

-- A descriptor whose checksum field was zero adds up to zero once it is filled in, as the chip checks
-- it: the exclusive or of its first 16 words, the field included, is 0. The descriptor is assumed to
-- be bytes, at least the 32 that are added up.
pub txdesc_checksum-fill_checksum :
    (d : List ℕ)
    → All (λ b. b < 2 ^ 8) d
    → 32 ≤ length d
    → get_or d 28 0 ≡ 0
    → get_or d 29 0 ≡ 0
    → txdesc_checksum (fill_checksum d) ≡ 0
unfolding txdesc_checksum fill_checksum xor_words
txdesc_checksum-fill_checksum d small long z28 z29 =
    ap₂ bit_xor (ap₂ bit_xor before field) behind
    ∙ xor_cancels x y (xor_words-lt d 14 0 0 words (omega arith)) (bytes_word d small 30)
  where
    x : ℕ
    x = xor_words d 14 0 0

    y : ℕ
    y = le16dec d 30

    c : ℕ
    c = txdesc_checksum d

    words : (j : ℕ) → le16dec d (j * 2) < 2 ^ 16
    words j = bytes_word d small (j * 2)

    no_field : le16dec d 28 ≡ 0
    no_field = omega (arith, z28, z29)

    before : xor_words (filled d c) 14 0 0 ≡ x
    before = xor_words-agree (filled d c) d 14 0 0 (filled-words d c 14 0 (omega arith))

    field : le16dec (filled d c) 28 ≡ bit_xor (bit_xor x 0) y
    field =
        filled-word d c long (xor_words-lt d 16 0 0 words (omega arith))
        ∙ ap (λ w. bit_xor (bit_xor x w) y) no_field

    behind : le16dec (filled d c) 30 ≡ y
    behind =
        ap₂ (λ a b. a + b * 2 ^ 8) (filled-other d c 30 (λ e. cc) (λ e. cc))
          (filled-other d c 31 (λ e. cc) (λ e. cc))
