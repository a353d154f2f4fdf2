-- ===== src/Base/Words.antt =====
-- Unsigned words of C as native numbers, and the byte orders of <sys/endian.h>.
use Prim.Native.Nat.{ℕ, ◌+◌, ◌-◌, ◌*◌, ◌/◌, ◌%◌, ◌^◌}
use mathlib.Core.List.{List, [], ◌∷◌}
use rtw88_pub.Base.Lists.{get_or}

abbrev pub u8 : ℕ → ℕ
u8 n = n % 2 ^ 8

abbrev pub u16 : ℕ → ℕ
u16 n = n % 2 ^ 16

abbrev pub u32 : ℕ → ℕ
u32 n = n % 2 ^ 32

-- `~x` at 8, 16 and 32 bits.
abbrev pub not8 : ℕ → ℕ
not8 x = 2 ^ 8 - 1 - x

abbrev pub not16 : ℕ → ℕ
not16 x = 2 ^ 16 - 1 - x

abbrev pub not32 : ℕ → ℕ
not32 x = 2 ^ 32 - 1 - x

infixl 62 ◌<<◌ ◌>>>◌
-- `x << k` on a value that does not reach the top of its word, and `x >> k`.
abbrev pub ◌<<◌ : ℕ → ℕ → ℕ
x << k = x * 2 ^ k

abbrev pub ◌>>>◌ : ℕ → ℕ → ℕ
x >>> k = x / 2 ^ k

-- `le16dec` and `le32dec` of the bytes at an offset.
abbrev pub le16dec : List ℕ → ℕ → ℕ
le16dec p i = get_or p i 0 + get_or p (i + 1) 0 * 2 ^ 8

abbrev pub le32dec : List ℕ → ℕ → ℕ
le32dec p i =
    get_or p i 0
    + get_or p (i + 1) 0 * 2 ^ 8
    + get_or p (i + 2) 0 * 2 ^ 16
    + get_or p (i + 3) 0 * 2 ^ 24

abbrev pub le16enc : ℕ → List ℕ
le16enc v = v % 256 ∷ v / 2 ^ 8 % 256 ∷ []

abbrev pub le32enc : ℕ → List ℕ
le32enc v = v % 256 ∷ v / 2 ^ 8 % 256 ∷ v / 2 ^ 16 % 256 ∷ v / 2 ^ 24 % 256 ∷ []
