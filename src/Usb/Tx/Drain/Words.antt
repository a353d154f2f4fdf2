-- ===== src/Usb/Tx/Drain/Words.antt =====
-- The words of a transmit descriptor, and the size in the first of them.
use rtw88_pub.Base.{
  ℕ, zero, suc, ◌+◌, ◌-◌, ◌%◌, ◌^◌, ◌<◌, ◌≡◌, refl, sym, ap, ap₂, ◌∙◌, arith, Bool, true, false,
  not, ◌&&◌, ◌||◌, List, [], ◌∷◌, ◌++◌, All, bit_and, bit_or, bit_or_field, bit_and_low, bit_or-lt,
  bit_and-lt, bit_or_comm, testb, testb_ext, testb-or, testb-and, testb-not, not32, ◌<<◌, length,
  drop, get_or, replicate, le16dec, le32dec, le32enc, length-drop,
}
use rtw88_pub.Usb.Mailbox.{bit_of}
use rtw88_pub.Usb.Tx.{Mbuf}
use rtw88_pub.Usb.Firmware.Packet.{tx_pkt_desc_sz}
use rtw88_pub.Usb.Firmware.Packet.Checksum.{testb_zero}
use rtw88_pub.Usb.Tx.Drain.{Peers, words, size_word, data_txdesc, mgmt_txdesc, resized}

abbrev IsByte : ℕ → Type 0
IsByte b = b < 2 ^ 8

-- A descriptor whose checksum is not filled in yet.
abbrev pub IsDesc : List ℕ → ℕ → Type 0
IsDesc desc size =
    (length desc ≡ tx_pkt_desc_sz)
    × All IsByte desc
    × (get_or desc 28 0 ≡ 0)
    × (get_or desc 29 0 ≡ 0)
    × (le16dec desc 0 ≡ size)

All-append : (xs ys : List ℕ) → All IsByte xs → All IsByte ys → All IsByte (xs ++ ys)
All-append [] ys h k = k
All-append (x ∷ xs) ys h k = (h.0, All-append xs ys h.1 k)

All-drop : (n : ℕ) (xs : List ℕ) → All IsByte xs → All IsByte (drop n xs)
All-drop zero xs h = h
All-drop (suc n) [] h = tt
All-drop (suc n) (x ∷ xs) h = All-drop n xs h.1

All-zeros : (n : ℕ) → All IsByte (replicate n 0)
All-zeros zero = tt
All-zeros (suc n) = (omega arith, All-zeros n)

le32enc-bytes : (w : ℕ) → All IsByte (le32enc w)
le32enc-bytes w = (omega arith, (omega arith, (omega arith, (omega arith, tt))))

get_or-drop : (n i : ℕ) (xs : List ℕ) → get_or (drop n xs) i 0 ≡ get_or xs (n + i) 0
get_or-drop zero i xs = ap (λ k. get_or xs k 0) (omega arith)
get_or-drop (suc n) i [] = refl
get_or-drop (suc n) i (x ∷ xs) = get_or-drop n i xs ∙ ap (λ k. get_or (x ∷ xs) k 0) shift
  where
    shift : suc (n + i) ≡ suc n + i
    shift = omega arith

-- The lowest bits of `x` are those of `x % 2 ^ 16`.
testb_mod : (x i : ℕ) → i < 16 → testb (x % 2 ^ 16) i ≡ testb x i
testb_mod x i h =
    ap (λ y. testb y i) (sym (bit_and_low 16 x))
    ∙ testb-and i x (2 ^ 16 - 1)
    ∙ ones (testb x i) (testb (2 ^ 16 - 1) i)
        (testb-not 16 i 0 h (omega arith) ∙ ap not (testb_zero i))
  where
    ones : (b m : Bool) → m ≡ not false → (b && m) ≡ b
    ones true m e = e
    ones false m e = refl

bit_or_mod : (a b : ℕ) → bit_or a b % 2 ^ 16 ≡ bit_or (a % 2 ^ 16) (b % 2 ^ 16)
bit_or_mod a b =
    testb_ext 16 _ _ (omega arith)
      (bit_or-lt 16 (a % 2 ^ 16) (b % 2 ^ 16) (omega arith) (omega arith))
      λ i h.
        testb_mod (bit_or a b) i h
        ∙ testb-or i a b
        ∙ sym (
            testb-or i (a % 2 ^ 16) (b % 2 ^ 16)
            ∙ ap₂ (λ x y. x || y) (testb_mod a i h) (testb_mod b i h))

bit_and_mod : (a b : ℕ) → bit_and a b % 2 ^ 16 ≡ bit_and (a % 2 ^ 16) (b % 2 ^ 16)
bit_and_mod a b =
    testb_ext 16 _ _ (omega arith) (bit_and-lt 16 (a % 2 ^ 16) (b % 2 ^ 16) (omega arith)) λ i h.
      testb_mod (bit_and a b) i h
      ∙ testb-and i a b
      ∙ sym (
          testb-and i (a % 2 ^ 16) (b % 2 ^ 16)
          ∙ ap₂ (λ x y. x && y) (testb_mod a i h) (testb_mod b i h))

bit_or_none : (a : ℕ) → a < 2 ^ 16 → bit_or a 0 ≡ a
bit_or_none a h = omega (arith, bit_or_field 16 a 0 h)

-- What stands above the lowest 16 bits does not change them.
or_above : (a b : ℕ) → b % 2 ^ 16 ≡ 0 → bit_or a b % 2 ^ 16 ≡ a % 2 ^ 16
or_above a b h =
    bit_or_mod a b ∙ ap (bit_or (a % 2 ^ 16)) h ∙ bit_or_none (a % 2 ^ 16) (omega arith)

size_word-low : (size : ℕ) (bmc : Bool) → size < 2 ^ 16 → size_word size bmc % 2 ^ 16 ≡ size
size_word-low size bmc h =
    or_above _ (bit_of bmc << 24) (group bmc)
    ∙ or_above _ (2 ^ 26) refl
    ∙ or_above (bit_and size 0xffff) (tx_pkt_desc_sz << 16) refl
    ∙ ap (λ w. w % 2 ^ 16) (bit_and_low 16 size)
    ∙ small size h
  where
    group : (b : Bool) → (bit_of b << 24) % 2 ^ 16 ≡ 0
    group true = refl
    group false = refl

    small : (n : ℕ) → n < 2 ^ 16 → n % 2 ^ 16 % 2 ^ 16 ≡ n
    small n h = omega arith

abbrev encoded : List ℕ → List ℕ
encoded [] = replicate 8 0
encoded (w ∷ ws) = le32enc w ++ encoded ws

encoded-bytes : (ws : List ℕ) → All IsByte (encoded ws)
encoded-bytes [] = All-zeros 8
encoded-bytes (w ∷ ws) = All-append (le32enc w) (encoded ws) (le32enc-bytes w) (encoded-bytes ws)

words-IsDesc :
    (w0 w1 w2 w3 w4 w6 w8 w9 size : ℕ)
    → w0 % 2 ^ 16 ≡ size
    → IsDesc (words w0 w1 w2 w3 w4 w6 w8 w9) size
words-IsDesc w0 w1 w2 w3 w4 w6 w8 w9 size h = (
  refl,
  encoded-bytes (w0 ∷ w1 ∷ w2 ∷ w3 ∷ w4 ∷ 0 ∷ w6 ∷ 0 ∷ w8 ∷ w9 ∷ []),
  refl,
  refl,
  omega (arith, h),
)

pub resized-IsDesc :
    (desc : List ℕ) (old size : ℕ)
    → size < 2 ^ 16
    → IsDesc desc old
    → IsDesc (resized size desc) size
unfolding resized
resized-IsDesc desc old size h d = (
  omega (arith, length-drop 4 desc, d.0),
  All-append (le32enc w) (drop 4 desc) (le32enc-bytes w) (All-drop 4 desc d.1),
  get_or-drop 4 24 desc ∙ d.2,
  get_or-drop 4 25 desc ∙ d.3,
  omega (arith, low),
)
  where
    w : ℕ
    w = bit_or (bit_and (le32dec desc 0) (not32 0xffff)) (bit_and size 0xffff)

    none_low : bit_and (le32dec desc 0) (not32 0xffff) % 2 ^ 16 ≡ 0
    none_low =
        bit_and_mod (le32dec desc 0) (not32 0xffff)
        ∙ omega (arith, bit_and_low 0 (le32dec desc 0 % 2 ^ 16))

    low : w % 2 ^ 16 ≡ size
    low =
        ap (λ v. v % 2 ^ 16) (bit_or_comm _ (bit_and size 0xffff))
        ∙ or_above (bit_and size 0xffff) _ none_low
        ∙ omega (arith, bit_and_low 16 size)

pub data_txdesc-IsDesc :
    (peers : Peers) (ampdu : Bool) (rate_id sn : ℕ) (eapol : Bool) (size : ℕ) (m : Mbuf)
    → size < 2 ^ 16
    → IsDesc (data_txdesc peers ampdu rate_id sn eapol size m) size
unfolding data_txdesc
data_txdesc-IsDesc peers ampdu rate_id sn eapol size m h =
    words-IsDesc _ _ _ _ 4 _ 0 _ size (size_word-low size _ h)

pub mgmt_txdesc-IsDesc :
    (size : ℕ) (bytes : List ℕ) → size < 2 ^ 16 → IsDesc (mgmt_txdesc size bytes) size
unfolding mgmt_txdesc
mgmt_txdesc-IsDesc size bytes h =
    words-IsDesc _ (bit_or (0x12 << 8) (8 << 16)) 0x00080000 (bit_or (2 ^ 8) (2 ^ 10)) 0 0x38 0x8000
      0 size (or_above _ (2 ^ 31) refl ∙ size_word-low size _ h)
