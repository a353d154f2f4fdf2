-- ===== src/Usb/Cam/Entry.antt =====
-- The entry of the key cache, read back field by field.
use rtw88_pub.Base.{
  ℕ, ◌+◌, ◌*◌, ◌/◌, ◌%◌, ◌^◌, ◌<◌, ◌≡◌, refl, ◌∙◌, ap, arith, List, [], ◌∷◌, bit_and, All, ltb,
  if◌then◌else◌, bit_and_low, get_or, le32enc, Bool-cases, inl, inr, zero, suc,
}
use rtw88_pub.Usb.Mailbox.{bit_of}
use rtw88_pub.Usb.Mailbox.Fields.{add_field, low_two, bit_of-lt}
use rtw88_pub.Usb.Cam.{
  CamKey, cam_mac, clipped, or_byte, key_word, head_word, mac_word, cam_content,
}

low_three : (x : ℕ) → bit_and x 0x7 ≡ x % 8
low_three x = bit_and_low 3 x

abbrev pub AreBytes : List ℕ → Type 0
AreBytes bytes = All (λ b. b < 256) bytes

get_or-byte : (bytes : List ℕ) (i : ℕ) → AreBytes bytes → get_or bytes i 0 < 256
get_or-byte [] i h = omega arith
get_or-byte (b ∷ bytes) zero h = h.0
get_or-byte (b ∷ bytes) (suc i) h = get_or-byte bytes i h.1

-- A byte of the key as the chip gets it: zero behind the length, and behind 16.
abbrev pub padded : CamKey → ℕ → ℕ
padded k i = if ltb i (clipped k.keylen) then get_or k.key i 0 else 0

padded-lt : (k : CamKey) (i : ℕ) → AreBytes k.key → padded k i < 256
padded-lt k i h = ground (arith, get_or-byte k.key i h)

or_byte-sum :
    (k : CamKey) (j shift content r : ℕ)
    → r < 2 ^ shift
    → content ≡ r
    → or_byte k j shift content ≡ r + padded k j * 2 ^ shift
or_byte-sum k j shift content r h e = elim (Bool-cases (ltb j (clipped k.keylen))) [
  | inl t ↦ rw t (add_field shift (get_or k.key j 0) content r h e)
  | inr f ↦ rw f (omega (arith, e))
]

four :
    (a b c d a' b' c' d' : ℕ)
    → a ≡ a'
    → b ≡ b'
    → c ≡ c'
    → d ≡ d'
    → a ∷ b ∷ c ∷ d ∷ [] ≡ a' ∷ b' ∷ c' ∷ d' ∷ []
four a b c d a' b' c' d' e f g h = cc

plus_zero : (j : ℕ) → j + 0 ≡ j
plus_zero j = omega arith

key_word-sum :
    (k : CamKey) (j : ℕ)
    → AreBytes k.key
    → key_word k j
      ≡ padded k j
        + padded k (j + 1) * 2 ^ 8
        + padded k (j + 2) * 2 ^ 16
        + padded k (j + 3) * 2 ^ 24
unfolding key_word
key_word-sum k j h =
    let a = padded-lt k j h in
    let b = padded-lt k (j + 1) h in
    let c = padded-lt k (j + 2) h in
    let first : 0 + padded k (j + 0) * 2 ^ 0 ≡ padded k j =
      omega (arith, ap (padded k) (plus_zero j)) in
    or_byte-sum k (j + 3) 24 _ _ (omega (arith, a, b, c)) (
      or_byte-sum k (j + 2) 16 _ _ (omega (arith, a, b)) (
        or_byte-sum k (j + 1) 8 _ _ (omega (arith, a))
          (or_byte-sum k (j + 0) 0 0 0 (omega arith) refl ∙ first)))

head_sum :
    (k : CamKey)
    → AreBytes (cam_mac k)
    → head_word k
      ≡ k.keyidx % 4
        + k.kind % 8 * 2 ^ 2
        + bit_of k.group * 2 ^ 6
        + 1 * 2 ^ 15
        + get_or (cam_mac k) 0 0 * 2 ^ 16
        + get_or (cam_mac k) 1 0 * 2 ^ 24
unfolding head_word
head_sum k h =
    let group = bit_of-lt k.group in
    let a = get_or-byte (cam_mac k) 0 h in
    rw (low_two k.keyidx, low_three k.kind)
      (add_field 24 _ _ _ (omega (arith, a, group)) (
        add_field 16 _ _ _ (omega (arith, group)) (
          add_field 15 1 _ _ (omega (arith, group))
            (add_field 6 _ _ _ (omega arith) (add_field 2 _ _ _ (omega arith) refl)))))

mac_sum :
    (k : CamKey)
    → AreBytes (cam_mac k)
    → mac_word k
      ≡ get_or (cam_mac k) 2 0
        + get_or (cam_mac k) 3 0 * 2 ^ 8
        + get_or (cam_mac k) 4 0 * 2 ^ 16
        + get_or (cam_mac k) 5 0 * 2 ^ 24
unfolding mac_word
mac_sum k h =
    let a = get_or-byte (cam_mac k) 2 h in
    let b = get_or-byte (cam_mac k) 3 h in
    let c = get_or-byte (cam_mac k) 4 h in
    add_field 24 _ _ _ (omega (arith, a, b, c))
      (add_field 16 _ _ _ (omega (arith, a, b)) (add_field 8 _ _ _ (omega (arith, a)) refl))

key_word-bytes :
    (k : CamKey) (j : ℕ)
    → AreBytes k.key
    → le32enc (key_word k j)
      ≡ padded k j ∷ padded k (j + 1) ∷ padded k (j + 2) ∷ padded k (j + 3) ∷ []
key_word-bytes k j h =
    let sum = key_word-sum k j h in
    let a = padded-lt k j h in
    let b = padded-lt k (j + 1) h in
    let c = padded-lt k (j + 2) h in
    let d = padded-lt k (j + 3) h in
    four _ _ _ _ _ _ _ _ (omega (arith, sum, a, b, c, d)) (omega (arith, sum, a, b, c, d))
      (omega (arith, sum, a, b, c, d)) (omega (arith, sum, a, b, c, d))

mac_word-bytes :
    (k : CamKey)
    → AreBytes (cam_mac k)
    → le32enc (mac_word k)
      ≡ get_or (cam_mac k) 2 0
        ∷ get_or (cam_mac k) 3 0
        ∷ get_or (cam_mac k) 4 0
        ∷ get_or (cam_mac k) 5 0
        ∷ []
mac_word-bytes k h =
    let sum = mac_sum k h in
    let a = get_or-byte (cam_mac k) 2 h in
    let b = get_or-byte (cam_mac k) 3 h in
    let c = get_or-byte (cam_mac k) 4 h in
    let d = get_or-byte (cam_mac k) 5 h in
    four _ _ _ _ _ _ _ _ (omega (arith, sum, a, b, c, d)) (omega (arith, sum, a, b, c, d))
      (omega (arith, sum, a, b, c, d)) (omega (arith, sum, a, b, c, d))

-- The eight words of an entry hold what the entry is for, each field at its place and apart from the
-- others: the low two bits of the key index, the low three of the type, the group flag, the valid
-- flag, the six bytes of the address, and the key: sixteen bytes in their order, with zeros behind
-- the key's length. The last two words are zero. The address and the key are given as bytes.
pub cam_content-fields :
    (k : CamKey)
    → AreBytes (cam_mac k)
    → AreBytes k.key
    → let w = cam_content k in
      let mac : ℕ → ℕ = λ i. get_or (cam_mac k) i 0 in
      (w 0 % 2 ^ 2 ≡ k.keyidx % 4)
      × (w 0 / 2 ^ 2 % 2 ^ 3 ≡ k.kind % 8)
      × (w 0 / 2 ^ 6 % 2 ≡ bit_of k.group)
      × (w 0 / 2 ^ 15 % 2 ≡ 1)
      × (w 0 / 2 ^ 16 % 2 ^ 8 ≡ mac 0)
      × (w 0 / 2 ^ 24 ≡ mac 1)
      × (le32enc (w 1) ≡ mac 2 ∷ mac 3 ∷ mac 4 ∷ mac 5 ∷ [])
      × (le32enc (w 2) ≡ padded k 0 ∷ padded k 1 ∷ padded k 2 ∷ padded k 3 ∷ [])
      × (le32enc (w 3) ≡ padded k 4 ∷ padded k 5 ∷ padded k 6 ∷ padded k 7 ∷ [])
      × (le32enc (w 4) ≡ padded k 8 ∷ padded k 9 ∷ padded k 10 ∷ padded k 11 ∷ [])
      × (le32enc (w 5) ≡ padded k 12 ∷ padded k 13 ∷ padded k 14 ∷ padded k 15 ∷ [])
      × (w 6 ≡ 0)
      × (w 7 ≡ 0)
unfolding cam_content
cam_content-fields k m h =
    let sum = head_sum k m in
    let group = bit_of-lt k.group in
    let a = get_or-byte (cam_mac k) 0 m in
    let b = get_or-byte (cam_mac k) 1 m in
    (
      omega (arith, sum, group, a, b),
      omega (arith, sum, group, a, b),
      omega (arith, sum, group, a, b),
      omega (arith, sum, group, a, b),
      omega (arith, sum, group, a, b),
      omega (arith, sum, group, a, b),
      mac_word-bytes k m,
      key_word-bytes k 0 h,
      key_word-bytes k 4 h,
      key_word-bytes k 8 h,
      key_word-bytes k 12 h,
      refl,
      refl,
    )
