-- ===== src/Usb/Rx/Frame/Ccmp.antt =====
-- Frames that the chip has decrypted.
use mathlib.Core.List.{append_assoc}
use rtw88_pub.Base.{
  ℕ, ◌+◌, ◌-◌, ◌≤◌, ◌≡◌, refl, sym, ap, ap₂, ◌∙◌, arith, true, false, List, ◌++◌, bit_and, has, ltb,
  length, get_or, take, drop, set, length-append, get_or-append_left, set-append_left,
  take_all-append, drop-append,
}
use rtw88_pub.Usb.Rx.Frame.{unprotected, without_iv, rx_strip_hw_ccmp}

-- What the chip hands over: the header, the IV, the plaintext and the MIC.
abbrev pub hardware : (hdr iv payload mic : List ℕ) → List ℕ
hardware hdr iv payload mic = hdr ++ (iv ++ (payload ++ mic))

length-hardware :
    (hdr iv payload mic : List ℕ)
    → length (hardware hdr iv payload mic) ≡ length hdr + length iv + length payload + length mic
length-hardware hdr iv payload mic = omega (
  arith,
  length-append hdr (iv ++ (payload ++ mic)),
  length-append iv (payload ++ mic),
  length-append payload mic,
)

drop-hardware :
    (hdr iv rest : List ℕ) → length iv ≡ 8 → drop (length hdr + 8) (hdr ++ (iv ++ rest)) ≡ rest
drop-hardware hdr iv rest e =
    ap₂ (λ n bytes. drop n bytes) (omega (arith, e, length-append hdr iv))
      (sym (append_assoc hdr iv rest))
    ∙ drop-append (hdr ++ iv) rest

without_iv-hardware :
    (hdr iv payload mic : List ℕ)
    → length iv ≡ 8
    → length mic ≡ 8
    → without_iv (length hdr) (hardware hdr iv payload mic) ≡ hdr ++ payload
without_iv-hardware hdr iv payload mic e f =
    let count : length (hardware hdr iv payload mic) - 8 - 8 ≡ length (hdr ++ payload) =
      omega (arith, length-hardware hdr iv payload mic, length-append hdr payload, e, f) in
    ap₂ (λ n bytes. take n bytes) count
      (ap₂ (λ (xs ys : List ℕ). xs ++ ys) (take_all-append hdr (iv ++ (payload ++ mic)))
          (drop-hardware hdr iv (payload ++ mic) e)
        ∙ sym (append_assoc hdr payload mic))
    ∙ take_all-append (hdr ++ payload) mic

-- A protected frame that the chip decrypted loses its IV and its MIC and the protected flag, and
-- keeps the header otherwise and the plaintext, so net80211 does not decrypt it again. The header has
-- 24 bytes at least and the length that net80211 reads in the frame, the IV and the MIC have eight.
pub rx_strip_hw_ccmp-hardware :
    (anyhdrsize : List ℕ → ℕ) (hdr iv payload mic : List ℕ)
    → 24 ≤ length hdr
    → length iv ≡ 8
    → length mic ≡ 8
    → anyhdrsize (hardware hdr iv payload mic) ≡ length hdr
    → has (get_or hdr 1 0) 0x40 ≡ true
    → rx_strip_hw_ccmp anyhdrsize (hardware hdr iv payload mic) ≡ unprotected hdr ++ payload
unfolding rx_strip_hw_ccmp
rx_strip_hw_ccmp-hardware anyhdrsize hdr iv payload mic long e f size protected =
    let all = hardware hdr iv payload mic in
    let flag : get_or all 1 0 ≡ get_or hdr 1 0 =
      get_or-append_left hdr (iv ++ (payload ++ mic)) 1 0 (omega arith) in
    let l = length-hardware hdr iv payload mic in
    let a : ltb (length all) (24 + 8 + 8) ≡ false = ground (arith, l, e, f) in
    let b : ltb (length all) (length hdr + 8 + 8) ≡ false = ground (arith, l, e, f) in
    rw (a, flag, protected, size, b, without_iv-hardware hdr iv payload mic e f)
      (ap₂ (λ v bytes. set bytes 1 v)
          (ap (λ v. bit_and v 0xbf) (get_or-append_left hdr payload 1 0 (omega arith))) refl
        ∙ set-append_left hdr payload 1 (bit_and (get_or hdr 1 0) 0xbf) (omega arith))
