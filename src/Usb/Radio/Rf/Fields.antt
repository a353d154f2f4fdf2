-- ===== src/Usb/Radio/Rf/Fields.antt =====
-- The bits of the radio's register 0x18 for a channel.
use rtw88_pub.Base.{
  ℕ, ◌-◌, ◌^◌, ◌<◌, ◌≡◌, arith, Bool, true, false, not, ◌&&◌, ◌||◌, leb, ltb, ◌==◌, if◌then◌else◌,
  testb, testb-and, testb-or, testb-not, testb-pow, testb-ones, testb-zero, bit_and, bit_or,
}
use rtw88_pub.Usb.Radio.Rf.{
  channel_width_40, channel_width_80, rf18_band_mask, rf18_channel_mask, rf18_rfsi_mask,
  rf18_bw_mask, rf18_kept, rf18_bw, rf18_2g, rf18_rfsi, rf18_5g,
}

-- The bits that are replaced.
abbrev is_field : ℕ → Bool
is_field i = ltb i 12 || (leb 16 i && leb i 18)

two_bits : (j k i : ℕ) → testb (bit_or (2 ^ j) (2 ^ k)) i ≡ ((i == j) || (i == k))
two_bits j k i = ground (arith, testb-or i (2 ^ j) (2 ^ k), testb-pow j i, testb-pow k i)

testb-fields :
    (i : ℕ)
    → testb
        (bit_or (bit_or (bit_or rf18_band_mask rf18_channel_mask) rf18_rfsi_mask) rf18_bw_mask)
        i
      ≡ is_field i
testb-fields i = ground (
  arith,
  testb-or i (bit_or (bit_or rf18_band_mask rf18_channel_mask) rf18_rfsi_mask) rf18_bw_mask,
  testb-or i (bit_or rf18_band_mask rf18_channel_mask) rf18_rfsi_mask,
  testb-or i rf18_band_mask rf18_channel_mask,
  testb-or i (bit_or (2 ^ 16) (2 ^ 9)) (2 ^ 8),
  two_bits 16 9 i,
  testb-pow 8 i,
  testb-ones 8 i,
  two_bits 18 17 i,
  two_bits 11 10 i,
)

testb-kept : (old i : ℕ) → i < 32 → testb (rf18_kept old) i ≡ (testb old i && not (is_field i))
testb-kept old i h = ground (
  arith,
  testb-and i old (
      2 ^ 32
      - 1
      - bit_or (bit_or (bit_or rf18_band_mask rf18_channel_mask) rf18_rfsi_mask) rf18_bw_mask),
  testb-not 32 i
      (bit_or (bit_or (bit_or rf18_band_mask rf18_channel_mask) rf18_rfsi_mask) rf18_bw_mask) h
      (omega arith),
  testb-fields i,
)

testb-bw :
    (bw i : ℕ)
    → testb (rf18_bw bw) i ≡ (
        if i == 10 then not (bw == channel_width_40) else (i == 11) && not (bw == channel_width_80))
unfolding rf18_bw
testb-bw bw i = ground (arith, testb-pow 11 i, testb-pow 10 i, two_bits 11 10 i)

testb-rfsi :
    (channel i : ℕ)
    → testb (rf18_rfsi channel) i
      ≡ (if i == 17 then leb 100 channel && leb channel 140 else (i == 18) && ltb 140 channel)
unfolding rf18_rfsi
testb-rfsi channel i = ground (arith, testb-pow 17 i, testb-pow 18 i, testb-zero i)

testb-channel :
    (channel i : ℕ) → testb (bit_and channel rf18_channel_mask) i ≡ (testb channel i && ltb i 8)
testb-channel channel i = ground (arith, testb-and i channel 0xff, testb-ones 8 i)

-- What each bit of the register is for: the channel, the band, the width, and the range of the
-- channels at 5 GHz. The others are kept.
abbrev pub rf18_bit : Bool → (old channel bw i : ℕ) → Bool
rf18_bit is_5g old channel bw i =
    if ltb i 8
    then testb channel i
    else if (i == 8) || (i == 16)
    then is_5g
    else if i == 9
    then false
    else if i == 10
    then not (bw == channel_width_40)
    else if i == 11
    then not (bw == channel_width_80)
    else if i == 17
    then is_5g && (leb 100 channel && leb channel 140)
    else if i == 18
    then is_5g && ltb 140 channel
    else testb old i

-- The word that tunes the radio, whatever stood in the register: bits 0 to 7 are those of the channel,
-- bits 8 and 16 say 5 GHz, bit 9 is clear, bits 10 and 11 are the width (both for 20 MHz), bits 17 and
-- 18 the range of the channels from 100 to 140 and above 140 at 5 GHz, and every other bit is as it was.
pub rf18-bits :
    (old channel bw i : ℕ)
    → i < 32
    → (testb (rf18_2g old channel bw) i ≡ rf18_bit false old channel bw i)
      × (testb (rf18_5g old channel bw) i ≡ rf18_bit true old channel bw i)
unfolding rf18_2g rf18_5g
rf18-bits old channel bw i h = (
  ground (
    arith,
    testb-or i (bit_or (bit_or (rf18_kept old) 0) (bit_and channel rf18_channel_mask)) (rf18_bw bw),
    testb-or i (bit_or (rf18_kept old) 0) (bit_and channel rf18_channel_mask),
    testb-or i (rf18_kept old) 0,
    testb-zero i,
    testb-kept old i h,
    testb-channel channel i,
    testb-bw bw i,
  ),
  ground (
    arith,
    testb-or i
        (bit_or
          (bit_or (bit_or (rf18_kept old) (bit_or (2 ^ 16) (2 ^ 8)))
            (bit_and channel rf18_channel_mask))
          (rf18_bw bw))
        (rf18_rfsi channel),
    testb-or i
        (bit_or (bit_or (rf18_kept old) (bit_or (2 ^ 16) (2 ^ 8)))
          (bit_and channel rf18_channel_mask))
        (rf18_bw bw),
    testb-or i (bit_or (rf18_kept old) (bit_or (2 ^ 16) (2 ^ 8)))
        (bit_and channel rf18_channel_mask),
    testb-or i (rf18_kept old) (bit_or (2 ^ 16) (2 ^ 8)),
    two_bits 16 8 i,
    testb-kept old i h,
    testb-channel channel i,
    testb-bw bw i,
    testb-rfsi channel i,
  ),
)
