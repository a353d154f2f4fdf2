-- ===== src/Usb/Radio/Channel.antt =====
-- if_rtw88_usb.c: the MAC for a channel, and the switch of the whole radio to a channel,
-- rtw88_set_channel_mac and rtw88_phy_set_channel.
mod Safe
pub mod Tuned
use rtw88_pub.Base.{
  ℕ, ◌*◌, ◌^◌, Bool, true, ◌&&◌, ◌||◌, not, M, ◌>>=◌, ◌>>◌, pure, throw, einval, eopnotsupp, get,
  modify, ignore, when, bit_and, bit_or, not8, not32, has, leb, ltb, ◌==◌, ◌<<◌, if◌then◌else◌,
}
use rtw88_pub.Usb.Softc.{UsbDevice, Radio, Softc}
use rtw88_pub.Usb.Io.{read1, write1, write4, update1, update4}
use rtw88_pub.Usb.Mailbox.{h2c_wl_ch_info}
use rtw88_pub.Usb.Radio.Rf.{
  channel_width_20, channel_width_40, channel_width_80, set_channel_rf_2g, set_channel_rf_5g,
}
use rtw88_pub.Usb.Radio.Baseband.{set_channel_bb_2g, set_channel_bb_5g, set_channel_rxdfir}

abbrev pub cap_ht40 : ℕ
cap_ht40 = 2 ^ 1

abbrev pub cap_vht80 : ℕ
cap_vht80 = 2 ^ 2

abbrev pub cap_2ghz : ℕ
cap_2ghz = 2 ^ 3

abbrev pub cap_5ghz : ℕ
cap_5ghz = 2 ^ 4

-- The primary 40 MHz of a channel of 80 MHz: UPPER (1) and UPMOST (3) lie above.
unfoldable pub data_sc : (bw primary_ch_idx : ℕ) → ℕ
data_sc bw primary_ch_idx =
    let txsc40 =
      if bw == channel_width_80
      then if primary_ch_idx == 1 || primary_ch_idx == 3 then 1 else 2
      else 0 in
    bit_or (bit_and primary_ch_idx 0xf) (bit_and txsc40 0xf << 4)

unfoldable pub rfmod : (bw v : ℕ) → ℕ
rfmod bw v =
    let kept = bit_and v (not32 (bit_or (2 ^ 7) (2 ^ 8))) in
    if bw == channel_width_40
    then bit_or kept (2 ^ 7)
    else if bw == channel_width_80
    then bit_or kept (2 ^ 8)
    else kept

unfoldable pub cck_check : (channel b : ℕ) → ℕ
cck_check channel b =
    let kept = bit_and b (not8 (2 ^ 7)) in if ltb 14 channel then bit_or kept (2 ^ 7) else kept

-- The numbers of the channels: 1 to 14 and 36 to 177.
unfoldable pub is_channel : ℕ → Bool
is_channel channel = not (ltb channel 1 || (ltb 14 channel && ltb channel 36) || ltb 177 channel)

-- A width that the chip lacks becomes 20 MHz.
unfoldable pub is_too_wide : (caps bw : ℕ) → Bool
is_too_wide caps bw =
    (bw == channel_width_40 && not (has caps cap_ht40))
    || (bw == channel_width_80 && not (has caps cap_vht80))

unfoldable pub has_band : (caps channel : ℕ) → Bool
has_band caps channel = has caps (if ltb 14 channel then cap_5ghz else cap_2ghz)

module _ {W : Type 0} (usb : UsbDevice W) where
  unfoldable pub set_channel_mac : (channel bw primary_ch_idx : ℕ) → M (Softc W) (Unit {0})
  unfolding data_sc rfmod cck_check
  set_channel_mac channel bw primary_ch_idx = do
    write1 usb 0x0483 (data_sc bw primary_ch_idx)
    update4 usb 0x0668 (rfmod bw)
    update4 usb 0x0024 (λ v. bit_and v (not32 (bit_or (2 ^ 20) (2 ^ 21))))
    write1 usb 0x055c 0x50
    write1 usb 0x0638 0x50
    update1 usb 0x0454 (cck_check channel)

  -- The power of each rate, at 2.4 GHz.
  unfoldable pub txagc : M (Softc W) (Unit {0})
  txagc = do
    ignore (write4 usb 0x1d00 0x2d2d2d2d)
    ignore (write4 usb 0x1d04 0x35353535)
    ignore (write4 usb 0x1d08 0x2f313335)
    ignore (write4 usb 0x1d0c 0x33333333)
    ignore (write4 usb 0x1d10 0x2d2f3133)
    ignore (write4 usb 0x1d2c 0x35373737)
    ignore (write4 usb 0x1d30 0x2d2f3133)
    ignore (write4 usb 0x1d34 0x0000292b)

  unfoldable pub tune_bb : (channel bw primary_ch_idx : ℕ) → M (Softc W) (Unit {0})
  tune_bb channel bw primary_ch_idx =
      if ltb 14 channel
      then set_channel_bb_5g usb channel bw primary_ch_idx
      else set_channel_bb_2g usb channel bw primary_ch_idx

  unfoldable pub tune_rf : (channel bw : ℕ) → M (Softc W) (Unit {0})
  tune_rf channel bw =
      if ltb 14 channel then set_channel_rf_5g usb channel bw else set_channel_rf_2g usb channel bw

  -- What follows the last step that can fail.
  unfoldable pub tuned : (channel bw primary_ch_idx : ℕ) → M (Softc W) (Unit {0})
  unfolding txagc
  tuned channel bw primary_ch_idx = do
    modify (λ (s : Softc W). record s {
      radio = record s.radio { cur_bw = bw; cur_primary_ch_idx = primary_ch_idx };
    })
    ignore (h2c_wl_ch_info usb 0 channel 0)
    ignore (write1 usb 0x0420 0x80)
    ignore (write1 usb (0x0421) 0x1f)
    when (not (ltb 14 channel)) txagc
    modify (λ (s : Softc W). record s { radio = record s.radio { cur_channel = channel } })

  unfoldable pub tune : (channel bw primary_ch_idx : ℕ) → M (Softc W) (Unit {0})
  unfolding tune_bb set_channel_mac tune_rf tuned
  tune channel bw primary_ch_idx = do
    tune_bb channel bw primary_ch_idx
    set_channel_mac channel bw primary_ch_idx
    tune_rf channel bw
    set_channel_rxdfir usb bw
    tuned channel bw primary_ch_idx

  unfoldable pub tune_within : (caps channel bw primary_ch_idx : ℕ) → M (Softc W) (Unit {0})
  unfolding is_channel has_band is_too_wide tune
  tune_within caps channel bw primary_ch_idx =
      if not (is_channel channel)
      then throw einval
      else if not (has_band caps channel)
      then throw eopnotsupp
      else if is_too_wide caps bw
      then tune channel channel_width_20 0
      else tune channel bw primary_ch_idx

  unfoldable pub phy_set_channel : (channel bw primary_ch_idx : ℕ) → M (Softc W) (Unit {0})
  unfolding tune_within
  phy_set_channel channel bw primary_ch_idx = do
    sc ← get
    tune_within sc.radio.caps channel bw primary_ch_idx
