-- ===== src/Usb/Radio/Rf.antt =====
-- if_rtw88_usb.c: the registers of the radio on path A, the switch between the bands, and the tuning
-- of the radio to a channel.
pub mod Fields
use rtw88_pub.Base.{
  ℕ, zero, suc, ◌+◌, ◌/◌, ◌%◌, ◌^◌, Bool, ◌&&◌, M, ◌>>=◌, ◌>>◌, pure, get, bit_and, bit_or, u16,
  not32, leb, ltb, ◌==◌, ◌<<◌, if◌then◌else◌,
}
use rtw88_pub.Usb.Softc.{UsbDevice, Softc}
use rtw88_pub.Usb.Io.{read4, write4, update4, setbits1}
use rtw88_pub.Usb.Phy.{phy_write_rf_a}

abbrev pub rfreg_mask : ℕ
rfreg_mask = 0xfffff

abbrev pub channel_width_20 : ℕ
channel_width_20 = 0

abbrev pub channel_width_40 : ℕ
channel_width_40 = 1

abbrev pub channel_width_80 : ℕ
channel_width_80 = 2

-- The fields of the radio's register 0x18.
abbrev pub rf18_band_mask : ℕ
rf18_band_mask = bit_or (bit_or (2 ^ 16) (2 ^ 9)) (2 ^ 8)

abbrev pub rf18_channel_mask : ℕ
rf18_channel_mask = 0xff

abbrev pub rf18_rfsi_mask : ℕ
rf18_rfsi_mask = bit_or (2 ^ 18) (2 ^ 17)

abbrev pub rf18_bw_mask : ℕ
rf18_bw_mask = bit_or (2 ^ 11) (2 ^ 10)

abbrev pub rf18_kept : ℕ → ℕ
rf18_kept old =
    bit_and old (
      not32 (bit_or (bit_or (bit_or rf18_band_mask rf18_channel_mask) rf18_rfsi_mask) rf18_bw_mask))

unfoldable pub rf18_bw : ℕ → ℕ
rf18_bw bw =
    if bw == channel_width_40
    then 2 ^ 11
    else if bw == channel_width_80
    then 2 ^ 10
    else bit_or (2 ^ 11) (2 ^ 10)

unfoldable pub rf18_2g : (old channel bw : ℕ) → ℕ
unfolding rf18_bw
rf18_2g old channel bw =
    bit_or (bit_or (bit_or (rf18_kept old) 0) (bit_and channel rf18_channel_mask)) (rf18_bw bw)

unfoldable pub rf18_rfsi : ℕ → ℕ
rf18_rfsi channel =
    if leb 100 channel && leb channel 140 then 2 ^ 17 else if ltb 140 channel then 2 ^ 18 else 0

unfoldable pub rf18_5g : (old channel bw : ℕ) → ℕ
unfolding rf18_bw rf18_rfsi
rf18_5g old channel bw =
    bit_or
      (bit_or
        (bit_or (bit_or (rf18_kept old) (bit_or (2 ^ 16) (2 ^ 8)))
          (bit_and channel rf18_channel_mask))
        (rf18_bw bw))
      (rf18_rfsi channel)

-- The switches of the front end, in REG_RFECTL_A.
abbrev b_btg_switch : ℕ
b_btg_switch = 2 ^ 16

abbrev b_ctrl_switch : ℕ
b_ctrl_switch = 2 ^ 18

abbrev b_wl_switch : ℕ
b_wl_switch = bit_or (2 ^ 20) (2 ^ 22)

abbrev b_wlg_switch : ℕ
b_wlg_switch = 2 ^ 21

abbrev b_wla_switch : ℕ
b_wla_switch = 2 ^ 23

unfoldable pub rfectl_2g : Bool → ℕ → ℕ
rfectl_2g btg reg =
    if btg
    then bit_and (bit_or reg b_btg_switch)
        (not32 (bit_or (bit_or (bit_or b_ctrl_switch b_wl_switch) b_wlg_switch) b_wla_switch))
    else bit_and (bit_or reg (bit_or b_wl_switch b_wlg_switch))
        (not32 (bit_or (bit_or b_btg_switch b_ctrl_switch) b_wla_switch))

unfoldable pub rfectl_5g : ℕ → ℕ
rfectl_5g reg =
    bit_and (bit_or reg (bit_or b_wl_switch b_wla_switch))
      (not32 (bit_or (bit_or b_btg_switch b_ctrl_switch) b_wlg_switch))

-- `__builtin_ctz`: the zeros below the lowest bit of a mask that has one.
unfoldable pub ctz : ℕ → ℕ → ℕ
ctz zero mask = 0
ctz (suc n) mask = let more = ctz n (mask / 2) in if mask % 2 == 1 then 0 else 1 + more

unfoldable pub merged : (mask old data' : ℕ) → ℕ
unfolding ctz
merged mask old data' = bit_or (bit_and old (not32 mask)) (bit_and (data' << ctz 32 mask) mask)

module _ {W : Type 0} (usb : UsbDevice W) where
  -- `rtw88_phy_read_rf_a` and `rtw88_read_rf_a`.
  unfoldable pub read_rf_a : (addr mask : ℕ) → M (Softc W) ℕ
  read_rf_a addr mask = do raw ← read4 usb (u16 (0x2800 + (addr << 2))); pure (bit_and raw mask)

  unfoldable pub write_rf_a_mask : (addr mask data' : ℕ) → M (Softc W) (Unit {0})
  unfolding read_rf_a merged
  write_rf_a_mask addr mask data' =
      if mask == rfreg_mask
      then phy_write_rf_a usb addr data'
      else do old ← read_rf_a addr rfreg_mask; phy_write_rf_a usb addr (merged mask old data')

  unfoldable pub switch_rf_set_2g : Bool → M (Softc W) (Unit {0})
  unfolding rfectl_2g
  switch_rf_set_2g btg = do
    setbits1 usb (0x1080 + 2) 1
    setbits1 usb (0x0000 + 3) 4
    reg ← read4 usb 0x0cb8
    update4 usb 0x0a84
        (λ cca. bit_or (bit_and cca (not32 0x00ff0000)) ((if btg then 0x0e else 0x12) << 16))
    update4 usb 0x0a80 (λ lna. bit_or (bit_and lna (not32 0xffff)) (if btg then 0xfc84 else 0x7532))
    write4 usb 0x0cb8 (rfectl_2g btg reg)

  unfoldable pub switch_rf_set_5g : M (Softc W) (Unit {0})
  unfolding rfectl_5g
  switch_rf_set_5g = do
    setbits1 usb (0x1080 + 2) 1
    setbits1 usb (0x0000 + 3) 4
    update4 usb 0x0cb8 rfectl_5g

  -- The pulse on bit 19 of RF_XTALX2 has the channel calibrated again.
  unfoldable pub set_channel_rf_2g : (channel bw : ℕ) → M (Softc W) (Unit {0})
  unfolding read_rf_a write_rf_a_mask switch_rf_set_2g rf18_2g
  set_channel_rf_2g channel bw = do
    rf_reg18 ← read_rf_a 0x18 rfreg_mask
    sc ← get
    switch_rf_set_2g sc.radio.rfe_btg
    write_rf_a_mask 0xdf (2 ^ 6) 1
    write_rf_a_mask 0x64 0xf 0xf
    phy_write_rf_a usb 0x18 (rf18_2g rf_reg18 channel bw)
    write_rf_a_mask 0xb8 (2 ^ 19) 0
    write_rf_a_mask 0xb8 (2 ^ 19) 1

  unfoldable pub set_channel_rf_5g : (channel bw : ℕ) → M (Softc W) (Unit {0})
  unfolding read_rf_a write_rf_a_mask switch_rf_set_5g rf18_5g
  set_channel_rf_5g channel bw = do
    rf_reg18 ← read_rf_a 0x18 rfreg_mask
    switch_rf_set_5g
    write_rf_a_mask 0xdf (2 ^ 6) 0
    phy_write_rf_a usb 0x18 (rf18_5g rf_reg18 channel bw)
    write_rf_a_mask 0xb8 (2 ^ 19) 0
    write_rf_a_mask 0xb8 (2 ^ 19) 1
