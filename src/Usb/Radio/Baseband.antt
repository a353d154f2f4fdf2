-- ===== src/Usb/Radio/Baseband.antt =====
-- if_rtw88_usb.c: the baseband for a channel, rtw88_set_channel_bb_2g, _5g, _bw and _rxdfir.
use rtw88_pub.Base.{
  ℕ, ◌^◌, Bool, ◌&&◌, not, M, ◌>>=◌, ◌>>◌, get, when, bit_and, bit_or, not32, leb, ◌==◌, ◌<<◌,
  if◌then◌else◌,
}
use rtw88_pub.Usb.Softc.{UsbDevice, Softc}
use rtw88_pub.Usb.Io.{write4, update4}
use rtw88_pub.Usb.Radio.Rf.{channel_width_20, channel_width_40, channel_width_80}

-- The bits of the mask are set or cleared.
abbrev pub assign : Bool → ℕ → ℕ → ℕ
assign up mask v = if up then bit_or v mask else bit_and v (not32 mask)

-- The bits of the mask are replaced.
abbrev pub replace : (mask bits v : ℕ) → ℕ
replace mask bits v = bit_or (bit_and v (not32 mask)) bits

-- ADCCLK: the bits that are kept, the clock, the primary channel and the width.
unfoldable pub adcclk : (bw primary v : ℕ) → ℕ
adcclk bw primary v =
    if bw == channel_width_40
    then bit_or (bit_and v 0xff3ff300)
        (bit_or (bit_or 0x20020000 (bit_and primary 0xf << 2)) channel_width_40)
    else if bw == channel_width_80
    then bit_or (bit_and v 0xfcffcf00)
        (bit_or (bit_or 0x40040000 (bit_and primary 0xf << 2)) channel_width_80)
    else bit_or (bit_and v 0xffcffc00) 0x10010000

unfoldable pub txscale_5g : ℕ → ℕ
txscale_5g channel =
    if leb 36 channel && leb channel 64
    then 1
    else if leb 100 channel && leb channel 144
    then 2
    else 3

unfoldable pub clktrk_5g : ℕ → ℕ
clktrk_5g channel =
    if leb 36 channel && leb channel 48
    then 0x494
    else if leb 52 channel && leb channel 64
    then 0x453
    else if leb 100 channel && leb channel 116
    then 0x452
    else 0x412

module _ {W : Type 0} (usb : UsbDevice W) where
  unfoldable pub set_channel_bb_bw : (bw primary_ch_idx : ℕ) → M (Softc W) (Unit {0})
  unfolding adcclk
  set_channel_bb_bw bw primary_ch_idx = do
    when (bw == channel_width_40) (update4 usb 0x0a00 (assign (primary_ch_idx == 1) (2 ^ 4)))
    update4 usb 0x08ac (adcclk bw primary_ch_idx)
    update4 usb 0x08c4 (λ v. bit_or v (2 ^ 30))

  -- The filter of CCK, which channel 14 goes without.
  unfoldable pub cck_filter : M (Softc W) (Unit {0})
  cck_filter = do
    sc ← get
    let (txsf2, txsf6, txfilter) = sc.radio.ch_param
    write4 usb 0x0a24 txsf2
    update4 usb 0x0a28 (replace 0xffff (bit_and txsf6 0xffff))
    write4 usb 0x0aac txfilter

  unfoldable pub set_channel_bb_2g : (channel bw primary_ch_idx : ℕ) → M (Softc W) (Unit {0})
  unfolding cck_filter set_channel_bb_bw
  set_channel_bb_2g channel bw primary_ch_idx = do
    update4 usb 0x0808 (λ v. bit_or v (2 ^ 28))
    update4 usb 0x0454 (λ v. bit_and v (not32 (2 ^ 7)))
    update4 usb 0x0a80 (λ v. bit_and v (not32 (2 ^ 18)))
    update4 usb 0x0814 (replace 0xfc00 (bit_and 15 0x3f << 10))
    update4 usb 0x0c1c (λ v. bit_and v (not32 0xf00))
    update4 usb 0x0860 (replace 0x1ffe0000 (0x96a << 17))
    when (not (channel == 14)) cck_filter
    set_channel_bb_bw bw primary_ch_idx

  unfoldable pub set_channel_bb_5g : (channel bw primary_ch_idx : ℕ) → M (Softc W) (Unit {0})
  unfolding txscale_5g clktrk_5g set_channel_bb_bw
  set_channel_bb_5g channel bw primary_ch_idx = do
    update4 usb 0x0a80 (λ v. bit_or v (2 ^ 18))
    update4 usb 0x0454 (λ v. bit_or v (2 ^ 7))
    update4 usb 0x0808 (λ v. bit_and v (not32 (2 ^ 28)))
    update4 usb 0x0814 (replace 0xfc00 (bit_and 15 0x3f << 10))
    update4 usb 0x0c1c (replace 0xf00 (txscale_5g channel << 8))
    update4 usb 0x0860 (replace 0x1ffe0000 (clktrk_5g channel << 17))
    set_channel_bb_bw bw primary_ch_idx

  -- The receive filter, which depends on the width only.
  unfoldable pub set_channel_rxdfir : ℕ → M (Softc W) (Unit {0})
  set_channel_rxdfir bw = do
    update4 usb 0x0948 (replace (3 << 28) (2 << 28))
    update4 usb 0x094c (replace (3 << 28) ((if bw == channel_width_80 then 1 else 2) << 28))
    update4 usb 0x0c20 (assign (bw == channel_width_20) (2 ^ 31))
    update4 usb 0x08f0 (assign (bw == channel_width_80) (2 ^ 31))
