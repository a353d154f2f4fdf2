-- ===== src/Usb/Radio/Channel/Safe.antt =====
-- The steps of a switch to a channel fail with EIO only and leave alone what the driver notes of it.
use rtw88_pub.Base.{ℕ, ◌≡◌, refl, Bool, Errno, eio, Result, Careful, Preserves, conduct}
use rtw88_pub.Usb.Softc.{UsbDevice, Radio, Softc}
use rtw88_pub.Usb.Io.{read4, write1, write4, update1, update4, setbits1}
use rtw88_pub.Usb.Io.Access.{OffIo, Preserves-write1, Preserves-write4}
use rtw88_pub.Usb.Mailbox.{h2c_wl_ch_info}
use rtw88_pub.Usb.Mailbox.Frame.{Preserves-h2c_mailbox}
use rtw88_pub.Usb.Io.Conduct.{
  Careful-read4, Careful-write1, Careful-write4, Careful-update1, Careful-update4, Careful-setbits1,
}
use rtw88_pub.Usb.Phy.{phy_write_rf_a}
use rtw88_pub.Usb.Radio.Rf.{
  read_rf_a, write_rf_a_mask, switch_rf_set_2g, switch_rf_set_5g, set_channel_rf_2g,
  set_channel_rf_5g,
}
use rtw88_pub.Usb.Radio.Baseband.{
  set_channel_bb_bw, cck_filter, set_channel_bb_2g, set_channel_bb_5g, set_channel_rxdfir,
}
use rtw88_pub.Usb.Radio.Channel.{set_channel_mac, tune_bb, tune_rf, txagc}

abbrev pub IsEio : Errno → Type 0
IsEio e = e ≡ eio

module _ {W : Type 0} (radio : Radio) (usb : UsbDevice W) where
  abbrev pub Notes : Softc W → Type 0
  Notes s = s.radio ≡ radio

  pub off : OffIo Notes
  off = record { blind = λ sc w busy errors p. p }

  abbrev pub Safe : {A : Type 0} → (Softc W → Result A × Softc W) → Type 0
  Safe m = Careful IsEio Notes m

  pub read4-Safe : (addr : ℕ) → Safe (read4 usb addr)
  read4-Safe = Careful-read4 refl off usb

  pub write1-Safe : (addr val : ℕ) → Safe (write1 usb addr val)
  write1-Safe = Careful-write1 refl off usb

  pub write4-Safe : (addr val : ℕ) → Safe (write4 usb addr val)
  write4-Safe = Careful-write4 refl off usb

  pub update1-Safe : (addr : ℕ) (change : ℕ → ℕ) → Safe (update1 usb addr change)
  update1-Safe = Careful-update1 refl off usb

  pub update4-Safe : (addr : ℕ) (change : ℕ → ℕ) → Safe (update4 usb addr change)
  update4-Safe = Careful-update4 refl off usb

  pub setbits1-Safe : (addr bits : ℕ) → Safe (setbits1 usb addr bits)
  setbits1-Safe = Careful-setbits1 refl off usb

  pub phy_write_rf_a-Safe : (addr val : ℕ) → Safe (phy_write_rf_a usb addr val)
  unfolding phy_write_rf_a
  phy_write_rf_a-Safe addr val = write4-Safe _ _

  pub read_rf_a-Safe : (addr mask : ℕ) → Safe (read_rf_a usb addr mask)
  unfolding read_rf_a
  read_rf_a-Safe addr mask = search (conduct, read4-Safe) depth 16

  pub write_rf_a_mask-Safe : (addr mask data' : ℕ) → Safe (write_rf_a_mask usb addr mask data')
  unfolding write_rf_a_mask
  write_rf_a_mask-Safe addr mask data' =
      search (conduct, read_rf_a-Safe, phy_write_rf_a-Safe) depth 16

  pub switch_rf_set_2g-Safe : (btg : Bool) → Safe (switch_rf_set_2g usb btg)
  unfolding switch_rf_set_2g
  switch_rf_set_2g-Safe btg =
      search (conduct, setbits1-Safe, read4-Safe, update4-Safe, write4-Safe) depth 16

  pub switch_rf_set_5g-Safe : Safe (switch_rf_set_5g usb)
  unfolding switch_rf_set_5g
  switch_rf_set_5g-Safe = search (conduct, setbits1-Safe, update4-Safe) depth 16

  pub tune_rf-Safe : (channel bw : ℕ) → Safe (tune_rf usb channel bw)
  unfolding tune_rf set_channel_rf_2g set_channel_rf_5g
  tune_rf-Safe channel bw =
      search
        (
          conduct, read_rf_a-Safe, write_rf_a_mask-Safe, phy_write_rf_a-Safe, switch_rf_set_2g-Safe,
          switch_rf_set_5g-Safe,
        )
        depth 16

  pub set_channel_bb_bw-Safe : (bw primary : ℕ) → Safe (set_channel_bb_bw usb bw primary)
  unfolding set_channel_bb_bw
  set_channel_bb_bw-Safe bw primary = search (conduct, update4-Safe) depth 16

  pub cck_filter-Safe : Safe (cck_filter usb)
  unfolding cck_filter
  cck_filter-Safe = search (conduct, update4-Safe, write4-Safe) depth 16

  pub tune_bb-Safe : (channel bw primary : ℕ) → Safe (tune_bb usb channel bw primary)
  unfolding tune_bb set_channel_bb_2g set_channel_bb_5g
  tune_bb-Safe channel bw primary =
      search (conduct, update4-Safe, cck_filter-Safe, set_channel_bb_bw-Safe) depth 16

  pub set_channel_rxdfir-Safe : (bw : ℕ) → Safe (set_channel_rxdfir usb bw)
  unfolding set_channel_rxdfir
  set_channel_rxdfir-Safe bw = search (conduct, update4-Safe) depth 16

  pub set_channel_mac-Safe :
      (channel bw primary : ℕ) → Safe (set_channel_mac usb channel bw primary)
  unfolding set_channel_mac
  set_channel_mac-Safe channel bw primary =
      search (conduct, write1-Safe, update1-Safe, update4-Safe) depth 16

  pub h2c_wl_ch_info-Notes :
      (link channel bw : ℕ) → Preserves Notes (h2c_wl_ch_info usb link channel bw)
  unfolding h2c_wl_ch_info
  h2c_wl_ch_info-Notes link channel bw =
      Preserves-h2c_mailbox (record { blind = λ sc w busy errors next p. p }) usb _ _

  pub write1-Notes : (addr val : ℕ) → Preserves Notes (write1 usb addr val)
  write1-Notes = Preserves-write1 off usb

  pub write4-Notes : (addr val : ℕ) → Preserves Notes (write4 usb addr val)
  write4-Notes = Preserves-write4 off usb

  pub txagc-Careful : Careful (λ _. ⊥) Notes (txagc usb)
  unfolding txagc
  txagc-Careful = search (conduct, write4-Notes) depth 16
