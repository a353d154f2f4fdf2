-- ===== src/Usb/Mailbox.antt =====
-- if_rtw88_usb.c: the four-box mailbox to the firmware, and the commands that go through it.
pub mod RoundRobin
pub mod Fields
pub mod Frame
use rtw88_pub.Base.{
  ℕ, suc, ◌+◌, ◌*◌, ◌^◌, Bool, true, false, not, List, [], ◌∷◌, Result, ebusy, M, ◌>>=◌, ◌>>◌, get,
  modify, poll, bit_and, bit_or, has, if◌then◌else◌, ◌<<◌, get_or,
}
use rtw88_pub.Usb.Softc.{UsbDevice, Softc}
use rtw88_pub.Usb.Io.{read1, write4}

abbrev pub reg_hmetfr : ℕ
reg_hmetfr = 0x01cc

abbrev pub box_addr : List ℕ
box_addr = 0x01d0 ∷ 0x01d4 ∷ 0x01d8 ∷ 0x01dc ∷ []

abbrev pub box_ex_addr : List ℕ
box_ex_addr = 0x01f0 ∷ 0x01f4 ∷ 0x01f8 ∷ 0x01fc ∷ []

-- The command words. Byte 0 is the command.
pub wl_ch_info_msg : (link channel bw : ℕ) → ℕ
wl_ch_info_msg link channel bw =
    bit_or (bit_or (bit_or 0x66 (link << 8)) (channel << 16)) (bw << 24)

pub pwr_mode_lps_msg : (awake_interval : ℕ) → ℕ
pwr_mode_lps_msg awake_interval =
    bit_or (bit_or (bit_or (bit_or 0x20 (1 << 8)) (1 << 16)) (2 << 20)) (awake_interval << 24)

abbrev pub bit_of : Bool → ℕ
bit_of b = if b then 1 else 0

pub media_status_report_msg : (mac_id : ℕ) (connect : Bool) → ℕ
media_status_report_msg mac_id connect = bit_or (bit_or 0x01 (bit_of connect << 8)) (mac_id << 16)

pub default_port_msg : (portid mac_id : ℕ) → ℕ
default_port_msg portid mac_id = bit_or (bit_or 0x2c (portid << 8)) (mac_id << 16)

-- The arguments of `rtw88_h2c_ra_info`, less the rate mask, which is the second word.
pub record RaInfo : Type 0 where
  pub mac_id : ℕ
  pub rate_id : ℕ
  pub bw_mode : ℕ
  pub init_ra_lvl : ℕ
  pub sgi_en : Bool
  pub ldpc_en : Bool
  pub vht_en : ℕ
  pub no_update : Bool

pub ra_info_msg : RaInfo → ℕ
ra_info_msg r =
    let m1 = bit_or 0x40 (r.mac_id << 8) in
    let m2 = bit_or m1 (bit_and r.rate_id 0x1f << 16) in
    let m3 = bit_or m2 (bit_and r.init_ra_lvl 0x3 << 21) in
    let m4 = bit_or m3 (bit_of r.sgi_en << 23) in
    let m5 = bit_or m4 (bit_and r.bw_mode 0x3 << 24) in
    let m6 = bit_or m5 (bit_of r.ldpc_en << 26) in
    let m7 = bit_or m6 (bit_of r.no_update << 27) in
    let m8 = bit_or m7 (bit_and r.vht_en 0x3 << 28) in bit_or m8 (1 << 30)

module _ {W : Type 0} (usb : UsbDevice W) where
  -- Wait for the next box to be free, write the extension, then the word that arms the chip.
  unfoldable pub h2c_mailbox : ℕ → ℕ → M (Softc W) (Unit {0})
  h2c_mailbox msg msg_ext = do
    sc ← get
    let box = bit_and sc.h2c_box_next 0x3
    tfr ← poll 30 (read1 usb reg_hmetfr) (λ tfr. not (has tfr (2 ^ box))) ebusy
    write4 usb (get_or box_ex_addr box 0) msg_ext
    write4 usb (get_or box_addr box 0) msg
    modify (λ (s : Softc W). record s { h2c_box_next = bit_and (s.h2c_box_next + 1) 0x3 })

  unfoldable pub h2c_wl_ch_info : (link channel bw : ℕ) → M (Softc W) (Unit {0})
  h2c_wl_ch_info link channel bw = h2c_mailbox (wl_ch_info_msg link channel bw) 0

  pub h2c_pwr_mode_active : M (Softc W) (Unit {0})
  h2c_pwr_mode_active = h2c_mailbox (bit_or 0x20 (1 << 24)) (0x0c << 8)

  pub h2c_pwr_mode_lps : ℕ → M (Softc W) (Unit {0})
  h2c_pwr_mode_lps awake_interval = h2c_mailbox (pwr_mode_lps_msg awake_interval) (0x04 << 8)

  pub h2c_media_status_report : (mac_id : ℕ) (connect : Bool) → M (Softc W) (Unit {0})
  h2c_media_status_report mac_id connect = h2c_mailbox (media_status_report_msg mac_id connect) 0

  pub h2c_ra_info : RaInfo → ℕ → M (Softc W) (Unit {0})
  h2c_ra_info r ra_mask = h2c_mailbox (ra_info_msg r) ra_mask

  pub h2c_keep_alive : Bool → M (Softc W) (Unit {0})
  h2c_keep_alive enable =
      h2c_mailbox (bit_or 0x03 (bit_of enable << 8)) (if enable then 0x02000000 else 0)

  pub h2c_default_port : (portid mac_id : ℕ) → M (Softc W) (Unit {0})
  h2c_default_port portid mac_id = h2c_mailbox (default_port_msg portid mac_id) 0

  pub h2c_rsvd_page : M (Softc W) (Unit {0})
  h2c_rsvd_page = h2c_mailbox (bit_or (1 << 16) (3 << 24)) 2
