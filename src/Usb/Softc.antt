-- ===== src/Usb/Softc.antt =====
-- `struct rtw88_usb_softc`: its fields, grouped by the part of the driver that owns them. `W` is the
-- adapter and the USB stack, which the source calls and does not implement.
use rtw88_pub.Base.{ℕ, Bool, List, M}

-- `usbd_do_request_flags` on the register request of the vendor: the bytes read, or what an error
-- is. Only whether a request fails matters: the driver returns EIO for every error.
pub record UsbDevice (W : Type 0) : Type 0 where
  pub vendor_read : ℕ → ℕ → M W (List ℕ)
  pub vendor_write : ℕ → List ℕ → M W (Unit {0})

-- `sc_cut_version`, `sc_pkg_type`, `sc_rfe_option`: what the conditions of the tables test.
pub record ChipIds : Type 0 where
  pub cut_version : ℕ
  pub pkg_type : ℕ
  pub rfe_option : ℕ

-- The dynamic initial gain: `sc_dig_active`, `sc_igi_log`, `sc_fa_log` (newest first) and
-- `sc_igi_trend_bits`. `callout_armed` is whether `sc_dig_co` is pending.
pub record Dig : Type 0 where
  pub active : Bool
  pub igi_log : List ℕ
  pub fa_log : List ℕ
  pub trend_bits : ℕ
  pub callout_armed : Bool

-- The firmware keepalive and its watchdog: the fields `sc_fwka_*`, `sc_ra_tighten_*`, `sc_rate_id`,
-- `sc_last_rx_packets`, `sc_fw_stall_*`, `sc_stat_fw_stalls`.
pub record Keepalive : Type 0 where
  pub active : Bool
  pub callout_armed : Bool
  pub ra_tighten_fired : Bool
  pub ra_tighten_mask : ℕ
  pub rate_id : ℕ
  pub last_rx_packets : ℕ
  pub fw_stall_ticks : ℕ
  pub fw_stall_logged : Bool
  pub stat_fw_stalls : ℕ

-- What the radio is tuned by: the fields `sc_crystal_cap`, `sc_rfe_btg`, `sc_ch_param`,
-- `sc_cur_channel`, `sc_cur_bw`, `sc_cur_primary_ch_idx` and `sc_chip->caps`.
pub record Radio : Type 0 where
  pub caps : ℕ
  pub crystal_cap : ℕ
  pub rfe_btg : Bool
  pub ch_param : ℕ × ℕ × ℕ
  pub cur_channel : ℕ
  pub cur_bw : ℕ
  pub cur_primary_ch_idx : ℕ

pub record Softc (W : Type 0) : Type 0 where
  pub world : W
  pub io_busy : Bool
  pub stat_usb_errors : ℕ
  pub h2c_box_next : ℕ
  pub ids : ChipIds
  pub dig : Dig
  pub keepalive : Keepalive
  pub rx_packets : ℕ
  pub radio : Radio
