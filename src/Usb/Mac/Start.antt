-- ===== src/Usb/Mac/Start.antt =====
-- if_rtw88_usb.c: the packets of commands to the firmware, rtw88_h2c_packet, the calibration that
-- one of them asks for, and rtw88_mac_init. `sc_hw_ccmp` is an argument.
use rtw88_pub.Base.{
  ℕ, zero, suc, ◌+◌, ◌-◌, ◌^◌, Bool, false, List, [], ◌∷◌, ◌++◌, Result, ok, err, M, ◌>>=◌, ◌>>◌,
  pure, throw, attempt, ignore, get, poll, einval, etimedout, bit_and, bit_or, ◌<<◌, ltb, ◌==◌,
  if◌then◌else◌, length, replicate, le32enc,
}
use rtw88_pub.Usb.Softc.{UsbDevice, Softc}
use rtw88_pub.Usb.Io.{read4, write1, write2, write4}
use rtw88_pub.Usb.Hci.{usb_hci_ops}
use rtw88_pub.Usb.Phy.{phy_write_rf_a}
use rtw88_pub.Usb.Radio.Rf.{rfreg_mask, read_rf_a, write_rf_a_mask}
use rtw88_pub.Usb.Firmware.{Loader, on_handle, on_softc}
use rtw88_pub.Usb.Firmware.Packet.{BulkPipes, bulk_tx_h2c, fill_checksum, bulk_tx_sync}
use rtw88_pub.Usb.Mac.{set_up_mac, reg_cr}
use rtw88_pub.Coex.{coex_h2c_bt_wifi_control, coex_h2c_tdma_type}

abbrev pub h2c_pkt_size : ℕ
h2c_pkt_size = 32

abbrev pub h2c_pkt_hdr_size : ℕ
h2c_pkt_hdr_size = 8

-- The descriptor, before its checksum is filled in.
unfoldable pub h2c_txdesc : List ℕ
h2c_txdesc = le32enc (bit_and h2c_pkt_size 0xffff) ++ le32enc (0x13 << 8) ++ replicate 40 0

-- The header, the body, and zeros.
unfoldable pub h2c_pkt : (sub_id : ℕ) → List ℕ → List ℕ
h2c_pkt sub_id body =
    le32enc (bit_or (bit_or (bit_and 0x01 0x7f) (0xff << 8)) (sub_id << 16))
    ++ le32enc (h2c_pkt_hdr_size + length body)
    ++ body
    ++ replicate (h2c_pkt_size - h2c_pkt_hdr_size - length body) 0

-- All the bytes of the transfer.
unfoldable pub h2c_bytes : (sub_id : ℕ) → List ℕ → List ℕ
unfolding h2c_txdesc h2c_pkt
h2c_bytes sub_id body = fill_checksum h2c_txdesc ++ h2c_pkt sub_id body

unfoldable pub general_info_body : List ℕ
general_info_body = le32enc (0x30 << 16)

unfoldable pub phydm_info_body : (rfe_option cut_version : ℕ) → List ℕ
phydm_info_body rfe_option cut_version =
    le32enc (
      bit_or
        (bit_or (bit_or (bit_or (bit_and rfe_option 0xff) (4 << 8)) (cut_version << 16)) (1 << 24))
        (1 << 28))
    ++ le32enc 0

module _ {W : Type 0} (pipes : BulkPipes W) where
  -- `body` is of the length that is handed over with it.
  unfoldable pub h2c_packet : (sub_id : ℕ) → List ℕ → M (Loader W) (Unit {0})
  unfolding h2c_bytes
  h2c_packet sub_id body =
      if ltb (h2c_pkt_size - h2c_pkt_hdr_size) (length body)
      then throw einval
      else bulk_tx_sync pipes bulk_tx_h2c (h2c_bytes sub_id body) 80

  unfoldable pub fw_do_iqk : (segment : Bool) → M (Loader W) (Unit {0})
  unfolding h2c_packet
  fw_do_iqk segment = h2c_packet 0x0e ((if segment then 0x02 else 0x00) ∷ [])

  unfoldable pub h2c_general_info : M (Loader W) (Unit {0})
  unfolding h2c_packet general_info_body
  h2c_general_info = h2c_packet 0x0d general_info_body

  unfoldable pub h2c_phydm_info : M (Loader W) (Unit {0})
  unfolding h2c_packet phydm_info_body
  h2c_phydm_info = do
    l ← get
    h2c_packet 0x11 (phydm_info_body l.handle.bus.ids.rfe_option l.handle.bus.ids.cut_version)

-- A read that fails is a try without the sentinel.
unfoldable pub is_calibrated : Result ℕ → Bool
is_calibrated (ok rf_val) = rf_val == 0xabcde
is_calibrated (err e) = false

module _ {W : Type 0} (usb : UsbDevice W) (pipes : BulkPipes W) where
  abbrev pub verdict : Result (Result ℕ) → M (Loader W) (Unit {0})
  verdict (ok found) = pure tt
  verdict (err e) = throw etimedout

  -- The sentinel is cleared either way. The mask of the failures goes into the log only.
  unfoldable pub phy_calibration : M (Loader W) (Unit {0})
  unfolding fw_do_iqk is_calibrated
  phy_calibration = do
    fw_do_iqk pipes false
    done ←
        attempt
          (on_softc (poll 300 (attempt (read_rf_a usb 0x08 rfreg_mask)) is_calibrated etimedout))
    ignore (on_softc (read4 usb 0x1bf0))
    ignore (on_softc (phy_write_rf_a usb 0x08 0))
    verdict done

  -- The engine that encrypts: all of its directions and keys, or off.
  unfoldable pub sec_config : (hw_ccmp : Bool) → ℕ
  sec_config hw_ccmp =
      if hw_ccmp
      then bit_or (bit_or (bit_or (bit_or (bit_or (2 ^ 2) (2 ^ 3)) (2 ^ 0)) (2 ^ 1)) (2 ^ 6))
          (2 ^ 7)
      else 0

  unfoldable pub clear_bssid : (i n : ℕ) → M (Softc W) (Unit {0})
  clear_bssid i zero = pure tt
  clear_bssid i (suc n) = do ignore (write1 usb (0x0618 + i) 0); clear_bssid (i + 1) n

  -- What follows the steps that can fail: no error of it is looked at.
  unfoldable pub open_mac : (hw_ccmp : Bool) → M (Softc W) (Unit {0})
  unfolding sec_config clear_bssid
  open_mac hw_ccmp = do
    ignore (write1 usb (reg_cr + 1) 0x06)
    ignore (write1 usb 0x0550 (2 ^ 3))
    ignore (write4 usb 0x0668 0x0e301000)
    ignore (write2 usb 0x0680 (sec_config hw_ccmp))
    ignore (write4 usb 0x06a8 0)
    clear_bssid 0 6

  unfoldable pub greet_firmware : M (Loader W) (Unit {0})
  unfolding h2c_general_info h2c_phydm_info
  greet_firmware = do
    ignore (h2c_general_info pipes)
    ignore (h2c_phydm_info pipes)
    ignore (on_handle (coex_h2c_bt_wifi_control (usb_hci_ops usb) 0x0c 0x01))
    ignore (on_handle (coex_h2c_tdma_type (usb_hci_ops usb) 0))
    ignore (on_softc (write_rf_a_mask usb 0x42 0x30000 0x03))

  unfoldable pub mac_init : (hw_ccmp : Bool) → M (Loader W) (Unit {0})
  unfolding open_mac greet_firmware
  mac_init hw_ccmp = do on_softc (set_up_mac usb); on_softc (open_mac hw_ccmp); greet_firmware
