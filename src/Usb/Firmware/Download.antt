-- ===== src/Usb/Firmware/Download.antt =====
-- if_rtw88_usb.c: the download of the firmware, rtw88_download_firmware. Only one thread attaches,
-- and the mutex that the function holds is not modelled.
pub mod Opening
pub mod Reads
use rtw88_pub.Base.{
  ℕ, ◌+◌, ◌-◌, ◌^◌, Bool, true, false, List, Option, none, some, M, ◌>>=◌, ◌>>◌, throw, get, ignore,
  when, eio, einval, enoent, undefined, bit_and, bit_or, u16, u32, has, ltb, ◌==◌, if◌then◌else◌,
  length, drop,
}
use rtw88_pub.Device.{Dev}
use rtw88_pub.Usb.Softc.{UsbDevice, Softc}
use rtw88_pub.Usb.Io.{
  read4, write1, write2, write4, update1, update4, setbits1, clrbits1, check_hw_ready,
}
use rtw88_pub.Usb.Power.Mac.{mac_power_on}
use rtw88_pub.Usb.Firmware.{FwHdr, fw_hdr_size, fw_hdr_decode, Loader, on_handle, on_softc}
use rtw88_pub.Usb.Firmware.Packet.{BulkPipes, reg_cr, reg_bcn_ctrl, beacon_off}
use rtw88_pub.Usb.Firmware.Segment.{reg_mcufw_ctrl, download_firmware_segment}

-- The sizes with their checksums, which are eight bytes each, and the address without bit 31.
abbrev pub dmem_len : FwHdr → ℕ
dmem_len h = u32 (h.dmem_size + 8)

abbrev pub imem_len : FwHdr → ℕ
imem_len h = u32 (h.imem_size + 8)

abbrev pub emem_len : FwHdr → ℕ
emem_len h = if has h.mem_usage 0x10 then u32 (h.emem_size + 8) else 0

abbrev pub on_chip : ℕ → ℕ
on_chip addr = bit_and addr (2 ^ 31 - 1)

-- BIT_CHECK_SUM_OK, FW_READY and FW_READY_MASK.
abbrev pub bit_check_sum_ok : ℕ
bit_check_sum_ok = bit_or (2 ^ 4) (2 ^ 6)

abbrev pub fw_ready : ℕ
fw_ready = 0xc078

abbrev pub fw_ready_mask : ℕ
fw_ready_mask = 0xcfff

-- The sum of the sizes is taken in 32 bits, as the size of the image is.
unfoldable pub has_sizes : FwHdr → List ℕ → Bool
has_sizes h bytes = u32 (fw_hdr_size + dmem_len h + imem_len h + emem_len h) == u32 (length bytes)

module _ {W : Type 0} (usb : UsbDevice W) where
  unfoldable pub dlfw_prep_chip : M (Softc W) (Unit {0})
  dlfw_prep_chip = do
    write1 usb (0x010c + 1) 0
    write1 usb reg_cr 5
    write4 usb 0x1330 1
    write2 usb 0x0230 0x0200
    update4 usb 0x022c (λ rqpn. bit_or rqpn (2 ^ 31))
    update1 usb reg_bcn_ctrl beacon_off

  unfoldable pub wcpu_enable : Bool → M (Softc W) (Unit {0})
  wcpu_enable true = do setbits1 usb (0x001c + 1) 1; setbits1 usb (0x0002 + 1) 4
  wcpu_enable false = do clrbits1 usb (0x0002 + 1) 4; clrbits1 usb (0x001c + 1) 1

  unfoldable pub reset_platform : M (Softc W) (Unit {0})
  reset_platform = do
    clrbits1 usb (0x1080 + 2) 1
    clrbits1 usb (0x0008 + 1) 0x40
    setbits1 usb (0x1080 + 2) 1
    setbits1 usb (0x0008 + 1) 0x40

  -- Up to the register that opens the chip for a download.
  unfoldable pub open_download : Option (M (Dev (Softc W)) (Unit {0})) → M (Loader W) (Unit {0})
  unfolding dlfw_prep_chip wcpu_enable reset_platform mac_power_on
  open_download cfg_init = do
    on_handle (mac_power_on usb cfg_init)
    on_softc (wcpu_enable false)
    on_softc dlfw_prep_chip
    on_softc reset_platform
    val32 ← on_softc (read4 usb reg_mcufw_ctrl)
    on_softc (write2 usb reg_mcufw_ctrl (u16 (bit_or (bit_and val32 0x3800) 1)))

  -- Both segments must have been acknowledged. The chip then has some time to report ready.
  unfoldable pub close_checked : (val32 : ℕ) → M (Softc W) (Unit {0})
  unfolding wcpu_enable
  close_checked val32 =
      if bit_and val32 bit_check_sum_ok == bit_check_sum_ok
      then (do
        write2 usb reg_mcufw_ctrl (bit_and (bit_and (bit_or val32 (2 ^ 14)) (2 ^ 32 - 2)) 0xffff)
        wcpu_enable true
        check_hw_ready usb reg_mcufw_ctrl fw_ready_mask fw_ready)
      else throw eio

  unfoldable pub close_download : M (Softc W) (Unit {0})
  unfolding close_checked
  close_download = do
    ignore (write4 usb 0x0210 (2 ^ 2))
    val32 ← read4 usb reg_mcufw_ctrl
    close_checked val32

module _ {W : Type 0} (usb : UsbDevice W) (pipes : BulkPipes W) where
  unfoldable pub send_segments : FwHdr → List ℕ → M (Loader W) (Unit {0})
  unfolding download_firmware_segment
  send_segments h bytes = do
    let dmem = drop fw_hdr_size bytes
    download_firmware_segment usb pipes (on_chip h.dmem_addr) dmem (dmem_len h)
    let imem = drop (dmem_len h) dmem
    download_firmware_segment usb pipes (on_chip h.imem_addr) imem (imem_len h)
    when (ltb 0 (emem_len h)) (
        download_firmware_segment usb pipes (on_chip h.emem_addr) (drop (imem_len h) imem)
          (emem_len h))

  unfoldable pub download_image :
      Option (M (Dev (Softc W)) (Unit {0})) → FwHdr → List ℕ → M (Loader W) (Unit {0})
  unfolding open_download send_segments close_download
  download_image cfg_init h bytes = do
    open_download usb cfg_init
    send_segments h bytes
    on_softc (close_download usb)

  unfoldable pub with_image :
      Option (M (Dev (Softc W)) (Unit {0})) → Option (List ℕ) → M (Loader W) (Unit {0})
  unfolding fw_hdr_decode has_sizes download_image
  with_image cfg_init none = throw enoent
  with_image cfg_init (some bytes) =
      if ltb (length bytes) fw_hdr_size
      then throw undefined
      else if has_sizes (fw_hdr_decode bytes) bytes
      then download_image cfg_init (fw_hdr_decode bytes) bytes
      else throw einval

  unfoldable pub download_firmware : Option (M (Dev (Softc W)) (Unit {0})) → M (Loader W) (Unit {0})
  unfolding with_image
  download_firmware cfg_init = do l ← get; with_image cfg_init l.fw
