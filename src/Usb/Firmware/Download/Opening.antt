-- ===== src/Usb/Firmware/Download/Opening.antt =====
-- With which errno values the chip is switched on, opened for a download and closed.
use rtw88_pub.Base.{
  ℕ, ◌+◌, ◌^◌, ◌≡◌, ◌⊎◌, inl, inr, Bool, true, false, Option, Errno, err, ok, Result, eio, ebusy, M,
  Fails, Fails-bind, Fails-pure, Fails-throw, Fails-if, Fails-when, Fails-ignore, Fails-attempt,
}
use rtw88_pub.Device.{Dev}
use rtw88_pub.Coex.{coex_init}
use rtw88_pub.Usb.Hci.{usb_hci_ops}
use rtw88_pub.Usb.Softc.{UsbDevice, Softc}
use rtw88_pub.Usb.Io.{update1, update4, read1, read4, write1, write2, write4, setbits1, clrbits1}
use rtw88_pub.Usb.Io.Failing.{
  Fails-read1, Fails-read4, Fails-write1, Fails-write2, Fails-write4, Fails-setbits1,
  Fails-clrbits1,
}
use rtw88_pub.Usb.Power.{pwr_seq_parser}
use rtw88_pub.Usb.Power.Meaning.{card_flows-BusError}
use rtw88_pub.Usb.Power.Tables.{card_enable_flow, card_disable_flow}
use rtw88_pub.Usb.Power.Mac.{
  mac_pre_system_cfg, clear_boot_fspi, mac_init_system_cfg, on_by_cr, on_by_status, reg_sys_status1,
  mac_currently_on, mac_power_off, mac_power_up_once, mac_power_on,
}
use rtw88_pub.Usb.Firmware.Segment.{reg_mcufw_ctrl}
use rtw88_pub.Usb.Firmware.Segment.Failing.{
  IsErrno, eio-IsErrno, Fails-on_softc, Fails-on_handle, Fails-on_bus, ready,
}
use rtw88_pub.Usb.Firmware.Download.{
  dlfw_prep_chip, wcpu_enable, reset_platform, open_download, close_checked, close_download,
}

module _ {W : Type 0} (usb : UsbDevice W) where
  read1_or : (addr : ℕ) → Fails IsErrno (read1 usb addr)
  read1_or addr = Fails-read1 IsErrno eio-IsErrno usb addr

  read4_or : (addr : ℕ) → Fails IsErrno (read4 usb addr)
  read4_or addr = Fails-read4 IsErrno eio-IsErrno usb addr

  write1_or : (addr v : ℕ) → Fails IsErrno (write1 usb addr v)
  write1_or addr v = Fails-write1 IsErrno eio-IsErrno usb addr v

  write2_or : (addr v : ℕ) → Fails IsErrno (write2 usb addr v)
  write2_or addr v = Fails-write2 IsErrno eio-IsErrno usb addr v

  write4_or : (addr v : ℕ) → Fails IsErrno (write4 usb addr v)
  write4_or addr v = Fails-write4 IsErrno eio-IsErrno usb addr v

  set_or : (addr bits : ℕ) → Fails IsErrno (setbits1 usb addr bits)
  set_or addr bits = Fails-setbits1 IsErrno eio-IsErrno usb addr bits

  clear_or : (addr bits : ℕ) → Fails IsErrno (clrbits1 usb addr bits)
  clear_or addr bits = Fails-clrbits1 IsErrno eio-IsErrno usb addr bits

  update1_or : (addr : ℕ) (f : ℕ → ℕ) → Fails IsErrno (update1 usb addr f)
  update1_or addr f = Fails-bind (read1_or addr) λ v. write1_or addr (f v)

  update4_or : (addr : ℕ) (f : ℕ → ℕ) → Fails IsErrno (update4 usb addr f)
  update4_or addr f = Fails-bind (read4_or addr) λ v. write4_or addr (f v)

  bus_IsErrno : (e : Errno) → (e ≡ eio) ⊎ (e ≡ ebusy) → IsErrno e
  bus_IsErrno e (inl h) k = cc
  bus_IsErrno e (inr h) k = cc

  Fails-enable_flow : Fails IsErrno (pwr_seq_parser usb card_enable_flow)
  Fails-enable_flow = record { only = λ s e h. bus_IsErrno e ((card_flows-BusError usb s e).0 h) }

  Fails-disable_flow : Fails IsErrno (pwr_seq_parser usb card_disable_flow)
  Fails-disable_flow = record { only = λ s e h. bus_IsErrno e ((card_flows-BusError usb s e).1 h) }

  Fails-mac_pre_system_cfg : Fails IsErrno (mac_pre_system_cfg usb)
  unfolding mac_pre_system_cfg
  Fails-mac_pre_system_cfg = Fails-bind (write1_or _ _) λ _. Fails-bind (update4_or _ _) λ _.
      Fails-bind (update4_or _ _) λ _.
        Fails-bind (update4_or _ _)
          λ _. Fails-bind (update1_or _ _) λ _. Fails-bind (update1_or _ _) λ _. update4_or _ _

  Fails-mac_init_system_cfg : Fails IsErrno (mac_init_system_cfg usb)
  unfolding mac_init_system_cfg clear_boot_fspi
  Fails-mac_init_system_cfg = Fails-bind (update4_or _ _) λ _. Fails-bind (set_or _ _) λ _.
      Fails-bind (update1_or _ _) λ _.
        Fails-bind (read4_or _) λ v. Fails-when _ (Fails-bind (write4_or _ _) λ _. update4_or _ _)

  Fails-on_by_cr : (r : Result ℕ) → Fails IsErrno (on_by_cr usb r)
  unfolding on_by_cr
  Fails-on_by_cr (err e) = Fails-pure false
  Fails-on_by_cr (ok cr) = Fails-if _ (Fails-pure false) (
      Fails-bind (Fails-attempt (read1 usb (reg_sys_status1 + 1))) λ r. Fails-pure (on_by_status r))

  Fails-mac_power_on :
      (cfg_init : Option (M (Dev (Softc W)) (Unit {0}))) → Fails IsErrno (mac_power_on usb cfg_init)
  unfolding mac_power_on mac_currently_on mac_power_off mac_power_up_once
  Fails-mac_power_on cfg_init =
      Fails-bind (Fails-on_bus (Fails-bind (Fails-attempt (read1 usb 0x0100)) Fails-on_by_cr)) λ on.
        Fails-bind (Fails-when on (Fails-on_bus Fails-disable_flow)) λ _.
          Fails-bind
            (Fails-on_bus (
              Fails-bind Fails-mac_pre_system_cfg λ _.
                Fails-bind Fails-enable_flow
                  λ _. Fails-bind (update1_or _ _) λ _. Fails-mac_init_system_cfg))
            λ _. Fails-ignore (coex_init (usb_hci_ops usb) cfg_init)

  Fails-wcpu_enable : (enable : Bool) → Fails IsErrno (wcpu_enable usb enable)
  unfolding wcpu_enable
  Fails-wcpu_enable true = Fails-bind (set_or _ _) λ _. set_or _ _
  Fails-wcpu_enable false = Fails-bind (clear_or _ _) λ _. clear_or _ _

  Fails-dlfw_prep_chip : Fails IsErrno (dlfw_prep_chip usb)
  unfolding dlfw_prep_chip
  Fails-dlfw_prep_chip = Fails-bind (write1_or _ _) λ _. Fails-bind (write1_or _ _) λ _.
      Fails-bind (write4_or _ _)
        λ _. Fails-bind (write2_or _ _) λ _. Fails-bind (update4_or _ _) λ _. update1_or _ _

  Fails-reset_platform : Fails IsErrno (reset_platform usb)
  unfolding reset_platform
  Fails-reset_platform =
      Fails-bind (clear_or _ _)
        λ _. Fails-bind (clear_or _ _) λ _. Fails-bind (set_or _ _) λ _. set_or _ _

  pub Fails-open_download :
      (cfg_init : Option (M (Dev (Softc W)) (Unit {0})))
      → Fails IsErrno (open_download usb cfg_init)
  unfolding open_download
  Fails-open_download cfg_init = Fails-bind (Fails-on_handle (Fails-mac_power_on cfg_init)) λ _.
      Fails-bind (Fails-on_softc (Fails-wcpu_enable false)) λ _.
        Fails-bind (Fails-on_softc Fails-dlfw_prep_chip) λ _.
          Fails-bind (Fails-on_softc Fails-reset_platform)
            λ _. Fails-bind (Fails-on_softc (read4_or _)) λ v. Fails-on_softc (write2_or _ _)

  Fails-close_checked : (val32 : ℕ) → Fails IsErrno (close_checked usb val32)
  unfolding close_checked
  Fails-close_checked val32 =
      Fails-if _
        (Fails-bind (write2_or _ _) λ _. Fails-bind (Fails-wcpu_enable true) λ _. ready usb _ _ _)
        (Fails-throw eio eio-IsErrno)

  pub Fails-close_download : Fails IsErrno (close_download usb)
  unfolding close_download
  Fails-close_download =
      Fails-bind (Fails-ignore (write4 usb 0x0210 (2 ^ 2)))
        λ _. Fails-bind (read4_or reg_mcufw_ctrl) Fails-close_checked
