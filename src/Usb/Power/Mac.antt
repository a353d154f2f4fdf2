-- ===== src/Usb/Power/Mac.antt =====
-- if_rtw88_usb.c: the MAC is switched on and off around the power sequences, `rtw88_mac_*`.
use rtw88_pub.Base.{
  ℕ, ◌+◌, ◌*◌, ◌^◌, Bool, false, not, Option, M, ◌>>=◌, ◌>>◌, pure, ignore, attempt, Result, ok,
  err, when, bit_and, bit_or, not8, not32, has, ◌==◌, if◌then◌else◌,
}
use rtw88_pub.Device.{Dev, on_bus}
use rtw88_pub.Coex.{coex_init}
use rtw88_pub.Usb.Softc.{UsbDevice, Softc}
use rtw88_pub.Usb.Io.{read1, read4, write1, write4, update1, update4, setbits1}
use rtw88_pub.Usb.Hci.{usb_hci_ops}
use rtw88_pub.Usb.Power.{pwr_seq_parser}
use rtw88_pub.Usb.Power.Tables.{card_enable_flow, card_disable_flow}

abbrev reg_sys_func_en : ℕ
reg_sys_func_en = 0x0002

abbrev reg_gpio_muxcfg : ℕ
reg_gpio_muxcfg = 0x0040

abbrev reg_mcufw_ctrl : ℕ
reg_mcufw_ctrl = 0x0080

abbrev pub reg_sys_status1 : ℕ
reg_sys_status1 = 0x00f4

unfoldable pub on_by_status : Result ℕ → Bool
on_by_status (err e) = false
on_by_status (ok sysstat1_1) = not (has sysstat1_1 1)

module _ {W : Type 0} (usb : UsbDevice W) where
  -- Read, change, write back.
  unfoldable pub mac_pre_system_cfg : M (Softc W) (Unit {0})
  mac_pre_system_cfg = do
    write1 usb 0x001c 0
    update4 usb 0x0064 (λ v. bit_or v (bit_or (2 ^ 29) (2 ^ 28)))
    update4 usb 0x004c (λ v. bit_and v (not32 (bit_or (2 ^ 25) (2 ^ 26))))
    update4 usb reg_gpio_muxcfg (λ v. bit_or v (2 ^ 2))
    update1 usb reg_sys_func_en (λ v. bit_and v (not8 3))
    update1 usb 0x001f (λ v. bit_and v (not8 7))
    update4 usb 0x00ec (λ v. bit_and v (not32 (7 * 2 ^ 24)))

  -- The boot from flash is switched off where the boot ROM left it on.
  unfoldable pub clear_boot_fspi : ℕ → M (Softc W) (Unit {0})
  clear_boot_fspi val32 = when (has val32 (2 ^ 20)) (do
    write4 usb reg_mcufw_ctrl (bit_and val32 (not32 (2 ^ 20)))
    update4 usb reg_gpio_muxcfg (λ v. bit_and v (not32 (2 ^ 19))))

  unfoldable pub mac_init_system_cfg : M (Softc W) (Unit {0})
  unfolding clear_boot_fspi
  mac_init_system_cfg = do
    update4 usb 0x1080 (λ v. bit_or v (bit_or (2 ^ 16) (2 ^ 8)))
    setbits1 usb (reg_sys_func_en + 1) 0xd8
    update1 usb (0x1100 + 3) (λ v. bit_or (bit_and v 0xf0) 0x0c)
    val32 ← read4 usb reg_mcufw_ctrl
    clear_boot_fspi val32

  unfoldable pub on_by_cr : Result ℕ → M (Softc W) Bool
  unfolding on_by_status
  on_by_cr (err e) = pure false
  on_by_cr (ok cr) =
      if cr == 0xea
      then pure false
      else do r ← attempt (read1 usb (reg_sys_status1 + 1)); pure (on_by_status r)

  -- A register that cannot be read counts as off.
  unfoldable pub mac_currently_on : M (Softc W) Bool
  unfolding on_by_cr
  mac_currently_on = do cr ← attempt (read1 usb 0x0100); on_by_cr cr

  unfoldable pub mac_power_off : M (Softc W) (Unit {0})
  mac_power_off = pwr_seq_parser usb card_disable_flow

  unfoldable pub mac_power_up_once : M (Softc W) (Unit {0})
  unfolding mac_pre_system_cfg mac_init_system_cfg
  mac_power_up_once = do
    mac_pre_system_cfg
    pwr_seq_parser usb card_enable_flow
    update1 usb (reg_sys_status1 + 1) (λ v. bit_and v (not8 1))
    mac_init_system_cfg

  -- A MAC that is on is switched off first. `cfg_init` is the hook of the chip.
  unfoldable pub mac_power_on : Option (M (Dev (Softc W)) (Unit {0})) → M (Dev (Softc W)) (Unit {0})
  unfolding mac_currently_on mac_power_off mac_power_up_once
  mac_power_on cfg_init = do
    on ← on_bus mac_currently_on
    when on (on_bus mac_power_off)
    on_bus mac_power_up_once
    ignore (coex_init (usb_hci_ops usb) cfg_init)
