-- ===== src/Pci/Silent.antt =====
-- The subsystems over the PCI front-end, which has no mailbox to the firmware.
use rtw88_pub.Base.{◌≡◌, refl, Bool, true, false, List, [], ◌∷◌, ok, err, eopnotsupp}
use rtw88_pub.Device.{Dev, rtw_h2c}
use rtw88_pub.Ps.{h2c_pwr_mode_active, h2c_pwr_mode_lps, lps_enter, lps_leave, ps_notify}
use rtw88_pub.Ps.Follows.{notify_all}
use rtw88_pub.Pci.Hci.{BusSpace, pci_hci_ops}

module _ {B : Type 0} (bus : BusSpace B) where
  refused :
      (wants : Bool) (d : Dev B)
      → d.lps.in_lps ≡ false
      → ps_notify (pci_hci_ops bus) wants d ≡ (err eopnotsupp, d)
  unfolding ps_notify lps_enter lps_leave h2c_pwr_mode_lps h2c_pwr_mode_active rtw_h2c pci_hci_ops
  refused true d awake = rw awake refl
  refused false d awake = rw awake refl

  -- Over PCI, a handle out of power save stays exactly as it is, counters and bus included, under every
  -- sequence of notifications: each of them is refused with EOPNOTSUPP, whether it asks for power save
  -- or not.
  pub ps_notify-pci_hci_ops :
      (d : Dev B)
      → d.lps.in_lps ≡ false
      → ((wants : Bool) → ps_notify (pci_hci_ops bus) wants d ≡ (err eopnotsupp, d))
        × ((events : List Bool) → notify_all (pci_hci_ops bus) events d ≡ (ok tt, d))
  unfolding notify_all
  ps_notify-pci_hci_ops d awake = (λ wants. refused wants d awake, all_refused)
    where
      all_refused : (events : List Bool) → notify_all (pci_hci_ops bus) events d ≡ (ok tt, d)
      all_refused [] = refl
      all_refused (wants ∷ events) = rw (refused wants d awake) (all_refused events)
