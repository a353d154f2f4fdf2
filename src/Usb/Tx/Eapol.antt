-- ===== src/Usb/Tx/Eapol.antt =====
-- The bounds of the look for an EAPOL key.
use rtw88_pub.Base.{ℕ, ◌+◌, ◌≤◌, ◌≡◌, arith, ◌↔◌, true, List, err, undefined, length, take}
use rtw88_pub.Usb.Tx.{Net, is_data, is_snap_eapol, eapol_key_info}

module _ {Q : Type 0} (net : Net Q) where
  -- The look reads past the end of a frame exactly for a data frame of 39 bytes or more that ends
  -- 15 bytes behind its header and has the EAPOL protocol there; every longer frame is read inside.
  pub eapol_key_info-undefined :
      (bytes : List ℕ)
      → (eapol_key_info net bytes ≡ err undefined) ↔ (
          (39 ≤ length bytes)
          × (is_data bytes ≡ true)
          × (length bytes ≡ net.hdrsize (take 18 bytes) + 15)
          × (is_snap_eapol bytes (net.hdrsize (take 18 bytes)) ≡ true))
  unfolding eapol_key_info
  eapol_key_info-undefined bytes = ground arith
