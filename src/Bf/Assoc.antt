-- ===== src/Bf/Assoc.antt =====
-- Beamforming state over associations.
use rtw88_pub.Base.{ℕ, ◌%◌, ◌^◌, ◌<◌, ◌≡◌, arith, true, false, List, bit_and_low}
use rtw88_pub.Device.{Dev, debug_inc}
use rtw88_pub.Bf.{ap_has_txbf, bf_attach, bf_associate, bf_disassoc}

-- Steering is on only for an attached subsystem on a chip that can do it, and a partial AID has nine
-- bits.
abbrev pub IsBf : {B : Type 0} → Dev B → Type 0
IsBf d =
    (d.bf.su_active ≡ true → (d.bf.attached ≡ true) × (d.chip.bf_su_supported ≡ true))
    × (d.bf.mu_active ≡ false)
    × (d.bf.paid < 2 ^ 9)

module _ {B : Type 0} where
  -- Attaching establishes that steering is on only when attached on a chip that supports it, that
  -- multi-user mode is off and that the partial AID has nine bits; associating with any peer and
  -- disassociating keep that.
  pub bf_attach-IsBf :
      (d : Dev B)
      → IsBf (bf_attach d).1
        × (IsBf d
            → ((mac : List ℕ) (htcap vhtcap aid : ℕ) → IsBf (bf_associate mac htcap vhtcap aid d).1)
              × IsBf (bf_disassoc d).1)
  unfolding bf_attach bf_associate bf_disassoc debug_inc
  bf_attach-IsBf d =
      (ground arith, λ w. (λ mac htcap vhtcap aid. ground (arith, bit_and_low 9 aid), ground arith))

  -- On an attached subsystem of a chip that can steer, an association turns steering on exactly when
  -- the access point has one of the two capabilities, then with its address and the low nine bits of
  -- the AID; the following disassociation turns it off again.
  pub bf_associate-disassoc :
      (d : Dev B) (mac : List ℕ) (htcap vhtcap aid : ℕ)
      → d.bf.attached ≡ true
      → d.chip.bf_su_supported ≡ true
      → let d' = (bf_associate mac htcap vhtcap aid d).1 in
        (d'.bf.su_active ≡ ap_has_txbf htcap vhtcap)
        × (ap_has_txbf htcap vhtcap ≡ true → (d'.bf.peer_mac ≡ mac) × (d'.bf.paid ≡ aid % 2 ^ 9))
        × ((bf_disassoc d').1.bf.su_active ≡ false)
        × ((bf_disassoc d').1.bf.paid ≡ 0)
  unfolding bf_associate bf_disassoc debug_inc
  bf_associate-disassoc d mac htcap vhtcap aid h k =
      let low = bit_and_low 9 aid in (ground arith, ground arith, ground arith, ground arith)
