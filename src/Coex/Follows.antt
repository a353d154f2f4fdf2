-- ===== src/Coex/Follows.antt =====
-- What the handle records of coexistence, with commands that may fail.
use rtw88_pub.Base.{
  ◌<<◌, Result, ◌+◌, ◌%◌, ◌^◌, ◌≡◌, arith, Bool, true, false, ok, err, if◌then◌else◌, bit_or,
}
use rtw88_pub.Device.{HciOps, CoexState, Dev, debug_inc, rtw_h2c}
use rtw88_pub.Coex.{
  coex_h2c_bt_wifi_control, coex_h2c_tdma_type, coex_pair, coex_link_up, bt_wifi_control_msg,
  payload_b1, payload_b2,
}

module _ {B : Type 0} (hci : HciOps B) where
  -- The state after some commands of the pair went through.
  abbrev pub sent : (first second : Bool) → Dev B → CoexState → CoexState
  sent first second d c = record c {
    last_bt_wifi_ctrl_payload =
        if first
        then bt_wifi_control_msg hci (payload_b1 hci d) (payload_b2 hci d)
        else c.last_bt_wifi_ctrl_payload;
    current_tdma_case = if second then d.chip.coex_default_tdma else c.current_tdma_case;
  }

  abbrev pub succeeded : Result (Unit {0}) → Bool
  succeeded (ok _) = true
  succeeded (err _) = false

  -- A link that comes up is counted, and both commands go to the firmware, the second whatever became
  -- of the first. The call succeeds whatever they do, and what the handle remembers of each command
  -- is what was sent, when it was sent, and what it was before, when it was not.
  pub coex_link_up-outcome :
      (d : Dev B)
      → let first =
          hci.h2c 0x69 (bt_wifi_control_msg hci (payload_b1 hci d) (payload_b2 hci d)) 0 d.bus in
        let second = hci.h2c 0x60 (bit_or 0x60 (d.chip.coex_default_tdma << 8)) 0 first.1 in
        ((coex_link_up hci d).0 ≡ ok tt)
        × ((coex_link_up hci d).1.bus ≡ second.1)
        × ((coex_link_up hci d).1.coex
            ≡ sent
                (succeeded first.0)
                (succeeded second.0)
                d
                (record d.coex { link_up_count = (d.coex.link_up_count + 1) % 2 ^ 32 }))
  unfolding coex_link_up coex_pair coex_h2c_bt_wifi_control coex_h2c_tdma_type rtw_h2c debug_inc
  coex_link_up-outcome d = ground arith
