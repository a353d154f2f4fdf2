-- ===== src/Coex.antt =====
-- sys/dev/rtw88/rtw88_coex.c: coexistence with Bluetooth, in its wifi-only form: the indirect LTE
-- registers, the arbiter's defaults, the antenna switch and the pair of firmware commands. The chip's
-- hook `coex_cfg_init` is a parameter of the init.
pub mod Grants
pub mod Follows
use rtw88_pub.Base.{
  ℕ, zero, suc, ◌+◌, ◌-◌, ◌*◌, ◌/◌, ◌%◌, ◌^◌, Bool, true, false, Option, none, some, Result, ok,
  err, eio, etimedout, M, ◌>>=◌, ◌>>◌, pure, modify, get, attempt, ignore, poll, bit_and, bit_or,
  not8, not16, not32, has, ◌==◌, if◌then◌else◌, ◌<<◌,
}
use rtw88_pub.Device.{
  HciOps, CoexState, Dev, coex_link_up as counter_link_up, h2c_tx, debug_inc, rtw_read8, rtw_read16,
  rtw_read32, rtw_write8, rtw_write16, rtw_write32, rtw_h2c,
}

abbrev pub reg_ltecoex_ctrl : ℕ
reg_ltecoex_ctrl = 0x1700

abbrev pub reg_ltecoex_wdata : ℕ
reg_ltecoex_wdata = 0x1704

abbrev pub reg_ltecoex_rdata : ℕ
reg_ltecoex_rdata = 0x1708

abbrev pub bit_ltecoex_ready : ℕ
bit_ltecoex_ready = 2 ^ 29

abbrev pub ltecoex_read_op : ℕ
ltecoex_read_op = 0x800f0000

abbrev pub ltecoex_write_op : ℕ
ltecoex_write_op = 0xc00f0000

abbrev pub lte_coex_ctrl_offset : ℕ
lte_coex_ctrl_offset = 0x0038

abbrev pub lte_gnt_bt_hi_mask : ℕ
lte_gnt_bt_hi_mask = 0xc000

abbrev pub lte_gnt_bt_lo_mask : ℕ
lte_gnt_bt_lo_mask = 0x0c00

abbrev pub lte_gnt_wl_hi_mask : ℕ
lte_gnt_wl_hi_mask = 0x3000

abbrev pub lte_gnt_wl_lo_mask : ℕ
lte_gnt_wl_lo_mask = 0x0300

abbrev pub coex_gnt_set_sw_low : ℕ
coex_gnt_set_sw_low = 1

abbrev pub coex_gnt_set_sw_high : ℕ
coex_gnt_set_sw_high = 3

abbrev pub coex_table_wl_only : ℕ
coex_table_wl_only = 0x55555555

-- `ffs(mask) - 1`, of a mask that is not zero: how often it can be halved.
pub lowest_from : (rounds mask : ℕ) → ℕ
lowest_from zero mask = 0
lowest_from (suc n) mask =
    let rest = suc (lowest_from n (mask / 2)) in if mask % 2 == 1 then 0 else rest

abbrev pub shift_of : ℕ → ℕ
shift_of mask = lowest_from 32 mask

-- A failed read is EIO, whatever the bus answered.
abbrev pub or_eio : {S A : Type 0} → M S A → M S A
or_eio m s = let (r, s') = m s in (elim r [ ok a ↦ ok a | err _ ↦ err eio ], s')

module _ {B : Type 0} (hci : HciOps B) where
  pub ltecoex_ready : M (Dev B) ℕ
  ltecoex_ready =
      poll 100 (or_eio (rtw_read32 hci reg_ltecoex_ctrl)) (λ v. has v bit_ltecoex_ready) etimedout

  pub ltecoex_read_indirect : ℕ → M (Dev B) ℕ
  ltecoex_read_indirect offset = do
    v ← ltecoex_ready
    rtw_write32 hci reg_ltecoex_ctrl (bit_or ltecoex_read_op offset)
    rtw_read32 hci reg_ltecoex_rdata

  pub ltecoex_write_indirect_raw : (offset val : ℕ) → M (Dev B) (Unit {0})
  ltecoex_write_indirect_raw offset val = do
    v ← ltecoex_ready
    rtw_write32 hci reg_ltecoex_wdata val
    rtw_write32 hci reg_ltecoex_ctrl (bit_or ltecoex_write_op offset)

  pub ltecoex_write_indirect : (offset mask val : ℕ) → M (Dev B) (Unit {0})
  ltecoex_write_indirect offset mask val = do
    cur ← ltecoex_read_indirect offset
    ltecoex_write_indirect_raw offset
        (bit_or (bit_and cur (not32 mask)) (bit_and ((val << shift_of mask) % 2 ^ 32) mask))

  -- Grants: none to Bluetooth, all to Wi-Fi.
  pub coex_set_gnt_wonly : M (Dev B) (Unit {0})
  coex_set_gnt_wonly = do
    ignore (ltecoex_write_indirect lte_coex_ctrl_offset lte_gnt_bt_hi_mask coex_gnt_set_sw_low)
    ignore (ltecoex_write_indirect lte_coex_ctrl_offset lte_gnt_bt_lo_mask coex_gnt_set_sw_low)
    ignore (ltecoex_write_indirect lte_coex_ctrl_offset lte_gnt_wl_hi_mask coex_gnt_set_sw_high)
    ignore (ltecoex_write_indirect lte_coex_ctrl_offset lte_gnt_wl_lo_mask coex_gnt_set_sw_high)

  -- A register that cannot be read ends the switch there; a failed write does not.
  pub switch_rfe : Result ℕ → M (Dev B) (Unit {0})
  switch_rfe (err e) = pure tt
  switch_rfe (ok v) =
      let v1 = bit_or (bit_and v (not32 0xff)) 0x77 in
      let v2 = bit_or (bit_and v1 (not32 0xf0000000)) 0x20000000 in
      ignore (rtw_write32 hci 0x0cb4 v2)

  pub switch_led_cfg : Result ℕ → M (Dev B) (Unit {0})
  switch_led_cfg (err e) = pure tt
  switch_led_cfg (ok v) = do
    ignore (rtw_write32 hci 0x004c (bit_or (bit_and v (not32 (2 ^ 23))) (2 ^ 24)))
    r ← attempt (rtw_read32 hci 0x0cb4)
    switch_rfe r

  pub coex_set_ant_2g_bbsw : M (Dev B) (Unit {0})
  coex_set_ant_2g_bbsw = do r ← attempt (rtw_read32 hci 0x004c); switch_led_cfg r

  -- `if (read(&v) == 0) write(change(v))`.
  pub rewrite8 : ℕ → (ℕ → ℕ) → Result ℕ → M (Dev B) (Unit {0})
  rewrite8 a change (err e) = pure tt
  rewrite8 a change (ok v) = ignore (rtw_write8 hci a (change v))

  pub rewrite16 : ℕ → (ℕ → ℕ) → Result ℕ → M (Dev B) (Unit {0})
  rewrite16 a change (err e) = pure tt
  rewrite16 a change (ok v) = ignore (rtw_write16 hci a (change v))

  pub rewrite32 : ℕ → (ℕ → ℕ) → Result ℕ → M (Dev B) (Unit {0})
  rewrite32 a change (err e) = pure tt
  rewrite32 a change (ok v) = ignore (rtw_write32 hci a (change v))

  abbrev try8 : ℕ → (ℕ → ℕ) → M (Dev B) (Unit {0})
  try8 a change = attempt (rtw_read8 hci a) >>= rewrite8 a change

  pub coex_cfg_init_default : M (Dev B) (Unit {0})
  coex_cfg_init_default = do
    try8 0x0550 (λ v. bit_or v 0x08)
    try8 0x0790 (λ v. bit_or (bit_and v (not8 0x1f)) 0x05)
    ignore (rtw_write8 hci 0x0778 0x01)
    attempt (rtw_read32 hci 0x0040) >>= rewrite32 0x0040 (λ v. bit_or v 0x220)
    try8 0x04c6 (λ v. bit_and (bit_or v 0x10) (not8 0x20))
    attempt (rtw_read16 hci 0x0762) >>= rewrite16 0x0762 (λ v. bit_or v 0x1000)
    try8 0x06cf (λ v. bit_or v 0x80)
    ignore (rtw_write32 hci 0x06c0 coex_table_wl_only)
    ignore (rtw_write32 hci 0x06c4 coex_table_wl_only)
    ignore (rtw_write32 hci 0x06c8 0xf0ffffff)

  -- The two commands: what was sent is kept only when it was sent.
  abbrev pub bt_wifi_control_msg : (b1 b2 : ℕ) → ℕ
  bt_wifi_control_msg b1 b2 = bit_or (bit_or 0x69 (b1 << 8)) (b2 << 16)

  pub coex_h2c_bt_wifi_control : (b1 b2 : ℕ) → M (Dev B) (Unit {0})
  coex_h2c_bt_wifi_control b1 b2 = do
    rtw_h2c hci 0x69 (bt_wifi_control_msg b1 b2) 0
    modify (λ (d : Dev B). record d {
      coex = record d.coex { last_bt_wifi_ctrl_payload = bt_wifi_control_msg b1 b2 };
    })
    debug_inc h2c_tx

  pub coex_h2c_tdma_type : ℕ → M (Dev B) (Unit {0})
  coex_h2c_tdma_type tdma_case = do
    rtw_h2c hci 0x60 (bit_or 0x60 (tdma_case << 8)) 0
    modify (λ (d : Dev B). record d { coex = record d.coex { current_tdma_case = tdma_case } })
    debug_inc h2c_tx

  -- Bytes 1 and 2 of the chip's payload.
  abbrev pub payload_b1 : Dev B → ℕ
  payload_b1 d = bit_and (d.chip.coex_bt_wifi_ctrl_payload / 2 ^ 8) 0xff

  abbrev pub payload_b2 : Dev B → ℕ
  payload_b2 d = bit_and (d.chip.coex_bt_wifi_ctrl_payload / 2 ^ 16) 0xff

  pub coex_pair : Dev B → M (Dev B) (Unit {0})
  coex_pair d = do
    ignore (coex_h2c_bt_wifi_control (payload_b1 d) (payload_b2 d))
    ignore (coex_h2c_tdma_type d.chip.coex_default_tdma)

  pub cfg_init : Option (M (Dev B) (Unit {0})) → M (Dev B) (Unit {0})
  cfg_init none = coex_cfg_init_default
  cfg_init (some hook) = hook

  pub coex_init : Option (M (Dev B) (Unit {0})) → M (Dev B) (Unit {0})
  coex_init hook = do
    d ← get
    ignore (cfg_init hook)
    coex_set_gnt_wonly
    coex_set_ant_2g_bbsw
    coex_pair d
    modify (λ (e : Dev B). record e { coex = record e.coex { enabled = true; bt_disabled = true } })

  pub coex_link_up : M (Dev B) (Unit {0})
  coex_link_up = do
    d ← get
    modify (λ (e : Dev B). record e {
      coex = record e.coex { link_up_count = (e.coex.link_up_count + 1) % 2 ^ 32 };
    })
    debug_inc counter_link_up
    coex_pair d

  pub coex_prepare_tx : M (Dev B) (Unit {0})
  coex_prepare_tx = do coex_set_gnt_wonly; coex_set_ant_2g_bbsw
