-- ===== src/Usb/Radio/Param.antt =====
-- if_rtw88_usb.c: the radio is set up once the firmware runs, rtw88_phy_set_param, with the tables,
-- the trim of the crystal and the beamforming. `tbl` is the blob of tables that firmware(9) has, if
-- it has one.
pub mod Missing
use rtw88_pub.Base.{
  ℕ, ◌+◌, ◌*◌, ◌^◌, Bool, true, false, ◌||◌, List, [], Option, none, some, Result, ok, err, M,
  ◌>>=◌, ◌>>◌, pure, get, modify, attempt, ignore, when, bit_and, bit_or, not8, not32, ◌==◌, ◌<<◌,
  take, if◌then◌else◌,
}
use rtw88_pub.Usb.Softc.{UsbDevice, Radio, Softc}
use rtw88_pub.Usb.Io.{read1, read4, write1, write2, write4, update4}
use rtw88_pub.Usb.Dig.{dig_start}
use rtw88_pub.Usb.Phy.{kind_bb, phy_walk_table, phy_load_blob, phy_replay_rf_a}
use rtw88_pub.Usb.Phy.Agc.{agc_btg_type2, agc_btg_type2_num}
use rtw88_pub.Usb.Phy.MacTable.{load_mac_tbl}
use rtw88_pub.Usb.Radio.Rf.{rfreg_mask, read_rf_a}
use rtw88_pub.Usb.Radio.Baseband.{replace}

-- A read into a local that starts as zero.
abbrev pub or_zero : Result ℕ → ℕ
or_zero (ok v) = v
or_zero (err e) = 0

-- The boards whose antenna is shared with Bluetooth.
unfoldable pub is_btg : ℕ → Bool
is_btg rfe = rfe == 0x02 || rfe == 0x04 || rfe == 0x07 || rfe == 0x0a || rfe == 0x0c || rfe == 0x0f

unfoldable pub has_agc_btg : ℕ → Bool
has_agc_btg rfe = rfe == 2 || rfe == 4

module _ {W : Type 0} (usb : UsbDevice W) where
  abbrev set_bb_rst : ℕ
  set_bb_rst = bit_or (2 ^ 0) (2 ^ 1)

  -- The baseband is powered, reset, and the radio enabled.
  unfoldable pub power_blocks : M (Softc W) (Unit {0})
  power_blocks = do
    v ← read1 usb 0x0002
    let val = bit_or v (2 ^ 6)
    write1 usb 0x0002 val
    let up = bit_or val set_bb_rst
    write1 usb 0x0002 up
    let down = bit_and up (not8 set_bb_rst)
    write1 usb 0x0002 down
    write1 usb 0x0002 (bit_or down set_bb_rst)
    write1 usb 0x001f (bit_or (bit_or (2 ^ 0) (2 ^ 1)) (2 ^ 2))
    write1 usb (0x00ec + 3) (bit_or (bit_or (2 ^ 0) (2 ^ 1)) (2 ^ 2))
    update4 usb 0x0808 (λ v'. bit_and v' (not32 (bit_or (2 ^ 28) (2 ^ 29))))

  -- Without the blob, the MAC table that is built in.
  unfoldable pub load_tbl : Option (List ℕ) → M (Softc W) (Unit {0})
  load_tbl none = load_mac_tbl usb
  load_tbl (some blob) = phy_load_blob usb blob

  -- The reads of the log lines.
  unfoldable pub canary : M (Softc W) (Unit {0})
  canary = do
    ignore (read_rf_a usb 0x7d rfreg_mask)
    ignore (read_rf_a usb 0x78 rfreg_mask)
    ignore (read_rf_a usb 0xc7 rfreg_mask)

  -- `phy_replay_rf_a` on a blob that is not there.
  unfoldable pub replay : Option (List ℕ) → M (Softc W) (Unit {0})
  replay none = phy_replay_rf_a usb []
  replay (some blob) = phy_replay_rf_a usb blob

  unfoldable pub agc_btg : Option (List ℕ) → ℕ → M (Softc W) (Unit {0})
  unfolding has_agc_btg replay
  agc_btg tbl rfe =
      when (has_agc_btg rfe)
        (do applied ← phy_walk_table usb kind_bb (take agc_btg_type2_num agc_btg_type2); replay tbl)

  unfoldable pub trim_crystal : ℕ → M (Softc W) (Unit {0})
  trim_crystal cap = do
    update4 usb 0x0024 (replace 0x7e000000 (bit_and (cap << 25) 0x7e000000))
    update4 usb 0x0028 (replace 0x7e (bit_and (cap << 1) 0x7e))
    update4 usb 0x0a2c (λ v. bit_and v (not32 (bit_or (2 ^ 18) (2 ^ 22))))
    update4 usb 0x0808 (λ v. bit_or v (bit_or (2 ^ 28) (2 ^ 29)))

  -- What the tuning to a channel puts back, and whether the antenna is shared.
  unfoldable pub snapshot : M (Softc W) (Unit {0})
  unfolding is_btg
  snapshot = do
    txsf2 ← read4 usb 0x0a24
    modify (λ (s : Softc W). record s {
      radio = record s.radio { ch_param = (txsf2, s.radio.ch_param.1, s.radio.ch_param.2) };
    })
    txsf6 ← read4 usb 0x0a28
    modify (λ (s : Softc W). record s {
      radio = record s.radio { ch_param = (s.radio.ch_param.0, txsf6, s.radio.ch_param.2) };
    })
    txfilter ← read4 usb 0x0aac
    modify (λ (s : Softc W). record s {
      radio = record s.radio {
        ch_param = (s.radio.ch_param.0, s.radio.ch_param.1, txfilter);
        rfe_btg = is_btg s.ids.rfe_option;
      };
    })

  unfoldable pub bf_phy_init : M (Softc W) (Unit {0})
  bf_phy_init = do
    mu ← attempt (read4 usb 0x14c0)
    let mu_rl =
        bit_or (bit_and (bit_or (or_zero mu) (2 ^ 16)) (not32 0xf000)) (bit_and (0xa << 12) 0xf000)
    ignore (write4 usb 0x14c0 (bit_and (bit_and mu_rl (not32 (2 ^ 7))) (not32 0x3f)))
    ignore (write1 usb 0x167c (bit_or (3 << 4) (2 ^ 6)))
    ignore (write2 usb 0x1680 0)
    txbf ← attempt (read4 usb 0x042c)
    ignore (write4 usb 0x042c (bit_or (or_zero txbf) (2 ^ 30)))
    ignore (write1 usb 0x045f 0x10)
    bbpsf ← attempt (read4 usb 0x06dc)
    ignore (write4 usb 0x06dc (replace (0x3f << 24) (4 << 24) (or_zero bbpsf)))
    ignore (write4 usb 0x1c94 0xafffafff)

  -- What follows the tables.
  unfoldable pub finish_param : ℕ → M (Softc W) (Unit {0})
  unfolding trim_crystal snapshot canary bf_phy_init
  finish_param crystal_cap = do
    trim_crystal crystal_cap
    snapshot
    canary
    dig_start usb
    bf_phy_init

  unfoldable pub phy_set_param : Option (List ℕ) → M (Softc W) (Unit {0})
  unfolding power_blocks load_tbl canary agc_btg finish_param
  phy_set_param tbl = do
    power_blocks
    load_tbl tbl
    canary
    sc ← get
    agc_btg tbl sc.ids.rfe_option
    finish_param sc.radio.crystal_cap
