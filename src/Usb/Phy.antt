-- ===== src/Usb/Phy.antt =====
-- if_rtw88_usb.c: the walk over the conditional PHY tables of the firmware blob. The sleeps of the
-- delay entries are left out: such an entry changes nothing.
pub mod Program
pub mod Agc
pub mod MacTable
pub mod Blob
use rtw88_pub.Base.{
  ℕ, zero, suc, ◌+◌, ◌*◌, ◌/◌, ◌%◌, ◌^◌, Bool, true, false, not, ◌&&◌, ◌||◌, List, [], ◌∷◌, Result,
  einval, enoent, M, ◌>>=◌, ◌>>◌, pure, throw, get, bit_and, bit_or, has, ◌==◌, ltb, if◌then◌else◌,
  ◌<<◌, ◌>>>◌, u8, u16, length, drop, get_or, le32dec,
}
use rtw88_pub.Usb.Softc.{UsbDevice, ChipIds, Softc}
use rtw88_pub.Usb.Io.{write1, write4}

-- `kind` is a byte of the blob; these are the ones that the driver knows.
abbrev pub kind_mac : ℕ
kind_mac = 1

abbrev pub kind_bb : ℕ
kind_bb = 2

abbrev pub kind_agc : ℕ
kind_agc = 3

abbrev pub kind_rf_a : ℕ
kind_rf_a = 4

abbrev pub cond_bit_pos : ℕ
cond_bit_pos = 2 ^ 31

abbrev pub cond_bit_neg : ℕ
cond_bit_neg = 2 ^ 30

unfoldable pub cond_branch : ℕ → ℕ
cond_branch c = bit_and (c >>> 28) 0x3

abbrev cond_cut : ℕ → ℕ
cond_cut c = bit_and (c >>> 24) 0xf

abbrev cond_pkg : ℕ → ℕ
cond_pkg c = bit_and (c >>> 12) 0xf

abbrev cond_intf : ℕ → ℕ
cond_intf c = bit_and (c >>> 8) 0xf

abbrev cond_rfe : ℕ → ℕ
cond_rfe c = bit_and c 0xff

-- A field that is 0 matches every chip, but for the RFE option.
pub phy_cond_check : ChipIds → ℕ → Bool
phy_cond_check ids cond =
    if not (cond_cut cond == 0) && not (cond_cut cond == ids.cut_version)
    then false
    else if not (cond_pkg cond == 0) && not (cond_pkg cond == ids.pkg_type)
    then false
    else if not (cond_intf cond == 0) && not (cond_intf cond == 2)
    then false
    else cond_rfe cond == ids.rfe_option

-- The locals of `rtw88_phy_walk_table`.
pub record Cond : Type 0 where
  pub pos_cond : ℕ
  pub is_matched : Bool
  pub is_skipped : Bool

abbrev pub cond_start : Cond
cond_start = record { pos_cond = 0; is_matched = true; is_skipped = false }

-- An entry with bit 31: ENDIF, ELSE, or else IF and ELIF, which only save the condition.
pub on_branch : ℕ → Cond → Cond
on_branch w0 c =
    if cond_branch w0 == 3
    then record c { is_matched = true; is_skipped = false }
    else if cond_branch w0 == 2
    then record c { is_matched = not c.is_skipped }
    else record c { pos_cond = w0 }

-- An entry with bit 30: test the saved condition, unless a branch was taken already.
pub on_check : ChipIds → Cond → Cond
on_check ids c =
    if c.is_skipped
    then record c { is_matched = false }
    else if phy_cond_check ids c.pos_cond
    then record c { is_matched = true; is_skipped = true }
    else record c { is_matched = false; is_skipped = false }

-- The delay entries of a table.
unfoldable pub is_delay : ℕ → ℕ → Bool
is_delay kind addr =
    (kind == kind_bb && ltb 0xf8 addr && ltb addr 0xff)
    || (kind == kind_rf_a && (addr == 0xffe || addr == 0xfe))

pub sipi_command : ℕ → ℕ → ℕ
sipi_command addr val = bit_and (bit_or (bit_and addr 0xff << 20) (bit_and val 0xfffff)) 0x0fffffff

-- The words of a payload, each four bytes in the order of the host, which is little-endian.
pub words_at : ℕ → List ℕ → List ℕ
words_at zero p = []
words_at (suc nwords) p = le32dec p 0 ∷ words_at nwords (drop 4 p)

abbrev has_magic : List ℕ → Bool
has_magic p =
    get_or p 0 0 == 0x52 && get_or p 1 0 == 0x38 && get_or p 2 0 == 0x38 && get_or p 3 0 == 0x54

module _ {W : Type 0} (usb : UsbDevice W) where
  unfoldable pub phy_write_rf_a : ℕ → ℕ → M (Softc W) (Unit {0})
  phy_write_rf_a addr val = write4 usb 0x0c90 (sipi_command addr val)

  unfoldable pub phy_apply : ℕ → ℕ → ℕ → M (Softc W) (Unit {0})
  phy_apply kind addr val =
      if is_delay kind addr
      then pure tt
      else if kind == kind_mac
      then write1 usb (u16 addr) (u8 val)
      else if kind == kind_bb || kind == kind_agc
      then write4 usb (u16 addr) val
      else if kind == kind_rf_a
      then phy_write_rf_a addr val
      else throw einval

  -- The entries are pairs of words; a last word without a second is not looked at. Returns how many
  -- were applied.
  unfoldable pub walk_from : ℕ → List ℕ → Cond → ℕ → M (Softc W) ℕ
  walk_from kind [] c applied = pure applied
  walk_from kind (w0 ∷ []) c applied = pure applied
  walk_from kind (w0 ∷ w1 ∷ words) c applied = elim (has w0 cond_bit_pos) [
    | true ↦ walk_from kind words (on_branch w0 c) applied
    | false ↦ elim (has w0 cond_bit_neg) [
      | true ↦ do sc ← get; walk_from kind words (on_check sc.ids c) applied
      | false ↦ elim c.is_matched [
        | true ↦ do phy_apply kind w0 w1; walk_from kind words c (applied + 1)
        | false ↦ walk_from kind words c applied
      ]
    ]
  ]

  unfoldable pub phy_walk_table : ℕ → List ℕ → M (Softc W) ℕ
  phy_walk_table kind words = walk_from kind words cond_start 0

  -- The tables that are left, `p` being the rest of the blob, `remain` bytes.
  pub load_tables : ℕ → List ℕ → M (Softc W) (Unit {0})
  load_tables zero p = pure tt
  load_tables (suc ntables) p = elim (ltb (length p) 8) [
    | true ↦ throw einval
    | false ↦ do
      let nwords = le32dec p 4
      elim (ltb (length (drop 8 p)) (nwords * 4)) [
        | true ↦ throw einval
        | false ↦ do
          applied ← phy_walk_table (get_or p 0 0) (words_at nwords (drop 8 p))
          load_tables ntables (drop (nwords * 4) (drop 8 p))
      ]
  ]

  -- "R88T", the version 1 and the number of tables.
  pub phy_load_blob : List ℕ → M (Softc W) (Unit {0})
  phy_load_blob blob =
      if ltb (length blob) 8
      then throw enoent
      else if not (has_magic blob)
      then throw einval
      else if not (get_or blob 4 0 == 1)
      then throw einval
      else load_tables (get_or blob 5 0) (drop 8 blob)

  -- The search for the RF_A table, with a bound on its rounds: each skips eight bytes at least.
  pub replay_from : ℕ → List ℕ → M (Softc W) (Unit {0})
  replay_from zero p = throw enoent
  replay_from (suc rounds) p = elim (ltb (length p) 8) [
    | true ↦ throw enoent
    | false ↦ do
      let nwords = le32dec p 4
      elim (ltb (length (drop 8 p)) (nwords * 4)) [
        | true ↦ throw einval
        | false ↦ elim (get_or p 0 0 == kind_rf_a) [
          | true ↦ do applied ← phy_walk_table (get_or p 0 0) (words_at nwords (drop 8 p)); pure tt
          | false ↦ replay_from rounds (drop (nwords * 4) (drop 8 p))
        ]
      ]
  ]

  unfoldable pub phy_replay_rf_a : List ℕ → M (Softc W) (Unit {0})
  phy_replay_rf_a blob =
      if ltb (length blob) 8
      then throw enoent
      else if not (has_magic blob)
      then throw einval
      else replay_from (length blob) (drop 8 blob)
