-- ===== src/Efuse/Read.antt =====
-- rtw88_efuse.c: the register protocol of one byte, the physical map, and `rtw88_efuse_read`.
pub mod Cache
use rtw88_pub.Base.{
  ℕ, zero, suc, ◌+◌, ◌^◌, Bool, true, false, not, List, [], ◌∷◌, M, ◌>>=◌, ◌>>◌, pure, throw, get,
  modify, ignore, poll, Errno, etimedout, undefined, bit_and, bit_or, not32, not8, has, leb, ltb,
  length, ◌&&◌, ◌==◌, if◌then◌else◌, ◌<<◌, get_or, take, drop,
}
use rtw88_pub.Device.{
  HciOps, ChipInfo, EfuseState, Dev, rtw_read8, rtw_read32, rtw_write8, rtw_write32,
}
use rtw88_pub.Efuse.{Outcome, done, failed, fault, stuck, logical_walk}

abbrev pub reg_efuse_ctrl : ℕ
reg_efuse_ctrl = 0x30

abbrev pub bit_ef_flag : ℕ
bit_ef_flag = 2 ^ 31

abbrev bit_mask_ef_addr : ℕ
bit_mask_ef_addr = 0x3ff

abbrev bit_mask_ef_data : ℕ
bit_mask_ef_data = 0xff

abbrev bits_ef_addr : ℕ
bits_ef_addr = 0x3ff00

abbrev reg_ldo_efuse_ctrl : ℕ
reg_ldo_efuse_ctrl = 0x34

abbrev bit_mask_efuse_bank_sel : ℕ
bit_mask_efuse_bank_sel = 0x300

abbrev reg_macid0 : ℕ
reg_macid0 = 0x610

-- The control word that asks for the byte at `addr`, from the register's old value.
pub request : ℕ → ℕ → ℕ
request addr val =
    let cleared = bit_and val (not32 (bit_or bit_mask_ef_data bits_ef_addr)) in
    let addressed = bit_or cleared (bit_and addr bit_mask_ef_addr << 8) in
    bit_and addressed (not32 bit_ef_flag)

-- A walk that fails, as an error return. The other two do not occur: see `Efuse.Total`.
abbrev pub settle : {S : Type 0} → Outcome (List ℕ) → M S (List ℕ)
settle (done log) = pure log
settle (failed e log) = throw e
settle fault = throw undefined
settle stuck = throw undefined

-- The map fits `raw`, and what is read of it is inside it.
pub is_extractable : ChipInfo → List ℕ → Bool
is_extractable chip log =
    leb (length log) 512
    && leb (chip.efuse_mac_offset + 6) (length log)
    && ltb chip.efuse_xtal_k_offset (length log)
    && ltb chip.efuse_rfe_offset (length log)

-- What `rtw88_efuse_read` keeps of such a map.
pub extract : ChipInfo → List ℕ → EfuseState
extract chip log = record {
  valid = true;
  mac_addr = take 6 (drop chip.efuse_mac_offset log);
  xtal_cap = bit_and (get_or log chip.efuse_xtal_k_offset 0) 0x3f;
  rfe_option = rfe_option;
  pkg_type = if has (get_or log chip.efuse_rfe_offset 0) (2 ^ 5) then 1 else 0;
  btcoex = has (2 ^ rfe_option) chip.coex_rfe_btg_mask;
  raw = log;
}
  where
    rfe_option : ℕ
    rfe_option = bit_and (get_or log chip.efuse_rfe_offset 0) 0x1f

module _ {B : Type 0} (hci : HciOps B) where
  pub read_phys_byte : ℕ → M (Dev B) ℕ
  read_phys_byte addr = do
    val ← rtw_read32 hci reg_efuse_ctrl
    rtw_write32 hci reg_efuse_ctrl (request addr val)
    val' ← poll 1000 (rtw_read32 hci reg_efuse_ctrl) (λ v. has v bit_ef_flag) etimedout
    pure (bit_and val' bit_mask_ef_data)

  -- The bytes from `addr` on, `left` of them.
  pub read_phys_bytes : ℕ → ℕ → M (Dev B) (List ℕ)
  read_phys_bytes zero addr = pure []
  read_phys_bytes (suc left) addr = do
    byte ← read_phys_byte addr
    rest ← read_phys_bytes left (addr + 1)
    pure (byte ∷ rest)

  -- `switch_efuse_bank` and `cfg_ldo25(false)` come first.
  pub read_phys_map : M (Dev B) (List ℕ)
  read_phys_map = do
    ldo ← rtw_read32 hci reg_ldo_efuse_ctrl
    rtw_write32 hci reg_ldo_efuse_ctrl (bit_and ldo (not32 bit_mask_efuse_bank_sel))
    ldo_pwr ← rtw_read8 hci (reg_ldo_efuse_ctrl + 3)
    rtw_write8 hci (reg_ldo_efuse_ctrl + 3) (bit_and ldo_pwr (not8 (2 ^ 7)))
    d ← get
    read_phys_bytes d.chip.efuse_size 0

  -- The station's own address goes to the receive filter; write errors are dropped.
  pub program_macid : List ℕ → ℕ → M (Dev B) (Unit {0})
  program_macid [] a = pure tt
  program_macid (b ∷ mac) a = do ignore (rtw_write8 hci a b); program_macid mac (a + 1)

  pub keep_map : List ℕ → M (Dev B) (Unit {0})
  keep_map log = do
    d ← get
    modify (λ (e : Dev B). record e { efuse = extract d.chip log })
    program_macid (extract d.chip log).mac_addr reg_macid0

  -- The part of `rtw88_efuse_read` that follows the map. A read outside the logical map, or a copy
  -- past the end of `raw`, is undefined.
  pub cache_map : List ℕ → M (Dev B) (Unit {0})
  cache_map phy = do
    d ← get
    log ← settle (logical_walk d.chip.efuse_size d.chip.efuse_ptct_size phy)
    if is_extractable d.chip log then keep_map log else throw undefined

  pub efuse_read : M (Dev B) (Unit {0})
  efuse_read = read_phys_map >>= cache_map
