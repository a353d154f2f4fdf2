-- ===== src/Device.antt =====
-- sys/dev/rtw88/rtw88.h: the handle `struct rtw88_dev`, the chip table and the bus interface.
-- `B` is the state behind the bus: the adapter and the kernel's side of the transport.
pub mod Registers
pub mod Frame
use rtw88_pub.Base.{
  ℕ, zero, suc, ◌+◌, ◌^◌, ◌%◌, bit_and, bit_or, Bool, List, [], ◌∷◌, Option, Result, M, ◌>>=◌, ◌>>◌,
  get, put, modify, not32, set, get_or,
}

pub record HciOps (B : Type 0) : Type 0 where
  pub read8 : ℕ → M B ℕ
  pub read16 : ℕ → M B ℕ
  pub read32 : ℕ → M B ℕ
  pub write8 : ℕ → ℕ → M B (Unit {0})
  pub write16 : ℕ → ℕ → M B (Unit {0})
  pub write32 : ℕ → ℕ → M B (Unit {0})
  pub read_region : ℕ → ℕ → M B (List ℕ)
  pub write_region : ℕ → List ℕ → M B (Unit {0})
  pub h2c : ℕ → ℕ → ℕ → M B (Unit {0})

-- `struct rtw88_chip_info`, less the names and the two hooks, which `coex_init` takes.
pub record ChipInfo : Type 0 where
  pub efuse_size : ℕ
  pub efuse_ptct_size : ℕ
  pub efuse_mac_offset : ℕ
  pub efuse_xtal_k_offset : ℕ
  pub efuse_rfe_offset : ℕ
  pub coex_default_tdma : ℕ
  pub coex_bt_wifi_ctrl_payload : ℕ
  pub coex_tdma_type_payload : ℕ
  pub coex_rfe_btg_mask : ℕ
  pub lps_deep_mode_supported : ℕ
  pub bf_su_supported : Bool
  pub bf_mu_supported : Bool
  pub led_supported : Bool
  pub led_gpio_mask : ℕ
  pub max_power_index : ℕ

pub record EfuseState : Type 0 where
  pub valid : Bool
  pub mac_addr : List ℕ
  pub xtal_cap : ℕ
  pub rfe_option : ℕ
  pub pkg_type : ℕ
  pub btcoex : Bool
  pub raw : List ℕ

pub record CoexState : Type 0 where
  pub enabled : Bool
  pub bt_disabled : Bool
  pub current_tdma_case : ℕ
  pub last_bt_wifi_ctrl_payload : ℕ
  pub link_up_count : ℕ

pub data LpsMode : Type 0 where
  active legacy uapsd wmmps : LpsMode

pub record LpsState : Type 0 where
  pub mode : LpsMode
  pub in_lps : Bool
  pub wow : Bool
  pub awake_interval : ℕ
  pub smart_ps : ℕ
  pub macid : ℕ

pub record BfState : Type 0 where
  pub attached : Bool
  pub su_active : Bool
  pub mu_active : Bool
  pub peer_mac : List ℕ
  pub paid : ℕ
  pub gid : ℕ

-- `cdev` is whether /dev/led/<name> exists.
pub record LedState : Type 0 where
  pub attached : Bool
  pub cdev : Bool
  pub on : Bool

pub record RegdState : Type 0 where
  pub country : List ℕ
  pub regd_2g : ℕ
  pub regd_5g : ℕ

pub record Dev (B : Type 0) : Type 0 where
  pub bus : B
  pub chip : ChipInfo
  pub efuse : EfuseState
  pub coex : CoexState
  pub lps : LpsState
  pub bf : BfState
  pub led : LedState
  pub regd : RegdState
  pub counters : List ℕ

-- `enum rtw88_debug_counter` and `rtw88_debug_inc`. The counters are one static block, which the
-- handle carries here; each is a `uint64_t`.
pub data Counter : Type 0 where
  coex_link_up ps_enter ps_leave bf_assoc regd_change h2c_tx c2h_rx : Counter

unfoldable pub index : Counter → ℕ
index coex_link_up = 0
index ps_enter = 1
index ps_leave = 2
index bf_assoc = 3
index regd_change = 4
index h2c_tx = 5
index c2h_rx = 6

module _ {B : Type 0} where
  unfoldable pub debug_inc : Counter → M (Dev B) (Unit {0})
  unfolding index
  debug_inc c = modify λ d. record d {
    counters = set d.counters (index c) ((get_or d.counters (index c) 0 + 1) % 2 ^ 64);
  }

  -- A call through `hci_ops` changes what is behind the bus and nothing of the handle.
  abbrev pub on_bus : {A : Type 0} → M B A → M (Dev B) A
  on_bus m d = let (r, b) = m d.bus in (r, record d { bus = b })

  unfoldable pub rtw_read8 : HciOps B → ℕ → M (Dev B) ℕ
  rtw_read8 hci a = on_bus (hci.read8 a)

  unfoldable pub rtw_read16 : HciOps B → ℕ → M (Dev B) ℕ
  rtw_read16 hci a = on_bus (hci.read16 a)

  unfoldable pub rtw_read32 : HciOps B → ℕ → M (Dev B) ℕ
  rtw_read32 hci a = on_bus (hci.read32 a)

  unfoldable pub rtw_write8 : HciOps B → ℕ → ℕ → M (Dev B) (Unit {0})
  rtw_write8 hci a v = on_bus (hci.write8 a v)

  unfoldable pub rtw_write16 : HciOps B → ℕ → ℕ → M (Dev B) (Unit {0})
  rtw_write16 hci a v = on_bus (hci.write16 a v)

  unfoldable pub rtw_write32 : HciOps B → ℕ → ℕ → M (Dev B) (Unit {0})
  rtw_write32 hci a v = on_bus (hci.write32 a v)

  unfoldable pub rtw_h2c : HciOps B → ℕ → ℕ → ℕ → M (Dev B) (Unit {0})
  rtw_h2c hci cmd msg ext = on_bus (hci.h2c cmd msg ext)

  -- Read, change the bits of the mask, write back.
  unfoldable pub rtw_rmw32 : HciOps B → ℕ → ℕ → ℕ → M (Dev B) (Unit {0})
  unfolding rtw_read32 rtw_write32
  rtw_rmw32 hci a mask val = do
    v ← rtw_read32 hci a
    rtw_write32 hci a (bit_or (bit_and v (not32 mask)) (bit_and val mask))
