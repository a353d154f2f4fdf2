-- ===== src/Ps.antt =====
-- sys/dev/rtw88/rtw88_ps.c: shallow power save, the SET_PWR_MODE command and the state it leaves.
pub mod Follows
use rtw88_pub.Base.{
  ℕ, ◌*◌, ◌^◌, Bool, true, false, M, ◌>>=◌, ◌>>◌, pure, get, modify, ignore, when, bit_and, bit_or,
  ◌<<◌, if◌then◌else◌,
}
use rtw88_pub.Device.{
  HciOps, LpsMode, active, legacy, LpsState, Dev, ps_enter, ps_leave, debug_inc, rtw_h2c,
}

abbrev pub h2c_cmd_set_pwr_mode : ℕ
h2c_cmd_set_pwr_mode = 0x20

pub active_msg : ℕ → ℕ
active_msg macid = bit_or h2c_cmd_set_pwr_mode (macid << 16)

pub lps_msg : (awake_interval smart_ps : ℕ) → ℕ
lps_msg awake_interval smart_ps =
    let m1 = bit_or h2c_cmd_set_pwr_mode (1 << 8) in
    let m2 = bit_or m1 (1 << 16) in
    let m3 = bit_or m2 (bit_and smart_ps 0x3 << 20) in bit_or m3 (awake_interval << 24)

pub lps_ext : ℕ → ℕ
lps_ext macid = bit_or macid (0x0c << 8)

module _ {B : Type 0} (hci : HciOps B) where
  unfoldable pub h2c_pwr_mode_active : ℕ → M (Dev B) (Unit {0})
  h2c_pwr_mode_active macid = rtw_h2c hci h2c_cmd_set_pwr_mode (active_msg macid) (0x0c << 8)

  unfoldable pub h2c_pwr_mode_lps : (macid awake_interval smart_ps : ℕ) → M (Dev B) (Unit {0})
  h2c_pwr_mode_lps macid awake_interval smart_ps =
      rtw_h2c hci h2c_cmd_set_pwr_mode (lps_msg awake_interval smart_ps) (lps_ext macid)

  pub ps_attach : ℕ → M (Dev B) (Unit {0})
  ps_attach macid = modify (λ (d : Dev B). record d {
    lps = record {
      mode = active;
      in_lps = false;
      wow = false;
      awake_interval = 1;
      smart_ps = 2;
      macid = macid;
    };
  })

  unfoldable pub lps_enter : M (Dev B) (Unit {0})
  lps_enter = do
    d ← get
    elim d.lps.in_lps [
      | true ↦ pure tt
      | false ↦ do
        h2c_pwr_mode_lps d.lps.macid d.lps.awake_interval d.lps.smart_ps
        modify (λ (e : Dev B). record e { lps = record e.lps { mode = legacy; in_lps = true } })
        debug_inc ps_enter
    ]

  -- Out of power save the command is sent again, and nothing else changes.
  unfoldable pub lps_leave : M (Dev B) (Unit {0})
  lps_leave = do
    d ← get
    elim d.lps.in_lps [
      | false ↦ h2c_pwr_mode_active d.lps.macid
      | true ↦ do
        h2c_pwr_mode_active d.lps.macid
        modify (λ (e : Dev B). record e { lps = record e.lps { mode = active; in_lps = false } })
        debug_inc ps_leave
    ]

  pub ps_detach : M (Dev B) (Unit {0})
  ps_detach = do d ← get; when d.lps.in_lps (ignore lps_leave)

  unfoldable pub ps_notify : Bool → M (Dev B) (Unit {0})
  ps_notify wants_ps = if wants_ps then lps_enter else lps_leave
