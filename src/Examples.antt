-- ===== src/Examples.antt =====
-- Concrete adapters and handles: a bus whose addresses all are one 32-bit cell, and a USB device
-- that records what it is asked and answers every read with zeros.
mod Handle
mod Adapter
mod Radio
mod Board
mod Front
mod Receive
mod Coexist
mod Loading
mod Keying
mod Sending
mod Setup
use rtw88_pub.Base.{
  ℕ, ◌%◌, ◌^◌, ◌≡◌, refl, arith, ◌<◌, List, [], ◌∷◌, ◌++◌, replicate, Result, ok, err, Errno, eio,
  Bool, true, false, M,
}
use rtw88_pub.Device.{
  HciOps, ChipInfo, EfuseState, CoexState, LpsState, active, BfState, LedState, RegdState, Dev,
}
use rtw88_pub.Device.Registers.{Register32}
use rtw88_pub.Usb.Softc.{UsbDevice, ChipIds, Dig, Keepalive, Softc}

abbrev pub cell_read : ℕ → M ℕ ℕ
cell_read a b = (ok (b % 2 ^ 32), b)

abbrev pub cell_write : ℕ → ℕ → M ℕ (Unit {0})
cell_write a v b = (ok tt, v)

abbrev pub cell : HciOps ℕ
cell = record {
  read8 = cell_read;
  read16 = cell_read;
  read32 = cell_read;
  write8 = cell_write;
  write16 = cell_write;
  write32 = cell_write;
  read_region = λ a n b. (ok (replicate n 0), b);
  write_region = λ a buf b. (ok tt, b);
  h2c = λ cmd msg ext b. (ok tt, msg);
}

abbrev pub cell_register : (a : ℕ) → Register32 cell a
cell_register a = record {
  value = λ b. b % 2 ^ 32;
  after = λ v b. v;
  seen = λ b. b;
  value-lt = λ b. omega arith;
  reads = λ b. refl;
  value-seen = λ b. refl;
  writes = λ v b h. refl;
  value-after = λ v b h. omega arith;
}

abbrev pub chip : ChipInfo
chip = record {
  efuse_size = 512;
  efuse_ptct_size = 96;
  efuse_mac_offset = 0x107;
  efuse_xtal_k_offset = 0xb9;
  efuse_rfe_offset = 0xca;
  coex_default_tdma = 0;
  coex_bt_wifi_ctrl_payload = 0x000c0069;
  coex_tdma_type_payload = 0x60;
  coex_rfe_btg_mask = 0x20;
  lps_deep_mode_supported = 0;
  bf_su_supported = true;
  bf_mu_supported = false;
  led_supported = true;
  led_gpio_mask = 1;
  max_power_index = 0x3f;
}

abbrev pub handle : Dev ℕ
handle = record {
  bus = 0xabcd;
  chip = chip;
  efuse = record {
    valid = false;
    mac_addr = replicate 6 0;
    xtal_cap = 0;
    rfe_option = 0;
    pkg_type = 0;
    btcoex = false;
    raw = [];
  };
  coex = record {
    enabled = false;
    bt_disabled = false;
    current_tdma_case = 0;
    last_bt_wifi_ctrl_payload = 0;
    link_up_count = 0;
  };
  lps = record {
    mode = active;
    in_lps = false;
    wow = false;
    awake_interval = 1;
    smart_ps = 2;
    macid = 0;
  };
  bf = record {
    attached = true;
    su_active = false;
    mu_active = false;
    peer_mac = replicate 6 0;
    paid = 0;
    gid = 0;
  };
  led = record { attached = true; cdev = true; on = false };
  regd = record { country = 0x57 ∷ 0x57 ∷ 0 ∷ []; regd_2g = 15; regd_5g = 15 };
  counters = replicate 7 0;
}

-- The requests on the wire, the last one first: an address and the bytes written, or none.
abbrev pub wire : UsbDevice (List (ℕ × List ℕ))
wire = record {
  vendor_read = λ a n w. (ok (replicate n 0), (a, []) ∷ w);
  vendor_write = λ a buf w. (ok tt, (a, buf) ∷ w);
}

abbrev pub softc : Softc (List (ℕ × List ℕ))
softc = record {
  world = [];
  io_busy = false;
  stat_usb_errors = 0;
  h2c_box_next = 3;
  ids = record { cut_version = 1; pkg_type = 1; rfe_option = 2 };
  dig = record {
    active = true;
    igi_log = 0x20 ∷ 0x20 ∷ 0x20 ∷ 0x20 ∷ [];
    fa_log = 0 ∷ 0 ∷ 0 ∷ 0 ∷ [];
    trend_bits = 0;
    callout_armed = true;
  };
  keepalive = record {
    active = true;
    callout_armed = true;
    ra_tighten_fired = false;
    ra_tighten_mask = 0xf0000;
    rate_id = 7;
    last_rx_packets = 100;
    fw_stall_ticks = 0;
    fw_stall_logged = false;
    stat_fw_stalls = 0;
  };
  rx_packets = 100;
  radio = record {
    caps = 0x1f;
    crystal_cap = 0x20;
    rfe_btg = true;
    ch_param = (0, 0, 0);
    cur_channel = 1;
    cur_bw = 0;
    cur_primary_ch_idx = 0;
  };
}
