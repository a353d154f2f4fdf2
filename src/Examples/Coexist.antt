-- ===== src/Examples/Coexist.antt =====
-- The theorems on coexistence at a concrete port: a cell and a word that waits to be stored.
use rtw88_pub.Base.{
  ℕ, ◌+◌, ◌%◌, ◌^◌, ◌<◌, ◌≡◌, refl, arith, true, ok, err, eio, M, bit_or, testb, has, ◌==◌,
  if◌then◌else◌, ◌<<◌,
}
use rtw88_pub.Device.{HciOps, Dev}
use rtw88_pub.Coex.{coex_set_gnt_wonly, coex_link_up, bt_wifi_control_msg, payload_b1, payload_b2}
use rtw88_pub.Coex.Grants.{LtePort, coex_set_gnt_wonly-bits}
use rtw88_pub.Coex.Follows.{sent, succeeded, coex_link_up-outcome}
use rtw88_pub.Examples.{cell, handle}

record Port : Type 0 where
  register : ℕ
  waiting : ℕ

abbrev read : ℕ → M Port ℕ
read a b = (ok (if a == 0x1700 then 2 ^ 29 else b.register % 2 ^ 32), b)

abbrev write : ℕ → ℕ → M Port (Unit {0})
write a v b = (
  ok tt,
  if a == 0x1704
      then record b { waiting = v }
      else if v == 0xc00f0038
      then record b { register = b.waiting }
      else b,
)

abbrev ops : HciOps Port
ops = record {
  read8 = read;
  read16 = read;
  read32 = read;
  write8 = write;
  write16 = write;
  write32 = write;
  read_region = λ a n b. (err eio, b);
  write_region = λ a buf b. (ok tt, b);
  h2c = λ cmd msg ext b. (ok tt, b);
}

waiting-lt : (v : ℕ) → v < 2 ^ 32 → v % 2 ^ 32 ≡ v
waiting-lt v h = omega arith

is_ready : has (2 ^ 29) (2 ^ 29) ≡ true
unfolding has
is_ready = refl

abbrev port : LtePort ops
port = record {
  cell = λ b. b.register % 2 ^ 32;
  wdata = λ b. b.waiting % 2 ^ 32;
  status = λ b. 2 ^ 29;
  polled = λ b. b;
  asked = λ b. b;
  fetched = λ b. b;
  loaded = λ v b. record b { waiting = v };
  stored = λ b. record b { register = b.waiting };
  cell-lt = λ b. omega arith;
  ready = λ b. is_ready;
  polls = λ b. refl;
  cell-polled = λ b. refl;
  asks = λ b. refl;
  fetches = λ b. refl;
  cell-fetched = λ b. refl;
  loads = λ v b h. refl;
  wdata-loaded = λ v b h. waiting-lt v h;
  stores = λ b. refl;
  cell-stored = λ b. refl;
}

abbrev device : Dev Port
device = record {
  bus = record { register = 0x12345678; waiting = 0 };
  chip = handle.chip;
  efuse = handle.efuse;
  coex = handle.coex;
  lps = handle.lps;
  bf = handle.bf;
  led = handle.led;
  regd = handle.regd;
  counters = handle.counters;
}

coex_set_gnt_wonly-bits_example :
    ((coex_set_gnt_wonly ops device).0 ≡ ok tt)
    × ((i : ℕ)
        → i < 32
        → testb (port.cell (coex_set_gnt_wonly ops device).1.bus) i
          ≡ (if testb 0xff00 i then testb 0x7700 i else testb 0x12345678 i))
    × ((coex_set_gnt_wonly ops device).1
        ≡ record device { bus = (coex_set_gnt_wonly ops device).1.bus })
coex_set_gnt_wonly-bits_example = coex_set_gnt_wonly-bits port device

coex_link_up-outcome_example :
    let first =
      cell.h2c 0x69
        (bt_wifi_control_msg cell (payload_b1 cell handle) (payload_b2 cell handle))
        0
        handle.bus in
    let second = cell.h2c 0x60 (bit_or 0x60 (handle.chip.coex_default_tdma << 8)) 0 first.1 in
    ((coex_link_up cell handle).0 ≡ ok tt)
    × ((coex_link_up cell handle).1.bus ≡ second.1)
    × ((coex_link_up cell handle).1.coex
        ≡ sent cell
            (succeeded cell first.0)
            (succeeded cell second.0)
            handle
            (record handle.coex { link_up_count = (0 + 1) % 2 ^ 32 }))
coex_link_up-outcome_example = coex_link_up-outcome cell handle
