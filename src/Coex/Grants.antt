-- ===== src/Coex/Grants.antt =====
-- The grants of the arbiter, over a working port of the indirect LTE registers.
use rtw88_pub.Base.{
  ℕ, zero, suc, ◌%◌, ◌^◌, ◌<◌, ◌≡◌, refl, ap, ◌∙◌, arith, Bool, true, false, not, ok, has, bit_and,
  bit_or, not32, ◌<<◌, if◌then◌else◌, testb, testb-merge, merge-lt, poll_hit,
}
use rtw88_pub.Device.{HciOps, Dev, rtw_read32, rtw_write32}
use rtw88_pub.Coex.{
  reg_ltecoex_ctrl, reg_ltecoex_wdata, reg_ltecoex_rdata, bit_ltecoex_ready, ltecoex_read_op,
  ltecoex_write_op, lte_coex_ctrl_offset, ltecoex_ready, ltecoex_read_indirect,
  ltecoex_write_indirect_raw, ltecoex_write_indirect, coex_set_gnt_wonly, lowest_from, shift_of,
  or_eio,
}

-- The port as the driver uses it: ready whenever it is looked at, a read operation makes the
-- register's value appear in RDATA, and a write operation stores WDATA. The chip is not modelled, so
-- this is a hypothesis.
pub record LtePort {B : Type 0} (hci : HciOps B) : Type 0 where
  pub cell : B → ℕ
  pub wdata : B → ℕ
  pub status : B → ℕ
  pub polled : B → B
  pub asked : B → B
  pub fetched : B → B
  pub loaded : ℕ → B → B
  pub stored : B → B
  pub cell-lt : (b : B) → cell b < 2 ^ 32
  pub ready : (b : B) → has (status b) bit_ltecoex_ready ≡ true
  pub polls : (b : B) → hci.read32 reg_ltecoex_ctrl b ≡ (ok (status b), polled b)
  pub cell-polled : (b : B) → cell (polled b) ≡ cell b
  pub asks :
      (b : B)
      → hci.write32 reg_ltecoex_ctrl (bit_or ltecoex_read_op lte_coex_ctrl_offset) b
        ≡ (ok tt, asked b)
  pub fetches : (b : B) → hci.read32 reg_ltecoex_rdata (asked b) ≡ (ok (cell b), fetched b)
  pub cell-fetched : (b : B) → cell (fetched b) ≡ cell b
  pub loads : (v : ℕ) (b : B) → v < 2 ^ 32 → hci.write32 reg_ltecoex_wdata v b ≡ (ok tt, loaded v b)
  pub wdata-loaded : (v : ℕ) (b : B) → v < 2 ^ 32 → wdata (loaded v b) ≡ v
  pub stores :
      (b : B)
      → hci.write32 reg_ltecoex_ctrl (bit_or ltecoex_write_op lte_coex_ctrl_offset) b
        ≡ (ok tt, stored b)
  pub cell-stored : (b : B) → cell (stored b) ≡ wdata b

module _ {B : Type 0} {hci : HciOps B} (port : LtePort hci) where
  abbrev merged : (mask val cur : ℕ) → ℕ
  merged mask val cur =
      bit_or (bit_and cur (not32 mask)) (bit_and ((val << shift_of mask) % 2 ^ 32) mask)

  ready-run :
      (d : Dev B)
      → ltecoex_ready hci d ≡ (ok (port.status d.bus), record d { bus = port.polled d.bus })
  unfolding ltecoex_ready rtw_read32
  ready-run d =
      poll_hit (or_eio (rtw_read32 hci reg_ltecoex_ctrl)) (λ v. has v bit_ltecoex_ready) _ 99 d _
        (port.status d.bus) (rw (port.polls d.bus) refl) (port.ready d.bus)

  read-run :
      (d : Dev B)
      → ltecoex_read_indirect hci lte_coex_ctrl_offset d
        ≡ (ok (port.cell d.bus), record d { bus = port.fetched (port.polled d.bus) })
  unfolding ltecoex_read_indirect rtw_write32 rtw_read32
  read-run d =
      rw
        (
          ready-run d,
          port.asks (port.polled d.bus),
          port.fetches (port.polled d.bus),
          port.cell-polled d.bus,
        )
        refl

  abbrev written : ℕ → Dev B → B
  written v d = port.stored (port.loaded v (port.polled d.bus))

  raw-run :
      (v : ℕ) (d : Dev B)
      → v < 2 ^ 32
      → ltecoex_write_indirect_raw hci lte_coex_ctrl_offset v d
        ≡ (ok tt, record d { bus = written v d })
  unfolding ltecoex_write_indirect_raw rtw_write32
  raw-run v d h =
      rw
        (
          ready-run d,
          port.loads v (port.polled d.bus) h,
          port.stores (port.loaded v (port.polled d.bus)),
        )
        refl

  abbrev after_write : (mask val : ℕ) → Dev B → Dev B
  after_write mask val d =
      let e = record d { bus = port.fetched (port.polled d.bus) } in
      record d { bus = written (merged mask val (port.cell d.bus)) e }

  write-run :
      (mask val : ℕ) (d : Dev B)
      → mask < 2 ^ 32
      → ltecoex_write_indirect hci lte_coex_ctrl_offset mask val d ≡ (ok tt, after_write mask val d)
  unfolding ltecoex_write_indirect
  write-run mask val d h = rw (read-run d) (
      raw-run (merged mask val (port.cell d.bus)) _
        (merge-lt 32 mask _ _ h (port.cell-lt d.bus) (omega arith)))

  cell-write :
      (mask val : ℕ) (d : Dev B)
      → mask < 2 ^ 32
      → port.cell (after_write mask val d).bus ≡ merged mask val (port.cell d.bus)
  cell-write mask val d h =
      port.cell-stored _
      ∙ port.wdata-loaded _ _ (merge-lt 32 mask _ _ h (port.cell-lt d.bus) (omega arith))

  cell-write_bits :
      (mask val : ℕ) (d : Dev B) (i : ℕ)
      → mask < 2 ^ 32
      → i < 32
      → testb (port.cell (after_write mask val d).bus) i ≡ (
          if testb mask i
          then testb ((val << shift_of mask) % 2 ^ 32) i
          else testb (port.cell d.bus) i)
  cell-write_bits mask val d i h k =
      ap (λ v. testb v i) (cell-write mask val d h)
      ∙ testb-merge 32 i mask (port.cell d.bus) ((val << shift_of mask) % 2 ^ 32) k h

  abbrev granted : Dev B → Dev B
  granted d =
      after_write 0x0300 3 (after_write 0x3000 3 (after_write 0x0c00 1 (after_write 0xc000 1 d)))

  grants-run : (d : Dev B) → coex_set_gnt_wonly hci d ≡ (ok tt, granted d)
  unfolding coex_set_gnt_wonly
  grants-run d =
      let d1 = after_write 0xc000 1 d in
      let d2 = after_write 0x0c00 1 d1 in
      let d3 = after_write 0x3000 3 d2 in
      rw
        (
          write-run 0xc000 1 d (omega arith),
          write-run 0x0c00 1 d1 (omega arith),
          write-run 0x3000 3 d2 (omega arith),
          write-run 0x0300 3 d3 (omega arith),
        )
        refl

-- The four writes against the one that they amount to, at bit `i` and for the old bit `c`.
abbrev four_writes : Bool → ℕ → Bool
four_writes c i =
    if testb 0x0300 i
    then testb ((3 << shift_of 0x0300) % 2 ^ 32) i
    else if testb 0x3000 i
    then testb ((3 << shift_of 0x3000) % 2 ^ 32) i
    else if testb 0x0c00 i
    then testb ((1 << shift_of 0x0c00) % 2 ^ 32) i
    else if testb 0xc000 i
    then testb ((1 << shift_of 0xc000) % 2 ^ 32) i
    else c

abbrev one_write : Bool → ℕ → Bool
one_write c i = if testb 0xff00 i then testb 0x7700 i else c

abbrev same : Bool → Bool → Bool
same true b = b
same false b = not b

same-eq : (a b : Bool) → same a b ≡ true → a ≡ b
same-eq true b h = ground arith
same-eq false b h = ground arith

-- Whether two bit patterns have the same lowest `w` bits.
same_bits : (f g : ℕ → Bool) → ℕ → Bool
same_bits f g zero = true
same_bits f g (suc w) = if same (f w) (g w) then same_bits f g w else false

same_bits-eq : (f g : ℕ → Bool) (w i : ℕ) → i < w → same_bits f g w ≡ true → f i ≡ g i
unfolding same_bits
same_bits-eq f g zero i lt e = absurd (omega arith)
same_bits-eq f g (suc w) i lt e = grind (arith, same-eq, same_bits-eq f g w i)

four_writes-one : (c : Bool) (i : ℕ) → i < 32 → four_writes c i ≡ one_write c i
unfolding testb lowest_from same_bits
four_writes-one true i h = same_bits-eq (four_writes true) (one_write true) 32 i h refl
four_writes-one false i h = same_bits-eq (four_writes false) (one_write false) 32 i h refl

module _ {B : Type 0} {hci : HciOps B} (port : LtePort hci) where
  -- Over a working port the register of the grants ends with Bluetooth's four bits at 01 01 and
  -- Wi-Fi's four at 11 11, that is with bits 8 to 15 as in 0x7700, every other bit is as it was, and
  -- nothing of the handle changes but what is behind the bus. The port is assumed to be ready when it
  -- is looked at and to keep what is stored.
  pub coex_set_gnt_wonly-bits :
      (d : Dev B)
      → ((coex_set_gnt_wonly hci d).0 ≡ ok tt)
        × ((i : ℕ)
            → i < 32
            → testb (port.cell (coex_set_gnt_wonly hci d).1.bus) i
              ≡ (if testb 0xff00 i then testb 0x7700 i else testb (port.cell d.bus) i))
        × ((coex_set_gnt_wonly hci d).1 ≡ record d { bus = (coex_set_gnt_wonly hci d).1.bus })
  coex_set_gnt_wonly-bits d = rw (grants-run port d) (refl, λ i h. bits i h, refl)
    where
      bits :
          (i : ℕ)
          → i < 32
          → testb (port.cell (granted port d).bus) i ≡ one_write (testb (port.cell d.bus) i) i
      bits i h =
          let d1 = after_write port 0xc000 1 d in
          let d2 = after_write port 0x0c00 1 d1 in
          let d3 = after_write port 0x3000 3 d2 in
          let w1 = cell-write_bits port 0xc000 1 d i (omega arith) h in
          let w2 = cell-write_bits port 0x0c00 1 d1 i (omega arith) h in
          let w3 = cell-write_bits port 0x3000 3 d2 i (omega arith) h in
          let w4 = cell-write_bits port 0x0300 3 d3 i (omega arith) h in
          w4 ∙ rw w3 (rw w2 (rw w1 (four_writes-one (testb (port.cell d.bus) i) i h)))
