-- ===== src/Pci/Hci.antt =====
-- if_rtw88_pci.c: `rtw88_pci_hci_ops`, the bus operations over the window of registers, which
-- bus_space(9) reads and writes.
use rtw88_pub.Base.{ℕ, ok, eopnotsupp, throw, List}
use rtw88_pub.Device.{HciOps}

-- `bus_read_1` to `bus_write_region_1`: an access cannot fail.
pub record BusSpace (B : Type 0) : Type 0 where
  pub bus_read_1 : ℕ → B → ℕ × B
  pub bus_read_2 : ℕ → B → ℕ × B
  pub bus_read_4 : ℕ → B → ℕ × B
  pub bus_write_1 : ℕ → ℕ → B → B
  pub bus_write_2 : ℕ → ℕ → B → B
  pub bus_write_4 : ℕ → ℕ → B → B
  pub bus_read_region_1 : ℕ → ℕ → B → List ℕ × B
  pub bus_write_region_1 : ℕ → List ℕ → B → B

-- There is no mailbox yet.
unfoldable pub pci_hci_ops : {B : Type 0} → BusSpace B → HciOps B
pci_hci_ops bus = record {
  read8 = λ a b. let (v, b') = bus.bus_read_1 a b in (ok v, b');
  read16 = λ a b. let (v, b') = bus.bus_read_2 a b in (ok v, b');
  read32 = λ a b. let (v, b') = bus.bus_read_4 a b in (ok v, b');
  write8 = λ a v b. (ok tt, bus.bus_write_1 a v b);
  write16 = λ a v b. (ok tt, bus.bus_write_2 a v b);
  write32 = λ a v b. (ok tt, bus.bus_write_4 a v b);
  read_region = λ a n b. let (buf, b') = bus.bus_read_region_1 a n b in (ok buf, b');
  write_region = λ a buf b. (ok tt, bus.bus_write_region_1 a buf b);
  h2c = λ cmd msg ext. throw eopnotsupp;
}
