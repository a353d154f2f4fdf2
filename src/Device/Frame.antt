-- ===== src/Device/Frame.antt =====
-- The part of the handle that bus accesses leave alone.
use rtw88_pub.Base.{ℕ, M, Preserves}
use rtw88_pub.Device.{
  HciOps, Dev, on_bus, rtw_read8, rtw_read16, rtw_read32, rtw_write8, rtw_write16, rtw_write32,
  rtw_h2c,
}

-- A property that does not look behind the bus.
pub record OffBus {κ} {B : Type 0} (P : Dev B → Type κ) : Type κ where
  pub blind : (d : Dev B) (b : B) → P d → P (record d { bus = b })

module _ {κ} {B : Type 0} {P : Dev B → Type κ} (off : OffBus P) (hci : HciOps B) where
  Preserves-on_bus : {A : Type 0} (m : M B A) → Preserves P (on_bus m)
  Preserves-on_bus m = record { keeps = λ d p. off.blind d (m d.bus).1 p }

  pub Preserves-read8 : (a : ℕ) → Preserves P (rtw_read8 hci a)
  unfolding rtw_read8
  Preserves-read8 a = Preserves-on_bus (hci.read8 a)

  pub Preserves-read16 : (a : ℕ) → Preserves P (rtw_read16 hci a)
  unfolding rtw_read16
  Preserves-read16 a = Preserves-on_bus (hci.read16 a)

  pub Preserves-read32 : (a : ℕ) → Preserves P (rtw_read32 hci a)
  unfolding rtw_read32
  Preserves-read32 a = Preserves-on_bus (hci.read32 a)

  pub Preserves-write8 : (a v : ℕ) → Preserves P (rtw_write8 hci a v)
  unfolding rtw_write8
  Preserves-write8 a v = Preserves-on_bus (hci.write8 a v)

  pub Preserves-write16 : (a v : ℕ) → Preserves P (rtw_write16 hci a v)
  unfolding rtw_write16
  Preserves-write16 a v = Preserves-on_bus (hci.write16 a v)

  pub Preserves-write32 : (a v : ℕ) → Preserves P (rtw_write32 hci a v)
  unfolding rtw_write32
  Preserves-write32 a v = Preserves-on_bus (hci.write32 a v)

  pub Preserves-h2c : (cmd msg ext : ℕ) → Preserves P (rtw_h2c hci cmd msg ext)
  unfolding rtw_h2c
  Preserves-h2c cmd msg ext = Preserves-on_bus (hci.h2c cmd msg ext)
