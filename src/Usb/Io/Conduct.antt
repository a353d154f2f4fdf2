-- ===== src/Usb/Io/Conduct.antt =====
-- Register access fails with EIO only and keeps what does not look at it.
use rtw88_pub.Base.{ℕ, Errno, eio, Careful, Careful-bind}
use rtw88_pub.Usb.Softc.{UsbDevice, Softc}
use rtw88_pub.Usb.Io.{read1, read4, write1, write2, write4, update1, update4, setbits1, clrbits1}
use rtw88_pub.Usb.Io.Access.{
  OffIo, Preserves-read1, Preserves-read4, Preserves-write1, Preserves-write2, Preserves-write4,
}
use rtw88_pub.Usb.Io.Failing.{Fails-read1, Fails-read4, Fails-write1, Fails-write2, Fails-write4}

module _ {κ μ} {W : Type 0} {E : Errno → Type κ} {P : Softc W → Type μ} (allowed : E eio)
    (off : OffIo P) (usb : UsbDevice W) where
  pub Careful-read1 : (addr : ℕ) → Careful E P (read1 usb addr)
  Careful-read1 addr = record {
    fails = Fails-read1 E allowed usb addr;
    preserves = Preserves-read1 off usb addr;
  }

  pub Careful-read4 : (addr : ℕ) → Careful E P (read4 usb addr)
  Careful-read4 addr = record {
    fails = Fails-read4 E allowed usb addr;
    preserves = Preserves-read4 off usb addr;
  }

  pub Careful-write1 : (addr val : ℕ) → Careful E P (write1 usb addr val)
  Careful-write1 addr val = record {
    fails = Fails-write1 E allowed usb addr val;
    preserves = Preserves-write1 off usb addr val;
  }

  pub Careful-write2 : (addr val : ℕ) → Careful E P (write2 usb addr val)
  Careful-write2 addr val = record {
    fails = Fails-write2 E allowed usb addr val;
    preserves = Preserves-write2 off usb addr val;
  }

  pub Careful-write4 : (addr val : ℕ) → Careful E P (write4 usb addr val)
  Careful-write4 addr val = record {
    fails = Fails-write4 E allowed usb addr val;
    preserves = Preserves-write4 off usb addr val;
  }

  pub Careful-update1 : (addr : ℕ) (change : ℕ → ℕ) → Careful E P (update1 usb addr change)
  Careful-update1 addr change =
      Careful-bind (Careful-read1 addr) λ v. Careful-write1 addr (change v)

  pub Careful-update4 : (addr : ℕ) (change : ℕ → ℕ) → Careful E P (update4 usb addr change)
  Careful-update4 addr change =
      Careful-bind (Careful-read4 addr) λ v. Careful-write4 addr (change v)

  pub Careful-setbits1 : (addr bits : ℕ) → Careful E P (setbits1 usb addr bits)
  unfolding setbits1
  Careful-setbits1 addr bits = Careful-bind (Careful-read1 addr) λ v. Careful-write1 addr _

  pub Careful-clrbits1 : (addr bits : ℕ) → Careful E P (clrbits1 usb addr bits)
  unfolding clrbits1
  Careful-clrbits1 addr bits = Careful-bind (Careful-read1 addr) λ v. Careful-write1 addr _
