-- ===== src/Pci.antt =====
-- if_rtw88_pci.c: the PCI front-end, which maps the registers and takes an interrupt, and no more so
-- far. What the kernel has handed to the driver is a record of its own, `Held`; what it answers to a
-- request is a parameter.
pub mod Hci
pub mod Silent
pub mod Balance
use Prim.Native.String.{String}
use rtw88_pub.Base.{
  ℕ, ◌≡◌, Bool, true, false, ◌&&◌, List, [], ◌∷◌, Option, none, some, Result, ok, err, enxio, M,
  ◌>>=◌, ◌>>◌, pure, throw, get, modify, when, leb, ltb, ◌==◌, if◌then◌else◌,
}

pub record PciDev : Type 0 where
  pub vid : ℕ
  pub did : ℕ
  pub descr : String

-- `rtw88_pci_devs`.
unfoldable pub pci_devs : List PciDev
pci_devs =
    record { vid = 0x10ec; did = 0xb822; descr = "Realtek RTL8822BE 802.11ac WiFi" }
    ∷ record { vid = 0x10ec; did = 0xc822; descr = "Realtek RTL8822CE 802.11ac WiFi" }
    ∷ record { vid = 0x10ec; did = 0xc82f; descr = "Realtek RTL8822CE 802.11ac WiFi" }
    ∷ record { vid = 0x10ec; did = 0x8813; descr = "Realtek RTL8814AE 802.11ac WiFi" }
    ∷ []

unfoldable pub match_from : List PciDev → (vid did : ℕ) → Option PciDev
match_from [] vid did = none
match_from (e ∷ es) vid did =
    let later = match_from es vid did in if e.vid == vid && e.did == did then some e else later

unfoldable pub pci_match : (vid did : ℕ) → Option PciDev
unfolding match_from pci_devs
pci_match vid did = match_from pci_devs vid did

-- The description that is set, or ENXIO.
unfoldable pub pci_probe : (vid did : ℕ) → Result String
unfolding pci_match
pci_probe vid did = elim (pci_match vid did) [ none ↦ err enxio | some e ↦ ok e.descr ]

-- What the driver holds of the kernel: the bus mastering, the window of registers, the message
-- interrupts, the interrupt, its handler and the mutex.
pub record Held : Type 0 where
  pub busmaster : Bool
  pub bar0 : Bool
  pub msi : Bool
  pub irq : Bool
  pub handler : Bool
  pub mutex : Bool

-- How the kernel answers to an attach: the handles of the resources, if there are such, the number of
-- message interrupts, `none` where the request fails, and the first register.
pub record Answers : Type 0 where
  pub vid : ℕ
  pub did : ℕ
  pub bar0 : Option ℕ
  pub msi : Option ℕ
  pub irq : (irq_rid : ℕ) (shareable : Bool) → Option ℕ
  pub handler : Option ℕ
  pub sig : ℕ

-- `struct rtw88_pci_softc`, with what is held.
pub record PciSoftc : Type 0 where
  pub held : Held
  pub vid : ℕ
  pub did : ℕ
  pub bar0 : Option ℕ
  pub irq_rid : ℕ
  pub irq : Option ℕ
  pub msi_count : ℕ
  pub ih : Option ℕ
  pub sig : ℕ
  pub wired : Bool

abbrev pub is_some : Option ℕ → Bool
is_some none = false
is_some (some _) = true

abbrev is_positive : Option ℕ → Bool
is_positive none = false
is_positive (some n) = leb 1 n

abbrev hold : (Held → Held) → M PciSoftc (Unit {0})
hold f = modify λ (s : PciSoftc). record s { held = f s.held }

-- The two labels of the attach.
unfoldable pub fail_bar : M PciSoftc (Unit {0})
fail_bar = do
  modify (λ (s : PciSoftc). record s {
    held = record s.held { bar0 = false; busmaster = false };
    bar0 = none;
  })
  throw enxio

unfoldable pub fail_irq : M PciSoftc (Unit {0})
unfolding fail_bar
fail_irq = do
  modify (λ (s : PciSoftc). record s { held = record s.held { irq = false }; irq = none })
  s ← get
  when (ltb 0 s.msi_count) (hold (λ h. record h { msi = false }))
  fail_bar

-- One message interrupt is asked for; without, the line is shared. A grant is a grant whatever the
-- driver makes of the count.
unfoldable pub choose_msi : Option ℕ → M PciSoftc (Unit {0})
choose_msi granted = do
  hold (λ h. record h { msi = is_some granted })
  modify (λ (s : PciSoftc). record s { msi_count = 1; irq_rid = 0 })
  elim granted [
    | none ↦ modify (λ (s : PciSoftc). record s { msi_count = 0 })
    | some n ↦ modify (λ (s : PciSoftc). record s {
      msi_count = if leb 1 n then n else 0;
      irq_rid = if leb 1 n then 1 else 0;
    })
  ]

-- The signature is read and the handle wired to `rtw88_pci_hci_ops`.
unfoldable pub wire_handle : ℕ → M PciSoftc (Unit {0})
wire_handle sig = do
  modify (λ (s : PciSoftc). record s { sig = sig })
  hold (λ h. record h { mutex = true })
  modify (λ (s : PciSoftc). record s { wired = true })

unfoldable pub take_handler : Answers → Option ℕ → M PciSoftc (Unit {0})
unfolding fail_irq wire_handle
take_handler a none = fail_irq
take_handler a (some ih) = do
  modify (λ (s : PciSoftc). record s { held = record s.held { handler = true }; ih = some ih })
  wire_handle a.sig

unfoldable pub take_irq : Answers → Option ℕ → M PciSoftc (Unit {0})
unfolding fail_bar take_handler
take_irq a none = fail_bar
take_irq a (some irq) = do
  modify (λ (s : PciSoftc). record s { held = record s.held { irq = true }; irq = some irq })
  take_handler a a.handler

unfoldable pub take_bar0 : Answers → Option ℕ → M PciSoftc (Unit {0})
unfolding choose_msi take_irq
take_bar0 a none = throw enxio
take_bar0 a (some bar0) = do
  modify (λ (s : PciSoftc). record s { held = record s.held { bar0 = true }; bar0 = some bar0 })
  choose_msi a.msi
  s ← get
  take_irq a (a.irq s.irq_rid (s.msi_count == 0))

unfoldable pub pci_attach : Answers → M PciSoftc (Unit {0})
unfolding take_bar0
pci_attach a = do
  modify (λ (s : PciSoftc). record s { vid = a.vid; did = a.did })
  hold (λ h. record h { busmaster = true })
  take_bar0 a a.bar0

unfoldable pub pci_detach : M PciSoftc (Unit {0})
pci_detach = do
  s ← get
  when (is_some s.ih)
      (modify (λ (t : PciSoftc). record t { held = record t.held { handler = false }; ih = none }))
  when (is_some s.irq)
      (modify (λ (t : PciSoftc). record t { held = record t.held { irq = false }; irq = none }))
  when (ltb 0 s.msi_count)
      (modify (λ (t : PciSoftc). record t { held = record t.held { msi = false }; msi_count = 0 }))
  when (is_some s.bar0)
      (modify (λ (t : PciSoftc). record t { held = record t.held { bar0 = false }; bar0 = none }))
  when s.held.mutex (hold (λ h. record h { mutex = false }))
  hold (λ h. record h { busmaster = false })
