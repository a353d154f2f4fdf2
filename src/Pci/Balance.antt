-- ===== src/Pci/Balance.antt =====
-- The balance of what the PCI front-end takes and gives back.
use rtw88_pub.Base.{
  ℕ, ◌≤◌, ◌≡◌, refl, arith, Bool, true, false, not, ◌&&◌, Option, none, some, Option-cases, ok, err,
  enxio, inl, inr, leb, ltb, ◌==◌, if◌then◌else◌,
}
use rtw88_pub.Pci.{
  Held, Answers, PciSoftc, is_some, fail_bar, fail_irq, choose_msi, wire_handle, take_handler,
  take_irq, take_bar0, pci_attach, pci_detach,
}

abbrev pub nothing : Held
nothing = record {
  busmaster = false;
  bar0 = false;
  msi = false;
  irq = false;
  handler = false;
  mutex = false;
}

-- The answer to the request for an interrupt: a message interrupt where there is one, else the shared
-- line.
abbrev pub irq_answer : Answers → Option ℕ
irq_answer a = if is_some a.msi then a.irq 1 false else a.irq 0 true

-- What a failed attach leaves behind.
abbrev pub left : Answers → Held
left a =
    if not (is_some a.bar0)
    then record nothing { busmaster = true }
    else if not (is_some (irq_answer a))
    then record nothing { msi = is_some a.msi }
    else nothing

abbrev pub IsGrant : Option ℕ → Type 0
IsGrant none = Unit {0}
IsGrant (some n) = 1 ≤ n

-- How an attach ends, and the detach behind it.
abbrev pub IsBalanced : Answers → PciSoftc → Type 0
IsBalanced a s =
    let (r, s') = pci_attach a s in
    (is_some a.bar0 && is_some (irq_answer a) && is_some a.handler ≡ true
      → (r ≡ ok tt) × ((pci_detach s').0 ≡ ok tt) × ((pci_detach s').1.held ≡ nothing))
    × (is_some a.bar0 && is_some (irq_answer a) && is_some a.handler ≡ false
        → (r ≡ err enxio) × (s'.held ≡ left a))

abbrev answers :
    (vid did sig : ℕ) (bar0 msi : Option ℕ) (irq : ℕ → Bool → Option ℕ) (handler : Option ℕ)
    → Answers
answers vid did sig bar0 msi irq handler = record {
  vid = vid;
  did = did;
  bar0 = bar0;
  msi = msi;
  irq = irq;
  handler = handler;
  sig = sig;
}

module _ (vid did sig : ℕ) (irq : ℕ → Bool → Option ℕ) (s : PciSoftc)
    (empty : s.held ≡ nothing) where
  unmapped : (msi handler : Option ℕ) → IsBalanced (answers vid did sig none msi irq handler) s
  unfolding pci_attach pci_detach take_bar0
  unmapped msi handler = (λ c. cc, λ c. (refl, rw empty refl))

  refused :
      (bar0 : ℕ) (msi handler : Option ℕ)
      → IsGrant msi
      → irq_answer (answers vid did sig (some bar0) msi irq handler) ≡ none
      → IsBalanced (answers vid did sig (some bar0) msi irq handler) s
  unfolding pci_attach pci_detach take_bar0 choose_msi take_irq fail_bar
  refused bar0 none handler g e = rw e (λ c. cc, λ c. (refl, rw empty refl))
  refused bar0 (some n) handler g e =
      let many : leb 1 n ≡ true = ground arith in
      let one : (n == 0) ≡ false = ground arith in
      rw (many, one, e) (λ c. cc, λ c. (refl, rw empty refl))

  granted :
      (bar0 i : ℕ) (msi handler : Option ℕ)
      → IsGrant msi
      → irq_answer (answers vid did sig (some bar0) msi irq handler) ≡ some i
      → IsBalanced (answers vid did sig (some bar0) msi irq handler) s
  unfolding pci_attach pci_detach take_bar0 choose_msi take_irq fail_bar take_handler fail_irq
      wire_handle
  granted bar0 i none none g e = rw e (λ c. cc, λ c. (refl, rw empty refl))
  granted bar0 i none (some ih) g e = rw e (λ c. (refl, refl, refl), λ c. cc)
  granted bar0 i (some n) none g e =
      let many : leb 1 n ≡ true = ground arith in
      let one : (n == 0) ≡ false = ground arith in
      let has : ltb 0 n ≡ true = ground arith in
      rw (many, one, e, has) (λ c. cc, λ c. (refl, rw empty refl))
  granted bar0 i (some n) (some ih) g e =
      let many : leb 1 n ≡ true = ground arith in
      let one : (n == 0) ≡ false = ground arith in
      let has : ltb 0 n ≡ true = ground arith in
      rw (many, one, e, has) (λ c. (refl, refl, refl), λ c. cc)

  mapped :
      (bar0 : ℕ) (msi handler : Option ℕ)
      → IsGrant msi
      → IsBalanced (answers vid did sig (some bar0) msi irq handler) s
  mapped bar0 msi handler g =
      elim (Option-cases (irq_answer (answers vid did sig (some bar0) msi irq handler))) [
        | inl e ↦ refused bar0 msi handler g e
        | inr (i, e) ↦ granted bar0 i msi handler g e
      ]

  any_window :
      (bar0 msi handler : Option ℕ)
      → IsGrant msi
      → IsBalanced (answers vid did sig bar0 msi irq handler) s
  any_window none msi handler g = unmapped msi handler
  any_window (some bar0) msi handler g = mapped bar0 msi handler g

-- An attach from a driver that holds nothing, whatever the kernel answers (a grant of message
-- interrupts is of one at least). Where the window, the interrupt and its handler are granted, it
-- succeeds, and a detach then succeeds and gives everything back. Otherwise it fails with ENXIO, and
-- holds nothing, but for the bus mastering where the window was refused, and for the message
-- interrupts that were granted where the interrupt was refused.
pub pci_attach-IsBalanced :
    (a : Answers) (s : PciSoftc) → s.held ≡ nothing → IsGrant a.msi → IsBalanced a s
pci_attach-IsBalanced a s empty g =
    any_window a.vid a.did a.sig a.irq s empty a.bar0 a.msi a.handler g
