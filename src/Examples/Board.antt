-- ===== src/Examples/Board.antt =====
-- The PCI front-end with a concrete kernel and window: sys/dev/rtw88/if_rtw88_pci.c.
use rtw88_pub.Base.{refl, arith, false, none, some}
use rtw88_pub.Pci.{Answers, PciSoftc}
use rtw88_pub.Pci.Balance.{nothing, IsBalanced, pci_attach-IsBalanced}

-- A message interrupt is granted and then refused.
abbrev scarce : Answers
scarce = record {
  vid = 0x10ec;
  did = 0xb822;
  bar0 = some 7;
  msi = some 1;
  irq = λ rid shareable. none;
  handler = some 9;
  sig = 0;
}

abbrev fresh : PciSoftc
fresh = record {
  held = nothing;
  vid = 0;
  did = 0;
  bar0 = none;
  irq_rid = 0;
  irq = none;
  msi_count = 0;
  ih = none;
  sig = 0;
  wired = false;
}

pci_attach-IsBalanced_example : IsBalanced scarce fresh
pci_attach-IsBalanced_example = pci_attach-IsBalanced scarce fresh refl (omega arith)
