-- ===== src/Usb/Hci.antt =====
-- if_rtw88_usb.c: `rtw88_usb_hci_ops`, the bus operations that the handle calls.
use rtw88_pub.Base.{u16}
use rtw88_pub.Device.{HciOps}
use rtw88_pub.Usb.Softc.{UsbDevice, Softc}
use rtw88_pub.Usb.Io.{read_region, write_region, read1, read2, read4, write1, write2, write4}
use rtw88_pub.Usb.Mailbox.{h2c_mailbox}

-- An address is cut to 16 bits. The command number of `h2c` is not looked at: it stands in the word.
unfoldable pub usb_hci_ops : {W : Type 0} → UsbDevice W → HciOps (Softc W)
usb_hci_ops usb = record {
  read8 = λ a. read1 usb (u16 a);
  read16 = λ a. read2 usb (u16 a);
  read32 = λ a. read4 usb (u16 a);
  write8 = λ a v. write1 usb (u16 a) v;
  write16 = λ a v. write2 usb (u16 a) v;
  write32 = λ a v. write4 usb (u16 a) v;
  read_region = λ a n. read_region usb (u16 a) (u16 n);
  write_region = λ a b. write_region usb (u16 a) b;
  h2c = λ cmd msg ext. h2c_mailbox usb msg ext;
}
