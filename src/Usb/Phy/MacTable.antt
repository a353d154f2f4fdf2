-- ===== src/Usb/Phy/MacTable.antt =====
-- rtw88_8821c_mac_tbl.h and `rtw88_load_mac_tbl` of if_rtw88_usb.c: the MAC table that is built in.
use rtw88_pub.Base.{ℕ, List, [], ◌∷◌, M, ◌>>◌, pure}
use rtw88_pub.Usb.Softc.{UsbDevice, Softc}
use rtw88_pub.Usb.Io.{write1}

unfoldable pub mac_tbl : List (ℕ × ℕ)
mac_tbl =
    (0x10, 0x43)
    ∷ (0x25, 0x1d)
    ∷ (0x26, 0xce)
    ∷ (0x4f, 0x1)
    ∷ (0x29, 0xf9)
    ∷ (0x420, 0x80)
    ∷ (0x421, 0x1f)
    ∷ (0x428, 0xa)
    ∷ (0x429, 0x10)
    ∷ (0x430, 0)
    ∷ (0x431, 0)
    ∷ (0x432, 0)
    ∷ (0x433, 0x1)
    ∷ (0x434, 0x4)
    ∷ (0x435, 0x5)
    ∷ (0x436, 0x7)
    ∷ (0x437, 0x8)
    ∷ (0x43c, 0x4)
    ∷ (0x43d, 0x5)
    ∷ (0x43e, 0x7)
    ∷ (0x43f, 0x8)
    ∷ (0x440, 0x5d)
    ∷ (0x441, 0x1)
    ∷ (0x442, 0)
    ∷ (0x444, 0x10)
    ∷ (0x445, 0xf0)
    ∷ (0x446, 0x1)
    ∷ (0x447, 0xfe)
    ∷ (0x448, 0)
    ∷ (0x449, 0)
    ∷ (0x44a, 0)
    ∷ (0x44b, 0x40)
    ∷ (0x44c, 0x10)
    ∷ (0x44d, 0xf0)
    ∷ (0x44e, 0x3f)
    ∷ (0x44f, 0)
    ∷ (0x450, 0)
    ∷ (0x451, 0)
    ∷ (0x452, 0)
    ∷ (0x453, 0x40)
    ∷ (0x455, 0x70)
    ∷ (0x45e, 0x4)
    ∷ (0x49c, 0x10)
    ∷ (0x49d, 0xf0)
    ∷ (0x49e, 0)
    ∷ (0x49f, 0x6)
    ∷ (0x4a0, 0xe0)
    ∷ (0x4a1, 0x3)
    ∷ (0x4a2, 0)
    ∷ (0x4a3, 0x40)
    ∷ (0x4a4, 0x15)
    ∷ (0x4a5, 0xf0)
    ∷ (0x4a6, 0)
    ∷ (0x4a7, 0x6)
    ∷ (0x4a8, 0xe0)
    ∷ (0x4a9, 0)
    ∷ (0x4aa, 0)
    ∷ (0x4ab, 0)
    ∷ (0x7da, 0x8)
    ∷ (0x1448, 0x6)
    ∷ (0x144a, 0x6)
    ∷ (0x144c, 0x6)
    ∷ (0x144e, 0x6)
    ∷ (0x4c8, 0xff)
    ∷ (0x4c9, 0x8)
    ∷ (0x4cc, 0xff)
    ∷ (0x4cd, 0xff)
    ∷ (0x4ce, 0x1)
    ∷ (0x4cf, 0x8)
    ∷ (0x500, 0x26)
    ∷ (0x501, 0xa2)
    ∷ (0x502, 0x2f)
    ∷ (0x503, 0)
    ∷ (0x504, 0x28)
    ∷ (0x505, 0xa3)
    ∷ (0x506, 0x5e)
    ∷ (0x507, 0)
    ∷ (0x508, 0x2b)
    ∷ (0x509, 0xa4)
    ∷ (0x50a, 0x5e)
    ∷ (0x50b, 0)
    ∷ (0x50c, 0x4f)
    ∷ (0x50d, 0xa4)
    ∷ (0x50e, 0)
    ∷ (0x50f, 0)
    ∷ (0x512, 0x1c)
    ∷ (0x514, 0xa)
    ∷ (0x516, 0xa)
    ∷ (0x521, 0x2f)
    ∷ (0x525, 0x4f)
    ∷ (0x551, 0x10)
    ∷ (0x559, 0x2)
    ∷ (0x55c, 0x50)
    ∷ (0x55d, 0xff)
    ∷ (0x577, 0xb)
    ∷ (0x578, 0x14)
    ∷ (0x579, 0x14)
    ∷ (0x57a, 0x14)
    ∷ (0x5be, 0x64)
    ∷ (0x605, 0x30)
    ∷ (0x608, 0xe)
    ∷ (0x609, 0x22)
    ∷ (0x60c, 0x18)
    ∷ (0x6a0, 0xff)
    ∷ (0x6a1, 0xff)
    ∷ (0x6a2, 0xff)
    ∷ (0x6a3, 0xff)
    ∷ (0x6a4, 0xff)
    ∷ (0x6a5, 0xff)
    ∷ (0x6de, 0x84)
    ∷ (0x620, 0xff)
    ∷ (0x621, 0xff)
    ∷ (0x622, 0xff)
    ∷ (0x623, 0xff)
    ∷ (0x624, 0xff)
    ∷ (0x625, 0xff)
    ∷ (0x626, 0xff)
    ∷ (0x627, 0xff)
    ∷ (0x638, 0x50)
    ∷ (0x63c, 0xa)
    ∷ (0x63d, 0xa)
    ∷ (0x63e, 0xe)
    ∷ (0x63f, 0xe)
    ∷ (0x640, 0x40)
    ∷ (0x642, 0x40)
    ∷ (0x643, 0)
    ∷ (0x652, 0xc8)
    ∷ (0x66e, 0x5)
    ∷ (0x700, 0x21)
    ∷ (0x701, 0x43)
    ∷ (0x702, 0x65)
    ∷ (0x703, 0x87)
    ∷ (0x708, 0x21)
    ∷ (0x709, 0x43)
    ∷ (0x70a, 0x65)
    ∷ (0x70b, 0x87)
    ∷ (0x718, 0x40)
    ∷ (0x7d4, 0x98)
    ∷ []

module _ {W : Type 0} (usb : UsbDevice W) where
  -- Up to the first write that fails.
  unfoldable pub load_entries : List (ℕ × ℕ) → M (Softc W) (Unit {0})
  load_entries [] = pure tt
  load_entries ((addr, value) ∷ entries) = do write1 usb addr value; load_entries entries

  unfoldable pub load_mac_tbl : M (Softc W) (Unit {0})
  unfolding mac_tbl load_entries
  load_mac_tbl = load_entries mac_tbl
