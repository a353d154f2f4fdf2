-- ===== src/Usb/Power/Tables.antt =====
-- sys/dev/rtw88/rtw88_8821c_power.h: the power sequences of the 8821C, in the order of the source:
-- offset, cut, interfaces, base, command, mask and value.
use rtw88_pub.Base.{List, [], ◌∷◌}
use rtw88_pub.Usb.Power.{PwrRow, row}

abbrev pub trans_carddis_to_cardemu_8821c : List PwrRow
trans_carddis_to_cardemu_8821c =
    row 0x0086 0xff 0x1 3 1 0x01 0x00
    ∷ row 0x0086 0xff 0x1 3 2 0x02 0x02
    ∷ row 0x004a 0xff 0x2 0 1 0x01 0x00
    ∷ row 0x0005 0xff 0xf 0 1 0x98 0x00
    ∷ row 0x0300 0xff 0x4 0 1 0xff 0x00
    ∷ row 0x0301 0xff 0x4 0 1 0xff 0x00
    ∷ row 0xffff 0xff 0xf 0 4 0x00 0x00
    ∷ []

abbrev pub trans_cardemu_to_act_8821c : List PwrRow
trans_cardemu_to_act_8821c =
    row 0x0020 0xff 0x3 0 1 0x01 0x01
    ∷ row 0x0001 0xff 0x3 0 3 0x01 0x01
    ∷ row 0x0000 0xff 0x3 0 1 0x20 0x00
    ∷ row 0x0005 0xff 0xf 0 1 0x1c 0x00
    ∷ row 0x0075 0xff 0x4 0 1 0x01 0x01
    ∷ row 0x0006 0xff 0xf 0 2 0x02 0x02
    ∷ row 0x0075 0xff 0x4 0 1 0x01 0x00
    ∷ row 0x0006 0xff 0xf 0 1 0x01 0x01
    ∷ row 0x0005 0xff 0xf 0 1 0x80 0x00
    ∷ row 0x0005 0xff 0xf 0 1 0x18 0x00
    ∷ row 0x10c3 0xff 0x2 0 1 0x01 0x01
    ∷ row 0x0005 0xff 0xf 0 1 0x01 0x01
    ∷ row 0x0005 0xff 0xf 0 2 0x01 0x00
    ∷ row 0x0020 0xff 0xf 0 1 0x08 0x08
    ∷ row 0x0074 0xff 0x4 0 1 0x20 0x20
    ∷ row 0x0022 0xff 0x4 0 1 0x02 0x00
    ∷ row 0x0062 0xff 0x4 0 1 0xe0 0xe0
    ∷ row 0x0061 0xff 0x4 0 1 0xe0 0x00
    ∷ row 0x007c 0xff 0xf 0 1 0x02 0x00
    ∷ row 0xffff 0xff 0xf 0 4 0x00 0x00
    ∷ []

abbrev pub trans_act_to_cardemu_8821c : List PwrRow
trans_act_to_cardemu_8821c =
    row 0x0093 0xff 0xf 0 1 0x08 0x00
    ∷ row 0x001f 0xff 0xf 0 1 0xff 0x00
    ∷ row 0x0049 0xff 0xf 0 1 0x02 0x00
    ∷ row 0x0006 0xff 0xf 0 1 0x01 0x01
    ∷ row 0x0002 0xff 0xf 0 1 0x02 0x00
    ∷ row 0x10c3 0xff 0x2 0 1 0x01 0x00
    ∷ row 0x0005 0xff 0xf 0 1 0x02 0x02
    ∷ row 0x0005 0xff 0xf 0 2 0x02 0x00
    ∷ row 0x0020 0xff 0xf 0 1 0x08 0x00
    ∷ row 0x0000 0xff 0x3 0 1 0x20 0x20
    ∷ row 0xffff 0xff 0xf 0 4 0x00 0x00
    ∷ []

abbrev pub trans_cardemu_to_carddis_8821c : List PwrRow
trans_cardemu_to_carddis_8821c =
    row 0x0007 0xff 0x3 0 1 0xff 0x20
    ∷ row 0x0067 0xff 0xf 0 1 0x20 0x00
    ∷ row 0x004a 0xff 0x2 0 1 0x01 0x00
    ∷ row 0x0081 0xff 0xf 0 1 0xc0 0x00
    ∷ row 0x0005 0xff 0x3 0 1 0x18 0x08
    ∷ row 0x0090 0xff 0x6 0 1 0x02 0x00
    ∷ row 0xffff 0xff 0xf 0 4 0x00 0x00
    ∷ []

abbrev pub card_enable_flow : List (List PwrRow)
card_enable_flow = trans_carddis_to_cardemu_8821c ∷ trans_cardemu_to_act_8821c ∷ []

abbrev pub card_disable_flow : List (List PwrRow)
card_disable_flow = trans_act_to_cardemu_8821c ∷ trans_cardemu_to_carddis_8821c ∷ []
