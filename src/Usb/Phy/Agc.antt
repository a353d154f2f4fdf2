-- ===== src/Usb/Phy/Agc.antt =====
-- rtw88_8821c_agc_btg_type2.h: the AGC table of the boards that share the antenna with Bluetooth. Each
-- block is a condition, the entry that has it tested, and what it writes.
pub mod Filled
use rtw88_pub.Base.{ℕ, List, [], ◌∷◌, ◌++◌}

unfoldable pub agc_btg_if : List ℕ
agc_btg_if =
    0x80001004 ∷ 0 ∷ 0x40000000 ∷ 0 ∷ 0x81c ∷ 0xff000013 ∷ 0x81c ∷ 0xfe020013 ∷ 0x81c ∷ 0xfd040013
    ∷ 0x81c ∷ 0xfc060013 ∷ 0x81c ∷ 0xfb080013 ∷ 0x81c ∷ 0xfa0a0013 ∷ 0x81c ∷ 0xf90c0013 ∷ 0x81c
    ∷ 0xf80e0013 ∷ 0x81c ∷ 0xf7100013 ∷ 0x81c ∷ 0xf6120013 ∷ 0x81c ∷ 0xf5140013 ∷ 0x81c ∷ 0xf4160013
    ∷ 0x81c ∷ 0xf3180013 ∷ 0x81c ∷ 0xf21a0013 ∷ 0x81c ∷ 0xf11c0013 ∷ 0x81c ∷ 0xf01e0013 ∷ 0x81c
    ∷ 0xef200013 ∷ 0x81c ∷ 0xee220013 ∷ 0x81c ∷ 0xed240013 ∷ 0x81c ∷ 0xec260013 ∷ 0x81c ∷ 0xeb280013
    ∷ 0x81c ∷ 0xea2a0013 ∷ 0x81c ∷ 0xe92c0013 ∷ 0x81c ∷ 0xe82e0013 ∷ 0x81c ∷ 0xe7300013 ∷ 0x81c
    ∷ 0x8b320013 ∷ 0x81c ∷ 0x8a340013 ∷ 0x81c ∷ 0x89360013 ∷ 0x81c ∷ 0x88380013 ∷ 0x81c ∷ 0x873a0013
    ∷ 0x81c ∷ 0x863c0013 ∷ 0x81c ∷ 0x853e0013 ∷ 0x81c ∷ 0x84400013 ∷ 0x81c ∷ 0x83420013 ∷ 0x81c
    ∷ 0x82440013 ∷ 0x81c ∷ 0x81460013 ∷ 0x81c ∷ 0x8480013 ∷ 0x81c ∷ 0x74a0013 ∷ 0x81c ∷ 0x64c0013
    ∷ 0x81c ∷ 0x54e0013 ∷ 0x81c ∷ 0x4500013 ∷ 0x81c ∷ 0x3520013 ∷ 0x81c ∷ 0x88540003 ∷ 0x81c
    ∷ 0x87560003 ∷ 0x81c ∷ 0x86580003 ∷ 0x81c ∷ 0x855a0003 ∷ 0x81c ∷ 0x845c0003 ∷ 0x81c ∷ 0x835e0003
    ∷ 0x81c ∷ 0x82600003 ∷ 0x81c ∷ 0x81620003 ∷ 0x81c ∷ 0x7640003 ∷ 0x81c ∷ 0x6660003 ∷ 0x81c
    ∷ 0x5680003 ∷ 0x81c ∷ 0x46a0003 ∷ 0x81c ∷ 0x36c0003 ∷ 0x81c ∷ 0x26e0003 ∷ 0x81c ∷ 0x1700003
    ∷ 0x81c ∷ 0x1720003 ∷ 0x81c ∷ 0x1740003 ∷ 0x81c ∷ 0x1760003 ∷ 0x81c ∷ 0x1780003 ∷ 0x81c
    ∷ 0x17a0003 ∷ 0x81c ∷ 0x17c0003 ∷ 0x81c ∷ 0x17e0003 ∷ 0x81c ∷ 0xff000813 ∷ 0x81c ∷ 0xfe020813
    ∷ 0x81c ∷ 0xfd040813 ∷ 0x81c ∷ 0xfc060813 ∷ 0x81c ∷ 0xfb080813 ∷ 0x81c ∷ 0xfa0a0813 ∷ 0x81c
    ∷ 0xf90c0813 ∷ 0x81c ∷ 0xf80e0813 ∷ 0x81c ∷ 0xf7100813 ∷ 0x81c ∷ 0xf6120813 ∷ 0x81c ∷ 0xf5140813
    ∷ 0x81c ∷ 0xf4160813 ∷ 0x81c ∷ 0xf3180813 ∷ 0x81c ∷ 0xf21a0813 ∷ 0x81c ∷ 0xf11c0813 ∷ 0x81c
    ∷ 0x941e0813 ∷ 0x81c ∷ 0x93200813 ∷ 0x81c ∷ 0x92220813 ∷ 0x81c ∷ 0x91240813 ∷ 0x81c ∷ 0x90260813
    ∷ 0x81c ∷ 0x8f280813 ∷ 0x81c ∷ 0x8e2a0813 ∷ 0x81c ∷ 0x8d2c0813 ∷ 0x81c ∷ 0x8c2e0813 ∷ 0x81c
    ∷ 0x8b300813 ∷ 0x81c ∷ 0x8a320813 ∷ 0x81c ∷ 0x89340813 ∷ 0x81c ∷ 0x88360813 ∷ 0x81c ∷ 0x87380813
    ∷ 0x81c ∷ 0x863a0813 ∷ 0x81c ∷ 0x853c0813 ∷ 0x81c ∷ 0x843e0813 ∷ 0x81c ∷ 0x83400813 ∷ 0x81c
    ∷ 0x82420813 ∷ 0x81c ∷ 0x81440813 ∷ 0x81c ∷ 0x7460813 ∷ 0x81c ∷ 0x6480813 ∷ 0x81c ∷ 0x54a0813
    ∷ 0x81c ∷ 0x44c0813 ∷ 0x81c ∷ 0x34e0813 ∷ 0x81c ∷ 0x2500813 ∷ 0x81c ∷ 0x1520813 ∷ 0x81c
    ∷ 0x88540803 ∷ 0x81c ∷ 0x87560803 ∷ 0x81c ∷ 0x86580803 ∷ 0x81c ∷ 0x855a0803 ∷ 0x81c ∷ 0x845c0803
    ∷ 0x81c ∷ 0x835e0803 ∷ 0x81c ∷ 0x82600803 ∷ 0x81c ∷ 0x81620803 ∷ 0x81c ∷ 0x7640803 ∷ 0x81c
    ∷ 0x6660803 ∷ 0x81c ∷ 0x5680803 ∷ 0x81c ∷ 0x46a0803 ∷ 0x81c ∷ 0x36c0803 ∷ 0x81c ∷ 0x26e0803
    ∷ 0x81c ∷ 0x1700803 ∷ 0x81c ∷ 0x1720803 ∷ 0x81c ∷ 0x1740803 ∷ 0x81c ∷ 0x1760803 ∷ 0x81c
    ∷ 0x1780803 ∷ 0x81c ∷ 0x17a0803 ∷ 0x81c ∷ 0x17c0803 ∷ 0x81c ∷ 0x17e0803 ∷ []

unfoldable pub agc_btg_elif : List ℕ
agc_btg_elif =
    0x90001005 ∷ 0 ∷ 0x40000000 ∷ 0 ∷ 0x81c ∷ 0xff000013 ∷ 0x81c ∷ 0xfe020013 ∷ 0x81c ∷ 0xfd040013
    ∷ 0x81c ∷ 0xfc060013 ∷ 0x81c ∷ 0xfb080013 ∷ 0x81c ∷ 0xfa0a0013 ∷ 0x81c ∷ 0xf90c0013 ∷ 0x81c
    ∷ 0xf80e0013 ∷ 0x81c ∷ 0xf7100013 ∷ 0x81c ∷ 0xf6120013 ∷ 0x81c ∷ 0xf5140013 ∷ 0x81c ∷ 0xf4160013
    ∷ 0x81c ∷ 0xf3180013 ∷ 0x81c ∷ 0xf21a0013 ∷ 0x81c ∷ 0xf11c0013 ∷ 0x81c ∷ 0xf01e0013 ∷ 0x81c
    ∷ 0xef200013 ∷ 0x81c ∷ 0xee220013 ∷ 0x81c ∷ 0xed240013 ∷ 0x81c ∷ 0xec260013 ∷ 0x81c ∷ 0xeb280013
    ∷ 0x81c ∷ 0xea2a0013 ∷ 0x81c ∷ 0xe92c0013 ∷ 0x81c ∷ 0xe82e0013 ∷ 0x81c ∷ 0xe7300013 ∷ 0x81c
    ∷ 0x8b320013 ∷ 0x81c ∷ 0x8a340013 ∷ 0x81c ∷ 0x89360013 ∷ 0x81c ∷ 0x88380013 ∷ 0x81c ∷ 0x873a0013
    ∷ 0x81c ∷ 0x863c0013 ∷ 0x81c ∷ 0x853e0013 ∷ 0x81c ∷ 0x84400013 ∷ 0x81c ∷ 0x83420013 ∷ 0x81c
    ∷ 0x82440013 ∷ 0x81c ∷ 0x81460013 ∷ 0x81c ∷ 0x8480013 ∷ 0x81c ∷ 0x74a0013 ∷ 0x81c ∷ 0x64c0013
    ∷ 0x81c ∷ 0x54e0013 ∷ 0x81c ∷ 0x4500013 ∷ 0x81c ∷ 0x3520013 ∷ 0x81c ∷ 0x88540003 ∷ 0x81c
    ∷ 0x87560003 ∷ 0x81c ∷ 0x86580003 ∷ 0x81c ∷ 0x855a0003 ∷ 0x81c ∷ 0x845c0003 ∷ 0x81c ∷ 0x835e0003
    ∷ 0x81c ∷ 0x82600003 ∷ 0x81c ∷ 0x81620003 ∷ 0x81c ∷ 0x7640003 ∷ 0x81c ∷ 0x6660003 ∷ 0x81c
    ∷ 0x5680003 ∷ 0x81c ∷ 0x46a0003 ∷ 0x81c ∷ 0x36c0003 ∷ 0x81c ∷ 0x26e0003 ∷ 0x81c ∷ 0x1700003
    ∷ 0x81c ∷ 0x1720003 ∷ 0x81c ∷ 0x1740003 ∷ 0x81c ∷ 0x1760003 ∷ 0x81c ∷ 0x1780003 ∷ 0x81c
    ∷ 0x17a0003 ∷ 0x81c ∷ 0x17c0003 ∷ 0x81c ∷ 0x17e0003 ∷ 0x81c ∷ 0xff000813 ∷ 0x81c ∷ 0xfe020813
    ∷ 0x81c ∷ 0xfd040813 ∷ 0x81c ∷ 0xfc060813 ∷ 0x81c ∷ 0xfb080813 ∷ 0x81c ∷ 0xfa0a0813 ∷ 0x81c
    ∷ 0xf90c0813 ∷ 0x81c ∷ 0xf80e0813 ∷ 0x81c ∷ 0xf7100813 ∷ 0x81c ∷ 0xf6120813 ∷ 0x81c ∷ 0xf5140813
    ∷ 0x81c ∷ 0xf4160813 ∷ 0x81c ∷ 0xf3180813 ∷ 0x81c ∷ 0xf21a0813 ∷ 0x81c ∷ 0xf11c0813 ∷ 0x81c
    ∷ 0x941e0813 ∷ 0x81c ∷ 0x93200813 ∷ 0x81c ∷ 0x92220813 ∷ 0x81c ∷ 0x91240813 ∷ 0x81c ∷ 0x90260813
    ∷ 0x81c ∷ 0x8f280813 ∷ 0x81c ∷ 0x8e2a0813 ∷ 0x81c ∷ 0x8d2c0813 ∷ 0x81c ∷ 0x8c2e0813 ∷ 0x81c
    ∷ 0x8b300813 ∷ 0x81c ∷ 0x8a320813 ∷ 0x81c ∷ 0x89340813 ∷ 0x81c ∷ 0x88360813 ∷ 0x81c ∷ 0x87380813
    ∷ 0x81c ∷ 0x863a0813 ∷ 0x81c ∷ 0x853c0813 ∷ 0x81c ∷ 0x843e0813 ∷ 0x81c ∷ 0x83400813 ∷ 0x81c
    ∷ 0x82420813 ∷ 0x81c ∷ 0x81440813 ∷ 0x81c ∷ 0x7460813 ∷ 0x81c ∷ 0x6480813 ∷ 0x81c ∷ 0x54a0813
    ∷ 0x81c ∷ 0x44c0813 ∷ 0x81c ∷ 0x34e0813 ∷ 0x81c ∷ 0x2500813 ∷ 0x81c ∷ 0x1520813 ∷ 0x81c
    ∷ 0x88540803 ∷ 0x81c ∷ 0x87560803 ∷ 0x81c ∷ 0x86580803 ∷ 0x81c ∷ 0x855a0803 ∷ 0x81c ∷ 0x845c0803
    ∷ 0x81c ∷ 0x835e0803 ∷ 0x81c ∷ 0x82600803 ∷ 0x81c ∷ 0x81620803 ∷ 0x81c ∷ 0x7640803 ∷ 0x81c
    ∷ 0x6660803 ∷ 0x81c ∷ 0x5680803 ∷ 0x81c ∷ 0x46a0803 ∷ 0x81c ∷ 0x36c0803 ∷ 0x81c ∷ 0x26e0803
    ∷ 0x81c ∷ 0x1700803 ∷ 0x81c ∷ 0x1720803 ∷ 0x81c ∷ 0x1740803 ∷ 0x81c ∷ 0x1760803 ∷ 0x81c
    ∷ 0x1780803 ∷ 0x81c ∷ 0x17a0803 ∷ 0x81c ∷ 0x17c0803 ∷ 0x81c ∷ 0x17e0803 ∷ []

unfoldable pub agc_btg_else : List ℕ
agc_btg_else =
    0xa0000000 ∷ 0 ∷ 0x81c ∷ 0xff000013 ∷ 0x81c ∷ 0xfe020013 ∷ 0x81c ∷ 0xfd040013 ∷ 0x81c
    ∷ 0xfc060013 ∷ 0x81c ∷ 0xfb080013 ∷ 0x81c ∷ 0xfa0a0013 ∷ 0x81c ∷ 0xf90c0013 ∷ 0x81c ∷ 0xf80e0013
    ∷ 0x81c ∷ 0xf7100013 ∷ 0x81c ∷ 0xf6120013 ∷ 0x81c ∷ 0xf5140013 ∷ 0x81c ∷ 0xf4160013 ∷ 0x81c
    ∷ 0xf3180013 ∷ 0x81c ∷ 0xf21a0013 ∷ 0x81c ∷ 0xf11c0013 ∷ 0x81c ∷ 0xf01e0013 ∷ 0x81c ∷ 0xef200013
    ∷ 0x81c ∷ 0xee220013 ∷ 0x81c ∷ 0xed240013 ∷ 0x81c ∷ 0xec260013 ∷ 0x81c ∷ 0xeb280013 ∷ 0x81c
    ∷ 0xea2a0013 ∷ 0x81c ∷ 0xe92c0013 ∷ 0x81c ∷ 0xe82e0013 ∷ 0x81c ∷ 0xe7300013 ∷ 0x81c ∷ 0x8a320013
    ∷ 0x81c ∷ 0x89340013 ∷ 0x81c ∷ 0x88360013 ∷ 0x81c ∷ 0x87380013 ∷ 0x81c ∷ 0x863a0013 ∷ 0x81c
    ∷ 0x853c0013 ∷ 0x81c ∷ 0x843e0013 ∷ 0x81c ∷ 0x83400013 ∷ 0x81c ∷ 0x82420013 ∷ 0x81c ∷ 0x81440013
    ∷ 0x81c ∷ 0x7460013 ∷ 0x81c ∷ 0x6480013 ∷ 0x81c ∷ 0x54a0013 ∷ 0x81c ∷ 0x44c0013 ∷ 0x81c
    ∷ 0x34e0013 ∷ 0x81c ∷ 0x2500013 ∷ 0x81c ∷ 0x1520013 ∷ 0x81c ∷ 0x88540003 ∷ 0x81c ∷ 0x87560003
    ∷ 0x81c ∷ 0x86580003 ∷ 0x81c ∷ 0x855a0003 ∷ 0x81c ∷ 0x845c0003 ∷ 0x81c ∷ 0x835e0003 ∷ 0x81c
    ∷ 0x82600003 ∷ 0x81c ∷ 0x81620003 ∷ 0x81c ∷ 0x7640003 ∷ 0x81c ∷ 0x6660003 ∷ 0x81c ∷ 0x5680003
    ∷ 0x81c ∷ 0x46a0003 ∷ 0x81c ∷ 0x36c0003 ∷ 0x81c ∷ 0x26e0003 ∷ 0x81c ∷ 0x1700003 ∷ 0x81c
    ∷ 0x1720003 ∷ 0x81c ∷ 0x1740003 ∷ 0x81c ∷ 0x1760003 ∷ 0x81c ∷ 0x1780003 ∷ 0x81c ∷ 0x17a0003
    ∷ 0x81c ∷ 0x17c0003 ∷ 0x81c ∷ 0x17e0003 ∷ 0x81c ∷ 0xff000813 ∷ 0x81c ∷ 0xfe020813 ∷ 0x81c
    ∷ 0xfd040813 ∷ 0x81c ∷ 0xfc060813 ∷ 0x81c ∷ 0xfb080813 ∷ 0x81c ∷ 0xfa0a0813 ∷ 0x81c ∷ 0xf90c0813
    ∷ 0x81c ∷ 0xf80e0813 ∷ 0x81c ∷ 0xf7100813 ∷ 0x81c ∷ 0xf6120813 ∷ 0x81c ∷ 0xf5140813 ∷ 0x81c
    ∷ 0xf4160813 ∷ 0x81c ∷ 0xf3180813 ∷ 0x81c ∷ 0xf21a0813 ∷ 0x81c ∷ 0xf11c0813 ∷ 0x81c ∷ 0x961e0813
    ∷ 0x81c ∷ 0x95200813 ∷ 0x81c ∷ 0x94220813 ∷ 0x81c ∷ 0x93240813 ∷ 0x81c ∷ 0x92260813 ∷ 0x81c
    ∷ 0x91280813 ∷ 0x81c ∷ 0x8f2a0813 ∷ 0x81c ∷ 0x8e2c0813 ∷ 0x81c ∷ 0x8d2e0813 ∷ 0x81c ∷ 0x8c300813
    ∷ 0x81c ∷ 0x8b320813 ∷ 0x81c ∷ 0x8a340813 ∷ 0x81c ∷ 0x89360813 ∷ 0x81c ∷ 0x88380813 ∷ 0x81c
    ∷ 0x873a0813 ∷ 0x81c ∷ 0x863c0813 ∷ 0x81c ∷ 0x853e0813 ∷ 0x81c ∷ 0x84400813 ∷ 0x81c ∷ 0x83420813
    ∷ 0x81c ∷ 0x82440813 ∷ 0x81c ∷ 0x8460813 ∷ 0x81c ∷ 0x7480813 ∷ 0x81c ∷ 0x64a0813 ∷ 0x81c
    ∷ 0x54c0813 ∷ 0x81c ∷ 0x44e0813 ∷ 0x81c ∷ 0x3500813 ∷ 0x81c ∷ 0x2520813 ∷ 0x81c ∷ 0x89540803
    ∷ 0x81c ∷ 0x88560803 ∷ 0x81c ∷ 0x87580803 ∷ 0x81c ∷ 0x865a0803 ∷ 0x81c ∷ 0x855c0803 ∷ 0x81c
    ∷ 0x845e0803 ∷ 0x81c ∷ 0x83600803 ∷ 0x81c ∷ 0x82620803 ∷ 0x81c ∷ 0x7640803 ∷ 0x81c ∷ 0x6660803
    ∷ 0x81c ∷ 0x5680803 ∷ 0x81c ∷ 0x46a0803 ∷ 0x81c ∷ 0x36c0803 ∷ 0x81c ∷ 0x26e0803 ∷ 0x81c
    ∷ 0x1700803 ∷ 0x81c ∷ 0x1720803 ∷ 0x81c ∷ 0x1740803 ∷ 0x81c ∷ 0x1760803 ∷ 0x81c ∷ 0x1780803
    ∷ 0x81c ∷ 0x17a0803 ∷ 0x81c ∷ 0x17c0803 ∷ 0x81c ∷ 0x17e0803 ∷ 0xb0000000 ∷ 0 ∷ []

unfoldable pub agc_btg_type2 : List ℕ
unfolding agc_btg_if agc_btg_elif agc_btg_else
agc_btg_type2 = agc_btg_if ++ agc_btg_elif ++ agc_btg_else

abbrev pub agc_btg_type2_num : ℕ
agc_btg_type2_num = 780
