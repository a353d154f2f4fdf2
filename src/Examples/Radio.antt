-- ===== src/Examples/Radio.antt =====
-- The radio and its tables at concrete inputs: sys/dev/rtw88/if_rtw88_usb.c.
use rtw88_pub.Base.{
  ℕ, ◌≡◌, refl, ◌⊎◌, true, false, none, List, err, Errno, eio, einval, enoent, eopnotsupp, take,
}
use rtw88_pub.Examples.{wire, softc}
use rtw88_pub.Usb.Phy.{kind_bb, phy_walk_table}
use rtw88_pub.Usb.Phy.Program.{apply_all}
use rtw88_pub.Usb.Phy.Agc.{agc_btg_type2, agc_btg_type2_num}
use rtw88_pub.Usb.Phy.Agc.Filled.{IsFilling, phy_walk_table-IsFilling}
use rtw88_pub.Usb.Radio.Channel.{is_channel, has_band, phy_set_channel}
use rtw88_pub.Usb.Radio.Channel.Tuned.{IsTuning, phy_set_channel-IsTuning}
use rtw88_pub.Usb.Radio.Param.{has_agc_btg, phy_set_param}
use rtw88_pub.Usb.Radio.Param.Missing.{phy_set_param-missing}

phy_walk_table-IsFilling_example :
    (es : List (ℕ × ℕ)) × IsFilling es
    × (phy_walk_table wire kind_bb (take agc_btg_type2_num agc_btg_type2) softc
        ≡ apply_all wire kind_bb es 0 softc)
phy_walk_table-IsFilling_example = phy_walk_table-IsFilling wire softc

phy_set_channel-IsTuning_example :
    (is_channel 36 ≡ false → phy_set_channel wire 36 2 1 softc ≡ (err einval, softc))
    × (is_channel 36 ≡ true
        → has_band 0x1f 36 ≡ false
        → phy_set_channel wire 36 2 1 softc ≡ (err eopnotsupp, softc))
    × (is_channel 36 ≡ true
        → has_band 0x1f 36 ≡ true
        → IsTuning softc 36 2 1 (phy_set_channel wire 36 2 1 softc))
phy_set_channel-IsTuning_example = phy_set_channel-IsTuning wire softc 36 2 1

phy_set_param-missing_example :
    (e : Errno) × ((phy_set_param wire none softc).0 ≡ err e) × ((e ≡ eio) ⊎ (e ≡ enoent))
unfolding has_agc_btg
phy_set_param-missing_example = phy_set_param-missing wire softc refl
