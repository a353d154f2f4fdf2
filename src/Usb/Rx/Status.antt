-- ===== src/Usb/Rx/Status.antt =====
-- rtw88_query_phy_status_8821c: the signal of a frame from its sixteen bytes of drv_info.
use rtw88_pub.Base.{
  ℕ, ◌+◌, ◌-◌, ◌*◌, ◌%◌, not, ◌&&◌, List, [], ◌∷◌, bit_and, bit_or, ltb, leb, ◌==◌, if◌then◌else◌,
  ◌<<◌, ◌>>>◌, get_or, length, le32dec, ◌≡◌, arith,
}
use rtw88_pub.Usb.Rx.{RxStat}

-- 22, 8, -6, -22, -31, -40, -46, -52.
abbrev pub lna_gain_table_0 : List ℕ
lna_gain_table_0 = 22 ∷ 8 ∷ 250 ∷ 234 ∷ 225 ∷ 216 ∷ 210 ∷ 204 ∷ []

-- 10, 6, 2, -2, -6, -10, -14, -17, -20, -24, -28, -31, -34, -37, -40, -44.
abbrev pub lna_gain_table_1 : List ℕ
lna_gain_table_1 =
    10 ∷ 6 ∷ 2 ∷ 254 ∷ 250 ∷ 246 ∷ 242 ∷ 239 ∷ 236 ∷ 232 ∷ 228 ∷ 225 ∷ 222 ∷ 219 ∷ 216 ∷ 212 ∷ []

abbrev gain_table : ℕ → List ℕ
gain_table rfe_option = if rfe_option == 0 then lna_gain_table_0 else lna_gain_table_1

-- The gain less twice the index; -120 for an index that the table lacks.
pub cck_rx_pwr : (rfe_option lna_idx vga_idx : ℕ) → ℕ
cck_rx_pwr rfe_option lna_idx vga_idx =
    if leb (length (gain_table rfe_option)) lna_idx
    then 256 - 120
    else (get_or (gain_table rfe_option) lna_idx 0 + 256 - 2 * vga_idx) % 256

-- The width from the sub-channel index, or from the mode where there is none.
pub width_of : (rxsc w3 : ℕ) → ℕ
width_of rxsc w3 =
    if leb 1 rxsc && leb rxsc 8
    then 0
    else if leb 9 rxsc && leb rxsc 12
    then 1
    else if leb 13 rxsc
    then 2
    else bit_and (w3 >>> 28) 0x03

-- `rx_power < -120 ? -120 : rx_power`.
pub at_least : ℕ → ℕ
at_least power = if leb 128 power && ltb power 136 then 136 else power

pub query_page0 : (rfe_option : ℕ) → List ℕ → RxStat → RxStat
query_page0 rfe_option ps st =
    let w3 = le32dec ps 12 in
    let vga_idx = bit_and (w3 >>> 8) 0x1f in
    let lna_idx = bit_or (bit_and (w3 >>> 13) 0x07) (bit_and (w3 >>> 23) 0x01 << 3) in
    let power = cck_rx_pwr rfe_option lna_idx vga_idx in
    record st { rx_power = power; signal_dbm = power; bw = 0 }

pub query_page1 : List ℕ → RxStat → RxStat
query_page1 ps st =
    let w1 = le32dec ps 4 in
    let power = (bit_and (le32dec ps 0 >>> 8) 0xff + 256 - 110) % 256 in
    let rxsc =
      if ltb 0x03 st.rate && ltb st.rate 0x0c
      then bit_and (w1 >>> 8) 0x0f
      else bit_and (w1 >>> 12) 0x0f in
    record st { rx_power = power; signal_dbm = at_least power; bw = width_of rxsc (le32dec ps 12) }

pub query_phy_status : (rfe_option : ℕ) → List ℕ → RxStat → RxStat
query_phy_status rfe_option ps st =
    let page = bit_and (get_or ps 0 0) 0x0f in
    if page == 0
    then query_page0 rfe_option ps st
    else if not (page == 1)
    then st
    else query_page1 ps st

-- What the status changes is not where the frame is.
abbrev pub Placed : RxStat → RxStat → Type 0
Placed st st' =
    (st'.pkt_len ≡ st.pkt_len) × (st'.drv_info_sz ≡ st.drv_info_sz) × (st'.shift ≡ st.shift)

pub query_phy_status-Placed :
    (rfe_option : ℕ) (ps : List ℕ) (st : RxStat) → Placed st (query_phy_status rfe_option ps st)
unfolding query_phy_status query_page0 query_page1
query_phy_status-Placed rfe_option ps st = ground arith
