-- ===== src/Usb/Rx.antt =====
-- if_rtw88_usb.c: the receive path, its state and the receive descriptor. What the kernel gives is in
-- `RxEnv`. An `int8_t` is its bit pattern, 0 to 255. Tracing prints only, and so does rtw88_eapol_log,
-- whose look into a frame is that of Usb/Tx and whose optional register write is off by default.
pub mod C2h
pub mod Status
pub mod Frame
pub mod Bulk
use rtw88_pub.Base.{
  ℕ, ◌+◌, ◌-◌, ◌*◌, ◌/◌, ◌%◌, ◌^◌, Bool, true, false, not, ◌&&◌, List, M, pure, throw, undefined,
  modify, bit_and, has, leb, ◌==◌, if◌then◌else◌, ◌<<◌, ◌>>>◌, length, take, drop, le32dec,
}

-- `struct rtw88_rx_stat`.
pub record RxStat : Type 0 where
  pub pkt_len : ℕ
  pub drv_info_sz : ℕ
  pub shift : ℕ
  pub rate : ℕ
  pub bw : ℕ
  pub enc_type : ℕ
  pub crc_err : Bool
  pub icv_err : Bool
  pub swdec : Bool
  pub phy_status : Bool
  pub is_c2h : Bool
  pub decrypted : Bool
  pub signal_dbm : ℕ
  pub rx_power : ℕ
  pub tsf_low : ℕ

-- `struct ieee80211_rx_stats`, the fields that depend on the frame. A band is 0, 2 or 5.
pub record RxParams : Type 0 where
  pub c_rx_tsf : ℕ
  pub c_rssi : ℕ
  pub c_rate : ℕ
  pub c_width : ℕ
  pub c_freq : ℕ
  pub c_ieee : ℕ
  pub c_band : ℕ

-- A frame as net80211 gets it.
pub record Delivery : Type 0 where
  pub frame : List ℕ
  pub ampdu : Bool
  pub params : RxParams

-- The fields of the softc that the receive path uses, and the static `shift_seen_mask` of rtw88_rx_one.
-- `delivered` are the frames that net80211 was
-- given, the last one first.
pub record Rx : Type 0 where
  pub rx_packets : ℕ
  pub rx_frames : ℕ
  pub rx_errors : ℕ
  pub ierrors : ℕ
  pub rx_drops : ℕ
  pub rx_cck : ℕ
  pub rx_ofdm : ℕ
  pub rx_mcs : ℕ
  pub stat_c2h : ℕ
  pub stat_c2h_unknown : ℕ
  pub tx_acked : ℕ
  pub tx_xretries : ℕ
  pub avg_rssi : ℕ
  pub avg_rssi_valid : Bool
  pub shift_seen : ℕ
  pub delivered : List Delivery

-- Whether `m_get2` answers with an mbuf of a size, and `ieee80211_anyhdrsize`; then the
-- fields that the path only reads, `sc_rfe_option`, `sc_ampdu` and `sc_cur_channel`.
pub record RxEnv : Type 0 where
  pub m_get2 : Rx → ℕ → Bool
  pub anyhdrsize : List ℕ → ℕ
  pub rfe_option : ℕ
  pub ampdu : Bool
  pub cur_channel : ℕ

-- Reads of a buffer: outside it they are undefined.
unfoldable pub slice : List ℕ → (off len : ℕ) → M Rx (List ℕ)
slice buf off len =
    if leb (off + len) (length buf) then pure (take len (drop off buf)) else throw undefined

unfoldable pub word : List ℕ → ℕ → M Rx ℕ
word buf off = if leb (off + 4) (length buf) then pure (le32dec buf off) else throw undefined

abbrev pub rx_desc_sz : ℕ
rx_desc_sz = 24

-- -75 dBm.
abbrev pub fallback_dbm : ℕ
fallback_dbm = 256 - 75

-- The descriptor's words 0, 2, 3, 4 and 5.
unfoldable pub decode : (w0 w2 w3 w4 w5 : ℕ) → RxStat
decode w0 w2 w3 w4 w5 = record {
  pkt_len = bit_and w0 0x3fff;
  drv_info_sz = (bit_and w0 0x000f0000 >>> 16) * 8;
  shift = bit_and w0 0x03000000 >>> 24;
  rate = bit_and w3 0x7f;
  bw = bit_and w4 0x30 >>> 4;
  enc_type = bit_and w0 0x00700000 >>> 20;
  crc_err = has w0 (2 ^ 14);
  icv_err = has w0 (2 ^ 15);
  swdec = has w0 (2 ^ 27);
  phy_status = has w0 (2 ^ 26);
  is_c2h = has w2 (2 ^ 28);
  decrypted = not (has w0 (2 ^ 27)) && not (bit_and w0 0x00700000 >>> 20 == 0);
  signal_dbm = fallback_dbm;
  rx_power = fallback_dbm;
  tsf_low = w5;
}

-- The status that a packet's own descriptor gives.
unfoldable pub stat_of : List ℕ → RxStat
unfolding decode
stat_of p = decode (le32dec p 0) (le32dec p 8) (le32dec p 12) (le32dec p 16) (le32dec p 20)

-- Where the packet starts, where it ends, and where the next one does.
abbrev pub pkt_offset : RxStat → ℕ
pkt_offset st = rx_desc_sz + st.drv_info_sz + st.shift

abbrev pub total : RxStat → ℕ
total st = pkt_offset st + st.pkt_len

-- `(total + 7) & ~7`.
abbrev pub aligned : RxStat → ℕ
aligned st = (total st + 7) / 8 * 8

-- A counter of 64 bits.
abbrev pub up : ℕ → ℕ
up n = (n + 1) % 2 ^ 64
