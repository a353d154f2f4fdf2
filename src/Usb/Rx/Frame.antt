-- ===== src/Usb/Rx/Frame.antt =====
-- From a frame in the buffer to net80211: rtw88_rx_strip_hw_ccmp, rtw88_rx_annotate and the end of
-- rtw88_rx_one. The radiotap header is for listeners only and left out.
pub mod Ccmp
use rtw88_pub.Base.{
  ℕ, ◌+◌, ◌-◌, ◌*◌, ◌/◌, ◌%◌, ◌^◌, Bool, true, false, not, ◌&&◌, List, [], ◌∷◌, ◌++◌, M, ◌>>=◌,
  ◌>>◌, pure, get, modify, bit_and, has, ltb, leb, ◌==◌, if◌then◌else◌, ◌<<◌, ◌>>>◌, get_or, length,
  take, drop, set,
}
use rtw88_pub.Usb.Rx.{RxStat, RxParams, Delivery, Rx, RxEnv, fallback_dbm, slice, pkt_offset, up}
use rtw88_pub.Usb.Rx.Status.{query_phy_status}

abbrev pub ccmp_hdr_len : ℕ
ccmp_hdr_len = 8

abbrev pub ccmp_mic_len : ℕ
ccmp_mic_len = 8

-- `wh->i_fc[1] &= ~IEEE80211_FC1_PROTECTED`.
abbrev pub unprotected : List ℕ → List ℕ
unprotected frame = set frame 1 (bit_and (get_or frame 1 0) 0xbf)

-- The header slides over the IV: what is behind `hdrlen` and the IV stays, less the MIC.
abbrev pub without_iv : (hdrlen : ℕ) → List ℕ → List ℕ
without_iv hdrlen frame =
    take (length frame - ccmp_hdr_len - ccmp_mic_len)
      (take hdrlen frame ++ drop (hdrlen + ccmp_hdr_len) frame)

pub rx_strip_hw_ccmp : (anyhdrsize : List ℕ → ℕ) → List ℕ → List ℕ
rx_strip_hw_ccmp anyhdrsize frame =
    let hdrlen = anyhdrsize frame in
    if ltb (length frame) (24 + ccmp_hdr_len + ccmp_mic_len)
    then frame
    else if not (has (get_or frame 1 0) 0x40)
    then frame
    else if ltb (length frame) (hdrlen + ccmp_hdr_len + ccmp_mic_len)
    then frame
    else unprotected (without_iv hdrlen frame)

-- `signal_dbm + 100`, kept between 0 and 100.
unfoldable pub rssi_of : ℕ → ℕ
rssi_of signal_dbm =
    let above = (signal_dbm + 128) % 256 in
    if ltb above 28 then 0 else if ltb 128 above then 100 else above - 28

-- The moving average over the frames that have a measured signal.
unfoldable pub average_rssi : RxStat → ℕ → Rx → Rx
average_rssi st signal_dbm s =
    if not st.phy_status
    then s
    else if not s.avg_rssi_valid
    then record s { avg_rssi = rssi_of signal_dbm; avg_rssi_valid = true }
    else record s { avg_rssi = (s.avg_rssi * 7 + rssi_of signal_dbm) / 2 ^ 3 }

pub band_of : ℕ → ℕ
band_of ch = if leb 36 ch then 5 else if leb 1 ch && leb ch 14 then 2 else 0

pub freq_of : ℕ → ℕ
freq_of ch =
    if leb 36 ch
    then 5000 + ch * 5
    else if leb 1 ch && leb ch 14
    then if ch == 14 then 2484 else 2407 + ch * 5
    else 0

pub rx_params : RxEnv → RxStat → ℕ → RxParams
rx_params env st signal_dbm = record {
  c_rx_tsf = st.tsf_low;
  c_rssi = (signal_dbm + 95) % 256;
  c_rate = st.rate;
  c_width = if st.bw == 1 then 40 else if st.bw == 2 then 80 else 20;
  c_freq = freq_of env.cur_channel;
  c_ieee = env.cur_channel;
  c_band = band_of env.cur_channel;
}

unfoldable pub count_rate : ℕ → Rx → Rx
count_rate rate s =
    if leb rate 0x03
    then record s { rx_cck = up s.rx_cck }
    else if leb rate 0x0b
    then record s { rx_ofdm = up s.rx_ofdm }
    else if leb rate 0x23
    then record s { rx_mcs = up s.rx_mcs }
    else s

abbrev pub shown_dbm : RxStat → ℕ
shown_dbm st = if st.phy_status then st.signal_dbm else fallback_dbm

-- The frame as it is handed on.
pub finished : RxEnv → RxStat → List ℕ → Delivery
finished env st body = record {
  frame = if st.decrypted && st.enc_type == 4 then rx_strip_hw_ccmp env.anyhdrsize body else body;
  ampdu = env.ampdu && leb 24 st.pkt_len && bit_and (get_or (stripped) 0 0) 0x8c == 0x88;
  params = rx_params env st (shown_dbm st);
}
  where
    stripped : List ℕ
    stripped =
        if st.decrypted && st.enc_type == 4 then rx_strip_hw_ccmp env.anyhdrsize body else body

unfoldable pub rx_deliver : RxEnv → RxStat → List ℕ → M Rx (Unit {0})
rx_deliver env st body = modify (λ (s : Rx).
    let counted = count_rate st.rate (record s { rx_frames = up s.rx_frames }) in
    let averaged = average_rssi st (shown_dbm st) counted in
    record averaged { delivered = finished env st body ∷ averaged.delivered })
