-- ===== src/Examples/Receive.antt =====
-- The theorems on the receive path at concrete transfers.
use rtw88_pub.Base.{
  ℕ, ◌≡◌, zero, suc, ◌*◌, refl, inl, length-drop, arith, true, false, List, [], ◌∷◌, ◌++◌, ok, has,
  replicate,
}
use rtw88_pub.Usb.Rx.{Rx, stat_of, RxEnv, up}
use rtw88_pub.Usb.Rx.Bulk.{bulk_rx}
use rtw88_pub.Usb.Rx.Bulk.Total.{IsSound, bulk_rx-total}
use rtw88_pub.Usb.Rx.Bulk.Rssi.{IsScaled, bulk_rx-IsScaled}
use rtw88_pub.Usb.Rx.Bulk.Aggregate.{IsPacket, concat, each_packet, bulk_rx-packets}
use rtw88_pub.Usb.Rx.Frame.{rx_strip_hw_ccmp, unprotected}
use rtw88_pub.Usb.Rx.Frame.Ccmp.{hardware, rx_strip_hw_ccmp-hardware}

abbrev idle : Rx
idle = record {
  rx_packets = 0;
  rx_frames = 0;
  rx_errors = 0;
  ierrors = 0;
  rx_drops = 0;
  rx_cck = 0;
  rx_ofdm = 0;
  rx_mcs = 0;
  stat_c2h = 0;
  stat_c2h_unknown = 0;
  tx_acked = 0;
  tx_xretries = 0;
  avg_rssi = 40;
  avg_rssi_valid = true;
  shift_seen = 0;
  delivered = [];
}

abbrev env : RxEnv
env = record {
  m_get2 = λ s n. true;
  anyhdrsize = λ frame. 24;
  rfe_option = 0;
  ampdu = false;
  cur_channel = 6;
}

-- A frame of twelve bytes with its FCS, padded to 40.
abbrev beacon : List ℕ
beacon = 12 ∷ replicate 23 0 ++ 0x80 ∷ replicate 15 0

-- A transmit report.
abbrev report : List ℕ
report = 3 ∷ replicate 10 0 ++ 0x10 ∷ replicate 12 0 ++ 0x03 ∷ 7 ∷ 0x40 ∷ replicate 5 0

beacon-IsPacket : IsPacket beacon
unfolding stat_of
beacon-IsPacket = (omega arith, refl, omega arith, omega arith, inl refl)

report-IsPacket : IsPacket report
unfolding stat_of
report-IsPacket = (omega arith, refl, omega arith, omega arith, inl refl)

bulk_rx-packets_example :
    bulk_rx env (concat (beacon ∷ report ∷ [])) idle
    ≡ each_packet env (beacon ∷ report ∷ []) (record idle { rx_packets = up 0 })
unfolding concat
bulk_rx-packets_example =
    bulk_rx-packets env (beacon ∷ report ∷ []) idle (beacon-IsPacket, (report-IsPacket, tt))
      (omega arith)

-- A frame, and three bytes that are no packet.
abbrev ragged : List ℕ
ragged = beacon ++ 1 ∷ 2 ∷ 3 ∷ []

ragged-IsSound : IsSound env ragged
unfolding stat_of
ragged-IsSound zero long fits = inl refl
ragged-IsSound (suc zero) long fits = inl refl
ragged-IsSound (suc (suc zero)) long fits = inl refl
ragged-IsSound (suc (suc (suc i))) long fits =
    absurd (omega (arith, length-drop (8 * suc (suc (suc i))) ragged, long))

bulk_rx-total_example : (bulk_rx env ragged idle).0 ≡ ok tt
bulk_rx-total_example = bulk_rx-total env ragged idle ragged-IsSound

bulk_rx-IsScaled_example : IsScaled (bulk_rx env (beacon ++ report) idle).1
bulk_rx-IsScaled_example = bulk_rx-IsScaled env (beacon ++ report) idle (omega arith)

abbrev header : List ℕ
header = 0x08 ∷ 0x42 ∷ replicate 22 0xee

rx_strip_hw_ccmp-hardware_example :
    rx_strip_hw_ccmp
      (λ frame. 24)
      (hardware header (replicate 8 0x11) (replicate 3 0x22) (replicate 8 0x33))
    ≡ unprotected header ++ replicate 3 0x22
unfolding has
rx_strip_hw_ccmp-hardware_example =
    rx_strip_hw_ccmp-hardware (λ frame. 24) header (replicate 8 0x11) (replicate 3 0x22)
      (replicate 8 0x33) (omega arith) refl refl refl refl
