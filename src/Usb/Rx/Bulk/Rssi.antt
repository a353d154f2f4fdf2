-- ===== src/Usb/Rx/Bulk/Rssi.antt =====
-- The average of the signal over everything that a transfer can carry.
use rtw88_pub.Base.{
  modify, ℕ, zero, suc, ◌+◌, ◌≤◌, ◌≡◌, sym, ap, subst, arith, inl, inr, ◌&&◌, List, [], ◌∷◌, M,
  pure, leb, ◌||◌, ltb, ◌==◌, length, drop, Preserves, Preserves-bind, Preserves-seq,
  Preserves-pure, Preserves-throw, Preserves-if, Preserves-when, Preserves-test,
}
use rtw88_pub.Usb.Rx.{
  RxStat, Rx, RxEnv, slice, word, up, total, pkt_offset, rx_desc_sz, decode, aligned,
}
use rtw88_pub.Usb.Rx.C2h.{c2h_dispatch}
use rtw88_pub.Usb.Rx.C2h.Events.{Counts, c2h_dispatch-Counts}
use rtw88_pub.Usb.Rx.Frame.{rx_deliver, average_rssi, rssi_of, count_rate, shown_dbm}
use rtw88_pub.Usb.Rx.Bulk.{
  rx_error, rx_drop, rx_status, rx_take, rx_copy, rx_frame, rx_event, first_shift, is_noted, noted,
  note_shift, rx_body, rx_packet, rx_one, rx_loop, bulk_rx,
}

-- The average is on its scale.
abbrev pub IsScaled : Rx → Type 0
IsScaled s = s.avg_rssi ≤ 100

abbrev Keeps : {A : Type 0} → M Rx A → Type 0
Keeps m = Preserves IsScaled m

rssi_of-le : (signal_dbm : ℕ) → rssi_of signal_dbm ≤ 100
unfolding rssi_of
rssi_of-le signal_dbm = ground arith

average_rssi-IsScaled :
    (st : RxStat) (dbm : ℕ) (s : Rx) → IsScaled s → IsScaled (average_rssi st dbm s)
unfolding average_rssi
average_rssi-IsScaled st dbm s h = ground (arith, rssi_of-le dbm)

count_rate-avg : (rate : ℕ) (s : Rx) → (count_rate rate s).avg_rssi ≡ s.avg_rssi
unfolding count_rate
count_rate-avg rate s = ground arith

slice-Keeps : (buf : List ℕ) (off len : ℕ) → Keeps (slice buf off len)
unfolding slice
slice-Keeps buf off len =
    Preserves-if (leb (off + len) (length buf)) (Preserves-pure _) (Preserves-throw _)

word-Keeps : (buf : List ℕ) (off : ℕ) → Keeps (word buf off)
unfolding word
word-Keeps buf off =
    Preserves-if (leb (off + 4) (length buf)) (Preserves-pure _) (Preserves-throw _)

rx_deliver-Keeps : (env : RxEnv) (st : RxStat) (body : List ℕ) → Keeps (rx_deliver env st body)
unfolding rx_deliver
rx_deliver-Keeps env st body = record {
  keeps = λ s h.
      let counted = count_rate st.rate (record s { rx_frames = up s.rx_frames }) in
      average_rssi-IsScaled st (shown_dbm st) counted (
        subst (λ n. n ≤ 100)
          (sym (count_rate-avg st.rate (record s { rx_frames = up s.rx_frames }))) h);
}

rx_error-Keeps : Keeps rx_error
unfolding rx_error
rx_error-Keeps = record { keeps = λ s h. h }

rx_drop-Keeps : Keeps rx_drop
unfolding rx_drop
rx_drop-Keeps = record { keeps = λ s h. h }

Counts-avg : (s s' : Rx) → Counts s s' → s'.avg_rssi ≡ s.avg_rssi
Counts-avg s s' (inl e) = ap (λ (r : Rx). r.avg_rssi) e
Counts-avg s s' (inr (inl e)) = ap (λ (r : Rx). r.avg_rssi) e
Counts-avg s s' (inr (inr (inl e))) = ap (λ (r : Rx). r.avg_rssi) e
Counts-avg s s' (inr (inr (inr e))) = ap (λ (r : Rx). r.avg_rssi) e

c2h_dispatch-Keeps : (body : List ℕ) → Keeps (c2h_dispatch body)
c2h_dispatch-Keeps body = record {
  keeps = λ s h.
      subst (λ n. n ≤ 100)
        (sym (Counts-avg (record s { stat_c2h = up s.stat_c2h }) _ (c2h_dispatch-Counts body s).1))
        h;
}

first_shift-Keeps : (buf : List ℕ) (st : RxStat) → Keeps (first_shift buf st)
unfolding first_shift
first_shift-Keeps buf st =
    Preserves-seq {m = modify (noted st)} (record { keeps = λ s h. h })
      (Preserves-bind (slice-Keeps buf (pkt_offset st) 1) (λ byte. Preserves-pure tt))

note_shift-Keeps : (buf : List ℕ) (st : RxStat) → Keeps (note_shift buf st)
unfolding note_shift
note_shift-Keeps buf st = record {
  keeps = λ s h.
      (Preserves-if (st.shift == 0 || is_noted st s) {m = pure tt} {n = first_shift buf st}
          (Preserves-pure tt) (first_shift-Keeps buf st)).keeps
        s h;
}

module _ (env : RxEnv) (buf : List ℕ) where
  rx_status-Keeps : (st : RxStat) → Keeps (rx_status env buf st)
  unfolding rx_status
  rx_status-Keeps st =
      Preserves-if (st.phy_status && leb 16 st.drv_info_sz)
        (Preserves-bind (slice-Keeps buf rx_desc_sz 16) (λ ps. Preserves-pure _))
        (Preserves-pure st)

  rx_take-Keeps : (st : RxStat) → Keeps (rx_take env buf st)
  unfolding rx_take
  rx_take-Keeps st =
      Preserves-bind (slice-Keeps buf (pkt_offset st) st.pkt_len)
        (λ body. rx_deliver-Keeps env st body)

  rx_copy-Keeps : (st : RxStat) → Keeps (rx_copy env buf st)
  unfolding rx_copy
  rx_copy-Keeps st = record {
    keeps = λ s h.
        (Preserves-if (env.m_get2 s st.pkt_len) {m = rx_take env buf st} {n = rx_drop}
            (rx_take-Keeps st) rx_drop-Keeps).keeps
          s h;
  }

  rx_frame-Keeps : (st : RxStat) → Keeps (rx_frame env buf st)
  unfolding rx_frame
  rx_frame-Keeps st =
      Preserves-bind (rx_status-Keeps st)
        (λ st'. Preserves-if (ltb 2048 st'.pkt_len) rx_drop-Keeps (rx_copy-Keeps st'))

  rx_body-Keeps : (st : RxStat) → Keeps (rx_body env buf st)
  unfolding rx_body rx_event
  rx_body-Keeps st =
      Preserves-if st.is_c2h
        (Preserves-bind (slice-Keeps buf (pkt_offset st) st.pkt_len)
          (λ body. c2h_dispatch-Keeps body))
        (Preserves-if (st.pkt_len == 0) (Preserves-pure tt) (
          Preserves-if st.crc_err rx_error-Keeps (
            Preserves-seq (Preserves-when st.icv_err rx_error-Keeps)
              (Preserves-if (leb st.pkt_len 4) (Preserves-pure tt) (rx_frame-Keeps _)))))

  rx_packet-Keeps : (st : RxStat) → Keeps (rx_packet env buf st)
  unfolding rx_packet
  rx_packet-Keeps st = Preserves-if (ltb (length buf) (total st)) (Preserves-pure 0) (
      Preserves-seq (note_shift-Keeps buf st)
        (Preserves-seq (rx_body-Keeps st) (Preserves-pure (aligned st))))

  rx_one-Keeps : Keeps (rx_one env buf)
  unfolding rx_one
  rx_one-Keeps = Preserves-if (ltb (length buf) rx_desc_sz) (Preserves-pure 0) (
      Preserves-bind (word-Keeps buf 0) (λ w0. Preserves-bind (word-Keeps buf 8) (λ w2.
        Preserves-bind (word-Keeps buf 12) (λ w3. Preserves-bind (word-Keeps buf 16) (λ w4.
          Preserves-bind (word-Keeps buf 20) (λ w5. rx_packet-Keeps (decode w0 w2 w3 w4 w5)))))))

rx_loop-Keeps : (env : RxEnv) (fuel : ℕ) (buf : List ℕ) → Keeps (rx_loop env fuel buf)
unfolding rx_loop
rx_loop-Keeps env zero buf = Preserves-throw _
rx_loop-Keeps env (suc fuel) [] = Preserves-pure tt
rx_loop-Keeps env (suc fuel) (b ∷ buf) = Preserves-bind (rx_one-Keeps env (b ∷ buf)) (λ consumed.
    Preserves-test (consumed == 0) (Preserves-pure tt)
      (rx_loop-Keeps env fuel (drop consumed (b ∷ buf))))

-- Whatever a transfer carries, the average of the signal stays on its scale from 0 to 100, so its byte
-- does not wrap. It is on the scale before the transfer.
pub bulk_rx-IsScaled :
    (env : RxEnv) (buf : List ℕ) (s : Rx) → IsScaled s → IsScaled (bulk_rx env buf s).1
unfolding bulk_rx
bulk_rx-IsScaled env buf s h =
    (Preserves-if (ltb 32768 (length buf)) {m = pure tt} {n = rx_loop env (suc (length buf)) buf}
        (Preserves-pure tt) (rx_loop-Keeps env (suc (length buf)) buf)).keeps
      (record s { rx_packets = up s.rx_packets }) h
