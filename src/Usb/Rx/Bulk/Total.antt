-- ===== src/Usb/Rx/Bulk/Total.antt =====
-- The end of the receive loop, and the bounds of its reads.
use rtw88_pub.Base.{
  true, ◌/◌, ℕ, zero, suc, ◌+◌, ◌-◌, ◌≤◌, ◌<◌, ◌≡◌, refl, arith, ◌⊎◌, inl, inr, ◌&&◌, ◌||◌, ◌*◌, ap,
  ◌∙◌, subst, le32dec, drop-drop, List, [], ◌∷◌, ok, M, pure, ltb, leb, ◌==◌, length, drop, Returns,
  Returns-pure, Returns-bind, Returns-if, Returns-when, Returns-test, length-drop,
}
use rtw88_pub.Usb.Rx.{
  RxStat, Rx, RxEnv, slice, word, decode, stat_of, rx_desc_sz, pkt_offset, total, aligned, up,
}
use rtw88_pub.Usb.Rx.C2h.Events.{c2h_dispatch-Returns}
use rtw88_pub.Usb.Rx.Status.{Placed, query_phy_status-Placed}
use rtw88_pub.Usb.Rx.Frame.{rx_deliver}
use rtw88_pub.Usb.Rx.Bulk.{
  rx_error, rx_drop, rx_status, rx_take, rx_copy, rx_frame, rx_event, first_shift, is_noted,
  note_shift, rx_body, rx_packet, rx_one, rx_loop, bulk_rx,
}

abbrev Done : M Rx (Unit {0}) → Type 0
Done m = Returns (λ _. Unit {0}) m

slice-Returns :
    (buf : List ℕ) (off len : ℕ)
    → off + len ≤ length buf
    → Returns (λ _. Unit {0}) (slice buf off len)
unfolding slice
slice-Returns buf off len h =
    Returns-if (leb (off + len) (length buf)) (λ _. Returns-pure _ tt) (λ e. absurd (ground arith))

word-Returns :
    (buf : List ℕ) (off : ℕ)
    → off + 4 ≤ length buf
    → Returns (λ w. w ≡ le32dec buf off) (word buf off)
unfolding word
word-Returns buf off h =
    Returns-if (leb (off + 4) (length buf)) (λ _. Returns-pure _ refl) (λ e. absurd (ground arith))

-- A packet without a shift, or whose first byte is in the transfer.
abbrev pub IsShown : List ℕ → RxStat → Type 0
IsShown buf st = (st.shift ≡ 0) ⊎ (pkt_offset st < length buf)

first_shift-Returns :
    (buf : List ℕ) (st : RxStat) → pkt_offset st < length buf → Done (first_shift buf st)
unfolding first_shift
first_shift-Returns buf st h =
    Returns-bind {P = λ _. Unit {0}} (record { returns = λ s. (tt, refl, tt) })
      (λ _ _.
        Returns-bind (slice-Returns buf (pkt_offset st) 1 (omega (arith, h)))
          (λ byte _. Returns-pure tt tt))

note_shift-Returns : (buf : List ℕ) (st : RxStat) → IsShown buf st → Done (note_shift buf st)
unfolding note_shift
note_shift-Returns buf st (inl none) =
    let unshifted : (st.shift == 0) ≡ true = ground (arith, none) in
    record { returns = λ s. rw unshifted (tt, refl, tt) }
note_shift-Returns buf st (inr h) = record {
  returns = λ s.
      (Returns-if (st.shift == 0 || is_noted st s) {m = pure tt} {n = first_shift buf st}
          (λ _. Returns-pure tt tt) (λ _. first_shift-Returns buf st h)).returns
        s;
}

pub rx_status-Returns :
    (env : RxEnv) (buf : List ℕ) (st : RxStat)
    → total st ≤ length buf
    → Returns (Placed st) (rx_status env buf st)
unfolding rx_status
rx_status-Returns env buf st h =
    Returns-if (st.phy_status && leb 16 st.drv_info_sz)
      (λ e.
        Returns-bind (slice-Returns buf rx_desc_sz 16 (ground arith))
          (λ ps _. Returns-pure _ (query_phy_status-Placed env.rfe_option ps st)))
      (λ _. Returns-pure st (refl, refl, refl))

rx_error-Returns : Done rx_error
unfolding rx_error
rx_error-Returns = record { returns = λ s. (tt, refl, tt) }

rx_drop-Returns : Done rx_drop
unfolding rx_drop
rx_drop-Returns = record { returns = λ s. (tt, refl, tt) }

rx_deliver-Returns : (env : RxEnv) (st : RxStat) (body : List ℕ) → Done (rx_deliver env st body)
unfolding rx_deliver
rx_deliver-Returns env st body = record { returns = λ s. (tt, refl, tt) }

module _ (env : RxEnv) (buf : List ℕ) where
  rx_take-Returns : (st : RxStat) → total st ≤ length buf → Done (rx_take env buf st)
  unfolding rx_take
  rx_take-Returns st h =
      Returns-bind (slice-Returns buf (pkt_offset st) st.pkt_len h)
        (λ body _. rx_deliver-Returns env st body)

  rx_copy-Returns : (st : RxStat) → total st ≤ length buf → Done (rx_copy env buf st)
  unfolding rx_copy
  rx_copy-Returns st h = record {
    returns = λ s.
        (Returns-if (env.m_get2 s st.pkt_len) {m = rx_take env buf st} {n = rx_drop}
            (λ _. rx_take-Returns st h) (λ _. rx_drop-Returns)).returns
          s;
  }

  rx_frame-Returns : (st : RxStat) → total st ≤ length buf → Done (rx_frame env buf st)
  unfolding rx_frame
  rx_frame-Returns st h = Returns-bind (rx_status-Returns env buf st h) (λ st' placed.
      Returns-if (ltb 2048 st'.pkt_len) (λ _. rx_drop-Returns)
        (λ _. rx_copy-Returns st' (omega (arith, placed.0, placed.1, placed.2))))

  pub rx_body-Returns : (st : RxStat) → total st ≤ length buf → Done (rx_body env buf st)
  unfolding rx_body rx_event
  rx_body-Returns st h =
      Returns-if st.is_c2h
        (λ _.
          Returns-bind (slice-Returns buf (pkt_offset st) st.pkt_len h)
            (λ body _. c2h_dispatch-Returns body))
        (λ _.
          Returns-if (st.pkt_len == 0) (λ _. Returns-pure tt tt)
            (λ _.
              Returns-if st.crc_err (λ _. rx_error-Returns)
                (λ _. Returns-bind (Returns-when st.icv_err rx_error-Returns) (λ _ _.
                  Returns-if (leb st.pkt_len 4) (λ _. Returns-pure tt tt)
                    (λ _.
                      rx_frame-Returns (record st { pkt_len = st.pkt_len - 4 })
                        (omega (arith, h)))))))

  abbrev Step : ℕ → Type 0
  Step consumed = (consumed ≡ 0) ⊎ ((24 ≤ consumed) × ((eights : ℕ) × (consumed ≡ 8 * eights)))

  rx_packet-Returns :
      (st : RxStat) → (total st ≤ length buf → IsShown buf st) → Returns Step (rx_packet env buf st)
  unfolding rx_packet
  rx_packet-Returns st shown =
      Returns-if (ltb (length buf) (total st)) (λ _. Returns-pure 0 (inl refl))
        (λ e.
          let fits : total st ≤ length buf = ground arith in
          Returns-bind (note_shift-Returns buf st (shown fits)) (λ _ _.
            Returns-bind (rx_body-Returns st fits) (λ _ _.
              Returns-pure (aligned st) (inr (omega arith, ((total st + 7) / 8, omega arith))))))

  -- A packet with a shift that is whole has its first byte in the transfer.
  abbrev pub IsHead : Type 0
  IsHead = 24 ≤ length buf → total (stat_of buf) ≤ length buf → IsShown buf (stat_of buf)

  decoded-Returns :
      (w0 w2 w3 w4 w5 : ℕ)
      → 24 ≤ length buf
      → IsHead
      → w0 ≡ le32dec buf 0
      → w2 ≡ le32dec buf 8
      → w3 ≡ le32dec buf 12
      → w4 ≡ le32dec buf 16
      → w5 ≡ le32dec buf 20
      → Returns Step (rx_packet env buf (decode w0 w2 w3 w4 w5))
  unfolding stat_of
  decoded-Returns w0 w2 w3 w4 w5 long head e0 e2 e3 e4 e5 =
      rw (e0, e2, e3, e4, e5) (rx_packet-Returns (stat_of buf) (head long))

  -- A look at such a packet never reads outside the buffer, and is either the end of the transfer or goes
  -- on by a descriptor at least.
  pub rx_one-Returns : IsHead → Returns Step (rx_one env buf)
  unfolding rx_one
  rx_one-Returns head =
      Returns-if (ltb (length buf) rx_desc_sz) (λ _. Returns-pure 0 (inl refl))
        (λ e.
          let long : 24 ≤ length buf = ground arith in
          Returns-bind (word-Returns buf 0 (omega arith)) (λ w0 e0.
            Returns-bind (word-Returns buf 8 (omega arith)) (λ w2 e2.
              Returns-bind (word-Returns buf 12 (omega arith)) (λ w3 e3.
                Returns-bind (word-Returns buf 16 (omega arith)) (λ w4 e4.
                  Returns-bind (word-Returns buf 20 (omega arith))
                    (λ w5 e5. decoded-Returns w0 w2 w3 w4 w5 long head e0 e2 e3 e4 e5))))))

-- Every place where a packet can begin is the head of such a packet.
abbrev pub IsSound : RxEnv → List ℕ → Type 0
IsSound env buf = (i : ℕ) → IsHead env (drop (8 * i) buf)

onward-IsSound :
    (env : RxEnv) (buf : List ℕ) (consumed eights : ℕ)
    → consumed ≡ 8 * eights
    → IsSound env buf
    → IsSound env (drop consumed buf)
onward-IsSound env buf consumed eights e sound i =
    let there : 8 * (eights + i) ≡ consumed + 8 * i = omega (arith, e) in
    subst (λ bytes. IsHead env bytes) (ap (λ n. drop n buf) there ∙ drop-drop consumed (8 * i) buf)
      (sound (eights + i))

rx_loop-Returns :
    (env : RxEnv) (fuel : ℕ) (buf : List ℕ)
    → length buf < fuel
    → IsSound env buf
    → Done (rx_loop env fuel buf)
unfolding rx_loop
rx_loop-Returns env zero buf h sound = absurd (omega arith)
rx_loop-Returns env (suc fuel) [] h sound = Returns-pure tt tt
rx_loop-Returns env (suc fuel) (b ∷ buf) h sound =
    Returns-bind (rx_one-Returns env (b ∷ buf) (sound 0)) (λ consumed step.
      Returns-test (consumed == 0) (λ _. Returns-pure tt tt)
        (λ more. elim step [
          | inl end ↦ absurd (ground (arith, end, more))
          | inr (far, (eights, e)) ↦
              rx_loop-Returns env fuel (drop consumed (b ∷ buf))
                (omega (arith, length-drop consumed (b ∷ buf), far, h))
                (onward-IsSound env (b ∷ buf) consumed eights e sound)
        ]))

-- Every transfer is taken to its end: the loop stops before its rounds run out, no read is outside
-- the bytes of the transfer, and the callback succeeds. It is assumed that at every eighth byte where
-- a descriptor and what it announces fit into the rest of the transfer, the descriptor has no shift,
-- or the place where its packet begins is inside the transfer. Nothing else is assumed of the bytes.
pub bulk_rx-total :
    (env : RxEnv) (buf : List ℕ) (s : Rx) → IsSound env buf → (bulk_rx env buf s).0 ≡ ok tt
unfolding bulk_rx
bulk_rx-total env buf s sound =
    let counted = record s { rx_packets = up s.rx_packets } in
    let (_, e, _) =
      (Returns-if (ltb 32768 (length buf)) {m = pure tt} {n = rx_loop env (suc (length buf)) buf}
          (λ _. Returns-pure tt tt)
          (λ _. rx_loop-Returns env (suc (length buf)) buf (omega arith) sound)).returns
        counted in
    e
