-- ===== src/Usb/Tx/Drain/Sent.antt =====
-- What a drain hands to the USB stack.
use rtw88_pub.Base.{
  ℕ, ◌+◌, ◌*◌, ◌%◌, ◌^◌, ◌≤◌, ◌≡◌, ◌≢◌, refl, sym, ap₂, subst, ◌∙◌, arith, inl, inr, Bool,
  Bool-cases, true, false, ◌&&◌, ◌||◌, List, ◌∷◌, ◌++◌, All, Option, Option-cases, some, Result, ok,
  err, modify, bit_and, bit_or, u16, ltb, ◌==◌, ◌<<◌, length, take, drop, set, get_or, le16dec,
  le16enc, length-append, length-take, length-drop, length-set, get_or-set_ne, if◌then◌else◌,
  Preserves, Preserves-bind, Preserves-pure, Preserves-throw, Preserves-get, Preserves-when,
}
use rtw88_pub.Usb.Tx.{Mbuf, Net, is_data, eapol_key_info}
use rtw88_pub.Usb.Firmware.Packet.{tx_bufsz, tx_pkt_desc_sz, txdesc_checksum, fill_checksum}
use rtw88_pub.Usb.Firmware.Packet.Checksum.{txdesc_checksum-fill_checksum}
use rtw88_pub.Usb.Tx.Drain.Words.{IsDesc, resized-IsDesc, data_txdesc-IsDesc, mgmt_txdesc-IsDesc}
use rtw88_pub.Usb.Tx.Drain.{
  Peers, Drain, data_txdesc, mgmt_txdesc, is_promoted, promoted, resized, stamped, is_eapol,
  is_unnumbered, give_back, submit_frame, submit_promoted, drain_keyed, drain_frame, drain_q,
}

-- A transfer is a descriptor that adds up to zero and the frame whose size stands in it, and fits
-- into the buffer.
abbrev pub IsPacket : List ℕ → Type 0
IsPacket pkt =
    (desc : List ℕ) × (frame : List ℕ) × (pkt ≡ desc ++ frame)
    × (length desc ≡ tx_pkt_desc_sz)
    × (txdesc_checksum desc ≡ 0)
    × (le16dec desc 0 ≡ length frame)
    × (length desc + length frame ≤ tx_bufsz)

-- A descriptor that is filled in, with its frame behind it.
filled-IsPacket :
    (desc frame : List ℕ)
    → IsDesc desc (length frame)
    → length frame + tx_pkt_desc_sz ≤ tx_bufsz
    → IsPacket (fill_checksum desc ++ frame)
unfolding fill_checksum
filled-IsPacket desc frame d room = (
  fill_checksum desc,
  frame,
  refl,
  size ∙ d.0,
  txdesc_checksum-fill_checksum desc d.1 (omega (arith, d.0)) d.2 d.3,
  ap₂ (λ x y. x + y * 2 ^ 8) (kept 0 (λ e. cc) (λ e. cc)) (kept 1 (λ e. cc) (λ e. cc)) ∙ d.4,
  omega (arith, size, d.0, room),
)
  where
    c : ℕ
    c = txdesc_checksum desc

    size : length (fill_checksum desc) ≡ length desc
    size = length-set (set desc 28 (c % 256)) 29 _ ∙ length-set desc 28 (c % 256)

    kept : (i : ℕ) → 28 ≢ i → 29 ≢ i → get_or (fill_checksum desc) i 0 ≡ get_or desc i 0
    kept i h k = get_or-set_ne (set desc 28 (c % 256)) 29 i _ 0 k ∙ get_or-set_ne desc 28 i _ 0 h

length-stamped :
    (seq : ℕ) (frame : List ℕ)
    → is_unnumbered frame ≡ true
    → length (stamped seq frame) ≡ length frame
unfolding stamped
length-stamped seq frame h =
    let long : 24 ≤ length frame = ground (arith, h) in
    length-append (take 22 frame ++ le16enc (seq << 4)) (drop 24 frame)
    ∙ omega (
      arith,
      length-append (take 22 frame) (le16enc (seq << 4)),
      length-take 22 frame,
      length-drop 24 frame,
      long,
    )

length-promoted :
    (eapol : Bool) (frame : List ℕ)
    → 24 ≤ length frame
    → length (promoted eapol frame) ≡ length frame + 2
unfolding promoted
length-promoted eapol frame h = omega (
  arith,
  length-append (set (take 24 frame) 0 (bit_or (get_or frame 0 0) 0x80))
      ((if eapol then 7 else 0) ∷ 0 ∷ drop 24 frame),
  length-set (take 24 frame) 0 (bit_or (get_or frame 0 0) 0x80),
  length-take 24 frame,
  length-drop 24 frame,
  h,
)

numbered-IsPacket :
    (seq : ℕ) (desc frame : List ℕ)
    → IsDesc desc (length frame)
    → length frame + tx_pkt_desc_sz ≤ tx_bufsz
    → IsPacket (fill_checksum desc ++ (if is_unnumbered frame then stamped seq frame else frame))
numbered-IsPacket seq desc frame d room = elim (Bool-cases (is_unnumbered frame)) [
  | inl none_yet ↦
      let same : length (stamped seq frame) ≡ length frame = length-stamped seq frame none_yet in
      rw none_yet (
        filled-IsPacket desc (stamped seq frame) (d.0, d.1, d.2, d.3, d.4 ∙ sym same)
          (omega (arith, same, room)))
  | inr has_one ↦ rw has_one (filled-IsPacket desc frame d room)
]

promoted-room :
    (frame : List ℕ)
    → is_promoted (length frame) frame ≡ true
    → (24 ≤ length frame) × (length frame + 2 + tx_pkt_desc_sz ≤ tx_bufsz)
unfolding is_promoted
promoted-room frame h = (ground (arith, h), ground (arith, h))

module _ {Q : Type 0} where
  -- All that was handed over are packets.
  abbrev Sent : Drain Q → Type 0
  Sent d = All IsPacket d.submitted

  Sent-modify :
      (f : Drain Q → Drain Q) → ((d : Drain Q) → Sent d → Sent (f d)) → Preserves Sent (modify f)
  Sent-modify f h = record { keeps = h }

  give_back-Sent : (m : Mbuf) → Preserves Sent (give_back m)
  unfolding give_back
  give_back-Sent m =
      Preserves-bind (Sent-modify (λ (d : Drain Q). record d { freed = m ∷ d.freed }) (λ d p. p))
        λ _. Preserves-pure false

  submit_frame-Sent :
      (m : Mbuf) (desc frame : List ℕ)
      → IsDesc desc (length frame)
      → length frame + tx_pkt_desc_sz ≤ tx_bufsz
      → Preserves Sent (submit_frame m desc frame)
  unfolding submit_frame
  submit_frame-Sent m desc frame h room =
      Preserves-bind
        (Preserves-when (is_unnumbered frame) (
          Sent-modify (λ (d : Drain Q). record d { tx_seq = bit_and (d.tx_seq + 1) 0x0fff })
            (λ d p. p)))
        λ _. Preserves-bind Preserves-get λ d.
          let numbered = if is_unnumbered frame then stamped d.tx_seq frame else frame in
          Preserves-bind
            (Sent-modify
              (λ (d' : Drain Q). record d' {
                inflight = some m;
                submitted = (fill_checksum desc ++ numbered) ∷ d'.submitted;
              })
              (λ d' p. (numbered-IsPacket d.tx_seq desc frame h room, p)))
            λ _. Preserves-pure true

  submit_promoted-Sent :
      (m : Mbuf) (eapol : Bool) (desc frame : List ℕ)
      → IsDesc desc (length frame)
      → length frame + tx_pkt_desc_sz ≤ tx_bufsz
      → Preserves Sent (submit_promoted m eapol desc frame)
  unfolding submit_promoted
  submit_promoted-Sent m eapol desc frame h room =
      elim (Bool-cases (is_promoted (length frame) frame)) [
        | inl grows ↦
            let (long, fits) = promoted-room frame grows in
            let size : length (promoted eapol frame) ≡ length frame + 2 =
              length-promoted eapol frame long in
            let desc_ok : IsDesc (resized (length frame + 2) desc) (length (promoted eapol frame)) =
              subst (IsDesc (resized (length frame + 2) desc)) (sym size)
                (resized-IsDesc desc (length frame) (length frame + 2) (omega (arith, fits)) h) in
            rw (submit_promoted, grows)
              (submit_frame-Sent m _ _ desc_ok (omega (arith, size, fits)))
        | inr stays ↦ rw (submit_promoted, stays) (submit_frame-Sent m desc frame h room)
      ]

module _ {Q : Type 0} (net : Net Q) (peers : Peers) where
  drain_keyed-Sent :
      (r : Result (Option ℕ)) (m : Mbuf)
      → u16 (length m.bytes) + tx_pkt_desc_sz ≤ tx_bufsz
      → Preserves Sent (drain_keyed net peers r m)
  unfolding drain_keyed
  drain_keyed-Sent (err e) m room = Preserves-throw e
  drain_keyed-Sent (ok info) m room =
      Preserves-bind
        (Preserves-when (is_data m.bytes && is_eapol info) (
          Sent-modify (λ (d : Drain Q). record d { tx_report_sn = (d.tx_report_sn + 1) % 2 ^ 8 })
            (λ d p. p)))
        λ _. Preserves-bind Preserves-get λ d.
          submit_promoted-Sent m (is_eapol info) _ (take (u16 (length m.bytes)) m.bytes)
            (subst (IsDesc _) (sym size) (described d (is_data m.bytes)))
            (omega (arith, size, room))
    where
      framelen : ℕ
      framelen = u16 (length m.bytes)

      size : length (take (u16 (length m.bytes)) m.bytes) ≡ u16 (length m.bytes)
      size = omega (arith, length-take (u16 (length m.bytes)) m.bytes)

      described :
          (d : Drain Q) (b : Bool)
          → IsDesc
              (if b
                then data_txdesc peers d.ampdu d.rate_id d.tx_report_sn
                    (is_eapol info)
                    (u16 (length m.bytes))
                    m
                else mgmt_txdesc (u16 (length m.bytes)) m.bytes)
              (u16 (length m.bytes))
      described d true =
          data_txdesc-IsDesc peers d.ampdu d.rate_id d.tx_report_sn _ _ m (omega arith)
      described d false = mgmt_txdesc-IsDesc _ m.bytes (omega arith)

  drain_frame-Sent : (m : Mbuf) → Preserves Sent (drain_frame net peers m)
  unfolding drain_frame
  drain_frame-Sent m =
      let size = u16 (length m.bytes) in
      let skip = (size == 0) || ltb tx_bufsz (size + tx_pkt_desc_sz) in
      elim (Bool-cases skip) [
        | inl e ↦ rw (drain_frame, e) (give_back-Sent m)
        | inr e ↦
            rw (drain_frame, e)
              (drain_keyed-Sent (eapol_key_info net m.bytes) m (ground (arith, e)))
      ]

  -- All that a drain hands to the USB stack is well formed: a descriptor of 48 bytes that adds up to
  -- zero, whose size is that of the frame behind it, also where the frame grew to QoS data, and the
  -- two fit into the buffer of 16384 bytes. This holds for every queue and every frame in it, in a
  -- drain that succeeds and in one that does not.
  pub drain_q-Sent :
      (d : Drain Q) → All IsPacket d.submitted → All IsPacket (drain_q net peers d).1.submitted
  unfolding drain_q
  drain_q-Sent d sent = elim (Option-cases (net.dequeue d.queue)) [
    | inl e ↦ rw (drain_q, e) sent
    | inr (taken, e) ↦
        rw (drain_q, e) ((drain_frame-Sent taken.0).keeps (record d { queue = taken.1 }) sent)
  ]
