-- ===== src/Usb/Tx/Gate.antt =====
-- The gate and the choice of a queue: rtw88_tx_enqueue_locked as a whole.
use rtw88_pub.Base.{
  ℕ, ◌+◌, ◌≤◌, ◌<◌, arith, bit_and, has, get_or, ◌≡◌, refl, ◌⊎◌, inl, inr, true, false, ◌||◌, List,
  [], ◌∷◌, ◌++◌, Option, none, some, Result, ok, err, Errno, einval, emsgsize, enobufs, undefined,
  ltb, leb, ◌&&◌, ap, ◌∙◌, ◌==◌, if◌then◌else◌, length, Bool-cases, Option-cases,
}
use rtw88_pub.Usb.Tx.{
  tid_of, Mbuf, Net, Tx, is_data, is_gated, is_voice, eapol_key_info, park, refuse, put_vo, put_be,
  put_mgmt, put_data, route, tx_enqueue,
}

-- The documented behaviour of mbufq(9): a queue is a list of frames, a frame that it takes goes to
-- its end, what comes out is its head, and its length is how many it holds.
pub record Fifo {Q : Type 0} (net : Net Q) : Type 0 where
  pub contents : Q → List Mbuf
  pub taken : (m : Mbuf) (q q' : Q) → net.enqueue m q ≡ some q' → contents q' ≡ contents q ++ m ∷ []
  pub out : (q q' : Q) (m : Mbuf) → net.dequeue q ≡ some (m, q') → contents q ≡ m ∷ contents q'
  pub dry : (q : Q) → net.dequeue q ≡ none → contents q ≡ []
  pub len : (q : Q) → net.qlen q ≡ length (contents q)

module _ {Q : Type 0} {net : Net Q} (fifo : Fifo net) where
  -- The four queues after `s`, with the frame at the end of one of them.
  abbrev pub Same : Tx Q → Tx Q → Type 0
  Same s s' =
      (s'.mgmt_q ≡ s.mgmt_q)
      × (s'.data_q ≡ s.data_q)
      × (s'.data_vo_q ≡ s.data_vo_q)
      × (s'.pending_q ≡ s.pending_q)

  abbrev pub Parked : Mbuf → Tx Q → Tx Q → Type 0
  Parked m s s' =
      (s'.mgmt_q ≡ s.mgmt_q)
      × (s'.data_q ≡ s.data_q)
      × (s'.data_vo_q ≡ s.data_vo_q)
      × (fifo.contents s'.pending_q ≡ fifo.contents s.pending_q ++ m ∷ [])
      × (s'.started ≡ s.started)

  -- A protected frame of data to one station, while the pairwise key is being installed.
  abbrev pub Gated : Tx Q → List ℕ → Type 0
  Gated s bytes =
      (bit_and (get_or bytes 0 0) 0x0c ≡ 0x08)
      × (s.ptk_install_pending ≡ true)
      × (24 ≤ length bytes)
      × (has (get_or bytes 1 0) 0x40 ≡ true)
      × (has (get_or bytes 4 0) 0x01 ≡ false)

  abbrev pub Data : List ℕ → Type 0
  Data bytes = bit_and (get_or bytes 0 0) 0x0c ≡ 0x08

  -- An EAPOL key, or a frame of QoS data with a TID from 4 on.
  abbrev pub Voice : Option ℕ → List ℕ → Type 0
  Voice eapol bytes =
      ((key : ℕ) × (eapol ≡ some key))
      ⊎ ((has (get_or bytes 0 0) 0x80 ≡ true)
          × (26 ≤ length bytes)
          × (4 ≤ bit_and (get_or bytes 24 0) 0x07))

  Gated-cases :
      (s : Tx Q) (bytes : List ℕ)
      → ((is_gated s bytes ≡ true) × Gated s bytes) ⊎ ((is_gated s bytes ≡ false) × ¬ Gated s bytes)
  unfolding is_gated is_data
  Gated-cases s bytes = ground arith

  Data-cases :
      (bytes : List ℕ)
      → ((is_data bytes ≡ true) × Data bytes) ⊎ ((is_data bytes ≡ false) × ¬ Data bytes)
  unfolding is_data
  Data-cases bytes = ground arith

  Voice-cases :
      (eapol : Option ℕ) (bytes : List ℕ)
      → ((is_voice eapol bytes ≡ true) × Voice eapol bytes)
        ⊎ ((is_voice eapol bytes ≡ false) × ¬ Voice eapol bytes)
  unfolding is_voice tid_of
  Voice-cases (some key) bytes = inl (refl, inl (key, refl))
  Voice-cases none bytes =
      elim (Bool-cases (has (get_or bytes 0 0) 0x80 && leb 26 (length bytes))) [
        | inl qos ↦ rw (tid_of, qos) (ground (arith, qos))
        | inr plain ↦ rw (tid_of, plain) (ground (arith, plain))
      ]

  abbrev pub Mgmt : Mbuf → Tx Q → Tx Q → Type 0
  Mgmt m s s' =
      (fifo.contents s'.mgmt_q ≡ fifo.contents s.mgmt_q ++ m ∷ [])
      × (s'.data_q ≡ s.data_q)
      × (s'.data_vo_q ≡ s.data_vo_q)
      × (s'.pending_q ≡ s.pending_q)

  abbrev pub VoiceSent : Mbuf → Tx Q → Tx Q → Type 0
  VoiceSent m s s' =
      (fifo.contents s'.data_vo_q ≡ fifo.contents s.data_vo_q ++ m ∷ [])
      × (s'.data_q ≡ s.data_q)
      × (s'.mgmt_q ≡ s.mgmt_q)
      × (s'.pending_q ≡ s.pending_q)

  abbrev pub BestEffort : Mbuf → Tx Q → Tx Q → Type 0
  BestEffort m s s' =
      (fifo.contents s'.data_q ≡ fifo.contents s.data_q ++ m ∷ [])
      × (s'.data_vo_q ≡ s.data_vo_q)
      × (s'.mgmt_q ≡ s.mgmt_q)
      × (s'.pending_q ≡ s.pending_q)

  -- A frame that was taken is at the end of the one queue where it belongs, and the others are as
  -- they were.
  abbrev pub Went : Mbuf → Tx Q → Tx Q → Type 0
  Went m s s' =
      (Gated s m.bytes × Parked m s s')
      ⊎ ((¬ Gated s m.bytes × ¬ Data m.bytes × Mgmt m s s')
          ⊎ ((eapol : Option ℕ) × ¬ Gated s m.bytes
              × Data m.bytes
              × (eapol_key_info net m.bytes ≡ ok eapol)
              × ((Voice eapol m.bytes × VoiceSent m s s')
                  ⊎ (¬ Voice eapol m.bytes × BestEffort m s s'))))

  -- The queue where the frame belongs does not take it.
  abbrev pub Full : Mbuf → Tx Q → Type 0
  Full m s =
      (Gated s m.bytes × (net.enqueue m s.pending_q ≡ none))
      ⊎ ((¬ Gated s m.bytes × ¬ Data m.bytes × (net.enqueue m s.mgmt_q ≡ none))
          ⊎ ((eapol : Option ℕ) × ¬ Gated s m.bytes
              × Data m.bytes
              × (eapol_key_info net m.bytes ≡ ok eapol)
              × ((Voice eapol m.bytes × (net.enqueue m s.data_vo_q ≡ none))
                  ⊎ (¬ Voice eapol m.bytes × (net.enqueue m s.data_q ≡ none)))))

  -- Why a frame is refused.
  abbrev pub Refused : Mbuf → Tx Q → Errno → Type 0
  Refused m s e =
      ((e ≡ einval) × ((length m.bytes ≡ 0) ⊎ (0xffff < length m.bytes)))
      ⊎ (((e ≡ emsgsize) × (16384 < length m.bytes + 48)) ⊎ ((e ≡ enobufs) × Full m s))

  -- The look for a key reads past the end of the frame.
  abbrev pub Overread : Mbuf → Tx Q → Type 0
  Overread m s = ¬ Gated s m.bytes × Data m.bytes × (eapol_key_info net m.bytes ≡ err undefined)

  -- Taken where it belongs, or refused for a reason and every queue as it was, or read past its end.
  abbrev pub Outcome : Mbuf → Tx Q → Result (Unit {0}) × Tx Q → Type 0
  Outcome m s out =
      ((out.0 ≡ ok tt) × Went m s out.1)
      ⊎ (((e : Errno) × (out.0 ≡ err e) × Refused m s e × Same s out.1)
          ⊎ ((out.0 ≡ err undefined) × Overread m s × Same s out.1))

  -- A queue takes the frame or is full.
  Put : (Tx Q → Tx Q → Type 0) → Q → Mbuf → Tx Q → Result (Unit {0}) × Tx Q → Type 0
  Put Sent q m s out =
      ((out.0 ≡ ok tt) × Sent s out.1)
      ⊎ ((out.0 ≡ err enobufs) × (net.enqueue m q ≡ none) × Same s out.1)

  park-Put : (m : Mbuf) (s : Tx Q) → Put (Parked m) s.pending_q m s (park net m s)
  unfolding park Put
  park-Put m s = elim (Option-cases (net.enqueue m s.pending_q)) [
    | inl e ↦ rw e (inr (refl, refl, (refl, refl, refl, refl)))
    | inr (q, e) ↦ rw e (inl (refl, (refl, refl, refl, fifo.taken m s.pending_q q e, refl)))
  ]

  put_mgmt-Put : (m : Mbuf) (s : Tx Q) → Put (Mgmt m) s.mgmt_q m s (put_mgmt net m s)
  unfolding put_mgmt refuse Put
  put_mgmt-Put m s = elim (Option-cases (net.enqueue m s.mgmt_q)) [
    | inl e ↦ rw e (inr (refl, refl, (refl, refl, refl, refl)))
    | inr (q, e) ↦ rw e (inl (refl, (fifo.taken m s.mgmt_q q e, refl, refl, refl)))
  ]

  put_vo-Put : (m : Mbuf) (s : Tx Q) → Put (VoiceSent m) s.data_vo_q m s (put_vo net m s)
  unfolding put_vo refuse Put
  put_vo-Put m s = elim (Option-cases (net.enqueue m s.data_vo_q)) [
    | inl e ↦ rw e (inr (refl, refl, (refl, refl, refl, refl)))
    | inr (q, e) ↦ rw e (inl (refl, (fifo.taken m s.data_vo_q q e, refl, refl, refl)))
  ]

  put_be-Put : (m : Mbuf) (s : Tx Q) → Put (BestEffort m) s.data_q m s (put_be net m s)
  unfolding put_be refuse Put
  put_be-Put m s = elim (Option-cases (net.enqueue m s.data_q)) [
    | inl e ↦ rw e (inr (refl, refl, (refl, refl, refl, refl)))
    | inr (q, e) ↦ rw e (inl (refl, (fifo.taken m s.data_q q e, refl, refl, refl)))
  ]

  pub eapol_key_info_err :
      (bytes : List ℕ) (e : Errno) → eapol_key_info net bytes ≡ err e → e ≡ undefined
  unfolding eapol_key_info
  eapol_key_info_err bytes e h = ground (arith, h)

  put_data-Outcome :
      (m : Mbuf) (s : Tx Q)
      → ¬ Gated s m.bytes
      → Data m.bytes
      → (key : Result (Option ℕ)) → eapol_key_info net m.bytes ≡ key
      → Outcome m s (put_data net key m s)
  unfolding put_data Put
  put_data-Outcome m s passes d (err e) k =
      let past = eapol_key_info_err m.bytes e k in
      inr (
        inr (ap (λ x. err x) past, (passes, d, k ∙ ap (λ x. err x) past), (refl, refl, refl, refl)))
  put_data-Outcome m s passes d (ok eapol) k = elim (Voice-cases eapol m.bytes) [
    | inl (e, voice) ↦ elim (put_vo-Put m s) [
      | inl (r, went) ↦ rw e (inl (r, inr (inr (eapol, passes, d, k, inl (voice, went)))))
      | inr (r, full, kept) ↦ rw e (
          inr (
            inl (
              enobufs,
              r,
              inr (inr (refl, inr (inr (eapol, passes, d, k, inl (voice, full))))),
              kept,
            )))
    ]
    | inr (e, other) ↦ elim (put_be-Put m s) [
      | inl (r, went) ↦ rw e (inl (r, inr (inr (eapol, passes, d, k, inr (other, went)))))
      | inr (r, full, kept) ↦ rw e (
          inr (
            inl (
              enobufs,
              r,
              inr (inr (refl, inr (inr (eapol, passes, d, k, inr (other, full))))),
              kept,
            )))
    ]
  ]

  route-Outcome : (m : Mbuf) (s : Tx Q) → ¬ Gated s m.bytes → Outcome m s (route net m s)
  unfolding route Put
  route-Outcome m s passes = elim (Data-cases m.bytes) [
    | inl (e, d) ↦ rw e (put_data-Outcome m s passes d (eapol_key_info net m.bytes) refl)
    | inr (e, other) ↦ elim (put_mgmt-Put m s) [
      | inl (r, went) ↦ rw e (inl (r, inr (inl (passes, other, went))))
      | inr (r, full, kept) ↦
          rw e (inr (inl (enobufs, r, inr (inr (refl, inr (inl (passes, other, full)))), kept)))
    ]
  ]

  gate-Outcome :
      (m : Mbuf) (s : Tx Q)
      → Outcome m s ((if is_gated s m.bytes then park net m else route net m) s)
  unfolding Put
  gate-Outcome m s = elim (Gated-cases s m.bytes) [
    | inl (e, gated) ↦ elim (park-Put m s) [
      | inl (r, parked) ↦ rw e (inl (r, inl (gated, parked)))
      | inr (r, full, kept) ↦
          rw e (inr (inl (enobufs, r, inr (inr (refl, inl (gated, full))), kept)))
    ]
    | inr (e, passes) ↦ rw e (route-Outcome m s passes)
  ]

  -- Every frame that the enqueue is given goes to the end of exactly one queue, or it is refused and
  -- no queue changes, or its look for a key reads past its end. Refused is a frame without bytes or
  -- longer than 65535 with EINVAL, one that does not fit with its descriptor with EMSGSIZE, and one
  -- whose queue is full with ENOBUFS. Where it belongs: protected data to one station, while the
  -- pairwise key is being installed, to the pending queue, and no transfer is started; of the others,
  -- a frame that is not data to the management queue, an EAPOL key or a TID from 4 on to the voice
  -- queue, and other data to the best-effort queue. The packet queues are assumed to be first in,
  -- first out.
  pub tx_enqueue-Outcome : (m : Mbuf) (s : Tx Q) → Outcome m s (tx_enqueue net m s)
  unfolding tx_enqueue
  tx_enqueue-Outcome m s = elim (Bool-cases (length m.bytes == 0 || ltb 0xffff (length m.bytes))) [
    | inl e ↦
        rw e (inr (inl (einval, refl, inl (refl, ground (arith, e)), (refl, refl, refl, refl))))
    | inr e ↦ elim (Bool-cases (ltb 16384 (length m.bytes + 48))) [
      | inl f ↦
          rw (e, f)
            (inr
              (inl (emsgsize, refl, inr (inl (refl, ground (arith, f))), (refl, refl, refl, refl))))
      | inr f ↦ rw (e, f) (gate-Outcome m s)
    ]
  ]
