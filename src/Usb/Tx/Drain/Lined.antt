-- ===== src/Usb/Tx/Drain/Lined.antt =====
-- A drain loses no frame and keeps their order.
use rtw88_pub.Base.{
  ℕ, ◌+◌, ◌≡◌, refl, sym, ap, Bool, true, false, ◌&&◌, ◌||◌, List, [], ◌∷◌, Option, none, some,
  Option-cases, Bool-cases, inl, inr, Result, ok, err, Errno, M, modify, when, Triple, Triple-seq,
  Post, u16, ltb, ◌==◌, length,
}
use rtw88_pub.Usb.Tx.{Mbuf, Net, is_data, eapol_key_info}
use rtw88_pub.Usb.Tx.Gate.{Fifo}
use rtw88_pub.Usb.Firmware.Packet.{tx_bufsz, tx_pkt_desc_sz}
use rtw88_pub.Usb.Tx.Drain.{
  Peers, Drain, is_promoted, is_eapol, is_unnumbered, give_back, submit_frame, submit_promoted,
  drain_keyed, drain_frame, drain_q,
}

-- Frames that were given back, the last one first, before others.
abbrev pub in_order : List Mbuf → List Mbuf → List Mbuf
in_order [] rest = rest
in_order (m ∷ freed) rest = in_order freed (m ∷ rest)

abbrev pub ahead : Option Mbuf → List Mbuf → List Mbuf
ahead none rest = rest
ahead (some m) rest = m ∷ rest

abbrev Ignored : Errno → {S : Type 0} → S → Type 0
Ignored e s = Unit {0}

module _ {Q : Type 0} {net : Net Q} (fifo : Fifo net) where
  -- The frames given back, the frame on its way, the frames in the queue.
  abbrev pub line : List Mbuf → Option Mbuf → Q → List Mbuf
  line freed inflight queue = in_order freed (ahead inflight (fifo.contents queue))

  abbrev pub Lined : List Mbuf → Drain Q → Type 0
  Lined l d = line d.freed d.inflight d.queue ≡ l

  -- The frame has left the queue and has no place yet.
  abbrev Taken : List Mbuf → Mbuf → Drain Q → Type 0
  Taken l m d = in_order d.freed (m ∷ fifo.contents d.queue) ≡ l

  abbrev Keeps : {A : Type 0} → (Drain Q → Type 0) → (Drain Q → Type 0) → M (Drain Q) A → Type 0
  Keeps P R m = Triple P (λ _. R) (λ _ _. Unit {0}) m

  when-Taken :
      (l : List Mbuf) (m : Mbuf) (b : Bool) (f : Drain Q → Drain Q)
      → ((d : Drain Q) → Taken l m d → Taken l m (f d))
      → Keeps (Taken l m) (Taken l m) (when b (modify f))
  when-Taken l m true f h = record { runs = h }
  when-Taken l m false f h = record { runs = λ d p. p }

  give_back-Lined :
      (l : List Mbuf) (m : Mbuf)
      → Triple
          (λ d. Taken l m d × (d.inflight ≡ none))
          (λ _. Lined l)
          (λ _ _. Unit {0})
          (give_back m)
  unfolding give_back
  give_back-Lined l m = record { runs = λ d (p, empty). rw empty p }

  submit_frame-Lined :
      (l : List Mbuf) (m : Mbuf) (desc frame : List ℕ)
      → Keeps (Taken l m) (Lined l) (submit_frame m desc frame)
  unfolding submit_frame
  submit_frame-Lined l m desc frame =
      Triple-seq (Taken l m) (when-Taken l m (is_unnumbered frame) _ (λ d p. p))
        (record { runs = λ d p. p })

  submit_promoted-Lined :
      (l : List Mbuf) (m : Mbuf) (eapol : Bool) (desc frame : List ℕ)
      → Keeps (Taken l m) (Lined l) (submit_promoted m eapol desc frame)
  unfolding submit_promoted
  submit_promoted-Lined l m eapol desc frame =
      elim (Bool-cases (is_promoted (length frame) frame)) [
        | inl grows ↦ rw (submit_promoted, grows) (submit_frame-Lined l m _ _)
        | inr stays ↦ rw (submit_promoted, stays) (submit_frame-Lined l m desc frame)
      ]

  module _ (peers : Peers) where
    drain_keyed-Lined :
        (l : List Mbuf) (r : Result (Option ℕ)) (m : Mbuf)
        → Keeps (Taken l m) (Lined l) (drain_keyed net peers r m)
    unfolding drain_keyed
    drain_keyed-Lined l (err e) m = record { runs = λ d p. tt }
    drain_keyed-Lined l (ok info) m =
        Triple-seq (Taken l m) (when-Taken l m (is_data m.bytes && is_eapol info) _ (λ d p. p))
          (record { runs = λ d p. (submit_promoted-Lined l m (is_eapol info) _ _).runs d p })

    drain_frame-Lined :
        (l : List Mbuf) (m : Mbuf)
        → Triple
            (λ d. Taken l m d × (d.inflight ≡ none))
            (λ _. Lined l)
            (λ _ _. Unit {0})
            (drain_frame net peers m)
    unfolding drain_frame
    drain_frame-Lined l m =
        let size = u16 (length m.bytes) in
        elim (Bool-cases ((size == 0) || ltb tx_bufsz (size + tx_pkt_desc_sz))) [
          | inl e ↦ rw (drain_frame, e) (give_back-Lined l m)
          | inr e ↦
              rw (drain_frame, e)
                (record {
                  runs =
                      λ d (p, empty). (drain_keyed-Lined l (eapol_key_info net m.bytes) m).runs d p;
                })
        ]

    -- A drain with nothing on its way moves the first frame on, and loses none.
    pub drain_q-Lined :
        (d : Drain Q)
        → d.inflight ≡ none
        → Post
            (λ _. Lined (line d.freed none d.queue))
            (λ _ _. Unit {0})
            (drain_q net peers d).0
            (drain_q net peers d).1
    unfolding drain_q
    drain_q-Lined d empty = elim (Option-cases (net.dequeue d.queue)) [
      | inl e ↦ rw (drain_q, e) (rw empty refl)
      | inr (taken, e) ↦
          rw (drain_q, e)
            ((drain_frame-Lined (line d.freed none d.queue) taken.0).runs
              (record d { queue = taken.1 })
              (ap (in_order d.freed) (sym (fifo.out d.queue taken.1 taken.0 e)), empty))
    ]
