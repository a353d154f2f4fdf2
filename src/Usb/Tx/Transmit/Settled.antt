-- ===== src/Usb/Tx/Transmit/Settled.antt =====
-- What becomes of a frame that is handed over for transmission.
use rtw88_pub.Base.{
  ◌≡◌, refl, ap, subst, ◌∙◌, ◌⊎◌, inl, inr, Bool, true, ℕ, List, ◌∷◌, none, some, Result, ok, err,
  Errno, enobufs, enomem, undefined,
}
use rtw88_pub.Usb.Tx.{Mbuf, Net, Tx, tx_enqueue}
use rtw88_pub.Usb.Tx.Gate.{Fifo, Same, Went, Refused, Overread, tx_enqueue-Outcome}
use rtw88_pub.Usb.Tx.Transmit.{
  Mbufs, Xmit, finish, enqueue_or_free, encap_and_enqueue, transmit, raw_xmit,
}
use rtw88_pub.Usb.Tx.Transmit.Forms.{
  IsPast, Wide, NoMemory, Seen, Marked, Encrypted4, Ready, maybe_upgrade_eapol_qos-Upgraded,
  crypto_encap_if_needed-Encrypts,
}

module _ {Q : Type 0} (mbufs : Mbufs) {net : Net Q} (fifo : Fifo net) where
  -- Why a frame that is past the upgrade is not sent, and what is freed then.
  abbrev pub Stopped : Bool → Xmit Q → Mbuf → Errno → List ℕ → Type 0
  Stopped has_node x w e freed =
      ((e ≡ undefined) × IsPast mbufs net w.bytes × (freed ≡ x.freed))
      ⊎ (((e ≡ enobufs)
            × Seen mbufs net has_node w
            × Marked mbufs net w true
            × (net.encap w ≡ none)
            × (freed ≡ w.tag ∷ x.freed))
          ⊎ ((m' : Mbuf) × (s : Tx Q) × Ready mbufs net has_node w x.tx m' s
              × (Refused fifo m' s e ⊎ ((e ≡ undefined) × Overread fifo m' s))
              × (freed ≡ w.tag ∷ x.freed)))

  abbrev pub Lost : Bool → Xmit Q → Mbuf → Errno → List ℕ → Type 0
  Lost has_node x m e freed =
      ((e ≡ undefined) × IsPast mbufs net m.bytes × (freed ≡ x.freed))
      ⊎ (((e ≡ enomem) × ((tag : ℕ) × NoMemory mbufs net x m tag × (freed ≡ tag ∷ x.freed)))
          ⊎ ((w : Mbuf) × Wide mbufs net x m w × Stopped has_node x w e freed))

  -- Sent: the frame, as the upgrade and the encryption make it, is at the end of the one queue where
  -- it belongs, from the queues before, and none is freed. Lost: the queues are as they were.
  abbrev pub Sent : Bool → Xmit Q → Mbuf → Xmit Q → Type 0
  Sent has_node x w x' =
      ((m' : Mbuf) × (s : Tx Q) × Ready mbufs net has_node w x.tx m' s × Went fifo m' s x'.tx)
      × (x'.freed ≡ x.freed)

  abbrev pub IsSettled : Bool → Mbuf → Xmit Q → Result (Unit {0}) × Xmit Q → Type 0
  IsSettled has_node m x out =
      ((out.0 ≡ ok tt) × ((w : Mbuf) × Wide mbufs net x m w × Sent has_node x w out.1))
      ⊎ ((e : Errno) × (out.0 ≡ err e) × Same fifo x.tx out.1.tx × Lost has_node x m e out.1.freed)

  -- The same of a frame that is past the upgrade.
  abbrev Ended : Bool → Xmit Q → Mbuf → Result (Unit {0}) × Xmit Q → Type 0
  Ended has_node x w out =
      ((out.0 ≡ ok tt) × Sent has_node x w out.1)
      ⊎ ((e : Errno) × (out.0 ≡ err e)
          × Same fifo x.tx out.1.tx
          × Stopped has_node x w e out.1.freed)

  equal-Same : (s s' : Tx Q) → s' ≡ s → Same fifo s s'
  equal-Same s s' e = (
    ap (λ (t : Tx Q). t.mgmt_q) e,
    ap (λ (t : Tx Q). t.data_q) e,
    ap (λ (t : Tx Q). t.data_vo_q) e,
    ap (λ (t : Tx Q). t.pending_q) e,
  )

  Same-trans : (s t u : Tx Q) → Same fifo s t → Same fifo t u → Same fifo s u
  Same-trans s t u h k = (k.0 ∙ h.0, k.1 ∙ h.1, k.2 ∙ h.2, k.3 ∙ h.3)

  Encrypted4-Same : (w m' : Mbuf) (s s' : Tx Q) → Encrypted4 mbufs net w s m' s' → Same fifo s s'
  Encrypted4-Same w m' s s' (inl (_, e)) = equal-Same s s' e
  Encrypted4-Same w m' s s' (inr (_, inl (held, _, e, _))) = equal-Same s s' e
  Encrypted4-Same w m' s s' (inr (_, inr (_, _, e))) =
      equal-Same (record s { m4_needs_encap = some w.tag; ptk_install_pending = true }) s' e

  Ready-Same :
      (has_node : Bool) (w m' : Mbuf) (s s' : Tx Q)
      → Ready mbufs net has_node w s m' s'
      → Same fifo s s'
  Ready-Same has_node w m' s s' (inl (_, e, _)) = equal-Same s s' e
  Ready-Same has_node w m' s s' (inr (inl (_, _, _, e))) = equal-Same s s' e
  Ready-Same has_node w m' s s' (inr (inr (_, _, _, four))) = Encrypted4-Same w m' s s' four

  finish-Ended :
      (has_node : Bool) (w m' : Mbuf) (x x' : Xmit Q)
      → Ready mbufs net has_node w x.tx m' x'.tx
      → x'.freed ≡ x.freed
      → Ended has_node x w (enqueue_or_free mbufs net w (some m') x')
  unfolding enqueue_or_free finish
  finish-Ended has_node w m' x x' ready f =
      let same = Ready-Same has_node w m' x.tx x'.tx ready in
      let after = (tx_enqueue net m' x'.tx).1 in
      elim (tx_enqueue-Outcome fifo m' x'.tx) [
        | inl (taken, went) ↦ rw taken (inl (refl, ((m', x'.tx, ready, went), f)))
        | inr (inl (e, refused, why, kept)) ↦ rw refused (
            inr (
              e,
              refl,
              Same-trans x.tx x'.tx after same kept,
              inr (inr (m', x'.tx, ready, inl why, ap (λ l. w.tag ∷ l) f)),
            ))
        | inr (inr (refused, over, kept)) ↦ rw refused (
            inr (
              undefined,
              refl,
              Same-trans x.tx x'.tx after same kept,
              inr (inr (m', x'.tx, ready, inr (refl, over), ap (λ l. w.tag ∷ l) f)),
            ))
      ]

  encap_and_enqueue-Ended :
      (has_node : Bool) (w : Mbuf) (x : Xmit Q)
      → Ended has_node x w (encap_and_enqueue mbufs net has_node (some w) x)
  unfolding encap_and_enqueue enqueue_or_free
  encap_and_enqueue-Ended has_node w x =
      elim (crypto_encap_if_needed-Encrypts mbufs net has_node w x) [
        | inl (m', x', e, ready, f) ↦ rw e (finish-Ended has_node w m' x x' ready f)
        | inr (inl (e, seen, marked, failed)) ↦ rw e (
            inr (
              enobufs,
              refl,
              equal-Same x.tx x.tx refl,
              inr (inl (refl, seen, marked, failed, refl)),
            ))
        | inr (inr (e, past)) ↦
            rw e (inr (undefined, refl, equal-Same x.tx x.tx refl, inl (refl, past, refl)))
      ]

  -- The end depends on what is queued and freed before.
  widened :
      (has_node : Bool) (m w : Mbuf) (x x' : Xmit Q) (out : Result (Unit {0}) × Xmit Q)
      → Wide mbufs net x m w
      → x'.tx ≡ x.tx
      → x'.freed ≡ x.freed
      → Ended has_node x' w out
      → IsSettled has_node m x out
  widened has_node m w x x' out wide t f ended =
      let queued = subst (λ s. Ended has_node (record x' { tx = s }) w out) t ended in
      let there : Ended has_node x w out =
        subst (λ freed. Ended has_node (record x' { tx = x.tx; freed = freed }) w out) f queued in
      elim there [
        | inl (done, sent) ↦ inl (done, (w, wide, sent))
        | inr (e, failed, kept, stopped) ↦ inr (e, failed, kept, inr (inr (w, wide, stopped)))
      ]

  sent_or_lost :
      (has_node : Bool) (m : Mbuf) (x : Xmit Q)
      → IsSettled has_node m x (transmit mbufs net has_node m x)
  unfolding transmit encap_and_enqueue
  sent_or_lost has_node m x = elim (maybe_upgrade_eapol_qos-Upgraded mbufs net m x) [
    | inl (w, x', e, wide, t, f) ↦ rw e (
        widened has_node m w x x' (encap_and_enqueue mbufs net has_node (some w) x') wide t f
          (encap_and_enqueue-Ended has_node w x'))
    | inr (inl (tag, x', e, starved, t, f)) ↦
        rw e (inr (enomem, refl, equal-Same x.tx x'.tx t, inr (inl (refl, (tag, starved, f)))))
    | inr (inr (e, past)) ↦
        rw e (inr (undefined, refl, equal-Same x.tx x.tx refl, inl (refl, past, refl)))
  ]

  -- A frame from net80211, with or without a node, or from a raw socket is sent or lost, never both
  -- and never twice. Sent, it goes to the end of the one queue where it belongs and is not freed: as
  -- QoS data exactly where the upgrade is on, it is an EAPOL key and long enough, and encrypted where
  -- it has a node and its header says that it is protected; a fourth message of the handshake that
  -- is not marked yet is marked and encrypted, or where that fails held behind the shut gate, or sent
  -- in the clear while another one is held. Lost, no queue changes, and the error is the one of the
  -- reason: no memory for the upgrade, no encryption, or a queue that refuses the frame, where exactly
  -- the frame handed over is freed; or a look for a key past the end of the frame. The packet queues
  -- are assumed to be first in, first out.
  pub transmit-IsSettled :
      (has_node : Bool) (m : Mbuf) (x : Xmit Q)
      → IsSettled has_node m x (transmit mbufs net has_node m x)
        × IsSettled true m x (raw_xmit mbufs net m x)
  unfolding raw_xmit
  transmit-IsSettled has_node m x = (sent_or_lost has_node m x, sent_or_lost true m x)
